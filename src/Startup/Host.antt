-- ===== src/Startup/Host.antt =====
-- The link maps of the host, and what `init` makes of one of them.
use dlopen_rs.Base.{
  find_map, Bool-cases, ℕ, ◌≡◌, ◌≢◌, ◌⊎◌, inl, inr, true, false, List, [], ◌∷◌, ◌++◌, Option, none,
  some, if◌then◌else◌, ◌==◌,
}
use dlopen_rs.Base.Text.{Text, codes, has_text}
use dlopen_rs.Error.{ok, success}
use dlopen_rs.Loader.{CoreComponent, Deps, Dylib, get_symbol, find_symbol}
use dlopen_rs.Register.{Manager, register}
use dlopen_rs.DebugList.{LinkMap, Heap, new}
use dlopen_rs.DebugList.Extend.{Shows}
use dlopen_rs.Startup.{
  HostLoader, Program, Dynamic, base_of, versions_of, existing_flags, register_existing,
  add_debug_info, from_link_map, note_libc,
}

-- The host's loader has these nodes, from this address on.
abbrev pub Hosted : Heap → ℕ → List LinkMap → Type 0
Hosted h cur [] = cur ≡ 0
Hosted h cur (link ∷ links) = (cur ≢ 0) × (h cur ≡ some link) × Hosted h link.l_next links

-- Each of these addresses has a node like the one of the other list.
abbrev pub ShowsAll : Heap → List ℕ → List LinkMap → Type 0
ShowsAll h [] [] = Unit {0}
ShowsAll h [] (like ∷ likes) = ⊥
ShowsAll h (x ∷ xs) [] = ⊥
ShowsAll h (x ∷ xs) (like ∷ likes) = Shows h x like × ShowsAll h xs likes

-- the nodes with a load address, behind others
abbrev pub with_addr : List LinkMap → List LinkMap → List LinkMap
with_addr [] likes = likes
with_addr (link ∷ links) likes =
    if link.l_addr == 0 then with_addr links likes else with_addr links (likes ++ link ∷ [])

module _ (host : HostLoader) where
  -- the library of a node, with its dynamic section and its name
  abbrev pub existing : LinkMap → Dynamic → Text → CoreComponent
  existing link raw name =
      let base = base_of raw link.l_addr in
      host.new_uncheck name link.l_addr
        (versions_of (host.finish_dynamic raw base) link.l_addr base)

  abbrev pub deps_of : Manager → CoreComponent → Option Deps
  deps_of m core = some (record { addr = host.arc_new m; items = core ∷ [] })

  abbrev pub with_existing : LinkMap → Dynamic → Text → Manager → Manager
  with_existing link raw name m =
      if link.l_addr == 0
      then m
      else let core = existing link raw name in
        register core existing_flags (deps_of m core) m false none

  -- The dynamic section and the name of a node can be read, and a libc has `dl_iterate_phdr`.
  pub record IsReadable (link : LinkMap) : Type 0 where
    pub raw : Dynamic
    pub name : Text
    pub raw_eq : host.raw_dynamic link.l_ld ≡ success raw
    pub name_eq : host.c_str link.l_name ≡ some name
    pub symbol :
        (has_text (codes "libc.so") (existing link raw name).name ≡ false)
        ⊎ ((addr : ℕ) × ((existing link raw name).symbol (codes "dl_iterate_phdr") ≡ some addr))

  abbrev pub AllReadable : List LinkMap → Type 0
  AllReadable [] = Unit {0}
  AllReadable (link ∷ links) = IsReadable link × AllReadable links

  -- the manager with the libraries of the nodes, one after the other
  abbrev pub registered : (links : List LinkMap) → AllReadable links → Manager → Manager
  registered [] r m = m
  registered (link ∷ links) r m = registered links r.1 (with_existing link r.0.raw r.0.name m)

  pub from_link_map-null :
      (link : LinkMap) (s : Program)
      → IsReadable link
      → (link.l_addr == 0) ≡ true
      → from_link_map host link s ≡ (ok none, s)
  unfolding from_link_map
  from_link_map-null link s r null = rw (r.raw_eq, r.name_eq, null)

  -- the program with the library of a node
  abbrev pub with_library : LinkMap → Dynamic → Text → Program → Program
  with_library link raw name s =
      let core = existing link raw name in
      record s {
        debug = (new (host.box_new s.debug) link.l_addr link.l_name link.l_ld s.debug).1;
        manager = register core existing_flags (deps_of s.manager core) s.manager false none;
      }

  abbrev pub dylib_of : LinkMap → Dynamic → Text → Manager → Dylib
  dylib_of link raw name m =
      let core = existing link raw name in
      record { inner = core; flags = existing_flags; deps = deps_of m core }

  pub from_link_map-some :
      (link : LinkMap) (s : Program) (r : IsReadable link)
      → (link.l_addr == 0) ≡ false
      → (new (host.box_new s.debug) link.l_addr link.l_name link.l_ld s.debug).0
        ≡ ok (host.box_new s.debug)
      → from_link_map host link s
        ≡ (ok (some (dylib_of link r.raw r.name s.manager)), with_library link r.raw r.name s)
  unfolding from_link_map add_debug_info register_existing
  from_link_map-some link s r there added = rw (r.raw_eq, r.name_eq, there, added)

  get_symbol-dylib_of :
      (link : LinkMap) (raw : Dynamic) (name symbol : Text) (m : Manager) (addr : ℕ)
      → (existing link raw name).symbol symbol ≡ some addr
      → get_symbol (dylib_of link raw name m) symbol ≡ ok addr
  unfolding get_symbol find_symbol
  get_symbol-dylib_of link raw name symbol m addr e = rw (find_map, e)

  pub note_libc-some :
      (link : LinkMap) (m : Manager) (s : Program) (r : IsReadable link)
      → (old : Option ℕ) × (note_libc host (some (dylib_of link r.raw r.name m)) s
          ≡ (ok tt, record s { old_dl_iterate_phdr = old }))
  unfolding note_libc get_symbol find_symbol
  note_libc-some link m s r =
      elim (Bool-cases (has_text (codes "libc.so") (existing link r.raw r.name).name)) [
        | inr other ↦ (s.old_dl_iterate_phdr, rw other)
        | inl libc ↦ elim r.symbol [
          | inl not_libc ↦ absurd (cc (libc, not_libc))
          | inr (addr, e) ↦ (
            some addr,
            rw (libc, get_symbol-dylib_of link r.raw r.name (codes "dl_iterate_phdr") m addr e),
          )
        ]
      ]
