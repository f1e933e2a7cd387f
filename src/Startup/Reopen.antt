-- ===== src/Startup/Reopen.antt =====
-- Opening a library of the host after `init`.
use dlopen_rs.Base.{
  sym, Bool-cases, length, is_some, arith, subst, ℕ, ◌≡◌, ◌⊎◌, ◌<◌, inl, inr, refl, ap, ◌∙◌, true,
  false, List, [], ◌∷◌, some, none, ◌==◌, last?,
}
use dlopen_rs.Base.Text.{text_eq_refl, Text, split, text_eq}
use dlopen_rs.Base.IndexMap.{get, get-insert}
use dlopen_rs.Error.{Result, ok}
use dlopen_rs.Flags.{OpenFlags, contains, difference, rtld_global}
use dlopen_rs.Flags.Laws.{contains-difference_global}
use dlopen_rs.Loader.{ElfLibrary, Platform}
use dlopen_rs.Register.{Manager, GlobalDylib, get_dylib, register, entry}
use dlopen_rs.Dlopen.Open.{dlopen_impl}
use dlopen_rs.DebugList.{debug_unset, LinkMap, CustomDebug}
use dlopen_rs.Startup.{HostLoader, Program, Dynamic, init, take_list, existing_flags, incomplete}
use dlopen_rs.Startup.Host.{AllReadable, Hosted, existing, with_existing, registered, deps_of}
use dlopen_rs.Startup.Loop.{IsFresh}
use dlopen_rs.Startup.Walk.{init-IsStarted}

-- One of the link maps is of a library with this short name and a load address.
abbrev pub Hosts :
    (host : HostLoader) (links : List LinkMap) → AllReadable host links → Text → Type 0
Hosts host [] r name = ⊥
Hosts host (link ∷ links) r name =
    (((link.l_addr == 0) ≡ false) × ((existing host link r.0.raw r.0.name).shortname ≡ name))
    ⊎ Hosts host links r.1 name

-- The manager has a library of the host under this name.
record IsPresent (m : Manager) (name : Text) : Type 0 where
  lib : GlobalDylib
  found : get name m.all ≡ some lib
  flags : lib.flags ≡ existing_flags
  boxed : is_some lib.deps ≡ true

module _ (host : HostLoader) where
  with_existing-IsPresent :
      (link : LinkMap) (raw : Dynamic) (text name : Text) (m : Manager)
      → IsPresent m name
      → IsPresent (with_existing host link raw text m) name
  unfolding register
  with_existing-IsPresent link raw text name m h = elim (Bool-cases (link.l_addr == 0)) [
    | inl null ↦ rw null h
    | inr there ↦
        let core = existing host link raw text in
        let moved =
          get-insert core.shortname name
            (entry core existing_flags (deps_of host m core) false none) m.all in
        elim (Bool-cases (text_eq core.shortname name)) [
          | inl same ↦ rw there (record {
            lib = entry core existing_flags (deps_of host m core) false none;
            found = moved ∙ rw same;
            flags = refl;
            boxed = refl;
          })
          | inr other ↦ rw there (record {
            lib = h.lib;
            found = moved ∙ rw other h.found;
            flags = h.flags;
            boxed = h.boxed;
          })
        ]
  ]

  with_existing-IsPresent_own :
      (link : LinkMap) (raw : Dynamic) (text : Text) (m : Manager)
      → (link.l_addr == 0) ≡ false
      → IsPresent (with_existing host link raw text m) (existing host link raw text).shortname
  unfolding register
  with_existing-IsPresent_own link raw text m there =
      let core = existing host link raw text in
      let lib = entry core existing_flags (deps_of host m core) false none in
      rw there (record {
        lib = lib;
        found =
            get-insert core.shortname core.shortname lib m.all ∙ rw (text_eq_refl core.shortname);
        flags = refl;
        boxed = refl;
      })

  registered-IsPresent :
      (links : List LinkMap) (r : AllReadable host links) (name : Text) (m : Manager)
      → IsPresent m name ⊎ Hosts host links r name
      → IsPresent (registered host links r m) name
  registered-IsPresent [] r name m (inl h) = h
  registered-IsPresent [] r name m (inr i) = absurd i
  registered-IsPresent (link ∷ links) r name m (inl h) =
      registered-IsPresent links r.1 name (with_existing host link r.0.raw r.0.name m)
        (inl (with_existing-IsPresent link r.0.raw r.0.name name m h))
  registered-IsPresent (link ∷ links) r name m (inr (inl (there, named))) =
      registered-IsPresent links r.1 name (with_existing host link r.0.raw r.0.name m) (
        inl (
          subst (IsPresent (with_existing host link r.0.raw r.0.name m)) named
            (with_existing-IsPresent_own link r.0.raw r.0.name m there)))
  registered-IsPresent (link ∷ links) r name m (inr (inr i)) =
      registered-IsPresent links r.1 name (with_existing host link r.0.raw r.0.name m) (inr i)

existing_flags-global : contains existing_flags rtld_global ≡ true
unfolding contains
existing_flags-global = refl

open_present :
    (p : Platform) (fresh : ℕ) (path name : Text) (flags : OpenFlags) (f : Result ElfLibrary)
    (m : Manager) (h : IsPresent m name)
    → last? (split b'/' path) ≡ some name
    → dlopen_impl p fresh path flags f m ≡ (ok (get_dylib h.lib), m)
unfolding dlopen_impl
open_present p fresh path name flags f m h named =
    let quiet : contains (difference flags h.lib.flags) rtld_global ≡ false =
      ap (λ g. contains (difference flags g) rtld_global) h.flags
      ∙ contains-difference_global flags existing_flags (omega arith)
      ∙ ground (arith, existing_flags-global) in
    rw (named, dlopen_impl, h.found, h.boxed, quiet)

-- After the first `init`, opening a library of the host by any path whose last component is its
-- short name returns the registered library, whatever the flags, loads nothing and leaves the
-- manager as it is. (The link maps can be read, a libc has `dl_iterate_phdr`, the allocator's new
-- boxes are not in use, there is more fuel than link maps, no load before `init` has poisoned
-- `DEBUG`, and the library has a load address.)
pub dlopen_impl-init :
    (host : HostLoader) (fuel : ℕ) (exe : Text) (s : Program) (links : List LinkMap)
    (r : AllReadable host links) (IsValid : CustomDebug → Type 0) (p : Platform) (fresh : ℕ)
    (path name : Text) (flags : OpenFlags) (f : Result ElfLibrary)
    → IsFresh host IsValid
    → IsValid (take_list s.debug)
    → host.current_exe ≡ some exe
    → length links < fuel
    → s.once ≡ incomplete
    → s.debug.lock ≡ debug_unset
    → Hosted s.debug.heap s.debug.map links
    → Hosts host links r name
    → last? (split b'/' path) ≡ some name
    → (lib : GlobalDylib) × (get name (init host fuel s).1.manager.all ≡ some lib)
      × (dlopen_impl p fresh path flags f (init host fuel s).1.manager
          ≡ (ok (get_dylib lib), (init host fuel s).1.manager))
dlopen_impl-init host fuel exe s links r IsValid p fresh path name flags f new_boxes valid started
      enough first unlocked hosted inside named =
    let (out, _) =
      init-IsStarted host fuel exe s links r IsValid new_boxes valid started enough first unlocked
        hosted in
    let h : IsPresent (init host fuel s).1.manager name =
      subst (λ m. IsPresent m name) (sym out.manager)
        (registered-IsPresent host links r name s.manager (inr inside)) in
    (h.lib, h.found, open_present p fresh path name flags f (init host fuel s).1.manager h named)
