-- ===== src/Dlopen/Open/Total.antt =====
-- `dlopen` always ends: the rounds given to the two loops are enough.
use dlopen_rs.Base.{
  [], ℕ, ◌+◌, ◌<◌, ◌≡◌, ◌≢◌, refl, ap, List, ◌∷◌, Option, some, inl, inr, Option-cases, Bool-cases,
  last?, length, arith, ◌&&◌, not, is_some,
}
use dlopen_rs.Base.Text.{Text, split}
use dlopen_rs.Base.IndexMap.{get}
use dlopen_rs.Error.{Result, ok, err, panicked, out_of_fuel}
use dlopen_rs.Flags.{OpenFlags, contains, difference, rtld_global}
use dlopen_rs.Loader.{CoreComponent, ElfLibrary, Platform, from_file, from_open_file, from_binary}
use dlopen_rs.Register.{Manager}
use dlopen_rs.Dlopen.Walk.{Walk, start_walk}
use dlopen_rs.Dlopen.Search.{search_loop, rpath_of}
use dlopen_rs.Dlopen.Search.Budget.{budget, unmarked-le-length, search_loop-ends, ne_fuel-and_then}
use dlopen_rs.Dlopen.Resolve.{Item, resolve_loop}
use dlopen_rs.Dlopen.Resolve.Ends.{cost, pending-le-length, resolve_loop-ends}
use dlopen_rs.Dlopen.Open.{
  guarded, strip, search_fuel, resolve_fuel, finish, open_locked, open_new, dlopen_impl, dlopen,
  dlopen_from_binary,
}

guarded-ends :
    {A : Type 0} (old : Manager) (out : Result A × Manager)
    → out.0 ≢ out_of_fuel
    → (guarded old out).0 ≢ out_of_fuel
unfolding guarded
guarded-ends old (ok a, m) h = λ c. cc
guarded-ends old (err e, m) h = λ c. cc
guarded-ends old (panicked e, m) h = λ c. cc
guarded-ends old (out_of_fuel, m) h = h

module _ (p : Platform) (fresh : ℕ) (flags : OpenFlags) where
  finish-ends : (w : Walk) → (finish p fresh flags w).0 ≢ out_of_fuel
  unfolding finish
  finish-ends w = ground arith

  search-enough :
      (core : CoreComponent) (w : Walk)
      → w.dep_libs ≡ core ∷ []
      → budget w < search_fuel w.manager + 0
  unfolding budget
  search-enough core w e = omega (arith, ap length e, unmarked-le-length w.manager.all)

  pub resolve-enough : (item : Item) (w : Walk) → cost (item ∷ []) w < resolve_fuel w.manager
  unfolding cost
  resolve-enough item w = omega (arith, pending-le-length w.manager.all)

  pub search-ends :
      (core : CoreComponent) (w : Walk)
      → w.dep_libs ≡ core ∷ []
      → (search_loop p flags (search_fuel w.manager) 0 w).0 ≢ out_of_fuel
  search-ends core w e =
      search_loop-ends p flags (search_fuel w.manager) 0 w (search-enough core w e) (omega arith)

  open_locked-ends :
      (core : CoreComponent) (w : Walk)
      → w.dep_libs ≡ core ∷ []
      → (open_locked p fresh flags w).0 ≢ out_of_fuel
  unfolding open_locked
  open_locked-ends core w e =
      ne_fuel-and_then (search_loop p flags (search_fuel w.manager) 0 w) _
        (search_loop-ends p flags (search_fuel w.manager) 0 w (search-enough core w e)
          (omega arith))
        (λ _ w1.
          let first : Item = record { idx = 0; next = 0 } in
          ne_fuel-and_then (resolve_loop p (resolve_fuel w1.manager) (first ∷ []) w1) _
            (resolve_loop-ends p (resolve_fuel w1.manager) (first ∷ []) w1
              (resolve-enough first w1))
            (λ _ w2. finish-ends w2))

module _ (p : Platform) (fresh : ℕ) where
  open_new-ends :
      (flags : OpenFlags) (core : CoreComponent) (new_libs : List (Option ElfLibrary))
      (rpath_vec : List (List Text)) (m : Manager)
      → (open_new p fresh flags core new_libs rpath_vec m).0 ≢ out_of_fuel
  unfolding open_new
  open_new-ends flags core new_libs rpath_vec m =
      let w = start_walk core new_libs rpath_vec m in
      guarded-ends m _ (open_locked-ends p fresh (strip flags) core w refl)

  -- `dlopen_impl` ends whenever the closure that loads the library does.
  pub dlopen_impl-ends :
      (path : Text) (flags : OpenFlags) (f : Result ElfLibrary) (m : Manager)
      → f ≢ out_of_fuel
      → (dlopen_impl p fresh path flags f m).0 ≢ out_of_fuel
  unfolding dlopen_impl
  dlopen_impl-ends path flags f m h = elim (Option-cases (last? (split b'/' path))) [
    | inl e ↦ rw (e, dlopen_impl) (λ c. cc)
    | inr (shortname, e) ↦ elim (Option-cases (get shortname m.all)) [
      | inl e' ↦
          rw (e, dlopen_impl, e')
            (ne_fuel-and_then (f, m) _ h
              (λ lib m'.
                open_new-ends flags lib.dylib.core_component (some lib ∷ []) (rpath_of lib ∷ [])
                  m'))
      | inr (lib, e') ↦
          elim (Bool-cases
            (is_some lib.deps && not (contains (difference flags lib.flags) rtld_global))) [
              | inl t ↦ rw (e, dlopen_impl, e', t) (λ c. cc)
              | inr t ↦ rw (e, dlopen_impl, e', t) (open_new-ends flags lib.inner [] [] m)
            ]
    ]
  ]

  from_file-ends : (path : Text) (flags : OpenFlags) → from_file p path flags ≢ out_of_fuel
  unfolding from_file from_open_file
  from_file-ends path flags = ground arith

  from_binary-ends :
      (bytes : List ℕ) (path : Text) (flags : OpenFlags)
      → from_binary p bytes path flags ≢ out_of_fuel
  unfolding from_binary
  from_binary-ends bytes path flags = ground arith

  -- Opening a library ends for every path, all flags, every state of the manager and every
  -- platform, also where libraries need each other in a cycle: neither `dlopen` nor
  -- `dlopen_from_binary` uses up the rounds of its loops.
  pub dlopen-ends :
      (path : Text) (bytes : List ℕ) (flags : OpenFlags) (m : Manager)
      → ((dlopen p fresh path flags m).0 ≢ out_of_fuel)
        × ((dlopen_from_binary p fresh bytes path flags m).0 ≢ out_of_fuel)
  unfolding dlopen dlopen_from_binary
  dlopen-ends path bytes flags m = (
    dlopen_impl-ends path flags (from_file p path flags) m (from_file-ends path flags),
    dlopen_impl-ends path flags (from_binary p bytes path flags) m
        (from_binary-ends bytes path flags),
  )
