-- ===== src/Dlopen/Open/Reopen.antt =====
-- Opening a library that is open gives the same library.
use dlopen_rs.Base.{
  [], ℕ, ◌≡◌, refl, ap, subst, ◌∙◌, List, ◌∷◌, Option, none, some, inl, inr, true, false,
  Option-cases, Bool-cases, is_some, last?, get_elem?,
}
use dlopen_rs.Base.Text.{Text, split, text_eq_refl}
use dlopen_rs.Base.IndexMap.{get, get-insert}
use dlopen_rs.Error.{Result, ok, err, panicked, out_of_fuel}
use dlopen_rs.Step.{Step, and_then}
use dlopen_rs.Flags.{OpenFlags, contains, difference, rtld_global}
use dlopen_rs.Loader.{CoreComponent, ElfLibrary, Deps, Dylib, Platform}
use dlopen_rs.Register.{entry, GlobalDylib, Manager, get_dylib, register}
use dlopen_rs.Dlopen.Walk.{Walk, start_walk}
use dlopen_rs.Dlopen.Search.{rpath_of, search_loop}
use dlopen_rs.Dlopen.Resolve.{resolve_loop}
use dlopen_rs.Dlopen.Open.{
  guarded, strip, search_fuel, resolve_fuel, finish, open_locked, open_new, dlopen_impl,
}

-- What `dlopen` returned is registered under `key`, with its box of dependencies.
abbrev Registered : Text → Result Dylib × Manager → Type 0
Registered key (ok d, m) =
    d.inner.shortname ≡ key
    → (lib : GlobalDylib) × (get key m.all ≡ some lib)
      × (get_dylib lib ≡ d)
      × (is_some lib.deps ≡ true)
Registered key (err e, m) = Unit {0}
Registered key (panicked e, m) = Unit {0}
Registered key (out_of_fuel, m) = Unit {0}

abbrev walked : {A : Type 0} → Result A × Walk → Result A × Manager
walked out = (out.0, out.1.manager)

Registered-and_then :
    {A : Type 0} (key : Text) (out : Result A × Walk) (k : A → Step Walk Dylib)
    → ((a : A) (w : Walk) → Registered key (walked (k a w)))
    → Registered key (walked (and_then out k))
Registered-and_then key (ok a, w) k next = next a w
Registered-and_then key (err e, w) k next = tt
Registered-and_then key (panicked e, w) k next = tt
Registered-and_then key (out_of_fuel, w) k next = tt

Registered-guarded :
    (key : Text) (old : Manager) (out : Result Dylib × Manager)
    → Registered key out
    → Registered key (guarded old out)
unfolding guarded
Registered-guarded key old (ok d, m) h = h
Registered-guarded key old (err e, m) h = tt
Registered-guarded key old (panicked e, m) h = tt
Registered-guarded key old (out_of_fuel, m) h = tt

module _ (p : Platform) (fresh : ℕ) (key : Text) where
  Registered-finish :
      (flags : OpenFlags) (w : Walk) → Registered key (walked (finish p fresh flags w))
  unfolding finish register
  Registered-finish flags w = elim (Option-cases (get_elem? w.dep_libs 0)) [
    | inl e ↦ rw (e, finish) tt
    | inr (core, e) ↦
        rw (e, finish)
          (λ named.
            let deps : Deps = record { addr = fresh; items = w.dep_libs } in
            (
              entry core flags (some deps) false none,
              subst
                  (λ k.
                    get k (register core flags (some deps) w.manager false none).all
                    ≡ some (entry core flags (some deps) false none))
                  named
                  (get-insert core.shortname core.shortname
                      (entry core flags (some deps) false none) w.manager.all
                    ∙ rw (text_eq_refl core.shortname)),
              unfold get_dylib in refl,
              refl,
            ))
  ]

  Registered-open_new :
      (flags : OpenFlags) (core : CoreComponent) (new_libs : List (Option ElfLibrary))
      (rpath_vec : List (List Text)) (m : Manager)
      → Registered key (open_new p fresh flags core new_libs rpath_vec m)
  unfolding open_new open_locked
  Registered-open_new flags core new_libs rpath_vec m =
      let w = start_walk core new_libs rpath_vec m in
      Registered-guarded key m _ (
        Registered-and_then key (search_loop p (strip flags) (search_fuel m) 0 w) _ (λ _ w1.
          Registered-and_then key (resolve_loop p (resolve_fuel w1.manager) _ w1) _
            (λ _ w2. Registered-finish (strip flags) w2)))

  Registered-load :
      (flags : OpenFlags) (f : Result ElfLibrary) (m : Manager)
      → Registered key (
          and_then
            (f, m)
            (λ lib m'.
              open_new p fresh flags lib.dylib.core_component
                (some lib ∷ [])
                (rpath_of lib ∷ [])
                m'))
  Registered-load flags (ok lib) m =
      Registered-open_new flags lib.dylib.core_component (some lib ∷ []) (rpath_of lib ∷ []) m
  Registered-load flags (err e) m = tt
  Registered-load flags (panicked e) m = tt
  Registered-load flags out_of_fuel m = tt

  Registered-dlopen_impl :
      (path : Text) (flags : OpenFlags) (f : Result ElfLibrary) (m : Manager)
      → last? (split b'/' path) ≡ some key
      → Registered key (dlopen_impl p fresh path flags f m)
  unfolding dlopen_impl
  Registered-dlopen_impl path flags f m e = elim (Option-cases (get key m.all)) [
    | inl e' ↦ rw (e, dlopen_impl, e') (Registered-load flags f m)
    | inr (lib, e') ↦ elim (Bool-cases (is_some lib.deps)) [
      | inl t ↦ elim (Bool-cases (contains (difference flags lib.flags) rtld_global)) [
        | inl g ↦ rw (e, dlopen_impl, e', t, g) (Registered-open_new flags lib.inner [] [] m)
        | inr g ↦ rw (e, dlopen_impl, e', t, g) (λ named. (lib, e', refl, t))
      ]
      | inr t ↦ rw (e, dlopen_impl, e', t) (Registered-open_new flags lib.inner [] [] m)
    ]
  ]

-- After a `dlopen` that succeeded, opening a path with the same last component again returns the
-- same `Dylib`, with the same box of dependencies, and changes nothing, whatever the closure would
-- load; the flags may not ask for RTLD_GLOBAL anew. (The library has the short name of the path.)
pub dlopen_impl-dlopen_impl :
    (p : Platform) (fresh fresh' : ℕ) (path path' : Text) (flags flags' : OpenFlags)
    (f f' : Result ElfLibrary) (m m' : Manager) (d : Dylib)
    → dlopen_impl p fresh path flags f m ≡ (ok d, m')
    → last? (split b'/' path) ≡ some d.inner.shortname
    → last? (split b'/' path') ≡ some d.inner.shortname
    → contains (difference flags' d.flags) rtld_global ≡ false
    → dlopen_impl p fresh' path' flags' f' m' ≡ (ok d, m')
unfolding dlopen_impl get_dylib
dlopen_impl-dlopen_impl p fresh fresh' path path' flags flags' f f' m m' d first named named' old =
    let done : Registered d.inner.shortname (ok d, m') =
      subst (Registered d.inner.shortname) first
        (Registered-dlopen_impl p fresh d.inner.shortname path flags f m named) in
    let (lib, found, same, boxed) = done refl in
    let flags_same : lib.flags ≡ d.flags = ap (λ (x : Dylib). x.flags) same in
    let quiet : contains (difference flags' lib.flags) rtld_global ≡ false =
      ap (λ g. contains (difference flags' g) rtld_global) flags_same ∙ old in
    rw (named', dlopen_impl, found, boxed, quiet, same)
