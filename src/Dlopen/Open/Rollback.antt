-- ===== src/Dlopen/Open/Rollback.antt =====
-- A failed `dlopen` leaves no name behind.
use mathlib.Core.List.{append-nil, append_assoc}
use dlopen_rs.Base.{
  [], ℕ, ◌≡◌, refl, ap, sym, ◌∙◌, List, ◌∷◌, ◌++◌, Option, none, some, inl, inr, Option-cases,
  Bool-cases, get_elem?, last?, length, take, ◌&&◌, not, is_some, take-append, ltb, Bool, true,
  false, if◌then◌else◌,
}
use dlopen_rs.Base.Text.{Text, split}
use dlopen_rs.Base.IndexMap.{
  IndexMap, get, insert, modify, keys, keys-insert, keys-modify, keys-take, length-keys, truncate,
}
use dlopen_rs.Error.{Result, ok, err, panicked, out_of_fuel}
use dlopen_rs.Step.{and_then}
use dlopen_rs.Flags.{OpenFlags, contains, difference, rtld_global}
use dlopen_rs.Loader.{CoreComponent, ElfLibrary, Deps, Platform}
use dlopen_rs.Register.{GlobalDylib, Manager, set_flags, set_mark, register}
use dlopen_rs.Dlopen.Walk.{Walk, start_walk}
use dlopen_rs.Dlopen.Search.{search_loop, rpath_of, revisit, promote, add_library}
use dlopen_rs.Dlopen.Search.Rule.{search_loop-rule, and_then-rule}
use dlopen_rs.Dlopen.Resolve.{resolve_loop}
use dlopen_rs.Dlopen.Resolve.Rule.{resolve_loop-rule, modify_all}
use dlopen_rs.Dlopen.Open.{
  guarded, strip, search_fuel, resolve_fuel, finish, open_locked, open_new, dlopen_impl,
}

-- The first keys of `m` are those of `old`.
abbrev Extends {ℓ} : {V : Type ℓ} → IndexMap V → IndexMap V → Type 0
Extends old m = (rest : List Text) × (keys m ≡ keys old ++ rest)

module _ {ℓ} {V : Type ℓ} (old : IndexMap V) where
  Extends-insert : (k : Text) (v : V) (m : IndexMap V) → Extends old m → Extends old (insert k v m)
  Extends-insert k v m (rest, e) =
      let added = if is_some (get k m) then [] else k ∷ [] in
      (
        rest ++ added,
        keys-insert k v m ∙ ap (λ ks. ks ++ added) e ∙ append_assoc (keys old) rest added,
      )

  Extends-modify :
      (k : Text) (f : V → V) (m : IndexMap V) → Extends old m → Extends old (modify k f m)
  Extends-modify k f m (rest, e) = (rest, keys-modify k f m ∙ e)

  keys-truncate : (m : IndexMap V) → Extends old m → keys (truncate (length old) m) ≡ keys old
  keys-truncate m (rest, e) =
      keys-take (length old) m
      ∙ ap (take (length old)) e
      ∙ (rw (← length-keys old) (take-append (keys old) rest))

module _ (old : Manager) where
  record Grown (m : Manager) : Type 0 where
    all : Extends old.all m.all
    global : Extends old.global m.global

  Grown-refl : Grown old
  Grown-refl = record { all = ([], sym (append-nil _)); global = ([], sym (append-nil _)) }

  Grown-register :
      (core : CoreComponent) (flags : OpenFlags) (deps : Option Deps) (m : Manager) (mark : Bool)
      (idx : Option ℕ)
      → Grown m
      → Grown (register core flags deps m mark idx)
  unfolding register
  Grown-register core flags deps m mark idx h = elim (Bool-cases (contains flags rtld_global)) [
    | inl t ↦ record {
      all = Extends-insert old.all _ _ m.all h.all;
      global = rw t (Extends-insert old.global _ _ m.global h.global);
    }
    | inr t ↦ record { all = Extends-insert old.all _ _ m.all h.all; global = rw t h.global }
  ]

  Grown-modify :
      (k : Text) (f : GlobalDylib → GlobalDylib) (m : Manager) → Grown m → Grown (modify_all k f m)
  Grown-modify k f m h = record { all = Extends-modify old.all k f m.all h.all; global = h.global }

  Grown-promote :
      (flags : OpenFlags) (k : Text) (lib : GlobalDylib) (m : Manager)
      → Grown m
      → Grown (promote flags k lib m)
  unfolding promote
  Grown-promote flags k lib m h = record {
    all = Extends-modify old.all k (set_flags flags) m.all h.all;
    global = Extends-insert old.global _ _ m.global h.global;
  }

  abbrev Kept : Walk → Type 0
  Kept w = Grown w.manager

  Kept-revisit :
      (flags : OpenFlags) (name : Text) (lib : GlobalDylib) (w : Walk)
      → Kept w
      → Kept (revisit flags name lib w)
  unfolding revisit
  Kept-revisit flags name lib w h =
      let h' = Grown-modify name (set_mark true) w.manager h in
      elim (Bool-cases lib.is_mark) [
        | inl t ↦ rw t h
        | inr t ↦ elim (Bool-cases (contains (difference flags lib.flags) rtld_global)) [
          | inl g ↦
              rw (t, g)
                (Grown-promote flags name lib (modify_all name (set_mark true) w.manager) h')
          | inr g ↦ rw (t, g) h'
        ]
      ]

  Kept-add :
      (flags : OpenFlags) (lib : ElfLibrary) (w : Walk) → Kept w → Kept (add_library flags lib w).1
  unfolding add_library
  Kept-add flags lib w h = elim (Bool-cases (ltb (length w.new_libs) 255)) [
    | inl t ↦ rw t (Grown-register lib.dylib.core_component flags none w.manager true _ h)
    | inr t ↦ rw t h
  ]

  Kept-finish :
      (p : Platform) (fresh : ℕ) (flags : OpenFlags) (w : Walk)
      → Kept w
      → Kept (finish p fresh flags w).1
  unfolding finish
  Kept-finish p fresh flags w h = elim (Option-cases (get_elem? w.dep_libs 0)) [
    | inl e ↦ rw (e, finish) h
    | inr (core, e) ↦ rw (e, finish) (Grown-register core flags _ w.manager false none h)
  ]

  Kept-locked :
      (p : Platform) (fresh : ℕ) (flags : OpenFlags) (w : Walk)
      → Kept w
      → Kept (open_locked p fresh flags w).1
  unfolding open_locked
  Kept-locked p fresh flags w h =
      and_then-rule Kept (search_loop p flags (search_fuel w.manager) 0 w) _
        (search_loop-rule p flags Kept (λ name lib w' _. Kept-revisit flags name lib w')
          (Kept-add flags) (λ w' h'. h') (search_fuel w.manager) 0 w h)
        (λ _ w1 h1.
          and_then-rule Kept (resolve_loop p (resolve_fuel w1.manager) _ w1) _
            (resolve_loop-rule p Kept (λ name f w' _ h'. Grown-modify name f w'.manager h')
              (λ idx lib w' _ h'. h') (resolve_fuel w1.manager) _ w1 h1)
            (λ _ w2 h2. Kept-finish p fresh flags w2 h2))

abbrev pub IsFailure {ℓ} : {A : Type ℓ} → Result A → Type 0
IsFailure (ok a) = ⊥
IsFailure (err e) = Unit {0}
IsFailure (panicked e) = Unit {0}
IsFailure out_of_fuel = Unit {0}

-- The same names are in both tables, in the same order.
abbrev pub SameLibraries : Manager → Manager → Type 0
SameLibraries old m = (keys m.all ≡ keys old.all) × (keys m.global ≡ keys old.global)

guarded-SameLibraries :
    {A : Type 0} (old : Manager) (out : Result A × Manager)
    → Grown old out.1
    → IsFailure (guarded old out).0
    → SameLibraries old (guarded old out).1
unfolding guarded
guarded-SameLibraries old (ok a, m) h bad = absurd bad
guarded-SameLibraries old (err e, m) h bad =
    (keys-truncate old.all m.all h.all, keys-truncate old.global m.global h.global)
guarded-SameLibraries old (panicked e, m) h bad =
    (keys-truncate old.all m.all h.all, keys-truncate old.global m.global h.global)
guarded-SameLibraries old (out_of_fuel, m) h bad =
    (keys-truncate old.all m.all h.all, keys-truncate old.global m.global h.global)

module _ (p : Platform) (fresh : ℕ) where
  open_new-SameLibraries :
      (flags : OpenFlags) (core : CoreComponent) (new_libs : List (Option ElfLibrary))
      (rpath_vec : List (List Text)) (m : Manager)
      → IsFailure (open_new p fresh flags core new_libs rpath_vec m).0
      → SameLibraries m (open_new p fresh flags core new_libs rpath_vec m).1
  unfolding open_new
  open_new-SameLibraries flags core new_libs rpath_vec m =
      let w = start_walk core new_libs rpath_vec m in
      guarded-SameLibraries m _ (Kept-locked m p fresh (strip flags) w (Grown-refl m))

  -- A `dlopen_impl` that returns an error or panics leaves the names that were in both tables
  -- before, in the order that they had.
  pub dlopen_impl-SameLibraries :
      (path : Text) (flags : OpenFlags) (f : Result ElfLibrary) (m : Manager)
      → IsFailure (dlopen_impl p fresh path flags f m).0
      → SameLibraries m (dlopen_impl p fresh path flags f m).1
  unfolding dlopen_impl
  dlopen_impl-SameLibraries path flags f m = elim (Option-cases (last? (split b'/' path))) [
    | inl e ↦ rw (e, dlopen_impl) (λ _. (refl, refl))
    | inr (shortname, e) ↦ elim (Option-cases (get shortname m.all)) [
      | inl e' ↦ rw (e, dlopen_impl, e') (loaded f)
      | inr (lib, e') ↦
          elim (Bool-cases
            (is_some lib.deps && not (contains (difference flags lib.flags) rtld_global))) [
              | inl t ↦ rw (e, dlopen_impl, e', t) (λ bad. absurd bad)
              | inr t ↦ rw (e, dlopen_impl, e', t) (open_new-SameLibraries flags lib.inner [] [] m)
            ]
    ]
  ]
    where
      loaded :
          (g : Result ElfLibrary)
          → IsFailure
              (and_then
                (g, m)
                (λ lib m'.
                  open_new p fresh flags lib.dylib.core_component
                    (some lib ∷ [])
                    (rpath_of lib ∷ [])
                    m')).0
          → SameLibraries m
              (and_then
                (g, m)
                (λ lib m'.
                  open_new p fresh flags lib.dylib.core_component
                    (some lib ∷ [])
                    (rpath_of lib ∷ [])
                    m')).1
      loaded (ok lib) =
          open_new-SameLibraries flags lib.dylib.core_component (some lib ∷ []) (rpath_of lib ∷ [])
            m
      loaded (err bad) = λ _. (refl, refl)
      loaded (panicked bad) = λ _. (refl, refl)
      loaded out_of_fuel = λ _. (refl, refl)
