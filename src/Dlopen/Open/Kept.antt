-- ===== src/Dlopen/Open/Kept.antt =====
-- The libraries that were registered before a call, while it runs and after it failed.
use dlopen_rs.Loader.{CoreComponent}
use dlopen_rs.Dlopen.Resolve.Rule.{IsVisit}
use dlopen_rs.Base.Text.{text_eq, Text}
use dlopen_rs.Register.{GlobalDylib, Manager}
use dlopen_rs.Base.IndexMap.{modify, keys, IndexMap, get}
use dlopen_rs.Dlopen.Open.Listed.{IsClosed, AllListed}
use dlopen_rs.Dlopen.Resolve.Visits.{get-modify-some}
use dlopen_rs.Base.{
  [], ap, zero, inr, inl, Option-cases, ◌∙◌, refl, Bool-cases, true, suc, sym, subst, is_some, ◌∷◌,
  some, List, take, ◌≡◌, ℕ,
}

-- The entry of a library that was registered before the call, and is relocated.
abbrev pub IsKept : Text → GlobalDylib → IndexMap GlobalDylib → Type 0
IsKept name l0 m =
    (lib : GlobalDylib) × (get name m ≡ some lib) × (lib.inner ≡ l0.inner) × (lib.new_idx ≡ 255)

abbrev pub AllKept : IndexMap GlobalDylib → IndexMap GlobalDylib → Type 0
AllKept m0 m = (name : Text) (l0 : GlobalDylib) → get name m0 ≡ some l0 → IsKept name l0 m

-- No library waits to be relocated.
abbrev pub IsQuiet : IndexMap GlobalDylib → Type 0
IsQuiet m = (name : Text) (lib : GlobalDylib) → get name m ≡ some lib → lib.new_idx ≡ 255

-- The manager between two calls: what the libraries need is registered, and none waits.
pub record IsSteady (m : Manager) : Type 0 where
  pub closed : IsClosed m.all
  pub quiet : IsQuiet m.all

pub AllKept-refl : (m : IndexMap GlobalDylib) → IsQuiet m → AllKept m m
AllKept-refl m quiet name l0 e = (l0, e, refl, quiet name l0 e)

pub AllKept-empty : (m : IndexMap GlobalDylib) → AllKept [] m
unfolding get
AllKept-empty m name l0 e = cc

pub AllKept-modify :
    (m0 : IndexMap GlobalDylib) (name : Text) (f : GlobalDylib → GlobalDylib)
    (m : IndexMap GlobalDylib)
    → IsVisit f
    → AllKept m0 m
    → AllKept m0 (modify name f m)
AllKept-modify m0 name f m (core_same, settled) h k l0 e =
    let (lib, here, core, relocated) = h k l0 e in
    elim (Bool-cases (text_eq name k)) [
      | inl t ↦ (
        f lib,
        get-modify-some name k f m lib here ∙ rw t,
        core_same lib ∙ core,
        settled lib relocated,
      )
      | inr t ↦ (lib, get-modify-some name k f m lib here ∙ rw t, core, relocated)
    ]

is_some-keys :
    (k : Text) (m m' : IndexMap GlobalDylib)
    → keys m ≡ keys m'
    → is_some (get k m) ≡ is_some (get k m')
unfolding get
is_some-keys k [] [] e = refl
is_some-keys k [] ((j, v) ∷ m') e = cc
is_some-keys k ((j, v) ∷ m) [] e = cc
is_some-keys k ((j, v) ∷ m) ((i, u) ∷ m') e =
    let same : j ≡ i = cc e in
    let rest : keys m ≡ keys m' = cc e in
    let next = is_some-keys k m m' rest in
    elim (Bool-cases (text_eq i k)) [ inl t ↦ rw (same, t) | inr t ↦ rw (same, t, next) ]

entry_with :
    (name : Text) (m m' : IndexMap GlobalDylib)
    → keys m ≡ keys m'
    → (lib : GlobalDylib) → get name m ≡ some lib
    → (l0 : GlobalDylib) × (get name m' ≡ some l0)
entry_with name m m' same lib e =
    let there : is_some (get name m') ≡ true = sym (is_some-keys name m m' same) ∙ rw e in
    elim (Option-cases (get name m')) [ inl gone ↦ cc (there, gone) | inr found ↦ found ]

AllListed-keys :
    (m m' : IndexMap GlobalDylib) (names : List Text)
    → keys m ≡ keys m'
    → AllListed m names
    → AllListed m' names
AllListed-keys m m' [] e h = tt
AllListed-keys m m' (name ∷ names) e h =
    (sym (is_some-keys name m m' e) ∙ h.0, AllListed-keys m m' names e h.1)

get-take :
    (k : Text) (n : ℕ) (m : IndexMap GlobalDylib) (lib : GlobalDylib)
    → get k (take n m) ≡ some lib
    → get k m ≡ some lib
unfolding get
get-take k zero m lib e = cc
get-take k (suc n) [] lib e = e
get-take k (suc n) ((j, v) ∷ m) lib e = elim (Bool-cases (text_eq j k)) [
  | inl t ↦ rw t (rw t at e)
  | inr t ↦ rw t (get-take k n m lib (rw t at e))
]

module _ (old : Manager) (steady : IsSteady old) where
  -- A failed call has the entries of before, up to their flags and marks.
  abbrev pub IsRestored : IndexMap GlobalDylib → Type 0
  IsRestored m =
      (name : Text) (lib l0 : GlobalDylib)
      → get name m ≡ some lib
      → get name old.all ≡ some l0
      → (lib.inner ≡ l0.inner) × (lib.new_idx ≡ 255)

  pub IsRestored-take :
      (n : ℕ) (m : IndexMap GlobalDylib) → AllKept old.all m → IsRestored (take n m)
  IsRestored-take n m kept name lib l0 e e0 =
      let (l, here, core, relocated) = kept name l0 e0 in
      let same : l ≡ lib = cc (here, get-take name n m lib e) in
      subst (λ (x : GlobalDylib). (x.inner ≡ l0.inner) × (x.new_idx ≡ 255)) same (core, relocated)

  pub IsRestored-refl : IsRestored old.all
  IsRestored-refl name lib l0 e e0 =
      let same : l0 ≡ lib = cc (e, e0) in
      (ap (λ (x : GlobalDylib). x.inner) (sym same), steady.quiet name lib e)

  pub IsRestored-IsSteady :
      (m : Manager) → keys m.all ≡ keys old.all → IsRestored m.all → IsSteady m
  IsRestored-IsSteady m same restored =
      let before = λ (name : Text) (lib : GlobalDylib) (e : get name m.all ≡ some lib).
        entry_with name m.all old.all same lib e in
      record {
        closed = λ name lib e.
            let (l0, e0) = before name lib e in
            let (core, relocated) = restored name lib l0 e e0 in
            AllListed-keys old.all m.all lib.inner.needed_libs (sym same) (
              subst (λ (c : CoreComponent). AllListed old.all c.needed_libs) (sym core)
                (steady.closed name l0 e0));
        quiet = λ name lib e. let (l0, e0) = before name lib e in (restored name lib l0 e e0).1;
      }
