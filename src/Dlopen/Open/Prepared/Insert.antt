-- ===== src/Dlopen/Open/Prepared/Insert.antt =====
-- Lists and tables that grow by one entry.
use dlopen_rs.Base.IndexMap.{get-insert, insert, get, IndexMap}
use dlopen_rs.Base.Text.{text_eq_iff, text_eq, text_eq_refl, Text}
use dlopen_rs.Dlopen.Resolve.Visits.{Waiting}
use dlopen_rs.Dlopen.Open.Ready.{Keeps, Holds}
use dlopen_rs.Dlopen.Open.Prepared.{CoreComponent, ElfLibrary, GlobalDylib, IsNew}
use dlopen_rs.Base.{
  [], inr, ap, get_elem?-append, sym, inl, Bool-cases, ◌∙◌, ◌∷◌, ◌⊎◌, none, get_elem?-lt, arith,
  some, ◌≡◌, ◌++◌, length, ◌^◌, ◌%◌, Option, ◌<◌, List, ℕ,
}

pub small : (n : ℕ) → n < 255 → n % 2 ^ 8 ≡ n
small n h = omega arith

pub Holds-append :
    (libs : List (Option ElfLibrary)) (lib : ElfLibrary) (i : ℕ)
    → Holds libs i
    → Holds (libs ++ some lib ∷ []) i
Holds-append libs lib i (l, e) = (l, get_elem?-append libs (some lib ∷ []) i e)

pub Holds-lt : (libs : List (Option ElfLibrary)) (i : ℕ) → Holds libs i → i < length libs
Holds-lt libs i (l, e) = get_elem?-lt libs i e

pub IsNew-append :
    (libs : List (Option ElfLibrary)) (lib : ElfLibrary) (core : CoreComponent)
    → IsNew core libs
    → IsNew core (libs ++ some lib ∷ [])
IsNew-append libs lib core (i, l, e, same) = (i, l, get_elem?-append libs (some lib ∷ []) i e, same)

-- the entries after an insertion
module _ (name : Text) (new : GlobalDylib) (m : IndexMap GlobalDylib) where
  pub entry_after :
      (k : Text) (lib : GlobalDylib)
      → get k (insert name new m) ≡ some lib
      → ((name ≡ k) × (new ≡ lib)) ⊎ (get k m ≡ some lib)
  entry_after k lib e = elim (Bool-cases (text_eq name k)) [
    | inl t ↦ inl ((text_eq_iff name k).0 t, cc (rw t at (sym (get-insert name k new m) ∙ e)))
    | inr t ↦ inr (rw t at (sym (get-insert name k new m) ∙ e))
  ]

  pub insert-Keeps : Keeps m (insert name new m)
  insert-Keeps k h = rw (get-insert name k new m) (ground (arith, h))

  pub insert-kept :
      (k : Text) (lib : GlobalDylib)
      → get name m ≡ none
      → get k m ≡ some lib
      → get k (insert name new m) ≡ some lib
  insert-kept k lib fresh e = elim (Bool-cases (text_eq name k)) [
    | inl t ↦ let same : name ≡ k = (text_eq_iff name k).0 t in cc (fresh, e, same)
    | inr t ↦ get-insert name k new m ∙ rw (t, e)
  ]

  pub insert-new : get name (insert name new m) ≡ some new
  insert-new = get-insert name name new m ∙ rw (text_eq_refl name)

  pub insert-waits :
      (k : Text) (idx : ℕ)
      → Waiting (insert name new m) k idx
      → ((name ≡ k) × (idx ≡ new.new_idx)) ⊎ Waiting m k idx
  insert-waits k idx (lib, e, v) = elim (entry_after k lib e) [
    | inl (same, is_new) ↦ inl (same, sym v ∙ ap (λ (x : GlobalDylib). x.new_idx) (sym is_new))
    | inr old ↦ inr (lib, old, v)
  ]
