-- ===== src/Dlopen/Open/Closure.antt =====
-- What the search adds to, and what it means that all needed libraries are found.
use dlopen_rs.Step.{and_then, Step}
use dlopen_rs.Base.{
  [], none, get_elem?, some, refl, ℕ, zero, suc, take, inl, inr, last?, length, arith, ltb, ◌∙◌,
  Bool-cases, ap, true, sym, Bool, ◌≡◌, List, Option, is_some, ◌∷◌, ◌++◌, ◌||◌,
}
use mathlib.Core.List.{append-nil, append_assoc}
use dlopen_rs.Flags.{rtld_global, difference, contains, OpenFlags}
use dlopen_rs.Error.{Result, ok, err, panicked, out_of_fuel, success}
use dlopen_rs.Dlopen.Search.{promote, visit_all, add_library, revisit}
use dlopen_rs.Register.{set_flags, set_mark, register, GlobalDylib}
use dlopen_rs.Loader.{elf_file, ElfLibrary, ElfDylib, CoreComponent, Platform}
use dlopen_rs.Base.Text.{split, has_char, Text}
use dlopen_rs.Dlopen.Walk.{Walk}
use dlopen_rs.Base.IndexMap.{insert, modify, get, IndexMap, get-insert, get-modify}
use dlopen_rs.Dlopen.Search.Rule.{visit_all-rule}

-- `elf_loader` takes the short name of a library from the end of its path.
abbrev pub IsNaming : Platform → Type 0
IsNaming p =
    (path : Text) (file : ℕ) (lazy : Option Bool) (lib : ElfDylib)
    → p.load_dylib (elf_file path file) lazy ≡ success lib
    → last? (split b'/' path) ≡ some lib.core_component.shortname

-- The name is registered, or it is a path and no plain name.
abbrev pub found : IndexMap GlobalDylib → Text → Bool
found m name = has_char b'/' name || is_some (get name m)

abbrev pub AllFound : IndexMap GlobalDylib → List Text → Type 0
AllFound m [] = Unit {0}
AllFound m (name ∷ names) = (found m name ≡ true) × AllFound m names

abbrev pub IsComplete : IndexMap GlobalDylib → List CoreComponent → Type 0
IsComplete m [] = Unit {0}
IsComplete m (core ∷ cores) = AllFound m core.needed_libs × IsComplete m cores

-- what the search only adds to
pub record Onward (w w' : Walk) : Type 0 where
  pub kept :
      (k : Text) → is_some (get k w.manager.all) ≡ true → is_some (get k w'.manager.all) ≡ true
  pub queue : (rest : List CoreComponent) × (w'.dep_libs ≡ w.dep_libs ++ rest)

pub Onward-refl : (w : Walk) → Onward w w
Onward-refl w = record { kept = λ k h. h; queue = ([], sym (append-nil _)) }

is_some-insert :
    {V : Type 0} (k j : Text) (v : V) (m : IndexMap V)
    → is_some (get k m) ≡ true
    → is_some (get k (insert j v m)) ≡ true
is_some-insert k j v m h = rw (get-insert j k v m) (ground arith)

is_some-modify :
    {V : Type 0} (k j : Text) (f : V → V) (m : IndexMap V)
    → is_some (get k m) ≡ true
    → is_some (get k (modify j f m)) ≡ true
is_some-modify k j f m h = rw (get-modify j k f m) (ground arith)

module _ (w : Walk) where
  longer :
      (ds : List CoreComponent) (core : CoreComponent)
      → (rest : List CoreComponent) × (ds ≡ w.dep_libs ++ rest)
      → (rest : List CoreComponent) × (ds ++ core ∷ [] ≡ w.dep_libs ++ rest)
  longer ds core (rest, e) =
      (rest ++ core ∷ [], ap (λ xs. xs ++ core ∷ []) e ∙ append_assoc w.dep_libs rest (core ∷ []))

  pub Onward-revisit :
      (flags : OpenFlags) (name : Text) (lib : GlobalDylib) (w' : Walk)
      → Onward w w'
      → Onward w (revisit flags name lib w')
  unfolding revisit promote
  Onward-revisit flags name lib w' h = elim (Bool-cases lib.is_mark) [
    | inl t ↦ rw t h
    | inr t ↦
        let m = w'.manager.all in
        let marked = λ (k : Text) (l : is_some (get k w.manager.all) ≡ true).
          is_some-modify k name (set_mark true) m (h.kept k l) in
        let q = longer w'.dep_libs lib.inner h.queue in
        elim (Bool-cases (contains (difference flags lib.flags) rtld_global)) [
          | inl g ↦
              rw (t, g)
                (record {
                  kept = λ k l. is_some-modify k name (set_flags flags) _ (marked k l);
                  queue = q;
                })
          | inr g ↦ rw (t, g) (record { kept = marked; queue = q })
        ]
  ]

  pub Onward-add :
      (flags : OpenFlags) (lib : ElfLibrary) (w' : Walk)
      → Onward w w'
      → Onward w (add_library flags lib w').1
  unfolding add_library register
  Onward-add flags lib w' h = elim (Bool-cases (ltb (length w'.new_libs) 255)) [
    | inl t ↦ rw t (record {
      kept = λ k l. is_some-insert k _ _ w'.manager.all (h.kept k l);
      queue = longer w'.dep_libs lib.dylib.core_component h.queue;
    })
    | inr t ↦ rw t h
  ]

  pub Onward-visit_all :
      (p : Platform) (flags : OpenFlags) (names : List Text) (cur : Option ℕ) (w' : Walk)
      → Onward w w'
      → Onward w (visit_all p flags names cur w').1
  Onward-visit_all p flags names cur w' h =
      visit_all-rule p flags (Onward w) (λ name lib x _. Onward-revisit flags name lib x)
        (Onward-add flags) (λ x k. record { kept = k.kept; queue = k.queue }) names cur w' h

-- `Q` holds after a step that succeeds.
abbrev pub Post : {A : Type 0} → (Walk → Type 0) → Result A × Walk → Type 0
Post Q (ok a, w) = Q w
Post Q (err e, w) = Unit {0}
Post Q (panicked e, w) = Unit {0}
Post Q (out_of_fuel, w) = Unit {0}

module _ {A : Type 0} where
  pub Post-and_then :
      {B : Type 0} (R Q : Walk → Type 0) (out : Result A × Walk) (k : A → Step Walk B)
      → Post R out
      → ((a : A) (w : Walk) → R w → Post Q (k a w))
      → Post Q (and_then out k)
  Post-and_then R Q (ok a, w) k h next = next a w h
  Post-and_then R Q (err e, w) k h next = tt
  Post-and_then R Q (panicked e, w) k h next = tt
  Post-and_then R Q (out_of_fuel, w) k h next = tt

  pub Post-map :
      (P R Q : Walk → Type 0) (out : Result A × Walk)
      → P out.1
      → Post R out
      → ((w : Walk) → P w → R w → Q w)
      → Post Q out
  Post-map P R Q (ok a, w) p h f = f w p h
  Post-map P R Q (err e, w) p h f = tt
  Post-map P R Q (panicked e, w) p h f = tt
  Post-map P R Q (out_of_fuel, w) p h f = tt

  pub Post-always : (Q : Walk → Type 0) (out : Result A × Walk) → ((w : Walk) → Q w) → Post Q out
  Post-always Q (ok a, w) f = f w
  Post-always Q (err e, w) f = tt
  Post-always Q (panicked e, w) f = tt
  Post-always Q (out_of_fuel, w) f = tt

abbrev pub Finds : Text → Walk → Type 0
Finds name w = found w.manager.all name ≡ true

pub Finds-listed : (name : Text) (w : Walk) → is_some (get name w.manager.all) ≡ true → Finds name w
Finds-listed name w h = rw h (ground arith)

pub Finds-path : (name : Text) (w : Walk) → has_char b'/' name ≡ true → Finds name w
Finds-path name w h = rw h

pub found-Onward : (name : Text) (w w' : Walk) → Onward w w' → Finds name w → Finds name w'
found-Onward name w w' o h = elim (Bool-cases (has_char b'/' name)) [
  | inl t ↦ Finds-path name w' t
  | inr t ↦ Finds-listed name w' (o.kept name (rw t at h))
]

pub AllFound-Onward :
    (names : List Text) (w w' : Walk)
    → Onward w w'
    → AllFound w.manager.all names
    → AllFound w'.manager.all names
AllFound-Onward [] w w' o h = tt
AllFound-Onward (name ∷ names) w w' o h =
    (found-Onward name w w' o h.0, AllFound-Onward names w w' o h.1)

pub IsComplete-Onward :
    (cores : List CoreComponent) (w w' : Walk)
    → Onward w w'
    → IsComplete w.manager.all cores
    → IsComplete w'.manager.all cores
IsComplete-Onward [] w w' o h = tt
IsComplete-Onward (core ∷ cores) w w' o h =
    (AllFound-Onward core.needed_libs w w' o h.0, IsComplete-Onward cores w w' o h.1)

pub IsComplete-append :
    (m : IndexMap GlobalDylib) (cores : List CoreComponent) (core : CoreComponent)
    → IsComplete m cores
    → AllFound m core.needed_libs
    → IsComplete m (cores ++ core ∷ [])
IsComplete-append m [] core h new = (new, tt)
IsComplete-append m (c ∷ cores) core h new = (h.0, IsComplete-append m cores core h.1 new)

pub take-whole : {A : Type 0} (xs : List A) (n : ℕ) → get_elem? xs n ≡ none → take n xs ≡ xs
take-whole [] zero h = refl
take-whole [] (suc n) h = refl
take-whole (x ∷ xs) zero h = cc
take-whole (x ∷ xs) (suc n) h = ap (◌∷◌ x) (take-whole xs n h)

pub take-next :
    {A : Type 0} (xs rest : List A) (n : ℕ) (x : A)
    → get_elem? xs n ≡ some x
    → take (suc n) (xs ++ rest) ≡ take n xs ++ x ∷ []
take-next [] rest n x h = cc
take-next (y ∷ xs) rest zero x h = cc
take-next (y ∷ xs) rest (suc n) x h = ap (◌∷◌ y) (take-next xs rest n x h)
