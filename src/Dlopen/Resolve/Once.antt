-- ===== src/Dlopen/Resolve/Once.antt =====
-- No library is relocated twice, and the relocation takes exactly the libraries that it hands on.
use dlopen_rs.Base.{
  [], ℕ, zero, suc, ◌≡◌, ◌≢◌, refl, sym, ap, ◌∙◌, List, ◌∷◌, Option, none, some, get_elem?, set,
  arith,
}
use dlopen_rs.Loader.{ElfLibrary, Platform}
use dlopen_rs.Dlopen.Walk.{Walk}
use dlopen_rs.Dlopen.Resolve.{Item, take_library, resolve_loop}
use dlopen_rs.Dlopen.Resolve.Rule.{resolve_loop-rule}

abbrev pub Absent : ℕ → List ℕ → Type 0
Absent i [] = Unit {0}
Absent i (j ∷ js) = (i ≢ j) × Absent i js

abbrev pub Distinct : List ℕ → Type 0
Distinct [] = Unit {0}
Distinct (i ∷ is) = Absent i is × Distinct is

-- the indices `is` hold no library any more
abbrev pub Taken : List (Option ElfLibrary) → List ℕ → Type 0
Taken libs [] = Unit {0}
Taken libs (i ∷ is) = (get_elem? libs i ≡ some none) × Taken libs is

pub get_elem?-set :
    (libs : List (Option ElfLibrary)) (i j : ℕ)
    → i ≢ j
    → get_elem? (set libs j none) i ≡ get_elem? libs i
get_elem?-set [] i j h = refl
get_elem?-set (x ∷ libs) zero zero h = absurd (h refl)
get_elem?-set (x ∷ libs) zero (suc j) h = refl
get_elem?-set (x ∷ libs) (suc i) zero h = refl
get_elem?-set (x ∷ libs) (suc i) (suc j) h = get_elem?-set libs i j (omega arith)

pub get_elem?-set_self :
    (libs : List (Option ElfLibrary)) (i : ℕ) {x : Option ElfLibrary}
    → get_elem? libs i ≡ some x
    → get_elem? (set libs i none) i ≡ some none
get_elem?-set_self [] i h = cc
get_elem?-set_self (x ∷ libs) zero h = refl
get_elem?-set_self (x ∷ libs) (suc i) h = get_elem?-set_self libs i h

-- An index that still holds a library is not among the taken ones.
pub Absent-Taken :
    (libs : List (Option ElfLibrary)) (i : ℕ) (is : List ℕ) {lib : ElfLibrary}
    → get_elem? libs i ≡ some (some lib)
    → Taken libs is
    → Absent i is
Absent-Taken libs i [] e h = tt
Absent-Taken libs i (j ∷ is) e h =
    (λ same. cc (ap (get_elem? libs) same), Absent-Taken libs i is e h.1)

Taken-set :
    (libs : List (Option ElfLibrary)) (j : ℕ) (is : List ℕ)
    → Absent j is
    → Taken libs is
    → Taken (set libs j none) is
Taken-set libs j [] out h = tt
Taken-set libs j (i ∷ is) out h =
    (get_elem?-set libs i j (λ e. out.0 (sym e)) ∙ h.0, Taken-set libs j is out.1 h.1)

pub record IsOnce (before : List (Option ElfLibrary)) (w : Walk) : Type 0 where
  pub distinct : Distinct w.relocated
  pub taken : Taken w.new_libs w.relocated
  pub kept : (i : ℕ) → Absent i w.relocated → get_elem? w.new_libs i ≡ get_elem? before i

pub IsOnce-take :
    (before : List (Option ElfLibrary)) (idx : ℕ) (lib : ElfLibrary) (w : Walk)
    → get_elem? w.new_libs idx ≡ some (some lib)
    → IsOnce before w
    → IsOnce before (take_library idx w)
IsOnce-take before idx lib w e h =
    let new = Absent-Taken w.new_libs idx w.relocated e h.taken in
    record {
      distinct = (new, h.distinct);
      taken =
          (get_elem?-set_self w.new_libs idx e, Taken-set w.new_libs idx w.relocated new h.taken);
      kept = λ i out. get_elem?-set w.new_libs i idx out.0 ∙ h.kept i out.1;
    }

-- However the relocation ends, no index is handed to `relocate` twice, the libraries handed on
-- are gone from `new_libs`, and all the others are still there. (The record of relocated
-- libraries starts empty.)
pub resolve_loop-IsOnce :
    (p : Platform) (fuel : ℕ) (stack : List Item) (w : Walk)
    → w.relocated ≡ []
    → IsOnce w.new_libs (resolve_loop p fuel stack w).1
resolve_loop-IsOnce p fuel stack w start =
    resolve_loop-rule p (IsOnce w.new_libs)
      (λ name f w' _ h. record { distinct = h.distinct; taken = h.taken; kept = h.kept })
      (IsOnce-take w.new_libs) fuel stack w
      (record { distinct = rw start tt; taken = rw start tt; kept = λ i out. refl })
