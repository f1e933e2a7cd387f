-- ===== src/Dlopen/Open/Order/Rank.antt =====
-- An order for the relocation: ranks that fall along what a library needs.
use dlopen_rs.Dlopen.Open.Reached.{AllHandled}
use dlopen_rs.Dlopen.Resolve.Descent.{InNames}
use dlopen_rs.Dlopen.Resolve.Visits.{Waiting}
use dlopen_rs.Base.{[], ◌≢◌, some, ◌≡◌, get_elem?, inr, inl, arith, ◌∷◌, ◌<◌, Option, List, ℕ}
use dlopen_rs.Base.Text.{Text}
use dlopen_rs.Register.{GlobalDylib}
use dlopen_rs.Base.IndexMap.{IndexMap}
use dlopen_rs.Loader.{ElfLibrary}
use dlopen_rs.Dlopen.Resolve.Reach.{OnStack}
use dlopen_rs.Dlopen.Resolve.{Item}

module _ (libs : List (Option ElfLibrary)) (m0 : IndexMap GlobalDylib) where
  -- In the list, whose last one is the first that was relocated, each library stands before the
  -- new libraries that it needs.
  abbrev pub IsOrdered : List ℕ → Type 0
  IsOrdered [] = Unit {0}
  IsOrdered (i ∷ earlier) =
      ((lib : ElfLibrary)
        → get_elem? libs i ≡ some (some lib)
        → AllHandled m0 earlier lib.dylib.needed_libs)
      × IsOrdered earlier

  -- The new libraries do not need each other in a cycle: a library's rank is above that of each
  -- new library that it needs.
  abbrev pub IsRanked : (ℕ → ℕ) → Type 0
  IsRanked rank =
      (i j : ℕ) (lib : ElfLibrary) (name : Text)
      → get_elem? libs i ≡ some (some lib)
      → InNames name lib.dylib.needed_libs
      → Waiting m0 name j
      → j ≢ 255
      → rank j < rank i

module _ (rank : ℕ → ℕ) where
  abbrev pub Over : ℕ → List Item → Type 0
  Over r [] = Unit {0}
  Over r (item ∷ stack) = (r < rank item.idx) × Over r stack

  abbrev pub Rising : List Item → Type 0
  Rising [] = Unit {0}
  Rising (item ∷ stack) = Over (rank item.idx) stack × Rising stack

  pub Over-weaken : (r s : ℕ) (stack : List Item) → r < s → Over s stack → Over r stack
  Over-weaken r s [] h o = tt
  Over-weaken r s (item ∷ stack) h o = (omega arith, Over-weaken r s stack h o.1)

  pub Over-member : (r i : ℕ) (stack : List Item) → Over r stack → OnStack i stack → r < rank i
  Over-member r i [] o on = elim on [ ]
  Over-member r i (item ∷ stack) o (inl e) = rw e o.0
  Over-member r i (item ∷ stack) o (inr s) = Over-member r i stack o.1 s
