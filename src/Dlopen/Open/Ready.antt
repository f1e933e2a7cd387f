-- ===== src/Dlopen/Open/Ready.antt =====
-- What the search prepares for the relocation.
pub mod Scan
pub mod Steps
pub mod Loop
use dlopen_rs.Dlopen.Resolve.Visits.{Waiting}
use dlopen_rs.Dlopen.Resolve.Reach.{OnStack}
use dlopen_rs.Dlopen.Open.Listed.{AllListed}
use dlopen_rs.Base.Text.{Text}
use dlopen_rs.Loader.{ElfLibrary}
use dlopen_rs.Dlopen.Walk.{Walk}
use dlopen_rs.Dlopen.Resolve.{Item}
use dlopen_rs.Register.{GlobalDylib}
use dlopen_rs.Base.IndexMap.{get, IndexMap}
use dlopen_rs.Base.{[], ◌≢◌, some, true, ◌≡◌, ◌∷◌, is_some, get_elem?, Option, List, ℕ}

-- The index holds a library that is not relocated.
abbrev pub Holds : List (Option ElfLibrary) → ℕ → Type 0
Holds libs i = (lib : ElfLibrary) × (get_elem? libs i ≡ some (some lib))

-- The items are those of different libraries, which are not relocated.
abbrev pub AllHeld : List (Option ElfLibrary) → List Item → Type 0
AllHeld libs [] = Unit {0}
AllHeld libs (item ∷ stack) = Holds libs item.idx × ¬ OnStack item.idx stack × AllHeld libs stack

abbrev pub Keeps : IndexMap GlobalDylib → IndexMap GlobalDylib → Type 0
Keeps m m' = (k : Text) → is_some (get k m) ≡ true → is_some (get k m') ≡ true

-- What the relocation finds: the new libraries need registered names, and each of them waits
-- under one name at most.
pub record IsReady (stack : List Item) (w : Walk) : Type 0 where
  pub listed :
      (i : ℕ) (lib : ElfLibrary)
      → get_elem? w.new_libs i ≡ some (some lib)
      → AllListed w.manager.all lib.dylib.needed_libs
  pub held : AllHeld w.new_libs stack
  pub waiting :
      (name : Text) (idx : ℕ)
      → Waiting w.manager.all name idx
      → idx ≢ 255
      → Holds w.new_libs idx × ¬ OnStack idx stack
  pub single :
      (name name' : Text) (idx : ℕ)
      → Waiting w.manager.all name idx
      → Waiting w.manager.all name' idx
      → idx ≢ 255
      → name ≡ name'

pub AllListed-Keeps :
    (m m' : IndexMap GlobalDylib) (names : List Text)
    → Keeps m m'
    → AllListed m names
    → AllListed m' names
AllListed-Keeps m m' [] k h = tt
AllListed-Keeps m m' (name ∷ names) k h = (k name h.0, AllListed-Keeps m m' names k h.1)
