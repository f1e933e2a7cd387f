-- ===== src/Dlopen/Open/Prepared.antt =====
-- What holds between the steps of a search that began with one new library.
pub mod Revisit
pub mod Insert
pub mod Add
pub mod Missing
pub mod Search
use dlopen_rs.Dlopen.Open.Listed.{AllListed}
use dlopen_rs.Register.{GlobalDylib}
use dlopen_rs.Base.Text.{has_char, Text}
use dlopen_rs.Dlopen.Walk.{Walk}
use dlopen_rs.Base.IndexMap.{get, IndexMap}
use dlopen_rs.Loader.{ElfLibrary, CoreComponent, ElfDylib}
use dlopen_rs.Dlopen.Open.Ready.{Holds, Keeps}
use dlopen_rs.Dlopen.Resolve.Visits.{Waiting}
use dlopen_rs.Dlopen.Resolve.Descent.{InNames}
use dlopen_rs.Dlopen.Open.Kept.{AllKept}
use dlopen_rs.Base.{
  [], ◌<◌, ◌⊎◌, Option, inr, refl, false, inl, drop-append, get_elem?-append, ◌&&◌, Bool-cases,
  length, arith, is_some, ◌≤◌, drop, some, ◌∷◌, ◌≢◌, true, Bool, if◌then◌else◌, ◌≡◌, get_elem?, ◌+◌,
  ◌++◌, List, ℕ,
}

abbrev pub AllPlain : List Text → Type 0
AllPlain [] = Unit {0}
AllPlain (name ∷ names) = (has_char b'/' name ≡ false) × AllPlain names

-- The two readings of the needed names agree, and no needed name is a path.
pub record IsPlain (lib : ElfDylib) : Type 0 where
  pub same : lib.needed_libs ≡ lib.core_component.needed_libs
  pub plain : AllPlain lib.core_component.needed_libs

abbrev pub IsQueued : CoreComponent → List CoreComponent → Type 0
IsQueued core cores = (j : ℕ) × (get_elem? cores j ≡ some core)

-- The library is one of those that this call has mapped.
abbrev pub IsNew : CoreComponent → List (Option ElfLibrary) → Type 0
IsNew core libs =
    (i : ℕ) × (lib : ElfLibrary) × (get_elem? libs i ≡ some (some lib))
    × (lib.dylib.core_component ≡ core)

-- A library with a smaller index needs the name under which the one at `i` waits.
abbrev pub HasParent : Walk → ℕ → Type 0
HasParent w i =
    (j : ℕ) × (lib : ElfLibrary) × (name : Text) × (j < i)
    × (get_elem? w.new_libs j ≡ some (some lib))
    × InNames name lib.dylib.core_component.needed_libs
    × Waiting w.manager.all name i

-- `m0` are the libraries that were registered before the call.
pub record IsPrepared (m0 : IndexMap GlobalDylib) (w : Walk) : Type 0 where
  pub first : Holds w.new_libs 0
  pub waiting :
      (name : Text) (idx : ℕ)
      → Waiting w.manager.all name idx
      → idx ≢ 255
      → Holds w.new_libs idx × (idx ≢ 0)
  pub single :
      (name name' : Text) (idx : ℕ)
      → Waiting w.manager.all name idx
      → Waiting w.manager.all name' idx
      → idx ≢ 255
      → name ≡ name'
  pub entries :
      (name : Text) (lib : GlobalDylib)
      → get name w.manager.all ≡ some lib
      → AllListed w.manager.all lib.inner.needed_libs
        ⊎ ((lib.is_mark ≡ true) × IsNew lib.inner w.new_libs)
  pub queued :
      (i : ℕ) (lib : ElfLibrary)
      → get_elem? w.new_libs i ≡ some (some lib)
      → IsQueued lib.dylib.core_component w.dep_libs
  pub owned :
      (j : ℕ) (core : CoreComponent)
      → get_elem? w.dep_libs j ≡ some core
      → AllListed w.manager.all core.needed_libs ⊎ IsNew core w.new_libs
  pub sound :
      (i : ℕ) (lib : ElfLibrary) → get_elem? w.new_libs i ≡ some (some lib) → IsPlain lib.dylib
  pub parent :
      (i : ℕ) (lib : ElfLibrary)
      → get_elem? w.new_libs i ≡ some (some lib)
      → (i ≡ 0) ⊎ ((i ≢ 255) × HasParent w i)
  pub old : AllKept m0 w.manager.all

abbrev pub all_listed : IndexMap GlobalDylib → List Text → Bool
all_listed m [] = true
all_listed m (name ∷ names) = is_some (get name m) && all_listed m names

-- 1 for a library that needs a name that is not registered yet
abbrev pub open_one : IndexMap GlobalDylib → CoreComponent → ℕ
open_one m core = if all_listed m core.needed_libs then 0 else 1

-- how many of these libraries do
abbrev pub unclosed : IndexMap GlobalDylib → List CoreComponent → ℕ
unclosed m [] = 0
unclosed m (core ∷ cores) = open_one m core + unclosed m cores

-- The run paths that are left are enough for `extra` libraries and those queued behind `pos`.
pub record Going (m0 : IndexMap GlobalDylib) (pos extra : ℕ) (w : Walk) : Type 0 where
  pub prepared : IsPrepared m0 w
  pub room :
      w.cur_rpath_pos + extra + unclosed w.manager.all (drop pos w.dep_libs) ≤ length w.rpath_vec
  pub within : pos ≤ length w.dep_libs

pub open_one-le : (m : IndexMap GlobalDylib) (core : CoreComponent) → open_one m core ≤ 1
open_one-le m core = ground arith

pub all_listed-Keeps :
    (m m' : IndexMap GlobalDylib) (names : List Text)
    → Keeps m m'
    → all_listed m names ≡ true
    → all_listed m' names ≡ true
all_listed-Keeps m m' [] k h = refl
all_listed-Keeps m m' (name ∷ names) k h = elim (Bool-cases (is_some (get name m))) [
  | inl t ↦ rw (k name t) (all_listed-Keeps m m' names k (rw t at h))
  | inr t ↦ cc (rw t at h)
]

pub all_listed-AllListed :
    (m : IndexMap GlobalDylib) (names : List Text) → AllListed m names → all_listed m names ≡ true
all_listed-AllListed m [] h = refl
all_listed-AllListed m (name ∷ names) h = rw h.0 (all_listed-AllListed m names h.1)

pub open_one-Keeps :
    (m m' : IndexMap GlobalDylib) (core : CoreComponent)
    → Keeps m m'
    → open_one m' core ≤ open_one m core
open_one-Keeps m m' core k = elim (Bool-cases (all_listed m core.needed_libs)) [
  | inl t ↦ rw (t, all_listed-Keeps m m' core.needed_libs k t) (omega arith)
  | inr t ↦ rw t (open_one-le m' core)
]

pub unclosed-Keeps :
    (m m' : IndexMap GlobalDylib) (cores : List CoreComponent)
    → Keeps m m'
    → unclosed m' cores ≤ unclosed m cores
unclosed-Keeps m m' [] k = omega arith
unclosed-Keeps m m' (core ∷ cores) k =
    omega (arith, open_one-Keeps m m' core k, unclosed-Keeps m m' cores k)

pub unclosed-append :
    (m : IndexMap GlobalDylib) (cores : List CoreComponent) (core : CoreComponent)
    → unclosed m (cores ++ core ∷ []) ≡ unclosed m cores + open_one m core
unclosed-append m [] core = omega arith
unclosed-append m (c ∷ cores) core = omega (arith, unclosed-append m cores core)

pub IsQueued-append :
    (core new : CoreComponent) (cores : List CoreComponent)
    → IsQueued core cores
    → IsQueued core (cores ++ new ∷ [])
IsQueued-append core new cores (j, e) = (j, get_elem?-append cores (new ∷ []) j e)

-- A library that joins the queue asks for at most one more run path.
pub unclosed-grow :
    (m m' : IndexMap GlobalDylib) (pos : ℕ) (cores : List CoreComponent) (core : CoreComponent)
    → Keeps m m'
    → pos ≤ length cores
    → unclosed m' (drop pos (cores ++ core ∷ [])) ≤ unclosed m (drop pos cores) + open_one m' core
unclosed-grow m m' pos cores core k h = rw (drop-append pos cores (core ∷ []) h) (
    omega (arith, unclosed-append m' (drop pos cores) core, unclosed-Keeps m m' (drop pos cores) k))
