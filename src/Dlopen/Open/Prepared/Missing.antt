-- ===== src/Dlopen/Open/Prepared/Missing.antt =====
-- What a step of the search may end with, and the names for which it loads a library.
use dlopen_rs.Step.{and_then, Step}
use dlopen_rs.Base.Text.{has_char, Text}
use dlopen_rs.Error.{out_of_fuel, panicked, success, err, ok, Result}
use dlopen_rs.Register.{GlobalDylib}
use dlopen_rs.Base.IndexMap.{get, IndexMap}
use dlopen_rs.Loader.{ElfObject, Platform, CoreComponent}
use dlopen_rs.Dlopen.Open.Prepared.{
  all_listed-AllListed, AllKept, IsQueued, AllPlain, ElfDylib, Walk, IsPrepared, IsPlain, Going,
  open_one, all_listed,
}
use dlopen_rs.Dlopen.Open.Prepared.Add.{IsAsked}
use dlopen_rs.Dlopen.Open.Panics.{IsDuePanic}
use dlopen_rs.Dlopen.Resolve.Descent.{InNames}
use dlopen_rs.Base.{
  [], subst, inr, sym, ◌∷◌, false, inl, length, List, ◌≡◌, none, some, arith, ◌<◌, Bool, ◌≤◌,
  Option, ℕ,
}

-- The libraries that can be loaded need plain names.
abbrev pub LoadsPlain : Platform → Type 0
LoadsPlain p =
    (object : ElfObject) (lazy : Option Bool) (lib : ElfDylib)
    → p.load_dylib object lazy ≡ success lib
    → IsPlain lib

module _ (m0 : IndexMap GlobalDylib) where
  -- A step that succeeds ends with `Q`, and one that panics with the assertion or
  -- with the panic of a callback. The libraries that
  -- were registered before stay.
  abbrev pub Fine : Platform → {A : Type 0} → (A → Walk → Type 0) → Result A × Walk → Type 0
  Fine p Q (ok a, w) = Q a w
  Fine p Q (err e, w) = AllKept m0 w.manager.all
  Fine p Q (panicked e, w) = IsDuePanic p e × AllKept m0 w.manager.all
  Fine p Q (out_of_fuel, w) = AllKept m0 w.manager.all

  pub Fine-and_then :
      (p : Platform) {A B : Type 0} (R : A → Walk → Type 0) (Q : B → Walk → Type 0)
      (out : Result A × Walk) (k : A → Step Walk B)
      → Fine p R out
      → ((a : A) (w : Walk) → R a w → Fine p Q (k a w))
      → Fine p Q (and_then out k)
  Fine-and_then p R Q (ok a, w) k h next = next a w h
  Fine-and_then p R Q (err e, w) k h next = h
  Fine-and_then p R Q (panicked e, w) k h next = h
  Fine-and_then p R Q (out_of_fuel, w) k h next = h

  -- The state in the loop over the needed names of `core`, whose run path is the one at `cur`.
  abbrev pub Visiting : ℕ → CoreComponent → Option ℕ → Walk → Type 0
  Visiting pos core none w = Going m0 pos (open_one w.manager.all core) w × IsQueued core w.dep_libs
  Visiting pos core (some q) w =
      Going m0 pos 0 w × IsQueued core w.dep_libs × (q < length w.rpath_vec)

pub all_listed-missing :
    (m : IndexMap GlobalDylib) (name : Text) (names : List Text)
    → InNames name names
    → get name m ≡ none
    → all_listed m names ≡ false
all_listed-missing m name [] inside e = absurd inside
all_listed-missing m name (n ∷ names) (inl same) e = rw (sym same, e)
all_listed-missing m name (n ∷ names) (inr deeper) e =
    ground (arith, all_listed-missing m name names deeper e)

pub AllPlain-name :
    (name : Text) (names : List Text)
    → InNames name names
    → AllPlain names
    → has_char b'/' name ≡ false
AllPlain-name name [] inside h = absurd inside
AllPlain-name name (n ∷ names) (inl same) h = rw same h.0
AllPlain-name name (n ∷ names) (inr deeper) h = AllPlain-name name names deeper h.1

pub Going-less :
    (m0 : IndexMap GlobalDylib) (pos extra extra' : ℕ) (w : Walk)
    → extra' ≤ extra
    → Going m0 pos extra w
    → Going m0 pos extra' w
Going-less m0 pos extra extra' w h g = record {
  prepared = g.prepared;
  room = omega (arith, h, g.room);
  within = g.within;
}

-- A name that is not registered, is no path, and is needed by a new library.
pub record IsMissing (name : Text) (w : Walk) : Type 0 where
  pub fresh : get name w.manager.all ≡ none
  pub plain : has_char b'/' name ≡ false
  pub asked : IsAsked name w.new_libs

pub missing :
    (m0 : IndexMap GlobalDylib) (name : Text) (core : CoreComponent) (w : Walk)
    → IsPrepared m0 w
    → InNames name core.needed_libs
    → IsQueued core w.dep_libs
    → get name w.manager.all ≡ none
    → IsMissing name w
missing m0 name core w h inside (j, at_j) e = elim (h.owned j core at_j) [
  | inl listed ↦ cc (
    all_listed-missing w.manager.all name core.needed_libs inside e,
    all_listed-AllListed w.manager.all core.needed_libs listed,
  )
  | inr (i, lib, at_i, same) ↦
      let inside' : InNames name lib.dylib.core_component.needed_libs =
        subst (λ (c : CoreComponent). InNames name c.needed_libs) (sym same) inside in
      record {
        fresh = e;
        plain =
            AllPlain-name name lib.dylib.core_component.needed_libs inside'
              (h.sound i lib at_i).plain;
        asked = (i, lib, at_i, inside');
      }
]
