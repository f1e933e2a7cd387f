-- ===== src/Base/IndexMap.antt =====
-- The `IndexMap<String, V>` that the manager keeps: its entries in index order, under keys that
-- differ. `insert` on a key that is there keeps its index, `shift_remove` keeps the order.
use mathlib.Core.Path.{◌≡◌, refl, ap}
use mathlib.Core.List.{List, [], ◌∷◌, ◌++◌, append-nil}
use mathlib.Core.Option.{Option, none, some}
use mathlib.Core.Option
use Prim.Native.Nat.{ℕ, zero, suc}
use native.Mathlib.Omega.{arith}
use dlopen_rs.Base.Tests.{if◌then◌else◌, is_some}
use dlopen_rs.Base.Lists.{length, take}
use dlopen_rs.Base.Text.{Text, text_eq, text_eq_iff}

abbrev pub IndexMap {ℓ} : Type ℓ → Type ℓ
IndexMap V = List (Text × V)

module _ {ℓ} {V : Type ℓ} where
  unfoldable pub get : Text → IndexMap V → Option V
  get k [] = none
  get k ((j, v) ∷ m) = if text_eq j k then some v else get k m

  unfoldable pub insert : Text → V → IndexMap V → IndexMap V
  insert k v [] = (k, v) ∷ []
  insert k v ((j, w) ∷ m) = if text_eq j k then (j, v) ∷ m else (j, w) ∷ insert k v m

  unfoldable pub shift_remove : Text → IndexMap V → IndexMap V
  shift_remove k [] = []
  shift_remove k ((j, w) ∷ m) =
      let rest = shift_remove k m in if text_eq j k then rest else (j, w) ∷ rest

  -- `if let Some(v) = m.get_mut(k) { *v = f(*v) }`
  unfoldable pub modify : Text → (V → V) → IndexMap V → IndexMap V
  modify k f [] = []
  modify k f ((j, w) ∷ m) = if text_eq j k then (j, f w) ∷ m else (j, w) ∷ modify k f m

  abbrev pub truncate : ℕ → IndexMap V → IndexMap V
  truncate n m = take n m

  abbrev pub values : IndexMap V → List V
  values [] = []
  values ((k, v) ∷ m) = v ∷ values m

  abbrev pub keys : IndexMap V → List Text
  keys [] = []
  keys ((k, v) ∷ m) = k ∷ keys m

  pub get-insert :
      (k j : Text) (v : V) (m : IndexMap V)
      → get j (insert k v m) ≡ (if text_eq k j then some v else get j m)
  unfolding get insert
  get-insert k j v [] = refl
  get-insert k j v ((i, w) ∷ m) =
      ground (arith, text_eq_iff k j, text_eq_iff i k, text_eq_iff i j, get-insert k j v m)

  pub get-shift_remove :
      (k j : Text) (m : IndexMap V)
      → get j (shift_remove k m) ≡ (if text_eq k j then none else get j m)
  unfolding get shift_remove
  get-shift_remove k j [] = ground arith
  get-shift_remove k j ((i, w) ∷ m) =
      ground (arith, text_eq_iff k j, text_eq_iff i k, text_eq_iff i j, get-shift_remove k j m)

  pub get-modify :
      (k j : Text) (f : V → V) (m : IndexMap V)
      → get j (modify k f m) ≡ (if text_eq k j then Option.map f (get j m) else get j m)
  unfolding get modify
  get-modify k j f [] = ground arith
  get-modify k j f ((i, w) ∷ m) =
      ground (arith, text_eq_iff k j, text_eq_iff i k, text_eq_iff i j, get-modify k j f m)

  pub keys-modify : (k : Text) (f : V → V) (m : IndexMap V) → keys (modify k f m) ≡ keys m
  unfolding modify
  keys-modify k f [] = refl
  keys-modify k f ((i, w) ∷ m) = ground (arith, keys-modify k f m)

  -- An insertion appends one key at most, and moves none.
  pub keys-insert :
      (k : Text) (v : V) (m : IndexMap V)
      → keys (insert k v m) ≡ keys m ++ (if is_some (get k m) then [] else k ∷ [])
  unfolding get insert
  keys-insert k v [] = refl
  keys-insert k v ((i, w) ∷ m) = ground (arith, keys-insert k v m, append-nil (keys m))

  pub length-keys : (m : IndexMap V) → length (keys m) ≡ length m
  length-keys [] = refl
  length-keys ((k, v) ∷ m) = ap suc (length-keys m)

  pub keys-take : (n : ℕ) (m : IndexMap V) → keys (take n m) ≡ take n (keys m)
  keys-take zero m = refl
  keys-take (suc n) [] = refl
  keys-take (suc n) ((k, v) ∷ m) = ap (◌∷◌ k) (keys-take n m)

  pub length-modify : (k : Text) (f : V → V) (m : IndexMap V) → length (modify k f m) ≡ length m
  unfolding modify
  length-modify k f [] = refl
  length-modify k f ((i, w) ∷ m) = ground (arith, length-modify k f m)
