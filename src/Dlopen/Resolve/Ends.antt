-- ===== src/Dlopen/Resolve/Ends.antt =====
-- The relocation ends: a round pops an item for good or takes an index that was not taken.
use dlopen_rs.Builtin.{builtin}
use dlopen_rs.Base.{
  [], ◌⊎◌, ◌++◌, ℕ, zero, suc, ◌+◌, ◌*◌, ◌≤◌, ◌<◌, ◌≡◌, ◌≢◌, refl, List, ◌∷◌, none, some, inl, inr,
  false, Option-cases, Bool-cases, get_elem?, length, arith, if◌then◌else◌, ◌==◌, drop,
}
use dlopen_rs.Base.Text.{Text}
use dlopen_rs.Base.IndexMap.{IndexMap, get, modify, values}
use dlopen_rs.Error.{
  Result, ok, err, panicked, out_of_fuel, Error, loader_error, Called-cases, Panic,
}
use dlopen_rs.Step.{Step, and_then}
use dlopen_rs.Loader.{ElfLibrary, Platform, create_lazy_scope}
use dlopen_rs.Register.{GlobalDylib, Manager, set_mark, set_new_idx}
use dlopen_rs.Dlopen.Walk.{Walk}
use dlopen_rs.Dlopen.Resolve.{
  Item, Found, can_relocate, descend, scan_names, take_library, reloc, settle, round, resolve_loop,
}

-- the entries whose `new_idx` is not `IS_RELOCATED`
pub pending : IndexMap GlobalDylib → ℕ
pending [] = 0
pending ((k, lib) ∷ m) = (if lib.new_idx == 255 then 0 else 1) + pending m

pending-mark :
    (name : Text) (m : IndexMap GlobalDylib) → pending (modify name (set_mark false) m) ≡ pending m
unfolding pending modify
pending-mark name [] = refl
pending-mark name ((k, l) ∷ m) = ground (arith, pending-mark name m)

pending-take :
    (name : Text) (lib : GlobalDylib) (m : IndexMap GlobalDylib)
    → get name m ≡ some lib
    → (lib.new_idx == 255) ≡ false
    → suc (pending (modify name (set_new_idx 255) (modify name (set_mark false) m))) ≡ pending m
unfolding pending get modify
pending-take name lib [] h u = cc
pending-take name lib ((k, l) ∷ m) h u =
    ground (arith, pending-take name lib m, pending-mark name m)

pub pending-le-length : (m : IndexMap GlobalDylib) → pending m ≤ length m
unfolding pending
pending-le-length [] = omega arith
pending-le-length ((k, l) ∷ m) = ground (arith, pending-le-length m)

-- What the loop over the names leaves of the pending entries.
abbrev Scanned : ℕ → Result Found × Manager → Type 0
Scanned n (ok can_relocate, m) = pending m.all ≤ n
Scanned n (ok (descend item idx), m) = pending m.all < n
Scanned n (err e, m) = ⊥
Scanned n (panicked e, m) = Unit {0}
Scanned n (out_of_fuel, m) = ⊥

scan_names-Scanned :
    (item : Item) (names : List Text) (m : Manager)
    → Scanned (pending m.all) (scan_names item names m)
unfolding scan_names
scan_names-Scanned item [] m = omega arith
scan_names-Scanned item (name ∷ names) m = elim (Option-cases (get name m.all)) [
  | inl e ↦ rw (e, scan_names) tt
  | inr (lib, e) ↦ elim (Bool-cases (lib.new_idx == 255)) [
    | inl old ↦
        rw (e, scan_names, old)
          (rw (pending-mark name m.all) at (
            scan_names-Scanned (record item { next = item.next + 1 }) names
              (record m { all = modify name (set_mark false) m.all })))
    | inr new ↦ rw (e, scan_names, new) (omega (arith, pending-take name lib m.all e new))
  ]
]

-- the stack, and twice what can still be put on it
unfoldable pub cost : List Item → Walk → ℕ
cost stack w = 2 * pending w.manager.all + length stack

abbrev Shrinks : ℕ → Result (List Item) × Walk → Type 0
Shrinks n (ok stack, w) = cost stack w < n
Shrinks n (err e, w) = Unit {0}
Shrinks n (panicked e, w) = Unit {0}
Shrinks n (out_of_fuel, w) = ⊥

module _ (p : Platform) where
  pub reloc-cases :
      (idx : ℕ) (lib : ElfLibrary) (w : Walk)
      → (reloc p idx lib w ≡ (ok tt, take_library idx w))
        ⊎ (((e : Error) × (reloc p idx lib w ≡ (err e, take_library idx w)))
            ⊎ ((q : Panic) × (reloc p idx lib w ≡ (panicked q, take_library idx w))))
  unfolding reloc
  reloc-cases idx lib w =
      elim (Called-cases (
        p.relocate lib.dylib (values w.manager.global ++ w.dep_libs) (builtin p.address)
          (create_lazy_scope w.dep_libs lib.dylib.is_lazy))) [
            | inl (core, e) ↦ inl (rw e)
            | inr (inl (failed, e)) ↦ inr (inl (loader_error failed, rw e))
            | inr (inr (q, e)) ↦ inr (inr (q, rw e))
          ]

  settle-Shrinks :
      (item : Item) (stack : List Item) (lib : ElfLibrary) (w : Walk)
      (scanned : Result Found × Manager)
      → Scanned (pending w.manager.all) scanned
      → Shrinks
          (cost (item ∷ stack) w)
          (and_then (scanned.0, record w { manager = scanned.1 }) (settle p item stack lib))
  unfolding settle cost
  settle-Shrinks item stack lib w (ok can_relocate, m) h =
      elim (reloc-cases item.idx lib (record w { manager = m })) [
        | inl e ↦ rw e (omega arith)
        | inr (inl (failed, e)) ↦ rw e tt
        | inr (inr (q, e)) ↦ rw e tt
      ]
  settle-Shrinks item stack lib w (ok (descend item' idx), m) h = omega arith
  settle-Shrinks item stack lib w (err e, m) h = absurd h
  settle-Shrinks item stack lib w (panicked e, m) h = tt
  settle-Shrinks item stack lib w (out_of_fuel, m) h = absurd h

  round-Shrinks :
      (item : Item) (stack : List Item) (w : Walk)
      → Shrinks (cost (item ∷ stack) w) (round p item stack w)
  unfolding round
  round-Shrinks item stack w = elim (Option-cases (get_elem? w.new_libs item.idx)) [
    | inl e ↦ rw (e, round) tt
    | inr (none, e) ↦ rw (e, round) tt
    | inr (some lib, e) ↦
        rw (e, round)
          (settle-Shrinks item stack lib w
            (scan_names item (drop item.next lib.dylib.needed_libs) w.manager)
            (scan_names-Scanned item (drop item.next lib.dylib.needed_libs) w.manager))
  ]

  Shrinks-ends :
      (n fuel : ℕ) (out : Result (List Item) × Walk) (k : List Item → Step Walk (Unit {0}))
      → Shrinks n out
      → n ≤ fuel
      → ((stack : List Item) (w : Walk) → cost stack w < fuel → (k stack w).0 ≢ out_of_fuel)
      → (and_then out k).0 ≢ out_of_fuel
  Shrinks-ends n fuel (ok stack, w) k h le next = next stack w (omega arith)
  Shrinks-ends n fuel (err e, w) k h le next = λ c. cc
  Shrinks-ends n fuel (panicked e, w) k h le next = λ c. cc
  Shrinks-ends n fuel (out_of_fuel, w) k h le next = absurd h

  -- With more fuel than the cost the relocation ends by itself.
  pub resolve_loop-ends :
      (fuel : ℕ) (stack : List Item) (w : Walk)
      → cost stack w < fuel
      → (resolve_loop p fuel stack w).0 ≢ out_of_fuel
  unfolding resolve_loop
  resolve_loop-ends zero stack w h = absurd (omega arith)
  resolve_loop-ends (suc fuel) [] w h = λ c. cc
  resolve_loop-ends (suc fuel) (item ∷ stack) w h =
      Shrinks-ends (cost (item ∷ stack) w) fuel (round p item stack w) _
        (round-Shrinks item stack w) (omega arith)
        (λ stack' w' small. resolve_loop-ends fuel stack' w' small)
