-- ===== src/Dlopen/Resolve.antt =====
-- The depth-first relocation of `dlopen_impl`.
pub mod Ends
pub mod Once
pub mod Visits
pub mod Reach
pub mod Descent
pub mod Rule
use dlopen_rs.Base.{
  ℕ, zero, suc, ◌+◌, false, List, [], ◌∷◌, ◌++◌, none, some, get_elem?, set, drop, if◌then◌else◌,
  ◌==◌,
}
use dlopen_rs.Base.Text.{Text}
use dlopen_rs.Base.IndexMap.{get, modify, values}
use dlopen_rs.Error.{ok, panicked, out_of_fuel, unwrap_none, index_out_of_bounds, from_call}
use dlopen_rs.Step.{Step, and_then}
use dlopen_rs.Builtin.{builtin}
use dlopen_rs.Loader.{ElfLibrary, Platform, create_lazy_scope}
use dlopen_rs.Register.{Manager, set_mark, set_new_idx, is_relocated}
use dlopen_rs.Dlopen.Walk.{Walk}

pub record Item : Type 0 where
  pub idx : ℕ
  pub next : ℕ

-- What the loop over the needed names of an item ends with: `can_relocate`, or the item as it is
-- pushed back and the index of the library to go on with.
pub data Found : Type 0 where
  can_relocate : Found
  descend : Item → ℕ → Found

-- the loop over `names.iter().skip(item.next)`
unfoldable pub scan_names : Item → List Text → Step Manager Found
scan_names item [] m = (ok can_relocate, m)
scan_names item (name ∷ names) m = elim (get name m.all) [
  | none ↦ (panicked unwrap_none, m)
  | some lib ↦
      let unmarked = record m { all = modify name (set_mark false) m.all } in
      let item' = record item { next = item.next + 1 } in
      let rest = scan_names item' names unmarked in
      if lib.new_idx == is_relocated then rest else (
        ok (descend item' lib.new_idx),
        record unmarked { all = modify name (set_new_idx is_relocated) unmarked.all },
      )
]

-- `core::mem::take(&mut new_libs[idx])`, and the record of the call that follows
abbrev pub take_library : ℕ → Walk → Walk
take_library idx w = record w { new_libs = set w.new_libs idx none; relocated = idx ∷ w.relocated }

module _ (p : Platform) where
  -- `reloc(take(&mut new_libs[item.idx]).unwrap())?`
  unfoldable pub reloc : ℕ → ElfLibrary → Step Walk (Unit {0})
  reloc idx lib w =
      let scope = values w.manager.global ++ w.dep_libs in
      let lazy_scope = create_lazy_scope w.dep_libs lib.dylib.is_lazy in
      and_then
        (from_call (p.relocate lib.dylib scope (builtin p.address) lazy_scope), take_library idx w)
        (λ _ w'. (ok tt, w'))

  -- what follows the loop over the names
  unfoldable pub settle : Item → List Item → ElfLibrary → Found → Step Walk (List Item)
  unfolding reloc
  settle item stack lib can_relocate w = and_then (reloc item.idx lib w) (λ _ w'. (ok stack, w'))
  settle item stack lib (descend item' idx) w =
      (ok (record { idx = idx; next = 0 } ∷ item' ∷ stack), w)

  -- one round of `while let Some(mut item) = stack.pop()`: the stack that it leaves
  unfoldable pub round : Item → List Item → Step Walk (List Item)
  unfolding scan_names settle
  round item stack w = elim (get_elem? w.new_libs item.idx) [
    | none ↦ (panicked index_out_of_bounds, w)
    | some none ↦ (panicked unwrap_none, w)
    | some (some lib) ↦
        let scanned = scan_names item (drop item.next lib.dylib.needed_libs) w.manager in
        and_then (scanned.0, record w { manager = scanned.1 }) (settle item stack lib)
  ]

  unfoldable pub resolve_loop : ℕ → List Item → Step Walk (Unit {0})
  unfolding round
  resolve_loop zero stack w = (out_of_fuel, w)
  resolve_loop (suc fuel) [] w = (ok tt, w)
  resolve_loop (suc fuel) (item ∷ stack) w =
      and_then (round item stack w) (λ stack' w'. resolve_loop fuel stack' w')
