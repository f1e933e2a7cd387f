-- ===== src/Dlopen/Resolve/Rule.antt =====
-- What every change of the relocation keeps holds after it, however it ends.
use dlopen_rs.Base.{
  [], refl, ℕ, zero, suc, ◌+◌, ◌≡◌, List, ◌∷◌, none, some, inl, inr, false, Option-cases,
  Bool-cases, get_elem?, drop, ◌==◌,
}
use dlopen_rs.Base.Text.{Text}
use dlopen_rs.Base.IndexMap.{get, modify}
use dlopen_rs.Error.{Result, ok, err, panicked, out_of_fuel}
use dlopen_rs.Step.{and_then}
use dlopen_rs.Loader.{ElfLibrary, Platform}
use dlopen_rs.Register.{GlobalDylib, Manager, set_mark, set_new_idx}
use dlopen_rs.Dlopen.Walk.{Walk}
use dlopen_rs.Dlopen.Search.Rule.{and_then-rule}
use dlopen_rs.Dlopen.Resolve.{
  Item, Found, can_relocate, descend, take_library, scan_names, reloc, settle, round, resolve_loop,
}
use dlopen_rs.Dlopen.Resolve.Ends.{reloc-cases}

-- a change of one entry of `all`
abbrev pub modify_all : Text → (GlobalDylib → GlobalDylib) → Manager → Manager
modify_all name f m = record m { all = modify name f m.all }

-- A change of the relocation keeps the library of an entry, and never makes it wait.
abbrev pub IsVisit : (GlobalDylib → GlobalDylib) → Type 0
IsVisit f =
    ((lib : GlobalDylib) → (f lib).inner ≡ lib.inner)
    × ((lib : GlobalDylib) → lib.new_idx ≡ 255 → (f lib).new_idx ≡ 255)

scan_names-rule {ℓ} :
    (Q : Manager → Type ℓ)
    → ((name : Text) (f : GlobalDylib → GlobalDylib) (m : Manager)
        → IsVisit f
        → Q m
        → Q (modify_all name f m))
    → (item : Item) (names : List Text) (m : Manager) → Q m
    → Q (scan_names item names m).1
unfolding scan_names
scan_names-rule Q keep item [] m h = h
scan_names-rule Q keep item (name ∷ names) m h = elim (Option-cases (get name m.all)) [
  | inl e ↦ rw (e, scan_names) h
  | inr (lib, e) ↦
      let h' = keep name (set_mark false) m ((λ l. refl), (λ l e. e)) h in
      elim (Bool-cases (lib.new_idx == 255)) [
        | inl old ↦
            rw (e, scan_names, old)
              (scan_names-rule Q keep (record item { next = item.next + 1 }) names
                (modify_all name (set_mark false) m) h')
        | inr new ↦
            rw (e, scan_names, new)
              (keep name (set_new_idx 255) (modify_all name (set_mark false) m)
                ((λ l. refl), (λ l e. refl)) h')
      ]
]

module _ {ℓ} (p : Platform) (P : Walk → Type ℓ)
    (keep_modify : (name : Text) (f : GlobalDylib → GlobalDylib) (w : Walk)
      → IsVisit f
      → P w
      → P (record w { manager = modify_all name f w.manager }))
    (keep_take : (idx : ℕ) (lib : ElfLibrary) (w : Walk)
      → get_elem? w.new_libs idx ≡ some (some lib)
      → P w
      → P (take_library idx w)) where
  reloc-rule :
      (idx : ℕ) (lib : ElfLibrary) (w : Walk)
      → get_elem? w.new_libs idx ≡ some (some lib)
      → P w
      → P (reloc p idx lib w).1
  reloc-rule idx lib w e h = elim (reloc-cases p idx lib w) [
    | inl ends ↦ rw ends (keep_take idx lib w e h)
    | inr (inl (failed, ends)) ↦ rw ends (keep_take idx lib w e h)
    | inr (inr (q, ends)) ↦ rw ends (keep_take idx lib w e h)
  ]

  settle-rule :
      (item : Item) (stack : List Item) (lib : ElfLibrary) (found : Found) (w : Walk)
      → get_elem? w.new_libs item.idx ≡ some (some lib)
      → P w
      → P (settle p item stack lib found w).1
  unfolding settle
  settle-rule item stack lib can_relocate w e h =
      and_then-rule P (reloc p item.idx lib w) _ (reloc-rule item.idx lib w e h) (λ _ w' h'. h')
  settle-rule item stack lib (descend item' idx) w e h = h

  settled-rule :
      (item : Item) (stack : List Item) (lib : ElfLibrary) (w : Walk)
      (scanned : Result Found × Manager)
      → get_elem? w.new_libs item.idx ≡ some (some lib)
      → P (record w { manager = scanned.1 })
      → P (and_then (scanned.0, record w { manager = scanned.1 }) (settle p item stack lib)).1
  settled-rule item stack lib w (ok found, m) e h =
      settle-rule item stack lib found (record w { manager = m }) e h
  settled-rule item stack lib w (err failed, m) e h = h
  settled-rule item stack lib w (panicked failed, m) e h = h
  settled-rule item stack lib w (out_of_fuel, m) e h = h

  round-rule : (item : Item) (stack : List Item) (w : Walk) → P w → P (round p item stack w).1
  unfolding round
  round-rule item stack w h = elim (Option-cases (get_elem? w.new_libs item.idx)) [
    | inl e ↦ rw (e, round) h
    | inr (none, e) ↦ rw (e, round) h
    | inr (some lib, e) ↦
        rw (e, round)
          (settled-rule item stack lib w
            (scan_names item (drop item.next lib.dylib.needed_libs) w.manager) e
            (scan_names-rule (λ m. P (record w { manager = m }))
              (λ name f m. keep_modify name f (record w { manager = m })) item
              (drop item.next lib.dylib.needed_libs) w.manager h))
  ]

  pub resolve_loop-rule :
      (fuel : ℕ) (stack : List Item) (w : Walk) → P w → P (resolve_loop p fuel stack w).1
  unfolding resolve_loop
  resolve_loop-rule zero stack w h = h
  resolve_loop-rule (suc fuel) [] w h = h
  resolve_loop-rule (suc fuel) (item ∷ stack) w h =
      and_then-rule P (round p item stack w) _ (round-rule item stack w h)
        (λ stack' w' h'. resolve_loop-rule fuel stack' w' h')
