-- ===== src/Dlopen/Open/Ready/Scan.antt =====
-- The scan of the needed names of a library that is ready.
use dlopen_rs.Base.Text.{text_eq_refl}
use dlopen_rs.Dlopen.Open.Listed.{listed-modify, AllListed}
use dlopen_rs.Register.{set_new_idx, set_mark, Manager}
use dlopen_rs.Dlopen.Resolve.{can_relocate, descend, Found, Item, scan_names}
use dlopen_rs.Error.{out_of_fuel, panicked, err, ok, Result}
use dlopen_rs.Base.IndexMap.{modify, get, IndexMap}
use dlopen_rs.Dlopen.Resolve.Descent.{Unmoved, Unmoved-mark, Unmoved-visit}
use dlopen_rs.Dlopen.Resolve.Visits.{Waiting, Visited, get-modify-some}
use dlopen_rs.Dlopen.Open.Ready.{Text, GlobalDylib, Keeps}
use dlopen_rs.Base.{
  [], refl, ◌∙◌, some, ==_iff, ◌==◌, Bool-cases, ◌+◌, false, inr, arith, inl, Option-cases, ◌∷◌,
  ◌≢◌, ◌≡◌, List, ℕ,
}

module _ (m0 : IndexMap GlobalDylib) (i : ℕ) where
  -- The scan of an item of the library with index `i` ends well.
  abbrev pub Scanned : Result Found × Manager → Type 0
  Scanned (ok can_relocate, m') = Unmoved m0 m'.all × Keeps m0 m'.all
  Scanned (ok (descend item' idx), m') =
      Unmoved m0 m'.all
      × Keeps m0 m'.all
      × (item'.idx ≡ i)
      × (idx ≢ 255)
      × ((name : Text) × Waiting m0 name idx × Visited m'.all name)
  Scanned (err e, m') = ⊥
  Scanned (panicked e, m') = ⊥
  Scanned (out_of_fuel, m') = ⊥

  pub scan_names-Scanned :
      (item : Item) (names : List Text) (m : Manager)
      → item.idx ≡ i
      → Unmoved m0 m.all
      → Keeps m0 m.all
      → AllListed m0 names
      → Scanned (scan_names item names m)
  unfolding scan_names
  scan_names-Scanned item [] m same u k h = (u, k)
  scan_names-Scanned item (name ∷ names) m same u k h = elim (Option-cases (get name m.all)) [
    | inl n ↦ absurd (ground (arith, n, k name h.0))
    | inr (lib, here) ↦
        let m1 = record m { all = modify name (set_mark false) m.all } in
        let item' = record item { next = item.next + 1 } in
        let u1 = Unmoved-mark m0 name m.all u in
        let k1 : Keeps m0 m1.all = λ j l. listed-modify name (set_mark false) m.all j (k j l) in
        elim (Bool-cases (lib.new_idx == 255)) [
          | inl t ↦ rw (here, scan_names, t) (scan_names-Scanned item' names m1 same u1 k1 h.1)
          | inr t ↦
              let ne : lib.new_idx ≢ 255 = λ c. cc (t, (==_iff lib.new_idx 255).1 c) in
              let marked : get name m1.all ≡ some (set_mark false lib) =
                get-modify-some name name (set_mark false) m.all lib here
                ∙ rw (text_eq_refl name) in
              let visited : Visited (modify name (set_new_idx 255) m1.all) name = (
                set_new_idx 255 (set_mark false lib),
                get-modify-some name name (set_new_idx 255) m1.all (set_mark false lib) marked
                    ∙ rw (text_eq_refl name),
                refl,
              ) in
              rw (here, scan_names, t)
                (
                  Unmoved-visit m0 name m1.all u1,
                  (λ j l. listed-modify name (set_new_idx 255) m1.all j (k1 j l)),
                  same,
                  ne,
                  (name, u name lib here ne, visited),
                )
        ]
  ]
