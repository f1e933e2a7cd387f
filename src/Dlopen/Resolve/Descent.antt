-- ===== src/Dlopen/Resolve/Descent.antt =====
-- Where the scan of the needed names descends to.
use dlopen_rs.Base.Text.{text_eq, Text}
use dlopen_rs.Base.{
  [], sym, subst, ==_iff, ◌==◌, Bool-cases, ◌+◌, arith, Option-cases, false, List, ◌≡◌, ◌≢◌, ◌⊎◌,
  inl, inr, some, ◌∷◌, refl, ap, ◌∙◌,
}
use dlopen_rs.Base.IndexMap.{IndexMap, get, modify, get-modify}
use dlopen_rs.Register.{Manager, GlobalDylib, set_mark, set_new_idx}
use dlopen_rs.Error.{Result, ok, err, panicked, out_of_fuel}
use dlopen_rs.Dlopen.Resolve.{Manager, Text, Item, Found, can_relocate, descend, scan_names}
use dlopen_rs.Dlopen.Resolve.Visits.{Waiting}

abbrev pub InNames : Text → List Text → Type 0
InNames name [] = ⊥
InNames name (n ∷ names) = (name ≡ n) ⊎ InNames name names

module _ (m0 : IndexMap GlobalDylib) where
  -- The libraries that wait have the index that they had before.
  abbrev pub Unmoved : IndexMap GlobalDylib → Type 0
  Unmoved m =
      (name : Text) (lib : GlobalDylib)
      → get name m ≡ some lib
      → lib.new_idx ≢ 255
      → Waiting m0 name lib.new_idx

  -- an entry after a change comes from an entry before it
  pub changed :
      (k name : Text) (f : GlobalDylib → GlobalDylib) (m : IndexMap GlobalDylib) (lib : GlobalDylib)
      → get name (modify k f m) ≡ some lib
      → (old : GlobalDylib) × (get name m ≡ some old) × ((lib ≡ f old) ⊎ (lib ≡ old))
  changed k name f m lib e = elim (Option-cases (get name m)) [
    | inl n ↦ absurd (ground (arith, e, n, get-modify k name f m))
    | inr (old, o) ↦ elim (Bool-cases (text_eq k name)) [
      | inl t ↦ (old, o, inl (ground (arith, e, o, get-modify k name f m)))
      | inr t ↦ (old, o, inr (ground (arith, e, o, get-modify k name f m)))
    ]
  ]

  same_idx :
      (name : Text) (m : IndexMap GlobalDylib) (old lib : GlobalDylib)
      → Unmoved m
      → get name m ≡ some old
      → lib.new_idx ≡ old.new_idx
      → lib.new_idx ≢ 255
      → Waiting m0 name lib.new_idx
  same_idx name m old lib h o idx ne =
      subst (Waiting m0 name) (sym idx) (h name old o (λ c. ne (idx ∙ c)))

  pub Unmoved-mark :
      (k : Text) (m : IndexMap GlobalDylib) → Unmoved m → Unmoved (modify k (set_mark false) m)
  Unmoved-mark k m h name lib e ne =
      let (old, o, which) = changed k name (set_mark false) m lib e in
      elim which [
        | inl same ↦ same_idx name m old lib h o (ap (λ (x : GlobalDylib). x.new_idx) same) ne
        | inr same ↦ same_idx name m old lib h o (ap (λ (x : GlobalDylib). x.new_idx) same) ne
      ]

  pub Unmoved-visit :
      (k : Text) (m : IndexMap GlobalDylib) → Unmoved m → Unmoved (modify k (set_new_idx 255) m)
  Unmoved-visit k m h name lib e ne =
      let (old, o, which) = changed k name (set_new_idx 255) m lib e in
      elim which [
        | inl same ↦ absurd (ne (ap (λ (x : GlobalDylib). x.new_idx) same))
        | inr same ↦ same_idx name m old lib h o (ap (λ (x : GlobalDylib). x.new_idx) same) ne
      ]

  -- The scan leads to a library that one of the names needs.
  abbrev pub Descends : List Text → Result Found × Manager → Type 0
  Descends needed (ok can_relocate, m') = Unmoved m'.all
  Descends needed (ok (descend item' idx), m') =
      Unmoved m'.all × ((name : Text) × InNames name needed × Waiting m0 name idx) × (idx ≢ 255)
  Descends needed (err e, m') = Unit {0}
  Descends needed (panicked e, m') = Unit {0}
  Descends needed (out_of_fuel, m') = Unit {0}

  pub Descends-cons :
      (name : Text) (names : List Text) (out : Result Found × Manager)
      → Descends names out
      → Descends (name ∷ names) out
  Descends-cons name names (ok can_relocate, m') h = h
  Descends-cons name names (ok (descend item' idx), m') (u, (n, inside, v), ne) =
      (u, (n, inr inside, v), ne)
  Descends-cons name names (err e, m') h = tt
  Descends-cons name names (panicked e, m') h = tt
  Descends-cons name names (out_of_fuel, m') h = tt

  pub scan_names-Descends :
      (item : Item) (names : List Text) (m : Manager)
      → Unmoved m.all
      → Descends names (scan_names item names m)
  unfolding scan_names
  scan_names-Descends item [] m u = u
  scan_names-Descends item (name ∷ names) m u = elim (Option-cases (get name m.all)) [
    | inl n ↦ rw (n, scan_names) tt
    | inr (lib, here) ↦
        let m1 = record m { all = modify name (set_mark false) m.all } in
        let item' = record item { next = item.next + 1 } in
        let u1 = Unmoved-mark name m.all u in
        elim (Bool-cases (lib.new_idx == 255)) [
          | inl t ↦
              rw (here, scan_names, t)
                (Descends-cons name names (scan_names item' names m1)
                  (scan_names-Descends item' names m1 u1))
          | inr t ↦
              let ne : lib.new_idx ≢ 255 = λ c. cc (t, (==_iff lib.new_idx 255).1 c) in
              rw (here, scan_names, t)
                (Unmoved-visit name m1.all u1, (name, inl refl, u name lib here ne), ne)
        ]
  ]
