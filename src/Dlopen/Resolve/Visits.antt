-- ===== src/Dlopen/Resolve/Visits.antt =====
-- What the scan of the needed names visits.
use dlopen_rs.Base.Text.{text_eq_refl, text_eq_iff, text_eq, Text}
use dlopen_rs.Base.{
  [], ==_iff, ◌==◌, Option-cases, subst, arith, if◌then◌else◌, sym, ap, Bool-cases, List, ℕ, zero,
  suc, ◌+◌, ◌≡◌, ◌≢◌, ◌⊎◌, inl, inr, some, ◌∷◌, ◌++◌, false, refl, ◌∙◌, take, drop,
}
use dlopen_rs.Base.IndexMap.{IndexMap, get, modify, get-modify}
use dlopen_rs.Register.{Manager, GlobalDylib, set_mark, set_new_idx}
use dlopen_rs.Dlopen.Resolve.{Manager, Text, Item, Found, can_relocate, descend, scan_names}
use dlopen_rs.Error.{Result, ok, err, panicked, out_of_fuel}

-- The library of this name does not wait to be relocated.
abbrev pub Visited : IndexMap GlobalDylib → Text → Type 0
Visited m name = (lib : GlobalDylib) × (get name m ≡ some lib) × (lib.new_idx ≡ 255)

abbrev pub AllVisited : IndexMap GlobalDylib → List Text → Type 0
AllVisited m [] = Unit {0}
AllVisited m (name ∷ names) = Visited m name × AllVisited m names

abbrev pub Waiting : IndexMap GlobalDylib → Text → ℕ → Type 0
Waiting m name idx = (lib : GlobalDylib) × (get name m ≡ some lib) × (lib.new_idx ≡ idx)

abbrev pub Onward : IndexMap GlobalDylib → IndexMap GlobalDylib → Type 0
Onward m m' = (name : Text) → Visited m name → Visited m' name

pub get-modify-some :
    (k j : Text) (f : GlobalDylib → GlobalDylib) (m : IndexMap GlobalDylib) (lib : GlobalDylib)
    → get j m ≡ some lib
    → get j (modify k f m) ≡ (if text_eq k j then some (f lib) else some lib)
get-modify-some k j f m lib e = rw (get-modify k j f m, e)

-- A change that keeps `new_idx` at `idx` keeps it for the library of every name.
pub Waiting-modify :
    (k : Text) (f : GlobalDylib → GlobalDylib) (m : IndexMap GlobalDylib) (j : Text) (idx : ℕ)
    → ((lib : GlobalDylib) → lib.new_idx ≡ idx → (f lib).new_idx ≡ idx)
    → Waiting m j idx
    → Waiting (modify k f m) j idx
Waiting-modify k f m j idx keep (lib, e, v) = elim (Bool-cases (text_eq k j)) [
  | inl t ↦ (f lib, get-modify-some k j f m lib e ∙ rw t, keep lib v)
  | inr t ↦ (lib, get-modify-some k j f m lib e ∙ rw t, v)
]

pub AllVisited-Onward :
    (m m' : IndexMap GlobalDylib) (names : List Text)
    → Onward m m'
    → AllVisited m names
    → AllVisited m' names
AllVisited-Onward m m' [] o h = tt
AllVisited-Onward m m' (name ∷ names) o h = (o name h.0, AllVisited-Onward m m' names o h.1)

AllVisited-append :
    (m : IndexMap GlobalDylib) (names : List Text) (name : Text)
    → AllVisited m names
    → Visited m name
    → AllVisited m (names ++ name ∷ [])
AllVisited-append m [] name h v = (v, tt)
AllVisited-append m (n ∷ names) name h v = (h.0, AllVisited-append m names name h.1 v)

drop-suc :
    {A : Type 0} (n : ℕ) (xs : List A) (y : A) (ys : List A)
    → drop n xs ≡ y ∷ ys
    → (drop (suc n) xs ≡ ys) × (take (suc n) xs ≡ take n xs ++ y ∷ [])
drop-suc zero [] y ys e = cc
drop-suc zero (x ∷ xs) y ys e = (cc, cc)
drop-suc (suc n) [] y ys e = cc
drop-suc (suc n) (x ∷ xs) y ys e = let (a, b) = drop-suc n xs y ys e in (a, ap (◌∷◌ x) b)

drop-next :
    {A : Type 0} (n : ℕ) (xs : List A) (y : A) (ys : List A)
    → drop n xs ≡ y ∷ ys
    → (drop (n + 1) xs ≡ ys) × (take (n + 1) xs ≡ take n xs ++ y ∷ [])
drop-next n xs y ys e =
    let one : suc n ≡ n + 1 = omega arith in
    subst (λ k. (drop k xs ≡ ys) × (take k xs ≡ take n xs ++ y ∷ [])) one (drop-suc n xs y ys e)

drop-nil : {A : Type 0} (n : ℕ) (xs : List A) → drop n xs ≡ [] → take n xs ≡ xs
drop-nil zero [] e = refl
drop-nil zero (x ∷ xs) e = cc
drop-nil (suc n) [] e = refl
drop-nil (suc n) (x ∷ xs) e = ap (◌∷◌ x) (drop-nil n xs e)

module _ (m0 : IndexMap GlobalDylib) where
  -- A library that waited before waits still, or its index is one of `S`.
  abbrev pub Known : IndexMap GlobalDylib → (ℕ → Type 0) → Type 0
  Known m S =
      (name : Text) (l0 : GlobalDylib)
      → get name m0 ≡ some l0
      → l0.new_idx ≢ 255
      → Waiting m name l0.new_idx ⊎ S l0.new_idx

  Known-mark :
      (k : Text) (m : IndexMap GlobalDylib) (S : ℕ → Type 0)
      → Known m S
      → Known (modify k (set_mark false) m) S
  Known-mark k m S h name l0 e ne = elim (h name l0 e ne) [
    | inl v ↦ inl (Waiting-modify k (set_mark false) m name l0.new_idx (λ l x. x) v)
    | inr s ↦ inr s
  ]

  Known-visit :
      (k : Text) (m : IndexMap GlobalDylib) (S : ℕ → Type 0) (lib : GlobalDylib)
      → get k m ≡ some lib
      → Known m S
      → Known (modify k (set_new_idx 255) m) (λ i. (i ≡ lib.new_idx) ⊎ S i)
  Known-visit k m S lib here h name l0 e ne = elim (h name l0 e ne) [
    | inr s ↦ inr (inr s)
    | inl (l, at_name, v) ↦ elim (Bool-cases (text_eq k name)) [
      | inl t ↦
          let same : k ≡ name = (text_eq_iff k name).0 t in
          let one : lib ≡ l = cc (here, at_name, same) in
          inr (inl (sym v ∙ ap (λ (x : GlobalDylib). x.new_idx) (sym one)))
      | inr t ↦ inl (l, get-modify-some k name (set_new_idx 255) m l at_name ∙ rw t, v)
    ]
  ]

-- The scan of an item of a library that needs `needed`.
abbrev pub Scanned :
    IndexMap GlobalDylib
    → (ℕ → Type 0)
    → Item
    → List Text
    → Manager
    → Result Found × Manager
    → Type 0
Scanned m0 S item needed m (ok can_relocate, m') =
    AllVisited m'.all needed × Onward m.all m'.all × Known m0 m'.all S
Scanned m0 S item needed m (ok (descend item' idx), m') =
    (item'.idx ≡ item.idx)
    × AllVisited m'.all (take item'.next needed)
    × Onward m.all m'.all
    × Known m0 m'.all (λ i. (i ≡ idx) ⊎ S i)
Scanned m0 S item needed m (err e, m') = Unit {0}
Scanned m0 S item needed m (panicked e, m') = Unit {0}
Scanned m0 S item needed m (out_of_fuel, m') = Unit {0}

Scanned-before :
    (m0 : IndexMap GlobalDylib) (S : ℕ → Type 0) (item item' : Item) (needed : List Text)
    (m m1 : Manager) (out : Result Found × Manager)
    → item'.idx ≡ item.idx
    → Onward m.all m1.all
    → Scanned m0 S item' needed m1 out
    → Scanned m0 S item needed m out
Scanned-before m0 S item item' needed m m1 (ok can_relocate, m') same o (v, o', k) =
    (v, (λ n h. o' n (o n h)), k)
Scanned-before m0 S item item' needed m m1 (ok (descend j idx), m') same o (e, v, o', k) =
    (e ∙ same, v, (λ n h. o' n (o n h)), k)
Scanned-before m0 S item item' needed m m1 (err e, m') same o h = tt
Scanned-before m0 S item item' needed m m1 (panicked e, m') same o h = tt
Scanned-before m0 S item item' needed m m1 (out_of_fuel, m') same o h = tt

module _ (m0 : IndexMap GlobalDylib) (S : ℕ → Type 0) (needed : List Text) where
  pub scan_names-Scanned :
      (item : Item) (names : List Text) (m : Manager)
      → drop item.next needed ≡ names
      → AllVisited m.all (take item.next needed)
      → Known m0 m.all S
      → Scanned m0 S item needed m (scan_names item names m)
  unfolding scan_names
  scan_names-Scanned item [] m e v k =
      (subst (AllVisited m.all) (drop-nil item.next needed e) v, (λ n h. h), k)
  scan_names-Scanned item (name ∷ names) m e v k = elim (Option-cases (get name m.all)) [
    | inl n ↦ rw (n, scan_names) tt
    | inr (lib, here) ↦
        let m1 = record m { all = modify name (set_mark false) m.all } in
        let item' = record item { next = item.next + 1 } in
        let (rest, front) = drop-next item.next needed name names e in
        let marked : Onward m.all m1.all =
          λ j h. Waiting-modify name (set_mark false) m.all j 255 (λ l x. x) h in
        let k1 = Known-mark m0 name m.all S k in
        let v1 = AllVisited-Onward m.all m1.all (take item.next needed) marked v in
        let here1 : get name m1.all ≡ some (set_mark false lib) =
          get-modify-some name name (set_mark false) m.all lib here ∙ rw (text_eq_refl name) in
        elim (Bool-cases (lib.new_idx == 255)) [
          | inl t ↦
              let last : Visited m1.all name =
                (set_mark false lib, here1, (==_iff lib.new_idx 255).0 t) in
              rw (here, scan_names, t)
                (Scanned-before m0 S item item' needed m m1 (scan_names item' names m1) refl marked
                  (scan_names-Scanned item' names m1 rest
                    (subst (AllVisited m1.all) (sym front)
                      (AllVisited-append m1.all (take item.next needed) name v1 last))
                    k1))
          | inr t ↦
              let m2 = modify name (set_new_idx 255) m1.all in
              let visits : Onward m1.all m2 =
                λ j h. Waiting-modify name (set_new_idx 255) m1.all j 255 (λ l x. refl) h in
              let last : Visited m2 name = (
                set_new_idx 255 (set_mark false lib),
                get-modify-some name name (set_new_idx 255) m1.all (set_mark false lib) here1
                    ∙ rw (text_eq_refl name),
                refl,
              ) in
              let v2 = AllVisited-Onward m1.all m2 (take item.next needed) visits v1 in
              rw (here, scan_names, t)
                (
                  refl,
                  subst (AllVisited m2) (sym front)
                      (AllVisited-append m2 (take item.next needed) name v2 last),
                  (λ j h. visits j (marked j h)),
                  Known-visit m0 name m1.all S (set_mark false lib) here1 k1,
                )
        ]
  ]
