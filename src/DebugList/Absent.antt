-- ===== src/DebugList/Absent.antt =====
-- Lists of addresses without one of them.
use dlopen_rs.Base.{refl, ℕ, ◌≡◌, ◌≢◌, sym, List, [], ◌∷◌, ◌++◌}
use dlopen_rs.DebugList.Chain.{last_or, Absent, Distinct}

pub Absent-drop :
    (b : ℕ) (xs : List ℕ) (a : ℕ) (ys : List ℕ)
    → Absent b (xs ++ a ∷ ys)
    → (b ≢ a) × Absent b (xs ++ ys)
Absent-drop b [] a ys out = out
Absent-drop b (x ∷ xs) a ys out =
    let (ne, rest) = Absent-drop b xs a ys out.1 in (ne, (out.0, rest))

pub Distinct-drop :
    (xs : List ℕ) (a : ℕ) (ys : List ℕ)
    → Distinct (xs ++ a ∷ ys)
    → Absent a (xs ++ ys) × Distinct (xs ++ ys)
Distinct-drop [] a ys d = d
Distinct-drop (x ∷ xs) a ys d =
    let (ne, out) = Absent-drop x xs a ys d.0 in
    let (absent, distinct) = Distinct-drop xs a ys d.1 in
    ((λ e. ne (sym e), absent), (out, distinct))

pub Absent-split : (a : ℕ) (xs ys : List ℕ) → Absent a (xs ++ ys) → Absent a xs × Absent a ys
Absent-split a [] ys out = (tt, out)
Absent-split a (x ∷ xs) ys out = let (l, r) = Absent-split a xs ys out.1 in ((out.0, l), r)

pub Distinct-split : (xs ys : List ℕ) → Distinct (xs ++ ys) → Distinct xs × Distinct ys
Distinct-split [] ys d = (tt, d)
Distinct-split (x ∷ xs) ys d =
    let (l, r) = Distinct-split xs ys d.1 in (((Absent-split x xs ys d.0).0, l), r)

pub last-Absent : (x : ℕ) (xs ys : List ℕ) → Distinct ((x ∷ xs) ++ ys) → Absent (last_or x xs) ys
last-Absent x [] ys d = d.0
last-Absent x (y ∷ xs) ys d = last-Absent y xs ys d.1

pub last_or-cons :
    (x : ℕ) (xs : List ℕ) (y : ℕ) (ys : List ℕ) → last_or x (xs ++ y ∷ ys) ≡ last_or y ys
last_or-cons x [] y ys = refl
last_or-cons x (z ∷ xs) y ys = last_or-cons z xs y ys

pub last_or-through :
    (x : ℕ) (xs : List ℕ) (a y : ℕ) (ys : List ℕ) → last_or x (xs ++ a ∷ y ∷ ys) ≡ last_or y ys
last_or-through x xs a y ys = last_or-cons x xs a (y ∷ ys)
