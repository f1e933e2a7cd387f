-- ===== src/Base/Text.antt =====
-- Text as the list of its code points, with the string functions of Rust's library that the
-- sources call.
use Prim.Native.Char.{code}
use Prim.Native.String.{String}
use Prim.Native.Nat.{ℕ, zero, suc, ◌-◌}
use mathlib.Core.Path.{◌≡◌, refl, ap}
use mathlib.Core.Logic.{◌↔◌, inl, inr}
use mathlib.Core.Bool.{Bool, true, false, ◌&&◌, ◌||◌}
use mathlib.Core.List.{[], List, ◌∷◌, ◌++◌}
use mathlib.Core.Option.{Option, none, some}
use native.Mathlib.Omega.{arith}
use dlopen_rs.Base.Tests.{◌==◌, ==_iff, Bool-cases, if◌then◌else◌}
use dlopen_rs.Base.Lists.{length, last?}

abbrev pub Text : Type 0
Text = List ℕ

abbrev pub codes : String → Text
codes String.[] = []
codes (String.◌∷◌ c s) = code c ∷ codes s

unfoldable pub text_eq : Text → Text → Bool
text_eq [] [] = true
text_eq [] (b ∷ t) = false
text_eq (a ∷ s) [] = false
text_eq (a ∷ s) (b ∷ t) = (a == b) && text_eq s t

pub text_eq_iff : (s t : Text) → (text_eq s t ≡ true) ↔ (s ≡ t)
unfolding text_eq
text_eq_iff [] [] = (λ _. refl, λ _. refl)
text_eq_iff [] (b ∷ t) = (λ h. cc, λ h. cc)
text_eq_iff (a ∷ s) [] = (λ h. cc, λ h. cc)
text_eq_iff (a ∷ s) (b ∷ t) = ground (arith, text_eq_iff s t)

pub text_eq_refl : (s : Text) → text_eq s s ≡ true
text_eq_refl s = (text_eq_iff s s).1 refl

-- `s.starts_with(pat)`
unfoldable pub starts_with : Text → Text → Bool
starts_with s [] = true
starts_with [] (p ∷ pat) = false
starts_with (c ∷ s) (p ∷ pat) = (c == p) && starts_with s pat

-- `s.contains(c)` for a character
unfoldable pub has_char : ℕ → Text → Bool
has_char c [] = false
has_char c (x ∷ xs) = (x == c) || has_char c xs

-- `s.contains(pat)` for a text
unfoldable pub has_text : Text → Text → Bool
unfolding starts_with
has_text pat [] = starts_with [] pat
has_text pat (x ∷ xs) = starts_with (x ∷ xs) pat || has_text pat xs

split_cons : Bool → ℕ → List Text → List Text
split_cons true x parts = [] ∷ parts
split_cons false x [] = (x ∷ []) ∷ []
split_cons false x (part ∷ parts) = (x ∷ part) ∷ parts

-- `s.split(c)`: one part more than `c` occurs
unfoldable pub split : ℕ → Text → List Text
unfolding split_cons
split c [] = [] ∷ []
split c (x ∷ xs) = split_cons (x == c) x (split c xs)

-- The inverse of `split`.
unfoldable pub join : ℕ → List Text → Text
join c [] = []
join c (part ∷ []) = part
join c (part ∷ next ∷ parts) = part ++ c ∷ join c (next ∷ parts)

-- `s.rsplit_once(c)`: what stands before and behind the last `c`
abbrev pub rsplit_cons : ℕ → ℕ → Text → Option (Text × Text) → Option (Text × Text)
rsplit_cons c x xs (some (before, after)) = some (x ∷ before, after)
rsplit_cons c x xs none = if x == c then some ([], xs) else none

unfoldable pub rsplit_once : ℕ → Text → Option (Text × Text)
rsplit_once c [] = none
rsplit_once c (x ∷ xs) = rsplit_cons c x xs (rsplit_once c xs)

-- `s.replace(pat, by)` for a `pat` that is not empty; `skip` counts the characters of an
-- occurrence that are still to be passed over.
unfoldable pub replace_from : ℕ → Text → Text → Text → Text
unfolding starts_with
replace_from skip pat by [] = []
replace_from (suc skip) pat by (x ∷ xs) = replace_from skip pat by xs
replace_from zero pat by (x ∷ xs) = elim (starts_with (x ∷ xs) pat) [
  | true ↦ by ++ replace_from (length pat - 1) pat by xs
  | false ↦ x ∷ replace_from zero pat by xs
]

unfoldable pub replace : Text → Text → Text → Text
unfolding replace_from
replace pat by s = replace_from 0 pat by s

split_cons-cases :
    (x : ℕ) (parts : List Text)
    → (part : Text) × (rest : List Text) × (split_cons false x parts ≡ part ∷ rest)
unfolding split_cons
split_cons-cases x [] = (x ∷ [], [], refl)
split_cons-cases x (part ∷ parts) = (x ∷ part, parts, refl)

pub split-ne_nil :
    (c : ℕ) (s : Text) → (part : Text) × (rest : List Text) × (split c s ≡ part ∷ rest)
unfolding split
split-ne_nil c [] = ([], [], refl)
split-ne_nil c (x ∷ xs) = elim (Bool-cases (x == c)) [
  | inl e ↦ ([], split c xs, rw e)
  | inr e ↦ rw e (split_cons-cases x (split c xs))
]

join-cons :
    (c x : ℕ) (part : Text) (rest : List Text)
    → join c ((x ∷ part) ∷ rest) ≡ x ∷ join c (part ∷ rest)
unfolding join
join-cons c x part [] = refl
join-cons c x part (next ∷ rest) = refl

pub join-split : (c : ℕ) (s : Text) → join c (split c s) ≡ s
unfolding split join
join-split c [] = refl
join-split c (x ∷ xs) =
    let (part, rest, e) = split-ne_nil c xs in
    let ih : join c (part ∷ rest) ≡ xs = rw e at (join-split c xs) in
    elim (Bool-cases (x == c)) [
      | inl hit ↦ rw (hit, e) (cc (ih, (==_iff x c).0 hit))
      | inr miss ↦ rw (miss, e) (cc (ih, join-cons c x part rest))
    ]

-- A text without the pattern is left as it is.
pub replace_from-id : (pat by s : Text) → has_text pat s ≡ false → replace_from 0 pat by s ≡ s
unfolding replace_from has_text
replace_from-id pat by [] h = refl
replace_from-id pat by (x ∷ xs) h = ground (arith, replace_from-id pat by xs)

pub split-plain : (c : ℕ) (s : Text) → has_char c s ≡ false → split c s ≡ s ∷ []
unfolding split has_char
split-plain c [] h = refl
split-plain c (x ∷ xs) h = elim (Bool-cases (x == c)) [
  | inl e ↦ cc (rw e at h)
  | inr e ↦ let plain : has_char c xs ≡ false = rw e at h in rw (e, split-plain c xs plain)
]

-- What stands before a `c` and has none is the first part.
pub split-front :
    (c : ℕ) (xs ys : Text) → has_char c xs ≡ false → split c (xs ++ c ∷ ys) ≡ xs ∷ split c ys
unfolding split has_char
split-front c [] ys h = rw ((==_iff c c).1 refl)
split-front c (x ∷ xs) ys h = elim (Bool-cases (x == c)) [
  | inl t ↦ cc (rw t at h)
  | inr t ↦ let plain : has_char c xs ≡ false = rw t at h in rw (t, split-front c xs ys plain)
]

split-parts :
    (c : ℕ) (xs ys : Text)
    → (part : Text) × (parts : List Text) × (split c (xs ++ c ∷ ys) ≡ part ∷ (parts ++ split c ys))
unfolding split
split-parts c [] ys = ([], [], rw ((==_iff c c).1 refl))
split-parts c (x ∷ xs) ys =
    let (part, parts, e) = split-parts c xs ys in
    elim (Bool-cases (x == c)) [
      | inl hit ↦ ([], part ∷ parts, rw (hit, e))
      | inr miss ↦ (x ∷ part, parts, rw (miss, e))
    ]

last?-append :
    {A : Type 0} (xs : List A) (y : A) (ys : List A) → last? (xs ++ y ∷ ys) ≡ last? (y ∷ ys)
last?-append [] y ys = refl
last?-append (x ∷ []) y ys = refl
last?-append (x ∷ z ∷ xs) y ys = last?-append (z ∷ xs) y ys

-- What follows a `c` without another `c` is the last part.
pub last?-split :
    (c : ℕ) (xs ys : Text) → has_char c ys ≡ false → last? (split c (xs ++ c ∷ ys)) ≡ some ys
last?-split c xs ys h =
    let (part, parts, e) = split-parts c xs ys in
    rw (e, split-plain c ys h) (last?-append (part ∷ parts) ys [])

pub last?-init :
    {A : Type 0} (xs : List A) (x : A) → last? xs ≡ some x → (init : List A) × (xs ≡ init ++ x ∷ [])
last?-init [] x h = cc
last?-init (y ∷ []) x h = ([], cc)
last?-init (y ∷ z ∷ ys) x h = let (init, e) = last?-init (z ∷ ys) x h in (y ∷ init, ap (◌∷◌ y) e)

last?-cons : {A : Type 0} (x : A) (xs : List A) → (y : A) × (last? (x ∷ xs) ≡ some y)
last?-cons x [] = (x, refl)
last?-cons x (z ∷ xs) = last?-cons z xs

-- A split has at least one part.
pub split-last : (c : ℕ) (s : Text) → (part : Text) × (last? (split c s) ≡ some part)
split-last c s = let (part, rest, e) = split-ne_nil c s in rw e (last?-cons part rest)
