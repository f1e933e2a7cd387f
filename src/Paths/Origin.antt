-- ===== src/Paths/Origin.antt =====
-- What `fixup_rpath` makes of a run path: `$ORIGIN` is the directory of the library.
use dlopen_rs.Base.Text.{
  split-front, split-plain, codes, replace_from, replace, Text, rsplit_once, starts_with, has_char,
}
use mathlib.Core.List.{append_assoc, append-nil}
use dlopen_rs.Paths.{split, fixup_rpath, deal_path, all_origin, is_origin, directory}
use dlopen_rs.Base.{
  inr, inl, ◌∙◌, ==_iff, ◌==◌, sym, ap, none, some, arith, Bool-cases, false, [], refl, true, ◌++◌,
  ◌∷◌, ◌≡◌, List, ℕ,
}

-- The pieces, with `by` between each two.
abbrev pub with_origin : Text → Text → List Text → Text
with_origin by first [] = first
with_origin by first (piece ∷ pieces) = first ++ (by ++ with_origin by piece pieces)

abbrev pub AllPlain : ℕ → List Text → Type 0
AllPlain c [] = Unit {0}
AllPlain c (s ∷ parts) = (has_char c s ≡ false) × AllPlain c parts

-- the parts behind each `$`
abbrev origin_parts : List Text → List Text
origin_parts [] = []
origin_parts (piece ∷ pieces) = (codes "ORIGIN" ++ piece) ∷ origin_parts pieces

has_char-append :
    (c : ℕ) (xs ys : Text)
    → has_char c xs ≡ false
    → has_char c ys ≡ false
    → has_char c (xs ++ ys) ≡ false
unfolding has_char
has_char-append c [] ys h k = k
has_char-append c (x ∷ xs) ys h k = ground (arith, has_char-append c xs ys, h, k)

has_char-middle : (c : ℕ) (xs ys : Text) → has_char c (xs ++ c ∷ ys) ≡ true
unfolding has_char
has_char-middle c [] ys = ground arith
has_char-middle c (x ∷ xs) ys = ground (arith, has_char-middle c xs ys)

split-with_origin :
    (front first : Text) (pieces : List Text)
    → has_char b'$' front ≡ false
    → has_char b'$' first ≡ false
    → AllPlain b'$' pieces
    → split b'$' (front ++ with_origin (codes "$ORIGIN") first pieces)
      ≡ (front ++ first) ∷ origin_parts pieces
split-with_origin front first [] f h hs =
    split-plain b'$' (front ++ first) (has_char-append b'$' front first f h)
split-with_origin front first (piece ∷ pieces) f h hs =
    let rest = with_origin (codes "$ORIGIN") piece pieces in
    ap (split b'$') (sym (append_assoc front first (codes "$ORIGIN" ++ rest)))
    ∙ split-front b'$' (front ++ first) (codes "ORIGIN" ++ rest)
        (has_char-append b'$' front first f h)
    ∙ ap (◌∷◌ (front ++ first))
        (split-with_origin (codes "ORIGIN") piece pieces (unfold has_char in refl) hs.0 hs.1)

all_origin-origin_parts : (pieces : List Text) → all_origin (origin_parts pieces) ≡ true
unfolding all_origin is_origin starts_with
all_origin-origin_parts [] = refl
all_origin-origin_parts (piece ∷ pieces) = all_origin-origin_parts pieces

replace_from-plain :
    (by xs ys : Text)
    → has_char b'$' xs ≡ false
    → replace_from 0 (codes "$ORIGIN") by (xs ++ ys) ≡ xs ++ replace_from 0 (codes "$ORIGIN") by ys
unfolding replace_from has_char starts_with
replace_from-plain by [] ys h = refl
replace_from-plain by (x ∷ xs) ys h = elim (Bool-cases (x == b'$')) [
  | inl t ↦ cc (rw t at h)
  | inr t ↦
      let plain : has_char b'$' xs ≡ false = rw t at h in
      let other : starts_with (x ∷ (xs ++ ys)) (codes "$ORIGIN") ≡ false = rw t in
      rw (other, replace_from) (ap (◌∷◌ x) (replace_from-plain by xs ys plain))
]

replace_from-origin :
    (by ys : Text)
    → replace_from 0 (codes "$ORIGIN") by (codes "$ORIGIN" ++ ys)
      ≡ by ++ replace_from 0 (codes "$ORIGIN") by ys
unfolding replace_from starts_with
replace_from-origin by ys = refl

replace-with_origin :
    (by first : Text) (pieces : List Text)
    → has_char b'$' first ≡ false
    → AllPlain b'$' pieces
    → replace_from 0 (codes "$ORIGIN") by (with_origin (codes "$ORIGIN") first pieces)
      ≡ with_origin by first pieces
replace-with_origin by first [] h hs =
    ap (replace_from 0 (codes "$ORIGIN") by) (sym (append-nil first))
    ∙ replace_from-plain by first [] h
    ∙ (unfold replace_from in append-nil first)
replace-with_origin by first (piece ∷ pieces) h hs =
    let rest = with_origin (codes "$ORIGIN") piece pieces in
    replace_from-plain by first (codes "$ORIGIN" ++ rest) h
    ∙ ap (λ s. first ++ s)
        (replace_from-origin by rest
          ∙ ap (λ s. by ++ s) (replace-with_origin by piece pieces hs.0 hs.1))

rsplit_once-plain : (c : ℕ) (ys : Text) → has_char c ys ≡ false → rsplit_once c ys ≡ none
unfolding rsplit_once has_char
rsplit_once-plain c [] h = refl
rsplit_once-plain c (y ∷ ys) h = elim (Bool-cases (y == c)) [
  | inl t ↦ cc (rw t at h)
  | inr t ↦ let plain : has_char c ys ≡ false = rw t at h in rw (rsplit_once-plain c ys plain, t)
]

rsplit_once-last :
    (c : ℕ) (xs ys : Text) → has_char c ys ≡ false → rsplit_once c (xs ++ c ∷ ys) ≡ some (xs, ys)
unfolding rsplit_once
rsplit_once-last c [] ys h = rw (rsplit_once-plain c ys h, (==_iff c c).1 refl)
rsplit_once-last c (x ∷ xs) ys h = rw (rsplit_once-last c xs ys h)

directory-dir :
    (dir file : Text) → has_char b'/' file ≡ false → directory (dir ++ b'/' ∷ file) ≡ dir
unfolding directory
directory-dir dir file plain = rw (rsplit_once-last b'/' dir file plain, directory)

-- The run path of a library is split at the colons after each `$ORIGIN` in it was replaced by the
-- directory of the library. (The path has no other `$`, and the library is named by a path with
-- a slash.)
pub fixup_rpath-with_origin :
    (dir file first : Text) (pieces : List Text)
    → has_char b'/' file ≡ false
    → has_char b'$' first ≡ false
    → AllPlain b'$' pieces
    → fixup_rpath (dir ++ b'/' ∷ file) (with_origin (codes "$ORIGIN") first pieces)
      ≡ split b':' (with_origin dir first pieces)
unfolding fixup_rpath deal_path replace
fixup_rpath-with_origin dir file first [] plain h hs = rw h
fixup_rpath-with_origin dir file first (piece ∷ pieces) plain h hs =
    let rest = with_origin (codes "$ORIGIN") piece pieces in
    let dollar : has_char b'$' (first ++ (codes "$ORIGIN" ++ rest)) ≡ true =
      has_char-middle b'$' first (codes "ORIGIN" ++ rest) in
    let parts = split-with_origin [] first (piece ∷ pieces) (unfold has_char in refl) h hs in
    rw (dollar, parts, all_origin-origin_parts (piece ∷ pieces), directory-dir dir file plain)
      (ap (split b':') (replace-with_origin dir first (piece ∷ pieces) h hs))
