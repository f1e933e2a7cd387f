-- ===== src/Paths/Component.antt =====
-- The last component of a joined path.
use dlopen_rs.Base.{
  ==_iff, ◌∙◌, ◌==◌, Bool-cases, inr, ap, refl, inl, [], Option-cases, arith, last?, ◌≡◌, ◌++◌, ◌∷◌,
  some, false,
}
use mathlib.Core.List.{append_assoc}
use dlopen_rs.Base.Text.{
  codes, Text, split, has_char, starts_with, last?-split, last?-init, split-plain,
}
use dlopen_rs.Paths.{path_join}

relative : (file : Text) → has_char b'/' file ≡ false → starts_with file (codes "/") ≡ false
unfolding has_char starts_with
relative [] h = refl
relative (x ∷ xs) h = ground (arith, h)

-- Joining a file name without a slash gives a path that ends with the name.
pub path_join-last :
    (path file : Text)
    → has_char b'/' file ≡ false
    → last? (split b'/' (path_join path file)) ≡ some file
unfolding path_join
path_join-last path file h = elim (Option-cases (last? path)) [
  | inl e ↦ rw (relative file h, e, path_join) (ap last? (split-plain b'/' file h))
  | inr (c, e) ↦ elim (Bool-cases (c == b'/')) [
    | inl t ↦
        let (init, whole) = last?-init path c e in
        let slash : path ++ file ≡ init ++ b'/' ∷ file =
          ap (λ s. s ++ file) whole
          ∙ append_assoc init (c ∷ []) file
          ∙ ap (λ x. init ++ x ∷ file) ((==_iff c b'/').0 t) in
        rw (relative file h, e, path_join, t, slash) (last?-split b'/' init file h)
    | inr t ↦ rw (relative file h, e, path_join, t) (last?-split b'/' path file h)
  ]
]
