-- ===== src/EhFrame/Unwinding/Find.antt =====
-- What `find` returns does not hang on the order of the table.
use mathlib.Core.List.{not-mem-nil, Perm, Mem, mem-cons, mem-cons_self, mem-cons_of_mem}
use mathlib.Core.List.Perm
use mathlib.Core.Logic.Or
use dlopen_rs.Base.{
  Bool-cases, sym, ℕ, ◌≡◌, ◌⊎◌, inl, inr, refl, ap, ◌∙◌, true, false, List, [], ◌∷◌, none, some,
}
use dlopen_rs.EhFrame.Unwinding.{UnwindInfo, contains, find_in}

-- No address lies in two ranges.
abbrev pub IsDisjoint : List UnwindInfo → Type 0
IsDisjoint infos =
    (a b : UnwindInfo) (pc : ℕ)
    → Mem a infos
    → Mem b infos
    → contains a.pc_range pc ≡ true
    → contains b.pc_range pc ≡ true
    → a.eh_frame_hdr ≡ b.eh_frame_hdr

-- how `find_in` ends
find_in-cases :
    (pc : ℕ) (infos : List UnwindInfo)
    → ((a : UnwindInfo) × Mem a infos
        × (contains a.pc_range pc ≡ true)
        × (find_in pc infos ≡ some a.eh_frame_hdr))
      ⊎ ((find_in pc infos ≡ none)
          × ((a : UnwindInfo) → Mem a infos → contains a.pc_range pc ≡ false))
unfolding find_in
find_in-cases pc [] = inr (refl, λ a m. absurd (not-mem-nil m))
find_in-cases pc (info ∷ infos) = elim (Bool-cases (contains info.pc_range pc)) [
  | inl t ↦ inl (info, mem-cons_self, t, rw t)
  | inr t ↦ elim (find_in-cases pc infos) [
    | inl (a, m, c, e) ↦ inl (a, mem-cons_of_mem info m, c, rw t e)
    | inr (e, none_else) ↦
        inr (rw t e, λ a m. Or.elim (hlevel) (mem-cons.0 m) (λ same. rw same t) (none_else a))
  ]
]

pub find_in-perm :
    (pc : ℕ) (xs ys : List UnwindInfo) → IsDisjoint xs → Perm xs ys → find_in pc xs ≡ find_in pc ys
find_in-perm pc xs ys d perm = elim (find_in-cases pc xs) [
  | inl (a, m, c, e) ↦ elim (find_in-cases pc ys) [
    | inl (b, m', c', e') ↦ e ∙ ap some (d a b pc m ((Perm.mem_iff perm).1 m') c c') ∙ sym e'
    | inr (e', none_else) ↦ absurd (cc (c, none_else a ((Perm.mem_iff perm).0 m)))
  ]
  | inr (e, none_else) ↦ elim (find_in-cases pc ys) [
    | inl (b, m', c', e') ↦ absurd (cc (c', none_else b ((Perm.mem_iff perm).1 m')))
    | inr (e', _) ↦ e ∙ sym e'
  ]
]
