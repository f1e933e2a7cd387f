-- ===== src/Tests/Finding.antt =====
-- A finder with a list as its hash table.
use dlopen_rs.EhFrame.Unwinding.Finder.{
  hdr_of, find-new_eh_frame, info_at, drop_eh_frame-new_eh_frame,
}
use dlopen_rs.EhFrame.Unwinding.Find.{IsDisjoint}
use dlopen_rs.Error.{ok}
use dlopen_rs.Base.{
  ap, ℕ, arith, subst, Option-cases, inr, inl, Bool-cases, ◌≢◌, refl, if◌then◌else◌, true, ◌∷◌,
  some, none, Option, ◌≡◌, [], Bool, List,
}
use mathlib.Core.List.{Perm, Mem, mem-cons, not-mem-nil}
use mathlib.Core.List.Perm
use mathlib.Core.Logic.Or
use dlopen_rs.Loader.{Phdr}
use dlopen_rs.EhFrame.Unwinding.{
  contains, find, EhFinder, Range, new_eh_frame, drop_eh_frame, UnwindInfo, HashTable,
}

-- the table without the first entry that the test holds for
abbrev remove_first : (UnwindInfo → Bool) → List UnwindInfo → Option (List UnwindInfo)
remove_first eq [] = none
remove_first eq (x ∷ xs) =
    let rest = remove_first eq xs in
    if eq x then some xs else elim rest [ none ↦ none | some ys ↦ some (x ∷ ys) ]

remove_first-some :
    (eq : UnwindInfo → Bool) (xs ys : List UnwindInfo)
    → remove_first eq xs ≡ some ys
    → (x : UnwindInfo) × (eq x ≡ true) × Perm xs (x ∷ ys)
remove_first-some eq [] ys e = absurd (cc e)
remove_first-some eq (x ∷ xs) ys e = elim (Bool-cases (eq x)) [
  | inl t ↦
      let same : xs ≡ ys = cc (rw t at e) in
      (x, t, subst (λ zs. Perm (x ∷ xs) (x ∷ zs)) same (Perm.refl (x ∷ xs)))
  | inr t ↦ elim (Option-cases (remove_first eq xs)) [
    | inl n ↦ absurd (cc (rw (t, n) at e))
    | inr (zs, s) ↦
        let (y, h, moved) = remove_first-some eq xs zs s in
        let same : x ∷ zs ≡ ys = cc (rw (t, s) at e) in
        let swapped = Perm.trans (Perm.cons x moved) (Perm.swap y x zs) in
        (y, h, subst (λ ws. Perm (x ∷ xs) (y ∷ ws)) same swapped)
  ]
]

remove_first-none :
    (eq : UnwindInfo → Bool) (xs : List UnwindInfo) (x : UnwindInfo)
    → Mem x xs
    → eq x ≡ true
    → remove_first eq xs ≢ none
remove_first-none eq [] x m t = absurd (not-mem-nil m)
remove_first-none eq (y ∷ ys) x m t = elim (Bool-cases (eq y)) [
  | inl found ↦ λ n. cc (rw found at n)
  | inr other ↦
      let inside : Mem x ys =
        Or.elim (hlevel) (mem-cons.0 m) (λ same. absurd (cc (same, t, other))) (λ h. h) in
      elim (Option-cases (remove_first eq ys)) [
        | inl n ↦ λ whole. remove_first-none eq ys x inside t n
        | inr (zs, s) ↦ λ n. cc (rw (other, s) at n)
      ]
]

abbrev list_table : HashTable
list_table = record {
  T = List UnwindInfo;
  new_table = [];
  iter = λ t. t;
  insert_unique = λ h x t. x ∷ t;
  remove = λ h eq t. remove_first eq t;
  iter-new_table = refl;
  iter-insert_unique = λ h x t. Perm.refl (x ∷ t);
  remove_some = λ h eq t t' e. ∣ remove_first-some eq t t' e ∣₁;
  remove_none = λ h eq t x m e h'. remove_first-none eq t x m h';
}

abbrev phdr : Phdr
phdr = record { p_type = 0; p_vaddr = 8; p_memsz = 16; p_filesz = 16; p_align = 8 }

abbrev library_range : Range
library_range = record { start = 100; end = 200 }

abbrev other : UnwindInfo
other = record { eh_frame_hdr = 20; pc_range = record { start = 16; end = 64 } }

-- a finder that has another library's table
abbrev finder : EhFinder list_table
finder = record { unwind_infos = other ∷ []; is_set = true; is_accepted = true }

only_other : (x : UnwindInfo) → Mem x (other ∷ []) → x ≡ other
only_other x m = Or.elim (hlevel) (mem-cons.0 m) (λ same. same) (λ rest. absurd (not-mem-nil rest))

apart : (pc : ℕ) → contains library_range pc ≡ true → contains other.pc_range pc ≡ true → ⊥
apart pc c c' = ground arith

ranges-IsDisjoint :
    IsDisjoint (
      info_at list_table (hdr_of list_table phdr library_range) library_range ∷ finder.unwind_infos)
ranges-IsDisjoint a b pc m m' c c' =
    Or.elim (hlevel) (mem-cons.0 m)
      (λ one.
        Or.elim (hlevel) (mem-cons.0 m') (λ one'. rw (one, one'))
          (λ two'. absurd (apart pc (rw one at c) (rw (only_other b two') at c'))))
      (λ two.
        Or.elim (hlevel) (mem-cons.0 m')
          (λ one'. absurd (apart pc (rw one' at c') (rw (only_other a two) at c)))
          (λ two'. rw (only_other a two, only_other b two')))

find-new_eh_frame_example :
    find list_table 150 (new_eh_frame list_table phdr library_range finder).1 ≡ some 108
find-new_eh_frame_example =
    find-new_eh_frame list_table phdr library_range finder (inl refl) 150 ranges-IsDisjoint

drop_eh_frame-new_eh_frame_example :
    ((drop_eh_frame list_table 108 (new_eh_frame list_table phdr library_range finder).1).0 ≡ ok tt)
    × Perm
        (drop_eh_frame list_table 108
          (new_eh_frame list_table phdr library_range finder).1).1.unwind_infos
        finder.unwind_infos
drop_eh_frame-new_eh_frame_example =
    drop_eh_frame-new_eh_frame list_table phdr library_range finder (inl refl)
      (λ a m e. absurd (omega (arith, ap (λ (x : UnwindInfo). x.eh_frame_hdr) (only_other a m))))
