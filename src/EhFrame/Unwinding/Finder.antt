-- ===== src/EhFrame/Unwinding/Finder.antt =====
-- The finder before and after a library with a frame table.
use dlopen_rs.Loader.{Phdr}
use mathlib.Core.List.{Perm-prop, Perm, Mem, mem-cons, mem-cons_self, perm-cons}
use mathlib.Core.List.Perm
use mathlib.Core.Logic.{∥∥₁_elim}
use mathlib.Core.Logic.Or
use dlopen_rs.Base.{
  ◌⊎◌, subst, inr, ==_iff, Option-cases, inl, ◌==◌, Bool-cases, sym, ℕ, ◌+◌, ◌≡◌, ◌≢◌, refl, ◌∙◌,
  true, ◌∷◌, some, if◌then◌else◌,
}
use dlopen_rs.Error.{ok}
use dlopen_rs.EhFrame.Unwinding.{
  HashTable, EhFinder, UnwindInfo, Range, contains, find_in, find, new_eh_frame, drop_eh_frame,
}
use dlopen_rs.EhFrame.Unwinding.Find.{IsDisjoint, find_in-perm}

module _ (table : HashTable) where
  open table use {iter, insert_unique, remove, iter-insert_unique, remove_some, remove_none}

  -- The crate has taken the finder, or takes it.
  abbrev pub IsReady : EhFinder table → Type 0
  IsReady f = (f.is_set ≡ true) ⊎ (f.is_accepted ≡ true)

  abbrev pub info_at : ℕ → Range → UnwindInfo
  info_at hdr range = record { eh_frame_hdr = hdr; pc_range = range }

  abbrev pub hdr_of : Phdr → Range → ℕ
  hdr_of phdr range = range.start + phdr.p_vaddr

  module _ (phdr : Phdr) (range : Range) (f : EhFinder table) (ready : IsReady f) where
    abbrev info : UnwindInfo
    info = info_at (hdr_of phdr range) range

    abbrev after : EhFinder table
    after = record {
      unwind_infos = insert_unique (hdr_of phdr range) info f.unwind_infos;
      is_set = true;
      is_accepted = f.is_accepted;
    }

    new_eh_frame-after : new_eh_frame table phdr range f ≡ (ok (hdr_of phdr range), after)
    unfolding new_eh_frame
    new_eh_frame-after = elim (Bool-cases f.is_set) [
      | inl t ↦ simp t
      | inr t ↦ elim ready [ inl h ↦ absurd (cc (t, h)) | inr h ↦ simp (t, h) ]
    ]

    -- With a library's frame table, the finder answers for the addresses of the library, and for
    -- the others as before. (The crate has taken the finder or takes it, and the ranges are
    -- disjoint, the library's included.)
    pub find-new_eh_frame :
        (pc : ℕ)
        → IsDisjoint (info ∷ iter f.unwind_infos)
        → find table pc (new_eh_frame table phdr range f).1
          ≡ (if contains range pc then some (hdr_of phdr range) else find table pc f)
    unfolding find
    find-new_eh_frame pc d =
        let moved = iter-insert_unique (hdr_of phdr range) info f.unwind_infos in
        let first =
          find_in-perm pc (info ∷ iter f.unwind_infos) (iter after.unwind_infos) d
            (Perm.symm moved) in
        rw new_eh_frame-after (sym first ∙ unfold find_in in refl)

    abbrev Other : Type 0
    Other = (a : UnwindInfo) → Mem a (iter f.unwind_infos) → a.eh_frame_hdr ≢ hdr_of phdr range

    removed-info :
        (x : UnwindInfo)
        → Other
        → Mem x (iter after.unwind_infos)
        → x.eh_frame_hdr ≡ hdr_of phdr range
        → ∥ (x ≡ info) ∥₁
    removed-info x other m e =
        let moved = iter-insert_unique (hdr_of phdr range) info f.unwind_infos in
        Or.elim (hlevel) (mem-cons.0 ((Perm.mem_iff moved).0 m)) (λ same. ∣ same ∣₁)
          (λ old. absurd (other x old e))

    same_table :
        Other
        → (t : table.T)
        → remove
            (hdr_of phdr range)
            (λ val. val.eh_frame_hdr == hdr_of phdr range)
            after.unwind_infos
          ≡ some t
        → Perm (iter t) (iter f.unwind_infos)
    same_table other t e =
        let hdr = hdr_of phdr range in
        let moved = iter-insert_unique hdr info f.unwind_infos in
        ∥∥₁_elim (remove_some hdr (λ val. val.eh_frame_hdr == hdr) after.unwind_infos t e) Perm-prop
          (λ (x, is_hdr, out).
            let in_after : Mem x (iter after.unwind_infos) = (Perm.mem_iff out).1 mem-cons_self in
            let e' : x.eh_frame_hdr ≡ hdr = (==_iff x.eh_frame_hdr hdr).0 is_hdr in
            ∥∥₁_elim (removed-info x other in_after e') Perm-prop (λ same.
              let out' = subst (λ y. Perm (iter after.unwind_infos) (y ∷ iter t)) same out in
              (perm-cons info).0 (Perm.trans (Perm.symm out') moved)))

    -- Dropping a library's frame table after loading it succeeds, and leaves the table as it was
    -- before, up to the order. (The crate has taken the finder or takes it, and no other entry has
    -- the same header.)
    pub drop_eh_frame-new_eh_frame :
        Other
        → ((drop_eh_frame table (hdr_of phdr range) (new_eh_frame table phdr range f).1).0 ≡ ok tt)
          × Perm
              (iter
                (drop_eh_frame table
                  (hdr_of phdr range)
                  (new_eh_frame table phdr range f).1).1.unwind_infos)
              (iter f.unwind_infos)
    unfolding drop_eh_frame
    drop_eh_frame-new_eh_frame other =
        let hdr = hdr_of phdr range in
        let is_hdr = λ (val : UnwindInfo). val.eh_frame_hdr == hdr in
        let moved = iter-insert_unique hdr info f.unwind_infos in
        elim (Option-cases (remove hdr is_hdr after.unwind_infos)) [
          | inl e ↦ absurd (
              remove_none hdr is_hdr after.unwind_infos info ((Perm.mem_iff moved).1 mem-cons_self)
                refl ((==_iff hdr hdr).1 refl) e)
          | inr (t, e) ↦
              rw (new_eh_frame-after) (rw (e, drop_eh_frame) (refl, same_table other t e))
        ]
