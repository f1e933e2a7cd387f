-- ===== src/EhFrame/Unwinding.antt =====
-- src/loader/ehframe/unwinding.rs: a finder of frame tables for the crate unwinding.
pub mod Find
pub mod Finder
use mathlib.Core.List.{Perm, Mem}
use dlopen_rs.Base.{
  ℕ, ◌+◌, ◌≡◌, ◌≢◌, Bool, true, false, ◌&&◌, List, [], ◌∷◌, Option, none, some, if◌then◌else◌, ltb,
  leb, ◌==◌,
}
use dlopen_rs.Error.{Result, ok, panicked, unwrap_err, assertion_failed}
use dlopen_rs.Step.{Step, and_then}
use dlopen_rs.Loader.{Phdr}

pub record Range : Type 0 where
  pub start : ℕ
  pub end : ℕ

-- `Range::contains`
abbrev pub contains : Range → ℕ → Bool
contains r pc = leb r.start pc && ltb pc r.end

pub record UnwindInfo : Type 0 where
  pub eh_frame_hdr : ℕ
  pub pc_range : Range

-- `EhFrame::hasher`
abbrev pub hasher : UnwindInfo → ℕ
hasher val = val.eh_frame_hdr

-- `hashbrown::HashTable`: a multiset that is iterated in some order. `remove` is `entry` with
-- `OccupiedEntry::remove`, and `none` where the entry is vacant.
pub record HashTable : Type 1 where
  pub T : Type 0
  pub new_table : T
  pub iter : T → List UnwindInfo
  pub insert_unique : ℕ → UnwindInfo → T → T
  pub remove : ℕ → (UnwindInfo → Bool) → T → Option T
  pub iter-new_table : iter new_table ≡ []
  pub iter-insert_unique :
      (h : ℕ) (x : UnwindInfo) (t : T) → Perm (iter (insert_unique h x t)) (x ∷ iter t)
  pub remove_some :
      (h : ℕ) (eq : UnwindInfo → Bool) (t t' : T)
      → remove h eq t ≡ some t'
      → ∥ ((x : UnwindInfo) × (eq x ≡ true) × Perm (iter t) (x ∷ iter t')) ∥₁
  pub remove_none :
      (h : ℕ) (eq : UnwindInfo → Bool) (t : T) (x : UnwindInfo)
      → Mem x (iter t)
      → hasher x ≡ h
      → eq x ≡ true
      → remove h eq t ≢ none

-- the loop of `find`
unfoldable pub find_in : ℕ → List UnwindInfo → Option ℕ
find_in pc [] = none
find_in pc (info ∷ infos) =
    if contains info.pc_range pc then some info.eh_frame_hdr else find_in pc infos

module _ (table : HashTable) where
  open table use {T, iter, insert_unique, remove, new_table}

  -- `EH_FINDER`, `IS_SET`, and whether the crate takes the finder when it is asked to
  pub record EhFinder : Type 0 where
    pub unwind_infos : T
    pub is_set : Bool
    pub is_accepted : Bool

  abbrev pub new_finder : Bool → EhFinder
  new_finder is_accepted = record {
    unwind_infos = new_table;
    is_set = false;
    is_accepted = is_accepted;
  }

  -- The first call hands the finder to the crate: `set_custom_eh_frame_finder(..).unwrap()`.
  abbrev pub set_once : Step EhFinder (Unit {0})
  set_once f =
      if f.is_set
      then (ok tt, f)
      else let f' = record f { is_set = true } in
        if f.is_accepted then (ok tt, f') else (panicked unwrap_err, f')

  unfoldable pub register_unwind : ℕ → Range → Step EhFinder (Unit {0})
  register_unwind self map_range f = and_then (set_once f) (λ _ f'.
      let info : UnwindInfo = record { eh_frame_hdr = self; pc_range = map_range } in
      (ok tt, record f' { unwind_infos = insert_unique self info f'.unwind_infos }))

  -- `EhFrame::new`; an `EhFrame` is the address of the header.
  unfoldable pub new_eh_frame : Phdr → Range → Step EhFinder ℕ
  unfolding register_unwind
  new_eh_frame phdr map_range f =
      let hdr = map_range.start + phdr.p_vaddr in
      and_then (register_unwind hdr map_range f) (λ _ f'. (ok hdr, f'))

  -- `Drop for EhFrame`; `unreachable!()` is a failed assertion
  unfoldable pub drop_eh_frame : ℕ → Step EhFinder (Unit {0})
  drop_eh_frame self f = elim (remove self (λ val. val.eh_frame_hdr == self) f.unwind_infos) [
    | none ↦ (panicked assertion_failed, f)
    | some infos ↦ (ok tt, record f { unwind_infos = infos })
  ]

  unfoldable pub find : ℕ → EhFinder → Option ℕ
  unfolding find_in
  find pc f = find_in pc (iter f.unwind_infos)
