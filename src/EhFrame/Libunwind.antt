-- ===== src/EhFrame/Libunwind.antt =====
-- src/loader/ehframe/libunwind.rs: libunwind takes the frame descriptions one by one.
pub mod Section
pub mod Walk
use dlopen_rs.Base.{ℕ, zero, suc, ◌+◌, ◌%◌, ◌^◌, List, ◌∷◌, Option, none, some, if◌then◌else◌, ◌==◌}
use dlopen_rs.Error.{Result, ok, panicked, out_of_fuel, dangling}
use dlopen_rs.Step.{Step, and_then}
use dlopen_rs.Loader.{Phdr}
use dlopen_rs.EhFrame.{
  Memory, read_bytes, EhFrameHdr, eh_frame_addr, Call, registered, deregistered,
}

-- The length of the entry at `current`, and the address behind the length. A `usize` wraps.
unfoldable pub read_len : Memory → ℕ → Option (ℕ × ℕ)
read_len mem current = elim (read_bytes 4 mem current) [
  | none ↦ none
  | some len ↦
      let next = (current + 4) % 2 ^ 64 in
      if len == 0xffff_ffff
      then elim (read_bytes 8 mem next) [
        | none ↦ none
        | some wide ↦ some (wide, (next + 8) % 2 ^ 64)
      ]
      else some (len, next)
]

module _ (mem : Memory) where
  -- the `loop` of `register_unwind`
  unfoldable pub register_frames : ℕ → ℕ → Step (List Call) (Unit {0})
  unfolding read_len
  register_frames zero current calls = (out_of_fuel, calls)
  register_frames (suc fuel) current calls = elim (read_len mem current) [
    | none ↦ (panicked dangling, calls)
    | some (len, next) ↦
        let rest = register_frames fuel ((next + len) % 2 ^ 64) (registered current ∷ calls) in
        if len == 0 then (ok tt, calls) else rest
  ]

  -- `register_unwind`: the first entry is passed over
  unfoldable pub register_unwind : ℕ → ℕ → Step (List Call) (Unit {0})
  unfolding read_len register_frames
  register_unwind fuel self calls = elim (read_len mem self) [
    | none ↦ (panicked dangling, calls)
    | some (len, next) ↦ register_frames fuel ((next + len) % 2 ^ 64) calls
  ]

  -- the `loop` of `drop`
  unfoldable pub deregister_frames : ℕ → ℕ → Step (List Call) (Unit {0})
  unfolding read_len
  deregister_frames zero current calls = (out_of_fuel, calls)
  deregister_frames (suc fuel) current calls = elim (read_len mem current) [
    | none ↦ (panicked dangling, calls)
    | some (len, next) ↦
        let rest = deregister_frames fuel ((next + len) % 2 ^ 64) (deregistered current ∷ calls) in
        if len == 0 then (ok tt, calls) else rest
  ]

  -- `Drop for EhFrame`
  unfoldable pub drop_eh_frame : ℕ → ℕ → Step (List Call) (Unit {0})
  unfolding read_len deregister_frames
  drop_eh_frame fuel self calls = elim (read_len mem self) [
    | none ↦ (panicked dangling, calls)
    | some (len, next) ↦ deregister_frames fuel ((next + len) % 2 ^ 64) calls
  ]

  -- `EhFrame::new`
  unfoldable pub new_eh_frame : EhFrameHdr → ℕ → Phdr → ℕ → Step (List Call) ℕ
  unfolding eh_frame_addr register_unwind
  new_eh_frame parse fuel phdr base calls =
      and_then (eh_frame_addr mem parse phdr base, calls)
        (λ addr calls'.
          and_then (register_unwind fuel addr calls') (λ _ calls''. (ok addr, calls'')))
