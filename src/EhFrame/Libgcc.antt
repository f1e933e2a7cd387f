-- ===== src/EhFrame/Libgcc.antt =====
-- src/loader/ehframe/libgcc.rs: libgcc takes the whole table. The last call stands first.
use dlopen_rs.Base.{ℕ, List, ◌∷◌}
use dlopen_rs.Error.{ok}
use dlopen_rs.Step.{Step, and_then}
use dlopen_rs.Loader.{Phdr}
use dlopen_rs.EhFrame.{Memory, EhFrameHdr, eh_frame_addr, Call, registered, deregistered}

-- `EhFrame::new`; an `EhFrame` is the address of its table.
unfoldable pub new_eh_frame : Memory → EhFrameHdr → Phdr → ℕ → Step (List Call) ℕ
unfolding eh_frame_addr
new_eh_frame mem parse phdr base calls =
    and_then (eh_frame_addr mem parse phdr base, calls)
      (λ addr calls'. (ok addr, registered addr ∷ calls'))

-- `Drop for EhFrame`
unfoldable pub drop_eh_frame : ℕ → List Call → List Call
drop_eh_frame self calls = deregistered self ∷ calls
