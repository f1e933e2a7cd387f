-- ===== src/EhFrame.antt =====
-- The exception tables of src/loader/ehframe: the memory that the code reads, and the header that
-- the crate gimli parses.
pub mod Libunwind
pub mod Libgcc
pub mod Unwinding
use dlopen_rs.Base.{ℕ, zero, suc, ◌+◌, ◌*◌, List, [], ◌∷◌, Option, none, some}
use dlopen_rs.Error.{Result, ok, panicked, unwrap_none, dangling, ◌>>=◌}
use dlopen_rs.Loader.{Phdr}

-- The byte at each address that can be read.
abbrev pub Memory : Type 0
Memory = ℕ → Option ℕ

-- An unaligned little-endian number of `n` bytes; the supported architectures are little-endian.
unfoldable pub read_bytes : ℕ → Memory → ℕ → Option ℕ
read_bytes zero mem addr = some 0
read_bytes (suc n) mem addr = elim (mem addr) [
  | none ↦ none
  | some b ↦ elim (read_bytes n mem (addr + 1)) [ none ↦ none | some rest ↦ some (b + 256 * rest) ]
]

-- `gimli::Pointer`
pub data Pointer : Type 0 where
  direct indirect : ℕ → Pointer

-- gimli's reading of the `size` bytes of the header at an address: where the frame table is.
abbrev pub EhFrameHdr : Type 0
EhFrameHdr = ℕ → ℕ → Option Pointer

-- a read through a pointer of the header
abbrev pub deref : Memory → Pointer → Result ℕ
deref mem (direct x) = ok x
deref mem (indirect x) = elim (read_bytes 8 mem x) [ none ↦ panicked dangling | some v ↦ ok v ]

-- `eh_frame_addr`, which the versions for libgcc and for libunwind compute in the same way
unfoldable pub eh_frame_addr : Memory → EhFrameHdr → Phdr → ℕ → Result ℕ
eh_frame_addr mem parse phdr base = elim (parse (base + phdr.p_vaddr) phdr.p_memsz) [
  | none ↦ panicked unwrap_none
  | some pointer ↦ deref mem pointer
]

-- A call of the unwinder.
pub data Call : Type 0 where
  registered deregistered : ℕ → Call
