-- ===== src/Hooks.antt =====
-- The functions of src/loader/mod.rs that the crate elf_loader calls: `parse_phdr` while it loads a
-- library, and `deal_unknown` for a relocation that it does not know.
pub mod Modules
pub mod Bound
use dlopen_rs.Base.{
  ℕ, ◌+◌, ◌/◌, Bool, true, false, List, [], ◌∷◌, Option, none, some, if◌then◌else◌, ◌==◌,
}
use dlopen_rs.Error.{out_of_fuel, err, Result, ok, panicked, unwrap_none, dangling, unwrap}
use dlopen_rs.Step.{Step, and_then}
use dlopen_rs.Loader.{Phdr}
use dlopen_rs.DebugList.{CustomDebug, new}
use dlopen_rs.EhFrame.{Memory, EhFrameHdr, Call}
use dlopen_rs.EhFrame.Unwinding.{Range, HashTable, EhFinder}
use dlopen_rs.EhFrame.Libgcc.{new_eh_frame}
use dlopen_rs.Tls.{Host, new_tls, module_id}

-- `EhFrame` of the version that the build chooses.
pub record Unwinder : Type 1 where
  pub U : Type 0
  pub new_frames : Phdr → Range → Step U (Option ℕ)

-- src/loader/ehframe/dummy.rs
abbrev pub dummy : Unwinder
dummy = record { U = Unit {0}; new_frames = λ phdr range u. (ok none, u) }

abbrev pub libgcc : Memory → EhFrameHdr → Unwinder
libgcc mem parse = record {
  U = List Call;
  new_frames = λ phdr range calls.
      and_then (new_eh_frame mem parse phdr range.start calls)
        (λ addr calls'. (ok (some addr), calls'));
}

-- The constants of elf_loader that the code compares with.
pub record Abi : Type 0 where
  pub pt_gnu_eh_frame : ℕ
  pub pt_dynamic : ℕ
  pub pt_tls : ℕ
  pub rel_dtpmod : ℕ
  pub stb_local : ℕ

-- What a library keeps: an `Option<EhFrame>`, a `DebugInfo` or an `ElfTls`, under the ids below.
pub data Datum : Type 0 where
  eh_frame : Option ℕ → Datum
  debug_info elf_tls : ℕ → Datum

abbrev pub eh_frame_id : ℕ
eh_frame_id = 0

abbrev pub debug_info_id : ℕ
debug_info_id = 1

abbrev pub tls_id : ℕ
tls_id = 2

abbrev pub UserData : Type 0
UserData = ℕ → Option Datum

-- `UserData::insert`
abbrev pub insert_datum : ℕ → Datum → UserData → UserData
insert_datum id datum data' i = if i == id then some datum else data' i

pub record Segments : Type 0 where
  pub base : ℕ
  pub len : ℕ

module _ (abi : Abi) (unwinder : Unwinder) (host : Host) (box_new : CustomDebug → ℕ) where
  open unwinder use {U, new_frames}

  -- the state of the parts that a new library is shown to
  pub record Parts : Type 0 where
    pub user_data : UserData
    pub frames : U
    pub debug : CustomDebug
    pub tls : dlopen_rs.Tls.Memory

  -- the branches of `parse_phdr`
  unfoldable pub add_eh_frame : Phdr → Segments → Step Parts (Unit {0})
  add_eh_frame phdr segments s =
      let range : Range = record { start = segments.base; end = segments.base + segments.len } in
      let made = new_frames phdr range s.frames in
      and_then (made.0, record s { frames = made.1 })
        (λ frame s'.
          (ok tt, record s' { user_data = insert_datum eh_frame_id (eh_frame frame) s'.user_data }))

  unfoldable pub add_dynamic : ℕ → Phdr → Segments → Step Parts (Unit {0})
  add_dynamic cname phdr segments s =
      let made = new (box_new s.debug) segments.base cname (segments.base + phdr.p_vaddr) s.debug in
      and_then (made.0, record s { debug = made.1 })
        (λ node s'. (
          ok tt,
          record s' { user_data = insert_datum debug_info_id (debug_info node) s'.user_data },
        ))

  unfoldable pub add_tls : Phdr → Segments → Step Parts (Unit {0})
  add_tls phdr segments s =
      let made = new_tls host phdr segments.base s.tls in
      and_then (made.0, record s { tls = made.1 })
        (λ self s'.
          (ok tt, record s' { user_data = insert_datum tls_id (elf_tls self) s'.user_data }))

  unfoldable pub parse_phdr : ℕ → Phdr → Segments → Step Parts (Unit {0})
  unfolding add_eh_frame add_dynamic add_tls
  parse_phdr cname phdr segments s =
      if phdr.p_type == abi.pt_gnu_eh_frame
      then add_eh_frame phdr segments s
      else if phdr.p_type == abi.pt_dynamic
      then add_dynamic cname phdr segments s
      else if phdr.p_type == abi.pt_tls
      then add_tls phdr segments s
      else (ok tt, s)

-- A relocation, and a symbol: its `st_info` and what looks it up.
pub record ElfRela : Type 0 where
  pub r_type : ℕ
  pub r_symbol : ℕ
  pub r_offset : ℕ

pub record SymbolInfo : Type 0 where
  pub st_info : ℕ
  pub name : ℕ

-- A library, as far as `deal_unknown` reads it.
pub record TlsLibrary : Type 0 where
  pub base : ℕ
  pub user_data : UserData
  pub symbol_idx : ℕ → SymbolInfo
  pub lookup_filter : SymbolInfo → Bool

abbrev pub write_word : ℕ → ℕ → (ℕ → ℕ) → ℕ → ℕ
write_word ptr v words x = if x == ptr then v else words x

-- the closure `cast`
unfoldable pub cast : TlsLibrary → Result ℕ
unfolding module_id
cast lib = elim (lib.user_data tls_id) [
  | none ↦ panicked unwrap_none
  | some datum ↦ elim datum [
    | eh_frame f ↦ panicked dangling
    | debug_info d ↦ panicked dangling
    | elf_tls self ↦ ok (module_id self)
  ]
]

-- `deps.find_map(..)`
unfoldable pub find_module : SymbolInfo → List TlsLibrary → Result (Option ℕ)
unfolding cast
find_module info [] = ok none
find_module info (dep ∷ deps) =
    let rest = find_module info deps in
    if dep.lookup_filter info
    then elim (cast dep) [
      | ok id ↦ ok (some id)
      | err e ↦ err e
      | panicked p ↦ panicked p
      | out_of_fuel ↦ out_of_fuel
    ]
    else rest

-- `ptr.write(cast(lib.core_component_ref()))`
unfoldable pub write_own : ℕ → TlsLibrary → Step (ℕ → ℕ) Bool
unfolding cast
write_own ptr lib words = and_then (cast lib, words) (λ id w. (ok true, write_word ptr id w))

-- the search of the other libraries
unfoldable pub write_found : ℕ → SymbolInfo → List TlsLibrary → Step (ℕ → ℕ) Bool
unfolding find_module
write_found ptr info deps words =
    and_then (find_module info deps, words)
      (λ found w. elim found [ none ↦ (ok false, w) | some id ↦ (ok true, write_word ptr id w) ])

-- the branch for REL_DTPMOD
unfoldable pub deal_dtpmod : Abi → ElfRela → TlsLibrary → List TlsLibrary → Step (ℕ → ℕ) Bool
unfolding write_own write_found
deal_dtpmod abi rela lib deps words =
    let ptr = lib.base + rela.r_offset in
    let info = lib.symbol_idx rela.r_symbol in
    if rela.r_symbol == 0
    then write_own ptr lib words
    else if info.st_info / 16 == abi.stb_local
    then write_own ptr lib words
    else write_found ptr info deps words

unfoldable pub deal_unknown : Abi → ElfRela → TlsLibrary → List TlsLibrary → Step (ℕ → ℕ) Bool
unfolding deal_dtpmod
deal_unknown abi rela lib deps words =
    if rela.r_type == abi.rel_dtpmod then deal_dtpmod abi rela lib deps words else (ok false, words)
