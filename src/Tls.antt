-- ===== src/Tls.antt =====
-- src/loader/tls.rs: a block of memory for each thread that uses a library's variables.
pub mod Align
pub mod Block
pub mod Again
pub mod Keys
pub mod Separate
pub mod Destructor
use Prim.Native.Nat.{bit_and}
use dlopen_rs.Loader.{Phdr}
use dlopen_rs.Base.{
  ℕ, zero, suc, ◌+◌, ◌-◌, ◌%◌, ◌^◌, ◌<◌, Bool, true, false, ◌&&◌, List, [], ◌∷◌, ◌++◌, Option, none,
  some, if◌then◌else◌, ltb, leb, ◌==◌,
}
use dlopen_rs.Error.{
  cannot_create_tls, out_of_memory, Result, ok, panicked, assertion_failed, dangling,
}
use dlopen_rs.Step.{Step, and_then}

pub record Layout : Type 0 where
  pub size : ℕ
  pub align : ℕ

pub record TlsIndex : Type 0 where
  pub ti_module : ℕ
  pub ti_offset : ℕ

pub record TlsInner : Type 0 where
  pub image : ℕ
  pub len : ℕ
  pub layout : Layout
  pub offset : ℕ
  pub key : ℕ

-- The boxes by their addresses, what each thread has under each key (0 is null), the bytes of the
-- memory, and the allocated blocks with their layouts.
pub record Memory : Type 0 where
  pub inners : ℕ → Option TlsInner
  pub specific : ℕ → ℕ → ℕ
  pub bytes : ℕ → ℕ
  pub blocks : List (ℕ × Layout)

-- What libc, the allocator and the crate elf_loader answer: a key, the address of a new box, a
-- block or null, whether a value can be stored, how a `Layout` stands in memory, and what freeing a
-- block does.
pub record Host : Type 0 where
  pub pthread_key_create : Memory → Option ℕ
  pub box_new : Memory → ℕ
  pub alloc_zeroed : Memory → Layout → ℕ
  pub setspecific_fails : Memory → ℕ → ℕ → Bool
  pub encode_layout : Layout → List ℕ
  pub decode_layout : List ℕ → Layout
  pub dealloc : ℕ → Layout → Memory → Memory
  pub tls_dtv_offset : ℕ
  pub host_tls_get_addr : TlsIndex → ℕ

abbrev pub max_tls_index : ℕ
max_tls_index = 4096

-- `size_of::<Layout>()`
abbrev pub size_of_layout : ℕ
size_of_layout = 16

-- `x - 1` and `!x` on a `usize`
abbrev pub minus_one : ℕ → ℕ
minus_one x = (x + (2 ^ 64 - 1)) % 2 ^ 64

abbrev pub complement : ℕ → ℕ
complement x = 2 ^ 64 - 1 - x

-- `(size_of::<Layout>() + align - 1) & !(align - 1)`
unfoldable pub offset_of : ℕ → ℕ
offset_of align =
    bit_and (minus_one ((size_of_layout + align) % 2 ^ 64)) (complement (minus_one align))

unfoldable pub inner_of : Phdr → ℕ → ℕ → TlsInner
unfolding offset_of
inner_of phdr base key =
    let offset = offset_of phdr.p_align in
    record {
      image = base + phdr.p_vaddr;
      len = phdr.p_filesz;
      layout = record { size = (offset + phdr.p_memsz) % 2 ^ 64; align = phdr.p_align };
      offset = offset;
      key = key;
    }

abbrev pub set_inner : ℕ → Option TlsInner → Memory → Memory
set_inner addr inner m = record m { inners = λ x. if x == addr then inner else m.inners x }

abbrev pub set_specific : ℕ → ℕ → ℕ → Memory → Memory
set_specific thread key value m = record m {
  specific = λ t k. if t == thread && k == key then value else m.specific t k;
}

-- `ptr.write`, byte by byte
abbrev pub write_bytes : ℕ → List ℕ → (ℕ → ℕ) → ℕ → ℕ
write_bytes addr [] bytes x = bytes x
write_bytes addr (b ∷ bs) bytes x =
    let rest = write_bytes (addr + 1) bs bytes x in if x == addr then b else rest

-- `ptr.read`, byte by byte
abbrev pub read_bytes : ℕ → ℕ → (ℕ → ℕ) → List ℕ
read_bytes addr zero bytes = []
read_bytes addr (suc n) bytes = bytes addr ∷ read_bytes (addr + 1) n bytes

-- `copy_from_nonoverlapping`
abbrev pub copy_bytes : ℕ → ℕ → ℕ → (ℕ → ℕ) → ℕ → ℕ
copy_bytes addr image len bytes x =
    if leb addr x && ltb x (addr + len) then bytes (image + (x - addr)) else bytes x

abbrev pub zero_bytes : ℕ → ℕ → (ℕ → ℕ) → ℕ → ℕ
zero_bytes addr size bytes x = if leb addr x && ltb x (addr + size) then 0 else bytes x

-- `ElfTls::module_id`
unfoldable pub module_id : ℕ → ℕ
module_id self = self

module _ (host : Host) where
  -- `ElfTls::new`; an `ElfTls` is the address of its box.
  unfoldable pub new_tls : Phdr → ℕ → Step Memory ℕ
  unfolding inner_of
  new_tls phdr base m = elim (host.pthread_key_create m) [
    | none ↦ (panicked cannot_create_tls, m)
    | some key ↦
        let addr = host.box_new m in
        let m' = set_inner addr (some (inner_of phdr base key)) m in
        if ltb max_tls_index addr then (ok addr, m') else (panicked assertion_failed, m)
  ]

  -- `dtor`, which libc calls with a thread's value when the thread ends
  unfoldable pub dtor : ℕ → Step Memory (Unit {0})
  dtor ptr m =
      let layout = host.decode_layout (read_bytes ptr size_of_layout m.bytes) in
      if ptr == 0 then (ok tt, m) else (ok tt, host.dealloc ptr layout m)

  -- `Drop for ElfTls`: the key goes for every thread, and the box; no destructor runs.
  unfoldable pub drop_tls : ℕ → Step Memory (Unit {0})
  drop_tls self m = elim (m.inners self) [
    | none ↦ (panicked dangling, m)
    | some inner ↦
        let m' = set_inner self none m in
        (ok tt, record m' { specific = λ t k. if k == inner.key then 0 else m.specific t k })
  ]

  -- the first use by a thread: `alloc_zeroed`, the layout, and the image
  unfoldable pub fill : TlsInner → ℕ → Memory → Memory
  fill tls memory m = record m {
    bytes = copy_bytes (memory + tls.offset) tls.image tls.len (
        write_bytes memory (host.encode_layout tls.layout)
          (zero_bytes memory tls.layout.size m.bytes));
    blocks = (memory, tls.layout) ∷ m.blocks;
  }

  -- `data.add(tls_index.ti_offset.wrapping_add(TLS_DTV_OFFSET))`
  abbrev pub variable : TlsIndex → ℕ → ℕ
  variable index block = block + (index.ti_offset + host.tls_dtv_offset) % 2 ^ 64

  unfoldable pub first_use : ℕ → TlsIndex → TlsInner → Step Memory ℕ
  unfolding fill
  first_use thread index tls m =
      let memory = host.alloc_zeroed m tls.layout in
      if memory == 0
      then (panicked out_of_memory, m)
      else let m' = fill tls memory m in
        if host.setspecific_fails m' thread tls.key
        then (ok 0, m')
        else (ok (variable index (memory + tls.offset)), set_specific thread tls.key memory m')

  unfoldable pub tls_get_addr : ℕ → TlsIndex → Step Memory ℕ
  unfolding first_use
  tls_get_addr thread index m =
      if ltb max_tls_index index.ti_module
      then elim (m.inners index.ti_module) [
        | none ↦ (panicked dangling, m)
        | some tls ↦
            let val = m.specific thread tls.key in
            if val == 0
            then first_use thread index tls m
            else (ok (variable index (val + tls.offset)), m)
      ]
      else (ok (host.host_tls_get_addr index), m)
