-- ===== src/Tests/Threads.antt =====
-- Two threads that use the variables of a library.
use dlopen_rs.Tls.Keys.{IsNewKey}
use dlopen_rs.Error.{ok}
use dlopen_rs.Loader.{Phdr}
use dlopen_rs.Tls.Destructor.{IsCodec, dtor-tls_get_addr}
use native.Mathlib.Nat.{pow-succ'}
use dlopen_rs.Base.{
  ap, Bool-cases, zero, ◌/◌, drop, suc, ◌^◌, take, ◌%◌, none, ◌++◌, ◌==◌, [], false, ◌*◌, inr, inl,
  ◌∷◌, ◌<◌, if◌then◌else◌, ◌+◌, ◌≡◌, some, List, ℕ, arith, ◌≤◌, refl,
}
use dlopen_rs.Tls.{
  TlsInner, dtor, tls_get_addr, offset_of, Host, Memory, TlsIndex, new_tls, drop_tls, inner_of,
  Layout, fill, first_use,
}
use dlopen_rs.Tls.Align.{inner_of-bounds}
use dlopen_rs.Tls.Block.{tls_get_addr-IsFilled, IsFilled}
use dlopen_rs.Tls.Again.{tls_get_addr-tls_get_addr}
use dlopen_rs.Tls.Separate.{tls_get_addr-IsSeparate, IsSeparate, IsFresh, IsIn}
use dlopen_rs.EhFrame.Libunwind.Section.{le_bytes}

-- eight variables of one byte, four of them in the image at address 8192
abbrev pub tls_phdr : Phdr
tls_phdr = record { p_type = 7; p_vaddr = 4096; p_memsz = 8; p_filesz = 4; p_align = 8 }

inner_of-bounds_example :
    (16 ≤ (inner_of tls_phdr 4096 1).offset)
    × ((inner_of tls_phdr 4096 1).offset < 24)
    × ((q : ℕ) × ((inner_of tls_phdr 4096 1).offset ≡ q * 8))
    × ((inner_of tls_phdr 4096 1).offset + 4 ≤ (inner_of tls_phdr 4096 1).layout.size)
    × ((inner_of tls_phdr 4096 1).layout.size ≡ (inner_of tls_phdr 4096 1).offset + 8)
unfolding inner_of
inner_of-bounds_example = inner_of-bounds 3 60 tls_phdr 4096 1 refl refl (omega arith) (omega arith)

-- behind every block
abbrev end_of : List (ℕ × Layout) → ℕ
end_of [] = 16384
end_of (b ∷ blocks) = b.0 + b.1.size + end_of blocks

-- the number of these bytes, the lowest first
abbrev value_of : List ℕ → ℕ
value_of [] = 0
value_of (b ∷ bytes) = b + 256 * value_of bytes

-- the blocks without those at an address
abbrev freed : ℕ → List (ℕ × Layout) → List (ℕ × Layout)
freed ptr [] = []
freed ptr ((a, l) ∷ blocks) =
    let rest = freed ptr blocks in if a == ptr then rest else (a, l) ∷ rest

abbrev pub sample_host : Host
sample_host = record {
  pthread_key_create = λ m. some 2;
  box_new = λ m. 20480;
  alloc_zeroed = λ m layout. end_of m.blocks + 8;
  setspecific_fails = λ m thread key. false;
  encode_layout = λ layout. le_bytes 8 layout.size ++ le_bytes 8 layout.align;
  decode_layout =
      λ bytes. record { size = value_of (take 8 bytes); align = value_of (drop 8 bytes) };
  dealloc = λ ptr layout m. record m { blocks = freed ptr m.blocks };
  tls_dtv_offset = 0;
  host_tls_get_addr = λ index. 0;
}

abbrev pub loaded : Memory
loaded = record {
  inners = λ x. if x == 12288 then some (inner_of tls_phdr 4096 1) else none;
  specific = λ t k. 0;
  bytes = λ x. x % 256;
  blocks = [];
}

-- the third variable
abbrev third : TlsIndex
third = record { ti_module = 12288; ti_offset = 2 }

tls_get_addr-IsFilled_example :
    ((tls_get_addr sample_host 7 third loaded).0 ≡ ok 16410)
    × ((tls_get_addr sample_host 7 third loaded).1.specific 7 1 ≡ 16392)
    × IsFilled
        (inner_of tls_phdr 4096 1)
        16392
        loaded.bytes
        (tls_get_addr sample_host 7 third loaded).1.bytes
unfolding inner_of offset_of
tls_get_addr-IsFilled_example =
    tls_get_addr-IsFilled sample_host (inner_of tls_phdr 4096 1) 7 third loaded (omega arith) refl
      (omega arith, omega arith) refl (omega arith) (inl (omega arith)) refl

tls_get_addr-tls_get_addr_example :
    tls_get_addr sample_host 7 third (tls_get_addr sample_host 7 third loaded).1
    ≡ (ok 16410, (tls_get_addr sample_host 7 third loaded).1)
unfolding tls_get_addr first_use inner_of offset_of fill
tls_get_addr-tls_get_addr_example =
    tls_get_addr-tls_get_addr sample_host 7 third loaded (tls_get_addr sample_host 7 third loaded).1
      16410 refl (omega arith)

below_end :
    (b : ℕ × Layout) (blocks : List (ℕ × Layout)) → IsIn b blocks → b.0 + b.1.size ≤ end_of blocks
below_end b [] i = absurd i
below_end b (c ∷ blocks) (inl e) = rw e (omega arith)
below_end b (c ∷ blocks) (inr i) = omega (arith, below_end b blocks i)

sample_host-IsFresh : IsFresh sample_host
sample_host-IsFresh m layout b there i =
    let low = below_end b m.blocks i in (λ same. omega (arith, same, low), inl (omega (arith, low)))

loaded-IsSeparate : IsSeparate loaded
loaded-IsSeparate = record {
  live = λ t k used. absurd (used refl);
  distinct = λ t k t' k' used same. absurd (used refl);
  keys = λ lib lib' x y at_x at_y same. elim (Bool-cases (lib == 12288)) [
    | inr other ↦ cc (rw other at at_x)
    | inl one ↦ elim (Bool-cases (lib' == 12288)) [
      | inr other' ↦ cc (rw other' at at_y)
      | inl one' ↦ ground (arith, one, one')
    ]
  ];
  apart = λ b c i j. absurd i;
}

loaded-IsNewKey : IsNewKey sample_host loaded
unfolding inner_of
loaded-IsNewKey key lib x made held same = elim (Bool-cases (lib == 12288)) [
  | inr other ↦ cc (rw other at held)
  | inl one ↦
      let this : inner_of tls_phdr 4096 1 ≡ x = cc (rw one at held) in
      let own : 1 ≡ x.key = ap (λ (i : TlsInner). i.key) this in
      let new : 2 ≡ key = cc made in omega (arith, own, new, same)
]

tls_get_addr-IsSeparate_example :
    IsSeparate (tls_get_addr sample_host 7 third loaded).1
    × IsSeparate (new_tls sample_host tls_phdr 4096 loaded).1
    × IsSeparate (drop_tls sample_host 12288 loaded).1
tls_get_addr-IsSeparate_example =
    tls_get_addr-IsSeparate sample_host sample_host-IsFresh 7 12288 4096 third tls_phdr loaded
      loaded-IsSeparate loaded-IsNewKey

value_of-le_bytes : (n v : ℕ) → v < 256 ^ n → value_of (le_bytes n v) ≡ v
value_of-le_bytes zero v small = omega arith
value_of-le_bytes (suc n) v small =
    let power : 256 ^ suc n ≡ 256 * 256 ^ n = pow-succ' 256 n in
    omega (arith, power, value_of-le_bytes n (v / 256) (omega (arith, power)))

sample_host-IsCodec : IsCodec sample_host
sample_host-IsCodec layout size align = (
  refl,
  cc (
    value_of-le_bytes 8 layout.size (omega (arith, size)),
    value_of-le_bytes 8 layout.align (omega (arith, align)),
  ),
)

dtor-tls_get_addr_example : dtor sample_host 16392 (tls_get_addr sample_host 7 third loaded).1 ≡ (
  ok tt,
  sample_host.dealloc 16392
      (inner_of tls_phdr 4096 1).layout
      (tls_get_addr sample_host 7 third loaded).1,
)
unfolding inner_of offset_of tls_get_addr
dtor-tls_get_addr_example =
    dtor-tls_get_addr sample_host sample_host-IsCodec (inner_of tls_phdr 4096 1) (omega arith)
      (omega arith, omega arith) 7 third loaded (omega arith) refl
      (tls_get_addr sample_host 7 third loaded).1 refl (omega arith) refl (λ i less. refl)
