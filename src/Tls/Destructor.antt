-- ===== src/Tls/Destructor.antt =====
-- What the destructor of a thread's block frees.
use dlopen_rs.Tls.{
  zero_bytes, Host, Memory, TlsInner, TlsIndex, Layout, tls_get_addr, first_use, fill, dtor,
  read_bytes, write_bytes, size_of_layout, max_tls_index,
}
use dlopen_rs.Tls.Block.{outside-ranged}
use dlopen_rs.Error.{ok}
use dlopen_rs.Base.{
  ◌^◌, ap, refl, ◌∙◌, zero, ltb, [], false, arith, true, ◌≢◌, ◌==◌, subst, inl, suc, ◌∷◌, some, ◌+◌,
  ◌≡◌, ◌≤◌, length, List, ◌<◌, ℕ,
}

read_bytes-same :
    (addr n : ℕ) (bytes bytes' : ℕ → ℕ)
    → ((i : ℕ) → i < n → bytes (addr + i) ≡ bytes' (addr + i))
    → read_bytes addr n bytes ≡ read_bytes addr n bytes'
read_bytes-same addr zero bytes bytes' h = refl
read_bytes-same addr (suc n) bytes bytes' h =
    let first : bytes addr ≡ bytes' addr =
      subst (λ x. bytes x ≡ bytes' x) (omega arith) (h 0 (omega arith)) in
    let rest = read_bytes-same (addr + 1) n bytes bytes' (λ i less.
      let at : addr + suc i ≡ addr + 1 + i = omega arith in
      subst (λ x. bytes x ≡ bytes' x) at (h (suc i) (omega arith))) in
    cc (first, rest)

read_bytes-write_bytes :
    (addr : ℕ) (bs : List ℕ) (bytes : ℕ → ℕ)
    → read_bytes addr (length bs) (write_bytes addr bs bytes) ≡ bs
read_bytes-write_bytes addr [] bytes = refl
read_bytes-write_bytes addr (b ∷ bs) bytes =
    let here : (addr == addr) ≡ true = ground arith in
    let first : write_bytes addr (b ∷ bs) bytes addr ≡ b = rw here in
    let same =
      read_bytes-same (addr + 1) (length bs) (write_bytes addr (b ∷ bs) bytes)
        (write_bytes (addr + 1) bs bytes)
        (λ i less. let other : (addr + 1 + i == addr) ≡ false = ground arith in rw other) in
    cc (first, same, read_bytes-write_bytes (addr + 1) bs bytes)

-- A `Layout` of two words has 16 bytes in memory, and is read as it was written.
abbrev pub IsCodec : Host → Type 0
IsCodec host =
    (layout : Layout)
    → layout.size < 2 ^ 64
    → layout.align < 2 ^ 64
    → (length (host.encode_layout layout) ≡ size_of_layout)
      × (host.decode_layout (host.encode_layout layout) ≡ layout)

module _ (host : Host) (codec : IsCodec host) (tls : TlsInner) (room : size_of_layout ≤ tls.offset)
    (words : (tls.layout.size < 2 ^ 64) × (tls.layout.align < 2 ^ 64)) where
  fill-saved :
      (block : ℕ) (m : Memory)
      → read_bytes block size_of_layout (fill host tls block m).bytes
        ≡ host.encode_layout tls.layout
  unfolding fill
  fill-saved block m =
      let bs = host.encode_layout tls.layout in
      let zeroed = zero_bytes block tls.layout.size m.bytes in
      let size : length bs ≡ 16 = (codec tls.layout words.0 words.1).0 in
      let uncopied =
        read_bytes-same block 16 (fill host tls block m).bytes (write_bytes block bs zeroed)
          (λ i less.
            rw (outside-ranged (block + tls.offset) tls.len (block + i) (inl (omega arith)))) in
      uncopied ∙ (rw size at (read_bytes-write_bytes block bs zeroed))

  module _ (thread : ℕ) (index : TlsIndex) (m : Memory) (large : max_tls_index < index.ti_module)
      (held : m.inners index.ti_module ≡ some tls) where
    -- When a thread ends that has used a library's variables, the destructor frees the block that
    -- the first use allocated, with the layout that it was allocated with, as long as nobody has
    -- written to the 16 bytes in which the layout is saved. (The first use had memory and could
    -- store the value; the data of the block stand behind these bytes; the layout has words
    -- of 64 bits, 16 bytes, and is read as it was written.)
    pub dtor-tls_get_addr :
        (m' : Memory)
        → m.specific thread tls.key ≡ 0
        → host.alloc_zeroed m tls.layout ≢ 0
        → host.setspecific_fails (fill host tls (host.alloc_zeroed m tls.layout) m) thread tls.key
          ≡ false
        → ((i : ℕ)
            → i < size_of_layout
            → m'.bytes (host.alloc_zeroed m tls.layout + i)
              ≡ (tls_get_addr host thread index m).1.bytes (host.alloc_zeroed m tls.layout + i))
        → dtor host ((tls_get_addr host thread index m).1.specific thread tls.key) m'
          ≡ (ok tt, host.dealloc (host.alloc_zeroed m tls.layout) tls.layout m')
    unfolding tls_get_addr first_use dtor
    dtor-tls_get_addr m' none_yet there stored kept =
        let block = host.alloc_zeroed m tls.layout in
        let big : ltb max_tls_index index.ti_module ≡ true = ground arith in
        let null : (block == 0) ≡ false = ground arith in
        let after = (tls_get_addr host thread index m).1 in
        let value : after.specific thread tls.key ≡ block =
          rw (big, held, none_yet, null, stored) (ground arith) in
        let written : after.bytes ≡ (fill host tls block m).bytes =
          rw (big, held, none_yet, null, stored) in
        let read : read_bytes block 16 m'.bytes ≡ host.encode_layout tls.layout =
          read_bytes-same block 16 m'.bytes after.bytes kept
          ∙ ap (read_bytes block 16) written
          ∙ fill-saved block m in
        rw (value, null, read, (codec tls.layout words.0 words.1).1)
