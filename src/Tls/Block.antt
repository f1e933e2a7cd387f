-- ===== src/Tls/Block.antt =====
-- A thread's block of a library's variables: what the first use writes, and later uses.
use dlopen_rs.Error.{ok}
use dlopen_rs.Base.{
  ◌∙◌, ◌-◌, true, ltb, ◌&&◌, ◌≢◌, refl, leb, some, [], inr, arith, inl, false, ◌==◌, ◌∷◌, ◌≡◌, ◌⊎◌,
  List, ◌<◌, ◌+◌, ◌≤◌, length, ℕ,
}
use dlopen_rs.Tls.{
  tls_get_addr, first_use, fill, variable, Host, Memory, TlsInner, TlsIndex, max_tls_index,
  write_bytes, zero_bytes,
}

pub write_bytes-outside :
    (addr : ℕ) (bs : List ℕ) (bytes : ℕ → ℕ) (x : ℕ)
    → (x < addr) ⊎ (addr + length bs ≤ x)
    → write_bytes addr bs bytes x ≡ bytes x
write_bytes-outside addr [] bytes x h = refl
write_bytes-outside addr (b ∷ bs) bytes x h =
    let other : (x == addr) ≡ false = elim h [
      | inl below ↦ ground arith
      | inr above ↦ ground arith
    ] in
    let further : (x < addr + 1) ⊎ (addr + 1 + length bs ≤ x) = elim h [
      | inl below ↦ inl (omega arith)
      | inr above ↦ inr (omega arith)
    ] in
    rw other (write_bytes-outside (addr + 1) bs bytes x further)

pub outside-ranged :
    (addr size x : ℕ) → (x < addr) ⊎ (addr + size ≤ x) → (leb addr x && ltb x (addr + size)) ≡ false
outside-ranged addr size x (inl below) = ground arith
outside-ranged addr size x (inr above) = ground arith

inside-ranged :
    (addr size x : ℕ) → addr ≤ x → x < addr + size → (leb addr x && ltb x (addr + size)) ≡ true
inside-ranged addr size x low high = ground arith

-- What stands in memory after a block was filled: the image, zeros behind it, and everything else
-- as before.
pub record IsFilled (tls : TlsInner) (block : ℕ) (before after : ℕ → ℕ) : Type 0 where
  pub image : (i : ℕ) → i < tls.len → after (block + tls.offset + i) ≡ before (tls.image + i)
  pub zeros :
      (i : ℕ) → tls.len ≤ i → tls.offset + i < tls.layout.size → after (block + tls.offset + i) ≡ 0
  pub frame : (x : ℕ) → (x < block) ⊎ (block + tls.layout.size ≤ x) → after x ≡ before x

module _ (host : Host) (tls : TlsInner) where
  -- The block has room for the layout and the image.
  abbrev pub Fits : Type 0
  Fits =
      (length (host.encode_layout tls.layout) ≤ tls.offset)
      × (tls.offset + tls.len ≤ tls.layout.size)

  fill-IsFilled :
      (block : ℕ) (m : Memory)
      → Fits
      → (tls.image + tls.len ≤ block) ⊎ (block + tls.layout.size ≤ tls.image)
      → IsFilled tls block m.bytes (fill host tls block m).bytes
  unfolding fill
  fill-IsFilled block m (room, whole) away = record {
    image = λ i inside.
        let at = block + tls.offset + i in
        let from = tls.image + i in
        let here : leb (block + tls.offset) at && ltb at (block + tls.offset + tls.len) ≡ true =
          inside-ranged (block + tls.offset) tls.len at (omega arith) (omega arith) in
        let source : tls.image + (at - (block + tls.offset)) ≡ from = omega arith in
        let clear : (from < block) ⊎ (block + tls.layout.size ≤ from) = elim away [
          | inl before ↦ inl (omega arith)
          | inr behind ↦ inr (omega arith)
        ] in
        let unwritten : (from < block) ⊎ (block + length (host.encode_layout tls.layout) ≤ from) =
          elim clear [ inl before ↦ inl before | inr behind ↦ inr (omega arith) ] in
        rw (here, source)
          (write_bytes-outside block (host.encode_layout tls.layout)
              (zero_bytes block tls.layout.size m.bytes) from unwritten
            ∙ rw (outside-ranged block tls.layout.size from clear));
    zeros = λ i behind inside.
        let at = block + tls.offset + i in
        let past = outside-ranged (block + tls.offset) tls.len at (inr (omega arith)) in
        rw past (
          write_bytes-outside block (host.encode_layout tls.layout)
            (zero_bytes block tls.layout.size m.bytes) at (inr (omega arith))
          ∙ rw (inside-ranged block tls.layout.size at (omega arith) (omega arith)));
    frame = λ x out.
        let uncopied : (x < block + tls.offset) ⊎ (block + tls.offset + tls.len ≤ x) = elim out [
          | inl before ↦ inl (omega arith)
          | inr behind ↦ inr (omega arith)
        ] in
        let unwritten : (x < block) ⊎ (block + length (host.encode_layout tls.layout) ≤ x) =
          elim out [ inl before ↦ inl before | inr behind ↦ inr (omega arith) ] in
        rw (outside-ranged (block + tls.offset) tls.len x uncopied) (
          write_bytes-outside block (host.encode_layout tls.layout)
            (zero_bytes block tls.layout.size m.bytes) x unwritten
          ∙ rw (outside-ranged block tls.layout.size x out));
  }

  module _ (thread : ℕ) (index : TlsIndex) (m : Memory) (large : max_tls_index < index.ti_module)
      (held : m.inners index.ti_module ≡ some tls) where
    -- The first use of a library's variables by a thread, where the host has memory and can store
    -- the value: the thread gets the address in its new block, which has the image of the library
    -- and zeros behind it; nothing else in memory is changed. (The image is not in the new block.)
    pub tls_get_addr-IsFilled :
        Fits
        → m.specific thread tls.key ≡ 0
        → host.alloc_zeroed m tls.layout ≢ 0
        → (tls.image + tls.len ≤ host.alloc_zeroed m tls.layout)
          ⊎ (host.alloc_zeroed m tls.layout + tls.layout.size ≤ tls.image)
        → host.setspecific_fails (fill host tls (host.alloc_zeroed m tls.layout) m) thread tls.key
          ≡ false
        → ((tls_get_addr host thread index m).0
            ≡ ok (variable host index (host.alloc_zeroed m tls.layout + tls.offset)))
          × ((tls_get_addr host thread index m).1.specific thread tls.key
              ≡ host.alloc_zeroed m tls.layout)
          × IsFilled tls
              (host.alloc_zeroed m tls.layout)
              m.bytes
              (tls_get_addr host thread index m).1.bytes
    unfolding tls_get_addr first_use
    tls_get_addr-IsFilled fits none_yet there away stored =
        let big : ltb max_tls_index index.ti_module ≡ true = ground arith in
        let null : (host.alloc_zeroed m tls.layout == 0) ≡ false = ground arith in
        rw (big, held, none_yet, null, stored)
          (refl, ground arith, fill-IsFilled (host.alloc_zeroed m tls.layout) m fits away)
