-- ===== src/EhFrame/Libunwind/Walk.antt =====
-- The walks visit the entries behind the first, each once and in their order.
use dlopen_rs.Error.{Result, ok}
use dlopen_rs.Base.{
  ◌∙◌, zero, length-append, Bool-cases, subst, inr, inl, Option-cases, refl, ◌++◌, suc, ap, length,
  ◌==◌, Bool, ℕ, ◌+◌, ◌%◌, ◌^◌, ◌<◌, ◌≡◌, List, [], ◌∷◌, some, true, false, arith,
}
use dlopen_rs.EhFrame.{Result, ok, deregistered, registered, Call, Memory}
use dlopen_rs.EhFrame.Libunwind.{
  register_unwind, deregister_frames, register_frames, drop_eh_frame, read_len,
}
use dlopen_rs.EhFrame.Libunwind.Section.{
  starts, encode_section, encode_entries, length-encode_entry, AllEntries, size, encode_entry,
  IsEntry, Entry, read_bytes-le_bytes, le_bytes, Holds-append, size_len, limit, Holds, encode_len,
}

-- one call for each address, the last one first
abbrev pub called : (ℕ → Call) → List ℕ → List Call → List Call
called f [] calls = calls
called f (addr ∷ addrs) calls = called f addrs (f addr ∷ calls)

read_len-encode_len :
    (mem : Memory) (addr : ℕ) (wide : Bool) (n : ℕ)
    → n < limit wide
    → addr + size_len wide < 2 ^ 64
    → Holds mem addr (encode_len wide n)
    → read_len mem addr ≡ some (n, addr + size_len wide)
unfolding read_len
read_len-encode_len mem addr true n small room h =
    let (mark, rest) = Holds-append mem addr (le_bytes 4 0xffff_ffff) (le_bytes 8 n) h in
    let next : (addr + 4) % 2 ^ 64 ≡ addr + 4 = omega arith in
    let after : ((addr + 4) % 2 ^ 64 + 8) % 2 ^ 64 ≡ addr + 12 = omega arith in
    rw (
      read_bytes-le_bytes 4 mem addr 0xffff_ffff (omega arith) mark,
      read_len,
      next,
      read_bytes-le_bytes 8 mem (addr + 4) n small rest,
      after,
    )
read_len-encode_len mem addr false n small room h =
    let next : (addr + 4) % 2 ^ 64 ≡ addr + 4 = omega arith in
    let narrow : (n == 0xffff_ffff) ≡ false = ground arith in
    rw (read_bytes-le_bytes 4 mem addr n (omega arith) h, read_len, next, narrow)

module _ (mem : Memory) where
  -- the entry at an address, and what stands behind it
  entry-Holds :
      (addr : ℕ) (e : Entry) (rest : List ℕ)
      → Holds mem addr (encode_entry e ++ rest)
      → Holds mem addr (encode_len e.wide (length e.body)) × Holds mem (addr + size e) rest
  entry-Holds addr e rest h =
      let (front, back) = Holds-append mem addr (encode_entry e) rest h in
      let (len, body) = Holds-append mem addr (encode_len e.wide (length e.body)) e.body front in
      let there : addr + length (encode_entry e) ≡ addr + size e =
        omega (arith, length-encode_entry e) in
      (len, subst (λ a. Holds mem a rest) there back)

  read_len-entry :
      (addr : ℕ) (e : Entry) (rest : List ℕ)
      → IsEntry e
      → addr + size e < 2 ^ 64
      → Holds mem addr (encode_entry e ++ rest)
      → (read_len mem addr ≡ some (length e.body, addr + size_len e.wide))
        × ((addr + size_len e.wide + length e.body) % 2 ^ 64 ≡ addr + size e)
  read_len-entry addr e rest valid room h = (
    read_len-encode_len mem addr e.wide (length e.body) valid.1 (omega arith)
        (entry-Holds addr e rest h).0,
    omega arith,
  )

  register_frames-called :
      (fuel addr : ℕ) (es : List Entry) (calls : List Call)
      → length es < fuel
      → AllEntries es
      → addr + length (encode_entries es) < 2 ^ 64
      → Holds mem addr (encode_entries es)
      → register_frames mem fuel addr calls ≡ (ok tt, called registered (starts addr es) calls)
  unfolding register_frames
  register_frames-called zero addr es calls enough valid room h = absurd (omega arith)
  register_frames-called (suc fuel) addr [] calls enough valid room h =
      rw (read_len-encode_len mem addr false 0 (omega arith) (omega arith) h, register_frames)
  register_frames-called (suc fuel) addr (e ∷ es) calls enough valid room h =
      let sizes = length-append (encode_entry e) (encode_entries es) in
      let room1 : addr + size e + length (encode_entries es) < 2 ^ 64 =
        omega (arith, sizes, length-encode_entry e) in
      let (len, next) = read_len-entry addr e (encode_entries es) valid.0 (omega arith) h in
      let more : (length e.body == 0) ≡ false = ground (arith, valid.0.0) in
      rw (len, register_frames, more, next)
        (register_frames-called fuel (addr + size e) es (registered addr ∷ calls) (omega arith)
          valid.1 room1 (entry-Holds addr e (encode_entries es) h).1)

-- `registered` and `deregistered` exchanged
abbrev pub mirror : List Call → List Call
mirror [] = []
mirror (registered addr ∷ calls) = deregistered addr ∷ mirror calls
mirror (deregistered addr ∷ calls) = registered addr ∷ mirror calls

deregister_frames-mirror :
    (mem : Memory) (fuel current : ℕ) (calls : List Call)
    → deregister_frames mem fuel current (mirror calls) ≡ (
      (register_frames mem fuel current calls).0,
      mirror (register_frames mem fuel current calls).1,
    )
unfolding deregister_frames register_frames
deregister_frames-mirror mem zero current calls = refl
deregister_frames-mirror mem (suc fuel) current calls = elim (Option-cases (read_len mem current)) [
  | inl e ↦ rw (e, deregister_frames, register_frames)
  | inr (r, e) ↦ elim (Bool-cases (r.0 == 0)) [
    | inl t ↦ rw (e, deregister_frames, register_frames, t)
    | inr t ↦
        rw (e, deregister_frames, register_frames, t)
          (deregister_frames-mirror mem fuel ((r.1 + r.0) % 2 ^ 64) (registered current ∷ calls))
  ]
]

-- Whatever the memory holds, malformed tables included: `drop` deregisters exactly the addresses
-- that `register_unwind` registers, in the same order, and ends in the same way.
pub drop_eh_frame-mirror :
    (mem : Memory) (fuel self : ℕ) (calls : List Call)
    → drop_eh_frame mem fuel self (mirror calls)
      ≡ ((register_unwind mem fuel self calls).0, mirror (register_unwind mem fuel self calls).1)
unfolding drop_eh_frame register_unwind
drop_eh_frame-mirror mem fuel self calls = elim (Option-cases (read_len mem self)) [
  | inl e ↦ rw (e, drop_eh_frame, register_unwind)
  | inr (r, e) ↦
      rw (e, drop_eh_frame, register_unwind)
        (deregister_frames-mirror mem fuel ((r.1 + r.0) % 2 ^ 64) calls)
]

mirror-called :
    (addrs : List ℕ) (calls : List Call)
    → mirror (called registered addrs calls) ≡ called deregistered addrs (mirror calls)
mirror-called [] calls = refl
mirror-called (addr ∷ addrs) calls = mirror-called addrs (registered addr ∷ calls)

mirror-mirror : (calls : List Call) → mirror (mirror calls) ≡ calls
mirror-mirror [] = refl
mirror-mirror (registered addr ∷ calls) = ap (◌∷◌ (registered addr)) (mirror-mirror calls)
mirror-mirror (deregistered addr ∷ calls) = ap (◌∷◌ (deregistered addr)) (mirror-mirror calls)

module _ (mem : Memory) (fuel self : ℕ) (cie : Entry) (fdes : List Entry) (calls : List Call)
    (enough : length fdes < fuel) (first : IsEntry cie) (valid : AllEntries fdes)
    (room : self + length (encode_section cie fdes) < 2 ^ 64)
    (holds : Holds mem self (encode_section cie fdes)) where
  register_unwind-called :
      register_unwind mem fuel self calls
      ≡ (ok tt, called registered (starts (self + size cie) fdes) calls)
  unfolding register_unwind
  register_unwind-called =
      let sizes = length-append (encode_entry cie) (encode_entries fdes) in
      let room1 : self + size cie + length (encode_entries fdes) < 2 ^ 64 =
        omega (arith, sizes, length-encode_entry cie) in
      let (len, next) =
        read_len-entry mem self cie (encode_entries fdes) first (omega arith) holds in
      rw (len, register_unwind, next)
        (register_frames-called mem fuel (self + size cie) fdes calls enough valid room1
          (entry-Holds mem self cie (encode_entries fdes) holds).1)

-- On a frame table in memory, with lengths of 32 or of 64 bits, the walks end: registering calls
-- the unwinder once for each entry behind the first, in their order, and dropping withdraws the
-- same ones. (The table ends below the end of the address space, the entries are not empty, and
-- there is more fuel than entries behind the first.)
pub register_unwind-drop_eh_frame :
    (mem : Memory) (fuel self : ℕ) (cie : Entry) (fdes : List Entry) (calls calls' : List Call)
    → length fdes < fuel
    → IsEntry cie
    → AllEntries fdes
    → self + length (encode_section cie fdes) < 2 ^ 64
    → Holds mem self (encode_section cie fdes)
    → (register_unwind mem fuel self calls
        ≡ (ok tt, called registered (starts (self + size cie) fdes) calls))
      × (drop_eh_frame mem fuel self calls'
          ≡ (ok tt, called deregistered (starts (self + size cie) fdes) calls'))
register_unwind-drop_eh_frame mem fuel self cie fdes calls calls' enough first valid room holds =
    let addrs = starts (self + size cie) fdes in
    let walked =
      register_unwind-called mem fuel self cie fdes (mirror calls') enough first valid room holds in
    let dropped : drop_eh_frame mem fuel self (mirror (mirror calls'))
        ≡ (ok tt, mirror (called registered addrs (mirror calls'))) =
      drop_eh_frame-mirror mem fuel self (mirror calls')
      ∙ ap (λ (r : Result (Unit {0}) × List Call). (r.0, mirror r.1)) walked in
    (
      register_unwind-called mem fuel self cie fdes calls enough first valid room holds,
      rw (mirror-called addrs (mirror calls'), mirror-mirror calls') at dropped,
    )
