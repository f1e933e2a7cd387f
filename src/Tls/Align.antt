-- ===== src/Tls/Align.antt =====
-- The offset of the data in a block: the layout, rounded up to the alignment.
use dlopen_rs.Loader.{Phdr}
use dlopen_rs.Base.{◌%◌, ◌∙◌, ◌^◌, sym, ap, refl, zero, arith, ◌*◌, ◌/◌, ◌+◌, ◌<◌, ◌-◌, ◌≤◌, ◌≡◌, ℕ}
use dlopen_rs.Tls.{inner_of, complement, minus_one, offset_of}
use dlopen_rs.Flags.Bits.{power, conjunction}
use Prim.Native.Nat.{suc, bit_and, bit_and-bitwise}

-- the digits of `x` without the lowest `k`
abbrev pub round_down : ℕ → ℕ → ℕ
round_down zero x = x
round_down (suc k) x = round_down k (x / 2) * 2

abbrev mask : ℕ → ℕ → ℕ
mask zero j = power j - 1
mask (suc k) j = mask k j * 2

power-positive : (k : ℕ) → 0 < power k
power-positive zero = omega arith
power-positive (suc k) = omega (arith, power-positive k)

power-suc : (k j : ℕ) → power (suc k + j) ≡ power (k + j) * 2
power-suc k j = let same : suc k + j ≡ suc (k + j) = omega arith in ap power same

power-le : (k j : ℕ) → power k ≤ power (k + j)
power-le k zero = let same : k + 0 ≡ k = omega arith in omega (arith, ap power same)
power-le k (suc j) =
    let same : k + suc j ≡ suc (k + j) = omega arith in omega (arith, ap power same, power-le k j)

mask-power : (k j : ℕ) → mask k j ≡ power (k + j) - power k
mask-power zero j = ap (λ i. power i - 1) (omega arith)
mask-power (suc k) j = omega (arith, mask-power k j, power-suc k j)

conjunction-ones : (w n a : ℕ) → a ≤ n → a < power w → conjunction n a (power w - 1) ≡ a
conjunction-ones w zero zero h s = refl
conjunction-ones w zero (suc a) h s = absurd (omega arith)
conjunction-ones w (suc n) zero h s = refl
conjunction-ones zero (suc n) (suc a) h s = absurd (omega arith)
conjunction-ones (suc w) (suc n) (suc a) h s =
    let halved : (power w * 2 - 1) / 2 ≡ power w - 1 = omega (arith, power-positive w) in
    let rest : conjunction n (suc a / 2) ((power w * 2 - 1) / 2) ≡ suc a / 2 =
      rw halved (conjunction-ones w n (suc a / 2) (omega arith) (omega arith)) in
    omega (arith, rest, power-positive w)

round_down-zero : (k : ℕ) → round_down k 0 ≡ 0
round_down-zero zero = refl
round_down-zero (suc k) = omega (arith, round_down-zero k)

conjunction-mask :
    (k j n a : ℕ) → a ≤ n → a < power (k + j) → conjunction n a (mask k j) ≡ round_down k a
conjunction-mask zero j n a h s =
    let same : power (0 + j) ≡ power j = ap power (omega arith) in
    conjunction-ones j n a h (omega (arith, same))
conjunction-mask (suc k) j zero zero h s = omega (arith, round_down-zero k)
conjunction-mask (suc k) j zero (suc a) h s = absurd (omega arith)
conjunction-mask (suc k) j (suc n) zero h s = omega (arith, round_down-zero k)
conjunction-mask (suc k) j (suc n) (suc a) h s =
    let halved : mask k j * 2 / 2 ≡ mask k j = omega arith in
    let rest : conjunction n (suc a / 2) (mask k j * 2 / 2) ≡ round_down k (suc a / 2) =
      rw halved (conjunction-mask k j n (suc a / 2) (omega arith) (omega (arith, power-suc k j))) in
    omega (arith, rest)

bit_and-mask :
    (k j a : ℕ) → a < power (k + j) → bit_and a (power (k + j) - power k) ≡ round_down k a
bit_and-mask k j a s =
    rw (bit_and-bitwise a (power (k + j) - power k), sym (mask-power k j))
      (conjunction-mask k j a a (omega arith) s)

round_down-multiple : (k x : ℕ) → (q : ℕ) × (round_down k x ≡ q * power k)
round_down-multiple zero x = (x, omega arith)
round_down-multiple (suc k) x =
    let (q, e) = round_down-multiple k (x / 2) in
    (
      q,
      let doubled : q * power k * 2 ≡ q * (power k * 2) = grind arith in
          ap (λ y. y * 2) e ∙ doubled,
    )

round_down-bounds : (k x : ℕ) → (round_down k x ≤ x) × (x < round_down k x + power k)
round_down-bounds zero x = (omega arith, omega arith)
round_down-bounds (suc k) x =
    let (low, high) = round_down-bounds k (x / 2) in (omega arith, omega arith)

offset_of-bounds :
    (k j : ℕ)
    → suc k + j ≡ 64
    → (16 ≤ offset_of (power k))
      × (offset_of (power k) < 16 + power k)
      × ((q : ℕ) × (offset_of (power k) ≡ q * power k))
unfolding offset_of
offset_of-bounds k j width =
    let p = power k in
    let whole : power (k + suc j) ≡ 2 ^ 64 =
      let same : k + suc j ≡ 64 = omega arith in ap power same in
    let twice : power (k + suc j) ≡ power (k + j) * 2 =
      let same : k + suc j ≡ suc (k + j) = omega arith in ap power same in
    let positive = power-positive k in
    let low = power-le k j in
    let sum : minus_one ((16 + p) % 2 ^ 64) ≡ 15 + p = omega (arith, whole, twice, low) in
    let top : complement (minus_one p) ≡ power (k + suc j) - p =
      omega (arith, whole, twice, low, positive) in
    let at : offset_of p ≡ round_down k (15 + p) =
      rw (sum, top) (bit_and-mask k (suc j) (15 + p) (omega (arith, whole, twice, low))) in
    let (under, over) = round_down-bounds k (15 + p) in
    rw at (omega arith, omega arith, round_down-multiple k (15 + p))

-- For a TLS segment whose alignment is a power of two, whose image is no longer than the segment,
-- and whose size fits the address space: in a thread's block, the data stand behind the 16 bytes
-- of the saved layout, at a multiple of the alignment, with less than the alignment unused
-- between them; the block has room for the whole segment, and for nothing behind it.
pub inner_of-bounds :
    (k j : ℕ) (phdr : Phdr) (base key : ℕ)
    → suc k + j ≡ 64
    → phdr.p_align ≡ power k
    → phdr.p_filesz ≤ phdr.p_memsz
    → 16 + phdr.p_align + phdr.p_memsz < 2 ^ 64
    → let inner = inner_of phdr base key in
      (16 ≤ inner.offset)
      × (inner.offset < 16 + phdr.p_align)
      × ((q : ℕ) × (inner.offset ≡ q * phdr.p_align))
      × (inner.offset + inner.len ≤ inner.layout.size)
      × (inner.layout.size ≡ inner.offset + phdr.p_memsz)
unfolding inner_of
inner_of-bounds k j phdr base key width aligned short fits =
    let (behind, near, multiple) = offset_of-bounds k j width in
    let room : 16 + power k + phdr.p_memsz < 2 ^ 64 = omega (arith, aligned, fits) in
    rw aligned (behind, near, multiple, omega arith, omega arith)
