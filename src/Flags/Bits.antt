-- ===== src/Flags/Bits.antt =====
-- The binary digits of `bit_and`.
use Prim.Native.Nat.{bit_and, bit_and-bitwise, digits, min}
use dlopen_rs.Base.{ℕ, zero, suc, ◌+◌, ◌*◌, ◌/◌, ◌%◌, ◌≤◌, ◌<◌, ◌≡◌, refl, arith}

-- digit `k` of `x`, the lowest being digit 0
abbrev pub bit : ℕ → ℕ → ℕ
bit zero x = x % 2
bit (suc k) x = bit k (x / 2)

abbrev pub power : ℕ → ℕ
power zero = 1
power (suc k) = power k * 2

abbrev pub conjunction : ℕ → ℕ → ℕ → ℕ
conjunction n a b = digits (λ _. zero) min n a b

pub bit-zero : (k : ℕ) → bit k 0 ≡ 0
bit-zero zero = refl
bit-zero (suc k) = bit-zero k

bit-conjunction : (k n a b : ℕ) → a ≤ n → bit k (conjunction n a b) ≡ min (bit k a) (bit k b)
bit-conjunction k zero zero b h = omega (arith, bit-zero k)
bit-conjunction k zero (suc a) b h = absurd (omega arith)
bit-conjunction k (suc n) zero b h = omega (arith, bit-zero k)
bit-conjunction zero (suc n) (suc a) b h = omega arith
bit-conjunction (suc k) (suc n) (suc a) b h =
    let halved : (conjunction n (suc a / 2) (b / 2) * 2 + min (suc a % 2) (b % 2)) / 2
        ≡ conjunction n (suc a / 2) (b / 2) =
      omega arith in
    rw halved (bit-conjunction k n (suc a / 2) (b / 2) (omega arith))

pub bit-bit_and : (k a b : ℕ) → bit k (bit_and a b) ≡ min (bit k a) (bit k b)
bit-bit_and k a b = rw (bit_and-bitwise a b) (bit-conjunction k a a b (omega arith))

conjunction-zero : (n a : ℕ) → conjunction n a 0 ≡ 0
conjunction-zero zero a = refl
conjunction-zero (suc n) zero = refl
conjunction-zero (suc n) (suc a) = omega (arith, conjunction-zero n (suc a / 2))

conjunction-power : (k n a : ℕ) → a ≤ n → conjunction n a (power k) ≡ bit k a * power k
conjunction-power k zero zero h = rw (bit-zero k) (omega arith)
conjunction-power k zero (suc a) h = absurd (omega arith)
conjunction-power k (suc n) zero h = rw (bit-zero k) (omega arith)
conjunction-power zero (suc n) (suc a) h = omega (arith, conjunction-zero n (suc a / 2))
conjunction-power (suc k) (suc n) (suc a) h =
    let halved : power k * 2 / 2 ≡ power k = omega arith in
    let rest : conjunction n (suc a / 2) (power k * 2 / 2) ≡ bit k (suc a / 2) * power k =
      rw halved (conjunction-power k n (suc a / 2) (omega arith)) in
    omega (arith, rest)

-- A mask of one bit picks that digit.
pub bit_and-power : (k a : ℕ) → bit_and a (power k) ≡ bit k a * power k
bit_and-power k a = rw (bit_and-bitwise a (power k)) (conjunction-power k a a (omega arith))

pub bit-lt : (k a : ℕ) → bit k a < 2
bit-lt zero a = omega arith
bit-lt (suc k) a = bit-lt k (a / 2)
