-- ===== src/Flags/Laws.antt =====
-- What a test of one flag says of a difference of flags.
use dlopen_rs.Base.{◌-◌, ◌*◌, ◌^◌, ◌<◌, ◌≡◌, ap, ◌∙◌, not, ◌&&◌, ◌==◌, arith}
use Prim.Native.Nat.{min}
use dlopen_rs.Flags.{OpenFlags, contains, difference, rtld_global}
use dlopen_rs.Flags.Bits.{bit, bit-bit_and, bit_and-power, bit-lt}

contains_global : (f : OpenFlags) → contains f rtld_global ≡ (bit 8 f * 256 == 256)
unfolding contains
contains_global f = rw (bit_and-power 8 f)

-- `flags.difference(old).contains(RTLD_GLOBAL)` holds exactly where the new flags ask for
-- RTLD_GLOBAL and the old ones do not have it.
pub contains-difference_global :
    (f g : OpenFlags)
    → g < 2 ^ 32
    → contains (difference f g) rtld_global
      ≡ (contains f rtld_global && not (contains g rtld_global))
contains-difference_global f g h =
    let flipped : bit 8 (2 ^ 32 - 1 - g) ≡ 1 - bit 8 g = omega arith in
    let digit : bit 8 (difference f g) ≡ min (bit 8 f) (1 - bit 8 g) =
      unfold difference in (bit-bit_and 8 f (2 ^ 32 - 1 - g) ∙ ap (min (bit 8 f)) flipped) in
    rw (contains_global (difference f g), contains_global f, contains_global g, digit)
      (ground (arith, bit-lt 8 f, bit-lt 8 g))
