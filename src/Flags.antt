-- ===== src/Flags.antt =====
-- `OpenFlags` of src/lib.rs: a `u32` of flag bits with the set operations of `bitflags`.
pub mod Bits
pub mod Laws
use Prim.Native.Nat.{bit_and}
use dlopen_rs.Base.{ℕ, ◌-◌, ◌^◌, Bool, ◌==◌}

-- The bits; `from_bits_retain` keeps unknown ones.
abbrev pub OpenFlags : Type 0
OpenFlags = ℕ

abbrev pub rtld_local : OpenFlags
rtld_local = 0

abbrev pub rtld_lazy : OpenFlags
rtld_lazy = 1

abbrev pub rtld_now : OpenFlags
rtld_now = 2

abbrev pub rtld_noload : OpenFlags
rtld_noload = 4

abbrev pub rtld_deepbind : OpenFlags
rtld_deepbind = 8

abbrev pub rtld_global : OpenFlags
rtld_global = 256

abbrev pub rtld_nodelete : OpenFlags
rtld_nodelete = 4096

abbrev pub custom_not_register : OpenFlags
custom_not_register = 1024

-- `flags.contains(other)`: all bits of `other` are set
unfoldable pub contains : OpenFlags → OpenFlags → Bool
contains flags other = bit_and flags other == other

-- `flags.difference(other)`, which is `flags & !other`
unfoldable pub difference : OpenFlags → OpenFlags → OpenFlags
difference flags other = bit_and flags (2 ^ 32 - 1 - other)
