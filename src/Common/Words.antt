-- ===== src/Common/Words.antt =====
-- C's integer types, as bit patterns below a power of two: `-` on ℕ stops at 0, so a subtraction
-- adds the modulus first. An `int` is its 32-bit pattern, and -1 is the pattern of all ones.
use Prim.Native.Nat.{ℕ, ◌+◌, ◌-◌, ◌%◌, ◌^◌}
use mathlib.Core.Bool.{Bool}
use yamux.Common.Tests.{ltb}

abbrev pub u16 : ℕ → ℕ
u16 n = n % 0x10000

abbrev pub u32 : ℕ → ℕ
u32 n = n % 0x100000000

abbrev pub add32 : ℕ → ℕ → ℕ
add32 a b = (a + b) % 0x100000000

abbrev pub sub32 : ℕ → ℕ → ℕ
sub32 a b = (a + 0x100000000 - b) % 0x100000000

-- `size_t`
abbrev pub add64 : ℕ → ℕ → ℕ
add64 a b = (a + b) % 2 ^ 64

abbrev pub sub64 : ℕ → ℕ → ℕ
sub64 a b = (a + 2 ^ 64 - b) % 2 ^ 64

-- `(int)n`
abbrev pub int_of : ℕ → ℕ
int_of n = n % 0x100000000

abbrev pub minus_one : ℕ
minus_one = 0xffffffff

-- a < b on two `int`s: adding 2 ^ 31 to the patterns turns the signed order into the plain one.
abbrev pub int_lt : ℕ → ℕ → Bool
int_lt a b = ltb ((a + 0x80000000) % 0x100000000) ((b + 0x80000000) % 0x100000000)
