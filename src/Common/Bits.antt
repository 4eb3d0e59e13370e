-- ===== src/Common/Bits.antt =====
-- Single bits of a number, as the masks of the source read and write them.
use Prim.Native.Nat.{ℕ, ◌+◌, ◌-◌, ◌*◌, ◌/◌, ◌%◌, ◌^◌}
use mathlib.Core.Bool.{Bool}
use rtpmidid.Common.Tests.{◌==◌, if◌then◌else◌}

-- `(x & (1 << k)) != 0`
abbrev pub test_bit : ℕ → ℕ → Bool
test_bit x k = x / 2 ^ k % 2 == 1

-- `x | (1 << k)`
abbrev pub set_bit : ℕ → ℕ → ℕ
set_bit x k = if test_bit x k then x else x + 2 ^ k

-- `x & ~(1 << k)`
abbrev pub clear_bit : ℕ → ℕ → ℕ
clear_bit x k = if test_bit x k then x - 2 ^ k else x

-- `b & 0xF0`, of a byte
abbrev pub high_nibble : ℕ → ℕ
high_nibble b = b / 16 % 16 * 16
