-- ===== src/Common/Int.antt =====
-- Signed counters, as far as they are used: a number taken away, and one added.
use Prim.Native.Nat.{ℕ, zero, suc, ◌+◌, ◌-◌}
use rtpmidid.Common.Tests.{leb, if◌then◌else◌}

-- `negsuc n` is -(n + 1).
pub data ℤ : Type 0 where
  pos : ℕ → ℤ
  negsuc : ℕ → ℤ

-- a - b, as an integer.
abbrev pub sub_ℕ : ℕ → ℕ → ℤ
sub_ℕ a b = if leb b a then pos (a - b) else negsuc (b - a - 1)

infixl 65 ◌-ℤ◌
unfoldable pub ◌-ℤ◌ : ℤ → ℕ → ℤ
◌-ℤ◌ (pos a) n = sub_ℕ a n
◌-ℤ◌ (negsuc a) n = negsuc (a + n)

abbrev pub increment : ℤ → ℤ
increment (pos n) = pos (suc n)
increment (negsuc zero) = pos 0
increment (negsuc (suc n)) = negsuc n
