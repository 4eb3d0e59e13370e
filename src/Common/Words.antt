-- ===== src/Common/Words.antt =====
-- Bytes and words of 16, 32 and 64 bits, most significant byte first.
use Prim.Native.Nat.{ℕ, ◌+◌, ◌*◌, ◌/◌, ◌%◌, ◌^◌, ◌<◌}
use mathlib.Core.Path.{◌≡◌}
use mathlib.Core.List.{List, [], ◌∷◌}
use native.Mathlib.Omega.{arith}

abbrev pub IsByte : ℕ → Type 0
IsByte b = b < 256

abbrev pub IsU16 : ℕ → Type 0
IsU16 n = n < 2 ^ 16

abbrev pub IsU32 : ℕ → Type 0
IsU32 n = n < 2 ^ 32

abbrev pub IsU64 : ℕ → Type 0
IsU64 n = n < 2 ^ 64

abbrev pub u16_bytes : ℕ → List ℕ
u16_bytes n = (n / 2 ^ 8 % 256) ∷ (n % 256) ∷ []

abbrev pub u32_bytes : ℕ → List ℕ
u32_bytes n = (n / 2 ^ 24 % 256) ∷ (n / 2 ^ 16 % 256) ∷ (n / 2 ^ 8 % 256) ∷ (n % 256) ∷ []

abbrev pub u64_bytes : ℕ → List ℕ
u64_bytes n =
    (n / 2 ^ 56 % 256)
    ∷ (n / 2 ^ 48 % 256)
    ∷ (n / 2 ^ 40 % 256)
    ∷ (n / 2 ^ 32 % 256)
    ∷ (n / 2 ^ 24 % 256)
    ∷ (n / 2 ^ 16 % 256)
    ∷ (n / 2 ^ 8 % 256)
    ∷ (n % 256)
    ∷ []

abbrev pub from_u16 : ℕ → ℕ → ℕ
from_u16 a b = (a * 2 ^ 8 + b) % 2 ^ 16

abbrev pub from_u32 : ℕ → ℕ → ℕ → ℕ → ℕ
from_u32 a b c d = (a * 2 ^ 24 + b * 2 ^ 16 + c * 2 ^ 8 + d) % 2 ^ 32

abbrev pub from_u64 : ℕ → ℕ → ℕ → ℕ → ℕ → ℕ → ℕ → ℕ → ℕ
from_u64 a b c d e f g h =
    (a * 2 ^ 56 + b * 2 ^ 48 + c * 2 ^ 40 + d * 2 ^ 32 + e * 2 ^ 24 + f * 2 ^ 16 + g * 2 ^ 8 + h)
    % 2 ^ 64

pub from_u16_lem : (n : ℕ) → IsU16 n → from_u16 (n / 2 ^ 8 % 256) (n % 256) ≡ n
from_u16_lem n h = omega arith

pub from_u32_lem :
    (n : ℕ)
    → IsU32 n
    → from_u32 (n / 2 ^ 24 % 256) (n / 2 ^ 16 % 256) (n / 2 ^ 8 % 256) (n % 256) ≡ n
from_u32_lem n h = omega arith

pub from_u64_lem :
    (n : ℕ)
    → IsU64 n
    → from_u64
        (n / 2 ^ 56 % 256)
        (n / 2 ^ 48 % 256)
        (n / 2 ^ 40 % 256)
        (n / 2 ^ 32 % 256)
        (n / 2 ^ 24 % 256)
        (n / 2 ^ 16 % 256)
        (n / 2 ^ 8 % 256)
        (n % 256)
      ≡ n
from_u64_lem n h = omega arith
