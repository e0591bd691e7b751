-- ===== src/Base/Word.antt =====
-- Casts to fixed widths, shifts, and the little-endian byte order.
use Prim.Native.Nat.{ℕ, ◌+◌, ◌*◌, ◌/◌, ◌%◌, ◌^◌, ◌<◌}
use mathlib.Core.Path.{◌≡◌}
use mathlib.Core.List.{List, [], ◌∷◌}
use native.Mathlib.Omega.{arith}

abbrev pub u8 : ℕ → ℕ
u8 n = n % 2 ^ 8

abbrev pub u16 : ℕ → ℕ
u16 n = n % 2 ^ 16

abbrev pub u32 : ℕ → ℕ
u32 n = n % 2 ^ 32

infixl 75 ◌<<<◌ ◌>>>◌
abbrev pub ◌<<<◌ : ℕ → ℕ → ℕ
x <<< k = x * 2 ^ k

abbrev pub ◌>>>◌ : ℕ → ℕ → ℕ
x >>> k = x / 2 ^ k

-- `to_le_bytes` and `from_le_bytes` of u16 and u32.
abbrev pub u16_to_le : ℕ → List ℕ
u16_to_le n = n % 256 ∷ n / 256 % 256 ∷ []

abbrev pub u32_to_le : ℕ → List ℕ
u32_to_le n = n % 256 ∷ n / 256 % 256 ∷ n / 65536 % 256 ∷ n / 16777216 % 256 ∷ []

abbrev pub u16_from_le : ℕ → ℕ → ℕ
u16_from_le a b = a + b * 256

abbrev pub u32_from_le : ℕ → ℕ → ℕ → ℕ → ℕ
u32_from_le a b c d = a + b * 256 + c * 65536 + d * 16777216

pub u16_from_le-to_le : (n : ℕ) → n < 2 ^ 16 → u16_from_le (n % 256) (n / 256 % 256) ≡ n
u16_from_le-to_le n h = omega arith

pub u32_from_le-to_le :
    (n : ℕ)
    → n < 2 ^ 32
    → u32_from_le (n % 256) (n / 256 % 256) (n / 65536 % 256) (n / 16777216 % 256) ≡ n
u32_from_le-to_le n h = omega arith
