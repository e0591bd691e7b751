-- ===== src/ThermoPrinter/Proto/Bytes.antt =====
-- Single bytes and sizes: the bit reversal, the range of the checksum, the scale of a QR code.
use cdc_badge_plugins.Base.{
  ℕ, min, max, zero, suc, ◌+◌, ◌-◌, ◌*◌, ◌/◌, ◌%◌, ◌^◌, ◌≤◌, ◌<◌, ◌≡◌, refl, ◌⊎◌, bit_xor,
}
use cdc_badge_plugins.Base.{Bool, true, ◌&&◌, ◌==◌, ==_iff, List, [], ◌∷◌, All, arith, u8, ◌<<<◌}
use native.Mathlib.Nat.{mod-lt, div-add-mod', le-div_iff_mul-le}
use cdc_badge_plugins.Base.Bits.{all_below, all_below_sound, bit_xor-lt}
use cdc_badge_plugins.ThermoPrinter.Proto.{
  reverse_bits, crc8_rounds, crc8_from, crc8, qr_scale, width_px,
}

abbrev pub bit : ℕ → ℕ → ℕ
bit b i = b / 2 ^ i % 2

reverses : ℕ → Bool
reverses b =
    reverse_bits (reverse_bits b) == b && all_below 8 (λ i. bit (reverse_bits b) (7 - i) == bit b i)

reverses_table : all_below 256 reverses ≡ true
unfolding all_below reverses reverse_bits
reverses_table = refl

-- For every byte, bit 7 - i of the result is bit i of the input, and reversing twice gives it back.
pub reverse_bits_lem :
    (b i : ℕ)
    → b < 2 ^ 8
    → i < 8
    → (bit (reverse_bits b) (7 - i) ≡ bit b i) × (reverse_bits (reverse_bits b) ≡ b)
unfolding reverses
reverse_bits_lem b i hb hi =
    let row = all_below_sound 256 reverses b reverses_table hb in
    let bits : all_below 8 (λ i. bit (reverse_bits b) (7 - i) == bit b i) ≡ true = ground arith in
    let at_i = all_below_sound 8 (λ i. bit (reverse_bits b) (7 - i) == bit b i) i bits hi in
    ((==_iff _ _).0 at_i, ground arith)

crc8_rounds-lt : (n crc : ℕ) → crc < 2 ^ 8 → crc8_rounds n crc < 2 ^ 8
unfolding crc8_rounds
crc8_rounds-lt zero crc h = h
crc8_rounds-lt (suc n) crc h = crc8_rounds-lt n _ (ground (arith, bit_xor-lt 8 (u8 (crc <<< 1)) 7))

crc8_from-lt :
    (crc : ℕ) (bytes : List ℕ)
    → crc < 2 ^ 8
    → All (λ b. b < 2 ^ 8) bytes
    → crc8_from crc bytes < 2 ^ 8
unfolding crc8_from
crc8_from-lt crc [] h a = h
crc8_from-lt crc (b ∷ bytes) h a =
    crc8_from-lt (crc8_rounds 8 (bit_xor crc b)) bytes
      (crc8_rounds-lt 8 _ (bit_xor-lt 8 crc b h a.0)) a.1

-- The checksum of bytes is a byte.
pub crc8-lt : (bytes : List ℕ) → All (λ b. b < 2 ^ 8) bytes → crc8 bytes < 2 ^ 8
unfolding crc8
crc8-lt bytes a = crc8_from-lt 0 bytes (omega arith) a

scale_below : (m q r : ℕ) → q * m + r ≡ 384 → 1 ≤ q → min (max q 1) 12 * m ≤ 384
scale_below m q r e h = grind arith

scale_above :
    (m q r : ℕ)
    → q * m + r ≡ 384
    → r < m
    → (min (max q 1) 12 ≡ 12) ⊎ (384 < (min (max q 1) 12 + 1) * m)
scale_above m q r e h = grind arith

-- The scale lies between 1 and 12. For a code of at most 380 modules it is such that the code fits
-- the paper with its quiet zone, and it is 12 or the code does not fit at the next scale.
pub qr_scale_fits :
    (modules : ℕ)
    → modules ≤ 380
    → ((1 ≤ qr_scale modules) × (qr_scale modules ≤ 12))
      × (qr_scale modules * (modules + 4) ≤ width_px)
      × ((qr_scale modules ≡ 12) ⊎ (width_px < (qr_scale modules + 1) * (modules + 4)))
unfolding qr_scale
qr_scale_fits modules h =
    let m = modules + 4 in
    let parts = div-add-mod' width_px m in
    (
      omega arith,
      scale_below m (width_px / m) (width_px % m) parts
          ((le-div_iff_mul-le (omega arith)).1 (omega arith)),
      scale_above m (width_px / m) (width_px % m) parts (mod-lt width_px (omega arith)),
    )
