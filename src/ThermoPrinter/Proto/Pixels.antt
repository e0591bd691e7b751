-- ===== src/ThermoPrinter/Proto/Pixels.antt =====
-- Rows as pixels: what a packed row shows, most significant bit first, and what the printer shows
-- of a plain row, least significant bit first.
use cdc_badge_plugins.Base.{
  ℕ, zero, suc, ◌+◌, ◌-◌, ◌*◌, ◌/◌, ◌^◌, ◌<◌, ◌≡◌, refl, ap, bit_and, ◌>>>◌,
}
use mathlib.Core.Path.{ap₂}
use cdc_badge_plugins.Base.{
  Bool, true, false, not, ◌==◌, List, [], ◌∷◌, ◌++◌, map, replicate, length, All, arith,
}
use cdc_badge_plugins.Base.Bits.{all_below, all_below_sound, bit_and-7}
use cdc_badge_plugins.ThermoPrinter.Proto.{pixel, reverse_bits, bool_eq}
use cdc_badge_plugins.ThermoPrinter.Proto.Bytes.{bit, reverse_bits_lem}
use cdc_badge_plugins.ThermoPrinter.Proto.Runs.{pixels}

abbrev pub on : ℕ → ℕ → Bool
on b i = bit b i == 1

abbrev pub msb_first : ℕ → List Bool
msb_first b = on b 7 ∷ on b 6 ∷ on b 5 ∷ on b 4 ∷ on b 3 ∷ on b 2 ∷ on b 1 ∷ on b 0 ∷ []

abbrev pub lsb_first : ℕ → List Bool
lsb_first b = on b 0 ∷ on b 1 ∷ on b 2 ∷ on b 3 ∷ on b 4 ∷ on b 5 ∷ on b 6 ∷ on b 7 ∷ []

-- The pixels of a badge row and of a printer row, left to right.
abbrev pub badge_row : List ℕ → List Bool
badge_row [] = []
badge_row (b ∷ row) = msb_first b ++ badge_row row

abbrev pub printer_row : List ℕ → List Bool
printer_row [] = []
printer_row (b ∷ row) = lsb_first b ++ printer_row row

abbrev pub IsBytes : List ℕ → Type 0
IsBytes row = All (λ b. b < 2 ^ 8) row

lsb_first-reverse_bits : (b : ℕ) → b < 2 ^ 8 → lsb_first (reverse_bits b) ≡ msb_first b
lsb_first-reverse_bits b h = ground (
  arith,
  reverse_bits_lem b 0 h (omega arith),
  reverse_bits_lem b 1 h (omega arith),
  reverse_bits_lem b 2 h (omega arith),
  reverse_bits_lem b 3 h (omega arith),
  reverse_bits_lem b 4 h (omega arith),
  reverse_bits_lem b 5 h (omega arith),
  reverse_bits_lem b 6 h (omega arith),
  reverse_bits_lem b 7 h (omega arith),
)

pub printer_row-reverse_bits :
    (row : List ℕ) → IsBytes row → printer_row (map reverse_bits row) ≡ badge_row row
printer_row-reverse_bits [] h = refl
printer_row-reverse_bits (b ∷ row) h =
    ap₂ ◌++◌ (lsb_first-reverse_bits b h.0) (printer_row-reverse_bits row h.1)

pub printer_row-append :
    (xs ys : List ℕ) → printer_row (xs ++ ys) ≡ printer_row xs ++ printer_row ys
printer_row-append [] ys = refl
printer_row-append (b ∷ xs) ys = ap (λ l. lsb_first b ++ l) (printer_row-append xs ys)

pub printer_row_blank : (n : ℕ) → printer_row (replicate n 0) ≡ replicate (n * 8) false
printer_row_blank zero = refl
printer_row_blank (suc n) =
    let e : suc n * 8 ≡ suc (suc (suc (suc (suc (suc (suc (suc (n * 8)))))))) = omega arith in
    rw (e, printer_row_blank n) refl

tests_bit : ℕ → ℕ → Bool
tests_bit b j = bool_eq (not (bit_and b (0x80 >>> j) == 0)) (on b (7 - j))

bit_table : all_below 256 (λ b. all_below 8 (tests_bit b)) ≡ true
unfolding all_below tests_bit
bit_table = refl

test_bit : (b j : ℕ) → b < 2 ^ 8 → j < 8 → not (bit_and b (0x80 >>> j) == 0) ≡ on b (7 - j)
unfolding tests_bit
test_bit b j hb hj =
    let row = all_below_sound 256 (λ b. all_below 8 (tests_bit b)) b bit_table hb in
    ground (arith, all_below_sound 8 (tests_bit b) j row hj)

pixel_shift : (b : ℕ) (row : List ℕ) (x : ℕ) → pixel (b ∷ row) (x + 8) ≡ pixel row x
unfolding pixel
pixel_shift b row x =
    let byte : (x + 8) / 8 ≡ suc (x / 8) = omega arith in
    let place : bit_and (x + 8) 7 ≡ bit_and x 7 = omega (arith, bit_and-7 x, bit_and-7 (x + 8)) in
    rw (byte, place) refl

pixels_shift : (b : ℕ) (row : List ℕ) (n x : ℕ) → pixels (b ∷ row) n (x + 8) ≡ pixels row n x
unfolding pixels
pixels_shift b row zero x = refl
pixels_shift b row (suc n) x =
    let e : x + 8 + 1 ≡ x + 1 + 8 = omega arith in
    rw (pixel_shift b row x, e, pixels_shift b row n (x + 1)) refl

pub pixels-badge_row : (row : List ℕ) → IsBytes row → pixels row (length row * 8) 0 ≡ badge_row row
unfolding pixels pixel
pixels-badge_row [] h = refl
pixels-badge_row (b ∷ row) h =
    let m = length row * 8 in
    let e : suc (length row) * 8 ≡ suc (suc (suc (suc (suc (suc (suc (suc m))))))) = omega arith in
    rw e (
      ground (
        arith,
        test_bit b 0 h.0 (omega arith),
        test_bit b 1 h.0 (omega arith),
        test_bit b 2 h.0 (omega arith),
        test_bit b 3 h.0 (omega arith),
        test_bit b 4 h.0 (omega arith),
        test_bit b 5 h.0 (omega arith),
        test_bit b 6 h.0 (omega arith),
        test_bit b 7 h.0 (omega arith),
        pixels_shift b row m 0,
        pixels-badge_row row h.1,
      ))
