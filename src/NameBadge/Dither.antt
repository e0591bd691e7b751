-- ===== src/NameBadge/Dither.antt =====
-- The rasters of the effects, plugins/name_badge/src/dither.rs. `!` of a byte is 255 less the byte.
-- The loops over rows and columns run on the number that is left.
pub mod Bits
pub mod Pixels
pub mod Reveal
mod Tests
use package.cdc_badge_plugins.Base.{
  ℕ, zero, suc, ◌+◌, ◌-◌, ◌*◌, ◌/◌, ◌%◌, bit_and, ltb, leb, ◌==◌, if◌then◌else◌, Bool, List, [],
  ◌∷◌, map, length, get_or, set, ◌>>>◌,
}
use package.cdc_badge_plugins.NameBadge.Rng.{XorShift32, next_u32}

abbrev pub bayer_4x4 : List (List ℕ)
bayer_4x4 =
    (0 ∷ 8 ∷ 2 ∷ 10 ∷ [])
    ∷ (12 ∷ 4 ∷ 14 ∷ 6 ∷ [])
    ∷ (3 ∷ 11 ∷ 1 ∷ 9 ∷ [])
    ∷ (15 ∷ 7 ∷ 13 ∷ 5 ∷ [])
    ∷ []

abbrev pub level_max : ℕ
level_max = 16

unfoldable pub threshold : ℕ → ℕ → ℕ
threshold x y = get_or (get_or bayer_4x4 (y % 4) []) (x % 4) 0

-- `out[i] &= !(0x80 >> k)`.
unfoldable pub clear_bit : List ℕ → ℕ → ℕ → List ℕ
clear_bit out i k = set out i (bit_and (get_or out i 0) (255 - 0x80 >>> k))

-- The columns of row `y` that are left, from `x` on.
unfoldable pub columns : ℕ → ℕ → ℕ → ℕ → ℕ → List ℕ → List ℕ
columns zero stride level y x out = out
columns (suc n) stride level y x out =
    let out' =
      if ltb (threshold x y) level then out else clear_bit out (y * stride + x / 8) (x % 8) in
    columns n stride level y (suc x) out'

-- The rows that are left, from `y` on.
unfoldable pub rows : ℕ → ℕ → ℕ → ℕ → List ℕ → List ℕ
rows zero stride level y out = out
rows (suc n) stride level y out =
    rows n stride level (suc y) (columns (stride * 8) stride level y 0 out)

-- `raster.len().checked_div(stride).unwrap_or(0)`.
unfoldable pub row_count : List ℕ → ℕ → ℕ
row_count raster stride = if stride == 0 then 0 else length raster / stride

unfoldable pub apply_bayer : List ℕ → ℕ → ℕ → List ℕ
apply_bayer raster stride level =
    if leb level_max level then raster else rows (row_count raster stride) stride level 0 raster

unfoldable pub invert : List ℕ → List ℕ
invert raster = map (λ b. 255 - b) raster

unfoldable pub noise_bytes : ℕ → XorShift32 → List ℕ × XorShift32
noise_bytes zero rng = ([], rng)
noise_bytes (suc n) rng =
    let (v, rng') = next_u32 rng in
    let (out, last) = noise_bytes n rng' in (bit_and v 0xFF % 256 ∷ out, last)

unfoldable pub noise_band : XorShift32 → ℕ → ℕ → List ℕ × XorShift32
noise_band rng w n = noise_bytes ((w + 7) / 8 * n) rng
