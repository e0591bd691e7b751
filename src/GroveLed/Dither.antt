-- ===== src/GroveLed/Dither.antt =====
-- Dithering in time: `dim_dither` of plugins/grove_led/src/lib.rs.
use cdc_badge_plugins.Base.{ℕ, zero, suc, ◌+◌, ◌*◌, ◌/◌, ◌≤◌, ◌<◌, bit_and, ◌≡◌, arith}
use cdc_badge_plugins.Base.Bits.{bit_and-255}
use cdc_badge_plugins.GroveLed.Render.{dim_dither}

-- A frame shows the target's high byte or one more, and owes what it did not show.
pub dim_dither_lem :
    (target acc : ℕ)
    → target < 65280
    → acc < 256
    → ((dim_dither target acc).0 * 256 + (dim_dither target acc).1 ≡ target + acc)
      × ((dim_dither target acc).1 < 256)
unfolding dim_dither
dim_dither_lem target acc h k =
    ground (arith, bit_and-255 target, bit_and-255 (acc + bit_and target 255))

-- The values of a number of frames, the sum of them, and what is owed then.
unfoldable pub dim_dithers : ℕ → ℕ → ℕ → ℕ × ℕ
dim_dithers zero target acc = (0, acc)
dim_dithers (suc n) target acc =
    let (value, acc') = dim_dither target acc in
    let (sum, last) = dim_dithers n target acc' in (value + sum, last)

-- In any number of frames the values add up to the exact target, but for less than one step that is
-- still owed: nothing is lost to rounding. The target leaves room for one step more.
pub dim_dithers-sum :
    (n target acc : ℕ)
    → target < 65280
    → acc < 256
    → ((dim_dithers n target acc).0 * 256 + (dim_dithers n target acc).1 ≡ n * target + acc)
      × ((dim_dithers n target acc).1 < 256)
unfolding dim_dithers
dim_dithers-sum zero target acc h k = (omega arith, k)
dim_dithers-sum (suc n) target acc h k =
    let (step, small) = dim_dither_lem target acc h k in
    let (rest, last) = dim_dithers-sum n target (dim_dither target acc).1 h small in
    (omega (arith, step, rest), last)

-- A value is at most one step above the target, and nothing where the target is nothing.
pub dim_dither_bounds :
    (target acc : ℕ)
    → target < 65280
    → acc < 256
    → ((dim_dither target acc).0 ≤ target / 256 + 1)
      × ((dim_dither target acc).1 < 256)
      × (target ≡ 0 → (dim_dither target acc).0 ≡ 0)
dim_dither_bounds target acc h k =
    let (step, small) = dim_dither_lem target acc h k in
    (omega (arith, step, small), small, λ z. omega (arith, step, small, z))
