-- ===== src/Snake/Speed.antt =====
-- The speed levels: any stored level is clamped into the table, whose intervals fall.
use cdc_badge_plugins.Base.{
  ℕ, ◌-◌, ◌≤◌, ◌<◌, ◌≡◌, refl, Bool, true, ◌&&◌, ◌||◌, leb, ltb, get_or, arith,
}
use cdc_badge_plugins.Base.Bits.{all_below, all_below_sound}
use cdc_badge_plugins.Snake.{clamp_speed_level, step_interval_ms, step_interval_table, speed_levels}

interval : ℕ → ℕ
interval i = get_or step_interval_table i 0

pair_falls : ℕ → ℕ → Bool
pair_falls i j = leb j i || ltb (interval j) (interval i)

table_falls : all_below 5 (λ i. all_below 5 (pair_falls i)) ≡ true
unfolding all_below pair_falls interval
table_falls = refl

table_range : all_below 5 (λ i. leb 450 (interval i) && leb (interval i) 1600) ≡ true
unfolding all_below interval
table_range = refl

interval_falls : (i j : ℕ) → i < j → j < 5 → interval j < interval i
unfolding pair_falls
interval_falls i j l r =
    let row = all_below_sound 5 (λ i. all_below 5 (pair_falls i)) i table_falls (omega arith) in
    ground (arith, all_below_sound 5 (pair_falls i) j row r)

interval_range : (i : ℕ) → i < 5 → (450 ≤ interval i) × (interval i ≤ 1600)
interval_range i h =
    ground (
      arith,
      all_below_sound 5 (λ i. leb 450 (interval i) && leb (interval i) 1600) i table_range h,
    )

-- A stored level that counts as a higher one of the five levels than another is strictly faster;
-- both count as one of the five, and their intervals lie between 450 and 1600 ms.
pub step_interval_levels :
    (a b : ℕ)
    → clamp_speed_level a < clamp_speed_level b
    → (step_interval_ms b < step_interval_ms a)
      × ((1 ≤ clamp_speed_level a) × (clamp_speed_level b ≤ speed_levels))
      × ((450 ≤ step_interval_ms b) × (step_interval_ms a ≤ 1600))
unfolding step_interval_ms interval
step_interval_levels a b l = (
  interval_falls (clamp_speed_level a - 1) (clamp_speed_level b - 1) (omega arith) (omega arith),
  omega arith,
  (
    (interval_range (clamp_speed_level b - 1) (omega arith)).0,
    (interval_range (clamp_speed_level a - 1) (omega arith)).1,
  ),
)
