-- ===== src/NameBadge/Rng/Tests.antt =====
-- A run of the generator, and the theorem at bounds in the wrong order.
use cdc_badge_plugins.Base.{◌≡◌, refl, ◌⊎◌, arith}
use cdc_badge_plugins.Base.Int.{ℤ, pos, negsuc}
use cdc_badge_plugins.Base.Xorshift.{xorshift}
use cdc_badge_plugins.NameBadge.Rng.{XorShift32, seeded, next_u32, below, to_i16, range_i16}
use cdc_badge_plugins.NameBadge.Rng.Ranges.{Between, IsLive, range_i16-Between}

abbrev one : XorShift32
one = record { state = 1 }

run_range : XorShift32 → ℤ → ℤ → ℤ × XorShift32
unfolding range_i16 below next_u32 to_i16 xorshift seeded
run_range r min max = range_i16 r min max

whole_range : (range_i16 one (negsuc 32767) (pos 32767)).0 ≡ negsuc 24542
unfolding run_range
whole_range = refl

range_i16-Between_example :
    (Between (pos 5) (range_i16 one (pos 5) (negsuc 9)).0 (negsuc 9)
      ⊎ Between (negsuc 9) (range_i16 one (pos 5) (negsuc 9)).0 (pos 5))
    × IsLive (range_i16 one (pos 5) (negsuc 9)).1
range_i16-Between_example =
    range_i16-Between one (pos 5) (negsuc 9) (omega arith, omega arith) (omega arith, omega arith)
      (omega arith, omega arith)
