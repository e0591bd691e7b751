-- ===== src/GroveLed/Valid.antt =====
-- What holds of the state of plugins/grove_led/src/lib.rs at all times.
use cdc_badge_plugins.Base.{ℕ, ◌≤◌, ◌<◌, Option, none, some, arith, u8}
use cdc_badge_plugins.GroveLed.{
  State, Stored, Action, toggle, system_sleep, system_wake, count_save, bright_save, color_save,
  speed_save, effect_select, other, stored_or, load_state, plugin_on_action, clamp, clamp_count,
  clamp_i32, set_color,
}

-- The number of pixels and the speed are in their ranges, colours and what the dithering owes are
-- bytes, and the hue is an angle.
pub record IsValid (s : State) : Type 0 where
  pub count_low : 1 ≤ s.count
  pub count_high : s.count ≤ 100
  pub speed_low : 1 ≤ s.speed
  pub speed_high : s.speed ≤ 100
  pub bright : s.brightness < 256
  pub red : s.r < 256
  pub green : s.g < 256
  pub blue : s.b < 256
  pub hue : s.rainbow_offset < 360
  pub owed_red : s.dither_acc_r < 256
  pub owed_green : s.dither_acc_g < 256
  pub owed_blue : s.dither_acc_b < 256

clamp_count_bounds : (v : ℕ) → (1 ≤ clamp_count v) × (clamp_count v ≤ 100)
unfolding clamp_count
clamp_count_bounds v = ground arith

clamp_bounds : (v : ℕ) → (1 ≤ clamp 1 100 v) × (clamp 1 100 v ≤ 100)
unfolding clamp
clamp_bounds v = ground arith

stored_or-All {ℓ} :
    (P : ℕ → Type ℓ) (o : Option ℕ) (f : ℕ → ℕ) (a : ℕ)
    → ((v : ℕ) → P (f v))
    → P a
    → P (stored_or o f a)
stored_or-All P none f a h k = k
stored_or-All P (some v) f a h k = h v

pub load_state-IsValid : (n : Stored) (s : State) → IsValid s → IsValid (load_state n s)
unfolding load_state
load_state-IsValid n s v = record {
  count_low =
      stored_or-All (λ c. 1 ≤ c) n.count _ s.count (λ c. (clamp_count_bounds (u8 c)).0) v.count_low;
  count_high =
      stored_or-All (λ c. c ≤ 100) n.count _ s.count (λ c. (clamp_count_bounds (u8 c)).1)
        v.count_high;
  speed_low =
      stored_or-All (λ c. 1 ≤ c) n.speed _ s.speed (λ c. (clamp_bounds (u8 c)).0) v.speed_low;
  speed_high =
      stored_or-All (λ c. c ≤ 100) n.speed _ s.speed (λ c. (clamp_bounds (u8 c)).1) v.speed_high;
  bright = stored_or-All (λ c. c < 256) n.bright u8 s.brightness (λ c. omega arith) v.bright;
  red = stored_or-All (λ c. c < 256) n.color_r u8 s.r (λ c. omega arith) v.red;
  green = stored_or-All (λ c. c < 256) n.color_g u8 s.g (λ c. omega arith) v.green;
  blue = stored_or-All (λ c. c < 256) n.color_b u8 s.b (λ c. omega arith) v.blue;
  hue = v.hue;
  owed_red = v.owed_red;
  owed_green = v.owed_green;
  owed_blue = v.owed_blue;
}

pub plugin_on_action-IsValid : (s : State) (a : Action) → IsValid s → IsValid (plugin_on_action s a)
unfolding plugin_on_action set_color
plugin_on_action-IsValid s toggle v = omega arith
plugin_on_action-IsValid s system_sleep v = omega arith
plugin_on_action-IsValid s system_wake v = omega arith
plugin_on_action-IsValid s (count_save none) v = v
plugin_on_action-IsValid s (count_save (some n)) v =
    ground (arith, clamp_count_bounds (u8 (clamp_i32 1 100 n)))
plugin_on_action-IsValid s (bright_save none) v = v
plugin_on_action-IsValid s (bright_save (some n)) v = omega arith
plugin_on_action-IsValid s (color_save none) v = v
plugin_on_action-IsValid s (color_save (some n)) v = omega arith
plugin_on_action-IsValid s (speed_save none) v = v
plugin_on_action-IsValid s (speed_save (some n)) v = ground (arith, clamp_bounds _)
plugin_on_action-IsValid s (effect_select i) v = omega arith
plugin_on_action-IsValid s other v = v
