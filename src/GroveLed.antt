-- ===== src/GroveLed.antt =====
-- The driver of an LED strip, plugins/grove_led/src/lib.rs: the settings and what changes them. The
-- stored numbers and the strip belong to the badge host; what it answers is an argument.
pub mod Render
pub mod Valid
pub mod Dither
pub mod Frames
pub mod Running
mod Tests
use cdc_badge_plugins.Base.{
  ℕ, ◌-◌, ◌%◌, ◌/◌, ltb, leb, ◌==◌, if◌then◌else◌, Bool, true, false, not, Option, none, some, u8,
  ◌>>>◌, bit_and,
}
use cdc_badge_plugins.Base.Int.{ℤ, pos, negsuc}

pub data Effect : Type 0 where
  rainbow static blink breathing random cpu_load : Effect

unfoldable pub effect_from_u8 : ℕ → Effect
effect_from_u8 v =
    if v == 1
    then static
    else if v == 2
    then blink
    else if v == 3
    then breathing
    else if v == 4
    then random
    else if v == 5
    then cpu_load
    else rainbow

pub record State : Type 0 where
  pub enabled : Bool
  pub count : ℕ
  pub brightness : ℕ
  pub r : ℕ
  pub g : ℕ
  pub b : ℕ
  pub effect : Effect
  pub speed : ℕ
  pub rainbow_offset : ℕ
  pub last_frame_ms : ℕ
  pub sleeping : Bool
  pub dither_acc_r : ℕ
  pub dither_acc_g : ℕ
  pub dither_acc_b : ℕ

abbrev pub defaults : State
defaults = record {
  enabled = false;
  count = 8;
  brightness = 64;
  r = 255;
  g = 255;
  b = 255;
  effect = rainbow;
  speed = 50;
  rainbow_offset = 0;
  last_frame_ms = 0;
  sleeping = false;
  dither_acc_r = 0;
  dither_acc_g = 0;
  dither_acc_b = 0;
}

abbrev pub max_leds : ℕ
max_leds = 100

unfoldable pub clamp_count : ℕ → ℕ
clamp_count v = if v == 0 then 1 else if ltb max_leds v then max_leds else v

-- `clamp` of u8.
unfoldable pub clamp : ℕ → ℕ → ℕ → ℕ
clamp lo hi v = if ltb v lo then lo else if ltb hi v then hi else v

-- What is stored, by key.
pub record Stored : Type 0 where
  pub enabled : Option ℕ
  pub count : Option ℕ
  pub bright : Option ℕ
  pub color_r : Option ℕ
  pub color_g : Option ℕ
  pub color_b : Option ℕ
  pub effect : Option ℕ
  pub speed : Option ℕ

-- `if let Some(v)`: a stored number, as the field takes it, or the field as it was.
abbrev pub stored_or {ℓ} : {A : Type ℓ} → Option ℕ → (ℕ → A) → A → A
stored_or none f a = a
stored_or (some v) f a = f v

unfoldable pub load_state : Stored → State → State
unfolding clamp_count clamp effect_from_u8
load_state n s = record s {
  enabled = stored_or n.enabled (λ v. not (v == 0)) s.enabled;
  count = stored_or n.count (λ v. clamp_count (u8 v)) s.count;
  brightness = stored_or n.bright u8 s.brightness;
  r = stored_or n.color_r u8 s.r;
  g = stored_or n.color_g u8 s.g;
  b = stored_or n.color_b u8 s.b;
  effect = stored_or n.effect (λ v. effect_from_u8 (u8 v)) s.effect;
  speed = stored_or n.speed (λ v. clamp 1 100 (u8 v)) s.speed;
}

-- `clamp` of i32 to a range of numbers that are not negative, and `as u8` of i32.
unfoldable pub clamp_i32 : ℕ → ℕ → ℤ → ℕ
unfolding clamp
clamp_i32 lo hi (pos n) = clamp lo hi n
clamp_i32 lo hi (negsuc n) = lo

unfoldable pub i32_as_u8 : ℤ → ℕ
i32_as_u8 (pos n) = n % 256
i32_as_u8 (negsuc n) = 255 - n % 256

-- `as u32` of i32.
unfoldable pub i32_as_u32 : ℤ → ℕ
i32_as_u32 (pos n) = n % 4294967296
i32_as_u32 (negsuc n) = 4294967295 - n % 4294967296

-- The actions that change the state. A number that a dialog gives is there or not.
pub data Action : Type 0 where
  toggle : Action
  system_sleep system_wake : Action
  count_save bright_save color_save speed_save : Option ℤ → Action
  effect_select : ℕ → Action
  other : Action

unfoldable pub set_color : State → ℕ → State
set_color s p = record s {
  r = u8 (bit_and (p >>> 16) 0xFF);
  g = u8 (bit_and (p >>> 8) 0xFF);
  b = u8 (bit_and p 0xFF);
  effect = static;
}

unfoldable pub plugin_on_action : State → Action → State
unfolding clamp_count clamp clamp_i32 i32_as_u8 i32_as_u32 effect_from_u8 set_color
plugin_on_action s toggle = record s { enabled = not s.enabled }
plugin_on_action s system_sleep = record s { sleeping = true }
plugin_on_action s system_wake = record s { sleeping = false }
plugin_on_action s (count_save none) = s
plugin_on_action s (count_save (some v)) = record s {
  count = clamp_count (u8 (clamp_i32 1 max_leds v));
}
plugin_on_action s (bright_save none) = s
plugin_on_action s (bright_save (some v)) = record s { brightness = u8 (clamp_i32 0 255 v) }
plugin_on_action s (color_save none) = s
plugin_on_action s (color_save (some v)) = set_color s (i32_as_u32 v)
plugin_on_action s (speed_save none) = s
plugin_on_action s (speed_save (some v)) = record s { speed = clamp 1 100 (i32_as_u8 v) }
plugin_on_action s (effect_select idx) = record s { effect = effect_from_u8 (u8 idx) }
plugin_on_action s other = s
