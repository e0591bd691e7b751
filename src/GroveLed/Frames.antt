-- ===== src/GroveLed/Frames.antt =====
-- The pixels of the frames of plugins/grove_led/src/lib.rs: none is brighter than the setting, and
-- those beyond the count are dark.
use cdc_badge_plugins.Base.{
  ℕ, zero, suc, ◌-◌, ◌*◌, ◌/◌, ◌%◌, ◌≤◌, ◌<◌, min, ◌≡◌, refl, arith, List, length, drop, replicate,
  All, All-append, u8, u16, length-append, length-replicate, drop-append_self,
}
use cdc_badge_plugins.GroveLed.{State}
use cdc_badge_plugins.GroveLed.Valid.{IsValid}
use cdc_badge_plugins.GroveLed.Dither.{dim_dither_bounds}
use cdc_badge_plugins.GroveLed.Render.{
  Rgb, black, dim_dither, apply_brightness, hsv_to_rgb, breath_curve, fill, fill_random, xorshift64,
  own_color, breath_target, Frame, cleared, shown, padded, breathe,
}
use native.Mathlib.Nat.{mul-le-mul_left, mul-le-mul_right, mul-le-mul}

-- No channel is above the brightness.
pub record IsDimmed (b : ℕ) (px : Rgb) : Type 0 where
  pub red : px.red ≤ b
  pub green : px.green ≤ b
  pub blue : px.blue ≤ b

scaled-le : (v x : ℕ) → v < 256 → x ≤ 255 → u8 (v * x / 255) ≤ v
scaled-le v x h k = omega (arith, mul-le-mul_left v k)

pub black-IsDimmed : (b : ℕ) → IsDimmed b black
black-IsDimmed b = omega arith

pub apply_brightness-le : (c b : ℕ) → c < 256 → b < 256 → apply_brightness c b ≤ b
unfolding apply_brightness
apply_brightness-le c b h k = omega (arith, mul-le-mul_left {m = c} {n = 255} b (omega arith))

pub hsv_to_rgb-IsDimmed : (h sat v : ℕ) → v < 256 → IsDimmed v (hsv_to_rgb h sat v)
unfolding hsv_to_rgb
hsv_to_rgb-IsDimmed h sat v k =
    let p = scaled-le v (255 - sat) k (omega arith) in
    let q = scaled-le v (255 - sat * (h % 60 * 255 / 60) / 255) k (omega arith) in
    let t = scaled-le v (255 - sat * (255 - h % 60 * 255 / 60) / 255) k (omega arith) in
    ground (arith, p, q, t)

breath_curve-le : (phase : ℕ) → breath_curve phase ≤ 254
unfolding breath_curve
breath_curve-le phase = ground arith

target-le : (c k b : ℕ) → c ≤ 255 → k ≤ 254 → u16 (c * k * b / 255) ≤ 254 * b
target-le c k b h l = omega (arith, mul-le-mul_right b (mul-le-mul h l))

breath_target-le :
    (s : State) (uptime_ms c : ℕ) → c < 256 → breath_target s uptime_ms c ≤ 254 * s.brightness
unfolding breath_target
breath_target-le s uptime_ms c h = target-le c _ s.brightness (omega arith) (breath_curve-le _)

-- The dithered value of a breathing channel.
breath-le :
    (b target acc : ℕ)
    → b < 256
    → acc < 256
    → target ≤ 254 * b
    → ((dim_dither target acc).0 ≤ b) × ((dim_dither target acc).1 < 256)
breath-le zero target acc h k l =
    let (value, owed, nothing) = dim_dither_bounds target acc (omega arith) k in
    let z : (dim_dither target acc).0 ≡ 0 = nothing (omega arith) in (omega (arith, z), owed)
breath-le (suc b) target acc h k l =
    let (value, owed, nothing) = dim_dither_bounds target acc (omega arith) k in
    (omega (arith, value), owed)

pub own_color-IsDimmed : (s : State) → IsValid s → IsDimmed s.brightness (own_color s)
unfolding own_color
own_color-IsDimmed s v = record {
  red = apply_brightness-le s.r s.brightness v.red v.bright;
  green = apply_brightness-le s.g s.brightness v.green v.bright;
  blue = apply_brightness-le s.b s.brightness v.blue v.bright;
}

pub fill-All :
    (P : Rgb → Type 0) (n i : ℕ) (f : ℕ → Rgb)
    → ((j : ℕ) → P (f j))
    → All P (fill n i f) × (length (fill n i f) ≡ n)
unfolding fill
fill-All P zero i f h = (tt, refl)
fill-All P (suc n) i f h = let (a, l) = fill-All P n (suc i) f h in ((h i, a), omega (arith, l))

pub fill_random-All :
    (P : Rgb → Type 0) (n rng : ℕ) (f : ℕ → Rgb)
    → ((j : ℕ) → P (f j))
    → All P (fill_random n rng f) × (length (fill_random n rng f) ≡ n)
unfolding fill_random
fill_random-All P zero rng f h = (tt, refl)
fill_random-All P (suc n) rng f h =
    let (a, l) = fill_random-All P n (xorshift64 rng) f h in
    ((h (xorshift64 rng), a), omega (arith, l))

-- A pixel for each place of the strip, dimmed, and dark from the count on.
abbrev pub Fits : ℕ → ℕ → ℕ → Frame → Type 0
Fits b strip_len count cleared = Unit {0}
Fits b strip_len count (shown pixels) =
    (length pixels ≡ strip_len)
    × All (IsDimmed b) pixels
    × All (λ px. px ≡ black) (drop (min strip_len count) pixels)

replicate-All : (P : Rgb → Type 0) (n : ℕ) (px : Rgb) → P px → All P (replicate n px)
replicate-All P zero px h = tt
replicate-All P (suc n) px h = (h, replicate-All P n px h)

pub padded-Fits :
    (b strip_len count : ℕ) (pixels : List Rgb)
    → All (IsDimmed b) pixels × (length pixels ≡ min strip_len count)
    → Fits b strip_len count (padded pixels (min strip_len count) strip_len)
unfolding padded
padded-Fits b strip_len count pixels (a, l) =
    let rest = replicate (strip_len - min strip_len count) black in
    (
      omega (
        arith,
        length-append pixels rest,
        length-replicate (strip_len - min strip_len count) black,
        l,
      ),
      All-append (IsDimmed b) pixels rest a (replicate-All (IsDimmed b) _ black (black-IsDimmed b)),
      rw (drop-append_self pixels rest (min strip_len count) l)
          (replicate-All (λ px. px ≡ black) _ black refl),
    )

-- What a frame of an effect leaves and shows.
abbrev pub Rendered : State → ℕ → State × Frame → Type 0
Rendered s strip_len out = IsValid out.0 × Fits s.brightness strip_len s.count out.1

pub breathe-Rendered :
    (s : State) (uptime_ms strip_len : ℕ)
    → IsValid s
    → Rendered s strip_len (breathe s uptime_ms (min strip_len s.count) strip_len)
unfolding breathe
breathe-Rendered s uptime_ms strip_len v =
    let (red, red_owed) =
      breath-le s.brightness _ s.dither_acc_r v.bright v.owed_red
        (breath_target-le s uptime_ms s.r v.red) in
    let (green, green_owed) =
      breath-le s.brightness _ s.dither_acc_g v.bright v.owed_green
        (breath_target-le s uptime_ms s.g v.green) in
    let (blue, blue_owed) =
      breath-le s.brightness _ s.dither_acc_b v.bright v.owed_blue
        (breath_target-le s uptime_ms s.b v.blue) in
    (
      record {
        count_low = v.count_low;
        count_high = v.count_high;
        speed_low = v.speed_low;
        speed_high = v.speed_high;
        bright = v.bright;
        red = v.red;
        green = v.green;
        blue = v.blue;
        hue = v.hue;
        owed_red = red_owed;
        owed_green = green_owed;
        owed_blue = blue_owed;
      },
      padded-Fits s.brightness strip_len s.count _ (
          fill-All (IsDimmed s.brightness) _ 0 _
            (λ j. record { red = red; green = green; blue = blue })),
    )
