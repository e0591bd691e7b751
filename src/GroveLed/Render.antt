-- ===== src/GroveLed/Render.antt =====
-- The frames of plugins/grove_led/src/lib.rs.
use cdc_badge_plugins.Base.{
  ℕ, zero, suc, ◌+◌, ◌-◌, ◌*◌, ◌/◌, ◌%◌, ◌^◌, min, max, bit_and, bit_xor, ltb, leb, ◌==◌,
  if◌then◌else◌, not, ◌||◌, List, [], ◌∷◌, ◌++◌, replicate, u8, u16, ◌<<<◌, ◌>>>◌,
}
use cdc_badge_plugins.GroveLed.{
  Effect, rainbow, static, blink, breathing, random, cpu_load, State, Action, toggle, system_sleep,
  plugin_on_action,
}

pub record Rgb : Type 0 where
  pub red : ℕ
  pub green : ℕ
  pub blue : ℕ

abbrev pub black : Rgb
black = record { red = 0; green = 0; blue = 0 }

-- The pixel value of this frame, and what it still owes.
unfoldable pub dim_dither : ℕ → ℕ → ℕ × ℕ
dim_dither target acc =
    let target_lo = u8 (target >>> 8) in
    let sum = acc + bit_and target 0xFF in
    if leb 65536 sum || leb 256 sum
    then (min 255 (target_lo + 1), u8 (bit_and sum 0xFF))
    else (target_lo, u8 sum)

unfoldable pub phase_divisor : ℕ → ℕ
phase_divisor speed = max (102 - max speed 1) 2

unfoldable pub random_interval : ℕ → ℕ
random_interval speed = max ((101 - speed) * 6) 1

-- On u64.
unfoldable pub xorshift64 : ℕ → ℕ
xorshift64 x =
    let a = bit_xor x (x <<< 13 % 2 ^ 64) in
    let b = bit_xor a (a >>> 7) in bit_xor b (b <<< 17 % 2 ^ 64)

unfoldable pub apply_brightness : ℕ → ℕ → ℕ
apply_brightness c brightness = u8 (c * brightness / 255)

unfoldable pub hsv_to_rgb : ℕ → ℕ → ℕ → Rgb
hsv_to_rgb h sat val =
    let region = h / 60 % 6 in
    let remainder = h % 60 * 255 / 60 in
    let p = u8 (val * (255 - sat) / 255) in
    let q = u8 (val * (255 - sat * remainder / 255) / 255) in
    let t = u8 (val * (255 - sat * (255 - remainder) / 255) / 255) in
    if region == 0
    then record { red = val; green = t; blue = p }
    else if region == 1
    then record { red = q; green = val; blue = p }
    else if region == 2
    then record { red = p; green = val; blue = t }
    else if region == 3
    then record { red = p; green = q; blue = val }
    else if region == 4
    then record { red = t; green = p; blue = val }
    else record { red = val; green = p; blue = q }

unfoldable pub breath_curve : ℕ → ℕ
breath_curve phase = if ltb phase 128 then min 255 (phase * 2) else min 255 ((255 - phase) * 2)

-- What the calls of `pixel_strip::set` give the first pixels: `n` of them, from `i` on.
unfoldable pub fill : ℕ → ℕ → (ℕ → Rgb) → List Rgb
fill zero i f = []
fill (suc n) i f = f i ∷ fill n (suc i) f

-- The same with random numbers.
unfoldable pub fill_random : ℕ → ℕ → (ℕ → Rgb) → List Rgb
unfolding xorshift64
fill_random zero rng f = []
fill_random (suc n) rng f = let v = xorshift64 rng in f v ∷ fill_random n v f

abbrev pub golden : ℕ
golden = 0x9E3779B97F4A7C15

abbrev pub nonzero : ℕ → ℕ
nonzero rng = if rng == 0 then golden else rng

unfoldable pub own_color : State → Rgb
unfolding apply_brightness
own_color s = record {
  red = apply_brightness s.r s.brightness;
  green = apply_brightness s.g s.brightness;
  blue = apply_brightness s.b s.brightness;
}

unfoldable pub rainbow_pixel : State → ℕ → Rgb
rainbow_pixel s i = hsv_to_rgb (u16 ((s.rainbow_offset + i * 360 / s.count) % 360)) 255 s.brightness

unfoldable pub rainbow_step : ℕ → ℕ
rainbow_step speed = max ((speed + 9) / 10) 1

unfoldable pub blink_pixel : State → ℕ → Rgb
unfolding own_color
blink_pixel s uptime_ms = if uptime_ms / 500 % 2 == 0 then own_color s else black

unfoldable pub breath_target : State → ℕ → ℕ → ℕ
unfolding phase_divisor breath_curve
breath_target s uptime_ms c =
    let phase = u8 (uptime_ms / phase_divisor s.speed % 256) in
    u16 (c * breath_curve phase * s.brightness / 255)

unfoldable pub random_pixel : State → ℕ → Rgb
random_pixel s v =
    if bit_and v 3 == 0 then black else hsv_to_rgb (u16 ((v >>> 8) % 360)) 255 s.brightness

unfoldable pub random_seed : State → ℕ → ℕ
unfolding random_interval
random_seed s uptime_ms = nonzero (bit_xor (uptime_ms / random_interval s.speed) golden)

unfoldable pub load_pixel : State → ℕ → ℕ → ℕ → Rgb
unfolding own_color xorshift64
load_pixel s uptime_ms load i =
    let interval = max (600 - load * 5) 50 in
    let threshold = 25 + load * 55 / 100 in
    let bucket = (uptime_ms + i * 37) % 2 ^ 64 / interval in
    let rng = nonzero (bit_xor bucket ((i + 1) * golden % 2 ^ 64)) in
    if ltb (xorshift64 rng % 100) threshold then own_color s else black

-- A frame: the strip is cleared, or its pixels are set.
pub data Frame : Type 0 where
  cleared : Frame
  shown : List Rgb → Frame

-- The pixels that are on, and the rest of the strip.
unfoldable pub padded : List Rgb → ℕ → ℕ → Frame
padded pixels max_idx strip_len = shown (pixels ++ replicate (strip_len - max_idx) black)

unfoldable pub breathe : State → ℕ → ℕ → ℕ → State × Frame
unfolding fill padded dim_dither
breathe s uptime_ms max_idx strip_len =
    let (rr, acc_r) = dim_dither (breath_target s uptime_ms s.r) s.dither_acc_r in
    let (gg, acc_g) = dim_dither (breath_target s uptime_ms s.g) s.dither_acc_g in
    let (bb, acc_b) = dim_dither (breath_target s uptime_ms s.b) s.dither_acc_b in
    let pixel : Rgb = record { red = rr; green = gg; blue = bb } in
    let s' = record s { dither_acc_r = acc_r; dither_acc_g = acc_g; dither_acc_b = acc_b } in
    (s', padded (fill max_idx 0 (λ i. pixel)) max_idx strip_len)

unfoldable pub render_effect : State → Effect → ℕ → ℕ → ℕ → ℕ → State × Frame
unfolding fill fill_random padded breathe rainbow_step rainbow_pixel random_seed
render_effect s rainbow uptime_ms load max_idx strip_len =
    let s' = record s { rainbow_offset = (s.rainbow_offset + rainbow_step s.speed) % 360 } in
    (s', padded (fill max_idx 0 (rainbow_pixel s)) max_idx strip_len)
render_effect s static uptime_ms load max_idx strip_len =
    (s, padded (fill max_idx 0 (λ i. own_color s)) max_idx strip_len)
render_effect s blink uptime_ms load max_idx strip_len =
    (s, padded (fill max_idx 0 (λ i. blink_pixel s uptime_ms)) max_idx strip_len)
render_effect s breathing uptime_ms load max_idx strip_len = breathe s uptime_ms max_idx strip_len
render_effect s random uptime_ms load max_idx strip_len =
    let rng = random_seed s uptime_ms in
    (s, padded (fill_random max_idx rng (random_pixel s)) max_idx strip_len)
render_effect s cpu_load uptime_ms load max_idx strip_len =
    (s, padded (fill max_idx 0 (load_pixel s uptime_ms load)) max_idx strip_len)

unfoldable pub render_frame : State → ℕ → ℕ → ℕ → State × Frame
unfolding render_effect
render_frame s uptime_ms strip_len load =
    let s' = record s { last_frame_ms = uptime_ms } in
    if not s.enabled || s.count == 0
    then (s', cleared)
    else render_effect s' s.effect uptime_ms load (min strip_len s.count) strip_len

abbrev pub frame_interval_ms : ℕ
frame_interval_ms = 20

-- The frames that a tick draws: one or none.
unfoldable pub plugin_on_tick : State → ℕ → ℕ → ℕ → State × List Frame
unfolding render_frame
plugin_on_tick s uptime_ms strip_len load =
    let (s', frame) = render_frame s uptime_ms strip_len load in
    if s.sleeping || ltb (uptime_ms - s.last_frame_ms) frame_interval_ms
    then (s, [])
    else (s', frame ∷ [])

-- What an action shows: `clear` and `refresh` when the plugin is switched off and when the badge
-- goes to sleep. Opening the strip with another count draws nothing.
unfoldable pub action_frames : State → Action → List Frame
action_frames s toggle = if not (plugin_on_action s toggle).enabled then cleared ∷ [] else []
action_frames s system_sleep = cleared ∷ []
action_frames s _ = []
