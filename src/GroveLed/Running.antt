-- ===== src/GroveLed/Running.antt =====
-- The strip of plugins/grove_led/src/lib.rs over any number of ticks and actions.
use cdc_badge_plugins.Base.{
  ℕ, ◌-◌, ◌/◌, ◌%◌, min, ltb, ◌==◌, ◌||◌, ◌&&◌, Bool, true, false, none, some, if◌then◌else◌, not,
  ◌≡◌, refl, arith, List, [], ◌∷◌, All, if-elim, bit_and, map, ap, sym, ◌∙◌,
}
use cdc_badge_plugins.GroveLed.{
  State, Effect, rainbow, static, blink, breathing, random, cpu_load, Action, plugin_on_action,
  set_color, toggle, system_sleep, system_wake, count_save, bright_save, color_save, speed_save,
  effect_select, other,
}
use cdc_badge_plugins.GroveLed.Valid.{IsValid, plugin_on_action-IsValid}
use cdc_badge_plugins.GroveLed.Render.{
  rainbow_pixel, blink_pixel, random_pixel, load_pixel, Frame, render_effect, render_frame,
  plugin_on_tick, frame_interval_ms, cleared, action_frames, shown, breathe, padded,
}
use cdc_badge_plugins.GroveLed.Frames.{
  IsDimmed, black-IsDimmed, hsv_to_rgb-IsDimmed, own_color-IsDimmed, fill-All, fill_random-All,
  Fits, padded-Fits, Rendered, breathe-Rendered,
}

random_pixel-IsDimmed : (s : State) (v : ℕ) → IsValid s → IsDimmed s.brightness (random_pixel s v)
unfolding random_pixel
random_pixel-IsDimmed s v h =
    if-elim (IsDimmed s.brightness) (bit_and v 3 == 0) _ _ (λ e. black-IsDimmed s.brightness)
      (λ e. hsv_to_rgb-IsDimmed _ 255 s.brightness h.bright)

blink_pixel-IsDimmed :
    (s : State) (uptime_ms : ℕ) → IsValid s → IsDimmed s.brightness (blink_pixel s uptime_ms)
unfolding blink_pixel
blink_pixel-IsDimmed s uptime_ms h =
    if-elim (IsDimmed s.brightness) (uptime_ms / 500 % 2 == 0) _ _ (λ e. own_color-IsDimmed s h)
      (λ e. black-IsDimmed s.brightness)

load_pixel-IsDimmed :
    (s : State) (uptime_ms load i : ℕ)
    → IsValid s
    → IsDimmed s.brightness (load_pixel s uptime_ms load i)
unfolding load_pixel
load_pixel-IsDimmed s uptime_ms load i h =
    if-elim (IsDimmed s.brightness) _ _ _ (λ e. own_color-IsDimmed s h)
      (λ e. black-IsDimmed s.brightness)

render_effect-Rendered :
    (s : State) (e : Effect) (uptime_ms load strip_len : ℕ)
    → IsValid s
    → Rendered s strip_len (render_effect s e uptime_ms load (min strip_len s.count) strip_len)
unfolding render_effect
render_effect-Rendered s rainbow uptime_ms load strip_len v = (
  omega arith,
  padded-Fits s.brightness strip_len s.count _ (
      fill-All (IsDimmed s.brightness) _ 0 _
        (λ i. unfold rainbow_pixel in hsv_to_rgb-IsDimmed _ 255 s.brightness v.bright)),
)
render_effect-Rendered s static uptime_ms load strip_len v = (
  v,
  padded-Fits s.brightness strip_len s.count _
      (fill-All (IsDimmed s.brightness) _ 0 _ (λ i. own_color-IsDimmed s v)),
)
render_effect-Rendered s blink uptime_ms load strip_len v = (
  v,
  padded-Fits s.brightness strip_len s.count _
      (fill-All (IsDimmed s.brightness) _ 0 _ (λ i. blink_pixel-IsDimmed s uptime_ms v)),
)
render_effect-Rendered s breathing uptime_ms load strip_len v =
    breathe-Rendered s uptime_ms strip_len v
render_effect-Rendered s random uptime_ms load strip_len v = (
  v,
  padded-Fits s.brightness strip_len s.count _
      (fill_random-All (IsDimmed s.brightness) _ _ _ (λ i. random_pixel-IsDimmed s i v)),
)
render_effect-Rendered s cpu_load uptime_ms load strip_len v = (
  v,
  padded-Fits s.brightness strip_len s.count _
      (fill-All (IsDimmed s.brightness) _ 0 _ (λ i. load_pixel-IsDimmed s uptime_ms load i v)),
)

render_frame-Rendered :
    (s : State) (uptime_ms strip_len load : ℕ)
    → IsValid s
    → Rendered s strip_len (render_frame s uptime_ms strip_len load)
unfolding render_frame
render_frame-Rendered s uptime_ms strip_len load v =
    let s' = record s { last_frame_ms = uptime_ms } in
    let v' : IsValid s' = omega arith in
    if-elim (Rendered s strip_len) (not s.enabled || s.count == 0) _ _ (λ e. (v', tt))
      (λ e. render_effect-Rendered s' s.effect uptime_ms load strip_len v')

-- What happens to the plugin: a tick, with the length of the strip and the load of the processor, or
-- an action.
pub data Event : Type 0 where
  tick : ℕ → ℕ → ℕ → Event
  action : Action → Event

unfoldable pub on_event : State → Event → State × List Frame
unfolding plugin_on_tick plugin_on_action action_frames
on_event s (tick uptime_ms strip_len load) = plugin_on_tick s uptime_ms strip_len load
on_event s (action a) = (plugin_on_action s a, action_frames s a)

unfoldable pub is_sleep : Action → Bool
is_sleep system_sleep = true
is_sleep _ = false

-- An action that switches the plugin off, or the badge going to sleep.
unfoldable pub turns_dark : State → Action → Bool
unfolding is_sleep
turns_dark s a = is_sleep a || (s.enabled && not (plugin_on_action s a).enabled)

-- Whether a frame sets the pixels, or clears the strip.
unfoldable pub is_drawn : Frame → Bool
is_drawn cleared = false
is_drawn (shown pixels) = true

-- The frames of a tick show each pixel of the strip, none brighter than is set at that time. There
-- is one 20 ms after the last, unless the badge sleeps; the strip is cleared when the plugin is off or
-- has no pixels. An action clears the strip when it turns dark, and shows nothing otherwise.
abbrev pub FitsAt : State → Event → List Frame → Type 0
FitsAt s (tick uptime_ms strip_len load) frames =
    All (Fits s.brightness strip_len s.count) frames
    × (map is_drawn frames ≡ (
        if s.sleeping || ltb (uptime_ms - s.last_frame_ms) 20
        then []
        else (s.enabled && not (s.count == 0)) ∷ []))
FitsAt s (action a) frames = frames ≡ (if turns_dark s a then cleared ∷ [] else [])

-- A whole run: after each event the state is valid, and what the event showed fits.
abbrev pub RunsWell : State → List Event → Type 0
RunsWell s [] = IsValid s
RunsWell s (e ∷ es) = FitsAt s e (on_event s e).1 × RunsWell (on_event s e).0 es

render_effect-drawn :
    (s : State) (e : Effect) (uptime_ms load max_idx strip_len : ℕ)
    → is_drawn (render_effect s e uptime_ms load max_idx strip_len).1 ≡ true
unfolding render_effect breathe padded is_drawn
render_effect-drawn s rainbow uptime_ms load max_idx strip_len = refl
render_effect-drawn s static uptime_ms load max_idx strip_len = refl
render_effect-drawn s blink uptime_ms load max_idx strip_len = refl
render_effect-drawn s breathing uptime_ms load max_idx strip_len = refl
render_effect-drawn s random uptime_ms load max_idx strip_len = refl
render_effect-drawn s cpu_load uptime_ms load max_idx strip_len = refl

on_and_some : (a b : Bool) → (a && not b) ≡ not (not a || b)
on_and_some true b = refl
on_and_some false b = refl

render_frame-drawn :
    (s : State) (uptime_ms strip_len load : ℕ)
    → is_drawn (render_frame s uptime_ms strip_len load).1 ≡ (s.enabled && not (s.count == 0))
unfolding render_frame is_drawn
render_frame-drawn s uptime_ms strip_len load =
    let both = on_and_some s.enabled (s.count == 0) in
    if-elim {A = State × Frame} (λ out. is_drawn out.1 ≡ (s.enabled && not (s.count == 0)))
      (not s.enabled || s.count == 0) _ _ (λ e. sym (both ∙ ap not e))
      (λ e. render_effect-drawn _ s.effect uptime_ms load _ strip_len ∙ sym (both ∙ ap not e))

off_stays : (b : Bool) → (b && not b) ≡ false
off_stays true = refl
off_stays false = refl

toggled : (b : Bool) → (b && not (not b)) ≡ not (not b)
toggled true = refl
toggled false = refl

action_frames_lem :
    (s : State) (a : Action) → action_frames s a ≡ (if turns_dark s a then cleared ∷ [] else [])
unfolding action_frames turns_dark is_sleep plugin_on_action set_color
action_frames_lem s toggle = rw (toggled s.enabled) refl
action_frames_lem s system_sleep = refl
action_frames_lem s system_wake = rw (off_stays s.enabled) refl
action_frames_lem s (count_save none) = rw (off_stays s.enabled) refl
action_frames_lem s (count_save (some v)) = rw (off_stays s.enabled) refl
action_frames_lem s (bright_save none) = rw (off_stays s.enabled) refl
action_frames_lem s (bright_save (some v)) = rw (off_stays s.enabled) refl
action_frames_lem s (color_save none) = rw (off_stays s.enabled) refl
action_frames_lem s (color_save (some v)) = rw (off_stays s.enabled) refl
action_frames_lem s (speed_save none) = rw (off_stays s.enabled) refl
action_frames_lem s (speed_save (some v)) = rw (off_stays s.enabled) refl
action_frames_lem s (effect_select idx) = rw (off_stays s.enabled) refl
action_frames_lem s other = rw (off_stays s.enabled) refl

on_event_safe :
    (s : State) (e : Event) → IsValid s → IsValid (on_event s e).0 × FitsAt s e (on_event s e).1
unfolding on_event plugin_on_tick
on_event_safe s (action a) v = (plugin_on_action-IsValid s a v, action_frames_lem s a)
on_event_safe s (tick uptime_ms strip_len load) v =
    let (v', fits) = render_frame-Rendered s uptime_ms strip_len load v in
    if-elim {A = State × List Frame}
      (λ out. IsValid out.0 × FitsAt s (tick uptime_ms strip_len load) out.1)
      (s.sleeping || ltb (uptime_ms - s.last_frame_ms) frame_interval_ms) _ _
      (λ e. (v, (tt, rw e refl)))
      (λ e.
        (v', ((fits, tt), rw e (ap (λ b. b ∷ []) (render_frame-drawn s uptime_ms strip_len load)))))

-- In any run of ticks and actions from a valid state, with any effect, load and time, the settings
-- stay in their ranges. A tick shows one frame, or none while the badge sleeps or within 20 ms of the
-- last; it clears the strip if the plugin is off or has no pixels, and otherwise sets every pixel of
-- it, no channel brighter than the brightness set at the time and no pixel on behind the count. An
-- action clears the strip exactly when it switches the plugin off or the badge goes to sleep.
pub on_events-RunsWell : (s : State) (events : List Event) → IsValid s → RunsWell s events
on_events-RunsWell s [] v = v
on_events-RunsWell s (e ∷ events) v =
    let (v', fits) = on_event_safe s e v in (fits, on_events-RunsWell (on_event s e).0 events v')
