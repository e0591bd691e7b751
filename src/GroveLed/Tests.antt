-- ===== src/GroveLed/Tests.antt =====
-- Inputs at which the definitions and the theorems about plugins/grove_led/src/lib.rs are tried.
use cdc_badge_plugins.Base.{◌+◌, ◌*◌, ◌<◌, none, some, ◌≡◌, refl, arith, List, [], ◌∷◌}
use cdc_badge_plugins.Base.Int.{pos, negsuc}
use cdc_badge_plugins.GroveLed.{
  Stored, defaults, load_state, toggle, bright_save, effect_select, count_save,
}
use cdc_badge_plugins.GroveLed.Valid.{IsValid, load_state-IsValid}
use cdc_badge_plugins.GroveLed.Dither.{dim_dithers, dim_dithers-sum}
use cdc_badge_plugins.GroveLed.Render.{
  dim_dither, own_color, hsv_to_rgb, breath_curve, render_frame, shown,
}
use cdc_badge_plugins.GroveLed.Running.{Event, tick, action, RunsWell, on_events-RunsWell}

red_hue : hsv_to_rgb 0 255 200 ≡ record { red = 200; green = 0; blue = 0 }
unfolding hsv_to_rgb
red_hue = refl

peak : breath_curve 127 ≡ 254
unfolding breath_curve
peak = refl

-- A target of 1.5 steps shows 1 and 2 in turn.
half_steps : dim_dithers 4 384 0 ≡ (6, 0)
unfolding dim_dithers dim_dither
half_steps = refl

dim_dithers-sum_example :
    ((dim_dithers 3 384 0).0 * 256 + (dim_dithers 3 384 0).1 ≡ 3 * 384 + 0)
    × ((dim_dithers 3 384 0).1 < 256)
dim_dithers-sum_example = dim_dithers-sum 3 384 0 (omega arith) (omega arith)

defaults-IsValid : IsValid defaults
defaults-IsValid = omega arith

abbrev stored : Stored
stored = record {
  enabled = some 1;
  count = some 300;
  bright = some 10;
  color_r = none;
  color_g = some 7;
  color_b = none;
  effect = some 1;
  speed = some 0;
}

all_lit :
    (render_frame (load_state stored (record defaults { count = 2 })) 40 3 0).1
    ≡ shown (
        record { red = 10; green = 0; blue = 10 }
        ∷ record { red = 10; green = 0; blue = 10 }
        ∷ record { red = 10; green = 0; blue = 10 }
        ∷ [])
unfolding render_frame load_state own_color
all_lit = refl

-- The plugin is switched on, dimmed and given another effect between two frames.
abbrev evening : List Event
evening =
    action toggle
    ∷ tick 20 3 50
    ∷ action (bright_save (some (pos 9)))
    ∷ action (effect_select 3)
    ∷ action (count_save (some (negsuc 4)))
    ∷ tick 60 3 50
    ∷ []

on_events-RunsWell_example : RunsWell (load_state stored defaults) evening
on_events-RunsWell_example =
    on_events-RunsWell (load_state stored defaults) evening
      (load_state-IsValid stored defaults defaults-IsValid)
