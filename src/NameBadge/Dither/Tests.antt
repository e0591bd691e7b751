-- ===== src/NameBadge/Dither/Tests.antt =====
-- Inputs at which the definitions and the theorem about plugins/name_badge/src/dither.rs are tried.
use package.cdc_badge_plugins.Base.{ℕ, ltb, ◌&&◌, ◌≡◌, refl, arith, List, [], ◌∷◌}
use package.cdc_badge_plugins.NameBadge.Dither.{
  apply_bayer, rows, columns, clear_bit, invert, threshold, row_count,
}
use package.cdc_badge_plugins.NameBadge.Dither.Pixels.{pixel}
use package.cdc_badge_plugins.NameBadge.Dither.Reveal.{apply_bayer-pixel}

abbrev two_rows : List ℕ
two_rows = 0xFF ∷ 0xF0 ∷ []

-- Level 1 keeps one pixel of sixteen.
first_level : apply_bayer two_rows 1 1 ≡ 0x88 ∷ 0x00 ∷ []
unfolding apply_bayer rows row_count columns threshold clear_bit
first_level = refl

inverted : invert two_rows ≡ 0x00 ∷ 0x0F ∷ []
unfolding invert
inverted = refl

apply_bayer-pixel_example :
    pixel (apply_bayer two_rows 1 5) 1 1 1 ≡ (pixel two_rows 1 1 1 && ltb (threshold 1 1) 5)
unfolding row_count
apply_bayer-pixel_example =
    apply_bayer-pixel two_rows 1 5 1 1 (omega arith) (omega arith) (omega arith)
