-- ===== src/NameBadge/Dither/Reveal.antt =====
-- What `apply_bayer` of plugins/name_badge/src/dither.rs keeps of a raster.
use package.cdc_badge_plugins.Base.{
  ℕ, zero, suc, ◌+◌, ◌*◌, ◌%◌, ◌≤◌, ◌<◌, ltb, leb, ◌==◌, true, ◌&&◌, ◌≡◌, ◌≢◌, refl, sym, ap, ◌∙◌,
  arith, inl, inr, List, All, Bool-cases, if-elim, ==_iff, ltb→lt, leb→le, lt→ltb,
}
use package.cdc_badge_plugins.Base.Bits.{all_below, all_below_sound}
use package.cdc_badge_plugins.NameBadge.Dither.{
  threshold, level_max, columns, rows, row_count, apply_bayer,
}
use package.cdc_badge_plugins.NameBadge.Dither.Bits.{IsByte}
use package.cdc_badge_plugins.NameBadge.Dither.Pixels.{
  pixel, columns-IsByte, columns-other, columns_self, and_true,
}

-- A pixel above the rows from `v` on, and one in a row that is reached.
rows-other :
    (n stride level x y v : ℕ) (out : List ℕ)
    → All IsByte out
    → x < stride * 8
    → y < v
    → pixel (rows n stride level v out) stride x y ≡ pixel out stride x y
unfolding rows
rows-other zero stride level x y v out a h k = refl
rows-other (suc n) stride level x y v out a h k =
    rows-other n stride level x y (suc v) _ (columns-IsByte (stride * 8) stride level v 0 out a) h
      (omega arith)
    ∙ columns-other (stride * 8) stride level x y 0 v out a h (omega arith) (inr (omega arith))

rows_self :
    (n stride level x y v : ℕ) (out : List ℕ)
    → All IsByte out
    → x < stride * 8
    → v ≤ y
    → y < v + n
    → pixel (rows n stride level v out) stride x y
      ≡ (pixel out stride x y && ltb (threshold x y) level)
unfolding rows
rows_self zero stride level x y v out a h l k = absurd (omega arith)
rows_self (suc n) stride level x y v out a h l k =
    let after = columns (stride * 8) stride level v 0 out in
    let bytes = columns-IsByte (stride * 8) stride level v 0 out a in
    elim (Bool-cases (v == y)) [
      | inl t ↦
          let e : v ≡ y = (==_iff v y).0 t in
          rows-other n stride level x y (suc v) after bytes h (omega (arith, e))
          ∙ ap (λ w. pixel (columns (stride * 8) stride level w 0 out) stride x y) e
          ∙ columns_self (stride * 8) stride level x y 0 out a (omega arith) (omega arith)
              (omega arith)
      | inr f ↦
          let apart : y ≢ v = ground arith in
          rows_self n stride level x y (suc v) after bytes h (omega (arith, apart)) (omega arith)
          ∙ ap (λ b. b && ltb (threshold x y) level)
              (columns-other (stride * 8) stride level x y 0 v out a h (omega arith) (inr apart))
    ]

threshold_table : all_below 4 (λ x. all_below 4 (λ y. ltb (threshold x y) 16)) ≡ true
unfolding all_below threshold
threshold_table = refl

threshold_mod : (x y : ℕ) → threshold x y ≡ threshold (x % 4) (y % 4)
unfolding threshold
threshold_mod x y =
    let ex : x % 4 % 4 ≡ x % 4 = omega arith in
    let ey : y % 4 % 4 ≡ y % 4 = omega arith in rw (ex, ey) refl

threshold-lt : (x y : ℕ) → ltb (threshold x y) 16 ≡ true
threshold-lt x y =
    ap (λ t. ltb t 16) (threshold_mod x y)
    ∙ all_below_sound 4 _ (y % 4) (all_below_sound 4 _ (x % 4) threshold_table (omega arith))
        (omega arith)

-- Each pixel of the rows of a raster is on after `apply_bayer` exactly when it was on and its
-- threshold is below the level, so that level 0 keeps nothing and level 16 everything. The raster is
-- of bytes.
pub apply_bayer-pixel :
    (raster : List ℕ) (stride level x y : ℕ)
    → All IsByte raster
    → x < stride * 8
    → y < row_count raster stride
    → pixel (apply_bayer raster stride level) stride x y
      ≡ (pixel raster stride x y && ltb (threshold x y) level)
unfolding apply_bayer
apply_bayer-pixel raster stride level x y a h k =
    if-elim (λ o. pixel o stride x y ≡ (pixel raster stride x y && ltb (threshold x y) level))
      (leb level_max level) _ _
      (λ t.
        let low : ltb (threshold x y) level ≡ true =
          lt→ltb _ _
            (omega (arith, ltb→lt (threshold x y) 16 (threshold-lt x y), leb→le 16 level t)) in
        rw low (sym (and_true _)))
      (λ t.
        rows_self (row_count raster stride) stride level x y 0 raster a h (omega arith)
          (omega arith))
