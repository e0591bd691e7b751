-- ===== src/ThermoPrinter/Proto/Rows.antt =====
-- One row as a frame: plain or run-length encoded, the printer shows the same pixels.
use cdc_badge_plugins.Base.{ℕ, ◌-◌, ◌*◌, ◌^◌, ◌≤◌, ◌<◌, ◌≡◌, refl, sym, ap, ◌∙◌, ◌⊎◌, inl, inr}
use cdc_badge_plugins.Base.{
  Bool, false, ◌&&◌, ◌==◌, if◌then◌else◌, List, ◌++◌, map, replicate, length, take-all, length-map,
  length-append, length-replicate, Bool-cases, Option-cases, arith,
}
use mathlib.Core.Path.{ap₂}
use mathlib.Core.List.{append-nil}
use cdc_badge_plugins.ThermoPrinter.Proto.{
  row_bytes, reverse_bits, cmd_draw_bitmap, cmd_draw_bitmap_rle, frame, pad_row, frame_row_plain,
  rle_encode_row, frame_row,
}
use cdc_badge_plugins.ThermoPrinter.Proto.Frames.{Command}
use cdc_badge_plugins.ThermoPrinter.Proto.Pixels.{
  IsBytes, badge_row, printer_row, printer_row-reverse_bits, printer_row-append, printer_row_blank,
  pixels-badge_row,
}
use cdc_badge_plugins.ThermoPrinter.Proto.Runs.{expand, rle_encode_row_expands}

-- The pixels that a bitmap command puts on paper.
pub shown : Command → List Bool
shown c = if c.code == cmd_draw_bitmap_rle then expand c.payload else printer_row c.payload

-- A badge row at the full width of the paper, white on the right.
abbrev pub padded : List ℕ → List Bool
padded row = badge_row row ++ replicate ((row_bytes - length row) * 8) false

-- The bytes are one bitmap frame that shows these pixels.
pub record Shows (bytes : List ℕ) (picture : List Bool) : Type 0 where
  pub command : Command
  pub framed : bytes ≡ frame command.code command.payload
  pub short : length command.payload < 2 ^ 16
  pub bitmap : (command.code ≡ cmd_draw_bitmap) ⊎ (command.code ≡ cmd_draw_bitmap_rle)
  pub picture_lem : shown command ≡ picture

length-pad_row : (row : List ℕ) → length row ≤ row_bytes → length (pad_row row) ≡ row_bytes
unfolding pad_row
length-pad_row row h = omega (
  arith,
  length-append row (replicate (row_bytes - length row) 0),
  length-replicate {A = ℕ} (row_bytes - length row) 0,
)

pub frame_row_plain-Shows :
    (row : List ℕ) → IsBytes row → length row ≤ row_bytes → Shows (frame_row_plain row) (padded row)
unfolding frame_row_plain shown pad_row
frame_row_plain-Shows row h l =
    let flipped = map reverse_bits row in
    let size = length-map reverse_bits row in
    record {
      command = record { code = cmd_draw_bitmap; payload = pad_row flipped };
      framed = rw (take-all row_bytes row l) refl;
      short = omega (arith, length-pad_row flipped (omega arith));
      bitmap = inl refl;
      picture_lem =
          printer_row-append flipped (replicate (row_bytes - length flipped) 0)
          ∙ ap₂ ◌++◌ (printer_row-reverse_bits row h) (
              printer_row_blank (row_bytes - length flipped)
              ∙ ap (λ n. replicate ((row_bytes - n) * 8) false) size);
    }

padded_full : (row : List ℕ) → length row ≡ row_bytes → badge_row row ≡ padded row
padded_full row wide =
    let none_left : (row_bytes - length row) * 8 ≡ 0 = omega arith in
    sym (ap (λ n. badge_row row ++ replicate n false) none_left ∙ append-nil (badge_row row))

-- A row of at most 48 bytes goes out as one frame whose pixels are those of the row, padded with
-- white to the paper's width, whether run-length encoding is on or off.
pub frame_row-Shows :
    (row : List ℕ) (rle : Bool)
    → IsBytes row
    → length row ≤ row_bytes
    → Shows (frame_row row rle) (padded row)
unfolding frame_row shown
frame_row-Shows row rle h l = elim (Bool-cases (rle && length row == row_bytes)) [
  | inr off ↦ rw off (frame_row_plain-Shows row h l)
  | inl full ↦ elim (Option-cases (rle_encode_row row)) [
    | inl e ↦ rw (full, e) (frame_row_plain-Shows row h l)
    | inr (runs, e) ↦
        let lem = rle_encode_row_expands row runs e in
        let wide : length row ≡ row_bytes = ground arith in
        rw (full, e)
          record {
            command = record { code = cmd_draw_bitmap_rle; payload = runs };
            framed = refl;
            short = omega (arith, lem);
            bitmap = inr refl;
            picture_lem = lem.0 ∙ pixels-badge_row row h ∙ padded_full row wide;
          }
  ]
]
