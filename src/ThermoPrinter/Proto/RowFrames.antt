-- ===== src/ThermoPrinter/Proto/RowFrames.antt =====
-- The rows of a job, framed: what `job_rows` gives for any range, and how ranges join.
use cdc_badge_plugins.Base.{
  ℕ, zero, suc, ◌+◌, ◌-◌, ◌*◌, ◌≤◌, ◌≡◌, refl, sym, ap, ◌∙◌, min, Bool, Option, none, some, List,
  [], ◌∷◌, ◌++◌, length, take, drop, length-append, arith,
}
use cdc_badge_plugins.Base.{map, Bool-cases, inl, inr, ◌&&◌, ◌==◌}
use mathlib.Core.List.{append_assoc, append-nil}
use cdc_badge_plugins.ThermoPrinter.Proto.{
  row_bytes, crc8, frame, cmd_draw_bitmap_rle, cmd_draw_bitmap, pad_row, reverse_bits, frame_row,
  frame_row_plain, slice, rows_from, job_rows, rle_encode_row, job_setup, job_finish, build_job,
}
use cdc_badge_plugins.ThermoPrinter.Proto.Jobs.{slice_lem, row_end, next_end}

-- The frames of `n` rows from row `y` on.
pub row_frames : List ℕ → ℕ → Bool → ℕ → ℕ → List ℕ
row_frames bits stride rle zero y = []
row_frames bits stride rle (suc n) y =
    frame_row (take (min row_bytes stride) (drop (y * stride) bits)) rle
    ++ row_frames bits stride rle n (y + 1)

pub row_frames_zero :
    (bits : List ℕ) (stride : ℕ) (rle : Bool) (n y : ℕ)
    → n ≡ 0
    → row_frames bits stride rle n y ≡ []
unfolding row_frames
row_frames_zero bits stride rle zero y e = refl
row_frames_zero bits stride rle (suc n) y e = absurd (omega arith)

rows_from-row_frames :
    (bits : List ℕ) (stride : ℕ) (rle : Bool) (n y : ℕ) (out : List ℕ)
    → (y + n) * stride ≤ length bits
    → rows_from bits stride rle n y out ≡ some (out ++ row_frames bits stride rle n y)
unfolding rows_from row_frames
rows_from-row_frames bits stride rle zero y out h = ap some (sym (append-nil out))
rows_from-row_frames bits stride rle (suc n) y out h =
    let lo = y * stride in
    let width = min row_bytes stride in
    let row = take width (drop lo bits) in
    let whole : lo + width - lo ≡ width = omega arith in
    let read : slice bits lo (lo + width) ≡ some row =
      slice_lem bits lo (lo + width) (omega arith) (row_end y n stride (length bits) h)
      ∙ ap (λ k. some (take k (drop lo bits))) whole in
    rw (read, rows_from)
      (rows_from-row_frames bits stride rle n (y + 1) (out ++ frame_row row rle)
          (next_end y n stride (length bits) h)
        ∙ ap some (append_assoc out (frame_row row rle) (row_frames bits stride rle n (y + 1))))

pub job_rows-row_frames :
    (bits : List ℕ) (stride lo hi : ℕ) (rle : Bool)
    → lo ≤ hi
    → hi * stride ≤ length bits
    → job_rows bits stride lo hi rle ≡ some (row_frames bits stride rle (hi - lo) lo)
unfolding job_rows
job_rows-row_frames bits stride lo hi rle p h =
    let e : lo + (hi - lo) ≡ hi = omega arith in
    let h' : (lo + (hi - lo)) * stride ≤ length bits = rw e h in
    rows_from-row_frames bits stride rle (hi - lo) lo [] h'

pub row_frames-add :
    (bits : List ℕ) (stride : ℕ) (rle : Bool) (n m y : ℕ)
    → row_frames bits stride rle (n + m) y
      ≡ row_frames bits stride rle n y ++ row_frames bits stride rle m (y + n)
unfolding row_frames
row_frames-add bits stride rle zero m y =
    let e : 0 + m ≡ m = omega arith in let f : y + 0 ≡ y = omega arith in rw (e, f) refl
row_frames-add bits stride rle (suc n) m y =
    let e : suc n + m ≡ suc (n + m) = omega arith in
    let f : y + suc n ≡ y + 1 + n = omega arith in
    rw (e, f, row_frames-add bits stride rle n m (y + 1))
      (sym (
        append_assoc (frame_row (take (min row_bytes stride) (drop (y * stride) bits)) rle)
          (row_frames bits stride rle n (y + 1)) (row_frames bits stride rle m (y + 1 + n))))

frame-nonempty : (cmd : ℕ) (payload : List ℕ) → 8 ≤ length (frame cmd payload)
unfolding frame
frame-nonempty cmd payload = omega (arith, length-append payload (crc8 payload ∷ 0xFF ∷ []))

frame_row-nonempty : (row : List ℕ) (rle : Bool) → 8 ≤ length (frame_row row rle)
unfolding frame_row frame_row_plain
frame_row-nonempty row rle =
    let plain = frame-nonempty cmd_draw_bitmap (pad_row (map reverse_bits (take row_bytes row))) in
    elim (Bool-cases (rle && length row == row_bytes)) [
      | inl full ↦ rw full (coded (rle_encode_row row) plain)
      | inr narrow ↦ rw narrow plain
    ]
  where
    coded :
        (runs : Option (List ℕ))
        → 8 ≤ length (frame_row_plain row)
        → 8
          ≤ length (elim runs [ some r ↦ frame cmd_draw_bitmap_rle r | none ↦ frame_row_plain row ])
    coded none plain = plain
    coded (some r) plain = frame-nonempty cmd_draw_bitmap_rle r

pub row_frames-nonempty :
    (bits : List ℕ) (stride : ℕ) (rle : Bool) (n y : ℕ)
    → 1 ≤ n
    → 1 ≤ length (row_frames bits stride rle n y)
unfolding row_frames
row_frames-nonempty bits stride rle zero y h = absurd (omega arith)
row_frames-nonempty bits stride rle (suc n) y h =
    let row = take (min row_bytes stride) (drop (y * stride) bits) in
    omega (
      arith,
      length-append (frame_row row rle) (row_frames bits stride rle n (y + 1)),
      frame_row-nonempty row rle,
    )

-- The whole job, as its frames.
pub build_job-row_frames :
    (bits : List ℕ) (stride height energy speed feed_steps : ℕ) (rle : Bool)
    → height * stride ≤ length bits
    → build_job bits stride height energy speed feed_steps rle
      ≡ some
          (job_setup energy speed ++ (row_frames bits stride rle height 0 ++ job_finish feed_steps))
unfolding build_job
build_job-row_frames bits stride height energy speed feed_steps rle h =
    let rows = job_rows-row_frames bits stride 0 height rle (omega arith) h in
    let e : height - 0 ≡ height = omega arith in rw (rows, e, build_job) refl
