-- ===== src/ThermoPrinter/Raster/Payload.antt =====
-- Raster and text payloads: what parses, what it parses to, and that the printer can send it.
use cdc_badge_plugins.Base.{ℕ, ◌+◌, ◌*◌, ◌/◌, ◌%◌, ◌^◌, ◌≤◌, ◌<◌, ◌≡◌, refl, sym, ap, ◌↔◌}
use cdc_badge_plugins.Base.{
  Bool, true, false, none, some, List, [], ◌∷◌, ◌++◌, length, take, drop, take-append_self,
  length-append, length-take, length-drop, arith, All-take,
}
use cdc_badge_plugins.Base.Utf8.{is_utf8}
use cdc_badge_plugins.ThermoPrinter.Raster.{
  Job, build, parse, get_range, parse_text, max_width_px, max_height_px, header_len,
}
use cdc_badge_plugins.ThermoPrinter.Proto.{build_job, row_bytes}
use cdc_badge_plugins.ThermoPrinter.Proto.Pixels.{IsBytes}
use cdc_badge_plugins.ThermoPrinter.Proto.Jobs.{PrintsJob, page, build_job-PrintsJob, IsBytes-drop}
use cdc_badge_plugins.Base.{replicate}

-- The geometry that a job may have.
pub record Fits (job : Job) : Type 0 where
  pub wide : (1 ≤ job.width_px) × (job.width_px ≤ max_width_px)
  pub high : (1 ≤ job.height_px) × (job.height_px ≤ max_height_px)
  pub packed : job.width_px ≤ 8 * job.stride_bytes
  pub full : length job.rows ≡ job.stride_bytes * job.height_px

get_range_lem :
    (payload : List ℕ) (n : ℕ) (rows : List ℕ)
    → get_range payload header_len n ≡ some rows
    → (rows ≡ take n (drop header_len payload)) × (header_len + n ≤ length payload)
unfolding get_range
get_range_lem payload n rows e = ground arith

-- The payload of a job that fits, with a stride of 16 bits, parses to that job, whatever follows the rows.
pub parse-build :
    (job : Job) (more : List ℕ)
    → Fits job
    → job.stride_bytes < 2 ^ 16
    → parse (build job.width_px job.height_px job.stride_bytes (job.rows ++ more)) ≡ some job
unfolding parse build get_range
parse-build job more fits narrow =
    let n = job.stride_bytes * job.height_px in
    let w : job.width_px % 256 + job.width_px / 256 % 256 * 256 ≡ job.width_px = omega arith in
    let h : job.height_px % 256 + job.height_px / 256 % 256 * 256 ≡ job.height_px = omega arith in
    let s : job.stride_bytes % 256 + job.stride_bytes / 256 % 256 * 256 ≡ job.stride_bytes =
      omega arith in
    let rows = take-append_self job.rows more n fits.full in
    let size = length-append job.rows more in simp (w, h, s) (ground (arith, rows, size))

-- Where the rows of a parsed payload lie in it.
parse_rows :
    (payload : List ℕ) (job : Job)
    → parse payload ≡ some job
    → (job.rows ≡ take (job.stride_bytes * job.height_px) (drop header_len payload))
      × (header_len ≤ length payload)
      × (header_len + job.stride_bytes * job.height_px ≤ length payload)
unfolding parse get_range
parse_rows payload job e = ground arith

-- A payload that parses gives a job of 1 to 384 pixels and 1 to 2048 rows, whose stride holds the
-- width, and which has as many bytes as its stride and its height say.
pub parse-Fits : (payload : List ℕ) (job : Job) → parse payload ≡ some job → Fits job
unfolding parse get_range
parse-Fits payload job e = record {
  wide = ground arith;
  high = ground arith;
  packed = ground arith;
  full =
      let (rows, _, room) = parse_rows payload job e in
      omega (
        arith,
        ap length rows,
        length-take (job.stride_bytes * job.height_px) (drop header_len payload),
        length-drop header_len payload,
      );
}

-- A raster payload never parses as text.
pub parse_text-none :
    (payload : List ℕ) (job : Job) → parse payload ≡ some job → parse_text payload ≡ none
unfolding parse parse_text
parse_text-none payload job e = ground arith

parse_text_only :
    (payload text : List ℕ)
    → IsBytes payload
    → parse_text payload ≡ some text
    → (is_utf8 text ≡ true) × ((reserved : ℕ) × (payload ≡ 0x54 ∷ 0x58 ∷ 1 ∷ reserved ∷ text))
unfolding parse_text
parse_text_only (a ∷ b ∷ v ∷ r ∷ rest) text (ha, (hb, h)) e =
    let parts : (a ≡ 0x54) × (b ≡ 0x58) × (v ≡ 1) × (rest ≡ text) × (is_utf8 rest ≡ true) =
      ground arith in
    let (pa, pb, pv, pt, ok) = parts in (rw (sym pt) ok, (r, rw (pa, pb, pv, pt) refl))
parse_text_only [] text h e = ground arith
parse_text_only (a ∷ []) text h e = ground arith
parse_text_only (a ∷ b ∷ []) text h e = ground arith
parse_text_only (a ∷ b ∷ v ∷ []) text h e = ground arith

-- Bytes parse as a text job exactly when they are its four-byte header, with any reserved byte, in
-- front of valid UTF-8, and they parse to that text.
pub parse_text_iff :
    (payload text : List ℕ)
    → IsBytes payload
    → (parse_text payload ≡ some text)
      ↔ ((is_utf8 text ≡ true) × ((reserved : ℕ) × (payload ≡ 0x54 ∷ 0x58 ∷ 1 ∷ reserved ∷ text)))
unfolding parse_text
parse_text_iff payload text h = (parse_text_only payload text h, λ (u, (r, e)). rw e (ground arith))

-- A received payload of bytes that parses as a raster is printed without a panic: the rows that it
-- holds reach the printer as they do in a job that the badge builds itself.
pub parse-PrintsJob :
    (payload : List ℕ) (job : Job) (energy speed feed_steps : ℕ) (rle : Bool)
    → IsBytes payload
    → parse payload ≡ some job
    → PrintsJob
        (build_job job.rows job.stride_bytes job.height_px energy speed feed_steps rle)
        energy
        speed
        feed_steps
        (replicate (row_bytes * 8) false ∷ page job.rows job.stride_bytes job.height_px 0)
parse-PrintsJob payload job energy speed feed_steps rle bytes e =
    let fits = parse-Fits payload job e in
    let (rows, _, _) = parse_rows payload job e in
    build_job-PrintsJob job.rows job.stride_bytes job.height_px energy speed feed_steps rle
      (rw rows (
        All-take (λ b. b < 2 ^ 8) _ (drop header_len payload)
          (IsBytes-drop header_len payload bytes)))
      (grind (arith, fits.full))
