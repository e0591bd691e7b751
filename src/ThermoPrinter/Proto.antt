-- ===== src/ThermoPrinter/Proto.antt =====
-- The cat-printer protocol, plugins/thermo_printer/src/proto.rs: checksum, frames, status
-- notifications, row encoding and the byte stream of a job. Proofs are in the modules below.
pub mod Frames
pub mod Notify
pub mod Runs
pub mod Jobs
pub mod Bytes
pub mod Pixels
pub mod Rows
pub mod RowFrames
mod Tests
use package.cdc_badge_plugins.Base.{
  ℕ, zero, suc, ◌+◌, ◌-◌, ◌*◌, ◌/◌, ◌%◌, ◌^◌, min, max, bit_and, bit_or, bit_xor,
}
use package.cdc_badge_plugins.Base.{
  Bool, true, false, not, ◌&&◌, ◌||◌, ltb, leb, ◌==◌, if◌then◌else◌,
}
use package.cdc_badge_plugins.Base.{Option, none, some, List, [], ◌∷◌, ◌++◌, map}
use package.cdc_badge_plugins.Base.{
  length, get_or, take, drop, replicate, u8, u16_to_le, ◌<<<◌, ◌>>>◌,
}

abbrev pub width_px : ℕ
width_px = 384

abbrev pub row_bytes : ℕ
row_bytes = width_px / 8

-- `clamp(1, 12)`.
pub qr_scale : ℕ → ℕ
qr_scale modules = min (max (width_px / (modules + 4)) 1) 12

abbrev pub cmd_feed_paper : ℕ
cmd_feed_paper = 0xA1

abbrev pub cmd_draw_bitmap : ℕ
cmd_draw_bitmap = 0xA2

abbrev pub cmd_device_status : ℕ
cmd_device_status = 0xAE

abbrev pub cmd_set_energy : ℕ
cmd_set_energy = 0xAF

abbrev pub cmd_set_speed : ℕ
cmd_set_speed = 0xBD

abbrev pub cmd_apply_energy : ℕ
cmd_apply_energy = 0xBE

abbrev pub cmd_draw_bitmap_rle : ℕ
cmd_draw_bitmap_rle = 0xBF

pub data Status : Type 0 where
  buffer_full ready : Status

-- The inner loop of `crc8`, with `n` rounds to go. The shift is on u8.
unfoldable pub crc8_rounds : ℕ → ℕ → ℕ
crc8_rounds zero crc = crc
crc8_rounds (suc n) crc =
    crc8_rounds n
      (if not (bit_and crc 0x80 == 0) then bit_xor (u8 (crc <<< 1)) 0x07 else u8 (crc <<< 1))

unfoldable pub crc8_from : ℕ → List ℕ → ℕ
crc8_from crc [] = crc
crc8_from crc (b ∷ bytes) = crc8_from (crc8_rounds 8 (bit_xor crc b)) bytes

unfoldable pub crc8 : List ℕ → ℕ
crc8 bytes = crc8_from 0 bytes

unfoldable pub frame : ℕ → List ℕ → List ℕ
frame cmd payload =
    0x51
    ∷ 0x78
    ∷ cmd
    ∷ 0x00
    ∷ u8 (bit_and (length payload) 0xFF)
    ∷ u8 (length payload >>> 8)
    ∷ (payload ++ crc8 payload ∷ 0xFF ∷ [])

pub parse_status : List ℕ → Option Status
parse_status bytes =
    let at = λ (i : ℕ). get_or bytes i 0 in
    if not (length bytes == 9)
      || not (at 0 == 0x51)
      || not (at 1 == 0x78)
      || not (at 2 == cmd_device_status)
      || not (at 3 == 0x01)
      || not (at 4 == 0x01)
      || not (at 5 == 0x00)
      || not (at 8 == 0xFF)
    then none
    else if not (crc8 (at 6 ∷ []) == at 7)
    then none
    else if at 6 == 0x10
    then some buffer_full
    else if at 6 == 0x00
    then some ready
    else none

unfoldable pub reverse_bits : ℕ → ℕ
reverse_bits b =
    let b4 = bit_or (bit_and b 0xF0 >>> 4) (u8 (bit_and b 0x0F <<< 4)) in
    let b2 = bit_or (bit_and b4 0xCC >>> 2) (u8 (bit_and b4 0x33 <<< 2)) in
    bit_or (bit_and b2 0xAA >>> 1) (u8 (bit_and b2 0x55 <<< 1))

-- `resize(ROW_BYTES, 0)` of a row that has at most that many bytes.
unfoldable pub pad_row : List ℕ → List ℕ
pad_row row = row ++ replicate (row_bytes - length row) 0

unfoldable pub frame_row_plain : List ℕ → List ℕ
frame_row_plain row = frame cmd_draw_bitmap (pad_row (map reverse_bits (take row_bytes row)))

-- Pixel `x` of a packed row, most significant bit first; `x` is below 8 * row.len().
unfoldable pub pixel : List ℕ → ℕ → Bool
pixel row x = not (bit_and (get_or row (x >>> 3) 0) (0x80 >>> bit_and x 7) == 0)

-- The `while` loop; `len` rounds are more than enough, since each takes at least one off.
unfoldable pub push_run_rounds : ℕ → List ℕ → Bool → ℕ → List ℕ
push_run_rounds zero out val len = out
push_run_rounds (suc n) out val len =
    let chunk = min len 127 in
    let more =
      push_run_rounds n (out ++ (if val then bit_or 0x80 chunk else chunk) ∷ []) val
        (len - chunk) in
    if ltb 0 len then more else out

unfoldable pub push_run : List ℕ → Bool → ℕ → List ℕ
push_run out val len = push_run_rounds len out val len

abbrev pub bool_eq : Bool → Bool → Bool
bool_eq true b = b
bool_eq false b = not b

-- The loop over the pixels from `x` on, `n` of them, and the last run after it.
unfoldable pub rle_runs : List ℕ → ℕ → ℕ → List ℕ → Bool → ℕ → List ℕ
rle_runs row zero x runs run_val run_len = push_run runs run_val run_len
rle_runs row (suc n) x runs run_val run_len =
    let same = bool_eq (pixel row x) run_val in
    rle_runs row n (x + 1) (if same then runs else push_run runs run_val run_len)
      (if same then run_val else pixel row x) (if same then run_len + 1 else 1)

unfoldable pub rle_encode_row : List ℕ → Option (List ℕ)
rle_encode_row row =
    let runs = rle_runs row (length row * 8) 0 [] false 0 in
    if ltb (length runs) (length row) then some runs else none

unfoldable pub frame_row : List ℕ → Bool → List ℕ
frame_row row rle =
    if rle && length row == row_bytes
    then elim (rle_encode_row row) [
      | some runs ↦ frame cmd_draw_bitmap_rle runs
      | none ↦ frame_row_plain row
    ]
    else frame_row_plain row

unfoldable pub job_setup : ℕ → ℕ → List ℕ
job_setup energy speed =
    frame cmd_set_speed (speed ∷ [])
    ++ (frame cmd_set_energy (u16_to_le energy)
        ++ (frame cmd_apply_energy (0x01 ∷ []) ++ frame_row_plain (replicate row_bytes 0)))

-- `&bits[lo..hi]`: `none` is the panic of a range that runs past the end.
unfoldable pub slice {ℓ} : {A : Type ℓ} → List A → ℕ → ℕ → Option (List A)
slice bits lo hi =
    if ltb hi lo || ltb (length bits) hi then none else some (take (hi - lo) (drop lo bits))

-- The loop over the rows from `y` on, `n` of them.
unfoldable pub rows_from : List ℕ → ℕ → Bool → ℕ → ℕ → List ℕ → Option (List ℕ)
rows_from bits stride rle zero y out = some out
rows_from bits stride rle (suc n) y out =
    elim (slice bits (y * stride) (y * stride + min row_bytes stride)) [
      | none ↦ none
      | some row ↦ rows_from bits stride rle n (y + 1) (out ++ frame_row row rle)
    ]

unfoldable pub job_rows : List ℕ → ℕ → ℕ → ℕ → Bool → Option (List ℕ)
job_rows bits stride lo hi rle = rows_from bits stride rle (hi - lo) lo []

unfoldable pub job_finish : ℕ → List ℕ
job_finish feed_steps = if ltb 0 feed_steps then frame cmd_feed_paper (u16_to_le feed_steps) else []

unfoldable pub build_job : List ℕ → ℕ → ℕ → ℕ → ℕ → ℕ → Bool → Option (List ℕ)
build_job bits stride height energy speed feed_steps rle =
    elim (job_rows bits stride 0 height rle) [
      | none ↦ none
      | some rows ↦ some (job_setup energy speed ++ (rows ++ job_finish feed_steps))
    ]
