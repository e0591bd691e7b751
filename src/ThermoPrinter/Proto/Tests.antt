-- ===== src/ThermoPrinter/Proto/Tests.antt =====
-- Runs of the protocol on the vectors of its own tests, and the theorems at concrete inputs.
use cdc_badge_plugins.Base.{
  ℕ, ◌*◌, ◌≡◌, refl, true, false, Bool, Option, some, none, List, [], ◌∷◌, replicate, arith,
  u16_to_le,
}
use cdc_badge_plugins.ThermoPrinter.Proto.{
  row_bytes, crc8, crc8_from, crc8_rounds, frame, Status, buffer_full, parse_status, reverse_bits,
  pad_row, pixel, push_run, push_run_rounds, rle_runs, rle_encode_row, frame_row, frame_row_plain,
  job_setup, slice, rows_from, job_rows, job_finish, build_job, cmd_set_energy,
}
use cdc_badge_plugins.ThermoPrinter.Proto.Jobs.{page, PrintsJob, build_job-PrintsJob}

run_crc8 : List ℕ → ℕ
unfolding crc8 crc8_from crc8_rounds
run_crc8 bytes = crc8 bytes

run_frame : ℕ → List ℕ → List ℕ
unfolding frame run_crc8
run_frame cmd payload = frame cmd payload

run_parse_status : List ℕ → Option Status
unfolding parse_status run_crc8
run_parse_status bytes = parse_status bytes

run_rle : List ℕ → Option (List ℕ)
unfolding rle_encode_row rle_runs push_run push_run_rounds pixel
run_rle row = rle_encode_row row

run_build_job : List ℕ → ℕ → ℕ → ℕ → ℕ → ℕ → Bool → Option (List ℕ)
unfolding build_job job_setup job_rows rows_from job_finish slice frame_row frame_row_plain pad_row
    reverse_bits run_frame run_rle
run_build_job bits stride height energy speed feed_steps rle =
    build_job bits stride height energy speed feed_steps rle

crc8_check : crc8 (0x31 ∷ 0x32 ∷ 0x33 ∷ 0x34 ∷ 0x35 ∷ 0x36 ∷ 0x37 ∷ 0x38 ∷ 0x39 ∷ []) ≡ 0xF4
unfolding run_crc8
crc8_check = refl

energy_frame :
    frame cmd_set_energy (u16_to_le 12000)
    ≡ 0x51 ∷ 0x78 ∷ 0xAF ∷ 0x00 ∷ 0x02 ∷ 0x00 ∷ 0xE0 ∷ 0x2E ∷ 0x89 ∷ 0xFF ∷ []
unfolding run_frame
energy_frame = refl

full_notification :
    parse_status (0x51 ∷ 0x78 ∷ 0xAE ∷ 0x01 ∷ 0x01 ∷ 0x00 ∷ 0x10 ∷ 0x70 ∷ 0xFF ∷ [])
    ≡ some buffer_full
unfolding run_parse_status
full_notification = refl

bad_checksum :
    parse_status (0x51 ∷ 0x78 ∷ 0xAE ∷ 0x01 ∷ 0x01 ∷ 0x00 ∷ 0x10 ∷ 0x00 ∷ 0xFF ∷ []) ≡ none
unfolding run_parse_status
bad_checksum = refl

abbrev white : List ℕ
white = replicate row_bytes 0

white_runs : rle_encode_row white ≡ some (127 ∷ 127 ∷ 127 ∷ 3 ∷ [])
unfolding run_rle
white_runs = refl

black_then_white : rle_encode_row (0xFF ∷ replicate 47 0) ≡ some (0x88 ∷ 127 ∷ 127 ∷ 122 ∷ [])
unfolding run_rle
black_then_white = refl

alternating : rle_encode_row (replicate row_bytes 0xAA) ≡ none
unfolding run_rle
alternating = refl

row_past_the_end : build_job (0xFF ∷ []) 1 2 24000 16 0x70 false ≡ none
unfolding run_build_job
row_past_the_end = refl

abbrev white_coded : List ℕ
white_coded = 127 ∷ 127 ∷ 127 ∷ 3 ∷ []

build_job-PrintsJob_example :
    PrintsJob
      (build_job (0xFF ∷ 0x01 ∷ 0x80 ∷ 0x00 ∷ []) 2 2 24000 16 0x70 true)
      24000
      16
      0x70
      (replicate (row_bytes * 8) false ∷ page (0xFF ∷ 0x01 ∷ 0x80 ∷ 0x00 ∷ []) 2 2 0)
build_job-PrintsJob_example =
    build_job-PrintsJob (0xFF ∷ 0x01 ∷ 0x80 ∷ 0x00 ∷ []) 2 2 24000 16 0x70 true
      (omega arith, (omega arith, (omega arith, (omega arith, tt)))) (omega arith)
