-- ===== src/ThermoPrinter/Drive/Tests.antt =====
-- A small transfer, tick by tick, and the theorems at it.
use cdc_badge_plugins.Base.{
  ℕ, ◌≡◌, refl, Bool, true, false, Option, some, List, [], ◌∷◌, ◌++◌, length, arith,
}
use cdc_badge_plugins.ThermoPrinter.Proto.{
  buffer_full, build_job, job_rows, rows_from, slice, job_setup, job_finish, frame, frame_row,
  frame_row_plain, pad_row, reverse_bits, crc8, crc8_from, crc8_rounds, rle_encode_row, rle_runs,
  push_run, push_run_rounds, pixel,
}
use cdc_badge_plugins.ThermoPrinter.Drive.{
  Ras, Sending, Step, done, wrote, begin_send, refill_rounds, refill_send_buffer, waiting,
  write_chunk, pump_send, on_status, on_write_done,
}
use cdc_badge_plugins.ThermoPrinter.Drive.Pump.{Pumped, pump_send-Pumped}
use cdc_badge_plugins.ThermoPrinter.Drive.Transfer.{
  Transfer, begun, wrote_on, Transfer-prefix, Transfer-complete, deliver, deliver-build_job,
  job_bytes, begun-Owes,
}

run_pump_send : ℕ → ℕ → ℕ → Bool → Sending → Option Step
unfolding pump_send waiting refill_send_buffer refill_rounds write_chunk slice job_rows rows_from
    job_finish frame_row frame_row_plain pad_row reverse_bits frame crc8 crc8_from crc8_rounds
    rle_encode_row rle_runs push_run push_run_rounds pixel job_setup begin_send on_status
    on_write_done build_job
run_pump_send chunk_size now props written s = pump_send chunk_size now props written s

abbrev one_row : Ras
one_row = record { bits = 0xFF ∷ 0x01 ∷ []; stride = 2; height = 1 }

abbrev s₀ : Sending
s₀ = begin_send one_row 24000 16 0x70 false

next_of : Option Step → Sending
next_of (some (wrote bytes s)) = s
next_of _ = s₀

bytes_of : Option Step → List ℕ
bytes_of (some (wrote bytes s)) = bytes
bytes_of _ = []

-- The settings, the blank row, the row and the feed, in writes of at most 200 bytes.
abbrev after₁ : Sending
after₁ = next_of (run_pump_send 200 0 4 true s₀)

abbrev after₂ : Sending
after₂ = next_of (run_pump_send 200 5 4 true after₁)

abbrev after₃ : Sending
after₃ = next_of (run_pump_send 200 5 4 true after₂)

lengths :
    (length (bytes_of (run_pump_send 200 0 4 true s₀)) ≡ 84)
    × (length (bytes_of (run_pump_send 200 5 4 true after₁)) ≡ 56)
    × (length (bytes_of (run_pump_send 200 5 4 true after₂)) ≡ 10)
unfolding run_pump_send next_of bytes_of
lengths = (refl, refl, refl)

-- The whole job is written after the third tick, and the fourth ends it.
abbrev all_bytes : List ℕ
all_bytes =
    (bytes_of (run_pump_send 200 0 4 true s₀) ++ bytes_of (run_pump_send 200 5 4 true after₁))
    ++ bytes_of (run_pump_send 200 5 4 true after₂)

transfer : Transfer one_row 24000 16 0x70 false after₃ all_bytes
unfolding run_pump_send next_of bytes_of
transfer =
    wrote_on (bytes_of (run_pump_send 200 5 4 true after₂)) 200 5 4
      (wrote_on (bytes_of (run_pump_send 200 5 4 true after₁)) 200 5 4
        (wrote_on (bytes_of (run_pump_send 200 0 4 true s₀)) 200 0 4 begun refl) refl)
      refl

paused : waiting (on_status buffer_full 7 after₁) 10006 ≡ true
unfolding run_pump_send next_of
paused = refl

ended : pump_send 200 6 4 true after₃ ≡ some (done (record after₃ { off = 0 }))
unfolding run_pump_send next_of
ended = refl

pump_send-Pumped_example :
    Pumped (job_bytes one_row 24000 16 0x70 false) [] s₀ 5 true (pump_send 180 5 4 true s₀)
pump_send-Pumped_example =
    pump_send-Pumped (job_bytes one_row 24000 16 0x70 false) [] s₀ 180 5 4 true
      (begun-Owes one_row 24000 16 0x70 false (omega arith))

Transfer-prefix_example :
    (rest : List ℕ) × (build_job (0xFF ∷ 0x01 ∷ []) 2 1 24000 16 0x70 false
      ≡ some (all_bytes ++ rest))
Transfer-prefix_example =
    Transfer-prefix one_row 24000 16 0x70 false after₃ all_bytes (omega arith) transfer

Transfer-complete_example : build_job (0xFF ∷ 0x01 ∷ []) 2 1 24000 16 0x70 false ≡ some all_bytes
Transfer-complete_example =
    Transfer-complete one_row 24000 16 0x70 false after₃ (record after₃ { off = 0 }) all_bytes 200 6
      4 (omega arith) transfer ended

deliver-build_job_example : deliver 151 200 0 4 s₀ [] ≡ some all_bytes
unfolding run_pump_send next_of bytes_of
deliver-build_job_example =
    deliver-build_job one_row 24000 16 0x70 151 200 0 4 false all_bytes (omega arith) refl
      (omega arith)
