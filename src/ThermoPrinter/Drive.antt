-- ===== src/ThermoPrinter/Drive.antt =====
-- The sending of a job, `Drive::Sending` in plugins/thermo_printer/src/lib.rs: the buffer that is
-- refilled with rows and drained by writes, and the flow control. What the Bluetooth host answers
-- (the chunk size, the clock, the properties, whether a write succeeds) is an argument. Proofs are
-- in the modules below.
pub mod Stream
pub mod Pump
pub mod Transfer
mod Tests
use package.cdc_badge_plugins.Base.{
  ℕ, zero, suc, ◌+◌, ◌-◌, min, max, bit_and, Bool, true, false, not, ◌&&◌, ◌||◌, ltb, leb, ◌==◌,
  if◌then◌else◌,
}
use package.cdc_badge_plugins.Base.{Option, none, some, List, [], ◌∷◌, length, u32}
use package.cdc_badge_plugins.ThermoPrinter.Proto.{
  Status, buffer_full, ready, job_setup, job_rows, job_finish, slice,
}

abbrev pub rows_per_refill : ℕ
rows_per_refill = 32

abbrev pub gate_every : ℕ
gate_every = 8

abbrev pub pause_max_ms : ℕ
pause_max_ms = 10000

-- `ble::PROP_WRITE_NO_RSP` and `ble::PROP_WRITE`.
abbrev pub prop_write_no_rsp : ℕ
prop_write_no_rsp = 0x04

abbrev pub prop_write : ℕ
prop_write = 0x08

pub record Ras : Type 0 where
  pub bits : List ℕ
  pub stride : ℕ
  pub height : ℕ

pub record Sending : Type 0 where
  pub ras : Ras
  pub next_row : ℕ
  pub finished : Bool
  pub feed_steps : ℕ
  pub rle : Bool
  pub buf : List ℕ
  pub off : ℕ
  pub gated : Bool
  pub since_gate : ℕ
  pub paused_since : Option ℕ

-- The state that `begin_send` sets, from the settings.
pub begin_send : Ras → ℕ → ℕ → ℕ → Bool → Sending
begin_send ras energy speed feed_steps rle = record {
  ras = ras;
  next_row = 0;
  finished = false;
  feed_steps = feed_steps;
  rle = rle;
  buf = job_setup energy speed;
  off = 0;
  gated = false;
  since_gate = 0;
  paused_since = none;
}

-- The loop of `refill_send_buffer`, `n` rounds of it: `none` is a panic, or a loop that goes on.
pub refill_rounds : ℕ → Sending → Option (Bool × Sending)
refill_rounds zero s = none
refill_rounds (suc n) s =
    let to = min (s.next_row + rows_per_refill) s.ras.height in
    let rows : Option (Bool × Sending) =
      elim (job_rows s.ras.bits s.ras.stride s.next_row to s.rle) [
        | none ↦ none
        | some buf ↦ refill_rounds n (record s { off = 0; buf = buf; next_row = to })
      ] in
    let finish =
      refill_rounds n (record s { off = 0; buf = job_finish s.feed_steps; finished = true }) in
    if ltb s.off (length s.buf)
    then some (true, s)
    else if ltb s.next_row s.ras.height
    then rows
    else if not s.finished
    then finish
    else some (false, record s { off = 0 })

-- A round that frames rows or closes the job is followed by one that returns.
pub refill_send_buffer : Sending → Option (Bool × Sending)
refill_send_buffer s = refill_rounds 2 s

-- What one `pump_send` does.
pub data Step : Type 0 where
  wait done : Sending → Step
  write_failed : Sending → Step
  wrote : List ℕ → Sending → Step

-- `gated || paused_since.is_some_and(..)`.
pub waiting : Sending → ℕ → Bool
waiting s now =
    s.gated || elim s.paused_since [ none ↦ false | some since ↦ ltb (now - since) pause_max_ms ]

-- The write of one chunk, and the state after it.
pub write_chunk : ℕ → ℕ → Bool → Sending → Option Step
write_chunk chunk props written s =
    let end = min (s.off + chunk) (length s.buf) in
    let last = s.finished && end == length s.buf in
    let can_no_rsp = not (bit_and props prop_write_no_rsp == 0) || props == 0 in
    let can_rsp = not (bit_and props prop_write == 0) in
    let gate_due = leb gate_every (s.since_gate + 1) || last in
    let with_response = not can_no_rsp || (can_rsp && gate_due) in
    elim (slice s.buf s.off end) [
      | none ↦ none
      | some bytes ↦
          if not written
          then some (write_failed s)
          else some (
              wrote bytes (
                if with_response
                then record s { off = end; gated = true; since_gate = 0 }
                else record s { off = end; since_gate = u32 (s.since_gate + 1) }))
    ]

-- `pump_send`: the chunk size as `chunk_size` gives it, the clock, the properties, and whether the
-- host takes a write.
pub pump_send : ℕ → ℕ → ℕ → Bool → Sending → Option Step
pump_send chunk_size now props written s =
    if waiting s now then some (wait s) else elim (refill_send_buffer s) [
      | none ↦ none
      | some (more, s') ↦
          if more
          then write_chunk (max chunk_size 20) props written (record s' { paused_since = none })
          else some (done s')
    ]

-- A status notification, and the completion of a write without an error.
pub on_status : Status → ℕ → Sending → Sending
on_status buffer_full now s = record s { paused_since = some now }
on_status ready now s = record s { paused_since = none }

pub on_write_done : Sending → Sending
on_write_done s = record s { gated = false }
