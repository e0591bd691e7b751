-- ===== src/ThermoPrinter/Drive/Pump.antt =====
-- One tick: the bytes that it writes are the next ones of the job.
use cdc_badge_plugins.Base.{
  ℕ, ◌+◌, ◌-◌, ◌≤◌, ◌<◌, ◌≡◌, refl, sym, ap, ◌∙◌, min, max, Bool, true, false, Bool-cases, inl, inr,
  Option, none, some, List, ◌++◌, length, take, drop, length-take, length-drop, drop-drop,
  take-append-drop, arith, if◌then◌else◌, u32,
}
use mathlib.Core.List.{append_assoc}
use cdc_badge_plugins.ThermoPrinter.Proto.Jobs.{slice_lem}
use cdc_badge_plugins.ThermoPrinter.Drive.{
  Sending, Step, wait, done, wrote, write_failed, refill_send_buffer, waiting, write_chunk,
  pump_send,
}
use cdc_badge_plugins.ThermoPrinter.Drive.Stream.{
  Owes, rows_left, Refilled, filled, consumed, refill_send_buffer-Refilled,
}

-- What a tick may end with, given what the job still owes.
pub data Pumped (job w : List ℕ) (s : Sending) (now : ℕ) (written : Bool)
    : Option Step → Type 0 where
  waited : waiting s now ≡ true → Pumped job w s now written (some (wait s))
  completed : (s' : Sending) → job ≡ w → Pumped job w s now written (some (done s'))
  failed : (s' : Sending) → written ≡ false → Pumped job w s now written (some (write_failed s'))
  sent :
      (bytes : List ℕ) (s' : Sending)
      → 1 ≤ length bytes
      → s'.paused_since ≡ none
      → Owes job (w ++ bytes) s'
      → Pumped job w s now written (some (wrote bytes s'))

-- The chunk up to `end`, and the state behind it.
moved_to : ℕ → Sending → Sending
moved_to end s = record s { off = end }

chunk-Owes :
    (job w : List ℕ) (s : Sending) (end : ℕ)
    → Owes job w s
    → s.off ≤ end
    → Owes job (w ++ take (end - s.off) (drop s.off s.buf)) (moved_to end s)
unfolding moved_to rows_left
chunk-Owes job w s end o h =
    let rest = drop s.off s.buf in
    let n = end - s.off in
    let reach : s.off + n ≡ end = omega arith in
    let split : rest ≡ take n rest ++ drop end s.buf =
      sym (take-append-drop n rest)
      ∙ ap (λ l. take n rest ++ l) (drop-drop s.off n s.buf ∙ ap (λ k. drop k s.buf) reach) in
    record {
      fits = o.fits;
      reached = o.reached;
      closed = o.closed;
      whole =
          o.whole
          ∙ ap (λ l. w ++ (l ++ rows_left s)) split
          ∙ ap (λ l. w ++ l) (append_assoc (take n rest) (drop end s.buf) (rows_left s))
          ∙ sym (append_assoc w (take n rest) (drop end s.buf ++ rows_left s));
    }

counted :
    (job w : List ℕ) (s : Sending) (end : ℕ) (gate : Bool)
    → Owes job w (moved_to end s)
    → Owes job w (
        if gate
        then record s { off = end; gated = true; since_gate = 0 }
        else record s { off = end; since_gate = u32 (s.since_gate + 1) })
unfolding moved_to rows_left
counted job w s end true o = record {
  fits = o.fits;
  reached = o.reached;
  closed = o.closed;
  whole = o.whole;
}
counted job w s end false o = record {
  fits = o.fits;
  reached = o.reached;
  closed = o.closed;
  whole = o.whole;
}

counted_paused :
    (s : Sending) (end : ℕ) (gate : Bool)
    → s.paused_since ≡ none
    → (if gate
        then record s { off = end; gated = true; since_gate = 0 }
        else record s { off = end; since_gate = u32 (s.since_gate + 1) }).paused_since
      ≡ none
counted_paused s end true p = p
counted_paused s end false p = p

write_chunk-Pumped :
    (job w : List ℕ) (s s₀ : Sending) (chunk props now : ℕ) (written : Bool)
    → Owes job w s
    → s.off < length s.buf
    → 1 ≤ chunk
    → s.paused_since ≡ none
    → Pumped job w s₀ now written (write_chunk chunk props written s)
unfolding write_chunk moved_to
write_chunk-Pumped job w s s₀ chunk props now written o h c p =
    let end = min (s.off + chunk) (length s.buf) in
    let read = slice_lem s.buf s.off end (omega arith) (omega arith) in
    let o' = chunk-Owes job w s end o (omega arith) in
    let bytes = take (end - s.off) (drop s.off s.buf) in
    let some_bytes : 1 ≤ length bytes =
      omega (arith, length-take (end - s.off) (drop s.off s.buf), length-drop s.off s.buf) in
    rw (read, write_chunk)
      (elim (Bool-cases written) [
        | inl taken ↦ rw taken (
            sent bytes _ some_bytes (counted_paused s end _ p)
              (counted job (w ++ bytes) s end _ o'))
        | inr refused ↦ rw refused (failed s refl)
      ])

-- A tick on a job that is under way does not panic. It waits only if the flow control says so, ends
-- only if the printer has the whole job, and fails only if the host refuses the write; otherwise it
-- writes at least one byte, and they are the next ones of the job.
pub pump_send-Pumped :
    (job w : List ℕ) (s : Sending) (chunk_size now props : ℕ) (written : Bool)
    → Owes job w s
    → Pumped job w s now written (pump_send chunk_size now props written s)
unfolding pump_send rows_left
pump_send-Pumped job w s chunk_size now props written o = elim (Bool-cases (waiting s now)) [
  | inl held ↦ rw held (waited held)
  | inr go ↦ rw go (refilled (refill_send_buffer s) (refill_send_buffer-Refilled job w s o))
]
  where
    refilled :
        (r : Option (Bool × Sending))
        → Refilled job w r
        → Pumped job w s now written (elim r [
          | none ↦ none
          | some (more, s') ↦
              if more
              then write_chunk (max chunk_size 20) props written (record s' { paused_since = none })
              else some (done s')
        ])
    refilled _ (filled s' o' h) =
        write_chunk-Pumped job w (record s' { paused_since = none }) s (max chunk_size 20) props now
          written
          (record { fits = o'.fits; reached = o'.reached; closed = o'.closed; whole = o'.whole }) h
          (omega arith) refl
    refilled _ (consumed s' e) = completed s' e
