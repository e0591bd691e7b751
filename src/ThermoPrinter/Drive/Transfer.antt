-- ===== src/ThermoPrinter/Drive/Transfer.antt =====
-- Whole transfers: what the printer has been sent after any sequence of ticks and notifications.
use cdc_badge_plugins.Base.{
  ℕ, zero, suc, ◌+◌, ◌-◌, ◌*◌, ◌≤◌, ◌<◌, ◌≡◌, refl, sym, ap, ◌∙◌, Bool, true, false, Option, none,
  some, List, [], ◌++◌, length, drop, length-append, arith,
}
use mathlib.Core.Path.{subst}
use cdc_badge_plugins.ThermoPrinter.Proto.{
  Status, buffer_full, ready, build_job, job_setup, job_finish,
}
use cdc_badge_plugins.ThermoPrinter.Proto.RowFrames.{row_frames, build_job-row_frames}
use cdc_badge_plugins.ThermoPrinter.Drive.{
  Ras, Sending, Step, wait, done, wrote, write_failed, begin_send, waiting, pump_send, on_status,
  on_write_done,
}
use cdc_badge_plugins.ThermoPrinter.Drive.Stream.{Owes, rows_left}
use cdc_badge_plugins.ThermoPrinter.Drive.Pump.{
  Pumped, waited, completed, failed, sent, pump_send-Pumped,
}

-- The states of a transfer with the bytes that the printer was sent: any ticks, notifications and
-- completions, in any order.
pub data Transfer (ras : Ras) (energy speed feed_steps : ℕ) (rle : Bool)
    : Sending → List ℕ → Type 0 where
  begun : Transfer ras energy speed feed_steps rle (begin_send ras energy speed feed_steps rle) []
  ticked :
      {s s' : Sending} {w : List ℕ} (chunk_size now props : ℕ)
      → Transfer ras energy speed feed_steps rle s w
      → pump_send chunk_size now props true s ≡ some (wait s')
      → Transfer ras energy speed feed_steps rle s' w
  wrote_on :
      {s s' : Sending} {w : List ℕ} (bytes : List ℕ) (chunk_size now props : ℕ)
      → Transfer ras energy speed feed_steps rle s w
      → pump_send chunk_size now props true s ≡ some (wrote bytes s')
      → Transfer ras energy speed feed_steps rle s' (w ++ bytes)
  notified :
      {s : Sending} {w : List ℕ} (status : Status) (now : ℕ)
      → Transfer ras energy speed feed_steps rle s w
      → Transfer ras energy speed feed_steps rle (on_status status now s) w
  acknowledged :
      {s : Sending} {w : List ℕ}
      → Transfer ras energy speed feed_steps rle s w
      → Transfer ras energy speed feed_steps rle (on_write_done s) w

-- The bytes of a job, for a raster whose rows lie in its buffer.
pub job_bytes : Ras → ℕ → ℕ → ℕ → Bool → List ℕ
job_bytes ras energy speed feed_steps rle =
    job_setup energy speed
    ++ (row_frames ras.bits ras.stride rle ras.height 0 ++ job_finish feed_steps)

pub begun-Owes :
    (ras : Ras) (energy speed feed_steps : ℕ) (rle : Bool)
    → ras.height * ras.stride ≤ length ras.bits
    → Owes
        (job_bytes ras energy speed feed_steps rle)
        []
        (begin_send ras energy speed feed_steps rle)
unfolding job_bytes begin_send rows_left
begun-Owes ras energy speed feed_steps rle h =
    let all : ras.height - 0 ≡ ras.height = omega arith in
    record {
      fits = h;
      reached = omega arith;
      closed = λ f. ground arith;
      whole =
          ap
            (λ n.
              job_setup energy speed
              ++ (row_frames ras.bits ras.stride rle n 0 ++ job_finish feed_steps))
            (sym all);
    }

-- What the outcome of a tick says, by its form.
Says : List ℕ → List ℕ → Sending → Option Step → Type 0
Says job w s none = ⊥
Says job w s (some (wait s')) = s' ≡ s
Says job w s (some (done s')) = job ≡ w
Says job w s (some (write_failed s')) = Unit
Says job w s (some (wrote bytes s')) = Owes job (w ++ bytes) s'

Pumped-Says :
    {job w : List ℕ} {s : Sending} {now : ℕ} {written : Bool} {r : Option Step}
    → Pumped job w s now written r
    → Says job w s r
unfolding Says
Pumped-Says (waited h) = refl
Pumped-Says (completed s' e) = e
Pumped-Says (failed s' e) = tt
Pumped-Says (sent bytes s' l p o) = o

pump_send-Says :
    {job w : List ℕ} {s : Sending} {r : Option Step} (chunk_size now props : ℕ)
    → Owes job w s
    → pump_send chunk_size now props true s ≡ r
    → Says job w s r
pump_send-Says {job} {w} {s} chunk_size now props o e =
    subst (λ r. Says job w s r) e
      (Pumped-Says (pump_send-Pumped job w s chunk_size now props true o))

same-Owes : {job w : List ℕ} {s s' : Sending} → Owes job w s → s' ≡ s → Owes job w s'
same-Owes {job} {w} o e = subst (λ s. Owes job w s) (sym e) o

Transfer-Owes :
    {ras : Ras} {energy speed feed_steps : ℕ} {rle : Bool} {s : Sending} {w : List ℕ}
    → ras.height * ras.stride ≤ length ras.bits
    → Transfer ras energy speed feed_steps rle s w
    → Owes (job_bytes ras energy speed feed_steps rle) w s
unfolding rows_left on_status on_write_done Says
Transfer-Owes h begun = begun-Owes _ _ _ _ _ h
Transfer-Owes h (ticked c now p t e) =
    let o = Transfer-Owes h t in same-Owes o (pump_send-Says c now p o e)
Transfer-Owes h (wrote_on b c now p t e) = pump_send-Says c now p (Transfer-Owes h t) e
Transfer-Owes h (notified buffer_full now t) =
    let o = Transfer-Owes h t in
    record { fits = o.fits; reached = o.reached; closed = o.closed; whole = o.whole }
Transfer-Owes h (notified ready now t) =
    let o = Transfer-Owes h t in
    record { fits = o.fits; reached = o.reached; closed = o.closed; whole = o.whole }
Transfer-Owes h (acknowledged t) =
    let o = Transfer-Owes h t in
    record { fits = o.fits; reached = o.reached; closed = o.closed; whole = o.whole }

-- At any moment of a transfer of a raster whose rows lie in its buffer, after any sequence of ticks,
-- notifications and completions, the printer has been sent a beginning of what `build_job` returns.
pub Transfer-prefix :
    (ras : Ras) (energy speed feed_steps : ℕ) (rle : Bool) (s : Sending) (w : List ℕ)
    → ras.height * ras.stride ≤ length ras.bits
    → Transfer ras energy speed feed_steps rle s w
    → (rest : List ℕ) × (build_job ras.bits ras.stride ras.height energy speed feed_steps rle
        ≡ some (w ++ rest))
unfolding job_bytes
Transfer-prefix ras energy speed feed_steps rle s w h t =
    let o = Transfer-Owes h t in
    let job = build_job-row_frames ras.bits ras.stride ras.height energy speed feed_steps rle h in
    (drop s.off s.buf ++ rows_left s, job ∙ ap some o.whole)

-- When a tick finds a transfer done, of a raster whose rows lie in its buffer and after any sequence
-- of ticks, notifications and completions, the printer has been sent all that `build_job` returns,
-- byte for byte, whatever the chunk sizes and the pauses were.
pub Transfer-complete :
    (ras : Ras) (energy speed feed_steps : ℕ) (rle : Bool) (s s' : Sending) (w : List ℕ)
    (chunk_size now props : ℕ)
    → ras.height * ras.stride ≤ length ras.bits
    → Transfer ras energy speed feed_steps rle s w
    → pump_send chunk_size now props true s ≡ some (done s')
    → build_job ras.bits ras.stride ras.height energy speed feed_steps rle ≡ some w
unfolding job_bytes Says
Transfer-complete ras energy speed feed_steps rle s s' w chunk_size now props h t e =
    build_job-row_frames ras.bits ras.stride ras.height energy speed feed_steps rle h
    ∙ ap some (pump_send-Says chunk_size now props (Transfer-Owes h t) e)

-- `n` ticks of a link on which every write is taken and acknowledged before the next tick.
pub deliver : ℕ → ℕ → ℕ → ℕ → Sending → List ℕ → Option (List ℕ)
deliver zero chunk_size now props s w = none
deliver (suc n) chunk_size now props s w = elim (pump_send chunk_size now props true s) [
  | none ↦ none
  | some (wait s') ↦ deliver n chunk_size now props s' w
  | some (done s') ↦ some w
  | some (write_failed s') ↦ none
  | some (wrote bytes s') ↦ deliver n chunk_size now props (on_write_done s') (w ++ bytes)
]

on_write_done-Owes : {job w : List ℕ} {s : Sending} → Owes job w s → Owes job w (on_write_done s)
unfolding on_write_done rows_left
on_write_done-Owes o = record {
  fits = o.fits;
  reached = o.reached;
  closed = o.closed;
  whole = o.whole;
}

flowing : (s : Sending) (now : ℕ) → s.gated ≡ false → s.paused_since ≡ none → waiting s now ≡ false
unfolding waiting
flowing s now g p = rw (g, p) refl

owed_at_most : (job w : List ℕ) (s : Sending) → Owes job w s → length w ≤ length job
owed_at_most job w s o =
    omega (arith, ap length o.whole, length-append w (drop s.off s.buf ++ rows_left s))

deliver-Owes :
    (n chunk_size now props : ℕ) (job w : List ℕ) (s : Sending)
    → Owes job w s
    → s.gated ≡ false
    → s.paused_since ≡ none
    → length job < length w + n
    → deliver n chunk_size now props s w ≡ some job
unfolding deliver on_write_done
deliver-Owes zero c now props job w s o g p l = absurd (omega (arith, owed_at_most job w s o))
deliver-Owes (suc n) c now props job w s o g p l =
    tick (pump_send c now props true s)
      (λ bytes s' some_bytes p' o'.
        deliver-Owes n c now props job (w ++ bytes) (on_write_done s') (on_write_done-Owes o') refl
          p' (omega (arith, length-append w bytes)))
      (pump_send-Pumped job w s c now props true o)
  where
    tick :
        (r : Option Step)
        → ((bytes : List ℕ) (s' : Sending)
            → 1 ≤ length bytes
            → s'.paused_since ≡ none
            → Owes job (w ++ bytes) s'
            → deliver n c now props (on_write_done s') (w ++ bytes) ≡ some job)
        → Pumped job w s now true r
        → (elim r [
          | none ↦ none
          | some (wait s') ↦ deliver n c now props s' w
          | some (done s') ↦ some w
          | some (write_failed s') ↦ none
          | some (wrote bytes s') ↦ deliver n c now props (on_write_done s') (w ++ bytes)
        ])
          ≡ some job
    tick _ later (waited held) = ground (arith, flowing s now g p)
    tick _ later (completed s' e) = ap some (sym e)
    tick _ later (failed s' e) = ground arith
    tick _ later (sent bytes s' some_bytes p' o') = later bytes s' some_bytes p' o'

-- On a link that takes and acknowledges every write, with no pause reported, the transfer of a raster
-- whose rows lie in its buffer ends: for any chunk size and properties, more ticks than the job has
-- bytes are enough, and what was sent is all that `build_job` returns.
pub deliver-build_job :
    (ras : Ras) (energy speed feed_steps n chunk_size now props : ℕ) (rle : Bool) (job : List ℕ)
    → ras.height * ras.stride ≤ length ras.bits
    → build_job ras.bits ras.stride ras.height energy speed feed_steps rle ≡ some job
    → length job < n
    → deliver n chunk_size now props (begin_send ras energy speed feed_steps rle) [] ≡ some job
unfolding begin_send job_bytes
deliver-build_job ras energy speed feed_steps n chunk_size now props rle job h e l =
    let whole = build_job-row_frames ras.bits ras.stride ras.height energy speed feed_steps rle h in
    let same : some (job_bytes ras energy speed feed_steps rle) ≡ some job = sym whole ∙ e in
    let o = begun-Owes ras energy speed feed_steps rle h in
    let bytes : job_bytes ras energy speed feed_steps rle ≡ job =
      ap (λ r. elim r [ none ↦ [] | some l ↦ l ]) same in
    let s = begin_send ras energy speed feed_steps rle in
    deliver-Owes n chunk_size now props job [] s (subst (λ j. Owes j [] s) bytes o) refl refl
      (omega arith)
