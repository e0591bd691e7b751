-- ===== src/ThermoPrinter/Drive/Stream.antt =====
-- What a sending job still owes the printer, and that refills and writes account for every byte.
use cdc_badge_plugins.Base.{
  ℕ, zero, suc, ◌+◌, ◌-◌, ◌*◌, ◌≤◌, ◌<◌, ◌≡◌, refl, sym, ap, ◌∙◌, min, Bool, true, false,
  Bool-cases, inl, inr, Option, some, List, [], ◌∷◌, ◌++◌, length, drop, arith, if◌then◌else◌, ltb,
}
use mathlib.Core.Path.{ap₂}
use mathlib.Core.List.{append_assoc, append-nil}
use cdc_badge_plugins.ThermoPrinter.Proto.{job_finish}
use cdc_badge_plugins.ThermoPrinter.Proto.RowFrames.{
  row_frames, row_frames_zero, job_rows-row_frames, row_frames-add, row_frames-nonempty,
}
use cdc_badge_plugins.ThermoPrinter.Drive.{
  Sending, rows_per_refill, refill_rounds, refill_send_buffer,
}

-- The rows that are not framed yet, and the closing frame.
unfoldable pub rows_left : Sending → List ℕ
rows_left s =
    row_frames s.ras.bits s.ras.stride s.rle (s.ras.height - s.next_row) s.next_row
    ++ (if s.finished then [] else job_finish s.feed_steps)

-- Of `job`, the bytes `w` are written, and the state holds the rest.
pub record Owes (job w : List ℕ) (s : Sending) : Type 0 where
  pub fits : s.ras.height * s.ras.stride ≤ length s.ras.bits
  pub reached : s.next_row ≤ s.ras.height
  pub closed : s.finished ≡ true → s.next_row ≡ s.ras.height
  pub whole : job ≡ w ++ (drop s.off s.buf ++ rows_left s)

drop-all : (n : ℕ) (xs : List ℕ) → length xs ≤ n → drop n xs ≡ []
drop-all zero [] h = refl
drop-all zero (x ∷ xs) h = absurd (omega arith)
drop-all (suc n) [] h = refl
drop-all (suc n) (x ∷ xs) h = drop-all n xs (omega arith)

-- A state whose buffer is used up owes the rows alone.
Owes-rows :
    (job w : List ℕ) (s : Sending) → Owes job w s → length s.buf ≤ s.off → job ≡ w ++ rows_left s
Owes-rows job w s o h = o.whole ∙ ap (λ l. w ++ (l ++ rows_left s)) (drop-all s.off s.buf h)

next_to : Sending → ℕ
next_to s = min (s.next_row + rows_per_refill) s.ras.height

framed : Sending → Sending
framed s = record s {
  off = 0;
  buf = row_frames s.ras.bits s.ras.stride s.rle (next_to s - s.next_row) s.next_row;
  next_row = next_to s;
}

framed-Owes :
    (job w : List ℕ) (s : Sending)
    → Owes job w s
    → length s.buf ≤ s.off
    → s.next_row < s.ras.height
    → Owes job w (framed s)
unfolding framed next_to rows_left
framed-Owes job w s o used more =
    let to = next_to s in
    let n = to - s.next_row in
    let m = s.ras.height - to in
    let count : s.ras.height - s.next_row ≡ n + m = omega arith in
    let at_end : s.next_row + n ≡ to = omega arith in
    let frames = row_frames s.ras.bits s.ras.stride s.rle in
    let rows : frames (s.ras.height - s.next_row) s.next_row ≡ frames n s.next_row ++ frames m to =
      ap (λ k. frames k s.next_row) count
      ∙ row_frames-add s.ras.bits s.ras.stride s.rle n m s.next_row
      ∙ ap (λ y. frames n s.next_row ++ frames m y) at_end in
    let finish = if s.finished then [] else job_finish s.feed_steps in
    record {
      fits = o.fits;
      reached = omega arith;
      closed = λ f. omega (arith, o.closed f);
      whole =
          Owes-rows job w s o used
          ∙ ap (λ l. w ++ l)
              (ap (λ l. l ++ finish) rows
                ∙ append_assoc (frames n s.next_row) (frames m to) finish);
    }

closed_up : Sending → Sending
closed_up s = record s { off = 0; buf = job_finish s.feed_steps; finished = true }

closed_up-Owes :
    (job w : List ℕ) (s : Sending)
    → Owes job w s
    → length s.buf ≤ s.off
    → s.ras.height ≤ s.next_row
    → s.finished ≡ false
    → Owes job w (closed_up s)
unfolding closed_up rows_left
closed_up-Owes job w s o used all unfinished =
    let last : s.ras.height - s.next_row ≡ 0 = omega arith in
    let rows : row_frames s.ras.bits s.ras.stride s.rle (s.ras.height - s.next_row) s.next_row
        ≡ [] =
      row_frames_zero s.ras.bits s.ras.stride s.rle (s.ras.height - s.next_row) s.next_row last in
    record {
      fits = o.fits;
      reached = o.reached;
      closed = λ f. omega (arith, o.reached);
      whole =
          Owes-rows job w s o used
          ∙ ap (λ l. w ++ l)
              (ap₂ (λ (l : List ℕ) (b : Bool). l ++ (if b then [] else job_finish s.feed_steps))
                  rows unfinished
                ∙ sym (append-nil (job_finish s.feed_steps))
                ∙ ap (λ l. job_finish s.feed_steps ++ (l ++ [])) (sym rows));
    }

-- What a refill ends with: bytes to write, or nothing left to send.
pub data Refilled (job w : List ℕ) : Option (Bool × Sending) → Type 0 where
  filled : (s : Sending) → Owes job w s → s.off < length s.buf → Refilled job w (some (true, s))
  consumed : (s : Sending) → job ≡ w → Refilled job w (some (false, s))

-- One round of the loop, case by case.
round_full : (n : ℕ) (s : Sending) → s.off < length s.buf → refill_rounds (suc n) s ≡ some (true, s)
unfolding refill_rounds
round_full n s h = ground arith

round_rows :
    (job w : List ℕ) (n : ℕ) (s : Sending)
    → Owes job w s
    → length s.buf ≤ s.off
    → s.next_row < s.ras.height
    → refill_rounds (suc n) s ≡ refill_rounds n (framed s)
unfolding refill_rounds framed next_to
round_rows job w n s o used more =
    let to = next_to s in
    let below : to * s.ras.stride ≤ length s.ras.bits = grind (arith, o.fits) in
    let rows =
      job_rows-row_frames s.ras.bits s.ras.stride s.next_row to s.rle (omega arith) below in
    let full : ltb s.off (length s.buf) ≡ false = ground arith in
    let rest : ltb s.next_row s.ras.height ≡ true = ground arith in rw (full, rest, rows) refl

round_close :
    (n : ℕ) (s : Sending)
    → length s.buf ≤ s.off
    → s.ras.height ≤ s.next_row
    → s.finished ≡ false
    → refill_rounds (suc n) s ≡ refill_rounds n (closed_up s)
unfolding refill_rounds closed_up
round_close n s used all unfinished = ground arith

round_end :
    (n : ℕ) (s : Sending)
    → length s.buf ≤ s.off
    → s.ras.height ≤ s.next_row
    → s.finished ≡ true
    → refill_rounds (suc n) s ≡ some (false, record s { off = 0 })
unfolding refill_rounds
round_end n s used all finished = ground arith

refill_full :
    (job w : List ℕ) (n : ℕ) (s : Sending)
    → Owes job w s
    → s.off < length s.buf
    → Refilled job w (refill_rounds (suc n) s)
refill_full job w n s o h = rw (round_full n s h) (filled s o h)

refill_end :
    (job w : List ℕ) (n : ℕ) (s : Sending)
    → Owes job w s
    → length s.buf ≤ s.off
    → s.finished ≡ true
    → Refilled job w (refill_rounds (suc n) s)
unfolding rows_left
refill_end job w n s o used finished =
    let all = o.closed finished in
    let rows =
      row_frames_zero s.ras.bits s.ras.stride s.rle (s.ras.height - s.next_row) s.next_row
        (omega arith) in
    let nothing : rows_left s ≡ [] =
      ap₂ (λ (l : List ℕ) (b : Bool). l ++ (if b then [] else job_finish s.feed_steps)) rows
        finished in
    rw (round_end n s used (omega arith) finished) (
      consumed (record s { off = 0 })
        (Owes-rows job w s o used ∙ ap (λ l. w ++ l) nothing ∙ append-nil w))

framed_next :
    (job w : List ℕ) (s : Sending)
    → Owes job w s
    → length s.buf ≤ s.off
    → s.next_row < s.ras.height
    → Refilled job w (refill_rounds 2 s)
unfolding framed next_to
framed_next job w s o used more =
    let bytes =
      row_frames-nonempty s.ras.bits s.ras.stride s.rle (next_to s - s.next_row) s.next_row
        (omega arith) in
    rw (round_rows job w 1 s o used more)
      (refill_full job w 0 (framed s) (framed-Owes job w s o used more) (omega arith))

closed_next :
    (job w : List ℕ) (s : Sending)
    → Owes job w s
    → length s.buf ≤ s.off
    → s.ras.height ≤ s.next_row
    → s.finished ≡ false
    → Refilled job w (refill_rounds 2 s)
unfolding closed_up
closed_next job w s o used all unfinished =
    let o' = closed_up-Owes job w s o used all unfinished in
    rw (round_close 1 s used all unfinished)
      (elim (Bool-cases (ltb (closed_up s).off (length (closed_up s).buf))) [
        | inl bytes ↦ refill_full job w 0 (closed_up s) o' (ground arith)
        | inr none_left ↦ refill_end job w 0 (closed_up s) o' (ground arith) refl
      ])

-- Two rounds are enough: the refill returns, with bytes to write or with the job sent.
pub refill_send_buffer-Refilled :
    (job w : List ℕ) (s : Sending) → Owes job w s → Refilled job w (refill_send_buffer s)
unfolding refill_send_buffer
refill_send_buffer-Refilled job w s o = elim (Bool-cases (ltb s.off (length s.buf))) [
  | inl bytes ↦ refill_full job w 1 s o (ground arith)
  | inr used ↦ elim (Bool-cases (ltb s.next_row s.ras.height)) [
    | inl more ↦ framed_next job w s o (ground arith) (ground arith)
    | inr all ↦ elim (Bool-cases s.finished) [
      | inl finished ↦ refill_end job w 1 s o (ground arith) finished
      | inr unfinished ↦ closed_next job w s o (ground arith) (ground arith) unfinished
    ]
  ]
]
