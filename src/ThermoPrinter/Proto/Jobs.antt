-- ===== src/ThermoPrinter/Proto/Jobs.antt =====
-- The byte stream of a job: the commands that a printer reads from it, and what they show.
use cdc_badge_plugins.Base.{
  ℕ, zero, suc, ◌+◌, ◌-◌, ◌*◌, ◌^◌, ◌≤◌, ◌<◌, ◌≡◌, refl, sym, ap, ◌∙◌, min, ◌⊎◌,
}
use cdc_badge_plugins.Base.{
  Bool, false, ltb, if◌then◌else◌, Option, none, some, List, [], ◌∷◌, ◌++◌, map, replicate, length,
  take, drop, length-take, All, All-append, All-take, Bool-cases, inl, inr, arith, u16_to_le,
}
use mathlib.Core.Path.{ap₂}
use mathlib.Core.List.{append_assoc, append-nil}
use cdc_badge_plugins.ThermoPrinter.Proto.{
  row_bytes, cmd_feed_paper, cmd_set_energy, cmd_set_speed, cmd_apply_energy, frame, frame_row,
  frame_row_plain, job_setup, slice, rows_from, job_rows, job_finish, build_job,
}
use cdc_badge_plugins.ThermoPrinter.Proto.Frames.{Command, unframe, unframe-frame}
use cdc_badge_plugins.ThermoPrinter.Proto.Pixels.{IsBytes}
use cdc_badge_plugins.ThermoPrinter.Proto.Rows.{
  shown, padded, Shows, frame_row-Shows, frame_row_plain-Shows,
}

-- The commands of a stream, read frame by frame; at most `n` of them.
pub read_commands : ℕ → List ℕ → Option (List Command)
read_commands zero [] = some []
read_commands zero (b ∷ stream) = none
read_commands (suc n) [] = some []
read_commands (suc n) (b ∷ stream) = elim (unframe (b ∷ stream)) [
  | none ↦ none
  | some (c, more) ↦ elim (read_commands n more) [ none ↦ none | some cs ↦ some (c ∷ cs) ]
]

pub encode : List Command → List ℕ
encode [] = []
encode (c ∷ cs) = frame c.code c.payload ++ encode cs

abbrev pub IsShort : Command → Type 0
IsShort c = length c.payload < 2 ^ 16

pub encode-append : (cs ds : List Command) → encode (cs ++ ds) ≡ encode cs ++ encode ds
unfolding encode
encode-append [] ds = refl
encode-append (c ∷ cs) ds =
    rw (encode-append cs ds) (sym (append_assoc (frame c.code c.payload) (encode cs) (encode ds)))

read_one :
    (n b : ℕ) (stream more : List ℕ) (c : Command) (cs : List Command)
    → unframe (b ∷ stream) ≡ some (c, more)
    → read_commands n more ≡ some cs
    → read_commands (suc n) (b ∷ stream) ≡ some (c ∷ cs)
unfolding read_commands
read_one n b stream more c cs e r = rw (e, r, read_commands) refl

-- A stream of frames with payloads of 16-bit length reads back, command for command.
pub read_commands-encode :
    (cs : List Command) → All IsShort cs → read_commands (length cs) (encode cs) ≡ some cs
unfolding encode frame
read_commands-encode [] h = unfold read_commands in refl
read_commands-encode (c ∷ cs) h =
    read_one (length cs) _ _ (encode cs) c cs (unframe-frame c.code c.payload (encode cs) h.0)
      (read_commands-encode cs h.1)

-- The rows of a packed raster from row `y` on, `n` of them, at the width of the paper.
pub page : List ℕ → ℕ → ℕ → ℕ → List (List Bool)
page bits stride zero y = []
page bits stride (suc n) y =
    padded (take (min row_bytes stride) (drop (y * stride) bits)) ∷ page bits stride n (y + 1)

-- A bitmap command, plain or run-length encoded, by the number that the printer knows it by.
abbrev pub IsBitmap : Command → Type 0
IsBitmap c = (c.code ≡ 0xA2) ⊎ (c.code ≡ 0xBF)

-- The bytes are bitmap frames that show the given pictures.
pub record Prints (bytes : List ℕ) (pictures : List (List Bool)) : Type 0 where
  pub commands : List Command
  pub framed : bytes ≡ encode commands
  pub short : All IsShort commands
  pub bitmaps : All IsBitmap commands
  pub pictures_lem : map shown commands ≡ pictures

pub IsBytes-drop : (n : ℕ) (bits : List ℕ) → IsBytes bits → IsBytes (drop n bits)
IsBytes-drop zero bits h = h
IsBytes-drop (suc n) [] h = tt
IsBytes-drop (suc n) (b ∷ bits) h = IsBytes-drop n bits h.1

pub slice_lem :
    {A : Type 0} (bits : List A) (lo hi : ℕ)
    → lo ≤ hi
    → hi ≤ length bits
    → slice bits lo hi ≡ some (take (hi - lo) (drop lo bits))
unfolding slice
slice_lem bits lo hi p q = ground arith

pub row_end : (y n stride k : ℕ) → (y + suc n) * stride ≤ k → y * stride + min row_bytes stride ≤ k
row_end y n stride k h = grind arith

pub next_end : (y n stride k : ℕ) → (y + suc n) * stride ≤ k → (y + 1 + n) * stride ≤ k
next_end y n stride k h = let e : y + suc n ≡ y + 1 + n = omega arith in rw e at h

-- One more frame in front of what follows.
Prints-cons :
    (row more : List ℕ) (picture : List Bool) (pictures : List (List Bool))
    → Shows row picture
    → Prints more pictures
    → Prints (row ++ more) (picture ∷ pictures)
unfolding encode
Prints-cons row more picture pictures s p = record {
  commands = s.command ∷ p.commands;
  framed = ap₂ ◌++◌ s.framed p.framed;
  short = (s.short, p.short);
  bitmaps = (s.bitmap, p.bitmaps);
  pictures_lem = ap₂ ◌∷◌ s.picture_lem p.pictures_lem;
}

-- The bytes that `rows_from` adds.
record Sends (bits : List ℕ) (stride : ℕ) (rle : Bool) (n y : ℕ) (out : List ℕ) : Type 0 where
  pub sent : List ℕ
  pub returns : rows_from bits stride rle n y out ≡ some (out ++ sent)
  pub prints : Prints sent (page bits stride n y)

rows_from-Sends :
    (bits : List ℕ) (stride : ℕ) (rle : Bool) (n y : ℕ) (out : List ℕ)
    → IsBytes bits
    → (y + n) * stride ≤ length bits
    → Sends bits stride rle n y out
unfolding rows_from page encode
rows_from-Sends bits stride rle zero y out b h = record {
  sent = [];
  returns = ap some (sym (append-nil out));
  prints = record { commands = []; framed = refl; short = tt; bitmaps = tt; pictures_lem = refl };
}
rows_from-Sends bits stride rle (suc n) y out b h =
    let lo = y * stride in
    let width = min row_bytes stride in
    let row = take width (drop lo bits) in
    let whole : lo + width - lo ≡ width = omega arith in
    let read : slice bits lo (lo + width) ≡ some row =
      slice_lem bits lo (lo + width) (omega arith) (row_end y n stride (length bits) h)
      ∙ ap (λ k. some (take k (drop lo bits))) whole in
    let narrow : length row ≤ row_bytes = omega (arith, length-take width (drop lo bits)) in
    let bytes = All-take (λ b. b < 2 ^ 8) width (drop lo bits) (IsBytes-drop lo bits b) in
    let later =
      rows_from-Sends bits stride rle n (y + 1) (out ++ frame_row row rle) b
        (next_end y n stride (length bits) h) in
    record {
      sent = frame_row row rle ++ later.sent;
      returns =
          rw (read, rows_from)
            (later.returns ∙ ap some (append_assoc out (frame_row row rle) later.sent));
      prints =
          Prints-cons (frame_row row rle) later.sent (padded row) (page bits stride n (y + 1))
            (frame_row-Shows row rle bytes narrow) later.prints;
    }

-- What opens and closes a job.
pub opening : ℕ → ℕ → List Command
opening energy speed =
    record { code = cmd_set_speed; payload = speed ∷ [] }
    ∷ record { code = cmd_set_energy; payload = u16_to_le energy }
    ∷ record { code = cmd_apply_energy; payload = 0x01 ∷ [] }
    ∷ []

pub closing : ℕ → List Command
closing feed_steps =
    if ltb 0 feed_steps
    then record { code = cmd_feed_paper; payload = u16_to_le feed_steps } ∷ []
    else []

-- A whole job as the printer reads it.
pub record PrintsJob (stream : Option (List ℕ)) (energy speed feed_steps : ℕ)
    (pictures : List (List Bool)) : Type 0 where
  pub bytes : List ℕ
  pub returns : stream ≡ some bytes
  pub rows : List Command
  pub read :
      read_commands (length (opening energy speed ++ (rows ++ closing feed_steps))) bytes
      ≡ some (opening energy speed ++ (rows ++ closing feed_steps))
  pub bitmaps : All IsBitmap rows
  pub pictures_lem : map shown rows ≡ pictures

closing-IsShort : (feed_steps : ℕ) → All IsShort (closing feed_steps)
unfolding closing
closing-IsShort feed_steps = ground arith

job_finish-encode : (feed_steps : ℕ) → job_finish feed_steps ≡ encode (closing feed_steps)
unfolding job_finish closing encode
job_finish-encode feed_steps = elim (Bool-cases (ltb 0 feed_steps)) [
  | inl feed ↦ rw feed (sym (append-nil (frame cmd_feed_paper (u16_to_le feed_steps))))
  | inr none_left ↦ rw none_left
]

job_setup-encode :
    (energy speed : ℕ) (cs : List Command) (rest : List ℕ) (blank : Command)
    → frame_row_plain (replicate row_bytes 0) ≡ frame blank.code blank.payload
    → rest ≡ encode cs
    → job_setup energy speed ++ rest ≡ encode (opening energy speed ++ (blank ∷ cs))
unfolding job_setup opening encode frame
job_setup-encode energy speed cs rest blank e r = simp (append_assoc, e, r)

blank_row : Shows (frame_row_plain (replicate row_bytes 0)) (replicate (row_bytes * 8) false)
blank_row = frame_row_plain-Shows (replicate row_bytes 0) (omega arith) (omega arith)

job_rows-Sends :
    (bits : List ℕ) (stride height : ℕ) (rle : Bool)
    → IsBytes bits
    → height * stride ≤ length bits
    → (sent : List ℕ) × (job_rows bits stride 0 height rle ≡ some sent)
      × Prints sent (page bits stride height 0)
unfolding job_rows
job_rows-Sends bits stride height rle b h =
    let whole : height - 0 ≡ height = omega arith in
    let start : (0 + height) * stride ≤ length bits = grind arith in
    let body = rows_from-Sends bits stride rle height 0 [] b start in
    (body.sent, ap (λ n. rows_from bits stride rle n 0 []) whole ∙ body.returns, body.prints)

job-IsShort :
    (energy speed feed_steps : ℕ) (rows : List Command)
    → All IsShort rows
    → All IsShort (opening energy speed ++ (rows ++ closing feed_steps))
unfolding opening
job-IsShort energy speed feed_steps rows h = (
  omega arith,
  (
    omega arith,
    (omega arith, All-append IsShort rows (closing feed_steps) h (closing-IsShort feed_steps)),
  ),
)

-- Building a job from a raster whose rows lie in the buffer does not panic. The printer reads from
-- the stream the speed, the energy and its apply command, one blank row, one bitmap command for each
-- row that shows its first 384 pixels, padded with white, and a feed command unless the feed is 0.
pub build_job-PrintsJob :
    (bits : List ℕ) (stride height energy speed feed_steps : ℕ) (rle : Bool)
    → IsBytes bits
    → height * stride ≤ length bits
    → PrintsJob
        (build_job bits stride height energy speed feed_steps rle)
        energy
        speed
        feed_steps
        (replicate (row_bytes * 8) false ∷ page bits stride height 0)
unfolding build_job
build_job-PrintsJob bits stride height energy speed feed_steps rle b h =
    let (sent, returns, prints) = job_rows-Sends bits stride height rle b h in
    let rows = blank_row.command ∷ prints.commands in
    let rest : sent ++ job_finish feed_steps ≡ encode (prints.commands ++ closing feed_steps) =
      ap₂ ◌++◌ prints.framed (job_finish-encode feed_steps)
      ∙ sym (encode-append prints.commands (closing feed_steps)) in
    let stream =
      job_setup-encode energy speed (prints.commands ++ closing feed_steps) _ blank_row.command
        blank_row.framed rest in
    record {
      bytes = job_setup energy speed ++ (sent ++ job_finish feed_steps);
      returns = rw (returns, build_job) refl;
      rows = rows;
      read = rw stream (
          read_commands-encode _
            (job-IsShort energy speed feed_steps rows (blank_row.short, prints.short)));
      bitmaps = (blank_row.bitmap, prints.bitmaps);
      pictures_lem = ap₂ ◌∷◌ blank_row.picture_lem prints.pictures_lem;
    }
