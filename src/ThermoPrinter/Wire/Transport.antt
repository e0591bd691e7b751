-- ===== src/ThermoPrinter/Wire/Transport.antt =====
-- Print-job frames: what parses, and what it parses to.
use cdc_badge_plugins.Base.{ℕ, ◌+◌, ◌/◌, ◌%◌, ◌^◌, ◌≤◌, ◌<◌, ◌≡◌, refl, sym, ap, ◌∙◌, ◌↔◌}
use cdc_badge_plugins.Base.{
  some, List, [], ◌∷◌, ◌++◌, length, take, drop, take-append_self, take-append-drop, length-append,
  length-take, arith, u32, u32_from_le, u32_to_le, All,
}
use mathlib.Core.Path.{ap₂}
use mathlib.Core.List.{append-nil}
use cdc_badge_plugins.ThermoPrinter.Wire.{Job, parse, build, pj_header_len}

-- A frame with its flags, and what follows it.
pub framed : Job → List ℕ → List ℕ
framed job more =
    0x50 ∷ 0x4A ∷ job.kind ∷ job.flags ∷ (u32_to_le (length job.payload) ++ (job.payload ++ more))

parse-framed :
    (job : Job) (more : List ℕ)
    → length job.payload + pj_header_len < 2 ^ 32
    → parse (framed job more) ≡ some job
unfolding parse framed
parse-framed job more h =
    let n = length job.payload in
    let size : u32_from_le (n % 256) (n / 256 % 256) (n / 65536 % 256) (n / 16777216 % 256) ≡ n =
      omega arith in
    let whole = length-append job.payload more in
    let body = take-append_self job.payload more n refl in simp size (ground (arith, whole, body))

length_bytes :
    (a b c d n : ℕ)
    → a < 256
    → b < 256
    → c < 256
    → d < 256
    → n ≡ u32_from_le a b c d
    → u32_to_le n ≡ a ∷ b ∷ c ∷ d ∷ []
length_bytes a b c d n ha hb hc hd e =
    let pa : n % 256 ≡ a = omega arith in
    let pb : n / 256 % 256 ≡ b = omega arith in
    let pc : n / 65536 % 256 ≡ c = omega arith in
    let pd : n / 16777216 % 256 ≡ d = omega arith in rw (pa, pb, pc, pd) refl

-- What a parsed buffer is made of.
record Parsed (buf : List ℕ) (job : Job) : Type 0 where
  more : List ℕ
  short : length job.payload + pj_header_len < 2 ^ 32
  buf_lem : buf ≡ framed job more

too_short : (buf : List ℕ) (job : Job) → length buf < 8 → parse buf ≡ some job → Parsed buf job
unfolding parse
too_short buf job h e = ground arith

parse-Parsed :
    (buf : List ℕ) (job : Job) → All (λ b. b < 2 ^ 8) buf → parse buf ≡ some job → Parsed buf job
unfolding parse framed
parse-Parsed (p ∷ j ∷ k ∷ f ∷ a ∷ b ∷ c ∷ d ∷ rest) job
      (hp, (hj, (hk, (hf, (ha, (hb, (hc, (hd, h)))))))) e =
    let n = u32_from_le a b c d in
    let tests : (p ≡ 0x50) × (j ≡ 0x4A) × (8 + n < 2 ^ 32) × (8 + n ≤ 8 + length rest) =
      ground arith in
    let (pp, pj, small, room) = tests in
    let fields : (job.kind ≡ k) × (job.flags ≡ f) × (job.payload ≡ take n rest) = ground arith in
    let (pk, pf, body) = fields in
    let size : length job.payload ≡ n = omega (arith, ap length body, length-take n rest) in
    record {
      more = drop n rest;
      short = omega arith;
      buf_lem =
          rw (pp, pj, pk, pf)
            (ap (λ l. 0x50 ∷ 0x4A ∷ k ∷ f ∷ l)
              (ap₂ ◌++◌ (sym (length_bytes a b c d (length job.payload) ha hb hc hd size))
                (sym (take-append-drop n rest) ∙ ap (λ l. l ++ drop n rest) (sym body))));
    }
parse-Parsed [] job h e = too_short _ job (omega arith) e
parse-Parsed (p ∷ []) job h e = too_short _ job (omega arith) e
parse-Parsed (p ∷ j ∷ []) job h e = too_short _ job (omega arith) e
parse-Parsed (p ∷ j ∷ k ∷ []) job h e = too_short _ job (omega arith) e
parse-Parsed (p ∷ j ∷ k ∷ f ∷ []) job h e = too_short _ job (omega arith) e
parse-Parsed (p ∷ j ∷ k ∷ f ∷ a ∷ []) job h e = too_short _ job (omega arith) e
parse-Parsed (p ∷ j ∷ k ∷ f ∷ a ∷ b ∷ []) job h e = too_short _ job (omega arith) e
parse-Parsed (p ∷ j ∷ k ∷ f ∷ a ∷ b ∷ c ∷ []) job h e = too_short _ job (omega arith) e

-- A buffer of bytes parses to a job exactly when it is the frame of that job, followed by anything,
-- and the frame with its header has a length that 32 bits hold.
pub parse_frame_iff :
    (buf : List ℕ) (job : Job)
    → All (λ b. b < 2 ^ 8) buf
    → (parse buf ≡ some job) ↔ (
        (length job.payload + pj_header_len < 2 ^ 32) × ((more : List ℕ) × (buf ≡ framed job more)))
parse_frame_iff buf job h = (
  λ e. let p = parse-Parsed buf job h e in (p.short, (p.more, p.buf_lem)),
  λ (short, (more, e)). rw e (parse-framed job more short),
)

-- The frame that `build` makes around a payload parses to the payload, with no flags.
pub parse-build_frame :
    (kind : ℕ) (payload : List ℕ)
    → length payload + pj_header_len < 2 ^ 32
    → parse (build kind payload) ≡ some (record { kind = kind; flags = 0; payload = payload })
unfolding build framed
parse-build_frame kind payload h =
    let n : u32 (length payload) ≡ length payload = omega arith in
    let job : Job = record { kind = kind; flags = 0; payload = payload } in
    let e : build kind payload ≡ framed job [] = simp (n, append-nil) in
    rw e (parse-framed job [] h)
