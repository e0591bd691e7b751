-- ===== src/ThermoPrinter/Proto/Runs.antt =====
-- The run-length encoding of a row: the runs unfold to the pixels of the row.
use cdc_badge_plugins.Base.{
  ℕ, zero, suc, ◌+◌, ◌-◌, ◌*◌, ◌%◌, ◌≤◌, ◌<◌, ◌≡◌, refl, sym, ap, ◌∙◌, min, bit_or,
}
use cdc_badge_plugins.Base.{
  Bool, true, false, ◌==◌, leb, lt→ltb, if◌then◌else◌, some, List, [], ◌∷◌, ◌++◌,
}
use cdc_badge_plugins.Base.{length, replicate, Bool-cases, inl, inr, ==_iff, arith}
use cdc_badge_plugins.Base.Bits.{all_below, all_below_sound}
use mathlib.Core.List.{append_assoc, append-nil}
use cdc_badge_plugins.ThermoPrinter.Proto.{
  pixel, push_run_rounds, push_run, bool_eq, rle_runs, rle_encode_row,
}

-- The pixels of a row from `x` on, `n` of them.
unfoldable pub pixels : List ℕ → ℕ → ℕ → List Bool
pixels row zero x = []
pixels row (suc n) x = pixel row x ∷ pixels row n (x + 1)

-- What the printer makes of run bytes: bit 7 is the colour, the other bits are the length.
unfoldable pub expand : List ℕ → List Bool
expand [] = []
expand (b ∷ runs) = replicate (b % 128) (leb 128 b) ++ expand runs

expand-append : (xs ys : List ℕ) → expand (xs ++ ys) ≡ expand xs ++ expand ys
unfolding expand
expand-append [] ys = refl
expand-append (b ∷ xs) ys = simp (expand-append xs ys, append_assoc)

replicate-append {ℓ} :
    {A : Type ℓ} (m n : ℕ) (a : A) → replicate m a ++ replicate n a ≡ replicate (m + n) a
replicate-append zero n a = let e : 0 + n ≡ n = omega arith in rw e
replicate-append (suc m) n a =
    let e : suc m + n ≡ suc (m + n) = omega arith in rw e (ap (λ l. a ∷ l) (replicate-append m n a))

replicate-snoc {ℓ} :
    {A : Type ℓ} (n : ℕ) (a : A) (l : List A) → replicate (n + 1) a ++ l ≡ replicate n a ++ (a ∷ l)
replicate-snoc n a l = rw (← replicate-append n 1 a) (append_assoc (replicate n a) (a ∷ []) l)

run_byte_table : all_below 128 (λ c. bit_or 0x80 c == 128 + c) ≡ true
unfolding all_below
run_byte_table = refl

run_byte : (c : ℕ) → c < 128 → bit_or 0x80 c ≡ 128 + c
run_byte c h =
    (==_iff _ _).0 (all_below_sound 128 (λ c. bit_or 0x80 c == 128 + c) c run_byte_table h)

expand_chunk :
    (val : Bool) (c : ℕ)
    → c ≤ 127
    → expand ((if val then bit_or 0x80 c else c) ∷ []) ≡ replicate c val
unfolding expand
expand_chunk true c h =
    let e : (128 + c) % 128 ≡ c = omega arith in
    let t : leb 128 (128 + c) ≡ true = ground arith in
    rw (run_byte c (omega arith), e, t) (append-nil _)
expand_chunk false c h =
    let e : c % 128 ≡ c = omega arith in
    let t : leb 128 c ≡ false = ground arith in rw (e, t) (append-nil _)

expand-push_run_rounds :
    (n : ℕ) (out : List ℕ) (val : Bool) (len : ℕ)
    → len ≤ n
    → expand (push_run_rounds n out val len) ≡ expand out ++ replicate len val
unfolding push_run_rounds
expand-push_run_rounds zero out val zero h = sym (append-nil (expand out))
expand-push_run_rounds zero out val (suc len) h = absurd (omega arith)
expand-push_run_rounds (suc n) out val zero h = sym (append-nil (expand out))
expand-push_run_rounds (suc n) out val (suc k) h =
    let len = suc k in
    let c = min len 127 in
    let byte = if val then bit_or 0x80 c else c in
    let later = expand-push_run_rounds n (out ++ byte ∷ []) val (len - c) (omega arith) in
    let first : expand (out ++ byte ∷ []) ≡ expand out ++ replicate c val =
      expand-append out (byte ∷ [])
      ∙ ap (λ l. expand out ++ l) (expand_chunk val c (omega arith)) in
    let size : c + (len - c) ≡ len = omega arith in
    rw (lt→ltb 0 len (omega arith)) (
      later
      ∙ ap (λ l. l ++ replicate (len - c) val) first
      ∙ append_assoc (expand out) (replicate c val) (replicate (len - c) val)
      ∙ ap (λ l. expand out ++ l)
          (replicate-append c (len - c) val ∙ ap (λ m. replicate m val) size))

expand-push_run :
    (out : List ℕ) (val : Bool) (len : ℕ)
    → expand (push_run out val len) ≡ expand out ++ replicate len val
unfolding push_run
expand-push_run out val len = expand-push_run_rounds len out val len (omega arith)

bool_eq→≡ : (a b : Bool) → bool_eq a b ≡ true → a ≡ b
bool_eq→≡ a b e = ground arith

expand-rle_runs :
    (row : List ℕ) (n x : ℕ) (runs : List ℕ) (val : Bool) (len : ℕ)
    → expand (rle_runs row n x runs val len) ≡ expand runs ++ (replicate len val ++ pixels row n x)
unfolding rle_runs pixels
expand-rle_runs row zero x runs val len = simp (expand-push_run, append-nil)
expand-rle_runs row (suc n) x runs val len =
    let p = pixel row x in
    let ps = pixels row n (x + 1) in
    elim (Bool-cases (bool_eq p val)) [
      | inl same ↦
          let later = expand-rle_runs row n (x + 1) runs val (len + 1) in
          rw (same, bool_eq→≡ p val same)
            (later ∙ ap (λ l. expand runs ++ l) (replicate-snoc len val ps))
      | inr new ↦
          let later = expand-rle_runs row n (x + 1) (push_run runs val len) p 1 in
          rw new (
            later
            ∙ ap (λ l. l ++ (p ∷ ps)) (expand-push_run runs val len)
            ∙ append_assoc (expand runs) (replicate len val) (p ∷ ps))
    ]

-- When a row is run-length encoded, the printer unfolds the runs to the pixels of the row, and
-- there are fewer run bytes than row bytes.
pub rle_encode_row_expands :
    (row runs : List ℕ)
    → rle_encode_row row ≡ some runs
    → (expand runs ≡ pixels row (length row * 8) 0) × (length runs < length row)
unfolding rle_encode_row pixels expand
rle_encode_row_expands row runs e =
    let all = rle_runs row (length row * 8) 0 [] false 0 in
    let same : all ≡ runs = ground arith in
    (ap expand (sym same) ∙ expand-rle_runs row (length row * 8) 0 [] false 0, ground arith)
