-- ===== src/NameBadge/Dither/Pixels.antt =====
-- What `apply_bayer` and `invert` of plugins/name_badge/src/dither.rs make of single pixels.
use package.cdc_badge_plugins.Base.{
  ℕ, zero, suc, ◌+◌, ◌*◌, ◌/◌, ◌%◌, ◌≤◌, ◌<◌, ltb, leb, ◌==◌, if◌then◌else◌, Bool, true, false, not,
  ◌&&◌, ◌≡◌, ◌≢◌, ◌⊎◌, refl, sym, ap, ◌∙◌, arith, inl, inr, List, All, Bool-cases, if-elim, ==_iff,
  leb→le,
}
use package.cdc_badge_plugins.NameBadge.Dither.{threshold, clear_bit, columns}
use package.cdc_badge_plugins.NameBadge.Dither.Bits.{
  bit_at, IsByte, clear_bit-IsByte, bit_at-clear_other, bit_at-clear_self,
}
use native.Mathlib.Nat.{mul-le-mul_right}

-- The pixel in column `x` of row `y`.
unfoldable pub pixel : List ℕ → ℕ → ℕ → ℕ → Bool
pixel out stride x y = bit_at out (y * stride + x / 8) (x % 8)

-- The byte and the bit of a pixel tell where it is.
row_of : (stride a b y z : ℕ) → a < stride → b < stride → y * stride + a ≡ z * stride + b → y ≤ z
row_of stride a b y z h k e = elim (Bool-cases (leb y z)) [
  | inl t ↦ leb→le y z t
  | inr f ↦
      let above : suc z ≤ y = ground arith in absurd (omega (arith, mul-le-mul_right stride above))
]

same_place :
    (stride x y u v : ℕ)
    → x < stride * 8
    → u < stride * 8
    → y * stride + x / 8 ≡ v * stride + u / 8
    → x % 8 ≡ u % 8
    → (x ≡ u) × (y ≡ v)
same_place stride x y u v h k e f =
    let up = row_of stride (x / 8) (u / 8) y v (omega arith) (omega arith) e in
    let down = row_of stride (u / 8) (x / 8) v y (omega arith) (omega arith) (sym e) in
    let rows_eq : y ≡ v = omega (arith, up, down) in
    let e' : x / 8 ≡ u / 8 = omega (arith, ap (λ (t : ℕ). t * stride) rows_eq, e) in
    (omega (arith, e', f), rows_eq)

not_both : {x u y v : ℕ} → (x ≢ u) ⊎ (y ≢ v) → (x ≡ u) × (y ≡ v) → ⊥
not_both (inl n) (e, f) = n e
not_both (inr n) (e, f) = n f

kept : (b : Bool) (k c : ℕ) → k ≢ c → (b && not (k == c)) ≡ b
kept b k c n = ground arith

gone : (b : Bool) (k : ℕ) → (b && not (k == k)) ≡ false
gone b k = ground arith

-- One step of the inner loop, at another pixel and at its own.
clear-other :
    (out : List ℕ) (stride x y u v : ℕ)
    → All IsByte out
    → x < stride * 8
    → u < stride * 8
    → (x ≢ u) ⊎ (y ≢ v)
    → pixel (clear_bit out (v * stride + u / 8) (u % 8)) stride x y ≡ pixel out stride x y
unfolding pixel
clear-other out stride x y u v a h k n =
    let i = v * stride + u / 8 in
    let j = y * stride + x / 8 in
    elim (Bool-cases (j == i)) [
      | inl t ↦
          let e : j ≡ i = (==_iff j i).0 t in
          let apart : x % 8 ≢ u % 8 = λ f. not_both n (same_place stride x y u v h k e f) in
          ap (λ m. bit_at (clear_bit out i (u % 8)) m (x % 8)) e
          ∙ bit_at-clear_self out i (u % 8) (x % 8) a (omega arith) (omega arith)
          ∙ kept (bit_at out i (x % 8)) (x % 8) (u % 8) apart
          ∙ ap (λ m. bit_at out m (x % 8)) (sym e)
      | inr f ↦ bit_at-clear_other out i (u % 8) j (x % 8) (ground arith)
    ]

clear_self :
    (out : List ℕ) (stride x y : ℕ)
    → All IsByte out
    → pixel (clear_bit out (y * stride + x / 8) (x % 8)) stride x y ≡ false
unfolding pixel
clear_self out stride x y a =
    bit_at-clear_self out (y * stride + x / 8) (x % 8) (x % 8) a (omega arith) (omega arith)
    ∙ gone _ (x % 8)

pub and_true : (b : Bool) → (b && true) ≡ b
and_true true = refl
and_true false = refl

and_false : (b : Bool) → (b && false) ≡ false
and_false true = refl
and_false false = refl

-- What one column does to a pixel.
step : ℕ → ℕ → ℕ → ℕ → List ℕ → List ℕ
step stride level y x out =
    if ltb (threshold x y) level then out else clear_bit out (y * stride + x / 8) (x % 8)

step-IsByte :
    (stride level y x : ℕ) (out : List ℕ) → All IsByte out → All IsByte (step stride level y x out)
unfolding step
step-IsByte stride level y x out a =
    if-elim (All IsByte) (ltb (threshold x y) level) _ _ (λ t. a)
      (λ t. clear_bit-IsByte out _ (x % 8) (omega arith) a)

step-other :
    (out : List ℕ) (stride level x y u v : ℕ)
    → All IsByte out
    → x < stride * 8
    → u < stride * 8
    → (x ≢ u) ⊎ (y ≢ v)
    → pixel (step stride level v u out) stride x y ≡ pixel out stride x y
unfolding step
step-other out stride level x y u v a h k n =
    if-elim (λ o. pixel o stride x y ≡ pixel out stride x y) (ltb (threshold u v) level) _ _
      (λ t. refl) (λ t. clear-other out stride x y u v a h k n)

step_self :
    (out : List ℕ) (stride level x y : ℕ)
    → All IsByte out
    → pixel (step stride level y x out) stride x y
      ≡ (pixel out stride x y && ltb (threshold x y) level)
unfolding step
step_self out stride level x y a = elim (Bool-cases (ltb (threshold x y) level)) [
  | inl t ↦ rw t (sym (and_true _))
  | inr f ↦ rw f (clear_self out stride x y a ∙ sym (and_false _))
]

pub columns-IsByte :
    (n stride level y x : ℕ) (out : List ℕ)
    → All IsByte out
    → All IsByte (columns n stride level y x out)
unfolding columns step
columns-IsByte zero stride level y x out a = a
columns-IsByte (suc n) stride level y x out a =
    columns-IsByte n stride level y (suc x) _ (step-IsByte stride level y x out a)

-- A pixel that the columns from `u` on do not reach, and one that they do.
pub columns-other :
    (n stride level x y u v : ℕ) (out : List ℕ)
    → All IsByte out
    → x < stride * 8
    → u + n ≤ stride * 8
    → (x < u) ⊎ (y ≢ v)
    → pixel (columns n stride level v u out) stride x y ≡ pixel out stride x y
unfolding columns step
columns-other zero stride level x y u v out a h k n = refl
columns-other (suc m) stride level x y u v out a h k n =
    columns-other m stride level x y (suc u) v _ (step-IsByte stride level v u out a) h
      (omega arith) (later n)
    ∙ step-other out stride level x y u v a h (omega arith) (now n)
  where
    later : (x < u) ⊎ (y ≢ v) → (x < suc u) ⊎ (y ≢ v)
    later (inl e) = inl (omega arith)
    later (inr e) = inr e

    now : (x < u) ⊎ (y ≢ v) → (x ≢ u) ⊎ (y ≢ v)
    now (inl e) = inl (omega arith)
    now (inr e) = inr e

pub columns_self :
    (n stride level x y u : ℕ) (out : List ℕ)
    → All IsByte out
    → u ≤ x
    → x < u + n
    → u + n ≤ stride * 8
    → pixel (columns n stride level y u out) stride x y
      ≡ (pixel out stride x y && ltb (threshold x y) level)
unfolding columns step
columns_self zero stride level x y u out a l h k = absurd (omega arith)
columns_self (suc m) stride level x y u out a l h k = elim (Bool-cases (u == x)) [
  | inl t ↦
      let e : u ≡ x = (==_iff u x).0 t in
      columns-other m stride level x y (suc u) y _ (step-IsByte stride level y u out a)
        (omega arith) (omega arith) (inl (omega (arith, e)))
      ∙ ap (λ w. pixel (step stride level y w out) stride x y) e
      ∙ step_self out stride level x y a
  | inr f ↦
      let n : x ≢ u = ground arith in
      columns_self m stride level x y (suc u) _ (step-IsByte stride level y u out a)
        (omega (arith, n)) (omega arith) (omega arith)
      ∙ ap (λ b. b && ltb (threshold x y) level)
          (step-other out stride level x y u y a (omega arith) (omega arith) (inl n))
]
