-- ===== src/SciCalc/Numbers.antt =====
-- The arithmetic of the calculator, the first half of examples/sci_calc/src/engine.rs. The type f64,
-- with its formatting and parsing, and the functions of libm are the fields of Float, so what is
-- proved holds of every arithmetic. An operation that fails returns `err`.
use cdc_badge_plugins.Base.{
  ℕ, zero, suc, ◌+◌, ◌-◌, ◌/◌, ◌%◌, Bool, false, not, ◌&&◌, ◌||◌, ltb, ◌==◌, if◌then◌else◌,
}
use cdc_badge_plugins.Base.{Option, List, [], ◌∷◌, ◌++◌, any}
use cdc_badge_plugins.Base.Int.{ℤ, pos, negsuc, ◌+ℤ◌, ◌-ℤ◌}

-- `of_u64` also gives the literals `k.0`; `nano` is 1e-9; `fixed k` is `format!("{:.k}")`.
pub record Float : Type 1 where
  pub F : Type 0
  pub of_u64 : ℕ → F
  pub of_i32 : ℤ → F
  pub nano : F
  pub const_pi : F
  pub const_e : F
  pub neg : F → F
  pub add : F → F → F
  pub sub : F → F → F
  pub mul : F → F → F
  pub div : F → F → F
  pub eq : F → F → Bool
  pub lt : F → F → Bool
  pub le : F → F → Bool
  pub is_finite : F → Bool
  pub to_u64 : F → ℕ
  pub to_i32 : F → ℤ
  pub fixed : ℕ → F → List ℕ
  pub parse : List ℕ → Option F
  pub pow : F → F → F
  pub fmod : F → F → F
  pub fabs : F → F
  pub floor : F → F
  pub sqrt : F → F
  pub cbrt : F → F
  pub exp : F → F
  pub log : F → F
  pub log10 : F → F
  pub sin : F → F
  pub cos : F → F
  pub tan : F → F
  pub asin : F → F
  pub acos : F → F
  pub atan : F → F

pub data AngleMode : Type 0 where
  deg rad : AngleMode

pub data CalcError : Type 0 where
  div_zero domain overflow : CalcError

-- `Result<T, CalcError>`.
pub data Result {ℓ} (A : Type ℓ) : Type ℓ where
  ok : A → Result A
  err : CalcError → Result A

pub data Op : Type 0 where
  op_add op_sub op_mul op_div op_pow op_mod op_percent : Op

pub data Unary : Type 0 where
  u_sin u_cos u_tan u_asin u_acos u_atan : Unary
  u_ln u_log10 u_exp u_exp10 u_sqr u_sqrt u_cbrt u_recip u_fact : Unary

unfoldable pub symbol : Op → List ℕ
symbol op_add = 0x2B ∷ []
symbol op_sub = 0x2D ∷ []
symbol op_mul = 0x78 ∷ []
symbol op_div = 0x2F ∷ []
symbol op_pow = 0x5E ∷ []
symbol op_mod = 0x6D ∷ 0x6F ∷ 0x64 ∷ []
symbol op_percent = 0x25 ∷ []

unfoldable pub unary_name : Unary → List ℕ
unary_name u_sin = 0x73 ∷ 0x69 ∷ 0x6E ∷ []
unary_name u_cos = 0x63 ∷ 0x6F ∷ 0x73 ∷ []
unary_name u_tan = 0x74 ∷ 0x61 ∷ 0x6E ∷ []
unary_name u_asin = 0x61 ∷ 0x73 ∷ 0x69 ∷ 0x6E ∷ []
unary_name u_acos = 0x61 ∷ 0x63 ∷ 0x6F ∷ 0x73 ∷ []
unary_name u_atan = 0x61 ∷ 0x74 ∷ 0x61 ∷ 0x6E ∷ []
unary_name u_ln = 0x6C ∷ 0x6E ∷ []
unary_name u_log10 = 0x6C ∷ 0x6F ∷ 0x67 ∷ []
unary_name u_exp = 0x65 ∷ 0x78 ∷ 0x70 ∷ []
unary_name u_exp10 = 0x31 ∷ 0x30 ∷ 0x5E ∷ []
unary_name u_sqr = 0x73 ∷ 0x71 ∷ 0x72 ∷ []
unary_name u_sqrt = 0x73 ∷ 0x71 ∷ 0x72 ∷ 0x74 ∷ []
unary_name u_cbrt = 0x63 ∷ 0x62 ∷ 0x72 ∷ 0x74 ∷ []
unary_name u_recip = 0x31 ∷ 0x2F ∷ []
unary_name u_fact = 0x66 ∷ 0x61 ∷ 0x63 ∷ 0x74 ∷ []

-- The strings are ASCII, so `pop` takes the last byte.
unfoldable pub pop : List ℕ → List ℕ
pop [] = []
pop (b ∷ []) = []
pop (b ∷ c ∷ s) = b ∷ pop (c ∷ s)

unfoldable pub ends_with : ℕ → List ℕ → Bool
ends_with ch [] = false
ends_with ch (b ∷ []) = b == ch
ends_with ch (b ∷ c ∷ s) = ends_with ch (c ∷ s)

-- `while s.ends_with('0') { s.pop(); }`: a zero goes when nothing is left after it.
unfoldable pub pop_zeros : List ℕ → List ℕ
pop_zeros [] = []
pop_zeros (b ∷ s) = elim (pop_zeros s) [ [] ↦ if b == 0x30 then [] else b ∷ [] | c ∷ t ↦ b ∷ c ∷ t ]

unfoldable pub trimmed : List ℕ → List ℕ
trimmed s =
    if any (λ b. b == 0x2E) s
    then (let t = pop_zeros s in if ends_with 0x2E t then pop t else t)
    else s

-- `format!("{}", n)` of a number below 10 ^ k.
unfoldable pub show_nat : ℕ → ℕ → List ℕ
show_nat zero n = []
show_nat (suc k) n =
    let front = show_nat k (n / 10) in
    if ltb n 10 then (0x30 + n) ∷ [] else front ++ (0x30 + n % 10) ∷ []

unfoldable pub show_i32 : ℤ → List ℕ
show_i32 (pos n) = show_nat 10 n
show_i32 (negsuc n) = 0x2D ∷ show_nat 10 (n + 1)

module _ ⦃N : Float⦄ where
  open N use {
    F, of_u64, of_i32, nano, neg, add, sub, mul, div, eq, lt, le, is_finite, to_u64, to_i32, fixed,
    pow, fmod, fabs, floor, log10,
  }

  unfoldable pub finite : F → Result F
  finite x = if is_finite x then ok x else err overflow

  unfoldable pub apply : Op → F → F → Result F
  apply op_add a b = finite (add a b)
  apply op_sub a b = finite (sub a b)
  apply op_mul a b = finite (mul a b)
  apply op_div a b = if eq b (of_u64 0) then err div_zero else finite (div a b)
  apply op_pow a b = finite (pow a b)
  apply op_mod a b = if eq b (of_u64 0) then err div_zero else finite (fmod a b)
  apply op_percent a b = finite (div (mul a b) (of_u64 100))

  -- The loop of `factorial` from `i`, with the rounds that are left.
  unfoldable pub multiply_up : ℕ → ℕ → F → F
  multiply_up zero i r = r
  multiply_up (suc k) i r = multiply_up k (i + 1) (mul r (of_u64 i))

  unfoldable pub factorial : F → Result F
  factorial x =
      if lt x (of_u64 0) || not (eq (floor x) x)
      then err domain
      else if lt (of_u64 170) x
      then err overflow
      else finite (multiply_up (to_u64 x - 1) 2 (of_u64 1))

  -- The exponent and the mantissa, moved into 1 to 10.
  unfoldable pub normalised : ℤ → F → ℤ × F
  normalised e m =
      if le (of_u64 10) m
      then (e +ℤ pos 1, div m (of_u64 10))
      else if lt m (of_u64 1)
      then (e -ℤ pos 1, mul m (of_u64 10))
      else (e, m)

  unfoldable pub format_sci : F → List ℕ
  format_sci x =
      let a = fabs x in
      let e = to_i32 (floor (log10 a)) in
      let n : ℤ × F = normalised e (div a (pow (of_u64 10) (of_i32 e))) in
      (if lt x (of_u64 0) then 0x2D ∷ [] else []) ++ trimmed (fixed 6 n.1) ++ 0x65 ∷ show_i32 n.0

  unfoldable pub format_num : F → List ℕ
  format_num x =
      if eq x (of_u64 0)
      then 0x30 ∷ []
      else if not (is_finite x)
      then 0x69 ∷ 0x6E ∷ 0x66 ∷ []
      else if not (le nano (fabs x) && lt (fabs x) (of_u64 10_000_000_000_000_000))
      then format_sci x
      else trimmed (fixed 10 x)
