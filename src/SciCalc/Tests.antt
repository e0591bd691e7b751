-- ===== src/SciCalc/Tests.antt =====
-- The calculator over a small arithmetic of whole numbers, and the theorems at concrete inputs.
use cdc_badge_plugins.Base.{
  ℕ, ◌+◌, ◌-◌, ◌*◌, ◌/◌, ◌%◌, false, ◌&&◌, ltb, leb, ◌==◌, if◌then◌else◌, ◌≡◌, refl, inl, Option,
  none, some, List, [], ◌∷◌, ◌++◌, replicate, arith,
}
use cdc_badge_plugins.Base.Int.{pos, pos_part}
use cdc_badge_plugins.SciCalc.Numbers.{
  Float, ok, div_zero, overflow, op_add, op_mul, op_div, symbol, unary_name, pop, ends_with,
  pop_zeros, trimmed, show_nat, finite, apply, multiply_up, factorial, format_num,
}
use cdc_badge_plugins.SciCalc.Entry.{with_digit, with_dot, without_last, negated}
use cdc_badge_plugins.SciCalc.Engine.{
  Calc, new, parse_or_zero, set_result, pushed, push_history, unless_error, input_digit, input_dot,
  clear_all, backspace, negate, fail, await, due, apply_op, binary_line, complete, repeat_last,
  equals, evaluate, unary_line, apply_unary, mem_store, mem_recall,
}
use cdc_badge_plugins.SciCalc.Keys.{
  Key, digit, dot, sign, erase, total, operator, leaf_key, quick_key, short_key, long_key,
  action_key, press, on_action, press_all, on_actions,
}
use cdc_badge_plugins.SciCalc.Numeral.{
  Numeral, numeral, glyphs, sign_text, decimals, print, magnitude, has_room, append_digit,
  append_point, remove_last, flip_sign, IsTyping, typed, typed_all, Decimals, IsNumeral,
}
use cdc_badge_plugins.SciCalc.Typing.{typing, press_all-typed}
use cdc_badge_plugins.SciCalc.Calculation.{
  Operand, IsStroke, IsOperand, numeral_of, calculation_keys,
}
use cdc_badge_plugins.SciCalc.Evaluation.{operand_value, fold_left, Shows, calculation-Shows}
use cdc_badge_plugins.SciCalc.Actions.{newest, all_printed, on_actions-newest}
use cdc_badge_plugins.SciCalc.Errors.{clears, Safe, Held, press-Safe, press-Held}

abbrev parse_digits : ℕ → List ℕ → Option ℕ
parse_digits n [] = some n
parse_digits n (b ∷ s) =
    let rest = parse_digits (n * 10 + (b - 0x30)) s in
    if leb 0x30 b && leb b 0x39 then rest else none

abbrev show_whole : ℕ → List ℕ
unfolding show_nat
show_whole n = show_nat 4 n

-- Numbers below 1000; sine and the rest are not used.
instance abbrev whole_numbers : Float
whole_numbers = record {
  F = ℕ;
  of_u64 = λ n. n;
  of_i32 = pos_part;
  nano = 0;
  const_pi = 3;
  const_e = 2;
  neg = λ x. x;
  add = λ a b. a + b;
  sub = λ a b. a - b;
  mul = λ a b. a * b;
  div = λ a b. a / b;
  eq = λ a b. a == b;
  lt = ltb;
  le = leb;
  is_finite = λ x. ltb x 1000;
  to_u64 = λ x. x;
  to_i32 = pos;
  fixed = λ k x. show_whole x ++ 0x2E ∷ replicate k 0x30;
  parse = parse_digits 0;
  pow = λ a b. a;
  fmod = λ a b. a % b;
  fabs = λ x. x;
  floor = λ x. x;
  sqrt = λ x. x;
  cbrt = λ x. x;
  exp = λ x. x;
  log = λ x. x;
  log10 = λ x. x;
  sin = λ x. x;
  cos = λ x. x;
  tan = λ x. x;
  asin = λ x. x;
  acos = λ x. x;
  atan = λ x. x;
}

run : List (ℕ × ℕ) → Calc → Calc
unfolding on_actions on_action action_key short_key long_key leaf_key quick_key press input_digit
    input_dot clear_all backspace negate fail await due apply_op complete repeat_last equals
    evaluate apply_unary set_result push_history pushed unless_error binary_line unary_line symbol
    unary_name mem_store mem_recall with_digit with_dot without_last negated parse_or_zero apply
    finite factorial multiply_up format_num trimmed pop_zeros ends_with pop show_nat new
run actions c = on_actions actions c

-- 12 + 3 x 4 = is 60, from left to right.
abbrev sum_keys : List (ℕ × ℕ)
sum_keys = (1, 0x31) ∷ (1, 0x32) ∷ (2, 0x31) ∷ (1, 0x33) ∷ (2, 0x33) ∷ (1, 0x34) ∷ (1, 0x59) ∷ []

sum : (on_actions sum_keys new).entry ≡ 0x36 ∷ 0x30 ∷ []
unfolding run
sum = refl

sum_tape :
    (on_actions sum_keys new).history
    ≡ (0x31 ∷ 0x35 ∷ 0x20 ∷ 0x78 ∷ 0x20 ∷ 0x34 ∷ 0x20 ∷ 0x3D ∷ 0x20 ∷ 0x36 ∷ 0x30 ∷ []) ∷ []
unfolding run
sum_tape = refl

-- 5! is 120 and its square is too large here.
factorial_square : (on_actions ((1, 0x35) ∷ (4, 138) ∷ (2, 0x37) ∷ []) new).error ≡ some overflow
unfolding run
factorial_square = refl

-- Typing 0, a point and a sign.
typed_text : (on_actions ((1, 0x30) ∷ (4, 108) ∷ (4, 107) ∷ []) new).entry ≡ 0x2D ∷ 0x30 ∷ 0x2E ∷ []
unfolding run
typed_text = refl

abbrev four : Numeral
four = numeral false 4 [] none

abbrev typing_keys : List Key
typing_keys = digit 7 ∷ dot ∷ erase ∷ sign ∷ []

press_all-typed_example :
    (press_all typing_keys (typing four new) ≡ typing (typed_all typing_keys four) new)
    × IsNumeral (typed_all typing_keys four)
unfolding IsTyping IsNumeral Decimals magnitude decimals
press_all-typed_example =
    press_all-typed typing_keys four new (omega arith, (tt, (tt, (tt, tt))))
      (omega arith, tt, tt, inl refl, omega arith)

minus_47 : print (typed_all typing_keys four) ≡ 0x2D ∷ 0x34 ∷ 0x37 ∷ []
unfolding print sign_text decimals glyphs typed_all typed append_digit append_point remove_last
    flip_sign has_room
minus_47 = refl

abbrev twelve : Operand
twelve = record { first = 1; others = digit 2 ∷ [] }

abbrev three : Operand
three = record { first = 3; others = [] }

-- 12 / 3 + 3 is 7.
calculation-Shows_example :
    Shows (ok 7) (press_all (calculation_keys twelve ((op_div, three) ∷ (op_add, three) ∷ [])) new)
unfolding new IsOperand IsStroke fold_left operand_value numeral_of typed_all typed append_digit
    has_room parse_or_zero print sign_text decimals glyphs apply finite
calculation-Shows_example =
    calculation-Shows twelve (op_div, three) ((op_add, three) ∷ []) new
      (omega arith, (omega arith, tt)) ((omega arith, tt), ((omega arith, tt), tt)) refl refl refl

on_actions-newest_example :
    (on_actions sum_keys new).history ≡ newest ([] ++ all_printed sum_keys new)
unfolding newest new
on_actions-newest_example = on_actions-newest [] sum_keys new refl

-- 5 / 0, before the last key.
abbrev five_by_zero : Calc
unfolding new
five_by_zero = record new { acc = 5; pending = some op_div; entry = 0x30 ∷ []; new_entry = false }

press-Safe_example : Safe five_by_zero (press total five_by_zero)
unfolding five_by_zero
press-Safe_example = press-Safe total five_by_zero refl

by_zero : (press total five_by_zero).error ≡ some div_zero
unfolding press equals complete unless_error apply fail parse_or_zero five_by_zero
by_zero = refl

abbrev stopped : Calc
unfolding fail
stopped = fail div_zero five_by_zero

press-Held_example : Held stopped (press (operator op_mul) stopped)
unfolding clears stopped
press-Held_example = press-Held (operator op_mul) div_zero stopped refl refl
