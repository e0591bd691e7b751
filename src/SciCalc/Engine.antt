-- ===== src/SciCalc/Engine.antt =====
-- The state machine of examples/sci_calc/src/engine.rs. The entry is its
-- ASCII bytes; `unless_error` is the early return of the methods.
use cdc_badge_plugins.Base.{ℕ, ◌+◌, Bool, true, false, not, ◌&&◌, ltb, if◌then◌else◌, u8}
use cdc_badge_plugins.Base.{Option, none, some, List, [], ◌∷◌, ◌++◌, length, drop}
use cdc_badge_plugins.Base.Bytes.{str_eq}
use cdc_badge_plugins.SciCalc.Entry.{zero_text, with_digit, with_dot, without_last, negated}
use cdc_badge_plugins.SciCalc.Numbers.{
  Float, AngleMode, deg, rad, CalcError, div_zero, domain, Result, ok, err, Op, Unary, symbol,
  unary_name, finite, apply, factorial, format_num,
}
use cdc_badge_plugins.SciCalc.Numbers.{
  u_sin, u_cos, u_tan, u_asin, u_acos, u_atan, u_ln, u_log10, u_exp, u_exp10, u_sqr, u_sqrt, u_cbrt,
  u_recip, u_fact,
}

abbrev pub max_history : ℕ
max_history = 200

pub data Constant : Type 0 where
  c_pi c_e : Constant

-- The line goes to the end, and the oldest line goes when there are too many.
unfoldable pub pushed : List ℕ → List (List ℕ) → List (List ℕ)
pushed line h =
    let all_lines = h ++ line ∷ [] in
    if ltb max_history (length all_lines) then drop 1 all_lines else all_lines

module _ ⦃N : Float⦄ where
  open N use {
    F, of_u64, neg, add, sub, mul, div, eq, lt, le, parse, const_pi, const_e, pow, sqrt, cbrt, exp,
    log, log10, sin, cos, tan, asin, acos, atan,
  }

  pub record Calc : Type 0 where
    pub entry : List ℕ
    pub acc : F
    pub pending : Option Op
    pub last_binary : Option (Op × F)
    pub new_entry : Bool
    pub error : Option CalcError
    pub angle : AngleMode
    pub memory : F
    pub mem_set : Bool
    pub history : List (List ℕ)

  unfoldable pub new : Calc
  new = record {
    entry = [];
    acc = of_u64 0;
    pending = none;
    last_binary = none;
    new_entry = true;
    error = none;
    angle = deg;
    memory = of_u64 0;
    mem_set = false;
    history = [];
  }

  unfoldable pub display : Calc → List ℕ
  display c = if str_eq c.entry [] then zero_text else c.entry

  unfoldable pub pending_symbol : Calc → List ℕ
  pending_symbol c = elim c.pending [ none ↦ [] | some op ↦ symbol op ]

  -- `parse().unwrap_or(0.0)`.
  unfoldable pub parse_or_zero : List ℕ → F
  parse_or_zero s = elim (parse s) [ none ↦ of_u64 0 | some v ↦ v ]

  abbrev pub value : Calc → F
  value c = parse_or_zero c.entry

  unfoldable pub set_result : F → Calc → Calc
  set_result v c = record c { entry = format_num v; new_entry = true }

  unfoldable pub push_history : List ℕ → Calc → Calc
  push_history line c = record c { history = pushed line c.history }

  unfoldable pub to_rad : AngleMode → F → F
  to_rad deg x = div (mul x const_pi) (of_u64 180)
  to_rad rad x = x

  unfoldable pub from_rad : AngleMode → F → F
  from_rad deg x = div (mul x (of_u64 180)) const_pi
  from_rad rad x = x

  -- `if self.error.is_some() { return; }` in front of the rest of a method.
  unfoldable pub unless_error : Calc → Calc → Calc
  unless_error c rest = elim c.error [ none ↦ rest | some e ↦ c ]

  unfoldable pub input_digit : ℕ → Calc → Calc
  input_digit d c = unless_error c (record c {
    entry = with_digit (u8 (0x30 + d)) (if c.new_entry then [] else c.entry);
    new_entry = false;
  })

  unfoldable pub input_dot : Calc → Calc
  input_dot c = unless_error c (
      if c.new_entry
      then record c { entry = 0x30 ∷ 0x2E ∷ []; new_entry = false }
      else record c { entry = with_dot c.entry })

  unfoldable pub clear_entry : Calc → Calc
  clear_entry c = record c { entry = zero_text; new_entry = false; error = none }

  unfoldable pub clear_all : Calc → Calc
  clear_all c = record c {
    entry = zero_text;
    acc = of_u64 0;
    pending = none;
    last_binary = none;
    new_entry = true;
    error = none;
  }

  unfoldable pub backspace : Calc → Calc
  backspace c = elim c.error [
    | some e ↦ clear_all c
    | none ↦
        if c.new_entry
        then record c { entry = zero_text; new_entry = false }
        else record c { entry = without_last c.entry }
  ]

  unfoldable pub negate : Calc → Calc
  negate c = unless_error c (record c { entry = negated c.entry })

  unfoldable pub fail : CalcError → Calc → Calc
  fail e c = record c { error = some e }

  -- The rest of `apply_op`, once the accumulator is computed.
  unfoldable pub await : Op → F → Calc → Calc
  await op v c = record c { acc = v; entry = format_num v; pending = some op; new_entry = true }

  -- `self.pending.filter(|_| !self.new_entry)`: an operator with an operand typed after it.
  unfoldable pub due : Calc → Option Op
  due c = if c.new_entry then none else c.pending

  unfoldable pub apply_op : Op → Calc → Calc
  apply_op op c =
      let cur = value c in
      unless_error c (elim (due c) [
        | none ↦ await op cur c
        | some p ↦ elim (apply p c.acc cur) [ ok v ↦ await op v c | err e ↦ fail e c ]
      ])

  -- `{} {} {} = {}`.
  unfoldable pub binary_line : Op → F → F → F → List ℕ
  binary_line op lhs rhs v =
      format_num lhs
      ++ 0x20 ∷ (symbol op ++ 0x20 ∷ (format_num rhs ++ 0x20 ∷ 0x3D ∷ 0x20 ∷ format_num v))

  -- `equals` with an operator that is pending.
  unfoldable pub complete : Op → Calc → Calc
  complete op c =
      let rhs = value c in
      elim (apply op c.acc rhs) [
        | ok v ↦ set_result v (record (push_history (binary_line op c.acc rhs v) c) {
          acc = v;
          last_binary = some (op, rhs);
          pending = none;
        })
        | err e ↦ fail e c
      ]

  -- `equals` again: the last operator and its right operand, on the value shown.
  unfoldable pub repeat_last : Op → F → Calc → Calc
  repeat_last op rhs c =
      let lhs = value c in
      elim (apply op lhs rhs) [
        | ok v ↦ set_result v (record (push_history (binary_line op lhs rhs v) c) { acc = v })
        | err e ↦ fail e c
      ]

  unfoldable pub equals : Calc → Calc
  equals c = unless_error c (elim c.pending [
    | some op ↦ complete op c
    | none ↦ elim c.last_binary [ some r ↦ repeat_last r.0 r.1 c | none ↦ set_result (value c) c ]
  ])

  -- `(-1.0..=1.0).contains(&x)`.
  unfoldable pub in_unit : F → Bool
  in_unit x = le (neg (of_u64 1)) x && le x (of_u64 1)

  unfoldable pub evaluate : AngleMode → Unary → F → Result F
  evaluate m u_sin x = finite (sin (to_rad m x))
  evaluate m u_cos x = finite (cos (to_rad m x))
  evaluate m u_tan x = finite (tan (to_rad m x))
  evaluate m u_asin x = if not (in_unit x) then err domain else ok (from_rad m (asin x))
  evaluate m u_acos x = if not (in_unit x) then err domain else ok (from_rad m (acos x))
  evaluate m u_atan x = ok (from_rad m (atan x))
  evaluate m u_ln x = if le x (of_u64 0) then err domain else finite (log x)
  evaluate m u_log10 x = if le x (of_u64 0) then err domain else finite (log10 x)
  evaluate m u_exp x = finite (exp x)
  evaluate m u_exp10 x = finite (pow (of_u64 10) x)
  evaluate m u_sqr x = finite (mul x x)
  evaluate m u_sqrt x = if lt x (of_u64 0) then err domain else finite (sqrt x)
  evaluate m u_cbrt x = finite (cbrt x)
  evaluate m u_recip x = if eq x (of_u64 0) then err div_zero else finite (div (of_u64 1) x)
  evaluate m u_fact x = factorial x

  -- `{}({}) = {}`.
  unfoldable pub unary_line : Unary → F → F → List ℕ
  unary_line u x v =
      unary_name u ++ 0x28 ∷ (format_num x ++ 0x29 ∷ 0x20 ∷ 0x3D ∷ 0x20 ∷ format_num v)

  unfoldable pub apply_unary : Unary → Calc → Calc
  apply_unary u c =
      let x = value c in
      unless_error c (elim (evaluate c.angle u x) [
        | ok v ↦ set_result v (push_history (unary_line u x v) c)
        | err e ↦ fail e c
      ])

  unfoldable pub constant_value : Constant → F
  constant_value c_pi = const_pi
  constant_value c_e = const_e

  unfoldable pub input_constant : Constant → Calc → Calc
  input_constant which c =
      unless_error c (record c { entry = format_num (constant_value which); new_entry = false })

  unfoldable pub mem_store : Calc → Calc
  mem_store c = record c { memory = value c; mem_set = true }

  unfoldable pub mem_recall : Calc → Calc
  mem_recall c = record c { entry = format_num c.memory; new_entry = false }

  unfoldable pub mem_add : Calc → Calc
  mem_add c = record c { memory = add c.memory (value c); mem_set = true }

  unfoldable pub mem_sub : Calc → Calc
  mem_sub c = record c { memory = sub c.memory (value c); mem_set = true }

  unfoldable pub mem_clear : Calc → Calc
  mem_clear c = record c { memory = of_u64 0; mem_set = false }

  unfoldable pub other_angle : AngleMode → AngleMode
  other_angle deg = rad
  other_angle rad = deg

  unfoldable pub toggle_angle : Calc → Calc
  toggle_angle c = record c { angle = other_angle c.angle }
