-- ===== src/SciCalc/Keys.antt =====
-- The actions of examples/sci_calc/src/lib.rs that change the calculator, by the ids of its menus and
-- the codes of its keys.
use cdc_badge_plugins.Base.{
  ℕ, ◌-◌, ◌&&◌, leb, ◌==◌, if◌then◌else◌, Option, none, some, List, [], ◌∷◌, ◌++◌,
}
use cdc_badge_plugins.SciCalc.Numbers.{
  Float, Op, Unary, op_add, op_sub, op_mul, op_div, op_pow, op_mod, op_percent, u_sin, u_cos, u_tan,
  u_asin, u_acos, u_atan, u_ln, u_log10, u_exp, u_exp10, u_sqr, u_sqrt, u_cbrt, u_recip, u_fact,
}
use cdc_badge_plugins.SciCalc.Engine.{
  Calc, Constant, c_pi, c_e, input_digit, input_dot, negate, backspace, clear_entry, clear_all,
  equals, apply_op, apply_unary, input_constant, mem_store, mem_recall, mem_add, mem_sub, mem_clear,
  toggle_angle,
}

-- The calls that the dispatch makes on the calculator.
pub data Key : Type 0 where
  digit : ℕ → Key
  dot sign erase entry_off all_off total : Key
  operator : Op → Key
  function : Unary → Key
  constant : Constant → Key
  store recall store_add store_sub store_off angle_key : Key

-- The leaves of the menu by their ids, `L_ADD` and the rest.
unfoldable pub leaf_key : ℕ → Option Key
leaf_key id =
    if id == 100
    then some (operator op_add)
    else if id == 101
    then some (operator op_sub)
    else if id == 102
    then some (operator op_mul)
    else if id == 103
    then some (operator op_div)
    else if id == 104
    then some (operator op_pow)
    else if id == 105
    then some (operator op_mod)
    else if id == 106
    then some (operator op_percent)
    else if id == 107
    then some sign
    else if id == 108
    then some dot
    else if id == 109
    then some erase
    else if id == 110
    then some entry_off
    else if id == 111
    then some all_off
    else if id == 120
    then some (function u_sin)
    else if id == 121
    then some (function u_cos)
    else if id == 122
    then some (function u_tan)
    else if id == 123
    then some (function u_asin)
    else if id == 124
    then some (function u_acos)
    else if id == 125
    then some (function u_atan)
    else if id == 130
    then some (function u_ln)
    else if id == 131
    then some (function u_log10)
    else if id == 132
    then some (function u_exp)
    else if id == 133
    then some (function u_exp10)
    else if id == 134
    then some (function u_sqr)
    else if id == 135
    then some (function u_sqrt)
    else if id == 136
    then some (function u_cbrt)
    else if id == 137
    then some (function u_recip)
    else if id == 138
    then some (function u_fact)
    else if id == 140
    then some (constant c_pi)
    else if id == 141
    then some (constant c_e)
    else if id == 150
    then some store
    else if id == 151
    then some recall
    else if id == 152
    then some store_add
    else if id == 153
    then some store_sub
    else if id == 154
    then some store_off
    else none

-- The long-press keys of `apply_quick_key`.
unfoldable pub quick_key : ℕ → Option Key
quick_key key =
    if key == 0x31
    then some (operator op_add)
    else if key == 0x32
    then some (operator op_sub)
    else if key == 0x33
    then some (operator op_mul)
    else if key == 0x34
    then some (operator op_div)
    else if key == 0x35
    then some (operator op_pow)
    else if key == 0x36
    then some (function u_sqrt)
    else if key == 0x37
    then some (function u_sqr)
    else if key == 0x38
    then some (function u_recip)
    else if key == 0x39
    then some (operator op_percent)
    else if key == 0x30
    then some dot
    else none

-- A short key: a digit, Y or N.
unfoldable pub short_key : ℕ → Option Key
short_key user =
    if leb 0x30 user && leb user 0x39
    then some (digit (user - 0x30))
    else if user == 0x59
    then some total
    else if user == 0x4E
    then some erase
    else none

-- A long press: Y opens the menu, N clears, the rest are quick keys.
unfoldable pub long_key : ℕ → Option Key
long_key user = if user == 0x59 then none else if user == 0x4E then some all_off else quick_key user

-- `plugin_on_action`: what an action does to the calculator, `none` for the actions that only
-- draw, open menus or write files.
unfoldable pub action_key : ℕ → ℕ → Option Key
action_key action_id user =
    if action_id == 1
    then short_key user
    else if action_id == 2
    then long_key user
    else if action_id == 3
    then (if user == 6 then some angle_key else none)
    else if action_id == 4
    then leaf_key user
    else none

module _ ⦃N : Float⦄ where
  unfoldable pub press : Key → Calc → Calc
  press (digit d) c = input_digit d c
  press dot c = input_dot c
  press sign c = negate c
  press erase c = backspace c
  press entry_off c = clear_entry c
  press all_off c = clear_all c
  press total c = equals c
  press (operator op) c = apply_op op c
  press (function u) c = apply_unary u c
  press (constant k) c = input_constant k c
  press store c = mem_store c
  press recall c = mem_recall c
  press store_add c = mem_add c
  press store_sub c = mem_sub c
  press store_off c = mem_clear c
  press angle_key c = toggle_angle c

  unfoldable pub on_action : ℕ → ℕ → Calc → Calc
  on_action action_id user c = elim (action_key action_id user) [ some k ↦ press k c | none ↦ c ]

  unfoldable pub press_all : List Key → Calc → Calc
  press_all [] c = c
  press_all (k ∷ ks) c = press_all ks (press k c)

  -- `build_history_text`: every line of the tape and a line feed.
  unfoldable pub lines_text : List (List ℕ) → List ℕ
  lines_text [] = []
  lines_text (line ∷ rest) = line ++ 0x0A ∷ lines_text rest

  unfoldable pub build_history_text : Calc → List ℕ
  build_history_text c = lines_text c.history

  -- A sequence of actions, each with its id and its user data.
  unfoldable pub on_actions : List (ℕ × ℕ) → Calc → Calc
  on_actions [] c = c
  on_actions (a ∷ rest) c = on_actions rest (on_action a.0 a.1 c)
