-- ===== src/SciCalc/Errors.antt =====
-- What fails changes nothing but the error, and the error stays until a key clears it.
use cdc_badge_plugins.Base.{
  Bool, true, false, ◌≡◌, refl, ◌⊎◌, inl, inr, none, some, Option-elim, if-elim, arith,
}
use cdc_badge_plugins.SciCalc.Numbers.{Float, CalcError, Result, ok, err, Op, Unary, apply}
use cdc_badge_plugins.SciCalc.Engine.{
  Calc, value, set_result, push_history, unless_error, input_digit, input_dot, clear_entry,
  clear_all, backspace, negate, fail, await, due, apply_op, complete, repeat_last, equals, evaluate,
  apply_unary, input_constant, mem_store, mem_recall, mem_add, mem_sub, mem_clear, toggle_angle,
}
use cdc_badge_plugins.SciCalc.Keys.{
  Key, digit, dot, sign, erase, entry_off, all_off, total, operator, function, constant, press,
}

-- Keys that take the calculator out of an error.
unfoldable pub clears : Key → Bool
clears erase = true
clears entry_off = true
clears all_off = true
clears _ = false

module _ ⦃N : Float⦄ where
  open N use {F}

  -- Every field but the error is as it was.
  abbrev pub SameButError : Calc → Calc → Type 0
  SameButError c c' =
      (c'.entry ≡ c.entry)
      × (c'.acc ≡ c.acc)
      × (c'.pending ≡ c.pending)
      × (c'.last_binary ≡ c.last_binary)
      × (c'.new_entry ≡ c.new_entry)
      × (c'.angle ≡ c.angle)
      × (c'.memory ≡ c.memory)
      × (c'.mem_set ≡ c.mem_set)
      × (c'.history ≡ c.history)

  -- No error, or an error that is the only change.
  unfoldable pub Safe : Calc → Calc → Type 0
  Safe c c' = (c'.error ≡ none) ⊎ ((e : CalcError) × (c'.error ≡ some e) × SameButError c c')

  -- The calculation is as it was; the entry, the memory and the unit of angles may differ.
  unfoldable pub Held : Calc → Calc → Type 0
  Held c c' =
      (c'.error ≡ c.error)
      × (c'.acc ≡ c.acc)
      × (c'.pending ≡ c.pending)
      × (c'.last_binary ≡ c.last_binary)
      × (c'.history ≡ c.history)

  unless_error-Held :
      (e : CalcError) (c rest : Calc) → c.error ≡ some e → Held c (unless_error c rest)
  unfolding unless_error Held
  unless_error-Held e c rest h =
      Option-elim (Held c) c.error rest (λ d. c) (λ o. absurd (ground arith))
        (λ d o. (refl, refl, refl, refl, refl))

  -- While an error is shown, a key that does not clear it leaves the error, the accumulator, the
  -- operators and the tape alone.
  pub press-Held :
      (k : Key) (e : CalcError) (c : Calc)
      → c.error ≡ some e
      → clears k ≡ false
      → Held c (press k c)
  unfolding press clears Held input_digit input_dot negate equals apply_op apply_unary
      input_constant mem_store mem_recall mem_add mem_sub mem_clear toggle_angle
  press-Held (digit d) e c h t = unless_error-Held e c _ h
  press-Held dot e c h t = unless_error-Held e c _ h
  press-Held sign e c h t = unless_error-Held e c _ h
  press-Held erase e c h t = absurd (ground arith)
  press-Held entry_off e c h t = absurd (ground arith)
  press-Held all_off e c h t = absurd (ground arith)
  press-Held total e c h t = unless_error-Held e c _ h
  press-Held (operator op) e c h t = unless_error-Held e c _ h
  press-Held (function u) e c h t = unless_error-Held e c _ h
  press-Held (constant k) e c h t = unless_error-Held e c _ h
  press-Held k e c h t = (refl, refl, refl, refl, refl)

  unless_error-Safe : (c rest : Calc) → c.error ≡ none → Safe c rest → Safe c (unless_error c rest)
  unfolding unless_error
  unless_error-Safe c rest h s =
      Option-elim (Safe c) c.error rest (λ d. c) (λ o. s) (λ d o. absurd (ground arith))

  Result-Safe :
      (c : Calc) (g : F → Calc) (r : Result F)
      → ((v : F) → (g v).error ≡ none)
      → Safe c (elim r [ ok v ↦ g v | err e ↦ fail e c ])
  unfolding Safe fail
  Result-Safe c g (ok v) h = inl (h v)
  Result-Safe c g (err e) h = inr (e, refl, (refl, refl, refl, refl, refl, refl, refl, refl, refl))

  input_dot-Safe : (c : Calc) → c.error ≡ none → Safe c (input_dot c)
  unfolding input_dot Safe
  input_dot-Safe c h =
      unless_error-Safe c _ h (if-elim (Safe c) c.new_entry _ _ (λ t. inl h) (λ t. inl h))

  backspace-Safe : (c : Calc) → c.error ≡ none → Safe c (backspace c)
  unfolding backspace Safe
  backspace-Safe c h =
      Option-elim (Safe c) c.error _ _
        (λ o. if-elim (Safe c) c.new_entry _ _ (λ t. inl h) (λ t. inl h))
        (λ d o. absurd (ground arith))

  equals-Safe : (c : Calc) → c.error ≡ none → Safe c (equals c)
  unfolding equals complete repeat_last set_result push_history Safe
  equals-Safe c h = unless_error-Safe c _ h (
      Option-elim (Safe c) c.pending _ _
        (λ o.
          Option-elim (Safe c) c.last_binary _ _ (λ q. inl h)
            (λ l q. Result-Safe c _ (apply l.0 (value c) l.1) (λ v. h)))
        (λ op o. Result-Safe c _ (apply op c.acc (value c)) (λ v. h)))

  apply_op-Safe : (op : Op) (c : Calc) → c.error ≡ none → Safe c (apply_op op c)
  unfolding apply_op await Safe
  apply_op-Safe op c h = unless_error-Safe c _ h (
      Option-elim (Safe c) (due c) _ _ (λ o. inl h)
        (λ p o. Result-Safe c _ (apply p c.acc (value c)) (λ v. h)))

  apply_unary-Safe : (u : Unary) (c : Calc) → c.error ≡ none → Safe c (apply_unary u c)
  unfolding apply_unary set_result push_history
  apply_unary-Safe u c h =
      unless_error-Safe c _ h (Result-Safe c _ (evaluate c.angle u (value c)) (λ v. h))

  -- Where no error is shown, a key leaves none, or shows one and changes nothing else: the entry, the
  -- accumulator, the operators, the memory, the unit of angles and the tape are as before the key.
  pub press-Safe : (k : Key) (c : Calc) → c.error ≡ none → Safe c (press k c)
  unfolding press Safe input_digit negate clear_entry clear_all input_constant mem_store mem_recall
      mem_add mem_sub mem_clear toggle_angle
  press-Safe (digit d) c h = unless_error-Safe c _ h (inl h)
  press-Safe dot c h = input_dot-Safe c h
  press-Safe sign c h = unless_error-Safe c _ h (inl h)
  press-Safe erase c h = backspace-Safe c h
  press-Safe entry_off c h = inl refl
  press-Safe all_off c h = inl refl
  press-Safe total c h = equals-Safe c h
  press-Safe (operator op) c h = apply_op-Safe op c h
  press-Safe (function u) c h = apply_unary-Safe u c h
  press-Safe (constant k) c h = unless_error-Safe c _ h (inl h)
  press-Safe k c h = inl h
