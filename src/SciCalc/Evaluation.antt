-- ===== src/SciCalc/Evaluation.antt =====
-- A calculation typed from left to right: what `apply_op` and `equals` compute is the fold of the
-- operators over the values of the operands, without precedence.
use mathlib.Core.Path.{subst}
use cdc_badge_plugins.Base.{
  ℕ, ◌≤◌, true, false, ◌≡◌, refl, ap, sym, ◌∙◌, inl, none, some, List, [], ◌∷◌, ◌++◌, All, arith,
}
use cdc_badge_plugins.SciCalc.Numbers.{Float, CalcError, Result, ok, err, Op, apply, format_num}
use cdc_badge_plugins.SciCalc.Entry.{with_digit}
use cdc_badge_plugins.SciCalc.Engine.{
  Calc, parse_or_zero, unless_error, input_digit, input_dot, negate, apply_op, equals, due, await,
  complete, fail, set_result, push_history, binary_line,
}
use cdc_badge_plugins.SciCalc.Keys.{Key, digit, dot, sign, total, operator, press, press_all}
use cdc_badge_plugins.SciCalc.Numeral.{
  Numeral, numeral, glyphs, sign_text, decimals, print, Decimals, magnitude, IsNumeral,
}
use cdc_badge_plugins.SciCalc.Calculation.{
  Operand, IsStroke, IsOperand, IsCalculation, operand_keys, numeral_of, chain_keys,
  calculation_keys, All-IsTyping, operand_keys-IsCalculation, chain_keys-IsCalculation,
}
use cdc_badge_plugins.SciCalc.Typing.{typing, press_all-typed, byte_glyph}

digit-IsNumeral : (d : ℕ) → d ≤ 9 → IsNumeral (numeral false d [] none)
unfolding IsNumeral Decimals magnitude decimals
digit-IsNumeral d h = (h, tt, tt, inl refl, omega arith)

module _ ⦃N : Float⦄ where
  open N use {F}

  unfoldable pub operand_value : Operand → F
  operand_value o = parse_or_zero (print (numeral_of o))

  -- The meaning of a calculation: from the left, until an operation fails.
  unfoldable pub fold_left : F → List (Op × Operand) → Result F
  fold_left a [] = ok a
  fold_left a (s ∷ steps) = elim (apply s.0 a (operand_value s.1)) [
    | ok v ↦ fold_left v steps
    | err e ↦ err e
  ]

  -- What the calculator shows for a result: the number, ready for another calculation, or the error.
  unfoldable pub Shows : Result F → Calc → Type 0
  Shows (ok v) c =
      (c.error ≡ none)
      × (c.entry ≡ format_num v)
      × (c.acc ≡ v)
      × (c.pending ≡ none)
      × (c.new_entry ≡ true)
  Shows (err e) c = c.error ≡ some e

  -- After an operator.
  abbrev waiting : Op → F → Calc → Calc
  waiting op v c = record c {
    acc = v;
    entry = format_num v;
    pending = some op;
    new_entry = true;
    error = none;
  }

  Shows-elim :
      (g : F → Calc) (c : Calc)
      → ((v : F) → Shows (ok v) (g v))
      → (r : Result F) → Shows r (elim r [ ok v ↦ g v | err e ↦ fail e c ])
  unfolding Shows fail
  Shows-elim g c h (ok v) = h v
  Shows-elim g c h (err e) = refl

  press_all-append :
      (ks js : List Key) (c : Calc) → press_all (ks ++ js) c ≡ press_all js (press_all ks c)
  unfolding press_all
  press_all-append [] js c = refl
  press_all-append (k ∷ ks) js c = press_all-append ks js (press k c)

  -- Before the first key of a number.
  abbrev ready : Calc → Calc
  ready c = record c { new_entry = true; error = none }

  press_all-operand :
      (o : Operand) (c : Calc)
      → IsOperand o
      → press_all (operand_keys o) (ready c) ≡ typing (numeral_of o) c
  unfolding press_all operand_keys numeral_of IsOperand press input_digit unless_error with_digit
      print sign_text decimals glyphs
  press_all-operand o c h =
      ap
        (λ ch. press_all o.others (record (typing (numeral false 0 [] none) c) { entry = ch ∷ [] }))
        (byte_glyph o.first h.0)
      ∙ (press_all-typed o.others (numeral false o.first [] none) c (All-IsTyping o.others h.1)
          (digit-IsNumeral o.first h.0)).0

  press-operator :
      (op p : Op) (n : Numeral) (a : F) (c : Calc)
      → press (operator op) (typing n (waiting p a c))
        ≡ elim (apply p a (parse_or_zero (print n))) [
          | ok v ↦ waiting op v c
          | err e ↦ fail e (typing n (waiting p a c))
        ]
  unfolding press apply_op unless_error due await
  press-operator op p n a c = refl

  press-total :
      (p : Op) (n : Numeral) (a : F) (c : Calc)
      → Shows (apply p a (parse_or_zero (print n))) (press total (typing n (waiting p a c)))
  unfolding Shows press equals unless_error complete set_result push_history
  press-total p n a c =
      let t = typing n (waiting p a c) in
      let b = parse_or_zero (print n) in
      Shows-elim
        (λ v. set_result v (record (push_history (binary_line p a b v) t) {
          acc = v;
          last_binary = some (p, b);
          pending = none;
        }))
        t (λ v. (refl, refl, refl, refl, refl)) (apply p a b)

  -- Once an error is shown the keys of a calculation change nothing.
  press-failed :
      (k : Key) (e : CalcError) (c : Calc) → IsCalculation k → c.error ≡ some e → press k c ≡ c
  unfolding press IsCalculation IsStroke input_digit input_dot negate apply_op equals unless_error
  press-failed (digit d) e c t h = rw h refl
  press-failed dot e c t h = rw h refl
  press-failed sign e c t h = rw h refl
  press-failed total e c t h = rw h refl
  press-failed (operator op) e c t h = rw h refl
  press-failed _ e c t h = absurd t

  press_all-failed :
      (ks : List Key) (e : CalcError) (c : Calc)
      → All IsCalculation ks
      → c.error ≡ some e
      → press_all ks c ≡ c
  unfolding press_all
  press_all-failed [] e c t h = refl
  press_all-failed (k ∷ ks) e c t h =
      ap (press_all ks) (press-failed k e c t.0 h) ∙ press_all-failed ks e c t.1 h

  bind_ok : (r : Result F) → elim r [ ok v ↦ ok v | err e ↦ err e ] ≡ r
  bind_ok (ok v) = refl
  bind_ok (err e) = refl

  -- The keys `js` after an operation with the result `r`.
  Shows-bind :
      (f : F → Result F) (g : F → Calc) (js : List Key) (c : Calc)
      → All IsCalculation js
      → ((v : F) → Shows (f v) (press_all js (g v)))
      → (r : Result F)
      → Shows
          (elim r [ ok v ↦ f v | err e ↦ err e ])
          (press_all js (elim r [ ok v ↦ g v | err e ↦ fail e c ]))
  unfolding Shows fail
  Shows-bind f g js c t h (ok v) = h v
  Shows-bind f g js c t h (err e) = ap (λ b. b.error) (press_all-failed js e (fail e c) t refl)

  press_all-calculation :
      (o : Operand) (js : List Key) (c : Calc)
      → IsOperand o
      → press_all (operand_keys o ++ js) (ready c) ≡ press_all js (typing (numeral_of o) c)
  press_all-calculation o js c h =
      press_all-append (operand_keys o) js (ready c) ∙ ap (press_all js) (press_all-operand o c h)

  -- The rest of a calculation, after the operand `n`.
  press_all-chain :
      (steps : List (Op × Operand)) (p : Op) (n : Numeral) (a : F) (c : Calc)
      → All (λ s. IsOperand s.1) steps
      → Shows
          (elim (apply p a (parse_or_zero (print n))) [ ok v ↦ fold_left v steps | err e ↦ err e ])
          (press_all (chain_keys steps) (typing n (waiting p a c)))
  unfolding press_all chain_keys fold_left operand_value
  press_all-chain [] p n a c t =
      subst (λ r. Shows r (press total (typing n (waiting p a c))))
        (sym (bind_ok (apply p a (parse_or_zero (print n))))) (press-total p n a c)
  press_all-chain (s ∷ steps) p n a c t =
      let js = operand_keys s.1 ++ chain_keys steps in
      let r = apply p a (parse_or_zero (print n)) in
      subst
        (λ b. Shows (elim r [ ok v ↦ fold_left v (s ∷ steps) | err e ↦ err e ]) (press_all js b))
        (sym (press-operator s.0 p n a c))
        (Shows-bind (λ v. fold_left v (s ∷ steps)) (λ v. waiting s.0 v c) js
          (typing n (waiting p a c))
          (operand_keys-IsCalculation s.1 (chain_keys steps) t.0
            (chain_keys-IsCalculation steps t.1))
          (λ v.
            subst (λ b. Shows (fold_left v (s ∷ steps)) b)
              (sym (press_all-calculation s.1 (chain_keys steps) (waiting s.0 v c) t.0))
              (press_all-chain steps s.0 (numeral_of s.1) v c t.1))
          r)

  -- The first operator of a calculation takes the operand as it is.
  press-first :
      (op : Op) (n : Numeral) (c : Calc)
      → c.pending ≡ none
      → press (operator op) (typing n c) ≡ waiting op (parse_or_zero (print n)) c
  unfolding press apply_op unless_error due await
  press-first op n c h = rw h refl

  ready_self : (c : Calc) → c.error ≡ none → c.new_entry ≡ true → ready c ≡ c
  ready_self c h g =
      ap (λ e. record c { new_entry = true; error = e }) (sym h)
      ∙ ap (λ b. record c { new_entry = b }) (sym g)

  -- A calculation of at least one operator, typed into a calculator that awaits a number, shows the
  -- fold of the operators over the values of the operands, or the first error of that fold.
  pub calculation-Shows :
      (o : Operand) (s : Op × Operand) (steps : List (Op × Operand)) (c : Calc)
      → IsOperand o
      → All (λ t. IsOperand t.1) (s ∷ steps)
      → c.error ≡ none
      → c.pending ≡ none
      → c.new_entry ≡ true
      → Shows
          (fold_left (operand_value o) (s ∷ steps))
          (press_all (calculation_keys o (s ∷ steps)) c)
  unfolding calculation_keys chain_keys press_all fold_left operand_value
  calculation-Shows o s steps c h t error pending new_entry =
      let js = operand_keys s.1 ++ chain_keys steps in
      let v = operand_value o in
      let e : press_all (calculation_keys o (s ∷ steps)) c
          ≡ press_all (chain_keys steps) (typing (numeral_of s.1) (waiting s.0 v c)) =
        ap (press_all (calculation_keys o (s ∷ steps))) (sym (ready_self c error new_entry))
        ∙ press_all-calculation o (chain_keys (s ∷ steps)) c h
        ∙ ap (press_all js) (press-first s.0 (numeral_of o) c pending)
        ∙ press_all-calculation s.1 (chain_keys steps) (waiting s.0 v c) t.0 in
      subst (Shows (fold_left v (s ∷ steps))) (sym e)
        (press_all-chain steps s.0 (numeral_of s.1) v c t.1)
