-- ===== src/SciCalc/Actions.antt =====
-- Any sequence of actions: what is on the tape of results.
use cdc_badge_plugins.Base.{
  ℕ, ◌+◌, ◌-◌, ◌≤◌, ◌<◌, min, ◌≡◌, refl, ap, sym, ◌∙◌, inl, inr, none, some, List, [], ◌∷◌, ◌++◌,
  length, drop, arith, ltb, ltb→lt, Bool-cases, Option-elim, Option-elim_both, if-elim,
  length-append, length-drop, drop-drop, drop-append,
}
use mathlib.Core.List.{append_assoc, append-nil}
use cdc_badge_plugins.SciCalc.Numbers.{Float, Result, ok, err, Op, Unary, apply}
use cdc_badge_plugins.SciCalc.Engine.{
  Calc, value, set_result, pushed, binary_line, unary_line, push_history, unless_error, input_digit,
  input_dot, clear_entry, clear_all, backspace, negate, fail, await, due, apply_op, complete,
  repeat_last, equals, evaluate, apply_unary, input_constant, mem_store, mem_recall, mem_add,
  mem_sub, mem_clear, toggle_angle,
}
use cdc_badge_plugins.SciCalc.Keys.{
  Key, digit, dot, sign, erase, total, operator, function, constant, action_key, press, on_action,
  on_actions,
}

-- The last 200 of the lines that were ever printed.
unfoldable pub newest : List (List ℕ) → List (List ℕ)
newest log = drop (length log - 200) log

newest-short : (log : List (List ℕ)) → length log ≤ 200 → newest log ≡ log
unfolding newest
newest-short log h = let e : length log - 200 ≡ 0 = omega arith in rw e refl

length-newest : (log : List (List ℕ)) → length (newest log) ≡ min (length log) 200
unfolding newest
length-newest log = omega (arith, length-drop (length log - 200) log)

length-snoc : (line : List ℕ) (log : List (List ℕ)) → length (log ++ line ∷ []) ≡ length log + 1
length-snoc line log = length-append log (line ∷ [])

-- There is room on the tape.
newest-room :
    (line : List ℕ) (log : List (List ℕ))
    → length (newest log ++ line ∷ []) ≤ 200
    → newest log ++ line ∷ [] ≡ newest (log ++ line ∷ [])
newest-room line log h =
    let few : length log ≤ 199 =
      omega (arith, h, length-snoc line (newest log), length-newest log) in
    ap (λ l. l ++ line ∷ []) (newest-short log (omega arith))
    ∙ sym (newest-short (log ++ line ∷ []) (omega (arith, length-snoc line log)))

-- The tape is full, and its oldest line goes.
newest-full :
    (line : List ℕ) (log : List (List ℕ))
    → 200 < length (newest log ++ line ∷ [])
    → drop 1 (newest log ++ line ∷ []) ≡ newest (log ++ line ∷ [])
unfolding newest
newest-full line log h =
    let many : 200 ≤ length log =
      omega (arith, h, length-snoc line (newest log), length-newest log) in
    let k : length log - 200 + 1 ≡ length (log ++ line ∷ []) - 200 =
      omega (arith, length-snoc line log) in
    ap (drop 1) (sym (drop-append (length log - 200) log (line ∷ []) (omega arith)))
    ∙ drop-drop (length log - 200) 1 (log ++ line ∷ [])
    ∙ ap (λ n. drop n (log ++ line ∷ [])) k

pushed-newest :
    (line : List ℕ) (log : List (List ℕ)) → pushed line (newest log) ≡ newest (log ++ line ∷ [])
unfolding pushed newest
pushed-newest line log = elim (Bool-cases (ltb 200 (length (newest log ++ line ∷ [])))) [
  | inl long ↦ rw long (newest-full line log (ltb→lt 200 (length (newest log ++ line ∷ [])) long))
  | inr e ↦ rw e (newest-room line log (ground arith))
]

module _ ⦃N : Float⦄ where
  open N use {F}

  -- The line of a result, and none of a failure.
  unfoldable pub result_line : (F → List ℕ) → Result F → List (List ℕ)
  result_line line (ok v) = line v ∷ []
  result_line line (err e) = []

  unfoldable pub binary_result : Op → F → F → List (List ℕ)
  unfolding result_line
  binary_result op lhs rhs = result_line (binary_line op lhs rhs) (apply op lhs rhs)

  -- What a key prints: the total prints the pending operation, or else the last one on the value shown;
  -- a function prints its application; where an error is shown or comes up, nothing is printed.
  unfoldable pub printed : Key → Calc → List (List ℕ)
  unfolding result_line binary_result
  printed total c = elim c.error [
    | some e ↦ []
    | none ↦ elim c.pending [
      | some op ↦ binary_result op c.acc (value c)
      | none ↦ elim c.last_binary [ none ↦ [] | some r ↦ binary_result r.0 (value c) r.1 ]
    ]
  ]
  printed (function u) c = elim c.error [
    | some e ↦ []
    | none ↦ result_line (unary_line u (value c)) (evaluate c.angle u (value c))
  ]
  printed _ c = []

  unfoldable pub all_printed : List (ℕ × ℕ) → Calc → List (List ℕ)
  unfolding printed
  all_printed [] c = []
  all_printed (a ∷ rest) c =
      (elim (action_key a.0 a.1) [ none ↦ [] | some k ↦ printed k c ])
      ++ all_printed rest (on_action a.0 a.1 c)

  -- These lines, one at most, go to the end of the tape.
  Printed : Calc → List (List ℕ) → Calc → Type 0
  Printed c [] c' = c'.history ≡ c.history
  Printed c (line ∷ []) c' = c'.history ≡ pushed line c.history
  Printed c (line ∷ more ∷ ls) c' = ⊥

  unless_error-Printed :
      (c rest : Calc) (ls : List (List ℕ))
      → Printed c ls rest
      → Printed c (elim c.error [ some e ↦ [] | none ↦ ls ]) (unless_error c rest)
  unfolding unless_error Printed
  unless_error-Printed c rest ls h = Option-elim_both (Printed c) c.error _ _ _ _ h (λ e. refl)

  unless_error-silent : (c rest : Calc) → Printed c [] rest → Printed c [] (unless_error c rest)
  unfolding unless_error Printed
  unless_error-silent c rest h =
      Option-elim (Printed c []) c.error rest (λ e. c) (λ o. h) (λ e o. refl)

  Result-Printed :
      (c : Calc) (line : F → List ℕ) (g : F → Calc) (r : Result F)
      → ((v : F) → Printed c (line v ∷ []) (g v))
      → Printed c (result_line line r) (elim r [ ok v ↦ g v | err e ↦ fail e c ])
  unfolding Printed fail result_line
  Result-Printed c line g (ok v) h = h v
  Result-Printed c line g (err e) h = refl

  Result-silent :
      (c : Calc) (g : F → Calc) (r : Result F)
      → ((v : F) → Printed c [] (g v))
      → Printed c [] (elim r [ ok v ↦ g v | err e ↦ fail e c ])
  unfolding Printed fail
  Result-silent c g (ok v) h = h v
  Result-silent c g (err e) h = refl

  backspace-silent : (c : Calc) → Printed c [] (backspace c)
  unfolding backspace clear_all Printed
  backspace-silent c =
      Option-elim (Printed c []) c.error _ _
        (λ o. if-elim (Printed c []) c.new_entry _ _ (λ t. refl) (λ t. refl)) (λ e o. refl)

  input_dot-silent : (c : Calc) → Printed c [] (input_dot c)
  unfolding input_dot Printed
  input_dot-silent c =
      unless_error-silent c _ (if-elim (Printed c []) c.new_entry _ _ (λ t. refl) (λ t. refl))

  equals-Printed : (c : Calc) → Printed c (printed total c) (equals c)
  unfolding equals complete repeat_last set_result push_history Printed printed binary_result
  equals-Printed c = unless_error-Printed c _ _ (
      Option-elim_both (Printed c) c.pending _ _ _ _
        (Option-elim_both (Printed c) c.last_binary _ _ _ _ refl
          (λ l. Result-Printed c _ _ (apply l.0 (value c) l.1) (λ v. refl)))
        (λ op. Result-Printed c _ _ (apply op c.acc (value c)) (λ v. refl)))

  apply_op-silent : (op : Op) (c : Calc) → Printed c [] (apply_op op c)
  unfolding apply_op await Printed
  apply_op-silent op c = unless_error-silent c _ (
      Option-elim (Printed c []) (due c) _ _ (λ o. refl)
        (λ p o. Result-silent c _ (apply p c.acc (value c)) (λ v. refl)))

  apply_unary-Printed :
      (u : Unary) (c : Calc) → Printed c (printed (function u) c) (apply_unary u c)
  unfolding apply_unary set_result push_history Printed printed
  apply_unary-Printed u c =
      unless_error-Printed c _ _ (Result-Printed c _ _ (evaluate c.angle u (value c)) (λ v. refl))

  press-Printed : (k : Key) (c : Calc) → Printed c (printed k c) (press k c)
  unfolding press Printed printed input_digit negate clear_entry clear_all input_constant mem_store
      mem_recall mem_add mem_sub mem_clear toggle_angle
  press-Printed (digit d) c = unless_error-silent c _ refl
  press-Printed dot c = input_dot-silent c
  press-Printed sign c = unless_error-silent c _ refl
  press-Printed erase c = backspace-silent c
  press-Printed total c = equals-Printed c
  press-Printed (operator op) c = apply_op-silent op c
  press-Printed (function u) c = apply_unary-Printed u c
  press-Printed (constant k) c = unless_error-silent c _ refl
  press-Printed k c = refl

  Printed-newest :
      (log ls : List (List ℕ)) (c c' : Calc)
      → Printed c ls c'
      → c.history ≡ newest log
      → c'.history ≡ newest (log ++ ls)
  unfolding Printed
  Printed-newest log [] c c' p h = p ∙ h ∙ ap newest (sym (append-nil log))
  Printed-newest log (line ∷ []) c c' p h = p ∙ ap (pushed line) h ∙ pushed-newest line log
  Printed-newest log (line ∷ more ∷ ls) c c' p h = absurd p

  on_action-Printed :
      (id user : ℕ) (c : Calc)
      → Printed c
          (elim (action_key id user) [ none ↦ [] | some k ↦ printed k c ])
          (on_action id user c)
  unfolding on_action Printed
  on_action-Printed id user c =
      Option-elim_both (Printed c) (action_key id user) _ _ _ _ refl (λ k. press-Printed k c)

  -- Whatever the actions are, the tape is what is left of everything that was ever printed: the newest
  -- 200 lines of those before and of one line for each total and each function that gives a result, in
  -- their order.
  pub on_actions-newest :
      (log : List (List ℕ)) (actions : List (ℕ × ℕ)) (c : Calc)
      → c.history ≡ newest log
      → (on_actions actions c).history ≡ newest (log ++ all_printed actions c)
  unfolding on_actions all_printed
  on_actions-newest log [] c t = t ∙ ap newest (sym (append-nil log))
  on_actions-newest log (a ∷ rest) c t =
      let ls = elim (action_key a.0 a.1) as (λ o. List (List ℕ)) [
        | none ↦ []
        | some k ↦ printed k c
      ] in
      on_actions-newest (log ++ ls) rest (on_action a.0 a.1 c)
        (Printed-newest log ls c (on_action a.0 a.1 c) (on_action-Printed a.0 a.1 c) t)
      ∙ ap newest (append_assoc log ls (all_printed rest (on_action a.0 a.1 c)))
