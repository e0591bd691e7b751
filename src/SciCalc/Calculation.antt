-- ===== src/SciCalc/Calculation.antt =====
-- The keys of a calculation: operands, and operators between them.
use cdc_badge_plugins.Base.{ℕ, ◌≤◌, false, none, List, [], ◌∷◌, ◌++◌, All, All-append}
use cdc_badge_plugins.SciCalc.Numbers.{Op}
use cdc_badge_plugins.SciCalc.Keys.{Key, digit, dot, sign, total, operator}
use cdc_badge_plugins.SciCalc.Numeral.{Numeral, numeral, IsTyping, typed_all}

-- The first digit of a number and the keys after it.
pub record Operand : Type 0 where
  pub first : ℕ
  pub others : List Key

-- Digits, the point and the sign.
unfoldable pub IsStroke : Key → Type 0
IsStroke (digit d) = d ≤ 9
IsStroke dot = Unit
IsStroke sign = Unit
IsStroke _ = ⊥

unfoldable pub IsOperand : Operand → Type 0
IsOperand o = (o.first ≤ 9) × All IsStroke o.others

unfoldable pub operand_keys : Operand → List Key
operand_keys o = digit o.first ∷ o.others

unfoldable pub numeral_of : Operand → Numeral
numeral_of o = typed_all o.others (numeral false o.first [] none)

-- Each operator and the operand after it.
unfoldable pub chain_keys : List (Op × Operand) → List Key
chain_keys [] = total ∷ []
chain_keys (s ∷ steps) = operator s.0 ∷ operand_keys s.1 ++ chain_keys steps

unfoldable pub calculation_keys : Operand → List (Op × Operand) → List Key
calculation_keys o steps = operand_keys o ++ chain_keys steps

-- The keys of a calculation.
unfoldable pub IsCalculation : Key → Type 0
IsCalculation total = Unit
IsCalculation (operator op) = Unit
IsCalculation k = IsStroke k

IsStroke-IsTyping : (k : Key) → IsStroke k → IsTyping k
unfolding IsStroke IsTyping
IsStroke-IsTyping (digit d) h = h
IsStroke-IsTyping dot h = h
IsStroke-IsTyping sign h = h
IsStroke-IsTyping _ h = absurd h

pub All-IsTyping : (ks : List Key) → All IsStroke ks → All IsTyping ks
All-IsTyping [] h = tt
All-IsTyping (k ∷ ks) h = (IsStroke-IsTyping k h.0, All-IsTyping ks h.1)

stroke-IsCalculation : (k : Key) → IsStroke k → IsCalculation k
unfolding IsStroke IsCalculation
stroke-IsCalculation (digit d) h = h
stroke-IsCalculation dot h = h
stroke-IsCalculation sign h = h
stroke-IsCalculation _ h = absurd h

All-IsCalculation : (ks : List Key) → All IsStroke ks → All IsCalculation ks
All-IsCalculation [] h = tt
All-IsCalculation (k ∷ ks) h = (stroke-IsCalculation k h.0, All-IsCalculation ks h.1)

pub operand_keys-IsCalculation :
    (o : Operand) (js : List Key)
    → IsOperand o
    → All IsCalculation js
    → All IsCalculation (operand_keys o ++ js)
unfolding operand_keys IsOperand IsCalculation IsStroke
operand_keys-IsCalculation o js h t =
    (h.0, All-append IsCalculation o.others js (All-IsCalculation o.others h.1) t)

pub chain_keys-IsCalculation :
    (steps : List (Op × Operand))
    → All (λ s. IsOperand s.1) steps
    → All IsCalculation (chain_keys steps)
unfolding chain_keys IsCalculation
chain_keys-IsCalculation [] t = (tt, tt)
chain_keys-IsCalculation (s ∷ steps) t =
    (tt, operand_keys-IsCalculation s.1 (chain_keys steps) t.0 (chain_keys-IsCalculation steps t.1))
