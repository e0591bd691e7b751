-- ===== src/SciCalc/Entry.antt =====
-- The text that is typed: what the keys of examples/sci_calc/src/engine.rs do to the entry.
use cdc_badge_plugins.Base.{
  ℕ, not, ◌&&◌, ◌||◌, ltb, ◌==◌, if◌then◌else◌, List, [], ◌∷◌, ◌++◌, any, length,
}
use cdc_badge_plugins.Base.Bytes.{str_eq}
use cdc_badge_plugins.SciCalc.Numbers.{pop}

abbrev pub max_entry_len : ℕ
max_entry_len = 15

abbrev pub zero_text : List ℕ
zero_text = 0x30 ∷ []

abbrev pub minus : List ℕ
minus = 0x2D ∷ []

-- What a digit key makes of the entry that it goes on with.
unfoldable pub with_digit : ℕ → List ℕ → List ℕ
with_digit ch s =
    if str_eq s [] || str_eq s zero_text
    then ch ∷ []
    else if str_eq s (0x2D ∷ 0x30 ∷ [])
    then 0x2D ∷ ch ∷ []
    else if ltb (length s) max_entry_len
    then s ++ ch ∷ []
    else s

-- The dot key, when the entry is being typed.
unfoldable pub with_dot : List ℕ → List ℕ
with_dot s =
    if not (any (λ b. b == 0x2E) s) && ltb (length s) max_entry_len
    then (if str_eq s [] || str_eq s minus then s ++ 0x30 ∷ 0x2E ∷ [] else s ++ 0x2E ∷ [])
    else s

unfoldable pub without_last : List ℕ → List ℕ
without_last s = let t = pop s in if str_eq t [] || str_eq t minus then zero_text else t

unfoldable pub negated : List ℕ → List ℕ
negated [] = minus
negated (b ∷ s) =
    if b == 0x2D then s else if not (str_eq (b ∷ s) zero_text) then 0x2D ∷ b ∷ s else b ∷ s
