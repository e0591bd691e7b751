-- ===== src/SciCalc/Numeral.antt =====
-- Numbers as a user types them: a sign, the first digit, the other whole digits, the decimals after a
-- point. What the keys mean on them, and their text. An independent description of the entry.
pub mod Text
use package.cdc_badge_plugins.Base.{
  ℕ, zero, suc, ◌+◌, ◌≤◌, Bool, true, false, ltb, if◌then◌else◌, ◌≡◌, ◌⊎◌, Option, none, some, List,
  [], ◌∷◌, ◌++◌, length, map, All,
}
use package.cdc_badge_plugins.SciCalc.Numbers.{pop}
use package.cdc_badge_plugins.SciCalc.Keys.{Key, digit, dot, sign, erase}

pub data Numeral : Type 0 where
  numeral : Bool → ℕ → List ℕ → Option (List ℕ) → Numeral

unfoldable pub glyphs : List ℕ → List ℕ
glyphs = map (λ d. 0x30 + d)

unfoldable pub sign_text : Bool → List ℕ
sign_text true = 0x2D ∷ []
sign_text false = []

unfoldable pub decimals : Option (List ℕ) → List ℕ
decimals none = []
decimals (some ds) = 0x2E ∷ glyphs ds

unfoldable pub print : Numeral → List ℕ
print (numeral b l ws f) = sign_text b ++ (0x30 + l) ∷ (glyphs ws ++ decimals f)

-- The digits and the point fit in the entry.
unfoldable pub magnitude : Numeral → ℕ
magnitude (numeral b l ws f) = suc (length ws + length (decimals f))

-- Room for one more character, the sign counted.
unfoldable pub has_room : Numeral → Bool
has_room n = ltb (length (print n)) 15

unfoldable pub append_digit : ℕ → Numeral → Numeral
append_digit d (numeral b zero [] none) = numeral b d [] none
append_digit d (numeral b l ws none) =
    if has_room (numeral b l ws none) then numeral b l (ws ++ d ∷ []) none else numeral b l ws none
append_digit d (numeral b l ws (some ds)) =
    if has_room (numeral b l ws (some ds))
    then numeral b l ws (some (ds ++ d ∷ []))
    else numeral b l ws (some ds)

unfoldable pub append_point : Numeral → Numeral
append_point (numeral b l ws none) =
    if has_room (numeral b l ws none) then numeral b l ws (some []) else numeral b l ws none
append_point (numeral b l ws (some ds)) = numeral b l ws (some ds)

-- The last character goes; a number without digits is zero.
unfoldable pub remove_last : Numeral → Numeral
remove_last (numeral b l [] none) = numeral false 0 [] none
remove_last (numeral b l (w ∷ ws) none) = numeral b l (pop (w ∷ ws)) none
remove_last (numeral b l ws (some [])) = numeral b l ws none
remove_last (numeral b l ws (some (d ∷ ds))) = numeral b l ws (some (pop (d ∷ ds)))

-- The sign changes, but a bare zero gets none.
unfoldable pub flip_sign : Numeral → Numeral
flip_sign (numeral true l ws f) = numeral false l ws f
flip_sign (numeral false zero [] none) = numeral false zero [] none
flip_sign (numeral false l ws f) = numeral true l ws f

-- The keys that type.
unfoldable pub IsTyping : Key → Type 0
IsTyping (digit d) = d ≤ 9
IsTyping dot = Unit
IsTyping sign = Unit
IsTyping erase = Unit
IsTyping _ = ⊥

unfoldable pub typed : Key → Numeral → Numeral
typed (digit d) n = append_digit d n
typed dot n = append_point n
typed sign n = flip_sign n
typed erase n = remove_last n
typed _ n = n

unfoldable pub typed_all : List Key → Numeral → Numeral
typed_all [] n = n
typed_all (k ∷ ks) n = typed_all ks (typed k n)

unfoldable pub Decimals : Option (List ℕ) → Type 0
Decimals none = Unit
Decimals (some ds) = All (λ d. d ≤ 9) ds

-- Decimal digits, no leading zero, and at most fifteen characters after the sign.
unfoldable pub IsNumeral : Numeral → Type 0
IsNumeral (numeral b l ws f) =
    (l ≤ 9)
    × All (λ d. d ≤ 9) ws
    × Decimals f
    × ((ws ≡ []) ⊎ (1 ≤ l))
    × (magnitude (numeral b l ws f) ≤ 15)
