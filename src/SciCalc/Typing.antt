-- ===== src/SciCalc/Typing.antt =====
-- Any sequence of keys that type, on the calculator: the entry stays the text of a numeral.
use cdc_badge_plugins.Base.{
  ℕ, zero, suc, ◌+◌, ◌≤◌, true, false, ◌≡◌, refl, ap, ◌∙◌, inl, inr, none, some, List, [], ◌∷◌,
  ◌++◌, length, All, arith, Bool-cases, if◌then◌else◌, ltb, ltb→lt, length-append, length-map, u8,
}
use cdc_badge_plugins.SciCalc.Numbers.{Float, pop}
use cdc_badge_plugins.SciCalc.Entry.{with_digit}
use cdc_badge_plugins.SciCalc.Engine.{Calc, unless_error, input_digit, input_dot, negate, backspace}
use cdc_badge_plugins.SciCalc.Keys.{Key, digit, dot, sign, erase, press, press_all}
use cdc_badge_plugins.SciCalc.Numeral.{
  Numeral, numeral, glyphs, sign_text, decimals, print, magnitude, has_room, append_digit,
  append_point, remove_last, flip_sign, IsTyping, typed, typed_all, Decimals, IsNumeral,
}
use cdc_badge_plugins.SciCalc.Numeral.Text.{
  with_digit-print, with_dot-print, without_last-print, negated-print,
}

All-snoc : (ws : List ℕ) (d : ℕ) → All (λ k. k ≤ 9) ws → d ≤ 9 → All (λ k. k ≤ 9) (ws ++ d ∷ [])
All-snoc [] d h g = (g, tt)
All-snoc (w ∷ ws) d h g = (h.0, All-snoc ws d h.1 g)

All-pop : (w : ℕ) (ws : List ℕ) → All (λ k. k ≤ 9) (w ∷ ws) → All (λ k. k ≤ 9) (pop (w ∷ ws))
unfolding pop
All-pop w [] h = tt
All-pop w (v ∷ ws) h = (h.0, All-pop v ws h.1)

length-pop : (w : ℕ) (ws : List ℕ) → length (pop (w ∷ ws)) ≡ length ws
unfolding pop
length-pop w [] = refl
length-pop w (v ∷ ws) = ap suc (length-pop v ws)

length-decimals : (ds : List ℕ) → length (decimals (some ds)) ≡ suc (length ds)
unfolding decimals glyphs
length-decimals ds = ap suc (length-map (λ d. 0x30 + d) ds)

-- The text is no shorter than what follows the sign.
magnitude-print : (n : Numeral) → magnitude n ≤ length (print n)
unfolding magnitude print sign_text glyphs
magnitude-print (numeral true l ws f) =
    omega (arith, length-append (glyphs ws) (decimals f), length-map (λ d. 0x30 + d) ws)
magnitude-print (numeral false l ws f) =
    omega (arith, length-append (glyphs ws) (decimals f), length-map (λ d. 0x30 + d) ws)

-- A change that needs room.
if_room-IsNumeral :
    (m n : Numeral)
    → (magnitude n ≤ 14 → IsNumeral m)
    → IsNumeral n
    → IsNumeral (if ltb (length (print n)) 15 then m else n)
if_room-IsNumeral m n hm hn = elim (Bool-cases (ltb (length (print n)) 15)) [
  | inl e ↦
      rw e (hm (let small = ltb→lt (length (print n)) 15 e in omega (arith, magnitude-print n)))
  | inr e ↦ rw e hn
]

append_digit-IsNumeral : (d : ℕ) (n : Numeral) → d ≤ 9 → IsNumeral n → IsNumeral (append_digit d n)
unfolding append_digit has_room IsNumeral Decimals magnitude decimals
append_digit-IsNumeral d (numeral b zero [] none) g h = (g, h.1, h.2, inl refl, h.4)
append_digit-IsNumeral d (numeral b zero (w ∷ ws) none) g h =
    absurd (elim h.3 [ inl q ↦ absurd (ground arith) | inr q ↦ omega arith ])
append_digit-IsNumeral d (numeral b (suc l) ws none) g h =
    if_room-IsNumeral (numeral b (suc l) (ws ++ d ∷ []) none) (numeral b (suc l) ws none)
      (λ r. (
        h.0,
        All-snoc ws d h.1 g,
        tt,
        inr (omega arith),
        omega (arith, length-append ws (d ∷ []), r),
      ))
      h
append_digit-IsNumeral d (numeral b l ws (some ds)) g h =
    if_room-IsNumeral (numeral b l ws (some (ds ++ d ∷ []))) (numeral b l ws (some ds))
      (λ r. (
        h.0,
        h.1,
        All-snoc ds d h.2 g,
        h.3,
        omega (
          arith,
          length-append ds (d ∷ []),
          length-decimals ds,
          length-decimals (ds ++ d ∷ []),
          r,
        ),
      ))
      h

append_point-IsNumeral : (n : Numeral) → IsNumeral n → IsNumeral (append_point n)
unfolding append_point has_room IsNumeral Decimals magnitude
append_point-IsNumeral (numeral b l ws none) h =
    if_room-IsNumeral (numeral b l ws (some [])) (numeral b l ws none)
      (λ r. (h.0, h.1, tt, h.3, omega (arith, length-decimals [], r))) h
append_point-IsNumeral (numeral b l ws (some ds)) h = h

remove_last-IsNumeral : (n : Numeral) → IsNumeral n → IsNumeral (remove_last n)
unfolding remove_last IsNumeral Decimals magnitude decimals
remove_last-IsNumeral (numeral b l [] none) h = (omega arith, tt, tt, inl refl, omega arith)
remove_last-IsNumeral (numeral b l (w ∷ ws) none) h = (
  h.0,
  All-pop w ws h.1,
  tt,
  inr (elim h.3 [ inl q ↦ absurd (ground arith) | inr q ↦ q ]),
  omega (arith, length-pop w ws, h.4),
)
remove_last-IsNumeral (numeral b l ws (some [])) h =
    (h.0, h.1, tt, h.3, omega (arith, length-decimals [], h.4))
remove_last-IsNumeral (numeral b l ws (some (d ∷ ds))) h = (
  h.0,
  h.1,
  All-pop d ds h.2,
  h.3,
  omega (arith, length-decimals (d ∷ ds), length-decimals (pop (d ∷ ds)), length-pop d ds, h.4),
)

flip_sign-IsNumeral : (n : Numeral) → IsNumeral n → IsNumeral (flip_sign n)
unfolding flip_sign IsNumeral magnitude
flip_sign-IsNumeral (numeral true l ws f) h = h
flip_sign-IsNumeral (numeral false zero [] none) h = h
flip_sign-IsNumeral (numeral false zero [] (some ds)) h = h
flip_sign-IsNumeral (numeral false zero (w ∷ ws) f) h = h
flip_sign-IsNumeral (numeral false (suc l) ws f) h = h

pub typed-IsNumeral : (k : Key) (n : Numeral) → IsTyping k → IsNumeral n → IsNumeral (typed k n)
unfolding typed IsTyping
typed-IsNumeral (digit d) n t h = append_digit-IsNumeral d n t h
typed-IsNumeral dot n t h = append_point-IsNumeral n h
typed-IsNumeral sign n t h = flip_sign-IsNumeral n h
typed-IsNumeral erase n t h = remove_last-IsNumeral n h
typed-IsNumeral _ n t h = absurd t

pub byte_glyph : (d : ℕ) → d ≤ 9 → u8 (0x30 + d) ≡ 0x30 + d
byte_glyph d h = omega arith

module _ ⦃N : Float⦄ where
  -- A calculator in the middle of the entry of a numeral.
  abbrev pub typing : Numeral → Calc → Calc
  typing n c = record c { entry = print n; new_entry = false; error = none }

  press-typed :
      (k : Key) (n : Numeral) (c : Calc) → IsTyping k → press k (typing n c) ≡ typing (typed k n) c
  unfolding press typed IsTyping input_digit input_dot negate backspace unless_error
  press-typed (digit d) n c t =
      ap (λ s. record (typing n c) { entry = s })
        (ap (λ ch. with_digit ch (print n)) (byte_glyph d t) ∙ with_digit-print d n)
  press-typed dot n c t = ap (λ s. record (typing n c) { entry = s }) (with_dot-print n)
  press-typed sign n c t = ap (λ s. record (typing n c) { entry = s }) (negated-print n)
  press-typed erase n c t = ap (λ s. record (typing n c) { entry = s }) (without_last-print n)
  press-typed _ n c t = absurd t

  -- Any sequence of keys that type, in the middle of an entry, does to the entry what the keys mean
  -- on numerals, and touches nothing else; the entry stays a numeral of decimal digits with no
  -- leading zero and at most fifteen characters after the sign.
  pub press_all-typed :
      (ks : List Key) (n : Numeral) (c : Calc)
      → All IsTyping ks
      → IsNumeral n
      → (press_all ks (typing n c) ≡ typing (typed_all ks n) c) × IsNumeral (typed_all ks n)
  unfolding press_all typed_all
  press_all-typed [] n c t h = (refl, h)
  press_all-typed (k ∷ ks) n c t h =
      let r = press_all-typed ks (typed k n) c t.1 (typed-IsNumeral k n t.0 h) in
      (ap (press_all ks) (press-typed k n c t.0) ∙ r.0, r.1)
