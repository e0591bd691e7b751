-- ===== src/SciCalc/Numeral/Text.antt =====
-- The text of a numeral under the keys that type: what engine.rs does to the entry is what the keys
-- mean on numerals.
use mathlib.Core.List.{append_assoc}
use cdc_badge_plugins.Base.{
  ℕ, zero, suc, ◌+◌, Bool, true, false, ◌||◌, ltb, ◌==◌, if◌then◌else◌, ◌≡◌, refl, ap, sym, ◌∙◌,
  Option, none, some, List, [], ◌∷◌, ◌++◌, length, any, arith, append_nil,
}
use cdc_badge_plugins.Base.Bytes.{str_eq}
use cdc_badge_plugins.SciCalc.Numbers.{pop}
use cdc_badge_plugins.SciCalc.Entry.{with_digit, with_dot, without_last, negated}
use cdc_badge_plugins.SciCalc.Numeral.{
  Numeral, numeral, glyphs, sign_text, decimals, print, has_room, append_digit, append_point,
  remove_last, flip_sign,
}

glyphs-append : (s t : List ℕ) → glyphs (s ++ t) ≡ glyphs s ++ glyphs t
unfolding glyphs
glyphs-append [] t = refl
glyphs-append (d ∷ s) t = ap (λ r. (0x30 + d) ∷ r) (glyphs-append s t)

pop-glyphs : (s : List ℕ) → pop (glyphs s) ≡ glyphs (pop s)
unfolding glyphs pop
pop-glyphs [] = refl
pop-glyphs (d ∷ []) = refl
pop-glyphs (d ∷ c ∷ s) = ap (λ r. (0x30 + d) ∷ r) (pop-glyphs (c ∷ s))

pop-append : (s : List ℕ) (b : ℕ) (t : List ℕ) → pop (s ++ b ∷ t) ≡ s ++ pop (b ∷ t)
unfolding pop
pop-append [] b t = refl
pop-append (a ∷ []) b t = refl
pop-append (a ∷ c ∷ s) b t = ap (λ r. a ∷ r) (pop-append (c ∷ s) b t)

any_dot-glyphs : (s : List ℕ) → any (λ b. b == 0x2E) (glyphs s) ≡ false
unfolding glyphs
any_dot-glyphs [] = refl
any_dot-glyphs (d ∷ s) = ground (arith, any_dot-glyphs s)

-- The entries that a digit replaces.
bare : List ℕ → Bool
bare s = str_eq s [] || str_eq s (0x30 ∷ []) || str_eq s (0x2D ∷ 0x30 ∷ [])

plain : Numeral → Bool
plain (numeral b zero [] none) = true
plain _ = false

bare-print : (n : Numeral) → plain n ≡ false → bare (print n) ≡ false
unfolding bare plain print sign_text decimals glyphs
bare-print (numeral b zero [] none) h = absurd (ground arith)
bare-print (numeral true (suc l) [] none) h = ground arith
bare-print (numeral false (suc l) [] none) h = ground arith
bare-print (numeral true l (w ∷ ws) f) h = ground arith
bare-print (numeral false l (w ∷ ws) f) h = ground arith
bare-print (numeral true l [] (some ds)) h = ground arith
bare-print (numeral false l [] (some ds)) h = ground arith

with_digit-append :
    (ch : ℕ) (s : List ℕ)
    → bare s ≡ false
    → with_digit ch s ≡ (if ltb (length s) 15 then s ++ ch ∷ [] else s)
unfolding with_digit bare
with_digit-append ch s h = ground arith

print_if :
    (t : Bool) (m n : Numeral) → print (if t then m else n) ≡ (if t then print m else print n)
print_if true m n = refl
print_if false m n = refl

single : (d : ℕ) → glyphs (d ∷ []) ≡ (0x30 + d) ∷ []
unfolding glyphs
single d = refl

print-snoc :
    (d : ℕ) (b : Bool) (l : ℕ) (ws : List ℕ)
    → print (numeral b l (ws ++ d ∷ []) none) ≡ print (numeral b l ws none) ++ (0x30 + d) ∷ []
unfolding print decimals
print-snoc d b l ws = simp (glyphs-append, append_nil, append_assoc, single d)

print-snoc_decimal :
    (d : ℕ) (b : Bool) (l : ℕ) (ws ds : List ℕ)
    → print (numeral b l ws (some (ds ++ d ∷ [])))
      ≡ print (numeral b l ws (some ds)) ++ (0x30 + d) ∷ []
unfolding print decimals
print-snoc_decimal d b l ws ds = simp (glyphs-append, append_assoc, single d)

widened :
    (d : ℕ) (b : Bool) (l : ℕ) (ws : List ℕ)
    → (let n = numeral b l ws none in
        print (if ltb (length (print n)) 15 then numeral b l (ws ++ d ∷ []) none else n)
        ≡ (if ltb (length (print n)) 15 then print n ++ (0x30 + d) ∷ [] else print n))
widened d b l ws =
    let n = numeral b l ws none in
    let t = ltb (length (print n)) 15 in
    print_if t (numeral b l (ws ++ d ∷ []) none) n
    ∙ ap (λ s. if t then s else print n) (print-snoc d b l ws)

deepened :
    (d : ℕ) (b : Bool) (l : ℕ) (ws ds : List ℕ)
    → (let n = numeral b l ws (some ds) in
        print (if ltb (length (print n)) 15 then numeral b l ws (some (ds ++ d ∷ [])) else n)
        ≡ (if ltb (length (print n)) 15 then print n ++ (0x30 + d) ∷ [] else print n))
deepened d b l ws ds =
    let n = numeral b l ws (some ds) in
    let t = ltb (length (print n)) 15 in
    print_if t (numeral b l ws (some (ds ++ d ∷ []))) n
    ∙ ap (λ s. if t then s else print n) (print-snoc_decimal d b l ws ds)

-- Where there is room the digit is the last character.
print-append_digit :
    (d : ℕ) (n : Numeral)
    → plain n ≡ false
    → print (append_digit d n)
      ≡ (if ltb (length (print n)) 15 then print n ++ (0x30 + d) ∷ [] else print n)
unfolding plain append_digit has_room
print-append_digit d (numeral b zero [] none) h = absurd (ground arith)
print-append_digit d (numeral b (suc l) [] none) h = widened d b (suc l) []
print-append_digit d (numeral b zero (w ∷ ws) none) h = widened d b 0 (w ∷ ws)
print-append_digit d (numeral b (suc l) (w ∷ ws) none) h = widened d b (suc l) (w ∷ ws)
print-append_digit d (numeral b zero [] (some ds)) h = deepened d b 0 [] ds
print-append_digit d (numeral b zero (w ∷ ws) (some ds)) h = deepened d b 0 (w ∷ ws) ds
print-append_digit d (numeral b (suc l) ws (some ds)) h = deepened d b (suc l) ws ds

with_digit-zero :
    (d : ℕ) (b : Bool)
    → with_digit (0x30 + d) (print (numeral b 0 [] none)) ≡ print (numeral b d [] none)
unfolding with_digit print sign_text decimals glyphs
with_digit-zero d true = refl
with_digit-zero d false = refl

with_digit-print_more :
    (d : ℕ) (n : Numeral)
    → plain n ≡ false
    → with_digit (0x30 + d) (print n) ≡ print (append_digit d n)
with_digit-print_more d n h =
    with_digit-append (0x30 + d) (print n) (bare-print n h) ∙ sym (print-append_digit d n h)

pub with_digit-print :
    (d : ℕ) (n : Numeral) → with_digit (0x30 + d) (print n) ≡ print (append_digit d n)
unfolding plain append_digit
with_digit-print d (numeral true zero [] none) = with_digit-zero d true
with_digit-print d (numeral false zero [] none) = with_digit-zero d false
with_digit-print d (numeral b (suc l) ws f) = with_digit-print_more d (numeral b (suc l) ws f) refl
with_digit-print d (numeral b zero (w ∷ ws) f) =
    with_digit-print_more d (numeral b zero (w ∷ ws) f) refl
with_digit-print d (numeral b zero [] (some ds)) =
    with_digit-print_more d (numeral b zero [] (some ds)) refl

any_dot-reached : (s t : List ℕ) → any (λ c. c == 0x2E) (s ++ 0x2E ∷ t) ≡ true
any_dot-reached [] t = refl
any_dot-reached (b ∷ s) t = ground (arith, any_dot-reached s t)

no_glyphs : glyphs [] ≡ []
unfolding glyphs
no_glyphs = refl

print-unlike_nil :
    (b : Bool) (l : ℕ) (ws : List ℕ) (f : Option (List ℕ))
    → str_eq (print (numeral b l ws f)) [] ≡ false
unfolding print sign_text
print-unlike_nil true l ws f = refl
print-unlike_nil false l ws f = refl

print-unlike_minus :
    (b : Bool) (l : ℕ) (ws : List ℕ) (f : Option (List ℕ))
    → str_eq (print (numeral b l ws f)) (0x2D ∷ []) ≡ false
unfolding print sign_text
print-unlike_minus true l ws f = refl
print-unlike_minus false l ws f = ground arith

any_dot-none :
    (b : Bool) (l : ℕ) (ws : List ℕ) → any (λ c. c == 0x2E) (print (numeral b l ws none)) ≡ false
unfolding print sign_text decimals
any_dot-none true l ws = rw (append_nil (glyphs ws), any_dot-glyphs ws) (ground arith)
any_dot-none false l ws = rw (append_nil (glyphs ws), any_dot-glyphs ws) (ground arith)

any_dot-some :
    (b : Bool) (l : ℕ) (ws ds : List ℕ)
    → any (λ c. c == 0x2E) (print (numeral b l ws (some ds))) ≡ true
unfolding print sign_text decimals
any_dot-some true l ws ds = ground (arith, any_dot-reached (glyphs ws) (glyphs ds))
any_dot-some false l ws ds = ground (arith, any_dot-reached (glyphs ws) (glyphs ds))

print-point :
    (b : Bool) (l : ℕ) (ws : List ℕ)
    → print (numeral b l ws (some [])) ≡ print (numeral b l ws none) ++ 0x2E ∷ []
unfolding print decimals
print-point b l ws = simp (append_nil, append_assoc, no_glyphs)

with_dot-append :
    (s : List ℕ)
    → any (λ c. c == 0x2E) s ≡ false
    → str_eq s [] ≡ false
    → str_eq s (0x2D ∷ []) ≡ false
    → with_dot s ≡ (if ltb (length s) 15 then s ++ 0x2E ∷ [] else s)
unfolding with_dot
with_dot-append s h g f = rw (h, g, f) refl

with_dot-again :
    (b : Bool) (l : ℕ) (ws ds : List ℕ)
    → with_dot (print (numeral b l ws (some ds))) ≡ print (numeral b l ws (some ds))
unfolding with_dot
with_dot-again b l ws ds = rw (any_dot-some b l ws ds) refl

pub with_dot-print : (n : Numeral) → with_dot (print n) ≡ print (append_point n)
unfolding append_point has_room
with_dot-print (numeral b l ws (some ds)) = with_dot-again b l ws ds
with_dot-print (numeral b l ws none) =
    let n = numeral b l ws none in
    let t = ltb (length (print n)) 15 in
    with_dot-append (print n) (any_dot-none b l ws) (print-unlike_nil b l ws none)
      (print-unlike_minus b l ws none)
    ∙ sym (
        print_if t (numeral b l ws (some [])) n
        ∙ ap (λ s. if t then s else print n) (print-point b l ws))

-- A text that is one character longer than a numeral's.
without_last-longer :
    (s : List ℕ) (c : ℕ) (n : Numeral) → s ≡ print n ++ c ∷ [] → without_last s ≡ print n
unfolding without_last pop
without_last-longer s c (numeral b l ws f) h =
    let m = print (numeral b l ws f) in
    let p : pop s ≡ m = ap pop h ∙ pop-append m c [] ∙ append_nil m in
    rw (p, print-unlike_nil b l ws f, print-unlike_minus b l ws f) refl

last_digit : (w : ℕ) (ws : List ℕ) → (d : ℕ) × (w ∷ ws ≡ pop (w ∷ ws) ++ d ∷ [])
unfolding pop
last_digit w [] = (w, refl)
last_digit w (v ∷ ws) = let r = last_digit v ws in (r.0, ap (λ t. w ∷ t) r.1)

without_last-zero :
    (b : Bool) (l : ℕ)
    → without_last (print (numeral b l [] none)) ≡ print (numeral false 0 [] none)
unfolding without_last print sign_text decimals glyphs pop
without_last-zero true l = refl
without_last-zero false l = refl

pub without_last-print : (n : Numeral) → without_last (print n) ≡ print (remove_last n)
unfolding remove_last
without_last-print (numeral b l [] none) = without_last-zero b l
without_last-print (numeral b l (w ∷ ws) none) =
    let r = last_digit w ws in
    without_last-longer (print (numeral b l (w ∷ ws) none)) (0x30 + r.0)
      (numeral b l (pop (w ∷ ws)) none)
      (ap (λ t. print (numeral b l t none)) r.1 ∙ print-snoc r.0 b l (pop (w ∷ ws)))
without_last-print (numeral b l ws (some [])) =
    without_last-longer (print (numeral b l ws (some []))) 0x2E (numeral b l ws none)
      (print-point b l ws)
without_last-print (numeral b l ws (some (d ∷ ds))) =
    let r = last_digit d ds in
    without_last-longer (print (numeral b l ws (some (d ∷ ds)))) (0x30 + r.0)
      (numeral b l ws (some (pop (d ∷ ds))))
      (ap (λ t. print (numeral b l ws (some t))) r.1 ∙ print-snoc_decimal r.0 b l ws (pop (d ∷ ds)))

pub negated-print : (n : Numeral) → negated (print n) ≡ print (flip_sign n)
unfolding negated print flip_sign sign_text decimals glyphs
negated-print (numeral true l ws f) = refl
negated-print (numeral false zero [] none) = refl
negated-print (numeral false (suc l) [] none) = ground arith
negated-print (numeral false zero (w ∷ ws) none) = ground arith
negated-print (numeral false (suc l) (w ∷ ws) none) = ground arith
negated-print (numeral false zero [] (some ds)) = ground arith
negated-print (numeral false zero (w ∷ ws) (some ds)) = ground arith
negated-print (numeral false (suc l) ws (some ds)) = ground arith
