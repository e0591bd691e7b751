-- ===== src/Matrix/Base58.antt =====
-- The bytes that `base58_decode` gives are the number that the digits stand for.
use cdc_badge_plugins.Base.{
  ℕ, zero, suc, ◌+◌, ◌*◌, ◌/◌, ◌^◌, ◌<◌, ◌≡◌, refl, ap, sym, ◌∙◌, ◌==◌, if-elim, ==_iff, length,
  Option, none, some, List, [], ◌∷◌, ◌++◌, All, All-append, arith, u32,
}
use mathlib.Core.List.{reverse, reverse-cons}
use native.Mathlib.Nat.{pow-suc}
use mathlib.Core.Path.{subst}
use cdc_badge_plugins.Matrix.Json.{◌>>=◌}
use cdc_badge_plugins.Matrix.Recovery.{
  alphabet, position_from, digit_value, push_carry, add_digit, decode_digits, leading_zeros,
  base58_decode,
}

-- The number that a text stands for, after the digits of `n`: `none` when it has another character.
unfoldable pub digits_number : List ℕ → ℕ → Option ℕ
digits_number [] n = some n
digits_number (c ∷ s) n = digit_value c >>= λ v. digits_number s (n * 58 + v)

-- The number that bytes stand for, the highest first, after `n`.
unfoldable pub bytes_number : List ℕ → ℕ → ℕ
bytes_number [] n = n
bytes_number (b ∷ bs) n = bytes_number bs (n * 256 + b)

-- The lowest byte first.
low_first : List ℕ → ℕ
low_first [] = 0
low_first (b ∷ bs) = b + 256 * low_first bs

-- The result of the decoder against a number: both fail, or the bytes make the number.
Decoded : Option ℕ → Option (List ℕ) → Type 0
Decoded none none = Unit
Decoded (some n) (some out) = (low_first out ≡ n) × All (λ b. b < 256) out
Decoded _ _ = ⊥

Below : ℕ → Option ℕ → Type 0
Below n none = Unit
Below n (some v) = v < n

position_from-Below : (i c : ℕ) (cs : List ℕ) → Below (i + length cs) (position_from i cs c)
unfolding position_from Below
position_from-Below i c [] = tt
position_from-Below i c (a ∷ cs) =
    let n : i + 1 + length cs ≡ i + length (a ∷ cs) = omega arith in
    let rest =
      subst (λ m. Below m (position_from (i + 1) cs c)) n (position_from-Below (i + 1) c cs) in
    if-elim (Below (i + length (a ∷ cs))) (a == c) _ _ (λ e. omega arith) (λ e. rest)

digit_value-Below : (c : ℕ) → Below 58 (digit_value c)
unfolding digit_value
digit_value-Below c = position_from-Below 0 c alphabet

bind-Decoded :
    (o : Option ℕ) (f : ℕ → Option ℕ) (g : ℕ → Option (List ℕ))
    → Below 58 o
    → ((v : ℕ) → v < 58 → Decoded (f v) (g v))
    → Decoded (o >>= f) (o >>= g)
unfolding Decoded Below
bind-Decoded none f g h k = tt
bind-Decoded (some v) f g h k = k v h

-- The loop that pushes the carry ends within as many rounds as the carry has bytes.
push_carry-low_first :
    (k carry : ℕ)
    → carry < 256 ^ k
    → (low_first (push_carry k carry) ≡ carry) × All (λ b. b < 256) (push_carry k carry)
unfolding low_first push_carry
push_carry-low_first zero carry h = (omega arith, tt)
push_carry-low_first (suc k) carry h =
    let rest = push_carry-low_first k (carry / 256) (omega (arith, pow-suc 256 k)) in
    if-elim (λ l. (low_first l ≡ carry) × All (λ b. b < 256) l) (carry == 0) _ _
      (λ e. (sym ((==_iff carry 0).0 e), tt)) (λ e. (omega (arith, rest.0), (omega arith, rest.1)))

add_digit-low_first :
    (carry : ℕ) (bs : List ℕ)
    → carry < 58
    → All (λ b. b < 256) bs
    → (low_first (add_digit carry bs) ≡ low_first bs * 58 + carry)
      × All (λ b. b < 256) (add_digit carry bs)
unfolding add_digit low_first
add_digit-low_first carry [] h t =
    let r = push_carry-low_first 4 carry (omega arith) in (r.0 ∙ omega arith, r.1)
add_digit-low_first carry (b ∷ bs) h t =
    let byte = t.0 in
    let sum = u32 (carry + u32 (b * 58)) in
    let r = add_digit-low_first (sum / 256) bs (omega arith) t.1 in
    (omega (arith, r.0), (omega arith, r.1))

-- The outer loop computes the number that the text stands for.
decode_digits-Decoded :
    (s out : List ℕ)
    → All (λ b. b < 256) out
    → Decoded (digits_number s (low_first out)) (decode_digits s out)
unfolding digits_number decode_digits Decoded
decode_digits-Decoded [] out t = (refl, t)
decode_digits-Decoded (c ∷ s) out t =
    bind-Decoded (digit_value c) (λ v. digits_number s (low_first out * 58 + v))
      (λ v. decode_digits s (add_digit v out)) (digit_value-Below c)
      (λ v h.
        let r = add_digit-low_first v out h t in
        subst (λ n. Decoded (digits_number s n) (decode_digits s (add_digit v out))) r.0
          (decode_digits-Decoded s (add_digit v out) r.1))

bytes_number-snoc :
    (bs : List ℕ) (b n : ℕ) → bytes_number (bs ++ b ∷ []) n ≡ bytes_number bs n * 256 + b
unfolding bytes_number
bytes_number-snoc [] b n = refl
bytes_number-snoc (a ∷ bs) b n = bytes_number-snoc bs b (n * 256 + a)

bytes_number-empty : bytes_number [] 0 ≡ 0
unfolding bytes_number
bytes_number-empty = refl

bytes_number-reverse : (bs : List ℕ) → bytes_number (reverse bs) 0 ≡ low_first bs
unfolding low_first
bytes_number-reverse [] = bytes_number-empty
bytes_number-reverse (b ∷ bs) =
    ap (λ l. bytes_number l 0) (reverse-cons b bs)
    ∙ bytes_number-snoc (reverse bs) b 0
    ∙ omega (arith, bytes_number-reverse bs)

All-reverse : (bs : List ℕ) → All (λ b. b < 256) bs → All (λ b. b < 256) (reverse bs)
All-reverse [] t = tt
All-reverse (b ∷ bs) t =
    subst (All (λ b. b < 256)) (sym (reverse-cons b bs))
      (All-append (λ b. b < 256) (reverse bs) (b ∷ []) (All-reverse bs t.1) (t.0, tt))

zeros_number : (s : List ℕ) → low_first (leading_zeros s) ≡ 0
unfolding low_first leading_zeros
zeros_number [] = refl
zeros_number (c ∷ s) =
    if-elim (λ l. low_first l ≡ 0) (c == b'1') _ _ (λ e. let rest = zeros_number s in omega arith)
      (λ e. refl)

low_first-leading_zeros : (out s : List ℕ) → low_first (out ++ leading_zeros s) ≡ low_first out
unfolding low_first
low_first-leading_zeros [] s = zeros_number s
low_first-leading_zeros (b ∷ out) s = omega (arith, low_first-leading_zeros out s)

leading_zeros-All : (s : List ℕ) → All (λ b. b < 256) (leading_zeros s)
unfolding leading_zeros
leading_zeros-All [] = tt
leading_zeros-All (c ∷ s) =
    if-elim (All (λ b. b < 256)) (c == b'1') _ _ (λ e. (omega arith, leading_zeros-All s)) (λ e. tt)

-- Bytes that a text of base 58 must decode to: the same number, the highest byte first.
unfoldable pub Reads : Option ℕ → Option (List ℕ) → Type 0
Reads none none = Unit
Reads (some n) (some bytes) = (bytes_number bytes 0 ≡ n) × All (λ b. b < 256) bytes
Reads _ _ = ⊥

-- The zeros of the leading ones, and the order of the bytes.
finished :
    (s : List ℕ) (n : Option ℕ) (out : Option (List ℕ))
    → Decoded n out
    → Reads n (out >>= λ o. some (reverse (o ++ leading_zeros s)))
unfolding Decoded Reads
finished s none none d = tt
finished s none (some out) d = absurd d
finished s (some n) none d = absurd d
finished s (some n) (some out) d =
    let o = out ++ leading_zeros s in
    (
      bytes_number-reverse o ∙ low_first-leading_zeros out s ∙ d.0,
      All-reverse o (All-append (λ b. b < 256) out (leading_zeros s) d.1 (leading_zeros-All s)),
    )

-- The decoder fails exactly on a text with a character outside of the alphabet; otherwise it gives
-- bytes, and they make the number that the digits of the text make in base 58.
pub base58_decode-Reads : (s : List ℕ) → Reads (digits_number s 0) (base58_decode s)
unfolding base58_decode low_first
base58_decode-Reads s =
    finished s (digits_number s 0) (decode_digits s []) (decode_digits-Decoded s [] tt)
