-- ===== src/Matrix/Recovery.antt =====
-- Recovery keys: `base58_decode` and `parse_recovery_key` of plugins/matrix/src/crypto.rs. A text is its
-- characters. u32 keeps its wrap-around written out.
use cdc_badge_plugins.Base.{
  ℕ, zero, suc, ◌+◌, ◌*◌, ◌/◌, ◌%◌, bit_xor, not, ◌||◌, ◌==◌, if◌then◌else◌, Option, none, some,
  List, [], ◌∷◌, ◌++◌, length, take, drop, retain, get_or, u32,
}
use mathlib.Core.List.{reverse}
use cdc_badge_plugins.Base.Bytes.{codes}
use cdc_badge_plugins.Base.Chars.{is_whitespace}
use cdc_badge_plugins.Matrix.Json.{◌>>=◌}

abbrev pub alphabet : List ℕ
alphabet = codes "123456789ABCDEFGHJKLMNPQRSTUVWXYZabcdefghijkmnopqrstuvwxyz"

-- `iter().position(|&a| a == c)`, counted from `i`.
unfoldable pub position_from : ℕ → List ℕ → ℕ → Option ℕ
position_from i [] c = none
position_from i (a ∷ cs) c =
    let rest = position_from (i + 1) cs c in if a == c then some i else rest

unfoldable pub digit_value : ℕ → Option ℕ
digit_value = position_from 0 alphabet

-- `while carry > 0`; a u32 is gone after four rounds.
unfoldable pub push_carry : ℕ → ℕ → List ℕ
push_carry zero carry = []
push_carry (suc k) carry =
    let rest = push_carry k (carry / 256) in if carry == 0 then [] else carry % 256 ∷ rest

-- Both inner loops: the bytes take the carry in turn, and what is left of it goes to the end.
unfoldable pub add_digit : ℕ → List ℕ → List ℕ
add_digit carry [] = push_carry 4 carry
add_digit carry (b ∷ bs) =
    let sum = u32 (carry + u32 (b * 58)) in sum % 256 ∷ add_digit (sum / 256) bs

-- The outer loop, on the bytes so far, the lowest first.
unfoldable pub decode_digits : List ℕ → List ℕ → Option (List ℕ)
decode_digits [] out = some out
decode_digits (c ∷ s) out = digit_value c >>= λ v. decode_digits s (add_digit v out)

unfoldable pub leading_zeros : List ℕ → List ℕ
leading_zeros [] = []
leading_zeros (c ∷ s) = let rest = leading_zeros s in if c == b'1' then 0 ∷ rest else []

unfoldable pub base58_decode : List ℕ → Option (List ℕ)
base58_decode s = decode_digits s [] >>= λ out. some (reverse (out ++ leading_zeros s))

unfoldable pub parity : List ℕ → ℕ → ℕ
parity [] acc = acc
parity (b ∷ bs) acc = parity bs (bit_xor acc b)

unfoldable pub parse_recovery_key : List ℕ → Option (List ℕ)
parse_recovery_key s = base58_decode (retain (λ c. not (is_whitespace c)) s) >>= λ bytes.
    if not (length bytes == 35) || not (get_or bytes 0 0 == 0x8B) || not (get_or bytes 1 0 == 0x01)
    then none
    else if not (parity bytes 0 == 0)
    then none
    else some (take 32 (drop 2 bytes))
