-- ===== src/Matrix/Text.antt =====
-- Strings in JSON and in URLs, and the short form of a user id: plugins/matrix/src/json.rs.
use cdc_badge_plugins.Base.{
  ℕ, ◌+◌, ◌/◌, ◌%◌, Bool, ◌&&◌, ◌||◌, ltb, leb, ◌==◌, if◌then◌else◌, List, [], ◌∷◌, ◌++◌,
}

-- `char::from_digit(d, 16)`, and its upper case.
unfoldable pub hex_digit : ℕ → ℕ
hex_digit d = if ltb d 10 then b'0' + d else 0x57 + d

unfoldable pub hex_upper : ℕ → ℕ
hex_upper d = if ltb d 10 then b'0' + d else 0x37 + d

-- The characters that are escaped are ASCII; the other bytes go out as they are.
unfoldable pub escape_char : ℕ → List ℕ
escape_char c =
    if c == 0x22
    then 0x5C ∷ 0x22 ∷ []
    else if c == 0x5C
    then 0x5C ∷ 0x5C ∷ []
    else if c == 0x0A
    then 0x5C ∷ b'n' ∷ []
    else if c == 0x0D
    then 0x5C ∷ b'r' ∷ []
    else if c == 0x09
    then 0x5C ∷ b't' ∷ []
    else if ltb c 0x20
    then 0x5C
      ∷ b'u'
      ∷ hex_digit (c / 4096 % 16)
      ∷ hex_digit (c / 256 % 16)
      ∷ hex_digit (c / 16 % 16)
      ∷ hex_digit (c % 16)
      ∷ []
    else c ∷ []

unfoldable pub json_escape : List ℕ → List ℕ
json_escape [] = []
json_escape (c ∷ s) = escape_char c ++ json_escape s

-- The bytes that `urlencode` keeps.
unfoldable pub unreserved : ℕ → Bool
unreserved b =
    leb b'A' b && leb b b'Z'
    || leb b'a' b && leb b b'z'
    || leb b'0' b && leb b b'9'
    || b == b'-'
    || b == b'_'
    || b == b'.'
    || b == b'~'

unfoldable pub encode_byte : ℕ → List ℕ
encode_byte b = if unreserved b then b ∷ [] else b'%' ∷ hex_upper (b / 16) ∷ hex_upper (b % 16) ∷ []

unfoldable pub urlencode : List ℕ → List ℕ
urlencode [] = []
urlencode (b ∷ s) = encode_byte b ++ urlencode s

-- The text in front of the first colon, or all of it.
unfoldable pub before_colon : List ℕ → List ℕ
before_colon [] = []
before_colon (b ∷ s) = let rest = before_colon s in if b == b':' then [] else b ∷ rest

unfoldable pub without_at : List ℕ → List ℕ
without_at [] = []
without_at (b ∷ s) = if b == b'@' then s else b ∷ s

unfoldable pub short_sender : List ℕ → List ℕ
short_sender mxid = before_colon (without_at mxid)
