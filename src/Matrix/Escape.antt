-- ===== src/Matrix/Escape.antt =====
-- Strings read back: from JSON by a reader of string literals, from URLs by the decoder of the web
-- server.
use cdc_badge_plugins.Base.{
  ℕ, zero, suc, ◌+◌, ◌*◌, ◌/◌, ◌%◌, ◌^◌, ◌<◌, ◌≡◌, refl, ap, sym, ◌∙◌, Bool, true, false, ◌||◌,
  ◌==◌, ltb, lt→ltb, if◌then◌else◌, if-elim, bit_or, u8, ◌<<<◌, ==_iff, ltb→lt, Option, none, some,
  List, [], ◌∷◌, ◌++◌, All, all, arith,
}
use mathlib.Core.List.{append_assoc}
use cdc_badge_plugins.Base.Bits.{all_below, all_below_sound}
use cdc_badge_plugins.Web.Http.{hex_val, escaped, decode_bytes}
use cdc_badge_plugins.Matrix.Text.{
  hex_digit, hex_upper, escape_char, json_escape, unreserved, encode_byte, urlencode,
}

-- Where a reader of a string literal stands: in its text, after a backslash, or in a unicode escape
-- with some digits left and the value of those before.
pub data Mode : Type 0 where
  in_text in_escape : Mode
  in_unicode : ℕ → ℕ → Mode

-- The character of a short escape.
unfoldable pub short_value : ℕ → Option ℕ
short_value c =
    if c == 0x22
    then some 0x22
    else if c == 0x5C
    then some 0x5C
    else if c == b'n'
    then some 0x0A
    else if c == b'r'
    then some 0x0D
    else if c == b't'
    then some 0x09
    else none

unfoldable pub cons_text : ℕ → Option (List ℕ × List ℕ) → Option (List ℕ × List ℕ)
cons_text c none = none
cons_text c (some r) = some (c ∷ r.0, r.1)

-- A string literal after its opening quote: its text, and what follows its closing quote. Control
-- characters are not allowed in it, and unicode escapes only for ASCII characters.
unfoldable pub read_string : Mode → List ℕ → Option (List ℕ × List ℕ)
read_string mode [] = none
read_string in_text (c ∷ s) =
    let rest = read_string in_text s in
    let escape_rest = read_string in_escape s in
    if c == 0x22
    then some ([], s)
    else if c == 0x5C
    then escape_rest
    else if ltb c 0x20
    then none
    else cons_text c rest
read_string in_escape (c ∷ s) =
    let rest = read_string in_text s in
    let digits_rest = read_string (in_unicode 3 0) s in
    if c == b'u'
    then digits_rest
    else elim (short_value c) [ none ↦ none | some v ↦ cons_text v rest ]
read_string (in_unicode zero v) (c ∷ s) =
    let rest = read_string in_text s in
    elim (hex_val c) [
      | none ↦ none
      | some d ↦ if ltb (v * 16 + d) 128 then cons_text (v * 16 + d) rest else none
    ]
read_string (in_unicode (suc n) v) (c ∷ s) = elim (hex_val c) [
  | none ↦ none
  | some d ↦ read_string (in_unicode n (v * 16 + d)) s
]

hex_val-hex_digit : (d : ℕ) → d < 16 → hex_val (hex_digit d) ≡ some d
unfolding hex_val hex_digit
hex_val-hex_digit d h = ground arith

read_string-digit :
    (n v d : ℕ) (s : List ℕ)
    → d < 16
    → read_string (in_unicode (suc n) v) (hex_digit d ∷ s)
      ≡ read_string (in_unicode n (v * 16 + d)) s
unfolding read_string
read_string-digit n v d s h = rw (hex_val-hex_digit d h, read_string) refl

read_string-last_digit :
    (v d : ℕ) (s : List ℕ)
    → d < 16
    → v * 16 + d < 128
    → read_string (in_unicode 0 v) (hex_digit d ∷ s)
      ≡ cons_text (v * 16 + d) (read_string in_text s)
unfolding read_string
read_string-last_digit v d s h g =
    rw (hex_val-hex_digit d h, read_string, lt→ltb (v * 16 + d) 128 g) refl

-- A short escape reads as its character.
read_string-short :
    (k v c : ℕ) (t : List ℕ)
    → short_value k ≡ some v
    → (k == b'u') ≡ false
    → (c == v) ≡ true
    → read_string in_text (0x5C ∷ k ∷ t) ≡ cons_text c (read_string in_text t)
unfolding read_string
read_string-short k v c t h g e =
    rw (g, h) (ap (λ w. cons_text w (read_string in_text t)) (sym ((==_iff c v).0 e)))

read_string-u :
    (s : List ℕ) → read_string in_text (0x5C ∷ b'u' ∷ s) ≡ read_string (in_unicode 3 0) s
unfolding read_string
read_string-u s = refl

read_string-control :
    (c : ℕ) (t : List ℕ)
    → c < 32
    → read_string in_text (
        0x5C
        ∷ b'u'
        ∷ hex_digit (c / 4096 % 16)
        ∷ hex_digit (c / 256 % 16)
        ∷ hex_digit (c / 16 % 16)
        ∷ hex_digit (c % 16)
        ∷ t)
      ≡ cons_text c (read_string in_text t)
read_string-control c t h =
    let d0 : c / 4096 % 16 ≡ 0 = omega arith in
    let d1 : c / 256 % 16 ≡ 0 = omega arith in
    let d2 = c / 16 % 16 in
    let d3 = c % 16 in
    let first : 0 * 16 + d2 ≡ d2 = omega arith in
    let value_ : d2 * 16 + d3 ≡ c = omega arith in
    read_string-u
      (hex_digit (c / 4096 % 16) ∷ hex_digit (c / 256 % 16) ∷ hex_digit d2 ∷ hex_digit d3 ∷ t)
    ∙ rw (d0, d1)
        (read_string-digit 2 0 0 (hex_digit 0 ∷ hex_digit d2 ∷ hex_digit d3 ∷ t) (omega arith)
          ∙ read_string-digit 1 0 0 (hex_digit d2 ∷ hex_digit d3 ∷ t) (omega arith)
          ∙ read_string-digit 0 0 d2 (hex_digit d3 ∷ t) (omega arith)
          ∙ ap (λ v. read_string (in_unicode 0 v) (hex_digit d3 ∷ t)) first
          ∙ read_string-last_digit d2 d3 t (omega arith) (omega arith)
          ∙ ap (λ w. cons_text w (read_string in_text t)) value_)

read_string-plain :
    (c : ℕ) (t : List ℕ)
    → (c == 0x22) ≡ false
    → (c == 0x5C) ≡ false
    → ltb c 0x20 ≡ false
    → read_string in_text (c ∷ t) ≡ cons_text c (read_string in_text t)
unfolding read_string
read_string-plain c t q b e = rw (q, b, e) refl

read_string-quote : (rest : List ℕ) → read_string in_text (0x22 ∷ rest) ≡ some ([], rest)
unfolding read_string
read_string-quote rest = refl

read_string-escape_char :
    (c : ℕ) (t : List ℕ)
    → read_string in_text (escape_char c ++ t) ≡ cons_text c (read_string in_text t)
unfolding escape_char short_value
read_string-escape_char c t =
    let P : List ℕ → Type 0 =
      λ s. read_string in_text (s ++ t) ≡ cons_text c (read_string in_text t) in
    if-elim P (c == 0x22) _ _ (λ e. read_string-short 0x22 0x22 c t refl refl e)
      (λ quote.
        if-elim P (c == 0x5C) _ _ (λ e. read_string-short 0x5C 0x5C c t refl refl e)
          (λ slash.
            if-elim P (c == 0x0A) _ _ (λ e. read_string-short b'n' 0x0A c t refl refl e)
              (λ x.
                if-elim P (c == 0x0D) _ _ (λ e. read_string-short b'r' 0x0D c t refl refl e)
                  (λ x.
                    if-elim P (c == 0x09) _ _ (λ e. read_string-short b't' 0x09 c t refl refl e)
                      (λ x.
                        if-elim P (ltb c 0x20) _ _ (λ e. read_string-control c t (ltb→lt c 32 e))
                          (λ e. read_string-plain c t quote slash e))))))

-- Whatever the text is, a reader of string literals reads it back from its escaped form, and stops at
-- the quote after it: nothing in the text can end the literal early.
pub read_string-json_escape :
    (s rest : List ℕ) → read_string in_text (json_escape s ++ 0x22 ∷ rest) ≡ some (s, rest)
unfolding json_escape cons_text
read_string-json_escape [] rest = read_string-quote rest
read_string-json_escape (c ∷ s) rest =
    ap (read_string in_text) (append_assoc (escape_char c) (json_escape s) (0x22 ∷ rest))
    ∙ read_string-escape_char c (json_escape s ++ 0x22 ∷ rest)
    ∙ ap (cons_text c) (read_string-json_escape s rest)

-- A digit of an escape in a URL.
url_digit : (d : ℕ) → d < 16 → hex_val (hex_upper d) ≡ some d
unfolding hex_val hex_upper
url_digit d h = ground arith

bit_or_table : all_below 16 (λ h. all_below 16 (λ l. bit_or (u8 (h <<< 4)) l == h * 16 + l)) ≡ true
unfolding all_below
bit_or_table = refl

joined_digits : (h l : ℕ) → h < 16 → l < 16 → bit_or (u8 (h <<< 4)) l ≡ h * 16 + l
joined_digits h l p q = (==_iff (bit_or (u8 (h <<< 4)) l) (h * 16 + l)).0 (
    all_below_sound 16 (λ k. bit_or (u8 (h <<< 4)) k == h * 16 + k) l
      (all_below_sound 16 (λ k. all_below 16 (λ j. bit_or (u8 (k <<< 4)) j == k * 16 + j)) h
        bit_or_table p)
      q)

escaped-hex_upper : (b : ℕ) → b < 2 ^ 8 → escaped (hex_upper (b / 16)) (hex_upper (b % 16)) ≡ some b
unfolding escaped
escaped-hex_upper b h =
    let whole : b / 16 * 16 + b % 16 ≡ b = omega arith in
    rw (url_digit (b / 16) (omega arith), url_digit (b % 16) (omega arith), escaped)
      (ap some (joined_digits (b / 16) (b % 16) (omega arith) (omega arith) ∙ whole))

decode_bytes-escaped :
    (x y b : ℕ) (t : List ℕ)
    → escaped x y ≡ some b
    → decode_bytes (b'%' ∷ x ∷ y ∷ t) ≡ b ∷ decode_bytes t
unfolding decode_bytes
decode_bytes-escaped x y b t e = rw (e, decode_bytes) refl

decode_bytes-plain :
    (b : ℕ) (t : List ℕ) → (b == b'%') ≡ false → decode_bytes (b ∷ t) ≡ b ∷ decode_bytes t
unfolding decode_bytes
decode_bytes-plain b [] e = refl
decode_bytes-plain b (x ∷ []) e = refl
decode_bytes-plain b (x ∷ y ∷ t) e = rw (e, decode_bytes) refl

unreserved-percent : (b : ℕ) → unreserved b ≡ true → (b == b'%') ≡ false
unfolding unreserved
unreserved-percent b h = ground arith

decode_bytes-encode_byte :
    (b : ℕ) (t : List ℕ) → b < 2 ^ 8 → decode_bytes (encode_byte b ++ t) ≡ b ∷ decode_bytes t
unfolding encode_byte
decode_bytes-encode_byte b t h =
    if-elim (λ s. decode_bytes (s ++ t) ≡ b ∷ decode_bytes t) (unreserved b) _ _
      (λ e. decode_bytes-plain b t (unreserved-percent b e))
      (λ e.
        decode_bytes-escaped (hex_upper (b / 16)) (hex_upper (b % 16)) b t (escaped-hex_upper b h))

-- The characters of an encoded segment.
unfoldable pub url_safe : ℕ → Bool
url_safe b = unreserved b || b == b'%'

hex_upper-safe : (d : ℕ) → d < 16 → url_safe (hex_upper d) ≡ true
unfolding url_safe unreserved hex_upper
hex_upper-safe d h = ground arith

unreserved-safe : (b : ℕ) → unreserved b ≡ true → url_safe b ≡ true
unfolding url_safe
unreserved-safe b e = rw e refl

percent_safe : url_safe b'%' ≡ true
unfolding url_safe unreserved
percent_safe = refl

encode_byte-safe :
    (b : ℕ) (t : List ℕ)
    → b < 2 ^ 8
    → all url_safe t ≡ true
    → all url_safe (encode_byte b ++ t) ≡ true
unfolding encode_byte
encode_byte-safe b t h g =
    if-elim (λ s. all url_safe (s ++ t) ≡ true) (unreserved b) _ _ (λ e. rw (unreserved-safe b e) g)
      (λ e.
        rw
          (
            percent_safe,
            hex_upper-safe (b / 16) (omega arith),
            hex_upper-safe (b % 16) (omega arith),
          )
          g)

-- The bytes of a segment come back when the web server decodes it, and the encoded segment has only
-- unreserved characters and percent signs, so it never ends a path segment.
pub decode_bytes-urlencode :
    (s : List ℕ)
    → All (λ b. b < 2 ^ 8) s
    → (decode_bytes (urlencode s) ≡ s) × (all url_safe (urlencode s) ≡ true)
unfolding urlencode decode_bytes
decode_bytes-urlencode [] h = (refl, refl)
decode_bytes-urlencode (b ∷ s) h =
    let r = decode_bytes-urlencode s h.1 in
    (
      decode_bytes-encode_byte b (urlencode s) h.0 ∙ ap (λ t. b ∷ t) r.0,
      encode_byte-safe b (urlencode s) h.0 r.1,
    )
