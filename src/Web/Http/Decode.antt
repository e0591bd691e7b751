-- ===== src/Web/Http/Decode.antt =====
-- Percent escapes: any bytes come back from their escapes, and text without a percent sign is kept.
use cdc_badge_plugins.Base.{
  ℕ, ◌+◌, ◌/◌, ◌%◌, ◌^◌, ◌<◌, ◌≡◌, refl, ap, Bool, true, false, ◌==◌, ltb, if◌then◌else◌, Option,
  none, some, List, [], ◌∷◌, All, arith,
}
use cdc_badge_plugins.Base.Bits.{all_below, all_below_sound}
use cdc_badge_plugins.Base.Utf8.{is_utf8}
use cdc_badge_plugins.Web.Http.{hex_val, escaped, decode_bytes, percent_decode}

-- Upper-case hexadecimal digits.
digit : ℕ → ℕ
digit d = if ltb d 10 then 0x30 + d else 0x37 + d

pub escape : List ℕ → List ℕ
escape [] = []
escape (b ∷ s) = 0x25 ∷ digit (b / 16) ∷ digit (b % 16) ∷ escape s

opt_eq : Option ℕ → ℕ → Bool
opt_eq none n = false
opt_eq (some m) n = m == n

reads_back : ℕ → Bool
reads_back b = opt_eq (escaped (digit (b / 16)) (digit (b % 16))) b

escape_table : all_below 256 reads_back ≡ true
unfolding all_below reads_back opt_eq escaped digit hex_val
escape_table = refl

opt_eq→≡ : (r : Option ℕ) (n : ℕ) → opt_eq r n ≡ true → r ≡ some n
unfolding opt_eq
opt_eq→≡ none n e = ground arith
opt_eq→≡ (some m) n e = ground arith

decode_bytes-escape : (s : List ℕ) → All (λ b. b < 2 ^ 8) s → decode_bytes (escape s) ≡ s
unfolding decode_bytes escape reads_back
decode_bytes-escape [] h = refl
decode_bytes-escape (b ∷ s) (hb, h) =
    let e = opt_eq→≡ _ b (all_below_sound 256 reads_back b escape_table hb) in
    rw (e, decode_bytes) (ap (λ l. b ∷ l) (decode_bytes-escape s h))

-- UTF-8 text that is escaped byte by byte decodes to itself, whatever its characters are.
pub percent_decode-escape :
    (s : List ℕ) → All (λ b. b < 2 ^ 8) s → is_utf8 s ≡ true → percent_decode (escape s) ≡ some s
unfolding percent_decode
percent_decode-escape s h u = rw (decode_bytes-escape s h, u) refl
