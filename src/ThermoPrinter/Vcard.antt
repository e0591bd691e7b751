-- ===== src/ThermoPrinter/Vcard.antt =====
-- The lines of a contact, `vcard_to_lines` in plugins/thermo_printer/src/layout.rs, and the test for
-- links, plugins/thermo_printer/src/url.rs. A text is its characters.
use cdc_badge_plugins.Base.{
  ℕ, ◌-◌, Bool, true, false, not, ◌&&◌, ◌||◌, leb, ◌==◌, if◌then◌else◌, Option, none, some, List,
  [], ◌∷◌, ◌++◌, map, any, all, length,
}
use cdc_badge_plugins.Base.Bytes.{codes, str_eq}
use cdc_badge_plugins.Base.Chars.{
  first_part, last_part, is_whitespace, split_on, is_empty, trim_end_matches, trim, starts_with,
  ends_with_char,
}
use cdc_badge_plugins.ThermoPrinter.Layout.{VcardLine}

-- `lines()`: a line feed at the end starts no line.
unfoldable pub drop_empty_last : List (List ℕ) → List (List ℕ)
drop_empty_last [] = []
drop_empty_last ([] ∷ []) = []
drop_empty_last (l ∷ ls) = l ∷ drop_empty_last ls

unfoldable pub str_lines : List ℕ → List (List ℕ)
str_lines s = drop_empty_last (split_on 0x0A s)

-- The key and the value around the first colon.
unfoldable pub split_colon : List ℕ → Option (List ℕ × List ℕ)
split_colon [] = none
split_colon (c ∷ s) =
    let rest = split_colon s in
    if c == b':' then some ([], s) else elim rest [ none ↦ none | some r ↦ some (c ∷ r.0, r.1) ]

abbrev pub to_upper : ℕ → ℕ
to_upper c = if leb b'a' c && leb c b'z' then c - 32 else c

-- The label of a property, without those that are not printed.
unfoldable pub vcard_label : List ℕ → Option (List ℕ)
vcard_label key =
    if str_eq key (codes "ORG")
    then some (codes "Org")
    else if str_eq key (codes "TITLE")
    then some (codes "Title")
    else if str_eq key (codes "TEL")
    then some (codes "Tel")
    else if str_eq key (codes "EMAIL")
    then some (codes "Mail")
    else if str_eq key (codes "URL")
    then some (codes "Web")
    else if str_eq key (codes "IMPP")
    then some (codes "IM")
    else if str_eq key (codes "X-SOCIALPROFILE")
    then some (codes "Social")
    else if str_eq key (codes "NOTE")
    then some (codes "Note")
    else none

-- The printed line of a property.
unfoldable pub vcard_line : List ℕ → List ℕ → List VcardLine
vcard_line key value =
    if str_eq key (codes "FN")
    then record { headline = true; text = value } ∷ []
    else elim (vcard_label key) [
      | none ↦ []
      | some label ↦ record { headline = false; text = label ++ codes ": " ++ value } ∷ []
    ]

unfoldable pub raw_line : List ℕ → List VcardLine
raw_line raw = elim (split_colon (trim_end_matches (λ c. c == 0x0D) raw)) [
  | none ↦ []
  | some p ↦
      if is_empty p.1 then [] else vcard_line (map to_upper (first_part (split_on b';' p.0))) p.1
]

unfoldable pub all_lines : List (List ℕ) → List VcardLine
all_lines [] = []
all_lines (raw ∷ raws) = raw_line raw ++ all_lines raws

unfoldable pub vcard_to_lines : List ℕ → List VcardLine
vcard_to_lines vcard = all_lines (str_lines vcard)

pub data Normalized : Type 0 where
  url plain_text : List ℕ → Normalized

unfoldable pub ascii_alphabetic : ℕ → Bool
ascii_alphabetic c = leb b'A' c && leb c b'Z' || leb b'a' c && leb c b'z'

unfoldable pub host_char : ℕ → Bool
host_char c = ascii_alphabetic c || leb b'0' c && leb c b'9' || c == b'-'

unfoldable pub valid_label : List ℕ → Bool
valid_label l =
    not (is_empty l)
    && not (starts_with (codes "-") l)
    && not (ends_with_char b'-' l)
    && all host_char l

unfoldable pub looks_like_domain : List ℕ → Bool
looks_like_domain s =
    let host = first_part (split_on b'/' s) in
    let tld = last_part (split_on b'.' host) in
    not (is_empty s || any is_whitespace s)
    && not (
        not (any (λ c. c == b'.') host) || starts_with (codes ".") host || ends_with_char b'.' host)
    && all valid_label (split_on b'.' host)
    && leb 2 (length tld)
    && all ascii_alphabetic tld

unfoldable pub normalize : List ℕ → Normalized
normalize input =
    let core = trim input in
    if starts_with (codes "http://") core || starts_with (codes "https://") core
    then url core
    else if looks_like_domain core
    then url (codes "https://" ++ core)
    else plain_text input
