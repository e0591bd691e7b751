-- ===== src/Web/Http.antt =====
-- Requests and file names, plugins/webserver/src/http.rs. A `str` is its UTF-8 bytes; all the tests
-- of the source are on ASCII characters, which bytes above 0x7F never equal. Proofs are below.
pub mod Names
pub mod Decode
pub mod Lines
mod Tests
use package.cdc_badge_plugins.Base.{
  ℕ, zero, suc, ◌+◌, ◌-◌, ◌*◌, bit_or, Bool, true, false, not, ◌&&◌, ◌||◌, ltb, leb, ◌==◌,
  if◌then◌else◌,
}
use package.cdc_badge_plugins.Base.{Option, none, some, List, [], ◌∷◌, map, all, u8, ◌<<<◌}
use package.cdc_badge_plugins.Base.Utf8.{is_utf8}
use package.cdc_badge_plugins.Base.Bytes.{codes, str_eq}
use package.cdc_badge_plugins.Base.Chars.{split_on, last_part}

pub data Request : Type 0 where
  get : List ℕ → Request
  other_method bad : Request

abbrev pub between : ℕ → ℕ → ℕ → Bool
between lo hi b = leb lo b && leb b hi

abbrev pub is_alphabetic : ℕ → Bool
is_alphabetic b = between 0x41 0x5A b || between 0x61 0x7A b

abbrev pub is_alphanumeric : ℕ → Bool
is_alphanumeric b = is_alphabetic b || between 0x30 0x39 b

abbrev pub to_lower : ℕ → ℕ
to_lower b = if between 0x41 0x5A b then b + 32 else b

-- The text before the first separator: what `split(..).next()` yields, which is never `none`.
pub before : (ℕ → Bool) → List ℕ → List ℕ
before sep [] = []
before sep (b ∷ s) = if sep b then [] else b ∷ before sep s

-- The text after the first separator: `none` when there is none, as for the next part of a split.
pub after : (ℕ → Bool) → List ℕ → Option (List ℕ)
after sep [] = none
after sep (b ∷ s) = if sep b then some s else after sep s

unfoldable pub hex_val : ℕ → Option ℕ
hex_val b =
    if between 0x30 0x39 b
    then some (b - 0x30)
    else if between 0x61 0x66 b
    then some (b - 0x61 + 10)
    else if between 0x41 0x46 b
    then some (b - 0x41 + 10)
    else none

-- The byte of an escape, when both digits are hexadecimal.
unfoldable pub escaped : ℕ → ℕ → Option ℕ
escaped a b = elim (hex_val a) [
  | none ↦ none
  | some h ↦ elim (hex_val b) [ none ↦ none | some l ↦ some (bit_or (u8 (h <<< 4)) l) ]
]

-- The `while` loop of `percent_decode`, from where it stands in the bytes.
unfoldable pub decode_bytes : List ℕ → List ℕ
decode_bytes [] = []
decode_bytes (a ∷ []) = a ∷ []
decode_bytes (a ∷ b ∷ []) = a ∷ b ∷ []
decode_bytes (a ∷ b ∷ c ∷ s) = elim (if a == 0x25 then escaped b c else none) [
  | some d ↦ d ∷ decode_bytes s
  | none ↦ a ∷ decode_bytes (b ∷ c ∷ s)
]

pub percent_decode : List ℕ → Option (List ℕ)
percent_decode s = let out = decode_bytes s in if is_utf8 out then some out else none

abbrev pub get_word : List ℕ
get_word = 0x67 ∷ 0x65 ∷ 0x74 ∷ []

abbrev pub line_end : ℕ → Bool
line_end b = b == 0x0D || b == 0x0A

abbrev pub space : ℕ → Bool
space b = b == 0x20

abbrev pub question : ℕ → Bool
question b = b == 0x3F

-- The last part of `parse_request`, for a GET: the path is decoded if it starts with a slash.
pub get_path : List ℕ → Request
get_path [] = bad
get_path (b ∷ s) =
    if not (b == 0x2F) then bad else elim (percent_decode (b ∷ s)) [ some p ↦ get p | none ↦ bad ]

-- `eq_ignore_ascii_case("GET")` compares in lower case.
pub parse_request : List ℕ → Request
parse_request request =
    let line = before line_end request in
    let method = before space line in
    elim (after space line) [
      | none ↦ bad
      | some rest ↦
          if not (str_eq (map to_lower method) get_word)
          then (if all is_alphabetic method && not (str_eq method []) then other_method else bad)
          else get_path (before question (before space rest))
    ]

abbrev pub index_html : List ℕ
index_html = 0x69 ∷ 0x6E ∷ 0x64 ∷ 0x65 ∷ 0x78 ∷ 0x2E ∷ 0x68 ∷ 0x74 ∷ 0x6D ∷ 0x6C ∷ []

-- `trim_start_matches('/')`.
pub trim_slashes : List ℕ → List ℕ
trim_slashes [] = []
trim_slashes (b ∷ s) = if b == 0x2F then trim_slashes s else b ∷ s

-- The allow-list of `resolve_file`.
pub allowed : ℕ → Bool
allowed b = is_alphanumeric b || b == 0x2E || b == 0x5F || b == 0x2D

pub name_or_index : List ℕ → List ℕ
name_or_index [] = index_html
name_or_index (b ∷ s) = b ∷ s

pub resolve_file : List ℕ → Option (List ℕ)
resolve_file path =
    let name = name_or_index (trim_slashes path) in
    if str_eq name (0x2E ∷ []) || str_eq name (0x2E ∷ 0x2E ∷ []) || not (all allowed name)
    then none
    else some name

-- The type of a file by its extension, which is the whole name when it has no point.
pub content_type : List ℕ → List ℕ
content_type name =
    let ext = map to_lower (last_part (split_on 0x2E name)) in
    if str_eq ext (codes "html") || str_eq ext (codes "htm")
    then codes "text/html"
    else if str_eq ext (codes "txt") || str_eq ext (codes "md")
    then codes "text/plain"
    else if str_eq ext (codes "css")
    then codes "text/css"
    else if str_eq ext (codes "js")
    then codes "application/javascript"
    else if str_eq ext (codes "json")
    then codes "application/json"
    else if str_eq ext (codes "png")
    then codes "image/png"
    else if str_eq ext (codes "jpg") || str_eq ext (codes "jpeg")
    then codes "image/jpeg"
    else if str_eq ext (codes "gif")
    then codes "image/gif"
    else if str_eq ext (codes "svg")
    then codes "image/svg+xml"
    else if str_eq ext (codes "ico")
    then codes "image/x-icon"
    else codes "application/octet-stream"
