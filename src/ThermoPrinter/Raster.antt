-- ===== src/ThermoPrinter/Raster.antt =====
-- The payloads that other plugins hand to the printer, plugins/thermo_printer/src/raster.rs: raster
-- jobs ("TP") and text jobs ("TX"). Text is its UTF-8 bytes. Proofs are in the modules below.
pub mod Payload
mod Tests
use package.cdc_badge_plugins.Base.{
  ℕ, ◌+◌, ◌*◌, ◌/◌, Bool, true, false, not, ◌||◌, ltb, ◌==◌, if◌then◌else◌,
}
use package.cdc_badge_plugins.Base.{
  Option, none, some, List, [], ◌∷◌, ◌++◌, length, get_or, take, drop,
}
use package.cdc_badge_plugins.Base.{u16_to_le, u16_from_le}
use package.cdc_badge_plugins.Base.Utf8.{is_utf8}

abbrev pub magic : ℕ
magic = 0x5450

abbrev pub version : ℕ
version = 1

abbrev pub header_len : ℕ
header_len = 12

abbrev pub max_width_px : ℕ
max_width_px = 384

abbrev pub max_height_px : ℕ
max_height_px = 2048

abbrev pub text_magic : ℕ
text_magic = 0x5854

abbrev pub text_header_len : ℕ
text_header_len = 4

pub record Job : Type 0 where
  pub width_px : ℕ
  pub height_px : ℕ
  pub stride_bytes : ℕ
  pub rows : List ℕ

pub build : ℕ → ℕ → ℕ → List ℕ → List ℕ
build width_px height_px stride_bytes rows =
    u16_to_le magic
    ++ (version
        ∷ 0
        ∷ (u16_to_le width_px
            ++ (u16_to_le height_px ++ (u16_to_le stride_bytes ++ (u16_to_le 0 ++ rows)))))

-- `payload.get(from..from + n)`.
pub get_range : List ℕ → ℕ → ℕ → Option (List ℕ)
get_range payload from n =
    if ltb (length payload) (from + n) then none else some (take n (drop from payload))

-- The bytes are read behind the length test, so the default is never used.
pub parse : List ℕ → Option Job
parse payload =
    let at = λ (i : ℕ). get_or payload i 0 in
    let width_px = u16_from_le (at 4) (at 5) in
    let height_px = u16_from_le (at 6) (at 7) in
    let stride_bytes = u16_from_le (at 8) (at 9) in
    if ltb (length payload) header_len
    then none
    else if not (u16_from_le (at 0) (at 1) == magic) || not (at 2 == version)
    then none
    else if width_px == 0
        || ltb max_width_px width_px
        || height_px == 0
        || ltb max_height_px height_px
    then none
    else if ltb stride_bytes ((width_px + 7) / 8)
    then none
    else elim (get_range payload header_len (stride_bytes * height_px)) [
      | none ↦ none
      | some rows ↦ some (record {
        width_px = width_px;
        height_px = height_px;
        stride_bytes = stride_bytes;
        rows = rows;
      })
    ]

pub build_text : List ℕ → List ℕ
build_text text = u16_to_le text_magic ++ (version ∷ 0 ∷ text)

pub parse_text : List ℕ → Option (List ℕ)
parse_text payload =
    let at = λ (i : ℕ). get_or payload i 0 in
    let text = drop text_header_len payload in
    if ltb (length payload) text_header_len
    then none
    else if not (u16_from_le (at 0) (at 1) == text_magic) || not (at 2 == version)
    then none
    else if is_utf8 text
    then some text
    else none
