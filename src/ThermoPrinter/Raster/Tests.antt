-- ===== src/ThermoPrinter/Raster/Tests.antt =====
-- Payloads from the parsers' own tests, and the theorems at concrete inputs.
use cdc_badge_plugins.Base.{
  ℕ, ◌*◌, ◌≡◌, refl, true, false, Option, some, none, List, [], ◌∷◌, ◌++◌, replicate, arith,
}
use cdc_badge_plugins.Base.Utf8.{is_utf8, utf8_from, lead}
use cdc_badge_plugins.ThermoPrinter.Raster.{Job, build, parse, build_text, parse_text, get_range}
use cdc_badge_plugins.ThermoPrinter.Raster.Payload.{Fits, parse-build, parse-PrintsJob}
use cdc_badge_plugins.ThermoPrinter.Proto.{build_job, row_bytes}
use cdc_badge_plugins.ThermoPrinter.Proto.Jobs.{PrintsJob, page}

run_parse : List ℕ → Option Job
unfolding parse get_range build
run_parse payload = parse payload

run_parse_text : List ℕ → Option (List ℕ)
unfolding parse_text is_utf8 utf8_from lead build_text
run_parse_text payload = parse_text payload

abbrev job : Job
job = record {
  width_px = 9;
  height_px = 2;
  stride_bytes = 2;
  rows = 0xFF ∷ 0x80 ∷ 0x01 ∷ 0x00 ∷ [];
}

abbrev payload : List ℕ
payload = 0x50 ∷ 0x54 ∷ 1 ∷ 0 ∷ 9 ∷ 0 ∷ 2 ∷ 0 ∷ 2 ∷ 0 ∷ 0 ∷ 0 ∷ 0xFF ∷ 0x80 ∷ 0x01 ∷ 0x00 ∷ []

built : build 9 2 2 (0xFF ∷ 0x80 ∷ 0x01 ∷ 0x00 ∷ []) ≡ payload
unfolding run_parse
built = refl

parsed : parse payload ≡ some job
unfolding run_parse
parsed = refl

-- A stride below the packed width, and a width past the paper.
narrow_stride : parse (build 384 1 40 (replicate 40 0)) ≡ none
unfolding run_parse
narrow_stride = refl

too_wide : parse (build 400 1 50 (replicate 50 0)) ≡ none
unfolding run_parse
too_wide = refl

not_utf8 : parse_text (build_text (0x68 ∷ 0x69 ∷ 0xFF ∷ [])) ≡ none
unfolding run_parse_text
not_utf8 = refl

-- "hé€" in UTF-8; an overlong and a surrogate encoding are refused.
euro :
    parse_text (build_text (0x68 ∷ 0xC3 ∷ 0xA9 ∷ 0xE2 ∷ 0x82 ∷ 0xAC ∷ []))
    ≡ some (0x68 ∷ 0xC3 ∷ 0xA9 ∷ 0xE2 ∷ 0x82 ∷ 0xAC ∷ [])
unfolding run_parse_text
euro = refl

overlong : parse_text (build_text (0xC0 ∷ 0xAF ∷ [])) ≡ none
unfolding run_parse_text
overlong = refl

surrogate : parse_text (build_text (0xED ∷ 0xA0 ∷ 0x80 ∷ [])) ≡ none
unfolding run_parse_text
surrogate = refl

job-Fits : Fits job
job-Fits = record {
  wide = (omega arith, omega arith);
  high = (omega arith, omega arith);
  packed = omega arith;
  full = refl;
}

parse-build_example : parse (build 9 2 2 ((0xFF ∷ 0x80 ∷ 0x01 ∷ 0x00 ∷ []) ++ 7 ∷ [])) ≡ some job
parse-build_example = parse-build job (7 ∷ []) job-Fits (omega arith)

parse-PrintsJob_example :
    PrintsJob
      (build_job (0xFF ∷ 0x80 ∷ 0x01 ∷ 0x00 ∷ []) 2 2 24000 16 0 true)
      24000
      16
      0
      (replicate (row_bytes * 8) false ∷ page (0xFF ∷ 0x80 ∷ 0x01 ∷ 0x00 ∷ []) 2 2 0)
parse-PrintsJob_example = parse-PrintsJob payload job 24000 16 0 true (omega arith) parsed
