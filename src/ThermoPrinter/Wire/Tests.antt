-- ===== src/ThermoPrinter/Wire/Tests.antt =====
-- Frames from the parser's own tests, and the theorems at concrete inputs.
use cdc_badge_plugins.Base.{ℕ, ◌≡◌, refl, Option, some, none, List, [], ◌∷◌, arith}
use cdc_badge_plugins.ThermoPrinter.Wire.{Job, parse, build}
use cdc_badge_plugins.ThermoPrinter.Wire.Transport.{parse-build_frame}

run_parse : List ℕ → Option Job
unfolding parse build
run_parse buf = parse buf

hello :
    parse (build 0 (0x68 ∷ 0x69 ∷ []))
    ≡ some (record { kind = 0; flags = 0; payload = 0x68 ∷ 0x69 ∷ [] })
unfolding run_parse
hello = refl

-- A length near the top of u32 does not wrap past the test.
overflowing : parse (0x50 ∷ 0x4A ∷ 0 ∷ 0 ∷ 0xFF ∷ 0xFF ∷ 0xFF ∷ 0xFF ∷ 0x78 ∷ []) ≡ none
unfolding run_parse
overflowing = refl

truncated : parse (0x50 ∷ 0x4A ∷ 0 ∷ 0 ∷ 2 ∷ 0 ∷ 0 ∷ 0 ∷ 0x78 ∷ []) ≡ none
unfolding run_parse
truncated = refl

abbrev job : Job
job = record { kind = 2; flags = 5; payload = 0x78 ∷ [] }

abbrev buf : List ℕ
buf = 0x50 ∷ 0x4A ∷ 2 ∷ 5 ∷ 1 ∷ 0 ∷ 0 ∷ 0 ∷ 0x78 ∷ 0x79 ∷ []

parse-build_frame_example :
    parse (build 1 (0x78 ∷ [])) ≡ some (record { kind = 1; flags = 0; payload = 0x78 ∷ [] })
parse-build_frame_example = parse-build_frame 1 (0x78 ∷ []) (omega arith)
