-- ===== src/Base/Utf8.antt =====
-- The check of core::str::from_utf8, one byte at a time: how many continuation bytes are due, and
-- the range that the next one must lie in.
use Prim.Native.Nat.{ℕ, zero, suc}
use mathlib.Core.Bool.{Bool, true, false, ◌&&◌}
use mathlib.Core.List.{List, [], ◌∷◌}
use cdc_badge_plugins.Base.Tests.{ltb, leb, ◌==◌, if◌then◌else◌}

-- What a lead byte asks for: the number of continuation bytes, and the range of the first.
unfoldable pub lead : ℕ → ℕ × ℕ × ℕ
lead b =
    if leb b 0xDF
    then (1, 0x80, 0xBF)
    else if b == 0xE0
    then (2, 0xA0, 0xBF)
    else if b == 0xED
    then (2, 0x80, 0x9F)
    else if leb b 0xEF
    then (2, 0x80, 0xBF)
    else if b == 0xF0
    then (3, 0x90, 0xBF)
    else if b == 0xF4
    then (3, 0x80, 0x8F)
    else (3, 0x80, 0xBF)

unfoldable pub utf8_from : ℕ → ℕ → ℕ → List ℕ → Bool
utf8_from zero lo hi [] = true
utf8_from (suc due) lo hi [] = false
utf8_from zero lo hi (b ∷ bytes) =
    let ascii = utf8_from zero lo hi bytes in
    let (due, lo', hi') = lead b in
    let more = utf8_from due lo' hi' bytes in
    if ltb b 0x80 then ascii else leb 0xC2 b && leb b 0xF4 && more
utf8_from (suc due) lo hi (b ∷ bytes) = leb lo b && leb b hi && utf8_from due 0x80 0xBF bytes

unfoldable pub is_utf8 : List ℕ → Bool
is_utf8 bytes = utf8_from 0 0x80 0xBF bytes
