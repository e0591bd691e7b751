-- ===== src/Base/Chars.antt =====
-- Texts as lists of characters, by the methods of `str` and `char` that the sources use.
use Prim.Native.Nat.{ℕ}
use mathlib.Core.Bool.{Bool, true, false, not, ◌&&◌, ◌||◌}
use mathlib.Core.List.{List, [], ◌∷◌}
use cdc_badge_plugins.Base.Tests.{leb, ◌==◌, if◌then◌else◌}

-- `char::is_whitespace`.
unfoldable pub is_whitespace : ℕ → Bool
is_whitespace c =
    leb 0x09 c && leb c 0x0D
    || c == 0x20
    || c == 0x85
    || c == 0xA0
    || c == 0x1680
    || leb 0x2000 c && leb c 0x200A
    || c == 0x2028
    || c == 0x2029
    || c == 0x202F
    || c == 0x205F
    || c == 0x3000

-- `split(sep)`: the parts between the separators, at least one.
unfoldable pub put_first : ℕ → List (List ℕ) → List (List ℕ)
put_first c [] = (c ∷ []) ∷ []
put_first c (part ∷ parts) = (c ∷ part) ∷ parts

unfoldable pub split_on : ℕ → List ℕ → List (List ℕ)
split_on sep [] = [] ∷ []
split_on sep (c ∷ s) = let rest = split_on sep s in if c == sep then [] ∷ rest else put_first c rest

-- `split_whitespace()`: the words, none of them empty.
unfoldable pub starts_word : List ℕ → Bool
starts_word [] = false
starts_word (c ∷ s) = not (is_whitespace c)

unfoldable pub split_whitespace : List ℕ → List (List ℕ)
split_whitespace [] = []
split_whitespace (c ∷ s) =
    let rest = split_whitespace s in
    if is_whitespace c then rest else if starts_word s then put_first c rest else (c ∷ []) ∷ rest

-- `trim_start()`.
unfoldable pub trim_start : List ℕ → List ℕ
trim_start [] = []
trim_start (c ∷ s) = let rest = trim_start s in if is_whitespace c then rest else c ∷ s

unfoldable pub is_empty : List ℕ → Bool
is_empty [] = true
is_empty (c ∷ s) = false

-- `trim_end_matches` of the characters that pass a test.
unfoldable pub trim_end_matches : (ℕ → Bool) → List ℕ → List ℕ
trim_end_matches p [] = []
trim_end_matches p (c ∷ s) =
    let rest = trim_end_matches p s in if is_empty rest && p c then [] else c ∷ rest

unfoldable pub trim : List ℕ → List ℕ
trim s = trim_end_matches is_whitespace (trim_start s)

unfoldable pub starts_with : List ℕ → List ℕ → Bool
starts_with [] s = true
starts_with (p ∷ ps) [] = false
starts_with (p ∷ ps) (c ∷ s) = p == c && starts_with ps s

unfoldable pub ends_with_char : ℕ → List ℕ → Bool
ends_with_char c [] = false
ends_with_char c (b ∷ []) = b == c
ends_with_char c (b ∷ d ∷ s) = ends_with_char c (d ∷ s)

-- `split(..).next()` and `rsplit(..).next()`, of the parts.
unfoldable pub first_part : List (List ℕ) → List ℕ
first_part [] = []
first_part (p ∷ ps) = p

unfoldable pub last_part : List (List ℕ) → List ℕ
last_part [] = []
last_part (p ∷ []) = p
last_part (p ∷ q ∷ ps) = last_part (q ∷ ps)
