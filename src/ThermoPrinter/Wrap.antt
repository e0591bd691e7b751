-- ===== src/ThermoPrinter/Wrap.antt =====
-- Word wrapping, `wrap_text` in plugins/thermo_printer/src/layout.rs. A text is its characters; the
-- width of a line is an argument, as in the source. Proofs are in the modules below.
pub mod Visible
pub mod Lines
mod Tests
use package.cdc_badge_plugins.Base.{
  ℕ, Bool, true, false, ◌||◌, leb, if◌then◌else◌, List, [], ◌∷◌, ◌++◌,
}
use package.cdc_badge_plugins.Base.Chars.{split_on, split_whitespace, is_empty}

-- `lines.push(line)` of a line that is not empty.
unfoldable pub push_line : List ℕ → List (List ℕ)
push_line line = if is_empty line then [] else line ∷ []

unfoldable pub candidate : List ℕ → List ℕ → List ℕ
candidate line word = if is_empty line then word else line ++ 0x20 ∷ word

-- A single empty line is dropped.
unfoldable pub without_noise : List (List ℕ) → List (List ℕ)
without_noise ([] ∷ []) = []
without_noise lines = lines

module _ (max_width_px : ℕ) (measure : List ℕ → ℕ) where
  unfoldable pub fits : List ℕ → Bool
  fits s = leb (measure s) max_width_px

  -- The loop over the characters of a word: the lines that it fills, and the piece that is left.
  unfoldable pub hard_break : List ℕ → List ℕ → List (List ℕ) × List ℕ
  hard_break piece [] = ([], piece)
  hard_break piece (ch ∷ chars) =
      let c = piece ++ ch ∷ [] in
      let go_on = hard_break c chars in
      let next = hard_break (ch ∷ []) chars in
      if fits c || is_empty piece then go_on else (piece ∷ next.0, next.1)

  -- The loop over the words of a paragraph: the lines that are pushed, and the line that is left.
  unfoldable pub wrap_words : List ℕ → List (List ℕ) → List (List ℕ) × List ℕ
  wrap_words line [] = ([], line)
  wrap_words line (word ∷ words) =
      let go_on = wrap_words (candidate line word) words in
      let broken = hard_break [] word in
      let next = wrap_words broken.1 words in
      if fits (candidate line word) then go_on else (push_line line ++ (broken.0 ++ next.0), next.1)

  unfoldable pub wrap_paragraphs : List (List ℕ) → List (List ℕ)
  wrap_paragraphs [] = []
  wrap_paragraphs (p ∷ ps) =
      let wrapped = wrap_words [] (split_whitespace p) in
      wrapped.0 ++ wrapped.1 ∷ wrap_paragraphs ps

  unfoldable pub wrap_text : List ℕ → List (List ℕ)
  wrap_text text = without_noise (wrap_paragraphs (split_on 0x0A text))
