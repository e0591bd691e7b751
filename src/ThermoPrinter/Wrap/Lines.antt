-- ===== src/ThermoPrinter/Wrap/Lines.antt =====
-- What the lines of a wrapped text look like: they fit, and they have the characters of the text.
use cdc_badge_plugins.Base.{
  ℕ, ◌≤◌, true, ◌||◌, ◌≡◌, refl, ap, sym, ◌∙◌, ◌⊎◌, inl, inr, List, [], ◌∷◌, ◌++◌, length, All,
  All-append, append_nil, arith, if-elim,
}
use mathlib.Core.List.{append_assoc}
use cdc_badge_plugins.Base.Chars.{split_on, split_whitespace, is_empty}
use cdc_badge_plugins.ThermoPrinter.Wrap.{
  push_line, candidate, fits, hard_break, wrap_words, wrap_paragraphs, without_noise, wrap_text,
}
use cdc_badge_plugins.ThermoPrinter.Wrap.Visible.{
  joined, visible, visible-append, joined-append, visible-split_whitespace, visible-split_on,
  nothing_visible, visible_nil, whole, visible-candidate, whole-parts, or_false,
}

module _ (max_width_px : ℕ) (measure : List ℕ → ℕ) where
  -- A line that fits, or that has at most one character.
  unfoldable pub IsLine : List ℕ → Type 0
  IsLine l = (fits max_width_px measure l ≡ true) ⊎ (length l ≤ 1)

  -- The lines that are done and the line that is left.
  Filled : List (List ℕ) × List ℕ → Type 0
  Filled r = All IsLine r.0 × IsLine r.1

  longer-IsLine :
      (piece : List ℕ) (ch : ℕ)
      → (fits max_width_px measure (piece ++ ch ∷ []) || is_empty piece) ≡ true
      → IsLine (piece ++ ch ∷ [])
  unfolding IsLine is_empty
  longer-IsLine [] ch e = inr (omega arith)
  longer-IsLine (c ∷ piece) ch e =
      inl (or_false (fits max_width_px measure (c ∷ piece ++ ch ∷ [])) e)

  hard_break-Filled :
      (piece chars : List ℕ) → IsLine piece → Filled (hard_break max_width_px measure piece chars)
  unfolding hard_break Filled IsLine
  hard_break-Filled piece [] h = (tt, h)
  hard_break-Filled piece (ch ∷ chars) h =
      if-elim Filled (fits max_width_px measure (piece ++ ch ∷ []) || is_empty piece) _ _
        (λ e. hard_break-Filled (piece ++ ch ∷ []) chars (longer-IsLine piece ch e))
        (λ e.
          let next = hard_break-Filled (ch ∷ []) chars (inr (omega arith)) in ((h, next.0), next.1))

  -- Breaking a word loses nothing.
  whole-hard_break :
      (piece chars : List ℕ) → whole (hard_break max_width_px measure piece chars) ≡ piece ++ chars
  unfolding hard_break joined whole
  whole-hard_break piece [] = sym (append_nil piece)
  whole-hard_break piece (ch ∷ chars) =
      if-elim (λ (r : List (List ℕ) × List ℕ). whole r ≡ piece ++ ch ∷ chars)
        (fits max_width_px measure (piece ++ ch ∷ []) || is_empty piece) _ _
        (λ e. whole-hard_break (piece ++ ch ∷ []) chars ∙ append_assoc piece (ch ∷ []) chars)
        (λ e.
          let next = hard_break max_width_px measure (ch ∷ []) chars in
          append_assoc piece (joined next.0) next.1
          ∙ ap (λ l. piece ++ l) (whole-hard_break (ch ∷ []) chars))

  push_line-IsLine : (line : List ℕ) → IsLine line → All IsLine (push_line line)
  unfolding push_line
  push_line-IsLine line h = if-elim (All IsLine) (is_empty line) _ _ (λ e. tt) (λ e. (h, tt))

  wrap_words-Filled :
      (line : List ℕ) (words : List (List ℕ))
      → IsLine line
      → Filled (wrap_words max_width_px measure line words)
  unfolding wrap_words Filled IsLine
  wrap_words-Filled line [] h = (tt, h)
  wrap_words-Filled line (word ∷ words) h =
      if-elim Filled (fits max_width_px measure (candidate line word)) _ _
        (λ e. wrap_words-Filled (candidate line word) words (inl e))
        (λ e.
          let broken = hard_break-Filled [] word (inr (omega arith)) in
          let next = wrap_words-Filled (hard_break max_width_px measure [] word).1 words broken.1 in
          (
            All-append IsLine (push_line line) _ (push_line-IsLine line h)
                (All-append IsLine (hard_break max_width_px measure [] word).0 _ broken.0 next.0),
            next.1,
          ))

  -- Wrapping words loses white space only.
  visible-wrap_words :
      (line : List ℕ) (words : List (List ℕ))
      → visible (whole (wrap_words max_width_px measure line words))
        ≡ visible line ++ visible (joined words)
  unfolding wrap_words joined whole
  visible-wrap_words line [] = visible_nil (visible line)
  visible-wrap_words line (word ∷ words) =
      if-elim
        (λ (r : List (List ℕ) × List ℕ).
          visible (whole r) ≡ visible line ++ visible (word ++ joined words))
        (fits max_width_px measure (candidate line word)) _ _
        (λ e.
          visible-wrap_words (candidate line word) words
          ∙ ap (λ v. v ++ visible (joined words)) (visible-candidate line word)
          ∙ append_assoc (visible line) (visible word) (visible (joined words))
          ∙ ap (λ v. visible line ++ v) (sym (visible-append word (joined words))))
        (λ e.
          let broken = hard_break max_width_px measure [] word in
          let next = wrap_words max_width_px measure broken.1 words in
          ap visible (whole-parts line broken.0 next)
          ∙ visible-append line (joined broken.0 ++ whole next)
          ∙ ap (λ v. visible line ++ v)
              (visible-append (joined broken.0) (whole next)
                ∙ ap (λ v. visible (joined broken.0) ++ v) (visible-wrap_words broken.1 words)
                ∙ sym (
                    append_assoc (visible (joined broken.0)) (visible broken.1)
                      (visible (joined words)))
                ∙ ap (λ v. v ++ visible (joined words))
                    (sym (visible-append (joined broken.0) broken.1))
                ∙ ap (λ v. visible v ++ visible (joined words)) (whole-hard_break [] word)
                ∙ sym (visible-append word (joined words))))

  without_noise-IsLine : (ls : List (List ℕ)) → All IsLine ls → All IsLine (without_noise ls)
  unfolding without_noise
  without_noise-IsLine [] h = h
  without_noise-IsLine ([] ∷ []) h = tt
  without_noise-IsLine ((c ∷ l) ∷ ls) h = h
  without_noise-IsLine ([] ∷ m ∷ ls) h = h

  joined-without_noise : (ls : List (List ℕ)) → joined (without_noise ls) ≡ joined ls
  unfolding without_noise joined
  joined-without_noise [] = refl
  joined-without_noise ([] ∷ []) = refl
  joined-without_noise ((c ∷ l) ∷ ls) = refl
  joined-without_noise ([] ∷ m ∷ ls) = refl

  wrap_paragraphs-IsLine :
      (ps : List (List ℕ)) → All IsLine (wrap_paragraphs max_width_px measure ps)
  unfolding wrap_paragraphs Filled IsLine
  wrap_paragraphs-IsLine [] = tt
  wrap_paragraphs-IsLine (p ∷ ps) =
      let r = wrap_words-Filled [] (split_whitespace p) (inr (omega arith)) in
      All-append IsLine (wrap_words max_width_px measure [] (split_whitespace p)).0 _ r.0
        (r.1, wrap_paragraphs-IsLine ps)

  visible-wrap_paragraphs :
      (ps : List (List ℕ))
      → visible (joined (wrap_paragraphs max_width_px measure ps)) ≡ visible (joined ps)
  unfolding wrap_paragraphs joined whole
  visible-wrap_paragraphs [] = refl
  visible-wrap_paragraphs (p ∷ ps) =
      let r = wrap_words max_width_px measure [] (split_whitespace p) in
      let rest = wrap_paragraphs max_width_px measure ps in
      ap visible
        (joined-append r.0 (r.1 ∷ rest) ∙ sym (append_assoc (joined r.0) r.1 (joined rest)))
      ∙ visible-append (whole r) (joined rest)
      ∙ ap (λ v. v ++ visible (joined rest))
          (visible-wrap_words [] (split_whitespace p)
            ∙ sym (nothing_visible (visible (joined (split_whitespace p))))
            ∙ visible-split_whitespace p)
      ∙ ap (λ v. visible p ++ v) (visible-wrap_paragraphs ps)
      ∙ sym (visible-append p (joined ps))

  -- Every line of a wrapped text fits, unless it has at most one character, and the lines have the
  -- characters of the text that are no white space, in the same order, whatever the measure is.
  pub wrap_text-Lines :
      (text : List ℕ)
      → All IsLine (wrap_text max_width_px measure text)
        × (visible (joined (wrap_text max_width_px measure text)) ≡ visible text)
  unfolding wrap_text
  wrap_text-Lines text =
      let lines = wrap_paragraphs max_width_px measure (split_on 0x0A text) in
      (
        without_noise-IsLine lines (wrap_paragraphs-IsLine (split_on 0x0A text)),
        ap visible (joined-without_noise lines)
            ∙ visible-wrap_paragraphs (split_on 0x0A text)
            ∙ visible-split_on text,
      )
