-- ===== src/NewsFeed/Entries.antt =====
-- The loop over the entries of a feed, examples/news_feed/src/lib.rs.
use cdc_badge_plugins.Base.{ℕ, suc, ◌+◌, ◌≤◌, ◌<◌, Option, none, some, ◌≡◌, List, [], ◌∷◌, length}
use cdc_badge_plugins.NewsFeed.{Entry, extract_first_entry}

-- What is cut off is no longer than the text, and the pattern fits into it.
abbrev Cut : List ℕ → List ℕ → Option (List ℕ × List ℕ) → Type 0
Cut p s none = Unit {0}
Cut p s (some (front, back)) = (length front + length back ≡ length s) × (length p ≤ length back)

-- A block leaves less of the feed, since its closing tag is not empty.
abbrev Shorter : List ℕ → Option (List ℕ × List ℕ) → Type 0
Shorter s none = Unit {0}
Shorter s (some (block, rest)) = length rest < length s

-- Two lists of the same entries, no more than are left to find.
abbrev SameEntries : ℕ → List Entry → List Entry → Type 0
SameEntries left xs ys = (xs ≡ ys) × (length xs ≤ left)

-- What a round makes of a block, when the later rounds give `later`.
abbrev after_block : (ℕ → List ℕ → List Entry) → ℕ → Option (List ℕ × List ℕ) → List Entry
after_block later left k = elim k [
  | none ↦ []
  | some (block, rest) ↦ elim (extract_first_entry block) [
    | none ↦ later (suc left) rest
    | some e ↦ e ∷ later left rest
  ]
]
