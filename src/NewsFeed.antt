-- ===== src/NewsFeed.antt =====
-- The reading of feeds, examples/news_feed/src/lib.rs. A text is its characters; the patterns that are
-- looked for are ASCII, so that positions in bytes and in characters cut a text at the same places.
-- The loop over the entries runs on the length of the feed.
pub mod Plain
pub mod Entries
mod Tests
use cdc_badge_plugins.Base.{
  ℕ, zero, suc, ◌-◌, ltb, ◌==◌, if◌then◌else◌, Bool, true, false, not, ◌&&◌, Option, none, some,
  List, [], ◌∷◌, ◌++◌, length, take, drop,
}
use cdc_badge_plugins.Base.Bytes.{codes, str_eq}
use cdc_badge_plugins.Base.Chars.{is_whitespace, is_empty, starts_with, trim}

-- The loop of `strip_html`, with what it writes from here on.
unfoldable pub strip_loop : Bool → Bool → List ℕ → List ℕ
strip_loop in_tag last_space [] = []
strip_loop true last_space (c ∷ s) = let rest = strip_loop (not (c == b'>')) last_space s in rest
strip_loop false last_space (c ∷ s) =
    let tag = strip_loop true last_space s in
    let space = strip_loop false true s in
    let char = strip_loop false false s in
    if c == b'<'
    then tag
    else if is_whitespace c
    then (if last_space then space else b' ' ∷ space)
    else c ∷ char

unfoldable pub strip_html : List ℕ → List ℕ
unfolding strip_loop
strip_html input = trim (strip_loop false true input)

-- `find(p)`: the text in front of the first place where `p` stands, and the text from there on.
unfoldable pub put_front : ℕ → Option (List ℕ × List ℕ) → Option (List ℕ × List ℕ)
put_front c none = none
put_front c (some (front, back)) = some (c ∷ front, back)

unfoldable pub cut_at : List ℕ → List ℕ → Option (List ℕ × List ℕ)
unfolding put_front starts_with
cut_at p [] = if starts_with p [] then some ([], []) else none
cut_at p (c ∷ s) =
    let later = put_front c (cut_at p s) in
    if starts_with p (c ∷ s) then some ([], c ∷ s) else later

-- The text behind the opening tag, from its first character on, up to the closing tag.
unfoldable pub up_to_close : List ℕ → List ℕ → Option (List ℕ)
up_to_close tag src = elim (cut_at (codes "</" ++ (tag ++ b'>' ∷ [])) src) [
  | none ↦ none
  | some (inside, back) ↦ some (trim inside)
]

unfoldable pub behind_open : List ℕ → List ℕ → Option (List ℕ)
unfolding up_to_close
behind_open tag from_open = elim (cut_at (b'>' ∷ []) from_open) [
  | none ↦ none
  | some (attributes, from_gt) ↦ up_to_close tag (drop 1 from_gt)
]

unfoldable pub extract_tag : List ℕ → List ℕ → Option (List ℕ)
unfolding cut_at behind_open
extract_tag src tag = elim (cut_at (b'<' ∷ tag) src) [
  | none ↦ none
  | some (front, from_open) ↦ behind_open tag from_open
]

unfoldable pub ends_in : List ℕ → List ℕ → Bool
ends_in p s = str_eq (drop (length s - length p) s) p

unfoldable pub strip_cdata : List ℕ → List ℕ
unfolding starts_with ends_in
strip_cdata s =
    if starts_with (codes "<![CDATA[") s && ends_in (codes "]]>") s
    then take (length s - 12) (drop 9 s)
    else s

pub record Entry : Type 0 where
  pub title : List ℕ
  pub summary : List ℕ

-- `or_else` and `map(..).unwrap_or("")`.
unfoldable pub first_of : Option (List ℕ) → Option (List ℕ) → Option (List ℕ)
first_of none b = b
first_of (some a) b = some a

unfoldable pub summary_text : Option (List ℕ) → List ℕ
unfolding strip_cdata strip_html
summary_text none = strip_html []
summary_text (some s) = strip_html (trim (strip_cdata s))

unfoldable pub extract_first_entry : List ℕ → Option Entry
unfolding extract_tag strip_cdata first_of summary_text is_empty
extract_first_entry entry = elim (extract_tag entry (codes "title")) [
  | none ↦ none
  | some raw ↦
      let title = trim (strip_cdata raw) in
      let summary = first_of (extract_tag entry (codes "summary")) (
        first_of (extract_tag entry (codes "description")) (extract_tag entry (codes "content"))) in
      if is_empty title
      then none
      else some (record { title = title; summary = summary_text summary })
]

-- `contains`.
unfoldable pub occurs : List ℕ → List ℕ → Bool
unfolding cut_at
occurs p s = elim (cut_at p s) [ none ↦ false | some r ↦ true ]

-- The next block, and the text behind its closing tag.
unfoldable pub close_block : List ℕ → Option (List ℕ × List ℕ) → Option (List ℕ × List ℕ)
unfolding cut_at
close_block close_tag none = none
close_block close_tag (some (front, from_open)) = elim (cut_at close_tag from_open) [
  | none ↦ none
  | some (block, from_close) ↦ some (block, drop (length close_tag) from_close)
]

unfoldable pub next_block : List ℕ → List ℕ → List ℕ → Option (List ℕ × List ℕ)
unfolding close_block
next_block open_tag close_tag rest = close_block close_tag (cut_at open_tag rest)

-- The `while` loop: at most `left` more entries from the rest of the feed.
unfoldable pub collect : ℕ → List ℕ → List ℕ → ℕ → List ℕ → List Entry
unfolding next_block
collect zero open_tag close_tag left rest = []
collect (suc rounds) open_tag close_tag zero rest = []
collect (suc rounds) open_tag close_tag (suc left) rest =
    elim (next_block open_tag close_tag rest) [
      | none ↦ []
      | some (block, rest') ↦ elim (extract_first_entry block) [
        | none ↦ collect rounds open_tag close_tag (suc left) rest'
        | some e ↦ e ∷ collect rounds open_tag close_tag left rest'
      ]
    ]

unfoldable pub parse_feed_entries : List ℕ → ℕ → List Entry
unfolding occurs collect
parse_feed_entries body most =
    if occurs (codes "<entry") body
    then collect (suc (length body)) (codes "<entry") (codes "</entry>") most body
    else collect (suc (length body)) (codes "<item") (codes "</item>") most body
