-- ===== src/NewsFeed/Plain.antt =====
-- The plain text that `strip_html` of examples/news_feed/src/lib.rs makes.
use cdc_badge_plugins.Base.{
  ℕ, ◌==◌, if◌then◌else◌, Bool, true, false, not, ◌&&◌, ◌≡◌, ◌≢◌, refl, arith, List, [], ◌∷◌, ◌++◌,
  ap, sym, ◌∙◌, Bool-cases, inl, inr, if-elim_both, if-elim,
}
use cdc_badge_plugins.Base.Chars.{is_whitespace, is_empty, trim, trim_start, trim_end_matches}
use cdc_badge_plugins.NewsFeed.{strip_loop, strip_html}

-- A space only where no space stands in front, no other white space, and no opening bracket.
abbrev pub IsTidy : Bool → List ℕ → Type 0
IsTidy after_space [] = Unit {0}
IsTidy after_space (c ∷ s) =
    (c ≢ b'<')
    × (is_whitespace c ≡ true → (c ≡ b' ') × (after_space ≡ false))
    × IsTidy (is_whitespace c) s

-- The last character is no white space.
abbrev pub EndsInText : List ℕ → Type 0
EndsInText [] = Unit {0}
EndsInText (c ∷ []) = is_whitespace c ≡ false
EndsInText (c ∷ d ∷ s) = EndsInText (d ∷ s)

space_is_space : is_whitespace b' ' ≡ true
unfolding is_whitespace
space_is_space = refl

strip_loop-IsTidy :
    (in_tag last_space : Bool) (s : List ℕ) → IsTidy last_space (strip_loop in_tag last_space s)
unfolding strip_loop
strip_loop-IsTidy in_tag last_space [] = tt
strip_loop-IsTidy true last_space (c ∷ s) = strip_loop-IsTidy (not (c == b'>')) last_space s
strip_loop-IsTidy false last_space (c ∷ s) =
    if-elim (IsTidy last_space) (c == b'<') _ _ (λ t. strip_loop-IsTidy true last_space s)
      (λ t.
        if-elim (IsTidy last_space) (is_whitespace c) _ _
          (λ w. spaced last_space (strip_loop false true s) (strip_loop-IsTidy false true s))
          (λ w. (ground arith, (λ v. ground arith), rw w (strip_loop-IsTidy false false s))))
  where
    spaced :
        (last : Bool) (rest : List ℕ)
        → IsTidy true rest
        → IsTidy last (if last then rest else b' ' ∷ rest)
    spaced true rest h = h
    spaced false rest h = (omega arith, (λ v. (refl, refl)), rw space_is_space h)

trim_start-IsTidy : (s : List ℕ) → IsTidy true s → IsTidy true (trim_start s)
unfolding trim_start
trim_start-IsTidy [] h = tt
trim_start-IsTidy (c ∷ s) h =
    if-elim (IsTidy true) (is_whitespace c) _ _
      (λ w. let never : true ≡ false = (h.1 w).1 in absurd (cc never)) (λ w. h)

trim_end-IsTidy :
    (last : Bool) (s : List ℕ) → IsTidy last s → IsTidy last (trim_end_matches is_whitespace s)
unfolding trim_end_matches
trim_end-IsTidy last [] h = tt
trim_end-IsTidy last (c ∷ s) h =
    if-elim (IsTidy last) (is_empty (trim_end_matches is_whitespace s) && is_whitespace c) _ _
      (λ e. tt) (λ e. (h.0, h.1, trim_end-IsTidy (is_whitespace c) s h.2))

trim_end-EndsInText : (s : List ℕ) → EndsInText (trim_end_matches is_whitespace s)
unfolding trim_end_matches
trim_end-EndsInText [] = tt
trim_end-EndsInText (c ∷ s) =
    if-elim EndsInText (is_empty (trim_end_matches is_whitespace s) && is_whitespace c) _ _
      (λ e. tt) (λ e. ends (trim_end_matches is_whitespace s) (trim_end-EndsInText s) e)
  where
    ends :
        (t : List ℕ) → EndsInText t → (is_empty t && is_whitespace c) ≡ false → EndsInText (c ∷ t)
    ends [] h e = unfold is_empty in e
    ends (d ∷ t) h e = h

-- The text outside the tags: a tag goes from `<` to the next `>`, or to the end of the text.
unfoldable pub outside : Bool → List ℕ → List ℕ
outside in_tag [] = []
outside true (c ∷ s) =
    let closed = outside false s in
    let open_still = outside true s in if c == b'>' then closed else open_still
outside false (c ∷ s) =
    let opened = outside true s in
    let kept = outside false s in if c == b'<' then opened else c ∷ kept

-- The words of a text, which white space parts, behind the characters of an unfinished word.
unfoldable pub flush : List ℕ → List (List ℕ) → List (List ℕ)
flush [] ws = ws
flush (c ∷ word) ws = (c ∷ word) ∷ ws

unfoldable pub words_from : List ℕ → List ℕ → List (List ℕ)
unfolding flush
words_from word [] = flush word []
words_from word (c ∷ s) =
    let parted = flush word (words_from [] s) in
    let longer = words_from (word ++ c ∷ []) s in if is_whitespace c then parted else longer

abbrev pub words : List ℕ → List (List ℕ)
words s = words_from [] s

words_from-same :
    (word : List ℕ) (c : ℕ) (s t : List ℕ)
    → words_from [] s ≡ words_from [] t
    → words_from (word ++ c ∷ []) s ≡ words_from (word ++ c ∷ []) t
    → words_from word (c ∷ s) ≡ words_from word (c ∷ t)
unfolding words_from
words_from-same word c s t h k =
    if-elim_both (λ x y. x ≡ y) (is_whitespace c) _ _ _ _ (λ w. ap (flush word) h) (λ w. k)

words_from-space :
    (word : List ℕ) (c : ℕ) (s : List ℕ)
    → is_whitespace c ≡ true
    → words_from word (c ∷ s) ≡ flush word (words_from [] s)
unfolding words_from
words_from-space word c s w = rw w refl

words_from-letter :
    (word : List ℕ) (c : ℕ) (s : List ℕ)
    → is_whitespace c ≡ false
    → words_from word (c ∷ s) ≡ words_from (word ++ c ∷ []) s
unfolding words_from
words_from-letter word c s w = rw w refl

-- The loop writes the words outside the tags; a space is left out only where no word is unfinished.
strip_loop-words :
    (in_tag last_space : Bool) (word s : List ℕ)
    → (last_space ≡ true → word ≡ [])
    → words_from word (strip_loop in_tag last_space s) ≡ words_from word (outside in_tag s)
unfolding strip_loop outside
strip_loop-words in_tag last_space word [] h = refl
strip_loop-words true last_space word (c ∷ s) h = elim (Bool-cases (c == b'>')) [
  | inl e ↦ rw e (strip_loop-words false last_space word s h)
  | inr e ↦ rw e (strip_loop-words true last_space word s h)
]
strip_loop-words false last_space word (c ∷ s) h = elim (Bool-cases (c == b'<')) [
  | inl e ↦ rw e (strip_loop-words true last_space word s h)
  | inr e ↦ elim (Bool-cases (is_whitespace c)) [
    | inl w ↦
        rw (e, w)
          (spaced last_space h
            ∙ ap (flush word) (strip_loop-words false true [] s (λ t. refl))
            ∙ sym (words_from-space word c (outside false s) w))
    | inr w ↦
        rw (e, w)
          (words_from-letter word c (strip_loop false false s) w
            ∙ strip_loop-words false false (word ++ c ∷ []) s (λ t. cc)
            ∙ sym (words_from-letter word c (outside false s) w))
  ]
]
  where
    spaced :
        (last : Bool)
        → (last ≡ true → word ≡ [])
        → words_from word (if last then strip_loop false true s else b' ' ∷ strip_loop false true s)
          ≡ flush word (words_from [] (strip_loop false true s))
    spaced true k = rw (k refl) (unfold flush in refl)
    spaced false k = words_from-space word b' ' (strip_loop false true s) space_is_space

last_word : (word : List ℕ) → words_from word [] ≡ flush word (words_from [] [])
unfolding words_from flush
last_word word = refl

trim_start-words : (s : List ℕ) → words (trim_start s) ≡ words s
unfolding trim_start
trim_start-words [] = refl
trim_start-words (c ∷ s) = elim (Bool-cases (is_whitespace c)) [
  | inl w ↦ rw w (trim_start-words s ∙ sym (words_from-space [] c s w ∙ unfold flush in refl))
  | inr w ↦ rw w refl
]

trim_end-words :
    (word s : List ℕ) → words_from word (trim_end_matches is_whitespace s) ≡ words_from word s
unfolding trim_end_matches
trim_end-words word [] = refl
trim_end-words word (c ∷ s) =
    ended (trim_end_matches is_whitespace s) (trim_end-words [] s)
      (trim_end-words (word ++ c ∷ []) s)
  where
    ended :
        (t : List ℕ)
        → words_from [] t ≡ words_from [] s
        → words_from (word ++ c ∷ []) t ≡ words_from (word ++ c ∷ []) s
        → words_from word (if is_empty t && is_whitespace c then [] else c ∷ t)
          ≡ words_from word (c ∷ s)
    ended [] h k = elim (Bool-cases (is_whitespace c)) [
      | inl w ↦ rw w (
          unfold is_empty in last_word word ∙ ap (flush word) h ∙ sym (words_from-space word c s w))
      | inr w ↦ rw w (
          unfold is_empty in words_from-letter word c [] w ∙ k ∙ sym (words_from-letter word c s w))
    ]
    ended (d ∷ t) h k = unfold is_empty in words_from-same word c (d ∷ t) s h k

-- What is left of a text has the words that stand outside its tags, in their order, parted by single
-- spaces with no other white space, and none at its ends, whatever the text was; there is no opening
-- bracket in it.
pub strip_html-IsTidy :
    (input : List ℕ)
    → (words (strip_html input) ≡ words (outside false input))
      × IsTidy true (strip_html input)
      × EndsInText (strip_html input)
unfolding strip_html trim
strip_html-IsTidy input = (
  trim_end-words [] _
      ∙ trim_start-words (strip_loop false true input)
      ∙ strip_loop-words false true [] input (λ t. refl),
  trim_end-IsTidy true _ (trim_start-IsTidy _ (strip_loop-IsTidy false true input)),
  trim_end-EndsInText (trim_start (strip_loop false true input)),
)
