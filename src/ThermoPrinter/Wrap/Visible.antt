-- ===== src/ThermoPrinter/Wrap/Visible.antt =====
-- Lines in a row, and their characters that are no white space.
use cdc_badge_plugins.Base.{
  ℕ, Bool, true, false, not, ◌||◌, ◌==◌, ==_iff, ◌≡◌, refl, ap, sym, ◌∙◌, List, [], ◌∷◌, ◌++◌,
  append_nil, retain, retain-append, if-elim,
}
use mathlib.Core.List.{append_assoc}
use cdc_badge_plugins.Base.Chars.{
  is_whitespace, put_first, split_on, starts_word, split_whitespace, is_empty,
}
use cdc_badge_plugins.ThermoPrinter.Wrap.{push_line, candidate}

-- The lines in a row, and the characters that are no white space.
unfoldable pub joined : List (List ℕ) → List ℕ
joined [] = []
joined (l ∷ ls) = l ++ joined ls

unfoldable pub visible : List ℕ → List ℕ
visible = retain (λ c. not (is_whitespace c))

pub visible-append : (s t : List ℕ) → visible (s ++ t) ≡ visible s ++ visible t
unfolding visible
visible-append s t = retain-append (λ c. not (is_whitespace c)) s t

pub visible-space : (c : ℕ) (s : List ℕ) → is_whitespace c ≡ true → visible (c ∷ s) ≡ visible s
unfolding visible
visible-space c s e = rw e refl

pub visible-cons :
    (c : ℕ) (s t : List ℕ) → visible s ≡ visible t → visible (c ∷ s) ≡ visible (c ∷ t)
visible-cons c s t e =
    visible-append (c ∷ []) s ∙ ap (λ v. visible (c ∷ []) ++ v) e ∙ sym (visible-append (c ∷ []) t)

pub joined-append : (ls ms : List (List ℕ)) → joined (ls ++ ms) ≡ joined ls ++ joined ms
unfolding joined
joined-append [] ms = refl
joined-append (l ∷ ls) ms =
    ap (λ r. l ++ r) (joined-append ls ms) ∙ sym (append_assoc l (joined ls) (joined ms))

pub joined-put_first : (c : ℕ) (ls : List (List ℕ)) → joined (put_first c ls) ≡ c ∷ joined ls
unfolding joined put_first
joined-put_first c [] = refl
joined-put_first c (l ∷ ls) = refl

pub blank_chars : (is_whitespace 0x20 ≡ true) × (is_whitespace 0x0A ≡ true)
unfolding is_whitespace
blank_chars = (refl, refl)

pub visible-split_whitespace : (s : List ℕ) → visible (joined (split_whitespace s)) ≡ visible s
unfolding split_whitespace joined
visible-split_whitespace [] = refl
visible-split_whitespace (c ∷ s) =
    let rest = visible-split_whitespace s in
    if-elim (λ l. visible (joined l) ≡ visible (c ∷ s)) (is_whitespace c) _ _
      (λ e. rest ∙ sym (visible-space c s e))
      (λ e.
        if-elim (λ l. visible (joined l) ≡ visible (c ∷ s)) (starts_word s) _ _
          (λ w.
            ap visible (joined-put_first c (split_whitespace s))
            ∙ visible-cons c (joined (split_whitespace s)) s rest)
          (λ w. visible-cons c (joined (split_whitespace s)) s rest))

pub visible-split_on : (s : List ℕ) → visible (joined (split_on 0x0A s)) ≡ visible s
unfolding split_on joined
visible-split_on [] = refl
visible-split_on (c ∷ s) =
    let rest = visible-split_on s in
    if-elim (λ l. visible (joined l) ≡ visible (c ∷ s)) (c == 0x0A) _ _
      (λ e. rest ∙ sym (visible-space c s (ap is_whitespace ((==_iff c 0x0A).0 e) ∙ blank_chars.1)))
      (λ e.
        ap visible (joined-put_first c (split_on 0x0A s))
        ∙ visible-cons c (joined (split_on 0x0A s)) s rest)

pub nothing_visible : (s : List ℕ) → s ≡ visible [] ++ s
unfolding visible
nothing_visible s = refl

pub visible_nil : (s : List ℕ) → s ≡ s ++ visible []
unfolding visible
visible_nil s = sym (append_nil s)

-- The lines that are done and the line that is left, in a row.
unfoldable pub whole : List (List ℕ) × List ℕ → List ℕ
whole r = joined r.0 ++ r.1

pub visible-candidate :
    (line word : List ℕ) → visible (candidate line word) ≡ visible line ++ visible word
unfolding candidate is_empty
visible-candidate [] word = nothing_visible (visible word)
visible-candidate (c ∷ line) word =
    visible-append (c ∷ line) (0x20 ∷ word)
    ∙ ap (λ v. visible (c ∷ line) ++ v) (visible-space 0x20 word blank_chars.0)

pub joined-push_line : (line : List ℕ) → joined (push_line line) ≡ line
unfolding joined push_line is_empty
joined-push_line [] = refl
joined-push_line (c ∷ line) = append_nil (c ∷ line)

-- A line, the lines of a broken word, and what comes after.
pub whole-parts :
    (line : List ℕ) (broken : List (List ℕ)) (next : List (List ℕ) × List ℕ)
    → whole (push_line line ++ (broken ++ next.0), next.1) ≡ line ++ (joined broken ++ whole next)
unfolding whole
whole-parts line broken next =
    ap (λ l. l ++ next.1)
      (joined-append (push_line line) (broken ++ next.0)
        ∙ ap (λ l. l ++ joined (broken ++ next.0)) (joined-push_line line)
        ∙ ap (λ l. line ++ l) (joined-append broken next.0))
    ∙ append_assoc line (joined broken ++ joined next.0) next.1
    ∙ ap (λ l. line ++ l) (append_assoc (joined broken) (joined next.0) next.1)

pub or_false : (b : Bool) → (b || false) ≡ true → b ≡ true
or_false true e = refl
or_false false e = e
