-- ===== src/ThermoPrinter/Wrap/Tests.antt =====
-- A wrapped text, a contact and a link, and the theorem at a concrete input.
use cdc_badge_plugins.Base.{ℕ, ◌*◌, ◌≡◌, refl, true, false, List, [], ◌∷◌, length, All}
use cdc_badge_plugins.Base.Bytes.{codes}
use cdc_badge_plugins.Base.Chars.{
  first_part, last_part, is_whitespace, put_first, split_on, starts_word, split_whitespace,
  is_empty, trim_start, trim, trim_end_matches, starts_with, ends_with_char,
}
use cdc_badge_plugins.ThermoPrinter.Wrap.{
  push_line, candidate, fits, hard_break, wrap_words, wrap_paragraphs, without_noise, wrap_text,
}
use cdc_badge_plugins.ThermoPrinter.Vcard.{
  drop_empty_last, str_lines, split_colon, vcard_label, vcard_line, raw_line, all_lines,
  vcard_to_lines, url, plain_text, ascii_alphabetic, host_char, valid_label, looks_like_domain,
  normalize,
}
use cdc_badge_plugins.ThermoPrinter.Wrap.Visible.{joined, visible}
use cdc_badge_plugins.ThermoPrinter.Wrap.Lines.{IsLine, wrap_text-Lines}

abbrev six_pixels : List ℕ → ℕ
six_pixels s = length s * 6

run_wrap : List ℕ → List (List ℕ)
unfolding wrap_text without_noise wrap_paragraphs wrap_words hard_break candidate push_line fits
    split_on split_whitespace starts_word put_first is_whitespace is_empty
run_wrap text = wrap_text 36 six_pixels text

wrapped :
    wrap_text 36 six_pixels (codes "to be overlooked")
    ≡ codes "to be" ∷ codes "overlo" ∷ codes "oked" ∷ []
unfolding run_wrap
wrapped = refl

wrap_text-Lines_example :
    All (IsLine 36 six_pixels) (wrap_text 36 six_pixels (codes "to be overlooked"))
    × (visible (joined (wrap_text 36 six_pixels (codes "to be overlooked")))
        ≡ visible (codes "to be overlooked"))
wrap_text-Lines_example = wrap_text-Lines 36 six_pixels (codes "to be overlooked")

contact :
    vcard_to_lines (codes "FN:Ann\nTEL;TYPE=cell:1\nN:x")
    ≡ record { headline = true; text = codes "Ann" }
      ∷ record { headline = false; text = codes "Tel: 1" }
      ∷ []
unfolding vcard_to_lines all_lines raw_line vcard_line vcard_label first_part split_colon str_lines
    drop_empty_last split_on put_first trim_end_matches is_empty
contact = refl

link : normalize (codes " badge.example.org ") ≡ url (codes "https://badge.example.org")
unfolding normalize looks_like_domain valid_label host_char ascii_alphabetic first_part last_part
    split_on put_first trim trim_start trim_end_matches is_whitespace is_empty starts_with
    ends_with_char
link = refl

no_link : normalize (codes "example.1") ≡ plain_text (codes "example.1")
unfolding normalize looks_like_domain valid_label host_char ascii_alphabetic first_part last_part
    split_on put_first trim trim_start trim_end_matches is_whitespace is_empty starts_with
    ends_with_char
no_link = refl
