-- ===== src/NewsFeed/Tests.antt =====
-- Inputs at which the definitions and the theorems about examples/news_feed/src/lib.rs are tried; the
-- texts are those of its tests.
use cdc_badge_plugins.Base.{ℕ, true, false, none, some, ◌≡◌, refl, List, [], ◌∷◌}
use cdc_badge_plugins.Base.Bytes.{codes}
use cdc_badge_plugins.Base.Chars.{is_whitespace, trim, trim_start, trim_end_matches, is_empty}
use cdc_badge_plugins.NewsFeed.{
  strip_html, extract_tag, extract_first_entry, strip_cdata, parse_feed_entries,
}
use cdc_badge_plugins.NewsFeed.Plain.{words, outside, IsTidy, EndsInText, strip_html-IsTidy}

attributes :
    extract_tag (codes "<title type=\"text\">attr</title>") (codes "title") ≡ some (codes "attr")
unfolding extract_tag trim trim_start trim_end_matches is_whitespace is_empty
attributes = refl

no_title : extract_tag (codes "<entry></entry>") (codes "title") ≡ none
unfolding extract_tag
no_title = refl

unwrapped : strip_cdata (codes "<![CDATA[hello]]>") ≡ codes "hello"
unfolding strip_cdata
unwrapped = refl

plain : strip_html (codes "<p>hello <b>world</b>   foo</p>") ≡ codes "hello world foo"
unfolding strip_html trim trim_start trim_end_matches is_whitespace is_empty
plain = refl

abbrev feed : List ℕ
feed = codes "<title>x</title><item><title>a</title></item><item><title>b</title></item>"

titles : parse_feed_entries feed 1 ≡ record { title = codes "a"; summary = [] } ∷ []
unfolding parse_feed_entries extract_first_entry trim trim_start trim_end_matches is_whitespace
    is_empty
titles = refl

strip_html-IsTidy_example :
    (words (strip_html (codes " <b>a</b>  c ")) ≡ words (outside false (codes " <b>a</b>  c ")))
    × IsTidy true (strip_html (codes " <b>a</b>  c "))
    × EndsInText (strip_html (codes " <b>a</b>  c "))
strip_html-IsTidy_example = strip_html-IsTidy (codes " <b>a</b>  c ")
