-- ===== src/Web/Http/Tests.antt =====
-- Requests from the parser's own tests, and the theorems at concrete inputs.
use cdc_badge_plugins.Base.{ℕ, ◌≡◌, refl, Option, some, none, List, [], ◌∷◌}
use cdc_badge_plugins.Base.Utf8.{is_utf8, utf8_from, lead}
use cdc_badge_plugins.Base.Bytes.{codes}
use cdc_badge_plugins.Base.Chars.{last_part, split_on, put_first}
use cdc_badge_plugins.Web.Http.{content_type}
use cdc_badge_plugins.Web.Http.{
  Request, get, parse_request, percent_decode, resolve_file, before, after, get_path, decode_bytes,
  escaped, hex_val, trim_slashes, name_or_index, allowed, index_html,
}
use cdc_badge_plugins.Web.Http.Names.{IsSafe, resolve_file-IsSafe}

run_parse_request : List ℕ → Request
unfolding parse_request before after get_path percent_decode decode_bytes escaped hex_val is_utf8
    utf8_from lead
run_parse_request request = parse_request request

run_resolve_file : List ℕ → Option (List ℕ)
unfolding resolve_file trim_slashes name_or_index allowed
run_resolve_file path = resolve_file path

-- "GET /a%20b HTTP/1.0\r\n".
decoded :
    run_parse_request (
      0x47 ∷ 0x45 ∷ 0x54 ∷ 0x20 ∷ 0x2F ∷ 0x61 ∷ 0x25 ∷ 0x32 ∷ 0x30 ∷ 0x62 ∷ 0x20 ∷ 0x48 ∷ 0x0D
      ∷ 0x0A ∷ [])
    ≡ get (0x2F ∷ 0x61 ∷ 0x20 ∷ 0x62 ∷ [])
unfolding run_parse_request
decoded = refl

-- "/../x" and "/.." are refused, "/" is the index.
parent : resolve_file (0x2F ∷ 0x2E ∷ 0x2E ∷ 0x2F ∷ 0x78 ∷ []) ≡ none
unfolding run_resolve_file
parent = refl

dots : resolve_file (0x2F ∷ 0x2E ∷ 0x2E ∷ []) ≡ none
unfolding run_resolve_file
dots = refl

root : resolve_file (0x2F ∷ []) ≡ some index_html
unfolding run_resolve_file
root = refl

resolve_file-IsSafe_example : IsSafe index_html
resolve_file-IsSafe_example = resolve_file-IsSafe (0x2F ∷ []) index_html root

page_type : content_type (codes "index.HTML") ≡ codes "text/html"
unfolding content_type last_part split_on put_first
page_type = refl
