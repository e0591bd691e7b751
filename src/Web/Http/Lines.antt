-- ===== src/Web/Http/Lines.antt =====
-- Request lines: a GET line gives its decoded path without the query, another method is refused.
use cdc_badge_plugins.Base.{
  ℕ, ◌≡◌, refl, ap, Bool, true, false, not, ◌&&◌, if◌then◌else◌, none, some, List, [], ◌∷◌, ◌++◌,
  all, map, arith,
}
use cdc_badge_plugins.Base.Bytes.{str_eq}
use cdc_badge_plugins.Web.Http.{
  get, bad, other_method, parse_request, get_path, before, after, line_end, space, question,
  to_lower, get_word, percent_decode, is_alphabetic,
}

before-append :
    (sep : ℕ → Bool) (s t : List ℕ) (c : ℕ)
    → all (λ b. not (sep b)) s ≡ true
    → sep c ≡ true
    → before sep (s ++ c ∷ t) ≡ s
unfolding before
before-append sep [] t c h e = rw e refl
before-append sep (b ∷ s) t c h e =
    let first : sep b ≡ false = ground arith in
    rw first (ap (λ l. b ∷ l) (before-append sep s t c (ground arith) e))

after-append :
    (sep : ℕ → Bool) (s t : List ℕ) (c : ℕ)
    → all (λ b. not (sep b)) s ≡ true
    → sep c ≡ true
    → after sep (s ++ c ∷ t) ≡ some t
unfolding after
after-append sep [] t c h e = rw e refl
after-append sep (b ∷ s) t c h e =
    let first : sep b ≡ false = ground arith in rw first (after-append sep s t c (ground arith) e)

-- Text that holds no separator of a request line.
unfoldable pub no_space : List ℕ → Bool
no_space s = all (λ b. not (space b)) s

unfoldable pub no_line_end : List ℕ → Bool
no_line_end s = all (λ b. not (line_end b)) s

unfoldable pub no_question : List ℕ → Bool
no_question s = all (λ b. not (question b)) s

-- The first line of a request, before its line end and whatever follows.
pub request_of : List ℕ → List ℕ → List ℕ → List ℕ → List ℕ
request_of method target version rest = (method ++ 0x20 ∷ (target ++ 0x20 ∷ version)) ++ 0x0D ∷ rest

parse_request-parts :
    (method target version rest : List ℕ)
    → no_line_end (method ++ 0x20 ∷ (target ++ 0x20 ∷ version)) ≡ true
    → no_space method ≡ true
    → no_space target ≡ true
    → parse_request (request_of method target version rest) ≡ (
        if not (str_eq (map to_lower method) get_word)
        then (if all is_alphabetic method && not (str_eq method []) then other_method else bad)
        else get_path (before question target))
unfolding parse_request request_of no_line_end no_space
parse_request-parts method target version rest l m t =
    let line : before line_end (request_of method target version rest)
        ≡ method ++ 0x20 ∷ (target ++ 0x20 ∷ version) =
      before-append line_end (method ++ 0x20 ∷ (target ++ 0x20 ∷ version)) rest 0x0D l refl in
    let word = before-append space method (target ++ 0x20 ∷ version) 0x20 m refl in
    let tail = after-append space method (target ++ 0x20 ∷ version) 0x20 m refl in
    let path = before-append space target version 0x20 t refl in
    rw (line, parse_request) (rw tail (rw (line, word, path) refl))

-- A GET line, in any case of its letters, whose target is a path with a query behind a question mark:
-- the request is for the decoded path alone, and bad if the escapes in it do not give UTF-8.
pub parse_request-get :
    (method path query version rest : List ℕ)
    → no_line_end (method ++ 0x20 ∷ ((0x2F ∷ path ++ 0x3F ∷ query) ++ 0x20 ∷ version)) ≡ true
    → no_space method ≡ true
    → no_space (0x2F ∷ path ++ 0x3F ∷ query) ≡ true
    → no_question path ≡ true
    → map to_lower method ≡ get_word
    → parse_request (request_of method (0x2F ∷ path ++ 0x3F ∷ query) version rest)
      ≡ elim (percent_decode (0x2F ∷ path)) [ some p ↦ get p | none ↦ bad ]
unfolding get_path no_question
parse_request-get method path query version rest l m t q g =
    let parts = parse_request-parts method (0x2F ∷ path ++ 0x3F ∷ query) version rest l m t in
    let target = before-append question (0x2F ∷ path) query 0x3F q refl in
    rw (parts, g, target) refl

-- A line whose method is made of letters but is not GET is not bad: it is refused as another method,
-- whatever its target is.
pub parse_request-other :
    (method target version rest : List ℕ)
    → no_line_end (method ++ 0x20 ∷ (target ++ 0x20 ∷ version)) ≡ true
    → no_space method ≡ true
    → no_space target ≡ true
    → str_eq (map to_lower method) get_word ≡ false
    → all is_alphabetic method ≡ true
    → str_eq method [] ≡ false
    → parse_request (request_of method target version rest) ≡ other_method
parse_request-other method target version rest l m t g a n =
    let parts = parse_request-parts method target version rest l m t in rw (parts, g, a, n) refl
