-- ===== src/ThermoPrinter/Layout/Pages.antt =====
-- No row of a text is lost, repeated or moved by its division into pages, and the pages come to an end.
use cdc_badge_plugins.Base.{
  ℕ, zero, suc, ◌+◌, ◌-◌, ◌*◌, ◌/◌, ◌≤◌, ◌≡◌, refl, sym, ap, ◌∙◌, max, Bool, true, false,
  Bool-cases, inl, inr, leb, ◌==◌, List, [], ◌∷◌, ◌++◌, map, length, take, drop, length-append,
  length-take, length-map, take-append-drop, All, arith,
}
use mathlib.Core.Path.{ap₂}
use mathlib.Core.List.{append_assoc}
use cdc_badge_plugins.ThermoPrinter.Layout.{
  VcardLine, PageLine, Page, page_lines, leftover, page_from, paginate,
}

-- The rows that a line is printed as: a blank one for a line that wraps to nothing.
abbrev pub rows_of : Bool → List (List ℕ) → List PageLine
rows_of headline [] = (headline, []) ∷ []
rows_of headline (w ∷ ws) = (headline, w) ∷ map (λ w. (headline, w)) ws

unfoldable pub rows : (Bool → List ℕ → List (List ℕ)) → List VcardLine → List PageLine
rows wrap [] = []
rows wrap (line ∷ more) = rows_of line.headline (wrap line.headline line.text) ++ rows wrap more

-- A row that comes out of the wrapping is that one row when it is wrapped again.
abbrev pub Settles : (Bool → List ℕ → List (List ℕ)) → Type 0
Settles wrap = (h : Bool) (t : List ℕ) → All (λ w. rows_of h (wrap h w) ≡ (h, w) ∷ []) (wrap h t)

rows-append :
    (wrap : Bool → List ℕ → List (List ℕ)) (ls ms : List VcardLine)
    → rows wrap (ls ++ ms) ≡ rows wrap ls ++ rows wrap ms
unfolding rows
rows-append wrap [] ms = refl
rows-append wrap (line ∷ ls) ms =
    let r = rows_of line.headline (wrap line.headline line.text) in
    ap (λ l. r ++ l) (rows-append wrap ls ms) ∙ sym (append_assoc r (rows wrap ls) (rows wrap ms))

All-drop : {A : Type 0} (P : A → Type 0) (n : ℕ) (l : List A) → All P l → All P (drop n l)
All-drop P zero l h = h
All-drop P (suc n) [] h = tt
All-drop P (suc n) (x ∷ l) h = All-drop P n l h.1

map-append : {A B : Type 0} (f : A → B) (xs ys : List A) → map f (xs ++ ys) ≡ map f xs ++ map f ys
map-append f [] ys = refl
map-append f (x ∷ xs) ys = ap (λ l. f x ∷ l) (map-append f xs ys)

rows_of_some :
    (h : Bool) (ws : List (List ℕ)) → (length ws == 0) ≡ false → rows_of h ws ≡ map (λ w. (h, w)) ws
rows_of_some h [] e = ground arith
rows_of_some h (w ∷ ws) e = refl

rows_of_blank :
    (h : Bool) (ws : List (List ℕ)) → (length ws == 0) ≡ true → rows_of h ws ≡ (h, []) ∷ []
rows_of_blank h [] e = refl
rows_of_blank h (w ∷ ws) e = ground arith

rows-leftover :
    (wrap : Bool → List ℕ → List (List ℕ)) (h : Bool) (ws : List (List ℕ))
    → All (λ w. rows_of h (wrap h w) ≡ (h, w) ∷ []) ws
    → rows wrap (map (λ w. record { headline = h; text = w }) ws) ≡ map (λ w. (h, w)) ws
unfolding rows
rows-leftover wrap h [] s = refl
rows-leftover wrap h (w ∷ ws) s = ap₂ ◌++◌ s.0 (rows-leftover wrap h ws s.1)

-- The rows of a page and of the lines that are left are these.
abbrev Holds : (Bool → List ℕ → List (List ℕ)) → List PageLine → Page → Type 0
Holds wrap all (page, y, rest) = page ++ rows wrap rest ≡ all

page_from-Holds :
    (max_rows : ℕ) (line_h : Bool → ℕ) (wrap : Bool → List ℕ → List (List ℕ)) (consumed : ℕ)
    (page : List PageLine) (y : ℕ) (lines : List VcardLine)
    → Settles wrap
    → Holds wrap (page ++ rows wrap lines) (page_from max_rows line_h wrap consumed page y lines)
unfolding page_from rows
page_from-Holds max_rows line_h wrap consumed page y [] s = refl
page_from-Holds max_rows line_h wrap consumed page y (line ∷ more) s =
    let ws = wrap line.headline line.text in
    let h = max (line_h line.headline) 1 in
    let fit = (max_rows - y) / h in
    let n = max fit 1 in
    let r = rows wrap more in
    let top = page_lines line (take n ws) in
    let left = page_lines line (drop n ws) in
    elim (Bool-cases (length ws == 0)) [
      | inl none_there ↦ rw none_there (
          page_from-Holds max_rows line_h wrap (consumed + 1) (page ++ (line.headline, []) ∷ [])
            (y + h) more s
          ∙ append_assoc page ((line.headline, []) ∷ []) r
          ∙ ap (λ l. page ++ (l ++ r)) (sym (rows_of_blank line.headline ws none_there)))
      | inr some_there ↦ elim (Bool-cases (leb (length ws) fit)) [
        | inl fits ↦ rw some_there (
            rw fits (
              page_from-Holds max_rows line_h wrap (consumed + 1) (page ++ page_lines line ws)
                (y + length ws * h) more s
              ∙ append_assoc page (page_lines line ws) r
              ∙ ap (λ l. page ++ (l ++ r)) (sym (rows_of_some line.headline ws some_there))))
        | inr too_long ↦ elim (Bool-cases (consumed == 0)) [
          | inl at_top ↦ rw some_there (
              rw too_long (
                rw at_top (
                  ap (λ l. (page ++ top) ++ l)
                    (rows-append wrap (leftover line (drop n ws)) more
                      ∙ ap (λ l. l ++ r)
                          (rows-leftover wrap line.headline (drop n ws)
                            (All-drop _ n ws (s line.headline line.text))))
                  ∙ append_assoc page top (left ++ r)
                  ∙ ap (λ l. page ++ l) (sym (append_assoc top left r))
                  ∙ ap (λ l. page ++ (l ++ r))
                      (sym (map-append (λ w. (line.headline, w)) (take n ws) (drop n ws))
                        ∙ ap (λ l. page_lines line l) (take-append-drop n ws)
                        ∙ sym (rows_of_some line.headline ws some_there)))))
          | inr later ↦ rw some_there (rw too_long (rw later refl))
        ]
      ]
    ]

page_from_grows :
    (max_rows : ℕ) (line_h : Bool → ℕ) (wrap : Bool → List ℕ → List (List ℕ)) (consumed : ℕ)
    (page : List PageLine) (y : ℕ) (lines : List VcardLine)
    → length page ≤ length (page_from max_rows line_h wrap consumed page y lines).0
unfolding page_from
page_from_grows max_rows line_h wrap consumed page y [] = omega arith
page_from_grows max_rows line_h wrap consumed page y (line ∷ more) =
    let ws = wrap line.headline line.text in
    let h = max (line_h line.headline) 1 in
    let fit = (max_rows - y) / h in
    let n = max fit 1 in
    let one : List PageLine = (line.headline, []) ∷ [] in
    elim (Bool-cases (length ws == 0)) [
      | inl none_there ↦ rw none_there (
          omega (
            arith,
            length-append page one,
            page_from_grows max_rows line_h wrap (consumed + 1) (page ++ one) (y + h) more,
          ))
      | inr some_there ↦ rw some_there (elim (Bool-cases (leb (length ws) fit)) [
        | inl fits ↦ rw fits (
            omega (
              arith,
              length-append page (page_lines line ws),
              page_from_grows max_rows line_h wrap (consumed + 1) (page ++ page_lines line ws)
                  (y + length ws * h) more,
            ))
        | inr too_long ↦ rw too_long (elim (Bool-cases (consumed == 0)) [
          | inl at_top ↦ rw at_top (omega (arith, length-append page (page_lines line (take n ws))))
          | inr later ↦ rw later (omega arith)
        ])
      ])
    ]

length-page_lines :
    (line : VcardLine) (ws : List (List ℕ)) → length (page_lines line ws) ≡ length ws
length-page_lines line ws = length-map _ ws

-- A page of a text that is not empty is not empty.
pub paginate_progress :
    (max_rows : ℕ) (line_h : Bool → ℕ) (wrap : Bool → List ℕ → List (List ℕ)) (y : ℕ)
    (line : VcardLine) (more : List VcardLine)
    → 1 ≤ length (paginate max_rows line_h wrap (line ∷ more) y).0
unfolding paginate page_from
paginate_progress max_rows line_h wrap y line more =
    let ws = wrap line.headline line.text in
    let h = max (line_h line.headline) 1 in
    let fit = (max_rows - y) / h in
    let n = max fit 1 in
    let one : List PageLine = (line.headline, []) ∷ [] in
    elim (Bool-cases (length ws == 0)) [
      | inl none_there ↦
          rw none_there (omega (arith, page_from_grows max_rows line_h wrap 1 one (y + h) more))
      | inr some_there ↦
          let filled : 1 ≤ length ws = ground arith in
          rw some_there (elim (Bool-cases (leb (length ws) fit)) [
            | inl fits ↦ rw fits (
                omega (
                  arith,
                  filled,
                  length-page_lines line ws,
                  page_from_grows max_rows line_h wrap 1 (page_lines line ws) (y + length ws * h)
                      more,
                ))
            | inr too_long ↦
                rw too_long
                  (omega (arith, filled, length-page_lines line (take n ws), length-take n ws))
          ])
    ]

-- Page after page, `n` at most, each from row `y` on.
pub all_pages :
    ℕ → (Bool → ℕ) → (Bool → List ℕ → List (List ℕ)) → ℕ → ℕ → List VcardLine → List PageLine
all_pages max_rows line_h wrap y zero lines = []
all_pages max_rows line_h wrap y (suc n) [] = []
all_pages max_rows line_h wrap y (suc n) (line ∷ more) =
    let (page, _, rest) = paginate max_rows line_h wrap (line ∷ more) y in
    page ++ all_pages max_rows line_h wrap y n rest

rows_of_nonempty : (h : Bool) (ws : List (List ℕ)) → 1 ≤ length (rows_of h ws)
rows_of_nonempty h [] = omega arith
rows_of_nonempty h (w ∷ ws) = omega arith

rows_nonempty :
    (wrap : Bool → List ℕ → List (List ℕ)) (line : VcardLine) (more : List VcardLine)
    → 1 ≤ length (rows wrap (line ∷ more))
unfolding rows
rows_nonempty wrap line more =
    let r = rows_of line.headline (wrap line.headline line.text) in
    omega (
      arith,
      length-append r (rows wrap more),
      rows_of_nonempty line.headline (wrap line.headline line.text),
    )

paginate-Holds :
    (max_rows : ℕ) (line_h : Bool → ℕ) (wrap : Bool → List ℕ → List (List ℕ)) (y : ℕ)
    (lines : List VcardLine)
    → Settles wrap
    → Holds wrap (rows wrap lines) (paginate max_rows line_h wrap lines y)
unfolding paginate
paginate-Holds max_rows line_h wrap y lines s = page_from-Holds max_rows line_h wrap 0 [] y lines s

-- Dividing a text into pages loses no row, repeats none and keeps their order, and it ends: for any
-- height of the page and of the lines, as many pages as there are rows are enough. This is for a
-- wrapping that leaves each row that it made as it is.
pub all_pages-rows :
    (max_rows : ℕ) (line_h : Bool → ℕ) (wrap : Bool → List ℕ → List (List ℕ)) (y n : ℕ)
    (lines : List VcardLine)
    → Settles wrap
    → length (rows wrap lines) ≤ n
    → all_pages max_rows line_h wrap y n lines ≡ rows wrap lines
unfolding all_pages
all_pages-rows max_rows line_h wrap y zero [] s h = unfold rows in refl
all_pages-rows max_rows line_h wrap y zero (line ∷ more) s h =
    absurd (omega (arith, rows_nonempty wrap line more))
all_pages-rows max_rows line_h wrap y (suc n) [] s h = unfold rows in refl
all_pages-rows max_rows line_h wrap y (suc n) (line ∷ more) s h =
    let (page, _, rest) = paginate max_rows line_h wrap (line ∷ more) y in
    let whole = paginate-Holds max_rows line_h wrap y (line ∷ more) s in
    let some_rows = paginate_progress max_rows line_h wrap y line more in
    let size : length (rows wrap rest) ≤ n =
      omega (arith, ap length whole, length-append page (rows wrap rest), some_rows) in
    ap (λ l. page ++ l) (all_pages-rows max_rows line_h wrap y n rest s size) ∙ whole
