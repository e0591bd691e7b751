-- ===== src/ThermoPrinter/Layout.antt =====
-- The pages of a text, `paginate` in plugins/thermo_printer/src/layout.rs. A text is its UTF-8 bytes;
-- the height of a line and the wrapping are arguments, as in the source. The rows are those of a
-- page, which starts at a row that is not negative, and a line height below 1 counts as 1, so that
-- natural numbers stand for i32. Proofs are in the modules below.
pub mod Pages
mod Tests
use package.cdc_badge_plugins.Base.{
  ℕ, zero, suc, ◌+◌, ◌-◌, ◌*◌, ◌/◌, max, Bool, leb, ◌==◌, if◌then◌else◌, List, [], ◌∷◌, ◌++◌, map,
  length, take, drop,
}

pub record VcardLine : Type 0 where
  pub headline : Bool
  pub text : List ℕ

abbrev pub PageLine : Type 0
PageLine = Bool × List ℕ

-- The page, its final row, and the lines that are left.
abbrev pub Page : Type 0
Page = List PageLine × ℕ × List VcardLine

abbrev pub page_lines : VcardLine → List (List ℕ) → List PageLine
page_lines line rows = map (λ w. (line.headline, w)) rows

-- The leftover rows of a split line, queued as lines of their own.
abbrev pub leftover : VcardLine → List (List ℕ) → List VcardLine
leftover line rows = map (λ w. record { headline = line.headline; text = w }) rows

module _ (max_rows : ℕ) (line_h : Bool → ℕ) (wrap : Bool → List ℕ → List (List ℕ)) where
  -- The loop, with `consumed` lines behind it and the rest in front.
  pub page_from : ℕ → List PageLine → ℕ → List VcardLine → Page
  page_from consumed page y [] = (page, y, [])
  page_from consumed page y (line ∷ more) =
      let h = max (line_h line.headline) 1 in
      let wrapped = wrap line.headline line.text in
      let fit = (max_rows - y) / h in
      let n = max fit 1 in
      let blank = page_from (consumed + 1) (page ++ (line.headline, []) ∷ []) (y + h) more in
      let whole =
        page_from (consumed + 1) (page ++ page_lines line wrapped) (y + length wrapped * h) more in
      if length wrapped == 0
      then blank
      else if leb (length wrapped) fit
      then whole
      else if consumed == 0
      then (
        page ++ page_lines line (take n wrapped),
        y + n * h,
        leftover line (drop n wrapped) ++ more,
      )
      else (page, y, line ∷ more)

  pub paginate : List VcardLine → ℕ → Page
  paginate lines y0 = page_from 0 [] y0 lines
