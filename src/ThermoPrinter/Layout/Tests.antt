-- ===== src/ThermoPrinter/Layout/Tests.antt =====
-- Pages of a small text with a wrapping to two bytes, and the theorem at it.
use cdc_badge_plugins.Base.{ℕ, ◌≡◌, refl, Bool, true, false, List, [], ◌∷◌, arith}
use cdc_badge_plugins.ThermoPrinter.Layout.{VcardLine, Page, page_from, paginate}
use cdc_badge_plugins.ThermoPrinter.Layout.Pages.{rows, Settles, all_pages, all_pages-rows}

-- Rows of two bytes each.
pairs : Bool → List ℕ → List (List ℕ)
pairs h [] = []
pairs h (a ∷ []) = (a ∷ []) ∷ []
pairs h (a ∷ b ∷ l) = (a ∷ b ∷ []) ∷ pairs h l

pairs-Settles : Settles pairs
unfolding pairs
pairs-Settles h [] = tt
pairs-Settles h (a ∷ []) = (refl, tt)
pairs-Settles h (a ∷ b ∷ l) = (refl, pairs-Settles h l)

abbrev text : List VcardLine
text =
    record { headline = true; text = 1 ∷ 2 ∷ 3 ∷ 4 ∷ 5 ∷ [] }
    ∷ record { headline = false; text = [] }
    ∷ record { headline = false; text = 6 ∷ [] }
    ∷ []

run_paginate : List VcardLine → Page
unfolding paginate page_from pairs
run_paginate lines = paginate 20 (λ h. 10) pairs lines 0

-- The first line does not fit on the page: two rows of it, and the third is queued.
split : run_paginate text ≡ (
  (true, 1 ∷ 2 ∷ []) ∷ (true, 3 ∷ 4 ∷ []) ∷ [],
  20,
  record { headline = true; text = 5 ∷ [] }
      ∷ record { headline = false; text = [] }
      ∷ record { headline = false; text = 6 ∷ [] }
      ∷ [],
)
unfolding run_paginate
split = refl

all_pages-rows_example : all_pages 20 (λ h. 10) pairs 0 5 text ≡ rows pairs text
unfolding rows pairs
all_pages-rows_example = all_pages-rows 20 (λ h. 10) pairs 0 5 text pairs-Settles (omega arith)
