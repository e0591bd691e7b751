-- ===== src/Scanner/Screen/Order.antt =====
-- After `render` the list on the screen is the desired one.
use cdc_badge_plugins.Base.{
  ℕ, ◌+◌, Bool, true, false, ◌||◌, ◌≡◌, refl, ap, sym, ◌∙◌, List, [], ◌∷◌, ◌++◌, length, retain,
  All, All-append, All-both, All-retain, retain-All, arith, if-elim, length-append,
}
use mathlib.Core.List.{append_assoc}
use cdc_badge_plugins.Base.Bytes.{str_eq, str_eq_comm}
use cdc_badge_plugins.Scanner.Screen.{Row, listed, place_all, render_rows}
use cdc_badge_plugins.Scanner.Screen.Place.{
  Fresh, IsOrder, remove_first, remove_first-IsOrder, remove_first-gone, place-done,
}

-- Rows that are still to be placed.
Wanted : List Row → List Row → Type 0
Wanted desired = All (λ r. listed desired r.row_addr ≡ true)

Wanted-none : (rest : List Row) → Wanted [] rest → rest ≡ []
unfolding Wanted listed
Wanted-none [] h = refl
Wanted-none (r ∷ rest) h = absurd (ground (arith, h.0))

second : (a b : Bool) → (a || b) ≡ true → a ≡ false → b ≡ true
second true b w e = absurd (ground arith)
second false b w e = w

Wanted-later :
    (d : Row) (desired rest : List Row)
    → Wanted (d ∷ desired) rest
    → Fresh d.row_addr rest
    → Wanted desired rest
unfolding Wanted Fresh listed
Wanted-later d desired rest h g =
    All-both rest
      (λ r w f.
        let apart : str_eq d.row_addr r.row_addr ≡ false = str_eq_comm d.row_addr r.row_addr ∙ f in
        second (str_eq d.row_addr r.row_addr) (listed desired r.row_addr) w apart)
      h g

remove_first-All :
    (P : Row → Type 0) (addr : List ℕ) (rows : List Row)
    → All P rows
    → All P (remove_first addr rows)
unfolding remove_first
remove_first-All P addr [] h = tt
remove_first-All P addr (r ∷ rows) h =
    if-elim (All P) (str_eq r.row_addr addr) _ _ (λ e. h.1)
      (λ e. (h.0, remove_first-All P addr rows h.1))

-- The desired rows that are left do not stand among those that are done.
Apart : List Row → List Row → Type 0
Apart p = All (λ d. Fresh d.row_addr p)

Apart-snoc :
    (d : Row) (p desired : List Row)
    → Apart p desired
    → Fresh d.row_addr desired
    → Apart (p ++ d ∷ []) desired
unfolding Apart Fresh
Apart-snoc d p desired h g =
    All-both desired
      (λ t f e.
        All-append (λ r. str_eq r.row_addr t.row_addr ≡ false) p (d ∷ []) f
          (str_eq_comm d.row_addr t.row_addr ∙ e, tt))
      h g

place_all-done :
    (desired p rest : List Row)
    → IsOrder desired
    → Apart p desired
    → IsOrder rest
    → Wanted desired rest
    → place_all (length p) desired (p ++ rest) ≡ p ++ desired
unfolding place_all IsOrder Apart Wanted
place_all-done [] p rest o a u w = ap (λ l. p ++ l) (Wanted-none rest w)
place_all-done (d ∷ desired) p rest o a u w =
    let rest' = remove_first d.row_addr rest in
    let next : length p + 1 ≡ length (p ++ d ∷ []) = sym (length-append p (d ∷ [])) in
    ap (place_all (length p + 1) desired)
      (place-done d p rest a.0 ∙ sym (append_assoc p (d ∷ []) rest'))
    ∙ ap (λ i. place_all i desired ((p ++ d ∷ []) ++ rest')) next
    ∙ place_all-done desired (p ++ d ∷ []) rest' o.1 (Apart-snoc d p desired a.1 o.0)
        (remove_first-IsOrder d.row_addr rest u)
        (Wanted-later d desired rest'
          (remove_first-All (λ r. listed (d ∷ desired) r.row_addr ≡ true) d.row_addr rest w)
          (remove_first-gone d.row_addr rest u))
    ∙ append_assoc p (d ∷ []) desired

retain-IsOrder : (q : Row → Bool) (rows : List Row) → IsOrder rows → IsOrder (retain q rows)
unfolding IsOrder Fresh
retain-IsOrder q [] h = tt
retain-IsOrder q (r ∷ rows) h =
    let rest = retain-IsOrder q rows h.1 in
    if-elim IsOrder (q r) _ _
      (λ e. (All-retain (λ t. str_eq t.row_addr r.row_addr ≡ false) q rows h.0, rest)) (λ e. rest)

all-Apart : (desired : List Row) → Apart [] desired
unfolding Apart Fresh
all-Apart [] = tt
all-Apart (d ∷ desired) = (tt, all-Apart desired)

-- Whatever was on the screen, the edits end with exactly the desired rows in the desired order, if
-- neither list has two rows for an address.
pub render_rows-desired :
    (desired order : List Row)
    → IsOrder desired
    → IsOrder order
    → render_rows desired order ≡ desired
unfolding render_rows Wanted listed
render_rows-desired desired [] o u = refl
render_rows-desired desired (r ∷ order) o u =
    place_all-done desired [] (retain (λ t. listed desired t.row_addr) (r ∷ order)) o
      (all-Apart desired) (retain-IsOrder (λ t. listed desired t.row_addr) (r ∷ order) u)
      (retain-All (λ t. listed desired t.row_addr) (r ∷ order))
