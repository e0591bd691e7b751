-- ===== src/Scanner/Screen.antt =====
-- The list on the screen, `render` in plugins/ble_scanner/src/lib.rs. `build_desired` makes one row for
-- each device, with a label and an icon that are arguments; the edits of the list on the screen are
-- those of `order`, so that one list stands for both. A row that is put behind
-- the end, which would panic, goes to the end; Screen.Order shows that the order is as desired. Proofs
-- are in the modules below.
pub mod Place
pub mod Order
use package.cdc_badge_plugins.Base.{
  ℕ, zero, suc, ◌+◌, Bool, true, false, not, ◌||◌, ◌==◌, if◌then◌else◌, Option, none, some, List,
  [], ◌∷◌, ◌++◌, map, any, retain,
}
use package.cdc_badge_plugins.Base.Bytes.{str_eq}
use package.cdc_badge_plugins.Scanner.{Device}

pub record Row : Type 0 where
  pub row_addr : List ℕ
  pub label : List ℕ
  pub icon : ℕ

unfoldable pub insert_at : ℕ → Row → List Row → List Row
insert_at zero d rows = d ∷ rows
insert_at (suc i) d [] = d ∷ []
insert_at (suc i) d (r ∷ rows) = r ∷ insert_at i d rows

unfoldable pub remove_at : ℕ → List Row → List Row
remove_at i [] = []
remove_at zero (r ∷ rows) = rows
remove_at (suc i) (r ∷ rows) = r ∷ remove_at i rows

-- `iter().position(|r| r.addr == addr)`.
unfoldable pub position : List ℕ → List Row → Option ℕ
position addr [] = none
position addr (r ∷ rows) =
    let rest = position addr rows in
    if str_eq r.row_addr addr then some 0 else elim rest [ none ↦ none | some j ↦ some (suc j) ]

unfoldable pub listed : List Row → List ℕ → Bool
listed rows addr = any (λ d. str_eq d.row_addr addr) rows

-- `order[i] = d` when the label or the icon has changed.
unfoldable pub refresh_row : ℕ → Row → List Row → List Row
refresh_row i d [] = []
refresh_row zero d (r ∷ rows) =
    if not (str_eq r.label d.label) || not (r.icon == d.icon) then d ∷ rows else r ∷ rows
refresh_row (suc i) d (r ∷ rows) = r ∷ refresh_row i d rows

-- One round of the second loop.
unfoldable pub place : ℕ → Row → List Row → List Row
place i d order = elim (position d.row_addr order) [
  | none ↦ insert_at i d order
  | some j ↦ if not (j == i) then insert_at i d (remove_at j order) else refresh_row i d order
]

unfoldable pub place_all : ℕ → List Row → List Row → List Row
place_all i [] order = order
place_all i (d ∷ desired) order = place_all (i + 1) desired (place i d order)

-- The rows without a device go first, from the end; then every row is put in its place.
unfoldable pub render_rows : List Row → List Row → List Row
render_rows desired [] = desired
render_rows desired (r ∷ order) =
    place_all 0 desired (retain (λ o. listed desired o.row_addr) (r ∷ order))

unfoldable pub build_desired : (Device → List ℕ) → (Device → ℕ) → List Device → List Row
build_desired make_label icon_for devices =
    map (λ d. record { row_addr = d.addr; label = make_label d; icon = icon_for d }) devices
