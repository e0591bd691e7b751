-- ===== src/Snake/Grid.antt =====
-- Cells of the grid: the ones inside it, bodies with no cell twice, and how many cells are free.
use cdc_badge_plugins.Base.{ℕ, zero, suc, ◌+◌, ◌*◌, ◌≤◌, ◌<◌, ◌≡◌, refl, ◌≢◌, ◌⊎◌}
use cdc_badge_plugins.Base.{true, false, if◌then◌else◌, List, [], ◌∷◌, length}
use cdc_badge_plugins.Base.{All, arith}
use cdc_badge_plugins.Snake.{Cell, cell_eq, on_snake}

abbrev pub Inside : ℕ → ℕ → Cell → Type 0
Inside w h (x, y) = (x < w) × (y < h)

abbrev pub IsNodup : List Cell → Type 0
IsNodup [] = Unit
IsNodup (c ∷ s) = (on_snake s c ≡ false) × IsNodup s

pub cell_eq_self : (c : Cell) → cell_eq c c ≡ true
cell_eq_self (x, y) = ground arith

pub cell_eq→≡ : (c d : Cell) → cell_eq c d ≡ true → c ≡ d
cell_eq→≡ (a, b) (c, d) e = ground arith

pub cell_eq_comm : (c d : Cell) → cell_eq c d ≡ cell_eq d c
cell_eq_comm (a, b) (c, d) = ground arith

-- The free cells among the `k` cells from (x, y) on, and of the `k` rows from `y` on.
unfoldable pub free_row : List Cell → ℕ → ℕ → ℕ → ℕ
free_row s zero x y = 0
free_row s (suc k) x y = (if on_snake s (x, y) then 0 else 1) + free_row s k (x + 1) y

unfoldable pub free_rows : List Cell → ℕ → ℕ → ℕ → ℕ
free_rows s w zero y = 0
free_rows s w (suc k) y = free_row s w 0 y + free_rows s w k (y + 1)

free_row_none : (k x y : ℕ) → free_row [] k x y ≡ k
unfolding free_row
free_row_none zero x y = refl
free_row_none (suc k) x y = omega (arith, free_row_none k (x + 1) y)

free_rows_none : (w k y : ℕ) → free_rows [] w k y ≡ w * k
unfolding free_rows
free_rows_none w zero y = omega arith
free_rows_none w (suc k) y = omega (arith, free_row_none w 0 y, free_rows_none w k (y + 1))

-- A body cell off the run changes nothing, one on it takes one away.
free_row_off :
    (s : List Cell) (a b k x y : ℕ)
    → (b ≢ y) ⊎ ((a < x) ⊎ (x + k ≤ a))
    → free_row ((a, b) ∷ s) k x y ≡ free_row s k x y
unfolding free_row
free_row_off s a b zero x y o = refl
free_row_off s a b (suc k) x y o = ground (arith, free_row_off s a b k (x + 1) y)

free_row_on :
    (s : List Cell) (a y k x : ℕ)
    → on_snake s (a, y) ≡ false
    → x ≤ a
    → a < x + k
    → free_row ((a, y) ∷ s) k x y + 1 ≡ free_row s k x y
unfolding free_row
free_row_on s a y zero x e p q = absurd (omega arith)
free_row_on s a y (suc k) x e p q =
    ground (arith, free_row_on s a y k (x + 1), free_row_off s a y k (x + 1) y)

free_rows_off :
    (s : List Cell) (a b w k y : ℕ)
    → (b < y) ⊎ (y + k ≤ b)
    → free_rows ((a, b) ∷ s) w k y ≡ free_rows s w k y
unfolding free_rows
free_rows_off s a b w zero y o = refl
free_rows_off s a b w (suc k) y o =
    ground (arith, free_rows_off s a b w k (y + 1), free_row_off s a b w 0 y)

free_rows_on :
    (s : List Cell) (a b w k y : ℕ)
    → on_snake s (a, b) ≡ false
    → a < w
    → y ≤ b
    → b < y + k
    → free_rows ((a, b) ∷ s) w k y + 1 ≡ free_rows s w k y
unfolding free_rows
free_rows_on s a b w zero y e p q r = absurd (omega arith)
free_rows_on s a b w (suc k) y e p q r = ground (
  arith,
  free_rows_on s a b w k (y + 1),
  free_rows_off s a b w k (y + 1),
  free_row_on s a b w 0,
  free_row_off s a b w 0 y,
)

-- A body inside the grid with no cell twice leaves exactly the other cells free.
pub free_rows_count :
    (w h : ℕ) (s : List Cell)
    → All (Inside w h) s
    → IsNodup s
    → free_rows s w h 0 + length s ≡ w * h
free_rows_count w h [] i n = omega (arith, free_rows_none w h 0)
free_rows_count w h ((a, b) ∷ s) i n = omega (
  arith,
  free_rows_on s a b w h 0 n.0 i.0.0 (omega arith) (omega arith),
  free_rows_count w h s i.1 n.1,
)
