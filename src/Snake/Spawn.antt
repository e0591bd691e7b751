-- ===== src/Snake/Spawn.antt =====
-- The food placement: the scan of `spawn_food` meets a free cell whenever one is left.
use cdc_badge_plugins.Base.{ℕ, zero, suc, ◌+◌, ◌-◌, ◌*◌, ◌%◌, ◌^◌, ◌≤◌, ◌<◌, ◌≡◌, inl, inr}
use cdc_badge_plugins.Base.{false, List, length, Bool-cases}
use cdc_badge_plugins.Base.{All, Option, none, some, arith, ◌==◌, ltb, ltb→lt, u32}
use native.Mathlib.Nat.{mod-lt}
use cdc_badge_plugins.Snake.{
  Cell, Game, Scan, found, rest, on_snake, scan_row, scan_rows, spawn_food, next, below,
}
use cdc_badge_plugins.Snake.Grid.{Inside, IsNodup, free_row, free_rows, free_rows_count}

-- `r` is a free cell of the run, met by the scan.
record Finds (s : List Cell) (lo hi y0 y1 : ℕ) (r : Scan) : Type 0 where
  pub cell : Cell
  pub hit : r ≡ found cell
  pub free : on_snake s cell ≡ false
  pub left : lo ≤ cell.0
  pub right : cell.0 < hi
  pub top : y0 ≤ cell.1
  pub bottom : cell.1 < y1

scan_row-Finds :
    (s : List Cell) (k x y t : ℕ)
    → t < free_row s k x y
    → Finds s x (x + k) y (y + 1) (scan_row s k x y t)
unfolding scan_row free_row
scan_row-Finds s zero x y t h = absurd (omega arith)
scan_row-Finds s (suc k) x y t h = elim (Bool-cases (on_snake s (x, y))) [
  | inl on ↦
      let later = scan_row-Finds s k (x + 1) y t (ground arith) in
      record {
        cell = later.cell;
        hit = rw on later.hit;
        free = later.free;
        left = omega (arith, later.left);
        right = omega (arith, later.right);
        top = later.top;
        bottom = later.bottom;
      }
  | inr off ↦ elim (Bool-cases (t == 0)) [
    | inl now ↦ record {
      cell = (x, y);
      hit = rw (off, now);
      free = off;
      left = omega arith;
      right = omega arith;
      top = omega arith;
      bottom = omega arith;
    }
    | inr wait ↦
        let later = scan_row-Finds s k (x + 1) y (t - 1) (ground arith) in
        record {
          cell = later.cell;
          hit = rw (off, wait) later.hit;
          free = later.free;
          left = omega (arith, later.left);
          right = omega (arith, later.right);
          top = later.top;
          bottom = later.bottom;
        }
  ]
]

scan_row_passes :
    (s : List Cell) (k x y t : ℕ)
    → free_row s k x y ≤ t
    → scan_row s k x y t ≡ rest (t - free_row s k x y)
unfolding scan_row free_row
scan_row_passes s zero x y t h = ground arith
scan_row_passes s (suc k) x y t h =
    ground (arith, scan_row_passes s k (x + 1) y t, scan_row_passes s k (x + 1) y (t - 1))

scan_rows-Finds :
    (s : List Cell) (w k y t : ℕ)
    → t < free_rows s w k y
    → Finds s 0 w y (y + k) (scan_rows s w k y t)
unfolding scan_rows free_rows
scan_rows-Finds s w zero y t h = absurd (omega arith)
scan_rows-Finds s w (suc k) y t h = elim (Bool-cases (ltb t (free_row s w 0 y))) [
  | inl here ↦
      let now = scan_row-Finds s w 0 y t (ltb→lt _ _ here) in
      record {
        cell = now.cell;
        hit = rw (now.hit, scan_rows);
        free = now.free;
        left = now.left;
        right = omega (arith, now.right);
        top = now.top;
        bottom = omega (arith, now.bottom);
      }
  | inr later_row ↦
      let pass = scan_row_passes s w 0 y t (ground arith) in
      let later = scan_rows-Finds s w k (y + 1) (t - free_row s w 0 y) (ground arith) in
      record {
        cell = later.cell;
        hit = rw (pass, scan_rows) later.hit;
        free = later.free;
        left = later.left;
        right = later.right;
        top = omega (arith, later.top);
        bottom = omega (arith, later.bottom);
      }
]

-- What the grid needs for a placement: sides that fit u8, and a body in it with no cell twice.
pub record Placeable (g : Game) : Type 0 where
  pub wide : g.w < 2 ^ 8
  pub high : g.h < 2 ^ 8
  pub inside : All (Inside g.w g.h) g.snake
  pub nodup : IsNodup g.snake

-- The food stands on a free cell of the grid, or there is none because the snake fills the grid.
abbrev pub FoodAt : ℕ → ℕ → List Cell → Option Cell → Type 0
FoodAt w h s none = length s ≡ w * h
FoodAt w h s (some c) = Inside w h c × (on_snake s c ≡ false) × (length s < w * h)

abbrev pub FoodFits : Game → Type 0
FoodFits g = FoodAt g.w g.h g.snake g.food

area_lt : (w h : ℕ) → w < 2 ^ 8 → h < 2 ^ 8 → w * h < 2 ^ 16
area_lt w h p q = grind arith

pub length-le-area : {g : Game} → Placeable g → length g.snake ≤ g.w * g.h
length-le-area {g} p = omega (arith, free_rows_count g.w g.h g.snake p.inside p.nodup)

pub area_bound : {g : Game} → Placeable g → g.w * g.h < 2 ^ 16
area_bound {g} p = area_lt g.w g.h p.wide p.high

-- The subtraction does not wrap: it counts the free cells.
free_lem :
    (g : Game)
    → Placeable g
    → u32 (g.w * g.h + 2 ^ 32 - length g.snake) ≡ free_rows g.snake g.w g.h 0
free_lem g p = omega (arith, free_rows_count g.w g.h g.snake p.inside p.nodup, area_bound p)

-- `spawn_food` puts the food on a cell that is inside the grid and off the snake; there is no food
-- afterwards only if the snake fills the grid. The fallback at the end of the scan is never reached.
pub spawn_food-FoodFits : (g : Game) → Placeable g → FoodFits (spawn_food g)
unfolding spawn_food below
spawn_food-FoodFits g p =
    let n = free_rows g.snake g.w g.h 0 in
    let count = free_rows_count g.w g.h g.snake p.inside p.nodup in
    elim (Bool-cases (n == 0)) [
      | inl full ↦ rw (free_lem g p, full) (ground arith)
      | inr room ↦
          let t = (next g.rng).0 % n in
          let f = scan_rows-Finds g.snake g.w g.h 0 t (mod-lt _ (ground arith)) in
          rw (free_lem g p, room, f.hit) ((f.right, omega (arith, f.bottom)), f.free, ground arith)
    ]
