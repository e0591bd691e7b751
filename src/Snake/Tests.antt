-- ===== src/Snake/Tests.antt =====
-- Runs of a small game, and the theorems at inputs that meet their hypotheses.
use cdc_badge_plugins.Base.{ℕ, ◌≡◌, refl, some, none, true, false, Option, [], ◌∷◌, arith}
use cdc_badge_plugins.Base.Xorshift.{xorshift}
use cdc_badge_plugins.Snake.{
  Game, Direction, north, east, south, west, StepOutcome, start, step, steer, moved, ate, crashed,
}
use cdc_badge_plugins.Snake.{seeded, next, below, opening, scan_row, scan_rows, scanned, spawn_food}
use cdc_badge_plugins.Snake.{delta, dir_eq, opposite, head_of, back, pop_back, pop_front, back_or}
use cdc_badge_plugins.Snake.{apply_pending, turned, ahead, off_grid, as_cell, hits_body, advance}
use cdc_badge_plugins.Snake.Spawn.{Placeable, FoodFits, spawn_food-FoodFits}
use cdc_badge_plugins.Snake.Valid.{IsValid}
use cdc_badge_plugins.Snake.Play.{opened, steered, stepped, Moves, Play-IsValid, step-Moves}

abbrev small : Game
small = record {
  w = 8;
  h = 4;
  snake = (4, 2) ∷ (3, 2) ∷ (2, 2) ∷ [];
  dir = east;
  pending = [];
  food = some (5, 2);
  score = 0;
  alive = true;
  rng = record { state = 1 };
}

-- The operations with all that they call open, for the runs.
run_start : ℕ → ℕ → ℕ → Option Game
unfolding xorshift start opening seeded spawn_food below next scan_rows scan_row scanned
run_start w h seed = start w h seed

run_steer : Game → Direction → Game
unfolding steer back_or back pop_front dir_eq opposite
run_steer g d = steer g d

run_step : Game → Game × StepOutcome
unfolding step turned apply_pending dir_eq opposite advance ahead delta off_grid as_cell head_of
    hits_body back pop_back run_start
run_step g = step g

abbrev first : Game
first = record small { food = some (2, 0); rng = record { state = 270369 } }

started : start 8 4 1 ≡ some first
unfolding run_start
started = refl

too_narrow : start 7 4 1 ≡ none
unfolding run_start
too_narrow = refl

grows : step small ≡ (
  record small {
    snake = (5, 2) ∷ (4, 2) ∷ (3, 2) ∷ (2, 2) ∷ [];
    food = some (1, 0);
    score = 10;
    rng = record { state = 270369 };
  },
  ate,
)
unfolding run_step
grows = refl

-- The third of three quick turns evicts the first, and the second would turn back: south it is.
hook :
    step (steer (steer (steer small north) west) south)
    ≡ (record small { snake = (4, 3) ∷ (4, 2) ∷ (3, 2) ∷ []; dir = south }, moved)
unfolding run_step run_steer
hook = refl

abbrev at_wall : Game
at_wall = record small { snake = (7, 2) ∷ (6, 2) ∷ (5, 2) ∷ [] }

crash_east : step at_wall ≡ (record at_wall { alive = false }, crashed)
unfolding run_step
crash_east = refl

-- A body of four that circles a block enters the cell that its tail leaves.
circle :
    (step (record small { snake = (1, 1) ∷ (2, 1) ∷ (2, 2) ∷ (1, 2) ∷ []; dir = south })).1 ≡ moved
unfolding run_step
circle = refl

small-Placeable : Placeable small
small-Placeable = record {
  wide = omega arith;
  high = omega arith;
  inside = omega arith;
  nodup = (refl, (refl, (refl, tt)));
}

small-IsValid : IsValid small
small-IsValid = record {
  sound = record {
    placeable = small-Placeable;
    long = omega arith;
    joined = ((east, omega arith), ((east, omega arith), tt));
    queue = omega arith;
    counted = omega arith;
    fed = (omega arith, refl, omega arith);
    seed = record { fits = omega arith; nonzero = omega arith };
  };
  faces = λ _. omega arith;
}

Play-IsValid_example : IsValid (step (steer first north)).0
Play-IsValid_example =
    Play-IsValid
      (stepped (steered north (opened 8 4 1 (omega arith) (omega arith) (omega arith) started)))

step-Moves_example : Moves (turned small) (step small).0 (step small).1
step-Moves_example = step-Moves small small-IsValid refl

spawn_food-FoodFits_example : FoodFits (spawn_food small)
spawn_food-FoodFits_example = spawn_food-FoodFits small small-Placeable
