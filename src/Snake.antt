-- ===== src/Snake.antt =====
-- The snake game's pure logic, plugins/snake/src/game.rs: the grid, the steering buffer, one step,
-- the food placement and the speed levels. A method that takes `&mut self` returns the new game
-- beside its result. Proofs are in the modules below.
pub mod Grid
pub mod Spawn
pub mod Steering
pub mod Valid
pub mod Body
pub mod Stepping
pub mod Play
mod Tests
pub mod Speed
use package.cdc_badge_plugins.Base.{ℕ, zero, suc, ◌+◌, ◌-◌, ◌*◌, ◌/◌, ◌%◌, ◌^◌, min, max}
use package.cdc_badge_plugins.Base.{Bool, true, false, not, ◌&&◌, ◌||◌, ltb, leb, ◌==◌}
use package.cdc_badge_plugins.Base.{if◌then◌else◌, Option, none, some, List, [], ◌∷◌, ◌++◌}
use package.cdc_badge_plugins.Base.{length, any, get_or, u8, u32}
use package.cdc_badge_plugins.Base.Int.{ℤ, pos, negsuc, pos_part, ◌+ℤ◌, ltb_ℤ, leb_ℤ}
use package.cdc_badge_plugins.Base.Xorshift.{xorshift}

abbrev pub points_per_food : ℕ
points_per_food = 10

abbrev pub start_length : ℕ
start_length = 3

abbrev pub speed_levels : ℕ
speed_levels = 5

abbrev pub step_interval_table : List ℕ
step_interval_table = 1600 ∷ 1200 ∷ 900 ∷ 650 ∷ 450 ∷ []

abbrev pub max_pending : ℕ
max_pending = 2

abbrev pub min_grid_w : ℕ
min_grid_w = 8

abbrev pub min_grid_h : ℕ
min_grid_h = 4

pub data Direction : Type 0 where
  north east south west : Direction

pub opposite : Direction → Direction
opposite north = south
opposite east = west
opposite south = north
opposite west = east

-- The derived `PartialEq`.
pub dir_eq : Direction → Direction → Bool
dir_eq north north = true
dir_eq east east = true
dir_eq south south = true
dir_eq west west = true
dir_eq _ _ = false

pub delta : Direction → ℤ × ℤ
delta north = (pos 0, negsuc 0)
delta east = (pos 1, pos 0)
delta south = (pos 0, pos 1)
delta west = (negsuc 0, pos 0)

pub data StepOutcome : Type 0 where
  moved ate crashed : StepOutcome

pub record XorShift32 : Type 0 where
  pub state : ℕ

-- `XorShift32::new`.
pub seeded : ℕ → XorShift32
seeded seed = record { state = if seed == 0 then 0x9E37_79B9 else seed }

pub next : XorShift32 → ℕ × XorShift32
next r = let x = xorshift r.state in (x, record { state = x })

pub below : XorShift32 → ℕ → ℕ × XorShift32
below r bound = let (x, r') = next r in (x % bound, r')

abbrev pub Cell : Type 0
Cell = ℕ × ℕ

abbrev pub cell_eq : Cell → Cell → Bool
cell_eq (a, b) (c, d) = a == c && b == d

-- `==` of two `Option<(u8, u8)>`.
abbrev pub opt_cell_eq : Option Cell → Option Cell → Bool
opt_cell_eq none none = true
opt_cell_eq (some c) (some d) = cell_eq c d
opt_cell_eq _ _ = false

pub record Game : Type 0 where
  pub w : ℕ
  pub h : ℕ
  pub snake : List Cell
  pub dir : Direction
  pub pending : List Direction
  pub food : Option Cell
  pub score : ℕ
  pub alive : Bool
  pub rng : XorShift32

-- `snake.iter().any(|&c| c == cell)`.
abbrev pub on_snake : List Cell → Cell → Bool
on_snake s cell = any (λ c. cell_eq c cell) s

-- What the scan of `spawn_food` ends with: a cell, or the target that is left.
pub data Scan : Type 0 where
  found : Cell → Scan
  rest : ℕ → Scan

-- The inner loop over x, with `k` cells to go.
pub scan_row : List Cell → ℕ → ℕ → ℕ → ℕ → Scan
scan_row s zero x y target = rest target
scan_row s (suc k) x y target =
    let skip = scan_row s k (x + 1) y target in
    let count = scan_row s k (x + 1) y (target - 1) in
    if on_snake s (x, y) then skip else if target == 0 then found (x, y) else count

-- The outer loop over y, with `k` rows to go.
pub scan_rows : List Cell → ℕ → ℕ → ℕ → ℕ → Scan
scan_rows s w zero y target = rest target
scan_rows s w (suc k) y target = elim (scan_row s w 0 y target) [
  | found c ↦ found c
  | rest t ↦ scan_rows s w k (y + 1) t
]

pub scanned : Scan → Option Cell
scanned (found c) = some c
scanned (rest t) = none

-- The subtraction wraps as u32 does.
pub spawn_food : Game → Game
unfolding scan_rows scanned
spawn_food g =
    let free = u32 (g.w * g.h + 2 ^ 32 - length g.snake) in
    let (target, rng') = below g.rng free in
    if free == 0
    then record g { food = none }
    else record g { food = scanned (scan_rows g.snake g.w g.h 0 target); rng = rng' }

-- The literal in `Game::new`, before the food is placed.
pub opening : ℕ → ℕ → ℕ → Game
opening w h seed =
    let cx = w / 2 in
    let cy = h / 2 in
    record {
      w = w;
      h = h;
      snake = (cx, cy) ∷ (cx - 1, cy) ∷ (cx - 2, cy) ∷ [];
      dir = east;
      pending = [];
      food = none;
      score = 0;
      alive = true;
      rng = seeded seed;
    }

-- `Game::new`.
pub start : ℕ → ℕ → ℕ → Option Game
start w h seed =
    if ltb w min_grid_w || ltb h min_grid_h then none else some (spawn_food (opening w h seed))

-- `front().copied().unwrap_or((0, 0))`.
pub head_of : List Cell → Cell
head_of [] = (0, 0)
head_of (c ∷ s) = c

-- `back().copied()`.
pub back {ℓ} : {A : Type ℓ} → List A → Option A
back [] = none
back (x ∷ []) = some x
back (x ∷ y ∷ l) = back (y ∷ l)

-- `pop_back`, and `pop_front` where the front is dropped.
pub pop_back {ℓ} : {A : Type ℓ} → List A → List A
pop_back [] = []
pop_back (x ∷ []) = []
pop_back (x ∷ y ∷ l) = x ∷ pop_back (y ∷ l)

pub pop_front {ℓ} : {A : Type ℓ} → List A → List A
pop_front [] = []
pop_front (x ∷ l) = l

pub back_or : List Direction → Direction → Direction
unfolding back
back_or l d = elim (back l) [ none ↦ d | some x ↦ x ]

pub steer : Game → Direction → Game
steer g d =
    let effective = back_or g.pending g.dir in
    let queue = g.pending ++ d ∷ [] in
    if not g.alive
    then g
    else if dir_eq d effective || dir_eq d (opposite effective)
    then g
    else record g { pending = if ltb max_pending (length queue) then pop_front queue else queue }

-- The `while let` over the buffer: the direction and the entries left.
pub apply_pending : Direction → List Direction → Direction × List Direction
apply_pending cur [] = (cur, [])
apply_pending cur (d ∷ l) =
    if dir_eq d cur || dir_eq d (opposite cur) then apply_pending cur l else (d, l)

pub turned : Game → Game
turned g = let (d, l) = apply_pending g.dir g.pending in record g { dir = d; pending = l }

-- The coordinates of the cell ahead of a head, as i16.
pub ahead : Direction → Cell → ℤ × ℤ
ahead d (hx, hy) = let (dx, dy) = delta d in (pos hx +ℤ dx, pos hy +ℤ dy)

pub off_grid : ℕ → ℕ → ℤ × ℤ → Bool
off_grid w h (nx, ny) = ltb_ℤ nx (pos 0) || ltb_ℤ ny (pos 0) || leb_ℤ (pos w) nx || leb_ℤ (pos h) ny

pub hits_body : List Cell → Cell → Bool → Bool
unfolding back
hits_body s c eats = any (λ b. cell_eq b c && (eats || not (opt_cell_eq (some b) (back s)))) s

-- The `as u8` casts of the coordinates.
pub as_cell : ℤ × ℤ → Cell
as_cell (nx, ny) = (u8 (pos_part nx), u8 (pos_part ny))

-- `step` below the turn: the wall, the body, then the move.
pub advance : Game → Game × StepOutcome
advance g =
    let target = ahead g.dir (head_of g.snake) in
    let new_head = as_cell target in
    let eats = opt_cell_eq g.food (some new_head) in
    let grown = new_head ∷ g.snake in
    if off_grid g.w g.h target
    then (record g { alive = false }, crashed)
    else if hits_body g.snake new_head eats
    then (record g { alive = false }, crashed)
    else if eats
    then (spawn_food (record g { snake = grown; score = u32 (g.score + points_per_food) }), ate)
    else (record g { snake = pop_back grown }, moved)

pub step : Game → Game × StepOutcome
step g = if not g.alive then (g, crashed) else advance (turned g)

-- `level.clamp(1, SPEED_LEVELS)`.
pub clamp_speed_level : ℕ → ℕ
clamp_speed_level level = min (max level 1) speed_levels

-- The table is read at an index below its length, so the default is never used.
pub step_interval_ms : ℕ → ℕ
unfolding clamp_speed_level
step_interval_ms level = get_or step_interval_table (clamp_speed_level level - 1) 0
