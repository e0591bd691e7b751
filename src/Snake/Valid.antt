-- ===== src/Snake/Valid.antt =====
-- What a running game keeps: the body is a path of distinct cells in the grid that its direction
-- leads on, the buffer holds at most two turns, the score counts the growth, the food lies on a
-- free cell, and the generator is not stuck at zero.
use cdc_badge_plugins.Base.{ℕ, ◌+◌, ◌*◌, ◌^◌, ◌≤◌, ◌<◌, ◌≡◌, ◌≢◌, inl, inr}
use cdc_badge_plugins.Base.{true, ◌||◌, List, [], ◌∷◌, length, arith}
use mathlib.Core.Path.{subst}
use cdc_badge_plugins.Base.{Option, some, Bool-cases, ltb}
use cdc_badge_plugins.Base.Xorshift.{xorshift-lt, xorshift-eq-zero}
use cdc_badge_plugins.Snake.{
  Direction, north, east, south, west, Cell, Game, XorShift32, seeded, next, below, start, opening,
  min_grid_w, min_grid_h, spawn_food,
}
use cdc_badge_plugins.Snake.Spawn.{Placeable, FoodFits, spawn_food-FoodFits}

-- The cell `d` is the next one from `c` in the direction.
abbrev pub Leads : Direction → Cell → Cell → Type 0
Leads north (a, b) (c, d) = (a ≡ c) × (b ≡ d + 1)
Leads east (a, b) (c, d) = (a + 1 ≡ c) × (b ≡ d)
Leads south (a, b) (c, d) = (a ≡ c) × (b + 1 ≡ d)
Leads west (a, b) (c, d) = (a ≡ c + 1) × (b ≡ d)

-- Neighbouring body cells, head first, are one step apart.
abbrev pub Joined : List Cell → Type 0
Joined [] = Unit
Joined (c ∷ []) = Unit
Joined (c ∷ d ∷ s) = ((dir : Direction) × Leads dir d c) × Joined (d ∷ s)

-- The direction leads from the cell behind the head to the head.
abbrev pub Faces : Direction → List Cell → Type 0
Faces dir [] = Unit
Faces dir (c ∷ []) = Unit
Faces dir (c ∷ d ∷ s) = Leads dir d c

pub record IsSeeded (r : XorShift32) : Type 0 where
  pub fits : r.state < 2 ^ 32
  pub nonzero : r.state ≢ 0

pub record Sound (g : Game) : Type 0 where
  pub placeable : Placeable g
  pub long : 3 ≤ length g.snake
  pub joined : Joined g.snake
  pub queue : length g.pending ≤ 2
  pub counted : g.score + 30 ≡ 10 * length g.snake
  pub fed : FoodFits g
  pub seed : IsSeeded g.rng

-- A crash may leave a direction that was turned but not walked.
pub record IsValid (g : Game) : Type 0 where
  pub sound : Sound g
  pub faces : g.alive ≡ true → Faces g.dir g.snake

-- A generator never reaches zero, where it would stay: a zero seed is replaced, and no other state
-- steps to zero.
pub seeded-IsSeeded : (n : ℕ) → n < 2 ^ 32 → IsSeeded (seeded n)
unfolding seeded
seeded-IsSeeded n h = record { fits = ground arith; nonzero = ground arith }

pub next-IsSeeded : (r : XorShift32) → IsSeeded r → IsSeeded (next r).1
unfolding next
next-IsSeeded r s = record {
  fits = xorshift-lt r.state s.fits;
  nonzero = λ e. s.nonzero (xorshift-eq-zero r.state s.fits e);
}

spawn_food-IsSeeded : (g : Game) → IsSeeded g.rng → IsSeeded (spawn_food g).rng
unfolding spawn_food below
spawn_food-IsSeeded g s = ground (arith, next-IsSeeded g.rng s)

-- `spawn_food` changes the food and the generator alone.
pub spawn_food_keeps :
    (g : Game)
    → (f : Option Cell) × (r : XorShift32) × (spawn_food g ≡ record g { food = f; rng = r })
unfolding spawn_food
spawn_food_keeps g = ((spawn_food g).food, (spawn_food g).rng, ground arith)

-- A game that is valid but for its food is valid once food is placed.
pub spawn_food-IsValid :
    (g : Game)
    → Placeable g
    → 3 ≤ length g.snake
    → Joined g.snake
    → Faces g.dir g.snake
    → length g.pending ≤ 2
    → g.score + 30 ≡ 10 * length g.snake
    → IsSeeded g.rng
    → IsValid (spawn_food g)
spawn_food-IsValid g p l j f q c s =
    let (food, rng, e) = spawn_food_keeps g in
    let fed = rw e at (spawn_food-FoodFits g p) in
    let seed = rw e at (spawn_food-IsSeeded g s) in
    rw e record {
      sound = record {
        placeable = record { wide = p.wide; high = p.high; inside = p.inside; nodup = p.nodup };
        long = l;
        joined = j;
        queue = q;
        counted = c;
        fed = fed;
        seed = seed;
      };
      faces = λ _. f;
    }

opening-IsValid :
    (w h n : ℕ)
    → min_grid_w ≤ w
    → min_grid_h ≤ h
    → w < 2 ^ 8
    → h < 2 ^ 8
    → n < 2 ^ 32
    → IsValid (spawn_food (opening w h n))
unfolding opening
opening-IsValid w h n lw lh hw hh hn =
    spawn_food-IsValid (opening w h n)
      (record { wide = hw; high = hh; inside = omega arith; nodup = ground arith }) (omega arith)
      ((east, omega arith), ((east, omega arith), tt)) (ground arith) (omega arith) (omega arith)
      (seeded-IsSeeded n hn)

-- Every game that `Game::new` starts is valid.
pub start-IsValid :
    (w h n : ℕ) (g : Game) → w < 2 ^ 8 → h < 2 ^ 8 → n < 2 ^ 32 → start w h n ≡ some g → IsValid g
unfolding start
start-IsValid w h n g hw hh hn e = elim (Bool-cases (ltb w min_grid_w || ltb h min_grid_h)) [
  | inl small ↦ absurd (ground arith)
  | inr fits ↦
      let same : spawn_food (opening w h n) ≡ g = ground arith in
      subst IsValid same (opening-IsValid w h n (ground arith) (ground arith) hw hh hn)
]
