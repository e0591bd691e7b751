-- ===== src/Snake/Play.antt =====
-- The rules of the game as a relation, that `step` follows them, and what every play keeps.
use cdc_badge_plugins.Base.{ℕ, ◌+◌, ◌^◌, ◌<◌, ◌≡◌, refl, ◌≢◌, inl, inr, sym, ap, ◌∙◌}
use mathlib.Core.Path.{subst}
use cdc_badge_plugins.Base.{true, false, if◌then◌else◌, List, ◌∷◌, arith, u32}
use cdc_badge_plugins.Base.{Option, none, some, Bool-cases}
use cdc_badge_plugins.Snake.{
  Direction, north, east, south, west, Cell, Game, XorShift32, StepOutcome, moved, ate, crashed,
  on_snake, opt_cell_eq, cell_eq, head_of, pop_back, ahead, off_grid, hits_body, advance, turned,
  step, steer, start, spawn_food,
}
use cdc_badge_plugins.Snake.Grid.{Inside, IsNodup, cell_eq→≡, cell_eq_self}
use cdc_badge_plugins.Snake.Spawn.{FoodAt, area_bound, length-le-area}
use cdc_badge_plugins.Snake.Steering.{apply_pending-Turns}
use cdc_badge_plugins.Snake.Valid.{IsValid, Sound, Leads, Faces, spawn_food_keeps, start-IsValid}
use cdc_badge_plugins.Snake.Body.{
  off_grid-outside, Leads-neck, hits_body_eats, hits_body_moves, pop_back-cons,
}
use cdc_badge_plugins.Snake.Stepping.{
  aim, aim_lands, eats, advance-Clear, turned-Sound, step-IsValid, steer-IsValid, grown-IsValid,
}

-- The cells that stay occupied while the head enters `c`: the tail leaves unless `c` is food.
abbrev pub standing : Game → Cell → List Cell
standing g c = if opt_cell_eq g.food (some c) then g.snake else pop_back g.snake

-- One move of a living game by its direction.
pub data Moves (g : Game) (g' : Game) (o : StepOutcome) : Type 0 where
  crash :
      ((c : Cell)
        → Leads g.dir (head_of g.snake) c
        → Inside g.w g.h c
        → on_snake (standing g c) c ≡ true)
      → g' ≡ record g { alive = false }
      → o ≡ crashed
      → Moves g g' o
  go :
      (c : Cell)
      → Leads g.dir (head_of g.snake) c
      → Inside g.w g.h c
      → on_snake (pop_back g.snake) c ≡ false
      → g.food ≢ some c
      → g' ≡ record g { snake = c ∷ pop_back g.snake }
      → o ≡ moved
      → Moves g g' o
  eat :
      (c : Cell) (f : Option Cell) (r : XorShift32)
      → Leads g.dir (head_of g.snake) c
      → Inside g.w g.h c
      → on_snake g.snake c ≡ false
      → g.food ≡ some c
      → FoodAt g.w g.h (c ∷ g.snake) f
      → g' ≡ record g { snake = c ∷ g.snake; score = g.score + 10; food = f; rng = r }
      → o ≡ ate
      → Moves g g' o

Leads-unique : (d : Direction) (a b c : Cell) → Leads d a b → Leads d a c → b ≡ c
Leads-unique north (a, a') (b, b') (c, c') p q = ground arith
Leads-unique east (a, a') (b, b') (c, c') p q = ground arith
Leads-unique south (a, a') (b, b') (c, c') p q = ground arith
Leads-unique west (a, a') (b, b') (c, c') p q = ground arith

opt_cell_eq→≡ : (f : Option Cell) (c : Cell) → opt_cell_eq f (some c) ≡ true → f ≡ some c
opt_cell_eq→≡ none c e = cc
opt_cell_eq→≡ (some d) c e = ap some (cell_eq→≡ d c e)

opt_cell_eq→≢ : (f : Option Cell) (c : Cell) → opt_cell_eq f (some c) ≡ false → f ≢ some c
opt_cell_eq→≢ f c e q = let same : opt_cell_eq f (some c) ≡ true = rw q (cell_eq_self c) in cc

-- The collision test of the code looks at the standing cells.
hits_body-standing :
    (g : Game) (c : Cell)
    → IsNodup g.snake
    → hits_body g.snake c (opt_cell_eq g.food (some c)) ≡ on_snake (standing g c) c
hits_body-standing g c n = elim (Bool-cases (opt_cell_eq g.food (some c))) [
  | inl e ↦ rw e (hits_body_eats g.snake c)
  | inr e ↦ rw e (hits_body_moves g.snake c n)
]

-- A body in front crashes: the aim is the one cell a step on.
hit_blocks :
    (g : Game)
    → Sound g
    → off_grid g.w g.h (ahead g.dir (head_of g.snake)) ≡ false
    → hits_body g.snake (aim g) (eats g) ≡ true
    → (c : Cell) → Leads g.dir (head_of g.snake) c
    → Inside g.w g.h c
    → on_snake (standing g c) c ≡ true
hit_blocks g v on hit c l i =
    let same = Leads-unique g.dir (head_of g.snake) (aim g) c (aim_lands g v on).1 l in
    subst (λ d. on_snake (standing g d) d ≡ true) same
      (sym (hits_body-standing g (aim g) v.placeable.nodup) ∙ hit)

eat-Moves :
    (g : Game)
    → Sound g
    → off_grid g.w g.h (ahead g.dir (head_of g.snake)) ≡ false
    → hits_body g.snake (aim g) (eats g) ≡ false
    → eats g ≡ true
    → Moves g (spawn_food (record g { snake = aim g ∷ g.snake; score = u32 (g.score + 10) })) ate
eat-Moves g v on free meal =
    let grown : Game = record g { snake = aim g ∷ g.snake; score = u32 (g.score + 10) } in
    let (f, r, e) = spawn_food_keeps grown in
    let valid = grown-IsValid g v (advance-Clear g v on free) meal in
    let lands = aim_lands g v on in
    let hit : hits_body g.snake (aim g) true ≡ false = rw meal at free in
    let score : u32 (g.score + 10) ≡ g.score + 10 =
      omega (arith, v.counted, length-le-area v.placeable, area_bound v.placeable) in
    eat (aim g) f r lands.1 lands.0 (sym (hits_body_eats g.snake (aim g)) ∙ hit)
      (opt_cell_eq→≡ g.food (aim g) meal) (rw e at valid.sound.fed)
      (e ∙ ap (λ k. record g { snake = aim g ∷ g.snake; score = k; food = f; rng = r }) score) refl

advance-Moves : (g : Game) → Sound g → Moves g (advance g).0 (advance g).1
unfolding advance
advance-Moves g v = elim (Bool-cases (off_grid g.w g.h (ahead g.dir (head_of g.snake)))) [
  | inl off ↦ rw off (
      crash (λ c l i. absurd (off_grid-outside g.dir g.w g.h (head_of g.snake) c off l i)) refl
        refl)
  | inr on ↦ elim (Bool-cases (hits_body g.snake (aim g) (eats g))) [
    | inl hit ↦ rw (on, hit) (crash (hit_blocks g v on hit) refl refl)
    | inr free ↦ elim (Bool-cases (eats g)) [
      | inl meal ↦ rw (on, free, meal) (eat-Moves g v on free meal)
      | inr bare ↦
          let lands = aim_lands g v on in
          let hit : hits_body g.snake (aim g) false ≡ false = rw bare at free in
          rw (on, free, bare, pop_back-cons (aim g) g.snake (omega (arith, v.long)))
            (go (aim g) lands.1 lands.0
              (sym (hits_body_moves g.snake (aim g) v.placeable.nodup) ∙ hit)
              (opt_cell_eq→≢ g.food (aim g) bare) refl refl)
    ]
  ]
]

-- On a valid living game `step` takes the next turn of the buffer and then moves by the rules: it
-- crashes exactly at the wall or at a cell that stays occupied, otherwise enters the next cell and
-- gives up the tail, or eats, grows by that cell, scores ten and gets food on a free cell.
pub step-Moves : (g : Game) → IsValid g → g.alive ≡ true → Moves (turned g) (step g).0 (step g).1
unfolding step
step-Moves g v live = simp live (advance-Moves (turned g) (turned-Sound g v.sound))

-- A game that has crashed is frozen.
pub step_frozen : (g : Game) → g.alive ≡ false → step g ≡ (g, crashed)
unfolding step
step_frozen g dead = simp dead

-- Whatever was queued, the turn that a step takes never leads into the cell behind the head.
pub turned_clear_neck :
    (g : Game) (head neck c : Cell) (s : List Cell)
    → IsValid g
    → g.alive ≡ true
    → g.snake ≡ head ∷ neck ∷ s
    → Leads (turned g).dir head c
    → c ≢ neck
unfolding turned
turned_clear_neck g head neck c s v live shape l same =
    let faces : Leads g.dir neck head = subst (Faces g.dir) shape (v.faces live) in
    let apart =
      Leads-neck g.dir (turned g).dir neck head c faces (apply_pending-Turns g.dir g.pending) l in
    let eq : cell_eq neck c ≡ true = rw same (cell_eq_self neck) in cc

-- The plays: a game is started, steered and stepped in any order.
pub data Play : Game → Type 0 where
  opened :
      (w h seed : ℕ) {g : Game}
      → w < 2 ^ 8
      → h < 2 ^ 8
      → seed < 2 ^ 32
      → start w h seed ≡ some g
      → Play g
  steered : {g : Game} (d : Direction) → Play g → Play (steer g d)
  stepped : {g : Game} → Play g → Play (step g).0

-- Every game that a new one on a grid of byte size reaches by turns and steps, in any order, is valid:
-- its body is on the grid, with no cell twice and each cell next to the one before, its food is on a
-- free cell unless the body fills the grid, at most two turns are buffered, the score counts the
-- growth, and while the snake lives its direction leads out of the cell behind its head.
pub Play-IsValid : {g : Game} → Play g → IsValid g
Play-IsValid (opened w h seed {g = g} hw hh hs e) = start-IsValid w h seed g hw hh hs e
Play-IsValid (steered {g = g} d p) = steer-IsValid g d (Play-IsValid p)
Play-IsValid (stepped {g = g} p) = step-IsValid g (Play-IsValid p)
