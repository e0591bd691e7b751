-- ===== src/Snake/Stepping.antt =====
-- One step keeps a game valid, and crashes exactly where the rules say.
use cdc_badge_plugins.Base.{ℕ, ◌+◌, ◌≤◌, ◌<◌, ◌≡◌, inl, inr, sym, ◌∙◌}
use cdc_badge_plugins.Base.{Bool, true, false, List, ◌∷◌, length, arith, u32}
use cdc_badge_plugins.Base.{Option, none, some, Bool-cases}
use cdc_badge_plugins.Snake.{
  Direction, Cell, Game, on_snake, opt_cell_eq, head_of, pop_back, ahead, off_grid, as_cell,
  hits_body, advance, turned, step, steer, spawn_food, apply_pending,
}
use cdc_badge_plugins.Snake.Grid.{Inside, cell_eq_comm}
use cdc_badge_plugins.Snake.Spawn.{FoodAt, area_bound, length-le-area}
use cdc_badge_plugins.Snake.Steering.{length-apply_pending, length-steer}
use cdc_badge_plugins.Snake.Valid.{IsValid, Sound, Leads, spawn_food-IsValid}
use cdc_badge_plugins.Snake.Body.{
  as_cell-ahead, hits_body_eats, hits_body_moves, All-pop_back, IsNodup-pop_back, Joined-pop_back,
  length-pop_back, on_snake-pop_back, head_of-pop_back, Joined-cons, Faces-cons, head_of-Inside,
  pop_back-cons,
}

-- The cell that a step aims at, and whether it holds the food.
abbrev pub aim : Game → Cell
aim g = as_cell (ahead g.dir (head_of g.snake))

abbrev pub eats : Game → Bool
eats g = opt_cell_eq g.food (some (aim g))

-- What a step that does not crash knows of its aim.
pub record Clear (g : Game) : Type 0 where
  pub inside : Inside g.w g.h (aim g)
  pub leads : Leads g.dir (head_of g.snake) (aim g)
  pub kept : hits_body g.snake (aim g) (eats g) ≡ false

shift-FoodAt :
    (w h : ℕ) (s : List Cell) (c : Cell) (f : Option Cell)
    → FoodAt w h s f
    → opt_cell_eq f (some c) ≡ false
    → 0 < length s
    → FoodAt w h (c ∷ pop_back s) f
shift-FoodAt w h s c none fed e l = omega (arith, length-pop_back s)
shift-FoodAt w h s c (some f) fed e l = (
  fed.0,
  ground (arith, cell_eq_comm f c, on_snake-pop_back s f),
  omega (arith, length-pop_back s, fed.2),
)

-- Direction, buffer and the flag are free but for the length of the buffer.
with_flags :
    (g : Game) (d : Direction) (l : List Direction) (b : Bool)
    → Sound g
    → length l ≤ 2
    → Sound (record g { dir = d; pending = l; alive = b })
with_flags g d l b v q = record {
  placeable = record {
    wide = v.placeable.wide;
    high = v.placeable.high;
    inside = v.placeable.inside;
    nodup = v.placeable.nodup;
  };
  long = v.long;
  joined = v.joined;
  queue = q;
  counted = v.counted;
  fed = v.fed;
  seed = v.seed;
}

shifted-IsValid :
    (g : Game)
    → Sound g
    → Clear g
    → eats g ≡ false
    → IsValid (record g { snake = aim g ∷ pop_back g.snake })
shifted-IsValid g v c e =
    let s = g.snake in
    let p = v.placeable in
    let two : 2 ≤ length s = omega (arith, v.long) in
    let lead : Leads g.dir (head_of (pop_back s)) (aim g) = rw (head_of-pop_back s two) c.leads in
    let hit : hits_body s (aim g) false ≡ false = rw e at c.kept in
    let free : on_snake (pop_back s) (aim g) ≡ false =
      sym (hits_body_moves s (aim g) p.nodup) ∙ hit in
    record {
      sound = record {
        placeable = record {
          wide = p.wide;
          high = p.high;
          inside = (c.inside, All-pop_back _ s p.inside);
          nodup = (free, IsNodup-pop_back s p.nodup);
        };
        long = omega (arith, length-pop_back s, v.long);
        joined = Joined-cons g.dir (aim g) (pop_back s) lead (Joined-pop_back s v.joined);
        queue = v.queue;
        counted = omega (arith, length-pop_back s, v.long, v.counted);
        fed = shift-FoodAt g.w g.h s (aim g) g.food v.fed e (omega (arith, v.long));
        seed = v.seed;
      };
      faces = λ _. Faces-cons g.dir (aim g) (pop_back s) lead;
    }

pub grown-IsValid :
    (g : Game)
    → Sound g
    → Clear g
    → eats g ≡ true
    → IsValid (spawn_food (record g { snake = aim g ∷ g.snake; score = u32 (g.score + 10) }))
grown-IsValid g v c e =
    let s = g.snake in
    let p = v.placeable in
    let hit : hits_body s (aim g) true ≡ false = rw e at c.kept in
    let free : on_snake s (aim g) ≡ false = sym (hits_body_eats s (aim g)) ∙ hit in
    spawn_food-IsValid _
      (record {
        wide = p.wide;
        high = p.high;
        inside = (c.inside, p.inside);
        nodup = (free, p.nodup);
      })
      (omega (arith, v.long)) (Joined-cons g.dir (aim g) s c.leads v.joined)
      (Faces-cons g.dir (aim g) s c.leads) v.queue
      (omega (arith, v.counted, length-le-area p, area_bound p)) v.seed

dead-IsValid : (g : Game) → Sound g → IsValid (record g { alive = false })
dead-IsValid g v = record { sound = with_flags g g.dir g.pending false v v.queue; faces = λ e. cc }

pub turned-Sound : (g : Game) → Sound g → Sound (turned g)
unfolding turned
turned-Sound g v =
    let (d, l) = apply_pending g.dir g.pending in
    with_flags g d l g.alive v (omega (arith, length-apply_pending g.dir g.pending, v.queue))

-- Where the wall test passes, the aim is the cell of the grid one step on.
pub aim_lands :
    (g : Game)
    → Sound g
    → off_grid g.w g.h (ahead g.dir (head_of g.snake)) ≡ false
    → Inside g.w g.h (aim g) × Leads g.dir (head_of g.snake) (aim g)
aim_lands g v on =
    let p = v.placeable in
    let at_head = head_of-Inside g.w g.h g.snake (omega (arith, v.long)) p.inside in
    as_cell-ahead g.dir g.w g.h (head_of g.snake) p.wide p.high at_head on

pub advance-Clear :
    (g : Game)
    → Sound g
    → off_grid g.w g.h (ahead g.dir (head_of g.snake)) ≡ false
    → hits_body g.snake (aim g) (eats g) ≡ false
    → Clear g
advance-Clear g v on free =
    let lands = aim_lands g v on in record { inside = lands.0; leads = lands.1; kept = free }

advance-IsValid : (g : Game) → Sound g → IsValid (advance g).0
unfolding advance
advance-IsValid g v = elim (Bool-cases (off_grid g.w g.h (ahead g.dir (head_of g.snake)))) [
  | inl off ↦ rw off (dead-IsValid g v)
  | inr on ↦ elim (Bool-cases (hits_body g.snake (aim g) (eats g))) [
    | inl hit ↦ rw (on, hit) (dead-IsValid g v)
    | inr free ↦ elim (Bool-cases (eats g)) [
      | inl meal ↦ rw (on, free, meal) (grown-IsValid g v (advance-Clear g v on free) meal)
      | inr bare ↦
          rw (on, free, bare, pop_back-cons (aim g) g.snake (omega (arith, v.long)))
            (shifted-IsValid g v (advance-Clear g v on free) bare)
    ]
  ]
]

-- A step keeps a game valid, whether it moves, eats or crashes.
pub step-IsValid : (g : Game) → IsValid g → IsValid (step g).0
unfolding step
step-IsValid g v = elim (Bool-cases g.alive) [
  | inl live ↦ simp live (advance-IsValid (turned g) (turned-Sound g v.sound))
  | inr dead ↦ simp dead v
]

steer_keeps : (g : Game) (d : Direction) → steer g d ≡ record g { pending = (steer g d).pending }
unfolding steer
steer_keeps g d = ground arith

-- So does every steering input.
pub steer-IsValid : (g : Game) (d : Direction) → IsValid g → IsValid (steer g d)
steer-IsValid g d v = rw (steer_keeps g d) record {
  sound = with_flags g g.dir (steer g d).pending g.alive v.sound (length-steer g d v.sound.queue);
  faces = v.faces;
}
