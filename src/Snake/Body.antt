-- ===== src/Snake/Body.antt =====
-- A body that gains a head and loses its tail: the cells, the collision test, the shape.
use cdc_badge_plugins.Base.{ℕ, ◌-◌, ◌^◌, ◌≤◌, ◌<◌, ◌≡◌, refl, ◌≢◌, inl, inr}
use cdc_badge_plugins.Base.{
  Bool, true, false, not, any, ◌&&◌, ◌||◌, List, [], ◌∷◌, length, All, arith,
}
use cdc_badge_plugins.Base.{none, some, Bool-cases, Option-cases}
use mathlib.Core.Path.{subst, sym}
use cdc_badge_plugins.Snake.{
  Direction, north, east, south, west, Cell, on_snake, cell_eq, opposite, delta, head_of, back,
  pop_back, ahead, off_grid, as_cell, hits_body, opt_cell_eq,
}
use cdc_badge_plugins.Snake.Grid.{Inside, IsNodup, cell_eq→≡, cell_eq_self}
use cdc_badge_plugins.Snake.Valid.{Leads, Joined, Faces}

-- Ahead of a head in the grid, a cell that is not off the grid is inside it and one step on.
pub as_cell-ahead :
    (d : Direction) (w h : ℕ) (c : Cell)
    → w < 2 ^ 8
    → h < 2 ^ 8
    → Inside w h c
    → off_grid w h (ahead d c) ≡ false
    → Inside w h (as_cell (ahead d c)) × Leads d c (as_cell (ahead d c))
unfolding as_cell ahead off_grid delta
as_cell-ahead north w h (x, y) hw hh i on = ground arith
as_cell-ahead east w h (x, y) hw hh i on = ground arith
as_cell-ahead south w h (x, y) hw hh i on = ground arith
as_cell-ahead west w h (x, y) hw hh i on = ground arith

-- Where the wall test refuses, no cell of the grid is one step on.
pub off_grid-outside :
    (d : Direction) (w h : ℕ) (c c' : Cell)
    → off_grid w h (ahead d c) ≡ true
    → Leads d c c'
    → ¬ Inside w h c'
unfolding ahead off_grid delta
off_grid-outside north w h (x, y) (p, q) off l i = ground arith
off_grid-outside east w h (x, y) (p, q) off l i = ground arith
off_grid-outside south w h (x, y) (p, q) off l i = ground arith
off_grid-outside west w h (x, y) (p, q) off l i = ground arith

-- A turn that is no reversal does not lead into the cell behind the head.
pub Leads-neck :
    (d d' : Direction) (neck head c : Cell)
    → Leads d neck head
    → d' ≢ opposite d
    → Leads d' head c
    → cell_eq neck c ≡ false
unfolding opposite
Leads-neck north d' (a, b) (x, y) (p, q) behind turn on = ground arith
Leads-neck east d' (a, b) (x, y) (p, q) behind turn on = ground arith
Leads-neck south d' (a, b) (x, y) (p, q) behind turn on = ground arith
Leads-neck west d' (a, b) (x, y) (p, q) behind turn on = ground arith

back-on : (s : List Cell) (l : Cell) → back s ≡ some l → on_snake s l ≡ true
unfolding back
back-on [] l e = cc
back-on (c ∷ []) l e = ground (arith, cell_eq_self l)
back-on (c ∷ d ∷ s) l e = ground (arith, back-on (d ∷ s) l e)

back-ne-none : (a : Cell) (s : List Cell) → back (a ∷ s) ≢ none
unfolding back
back-ne-none a [] e = cc
back-ne-none a (b ∷ s) e = back-ne-none b s e

head-ne-tail :
    (a : Cell) (s : List Cell) (l : Cell)
    → on_snake s a ≡ false
    → back s ≡ some l
    → cell_eq a l ≡ false
head-ne-tail a s l n e = elim (Bool-cases (cell_eq a l)) [
  | inl same ↦ let on = back-on s l e in let eq = cell_eq→≡ a l same in cc
  | inr apart ↦ apart
]

any_but_tail :
    (s : List Cell) (c l : Cell)
    → IsNodup s
    → back s ≡ some l
    → any (λ b. cell_eq b c && not (cell_eq b l)) s ≡ on_snake (pop_back s) c
unfolding back pop_back
any_but_tail [] c l n e = refl
any_but_tail (a ∷ []) c l n e = ground (arith, cell_eq_self l)
any_but_tail (a ∷ b ∷ s) c l n e =
    let later = any_but_tail (b ∷ s) c l n.1 e in
    let apart = head-ne-tail a (b ∷ s) l n.0 e in rw (apart, later) (ground arith)

any_eats :
    (o : Cell → Bool) (s : List Cell) (c : Cell)
    → any (λ b. cell_eq b c && (true || o b)) s ≡ on_snake s c
any_eats o [] c = refl
any_eats o (a ∷ s) c = ground (arith, any_eats o s c)

-- The tests of `hits_body`: with growth the whole body counts, without it all but the tail.
pub hits_body_eats : (s : List Cell) (c : Cell) → hits_body s c true ≡ on_snake s c
unfolding hits_body
hits_body_eats s c = any_eats (λ b. not (opt_cell_eq (some b) (back s))) s c

pub hits_body_moves :
    (s : List Cell) (c : Cell) → IsNodup s → hits_body s c false ≡ on_snake (pop_back s) c
unfolding hits_body back pop_back
hits_body_moves [] c n = refl
hits_body_moves (a ∷ s) c n = elim (Option-cases (back (a ∷ s))) [
  | inl e ↦ absurd (back-ne-none a s e)
  | inr (l, e) ↦
      subst
        (λ t.
          any (λ b. cell_eq b c && not (opt_cell_eq (some b) t)) (a ∷ s)
          ≡ on_snake (pop_back (a ∷ s)) c)
        (sym e) (any_but_tail (a ∷ s) c l n e)
]

pub All-pop_back {κ} : (P : Cell → Type κ) (s : List Cell) → All P s → All P (pop_back s)
unfolding pop_back
All-pop_back P [] h = tt
All-pop_back P (a ∷ []) h = tt
All-pop_back P (a ∷ b ∷ s) h = (h.0, All-pop_back P (b ∷ s) h.1)

pub on_snake-pop_back :
    (s : List Cell) (c : Cell) → on_snake s c ≡ false → on_snake (pop_back s) c ≡ false
unfolding pop_back
on_snake-pop_back [] c h = refl
on_snake-pop_back (a ∷ []) c h = refl
on_snake-pop_back (a ∷ b ∷ s) c h = ground (arith, on_snake-pop_back (b ∷ s) c)

pub IsNodup-pop_back : (s : List Cell) → IsNodup s → IsNodup (pop_back s)
unfolding pop_back
IsNodup-pop_back [] h = tt
IsNodup-pop_back (a ∷ []) h = tt
IsNodup-pop_back (a ∷ b ∷ s) h = (on_snake-pop_back (b ∷ s) a h.0, IsNodup-pop_back (b ∷ s) h.1)

pub Joined-pop_back : (s : List Cell) → Joined s → Joined (pop_back s)
unfolding pop_back
Joined-pop_back [] h = tt
Joined-pop_back (a ∷ []) h = tt
Joined-pop_back (a ∷ b ∷ []) h = tt
Joined-pop_back (a ∷ b ∷ c ∷ s) h = (h.0, Joined-pop_back (b ∷ c ∷ s) h.1)

pub length-pop_back {ℓ} : {A : Type ℓ} (s : List A) → length (pop_back s) ≡ length s - 1
unfolding pop_back
length-pop_back [] = omega arith
length-pop_back (a ∷ []) = omega arith
length-pop_back (a ∷ b ∷ s) = omega (arith, length-pop_back (b ∷ s))

-- A body of two cells or more keeps its head when the tail goes.
pub pop_back-cons : (c : Cell) (s : List Cell) → 0 < length s → pop_back (c ∷ s) ≡ c ∷ pop_back s
unfolding pop_back
pop_back-cons c [] h = absurd (omega arith)
pop_back-cons c (a ∷ s) h = refl

pub head_of-pop_back : (s : List Cell) → 2 ≤ length s → head_of (pop_back s) ≡ head_of s
unfolding pop_back head_of
head_of-pop_back [] h = refl
head_of-pop_back (a ∷ []) h = absurd (omega arith)
head_of-pop_back (a ∷ b ∷ s) h = refl

pub Joined-cons :
    (d : Direction) (c : Cell) (s : List Cell) → Leads d (head_of s) c → Joined s → Joined (c ∷ s)
unfolding head_of
Joined-cons d c [] l j = tt
Joined-cons d c (a ∷ s) l j = ((d, l), j)

pub Faces-cons :
    (d : Direction) (c : Cell) (s : List Cell) → Leads d (head_of s) c → Faces d (c ∷ s)
unfolding head_of
Faces-cons d c [] l = tt
Faces-cons d c (a ∷ s) l = l

pub head_of-Inside :
    (w h : ℕ) (s : List Cell) → 0 < length s → All (Inside w h) s → Inside w h (head_of s)
unfolding head_of
head_of-Inside w h [] l i = absurd (omega arith)
head_of-Inside w h (c ∷ s) l i = i.0
