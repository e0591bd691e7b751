-- ===== src/Snake/Steering.antt =====
-- The steering buffer: what `steer` queues, and which turn a step takes from the queue.
use cdc_badge_plugins.Base.{◌+◌, ◌≤◌, ◌≡◌, refl, ◌≢◌, ◌⊎◌, ◌++◌}
use cdc_badge_plugins.Base.{
  true, Bool-cases, inl, inr, ◌||◌, if◌then◌else◌, List, [], ◌∷◌, length, length-append,
}
use cdc_badge_plugins.Base.{drop, ◌-◌, ltb, arith}
use cdc_badge_plugins.Snake.{
  Direction, north, east, south, west, Game, opposite, dir_eq, back_or, pop_front, steer,
  apply_pending, max_pending,
}

dir_eq→≡ : (a b : Direction) → dir_eq a b ≡ true → a ≡ b
unfolding dir_eq
dir_eq→≡ north b e = ground arith
dir_eq→≡ east b e = ground arith
dir_eq→≡ south b e = ground arith
dir_eq→≡ west b e = ground arith

dir_eq_self : (a : Direction) → dir_eq a a ≡ true
unfolding dir_eq
dir_eq_self north = refl
dir_eq_self _ = refl

pub opposite-opposite : (d : Direction) → opposite (opposite d) ≡ d
unfolding opposite
opposite-opposite north = refl
opposite-opposite _ = refl

-- A turn from `cur`: straight on or to a side, never back.
abbrev pub Turns : Direction → Direction → Type 0
Turns cur d = d ≢ opposite cur

opposite-ne : (d : Direction) → d ≢ opposite d
unfolding opposite
opposite-ne north e = cc
opposite-ne east e = cc
opposite-ne south e = cc
opposite-ne west e = cc

pub apply_pending-Turns : (cur : Direction) (l : List Direction) → Turns cur (apply_pending cur l).0
unfolding apply_pending
apply_pending-Turns cur [] = opposite-ne cur
apply_pending-Turns cur (d ∷ l) =
    ground (arith, apply_pending-Turns cur l, dir_eq_self (opposite cur))

pub length-apply_pending :
    (cur : Direction) (l : List Direction) → length (apply_pending cur l).1 ≤ length l
unfolding apply_pending
length-apply_pending cur [] = omega arith
length-apply_pending cur (d ∷ l) = ground (arith, length-apply_pending cur l)

pop_front-eq-drop {ℓ} : {A : Type ℓ} (l : List A) → pop_front l ≡ drop 1 l
unfolding pop_front
pop_front-eq-drop [] = refl
pop_front-eq-drop (x ∷ l) = refl

length-pop_front {ℓ} : {A : Type ℓ} (l : List A) → length (pop_front l) ≡ length l - 1
unfolding pop_front
length-pop_front [] = omega arith
length-pop_front (x ∷ l) = omega arith

window :
    (l : List Direction) (d : Direction)
    → length l ≤ 2
    → (if ltb max_pending (length (l ++ d ∷ [])) then pop_front (l ++ d ∷ []) else l ++ d ∷ [])
      ≡ drop (length l + 1 - max_pending) (l ++ d ∷ [])
unfolding pop_front
window [] d h = refl
window (a ∷ []) d h = refl
window (a ∷ b ∷ []) d h = refl
window (a ∷ b ∷ c ∷ l) d h = absurd (omega arith)

-- On a living game whose buffer holds at most two turns, one of two things holds: the input is the
-- heading that will be active after the queued turns, or its reverse, and `steer` changes nothing;
-- or it is neither, it becomes the newest entry of the buffer, the oldest is dropped if there were
-- two, and nothing else of the game changes.
pub steer_window :
    (g : Game) (d : Direction)
    → g.alive ≡ true
    → length g.pending ≤ 2
    → let heading = back_or g.pending g.dir in
      (((d ≡ heading) ⊎ (d ≡ opposite heading)) × (steer g d ≡ g))
      ⊎ ((d ≢ heading)
          × (d ≢ opposite heading)
          × (steer g d ≡ record g {
            pending = drop (length g.pending + 1 - max_pending) (g.pending ++ d ∷ []);
          }))
unfolding steer
steer_window g d live h =
    let heading = back_or g.pending g.dir in
    elim (Bool-cases (dir_eq d heading || dir_eq d (opposite heading))) [
      | inl same ↦
          inl (ground (arith, dir_eq→≡ d heading, dir_eq→≡ d (opposite heading)), ground arith)
      | inr new ↦ inr (
        λ e. ground (arith, dir_eq_self heading),
        λ e. ground (arith, dir_eq_self (opposite heading)),
        ground (arith, window g.pending d),
      )
    ]

pub length-steer :
    (g : Game) (d : Direction) → length g.pending ≤ 2 → length (steer g d).pending ≤ 2
unfolding steer
length-steer g d h =
    ground (arith, length-append g.pending (d ∷ []), length-pop_front (g.pending ++ d ∷ []))
