-- ===== src/NameBadge/Rng/Ranges.antt =====
-- The values stay in their ranges.
use cdc_badge_plugins.Base.{ℕ, ◌^◌, ◌≤◌, ◌<◌, ◌≡◌, true, Bool-cases, inl, inr, u32, arith}
use cdc_badge_plugins.Base.Int.{ℤ, pos, negsuc, pos_part, neg_part, ◌+ℤ◌, ◌-ℤ◌, leb_ℤ}
use native.Mathlib.Nat.{mod-lt}
use cdc_badge_plugins.Base.{◌⊎◌, false}
use cdc_badge_plugins.Base.Xorshift.{xorshift-lt, xorshift-eq-zero}
use cdc_badge_plugins.NameBadge.Rng.{XorShift32, next_u32, below, to_i16, range_i16}

-- What an i16 holds.
abbrev pub IsI16 : ℤ → Type 0
IsI16 x = (pos_part x < 2 ^ 15) × (neg_part x ≤ 2 ^ 15)

abbrev pub Between : ℤ → ℤ → ℤ → Type 0
Between lo x hi = (leb_ℤ lo x ≡ true) × (leb_ℤ x hi ≡ true)

below-lt : (r : XorShift32) (bound : ℕ) → 1 ≤ bound → (below r bound).0 < bound
unfolding below
below-lt r bound h = let small = mod-lt (next_u32 r).0 h in ground arith

to_i16_add :
    (lo hi : ℤ) (x : ℕ)
    → IsI16 lo
    → IsI16 hi
    → leb_ℤ lo (lo +ℤ pos x) ≡ true
    → leb_ℤ (lo +ℤ pos x) hi ≡ true
    → Between lo (to_i16 (lo +ℤ to_i16 (pos x))) hi
unfolding to_i16
to_i16_add (pos a) (pos b) x l h p q = ground arith
to_i16_add (pos a) (negsuc b) x l h p q = ground arith
to_i16_add (negsuc a) (pos b) x l h p q = ground arith
to_i16_add (negsuc a) (negsuc b) x l h p q = ground arith

span_room :
    (lo hi : ℤ) (x : ℕ)
    → IsI16 lo
    → IsI16 hi
    → leb_ℤ lo hi ≡ true
    → x < u32 (pos_part (hi -ℤ lo +ℤ pos 1))
    → (leb_ℤ lo (lo +ℤ pos x) ≡ true) × (leb_ℤ (lo +ℤ pos x) hi ≡ true)
span_room (pos a) (pos b) x l h o p = ground arith
span_room (pos a) (negsuc b) x l h o p = ground arith
span_room (negsuc a) (pos b) x l h o p = ground arith
span_room (negsuc a) (negsuc b) x l h o p = ground arith

span_positive :
    (lo hi : ℤ) → IsI16 lo → IsI16 hi → leb_ℤ lo hi ≡ true → 1 ≤ u32 (pos_part (hi -ℤ lo +ℤ pos 1))
span_positive (pos a) (pos b) l h o = ground arith
span_positive (pos a) (negsuc b) l h o = ground arith
span_positive (negsuc a) (pos b) l h o = ground arith
span_positive (negsuc a) (negsuc b) l h o = ground arith

-- A state that the generator does not stop at.
abbrev pub IsLive : XorShift32 → Type 0
IsLive r = (r.state < 2 ^ 32) × (1 ≤ r.state)

below-IsLive : (r : XorShift32) (bound : ℕ) → IsLive r → IsLive (below r bound).1
unfolding below next_u32
below-IsLive r bound live =
    let fits = xorshift-lt r.state live.0 in
    let never = xorshift-eq-zero r.state live.0 in ground (arith, fits, never)

ordered :
    (r : XorShift32) (lo hi : ℤ)
    → IsI16 lo
    → IsI16 hi
    → leb_ℤ lo hi ≡ true
    → Between lo (to_i16 (lo +ℤ to_i16 (pos (below r (u32 (pos_part (hi -ℤ lo +ℤ pos 1)))).0))) hi
ordered r lo hi l h o =
    let span = u32 (pos_part (hi -ℤ lo +ℤ pos 1)) in
    let x = (below r span).0 in
    let room = span_room lo hi x l h o (below-lt r span (span_positive lo hi l h o)) in
    to_i16_add lo hi x l h room.0 room.1

leb_ℤ_total : (a b : ℤ) → leb_ℤ a b ≡ false → leb_ℤ b a ≡ true
leb_ℤ_total a b e = ground arith

-- For bounds of 16 bits, in either order, the value lies between them, both included, although the
-- casts wrap; and from a live state of the generator the next state is live.
pub range_i16-Between :
    (r : XorShift32) (min max : ℤ)
    → IsI16 min
    → IsI16 max
    → IsLive r
    → (Between min (range_i16 r min max).0 max ⊎ Between max (range_i16 r min max).0 min)
      × IsLive (range_i16 r min max).1
unfolding range_i16
range_i16-Between r min max l h live = elim (Bool-cases (leb_ℤ min max)) [
  | inl up ↦ rw up (inl (ordered r min max l h up), below-IsLive r _ live)
  | inr down ↦
      rw down (inr (ordered r max min h l (leb_ℤ_total min max down)), below-IsLive r _ live)
]
