-- ===== src/NameBadge/Rng.antt =====
-- The random numbers of the effects, plugins/name_badge/src/rng.rs. Proofs are in the module below.
pub mod Ranges
mod Tests
use package.cdc_badge_plugins.Base.{ℕ, ◌+◌, ◌-◌, ◌%◌, ◌^◌, Bool, ltb, ◌==◌, if◌then◌else◌, u16, u32}
use package.cdc_badge_plugins.Base.Int.{ℤ, pos, negsuc, pos_part, neg_part, ◌+ℤ◌, ◌-ℤ◌, leb_ℤ}
use package.cdc_badge_plugins.Base.Xorshift.{xorshift}

pub record XorShift32 : Type 0 where
  pub state : ℕ

-- `XorShift32::new`.
pub seeded : ℕ → XorShift32
seeded seed = record { state = if seed == 0 then 0x9E37_79B9 else seed }

pub next_u32 : XorShift32 → ℕ × XorShift32
next_u32 r = let x = xorshift r.state in (x, record { state = x })

pub below : XorShift32 → ℕ → ℕ × XorShift32
below r bound = let (x, r') = next_u32 r in if bound == 0 then (0, r) else (x % bound, r')

-- The cast of an integer to i16: its low 16 bits, read in two's complement.
pub to_i16 : ℤ → ℤ
to_i16 x =
    let bits = (pos_part x + (2 ^ 16 - neg_part x % 2 ^ 16)) % 2 ^ 16 in
    if ltb bits (2 ^ 15) then pos bits else negsuc (2 ^ 16 - 1 - bits)

-- The span is between 1 and 2 ^ 16, which u32 holds.
pub range_i16 : XorShift32 → ℤ → ℤ → ℤ × XorShift32
range_i16 r min max =
    let lo = if leb_ℤ min max then min else max in
    let hi = if leb_ℤ min max then max else min in
    let span = u32 (pos_part (hi -ℤ lo +ℤ pos 1)) in
    let (x, r') = below r span in (to_i16 (lo +ℤ to_i16 (pos x)), r')
