-- ===== src/NameBadge/Dither/Bits.antt =====
-- Single pixels of a raster: the most significant bit of a byte is the leftmost one.
use package.cdc_badge_plugins.Base.{
  ℕ, zero, suc, ◌-◌, ◌/◌, ◌%◌, ◌^◌, ◌<◌, bit_and, ltb, ltb→lt, ◌==◌, Bool, true, false, not, ◌&&◌,
  ◌≡◌, ◌≢◌, ◌⊎◌, refl, sym, ap, ◌∙◌, arith, inl, inr, List, [], ◌∷◌, get_or, set, All, ◌>>>◌,
}
use package.cdc_badge_plugins.Base.Bits.{all_below, all_below_sound}
use package.cdc_badge_plugins.NameBadge.Dither.{clear_bit}

unfoldable pub bit : ℕ → ℕ → Bool
bit b k = b / 2 ^ (7 - k) % 2 == 1

-- Pixel `k` of byte `i`.
unfoldable pub bit_at : List ℕ → ℕ → ℕ → Bool
unfolding bit
bit_at out i k = bit (get_or out i 0) k

abbrev pub IsByte : ℕ → Type 0
IsByte b = b < 256

abbrev bool_eq : Bool → Bool → Bool
bool_eq true b = b
bool_eq false b = not b

bool_eq→≡ : (a b : Bool) → bool_eq a b ≡ true → a ≡ b
bool_eq→≡ true b e = sym e
bool_eq→≡ false true e = cc
bool_eq→≡ false false e = refl

cleared_table :
    all_below 256 (λ b. all_below 8 (λ c.
      all_below 8 (λ k. bool_eq (bit (bit_and b (255 - 0x80 >>> c)) k) (bit b k && not (k == c)))
      && ltb (bit_and b (255 - 0x80 >>> c)) 256))
    ≡ true
unfolding all_below bit
cleared_table = refl

and_left : (a b : Bool) → (a && b) ≡ true → a ≡ true
and_left true b e = refl
and_left false b e = e

and_right : (a b : Bool) → (a && b) ≡ true → b ≡ true
and_right true b e = e
and_right false b e = cc

cleared_row :
    (b c : ℕ)
    → b < 256
    → c < 8
    → (all_below 8 (λ k. bool_eq (bit (bit_and b (255 - 0x80 >>> c)) k) (bit b k && not (k == c)))
        && ltb (bit_and b (255 - 0x80 >>> c)) 256)
      ≡ true
cleared_row b c h l = all_below_sound 8 _ c (all_below_sound 256 _ b cleared_table h) l

cleared_bit :
    (b c k : ℕ)
    → b < 256
    → c < 8
    → k < 8
    → bit (bit_and b (255 - 0x80 >>> c)) k ≡ (bit b k && not (k == c))
cleared_bit b c k h l m =
    bool_eq→≡ _ _ (all_below_sound 8 _ k (and_left _ _ (cleared_row b c h l)) m)

cleared-IsByte : (b c : ℕ) → b < 256 → c < 8 → IsByte (bit_and b (255 - 0x80 >>> c))
cleared-IsByte b c h l = ltb→lt _ _ (and_right _ _ (cleared_row b c h l))

no_bits : all_below 8 (λ k. not (bit 0 k)) ≡ true
unfolding all_below bit
no_bits = refl

bit-zero : (k : ℕ) → k < 8 → bit 0 k ≡ false
bit-zero k h = by_value (bit 0 k) (all_below_sound 8 (λ k. not (bit 0 k)) k no_bits h)
  where
    by_value : (b : Bool) → not b ≡ true → b ≡ false
    by_value true e = cc
    by_value false e = refl

get_or-set_other : (xs : List ℕ) (i j v : ℕ) → j ≢ i → get_or (set xs i v) j 0 ≡ get_or xs j 0
get_or-set_other [] i j v n = refl
get_or-set_other (x ∷ xs) zero zero v n = absurd (n refl)
get_or-set_other (x ∷ xs) zero (suc j) v n = refl
get_or-set_other (x ∷ xs) (suc i) zero v n = refl
get_or-set_other (x ∷ xs) (suc i) (suc j) v n = get_or-set_other xs i j v (omega arith)

set-All : (xs : List ℕ) (i v : ℕ) → All IsByte xs → IsByte v → All IsByte (set xs i v)
set-All [] i v a h = a
set-All (x ∷ xs) zero v a h = (h, a.1)
set-All (x ∷ xs) (suc i) v a h = (a.0, set-All xs i v a.1 h)

get_or-IsByte : (xs : List ℕ) (i : ℕ) → All IsByte xs → IsByte (get_or xs i 0)
get_or-IsByte [] i a = omega arith
get_or-IsByte (x ∷ xs) zero a = a.0
get_or-IsByte (x ∷ xs) (suc i) a = get_or-IsByte xs i a.1

pub clear_bit-IsByte :
    (out : List ℕ) (i c : ℕ) → c < 8 → All IsByte out → All IsByte (clear_bit out i c)
unfolding clear_bit
clear_bit-IsByte out i c l a = set-All out i _ a (cleared-IsByte _ c (get_or-IsByte out i a) l)

pub bit_at-clear_other :
    (out : List ℕ) (i c j k : ℕ) → j ≢ i → bit_at (clear_bit out i c) j k ≡ bit_at out j k
unfolding clear_bit bit_at
bit_at-clear_other out i c j k n = ap (λ b. bit b k) (get_or-set_other out i j _ n)

get_or-set_self :
    (xs : List ℕ) (i v : ℕ)
    → (get_or (set xs i v) i 0 ≡ v) ⊎ ((get_or (set xs i v) i 0 ≡ 0) × (get_or xs i 0 ≡ 0))
get_or-set_self [] i v = inr (refl, refl)
get_or-set_self (x ∷ xs) zero v = inl refl
get_or-set_self (x ∷ xs) (suc i) v = get_or-set_self xs i v

pub bit_at-clear_self :
    (out : List ℕ) (i c k : ℕ)
    → All IsByte out
    → c < 8
    → k < 8
    → bit_at (clear_bit out i c) i k ≡ (bit_at out i k && not (k == c))
unfolding clear_bit bit_at
bit_at-clear_self out i c k a l m =
    elim (get_or-set_self out i (bit_and (get_or out i 0) (255 - 0x80 >>> c))) [
      | inl e ↦ ap (λ b. bit b k) e ∙ cleared_bit (get_or out i 0) c k (get_or-IsByte out i a) l m
      | inr (e, z) ↦
          ap (λ b. bit b k) e
          ∙ bit-zero k m
          ∙ sym (ap (λ b. bit b k && not (k == c)) z ∙ ap (λ t. t && not (k == c)) (bit-zero k m))
    ]
