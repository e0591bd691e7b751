-- ===== src/Base/Xorshift.antt =====
-- The xorshift step that the plugins' generators share: it keeps the 32-bit range and never reaches
-- zero from another state.
use cdc_badge_plugins.Base.Word.{u32, ◌<<<◌, ◌>>>◌}
use cdc_badge_plugins.Base.Bits.{bit_xor-lt, bit_xor-eq-zero}
use Prim.Native.Nat.{ℕ, ◌^◌, ◌<◌, bit_xor}
use mathlib.Core.Path.{◌≡◌}
use native.Mathlib.Omega.{arith}

-- x ^= x << 13; x ^= x >> 17; x ^= x << 5, on u32.
unfoldable pub xorshift : ℕ → ℕ
xorshift x =
    let a = bit_xor x (u32 (x <<< 13)) in let b = bit_xor a (a >>> 17) in bit_xor b (u32 (b <<< 5))

pub xorshift-lt : (x : ℕ) → x < 2 ^ 32 → xorshift x < 2 ^ 32
unfolding xorshift
xorshift-lt x h =
    let a = bit_xor x (u32 (x <<< 13)) in
    let ha : a < 2 ^ 32 = bit_xor-lt 32 x (u32 (x <<< 13)) h (omega arith) in
    let b = bit_xor a (a >>> 17) in
    let hb : b < 2 ^ 32 = bit_xor-lt 32 a (a >>> 17) ha (omega arith) in
    bit_xor-lt 32 b (u32 (b <<< 5)) hb (omega arith)

shift_left_13 : (x : ℕ) → x < 2 ^ 32 → bit_xor x (u32 (x <<< 13)) ≡ 0 → x ≡ 0
shift_left_13 x h e = omega (arith, bit_xor-eq-zero x (u32 (x <<< 13)) e)

shift_right_17 : (x : ℕ) → bit_xor x (x >>> 17) ≡ 0 → x ≡ 0
shift_right_17 x e = omega (arith, bit_xor-eq-zero x (x >>> 17) e)

shift_left_5 : (x : ℕ) → x < 2 ^ 32 → bit_xor x (u32 (x <<< 5)) ≡ 0 → x ≡ 0
shift_left_5 x h e = omega (arith, bit_xor-eq-zero x (u32 (x <<< 5)) e)

pub xorshift-eq-zero : (x : ℕ) → x < 2 ^ 32 → xorshift x ≡ 0 → x ≡ 0
unfolding xorshift
xorshift-eq-zero x h e =
    let a = bit_xor x (u32 (x <<< 13)) in
    let ha : a < 2 ^ 32 = bit_xor-lt 32 x (u32 (x <<< 13)) h (omega arith) in
    let b = bit_xor a (a >>> 17) in
    let hb : b < 2 ^ 32 = bit_xor-lt 32 a (a >>> 17) ha (omega arith) in
    shift_left_13 x h (shift_right_17 a (shift_left_5 b hb e))
