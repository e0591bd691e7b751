-- ===== src/GpioMqtt/Reader/Lengths.antt =====
-- The remaining length of a packet, written by `encode_remaining_len` and read back.
use cdc_badge_plugins.Base.{
  ℕ, zero, suc, ◌+◌, ◌*◌, ◌/◌, ◌%◌, ◌^◌, ◌≤◌, ◌<◌, bit_or, ltb, ◌==◌, if◌then◌else◌, true, some,
  ◌≡◌, refl, sym, ap, ◌∙◌, arith, append_nil, inl, inr, List, [], ◌∷◌, ◌++◌, Bool-cases, ==_iff,
}
use cdc_badge_plugins.Base.Bits.{all_below, all_below_sound}
use cdc_badge_plugins.GpioMqtt.Packet.{remaining_len_loop, encode_remaining_len}
use cdc_badge_plugins.GpioMqtt.Reader.{read_len}
use mathlib.Core.List.{append_assoc}
use native.Mathlib.Nat.{div-add-mod}

top_table : all_below 128 (λ x. bit_or x 0x80 == x + 128) ≡ true
unfolding all_below
top_table = refl

set_top : (x : ℕ) → x < 128 → bit_or x 0x80 ≡ x + 128
set_top x h = (==_iff _ _).0 (all_below_sound 128 _ x top_table h)

loop_append :
    (rounds len : ℕ) (out : List ℕ)
    → remaining_len_loop rounds len out ≡ out ++ remaining_len_loop rounds len []
unfolding remaining_len_loop
loop_append zero len out = sym (append_nil out)
loop_append (suc rounds) len out =
    let byte = if ltb 0 (len / 128) then bit_or (len % 128) 0x80 else len % 128 in
    ground (
      arith,
      loop_append rounds (len / 128) (out ++ byte ∷ []),
      loop_append rounds (len / 128) (byte ∷ []),
      append_assoc out (byte ∷ []) (remaining_len_loop rounds (len / 128) []),
    )

-- One round: the last group, or a group with the top bit set and the groups of the rest.
last_group : (rounds len : ℕ) → len < 128 → remaining_len_loop (suc rounds) len [] ≡ len ∷ []
unfolding remaining_len_loop
last_group rounds len h = ground arith

inner_group :
    (rounds len : ℕ)
    → 128 ≤ len
    → remaining_len_loop (suc rounds) len []
      ≡ (len % 128 + 128) ∷ remaining_len_loop rounds (len / 128) []
unfolding remaining_len_loop
inner_group rounds len h =
    ground (arith, set_top (len % 128), loop_append rounds (len / 128) ((len % 128 + 128) ∷ []))

groups : (len unit : ℕ) → len % 128 * unit + len / 128 * (unit * 128) ≡ len * unit
groups len unit = omega (arith, ap (λ (t : ℕ). t * unit) (div-add-mod len 128))

inner_byte :
    (bytes g acc unit : ℕ) (s : List ℕ)
    → read_len (suc bytes) acc unit ((g + 128) ∷ s) ≡ read_len bytes (acc + g * unit) (unit * 128) s
unfolding read_len
inner_byte bytes g acc unit s = ground arith

last_byte :
    (bytes b acc unit : ℕ) (s : List ℕ)
    → b < 128
    → read_len (suc bytes) acc unit (b ∷ s) ≡ some (acc + b * unit, s)
unfolding read_len
last_byte bytes b acc unit s h = ground arith

pub read_len-loop :
    (bytes rounds len acc unit : ℕ) (rest : List ℕ)
    → len < rounds
    → len < 128 ^ suc bytes
    → read_len (suc bytes) acc unit (remaining_len_loop rounds len [] ++ rest)
      ≡ some (acc + len * unit, rest)
read_len-loop bytes zero len acc unit rest h k = absurd (omega arith)
read_len-loop zero (suc rounds) len acc unit rest h k =
    rw (last_group rounds len (omega arith)) (last_byte zero len acc unit rest (omega arith))
read_len-loop (suc bytes) (suc rounds) len acc unit rest h k = elim (Bool-cases (ltb len 128)) [
  | inl small ↦
      rw (last_group rounds len (ground arith))
        (last_byte (suc bytes) len acc unit rest (ground arith))
  | inr big ↦ rw (inner_group rounds len (ground arith)) (
      inner_byte (suc bytes) (len % 128) acc unit (remaining_len_loop rounds (len / 128) [] ++ rest)
      ∙ read_len-loop bytes rounds (len / 128) (acc + len % 128 * unit) (unit * 128) rest
          (ground arith) (omega arith)
      ∙ ap (λ t. some (t, rest)) (omega (arith, groups len unit)))
]

-- What stands behind the first byte of a packet is read as its length and its body.
pub encode_remaining_len-cons :
    (kind len : ℕ) (body : List ℕ)
    → encode_remaining_len len (kind ∷ []) ++ body
      ≡ kind ∷ (remaining_len_loop (suc len) len [] ++ body)
unfolding encode_remaining_len
encode_remaining_len-cons kind len body = rw (loop_append (suc len) len (kind ∷ [])) refl
