-- ===== src/ThermoPrinter/Proto/Frames.antt =====
-- Frames read back: what a printer that checks the framing and the checksum takes from a stream.
use cdc_badge_plugins.Base.{ℕ, ◌+◌, ◌*◌, ◌/◌, ◌%◌, ◌^◌, ◌<◌, ◌≡◌, refl}
use cdc_badge_plugins.Base.{◌&&◌, if◌then◌else◌, ◌==◌, Option, none, some, List, ◌∷◌, ◌++◌}
use cdc_badge_plugins.Base.{
  length, take, drop, take-append_self, drop-append_self, ==-self, arith, bit_and,
}
use cdc_badge_plugins.Base.Bits.{bit_and-255}
use mathlib.Core.List.{append_assoc}
use cdc_badge_plugins.ThermoPrinter.Proto.{crc8, frame}

-- A frame as the printer sees it.
pub record Command : Type 0 where
  pub code : ℕ
  pub payload : List ℕ

-- The end of a frame: the checksum of the payload, and 0xFF.
abbrev pub read_tail : ℕ → List ℕ → List ℕ → Option (Command × List ℕ)
read_tail cmd payload (c ∷ e ∷ rest) =
    if c == crc8 payload && e == 0xFF
    then some (record { code = cmd; payload = payload }, rest)
    else none
read_tail cmd payload _ = none

-- Reads one frame off a stream, and gives what follows it.
pub unframe : List ℕ → Option (Command × List ℕ)
unframe (a ∷ b ∷ cmd ∷ d ∷ lo ∷ hi ∷ rest) =
    let n = lo + hi * 256 in
    if a == 0x51 && b == 0x78 && d == 0x00 then read_tail cmd (take n rest) (drop n rest) else none
unframe _ = none

-- A frame of a payload that a 16-bit length can describe reads back, whatever follows it.
pub unframe-frame :
    (cmd : ℕ) (payload rest : List ℕ)
    → length payload < 2 ^ 16
    → unframe (frame cmd payload ++ rest) ≡ some (record { code = cmd; payload = payload }, rest)
unfolding unframe frame
unframe-frame cmd payload rest h =
    let n = bit_and (length payload) 0xFF % 256 + length payload / 256 % 256 * 256 in
    let size : length payload ≡ n = omega (arith, bit_and-255 (length payload)) in
    let tail = crc8 payload ∷ 0xFF ∷ rest in
    rw append_assoc (
      rw
        (
          take-append_self payload tail n size,
          drop-append_self payload tail n size,
          ==-self (crc8 payload),
        )
        refl)
