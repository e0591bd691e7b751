-- ===== src/ThermoPrinter/Proto/Notify.antt =====
-- Status notifications: which byte strings are read as a status.
use cdc_badge_plugins.Base.{ℕ, ◌≡◌, ◌↔◌, some, List, [], ◌∷◌, ==-self, arith, length}
use cdc_badge_plugins.ThermoPrinter.Proto.{
  Status, buffer_full, ready, crc8, cmd_device_status, parse_status,
}

abbrev pub status_byte : Status → ℕ
status_byte buffer_full = 0x10
status_byte ready = 0x00

-- The notification of the protocol: `51 78 AE 01 01 00 <st> <crc> FF`.
abbrev pub notification : Status → List ℕ
notification st =
    0x51
    ∷ 0x78
    ∷ cmd_device_status
    ∷ 0x01
    ∷ 0x01
    ∷ 0x00
    ∷ status_byte st
    ∷ crc8 (status_byte st ∷ [])
    ∷ 0xFF
    ∷ []

read_back : (st : Status) → parse_status (notification st) ≡ some st
unfolding parse_status
read_back buffer_full = rw (==-self (crc8 (0x10 ∷ [])))
read_back ready = rw (==-self (crc8 (0x00 ∷ [])))

nine :
    (a b c d e f g h i : ℕ) (st : Status)
    → parse_status (a ∷ b ∷ c ∷ d ∷ e ∷ f ∷ g ∷ h ∷ i ∷ []) ≡ some st
    → a ∷ b ∷ c ∷ d ∷ e ∷ f ∷ g ∷ h ∷ i ∷ [] ≡ notification st
unfolding parse_status
nine a b c d e f g h i buffer_full p = ground arith
nine a b c d e f g h i ready p = ground arith

long : (bytes : List ℕ) (st : Status) → parse_status bytes ≡ some st → length bytes ≡ 9
unfolding parse_status
long bytes st p = ground arith

-- `parse_status` reads a status from exactly one byte string, the notification of that status with
-- its checksum; every other input gives `None`.
pub parse_status_iff :
    (bytes : List ℕ) (st : Status) → (parse_status bytes ≡ some st) ↔ (bytes ≡ notification st)
parse_status_iff bytes st = (only bytes (long bytes st), λ e. rw e (read_back st))
  where
    only :
        (l : List ℕ)
        → (parse_status l ≡ some st → length l ≡ 9)
        → parse_status l ≡ some st
        → l ≡ notification st
    only (a ∷ b ∷ c ∷ d ∷ e ∷ f ∷ g ∷ h ∷ i ∷ []) n p = nine a b c d e f g h i st p
    only _ n p = absurd (omega (arith, n p))
