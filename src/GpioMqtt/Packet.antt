-- ===== src/GpioMqtt/Packet.antt =====
-- The packets of examples/gpio_mqtt/src/lib.rs. A `str` is its UTF-8 bytes.
use cdc_badge_plugins.Base.{
  ℕ, zero, suc, ◌/◌, ◌%◌, min, bit_or, ltb, ◌==◌, if◌then◌else◌, not, Option, none, some,
}
use cdc_badge_plugins.Base.{List, [], ◌∷◌, ◌++◌, length, take}
use cdc_badge_plugins.Base.Bytes.{codes}
use cdc_badge_plugins.Base.Chars.{is_empty}

-- `u16::to_be_bytes`.
abbrev pub u16_to_be : ℕ → List ℕ
u16_to_be n = n / 256 % 256 ∷ n % 256 ∷ []

unfoldable pub push_utf8 : List ℕ → List ℕ → List ℕ
push_utf8 s out =
    let len = min (length s) 65535 in let out' = out ++ u16_to_be len in out' ++ take len s

-- The loop of `encode_remaining_len`, with the rounds that it may take.
unfoldable pub remaining_len_loop : ℕ → ℕ → List ℕ → List ℕ
remaining_len_loop zero len out = out
remaining_len_loop (suc rounds) len out =
    let len' = len / 128 in
    let byte = if ltb 0 len' then bit_or (len % 128) 0x80 else len % 128 in
    let out' = out ++ byte ∷ [] in
    let more = remaining_len_loop rounds len' out' in if len' == 0 then out' else more

unfoldable pub encode_remaining_len : ℕ → List ℕ → List ℕ
unfolding remaining_len_loop
encode_remaining_len len out = remaining_len_loop (suc len) len out

-- `filter(|s| !s.is_empty())`.
unfoldable pub non_empty : Option (List ℕ) → Option (List ℕ)
unfolding is_empty
non_empty none = none
non_empty (some s) = if not (is_empty s) then some s else none

unfoldable pub set_flag : ℕ → Option (List ℕ) → ℕ → ℕ
set_flag bit none flags = flags
set_flag bit (some s) flags = bit_or flags bit

unfoldable pub push_option : Option (List ℕ) → List ℕ → List ℕ
push_option none out = out
push_option (some s) out = push_utf8 s out

abbrev pub keepalive_secs : ℕ
keepalive_secs = 60

unfoldable pub connect_variable : List ℕ → Option (List ℕ) → Option (List ℕ) → List ℕ
connect_variable client_id username password =
    let head = push_utf8 (codes "MQTT") [] ++ 0x04 ∷ [] in
    let flags = set_flag 0x80 username (set_flag 0x40 password 0x02) in
    let fixed = (head ++ flags ∷ []) ++ u16_to_be keepalive_secs in
    push_option password (push_option username (push_utf8 client_id fixed))

unfoldable pub encode_connect : List ℕ → Option (List ℕ) → Option (List ℕ) → List ℕ
unfolding encode_remaining_len
encode_connect client_id username password =
    let variable = connect_variable client_id (non_empty username) (non_empty password) in
    encode_remaining_len (length variable) (0x10 ∷ []) ++ variable

unfoldable pub encode_publish : List ℕ → List ℕ → List ℕ
unfolding encode_remaining_len
encode_publish topic payload =
    let variable = push_utf8 topic [] ++ payload in
    encode_remaining_len (length variable) (0x30 ∷ []) ++ variable
