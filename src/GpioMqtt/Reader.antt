-- ===== src/GpioMqtt/Reader.antt =====
-- A reader of MQTT 3.1.1 packets, as a broker has one: the reference for the packets that
-- examples/gpio_mqtt/src/lib.rs sends.
pub mod Lengths
pub mod Packets
use cdc_badge_plugins.Base.{
  ℕ, zero, suc, ◌+◌, ◌-◌, ◌*◌, ◌/◌, ◌%◌, ltb, leb, ◌==◌, if◌then◌else◌, ◌&&◌, ◌||◌, Bool, true,
  false, Option, none, some, List, [], ◌∷◌, length, take, drop,
}
use cdc_badge_plugins.Base.Bytes.{codes, str_eq}

pub data Packet : Type 0 where
  connect : ℕ → List ℕ → Option (List ℕ) → Option (List ℕ) → Packet
  publish : List ℕ → List ℕ → Packet

-- The remaining length: groups of seven bits, the lowest first, at most `bytes` of them.
unfoldable pub read_len : ℕ → ℕ → ℕ → List ℕ → Option (ℕ × List ℕ)
read_len zero acc unit s = none
read_len (suc bytes) acc unit [] = none
read_len (suc bytes) acc unit (b ∷ s) =
    let more = read_len bytes (acc + (b - 128) * unit) (unit * 128) s in
    if ltb b 128 then some (acc + b * unit, s) else more

-- The first `n` bytes, if there are as many, and what follows.
unfoldable pub read_bytes : ℕ → List ℕ → Option (List ℕ × List ℕ)
read_bytes n s = if leb n (length s) then some (take n s, drop n s) else none

unfoldable pub read_utf8 : List ℕ → Option (List ℕ × List ℕ)
read_utf8 (hi ∷ lo ∷ s) = read_bytes (hi * 256 + lo) s
read_utf8 _ = none

unfoldable pub read_if : Bool → List ℕ → Option (Option (List ℕ) × List ℕ)
read_if false s = some (none, s)
read_if true s = elim (read_utf8 s) [ none ↦ none | some (t, r) ↦ some (some t, r) ]

-- The part of a CONNECT behind the client: a user name, a password, and nothing else.
unfoldable pub read_login : ℕ → ℕ → List ℕ → List ℕ → Option Packet
read_login flags keepalive client s = elim (read_if (flags / 128 % 2 == 1) s) [
  | none ↦ none
  | some (user, s') ↦ elim (read_if (flags / 64 % 2 == 1) s') [
    | none ↦ none
    | some (pass, []) ↦ some (connect keepalive client user pass)
    | some (pass, b ∷ r) ↦ none
  ]
]

-- The flags that are understood: the reserved bit is 0, no will, a clean session, and a password
-- only with a user name.
unfoldable pub flags_fit : ℕ → Bool
flags_fit flags =
    (flags % 64 == 2) && (leb flags 255) && ((flags / 128 % 2 == 1) || (flags / 64 % 2 == 0))

-- The protocol level 4, the flags, the keep-alive time and the client.
unfoldable pub read_fixed : List ℕ → Option Packet
unfolding flags_fit
read_fixed (level ∷ flags ∷ hi ∷ lo ∷ s) = elim (read_utf8 s) [
  | none ↦ none
  | some (client, r) ↦
      if level == 4 && flags_fit flags then read_login flags (hi * 256 + lo) client r else none
]
read_fixed _ = none

unfoldable pub read_connect : List ℕ → Option Packet
read_connect body = elim (read_utf8 body) [
  | none ↦ none
  | some (name, s) ↦ if str_eq name (codes "MQTT") then read_fixed s else none
]

-- A PUBLISH of quality 0: the topic and the payload.
unfoldable pub read_publish : List ℕ → Option Packet
read_publish body = elim (read_utf8 body) [
  | none ↦ none
  | some (topic, payload) ↦ some (publish topic payload)
]

unfoldable pub read_body : ℕ → List ℕ → Option Packet
read_body kind body =
    if kind == 0x10 then read_connect body else if kind == 0x30 then read_publish body else none

unfoldable pub with_rest : Option Packet → List ℕ → Option (Packet × List ℕ)
with_rest none rest = none
with_rest (some p) rest = some (p, rest)

-- One packet, and the bytes behind it.
unfoldable pub read_packet : List ℕ → Option (Packet × List ℕ)
read_packet [] = none
read_packet (kind ∷ s) = elim (read_len 4 0 1 s) [
  | none ↦ none
  | some (len, s') ↦ elim (read_bytes len s') [
    | none ↦ none
    | some (body, rest) ↦ with_rest (read_body kind body) rest
  ]
]
