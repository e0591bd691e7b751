-- ===== src/GpioMqtt/Session.antt =====
-- The session with the broker, examples/gpio_mqtt/src/lib.rs. What the badge host answers to a call
-- of `mqtt_send` is a record. The URL is a list of characters; the other texts, as the
-- configuration gives them, are UTF-8 bytes.
use cdc_badge_plugins.Base.{
  ℕ, zero, suc, ◌+◌, ◌-◌, ◌*◌, ◌%◌, ◌^◌, ltb, leb, ◌==◌, if◌then◌else◌, Bool, true, false, not,
  ◌&&◌, ◌||◌, Option, none, some, List, [], ◌∷◌, ◌++◌, length, take, drop, any,
}
use cdc_badge_plugins.Base.Bytes.{codes}
use cdc_badge_plugins.Base.Chars.{
  is_empty, trim, trim_start, trim_end_matches, is_whitespace, starts_with, ends_with_char,
}
use cdc_badge_plugins.GpioMqtt.Packet.{encode_connect}

pub record MqttTarget : Type 0 where
  pub host : List ℕ
  pub port : ℕ

-- `strip_prefix("mqtt://").unwrap_or(..)` and `strip_suffix('/').unwrap_or(..)`.
unfoldable pub strip_scheme : List ℕ → List ℕ
unfolding starts_with
strip_scheme s = if starts_with (codes "mqtt://") s then drop 7 s else s

unfoldable pub strip_slash : List ℕ → List ℕ
unfolding ends_with_char
strip_slash s = if ends_with_char b'/' s then take (length s - 1) s else s

-- `rsplit_once(':')`: the text before the last colon, and the text behind it.
unfoldable pub rsplit_colon : List ℕ → Option (List ℕ × List ℕ)
rsplit_colon [] = none
rsplit_colon (c ∷ s) = elim (rsplit_colon s) [
  | some (host, port_s) ↦ some (c ∷ host, port_s)
  | none ↦ if c == b':' then some ([], s) else none
]

-- `parse::<u16>()`: digits, with a plus sign in front at most, and no more than 65535.
unfoldable pub parse_digits : ℕ → List ℕ → Option ℕ
parse_digits n [] = some n
parse_digits n (c ∷ s) =
    let n' = n * 10 + (c - b'0') in
    let more = parse_digits n' s in if leb b'0' c && leb c b'9' && leb n' 65535 then more else none

unfoldable pub parse_u16 : List ℕ → Option ℕ
unfolding parse_digits
parse_u16 [] = none
parse_u16 (c ∷ []) = parse_digits 0 (c ∷ [])
parse_u16 (c ∷ d ∷ s) = if c == b'+' then parse_digits 0 (d ∷ s) else parse_digits 0 (c ∷ d ∷ s)

unfoldable pub target_of : List ℕ → Option ℕ → Option MqttTarget
target_of host none = none
target_of host (some port) =
    if is_empty host then none else some (record { host = host; port = port })

unfoldable pub parse_mqtt_url : List ℕ → Option MqttTarget
unfolding strip_scheme strip_slash rsplit_colon parse_u16 target_of is_empty trim trim_end_matches
    trim_start is_whitespace
parse_mqtt_url input =
    let rest = strip_slash (strip_scheme (trim input)) in
    if is_empty rest || any (λ c. c == b'/') rest then none else elim (rsplit_colon rest) [
      | none ↦ target_of rest (some 1883)
      | some (host, port_s) ↦
          if not (is_empty host) && not (is_empty port_s)
          then target_of host (parse_u16 port_s)
          else target_of rest (some 1883)
    ]

-- The reasons for a failure, one for each text of the source.
pub data Reason : Type 0 where
  invalid_url tcp_failed write_failed connack_failed no_connack : Reason
  bad_version id_rejected unavailable bad_login not_authorized broker_rejected : Reason
  not_connected : Reason

pub data Sent : Type 0 where
  ok : Sent
  err : Reason → Sent
  panicked : Sent

-- The answers to `write`, by the round and the length of the slice: the number of bytes taken, or
-- an error.
abbrev pub Writes : Type 0
Writes = ℕ → ℕ → Option ℕ

-- The rounds that `write_all` may take: each that goes on takes a byte at least.
unfoldable pub write_loop : ℕ → Writes → ℕ → List ℕ → List ℕ × Sent
write_loop rounds writes i [] = ([], ok)
write_loop zero writes i (b ∷ s) = ([], panicked)
write_loop (suc rounds) writes i (b ∷ s) = elim (writes i (length (b ∷ s))) [
  | none ↦ ([], err write_failed)
  | some n ↦
      let later = write_loop rounds writes (suc i) (drop n (b ∷ s)) in
      if n == 0
      then ([], err write_failed)
      else if ltb (length (b ∷ s)) n
      then ([], panicked)
      else (take n (b ∷ s) ++ later.0, later.1)
]

-- What went out on the stream, and the result.
unfoldable pub write_all : Writes → List ℕ → List ℕ × Sent
unfolding write_loop
write_all writes data' = write_loop (length data') writes 0 data'

pub record Config : Type 0 where
  pub url : List ℕ
  pub user : List ℕ
  pub pass : List ℕ
  pub topic : List ℕ

-- The host during one call of `mqtt_send`: the time, whether the connection is made, the writes of
-- CONNECT, the bytes read for CONNACK, and the writes of the packet.
pub record Answers : Type 0 where
  pub now : ℕ
  pub tcp : Bool
  pub connect_writes : Writes
  pub connack : Option (List ℕ)
  pub writes : Writes

unfoldable pub unless_empty : List ℕ → Option (List ℕ)
unfolding is_empty
unless_empty s = if is_empty s then none else some s

abbrev pub client_id : List ℕ
client_id = codes "cdc-badge-gpio"

unfoldable pub return_code : ℕ → Sent
return_code code =
    if code == 0
    then ok
    else if code == 1
    then err bad_version
    else if code == 2
    then err id_rejected
    else if code == 3
    then err unavailable
    else if code == 4
    then err bad_login
    else if code == 5
    then err not_authorized
    else err broker_rejected

-- The check of CONNACK. The buffer has four bytes, and a read of fewer is an error.
unfoldable pub check_connack : Option (List ℕ) → Sent
unfolding return_code
check_connack none = err connack_failed
check_connack (some (kind ∷ flags ∷ len ∷ code ∷ s)) =
    if not (kind == 0x20) then err no_connack else return_code code
check_connack (some _) = err no_connack

unfoldable pub mqtt_connect : Config → Answers → Sent
unfolding parse_mqtt_url encode_connect write_all check_connack unless_empty
mqtt_connect config host = elim (parse_mqtt_url config.url) [
  | none ↦ err invalid_url
  | some target ↦
      let packet = encode_connect client_id (unless_empty config.user) (unless_empty config.pass) in
      if not host.tcp then err tcp_failed else elim ((write_all host.connect_writes packet).1) [
        | ok ↦ check_connack host.connack
        | err e ↦ err e
        | panicked ↦ panicked
      ]
]

-- CONN, LAST_CONNECT_MS and LAST_TX_MS; the stream itself belongs to the host.
pub record Link : Type 0 where
  pub conn : Bool
  pub last_connect : ℕ
  pub last_tx : ℕ

-- `wrapping_sub` of u64.
abbrev pub elapsed : ℕ → ℕ → ℕ
elapsed now since = (now + 2 ^ 64 - since) % 2 ^ 64

abbrev pub connect_retry_ms : ℕ
connect_retry_ms = 5000

abbrev pub ping_interval_ms : ℕ
ping_interval_ms = 30000

-- Whether a call does not even try to open a session.
unfoldable pub too_soon : Link → ℕ → Bool
too_soon link now =
    not (link.last_connect == 0) && ltb (elapsed now link.last_connect) connect_retry_ms

-- The write on an open session: the link, the result, and the bytes that went out.
unfoldable pub send_open : Link → Answers → List ℕ → Link × Sent × List ℕ
unfolding write_all
send_open link host packet = elim ((write_all host.writes packet).1) [
  | ok ↦ (record link { last_tx = host.now }, ok, (write_all host.writes packet).0)
  | err e ↦ (record link { conn = false }, err e, (write_all host.writes packet).0)
  | panicked ↦ (link, panicked, (write_all host.writes packet).0)
]

unfoldable pub mqtt_send : Config → Link → Answers → List ℕ → Link × Sent × List ℕ
unfolding too_soon send_open mqtt_connect
mqtt_send config link host packet =
    if link.conn
    then send_open link host packet
    else if too_soon link host.now
    then (link, err not_connected, [])
    else let tried = record link { last_connect = host.now } in
      elim (mqtt_connect config host) [
        | ok ↦ send_open (record tried { conn = true }) host packet
        | err e ↦ (tried, err e, [])
        | panicked ↦ (tried, panicked, [])
      ]

abbrev pub mqtt_pingreq : List ℕ
mqtt_pingreq = 0xC0 ∷ 0x00 ∷ []

unfoldable pub keepalive_due : Link → ℕ → Bool
keepalive_due link now = link.conn && leb ping_interval_ms (elapsed now link.last_tx)

-- A failed ping is dropped; `none` is a panic.
unfoldable pub after_ping : Link × Sent × List ℕ → Option Link
after_ping (link, ok, bytes) = some link
after_ping (link, err e, bytes) = some link
after_ping (link, panicked, bytes) = none

unfoldable pub mqtt_keepalive : Config → Link → Answers → ℕ → Option Link
unfolding keepalive_due after_ping
mqtt_keepalive config link host now =
    if keepalive_due link now
    then after_ping (mqtt_send config link host mqtt_pingreq)
    else some link
