-- ===== src/GpioMqtt/Online.antt =====
-- A broker that is there: what examples/gpio_mqtt/src/lib.rs sends goes out.
use cdc_badge_plugins.Base.{
  ℕ, zero, suc, ◌≤◌, ◌<◌, true, some, ◌≡◌, ◌⊎◌, refl, arith, inl, inr, List, [], ◌∷◌, length, drop,
  length-drop, ◌∙◌, ap, ◌==◌, false, take, ◌++◌, ltb, take-append-drop, Bool-cases,
}
use cdc_badge_plugins.GpioMqtt.Packet.{encode_connect}
use cdc_badge_plugins.GpioMqtt.Session.{
  Sent, MqttTarget, Writes, Answers, Config, Link, ok, parse_mqtt_url, write_loop, write_all,
  client_id, unless_empty, check_connack, return_code, mqtt_connect, mqtt_send, send_open, too_soon,
  mqtt_keepalive, keepalive_due, after_ping, mqtt_pingreq,
}

-- Each write takes some of the bytes that it is offered.
abbrev pub Takes : Writes → Type 0
Takes writes = (i len : ℕ) → 0 < len → (n : ℕ) × (writes i len ≡ some n) × (0 < n) × (n ≤ len)

-- The broker accepts the connection, takes what is written, and welcomes the client.
pub record IsOnline (host : Answers) : Type 0 where
  pub tcp : host.tcp ≡ true
  pub greeting : Takes host.connect_writes
  pub flags : ℕ
  pub welcome : host.connack ≡ some (0x20 ∷ flags ∷ 2 ∷ 0 ∷ [])
  pub packets : Takes host.writes

-- A session is open, or none was tried before.
abbrev pub IsReady : Link → Type 0
IsReady link = (link.conn ≡ true) ⊎ (link.last_connect ≡ 0)

write_loop-all :
    (rounds : ℕ) (writes : Writes) (i : ℕ) (s : List ℕ)
    → Takes writes
    → length s ≤ rounds
    → write_loop rounds writes i s ≡ (s, ok)
unfolding write_loop
write_loop-all rounds writes i [] t h = refl
write_loop-all zero writes i (b ∷ s) t h = absurd (omega arith)
write_loop-all (suc rounds) writes i (b ∷ s) t h =
    let (n, e, some_bytes, fits) = t i (length (b ∷ s)) (omega arith) in
    let later =
      write_loop-all rounds writes (suc i) (drop n (b ∷ s)) t
        (omega (arith, length-drop n (b ∷ s))) in
    let taken : (n == 0) ≡ false = ground arith in
    let within : ltb (length (b ∷ s)) n ≡ false = ground arith in
    rw (e, write_loop)
      (rw (taken, within)
        (ap (λ (out : List ℕ × Sent). (take n (b ∷ s) ++ out.0, out.1)) later
          ∙ ap (λ (r : List ℕ). (r, ok)) (take-append-drop n (b ∷ s))))

write_all-all : (writes : Writes) (s : List ℕ) → Takes writes → write_all writes s ≡ (s, ok)
unfolding write_all
write_all-all writes s t = write_loop-all (length s) writes 0 s t (omega arith)

check_connack-ok : (flags : ℕ) → check_connack (some (0x20 ∷ flags ∷ 2 ∷ 0 ∷ [])) ≡ ok
unfolding check_connack return_code
check_connack-ok flags = refl

mqtt_connect-ok :
    (config : Config) (host : Answers) (target : MqttTarget)
    → parse_mqtt_url config.url ≡ some target
    → IsOnline host
    → mqtt_connect config host ≡ ok
unfolding mqtt_connect
mqtt_connect-ok config host target u o =
    let packet = encode_connect client_id (unless_empty config.user) (unless_empty config.pass) in
    rw
      (
        u,
        o.tcp,
        ap (λ r. r.1) (write_all-all host.connect_writes packet o.greeting),
        o.welcome,
        mqtt_connect,
      )
      (check_connack-ok o.flags)

send_open-ok :
    (link : Link) (host : Answers) (packet : List ℕ)
    → IsOnline host
    → send_open link host packet ≡ (record link { last_tx = host.now }, ok, packet)
unfolding send_open
send_open-ok link host packet o =
    let e = write_all-all host.writes packet o.packets in
    rw (ap (λ r. r.1) e, send_open)
      (ap (λ (out : List ℕ × Sent). (record link { last_tx = host.now }, ok, out.0)) e)

-- What is sent on such a link goes out, and the session is open then.
pub mqtt_send-ok :
    (config : Config) (link : Link) (host : Answers) (packet : List ℕ) (target : MqttTarget)
    → parse_mqtt_url config.url ≡ some target
    → IsOnline host
    → IsReady link
    → (l : Link) × (mqtt_send config link host packet ≡ (l, ok, packet)) × (l.conn ≡ true)
unfolding mqtt_send too_soon
mqtt_send-ok config link host packet target u o ready = elim (Bool-cases link.conn) [
  | inl open_now ↦ (
    record link { last_tx = host.now },
    ground (arith, open_now, send_open-ok link host packet o),
    open_now,
  )
  | inr closed ↦
      let fresh : link.last_connect ≡ 0 = ground (arith, ready) in
      let opened = record link { last_connect = host.now; conn = true } in
      (
        record opened { last_tx = host.now },
        ground (
          arith,
          closed,
          fresh,
          mqtt_connect-ok config host target u o,
          send_open-ok opened host packet o,
        ),
        refl,
      )
]

pub mqtt_keepalive-ready :
    (config : Config) (link : Link) (host : Answers) (now : ℕ) (target : MqttTarget)
    → parse_mqtt_url config.url ≡ some target
    → IsOnline host
    → IsReady link
    → (l : Link) × (mqtt_keepalive config link host now ≡ some l) × IsReady l
unfolding mqtt_keepalive after_ping
mqtt_keepalive-ready config link host now target u o ready =
    elim (Bool-cases (keepalive_due link now)) [
      | inl due ↦
          let (l, sent, open_now) = mqtt_send-ok config link host mqtt_pingreq target u o ready in
          (l, rw (due, sent) refl, inl open_now)
      | inr not_due ↦ (link, rw not_due refl, ready)
    ]
