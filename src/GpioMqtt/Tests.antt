-- ===== src/GpioMqtt/Tests.antt =====
-- Inputs at which the definitions and the theorems about examples/gpio_mqtt/src/lib.rs are tried; the
-- texts are those of its tests.
use cdc_badge_plugins.Base.{
  ℕ, Bool, true, false, none, some, ◌≡◌, refl, arith, List, [], ◌∷◌, ◌++◌, replicate, min,
}
use cdc_badge_plugins.Base.Bytes.{codes}
use cdc_badge_plugins.GpioMqtt.Packet.{
  encode_remaining_len, encode_connect, encode_publish, push_utf8, non_empty, connect_variable,
  push_option, keepalive_secs,
}
use cdc_badge_plugins.GpioMqtt.Reader.{connect, publish, read_packet}
use cdc_badge_plugins.GpioMqtt.Reader.Packets.{
  read_packet-encode_publish, read_packet-encode_connect,
}
use cdc_badge_plugins.GpioMqtt.Session.{
  parse_mqtt_url, Answers, Config, Link, Writes, write_all, mqtt_send, Sent,
}
use cdc_badge_plugins.GpioMqtt.Polling.{Badge, never, Event, enter, tick, change_payload}
use cdc_badge_plugins.GpioMqtt.Delivery.{Delivered, IsFair, write_all-Delivered}
use cdc_badge_plugins.GpioMqtt.Retry.{attempts, IsSpaced, attempts-IsSpaced}

url_default :
    parse_mqtt_url (codes "mqtt://broker.local")
    ≡ some (record { host = codes "broker.local"; port = 1883 })
unfolding parse_mqtt_url
url_default = refl

url_port :
    parse_mqtt_url (codes " mqtt://192.168.1.2:1884/ ")
    ≡ some (record { host = codes "192.168.1.2"; port = 1884 })
unfolding parse_mqtt_url
url_port = refl

url_scheme : parse_mqtt_url (codes "https://broker.local") ≡ none
unfolding parse_mqtt_url
url_scheme = refl

url_range : parse_mqtt_url (codes "broker:65536") ≡ none
unfolding parse_mqtt_url
url_range = refl

remaining_bounds :
    (encode_remaining_len 0 [] ≡ 0 ∷ [])
    × (encode_remaining_len 127 [] ≡ 127 ∷ [])
    × (encode_remaining_len 128 [] ≡ 0x80 ∷ 0x01 ∷ [])
    × (encode_remaining_len 16384 [] ≡ 0x80 ∷ 0x80 ∷ 0x01 ∷ [])
unfolding encode_remaining_len
remaining_bounds = (refl, refl, refl, refl)

publish_text : encode_publish (codes "a") (codes "hi") ≡ 0x30 ∷ 5 ∷ 0 ∷ 1 ∷ codes "ahi"
unfolding encode_publish push_utf8
publish_text = refl

change_text :
    change_payload (codes "io4") true ≡ codes "{\"type\":\"change\",\"pin\":\"io4\",\"value\":1}"
unfolding change_payload
change_text = refl

-- A stream that takes three bytes at a time.
abbrev slow : Writes
slow i len = some (min 3 len)

slow-IsFair : IsFair slow
slow-IsFair i len n e = ground arith

slow_hello : write_all slow (codes "hello") ≡ (codes "hello", Sent.ok)
unfolding write_all
slow_hello = refl

write_all-Delivered_example : Delivered (codes "hello") (write_all slow (codes "hello"))
write_all-Delivered_example = write_all-Delivered slow (codes "hello") slow-IsFair

read_packet-encode_publish_example :
    read_packet (encode_publish (codes "a/b") (codes "on") ++ codes "rest")
    ≡ some (publish (codes "a/b") (codes "on"), codes "rest")
read_packet-encode_publish_example =
    read_packet-encode_publish (codes "a/b") (codes "on") (codes "rest") (omega arith) (omega arith)

read_packet-encode_connect_example :
    read_packet (encode_connect (codes "me") (some (codes "ann")) (some (codes "pw")) ++ [])
    ≡ some (
      connect keepalive_secs
          (codes "me")
          (non_empty (some (codes "ann")))
          (non_empty (some (codes "pw"))),
      [],
    )
unfolding non_empty
read_packet-encode_connect_example =
    read_packet-encode_connect (codes "me") [] (some (codes "ann")) (some (codes "pw"))
      (omega arith) (omega arith) (omega arith) tt

abbrev home : Config
home = record { url = codes "broker"; user = []; pass = []; topic = codes "t" }

abbrev broker_at : ℕ → Bool → Answers
broker_at now tcp = record {
  now = now;
  tcp = tcp;
  connect_writes = slow;
  connack = some (0x20 ∷ 0 ∷ 2 ∷ 0 ∷ []);
  writes = slow;
}

abbrev idle : Link
idle = record { conn = false; last_connect = 0; last_tx = 0 }

-- The broker is not there, and is asked again after five seconds only.
abbrev calls : List (Answers × List ℕ)
calls =
    (broker_at 100 false, codes "a")
    ∷ (broker_at 200 false, codes "b")
    ∷ (broker_at 5200 true, codes "c")
    ∷ []

attempt_times : attempts home idle calls ≡ 100 ∷ 5200 ∷ []
unfolding attempts mqtt_send connect_variable push_option non_empty push_utf8
attempt_times = refl

attempts-IsSpaced_example : IsSpaced 0 (attempts home idle calls)
attempts-IsSpaced_example = attempts-IsSpaced home idle 0 calls (omega arith) (omega arith)

abbrev off_badge : Badge
off_badge = record {
  last_levels = [];
  have_levels = false;
  last_poll = 0;
  last_publish = never;
  link = idle;
}

abbrev low_levels : List Bool
low_levels = replicate 14 false

abbrev one_high : List Bool
one_high = true ∷ replicate 13 false

abbrev visit : List Event
visit = enter (broker_at 100 true) low_levels ∷ tick 300 (λ i. broker_at 300 true) one_high ∷ []
