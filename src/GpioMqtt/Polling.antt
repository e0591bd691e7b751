-- ===== src/GpioMqtt/Polling.antt =====
-- The polling of the pins and what is published, examples/gpio_mqtt/src/lib.rs. `none` is a panic.
use cdc_badge_plugins.Base.{
  ℕ, suc, ltb, if◌then◌else◌, Bool, true, false, not, Option, none, some, List, [], ◌∷◌, ◌++◌, map,
  get_or, set,
}
use cdc_badge_plugins.Base.Bytes.{codes, str_eq}
use cdc_badge_plugins.GpioMqtt.Packet.{encode_publish}
use cdc_badge_plugins.GpioMqtt.Session.{
  Sent, ok, err, panicked, Config, Answers, Link, elapsed, mqtt_send, mqtt_keepalive,
}

-- The names of PINS, in their order.
abbrev pub pin_names : List (List ℕ)
pin_names = map codes (
    "grove0" ∷ "grove1" ∷ "sao1" ∷ "sao2" ∷ "io4" ∷ "io5" ∷ "io6" ∷ "io7" ∷ "io9" ∷ "io14" ∷ "io38"
    ∷ "io40" ∷ "io43" ∷ "io44" ∷ [])

abbrev pub bool_eq : Bool → Bool → Bool
bool_eq true b = b
bool_eq false b = not b

unfoldable pub level_u8 : Bool → List ℕ
level_u8 v = if v then b'1' ∷ [] else b'0' ∷ []

-- The pins of a snapshot, with a comma in front of all but the first.
unfoldable pub pin_fields : Bool → List (List ℕ) → List Bool → List ℕ
unfolding level_u8
pin_fields first [] levels = []
pin_fields first (name ∷ names) [] = []
pin_fields first (name ∷ names) (v ∷ levels) =
    (if first then [] else b',' ∷ [])
    ++ (b'"' ∷ name ++ (b'"' ∷ b':' ∷ level_u8 v ++ pin_fields false names levels))

unfoldable pub snapshot_payload : List Bool → List ℕ
unfolding pin_fields
snapshot_payload levels =
    codes "{\"type\":\"snapshot\",\"pins\":{" ++ (pin_fields true pin_names levels ++ codes "}}")

unfoldable pub change_payload : List ℕ → Bool → List ℕ
unfolding level_u8
change_payload pin_name level =
    codes "{\"type\":\"change\",\"pin\":\""
    ++ (pin_name ++ (codes "\",\"value\":" ++ (level_u8 level ++ codes "}")))

pub data PublishState : Type 0 where
  never fine failed : PublishState

-- The static cells of the plugin.
pub record Badge : Type 0 where
  pub last_levels : List Bool
  pub have_levels : Bool
  pub last_poll : ℕ
  pub last_publish : PublishState
  pub link : Link

-- What a payload says.
pub data Payload : Type 0 where
  snapshot : List Bool → Payload
  change : List ℕ → Bool → Payload

unfoldable pub payload_text : Payload → List ℕ
payload_text (snapshot levels) = snapshot_payload levels
payload_text (change name level) = change_payload name level

unfoldable pub remember_publish : Badge → Link → Sent → Option Badge
remember_publish badge link ok = some (record badge { last_publish = fine; link = link })
remember_publish badge link (err e) = some (record badge { last_publish = failed; link = link })
remember_publish badge link panicked = none

-- A subscriber hears a payload when the whole packet went out.
unfoldable pub heard_of : List ℕ → List ℕ → Payload → List Payload
heard_of bytes packet p = if str_eq bytes packet then p ∷ [] else []

-- `publish_snapshot` and `publish_change`: `mqtt_publish`, and what is remembered of it; with it, the
-- payload if it went out.
unfoldable pub publish_payload : Config → Badge → Answers → Payload → Option (Badge × List Payload)
unfolding remember_publish heard_of
publish_payload config badge host payload =
    let packet = encode_publish config.topic (payload_text payload) in
    let (link, sent, bytes) = mqtt_send config badge.link host packet in
    elim (remember_publish badge link sent) [
      | none ↦ none
      | some b ↦ some (b, heard_of bytes packet payload)
    ]

-- Payloads that went out before the later ones.
unfoldable pub all_noted :
    List Payload → Option (Badge × List Payload) → Option (Badge × List Payload)
all_noted ps none = none
all_noted ps (some (badge, qs)) = some (badge, ps ++ qs)

-- The loop over the pins, from pin `i` and host call `k` on, with the payloads that go out.
unfoldable pub change_loop :
    Config
    → (ℕ → Answers)
    → List (List ℕ)
    → List Bool
    → ℕ
    → ℕ
    → Badge
    → Option (Badge × List Payload)
unfolding all_noted
change_loop config hosts [] next i k badge = some (badge, [])
change_loop config hosts (name ∷ names) [] i k badge = some (badge, [])
change_loop config hosts (name ∷ names) (v ∷ next) i k badge =
    let same = change_loop config hosts names next (suc i) k badge in
    let badge' = record badge { last_levels = set badge.last_levels i v } in
    let changed : Option (Badge × List Payload) =
      elim (publish_payload config badge' (hosts k) (change name v)) [
        | none ↦ none
        | some (b, ps) ↦ all_noted ps (change_loop config hosts names next (suc i) (suc k) b)
      ] in
    if bool_eq (get_or badge.last_levels i false) v then same else changed

abbrev pub poll_interval_ms : ℕ
poll_interval_ms = 100

-- The levels of a badge that has none yet are published as a snapshot.
unfoldable pub first_levels : Config → Badge → Answers → List Bool → Option (Badge × List Payload)
unfolding all_noted
first_levels config badge host levels = elim (publish_payload config badge host (snapshot levels)) [
  | none ↦ none
  | some (b, ps) ↦ all_noted ps (some (b, []))
]

-- The part of `poll_gpio` behind the keep-alive.
unfoldable pub compare_levels :
    Config → Badge → (ℕ → Answers) → List Bool → Option (Badge × List Payload)
unfolding change_loop first_levels
compare_levels config badge hosts next =
    if badge.have_levels
    then change_loop config hosts pin_names next 0 1 badge
    else first_levels config (record badge { last_levels = next; have_levels = true }) (hosts 1)
        next

-- Host call 0 is that of the keep-alive.
unfoldable pub poll_gpio :
    Config → Badge → ℕ → (ℕ → Answers) → List Bool → Option (Badge × List Payload)
unfolding compare_levels
poll_gpio config badge now hosts next =
    if ltb (elapsed now badge.last_poll) poll_interval_ms
    then some (badge, [])
    else elim (mqtt_keepalive config badge.link (hosts 0) now) [
      | none ↦ none
      | some link ↦ compare_levels config (record badge { last_poll = now; link = link }) hosts next
    ]

unfoldable pub plugin_on_enter :
    Config → Badge → Answers → List Bool → Option (Badge × List Payload)
unfolding first_levels
plugin_on_enter config badge host levels =
    first_levels config
      (record badge { last_levels = levels; have_levels = true; last_publish = never }) host levels

unfoldable pub plugin_on_exit : Badge → Badge
plugin_on_exit badge = record badge {
  have_levels = false;
  last_poll = 0;
  link = record badge.link { conn = false };
}

-- The calls of the plugin, each with what the host answers.
pub data Event : Type 0 where
  enter : Answers → List Bool → Event
  tick : ℕ → (ℕ → Answers) → List Bool → Event
  exit : Event

unfoldable pub on_event : Config → Badge → Event → Option (Badge × List Payload)
unfolding poll_gpio plugin_on_enter plugin_on_exit
on_event config badge (enter host levels) = plugin_on_enter config badge host levels
on_event config badge (tick now hosts levels) = poll_gpio config badge now hosts levels
on_event config badge exit = some (plugin_on_exit badge, [])

unfoldable pub on_events : Config → Badge → List Event → Option (Badge × List Payload)
unfolding on_event all_noted
on_events config badge [] = some (badge, [])
on_events config badge (e ∷ es) = elim (on_event config badge e) [
  | none ↦ none
  | some (badge', ps) ↦ all_noted ps (on_events config badge' es)
]
