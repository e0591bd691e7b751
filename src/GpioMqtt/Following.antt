-- ===== src/GpioMqtt/Following.antt =====
-- A subscriber follows the pins of examples/gpio_mqtt/src/lib.rs while a broker is there.
use cdc_badge_plugins.Base.{ℕ, true, Option, none, some, ◌≡◌, List, length}
use cdc_badge_plugins.GpioMqtt.Polling.{pin_names, Payload, Badge, Event, enter, tick, exit}
use cdc_badge_plugins.GpioMqtt.Online.{IsOnline, IsReady}
use cdc_badge_plugins.GpioMqtt.Follower.{Heard, hear_all, Agrees}

-- A badge that has levels has one for each pin, and the subscriber agrees with it.
abbrev pub IsFollowed : Heard → Badge → Type 0
IsFollowed heard badge =
    badge.have_levels ≡ true
    → (length badge.last_levels ≡ length pin_names) × Agrees heard pin_names badge.last_levels

-- An outcome without a panic after which the subscriber is up to date, with a link that is ready.
abbrev pub Follows : Heard → Option (Badge × List Payload) → Type 0
Follows heard none = ⊥
Follows heard (some (badge, ps)) = IsFollowed (hear_all heard ps) badge × IsReady badge.link

-- The plugin is entered or polls; the broker is there, and a reading has a level for each pin.
abbrev pub IsOnlineEvent : Event → Type 0
IsOnlineEvent (enter host levels) = IsOnline host × (length levels ≡ length pin_names)
IsOnlineEvent (tick now hosts levels) =
    ((j : ℕ) → IsOnline (hosts j)) × (length levels ≡ length pin_names)
IsOnlineEvent exit = ⊥
