-- ===== src/Matrix/Sync.antt =====
-- Rooms, invitations and the answer to a sync request: plugins/matrix/src/json.rs.
use cdc_badge_plugins.Base.{
  ℕ, max, Bool, true, false, not, ◌||◌, if◌then◌else◌, Option, none, some, List, [], ◌∷◌, ◌++◌, map,
  any, retain, u8, u32,
}
use mathlib.Core.List.{filter_map, flat_map}
use cdc_badge_plugins.Base.Bytes.{codes, str_eq}
use cdc_badge_plugins.Matrix.Text.{short_sender}
use cdc_badge_plugins.Matrix.Json.{
  Json, ◌>>=◌, unwrap_or, str_at, text_at, u64_at, array_at, object_at, text_in, says,
}
use cdc_badge_plugins.Matrix.Model.{Message}
use cdc_badge_plugins.Matrix.Events.{
  Seen, see_encryption, see_events, push_new, push_name, name_from_events, parse_message_event,
}

pub record RoomUpdate : Type 0 where
  pub id : List ℕ
  pub name : Option (List ℕ)
  pub encrypted : Bool
  pub messages : List Message
  pub members : List (List ℕ)
  pub left_members : List (List ℕ)
  pub member_names : List (List ℕ × List ℕ)
  pub last_ts : ℕ
  pub invited : Bool

pub record ToDeviceOlm : Type 0 where
  pub sender_key : List ℕ
  pub recipient_curve : List ℕ
  pub msg_type : ℕ
  pub body : List ℕ

pub record SyncResult : Type 0 where
  pub next_batch : List ℕ
  pub rooms : List RoomUpdate
  pub to_device : List ToDeviceOlm
  pub otk_count : Option ℕ
  pub left : List (List ℕ)

abbrev pub nothing_seen : Seen
nothing_seen = record { is_encrypted = false; members = []; left_members = []; member_names = [] }

-- `or_else`.
abbrev pub or_else {ℓ} : {A : Type ℓ} → Option A → Option A → Option A
or_else none o = o
or_else (some a) o = some a

-- The display name of a hero, when one was seen that is not empty.
unfoldable pub display_name : List (List ℕ × List ℕ) → List ℕ → Option (List ℕ)
display_name [] mxid = none
display_name (n ∷ names) mxid =
    let rest = display_name names mxid in
    if str_eq n.0 mxid then (if str_eq n.1 [] then none else some n.1) else rest

-- `join(", ")`.
unfoldable pub join_names : List (List ℕ) → List ℕ
join_names [] = []
join_names (n ∷ []) = n
join_names (n ∷ m ∷ names) = n ++ codes ", " ++ join_names (m ∷ names)

module _ ⦃J : Json⦄ where
  open J use {Value, get, from_str, as_str, as_array, as_object}

  unfoldable pub event_array : Value → List ℕ → List Value
  event_array parent section =
      unwrap_or (get parent section >>= λ s. array_at s (codes "events")) []

  unfoldable pub hero_name : List (List ℕ × List ℕ) → List ℕ → List ℕ
  hero_name member_names mxid = unwrap_or (display_name member_names mxid) (short_sender mxid)

  unfoldable pub name_from_heroes : Value → List (List ℕ × List ℕ) → Option (List ℕ)
  name_from_heroes room member_names = get room (codes "summary") >>= λ summary.
      array_at summary (codes "m.heroes") >>= λ heroes.
      elim (map (hero_name member_names) (filter_map as_str heroes)) [
        | [] ↦ none
        | n ∷ names ↦ some (join_names (n ∷ names))
      ]

  -- The timestamp and the encryption that one event of the timeline tells.
  unfoldable pub latest : List Value → ℕ → ℕ
  latest [] last_ts = last_ts
  latest (e ∷ es) last_ts =
      let ty = text_at e (codes "type") in
      let ts = unwrap_or (u64_at e (codes "origin_server_ts")) 0 in
      latest es (
        if str_eq ty (codes "m.room.message") || str_eq ty (codes "m.room.encrypted")
        then max last_ts ts
        else last_ts)

  unfoldable pub has_encrypted : List Value → Bool
  has_encrypted timeline =
      any (λ e. str_eq (text_at e (codes "type")) (codes "m.room.encrypted")) timeline

  unfoldable pub parse_room : List ℕ → Value → RoomUpdate
  parse_room id room =
      let state = event_array room (codes "state") in
      let timeline = event_array room (codes "timeline") in
      let seen = see_events (state ++ timeline) nothing_seen in
      record {
        id = id;
        name =
            or_else (name_from_events timeline)
              (or_else (name_from_events state) (name_from_heroes room seen.member_names));
        encrypted = seen.is_encrypted || has_encrypted timeline;
        messages = filter_map parse_message_event timeline;
        members = seen.members;
        left_members = seen.left_members;
        member_names = seen.member_names;
        last_ts = latest timeline 0;
        invited = false;
      }

  -- An event of an invitation: whoever it is about counts as a member.
  unfoldable pub see_invited : Value → Seen → Seen
  see_invited e s =
      let s' = see_encryption e s in
      if says e (codes "type") (codes "m.room.member")
      then elim (str_at e (codes "state_key")) [
        | none ↦ s'
        | some uid ↦
            if not (str_eq uid [])
            then record s' {
              members = push_new uid s'.members;
              member_names =
                  push_name uid (text_in (get e (codes "content")) (codes "displayname"))
                    s'.member_names;
            }
            else s'
      ]
      else s'

  unfoldable pub see_all_invited : List Value → Seen → Seen
  see_all_invited [] s = s
  see_all_invited (e ∷ es) s = see_all_invited es (see_invited e s)

  unfoldable pub parse_invite : List ℕ → Value → RoomUpdate
  parse_invite id room =
      let events = event_array room (codes "invite_state") in
      let seen = see_all_invited events nothing_seen in
      record {
        id = id;
        name = name_from_events events;
        encrypted = seen.is_encrypted;
        messages = [];
        members = seen.members;
        left_members = [];
        member_names = seen.member_names;
        last_ts = 0;
        invited = true;
      }

  unfoldable pub parse_members : List ℕ → List (List ℕ)
  parse_members body =
      unwrap_or
        (from_str body >>= λ v. array_at v (codes "chunk") >>= λ events.
          some (
            retain (λ s. not (str_eq s []))
              (filter_map (λ e. str_at e (codes "state_key")) events)))
        []

  -- One slot of the ciphertext of an event.
  unfoldable pub olm_slot : List ℕ → List ℕ × Value → Option ToDeviceOlm
  olm_slot sender_key slot = str_at slot.1 (codes "body") >>= λ body. some (record {
    sender_key = sender_key;
    recipient_curve = slot.0;
    msg_type = u8 (unwrap_or (u64_at slot.1 (codes "type")) 0);
    body = body;
  })

  unfoldable pub olm_slots : Value → List ToDeviceOlm
  olm_slots e =
      if not (says e (codes "type") (codes "m.room.encrypted"))
      then []
      else unwrap_or
          (get e (codes "content") >>= λ content.
            if not (says content (codes "algorithm") (codes "m.olm.v1.curve25519-aes-sha2"))
            then none
            else str_at content (codes "sender_key") >>= λ sender_key.
                object_at content (codes "ciphertext") >>= λ ct.
                some (filter_map (olm_slot sender_key) ct))
          []

  unfoldable pub parse_to_device : Value → List ToDeviceOlm
  parse_to_device v = flat_map olm_slots (event_array v (codes "to_device"))

  -- The entries of a section under `rooms`.
  unfoldable pub rooms_at : Value → List ℕ → List (List ℕ × Value)
  rooms_at v section = unwrap_or (get v (codes "rooms") >>= λ r. object_at r section) []

  unfoldable pub parse_sync : List ℕ → Option SyncResult
  parse_sync body = from_str body >>= λ v. some (record {
    next_batch = text_at v (codes "next_batch");
    rooms =
        map (λ r. parse_room r.0 r.1) (rooms_at v (codes "join"))
        ++ map (λ r. parse_invite r.0 r.1) (rooms_at v (codes "invite"));
    to_device = parse_to_device v;
    otk_count = get v (codes "device_one_time_keys_count") >>= λ c.
        u64_at c (codes "signed_curve25519") >>= λ n. some (u32 n);
    left = map (λ r. r.0) (rooms_at v (codes "leave"));
  })
