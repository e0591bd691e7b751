-- ===== src/Matrix/Events.antt =====
-- The events of a room: plugins/matrix/src/json.rs.
use cdc_badge_plugins.Base.{
  ℕ, Bool, true, false, not, ◌&&◌, ◌||◌, if◌then◌else◌, Option, none, some, List, [], ◌∷◌, ◌++◌,
  any, retain,
}
use mathlib.Core.List.{filter_map, reverse}
use cdc_badge_plugins.Base.Bytes.{codes, str_eq}
use cdc_badge_plugins.Matrix.Text.{short_sender}
use cdc_badge_plugins.Matrix.Json.{
  Json, ◌>>=◌, is_none, str_at, text_at, array_at, str_in, text_in, says,
}
use cdc_badge_plugins.Matrix.Model.{EncInfo, Message}

-- `iter().any(|m| m == uid)`.
unfoldable pub contains : List ℕ → List (List ℕ) → Bool
contains uid = any (λ m. str_eq m uid)

-- A string goes to the end of a list that does not have it.
unfoldable pub push_new : List ℕ → List (List ℕ) → List (List ℕ)
push_new uid list = if contains uid list then list else list ++ uid ∷ []

unfoldable pub without : List ℕ → List (List ℕ) → List (List ℕ)
without uid = retain (λ m. not (str_eq m uid))

unfoldable pub push_name : List ℕ → List ℕ → List (List ℕ × List ℕ) → List (List ℕ × List ℕ)
push_name uid dn names = if any (λ n. str_eq n.0 uid) names then names else names ++ (uid, dn) ∷ []

-- What the loop over the events of a room has seen.
pub record Seen : Type 0 where
  pub is_encrypted : Bool
  pub members : List (List ℕ)
  pub left_members : List (List ℕ)
  pub member_names : List (List ℕ × List ℕ)

unfoldable pub join_member : List ℕ → List ℕ → Seen → Seen
join_member uid dn s = record s {
  left_members = without uid s.left_members;
  members = push_new uid s.members;
  member_names = push_name uid dn s.member_names;
}

unfoldable pub drop_member : List ℕ → Seen → Seen
drop_member uid s = record s {
  members = without uid s.members;
  left_members = push_new uid s.left_members;
}

module _ ⦃J : Json⦄ where
  open J use {Value, get, from_str}

  unfoldable pub see_encryption : Value → Seen → Seen
  see_encryption e s =
      if says e (codes "type") (codes "m.room.encryption")
      then record s { is_encrypted = true }
      else s

  -- The membership of a user whose id is not empty.
  unfoldable pub see_membership : List ℕ → Option Value → Seen → Seen
  see_membership uid content s =
      let membership = text_in content (codes "membership") in
      if str_eq membership (codes "join")
      then join_member uid (text_in content (codes "displayname")) s
      else if str_eq membership (codes "leave") || str_eq membership (codes "ban")
      then drop_member uid s
      else s

  unfoldable pub see_event : Value → Seen → Seen
  see_event e s =
      let s' = see_encryption e s in
      if says e (codes "type") (codes "m.room.member")
      then elim (str_at e (codes "state_key")) [
        | none ↦ s'
        | some uid ↦ if str_eq uid [] then s' else see_membership uid (get e (codes "content")) s'
      ]
      else s'

  unfoldable pub see_events : List Value → Seen → Seen
  see_events [] s = s
  see_events (e ∷ es) s = see_events es (see_event e s)

  -- `if !n.is_empty() { found = Some(n) }`.
  unfoldable pub found_text : Option (List ℕ) → Option (List ℕ) → Option (List ℕ)
  found_text none found = found
  found_text (some n) found = if str_eq n [] then found else some n

  unfoldable pub name_step : Value → Option (List ℕ) → Option (List ℕ)
  name_step e found =
      let ty = text_at e (codes "type") in
      let content = get e (codes "content") in
      if str_eq ty (codes "m.room.name")
      then found_text (str_in content (codes "name")) found
      else if str_eq ty (codes "m.room.canonical_alias") && is_none found
      then found_text (str_in content (codes "alias")) found
      else found

  unfoldable pub name_from : List Value → Option (List ℕ) → Option (List ℕ)
  name_from [] found = found
  name_from (e ∷ es) found = name_from es (name_step e found)

  unfoldable pub name_from_events : List Value → Option (List ℕ)
  name_from_events events = name_from events none

  unfoldable pub parse_text_event : List ℕ → Option Value → Option Message
  parse_text_event sender content = elim (str_in content (codes "msgtype")) [
    | none ↦ none
    | some t ↦
        if str_eq t (codes "m.text")
        then some (record {
          sender = sender;
          body = text_in content (codes "body");
          encrypted = false;
          enc = none;
        })
        else none
  ]

  unfoldable pub enc_info : Option Value → Option EncInfo
  enc_info content = str_in content (codes "session_id") >>= λ sid.
      str_in content (codes "ciphertext") >>= λ ct. some (record {
        session_id = sid;
        ciphertext = ct;
        sender_key = text_in content (codes "sender_key");
      })

  unfoldable pub parse_message_event : Value → Option Message
  parse_message_event e =
      let ty = text_at e (codes "type") in
      let sender = short_sender (text_at e (codes "sender")) in
      let content = get e (codes "content") in
      if str_eq ty (codes "m.room.message")
      then parse_text_event sender content
      else if str_eq ty (codes "m.room.encrypted")
      then some (record { sender = sender; body = []; encrypted = true; enc = enc_info content })
      else none

  -- The chunk is newest first, the result oldest first.
  unfoldable pub parse_messages_chunk : List ℕ → List Message
  parse_messages_chunk body = elim (from_str body) [
    | none ↦ []
    | some v ↦ elim (array_at v (codes "chunk")) [
      | none ↦ []
      | some chunk ↦ reverse (filter_map parse_message_event chunk)
    ]
  ]
