-- ===== src/Matrix/Tests.antt =====
-- The Matrix data over a small type of JSON values, and the theorems at concrete inputs.
use cdc_badge_plugins.Base.{
  ℕ, ◌≡◌, refl, true, false, map, All, Bool, if◌then◌else◌, Option, none, some, List, [], ◌∷◌, ◌++◌,
  arith,
}
use cdc_badge_plugins.Base.Bytes.{codes, str_eq}
use cdc_badge_plugins.Matrix.Text.{
  hex_upper, json_escape, unreserved, encode_byte, urlencode, before_colon, without_at,
  short_sender,
}
use cdc_badge_plugins.Matrix.Json.{
  Json, ◌>>=◌, str_at, text_at, u64_at, array_at, str_in, text_in, says,
}
use cdc_badge_plugins.Matrix.Events.{
  contains, push_new, without, push_name, join_member, drop_member, see_encryption, see_membership,
  see_event, see_events,
}
use cdc_badge_plugins.Matrix.Sync.{RoomUpdate, SyncResult, event_array, parse_room}
use cdc_badge_plugins.Matrix.Model.{Message, push_messages}
use cdc_badge_plugins.Matrix.Merge.{
  Room, Client, new_room, dm_label, set_name, set_label, newcomers, set_members, no_messages,
  is_open, set_messages, update_room, room_for, put_room, none_left, update_session, merge_room,
  merge_rooms, drop_rooms, merge_sync,
}
use cdc_badge_plugins.Matrix.Rooms.{IsRoom, IsRooms, ids, merge_sync-IsRooms}
use cdc_badge_plugins.Matrix.Escape.{in_text, read_string, read_string-json_escape}
use cdc_badge_plugins.Matrix.Recovery.{
  position_from, digit_value, push_carry, add_digit, decode_digits, leading_zeros, base58_decode,
}
use cdc_badge_plugins.Matrix.Base58.{digits_number, Reads, base58_decode-Reads}
use cdc_badge_plugins.Matrix.Distinct.{Distinct}
use cdc_badge_plugins.Matrix.Members.{is_joined, is_gone, standing, room_events, parse_room-Members}

mutual
  data Tree : Type 0 where
    text : List ℕ → Tree
    number : ℕ → Tree
    array : Trees → Tree
    object : Fields → Tree

  data Trees : Type 0 where
    end : Trees
    item : Tree → Trees → Trees

  data Fields : Type 0 where
    no_more : Fields
    field : List ℕ → Tree → Fields → Fields

abbrev text_of : Tree → Option (List ℕ)
text_of (text s) = some s
text_of _ = none

abbrev number_of : Tree → Option ℕ
number_of (number n) = some n
number_of _ = none

abbrev items : Trees → List Tree
items end = []
items (item t ts) = t ∷ items ts

abbrev fields : Fields → List (List ℕ × Tree)
fields no_more = []
fields (field k t fs) = (k, t) ∷ fields fs

abbrev items_of : Tree → Option (List Tree)
items_of (array ts) = some (items ts)
items_of _ = none

abbrev fields_of : Tree → Option (List (List ℕ × Tree))
fields_of (object fs) = some (fields fs)
fields_of _ = none

abbrev lookup : List ℕ → List (List ℕ × Tree) → Option Tree
lookup key [] = none
lookup key (f ∷ fs) = let rest = lookup key fs in if str_eq f.0 key then some f.1 else rest

-- No text is parsed here.
instance abbrev trees : Json
trees = record {
  Value = Tree;
  from_str = λ s. none;
  get = λ v key. fields_of v >>= λ fs. lookup key fs;
  as_str = text_of;
  as_u64 = number_of;
  as_array = items_of;
  as_object = fields_of;
}

abbrev member_event : List ℕ → List ℕ → Tree
member_event uid membership = object (
    field (codes "type") (text (codes "m.room.member")) (
      field (codes "state_key") (text uid) (
        field (codes "content") (object (field (codes "membership") (text membership) no_more))
          no_more)))

abbrev ann : List ℕ
ann = codes "@ann:a"

abbrev bob : List ℕ
bob = codes "@bob:b"

-- Ann joins and is banned, Bob leaves and joins.
abbrev lobby : Tree
lobby = object (
    field (codes "state")
      (object (
        field (codes "events")
          (array
            (item (member_event ann (codes "join")) (item (member_event bob (codes "leave")) end)))
          no_more))
      (field (codes "timeline")
        (object (
          field (codes "events")
            (array
              (item (member_event bob (codes "join")) (item (member_event ann (codes "ban")) end)))
            no_more))
        no_more))

run_room : List ℕ → Tree → RoomUpdate
unfolding parse_room event_array see_events see_event see_encryption see_membership join_member
    drop_member push_new push_name without contains says str_at text_at str_in text_in array_at
    u64_at
run_room id room = parse_room id room

lobby_members : (parse_room (codes "!x") lobby).members ≡ bob ∷ []
unfolding run_room
lobby_members = refl

lobby_left : (parse_room (codes "!x") lobby).left_members ≡ ann ∷ []
unfolding run_room
lobby_left = refl

short_ann : short_sender ann ≡ codes "ann"
unfolding short_sender without_at before_colon
short_ann = refl

parse_room-Members_example :
    (contains ann (parse_room (codes "!x") lobby).members
      ≡ is_joined (standing ann (room_events lobby) none))
    × (contains ann (parse_room (codes "!x") lobby).left_members
        ≡ is_gone (standing ann (room_events lobby) none))
    × Distinct (parse_room (codes "!x") lobby).members
    × Distinct (parse_room (codes "!x") lobby).left_members
parse_room-Members_example = parse_room-Members ann (codes "!x") lobby

-- A quote, a backslash, a line feed and an escape character.
abbrev hostile : List ℕ
hostile = 0x22 ∷ 0x5C ∷ 0x0A ∷ 0x1B ∷ codes "ok"

read_string-json_escape_example :
    read_string in_text (json_escape hostile ++ 0x22 ∷ codes ",\"x\":1")
    ≡ some (hostile, codes ",\"x\":1")
read_string-json_escape_example = read_string-json_escape hostile (codes ",\"x\":1")

abbrev room_id : List ℕ
room_id = codes "!a:b/?"

encoded : urlencode room_id ≡ codes "%21a%3Ab%2F%3F"
unfolding urlencode encode_byte unreserved hex_upper
encoded = refl

abbrev hello : Message
hello = record { sender = codes "bob"; body = codes "hi"; encrypted = false; enc = none }

abbrev lobby_update : RoomUpdate
lobby_update = record {
  id = codes "!x";
  name = none;
  encrypted = true;
  messages = hello ∷ [];
  members = ann ∷ bob ∷ [];
  left_members = [];
  member_names = (ann, codes "Ann") ∷ (bob, codes "Bob") ∷ [];
  last_ts = 7;
  invited = false;
}

-- Room !x has news, room !y is gone.
abbrev news : SyncResult
news = record {
  next_batch = [];
  rooms = lobby_update ∷ [];
  to_device = [];
  otk_count = none;
  left = codes "!y" ∷ [];
}

abbrev empty_room : List ℕ → Room
unfolding new_room
empty_room id = new_room id

abbrev two_rooms : Client
unfolding empty_room
two_rooms = record {
  rooms = record (empty_room (codes "!x")) { members = ann ∷ [] } ∷ empty_room (codes "!y") ∷ [];
  outbound = some (codes "!x" ∷ []);
  late_joiners = [];
  open_room = some (codes "!y");
}

run_sync : SyncResult → Client → Client
unfolding merge_sync merge_rooms merge_room put_room room_for update_session update_room set_name
    set_label dm_label set_members set_messages newcomers no_messages none_left is_open drop_rooms
    push_messages contains without short_sender two_rooms
run_sync result c = merge_sync ann false result c

synced_names :
    map {B = List ℕ × Bool} (λ r. (r.name, r.unread)) (merge_sync ann false news two_rooms).rooms
    ≡ (codes "Bob", true) ∷ []
unfolding run_sync
synced_names = refl

-- Bob must get the key that Ann's session has.
synced_late : (merge_sync ann false news two_rooms).late_joiners ≡ (codes "!x", bob ∷ []) ∷ []
unfolding run_sync
synced_late = refl

merge_sync-IsRooms_example :
    IsRooms (merge_sync ann false news two_rooms).rooms
    × All (λ r. contains r.id news.left ≡ false) (merge_sync ann false news two_rooms).rooms
unfolding two_rooms IsRooms IsRoom ids Distinct contains
merge_sync-IsRooms_example =
    merge_sync-IsRooms ann false news two_rooms
      ((refl, (refl, tt)), (((refl, tt), omega arith), ((tt, omega arith), tt)))

-- A leading one is a zero byte.
decoded : base58_decode (codes "12g") ≡ some (0x00 ∷ 0x61 ∷ [])
unfolding base58_decode decode_digits digit_value position_from add_digit push_carry leading_zeros
decoded = refl

base58_decode-Reads_example : Reads (digits_number (codes "12g") 0) (base58_decode (codes "12g"))
base58_decode-Reads_example = base58_decode-Reads (codes "12g")
