-- ===== src/Matrix/Merge.antt =====
-- The rooms of the client and what a sync does to them: `sync_now` in plugins/matrix/src/lib.rs, after
-- the decryption of the messages, with `Room` of plugins/matrix/src/model.rs.
use cdc_badge_plugins.Base.{
  ℕ, max, Bool, true, false, not, ◌&&◌, ◌||◌, if◌then◌else◌, Option, none, some, List, [], ◌∷◌,
  ◌++◌, retain,
}
use cdc_badge_plugins.Base.Bytes.{str_eq}
use cdc_badge_plugins.Matrix.Text.{short_sender}
use cdc_badge_plugins.Matrix.Model.{Message, push_messages}
use cdc_badge_plugins.Matrix.Events.{contains, without}
use cdc_badge_plugins.Matrix.Sync.{RoomUpdate, SyncResult}

-- `RETAIN`.
abbrev pub retained : ℕ
retained = 30

pub record Room : Type 0 where
  pub id : List ℕ
  pub name : List ℕ
  pub encrypted : Bool
  pub messages : List Message
  pub members : List (List ℕ)
  pub last_ts : ℕ
  pub unread : Bool
  pub is_dm : Bool
  pub invited : Bool

unfoldable pub new_room : List ℕ → Room
new_room id = record {
  id = id;
  name = id;
  encrypted = false;
  messages = [];
  members = [];
  last_ts = 0;
  unread = false;
  is_dm = false;
  invited = false;
}

-- What a sync reads and changes: the rooms, the rooms with a live outbound session (`none` without
-- cryptography), the rooms whose session must reach members who joined later, and the open room.
pub record Client : Type 0 where
  pub rooms : List Room
  pub outbound : Option (List (List ℕ))
  pub late_joiners : List (List ℕ × List (List ℕ))
  pub open_room : Option (List ℕ)

-- The label of a direct chat: the first participant who is not the user.
unfoldable pub dm_label : List ℕ → List (List ℕ × List ℕ) → Option (List ℕ)
dm_label user [] = none
dm_label user (n ∷ names) =
    let rest = dm_label user names in
    if not (str_eq n.0 user) then some (if str_eq n.1 [] then short_sender n.0 else n.1) else rest

unfoldable pub set_name : RoomUpdate → Room → Room
set_name up room = elim up.name [ none ↦ room | some n ↦ record room { name = n; is_dm = false } ]

unfoldable pub set_label : List ℕ → RoomUpdate → Room → Room
set_label user up room =
    if str_eq room.name room.id
    then elim (dm_label user up.member_names) [
      | none ↦ room
      | some label ↦ record room { name = label; is_dm = true }
    ]
    else room

-- The members of an update that the room does not have yet, in order.
unfoldable pub newcomers : List (List ℕ) → List (List ℕ) → List (List ℕ)
newcomers [] have = []
newcomers (m ∷ ms) have =
    let rest = newcomers ms have in
    let more = newcomers ms (have ++ m ∷ []) in if contains m have then rest else m ∷ more

unfoldable pub set_members : RoomUpdate → Room → Room
set_members up room = record room {
  encrypted = up.encrypted || room.encrypted;
  invited = up.invited;
  members =
      retain (λ m. not (contains m up.left_members))
        (room.members ++ newcomers up.members room.members);
}

unfoldable pub no_messages : List Message → Bool
no_messages [] = true
no_messages (m ∷ ms) = false

unfoldable pub is_open : Option (List ℕ) → List ℕ → Bool
is_open none id = false
is_open (some o) id = str_eq o id

unfoldable pub set_messages : Bool → Bool → Option (List ℕ) → RoomUpdate → Room → Room
set_messages mark_unread full open_room up room = record room {
  last_ts = max room.last_ts up.last_ts;
  unread =
      (mark_unread && not (no_messages up.messages) && not (is_open open_room room.id))
      || room.unread;
  messages = push_messages (if full then [] else room.messages) up.messages retained;
}

unfoldable pub update_room : List ℕ → Bool → Bool → Option (List ℕ) → RoomUpdate → Room → Room
update_room user mark_unread full open_room up room =
    set_messages mark_unread full open_room up
      (set_members up (set_label user up (set_name up room)))

-- The room with an id, or a new one.
unfoldable pub room_for : List ℕ → List Room → Room
room_for id [] = new_room id
room_for id (r ∷ rs) = let rest = room_for id rs in if str_eq r.id id then r else rest

unfoldable pub put_room : (Room → Room) → List ℕ → List Room → List Room
put_room f id [] = f (new_room id) ∷ []
put_room f id (r ∷ rs) =
    let rest = put_room f id rs in if str_eq r.id id then f r ∷ rs else r ∷ rest

unfoldable pub none_left : List (List ℕ) → Bool
none_left [] = true
none_left (m ∷ ms) = false

-- The outbound session of an encrypted room, after its members have changed: it is dropped when
-- somebody left, and must reach those who joined otherwise.
unfoldable pub update_session : RoomUpdate → Room → Client → Client
update_session up room c = elim c.outbound [
  | none ↦ c
  | some live ↦
      let joined = newcomers up.members room.members in
      if not (up.encrypted || room.encrypted)
      then c
      else if not (none_left up.left_members)
      then record c { outbound = some (without room.id live) }
      else if not (none_left joined) && contains room.id live
      then record c { late_joiners = c.late_joiners ++ (room.id, joined) ∷ [] }
      else c
]

unfoldable pub merge_room : List ℕ → Bool → Bool → RoomUpdate → Client → Client
merge_room user mark_unread full up c =
    let c' = update_session up (room_for up.id c.rooms) c in
    record c' { rooms = put_room (update_room user mark_unread full c.open_room up) up.id c.rooms }

unfoldable pub merge_rooms : List ℕ → Bool → Bool → List RoomUpdate → Client → Client
merge_rooms user mark_unread full [] c = c
merge_rooms user mark_unread full (up ∷ ups) c =
    merge_rooms user mark_unread full ups (merge_room user mark_unread full up c)

unfoldable pub drop_rooms : List (List ℕ) → List Room → List Room
drop_rooms [] rooms = rooms
drop_rooms (id ∷ ids) rooms = drop_rooms ids (retain (λ r. not (str_eq r.id id)) rooms)

-- A sync that is not full marks rooms as unread.
unfoldable pub merge_sync : List ℕ → Bool → SyncResult → Client → Client
merge_sync user full result c =
    let c' = merge_rooms user (not full) full result.rooms (record c { late_joiners = [] }) in
    record c' {
      rooms = drop_rooms result.left c'.rooms;
      open_room = elim c'.open_room [
        | none ↦ none
        | some o ↦ if contains o result.left then none else some o
      ];
    }
