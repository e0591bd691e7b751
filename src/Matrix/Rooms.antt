-- ===== src/Matrix/Rooms.antt =====
-- The invariant of the rooms of the client: it holds after every sync.
use cdc_badge_plugins.Base.{
  ℕ, ◌-◌, ◌≤◌, ltb, ltb→lt, Bool, true, false, not, ◌||◌, ◌≡◌, refl, ap, sym, ◌∙◌, Option, List, [],
  ◌∷◌, ◌++◌, map, length, drop, retain, All, All-retain, retain-All, All-both, arith, Option-elim,
  if-elim, append_nil, length-drop,
}
use mathlib.Core.Path.{subst}
use mathlib.Core.List.{append_assoc}
use cdc_badge_plugins.Base.Bytes.{str_eq, str_eq_comm}
use cdc_badge_plugins.Matrix.Model.{Message, push_messages}
use cdc_badge_plugins.Matrix.Events.{contains}
use cdc_badge_plugins.Matrix.Sync.{RoomUpdate, SyncResult}
use cdc_badge_plugins.Matrix.Distinct.{Distinct, or_none, Distinct-snoc, Distinct-retain}
use cdc_badge_plugins.Matrix.Merge.{
  Room, Client, retained, new_room, set_name, set_label, dm_label, newcomers, set_members,
  set_messages, update_room, put_room, merge_room, merge_rooms, drop_rooms, merge_sync,
}

-- Nobody is a member twice, and no more messages are kept than the limit.
unfoldable pub IsRoom : Room → Type 0
IsRoom r = Distinct r.members × (length r.messages ≤ retained)

unfoldable pub ids : List Room → List (List ℕ)
ids = map (λ r. r.id)

-- No room is listed twice.
unfoldable pub IsRooms : List Room → Type 0
IsRooms rooms = Distinct (ids rooms) × All IsRoom rooms

length-push_messages :
    (buf incoming : List Message) (n : ℕ) → length (push_messages buf incoming n) ≤ n
unfolding push_messages
length-push_messages buf incoming n =
    let l = buf ++ incoming in
    if-elim (λ m. length m ≤ n) (ltb n (length l)) (drop (length l - n) l) l
      (λ e. omega (arith, length-drop (length l - n) l, ltb→lt n (length l) e)) (λ e. ground arith)

Distinct-newcomers :
    (ms have : List (List ℕ)) → Distinct have → Distinct (have ++ newcomers ms have)
unfolding newcomers
Distinct-newcomers [] have h = subst Distinct (sym (append_nil have)) h
Distinct-newcomers (m ∷ ms) have h =
    if-elim (λ l. Distinct (have ++ l)) (contains m have) _ _ (λ e. Distinct-newcomers ms have h)
      (λ e.
        subst Distinct (append_assoc have (m ∷ []) (newcomers ms (have ++ m ∷ [])))
          (Distinct-newcomers ms (have ++ m ∷ []) (Distinct-snoc m have e h)))

-- Two rooms with the same id, members and messages.
Alike : Room → Room → Type 0
Alike r s = (s.id ≡ r.id) × (s.members ≡ r.members) × (s.messages ≡ r.messages)

set_name-Alike : (up : RoomUpdate) (r : Room) → Alike r (set_name up r)
unfolding set_name Alike
set_name-Alike up r =
    Option-elim (Alike r) up.name _ _ (λ o. (refl, refl, refl)) (λ n o. (refl, refl, refl))

set_label-Alike : (user : List ℕ) (up : RoomUpdate) (r : Room) → Alike r (set_label user up r)
unfolding set_label Alike
set_label-Alike user up r =
    if-elim (Alike r) (str_eq r.name r.id) _ _
      (λ e.
        Option-elim (Alike r) (dm_label user up.member_names) _ _ (λ o. (refl, refl, refl))
          (λ n o. (refl, refl, refl)))
      (λ e. (refl, refl, refl))

update_room-id :
    (user : List ℕ) (mark full : Bool) (open_room : Option (List ℕ)) (up : RoomUpdate) (r : Room)
    → (update_room user mark full open_room up r).id ≡ r.id
unfolding update_room set_messages set_members Alike
update_room-id user mark full open_room up r =
    (set_label-Alike user up (set_name up r)).0 ∙ (set_name-Alike up r).0

update_room-IsRoom :
    (user : List ℕ) (mark full : Bool) (open_room : Option (List ℕ)) (up : RoomUpdate) (r : Room)
    → IsRoom r
    → IsRoom (update_room user mark full open_room up r)
unfolding update_room set_messages set_members Alike IsRoom
update_room-IsRoom user mark full open_room up r h =
    let same = (set_label-Alike user up (set_name up r)).1 ∙ (set_name-Alike up r).1 in
    (
      Distinct-retain (λ m. not (contains m up.left_members)) _
          (Distinct-newcomers up.members _ (subst Distinct (sym same) h.0)),
      length-push_messages _ up.messages retained,
    )

new_room-IsRoom : (id : List ℕ) → IsRoom (new_room id)
unfolding IsRoom new_room Distinct
new_room-IsRoom id = (tt, omega arith)

-- A function that keeps the id and the invariant of every room.
module _ (f : Room → Room) (keeps : (r : Room) → (f r).id ≡ r.id)
    (preserves : (r : Room) → IsRoom r → IsRoom (f r)) where
  contains-put_room :
      (id m : List ℕ) (rs : List Room)
      → contains m (ids rs) ≡ false
      → str_eq id m ≡ false
      → contains m (ids (put_room f id rs)) ≡ false
  unfolding ids contains put_room new_room
  contains-put_room id m [] h g = ap (λ i. str_eq i m || false) (keeps (new_room id)) ∙ rw g refl
  contains-put_room id m (r ∷ rs) h g =
      let apart = or_none (str_eq r.id m) (contains m (ids rs)) h in
      if-elim (λ l. contains m (ids l) ≡ false) (str_eq r.id id) _ _
        (λ e. ap (λ i. str_eq i m || contains m (ids rs)) (keeps r) ∙ h)
        (λ e. rw (apart.0) (contains-put_room id m rs apart.1 g))

  put_room-IsRooms : (id : List ℕ) (rs : List Room) → IsRooms rs → IsRooms (put_room f id rs)
  unfolding IsRooms put_room ids Distinct new_room contains
  put_room-IsRooms id [] h = ((refl, tt), (preserves (new_room id) (new_room-IsRoom id), tt))
  put_room-IsRooms id (r ∷ rs) h =
      if-elim IsRooms (str_eq r.id id) _ _
        (λ e. (
          (subst (λ i. contains i (ids rs) ≡ false) (sym (keeps r)) h.0.0, h.0.1),
          (preserves r h.1.0, h.1.1),
        ))
        (λ e.
          let rest = put_room-IsRooms id rs (h.0.1, h.1.1) in
          ((contains-put_room id r.id rs h.0.0 (str_eq_comm id r.id ∙ e), rest.0), (h.1.0, rest.1)))

merge_rooms-IsRooms :
    (user : List ℕ) (mark full : Bool) (ups : List RoomUpdate) (c : Client)
    → IsRooms c.rooms
    → IsRooms (merge_rooms user mark full ups c).rooms
unfolding merge_rooms merge_room
merge_rooms-IsRooms user mark full [] c h = h
merge_rooms-IsRooms user mark full (up ∷ ups) c h =
    merge_rooms-IsRooms user mark full ups (merge_room user mark full up c) (
      put_room-IsRooms (update_room user mark full c.open_room up)
        (update_room-id user mark full c.open_room up)
        (update_room-IsRoom user mark full c.open_room up) up.id c.rooms h)

contains-ids :
    (p : Room → Bool) (m : List ℕ) (rs : List Room)
    → contains m (ids rs) ≡ false
    → contains m (ids (retain p rs)) ≡ false
unfolding contains ids
contains-ids p m [] h = refl
contains-ids p m (r ∷ rs) h =
    let apart = or_none (str_eq r.id m) (contains m (ids rs)) h in
    let rest = contains-ids p m rs apart.1 in
    if-elim (λ l. contains m (ids l) ≡ false) (p r) _ _ (λ e. rw (apart.0) rest) (λ e. rest)

retain-IsRooms : (p : Room → Bool) (rs : List Room) → IsRooms rs → IsRooms (retain p rs)
unfolding IsRooms ids Distinct
retain-IsRooms p [] h = h
retain-IsRooms p (r ∷ rs) h =
    let rest = retain-IsRooms p rs (h.0.1, h.1.1) in
    if-elim IsRooms (p r) _ _ (λ e. ((contains-ids p r.id rs h.0.0, rest.0), (h.1.0, rest.1)))
      (λ e. rest)

drop_rooms-IsRooms :
    (left : List (List ℕ)) (rs : List Room) → IsRooms rs → IsRooms (drop_rooms left rs)
unfolding drop_rooms
drop_rooms-IsRooms [] rs h = h
drop_rooms-IsRooms (id ∷ left) rs h =
    drop_rooms-IsRooms left (retain (λ r. not (str_eq r.id id)) rs)
      (retain-IsRooms (λ r. not (str_eq r.id id)) rs h)

drop_rooms-All :
    (P : Room → Type 0) (left : List (List ℕ)) (rs : List Room)
    → All P rs
    → All P (drop_rooms left rs)
unfolding drop_rooms
drop_rooms-All P [] rs h = h
drop_rooms-All P (id ∷ left) rs h =
    drop_rooms-All P left (retain (λ r. not (str_eq r.id id)) rs)
      (All-retain P (λ r. not (str_eq r.id id)) rs h)

not-true : (b : Bool) → not b ≡ true → b ≡ false
not-true true e = absurd (ground arith)
not-true false e = refl

unlisted_rooms : (rs : List Room) → All (λ r. contains r.id [] ≡ false) rs
unfolding contains
unlisted_rooms [] = tt
unlisted_rooms (r ∷ rs) = (refl, unlisted_rooms rs)

drop_rooms-Gone :
    (left : List (List ℕ)) (rs : List Room)
    → All (λ r. contains r.id left ≡ false) (drop_rooms left rs)
unfolding drop_rooms contains
drop_rooms-Gone [] rs = unlisted_rooms rs
drop_rooms-Gone (id ∷ left) rs =
    let kept = retain (λ r. not (str_eq r.id id)) rs in
    All-both (drop_rooms left kept)
      (λ r e g. rw (str_eq_comm id r.id, not-true (str_eq r.id id) e) g)
      (drop_rooms-All (λ r. not (str_eq r.id id) ≡ true) left kept
        (retain-All (λ r. not (str_eq r.id id)) rs))
      (drop_rooms-Gone left kept)

-- After a sync no room is listed twice, nobody is a member of a room twice, no room keeps more than 30
-- messages, and no room that the server reported as left is there, if the first three held before.
pub merge_sync-IsRooms :
    (user : List ℕ) (full : Bool) (result : SyncResult) (c : Client)
    → IsRooms c.rooms
    → IsRooms (merge_sync user full result c).rooms
      × All (λ r. contains r.id result.left ≡ false) (merge_sync user full result c).rooms
unfolding merge_sync
merge_sync-IsRooms user full result c h =
    let merged = merge_rooms user (not full) full result.rooms (record c { late_joiners = [] }) in
    (
      drop_rooms-IsRooms result.left merged.rooms (
          merge_rooms-IsRooms user (not full) full result.rooms (record c { late_joiners = [] }) h),
      drop_rooms-Gone result.left merged.rooms,
    )
