-- ===== src/Matrix/Members.antt =====
-- Who is a member of a room: the lists of `parse_room` are those of the last time that each user
-- joined, left or was banned.
use cdc_badge_plugins.Base.{
  ℕ, Bool, true, false, not, ◌&&◌, ◌||◌, if◌then◌else◌, ◌≡◌, refl, ap, sym, ◌∙◌, Option, none, some,
  List, [], ◌∷◌, ◌++◌, if-elim, if-elim_both, Option-elim_both,
}
use mathlib.Core.Path.{subst}
use cdc_badge_plugins.Base.Bytes.{codes, str_eq}
use cdc_badge_plugins.Matrix.Json.{Json, str_at, text_in, says}
use cdc_badge_plugins.Matrix.Events.{
  contains, push_new, without, Seen, join_member, drop_member, see_encryption, see_membership,
  see_event, see_events,
}
use cdc_badge_plugins.Matrix.Distinct.{
  Distinct, contains-push_new, contains-without, Distinct-push_new, Distinct-without,
}
use cdc_badge_plugins.Matrix.Sync.{nothing_seen, event_array, parse_room}

unfoldable pub is_joined : Option Bool → Bool
is_joined none = false
is_joined (some b) = b

unfoldable pub is_gone : Option Bool → Bool
is_gone none = false
is_gone (some b) = not b

joined_now :
    (b : Bool) (v : Option Bool) → (b || is_joined v) ≡ is_joined (if b then some true else v)
unfolding is_joined is_gone
joined_now true v = refl
joined_now false v = refl

gone_not :
    (b : Bool) (v : Option Bool) → (not b && is_gone v) ≡ is_gone (if b then some true else v)
unfolding is_joined is_gone
gone_not true v = refl
gone_not false v = refl

joined_not :
    (b : Bool) (v : Option Bool) → (not b && is_joined v) ≡ is_joined (if b then some false else v)
unfolding is_joined is_gone
joined_not true v = refl
joined_not false v = refl

gone_now : (b : Bool) (v : Option Bool) → (b || is_gone v) ≡ is_gone (if b then some false else v)
unfolding is_joined is_gone
gone_now true v = refl
gone_now false v = refl

module _ ⦃J : Json⦄ where
  open J use {Value, get}

  -- What a membership event says of its user: that they joined, or that they left or were banned. An
  -- invitation or any other membership says neither, and so leaves the lists as they are.
  unfoldable pub verdict : Value → Option (List ℕ × Bool)
  verdict e =
      if says e (codes "type") (codes "m.room.member")
      then elim (str_at e (codes "state_key")) [
        | none ↦ none
        | some uid ↦
            let membership = text_in (get e (codes "content")) (codes "membership") in
            if str_eq uid []
            then none
            else if str_eq membership (codes "join")
            then some (uid, true)
            else if str_eq membership (codes "leave") || str_eq membership (codes "ban")
            then some (uid, false)
            else none
      ]
      else none

  -- The last word on a user: whether they joined, `none` when no event is such a word on them.
  unfoldable pub standing : List ℕ → List Value → Option Bool → Option Bool
  standing uid [] before = before
  standing uid (e ∷ es) before =
      standing uid es
        (elim (verdict e) [ none ↦ before | some v ↦ if str_eq v.0 uid then some v.1 else before ])

  -- What one event does to the lists, by its verdict.
  Told : Option (List ℕ × Bool) → Seen → Seen → Type 0
  Told none s s' = (s'.members ≡ s.members) × (s'.left_members ≡ s.left_members)
  Told (some (u, true)) s s' =
      (s'.members ≡ push_new u s.members) × (s'.left_members ≡ without u s.left_members)
  Told (some (u, false)) s s' =
      (s'.members ≡ without u s.members) × (s'.left_members ≡ push_new u s.left_members)

  kept : (s : Seen) → Told none s s
  unfolding Told
  kept s = (refl, refl)

  joined : (uid dn : List ℕ) (s : Seen) → Told (some (uid, true)) s (join_member uid dn s)
  unfolding Told join_member
  joined uid dn s = (refl, refl)

  dropped : (uid : List ℕ) (s : Seen) → Told (some (uid, false)) s (drop_member uid s)
  unfolding Told drop_member
  dropped uid s = (refl, refl)

  see_encryption-Told : (e : Value) (s : Seen) → Told none s (see_encryption e s)
  unfolding see_encryption Told
  see_encryption-Told e s =
      if-elim (Told none s) (says e (codes "type") (codes "m.room.encryption")) _ _
        (λ t. (refl, refl)) (λ t. (refl, refl))

  Told-after :
      (r : Option (List ℕ × Bool)) (s s' t : Seen) → Told none s s' → Told r s' t → Told r s t
  unfolding Told
  Told-after none s s' t h g = (g.0 ∙ h.0, g.1 ∙ h.1)
  Told-after (some (u, true)) s s' t h g = (g.0 ∙ ap (push_new u) h.0, g.1 ∙ ap (without u) h.1)
  Told-after (some (u, false)) s s' t h g = (g.0 ∙ ap (without u) h.0, g.1 ∙ ap (push_new u) h.1)

  see_event-Told : (e : Value) (s : Seen) → Told (verdict e) s (see_event e s)
  unfolding verdict see_event see_membership
  see_event-Told e s =
      let s' = see_encryption e s in
      Told-after (verdict e) s s' (see_event e s) (see_encryption-Told e s) (
        if-elim_both (λ r t. Told r s' t) (says e (codes "type") (codes "m.room.member")) _ _ _ _
          (λ m.
            Option-elim_both (λ r t. Told r s' t) (str_at e (codes "state_key")) _ _ _ _ (kept s')
              (λ uid.
                if-elim_both (λ r t. Told r s' t) (str_eq uid []) _ _ _ _ (λ x. kept s')
                  (λ x.
                    if-elim_both (λ r t. Told r s' t)
                      (str_eq (text_in (get e (codes "content")) (codes "membership"))
                        (codes "join"))
                      _ _ _ _ (λ y. joined uid _ s')
                      (λ y.
                        if-elim_both (λ r t. Told r s' t) _ _ _ _ _ (λ z. dropped uid s')
                          (λ z. kept s')))))
          (λ m. kept s'))

  -- The lists agree with the last word on a user.
  Agrees : List ℕ → Option Bool → Seen → Type 0
  Agrees uid v s =
      (contains uid s.members ≡ is_joined v) × (contains uid s.left_members ≡ is_gone v)

  -- The last word after one more verdict.
  abbrev revised : List ℕ → Option (List ℕ × Bool) → Option Bool → Option Bool
  revised uid r before = elim r [
    | none ↦ before
    | some v ↦ if str_eq v.0 uid then some v.1 else before
  ]

  Told-Agrees :
      (uid : List ℕ) (r : Option (List ℕ × Bool)) (before : Option Bool) (s t : Seen)
      → Told r s t
      → Agrees uid before s
      → Agrees uid (revised uid r before) t
  unfolding Told Agrees is_joined is_gone
  Told-Agrees uid none before s t h a = (ap (contains uid) h.0 ∙ a.0, ap (contains uid) h.1 ∙ a.1)
  Told-Agrees uid (some (u, true)) before s t h a = (
    ap (contains uid) h.0
        ∙ contains-push_new uid u s.members
        ∙ rw (a.0) (joined_now (str_eq u uid) before),
    ap (contains uid) h.1
        ∙ contains-without uid u s.left_members
        ∙ rw (a.1) (gone_not (str_eq u uid) before),
  )
  Told-Agrees uid (some (u, false)) before s t h a = (
    ap (contains uid) h.0
        ∙ contains-without uid u s.members
        ∙ rw (a.0) (joined_not (str_eq u uid) before),
    ap (contains uid) h.1
        ∙ contains-push_new uid u s.left_members
        ∙ rw (a.1) (gone_now (str_eq u uid) before),
  )

  Told-Distinct :
      (r : Option (List ℕ × Bool)) (s t : Seen)
      → Told r s t
      → Distinct s.members × Distinct s.left_members
      → Distinct t.members × Distinct t.left_members
  unfolding Told
  Told-Distinct none s t h d = (subst Distinct (sym h.0) d.0, subst Distinct (sym h.1) d.1)
  Told-Distinct (some (u, true)) s t h d = (
    subst Distinct (sym h.0) (Distinct-push_new u s.members d.0),
    subst Distinct (sym h.1) (Distinct-without u s.left_members d.1),
  )
  Told-Distinct (some (u, false)) s t h d = (
    subst Distinct (sym h.0) (Distinct-without u s.members d.0),
    subst Distinct (sym h.1) (Distinct-push_new u s.left_members d.1),
  )

  see_events-Agrees :
      (uid : List ℕ) (es : List Value) (before : Option Bool) (s : Seen)
      → Agrees uid before s
      → Agrees uid (standing uid es before) (see_events es s)
  unfolding see_events standing
  see_events-Agrees uid [] before s a = a
  see_events-Agrees uid (e ∷ es) before s a =
      see_events-Agrees uid es (revised uid (verdict e) before) (see_event e s)
        (Told-Agrees uid (verdict e) before s (see_event e s) (see_event-Told e s) a)

  see_events-Distinct :
      (es : List Value) (s : Seen)
      → Distinct s.members × Distinct s.left_members
      → Distinct (see_events es s).members × Distinct (see_events es s).left_members
  unfolding see_events
  see_events-Distinct [] s d = d
  see_events-Distinct (e ∷ es) s d =
      see_events-Distinct es (see_event e s)
        (Told-Distinct (verdict e) s (see_event e s) (see_event-Told e s) d)

  -- The events of a room, those of its state first.
  unfoldable pub room_events : Value → List Value
  room_events room = event_array room (codes "state") ++ event_array room (codes "timeline")

  -- Of the events in which a user joins, leaves or is banned, the last one counts: the user is in the
  -- members of a room exactly if it is a join, and in the members that left exactly if it is a leave
  -- or a ban; later invitations and other memberships change neither. No list has a user twice.
  pub parse_room-Members :
      (uid id : List ℕ) (room : Value)
      → (contains uid (parse_room id room).members
          ≡ is_joined (standing uid (room_events room) none))
        × (contains uid (parse_room id room).left_members
            ≡ is_gone (standing uid (room_events room) none))
        × Distinct (parse_room id room).members
        × Distinct (parse_room id room).left_members
  unfolding parse_room room_events Agrees Distinct contains is_joined is_gone
  parse_room-Members uid id room =
      let es = room_events room in
      let a = see_events-Agrees uid es none nothing_seen (refl, refl) in
      let d = see_events-Distinct es nothing_seen (tt, tt) in (a.0, a.1, d.0, d.1)
