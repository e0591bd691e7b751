-- ===== src/GpioMqtt/Rounds.antt =====
-- The loop over the pins of examples/gpio_mqtt/src/lib.rs with a broker that is there: what it leaves
-- and what it publishes.
use cdc_badge_plugins.Base.{
  ℕ, suc, Bool, true, false, Option, none, some, ◌≡◌, refl, sym, ap, ◌∙◌, arith, List, [], ◌∷◌,
  ◌++◌, length, get_or, set, if-elim, length-append, inl,
}
use cdc_badge_plugins.GpioMqtt.Session.{Config, Answers, Link, Sent, MqttTarget, parse_mqtt_url}
use cdc_badge_plugins.Base.Bytes.{str_eq_self}
use cdc_badge_plugins.GpioMqtt.Packet.{encode_publish}
use cdc_badge_plugins.GpioMqtt.Polling.{
  payload_text, bool_eq, Payload, change, Badge, fine, publish_payload, remember_publish,
  change_loop, all_noted, heard_of,
}
use cdc_badge_plugins.GpioMqtt.Online.{IsOnline, IsReady, mqtt_send-ok}
use mathlib.Core.List.{append_assoc}
use cdc_badge_plugins.GpioMqtt.Follower.{changes, bool_eq→≡}
use mathlib.Core.Path.{subst}

heard_of_self : (packet : List ℕ) (p : Payload) → heard_of packet packet p ≡ p ∷ []
unfolding heard_of
heard_of_self packet p = rw (str_eq_self packet) refl

-- A payload goes out, and nothing but the link and the last result changes.
record Published (badge : Badge) (p : Payload) (out : Option (Badge × List Payload)) : Type 0 where
  pub after : Badge
  pub made : out ≡ some (after, p ∷ [])
  pub levels : after.last_levels ≡ badge.last_levels
  pub kept : after.have_levels ≡ badge.have_levels
  pub ready : IsReady after.link

module _ (config : Config) (target : MqttTarget)
    (reads : parse_mqtt_url config.url ≡ some target) where
  publish_payload-Published :
      (badge : Badge) (host : Answers) (p : Payload)
      → IsOnline host
      → IsReady badge.link
      → Published badge p (publish_payload config badge host p)
  unfolding publish_payload remember_publish heard_of
  publish_payload-Published badge host p o ready =
      let packet = encode_publish config.topic (payload_text p) in
      let (l, sent, open_now) = mqtt_send-ok config badge.link host packet target reads o ready in
      record {
        after = record badge { last_publish = fine; link = l };
        made =
            rw (ap (λ r. r.1) sent, publish_payload)
              (ap
                  (λ (out : Link × Sent × List ℕ).
                    some
                      (record badge { last_publish = fine; link = out.0 }, heard_of out.2 packet p))
                  sent
                ∙ ap
                    (λ (ps : List Payload).
                      some (record badge { last_publish = fine; link = l }, ps))
                    (heard_of_self packet p));
        levels = refl;
        kept = refl;
        ready = inl open_now;
      }

  -- What follows a publication goes on from such a badge.
  pub publish_then {κ} :
      (badge : Badge) (host : Answers) (p : Payload) (P : Option (Badge × List Payload) → Type κ)
      (next : Badge → Option (Badge × List Payload))
      → IsOnline host
      → IsReady badge.link
      → ((b : Badge)
          → b.last_levels ≡ badge.last_levels
          → b.have_levels ≡ badge.have_levels
          → IsReady b.link
          → P (all_noted (p ∷ []) (next b)))
      → P (elim (publish_payload config badge host p) [
        | none ↦ none
        | some (b, ps) ↦ all_noted ps (next b)
      ])
  publish_then badge host p P next o ready go =
      let d = publish_payload-Published badge host p o ready in
      subst
        (λ o. P (elim o as (λ x. Option (Badge × List Payload)) [
          | none ↦ none
          | some (b, ps) ↦ all_noted ps (next b)
        ]))
        (sym d.made) (go d.after d.levels d.kept d.ready)

get_or-append : (pre cur : List Bool) (c : Bool) → get_or (pre ++ c ∷ cur) (length pre) false ≡ c
get_or-append [] cur c = refl
get_or-append (b ∷ pre) cur c = get_or-append pre cur c

set-append :
    (pre cur : List Bool) (c v : Bool) → set (pre ++ c ∷ cur) (length pre) v ≡ pre ++ v ∷ cur
set-append [] cur c v = refl
set-append (b ∷ pre) cur c v = ap (λ t. b ∷ t) (set-append pre cur c v)

-- What the loop over the pins leaves, and what it publishes.
pub record Compared (names : List (List ℕ)) (pre cur next : List Bool) (badge : Badge)
    (out : Option (Badge × List Payload)) : Type 0 where
  pub final : Badge
  pub done : out ≡ some (final, changes names cur next)
  pub levels : final.last_levels ≡ pre ++ next
  pub kept : final.have_levels ≡ badge.have_levels
  pub ready : IsReady final.link

same_step :
    (n : List ℕ) (names : List (List ℕ)) (pre cur next : List Bool) (c v : Bool) (badge : Badge)
    (out : Option (Badge × List Payload))
    → bool_eq c v ≡ true
    → Compared names (pre ++ c ∷ []) cur next badge out
    → Compared (n ∷ names) pre (c ∷ cur) (v ∷ next) badge out
unfolding changes
same_step n names pre cur next c v badge out e d = record {
  final = d.final;
  done = rw e d.done;
  levels = d.levels ∙ append_assoc pre (c ∷ []) next ∙ ap (λ t. pre ++ t ∷ next) (bool_eq→≡ c v e);
  kept = d.kept;
  ready = d.ready;
}

change_step :
    (n : List ℕ) (names : List (List ℕ)) (pre cur next : List Bool) (c v : Bool)
    (badge badge' : Badge) (out : Option (Badge × List Payload))
    → bool_eq c v ≡ false
    → badge'.have_levels ≡ badge.have_levels
    → Compared names (pre ++ v ∷ []) cur next badge' out
    → Compared (n ∷ names) pre (c ∷ cur) (v ∷ next) badge (all_noted (change n v ∷ []) out)
unfolding changes
change_step n names pre cur next c v badge badge' out e k d = record {
  final = d.final;
  done = rw e (ap (all_noted (change n v ∷ [])) d.done ∙ unfold all_noted in refl);
  levels = d.levels ∙ append_assoc pre (v ∷ []) next;
  kept = d.kept ∙ k;
  ready = d.ready;
}

module _ (config : Config) (target : MqttTarget)
    (reads : parse_mqtt_url config.url ≡ some target) where
  pub change_loop-Compared :
      (hosts : ℕ → Answers) (names : List (List ℕ)) (pre cur next : List Bool) (k : ℕ)
      (badge : Badge)
      → ((j : ℕ) → IsOnline (hosts j))
      → length cur ≡ length names
      → length next ≡ length names
      → badge.last_levels ≡ pre ++ cur
      → IsReady badge.link
      → Compared names pre cur next badge (change_loop config hosts names next (length pre) k badge)
  unfolding change_loop changes
  change_loop-Compared hosts [] pre [] [] k badge f a b l r = record {
    final = badge;
    done = refl;
    levels = l;
    kept = refl;
    ready = r;
  }
  change_loop-Compared hosts [] pre (c ∷ cur) next k badge f a b l r = absurd (omega arith)
  change_loop-Compared hosts [] pre [] (v ∷ next) k badge f a b l r = absurd (omega arith)
  change_loop-Compared hosts (n ∷ names) pre [] next k badge f a b l r = absurd (omega arith)
  change_loop-Compared hosts (n ∷ names) pre (c ∷ cur) [] k badge f a b l r = absurd (omega arith)
  change_loop-Compared hosts (n ∷ names) pre (c ∷ cur) (v ∷ next) k badge f a b l r =
      let test : bool_eq (get_or badge.last_levels (length pre) false) v ≡ bool_eq c v =
        ap (λ t. bool_eq t v) (ap (λ t. get_or t (length pre) false) l ∙ get_or-append pre cur c) in
      let len : (x : Bool) → length (pre ++ x ∷ []) ≡ suc (length pre) =
        λ x. omega (arith, length-append pre (x ∷ [])) in
      let badge' = record badge { last_levels = set badge.last_levels (length pre) v } in
      if-elim (Compared (n ∷ names) pre (c ∷ cur) (v ∷ next) badge) _ _ _
        (λ e. same_step n names pre cur next c v badge _ (sym test ∙ e) (
          subst
            (λ i.
              Compared names (pre ++ c ∷ []) cur next badge
                (change_loop config hosts names next i k badge))
            (len c)
            (change_loop-Compared hosts names (pre ++ c ∷ []) cur next k badge f (omega arith)
              (omega arith) (l ∙ sym (append_assoc pre (c ∷ []) cur)) r)))
        (λ e.
          publish_then config target reads badge' (hosts k) (change n v)
            (Compared (n ∷ names) pre (c ∷ cur) (v ∷ next) badge) _ (f k) r
            (λ b2 lev have r2.
              let lev2 : b2.last_levels ≡ (pre ++ v ∷ []) ++ cur =
                lev
                ∙ ap (λ t. set t (length pre) v) l
                ∙ set-append pre cur c v
                ∙ sym (append_assoc pre (v ∷ []) cur) in
              change_step n names pre cur next c v badge b2 _ (sym test ∙ e) have (
                subst
                  (λ i.
                    Compared names (pre ++ v ∷ []) cur next b2
                      (change_loop config hosts names next i (suc k) b2))
                  (len v)
                  (change_loop-Compared hosts names (pre ++ v ∷ []) cur next (suc k) b2 f
                    (omega arith) (omega arith) lev2 r2))))
