-- ===== src/GpioMqtt/Retry.antt =====
-- How often examples/gpio_mqtt/src/lib.rs opens a session with the broker.
use cdc_badge_plugins.Base.{
  ℕ, zero, suc, ◌∙◌, sym, ap, not, ◌&&◌, Bool, false, Option, none, some, Option-elim, length, drop,
  ◌+◌, ◌^◌, ◌≤◌, ◌<◌, ◌==◌, if◌then◌else◌, true, ◌≡◌, ◌⊎◌, refl, arith, inl, inr, List, [], ◌∷◌,
  Bool-cases, if-elim,
}
use cdc_badge_plugins.GpioMqtt.Packet.{encode_connect}
use cdc_badge_plugins.GpioMqtt.Session.{
  Answers, Config, Link, Sent, ok, err, panicked, too_soon, mqtt_connect, mqtt_send, Reason,
  not_connected, Writes, write_loop, write_all, return_code, check_connack, parse_mqtt_url,
  client_id, unless_empty, send_open, connect_retry_ms,
}

unfoldable pub is_refusal : Sent → Bool
is_refusal (err not_connected) = true
is_refusal _ = false

-- Whether a call opened a session: there was none, and it was not refused as one without a session.
abbrev pub attempted : Link → Sent → Bool
attempted link sent = not link.conn && not (is_refusal sent)

-- The times at which a sequence of calls of `mqtt_send` opens a session, by what the calls return.
unfoldable pub attempts : Config → Link → List (Answers × List ℕ) → List ℕ
unfolding mqtt_send is_refusal
attempts config link [] = []
attempts config link ((host, packet) ∷ calls) =
    let (link', sent, bytes) = mqtt_send config link host packet in
    let later = attempts config link' calls in
    if attempted link sent then host.now ∷ later else later

-- The uptime of the calls: positive, within a u64, and never earlier than the call before.
abbrev pub IsUptime : ℕ → List (Answers × List ℕ) → Type 0
IsUptime since [] = Unit {0}
IsUptime since ((host, packet) ∷ calls) =
    (since ≤ host.now) × (0 < host.now) × (host.now < 2 ^ 64) × IsUptime host.now calls

-- Each time is at least the retry time after the one before, if there is one before.
abbrev pub IsSpaced : ℕ → List ℕ → Type 0
IsSpaced before [] = Unit {0}
IsSpaced before (t ∷ ts) = ((before ≡ 0) ⊎ (before + connect_retry_ms ≤ t)) × IsSpaced t ts

-- The calls that go past the guard.
unfoldable connects : Link → ℕ → Bool
unfolding too_soon
connects link now = not link.conn && not (too_soon link now)

send_open-last_connect :
    (link : Link) (host : Answers) (packet : List ℕ)
    → (send_open link host packet).0.last_connect ≡ link.last_connect
unfolding send_open
send_open-last_connect link host packet = ground arith

opened-last_connect :
    (link : Link) (host : Answers) (packet : List ℕ) (opened : Sent)
    → (elim opened as (λ s. Link × Sent × List ℕ) [
      | ok ↦ send_open (record link { conn = true }) host packet
      | err e ↦ (link, err e, [])
      | panicked ↦ (link, panicked, [])
    ]).0.last_connect
      ≡ link.last_connect
opened-last_connect link host packet ok = send_open-last_connect _ host packet
opened-last_connect link host packet (err e) = refl
opened-last_connect link host packet panicked = refl

return_code-reached : (code : ℕ) → is_refusal (return_code code) ≡ false
unfolding return_code is_refusal
return_code-reached code = ground arith

check_connack-reached : (answer : Option (List ℕ)) → is_refusal (check_connack answer) ≡ false
unfolding check_connack is_refusal
check_connack-reached none = refl
check_connack-reached (some []) = refl
check_connack-reached (some (a ∷ [])) = refl
check_connack-reached (some (a ∷ b ∷ [])) = refl
check_connack-reached (some (a ∷ b ∷ c ∷ [])) = refl
check_connack-reached (some (a ∷ b ∷ c ∷ d ∷ s)) =
    if-elim (λ r. is_refusal r ≡ false) (not (a == 0x20)) _ _ (λ t. refl)
      (λ t. return_code-reached d)

write_loop-reached :
    (rounds : ℕ) (writes : Writes) (i : ℕ) (s : List ℕ)
    → is_refusal (write_loop rounds writes i s).1 ≡ false
unfolding write_loop is_refusal
write_loop-reached rounds writes i [] = refl
write_loop-reached zero writes i (b ∷ s) = refl
write_loop-reached (suc rounds) writes i (b ∷ s) =
    Option-elim {B = List ℕ × Sent} (λ out. is_refusal out.1 ≡ false) (writes i (length (b ∷ s))) _
      _ (λ e. refl)
      (λ n e. ground (arith, write_loop-reached rounds writes (suc i) (drop n (b ∷ s))))

-- What comes after a step that was not refused.
Sent-reached {ℓ} :
    {A : Type ℓ} (f : A → Sent) (s : Sent) (a : A) (g : Reason → A) (c : A)
    → is_refusal s ≡ false
    → is_refusal (f a) ≡ false
    → ((e : Reason) → f (g e) ≡ err e)
    → is_refusal (f c) ≡ false
    → is_refusal (f (elim s [ ok ↦ a | err e ↦ g e | panicked ↦ c ])) ≡ false
unfolding is_refusal
Sent-reached f ok a g c r h k p = h
Sent-reached f (err e) a g c r h k p = ap is_refusal (k e) ∙ r
Sent-reached f panicked a g c r h k p = p

send_open-reached :
    (link : Link) (host : Answers) (packet : List ℕ)
    → is_refusal (send_open link host packet).1 ≡ false
unfolding send_open write_all is_refusal
send_open-reached link host packet =
    Sent-reached {A = Link × Sent × List ℕ} (λ out. out.1) _ _ _
      (link, panicked, (write_all host.writes packet).0)
      (write_loop-reached (length packet) host.writes 0 packet) refl (λ e. refl) refl

mqtt_connect-reached :
    (config : Config) (host : Answers) → is_refusal (mqtt_connect config host) ≡ false
unfolding mqtt_connect write_all is_refusal
mqtt_connect-reached config host =
    Option-elim (λ r. is_refusal r ≡ false) (parse_mqtt_url config.url) _ _ (λ n. refl)
      λ target u.
        if-elim (λ r. is_refusal r ≡ false) (not host.tcp) _ _ (λ t. refl)
          λ t.
            let packet =
              encode_connect client_id (unless_empty config.user) (unless_empty config.pass) in
            Sent-reached (λ r. r) (write_all host.connect_writes packet).1 _ _ panicked
              (write_loop-reached (length packet) host.connect_writes 0 packet)
              (check_connack-reached host.connack) (λ e. refl) refl

mqtt_send-attempted :
    (config : Config) (link : Link) (host : Answers) (packet : List ℕ)
    → attempted link (mqtt_send config link host packet).1 ≡ connects link host.now
unfolding mqtt_send connects is_refusal
mqtt_send-attempted config link host packet = elim (Bool-cases link.conn) [
  | inl open_now ↦ rw open_now refl
  | inr closed ↦ elim (Bool-cases (too_soon link host.now)) [
    | inl soon ↦ rw (closed, soon) refl
    | inr late ↦
        let tried = record link { last_connect = host.now } in
        let reached : is_refusal (mqtt_send config link host packet).1 ≡ false =
          rw (closed, late)
            (Sent-reached {A = Link × Sent × List ℕ} (λ out. out.1) (mqtt_connect config host) _ _
              (tried, panicked, []) (mqtt_connect-reached config host)
              (send_open-reached (record tried { conn = true }) host packet) (λ e. refl) refl) in
        ap (λ b. not link.conn && not b) reached ∙ rw (closed, late) refl
  ]
]

mqtt_send-last_connect :
    (config : Config) (link : Link) (host : Answers) (packet : List ℕ)
    → (mqtt_send config link host packet).0.last_connect
      ≡ (if connects link host.now then host.now else link.last_connect)
unfolding mqtt_send connects
mqtt_send-last_connect config link host packet = ground (
  arith,
  send_open-last_connect link host packet,
  opened-last_connect (record link { last_connect = host.now }) host packet
      (mqtt_connect config host),
)

connects-spaced :
    (link : Link) (now : ℕ)
    → link.last_connect ≤ now
    → now < 2 ^ 64
    → connects link now ≡ true
    → (link.last_connect ≡ 0) ⊎ (link.last_connect + connect_retry_ms ≤ now)
unfolding connects too_soon
connects-spaced link now h k e = elim (Bool-cases (link.last_connect == 0)) [
  | inl z ↦ inl (ground arith)
  | inr z ↦ inr (ground arith)
]

-- Between two calls that open a session, or try to, lie at least five seconds, whatever the host answers and
-- however often a session is lost. The uptime does not run backwards; an attempt at time 0 would
-- count as none.
pub attempts-IsSpaced :
    (config : Config) (link : Link) (since : ℕ) (calls : List (Answers × List ℕ))
    → link.last_connect ≤ since
    → IsUptime since calls
    → IsSpaced link.last_connect (attempts config link calls)
unfolding attempts
attempts-IsSpaced config link since [] h u = tt
attempts-IsSpaced config link since ((host, packet) ∷ calls) h u =
    let link' = (mqtt_send config link host packet).0 in
    let e = mqtt_send-last_connect config link host packet in
    let same = mqtt_send-attempted config link host packet in
    if-elim (IsSpaced link.last_connect) (attempted link _) _ _
      (λ t.
        let c = sym same ∙ t in
        let e' : link'.last_connect ≡ host.now = ground arith in
        (
          connects-spaced link host.now (omega arith) u.2 c,
          rw e' at (attempts-IsSpaced config link' host.now calls (omega arith) u.3),
        ))
      (λ t.
        let c = sym same ∙ t in
        let e' : link'.last_connect ≡ link.last_connect = ground arith in
        rw e' at (attempts-IsSpaced config link' host.now calls (omega arith) u.3))
