-- ===== src/GpioMqtt/Reader/Packets.antt =====
-- CONNECT and PUBLISH, written by `encode_connect` and `encode_publish` and read by a broker.
use cdc_badge_plugins.Base.{
  ℕ, suc, ◌+◌, ◌*◌, ◌/◌, ◌%◌, ◌^◌, ◌≤◌, ◌<◌, min, le→leb, true, false, Option, none, some, ◌≡◌,
  refl, ap, ◌∙◌, arith, List, [], ◌∷◌, ◌++◌, length, ◌==◌, Bool, length-append, take-append_self,
  drop-append_self, take-all, append_nil,
}
use cdc_badge_plugins.Base.Bytes.{codes}
use cdc_badge_plugins.GpioMqtt.Packet.{
  u16_to_be, push_utf8, encode_remaining_len, non_empty, set_flag, push_option, keepalive_secs,
  connect_variable, encode_connect, encode_publish,
}
use cdc_badge_plugins.GpioMqtt.Reader.{
  connect, publish, read_bytes, read_utf8, read_if, read_login, read_fixed, read_connect,
  read_publish, read_body, flags_fit, with_rest, read_packet, read_len,
}
use cdc_badge_plugins.GpioMqtt.Reader.Lengths.{read_len-loop, encode_remaining_len-cons}
use mathlib.Core.List.{append_assoc}

abbrev is_some {ℓ} : {A : Type ℓ} → Option A → Bool
is_some none = false
is_some (some a) = true

-- The two bytes of a length and the text.
abbrev pub sized : List ℕ → List ℕ
sized s = u16_to_be (length s) ++ s

pub push_utf8_lem : (s out : List ℕ) → length s < 65536 → push_utf8 s out ≡ out ++ sized s
unfolding push_utf8
push_utf8_lem s out h =
    let e : min (length s) 65535 ≡ length s = omega arith in
    rw (e, take-all (length s) s (omega arith), append_assoc) refl

read_bytes_lem : (s r : List ℕ) (n : ℕ) → n ≡ length s → read_bytes n (s ++ r) ≡ some (s, r)
unfolding read_bytes
read_bytes_lem s r n e = rw (
  le→leb n (length (s ++ r)) (omega (arith, length-append s r)),
  take-append_self s r n (omega arith),
  drop-append_self s r n (omega arith),
)

pub read_utf8_lem : (s r : List ℕ) → length s < 65536 → read_utf8 (sized s ++ r) ≡ some (s, r)
unfolding read_utf8
read_utf8_lem s r h = read_bytes_lem s r _ (omega arith)

-- The packet around a body.
read_packet_lem :
    (kind len : ℕ) (s s' body rest : List ℕ)
    → read_len 4 0 1 s ≡ some (len, s')
    → read_bytes len s' ≡ some (body, rest)
    → read_packet (kind ∷ s) ≡ with_rest (read_body kind body) rest
unfolding read_packet
read_packet_lem kind len s s' body rest e f = ground arith

read_packet-body :
    (kind : ℕ) (body rest : List ℕ)
    → length body < 128 ^ 4
    → read_packet ((encode_remaining_len (length body) (kind ∷ []) ++ body) ++ rest)
      ≡ with_rest (read_body kind body) rest
read_packet-body kind body rest h =
    rw
      (
        append_assoc (encode_remaining_len (length body) (kind ∷ [])) body rest,
        encode_remaining_len-cons kind (length body) (body ++ rest),
      )
      (read_packet_lem kind (0 + length body * 1) _ (body ++ rest) body rest
        (read_len-loop 3 (suc (length body)) (length body) 0 1 (body ++ rest) (omega arith) h)
        (read_bytes_lem body rest (0 + length body * 1) (omega arith)))

read_publish_lem :
    (body topic payload : List ℕ)
    → read_utf8 body ≡ some (topic, payload)
    → read_body 0x30 body ≡ some (publish topic payload)
unfolding read_body read_publish
read_publish_lem body topic payload e = ground arith

-- A broker reads a PUBLISH packet as its topic and its payload, and what follows it is left. The
-- topic has at most 65535 bytes, and the topic and the payload stay below the limit of a packet.
pub read_packet-encode_publish :
    (topic payload rest : List ℕ)
    → length topic < 65536
    → length topic + length payload + 2 < 128 ^ 4
    → read_packet (encode_publish topic payload ++ rest) ≡ some (publish topic payload, rest)
unfolding encode_publish
read_packet-encode_publish topic payload rest h k = rw (push_utf8_lem topic [] h) (
    read_packet-body 0x30 (sized topic ++ payload) rest
      (omega (arith, length-append (sized topic) payload))
    ∙ ap (λ p. with_rest p rest) (read_publish_lem _ topic payload (read_utf8_lem topic payload h))
    ∙ unfold with_rest in refl)

-- The rest of a CONNECT.
abbrev IsText : Option (List ℕ) → Type 0
IsText none = Unit {0}
IsText (some s) = length s < 65536

abbrev sized_option : Option (List ℕ) → List ℕ
sized_option none = []
sized_option (some s) = sized s

abbrev flag : ℕ → Option (List ℕ) → ℕ
flag bit none = 0
flag bit (some s) = bit

push_option_lem :
    (o : Option (List ℕ)) (out : List ℕ) → IsText o → push_option o out ≡ out ++ sized_option o
unfolding push_option
push_option_lem none out h = rw (append_nil out) refl
push_option_lem (some s) out h = push_utf8_lem s out h

read_if_lem :
    (o : Option (List ℕ)) (b : Bool) (r : List ℕ)
    → IsText o
    → b ≡ is_some o
    → read_if b (sized_option o ++ r) ≡ some (o, r)
unfolding read_if
read_if_lem none b r h e = rw e refl
read_if_lem (some s) b r h e = rw e (ground (arith, read_utf8_lem s r h))

read_login_lem :
    (flags keepalive : ℕ) (client : List ℕ) (user pass : Option (List ℕ))
    → IsText user
    → IsText pass
    → (flags / 128 % 2 == 1) ≡ is_some user
    → (flags / 64 % 2 == 1) ≡ is_some pass
    → read_login flags keepalive client (sized_option user ++ sized_option pass)
      ≡ some (connect keepalive client user pass)
unfolding read_login
read_login_lem flags keepalive client user pass hu hp eu ep = ground (
  arith,
  read_if_lem user _ (sized_option pass) hu eu,
  read_if_lem pass _ [] hp ep,
  append_nil (sized_option pass),
)

read_fixed_lem :
    (flags : ℕ) (client s : List ℕ)
    → length client < 65536
    → flags_fit flags ≡ true
    → read_fixed (0x04 ∷ flags ∷ u16_to_be keepalive_secs ++ (sized client ++ s))
      ≡ read_login flags keepalive_secs client s
unfolding read_fixed
read_fixed_lem flags client s h fit = ground (arith, read_utf8_lem client s h)

read_connect_lem : (s : List ℕ) → read_body 0x10 (sized (codes "MQTT") ++ s) ≡ read_fixed s
unfolding read_body read_connect
read_connect_lem s = ground (arith, read_utf8_lem (codes "MQTT") s (omega arith))

abbrev flags_of : Option (List ℕ) → Option (List ℕ) → ℕ
flags_of user pass = set_flag 0x80 user (set_flag 0x40 pass 0x02)

-- A password stands only with a user name.
abbrev pub NeedsUser : Option (List ℕ) → Option (List ℕ) → Type 0
NeedsUser user none = Unit {0}
NeedsUser none (some p) = ⊥
NeedsUser (some u) (some p) = Unit {0}

flags_fit_lem :
    (user pass : Option (List ℕ)) → NeedsUser user pass → flags_fit (flags_of user pass) ≡ true
unfolding set_flag flags_fit
flags_fit_lem none none h = refl
flags_fit_lem none (some p) h = absurd h
flags_fit_lem (some u) none h = refl
flags_fit_lem (some u) (some p) h = refl

flags_lem :
    (user pass : Option (List ℕ))
    → ((flags_of user pass / 128 % 2 == 1) ≡ is_some user)
      × ((flags_of user pass / 64 % 2 == 1) ≡ is_some pass)
unfolding set_flag
flags_lem none none = (refl, refl)
flags_lem none (some p) = (refl, refl)
flags_lem (some u) none = (refl, refl)
flags_lem (some u) (some p) = (refl, refl)

connect_variable_lem :
    (client : List ℕ) (user pass : Option (List ℕ))
    → length client < 65536
    → IsText user
    → IsText pass
    → connect_variable client user pass
      ≡ sized (codes "MQTT")
        ++ (0x04 ∷ flags_of user pass ∷ u16_to_be keepalive_secs
            ++ (sized client ++ (sized_option user ++ sized_option pass)))
unfolding connect_variable
connect_variable_lem client user pass h hu hp = simp (
  push_utf8_lem (codes "MQTT") [] (omega arith),
  push_utf8_lem client _ h,
  push_option_lem user _ hu,
  push_option_lem pass _ hp,
  append_assoc,
)

length-sized_option : (o : Option (List ℕ)) → IsText o → length (sized_option o) ≤ 65537
length-sized_option none h = omega arith
length-sized_option (some s) h = omega arith

non_empty-IsText : (o : Option (List ℕ)) → IsText o → IsText (non_empty o)
unfolding non_empty
non_empty-IsText none h = tt
non_empty-IsText (some []) h = tt
non_empty-IsText (some (b ∷ s)) h = h

read_connect-variable :
    (client rest : List ℕ) (user pass : Option (List ℕ))
    → length client < 65536
    → IsText user
    → IsText pass
    → NeedsUser user pass
    → read_packet (
        (encode_remaining_len (length (connect_variable client user pass)) (0x10 ∷ [])
          ++ connect_variable client user pass)
        ++ rest)
      ≡ some (connect keepalive_secs client user pass, rest)
read_connect-variable client rest user pass h hu hp need =
    let login = sized_option user ++ sized_option pass in
    let (eu, ep) = flags_lem user pass in
    rw (connect_variable_lem client user pass h hu hp) (
      read_packet-body 0x10 _ rest (
        omega (
          arith,
          length-append (sized client) login,
          length-append (sized_option user) (sized_option pass),
          length-sized_option user hu,
          length-sized_option pass hp,
        ))
      ∙ ap (λ p. with_rest p rest)
          (read_connect_lem _
            ∙ read_fixed_lem (flags_of user pass) client login h (flags_fit_lem user pass need)
            ∙ read_login_lem (flags_of user pass) keepalive_secs client user pass hu hp eu ep)
      ∙ unfold with_rest in refl)

-- A broker reads a CONNECT packet as the client, the keep-alive time, the user name if it is not
-- empty and the password if it is not empty, in a clean session without a will, and what follows it
-- is left. No text is longer than 65535 bytes, and a password that is not empty has a user name that
-- is not empty.
pub read_packet-encode_connect :
    (client rest : List ℕ) (user pass : Option (List ℕ))
    → length client < 65536
    → IsText user
    → IsText pass
    → NeedsUser (non_empty user) (non_empty pass)
    → read_packet (encode_connect client user pass ++ rest)
      ≡ some (connect keepalive_secs client (non_empty user) (non_empty pass), rest)
unfolding encode_connect
read_packet-encode_connect client rest user pass h hu hp need =
    read_connect-variable client rest (non_empty user) (non_empty pass) h (non_empty-IsText user hu)
      (non_empty-IsText pass hp) need
