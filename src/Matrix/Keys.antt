-- ===== src/Matrix/Keys.antt =====
-- The answers about logins, devices, keys and backups: plugins/matrix/src/json.rs.
use cdc_badge_plugins.Base.{ℕ, Option, none, some, List, [], ◌∷◌, ◌++◌}
use mathlib.Core.List.{filter_map, flat_map}
use cdc_badge_plugins.Base.Bytes.{codes, str_eq}
use cdc_badge_plugins.Matrix.Json.{
  Json, ◌>>=◌, ◌>>◌, guard, unwrap_or, str_at, text_at, object_at, str_in,
}

pub record LoginResult : Type 0 where
  pub user_id : List ℕ
  pub device_id : List ℕ
  pub token : List ℕ

pub record DeviceKey : Type 0 where
  pub user_id : List ℕ
  pub device_id : List ℕ
  pub curve25519 : List ℕ
  pub ed25519 : List ℕ

pub record ClaimedOtk : Type 0 where
  pub user_id : List ℕ
  pub device_id : List ℕ
  pub key : List ℕ

pub record BackupSession : Type 0 where
  pub room_id : List ℕ
  pub session_id : List ℕ
  pub ciphertext : List ℕ
  pub mac : List ℕ
  pub ephemeral : List ℕ

pub record RoomKey : Type 0 where
  pub room_id : List ℕ
  pub session_id : List ℕ
  pub session_key : List ℕ

module _ ⦃J : Json⦄ where
  open J use {Value, get, from_str, as_object}

  unfoldable pub parse_login : List ℕ → Option LoginResult
  parse_login body = do
    v ← from_str body
    token ← str_at v (codes "access_token")
    some (record {
      user_id = text_at v (codes "user_id");
      device_id = text_at v (codes "device_id");
      token = token;
    })

  -- The entries of the object under a key of a body, none when it is not there.
  unfoldable pub entries_of : List ℕ → List ℕ → List (List ℕ × Value)
  entries_of body key = unwrap_or (from_str body >>= λ v. object_at v key) []

  unfoldable pub ssss_entry : List ℕ × Value → Option (List ℕ × List ℕ × List ℕ × List ℕ)
  ssss_entry entry = do
    ct ← str_at entry.1 (codes "ciphertext")
    iv ← str_at entry.1 (codes "iv")
    mac ← str_at entry.1 (codes "mac")
    some (entry.0, ct, iv, mac)

  unfoldable pub parse_ssss_secret : List ℕ → List (List ℕ × List ℕ × List ℕ × List ℕ)
  parse_ssss_secret body = filter_map ssss_entry (entries_of body (codes "encrypted"))

  unfoldable pub device_key : List ℕ → List ℕ × Value → Option DeviceKey
  device_key user_id device = do
    let keys = get device.1 (codes "keys")
    curve ← str_in keys (codes "curve25519:" ++ device.0)
    ed ← str_in keys (codes "ed25519:" ++ device.0)
    some (record { user_id = user_id; device_id = device.0; curve25519 = curve; ed25519 = ed })

  unfoldable pub parse_keys_query : List ℕ → List DeviceKey
  parse_keys_query body =
      flat_map (λ user. filter_map (device_key user.0) (unwrap_or (as_object user.1) []))
        (entries_of body (codes "device_keys"))

  -- The first entry of an object.
  unfoldable pub first_entry : Value → Option Value
  first_entry keys = elim (unwrap_or (as_object keys) []) [ [] ↦ none | e ∷ es ↦ some e.1 ]

  unfoldable pub claimed_otk : List ℕ → List ℕ × Value → Option ClaimedOtk
  claimed_otk user_id device = do
    entry ← first_entry device.1
    key ← str_at entry (codes "key")
    some (record { user_id = user_id; device_id = device.0; key = key })

  unfoldable pub parse_keys_claim : List ℕ → List ClaimedOtk
  parse_keys_claim body =
      flat_map (λ user. filter_map (claimed_otk user.0) (unwrap_or (as_object user.1) []))
        (entries_of body (codes "one_time_keys"))

  unfoldable pub backup_session : List ℕ → List ℕ × Value → Option BackupSession
  backup_session room_id session = do
    body_data ← get session.1 (codes "session_data")
    ciphertext ← str_at body_data (codes "ciphertext")
    mac ← str_at body_data (codes "mac")
    ephemeral ← str_at body_data (codes "ephemeral")
    some (record {
      room_id = room_id;
      session_id = session.0;
      ciphertext = ciphertext;
      mac = mac;
      ephemeral = ephemeral;
    })

  unfoldable pub parse_backup : List ℕ → List BackupSession
  parse_backup body =
      flat_map
        (λ room.
          filter_map (backup_session room.0) (unwrap_or (object_at room.1 (codes "sessions")) []))
        (entries_of body (codes "rooms"))

  unfoldable pub parse_room_key : List ℕ → Option RoomKey
  parse_room_key plain = do
    v ← from_str plain
    ty ← str_at v (codes "type")
    guard (str_eq ty (codes "m.room_key"))
    content ← get v (codes "content")
    algorithm ← str_at content (codes "algorithm")
    guard (str_eq algorithm (codes "m.megolm.v1.aes-sha2"))
    room_id ← str_at content (codes "room_id")
    session_id ← str_at content (codes "session_id")
    session_key ← str_at content (codes "session_key")
    some (record { room_id = room_id; session_id = session_id; session_key = session_key })
