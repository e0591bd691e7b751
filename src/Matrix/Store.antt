-- ===== src/Matrix/Store.antt =====
-- What the Matrix client keeps, plugins/matrix/src/store.rs. The storage of the badge, its random
-- numbers and its cryptography are the record Host, as the calls of the SDK give them; a string in
-- storage is its UTF-8 bytes. A value that the source drops, such as a failed erasure, is dropped here.
pub mod Secrets
pub mod Key
pub mod Sealing
pub mod Sealed
mod Tests
use cdc_badge_plugins.Base.{
  ℕ, ◌+◌, ltb, ◌==◌, if◌then◌else◌, Bool, true, false, not, Option, none, some, List, [], ◌∷◌, ◌++◌,
  length, take, drop, u32,
}
use cdc_badge_plugins.Base.Bytes.{codes}
use cdc_badge_plugins.Base.Chars.{is_empty}
use cdc_badge_plugins.Base.Utf8.{is_utf8}

-- A read of a slot of the secure element: its bytes, `Error::NotFound`, or another error.
pub data SlotRead : Type 0 where
  found : List ℕ → SlotRead
  not_found : SlotRead
  unreadable : SlotRead

pub record Host : Type 1 where
  pub Storage : Type 0
  pub rmem_read : Storage → List ℕ → ℕ → SlotRead
  pub rmem_write : Storage → List ℕ → List ℕ → Storage × Bool
  pub rmem_erase : Storage → List ℕ → Storage × Bool
  pub nvs_get_str : Storage → List ℕ → ℕ → Option (List ℕ)
  pub nvs_set_str : Storage → List ℕ → List ℕ → Storage × Bool
  pub nvs_get_blob : Storage → List ℕ → ℕ → Option (List ℕ)
  pub nvs_set_blob : Storage → List ℕ → List ℕ → Storage × Bool
  pub nvs_get_u32 : Storage → List ℕ → Option ℕ
  pub nvs_set_u32 : Storage → List ℕ → ℕ → Storage × Bool
  pub nvs_erase : Storage → List ℕ → Storage × Bool
  pub nvs_erase_all : Storage → Storage × Bool
  pub random_fill : Storage → ℕ → Storage × Option (List ℕ)
  pub sha256 : List ℕ → Option (List ℕ)
  -- The key, the nonce and the text; the tag and the ciphertext.
  pub aes_gcm_encrypt : List ℕ → List ℕ → List ℕ → Option (List ℕ × List ℕ)
  -- The key, the nonce, the ciphertext and the tag.
  pub aes_gcm_decrypt : List ℕ → List ℕ → List ℕ → List ℕ → Option (List ℕ)

abbrev pub k_srv : List ℕ
k_srv = codes "srv"

abbrev pub k_user : List ℕ
k_user = codes "user"

abbrev pub k_uid : List ℕ
k_uid = codes "uid"

abbrev pub k_device : List ℕ
k_device = codes "device"

abbrev pub k_synctok : List ℕ
k_synctok = codes "synctok"

abbrev pub k_token_fb : List ℕ
k_token_fb = codes "tok_fb"

abbrev pub k_pass_fb : List ℕ
k_pass_fb = codes "pass_fb"

abbrev pub k_reckey_fb : List ℕ
k_reckey_fb = codes "reckey_fb"

abbrev pub r_token : List ℕ
r_token = codes "mtx_token"

abbrev pub r_pass : List ℕ
r_pass = codes "mtx_pass"

abbrev pub r_reckey : List ℕ
r_reckey = codes "mtx_reckey"

abbrev pub r_pickle : List ℕ
r_pickle = codes "mtx_pickle"

abbrev pub k_pickle_fb : List ℕ
k_pickle_fb = codes "pickle_fb"

abbrev pub k_account : List ℕ
k_account = codes "acct"

abbrev pub k_account_len : List ℕ
k_account_len = codes "acct_len"

abbrev pub k_mg_state : List ℕ
k_mg_state = codes "mg_state"

abbrev pub k_mg_len : List ℕ
k_mg_len = codes "mg_len"

abbrev pub str_cap : ℕ
str_cap = 1024

abbrev pub pickle_key_len : ℕ
pickle_key_len = 32

abbrev pub account_cap : ℕ
account_cap = 65536

abbrev pub mg_state_cap : ℕ
mg_state_cap = 262144

abbrev pub seal_iv_len : ℕ
seal_iv_len = 12

abbrev pub seal_header_len : ℕ
seal_header_len = 28

pub record Config : Type 0 where
  pub server : List ℕ
  pub user : List ℕ

pub record Session : Type 0 where
  pub base_url : List ℕ
  pub token : List ℕ
  pub user_id : List ℕ
  pub device_id : List ℕ
  pub next_batch : List ℕ

-- `unwrap_or_default` and `filter(|s| !s.is_empty())`.
unfoldable pub or_default : Option (List ℕ) → List ℕ
or_default none = []
or_default (some s) = s

unfoldable pub not_empty : Option (List ℕ) → Option (List ℕ)
unfolding is_empty
not_empty none = none
not_empty (some s) = if is_empty s then none else some s

-- `String::from_utf8(bytes).ok()`.
unfoldable pub from_utf8 : List ℕ → Option (List ℕ)
from_utf8 bytes = if is_utf8 bytes then some bytes else none

unfoldable pub key_from : List ℕ → Option (List ℕ)
key_from bytes = if length bytes == pickle_key_len then some bytes else none

-- The bytes of a slot that holds some.
unfoldable pub slot_bytes : SlotRead → List ℕ
slot_bytes (found bytes) = bytes
slot_bytes not_found = []
slot_bytes unreadable = []

module _ (h : Host) where
  open h use {
    Storage, rmem_read, rmem_write, rmem_erase, nvs_get_str, nvs_set_str, nvs_get_blob,
    nvs_set_blob, nvs_get_u32, nvs_set_u32, nvs_erase, nvs_erase_all, random_fill, sha256,
    aes_gcm_encrypt, aes_gcm_decrypt,
  }

  -- `if write is ok { erase }`, and whether the write was.
  unfoldable pub secret_write : Storage → List ℕ → List ℕ → List ℕ → Storage × Bool
  secret_write s slot fallback_key value =
      let (s', written) = rmem_write s slot value in
      if written then ((nvs_erase s' fallback_key).0, true) else (s', false)

  -- A value that is still in NVS moves over.
  unfoldable pub read_legacy : Storage → List ℕ → List ℕ → Storage × Option (List ℕ)
  unfolding secret_write
  read_legacy s slot fallback_key = elim (not_empty (nvs_get_str s fallback_key str_cap)) [
    | none ↦ (s, none)
    | some legacy ↦ ((secret_write s slot fallback_key legacy).0, some legacy)
  ]

  unfoldable pub secret_read : Storage → List ℕ → List ℕ → Storage × Option (List ℕ)
  unfolding slot_bytes is_empty read_legacy
  secret_read s slot fallback_key =
      let bytes = slot_bytes (rmem_read s slot str_cap) in
      if is_empty bytes then read_legacy s slot fallback_key else (s, from_utf8 bytes)

  unfoldable pub secret_erase : Storage → List ℕ → List ℕ → Storage
  secret_erase s slot fallback_key = (nvs_erase (rmem_erase s slot).0 fallback_key).0

  unfoldable pub load_config : Storage → Config
  load_config s = record {
    server = or_default (nvs_get_str s k_srv 256);
    user = or_default (nvs_get_str s k_user 256);
  }

  unfoldable pub save_server : Storage → List ℕ → Storage
  save_server s value = (nvs_set_str s k_srv value).0

  unfoldable pub save_user : Storage → List ℕ → Storage
  save_user s value = (nvs_set_str s k_user value).0

  unfoldable pub save_password : Storage → List ℕ → Storage × Bool
  save_password s value = secret_write s r_pass k_pass_fb value

  unfoldable pub load_password : Storage → Storage × Option (List ℕ)
  load_password s = secret_read s r_pass k_pass_fb

  unfoldable pub save_recovery_key : Storage → List ℕ → Storage × Bool
  save_recovery_key s value = secret_write s r_reckey k_reckey_fb value

  unfoldable pub load_recovery_key : Storage → Storage × Option (List ℕ)
  load_recovery_key s = secret_read s r_reckey k_reckey_fb

  unfoldable pub save_login : Storage → List ℕ → List ℕ → List ℕ → Storage × Bool
  unfolding secret_write
  save_login s user_id device_id token =
      let s' = (nvs_set_str s k_uid user_id).0 in
      let s'' = (nvs_set_str s' k_device device_id).0 in secret_write s'' r_token k_token_fb token

  unfoldable pub load_device_id : Storage → Option (List ℕ)
  load_device_id s = not_empty (nvs_get_str s k_device 256)

  unfoldable pub save_sync_token : Storage → List ℕ → Storage
  save_sync_token s value = (nvs_set_str s k_synctok value).0

  unfoldable pub session_of : List ℕ → Storage × Option (List ℕ) → Storage × Option Session
  unfolding load_device_id
  session_of base_url (s, none) = (s, none)
  session_of base_url (s, some token) =
      let session : Session = record {
        base_url = base_url;
        token = token;
        user_id = or_default (nvs_get_str s k_uid 256);
        device_id = or_default (load_device_id s);
        next_batch = or_default (nvs_get_str s k_synctok 256);
      } in
      (s, some session)

  unfoldable pub load_session : Storage → Storage × Option Session
  unfolding secret_read session_of
  load_session s = elim (not_empty (nvs_get_str s k_srv 256)) [
    | none ↦ (s, none)
    | some base_url ↦ session_of base_url (secret_read s r_token k_token_fb)
  ]

  unfoldable pub reset_all : Storage → Storage
  unfolding secret_erase
  reset_all s =
      let s' = secret_erase s r_token k_token_fb in
      let s'' = secret_erase s' r_pass k_pass_fb in
      let s''' = secret_erase s'' r_reckey k_reckey_fb in
      (nvs_erase_all (rmem_erase s''' r_pickle).0).0

  -- A new key is minted only when there is none.
  unfoldable pub mint_key : Storage → Storage × Option (List ℕ)
  mint_key s =
      let (s', bytes) = random_fill s pickle_key_len in
      elim bytes [
        | none ↦ (s', none)
        | some k ↦
            let (s'', written) = rmem_write s' r_pickle k in
            if written then (s'', some k) else (s'', none)
      ]

  -- The copy in NVS of an earlier version.
  unfoldable pub mirrored_key : Storage → Option (List ℕ)
  mirrored_key s = elim (nvs_get_blob s k_pickle_fb pickle_key_len) [
    | none ↦ none
    | some b ↦ key_from b
  ]

  unfoldable pub move_key : Storage → List ℕ → Storage
  move_key s k =
      let (s', written) = rmem_write s r_pickle k in
      if written then (nvs_erase s' k_pickle_fb).0 else s'

  unfoldable pub held_key : Storage → Option (List ℕ) → Storage × Option (List ℕ)
  held_key s none = (s, none)
  held_key s (some k) = ((nvs_erase s k_pickle_fb).0, some k)

  unfoldable pub absent_key : Storage → Storage × Option (List ℕ)
  unfolding mirrored_key mint_key move_key
  absent_key s = elim (mirrored_key s) [ some k ↦ (move_key s k, some k) | none ↦ mint_key s ]

  unfoldable pub key_by : Storage → SlotRead → Storage × Option (List ℕ)
  unfolding held_key absent_key
  key_by s (found b) = held_key s (key_from b)
  key_by s not_found = absent_key s
  key_by s unreadable = (s, none)

  unfoldable pub pickle_key : Storage → Storage × Option (List ℕ)
  unfolding key_by
  pickle_key s = key_by s (rmem_read s r_pickle pickle_key_len)

  -- The steps of `seal` behind the key and behind the nonce.
  unfoldable pub seal_with : List ℕ → List ℕ → List ℕ → Option (List ℕ)
  seal_with key iv plain = elim (aes_gcm_encrypt key iv plain) [
    | none ↦ none
    | some (tag, ciphertext) ↦ some ((iv ++ tag) ++ ciphertext)
  ]

  unfoldable pub seal_by : Storage → Option (List ℕ) → List ℕ → Storage × Option (List ℕ)
  unfolding seal_with
  seal_by s none plain = (s, none)
  seal_by s (some key) plain =
      let (s', bytes) = random_fill s seal_iv_len in
      elim bytes [ none ↦ (s', none) | some iv ↦ (s', seal_with key iv plain) ]

  -- `crypto::sha256(&pickle_key()?).ok()?`.
  unfoldable pub digest : Storage × Option (List ℕ) → Storage × Option (List ℕ)
  digest (s, none) = (s, none)
  digest (s, some k) = (s, sha256 k)

  unfoldable pub seal : Storage → List ℕ → Storage × Option (List ℕ)
  unfolding seal_by digest
  seal s plain = let (s', key) = digest (pickle_key s) in seal_by s' key plain

  unfoldable pub unseal_by : Option (List ℕ) → List ℕ → Option (List ℕ)
  unseal_by none sealed = none
  unseal_by (some key) sealed =
      aes_gcm_decrypt key (take seal_iv_len sealed) (drop seal_header_len sealed)
        (drop seal_iv_len (take seal_header_len sealed))

  unfoldable pub unseal : Storage → List ℕ → Storage × Option (List ℕ)
  unfolding digest unseal_by
  unseal s sealed =
      let (s', key) = digest (pickle_key s) in
      if ltb (length sealed) seal_header_len then (s, none) else (s', unseal_by key sealed)

  unfoldable pub set_sized_blob : Storage → List ℕ → List ℕ → List ℕ → Storage × Bool
  set_sized_blob s key len_key value =
      let (s', written) = nvs_set_blob s key value in
      if written then nvs_set_u32 s' len_key (u32 (length value)) else (s', false)

  unfoldable pub get_sized_blob : Storage → List ℕ → List ℕ → ℕ → Option (List ℕ)
  get_sized_blob s key len_key legacy_cap =
      let cap : ℕ = elim (nvs_get_u32 s len_key) [ none ↦ legacy_cap | some n ↦ n ] in
      nvs_get_blob s key cap

  unfoldable pub save_sealed : Storage × Option (List ℕ) → List ℕ → List ℕ → Storage × Bool
  unfolding set_sized_blob
  save_sealed (s, none) key len_key = (s, false)
  save_sealed (s, some sealed) key len_key = set_sized_blob s key len_key sealed

  unfoldable pub save_account : Storage → List ℕ → Storage × Bool
  unfolding save_sealed
  save_account s pickle = save_sealed (seal s pickle) k_account k_account_len

  unfoldable pub load_sealed : Storage → List ℕ → List ℕ → ℕ → Storage × Option (List ℕ)
  unfolding get_sized_blob
  load_sealed s key len_key cap = elim (get_sized_blob s key len_key cap) [
    | none ↦ (s, none)
    | some sealed ↦ unseal s sealed
  ]

  unfoldable pub load_account : Storage → Storage × Option (List ℕ)
  unfolding load_sealed
  load_account s = load_sealed s k_account k_account_len account_cap

  unfoldable pub has_account : Storage → Bool
  has_account s = elim (nvs_get_u32 s k_account_len) [
    | some n ↦ true
    | none ↦ elim (nvs_get_blob s k_account account_cap) [ some b ↦ true | none ↦ false ]
  ]

  unfoldable pub save_crypto_state : Storage → List ℕ → Storage
  unfolding save_sealed
  save_crypto_state s state = (save_sealed (seal s state) k_mg_state k_mg_len).0

  unfoldable pub load_crypto_state : Storage → Storage × Option (List ℕ)
  unfolding load_sealed
  load_crypto_state s = load_sealed s k_mg_state k_mg_len mg_state_cap
