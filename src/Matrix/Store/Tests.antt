-- ===== src/Matrix/Store/Tests.antt =====
-- A badge in memory, and the theorems about plugins/matrix/src/store.rs at inputs on it.
use cdc_badge_plugins.Base.{
  ℕ, ◌≤◌, leb, le→leb, if◌then◌else◌, true, false, Option, none, some, ◌≡◌, ◌≢◌, refl, arith, inl,
  inr, sym, ap, ◌∙◌, Bool-cases, List, length, replicate, length-replicate,
}
use cdc_badge_plugins.Base.Bytes.{codes, str_eq, str_eq_self, unlike}
use cdc_badge_plugins.Base.Utf8.{is_utf8, utf8_from}
use cdc_badge_plugins.Matrix.Store.{
  Host, SlotRead, found, not_found, r_pass, k_pass_fb, r_pickle, str_cap, secret_write, secret_read,
  not_empty, from_utf8, pickle_key, seal, save_account, load_account,
}
use mathlib.Core.Path.{subst}
use cdc_badge_plugins.Matrix.Store.Secrets.{IsSlots, secret_read-again}
use cdc_badge_plugins.Matrix.Store.Key.{IsVault, CanMove}
use cdc_badge_plugins.Matrix.Store.Sealed.{load_account-save_account}

abbrev Table : Type 0 → Type 0
Table A = List ℕ → Option A

record Memory : Type 0 where
  slots : Table (List ℕ)
  texts : Table (List ℕ)
  blobs : Table (List ℕ)
  numbers : Table ℕ

abbrev put : {A : Type 0} → Table A → List ℕ → Option A → Table A
put t k v j = if str_eq k j then v else t j

abbrev fitting : ℕ → Option (List ℕ) → Option (List ℕ)
fitting cap none = none
fitting cap (some v) = if leb (length v) cap then some v else none

abbrev slot_read : Option (List ℕ) → SlotRead
slot_read none = not_found
slot_read (some v) = found v

abbrev only_text : Option (List ℕ) → Option (List ℕ)
only_text none = none
only_text (some v) = if is_utf8 v then some v else none

abbrev erase_key : Memory → List ℕ → Memory
erase_key m k = record m {
  texts = put m.texts k none;
  blobs = put m.blobs k none;
  numbers = put m.numbers k none;
}

abbrev empty : Memory
empty = record { slots = λ k. none; texts = λ k. none; blobs = λ k. none; numbers = λ k. none }

-- A slot takes up to 1024 bytes; the cipher and the digest leave the text as it is.
abbrev memory : Host
memory = record {
  Storage = Memory;
  rmem_read = λ m k cap. slot_read (fitting cap (m.slots k));
  rmem_write = λ m k v.
      if leb (length v) 1024
      then (record m { slots = put m.slots k (some v) }, true)
      else (m, false);
  rmem_erase = λ m k. (record m { slots = put m.slots k none }, true);
  nvs_get_str = λ m k cap. only_text (fitting cap (m.texts k));
  nvs_set_str = λ m k v. (record m { texts = put m.texts k (some v) }, true);
  nvs_get_blob = λ m k cap. fitting cap (m.blobs k);
  nvs_set_blob = λ m k v. (record m { blobs = put m.blobs k (some v) }, true);
  nvs_get_u32 = λ m k. m.numbers k;
  nvs_set_u32 = λ m k n. (record m { numbers = put m.numbers k (some n) }, true);
  nvs_erase = λ m k. (erase_key m k, true);
  nvs_erase_all = λ m. (record empty { slots = m.slots }, true);
  random_fill = λ m n. (m, some (replicate n 7));
  sha256 = λ b. some b;
  aes_gcm_encrypt = λ key iv plain. some (replicate 16 0, plain);
  aes_gcm_decrypt = λ key iv ciphertext tag. some ciphertext;
}

put_self : {A : Type 0} (t : Table A) (k : List ℕ) (v : Option A) → put t k v k ≡ v
put_self t k v = rw (str_eq_self k) refl

put_other : {A : Type 0} (t : Table A) (j k : List ℕ) (v : Option A) → j ≢ k → put t j v k ≡ t k
put_other t j k v n = rw (unlike j k n) refl

only_text-some :
    (o : Option (List ℕ)) (cap : ℕ) (v : List ℕ)
    → only_text (fitting cap o) ≡ some v
    → (length v ≤ cap) × (is_utf8 v ≡ true)
only_text-some none cap v e = cc
only_text-some (some w) cap v e = ground arith

read_put :
    (t : Table (List ℕ)) (k v : List ℕ) (cap : ℕ)
    → length v ≤ cap
    → fitting cap (put t k (some v) k) ≡ some v
read_put t k v cap l = rw (str_eq_self k, le→leb (length v) cap l) refl

memory_written :
    (s : Memory) (k v : List ℕ) (cap : ℕ)
    → (Host.rmem_write memory s k v).1 ≡ true
    → length v ≤ cap
    → Host.rmem_read memory (Host.rmem_write memory s k v).0 k cap ≡ found v
memory_written s k v cap w l = elim (Bool-cases (leb (length v) 1024)) [
  | inl t ↦ rw t (ap slot_read (read_put s.slots k v cap l))
  | inr f ↦ ground arith
]

memory_refused :
    (s : Memory) (k v : List ℕ)
    → (Host.rmem_write memory s k v).1 ≡ false
    → (Host.rmem_write memory s k v).0 ≡ s
memory_refused s k v w = elim (Bool-cases (leb (length v) 1024)) [
  | inl t ↦ ground arith
  | inr f ↦ rw f refl
]

memory-IsSlots : IsSlots memory
memory-IsSlots = record {
  written = λ s k v cap w l. memory_written s k v cap w l;
  erased = λ s j k cap. refl;
  text = λ s k v cap e. only_text-some (s.texts k) cap v e;
}

memory-IsVault : IsVault memory
memory-IsVault = record {
  blob_written = λ s k v cap w l. read_put s.blobs k v cap l;
  blob_other = λ s j k v cap n. ap (fitting cap) (put_other s.blobs j k (some v) n);
  blob_slot = λ s j v k cap. refl;
  number_written = λ s k n w. put_self s.numbers k (some n);
  number_blob = λ s j k n cap d. refl;
  number_slot = λ s j k n cap. refl;
  random_blob = λ s n k cap. refl;
  random_slot = λ s n k cap. refl;
  random_length =
      λ s n b e. let q : replicate n 7 ≡ b = cc in sym (ap length q) ∙ length-replicate n 7;
  decrypts = λ key iv plain tag ciphertext e.
      let t : replicate 16 0 ≡ tag = cc in
      let c : plain ≡ ciphertext = cc in (sym (ap length t), sym (ap length c), ap some (sym c));
}

abbrev secret : List ℕ
secret = codes "hunter2"

-- A badge with a password of an earlier version.
abbrev old_badge : Memory
old_badge = record empty { texts = put empty.texts k_pass_fb (some secret) }

moved :
    secret_read memory (secret_read memory old_badge r_pass k_pass_fb).0 r_pass k_pass_fb
    ≡ ((secret_read memory old_badge r_pass k_pass_fb).0, some secret)
unfolding secret_read not_empty from_utf8 is_utf8 utf8_from
moved = refl

secret_moves :
    (v : List ℕ)
    → not_empty (Host.nvs_get_str memory old_badge k_pass_fb str_cap) ≡ some v
    → (secret_write memory old_badge r_pass k_pass_fb v).1 ≡ true
unfolding secret_write not_empty is_utf8 utf8_from
secret_moves v e =
    let q : secret ≡ v = cc in
    subst (λ w. (secret_write memory old_badge r_pass k_pass_fb w).1 ≡ true) q refl

secret_read-again_example :
    (secret_read memory (secret_read memory old_badge r_pass k_pass_fb).0 r_pass k_pass_fb).1
    ≡ (secret_read memory old_badge r_pass k_pass_fb).1
unfolding secret_write
secret_read-again_example =
    secret_read-again memory memory-IsSlots old_badge
      (secret_read memory old_badge r_pass k_pass_fb).0 r_pass k_pass_fb secret_moves refl refl

memory_moves : (s : Memory) → CanMove memory memory-IsSlots memory-IsVault s
memory_moves s k e = elim (Bool-cases (Host.rmem_write memory s r_pickle k).1) [
  | inl ok ↦ inl ok
  | inr no_ok ↦ inr (memory_refused s r_pickle k no_ok)
]

load_account-save_account_example :
    (load_account memory (save_account memory empty secret).0).1 ≡ some secret
unfolding save_account seal pickle_key
load_account-save_account_example =
    load_account-save_account memory memory-IsSlots memory-IsVault empty secret (memory_moves empty)
      (omega arith) refl
