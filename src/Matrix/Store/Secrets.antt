-- ===== src/Matrix/Store/Secrets.antt =====
-- The secrets of plugins/matrix/src/store.rs: what is written is read back, and a value of an
-- earlier version moves over unchanged.
use cdc_badge_plugins.Base.{
  ℕ, ◌<◌, ◌≤◌, true, Option, none, some, ◌≡◌, refl, ap, ◌∙◌, arith, inl, inr, List, [], ◌∷◌, length,
  Bool-cases, Option-elim, if-elim, if-elim_both, if◌then◌else◌, sym,
}
use cdc_badge_plugins.Base.Chars.{is_empty}
use mathlib.Core.Path.{ap₂}
use cdc_badge_plugins.Base.Utf8.{is_utf8}
use cdc_badge_plugins.Matrix.Store.{
  Host, SlotRead, found, str_cap, slot_bytes, not_empty, from_utf8, secret_write, read_legacy,
  secret_read,
}

-- What the documentation of the SDK says of the slots and of strings in NVS: a slot that was written
-- holds the value; an erasure in NVS does not reach the slots; a string is UTF-8 and no longer than was asked for.
pub record IsSlots (h : Host) : Type 0 where
  pub written :
      (s : Host.Storage h) (k v : List ℕ) (cap : ℕ)
      → (Host.rmem_write h s k v).1 ≡ true
      → length v ≤ cap
      → Host.rmem_read h (Host.rmem_write h s k v).0 k cap ≡ found v
  pub erased :
      (s : Host.Storage h) (j k : List ℕ) (cap : ℕ)
      → Host.rmem_read h (Host.nvs_erase h s j).0 k cap ≡ Host.rmem_read h s k cap
  pub text :
      (s : Host.Storage h) (k v : List ℕ) (cap : ℕ)
      → Host.nvs_get_str h s k cap ≡ some v
      → (length v ≤ cap) × (is_utf8 v ≡ true)

not_empty-some :
    (o : Option (List ℕ)) (v : List ℕ) → not_empty o ≡ some v → (o ≡ some v) × (0 < length v)
unfolding not_empty is_empty
not_empty-some none v e = cc
not_empty-some (some []) v e = cc
not_empty-some (some (b ∷ s)) v e = ground arith

module _ (h : Host) (laws : IsSlots h) where
  open h use {Storage, rmem_read, rmem_write, nvs_get_str, nvs_erase}

  -- A slot with a value is read as that value, and nothing changes.
  from_slot :
      (s : Storage) (slot fallback v : List ℕ)
      → rmem_read s slot str_cap ≡ found v
      → 0 < length v
      → is_utf8 v ≡ true
      → secret_read h s slot fallback ≡ (s, some v)
  unfolding secret_read from_utf8
  from_slot s slot fallback [] e n u = absurd (omega arith)
  from_slot s slot fallback (b ∷ v) e n u = rw e (unfold is_empty slot_bytes in rw u refl)

  -- A secret that was written is read back, and the reading changes nothing. It is a text that is
  -- not empty and has at most 1024 bytes.
  pub secret_read-secret_write :
      (s : Storage) (slot fallback v : List ℕ)
      → (secret_write h s slot fallback v).1 ≡ true
      → 0 < length v
      → length v ≤ str_cap
      → is_utf8 v ≡ true
      → secret_read h (secret_write h s slot fallback v).0 slot fallback
        ≡ ((secret_write h s slot fallback v).0, some v)
  unfolding secret_write
  secret_read-secret_write s slot fallback v w n l u = elim (Bool-cases (rmem_write s slot v).1) [
    | inl ok ↦ rw ok (
        from_slot (nvs_erase (rmem_write s slot v).0 fallback).0 slot fallback v
          (laws.erased (rmem_write s slot v).0 fallback slot str_cap
            ∙ laws.written s slot v str_cap ok l)
          n u)
    | inr no_ok ↦ ground arith
  ]

  from_legacy :
      (s : Storage) (slot fallback : List ℕ)
      → is_empty (slot_bytes (rmem_read s slot str_cap)) ≡ true
      → secret_read h s slot fallback ≡ read_legacy h s slot fallback
  unfolding secret_read
  from_legacy s slot fallback e = rw e refl

  -- The value that the slot and the string in NVS give.
  value_of : SlotRead → Option (List ℕ) → Option (List ℕ)
  value_of r legacy = if is_empty (slot_bytes r) then not_empty legacy else from_utf8 (slot_bytes r)

  read_legacy-value :
      (s : Storage) (slot fallback : List ℕ)
      → (read_legacy h s slot fallback).1 ≡ not_empty (nvs_get_str s fallback str_cap)
  unfolding read_legacy
  read_legacy-value s slot fallback = by_value (not_empty (nvs_get_str s fallback str_cap))
    where
      by_value :
          (o : Option (List ℕ))
          → (elim o as (λ x. Storage × Option (List ℕ)) [
            | none ↦ (s, none)
            | some v ↦ ((secret_write h s slot fallback v).0, some v)
          ]).1
            ≡ o
      by_value none = refl
      by_value (some v) = refl

  secret_read-value :
      (s : Storage) (slot fallback : List ℕ)
      → (secret_read h s slot fallback).1
        ≡ value_of (rmem_read s slot str_cap) (nvs_get_str s fallback str_cap)
  unfolding secret_read value_of
  secret_read-value s slot fallback =
      if-elim_both {A = Storage × Option (List ℕ)} (λ r v. r.1 ≡ v)
        (is_empty (slot_bytes (rmem_read s slot str_cap))) _ _ _ _
        (λ e. read_legacy-value s slot fallback) (λ e. refl)

  moved_legacy :
      (s : Storage) (slot fallback : List ℕ)
      → is_empty (slot_bytes (rmem_read s slot str_cap)) ≡ true
      → ((v : List ℕ)
          → not_empty (nvs_get_str s fallback str_cap) ≡ some v
          → (secret_write h s slot fallback v).1 ≡ true)
      → (secret_read h (read_legacy h s slot fallback).0 slot fallback).1
        ≡ (read_legacy h s slot fallback).1
  unfolding read_legacy
  moved_legacy s slot fallback e can =
      Option-elim (λ (r : Storage × Option (List ℕ)). (secret_read h r.0 slot fallback).1 ≡ r.1)
        (not_empty (nvs_get_str s fallback str_cap)) _ _
        (λ n. ap (λ r. r.1) (from_legacy s slot fallback e) ∙ read_legacy-value s slot fallback ∙ n)
        (λ v f.
          let (got, some_bytes) = not_empty-some _ v f in
          let (l, u) = laws.text s fallback v str_cap got in
          ap (λ r. r.1) (secret_read-secret_write s slot fallback v (can v f) some_bytes l u))

  -- A secret that is read again is what it was before, also if the first reading moved it from NVS
  -- into the secure element: whatever else has changed by then, when the slot and the string in NVS
  -- read as the first reading left them. A value that is still in NVS can be moved.
  pub secret_read-again :
      (s t : Storage) (slot fallback : List ℕ)
      → ((v : List ℕ)
          → not_empty (nvs_get_str s fallback str_cap) ≡ some v
          → (secret_write h s slot fallback v).1 ≡ true)
      → rmem_read t slot str_cap ≡ rmem_read (secret_read h s slot fallback).0 slot str_cap
      → nvs_get_str t fallback str_cap
        ≡ nvs_get_str (secret_read h s slot fallback).0 fallback str_cap
      → (secret_read h t slot fallback).1 ≡ (secret_read h s slot fallback).1
  unfolding secret_read
  secret_read-again s t slot fallback can r n =
      secret_read-value t slot fallback
      ∙ ap₂ value_of r n
      ∙ sym (secret_read-value (secret_read h s slot fallback).0 slot fallback)
      ∙ if-elim (λ (r : Storage × Option (List ℕ)). (secret_read h r.0 slot fallback).1 ≡ r.1)
          (is_empty (slot_bytes (rmem_read s slot str_cap))) _ _
          (λ e. moved_legacy s slot fallback e can) (λ e. rw e refl)
