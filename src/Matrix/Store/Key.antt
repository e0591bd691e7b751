-- ===== src/Matrix/Store/Key.antt =====
-- The key of the account of plugins/matrix/src/store.rs stays.
use cdc_badge_plugins.Base.{
  ℕ, ◌≤◌, true, Option, none, some, ◌≡◌, ◌≢◌, refl, sym, ap, ◌∙◌, arith, List, length, Option-elim,
  if-elim, ◌⊎◌, inl, inr,
}
use cdc_badge_plugins.Matrix.Store.{
  Host, SlotRead, found, not_found, unreadable, r_pickle, k_pickle_fb, pickle_key_len, key_from,
  mint_key, mirrored_key, move_key, held_key, absent_key, key_by, pickle_key,
}
use cdc_badge_plugins.Matrix.Store.Secrets.{IsSlots}
use mathlib.Core.Path.{subst}

-- What the documentation of the SDK says of blobs, numbers, random bytes and AES-GCM: a blob and a
-- number that were written are read back, other keys keep their blobs, none of these reaches the
-- slots, and decryption undoes encryption.
pub record IsVault (h : Host) : Type 0 where
  pub blob_written :
      (s : Host.Storage h) (k v : List ℕ) (cap : ℕ)
      → (Host.nvs_set_blob h s k v).1 ≡ true
      → length v ≤ cap
      → Host.nvs_get_blob h (Host.nvs_set_blob h s k v).0 k cap ≡ some v
  pub blob_other :
      (s : Host.Storage h) (j k v : List ℕ) (cap : ℕ)
      → j ≢ k
      → Host.nvs_get_blob h (Host.nvs_set_blob h s j v).0 k cap ≡ Host.nvs_get_blob h s k cap
  pub blob_slot :
      (s : Host.Storage h) (j v k : List ℕ) (cap : ℕ)
      → Host.rmem_read h (Host.nvs_set_blob h s j v).0 k cap ≡ Host.rmem_read h s k cap
  pub number_written :
      (s : Host.Storage h) (k : List ℕ) (n : ℕ)
      → (Host.nvs_set_u32 h s k n).1 ≡ true
      → Host.nvs_get_u32 h (Host.nvs_set_u32 h s k n).0 k ≡ some n
  pub number_blob :
      (s : Host.Storage h) (j k : List ℕ) (n cap : ℕ)
      → j ≢ k
      → Host.nvs_get_blob h (Host.nvs_set_u32 h s j n).0 k cap ≡ Host.nvs_get_blob h s k cap
  pub number_slot :
      (s : Host.Storage h) (j k : List ℕ) (n cap : ℕ)
      → Host.rmem_read h (Host.nvs_set_u32 h s j n).0 k cap ≡ Host.rmem_read h s k cap
  pub random_blob :
      (s : Host.Storage h) (n : ℕ) (k : List ℕ) (cap : ℕ)
      → Host.nvs_get_blob h (Host.random_fill h s n).0 k cap ≡ Host.nvs_get_blob h s k cap
  pub random_slot :
      (s : Host.Storage h) (n : ℕ) (k : List ℕ) (cap : ℕ)
      → Host.rmem_read h (Host.random_fill h s n).0 k cap ≡ Host.rmem_read h s k cap
  pub random_length :
      (s : Host.Storage h) (n : ℕ) (b : List ℕ) → (Host.random_fill h s n).1 ≡ some b → length b ≡ n
  pub decrypts :
      (key iv plain tag ciphertext : List ℕ)
      → Host.aes_gcm_encrypt h key iv plain ≡ some (tag, ciphertext)
      → (length tag ≡ 16)
        × (length ciphertext ≡ length plain)
        × (Host.aes_gcm_decrypt h key iv ciphertext tag ≡ some plain)

key_from-some : (b k : List ℕ) → key_from b ≡ some k → (b ≡ k) × (length k ≡ pickle_key_len)
unfolding key_from
key_from-some b k e = ground arith

key_from_self : (k : List ℕ) → length k ≡ pickle_key_len → key_from k ≡ some k
unfolding key_from
key_from_self k e = ground arith

module _ (h : Host) (slots : IsSlots h) (vault : IsVault h) where
  open h use {
    Storage, rmem_read, rmem_write, nvs_get_blob, nvs_set_blob, nvs_set_u32, nvs_erase, random_fill,
    sha256, aes_gcm_encrypt,
  }

  -- A copy that an earlier version left in NVS can be moved into the slot, or the refusal leaves
  -- everything as it is.
  abbrev pub CanMove : Storage → Type 0
  CanMove s =
      (k : List ℕ)
      → mirrored_key h s ≡ some k
      → ((rmem_write s r_pickle k).1 ≡ true) ⊎ ((rmem_write s r_pickle k).0 ≡ s)

  -- Where the key is: in its slot, or in NVS with nothing in the slot.
  pub data Holds (s : Storage) (k : List ℕ) : Type 0 where
    in_slot : rmem_read s r_pickle pickle_key_len ≡ found k → length k ≡ pickle_key_len → Holds s k
    in_nvs : rmem_read s r_pickle pickle_key_len ≡ not_found → mirrored_key h s ≡ some k → Holds s k

  pub Holds-pickle_key : (s : Storage) (k : List ℕ) → Holds s k → (pickle_key h s).1 ≡ some k
  unfolding pickle_key key_by held_key absent_key
  Holds-pickle_key s k (in_slot e l) = rw e (rw (key_from_self k l) refl)
  Holds-pickle_key s k (in_nvs e m) = rw e (ground arith)

  -- An outcome that gives a key leaves it there.
  abbrev pub Held : Storage × Option (List ℕ) → Type 0
  Held out = (k : List ℕ) → out.1 ≡ some k → Holds out.0 k

  written_key :
      (s : Storage) (b : List ℕ)
      → (rmem_write s r_pickle b).1 ≡ true
      → length b ≡ pickle_key_len
      → Holds (rmem_write s r_pickle b).0 b
  written_key s b w l = in_slot (slots.written s r_pickle b pickle_key_len w (omega arith)) l

  erased_key :
      (s : Storage) (k : List ℕ)
      → rmem_read s r_pickle pickle_key_len ≡ found k
      → length k ≡ pickle_key_len
      → Holds (nvs_erase s k_pickle_fb).0 k
  erased_key s k e l = in_slot (slots.erased s k_pickle_fb r_pickle pickle_key_len ∙ e) l

  mint_key-Held : (s : Storage) → Held (mint_key h s)
  unfolding mint_key
  mint_key-Held s =
      Option-elim {B = Storage × Option (List ℕ)} Held (random_fill s pickle_key_len).1 _ _
        (λ n k e. cc)
        λ b f.
          if-elim {A = Storage × Option (List ℕ)} Held
            (rmem_write (random_fill s pickle_key_len).0 r_pickle b).1 _ _
            (λ w k e.
              let q : b ≡ k = cc in
              subst (Holds _) q (written_key _ b w (vault.random_length s pickle_key_len b f)))
            (λ w k e. cc)

  mirrored_key-length :
      (s : Storage) (k : List ℕ) → mirrored_key h s ≡ some k → length k ≡ pickle_key_len
  unfolding mirrored_key
  mirrored_key-length s k e = by_blob (nvs_get_blob s k_pickle_fb pickle_key_len) e
    where
      by_blob :
          (o : Option (List ℕ))
          → (elim o as (λ x. Option (List ℕ)) [ none ↦ none | some b ↦ key_from b ]) ≡ some k
          → length k ≡ pickle_key_len
      by_blob none f = cc
      by_blob (some b) f = (key_from-some b k f).1

  move_key-Holds :
      (s : Storage) (k : List ℕ)
      → CanMove s
      → rmem_read s r_pickle pickle_key_len ≡ not_found
      → mirrored_key h s ≡ some k
      → Holds (move_key h s k) k
  unfolding move_key
  move_key-Holds s k can e m =
      if-elim (λ t. Holds t k) (rmem_write s r_pickle k).1 _ _
        (λ w.
          let l = mirrored_key-length s k m in
          erased_key _ k (slots.written s r_pickle k pickle_key_len w (omega (arith, l))) l)
        (λ w. elim (can k m) [
          | inl ok ↦ ground arith
          | inr same ↦ subst (λ t. Holds t k) (sym same) (in_nvs e m)
        ])

  held_key-Held :
      (s : Storage) (b : List ℕ) (o : Option (List ℕ))
      → rmem_read s r_pickle pickle_key_len ≡ found b
      → key_from b ≡ o
      → Held (held_key h s o)
  unfolding held_key
  held_key-Held s b none e f = λ k g. cc
  held_key-Held s b (some j) e f = λ k g.
      let (bj, l) = key_from-some b j f in
      let q : j ≡ k = cc in subst (Holds _) q (erased_key s j (e ∙ ap found bj) l)

  absent_key-Held :
      (s : Storage)
      → CanMove s
      → rmem_read s r_pickle pickle_key_len ≡ not_found
      → Held (absent_key h s)
  unfolding absent_key
  absent_key-Held s can e =
      Option-elim {B = Storage × Option (List ℕ)} Held (mirrored_key h s) _ _ (λ n. mint_key-Held s)
        λ j m k g. let q : j ≡ k = cc in subst (Holds _) q (move_key-Holds s j can e m)

  pub pickle_key-Held : (s : Storage) → CanMove s → Held (pickle_key h s)
  unfolding pickle_key
  pickle_key-Held s can = by_read (rmem_read s r_pickle pickle_key_len) refl
    where
      by_read : (r : SlotRead) → rmem_read s r_pickle pickle_key_len ≡ r → Held (key_by h s r)
      by_read (found b) e = held_key-Held s b (key_from b) e refl
      by_read not_found e = absent_key-Held s can e
      by_read unreadable e = λ k g. cc

  -- Storage in which the key is looked for with the same result.
  pub record SameKey (s t : Storage) : Type 0 where
    pub slot : rmem_read t r_pickle pickle_key_len ≡ rmem_read s r_pickle pickle_key_len
    pub copy : nvs_get_blob t k_pickle_fb pickle_key_len ≡ nvs_get_blob s k_pickle_fb pickle_key_len

  pub Holds-SameKey : {s t : Storage} {k : List ℕ} → SameKey s t → Holds s k → Holds t k
  unfolding mirrored_key
  Holds-SameKey m (in_slot e l) = in_slot (m.slot ∙ e) l
  Holds-SameKey m (in_nvs e c) =
      in_nvs (m.slot ∙ e) (
        ap (λ o. elim o as (λ x. Option (List ℕ)) [ none ↦ none | some b ↦ key_from b ]) m.copy ∙ c)

  -- Storage that holds the same key, but whose slot may fail to be read.
  pub record Reread (s t : Storage) : Type 0 where
    pub slot :
        (rmem_read t r_pickle pickle_key_len ≡ rmem_read s r_pickle pickle_key_len)
        ⊎ (rmem_read t r_pickle pickle_key_len ≡ unreadable)
    pub copy : nvs_get_blob t k_pickle_fb pickle_key_len ≡ nvs_get_blob s k_pickle_fb pickle_key_len
