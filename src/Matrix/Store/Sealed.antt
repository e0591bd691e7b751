-- ===== src/Matrix/Store/Sealed.antt =====
-- What plugins/matrix/src/store.rs saves sealed is loaded again.
use cdc_badge_plugins.Base.{
  ℕ, ◌+◌, ◌^◌, ◌<◌, Bool, true, Option, none, some, ◌≡◌, ◌≢◌, refl, sym, ap, ◌∙◌, arith, inl, inr,
  List, ◌++◌, length, u32, length-append, Bool-cases, if-elim,
}
use cdc_badge_plugins.Matrix.Store.{
  Host, r_pickle, k_pickle_fb, k_account, k_account_len, pickle_key_len, account_cap, seal, unseal,
  set_sized_blob, get_sized_blob, save_sealed, save_account, load_sealed, load_account,
}
use cdc_badge_plugins.Matrix.Store.Secrets.{IsSlots}
use cdc_badge_plugins.Base.Bytes.{differs}
use cdc_badge_plugins.Matrix.Store.Key.{IsVault, SameKey, CanMove}
use cdc_badge_plugins.Matrix.Store.Sealing.{
  SealedBy, SealedBy-SameKey, Opens, seal-Opens, unseal-SealedBy,
}

module _ (h : Host) (slots : IsSlots h) (vault : IsVault h) where
  open h use {
    Storage, rmem_read, rmem_write, nvs_get_blob, nvs_set_blob, nvs_get_u32, nvs_set_u32,
    random_fill, sha256, aes_gcm_encrypt,
  }

  get_sized_blob-some :
      (t : Storage) (k lk : List ℕ) (n cap : ℕ)
      → nvs_get_u32 t lk ≡ some n
      → get_sized_blob h t k lk cap ≡ nvs_get_blob t k n
  unfolding get_sized_blob
  get_sized_blob-some t k lk n cap e =
      ap (λ o. nvs_get_blob t k (elim o as (λ x. ℕ) [ none ↦ cap | some m ↦ m ])) e

  set_sized_blob-stored :
      (s : Storage) (k lk v : List ℕ)
      → length v < 2 ^ 32
      → (set_sized_blob h s k lk v).1 ≡ true
      → ((nvs_set_blob s k v).1 ≡ true)
        × (set_sized_blob h s k lk v ≡ nvs_set_u32 (nvs_set_blob s k v).0 lk (length v))
  unfolding set_sized_blob
  set_sized_blob-stored s k lk v small w = elim (Bool-cases (nvs_set_blob s k v).1) [
    | inl ok ↦ let fits : u32 (length v) ≡ length v = omega arith in (ok, rw (ok, fits) refl)
    | inr no_ok ↦ ground arith
  ]

  -- A blob that was stored with its length is read back with its length.
  get_sized_blob-set :
      (s : Storage) (k lk v : List ℕ) (cap : ℕ)
      → lk ≢ k
      → length v < 2 ^ 32
      → (set_sized_blob h s k lk v).1 ≡ true
      → get_sized_blob h (set_sized_blob h s k lk v).0 k lk cap ≡ some v
  get_sized_blob-set s k lk v cap apart small w =
      let (ok, e) = set_sized_blob-stored s k lk v small w in
      let kept : (nvs_set_u32 (nvs_set_blob s k v).0 lk (length v)).1 ≡ true =
        sym (ap (λ r. r.1) e) ∙ w in
      ap (λ (r : Storage × Bool). get_sized_blob h r.0 k lk cap) e
      ∙ get_sized_blob-some _ k lk (length v) cap (vault.number_written _ lk (length v) kept)
      ∙ vault.number_blob _ lk k (length v) (length v) apart
      ∙ vault.blob_written s k v (length v) ok (omega arith)

  set_sized_blob-SameKey :
      (s : Storage) (k lk v : List ℕ)
      → k ≢ k_pickle_fb
      → lk ≢ k_pickle_fb
      → SameKey h slots vault s (set_sized_blob h s k lk v).0
  unfolding set_sized_blob
  set_sized_blob-SameKey s k lk v a b =
      if-elim {A = Storage × Bool} (λ r. SameKey h slots vault s r.0) (nvs_set_blob s k v).1 _ _
        (λ ok. record {
          slot =
              vault.number_slot _ lk r_pickle _ pickle_key_len
              ∙ vault.blob_slot s k v r_pickle pickle_key_len;
          copy =
              vault.number_blob _ lk k_pickle_fb _ pickle_key_len b
              ∙ vault.blob_other s k k_pickle_fb v pickle_key_len a;
        })
        (λ no_ok. record {
          slot = vault.blob_slot s k v r_pickle pickle_key_len;
          copy = vault.blob_other s k k_pickle_fb v pickle_key_len a;
        })

  load_sealed-some :
      (t : Storage) (k lk sealed : List ℕ) (cap : ℕ)
      → get_sized_blob h t k lk cap ≡ some sealed
      → load_sealed h t k lk cap ≡ unseal h t sealed
  unfolding load_sealed
  load_sealed-some t k lk sealed cap e =
      ap
        (λ o. elim o as (λ x. Storage × Option (List ℕ)) [
          | none ↦ (t, none)
          | some b ↦ unseal h t b
        ])
        e

  SealedBy-length :
      (s : Storage) (plain sealed : List ℕ)
      → SealedBy h slots vault s plain sealed
      → length sealed ≡ length plain + 28
  SealedBy-length s plain sealed b =
      let (t, c, back) = vault.decrypts b.hash b.iv plain b.tag b.ciphertext b.encrypted in
      ap length b.layout
      ∙ omega (
        arith,
        length-append b.iv b.tag,
        length-append (b.iv ++ b.tag) b.ciphertext,
        t,
        c,
        b.nonce,
      )

  load_sealed-save_sealed :
      (out : Storage × Option (List ℕ)) (plain k lk : List ℕ) (cap : ℕ)
      → k ≢ k_pickle_fb
      → lk ≢ k_pickle_fb
      → lk ≢ k
      → length plain + 28 < 2 ^ 32
      → Opens h slots vault plain out
      → (save_sealed h out k lk).1 ≡ true
      → (load_sealed h (save_sealed h out k lk).0 k lk cap).1 ≡ some plain
  unfolding save_sealed
  load_sealed-save_sealed (s, none) plain k lk cap a b c small opens w = cc
  load_sealed-save_sealed (s, some sealed) plain k lk cap a b c small opens w =
      let made = opens sealed refl in
      let l = SealedBy-length s plain sealed made in
      ap (λ r. r.1)
        (load_sealed-some _ k lk sealed cap
          (get_sized_blob-set s k lk sealed cap c (omega (arith, l)) w))
      ∙ unseal-SealedBy h slots vault _ plain sealed
          (SealedBy-SameKey h slots vault (set_sized_blob-SameKey s k lk sealed a b) made)

  -- An account that was saved is loaded again, with the key that the saving found or made. With its
  -- nonce and tag it has fewer than 2 ^ 32 bytes. A key that an earlier version left in NVS can be moved
  -- into the slot, or the refusal leaves everything as it is.
  pub load_account-save_account :
      (s : Storage) (pickle : List ℕ)
      → CanMove h slots vault s
      → length pickle + 28 < 2 ^ 32
      → (save_account h s pickle).1 ≡ true
      → (load_account h (save_account h s pickle).0).1 ≡ some pickle
  unfolding save_account load_account
  load_account-save_account s pickle can small w =
      load_sealed-save_sealed (seal h s pickle) pickle k_account k_account_len account_cap
        (differs k_account k_pickle_fb refl) (differs k_account_len k_pickle_fb refl)
        (differs k_account_len k_account refl) small (seal-Opens h slots vault s pickle can) w
