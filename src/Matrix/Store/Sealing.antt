-- ===== src/Matrix/Store/Sealing.antt =====
-- `seal` and `unseal` of plugins/matrix/src/store.rs.
use cdc_badge_plugins.Base.{
  ℕ, ltb, false, Option, none, some, ◌≡◌, refl, ap, ◌∙◌, arith, List, ◌++◌, length, take, drop,
  length-append, take-append_self, drop-append_self, Option-elim,
}
use cdc_badge_plugins.Matrix.Store.{
  Host, r_pickle, k_pickle_fb, pickle_key_len, seal_iv_len, seal_header_len, pickle_key, seal_with,
  seal_by, digest, seal, unseal_by, unseal,
}
use cdc_badge_plugins.Matrix.Store.Secrets.{IsSlots}
use cdc_badge_plugins.Matrix.Store.Key.{
  IsVault, Holds, Holds-pickle_key, Held, CanMove, pickle_key-Held, SameKey, Holds-SameKey,
}
use mathlib.Core.List.{append_assoc}

module _ (h : Host) (slots : IsSlots h) (vault : IsVault h) where
  open h use {
    Storage, rmem_read, rmem_write, nvs_get_blob, nvs_set_blob, nvs_get_u32, nvs_set_u32,
    random_fill, sha256, aes_gcm_encrypt,
  }

  -- How sealed bytes were made, with the key still in storage.
  pub record SealedBy (s : Storage) (plain sealed : List ℕ) : Type 0 where
    pub key : List ℕ
    pub hash : List ℕ
    pub iv : List ℕ
    pub tag : List ℕ
    pub ciphertext : List ℕ
    pub held : Holds h slots vault s key
    pub hashed : sha256 key ≡ some hash
    pub nonce : length iv ≡ seal_iv_len
    pub encrypted : aes_gcm_encrypt hash iv plain ≡ some (tag, ciphertext)
    pub layout : sealed ≡ (iv ++ tag) ++ ciphertext

  pub SealedBy-SameKey :
      {s t : Storage} {plain sealed : List ℕ}
      → SameKey h slots vault s t
      → SealedBy s plain sealed
      → SealedBy t plain sealed
  SealedBy-SameKey m b = record {
    key = b.key;
    hash = b.hash;
    iv = b.iv;
    tag = b.tag;
    ciphertext = b.ciphertext;
    held = Holds-SameKey h slots vault m b.held;
    hashed = b.hashed;
    nonce = b.nonce;
    encrypted = b.encrypted;
    layout = b.layout;
  }

  seal_with-some :
      (key iv plain sealed : List ℕ)
      → seal_with h key iv plain ≡ some sealed
      → (tag : List ℕ) × (ciphertext : List ℕ) × (aes_gcm_encrypt key iv plain
          ≡ some (tag, ciphertext))
        × (sealed ≡ (iv ++ tag) ++ ciphertext)
  unfolding seal_with
  seal_with-some key iv plain sealed f = by_answer (aes_gcm_encrypt key iv plain) f refl
    where
      by_answer :
          (o : Option (List ℕ × List ℕ))
          → (elim o as (λ x. Option (List ℕ)) [
            | none ↦ none
            | some (tag, ciphertext) ↦ some ((iv ++ tag) ++ ciphertext)
          ])
            ≡ some sealed
          → aes_gcm_encrypt key iv plain ≡ o
          → (tag : List ℕ) × (ciphertext : List ℕ) × (aes_gcm_encrypt key iv plain
              ≡ some (tag, ciphertext))
            × (sealed ≡ (iv ++ tag) ++ ciphertext)
      by_answer none g e = cc
      by_answer (some (tag, ciphertext)) g e = (tag, ciphertext, e, cc)

  -- An outcome whose bytes can be opened.
  abbrev pub Opens : List ℕ → Storage × Option (List ℕ) → Type 0
  Opens plain out = (sealed : List ℕ) → out.1 ≡ some sealed → SealedBy out.0 plain sealed

  random_fill-SameKey : (s : Storage) (n : ℕ) → SameKey h slots vault s (random_fill s n).0
  random_fill-SameKey s n = record {
    slot = vault.random_slot s n r_pickle pickle_key_len;
    copy = vault.random_blob s n k_pickle_fb pickle_key_len;
  }

  seal_by-Opens :
      (s : Storage) (key : Option (List ℕ)) (k plain : List ℕ)
      → Holds h slots vault s k
      → sha256 k ≡ key
      → Opens plain (seal_by h s key plain)
  unfolding seal_by
  seal_by-Opens s none k plain held e = λ sealed f. cc
  seal_by-Opens s (some d) k plain held e =
      Option-elim {B = Storage × Option (List ℕ)} (Opens plain) (random_fill s seal_iv_len).1 _ _
        (λ n sealed f. cc)
        λ iv g sealed f.
          let (tag, ciphertext, encrypted, layout) = seal_with-some d iv plain sealed f in
          record {
            key = k;
            hash = d;
            iv = iv;
            tag = tag;
            ciphertext = ciphertext;
            held = Holds-SameKey h slots vault (random_fill-SameKey s seal_iv_len) held;
            hashed = e;
            nonce = vault.random_length s seal_iv_len iv g;
            encrypted = encrypted;
            layout = layout;
          }

  digest-Opens :
      (out : Storage × Option (List ℕ)) (plain : List ℕ)
      → Held h slots vault out
      → Opens plain (seal_by h (digest h out).0 (digest h out).1 plain)
  unfolding digest
  digest-Opens (s, none) plain held = unfold seal_by in λ sealed f. cc
  digest-Opens (s, some k) plain held = seal_by-Opens s (sha256 k) k plain (held k refl) refl

  pub seal-Opens :
      (s : Storage) (plain : List ℕ) → CanMove h slots vault s → Opens plain (seal h s plain)
  unfolding seal
  seal-Opens s plain can = digest-Opens (pickle_key h s) plain (pickle_key-Held h slots vault s can)

  digest-some :
      (out : Storage × Option (List ℕ)) (k : List ℕ) → out.1 ≡ some k → (digest h out).1 ≡ sha256 k
  unfolding digest
  digest-some (s, none) k e = cc
  digest-some (s, some j) k e = let q : j ≡ k = cc in ap sha256 q

  unseal_lem :
      (s : Storage) (sealed : List ℕ)
      → ltb (length sealed) seal_header_len ≡ false
      → (unseal h s sealed).1 ≡ unseal_by h (digest h (pickle_key h s)).1 sealed
  unfolding unseal
  unseal_lem s sealed e = rw e refl

  unseal_by-layout :
      (d iv tag ciphertext plain : List ℕ)
      → length iv ≡ 12
      → aes_gcm_encrypt d iv plain ≡ some (tag, ciphertext)
      → unseal_by h (some d) ((iv ++ tag) ++ ciphertext) ≡ some plain
  unfolding unseal_by
  unseal_by-layout d iv tag ciphertext plain n e =
      let (t, c, back) = vault.decrypts d iv plain tag ciphertext e in
      let front : length (iv ++ tag) ≡ 28 = omega (arith, length-append iv tag, t, n) in
      let whole = (iv ++ tag) ++ ciphertext in
      let rest : drop 28 whole ≡ ciphertext = drop-append_self (iv ++ tag) ciphertext 28 front in
      let first : take 12 whole ≡ iv =
        ap (take 12) (append_assoc iv tag ciphertext)
        ∙ take-append_self iv (tag ++ ciphertext) 12 n in
      let middle : drop 12 (take 28 whole) ≡ tag =
        ap (drop 12) (take-append_self (iv ++ tag) ciphertext 28 front)
        ∙ drop-append_self iv tag 12 n in
      cc (rest, first, middle, back)

  pub unseal-SealedBy :
      (s : Storage) (plain sealed : List ℕ)
      → SealedBy s plain sealed
      → (unseal h s sealed).1 ≡ some plain
  unseal-SealedBy s plain sealed b =
      let (t, c, back) = vault.decrypts b.hash b.iv plain b.tag b.ciphertext b.encrypted in
      let long : ltb (length sealed) seal_header_len ≡ false =
        ground
          (arith, b.layout, length-append b.iv b.tag, length-append (b.iv ++ b.tag) b.ciphertext) in
      unseal_lem s sealed long
      ∙ ap (λ o. unseal_by h o sealed)
          (digest-some (pickle_key h s) b.key (Holds-pickle_key h slots vault s b.key b.held)
            ∙ b.hashed)
      ∙ ap (unseal_by h (some b.hash)) b.layout
      ∙ unseal_by-layout b.hash b.iv b.tag b.ciphertext plain b.nonce b.encrypted
