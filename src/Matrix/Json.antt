-- ===== src/Matrix/Json.antt =====
-- JSON values as plugins/matrix/src/json.rs reads them. The parser and the value type are those of the
-- package serde_json: the record Json, which the functions take as a parameter. No law of it is used.
use cdc_badge_plugins.Base.{ℕ, Bool, true, false, Option, none, some, List, []}
use cdc_badge_plugins.Base.Bytes.{str_eq}

-- `from_str(body).ok()`, and the methods of `Value`; an object lists its entries in the order of its
-- iterator.
pub record Json : Type 1 where
  pub Value : Type 0
  pub from_str : List ℕ → Option Value
  pub get : Value → List ℕ → Option Value
  pub as_str : Value → Option (List ℕ)
  pub as_u64 : Value → Option ℕ
  pub as_array : Value → Option (List Value)
  pub as_object : Value → Option (List (List ℕ × Value))

-- `and_then`, and the operator `?` in a function that returns an option.
infixl 5 ◌>>=◌ ◌>>◌
abbrev pub ◌>>=◌ {ℓ κ} : {A : Type ℓ} {B : Type κ} → Option A → (A → Option B) → Option B
none >>= f = none
some a >>= f = f a

abbrev pub ◌>>◌ {ℓ} : {A : Type ℓ} → Option (Unit {0}) → Option A → Option A
m >> k = m >>= λ _. k

-- `if !test { return None; }`.
abbrev pub guard : Bool → Option (Unit {0})
guard true = some tt
guard false = none

abbrev pub unwrap_or {ℓ} : {A : Type ℓ} → Option A → A → A
unwrap_or none d = d
unwrap_or (some a) d = a

abbrev pub is_none {ℓ} : {A : Type ℓ} → Option A → Bool
is_none none = true
is_none (some a) = false

module _ ⦃J : Json⦄ where
  open J use {Value, get, as_str, as_u64, as_array, as_object}

  -- `v.get(key).and_then(|x| x.as_str())`, and with `unwrap_or("")`.
  unfoldable pub str_at : Value → List ℕ → Option (List ℕ)
  str_at v key = get v key >>= as_str

  unfoldable pub text_at : Value → List ℕ → List ℕ
  text_at v key = unwrap_or (str_at v key) []

  unfoldable pub u64_at : Value → List ℕ → Option ℕ
  u64_at v key = get v key >>= as_u64

  unfoldable pub array_at : Value → List ℕ → Option (List Value)
  array_at v key = get v key >>= as_array

  unfoldable pub object_at : Value → List ℕ → Option (List (List ℕ × Value))
  object_at v key = get v key >>= as_object

  -- `content.and_then(|c| c.get(key)).and_then(|x| x.as_str())`.
  unfoldable pub str_in : Option Value → List ℕ → Option (List ℕ)
  str_in content key = content >>= λ c. str_at c key

  unfoldable pub text_in : Option Value → List ℕ → List ℕ
  text_in content key = unwrap_or (str_in content key) []

  -- `v.get(key).and_then(|x| x.as_str()) == Some(text)`.
  unfoldable pub says : Value → List ℕ → List ℕ → Bool
  says v key text = elim (str_at v key) [ none ↦ false | some s ↦ str_eq s text ]
