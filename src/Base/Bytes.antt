-- ===== src/Base/Bytes.antt =====
-- `==` of byte strings and addresses, and what it decides.
use Prim.Native.Nat.{ℕ}
use mathlib.Core.Path.{◌≡◌, refl}
use mathlib.Core.Logic.{◌≢◌, inl, inr}
use mathlib.Core.Bool.{Bool, true, false, ◌&&◌}
use mathlib.Core.List.{List, [], ◌∷◌}
use native.Mathlib.Omega.{arith}
use Prim.Native.Char.{code}
use Prim.Native.String.{String}
use cdc_badge_plugins.Base.Tests.{◌==◌, Bool-cases}

-- The bytes of an ASCII text.
abbrev pub codes : String → List ℕ
codes String.[] = []
codes (String.◌∷◌ c s) = code c ∷ codes s

abbrev pub str_eq : List ℕ → List ℕ → Bool
str_eq [] [] = true
str_eq (a ∷ s) (b ∷ t) = a == b && str_eq s t
str_eq _ _ = false

pub str_eq_self : (s : List ℕ) → str_eq s s ≡ true
str_eq_self [] = refl
str_eq_self (b ∷ s) = ground (arith, str_eq_self s)

pub str_eq→≡ : (s t : List ℕ) → str_eq s t ≡ true → s ≡ t
str_eq→≡ [] [] e = refl
str_eq→≡ [] (b ∷ t) e = ground arith
str_eq→≡ (a ∷ s) [] e = ground arith
str_eq→≡ (a ∷ s) (b ∷ t) e = ground (arith, str_eq→≡ s t)

pub differs : (s t : List ℕ) → str_eq s t ≡ false → s ≢ t
differs s t e h = let f : str_eq s t ≡ true = rw h (str_eq_self t) in ground arith

pub unlike : (s t : List ℕ) → s ≢ t → str_eq s t ≡ false
unlike s t n = elim (Bool-cases (str_eq s t)) [ inl e ↦ absurd (n (str_eq→≡ s t e)) | inr e ↦ e ]

pub str_eq_comm : (s t : List ℕ) → str_eq s t ≡ str_eq t s
str_eq_comm [] [] = refl
str_eq_comm [] (b ∷ t) = refl
str_eq_comm (a ∷ s) [] = refl
str_eq_comm (a ∷ s) (b ∷ t) = ground (arith, str_eq_comm s t)
