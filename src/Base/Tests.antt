-- ===== src/Base/Tests.antt =====
-- Boolean tests on machine numbers, the conditional, and case splits that keep the equation.
use Prim.Native.Nat.{ℕ, ◌≤◌, ◌<◌, compare, Ordering}
use mathlib.Core.Path.{◌≡◌, refl}
use mathlib.Core.Logic.{◌↔◌, ◌⊎◌, inl, inr}
use mathlib.Core.Bool.{Bool, true, false}
use mathlib.Core.Option.{Option, none, some}
use native.Mathlib.Omega.{arith}

abbrev pub ltb : ℕ → ℕ → Bool
ltb a b = elim (compare a b) [ Ordering.lt ↦ true | _ ↦ false ]

abbrev pub leb : ℕ → ℕ → Bool
leb a b = elim (compare a b) [ Ordering.gt ↦ false | _ ↦ true ]

infix 50 ◌==◌
abbrev pub ◌==◌ : ℕ → ℕ → Bool
a == b = elim (compare a b) [ Ordering.eq ↦ true | _ ↦ false ]

infix 1 if◌then◌else◌
abbrev pub if◌then◌else◌ {ℓ} : {A : Type ℓ} → Bool → A → A → A
if true then x else y = x
if false then x else y = y

pub ltb→lt : (a b : ℕ) → ltb a b ≡ true → a < b
ltb→lt a b h = ground arith

pub lt→ltb : (a b : ℕ) → a < b → ltb a b ≡ true
lt→ltb a b h = ground arith

pub leb→le : (a b : ℕ) → leb a b ≡ true → a ≤ b
leb→le a b h = ground arith

pub le→leb : (a b : ℕ) → a ≤ b → leb a b ≡ true
le→leb a b h = ground arith

pub ==_iff : (a b : ℕ) → ((a == b) ≡ true) ↔ (a ≡ b)
==_iff a b = ground arith

pub ==-self : (a : ℕ) → (a == a) ≡ true
==-self a = ground arith

pub ruleset tests = (arith, ltb→lt, lt→ltb, leb→le, le→leb)

pub Bool-cases : (b : Bool) → (b ≡ true) ⊎ (b ≡ false)
Bool-cases true = inl refl
Bool-cases false = inr refl

pub Option-cases {ℓ} : {A : Type ℓ} (o : Option A) → (o ≡ none) ⊎ ((a : A) × (o ≡ some a))
Option-cases none = inl refl
Option-cases (some a) = inr (a, refl)

-- A property of what a match or a conditional computes.
pub Option-elim {ℓ κ υ} :
    {A : Type ℓ} {B : Type κ} (P : B → Type υ) (o : Option A) (n : B) (f : A → B)
    → (o ≡ none → P n)
    → ((a : A) → o ≡ some a → P (f a))
    → P (elim o [ none ↦ n | some a ↦ f a ])
Option-elim P none n f h g = h refl
Option-elim P (some a) n f h g = g a refl

pub if-elim {ℓ κ} :
    {A : Type ℓ} (P : A → Type κ) (t : Bool) (a b : A)
    → (t ≡ true → P a)
    → (t ≡ false → P b)
    → P (if t then a else b)
if-elim P true a b h g = h refl
if-elim P false a b h g = g refl

-- A relation between two computations that test the same.
pub if-elim_both {ℓ κ υ} :
    {A : Type ℓ} {B : Type κ} (R : A → B → Type υ) (t : Bool) (a b : A) (c d : B)
    → (t ≡ true → R a c)
    → (t ≡ false → R b d)
    → R (if t then a else b) (if t then c else d)
if-elim_both R true a b c d h g = h refl
if-elim_both R false a b c d h g = g refl

pub Option-elim_both {ℓ κ υ ι} :
    {A : Type ℓ} {B : Type κ} {C : Type υ} (R : B → C → Type ι) (o : Option A) (b : B) (f : A → B)
    (c : C) (g : A → C)
    → R b c
    → ((a : A) → R (f a) (g a))
    → R (elim o [ none ↦ b | some a ↦ f a ]) (elim o [ none ↦ c | some a ↦ g a ])
Option-elim_both R none b f c g h k = h
Option-elim_both R (some a) b f c g h k = k a
