-- ===== src/GpioMqtt/Follower.antt =====
-- A subscriber to the topic of examples/gpio_mqtt/src/lib.rs knows the levels of the pins.
use cdc_badge_plugins.Base.{
  ℕ, if◌then◌else◌, Bool, true, false, not, ◌≡◌, refl, sym, ◌∙◌, arith, List, [], ◌∷◌, ◌++◌, length,
  all, ◌&&◌, if-elim,
}
use cdc_badge_plugins.Base.Bytes.{str_eq, str_eq_self, str_eq_comm}
use cdc_badge_plugins.GpioMqtt.Polling.{pin_names, bool_eq, Payload, snapshot, change}

-- What a subscriber takes the level of a pin to be.
abbrev pub Heard : Type 0
Heard = List ℕ → Bool

unfoldable pub level_of : List (List ℕ) → List Bool → Heard
level_of [] levels name = false
level_of (n ∷ names) [] name = false
level_of (n ∷ names) (v ∷ levels) name =
    let later = level_of names levels name in if str_eq n name then v else later

unfoldable pub hear : Heard → Payload → Heard
unfolding level_of
hear heard (snapshot levels) name = level_of pin_names levels name
hear heard (change n v) name = if str_eq n name then v else heard name

unfoldable pub hear_all : Heard → List Payload → Heard
hear_all heard [] = heard
hear_all heard (p ∷ ps) = hear_all (hear heard p) ps

abbrev pub Agrees : Heard → List (List ℕ) → List Bool → Type 0
Agrees heard [] levels = Unit {0}
Agrees heard (n ∷ names) [] = Unit {0}
Agrees heard (n ∷ names) (v ∷ levels) = (heard n ≡ v) × Agrees heard names levels

-- The changes from one reading to the next.
unfoldable pub changes : List (List ℕ) → List Bool → List Bool → List Payload
changes (n ∷ names) (c ∷ cur) (v ∷ next) =
    let rest = changes names cur next in if bool_eq c v then rest else change n v ∷ rest
changes _ _ _ = []

pub hear_all-append :
    (heard : Heard) (ps qs : List Payload)
    → hear_all heard (ps ++ qs) ≡ hear_all (hear_all heard ps) qs
unfolding hear_all
hear_all-append heard [] qs = refl
hear_all-append heard (p ∷ ps) qs = hear_all-append (hear heard p) ps qs

-- Names that stand only once.
abbrev fresh : List ℕ → List (List ℕ) → Bool
fresh name names = all (λ n. not (str_eq n name)) names

unfoldable pub apart : List (List ℕ) → Bool
apart [] = true
apart (n ∷ names) = fresh n names && apart names

pub pins-apart : apart pin_names ≡ true
unfolding apart
pins-apart = refl

Agrees-fresh :
    (heard : Heard) (n : List ℕ) (v : Bool) (names : List (List ℕ)) (levels : List Bool)
    → fresh n names ≡ true
    → Agrees heard names levels
    → Agrees (hear heard (change n v)) names levels
unfolding hear
Agrees-fresh heard n v [] levels f a = tt
Agrees-fresh heard n v (m ∷ names) [] f a = tt
Agrees-fresh heard n v (m ∷ names) (c ∷ levels) f a =
    (ground (arith, str_eq_comm n m), Agrees-fresh heard n v names levels (ground arith) a.1)

changes-fresh :
    (heard : Heard) (name : List ℕ) (names : List (List ℕ)) (cur next : List Bool)
    → fresh name names ≡ true
    → hear_all heard (changes names cur next) name ≡ heard name
unfolding hear_all changes hear
changes-fresh heard name [] cur next f = refl
changes-fresh heard name (n ∷ names) [] next f = refl
changes-fresh heard name (n ∷ names) (c ∷ cur) [] f = refl
changes-fresh heard name (n ∷ names) (c ∷ cur) (v ∷ next) f =
    if-elim (λ ps. hear_all heard ps name ≡ heard name) (bool_eq c v) _ _
      (λ e. changes-fresh heard name names cur next (ground arith))
      (λ e.
        changes-fresh (hear heard (change n v)) name names cur next (ground arith) ∙ ground arith)

pub bool_eq→≡ : (a b : Bool) → bool_eq a b ≡ true → a ≡ b
bool_eq→≡ true b e = sym e
bool_eq→≡ false true e = cc
bool_eq→≡ false false e = refl

pub changes-Agrees :
    (heard : Heard) (names : List (List ℕ)) (cur next : List Bool)
    → apart names ≡ true
    → length cur ≡ length names
    → Agrees heard names cur
    → Agrees (hear_all heard (changes names cur next)) names next
unfolding hear_all changes apart
changes-Agrees heard [] cur next h l a = tt
changes-Agrees heard (n ∷ names) cur [] h l a = tt
changes-Agrees heard (n ∷ names) [] (v ∷ next) h l a = absurd (omega arith)
changes-Agrees heard (n ∷ names) (c ∷ cur) (v ∷ next) h l a =
    if-elim (λ ps. Agrees (hear_all heard ps) (n ∷ names) (v ∷ next)) (bool_eq c v) _ _
      (λ e. (
        changes-fresh heard n names cur next (ground arith) ∙ a.0 ∙ bool_eq→≡ c v e,
        changes-Agrees heard names cur next (ground arith) (omega arith) a.1,
      ))
      (λ e. (
        changes-fresh (hear heard (change n v)) n names cur next (ground arith)
            ∙ unfold hear in ground (arith, str_eq_self n),
        changes-Agrees (hear heard (change n v)) names cur next (ground arith) (omega arith)
            (Agrees-fresh heard n v names cur (ground arith) a.1),
      ))

pub level_of-Agrees :
    (names : List (List ℕ)) (levels : List Bool)
    → apart names ≡ true
    → Agrees (level_of names levels) names levels
unfolding level_of apart hear
level_of-Agrees [] levels h = tt
level_of-Agrees (n ∷ names) [] h = tt
level_of-Agrees (n ∷ names) (v ∷ levels) h = (
  ground (arith, str_eq_self n),
  Agrees-fresh (level_of names levels) n v names levels (ground arith)
      (level_of-Agrees names levels (ground arith)),
)
