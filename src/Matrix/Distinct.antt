-- ===== src/Matrix/Distinct.antt =====
-- The lists of users that json.rs keeps with `any`, `push` and `retain`: what is in them, and that
-- nothing is in them twice.
use cdc_badge_plugins.Base.{
  ℕ, Bool, true, false, not, ◌&&◌, ◌||◌, ◌≡◌, refl, ap, sym, ◌∙◌, inl, inr, List, [], ◌∷◌, ◌++◌,
  arith, Bool-cases, if-elim, retain,
}
use cdc_badge_plugins.Base.Bytes.{str_eq, str_eq→≡, str_eq_comm}
use cdc_badge_plugins.Matrix.Events.{contains, push_new, without}

-- No string occurs twice.
unfoldable pub Distinct : List (List ℕ) → Type 0
Distinct [] = Unit
Distinct (m ∷ ms) = (contains m ms ≡ false) × Distinct ms

contains-snoc :
    (uid u : List ℕ) (ms : List (List ℕ))
    → contains uid (ms ++ u ∷ []) ≡ (contains uid ms || str_eq u uid)
unfolding contains
contains-snoc uid u [] = ground arith
contains-snoc uid u (m ∷ ms) = ground (arith, contains-snoc uid u ms)

or_comm : (a b : Bool) → (a || b) ≡ (b || a)
or_comm true true = refl
or_comm true false = refl
or_comm false true = refl
or_comm false false = refl

absorb : (a b : Bool) → (not a && b) ≡ (not a && (a || b))
absorb true b = refl
absorb false b = refl

pub or_none : (a b : Bool) → (a || b) ≡ false → (a ≡ false) × (b ≡ false)
or_none true b e = absurd (ground arith)
or_none false b e = (refl, e)

and_false : (a : Bool) → (a && false) ≡ false
and_false true = refl
and_false false = refl

contains-same :
    (u uid : List ℕ) (ms : List (List ℕ)) → str_eq u uid ≡ true → contains u ms ≡ contains uid ms
contains-same u uid ms e = ap (λ w. contains w ms) (str_eq→≡ u uid e)

pub contains-push_new :
    (uid u : List ℕ) (ms : List (List ℕ))
    → contains uid (push_new u ms) ≡ (str_eq u uid || contains uid ms)
unfolding push_new
contains-push_new uid u ms = elim (Bool-cases (contains u ms)) [
  | inl old ↦ rw old (elim (Bool-cases (str_eq u uid)) [
    | inl e ↦ rw e (sym (contains-same u uid ms e) ∙ old)
    | inr e ↦ rw e refl
  ])
  | inr fresh ↦ rw fresh (contains-snoc uid u ms ∙ or_comm (contains uid ms) (str_eq u uid))
]

pub contains-without :
    (uid u : List ℕ) (ms : List (List ℕ))
    → contains uid (without u ms) ≡ (not (str_eq u uid) && contains uid ms)
unfolding contains without
contains-without uid u [] = ground arith
contains-without uid u (m ∷ ms) = elim (Bool-cases (str_eq m u)) [
  | inl e ↦
      let same : str_eq m uid ≡ str_eq u uid = ap (λ w. str_eq w uid) (str_eq→≡ m u e) in
      rw (e, same) (contains-without uid u ms ∙ absorb (str_eq u uid) (contains uid ms))
  | inr e ↦ rw e (
      ap (λ c. str_eq m uid || c) (contains-without uid u ms) ∙ elim (Bool-cases (str_eq u uid)) [
        | inl f ↦
            let same : str_eq m uid ≡ false = ap (str_eq m) (sym (str_eq→≡ u uid f)) ∙ e in
            rw (f, same) refl
        | inr f ↦ rw f refl
      ])
]

pub Distinct-snoc :
    (u : List ℕ) (ms : List (List ℕ))
    → contains u ms ≡ false
    → Distinct ms
    → Distinct (ms ++ u ∷ [])
unfolding Distinct contains
Distinct-snoc u [] e h = (refl, tt)
Distinct-snoc u (m ∷ ms) e h =
    let apart : str_eq u m ≡ false = str_eq_comm u m ∙ (or_none (str_eq m u) (contains u ms) e).0 in
    (
      contains-snoc m u ms ∙ rw (h.0, apart) refl,
      Distinct-snoc u ms (or_none (str_eq m u) (contains u ms) e).1 h.1,
    )

pub Distinct-push_new : (u : List ℕ) (ms : List (List ℕ)) → Distinct ms → Distinct (push_new u ms)
unfolding push_new
Distinct-push_new u ms h =
    if-elim Distinct (contains u ms) ms (ms ++ u ∷ []) (λ e. h) (λ e. Distinct-snoc u ms e h)

pub Distinct-without : (u : List ℕ) (ms : List (List ℕ)) → Distinct ms → Distinct (without u ms)
unfolding Distinct without
Distinct-without u [] h = tt
Distinct-without u (m ∷ ms) h =
    if-elim Distinct (not (str_eq m u)) _ _
      (λ e. (
        contains-without m u ms ∙ rw (h.0) (and_false (not (str_eq u m))),
        Distinct-without u ms h.1,
      ))
      (λ e. Distinct-without u ms h.1)

pub contains-retain :
    (p : List ℕ → Bool) (uid : List ℕ) (ms : List (List ℕ))
    → contains uid ms ≡ false
    → contains uid (retain p ms) ≡ false
unfolding contains
contains-retain p uid [] h = refl
contains-retain p uid (m ∷ ms) h =
    let apart = or_none (str_eq m uid) (contains uid ms) h in
    let rest = contains-retain p uid ms apart.1 in
    if-elim (λ l. contains uid l ≡ false) (p m) _ _ (λ e. rw (apart.0) rest) (λ e. rest)

pub Distinct-retain :
    (p : List ℕ → Bool) (ms : List (List ℕ)) → Distinct ms → Distinct (retain p ms)
unfolding Distinct
Distinct-retain p [] h = tt
Distinct-retain p (m ∷ ms) h =
    let rest = Distinct-retain p ms h.1 in
    if-elim Distinct (p m) _ _ (λ e. (contains-retain p m ms h.0, rest)) (λ e. rest)
