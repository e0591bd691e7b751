-- ===== src/Scanner/Eviction.antt =====
-- Which device an eviction drops.
use cdc_badge_plugins.Base.{
  ℕ, zero, suc, ◌+◌, ◌<◌, ◌≡◌, refl, sym, ap, ◌∙◌, ◌⊎◌, Bool, true, false, ltb, if◌then◌else◌,
  Bool-cases, inl, inr, none, some, List, [], ◌∷◌, ◌++◌, get_elem?, All, arith,
}
use mathlib.Core.Path.{subst}
use cdc_badge_plugins.Scanner.{Device, outranks, worst_from, remove, evict_one}

outranks_trans :
    (a b c : Device) → outranks a b ≡ false → outranks b c ≡ false → outranks a c ≡ false
unfolding outranks
outranks_trans a b c p q = ground arith

outranks_self : (a : Device) → outranks a a ≡ false
unfolding outranks
outranks_self a = ground arith

outranks_total : (a b : Device) → outranks a b ≡ true → outranks b a ≡ false
unfolding outranks
outranks_total a b p = ground arith

worst_from_keep :
    (i : ℕ) (best : ℕ × Device) (d : Device) (ds : List Device)
    → outranks best.1 d ≡ true
    → worst_from i best (d ∷ ds) ≡ worst_from (i + 1) best ds
unfolding worst_from
worst_from_keep i best d ds e =
    ap (λ (b : Bool). worst_from (i + 1) (if b then best else (i, d)) ds) e

worst_from_switch :
    (i : ℕ) (best : ℕ × Device) (d : Device) (ds : List Device)
    → outranks best.1 d ≡ false
    → worst_from i best (d ∷ ds) ≡ worst_from (i + 1) (i, d) ds
unfolding worst_from
worst_from_switch i best d ds e =
    ap (λ (b : Bool). worst_from (i + 1) (if b then best else (i, d)) ds) e

abbrev Tops : Device → List Device → ℕ × Device → Type 0
Tops b l r = (outranks b r.1 ≡ false) × All (λ d. outranks d r.1 ≡ false) l

-- No device of the list, nor the best so far, is worse than the one that is found.
worst_from_top :
    (i : ℕ) (best : ℕ × Device) (ds : List Device)
    → (outranks best.1 (worst_from i best ds).1 ≡ false)
      × All (λ d. outranks d (worst_from i best ds).1 ≡ false) ds
unfolding worst_from
worst_from_top i best [] = (outranks_self best.1, tt)
worst_from_top i best (d ∷ ds) = elim (Bool-cases (outranks best.1 d)) [
  | inl worse ↦
      let (top, rest) = worst_from_top (i + 1) best ds in
      subst (λ r. Tops best.1 (d ∷ ds) r) (sym (worst_from_keep i best d ds worse))
        (
          top,
          (
            outranks_trans d best.1 (worst_from (i + 1) best ds).1 (outranks_total best.1 d worse)
                top,
            rest,
          ),
        )
  | inr no_worse ↦
      let (top, rest) = worst_from_top (i + 1) (i, d) ds in
      subst (λ r. Tops best.1 (d ∷ ds) r) (sym (worst_from_switch i best d ds no_worse))
        (outranks_trans best.1 d (worst_from (i + 1) (i, d) ds).1 no_worse top, (top, rest))
]

-- Where the one that is found stands.
worst_from_place :
    (i : ℕ) (best : ℕ × Device) (ds : List Device)
    → (worst_from i best ds ≡ best)
      ⊎ ((k : ℕ) × ((worst_from i best ds).0 ≡ i + k)
          × (get_elem? ds k ≡ some (worst_from i best ds).1))
unfolding worst_from
worst_from_place i best [] = inl refl
worst_from_place i best (d ∷ ds) = elim (Bool-cases (outranks best.1 d)) [
  | inl worse ↦ rw (worst_from_keep i best d ds worse) (elim (worst_from_place (i + 1) best ds) [
    | inl same ↦ inl same
    | inr (k, at_k, there) ↦ inr (suc k, omega (arith, at_k), there)
  ])
  | inr no_worse ↦
      rw (worst_from_switch i best d ds no_worse) (elim (worst_from_place (i + 1) (i, d) ds) [
        | inl same ↦ inr (
          0,
          omega (arith, ap (λ (p : ℕ × Device). p.0) same),
          ap (λ (p : ℕ × Device). some p.1) (sym same),
        )
        | inr (k, at_k, there) ↦ inr (suc k, omega (arith, at_k), there)
      ])
]

-- A list with one device taken out.
record Without (ds : List Device) (dev : Device) (out : List Device) : Type 0 where
  front : List Device
  back : List Device
  whole : ds ≡ front ++ dev ∷ back
  rest : out ≡ front ++ back

remove-Without :
    (k : ℕ) (ds : List Device) (dev : Device)
    → get_elem? ds k ≡ some dev
    → Without ds dev (remove k ds)
unfolding remove
remove-Without k [] dev e = ground arith
remove-Without zero (d ∷ ds) dev e =
    let same : d ≡ dev = ap (λ o. elim o [ none ↦ d | some x ↦ x ]) e in
    record { front = []; back = ds; whole = ap (λ x. x ∷ ds) same; rest = refl }
remove-Without (suc k) (d ∷ ds) dev e =
    let w = remove-Without k ds dev e in
    record {
      front = d ∷ w.front;
      back = w.back;
      whole = ap (λ l. d ∷ l) w.whole;
      rest = ap (λ l. d ∷ l) w.rest;
    }

-- What an eviction does: nothing to a table whose devices were all seen in the last round, and else it
-- drops one device, which was missed and which no device outranks.
pub record Dropped (ds out : List Device) (dev : Device) : Type 0 where
  pub front : List Device
  pub back : List Device
  pub whole : ds ≡ front ++ dev ∷ back
  pub rest : out ≡ front ++ back
  pub missed_lem : 0 < dev.missed
  pub worst : All (λ d. outranks d dev ≡ false) ds

All-seen :
    (dev : Device) (ds : List Device)
    → dev.missed ≡ 0
    → All (λ d. outranks d dev ≡ false) ds
    → All (λ (d : Device). d.missed ≡ 0) ds
unfolding outranks
All-seen dev [] e h = tt
All-seen dev (d ∷ ds) e h = (ground (arith, h.0), All-seen dev ds e h.1)

found_at :
    (d : Device) (ds : List Device)
    → get_elem? (d ∷ ds) (worst_from 1 (0, d) ds).0 ≡ some (worst_from 1 (0, d) ds).1
found_at d ds = elim (worst_from_place 1 (0, d) ds) [
  | inl same ↦ rw same refl
  | inr (k, at_k, there) ↦
      let e : (worst_from 1 (0, d) ds).0 ≡ suc k = omega (arith, at_k) in
      ap (λ i. get_elem? (d ∷ ds) i) e ∙ there
]

-- An eviction changes nothing when every device was seen in the last round. Otherwise it takes out
-- one device, which was missed, and no other device was missed longer, or as long with less signal.
pub evict_one-Dropped :
    (ds : List Device)
    → (All (λ (d : Device). d.missed ≡ 0) ds × (evict_one ds ≡ ds))
      ⊎ ((dev : Device) × Dropped ds (evict_one ds) dev)
unfolding evict_one
evict_one-Dropped [] = inl (tt, refl)
evict_one-Dropped (d ∷ ds) =
    let idx = (worst_from 1 (0, d) ds).0 in
    let dev = (worst_from 1 (0, d) ds).1 in
    let worst = worst_from_top 1 (0, d) ds in
    elim (Bool-cases (ltb 0 dev.missed)) [
      | inl stale ↦
          let w = remove-Without idx (d ∷ ds) dev (found_at d ds) in
          inr (
            dev,
            record {
              front = w.front;
              back = w.back;
              whole = w.whole;
              rest = ap (λ (b : Bool). if b then remove idx (d ∷ ds) else d ∷ ds) stale ∙ w.rest;
              missed_lem = ground arith;
              worst = worst;
            },
          )
      | inr current ↦ inl (
        All-seen dev (d ∷ ds) (ground arith) worst,
        ap (λ (b : Bool). if b then remove idx (d ∷ ds) else d ∷ ds) current,
      )
    ]
