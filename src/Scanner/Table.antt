-- ===== src/Scanner/Table.antt =====
-- The table of devices: no address twice and at most 64 entries, kept by every operation.
use cdc_badge_plugins.Base.{
  ℕ, zero, suc, ◌≤◌, ◌<◌, ◌≡◌, refl, ap, Bool, true, false, ◌||◌, ltb, leb, if◌then◌else◌,
  Bool-cases, Option-cases, inl, inr, none, some, List, [], ◌∷◌, ◌++◌, map, any, length,
  length-append, length-map, arith,
}
use cdc_badge_plugins.Base.Bytes.{str_eq, str_eq_comm}
use cdc_badge_plugins.Scanner.{
  Device, ScanResult, max_devices, refreshed, fresh, refresh_first, worst_from, remove, evict_one,
  observe, observe_all, aged, merge,
}

-- The addresses of a table, in its order.
abbrev pub addrs : List Device → List (List ℕ)
addrs [] = []
addrs (d ∷ ds) = d.addr ∷ addrs ds

abbrev pub listed : List ℕ → List (List ℕ) → Bool
listed a [] = false
listed a (b ∷ l) = str_eq b a || listed a l

abbrev pub IsNodup : List (List ℕ) → Type 0
IsNodup [] = Unit
IsNodup (a ∷ l) = (listed a l ≡ false) × IsNodup l

pub record IsTable (ds : List Device) : Type 0 where
  pub nodup : IsNodup (addrs ds)
  pub bounded : length ds ≤ max_devices

pub length-addrs : (ds : List Device) → length (addrs ds) ≡ length ds
length-addrs [] = refl
length-addrs (d ∷ ds) = ap suc (length-addrs ds)

pub addrs-append : (ds es : List Device) → addrs (ds ++ es) ≡ addrs ds ++ addrs es
addrs-append [] es = refl
addrs-append (d ∷ ds) es = ap (λ l. d.addr ∷ l) (addrs-append ds es)

pub refresh_first-none :
    (r : ScanResult) (ds : List Device)
    → refresh_first r ds ≡ none
    → listed r.addr (addrs ds) ≡ false
unfolding refresh_first
refresh_first-none r [] e = refl
refresh_first-none r (d ∷ ds) e = elim (Option-cases (refresh_first r ds)) [
  | inl n ↦ ground (arith, refresh_first-none r ds n)
  | inr (out, o) ↦ ground arith
]

-- A refresh keeps the addresses, in their order, and the result's is among them.
pub refresh_first-some :
    (r : ScanResult) (ds out : List Device)
    → refresh_first r ds ≡ some out
    → (addrs out ≡ addrs ds) × (listed r.addr (addrs ds) ≡ true)
unfolding refresh_first refreshed
refresh_first-some r [] out e = ground arith
refresh_first-some r (d ∷ ds) out e = elim (Bool-cases (str_eq d.addr r.addr)) [
  | inl here ↦ let q : out ≡ refreshed r d ∷ ds = ground arith in (rw q refl, ground arith)
  | inr there ↦ elim (Option-cases (refresh_first r ds)) [
    | inl n ↦ ground arith
    | inr (rest, o) ↦
        let q : out ≡ d ∷ rest = ground arith in
        let (same, present) = refresh_first-some r ds rest o in
        (rw q (ap (λ l. d.addr ∷ l) same), ground arith)
  ]
]

listed-remove :
    (a : List ℕ) (i : ℕ) (ds : List Device)
    → listed a (addrs ds) ≡ false
    → listed a (addrs (remove i ds)) ≡ false
unfolding remove
listed-remove a i [] h = refl
listed-remove a zero (d ∷ ds) h = ground arith
listed-remove a (suc i) (d ∷ ds) h = ground (arith, listed-remove a i ds)

IsNodup-remove : (i : ℕ) (ds : List Device) → IsNodup (addrs ds) → IsNodup (addrs (remove i ds))
unfolding remove
IsNodup-remove i [] h = tt
IsNodup-remove zero (d ∷ ds) h = h.1
IsNodup-remove (suc i) (d ∷ ds) h = (listed-remove d.addr i ds h.0, IsNodup-remove i ds h.1)

length-remove : (i : ℕ) (ds : List Device) → length (remove i ds) ≤ length ds
unfolding remove
length-remove i [] = omega arith
length-remove zero (d ∷ ds) = omega arith
length-remove (suc i) (d ∷ ds) = omega (arith, length-remove i ds)

-- An eviction leaves a table, in which no new address stands.
record Evicted (ds out : List Device) : Type 0 where
  nodup : IsNodup (addrs out)
  shorter : length out ≤ length ds
  kept : (a : List ℕ) → listed a (addrs ds) ≡ false → listed a (addrs out) ≡ false

evict_one-Evicted : (ds : List Device) → IsNodup (addrs ds) → Evicted ds (evict_one ds)
unfolding evict_one
evict_one-Evicted [] h = record { nodup = h; shorter = omega arith; kept = λ a e. e }
evict_one-Evicted (d ∷ ds) h =
    let (idx, dev) = worst_from 1 (0, d) ds in
    elim (Bool-cases (ltb 0 dev.missed)) [
      | inl stale ↦ rw stale (record {
        nodup = IsNodup-remove idx (d ∷ ds) h;
        shorter = length-remove idx (d ∷ ds);
        kept = λ a. listed-remove a idx (d ∷ ds);
      })
      | inr current ↦ rw current (record { nodup = h; shorter = omega arith; kept = λ a e. e })
    ]

listed-append :
    (a : List ℕ) (l : List (List ℕ)) (b : List ℕ)
    → listed a (l ++ b ∷ []) ≡ (listed a l || str_eq b a)
listed-append a [] b = ground arith
listed-append a (c ∷ l) b = ground (arith, listed-append a l b)

IsNodup-append :
    (l : List (List ℕ)) (a : List ℕ) → IsNodup l → listed a l ≡ false → IsNodup (l ++ a ∷ [])
IsNodup-append [] a h e = (refl, tt)
IsNodup-append (b ∷ l) a h e = (
  ground (arith, listed-append b l a, str_eq_comm a b, h.0),
  IsNodup-append l a h.1 (ground arith),
)

pushed-IsTable :
    (r : ScanResult) (ds : List Device)
    → IsNodup (addrs ds)
    → length ds < max_devices
    → listed r.addr (addrs ds) ≡ false
    → IsTable (ds ++ fresh r ∷ [])
unfolding fresh
pushed-IsTable r ds h l e = record {
  nodup = rw (addrs-append ds (fresh r ∷ [])) (IsNodup-append (addrs ds) r.addr h e);
  bounded = omega (arith, length-append ds (fresh r ∷ []));
}

observe_new :
    (r : ScanResult) (ds : List Device)
    → IsTable ds
    → listed r.addr (addrs ds) ≡ false
    → IsTable (
        if leb max_devices (length ds)
        then (if leb max_devices (length (evict_one ds))
            then evict_one ds
            else evict_one ds ++ fresh r ∷ [])
        else ds ++ fresh r ∷ [])
observe_new r ds t new =
    let ev = evict_one-Evicted ds t.nodup in
    elim (Bool-cases (leb max_devices (length ds))) [
      | inr room ↦ rw room (pushed-IsTable r ds t.nodup (ground arith) new)
      | inl full ↦ rw full (elim (Bool-cases (leb max_devices (length (evict_one ds)))) [
        | inl still ↦
            rw still (record { nodup = ev.nodup; bounded = omega (arith, ev.shorter, t.bounded) })
        | inr room ↦
            rw room (pushed-IsTable r (evict_one ds) ev.nodup (ground arith) (ev.kept r.addr new))
      ])
    ]

pub observe-IsTable : (r : ScanResult) (ds : List Device) → IsTable ds → IsTable (observe r ds)
unfolding observe
observe-IsTable r ds t = elim (Option-cases (refresh_first r ds)) [
  | inl none_yet ↦ rw (none_yet, observe) (observe_new r ds t (refresh_first-none r ds none_yet))
  | inr (out, o) ↦
      let (same, _) = refresh_first-some r ds out o in
      let size : length out ≡ length ds =
        omega (arith, ap length same, length-addrs out, length-addrs ds) in
      rw (o, observe) (record { nodup = rw same t.nodup; bounded = omega (arith, size, t.bounded) })
]

pub observe_all-IsTable :
    (rs : List ScanResult) (ds : List Device) → IsTable ds → IsTable (observe_all rs ds)
unfolding observe_all
observe_all-IsTable [] ds t = t
observe_all-IsTable (r ∷ rs) ds t = observe_all-IsTable rs (observe r ds) (observe-IsTable r ds t)

pub addrs-aged : (rs : List ScanResult) (ds : List Device) → addrs (map (aged rs) ds) ≡ addrs ds
unfolding aged
addrs-aged rs [] = refl
addrs-aged rs (d ∷ ds) = elim (Bool-cases (any (λ (r : ScanResult). str_eq r.addr d.addr) rs)) [
  | inl seen ↦ rw seen (ap (λ l. d.addr ∷ l) (addrs-aged rs ds))
  | inr missing ↦ rw missing (ap (λ l. d.addr ∷ l) (addrs-aged rs ds))
]

-- A scan round, whatever it found, turns a table in which no address stands twice and that has at
-- most 64 devices into another such table.
pub merge-IsTable : (rs : List ScanResult) (ds : List Device) → IsTable ds → IsTable (merge rs ds)
unfolding merge
merge-IsTable rs ds t =
    let o = observe_all-IsTable rs ds t in
    let same = addrs-aged rs (observe_all rs ds) in
    let size : length (map (aged rs) (observe_all rs ds)) ≡ length (observe_all rs ds) =
      length-map (aged rs) (observe_all rs ds) in
    record { nodup = rw same o.nodup; bounded = omega (arith, size, o.bounded) }
