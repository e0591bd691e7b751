-- ===== src/Scanner/Screen/Place.antt =====
-- One round of `render`: a row comes to its place, behind the rows that are done.
use cdc_badge_plugins.Base.{
  ℕ, zero, suc, ◌+◌, Bool, true, false, not, ◌||◌, ◌==◌, ==_iff, if◌then◌else◌, ◌≡◌, refl, ap, sym,
  ◌∙◌, Option, none, some, List, [], ◌∷◌, ◌++◌, length, All, arith, Bool-cases, Option-cases, inl,
  inr, if-elim,
}
use mathlib.Core.Path.{subst}
use cdc_badge_plugins.Base.Bytes.{str_eq, str_eq→≡}
use cdc_badge_plugins.Scanner.Screen.{Row, insert_at, remove_at, position, refresh_row, place}

-- No row has the address.
unfoldable pub Fresh : List ℕ → List Row → Type 0
Fresh addr = All (λ r. str_eq r.row_addr addr ≡ false)

-- No address has two rows.
unfoldable pub IsOrder : List Row → Type 0
IsOrder [] = Unit
IsOrder (r ∷ rows) = Fresh r.row_addr rows × IsOrder rows

shifted : ℕ → Option ℕ → Option ℕ
shifted n none = none
shifted n (some j) = some (n + j)

shifted-zero : (o : Option ℕ) → o ≡ shifted 0 o
unfolding shifted
shifted-zero none = refl
shifted-zero (some j) = ap some (omega arith)

shifted-suc :
    (n : ℕ) (o : Option ℕ)
    → elim (shifted n o) [ none ↦ none | some j ↦ some (suc j) ] ≡ shifted (suc n) o
unfolding shifted
shifted-suc n none = refl
shifted-suc n (some j) = ap some (omega arith)

position-append :
    (addr : List ℕ) (p rest : List Row)
    → Fresh addr p
    → position addr (p ++ rest) ≡ shifted (length p) (position addr rest)
unfolding position Fresh shifted
position-append addr [] rest h = shifted-zero (position addr rest)
position-append addr (r ∷ p) rest h =
    rw (h.0, position-append addr p rest h.1) (shifted-suc (length p) (position addr rest))

insert_at-append :
    (d : Row) (p rest : List Row) → insert_at (length p) d (p ++ rest) ≡ p ++ d ∷ rest
unfolding insert_at
insert_at-append d [] rest = refl
insert_at-append d (r ∷ p) rest = ap (λ l. r ∷ l) (insert_at-append d p rest)

remove_at-append :
    (j : ℕ) (p rest : List Row) → remove_at (length p + j) (p ++ rest) ≡ p ++ remove_at j rest
unfolding remove_at
remove_at-append j [] rest = ap (λ i. remove_at i rest) (omega arith)
remove_at-append j (r ∷ p) rest =
    let step : length (r ∷ p) + j ≡ suc (length p + j) = omega arith in
    rw step (ap (λ l. r ∷ l) (remove_at-append j p rest))

-- The first row of an address is taken out.
unfoldable pub remove_first : List ℕ → List Row → List Row
remove_first addr [] = []
remove_first addr (r ∷ rows) =
    let rest = remove_first addr rows in if str_eq r.row_addr addr then rows else r ∷ rest

pub remove_first-Fresh :
    (addr u : List ℕ) (rows : List Row) → Fresh u rows → Fresh u (remove_first addr rows)
unfolding remove_first Fresh
remove_first-Fresh addr u [] h = tt
remove_first-Fresh addr u (r ∷ rows) h =
    if-elim (Fresh u) (str_eq r.row_addr addr) _ _ (λ e. h.1)
      (λ e. (h.0, remove_first-Fresh addr u rows h.1))

pub remove_first-IsOrder :
    (addr : List ℕ) (rows : List Row) → IsOrder rows → IsOrder (remove_first addr rows)
unfolding remove_first IsOrder
remove_first-IsOrder addr [] h = tt
remove_first-IsOrder addr (r ∷ rows) h =
    if-elim IsOrder (str_eq r.row_addr addr) _ _ (λ e. h.1)
      (λ e. (remove_first-Fresh addr r.row_addr rows h.0, remove_first-IsOrder addr rows h.1))

-- Where no address has two rows, none is left of the one that is taken out.
pub remove_first-gone :
    (addr : List ℕ) (rows : List Row) → IsOrder rows → Fresh addr (remove_first addr rows)
unfolding remove_first IsOrder Fresh
remove_first-gone addr [] h = tt
remove_first-gone addr (r ∷ rows) h =
    if-elim (Fresh addr) (str_eq r.row_addr addr) _ _
      (λ e. subst (λ u. Fresh u rows) (str_eq→≡ r.row_addr addr e) h.0)
      (λ e. (e, remove_first-gone addr rows h.1))

-- Taking out the first row of an address, by its position.
position-none :
    (addr : List ℕ) (rows : List Row) → position addr rows ≡ none → remove_first addr rows ≡ rows
unfolding position remove_first
position-none addr [] e = refl
position-none addr (r ∷ rows) e = elim (Bool-cases (str_eq r.row_addr addr)) [
  | inl t ↦ absurd (ground (arith, t, e))
  | inr t ↦ rw t (ap (λ l. r ∷ l) (position-none addr rows (ground (arith, t, e))))
]

position-some :
    (addr : List ℕ) (rows : List Row) (j : ℕ)
    → position addr rows ≡ some j
    → remove_first addr rows ≡ remove_at j rows
unfolding position remove_first remove_at
position-some addr [] j e = absurd (ground arith)
position-some addr (r ∷ rows) zero e = elim (Bool-cases (str_eq r.row_addr addr)) [
  | inl t ↦ rw t refl
  | inr t ↦ absurd (ground (arith, t, e))
]
position-some addr (r ∷ rows) (suc j) e = elim (Bool-cases (str_eq r.row_addr addr)) [
  | inl t ↦ absurd (ground (arith, t, e))
  | inr t ↦ rw t (ap (λ l. r ∷ l) (position-some addr rows j (ground (arith, t, e))))
]

unchanged : (a b : Bool) → (not a || not b) ≡ false → (a ≡ true) × (b ≡ true)
unchanged true true e = (refl, refl)
unchanged true false e = absurd (ground arith)
unchanged false b e = absurd (ground arith)

same_row : (r d : Row) → r.row_addr ≡ d.row_addr → r.label ≡ d.label → r.icon ≡ d.icon → r ≡ d
same_row r d h g f =
    ap (λ a. record r { row_addr = a }) h
    ∙ ap (λ l. record r { row_addr = d.row_addr; label = l }) g
    ∙ ap (λ i. record d { icon = i }) f

refresh_row-same :
    (d r : Row) (rows : List Row)
    → str_eq r.row_addr d.row_addr ≡ true
    → refresh_row 0 d (r ∷ rows) ≡ d ∷ rows
unfolding refresh_row
refresh_row-same d r rows e =
    let test = not (str_eq r.label d.label) || not (r.icon == d.icon) in
    if-elim (λ l. l ≡ d ∷ rows) test _ _ (λ t. refl)
      (λ t.
        let kept = unchanged (str_eq r.label d.label) (r.icon == d.icon) t in
        ap (λ x. x ∷ rows)
          (same_row r d (str_eq→≡ r.row_addr d.row_addr e) (str_eq→≡ r.label d.label kept.0)
            ((==_iff r.icon d.icon).0 kept.1)))

refresh_row-append :
    (d : Row) (p rest : List Row) → refresh_row (length p) d (p ++ rest) ≡ p ++ refresh_row 0 d rest
unfolding refresh_row
refresh_row-append d [] rest = refl
refresh_row-append d (r ∷ p) rest = ap (λ l. r ∷ l) (refresh_row-append d p rest)

place-none :
    (i : ℕ) (d : Row) (order : List Row)
    → position d.row_addr order ≡ none
    → place i d order ≡ insert_at i d order
unfolding place
place-none i d order e = rw (e, place) refl

place-moved :
    (i j : ℕ) (d : Row) (order : List Row)
    → position d.row_addr order ≡ some j
    → (j == i) ≡ false
    → place i d order ≡ insert_at i d (remove_at j order)
unfolding place
place-moved i j d order e t = rw (e, place, t) refl

place-kept :
    (i j : ℕ) (d : Row) (order : List Row)
    → position d.row_addr order ≡ some j
    → (j == i) ≡ true
    → place i d order ≡ refresh_row i d order
unfolding place
place-kept i j d order e t = rw (e, place, t) refl

-- The row that is first in the rest stays where it is.
kept_first :
    (d : Row) (rest : List Row)
    → position d.row_addr rest ≡ some 0
    → refresh_row 0 d rest ≡ d ∷ remove_at 0 rest
unfolding position remove_at
kept_first d [] e = absurd (ground arith)
kept_first d (r ∷ rest) e = elim (Bool-cases (str_eq r.row_addr d.row_addr)) [
  | inl t ↦ refresh_row-same d r rest t
  | inr t ↦ absurd (ground (arith, t, e))
]

found :
    (d : Row) (p rest : List Row) (j : ℕ)
    → position d.row_addr (p ++ rest) ≡ some (length p + j)
    → position d.row_addr rest ≡ some j
    → place (length p) d (p ++ rest) ≡ p ++ d ∷ remove_first d.row_addr rest
found d p rest zero at e =
    place-kept (length p) (length p + 0) d (p ++ rest) at (ground arith)
    ∙ refresh_row-append d p rest
    ∙ ap (λ l. p ++ l) (kept_first d rest e)
    ∙ ap (λ l. p ++ d ∷ l) (sym (position-some d.row_addr rest 0 e))
found d p rest (suc j) at e =
    place-moved (length p) (length p + suc j) d (p ++ rest) at (ground arith)
    ∙ ap (insert_at (length p) d) (remove_at-append (suc j) p rest)
    ∙ insert_at-append d p (remove_at (suc j) rest)
    ∙ ap (λ l. p ++ d ∷ l) (sym (position-some d.row_addr rest (suc j) e))

-- One round, when the rows before the place are done.
pub place-done :
    (d : Row) (p rest : List Row)
    → Fresh d.row_addr p
    → place (length p) d (p ++ rest) ≡ p ++ d ∷ remove_first d.row_addr rest
unfolding shifted
place-done d p rest h =
    let at = position-append d.row_addr p rest h in
    elim (Option-cases (position d.row_addr rest)) [
      | inl e ↦
          place-none (length p) d (p ++ rest) (at ∙ ap (shifted (length p)) e)
          ∙ insert_at-append d p rest
          ∙ ap (λ l. p ++ d ∷ l) (sym (position-none d.row_addr rest e))
      | inr e ↦ found d p rest e.0 (at ∙ ap (shifted (length p)) e.1) e.1
    ]
