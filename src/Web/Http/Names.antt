-- ===== src/Web/Http/Names.antt =====
-- The names that the server serves: what `resolve_file` lets through, and that it lets it through.
use cdc_badge_plugins.Base.{
  ℕ, zero, suc, ◌≡◌, refl, ap, length, ◌≢◌, ◌≤◌, ◌⊎◌, All, true, false, some, List, [], ◌∷◌, ◌++◌,
  all, replicate, arith,
}
use cdc_badge_plugins.Base.Bytes.{str_eq, unlike, differs}
use cdc_badge_plugins.Web.Http.{trim_slashes, name_or_index, allowed, resolve_file}
use mathlib.Core.Path.{subst}

-- A letter, a digit, a point, a hyphen or an underscore of ASCII: no slash and no backslash.
abbrev pub IsNameByte : ℕ → Type 0
IsNameByte b =
    ((0x30 ≤ b) × (b ≤ 0x39))
    ⊎ (((0x41 ≤ b) × (b ≤ 0x5A))
        ⊎ (((0x61 ≤ b) × (b ≤ 0x7A)) ⊎ ((b ≡ 0x2E) ⊎ ((b ≡ 0x2D) ⊎ (b ≡ 0x5F)))))

IsNameByte_lem : (b : ℕ) → allowed b ≡ true → IsNameByte b
unfolding allowed
IsNameByte_lem b h = ground arith

allowed_lem : (b : ℕ) → IsNameByte b → allowed b ≡ true
unfolding allowed
allowed_lem b h = ground arith

all-IsNameByte : (s : List ℕ) → all allowed s ≡ true → All IsNameByte s
all-IsNameByte [] h = tt
all-IsNameByte (b ∷ s) h =
    let (first, rest) : (allowed b ≡ true) × (all allowed s ≡ true) = ground arith in
    (IsNameByte_lem b first, all-IsNameByte s rest)

all-allowed : (s : List ℕ) → All IsNameByte s → all allowed s ≡ true
all-allowed [] h = refl
all-allowed (b ∷ s) h = rw (allowed_lem b h.0) (all-allowed s h.1)

-- A name of the flat folder: of these bytes, and not empty, "." or "..".
pub record IsSafe (name : List ℕ) : Type 0 where
  pub plain : All IsNameByte name
  pub nonempty : name ≢ []
  pub not_here : name ≢ 0x2E ∷ []
  pub not_parent : name ≢ 0x2E ∷ 0x2E ∷ []

name_or_index_nonempty : (t : List ℕ) → name_or_index t ≢ []
unfolding name_or_index
name_or_index_nonempty [] = λ e. ground (arith, ap length e)
name_or_index_nonempty (b ∷ t) = λ e. ground (arith, ap length e)

-- Whatever the request path is, a name that is resolved is a safe one: it has only ASCII letters,
-- digits, points, hyphens and underscores, at least one, and is neither the folder nor its parent.
pub resolve_file-IsSafe : (path name : List ℕ) → resolve_file path ≡ some name → IsSafe name
unfolding resolve_file
resolve_file-IsSafe path name e =
    let n = name_or_index (trim_slashes path) in
    let tests : (str_eq n (0x2E ∷ []) ≡ false)
        × (str_eq n (0x2E ∷ 0x2E ∷ []) ≡ false)
        × (all allowed n ≡ true)
        × (n ≡ name) =
      ground arith in
    let (here, parent, plain, same) = tests in
    subst IsSafe same (record {
      plain = all-IsNameByte n plain;
      nonempty = name_or_index_nonempty (trim_slashes path);
      not_here = differs n (0x2E ∷ []) here;
      not_parent = differs n (0x2E ∷ 0x2E ∷ []) parent;
    })

trim_slashes-safe :
    (k : ℕ) (b : ℕ) (s : List ℕ)
    → allowed b ≡ true
    → trim_slashes (replicate k 0x2F ++ b ∷ s) ≡ b ∷ s
unfolding trim_slashes allowed
trim_slashes-safe zero b s h = ground arith
trim_slashes-safe (suc k) b s h = trim_slashes-safe k b s h

-- Every safe name is served under itself, behind any number of slashes.
pub resolve_file-safe :
    (k : ℕ) (name : List ℕ) → IsSafe name → resolve_file (replicate k 0x2F ++ name) ≡ some name
unfolding resolve_file name_or_index
resolve_file-safe k [] safe = absurd (safe.nonempty refl)
resolve_file-safe k (b ∷ s) safe =
    let first : allowed b ≡ true = allowed_lem b safe.plain.0 in
    let here = unlike (b ∷ s) (0x2E ∷ []) safe.not_here in
    let parent = unlike (b ∷ s) (0x2E ∷ 0x2E ∷ []) safe.not_parent in
    rw (trim_slashes-safe k b s first)
      (ground (arith, all-allowed (b ∷ s) safe.plain, here, parent))
