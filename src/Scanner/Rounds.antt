-- ===== src/Scanner/Rounds.antt =====
-- What a scan round leaves in the table, and which device an eviction drops.
use cdc_badge_plugins.Base.{ℕ, ◌≤◌, ◌≡◌, true, List, ◌++◌, length, All}
use cdc_badge_plugins.Scanner.{Device, ScanResult}
use cdc_badge_plugins.Scanner.Table.{addrs, listed}

-- The addresses after a round: the old ones as they stood, then new ones; all that were seen.
pub record Grown (rs : List ScanResult) (ds out : List Device) : Type 0 where
  pub new : List (List ℕ)
  pub order : addrs out ≡ addrs ds ++ new
  pub few : length new ≤ length rs
  pub seen : All (λ (r : ScanResult). listed r.addr (addrs out) ≡ true) rs

-- One result, when there is room for it.
record Noted (r : ScanResult) (ds out : List Device) : Type 0 where
  new : List (List ℕ)
  order : addrs out ≡ addrs ds ++ new
  few : length new ≤ 1
  seen : listed r.addr (addrs out) ≡ true
