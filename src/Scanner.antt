-- ===== src/Scanner.antt =====
-- The device table of the BLE scanner, plugins/ble_scanner/src/lib.rs: the merge of a scan round and
-- the eviction. An address is its six bytes, a name its UTF-8 bytes. Proofs are in the modules below.
pub mod Table
pub mod Rounds
pub mod Eviction
pub mod Screen
mod Tests
use package.cdc_badge_plugins.Base.{
  ℕ, zero, suc, ◌+◌, min, Bool, true, false, not, ◌&&◌, ◌||◌, ltb, leb, ◌==◌, if◌then◌else◌,
}
use package.cdc_badge_plugins.Base.{Option, none, some, List, [], ◌∷◌, ◌++◌, map, any, length}
use package.cdc_badge_plugins.Base.Int.{ℤ, ltb_ℤ}
use package.cdc_badge_plugins.Base.Bytes.{str_eq}

abbrev pub max_devices : ℕ
max_devices = 64

pub record Device : Type 0 where
  pub addr : List ℕ
  pub addr_type : ℕ
  pub rssi : ℤ
  pub name : List ℕ
  pub count : ℕ
  pub missed : ℕ

-- `ble::ScanResult`, as far as the plugin reads it.
pub record ScanResult : Type 0 where
  pub addr : List ℕ
  pub addr_type : ℕ
  pub rssi : ℤ
  pub name : List ℕ

-- `saturating_add(1)` on u32 and on u8.
abbrev pub count_up : ℕ → ℕ
count_up n = min (n + 1) 0xFFFF_FFFF

abbrev pub missed_up : ℕ → ℕ
missed_up n = min (n + 1) 0xFF

-- A device that is seen again.
pub refreshed : ScanResult → Device → Device
refreshed r d = record d {
  count = count_up d.count;
  rssi = r.rssi;
  addr_type = r.addr_type;
  name = if str_eq r.name [] then d.name else r.name;
  missed = 0;
}

pub fresh : ScanResult → Device
fresh r = record {
  addr = r.addr;
  addr_type = r.addr_type;
  rssi = r.rssi;
  name = r.name;
  count = 1;
  missed = 0;
}

-- The first device with the address of the result, refreshed: `none` when there is none.
pub refresh_first : ScanResult → List Device → Option (List Device)
refresh_first r [] = none
refresh_first r (d ∷ ds) =
    if str_eq d.addr r.addr
    then some (refreshed r d ∷ ds)
    else elim (refresh_first r ds) [ none ↦ none | some rest ↦ some (d ∷ rest) ]

-- The comparison of `evict_one` says that the first is greater: missed longer, or as long and weaker.
pub outranks : Device → Device → Bool
outranks a b = ltb b.missed a.missed || (a.missed == b.missed && ltb_ℤ a.rssi b.rssi)

-- `enumerate().max_by(..)` from index `i` on, with the best so far: of equals, the last.
pub worst_from : ℕ → ℕ × Device → List Device → ℕ × Device
worst_from i best [] = best
worst_from i best (d ∷ ds) = worst_from (i + 1) (if outranks best.1 d then best else (i, d)) ds

-- `Vec::remove`, at an index inside.
pub remove : ℕ → List Device → List Device
remove i [] = []
remove zero (d ∷ ds) = ds
remove (suc i) (d ∷ ds) = d ∷ remove i ds

pub evict_one : List Device → List Device
evict_one [] = []
evict_one (d ∷ ds) =
    let (idx, dev) = worst_from 1 (0, d) ds in
    if ltb 0 dev.missed then remove idx (d ∷ ds) else d ∷ ds

-- The body of the first loop of `merge`.
pub observe : ScanResult → List Device → List Device
observe r ds = elim (refresh_first r ds) [
  | some ds' ↦ ds'
  | none ↦
      let room = evict_one ds in
      if leb max_devices (length ds)
      then (if leb max_devices (length room) then room else room ++ fresh r ∷ [])
      else ds ++ fresh r ∷ []
]

pub observe_all : List ScanResult → List Device → List Device
observe_all [] ds = ds
observe_all (r ∷ rs) ds = observe_all rs (observe r ds)

-- The second loop: the devices that the round did not see.
pub aged : List ScanResult → Device → Device
aged rs d =
    if not (any (λ (r : ScanResult). str_eq r.addr d.addr) rs)
    then record d { missed = missed_up d.missed }
    else d

pub merge : List ScanResult → List Device → List Device
merge results devices = map (aged results) (observe_all results devices)
