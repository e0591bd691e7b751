-- ===== src/Scanner/Tests.antt =====
-- Rounds on a small table, and the theorems at concrete inputs.
use cdc_badge_plugins.Base.{ℕ, ◌≡◌, refl, List, [], ◌∷◌, arith}
use cdc_badge_plugins.Base.Int.{negsuc}
use cdc_badge_plugins.Scanner.{
  Device, ScanResult, refreshed, fresh, refresh_first, outranks, worst_from, remove, evict_one,
  observe, observe_all, aged, merge,
}
use cdc_badge_plugins.Scanner.Screen.{
  Row, insert_at, remove_at, position, listed, refresh_row, place, place_all, render_rows,
}
use cdc_badge_plugins.Scanner.Screen.Place.{Fresh, IsOrder}
use cdc_badge_plugins.Scanner.Screen.Order.{render_rows-desired}
use cdc_badge_plugins.Scanner.Table.{IsTable, merge-IsTable}

run_merge : List ScanResult → List Device → List Device
unfolding merge observe_all observe refresh_first refreshed fresh evict_one worst_from outranks
    remove aged
run_merge rs ds = merge rs ds

abbrev old : Device
old = record {
  addr = 1 ∷ 2 ∷ 3 ∷ 4 ∷ 5 ∷ 6 ∷ [];
  addr_type = 0;
  rssi = negsuc 59;
  name = 0x41 ∷ [];
  count = 3;
  missed = 0;
}

abbrev faint : Device
faint = record {
  addr = 9 ∷ 2 ∷ 3 ∷ 4 ∷ 5 ∷ 6 ∷ [];
  addr_type = 1;
  rssi = negsuc 89;
  name = [];
  count = 1;
  missed = 2;
}

abbrev seen_again : ScanResult
seen_again = record {
  addr = 1 ∷ 2 ∷ 3 ∷ 4 ∷ 5 ∷ 6 ∷ [];
  addr_type = 0;
  rssi = negsuc 69;
  name = [];
}

-- The name that is known stays, the other device counts one more miss.
merged :
    merge (seen_again ∷ []) (old ∷ faint ∷ [])
    ≡ record old { rssi = negsuc 69; count = 4 } ∷ record faint { missed = 3 } ∷ []
unfolding run_merge
merged = refl

evicted : evict_one (old ∷ faint ∷ []) ≡ old ∷ []
unfolding run_merge
evicted = refl

small-IsTable : IsTable (old ∷ faint ∷ [])
small-IsTable = record { nodup = (refl, (refl, tt)); bounded = omega arith }

merge-IsTable_example : IsTable (merge (seen_again ∷ []) (old ∷ faint ∷ []))
merge-IsTable_example = merge-IsTable (seen_again ∷ []) (old ∷ faint ∷ []) small-IsTable

abbrev row_of : ℕ → ℕ → Row
row_of a n = record { row_addr = a ∷ []; label = n ∷ []; icon = 0 }

-- The second device is gone, the third has a new name and a fourth came.
abbrev shown : List Row
shown = row_of 1 0x41 ∷ row_of 2 0x42 ∷ row_of 3 0x43 ∷ []

abbrev wanted : List Row
wanted = row_of 3 0x44 ∷ row_of 1 0x41 ∷ row_of 4 0x45 ∷ []

run_render : List Row → List Row → List Row
unfolding render_rows place_all place refresh_row listed position remove_at insert_at
run_render desired order = render_rows desired order

rendered : render_rows wanted shown ≡ wanted
unfolding run_render
rendered = refl

render_rows-desired_example : render_rows wanted shown ≡ wanted
unfolding IsOrder Fresh
render_rows-desired_example =
    render_rows-desired wanted shown ((refl, (refl, tt)), ((refl, tt), (tt, tt)))
      ((refl, (refl, tt)), ((refl, tt), (tt, tt)))
