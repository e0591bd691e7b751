-- ===== src/ThermoPrinter/Wire.antt =====
-- The print-job frames of the network and serial channels, plugins/thermo_printer/src/wire.rs. A
-- usize has 32 bits, as on the badge (wasm32). Proofs are in the modules below.
pub mod Transport
mod Tests
use package.cdc_badge_plugins.Base.{ℕ, ◌+◌, ◌^◌, Bool, not, ltb, leb, ◌==◌, if◌then◌else◌}
use package.cdc_badge_plugins.Base.{
  Option, none, some, List, [], ◌∷◌, ◌++◌, length, get_or, take, drop,
}
use package.cdc_badge_plugins.Base.{u32, u16_to_le, u16_from_le, u32_to_le, u32_from_le}

abbrev pub magic : ℕ
magic = 0x4A50

abbrev pub pj_header_len : ℕ
pj_header_len = 8

pub record Job : Type 0 where
  pub kind : ℕ
  pub flags : ℕ
  pub payload : List ℕ

-- The bytes are read behind the length test, so the default is never used.
pub parse : List ℕ → Option Job
parse buf =
    let at = λ (i : ℕ). get_or buf i 0 in
    let len = u32_from_le (at 4) (at 5) (at 6) (at 7) in
    let end = pj_header_len + len in
    if ltb (length buf) pj_header_len
    then none
    else if not (u16_from_le (at 0) (at 1) == magic)
    then none
    else if leb (2 ^ 32) end
    then none
    else if ltb (length buf) end
    then none
    else some (record { kind = at 2; flags = at 3; payload = take len (drop pj_header_len buf) })

pub build : ℕ → List ℕ → List ℕ
build kind payload = u16_to_le magic ++ (kind ∷ 0 ∷ (u32_to_le (u32 (length payload)) ++ payload))
