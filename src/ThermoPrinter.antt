-- ===== src/ThermoPrinter.antt =====
-- The thermal printer plugin, plugins/thermo_printer/src.
pub mod Proto
pub mod Raster
pub mod Wire
pub mod Drive
pub mod Layout
pub mod Wrap
pub mod Vcard
