-- ===== src/NameBadge.antt =====
-- The name badge plugin, plugins/name_badge/src.
pub mod Rng
pub mod Dither
