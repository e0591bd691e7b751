-- ===== src/Web.antt =====
-- The web server plugin, plugins/webserver/src.
pub mod Http
