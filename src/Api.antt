-- ===== src/Api.antt =====
-- The HTTP API of the directory api/.
pub mod Health
