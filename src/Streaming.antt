-- ===== src/Streaming.antt =====
-- The package streaming: the raw archive writer and the serving writers.
pub mod Raw
pub mod Serving
