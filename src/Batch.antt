-- ===== src/Batch.antt =====
-- The package batch: the daily reconciliation.
pub mod Reconcile
pub mod Aggregate
