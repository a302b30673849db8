-- ===== src/Dags.antt =====
-- The scheduled tasks of airflow/dags.
pub mod Quality
