-- ===== src/Lib.antt =====
-- Fleet Lambda Platform: a model of the parts that decide what is archived, reconciled, published and
-- repaired.
--
-- The platform reads trip events from Kafka twice. A serving job keeps live tables; the archive writer
-- (streaming/raw_job.py) commits every micro-batch as Parquet objects, a manifest of their digests and a
-- row of the ledger pipeline_batches. A batch job reads the archive back through the manifests
-- (common/archive.py), reconciles it with the landed expenses, and publishes a daily report in four
-- formats with a manifest of its own (common/publication.py), which the API checks again. Scripts repair
-- what an interruption left (scripts/repair_spark_checkpoints.py, scripts/restore_archive_batch.py,
-- scripts/repair_archive_gap.py).
--
-- Files:
--   Base and its children: Boolean tests, lists, Python dicts, paths, `sorted`, raised exceptions, steps
--     that raise on a state, with the lemmas that the components share.
--   Common/Domain: common/domain.py, `validate_event` and `reconcile`. Values, Ranges, Valid, Counting
--     and Report hold the proofs.
--   Common/Expenses: common/domain.py, `money_cents` and `validate_expenses`. Sorted and Total hold the
--     proofs.
--   Common/Publication: common/publication.py, `build_export_manifest`, `export_matches` and
--     `manifest_matches`. Verified and Roundtrip hold the proofs.
--   Common/Archive: common/archive.py, `build_manifest` and `verified_paths`. Intact and Roundtrip hold
--     the proofs.
--   Streaming/Raw: streaming/raw_job.py, `process_batch` with all it calls: `source_identity`,
--     `continuity_errors`, `replay_plan` and `advance_offsets` stand in Ranges. Continuity, Plan and
--     Replay hold the proofs, Ranges/Grouping and Ranges/Frames what they need of one micro-batch.
--   Streaming/Serving: streaming/staged_sink.py, the serving tables and a row of a micro-batch.
--     Conflicts, Windows, States and Alerts hold the statements of `merge_staged` by the tables they are
--     about, Windows also `metrics_partition`; Merge composes them; Staging has `stage_partition` and,
--     of streaming/sink.py, `fingerprint`. Verdict and Bulk have `bulk_serve` of streaming/sink.py with
--     `_reconcile_metric_events`; Bulk/SameIds, SameTrips, Signatures, BadTrips, MergeTrips,
--     Blame, SameVerdict, Commits, Stored, Keys and SameServed relate it to `merge_staged`; Rejections
--     and Quarantined show what it keeps. Samples has tables for the runs.
--     DeadLetters has `dead_letter_send` and `dead_letter_partition`, DeadLetters/Sent their proof.
--     Merge/Storable, Outcome, Quarantine, Accounted, Vehicles, Alerted, Recounted, Corrected and
--     Staging/Chunks hold the proofs.
--   Batch/Reconcile: batch/reconcile.py, its tables and the operations it calls (`Tools`). Day has
--     `run_day` and `_run_day` in stages, Catchup `run_available`. Day/Finished, Again, Failed, Settled,
--     Catchup/Dates and Catchup/Budget hold the proofs.
--   Batch/Aggregate: batch/spark_reconcile.py, `aggregate`. Totals and Withheld hold the proofs.
--   Dags/Quality: airflow/dags/data_quality_dag.py, its four checks. Checked and Exports hold the proofs.
--   Api/Health: api/main.py, `pipeline_status`, `health_pipeline` and `health_reports` with the queries
--     of the latter. Pipeline and Reports hold the proofs.
--   Scripts/Checkpoints: scripts/repair_spark_checkpoints.py. Tail and Repair hold the proofs.
--   Scripts/Recovery: what scripts/restore_archive_batch.py and scripts/repair_archive_gap.py do alike,
--     the loop over the retained Kafka records and the files of the dates. Events and Retained hold the
--     proofs, Samples a record for the runs.
--   Scripts/Restore: scripts/restore_archive_batch.py, `source_ranges`; Run has `restore`. Committed
--     holds the proof that relates the ranges to the archive writer, Run/Folders, Run/Rollback and
--     Run/Rebuilt those about `restore`.
--   Scripts/Gap: scripts/repair_archive_gap.py. Known, Written, Repaired and Uncommitted hold the
--     proofs.
--
-- State: a database table is a list of rows or an association list by its primary key, a bucket is a
-- table from batch and path to bytes, a directory is a list of files. A handler maps the state to its
-- outcome and the next state, also where it raises. An exception is a value of `Exn`; its text is
-- shortened: it goes to logs and error columns only.
--
-- Parameters: SHA-256, the digest of canonical JSON, the Parquet writer of Spark, the row count of a
-- Parquet footer, and `json.loads` are code outside the repository. What `datetime.fromisoformat` reads
-- is a parameter as well, and so are the database's order of texts (`after`) and what Kafka and the
-- database answer to a dead letter. The statement that marks a run as failed may raise (`mark_failed`
-- of `Tools`), and so may each removal, move and write of an object store (`faults`). What
-- `datetime.fromisoformat` reads is an instant in microseconds as an integer; the conversion to UTC
-- raises outside the years 1 to 9999, and from there on instants are natural numbers. Of the tables'
-- constraints the model has the primary keys, the check of rt_vehicle_state on its status, and the
-- integer and bigint columns of rt_zone_metrics. The definitions are
-- all by structural recursion, and no fuel is used.
--
-- Not modelled: the wiring of Spark, Kafka, FastAPI and Airflow, logging, argument parsing, the scripts
-- that drive a running installation, and the components for which no file is listed above.
pub mod Base
pub mod Common
pub mod Streaming
pub mod Scripts
pub mod Batch
pub mod Dags
pub mod Api
