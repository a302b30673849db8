-- ===== src/Scripts/Restore/Tests.antt =====
-- `source_ranges` of scripts/restore_archive_batch.py on a batch that the archive writer commits,
-- and on one of a recovery.
use fleet_lambda_platform.Base.{ℕ, String, true, none, some, List, [], ◌∷◌, ◌≡◌, refl, length, map}
use fleet_lambda_platform.Base.Result.{ok, err, value_error}
use fleet_lambda_platform.Common.Archive.{Bytes}
use fleet_lambda_platform.Streaming.Raw.{Tools, World, committed, process_batch, sim_start, topic}
use fleet_lambda_platform.Streaming.Raw.Ranges.{Row}
use fleet_lambda_platform.Scripts.Restore.{StoredOffsets, source_ranges}
use fleet_lambda_platform.Scripts.Restore.Committed.{IsRestorable, process_batch-IsRestorable}

-- A writer whose one file has a byte for each row.
abbrev one_file : List Row → List (List String × Bytes)
one_file rows = (("dt=2026-03-01" ∷ "part-0.parquet" ∷ []), map (λ r. r.offset) rows) ∷ []

abbrev tools : Tools
tools = record {
  num_rows = length;
  sha256 = λ b. "digest";
  write_parquet = one_file;
  offsets_digest = λ o. "offsets";
  manifest_fingerprint = λ m. "manifest";
}

abbrev row : ℕ → Row
row o = record { partition = 1; offset = o; raw = "{}"; error = none; event_ts = some sim_start }

abbrev before : World
before = record {
  batches = [];
  partition_offsets = [];
  verification = [];
  bucket = [];
  quarantine = [];
}

abbrev after : World
after = (process_batch tools sim_start 5 true (row 3 ∷ row 4 ∷ []) before).1

commits :
    process_batch tools sim_start 5 true (row 3 ∷ row 4 ∷ []) before ≡ (ok (committed 0), after)
unfolding process_batch
commits = refl

-- A recovery stores no rows, and its ranges are refused.
abbrev recovery : StoredOffsets
recovery = record {
  version = some 1;
  topic = some topic;
  partitions = (0, record { start = 0; stop = 9; rows = none }) ∷ [];
  recovery = some "event_time_gap";
}

refuses_recovery :
    source_ranges 9 (some recovery)
    ≡ err (value_error "Recovery batches require an exact retained archive copy")
unfolding source_ranges
refuses_recovery = refl

process_batch-IsRestorable_example : IsRestorable 0 before after
process_batch-IsRestorable_example =
    process_batch-IsRestorable tools sim_start 5 0 (row 3) (row 4 ∷ []) before after commits
