-- ===== src/Streaming/Raw/Tests.antt =====
-- Runs of the archive writer of streaming/raw_job.py on small micro-batches, and the theorems of
-- its modules at these inputs.
use fleet_lambda_platform.Base.{
  ℕ, String, true, Option, none, some, List, [], ◌∷◌, ◌≡◌, refl, map, length,
}
use fleet_lambda_platform.Base.Result.{ok}
use fleet_lambda_platform.Common.Archive.{Bytes}
use fleet_lambda_platform.Streaming.Raw.{
  Tools, World, committed, replay_skipped, process_batch, sim_start,
}
use fleet_lambda_platform.Streaming.Raw.Ranges.{Row}
use fleet_lambda_platform.Streaming.Raw.Continuity.{IsContinuous, process_batch-IsContinuous}
use fleet_lambda_platform.Streaming.Raw.Replay.{process_batch_replayed}

-- A writer that puts the offsets of all rows into one file, a byte for each.
abbrev one_file : List Row → List (List String × Bytes)
one_file rows = (("dt=2026-03-01" ∷ "part-0.parquet" ∷ []), map (λ r. r.offset) rows) ∷ []

abbrev tools : Tools
tools = record {
  num_rows = length;
  sha256 = λ b. "digest";
  write_parquet = one_file;
  offsets_digest = λ o. "offsets";
  manifest_fingerprint = λ m. "manifest";
}

abbrev row : ℕ → ℕ → Option String → Row
row p o e = record { partition = p; offset = o; raw = "{}"; error = e; event_ts = some sim_start }

abbrev empty_world : World
empty_world = record {
  batches = [];
  partition_offsets = [];
  verification = [];
  bucket = [];
  quarantine = [];
}

-- Three rows of two partitions; one of them is invalid.
abbrev first_row : Row
first_row = row 2 7 none

abbrev more_rows : List Row
more_rows = row 0 4 none ∷ row 2 8 (some "invalid_json") ∷ []

abbrev after_commit : World
after_commit = (process_batch tools sim_start 5 true (first_row ∷ more_rows) empty_world).1

commits :
    process_batch tools sim_start 5 true (first_row ∷ more_rows) empty_world
    ≡ (ok (committed 0), after_commit)
unfolding process_batch
commits = refl

next_offsets :
    after_commit.partition_offsets
    ≡ (0, record { next_offset = 5; batch_id = 0 })
      ∷ (2, record { next_offset = 9; batch_id = 0 })
      ∷ []
unfolding process_batch
next_offsets = refl

IsContinuous-empty : IsContinuous empty_world
IsContinuous-empty = record { at = λ p. refl }

process_batch-IsContinuous_example : IsContinuous after_commit
process_batch-IsContinuous_example =
    process_batch-IsContinuous tools sim_start 5 true (first_row ∷ more_rows) empty_world
      IsContinuous-empty

process_batch_replayed_example :
    process_batch tools sim_start 0 true (first_row ∷ more_rows) after_commit
    ≡ (ok replay_skipped, after_commit)
process_batch_replayed_example =
    process_batch_replayed tools sim_start 5 0 first_row more_rows empty_world after_commit commits
      sim_start 0
