-- ===== src/Streaming/Raw.antt =====
-- streaming/raw_job.py: one micro-batch of the archive writer, from the replay plan to the commit
-- in the ledger. The tables are pipeline_batches, archive_partition_offsets (the rows of the topic)
-- and dq_archive_verification. Outside the repository, and so parameters: the Parquet writer of
-- Spark, the row counts of pyarrow, and SHA-256 with the JSON texts that it digests.
pub mod Ranges
pub mod Continuity
pub mod Plan
pub mod Replay
mod Tests
use fleet_lambda_platform.Base.{
  ℕ, zero, suc, ◌+◌, ◌-◌, ◌<◌, max, String, Bool, true, false, ◌||◌, not, Option, none, some, List,
  [], ◌∷◌, ◌++◌, map, keep, length, sum_by, elem, is_none, if◌then◌else◌, eqb, ltb, nat_eq,
  string_eq, option_eq, list_eq, ◌==◌,
}
use fleet_lambda_platform.Base.Dict.{lookup, insert, keys}
use fleet_lambda_platform.Base.Result.{Result, ok, err, Exn, runtime_error}
use fleet_lambda_platform.Common.Archive.{Bytes, Bucket, Manifest, Batch, build_manifest}
use Ranges.{
  Row, PartitionRow, Details, Offsets, Discontinuity, partition_rows, source_offsets,
  continuity_errors, replay_plan, trim,
}

pub record Tools : Type 0 where
  pub num_rows : Bytes → ℕ
  pub sha256 : Bytes → String
  -- valid.write.partitionBy("dt").parquet(path): the files below the path
  pub write_parquet : List Row → List (List String × Bytes)
  -- the digest of the canonical JSON of the offsets, and of a manifest
  pub offsets_digest : Offsets → String
  pub manifest_fingerprint : Manifest → String

-- A row of pipeline_batches.
pub record PipelineBatch : Type 0 where
  pub archive : Batch
  pub open archive use *
  pub source_batch_id : Option ℕ
  pub source_offsets : Option Offsets
  pub source_fingerprint : Option String
  pub rows_in : ℕ
  pub rows_rejected : ℕ
  pub max_event_ts : Option ℕ

-- A row of archive_partition_offsets, beside its partition.
pub record NextOffset : Type 0 where
  pub next_offset : ℕ
  pub batch_id : ℕ

-- The database, the bucket, and the quarantined rows of each batch.
pub record World : Type 0 where
  pub batches : List PipelineBatch
  pub partition_offsets : List (ℕ × NextOffset)
  pub verification : List (ℕ × String)
  pub bucket : Bucket
  pub quarantine : List (ℕ × List Row)

pub data Outcome : Type 0 where
  empty_batch : Outcome
  replay_skipped : Outcome
  already_committed : ℕ → Outcome
  committed : ℕ → Outcome

-- TOPIC
abbrev pub topic : String
topic = "trip-events"

-- SIM_START, in microseconds since the year 1
abbrev pub sim_start : ℕ
sim_start = 63907920000000000

-- SELECT partition,next_offset ... WHERE partition=ANY(...), as a dict
abbrev pub committed_offsets : World → List ℕ → List (ℕ × ℕ)
committed_offsets w partitions =
    map (λ e. (e.0, e.1.next_offset)) (keep (λ e. elem e.0 partitions) w.partition_offsets)

unfoldable pub advance_offsets :
    List (ℕ × Details) → ℕ → List (ℕ × NextOffset) → List (ℕ × NextOffset)
advance_offsets [] batch_id table = table
advance_offsets ((p, d) ∷ ps) batch_id table =
    advance_offsets ps batch_id
      (insert p (record { next_offset = d.stop; batch_id = batch_id }) table)

-- SELECT COALESCE(max(batch_id),-1)+1 FROM pipeline_batches
abbrev pub next_batch_id : List PipelineBatch → ℕ
next_batch_id [] = 0
next_batch_id (b ∷ bs) = max (b.archive.batch_id + 1) (next_batch_id bs)

-- SELECT ... FROM pipeline_batches WHERE source_fingerprint=%s
abbrev pub find_source : String → List PipelineBatch → Option PipelineBatch
find_source digest [] = none
find_source digest (b ∷ bs) =
    let rest = find_source digest bs in if b.source_fingerprint == some digest then some b else rest

-- the error column after the check of the simulated time
abbrev pub stamped_error : ℕ → Row → Option String
stamped_error upper r = elim r.error [
  | some e ↦ some e
  | none ↦ elim r.event_ts [
    | none ↦ none
    | some t ↦ if ltb t sim_start || ltb upper t then some "outside_simulation_time" else none
  ]
]

abbrev pub is_valid : ℕ → Row → Bool
is_valid upper r = elim (stamped_error upper r) [ none ↦ true | some _ ↦ false ]

-- max(event_time), which passes over nulls
unfoldable pub latest : List Row → Option ℕ
latest [] = none
latest (r ∷ rs) = elim r.event_ts [
  | none ↦ latest rs
  | some t ↦ elim (latest rs) [ none ↦ some t | some u ↦ some (max t u) ]
]

-- mode("overwrite"): the folder of the batch holds the new files alone
abbrev pub overwrite : ℕ → List (List String × Bytes) → Bucket → Bucket
overwrite id files bucket =
    map (λ f. ((id, f.0), f.1)) files ++ keep (λ o. not (eqb o.0.0 id)) bucket

abbrev pub Action : Type 0
Action = World → Result Outcome × World

-- a source range that the ledger has already
abbrev pub known_source : PipelineBatch → List Row → Action
known_source b frame w =
    if not (eqb b.rows_in (length frame)) || is_none b.archive.archive_manifest
    then (err (runtime_error "Committed Kafka offset range has inconsistent archive metadata"), w)
    else (ok (already_committed b.archive.batch_id), w)

abbrev pub range_rows : Offsets → ℕ
range_rows offsets = sum_by (λ e. e.1.rows) offsets.partitions

-- a frame with its offsets, after the check of the counts
abbrev pub counted : List Row → Offsets → Action → Action
counted frame offsets next w =
    if not (eqb (range_rows offsets) (length frame))
    then (err (runtime_error "row count does not match the micro-batch"), w)
    else next w

abbrev pub frame_offsets : List Row → Offsets
frame_offsets frame = source_offsets topic (partition_rows frame)

module _ (tools : Tools) (upper : ℕ) (source_batch_id : ℕ) where
  -- the last transaction: the ledger row, the verification and the offsets
  unfoldable pub record_commit : ℕ → List Row → Offsets → Manifest → World → World
  unfolding advance_offsets latest
  record_commit id frame offsets manifest w =
      let good = keep (is_valid upper) frame in
      record w {
        batches =
            record {
              archive = record {
                batch_id = id;
                rows_valid = length good;
                archive_manifest = some manifest;
              };
              source_batch_id = some source_batch_id;
              source_offsets = some offsets;
              source_fingerprint = some (tools.offsets_digest offsets);
              rows_in = length frame;
              rows_rejected = length frame - length good;
              max_event_ts = latest good;
            }
            ∷ w.batches;
        partition_offsets = advance_offsets offsets.partitions id w.partition_offsets;
        verification = insert id (tools.manifest_fingerprint manifest) w.verification;
      }

  -- the objects written before the last transaction
  unfoldable pub write_objects : ℕ → List Row → World → World
  write_objects id frame w =
      let good = keep (is_valid upper) frame in
      record w {
        bucket = overwrite id (tools.write_parquet good) w.bucket;
        quarantine =
            if ltb (length good) (length frame)
            then insert id (keep (λ r. not (is_valid upper r)) frame) w.quarantine
            else w.quarantine;
      }

  unfoldable pub archive_batch : ℕ → List Row → Offsets → Action
  unfolding write_objects record_commit build_manifest
  archive_batch id frame offsets w =
      let w' = write_objects id frame w in
      elim (build_manifest tools.num_rows tools.sha256 w'.bucket id
        (length (keep (is_valid upper) frame))) [
          | err e ↦ (err e, w')
          | ok manifest ↦ (ok (committed id), record_commit id frame offsets manifest w')
        ]

  -- from the lookup of the fingerprint on
  unfoldable pub commit_frame : List Row → Offsets → Action
  unfolding archive_batch continuity_errors
  commit_frame frame offsets w = elim (find_source (tools.offsets_digest offsets) w.batches) [
    | some b ↦ known_source b frame w
    | none ↦
        elim (continuity_errors offsets.partitions
          (committed_offsets w (keys offsets.partitions))) [
            | _ ∷ _ ↦ (err (runtime_error "Kafka archive offset discontinuity"), w)
            | [] ↦ archive_batch (next_batch_id w.batches) frame offsets w
          ]
  ]

  -- what is left of a replay after the trim
  unfoldable pub commit_trimmed : List Row → Action
  unfolding commit_frame source_offsets partition_rows
  commit_trimmed [] w = (ok replay_skipped, w)
  commit_trimmed (r ∷ rs) w =
      counted (r ∷ rs) (frame_offsets (r ∷ rs)) (commit_frame (r ∷ rs) (frame_offsets (r ∷ rs))) w

  -- a gap is fatal; without thresholds nothing is trimmed
  abbrev pub follow_plan : List (ℕ × Discontinuity) → List (ℕ × ℕ) → List Row → Offsets → Action
  follow_plan (_ ∷ _) thresholds frame offsets w =
      (err (runtime_error "Kafka archive offset discontinuity"), w)
  follow_plan [] [] frame offsets w = commit_frame frame offsets w
  follow_plan [] (t ∷ ts) frame offsets w = commit_trimmed (trim (t ∷ ts) frame) w

  abbrev pub planned : List Row → Offsets → Action
  planned frame offsets w =
      let (thresholds, gaps) =
        replay_plan offsets.partitions (committed_offsets w (keys offsets.partitions)) in
      follow_plan gaps thresholds frame offsets w

  -- `process_batch`, with the answer of the advisory lock
  unfoldable pub process_batch : Bool → List Row → Action
  unfolding commit_trimmed replay_plan
  process_batch false frame w = (err (runtime_error "Another archive writer owns this dataset"), w)
  process_batch true [] w = (ok empty_batch, w)
  process_batch true (r ∷ rs) w =
      counted (r ∷ rs) (frame_offsets (r ∷ rs)) (planned (r ∷ rs) (frame_offsets (r ∷ rs))) w
