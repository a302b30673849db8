-- ===== src/Scripts/Gap.antt =====
-- scripts/repair_archive_gap.py: `_verify_identities` and `repair`, which archives the retained events
-- between the newest archived instant and the newest served one. The tables are pipeline_batches with its
-- column source_fingerprint, stream_event_keys, stream_conflicts and dq_archive_verification.
-- The pages of 5000 identities that the source queries are one query here. The writes of objects and the
-- last transaction may raise, as `faults` says. `fingerprint` is the digest of an event's canonical JSON,
-- `source_digest` that of the source offsets with the two instants.
pub mod Known
pub mod Written
pub mod Repaired
pub mod Uncommitted
mod Tests
use fleet_lambda_platform.Base.{
  ℕ, ◌+◌, String, Bool, true, false, ◌&&◌, not, Option, none, some, List, [], ◌∷◌, map, all, any,
  keep, length, greatest, present, max, if◌then◌else◌, eqb, ltb, leb, ◌==◌, string_eq, nat_eq,
  pair_eq, list_eq,
}
use fleet_lambda_platform.Base.Dict.{lookup, insert, contains}
use fleet_lambda_platform.Base.Tables.{distinct}
use fleet_lambda_platform.Base.Result.{
  Result, Exn, ok, err, value_error, runtime_error, raise_if, ◌>>=◌, ◌>>◌,
}
use fleet_lambda_platform.Base.Stateful.{After, ◌>>>◌, unless_raised}
use fleet_lambda_platform.Common.Archive.{Bytes, Bucket, Manifest, build_manifest}
use fleet_lambda_platform.Common.Domain.{Value, Stamp}
use fleet_lambda_platform.Streaming.Raw.{topic}
use fleet_lambda_platform.Streaming.Serving.{EventKey, ConflictKey, Conflict}
use fleet_lambda_platform.Scripts.Recovery.{
  Poll, Recovered, Item, read_retained, date_files, offset_of,
}
use fleet_lambda_platform.Scripts.Restore.{StoredOffsets, StoredItem}
use fleet_lambda_platform.Scripts.Restore.Run.{
  LedgerBatch, Folder, Operation, write_object, commit, newest,
}

pub record World : Type 0 where
  pub batches : List LedgerBatch
  pub source_fingerprints : List (ℕ × String)
  pub keys : List (String × EventKey)
  pub conflicts : List (ConflictKey × Conflict)
  pub verification : List (ℕ × String)
  pub bucket : Bucket

pub record Tools : Type 0 where
  pub num_rows : Bytes → ℕ
  pub sha256 : Bytes → String
  pub manifest_fingerprint : Manifest → String
  pub fingerprint : Recovered → String
  pub source_digest : StoredOffsets → ℕ → ℕ → String
  pub write_table : List Item → Bytes
  pub folder : ℕ → String
  pub fromisoformat : Value → Option Stamp

-- The snapshot of the topic, and what the consumer is given.
pub record Snapshot : Type 0 where
  pub starts : List (ℕ × ℕ)
  pub ends : List (ℕ × ℕ)
  pub polls : List Poll

-- max(max_event_ts) of pipeline_batches, max(event_ts) of stream_event_keys
abbrev pub raw_max : World → Option ℕ
raw_max w = greatest (present (map (λ b. b.max_event_ts) w.batches))

abbrev pub live_max : World → Option ℕ
live_max w = greatest (map (λ k. k.1.event_ts) w.keys)

-- COALESCE(max(batch_id),-1)+1
abbrev pub next_batch_id : List LedgerBatch → ℕ
next_batch_id [] = 0
next_batch_id (b ∷ bs) = max (b.batch_id + 1) (next_batch_id bs)

-- boundary_ok and event_time <= state["live_max"]
abbrev pub in_gap : Bool → ℕ → ℕ → ℕ → Result Bool
in_gap include_boundary raw live t =
    ok ((if include_boundary then leb raw t else ltb raw t) && leb t live)

module _ (tools : Tools) where
  abbrev pub signatures : String → List Recovered → List String
  signatures event_id rows = map tools.fingerprint (keep (λ r. r.event.event_id == event_id) rows)

  -- the two checks of one identity
  unfoldable pub verify_identity : World → List Recovered → String → Result (Unit {0})
  verify_identity w rows event_id = elim (lookup event_id w.keys) [
    | some key ↦
        raise_if (not (all (λ s. s == key.fingerprint) (signatures event_id rows)))
          (value_error "Kafka identity mismatch")
    | none ↦
        raise_if (not (any (λ c. c.0.event_id == event_id) w.conflicts))
          (value_error "Kafka event is absent from serving identity/conflict ledgers")
  ]

  unfoldable pub verify_each : World → List Recovered → List String → Result (Unit {0})
  unfolding verify_identity
  verify_each w rows [] = ok tt
  verify_each w rows (id ∷ ids) = do verify_identity w rows id; verify_each w rows ids

  unfoldable pub verify_identities : World → List Recovered → Result (Unit {0})
  unfolding verify_each distinct
  verify_identities w rows = verify_each w rows (distinct (map (λ r. r.event.event_id) rows))

  module _ (faults : Operation → Option Exn) (snapshot : Snapshot) where
    -- the retained events of the gap, with known identities
    unfoldable pub recover : Bool → ℕ → ℕ → World → Result (List Recovered)
    unfolding read_retained verify_identities
    recover include_boundary raw live w = do
      recovered ←
          read_retained tools.fromisoformat (in_gap include_boundary raw live) snapshot.ends
            snapshot.polls snapshot.starts []
      raise_if (eqb (length recovered) 0)
          (value_error "Kafka retention no longer contains the missing raw interval")
      verify_identities w recovered
      ok recovered

    -- the files of the dates, one after the other
    unfoldable pub write_files : ℕ → Folder → World → After World (Unit {0})
    write_files id [] w = (ok tt, w)
    write_files id ((path, bytes) ∷ files) w =
        unless_raised (faults (write_object path))
          (λ v. (ok tt, record v { bucket = insert (id, path) bytes v.bucket })) w
        >>> λ _ v. write_files id files v

    abbrev pub stored_range : ℕ × ℕ → ℕ × StoredItem
    stored_range e = (e.0, record { start = e.1; stop = offset_of e.0 snapshot.ends; rows = none })

    abbrev pub source_offsets : StoredOffsets
    source_offsets = record {
      version = some 1;
      topic = some topic;
      partitions = map stored_range snapshot.starts;
      recovery = some "event_time_gap";
    }

    abbrev pub new_batch : ℕ → List Recovered → Manifest → LedgerBatch
    new_batch id recovered m = record {
      batch_id = id;
      rows_in = length recovered;
      rows_valid = length recovered;
      max_event_ts = newest recovered;
      archive_manifest = some m;
      source_offsets = some source_offsets;
    }

    -- the last transaction
    abbrev pub record_batch : ℕ → ℕ → ℕ → List Recovered → Manifest → World → After World (Option ℕ)
    record_batch raw live id recovered m w = (
      ok (some id),
      record w {
        batches = new_batch id recovered m ∷ w.batches;
        source_fingerprints =
            insert id (tools.source_digest source_offsets raw live) w.source_fingerprints;
        verification = insert id (tools.manifest_fingerprint m) w.verification;
      },
    )

    -- from the grouping by date on
    unfoldable pub archive : ℕ → ℕ → List Recovered → World → After World (Option ℕ)
    unfolding write_files date_files build_manifest
    archive raw live recovered w =
        let id = next_batch_id w.batches in
        write_files id (date_files tools.folder tools.write_table "recovered-gap.parquet" recovered)
          w
        >>> λ _ v.
            (build_manifest tools.num_rows tools.sha256 v.bucket id (length recovered), v)
            >>> λ m u. unless_raised (faults commit) (record_batch raw live id recovered m) u

    unfoldable pub repair_between : Bool → ℕ → ℕ → World → After World (Option ℕ)
    unfolding recover archive
    repair_between include_boundary raw live w =
        if leb live raw
        then (ok none, w)
        else ((recover include_boundary raw live w, w) >>> λ recovered v.
            archive raw live recovered v)

    -- `repair`, with the answer of the advisory lock
    unfoldable pub repair : Bool → Bool → World → After World (Option ℕ)
    unfolding repair_between
    repair false include_boundary w =
        (err (runtime_error "Stop streaming-raw before repairing the archive gap"), w)
    repair true include_boundary w = elim (raw_max w) [
      | none ↦ (err (value_error "Both raw and serving event timestamps are required"), w)
      | some raw ↦ elim (live_max w) [
        | none ↦ (err (value_error "Both raw and serving event timestamps are required"), w)
        | some live ↦ repair_between include_boundary raw live w
      ]
    ]
