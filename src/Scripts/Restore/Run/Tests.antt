-- ===== src/Scripts/Restore/Run/Tests.antt =====
-- Runs of `restore` of scripts/restore_archive_batch.py on a batch of two events whose one object is
-- damaged, with and without a failure of the last transaction, and the theorems at these runs.
use fleet_lambda_platform.Base.{Option, none, some, [], ◌∷◌, map, length, ◌≡◌, refl}
use fleet_lambda_platform.Base.Paths.{PurePath}
use fleet_lambda_platform.Base.Result.{Exn, ok, err, operational_error}
use fleet_lambda_platform.Common.Archive.{Bytes, Manifest}
use fleet_lambda_platform.Common.Domain.{validate_event}
use fleet_lambda_platform.Streaming.Raw.{topic}
use fleet_lambda_platform.Scripts.Recovery.Samples.{instant, fromisoformat, event, message}
use fleet_lambda_platform.Scripts.Restore.{StoredOffsets}
use fleet_lambda_platform.Scripts.Restore.Run.{
  LedgerBatch, Store, Operation, back_up_root, write_object, publish_root, commit, remove_new,
  return_old, Tools, Retained, exact_legacy, without, restore, copy_legacy, replace_root,
}
use fleet_lambda_platform.Scripts.Restore.Run.Rollback.{back_up-Removed}
use fleet_lambda_platform.Scripts.Restore.Run.Rebuilt.{IsRebuilt, restore-IsRebuilt}

abbrev tools : Tools
tools = record {
  num_rows = length;
  sha256 = λ b. "digest";
  manifest_fingerprint = λ m. "manifest";
  write_table = map (λ i. i.event_time);
  folder = λ d. "dt=2026-03-01";
  fromisoformat = fromisoformat;
}

-- The record 4 is no valid event, and the record 6 lies behind the range.
abbrev retained : Retained
retained = record {
  beginnings = (0, 1) ∷ [];
  ends = (0, 7) ∷ [];
  polls =
      record {
        messages =
            message 3 (event "E1")
            ∷ message 4 []
            ∷ message 5 (event "E2")
            ∷ message 6 (event "E3")
            ∷ [];
        positions = (0, 7) ∷ [];
      }
      ∷ [];
}

abbrev offsets : StoredOffsets
offsets = record {
  version = some 1;
  topic = some topic;
  partitions = (0, record { start = 3; stop = 6; rows = some 3 }) ∷ [];
  recovery = none;
}

abbrev batch : LedgerBatch
batch = record {
  batch_id = 2;
  rows_in = 3;
  rows_valid = 2;
  max_event_ts = some instant;
  archive_manifest = none;
  source_offsets = some offsets;
}

abbrev store : Store
store = record {
  bucket =
      ((1, "dt=2026-03-01" ∷ "a.parquet" ∷ []), 1 ∷ [])
      ∷ ((2, "dt=2026-03-01" ∷ "b.parquet" ∷ []), [])
      ∷ [];
  quarantined = [];
  batches = batch ∷ [];
  verification = [];
}

abbrev no_faults : Operation → Option Exn
no_faults op = none

abbrev commit_fails : Operation → Option Exn
commit_fails commit = some operational_error
commit_fails back_up_root = none
commit_fails publish_root = none
commit_fails (write_object path) = none
commit_fails remove_new = none
commit_fails return_old = none

abbrev move_fails : Operation → Option Exn
move_fails back_up_root = some operational_error
move_fails commit = none
move_fails publish_root = none
move_fails (write_object path) = none
move_fails remove_new = none
move_fails return_old = none

abbrev no_legacy : PurePath → Option Bytes
no_legacy path = none

abbrev restored : Store
restored = (restore tools no_faults 2 "t" retained no_legacy store).1

restore_succeeds : restore tools no_faults 2 "t" retained no_legacy store ≡ (ok tt, restored)
unfolding restore validate_event
restore_succeeds = refl

abbrev failed : Store
failed = (restore tools commit_fails 2 "t" retained no_legacy store).1

restore-IsRebuilt_example : IsRebuilt tools no_faults 2 "t" batch restored
unfolding exact_legacy
restore-IsRebuilt_example =
    restore-IsRebuilt tools no_faults 2 "t" retained batch no_legacy store restored refl refl
      restore_succeeds

abbrev manifest : Manifest
manifest = record { version = 1; files = []; rows = 0 }

back_up-Removed_example :
    (replace_root tools move_fails 2 "t" [] 2 store
      ≡ (err operational_error, record store { bucket = without 2 store.bucket }))
    × (copy_legacy tools move_fails 2 "t" no_legacy manifest store
        ≡ (err operational_error, record store { bucket = without 2 store.bucket }))
back_up-Removed_example =
    back_up-Removed tools move_fails 2 "t" operational_error [] 2 no_legacy manifest store refl refl
      refl
