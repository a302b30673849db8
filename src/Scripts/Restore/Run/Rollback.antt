-- ===== src/Scripts/Restore/Run/Rollback.antt =====
-- What `restore` of scripts/restore_archive_batch.py leaves when it raises.
use fleet_lambda_platform.Base.{
  ℕ, String, true, false, Option, none, some, List, ◌≡◌, refl, string_eq, nat_eq, pair_eq, list_eq,
}
use fleet_lambda_platform.Base.Dict.{lookup}
use fleet_lambda_platform.Base.Paths.{PurePath}
use fleet_lambda_platform.Base.Result.{Exn, ok, err}
use fleet_lambda_platform.Base.Stateful.{After}
use fleet_lambda_platform.Common.Archive.{Bytes, Manifest}
use fleet_lambda_platform.Scripts.Restore.Run.{
  Folder, Store, Operation, back_up_root, Work, files_of, without, root_exists, Tools, remove_new,
  return_old, copy_legacy, replace_root,
}

module _ (tools : Tools) (faults : Operation → Option Exn) (id : ℕ) (token : String) where
  -- The objects, the ledger and the verifications are as they were.
  pub record IsAsBefore (s s' : Store) : Type 0 where
    pub same_objects : (k : ℕ × List String) → lookup k s'.bucket ≡ lookup k s.bucket
    pub same_batches : s'.batches ≡ s.batches
    pub same_verification : s'.verification ≡ s.verification

  -- From here the except clause can lead back.
  record IsRecoverable (s : Store) (w : Work) : Type 0 where
    same_others : without id w.store.bucket ≡ without id s.bucket
    is_backed_up :
        w.moved_old ≡ true → lookup (id, token) w.store.quarantined ≡ some (files_of id s.bucket)
    was_absent : w.moved_old ≡ false → root_exists id s.bucket ≡ false
    same_batches : w.store.batches ≡ s.batches
    same_verification : w.store.verification ≡ s.verification

  -- Neither call of the except clause raises.
  abbrev pub Undoes : Type 0
  Undoes = (faults remove_new ≡ none) × (faults return_old ≡ none)

  -- If a try block raises, the except clause can lead back.
  abbrev Ends : {A : Type 0} → Store → After Work A → Type 0
  Ends s (ok a, w) = Unit
  Ends s (err e, w) = IsRecoverable s w

  -- If the move of the old files to the quarantine raises and moves nothing, and the removal in the
  -- except clause does not raise, the except clause of either try block removes them: the exception is
  -- passed on, and no object of the batch is left.
  pub back_up-Removed :
      (x : Exn) (files : Folder) (rows : ℕ) (read_legacy : PurePath → Option Bytes) (m : Manifest)
      (s : Store)
      → faults back_up_root ≡ some x
      → faults remove_new ≡ none
      → root_exists id s.bucket ≡ true
      → (replace_root tools faults id token files rows s
          ≡ (err x, record s { bucket = without id s.bucket }))
        × (copy_legacy tools faults id token read_legacy m s
            ≡ (err x, record s { bucket = without id s.bucket }))
  unfolding replace_root copy_legacy
  back_up-Removed x files rows read_legacy m s raised removes there =
      (rw (there, raised, removes) refl, rw (there, raised, removes) refl)
