-- ===== src/Scripts/Gap/Uncommitted.antt =====
-- What `repair` of scripts/repair_archive_gap.py leaves when it raises.
use fleet_lambda_platform.Base.{
  ℕ, String, Bool, true, false, Option, List, [], ◌∷◌, length, eqb, eqb_iff, leb, ◌≡◌, refl, ap,
  ◌∙◌, subst, inl, inr, Bool-cases, Option-cases, string_eq, nat_eq, pair_eq, list_eq,
}
use fleet_lambda_platform.Base.Dict.{lookup, insert, lookup-insert_ne}
use fleet_lambda_platform.Base.Result.{Exn, err, Result-cases}
use fleet_lambda_platform.Base.Stateful.{After, ◌>>>◌, unless_raised, >>>-err}
use fleet_lambda_platform.Common.Archive.{Bytes, Manifest, build_manifest}
use fleet_lambda_platform.Scripts.Recovery.{Recovered, date_files}
use fleet_lambda_platform.Scripts.Restore.Run.{Folder, Operation, write_object, commit}
use fleet_lambda_platform.Scripts.Gap.{
  World, Tools, Snapshot, raw_max, live_max, next_batch_id, recover, write_files, record_batch,
  archive, repair_between, repair,
}

module _ (tools : Tools) (faults : Operation → Option Exn) (snapshot : Snapshot) where
  -- No table is changed, and no object but those of the batch that would have come next.
  pub record IsUncommitted (w v : World) : Type 0 where
    pub same_batches : v.batches ≡ w.batches
    pub same_fingerprints : v.source_fingerprints ≡ w.source_fingerprints
    pub same_keys : v.keys ≡ w.keys
    pub same_conflicts : v.conflicts ≡ w.conflicts
    pub same_verification : v.verification ≡ w.verification
    pub same_objects :
        (k : ℕ × List String)
        → eqb k.0 (next_batch_id w.batches) ≡ false
        → lookup k v.bucket ≡ lookup k w.bucket

  pub untouched : (w : World) → IsUncommitted w w
  untouched w = record {
    same_batches = refl;
    same_fingerprints = refl;
    same_keys = refl;
    same_conflicts = refl;
    same_verification = refl;
    same_objects = λ k other. refl;
  }

  write_file-IsUncommitted :
      (path : List String) (bytes : Bytes) (w v : World)
      → IsUncommitted w v
      → IsUncommitted w
          (record v { bucket = insert (next_batch_id w.batches, path) bytes v.bucket })
  write_file-IsUncommitted path bytes w v h = record {
    same_batches = h.same_batches;
    same_fingerprints = h.same_fingerprints;
    same_keys = h.same_keys;
    same_conflicts = h.same_conflicts;
    same_verification = h.same_verification;
    same_objects = λ k other.
        lookup-insert_ne k (next_batch_id w.batches, path) bytes v.bucket
          (λ same.
            let at_id : k.0 ≡ next_batch_id w.batches = ap (λ (x : ℕ × List String). x.0) same in
            cc ((eqb_iff k.0 (next_batch_id w.batches)).1 at_id, other))
        ∙ h.same_objects k other;
  }

  pub write_files-IsUncommitted :
      (files : Folder) (w v : World)
      → IsUncommitted w v
      → IsUncommitted w (write_files tools faults snapshot (next_batch_id w.batches) files v).1
  unfolding write_files
  write_files-IsUncommitted [] w v h = h
  write_files-IsUncommitted ((path, bytes) ∷ files) w v h =
      elim (Option-cases (faults (write_object path))) [
        | inl fine ↦ rw fine (
            write_files-IsUncommitted files w
              (record v { bucket = insert (next_batch_id w.batches, path) bytes v.bucket })
              (write_file-IsUncommitted path bytes w v h))
        | inr (e, raised) ↦ rw raised h
      ]

  archive-IsUncommitted :
      (raw live : ℕ) (recovered : List Recovered) (w v : World) (e : Exn)
      → archive tools faults snapshot raw live recovered w ≡ (err e, v)
      → IsUncommitted w v
  unfolding archive
  archive-IsUncommitted raw live recovered w v e h =
      let id = next_batch_id w.batches in
      let files = date_files tools.folder tools.write_table "recovered-gap.parquet" recovered in
      let after = write_files tools faults snapshot id files w in
      let done = write_files-IsUncommitted files w w (untouched w) in
      let build : World → After World Manifest =
        λ v. (build_manifest tools.num_rows tools.sha256 v.bucket id (length recovered), v) in
      let last : Manifest → World → After World (Option ℕ) = λ m u.
        unless_raised (faults commit) (record_batch tools faults snapshot raw live id recovered m)
          u in
      elim (>>>-err after (λ _ v. build v >>> last) h) [
        | inl failed ↦ subst (IsUncommitted w) (ap (λ p. p.1) failed) done
        | inr (u, v1, wrote, h1) ↦
            let done1 = subst (IsUncommitted w) (ap (λ p. p.1) wrote) done in
            elim (>>>-err (build v1) last h1) [
              | inl failed ↦ subst (IsUncommitted w) (ap (λ p. p.1) failed) done1
              | inr (m, v2, built, h2) ↦
                  subst (IsUncommitted w) (ap (λ p. p.1) built ∙ commit_fault m v2 h2) done1
            ]
      ]
    where
      commit_fault :
          (m : Manifest) (u : World)
          → unless_raised
              (faults commit)
              (record_batch tools faults snapshot raw live (next_batch_id w.batches) recovered m)
              u
            ≡ (err e, v)
          → u ≡ v
      commit_fault m u h = elim (Option-cases (faults commit)) [
        | inl fine ↦ cc (ap (λ p. p.0) (rw fine at h))
        | inr (x, failed) ↦ ap (λ p. p.1) (rw failed at h)
      ]

  repair_between-IsUncommitted :
      (include_boundary : Bool) (raw live : ℕ) (w v : World) (e : Exn)
      → repair_between tools faults snapshot include_boundary raw live w ≡ (err e, v)
      → IsUncommitted w v
  unfolding repair_between
  repair_between-IsUncommitted include_boundary raw live w v e h =
      elim (Bool-cases (leb live raw)) [
        | inl current ↦ cc (ap (λ p. p.0) (rw current at h))
        | inr behind ↦
            elim (Result-cases (recover tools faults snapshot include_boundary raw live w)) [
              | inr (x, failed) ↦
                  subst (IsUncommitted w) (ap (λ p. p.1) (rw (behind, failed) at h)) (untouched w)
              | inl (recovered, got) ↦
                  archive-IsUncommitted raw live recovered w v e (rw (behind, got) at h)
            ]
      ]

  -- A `repair` that raises, wherever it does, leaves every table as it was, and every object but those
  -- of the batch id that is next in the ledger.
  pub repair-IsUncommitted :
      (has_lock include_boundary : Bool) (w v : World) (e : Exn)
      → repair tools faults snapshot has_lock include_boundary w ≡ (err e, v)
      → IsUncommitted w v
  unfolding repair
  repair-IsUncommitted false include_boundary w v e h =
      subst (IsUncommitted w) (ap (λ p. p.1) h) (untouched w)
  repair-IsUncommitted true include_boundary w v e h = elim (Option-cases (raw_max w)) [
    | inl empty ↦ subst (IsUncommitted w) (ap (λ p. p.1) (rw (empty, repair) at h)) (untouched w)
    | inr (raw, is_raw) ↦ elim (Option-cases (live_max w)) [
      | inl empty ↦
          subst (IsUncommitted w) (ap (λ p. p.1) (rw (is_raw, repair, empty) at h)) (untouched w)
      | inr (live, is_live) ↦
          repair_between-IsUncommitted include_boundary raw live w v e
            (rw (is_raw, repair, is_live) at h)
    ]
  ]
