-- ===== src/Scripts/Restore/Committed.antt =====
-- How the batches that streaming/raw_job.py commits relate to `source_ranges` of
-- scripts/restore_archive_batch.py.
use fleet_lambda_platform.Base.{
  ℕ, ◌-◌, true, false, none, some, List, [], ◌∷◌, ◌++◌, map, keep, length, ◌≡◌, ◌≢◌, refl, sym, ap,
  ◌∙◌, subst, arith, inl, inr, Bool-cases, Option-cases, List-cases, eqb, eqb_iff, nat_eq,
  string_eq, option_eq, append-nil, append_assoc,
}
use fleet_lambda_platform.Base.Dict.{lookup, insert, NodupKeys, keys}
use fleet_lambda_platform.Base.Result.{ok, Result-cases}
use fleet_lambda_platform.Common.Archive.{Manifest, build_manifest}
use fleet_lambda_platform.Streaming.Raw.{
  Tools, topic, is_valid, latest, PipelineBatch, World, committed, committed_offsets, next_batch_id,
  find_source, record_commit, write_objects, archive_batch, known_source, commit_frame,
  frame_offsets, range_rows, commit_trimmed, follow_plan, process_batch,
}
use fleet_lambda_platform.Streaming.Raw.Ranges.{
  Row, Details, Offsets, source_offsets, Discontinuity, continuity_errors, replay_plan, trim,
}
use fleet_lambda_platform.Streaming.Raw.Ranges.Frames.{ranges-NodupKeys, row-within_range}
use fleet_lambda_platform.Streaming.Raw.Replay.{range_rows-frame_offsets}
use fleet_lambda_platform.Scripts.Restore.{
  stored, stored_item, no_partitions, add_ranges, source_ranges,
}

-- No key of the list is a key of the table.
abbrev Fresh : List (ℕ × Details) → List (ℕ × Details) → Type 0
Fresh ps table = (k : ℕ) (d : Details) → lookup k ps ≡ some d → lookup k table ≡ none

lookup_append :
    (k : ℕ) (xs ys : List (ℕ × Details)) → lookup k xs ≡ none → lookup k (xs ++ ys) ≡ lookup k ys
lookup_append k [] ys h = refl
lookup_append k ((j, d) ∷ xs) ys h = ground (arith, lookup_append k xs ys)

insert_absent :
    (k : ℕ) (d : Details) (table : List (ℕ × Details))
    → lookup k table ≡ none
    → insert k d table ≡ table ++ (k, d) ∷ []
insert_absent k d [] h = refl
insert_absent k d ((j, x) ∷ table) h = ground (arith, insert_absent k d table)

add_ranges-stored :
    (ps table : List (ℕ × Details))
    → NodupKeys ps
    → Fresh ps table
    → add_ranges (map (λ e. (e.0, stored_item e.1)) ps) table ≡ ok (table ++ ps)
unfolding add_ranges
add_ranges-stored [] table nodup fresh = ap ok (sym (append-nil table))
add_ranges-stored ((p, d) ∷ ps) table (absent, nodup) fresh =
    let here : lookup p table ≡ none = fresh p d (ground arith) in
    rw (insert_absent p d table here) (
      add_ranges-stored ps (table ++ (p, d) ∷ []) nodup (λ k x e. elim (Bool-cases (eqb k p)) [
        | inl same ↦ cc ((eqb_iff k p).0 same, e, absent)
        | inr other ↦ lookup_append k table ((p, d) ∷ []) (fresh k x (rw other e)) ∙ rw other refl
      ])
      ∙ ap ok (append_assoc table ((p, d) ∷ []) ps))

stored_nonempty :
    (ps : List (ℕ × Details))
    → ps ≢ []
    → no_partitions (map (λ e. (e.0, stored_item e.1)) ps) ≡ false
stored_nonempty [] ne = absurd (ne refl)
stored_nonempty (e ∷ ps) ne = refl

source_ranges-stored :
    (o : Offsets) (n : ℕ)
    → o.version ≡ 1
    → o.topic ≡ topic
    → NodupKeys o.partitions
    → o.partitions ≢ []
    → range_rows o ≡ n
    → source_ranges n (some (stored o)) ≡ ok o.partitions
unfolding source_ranges
source_ranges-stored o n v t nodup ne total =
    rw
      (
        v,
        t,
        stored_nonempty o.partitions ne,
        add_ranges-stored o.partitions [] nodup (λ k d e. refl),
        (eqb_iff (range_rows o) n).1 total,
      )
      refl

has_version :
    (frame : List Row) → ((frame_offsets frame).version ≡ 1) × ((frame_offsets frame).topic ≡ topic)
unfolding source_offsets
has_version frame = (refl, refl)

frame_nonempty : (r : Row) (rs : List Row) → (frame_offsets (r ∷ rs)).partitions ≢ []
frame_nonempty r rs e =
    let (d, at, lo, hi) = row-within_range topic (r ∷ rs) r (inl refl) in
    cc (at, ap (lookup r.partition) e)

frame_ranges :
    (r : Row) (rs : List Row)
    → source_ranges (length (r ∷ rs)) (some (stored (frame_offsets (r ∷ rs))))
      ≡ ok (frame_offsets (r ∷ rs)).partitions
frame_ranges r rs =
    source_ranges-stored (frame_offsets (r ∷ rs)) (length (r ∷ rs)) (has_version (r ∷ rs)).0
      (has_version (r ∷ rs)).1 (ranges-NodupKeys topic (r ∷ rs)) (frame_nonempty r rs)
      (range_rows-frame_offsets (r ∷ rs))

-- The step has written one batch with this id, and its source ranges are accepted.
pub record IsRestorable (id : ℕ) (w w' : World) : Type 0 where
  pub batch : PipelineBatch
  pub offsets : Offsets
  pub is_written : w'.batches ≡ batch ∷ w.batches
  pub has_id : batch.archive.batch_id ≡ id
  pub has_offsets : batch.source_offsets ≡ some offsets
  pub is_accepted : source_ranges batch.rows_in (some (stored offsets)) ≡ ok offsets.partitions

module _ (tools : Tools) (upper source_id : ℕ) where
  record_commit-IsRestorable :
      (id : ℕ) (r : Row) (rs : List Row) (m : Manifest) (w : World)
      → IsRestorable id w (
          record_commit tools upper source_id id
            (r ∷ rs)
            (frame_offsets (r ∷ rs))
            m
            (write_objects tools upper source_id id (r ∷ rs) w))
  unfolding record_commit write_objects
  record_commit-IsRestorable id r rs m w = record {
    batch = record {
      archive = record {
        batch_id = id;
        rows_valid = length (keep (is_valid upper) (r ∷ rs));
        archive_manifest = some m;
      };
      source_batch_id = some source_id;
      source_offsets = some (frame_offsets (r ∷ rs));
      source_fingerprint = some (tools.offsets_digest (frame_offsets (r ∷ rs)));
      rows_in = length (r ∷ rs);
      rows_rejected = length (r ∷ rs) - length (keep (is_valid upper) (r ∷ rs));
      max_event_ts = latest (keep (is_valid upper) (r ∷ rs));
    };
    offsets = frame_offsets (r ∷ rs);
    is_written = refl;
    has_id = refl;
    has_offsets = refl;
    is_accepted = frame_ranges r rs;
  }

  archive_batch-IsRestorable :
      (id id' : ℕ) (r : Row) (rs : List Row) (w w' : World)
      → archive_batch tools upper source_id id (r ∷ rs) (frame_offsets (r ∷ rs)) w
        ≡ (ok (committed id'), w')
      → IsRestorable id' w w'
  unfolding archive_batch
  archive_batch-IsRestorable id id' r rs w w' h =
      elim (Result-cases (
        build_manifest tools.num_rows tools.sha256
          (write_objects tools upper source_id id (r ∷ rs) w).bucket id
          (length (keep (is_valid upper) (r ∷ rs))))) [
            | inl (m, e) ↦
                let same = rw (archive_batch, e) at h in
                let id_same : id ≡ id' = cc (same) in
                subst (λ v. IsRestorable id' w v) (ap (λ x. x.1) same)
                  (subst
                    (λ i. IsRestorable i w (
                      record_commit tools upper source_id id (r ∷ rs) (frame_offsets (r ∷ rs)) m
                        (write_objects tools upper source_id id (r ∷ rs) w)))
                    id_same (record_commit-IsRestorable id r rs m w))
            | inr (x, e) ↦ cc (rw (archive_batch, e) at h)
          ]

  not_known :
      (b : PipelineBatch) (id : ℕ) (frame : List Row) (w w' : World)
      → known_source b frame w ≢ (ok (committed id), w')
  not_known b id frame w w' h = ground arith

  commit_frame-IsRestorable :
      (id : ℕ) (r : Row) (rs : List Row) (w w' : World)
      → commit_frame tools upper source_id (r ∷ rs) (frame_offsets (r ∷ rs)) w
        ≡ (ok (committed id), w')
      → IsRestorable id w w'
  unfolding commit_frame
  commit_frame-IsRestorable id r rs w w' h =
      let o = frame_offsets (r ∷ rs) in
      elim (Option-cases (find_source (tools.offsets_digest o) w.batches)) [
        | inr (b, e) ↦ absurd (not_known b id (r ∷ rs) w w' (rw (e, commit_frame) at h))
        | inl e ↦
            elim (List-cases
              (continuity_errors o.partitions (committed_offsets w (keys o.partitions)))) [
                | inr (x, xs, found) ↦ cc (rw (commit_frame, e, found) at h)
                | inl none_found ↦
                    archive_batch-IsRestorable (next_batch_id w.batches) id r rs w w'
                      (rw (commit_frame, e, none_found) at h)
              ]
      ]

  commit_trimmed-IsRestorable :
      (id : ℕ) (frame : List Row) (w w' : World)
      → commit_trimmed tools upper source_id frame w ≡ (ok (committed id), w')
      → IsRestorable id w w'
  unfolding commit_trimmed
  commit_trimmed-IsRestorable id [] w w' h = cc
  commit_trimmed-IsRestorable id (k ∷ ks) w w' h =
      commit_frame-IsRestorable id k ks w w'
        (rw ((eqb_iff _ _).1 (range_rows-frame_offsets (k ∷ ks))) at h)

  follow_plan-IsRestorable :
      (id : ℕ) (gaps : List (ℕ × Discontinuity)) (thresholds : List (ℕ × ℕ)) (r : Row)
      (rs : List Row) (w w' : World)
      → follow_plan tools upper source_id gaps thresholds (r ∷ rs) (frame_offsets (r ∷ rs)) w
        ≡ (ok (committed id), w')
      → IsRestorable id w w'
  follow_plan-IsRestorable id (g ∷ gs) ts r rs w w' h = cc
  follow_plan-IsRestorable id [] [] r rs w w' h = commit_frame-IsRestorable id r rs w w' h
  follow_plan-IsRestorable id [] (t ∷ ts) r rs w w' h =
      commit_trimmed-IsRestorable id (trim (t ∷ ts) (r ∷ rs)) w w' h

  -- When `process_batch` commits a micro-batch, the ledger has one row more, with the new batch's
  -- id, and `source_ranges` of scripts/restore_archive_batch.py accepts the offsets stored in it
  -- and returns the ranges of all its partitions.
  pub process_batch-IsRestorable :
      (id : ℕ) (r : Row) (rs : List Row) (w w' : World)
      → process_batch tools upper source_id true (r ∷ rs) w ≡ (ok (committed id), w')
      → IsRestorable id w w'
  unfolding process_batch
  process_batch-IsRestorable id r rs w w' h =
      let ps = (frame_offsets (r ∷ rs)).partitions in
      let plan = replay_plan ps (committed_offsets w (keys ps)) in
      follow_plan-IsRestorable id plan.1 plan.0 r rs w w'
        (rw ((eqb_iff _ _).1 (range_rows-frame_offsets (r ∷ rs))) at h)
