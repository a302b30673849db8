-- ===== src/Streaming/Raw/Replay.antt =====
-- A micro-batch that Spark replays after its commit (streaming/raw_job.py).
use fleet_lambda_platform.Base.{
  ℕ, ◌<◌, true, some, List, [], ◌∷◌, ◌≡◌, ◌≢◌, refl, sym, ap, ◌∙◌, arith, keep, All, In, All-of_In,
  All-In, keep_none, In-keep, length, inl, inr, Bool-cases, Option-cases, List-cases, eqb, nat_eq,
  subst,
}
use fleet_lambda_platform.Base.Dict.{lookup, keys, NodupKeys, In-lookup, lookup-All}
use fleet_lambda_platform.Base.Result.{ok, Result-cases}
use fleet_lambda_platform.Common.Archive.{build_manifest}
use fleet_lambda_platform.Streaming.Raw.{
  Tools, topic, is_valid, PipelineBatch, NextOffset, World, committed, replay_skipped,
  committed_offsets, next_batch_id, find_source, record_commit, write_objects, archive_batch,
  known_source, commit_frame, frame_offsets, commit_trimmed, follow_plan, range_rows, process_batch,
}
use fleet_lambda_platform.Streaming.Raw.Ranges.{
  Row, Details, Offsets, Discontinuity, continuity_errors, source_offsets, partition_rows,
  replay_plan, is_kept, trim,
}
use fleet_lambda_platform.Streaming.Raw.Ranges.Frames.{
  ranges-NodupKeys, range-Begins, row-within_range, sum_rows,
}
use fleet_lambda_platform.Streaming.Raw.Continuity.{
  advanced, lookup-advance_offsets, lookup-committed_offsets, lookup-elem-keys, Continues,
  continuity_errors-Continues, offsets-NonEmpty,
}
use fleet_lambda_platform.Streaming.Raw.Plan.{
  plan_threshold, plan_thresholds, plan_gaps_none, not_kept, dropped, selected_offset,
}

-- The tables have every row of the frame below its partition's next offset.
abbrev pub Reached : List Row → World → Type 0
Reached frame w =
    (r : Row)
    → In r frame
    → (n : NextOffset) × (lookup r.partition w.partition_offsets ≡ some n)
      × (r.offset < n.next_offset)

-- What `process_batch` sees of the next offset of a partition in the frame.
known_offset :
    (ps : List (ℕ × Details)) (w : World) (p : ℕ) (d : Details) (n : NextOffset)
    → lookup p ps ≡ some d
    → lookup p w.partition_offsets ≡ some n
    → lookup p (committed_offsets w (keys ps)) ≡ some n.next_offset
known_offset ps w p d n e k =
    lookup-committed_offsets p (keys ps) w.partition_offsets (lookup-elem-keys p d ps e) ∙ rw k

module _ (frame : List Row) (w : World) (reached : Reached frame w) where
  abbrev parts : List (ℕ × Details)
  parts = (source_offsets topic (partition_rows frame)).partitions

  abbrev known : List (ℕ × ℕ)
  known = committed_offsets w (keys parts)

  no_gaps : (replay_plan parts known).1 ≡ []
  no_gaps = plan_gaps_none parts known (
      All-of_In _ parts (λ e m.
        let (lt, (r, i, same, start)) = All-In _ e parts (range-Begins topic frame) m in
        let (n, k, below) = reached r i in
        let at = In-lookup e.0 e.1 parts (ranges-NodupKeys topic frame) m in
        (n.next_offset, known_offset parts w e.0 e.1 n at (rw same at k), rw start at below)))

  threshold_of :
      (r : Row)
      → In r frame
      → (n : ℕ) × In (r.partition, n) (replay_plan parts known).0 × (r.offset < n)
  threshold_of r m =
      let (d, at, lo, hi) = row-within_range topic frame r m in
      let (n, k, below) = reached r m in
      (
        n.next_offset,
        plan_threshold parts known r.partition n.next_offset d at
            (known_offset parts w r.partition d n at k) (omega arith),
        below,
      )

  all_trimmed : trim (replay_plan parts known).0 frame ≡ []
  all_trimmed = keep_none (is_kept (replay_plan parts known).0) frame (
      All-of_In _ frame
        (λ r m. let (n, i, lt) = threshold_of r m in not_kept r n (replay_plan parts known).0 i lt))

eqb_of_eq : (a b : ℕ) → a ≡ b → eqb a b ≡ true
eqb_of_eq a b h = ground arith

-- The check that the counts of the partitions add up to the rows never refuses a micro-batch.
pub range_rows-frame_offsets : (frame : List Row) → range_rows (frame_offsets frame) ≡ length frame
range_rows-frame_offsets frame = sum_rows topic frame

module _ (tools : Tools) (upper source_id : ℕ) where
  follow_plan_trimmed :
      (gaps : List (ℕ × Discontinuity)) (thresholds : List (ℕ × ℕ)) (frame : List Row) (o : Offsets)
      (w : World)
      → gaps ≡ []
      → thresholds ≢ []
      → trim thresholds frame ≡ []
      → follow_plan tools upper source_id gaps thresholds frame o w ≡ (ok replay_skipped, w)
  unfolding commit_trimmed
  follow_plan_trimmed (g ∷ gs) ts frame o w h ne e = cc
  follow_plan_trimmed [] [] frame o w h ne e = absurd (ne refl)
  follow_plan_trimmed [] (t ∷ ts) frame o w h ne e = rw e

  not-nil : (a : ℕ × ℕ) (l : List (ℕ × ℕ)) → In a l → l ≢ []
  not-nil a [] m e = absurd m
  not-nil a (x ∷ l) m e = cc

  -- A micro-batch whose rows are all below the next offsets is skipped, and nothing changes.
  pub process_batch_of_Reached :
      (r : Row) (rs : List Row) (w : World)
      → Reached (r ∷ rs) w
      → process_batch tools upper source_id true (r ∷ rs) w ≡ (ok replay_skipped, w)
  unfolding process_batch
  process_batch_of_Reached r rs w reached =
      let plan = replay_plan (parts (r ∷ rs) w reached) (known (r ∷ rs) w reached) in
      let (n, i, lt) = threshold_of (r ∷ rs) w reached r (inl refl) in
      rw (eqb_of_eq _ _ (range_rows-frame_offsets (r ∷ rs))) (
        follow_plan_trimmed plan.1 plan.0 (r ∷ rs) (frame_offsets (r ∷ rs)) w
          (no_gaps (r ∷ rs) w reached) (not-nil _ plan.0 i) (all_trimmed (r ∷ rs) w reached))

  -- What a commit has done to the next offsets.
  abbrev Advanced : ℕ → List (ℕ × Details) → World → World → Type 0
  Advanced id ps w w' =
      Continues ps w
      × ((p : ℕ)
          → lookup p w'.partition_offsets
            ≡ advanced id (lookup p ps) (lookup p w.partition_offsets))

  archive_batch-committed :
      (id id' : ℕ) (frame : List Row) (o : Offsets) (w w' : World)
      → NodupKeys o.partitions
      → archive_batch tools upper source_id id frame o w ≡ (ok (committed id'), w')
      → (p : ℕ)
      → lookup p w'.partition_offsets
        ≡ advanced id' (lookup p o.partitions) (lookup p w.partition_offsets)
  unfolding archive_batch record_commit write_objects
  archive_batch-committed id id' frame o w w' nodup h p =
      elim (Result-cases (
        build_manifest tools.num_rows tools.sha256
          (write_objects tools upper source_id id frame w).bucket id
          (length (keep (is_valid upper) frame)))) [
            | inl (m, e) ↦
                let same = rw (archive_batch, e) at h in
                let id_same : id ≡ id' = cc (same) in
                subst
                  (λ v.
                    lookup p v.partition_offsets
                    ≡ advanced id' (lookup p o.partitions) (lookup p w.partition_offsets))
                  (ap (λ x. x.1) same)
                  (rw (← id_same)
                    (lookup-advance_offsets p o.partitions id w.partition_offsets nodup))
            | inr (x, e) ↦ cc (rw (archive_batch, e) at h)
          ]

  known_source-not-committed :
      (b : PipelineBatch) (id : ℕ) (frame : List Row) (w w' : World)
      → known_source b frame w ≢ (ok (committed id), w')
  known_source-not-committed b id frame w w' h = ground arith

  commit_frame-committed :
      (id : ℕ) (frame frame' : List Row) (w w' : World)
      → commit_frame tools upper source_id frame (frame_offsets frame') w ≡ (ok (committed id), w')
      → Advanced id (frame_offsets frame').partitions w w'
  unfolding commit_frame
  commit_frame-committed id frame frame' w w' h =
      let o = frame_offsets frame' in
      elim (Option-cases (find_source (tools.offsets_digest o) w.batches)) [
        | inr (b, e) ↦
            absurd (known_source-not-committed b id frame w w' (rw (e, commit_frame) at h))
        | inl e ↦
            elim (List-cases
              (continuity_errors o.partitions (committed_offsets w (keys o.partitions)))) [
                | inr (x, xs, found) ↦ cc (rw (commit_frame, e, found) at h)
                | inl none_found ↦ (
                  continuity_errors-Continues o.partitions w none_found,
                  archive_batch-committed (next_batch_id w.batches) id frame o w w'
                      (ranges-NodupKeys topic frame') (rw (commit_frame, e, none_found) at h),
                )
              ]
      ]

  -- A row of the committed frame lies below its partition's new offset.
  Advanced-kept :
      (id : ℕ) (frame : List Row) (w w' : World)
      → Advanced id (frame_offsets frame).partitions w w'
      → Reached frame w'
  Advanced-kept id frame w w' (starts, now) r m =
      let (d, at, lo, hi) = row-within_range topic frame r m in
      (record { next_offset = d.stop; batch_id = id }, now r.partition ∙ rw at, hi)

  -- A row below its partition's old offset lies below the new one too.
  Advanced-below :
      (id : ℕ) (frame : List Row) (w w' : World) (p o : ℕ) (old : NextOffset)
      → Advanced id (frame_offsets frame).partitions w w'
      → lookup p w.partition_offsets ≡ some old
      → o < old.next_offset
      → (n : NextOffset) × (lookup p w'.partition_offsets ≡ some n) × (o < n.next_offset)
  Advanced-below id frame w w' p o old (starts, now) k lt =
      let ps = (frame_offsets frame).partitions in
      elim (Option-cases (lookup p ps)) [
        | inl e ↦ (old, now p ∙ rw e k, lt)
        | inr (d, e) ↦
            let at = starts p d old e k in
            let nonempty = lookup-All _ p d ps (offsets-NonEmpty tools upper source_id frame) e in
            (record { next_offset = d.stop; batch_id = id }, now p ∙ rw e, omega arith)
      ]

  commit_trimmed-Reached :
      (id : ℕ) (frame : List Row) (thresholds : List (ℕ × ℕ)) (w w' : World)
      → All
          (λ t.
            (n : NextOffset) × (lookup t.0 w.partition_offsets ≡ some n) × (n.next_offset ≡ t.1))
          thresholds
      → (kept : List Row) → kept ≡ trim thresholds frame
      → commit_trimmed tools upper source_id kept w ≡ (ok (committed id), w')
      → Reached frame w'
  unfolding commit_trimmed
  commit_trimmed-Reached id frame ts w w' at [] same h = cc
  commit_trimmed-Reached id frame ts w w' at (k ∷ ks) same h = λ r m.
      let adv =
        commit_frame-committed id (k ∷ ks) (k ∷ ks) w w'
          (rw (eqb_of_eq _ _ (range_rows-frame_offsets (k ∷ ks))) at h) in
      elim (Bool-cases (is_kept ts r)) [
        | inl kept ↦
            Advanced-kept id (k ∷ ks) w w' adv r
              (subst (λ l. In r l) (sym same) (In-keep (is_kept ts) r frame m kept))
        | inr out ↦
            let (n, i, lt) = dropped r ts out in
            let (old, known_old, next) = All-In _ (r.partition, n) ts at i in
            Advanced-below id (k ∷ ks) w w' r.partition r.offset old adv known_old (rw next lt)
      ]

  follow_plan-Reached :
      (id : ℕ) (gaps : List (ℕ × Discontinuity)) (thresholds : List (ℕ × ℕ)) (frame : List Row)
      (w w' : World)
      → All
          (λ t.
            (n : NextOffset) × (lookup t.0 w.partition_offsets ≡ some n) × (n.next_offset ≡ t.1))
          thresholds
      → follow_plan tools upper source_id gaps thresholds frame (frame_offsets frame) w
        ≡ (ok (committed id), w')
      → Reached frame w'
  follow_plan-Reached id (g ∷ gs) ts frame w w' at h = cc
  follow_plan-Reached id [] [] frame w w' at h =
      Advanced-kept id frame w w' (commit_frame-committed id frame frame w w' h)
  follow_plan-Reached id [] (t ∷ ts) frame w w' at h =
      commit_trimmed-Reached id frame (t ∷ ts) w w' at (trim (t ∷ ts) frame) refl h

  process_batch-Reached :
      (id : ℕ) (r : Row) (rs : List Row) (w w' : World)
      → process_batch tools upper source_id true (r ∷ rs) w ≡ (ok (committed id), w')
      → Reached (r ∷ rs) w'
  unfolding process_batch
  process_batch-Reached id r rs w w' h =
      let ps = (frame_offsets (r ∷ rs)).partitions in
      let known_now = committed_offsets w (keys ps) in
      let plan = replay_plan ps known_now in
      follow_plan-Reached id plan.1 plan.0 (r ∷ rs) w w'
        (All-of_In _ plan.0 (λ t m.
          selected_offset t.0 t.1 (keys ps) w.partition_offsets
            (All-In _ t plan.0 (plan_thresholds ps known_now) m)))
        (rw (eqb_of_eq _ _ (range_rows-frame_offsets (r ∷ rs))) at h)

-- A micro-batch that has been committed, in full or after its committed prefix was trimmed, is
-- skipped when it arrives again under any batch id and time limit, and the replay changes nothing.
pub process_batch_replayed :
    (tools : Tools) (upper source_id id : ℕ) (r : Row) (rs : List Row) (w w' : World)
    → process_batch tools upper source_id true (r ∷ rs) w ≡ (ok (committed id), w')
    → (upper' source_id' : ℕ)
    → process_batch tools upper' source_id' true (r ∷ rs) w' ≡ (ok replay_skipped, w')
process_batch_replayed tools upper source_id id r rs w w' h upper' source_id' =
    process_batch_of_Reached tools upper' source_id' r rs w'
      (process_batch-Reached tools upper source_id id r rs w w' h)
