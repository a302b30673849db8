-- ===== src/Streaming/Raw/Continuity.antt =====
-- The committed source ranges of each partition in the ledger of streaming/raw_job.py.
use fleet_lambda_platform.Base.{
  ℕ, ◌≤◌, ◌<◌, Bool, true, false, Option, none, some, List, [], ◌∷◌, ◌≡◌, refl, ◌∙◌, arith, map,
  keep, All, All-of_In, All-In, elem, length, inl, inr, Bool-cases, Option-cases, List-cases,
  if◌then◌else◌, eqb, nat_eq, leb, ltb, ◌&&◌,
}
use fleet_lambda_platform.Base.Dict.{lookup, insert, keys, NodupKeys, lookup-insert, lookup-All}
use fleet_lambda_platform.Base.Result.{Result, Result-cases}
use fleet_lambda_platform.Common.Archive.{Manifest, build_manifest}
use fleet_lambda_platform.Streaming.Raw.{
  Tools, topic, is_valid, PipelineBatch, NextOffset, World, Outcome, committed_offsets,
  advance_offsets, next_batch_id, find_source, record_commit, write_objects, archive_batch,
  known_source, commit_frame, counted, frame_offsets, commit_trimmed, planned, range_rows,
  process_batch,
}
use fleet_lambda_platform.Streaming.Raw.Ranges.{
  Row, Details, Offsets, continuity_errors, source_offsets, partition_rows, replay_plan, trim,
}
use fleet_lambda_platform.Streaming.Raw.Ranges.Frames.{ranges-NodupKeys, range-Begins}

abbrev range_in : ℕ → Option Offsets → Option Details
range_in p none = none
range_in p (some o) = lookup p o.partitions

abbrev push : Option Details → List Details → List Details
push none ds = ds
push (some d) ds = d ∷ ds

-- The committed ranges of a partition, the latest first.
abbrev pub ranges : ℕ → List PipelineBatch → List Details
ranges p [] = []
ranges p (b ∷ bs) = push (range_in p b.source_offsets) (ranges p bs)

-- Each range ends where the one after it begins, and the latest ends at `n`.
abbrev pub EndsAt : ℕ → List Details → Type 0
EndsAt n [] = Unit
EndsAt n (d ∷ ds) = (d.stop ≡ n) × (d.start < d.stop) × EndsAt d.start ds

abbrev pub Follows : Option NextOffset → List Details → Type 0
Follows none ds = ds ≡ []
Follows (some n) ds = EndsAt n.next_offset ds

pub record IsContinuous (w : World) : Type 0 where
  pub at : (p : ℕ) → Follows (lookup p w.partition_offsets) (ranges p w.batches)

abbrev pub advanced : ℕ → Option Details → Option NextOffset → Option NextOffset
advanced id none old = old
advanced id (some d) old = some (record { next_offset = d.stop; batch_id = id })

pub lookup-advance_offsets :
    (p : ℕ) (ps : List (ℕ × Details)) (id : ℕ) (table : List (ℕ × NextOffset))
    → NodupKeys ps
    → lookup p (advance_offsets ps id table) ≡ advanced id (lookup p ps) (lookup p table)
unfolding advance_offsets
lookup-advance_offsets p [] id table h = refl
lookup-advance_offsets p ((q, d) ∷ ps) id table h = ground (
  arith,
  lookup-advance_offsets p ps id (insert q (record { next_offset = d.stop; batch_id = id }) table)
      h.1,
  lookup-insert p q (record { next_offset = d.stop; batch_id = id }) table,
)

-- The selected offsets are those of the table, for the partitions asked for.
pub lookup-committed_offsets :
    (p : ℕ) (ps : List ℕ) (table : List (ℕ × NextOffset))
    → elem p ps ≡ true
    → lookup p (map (λ e. (e.0, e.1.next_offset)) (keep (λ e. elem e.0 ps) table))
      ≡ elim (lookup p table) [ none ↦ none | some n ↦ some n.next_offset ]
lookup-committed_offsets p ps [] h = refl
lookup-committed_offsets p ps ((q, n) ∷ table) h =
    ground (arith, lookup-committed_offsets p ps table h)

pub lookup-elem-keys :
    (p : ℕ) (d : Details) (ps : List (ℕ × Details)) → lookup p ps ≡ some d → elem p (keys ps) ≡ true
lookup-elem-keys p d [] h = cc
lookup-elem-keys p d ((q, x) ∷ ps) h = ground (arith, lookup-elem-keys p d ps)

-- No discontinuity: a known partition begins at its next offset.
no_errors :
    (ps : List (ℕ × Details)) (known : List (ℕ × ℕ))
    → continuity_errors ps known ≡ []
    → (p : ℕ) (d : Details) (n : ℕ) → lookup p ps ≡ some d
    → lookup p known ≡ some n
    → d.start ≡ n
unfolding continuity_errors
no_errors [] known h p d n e k = cc
no_errors ((q, x) ∷ ps) known h p d n e k = ground (
  arith,
  no_errors ps known,
  λ (h' : continuity_errors ps known ≡ []). no_errors ps known h' p d n,
)

-- Each range of the offsets is not empty.
abbrev pub NonEmpty : List (ℕ × Details) → Type 0
NonEmpty = All (λ e. e.1.start < e.1.stop)

-- Each known partition begins at its next offset.
abbrev pub Continues : List (ℕ × Details) → World → Type 0
Continues ps w =
    (p : ℕ) (d : Details) (n : NextOffset)
    → lookup p ps ≡ some d
    → lookup p w.partition_offsets ≡ some n
    → d.start ≡ n.next_offset

pub continuity_errors-Continues :
    (ps : List (ℕ × Details)) (w : World)
    → continuity_errors ps (committed_offsets w (keys ps)) ≡ []
    → Continues ps w
continuity_errors-Continues ps w h p d n e k =
    no_errors ps (committed_offsets w (keys ps)) h p d n.next_offset e
      (lookup-committed_offsets p (keys ps) w.partition_offsets (lookup-elem-keys p d ps e) ∙ rw k)

-- A range that starts where the partition's ranges end goes in front of them.
Follows-cons :
    (o : Option NextOffset) (d : Details) (id : ℕ) (ds : List Details)
    → ((n : NextOffset) → o ≡ some n → d.start ≡ n.next_offset)
    → d.start < d.stop
    → Follows o ds
    → Follows (some (record { next_offset = d.stop; batch_id = id })) (d ∷ ds)
Follows-cons none d id ds start lt f = (refl, lt, rw f tt)
Follows-cons (some n) d id ds start lt f = (refl, lt, rw (start n refl) f)

module _ (tools : Tools) (upper source_id : ℕ) where
  record_commit-IsContinuous :
      (id : ℕ) (frame : List Row) (o : Offsets) (m : Manifest) (w : World)
      → NodupKeys o.partitions
      → NonEmpty o.partitions
      → Continues o.partitions w
      → IsContinuous w
      → IsContinuous (record_commit tools upper source_id id frame o m w)
  unfolding record_commit
  record_commit-IsContinuous id frame o m w nodup nonempty starts c = record {
    at = λ p.
        rw (lookup-advance_offsets p o.partitions id w.partition_offsets nodup)
          (elim (Option-cases (lookup p o.partitions)) [
            | inl e ↦ rw e (c.at p)
            | inr (d, e) ↦ rw e (
                Follows-cons (lookup p w.partition_offsets) d id (ranges p w.batches)
                  (λ n k. starts p d n e k) (lookup-All _ p d o.partitions nonempty e) (c.at p))
          ]);
  }

  write_objects-IsContinuous :
      (id : ℕ) (frame : List Row) (w : World)
      → IsContinuous w
      → IsContinuous (write_objects tools upper source_id id frame w)
  unfolding write_objects
  write_objects-IsContinuous id frame w c = record { at = c.at }

  archive_batch-IsContinuous :
      (id : ℕ) (frame : List Row) (o : Offsets) (w : World)
      → NodupKeys o.partitions
      → NonEmpty o.partitions
      → Continues o.partitions w
      → IsContinuous w
      → IsContinuous (archive_batch tools upper source_id id frame o w).1
  unfolding archive_batch
  archive_batch-IsContinuous id frame o w nodup nonempty starts c =
      let w' = write_objects tools upper source_id id frame w in
      let c' = write_objects-IsContinuous id frame w c in
      elim (Result-cases (
        build_manifest tools.num_rows tools.sha256 w'.bucket id
          (length (keep (is_valid upper) frame)))) [
            | inl (m, e) ↦
                rw (e, archive_batch)
                  (record_commit-IsContinuous id frame o m w' nodup nonempty
                    (unfold write_objects in starts) c')
            | inr (x, e) ↦ rw (e, archive_batch) c'
          ]

  known_source-IsContinuous :
      (b : PipelineBatch) (frame : List Row) (w : World)
      → IsContinuous w
      → IsContinuous (known_source b frame w).1
  known_source-IsContinuous b frame w c = ground arith

  -- Below, the offsets are those of a frame.
  pub offsets-NonEmpty :
      (frame : List Row) → NonEmpty (source_offsets topic (partition_rows frame)).partitions
  offsets-NonEmpty frame =
      let ps = (source_offsets topic (partition_rows frame)).partitions in
      All-of_In _ ps (λ e m. (All-In _ e ps (range-Begins topic frame) m).0)

  commit_frame-IsContinuous :
      (frame frame' : List Row) (w : World)
      → IsContinuous w
      → IsContinuous
          (commit_frame tools upper source_id frame
            (source_offsets topic (partition_rows frame'))
            w).1
  unfolding commit_frame
  commit_frame-IsContinuous frame frame' w c =
      let o = source_offsets topic (partition_rows frame') in
      elim (Option-cases (find_source (tools.offsets_digest o) w.batches)) [
        | inr (b, e) ↦ rw (e, commit_frame) (known_source-IsContinuous b frame w c)
        | inl e ↦
            elim (List-cases
              (continuity_errors o.partitions (committed_offsets w (keys o.partitions)))) [
                | inl none_found ↦
                    rw (e, commit_frame)
                      (rw none_found (
                        archive_batch-IsContinuous (next_batch_id w.batches) frame o w
                          (ranges-NodupKeys topic frame') (offsets-NonEmpty frame')
                          (continuity_errors-Continues o.partitions w none_found) c))
                | inr (x, xs, found) ↦ rw (e, commit_frame) (rw found c)
              ]
      ]

  counted-IsContinuous :
      (frame : List Row) (o : Offsets) (next : World → Result Outcome × World) (w : World)
      → IsContinuous w
      → IsContinuous (next w).1
      → IsContinuous (counted frame o next w).1
  counted-IsContinuous frame o next w c cn = elim (Bool-cases (eqb (range_rows o) (length frame))) [
    | inl e ↦ rw e cn
    | inr e ↦ rw e c
  ]

  commit_trimmed-IsContinuous :
      (frame : List Row) (w : World)
      → IsContinuous w
      → IsContinuous (commit_trimmed tools upper source_id frame w).1
  unfolding commit_trimmed
  commit_trimmed-IsContinuous [] w c = c
  commit_trimmed-IsContinuous (r ∷ rs) w c =
      counted-IsContinuous (r ∷ rs) (frame_offsets (r ∷ rs))
        (commit_frame tools upper source_id (r ∷ rs) (frame_offsets (r ∷ rs))) w c
        (commit_frame-IsContinuous (r ∷ rs) (r ∷ rs) w c)

  planned-IsContinuous :
      (frame : List Row) (w : World)
      → IsContinuous w
      → IsContinuous
          (planned tools upper source_id frame (source_offsets topic (partition_rows frame)) w).1
  planned-IsContinuous frame w c =
      let o = source_offsets topic (partition_rows frame) in
      let plan = replay_plan o.partitions (committed_offsets w (keys o.partitions)) in
      elim (List-cases plan.1) [
        | inr (x, xs, e) ↦ rw e c
        | inl e ↦ elim (List-cases plan.0) [
          | inl t ↦ rw (e, t) (commit_frame-IsContinuous frame frame w c)
          | inr (t, ts, f) ↦ rw (e, f) (commit_trimmed-IsContinuous (trim (t ∷ ts) frame) w c)
        ]
      ]

  -- Whatever micro-batch arrives, and however the call ends, if the committed source ranges of each
  -- partition are consecutive before the call, they are so after it: none is empty, each begins
  -- where the one before it ended, and the latest ends at the partition's next offset.
  pub process_batch-IsContinuous :
      (lock_taken : Bool) (frame : List Row) (w : World)
      → IsContinuous w
      → IsContinuous (process_batch tools upper source_id lock_taken frame w).1
  unfolding process_batch
  process_batch-IsContinuous false frame w c = c
  process_batch-IsContinuous true [] w c = c
  process_batch-IsContinuous true (r ∷ rs) w c =
      counted-IsContinuous (r ∷ rs) (frame_offsets (r ∷ rs))
        (planned tools upper source_id (r ∷ rs) (frame_offsets (r ∷ rs))) w c
        (planned-IsContinuous (r ∷ rs) w c)

-- Is the offset in the range?
abbrev pub covers : ℕ → Details → Bool
covers o d = leb d.start o && ltb o d.stop

-- Where the ranges of a partition begin, if the latest ends at `n`.
abbrev pub first_offset : ℕ → List Details → ℕ
first_offset n [] = n
first_offset n (d ∷ ds) = first_offset d.start ds

first_offset-le : (n : ℕ) (ds : List Details) → EndsAt n ds → first_offset n ds ≤ n
first_offset-le n [] h = omega arith
first_offset-le n (d ∷ ds) h = omega (arith, first_offset-le d.start ds h.2)

EndsAt-count :
    (o n : ℕ) (ds : List Details)
    → EndsAt n ds
    → length (keep (covers o) ds) ≡ (if leb (first_offset n ds) o && ltb o n then 1 else 0)
EndsAt-count o n [] h = ground arith
EndsAt-count o n (d ∷ ds) h =
    ground (arith, EndsAt-count o d.start ds h.2, first_offset-le d.start ds h.2)

-- In a ledger that is continuous, an offset of a known partition lies in exactly one committed
-- range if it is not before the first of them and below the next offset, and else in none.
pub committed_once :
    (w : World) (p o : ℕ) (n : NextOffset)
    → IsContinuous w
    → lookup p w.partition_offsets ≡ some n
    → length (keep (covers o) (ranges p w.batches)) ≡ (
        if leb (first_offset n.next_offset (ranges p w.batches)) o && ltb o n.next_offset
        then 1
        else 0)
committed_once w p o n c known =
    EndsAt-count o n.next_offset (ranges p w.batches) (rw known at (c.at p))
