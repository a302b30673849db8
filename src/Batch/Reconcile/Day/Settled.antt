-- ===== src/Batch/Reconcile/Day/Settled.antt =====
-- The row of pipeline_runs that a run of batch/reconcile.py inserts, once the run is over.
use fleet_lambda_platform.Base.{
  ℕ, String, Bool, true, false, some, List, [], ◌∷◌, map, All, ◌≡◌, ◌≢◌, refl, sym, greatest,
  present, ◌∙◌, subst, inl, inr, Bool-cases, Option-cases, ◌==◌, string_eq, nat_eq,
}
use fleet_lambda_platform.Base.Dict.{lookup}
use fleet_lambda_platform.Base.Result.{Exn, Result, ok, err, Result-cases}
use fleet_lambda_platform.Common.Publication.{Bytes}
use fleet_lambda_platform.Streaming.Serving.{ConflictKey, Conflict}
use fleet_lambda_platform.Batch.Reconcile.{
  LedgerRow, Run, World, Tools, Outcome, update, with_status, raised,
}
use fleet_lambda_platform.Batch.Reconcile.Day.{
  reconcile_day, settle, started, is_current, run_inputs, run_closed_day, run_day, is_open_day,
  files_of, folder, conflicts_of, is_orphan, fail_orphan, is_recovered, supersede, close_orphans,
}
use fleet_lambda_platform.Batch.Reconcile.Day.Finished.{reconcile_day-Reconciled}

success-ne : ◌≢◌ {A = String} "success" "running"
success-ne h =
    let same : (string_eq.beq "success" "running") ≡ true =
      (string_eq.beq_iff "success" "running").1 h in
    cc (same)

module _ (run_id : String) where
  abbrev IsOther : Run → Type 0
  IsOther r = r.run_id ≢ run_id

  -- No row of the run is left running.
  abbrev pub IsOver : Run → Type 0
  IsOver r = r.run_id ≡ run_id → r.status ≢ "running"

  update-IsOther :
      (test : Run → Bool) (change : Run → Run) (runs : List Run)
      → ((r : Run) → (change r).run_id ≡ r.run_id)
      → All IsOther runs
      → All IsOther (update test change runs)
  unfolding update
  update-IsOther test change [] same h = tt
  update-IsOther test change (r ∷ runs) same (h, hs) = (
    elim (Bool-cases (test r)) [ inl p ↦ rw p (λ e. h (sym (same r) ∙ e)) | inr p ↦ rw p h ],
    update-IsOther test change runs same hs,
  )

  not_equal : (r : Run) → (r.run_id == run_id) ≡ false → r.run_id ≢ run_id
  not_equal r p e = cc (p, (string_eq.beq_iff r.run_id run_id).1 e)

  update-IsOver :
      (change : Run → Run) (runs : List Run)
      → ((r : Run) → (change r).status ≢ "running")
      → All IsOver (update (λ r. r.run_id == run_id) change runs)
  unfolding update
  update-IsOver change [] over = tt
  update-IsOver change (r ∷ runs) over = (
    elim (Bool-cases (r.run_id == run_id)) [
      | inl p ↦ rw p (λ e. over r)
      | inr p ↦ rw p (λ e. absurd (not_equal r p e))
    ],
    update-IsOver change runs over,
  )

  still-IsOver :
      (test : Run → Bool) (change : Run → Run) (runs : List Run)
      → ((r : Run) → (change r).status ≢ "running")
      → All IsOver runs
      → All IsOver (update test change runs)
  unfolding update
  still-IsOver test change [] over h = tt
  still-IsOver test change (r ∷ runs) over (h, hs) = (
    elim (Bool-cases (test r)) [ inl p ↦ rw p (λ e. over r) | inr p ↦ rw p h ],
    still-IsOver test change runs over hs,
  )

  others-IsOver : (runs : List Run) → All IsOther runs → All IsOver runs
  others-IsOver [] h = tt
  others-IsOver (r ∷ runs) (h, hs) = ((λ e. absurd (h e)), others-IsOver runs hs)

module _ (tools : Tools) (marks : (e : Exn) → tools.mark_failed e ≡ ok tt) (day now : ℕ)
    (run_id : String) where
  -- What `IsOver` says of a state.
  abbrev AllOver : Result Outcome × World → Type 0
  AllOver x = All (IsOver run_id) x.1.runs

  settled :
      (x : Result (Unit {0}) × World)
      → ((u : Unit) (v : World) → x ≡ (ok u, v) → All (IsOver run_id) v.runs)
      → AllOver (settle tools day now run_id x)
  settled (ok u, v) h = h u v refl
  settled (err e, v) h =
      rw (marks e, settle)
        (update-IsOver run_id
          (λ r. with_status "failed" r.rows_in r.rows_out (some (raised e)) (some now) r) v.runs
          (λ r e'. cc (e')))

  settle-IsOver :
      (conflicts : List (ConflictKey × Conflict)) (fingerprint : String) (batches : List LedgerRow)
      (contents : Bytes) (w : World)
      → AllOver (
          settle tools day now run_id
            (reconcile_day tools day now run_id conflicts fingerprint batches contents w))
  settle-IsOver conflicts fingerprint batches contents w =
      let x = reconcile_day tools day now run_id conflicts fingerprint batches contents w in
      settled x (λ u v e.
        let done =
          reconcile_day-Reconciled tools day now run_id conflicts fingerprint batches contents w v u
            e in
        subst (λ (s : World). All (IsOver run_id) s.runs) (sym done.exported.leaves)
          (update-IsOver run_id _ done.exported.written.runs (λ r. success-ne)))

  run_inputs-IsOver :
      (batches : List LedgerRow) (contents : Bytes) (conflicts : List (ConflictKey × Conflict))
      (fingerprint : String) (w : World)
      → All (IsOther run_id) w.runs
      → AllOver (run_inputs tools day now run_id batches contents conflicts fingerprint w)
  unfolding run_inputs
  run_inputs-IsOver batches contents conflicts fingerprint w fresh =
      elim (Bool-cases
        (is_current tools day now run_id fingerprint (lookup day w.reports) w.disk)) [
          | inl p ↦ rw p (
              others-IsOver run_id _
                (update-IsOther run_id (is_recovered day) (supersede now) w.runs (λ r. refl) fresh))
          | inr p ↦ rw p (
              settle-IsOver conflicts fingerprint batches contents
                (record w { runs = started tools day now run_id ∷ w.runs }))
        ]

  run_closed_day-IsOver :
      (batches : List LedgerRow) (w : World)
      → All (IsOther run_id) w.runs
      → AllOver (run_closed_day tools day now run_id batches w)
  unfolding run_closed_day run_inputs
  run_closed_day-IsOver batches w fresh =
      let kept = others-IsOver run_id w.runs fresh in
      elim (Bool-cases (is_open_day day (greatest (present (map (λ b. b.max_event_ts) batches))))) [
        | inl p ↦ rw p kept
        | inr p ↦ rw p (elim (Option-cases (lookup day w.landing)) [
          | inl q ↦ rw q kept
          | inr (contents, q) ↦
              rw q (elim (Result-cases (files_of (folder tools day now run_id) batches)) [
                | inr (e, r) ↦ rw r kept
                | inl (files, r) ↦ rw r (
                    run_inputs-IsOver batches contents (conflicts_of day w)
                      (tools.fingerprint contents files (conflicts_of day w)) w fresh)
              ])
        ])
      ]

  close_orphans-IsOver :
      (x : Result Outcome × World) → AllOver x → AllOver (close_orphans tools day now run_id x)
  close_orphans-IsOver (err e, w) h = h
  close_orphans-IsOver (ok o, w) h =
      still-IsOver run_id (is_orphan now day) (fail_orphan now) w.runs (λ r e. cc (e)) h

  -- Where the except clause's own UPDATE does not raise, a run with a new id leaves no row of its own
  -- in pipeline_runs with the status 'running', whatever it answers or raises.
  pub run_day-IsOver :
      (is_locked : Bool) (batches : List LedgerRow) (w : World)
      → All (λ r. r.run_id ≢ run_id) w.runs
      → All (IsOver run_id) (run_day tools day now run_id is_locked batches w).1.runs
  unfolding run_day
  run_day-IsOver true batches w fresh = others-IsOver run_id w.runs fresh
  run_day-IsOver false batches w fresh =
      close_orphans-IsOver (run_closed_day tools day now run_id batches w)
        (run_closed_day-IsOver batches w fresh)
