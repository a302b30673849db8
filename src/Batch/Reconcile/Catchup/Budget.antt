-- ===== src/Batch/Reconcile/Catchup/Budget.antt =====
-- The dates that `run_available` of batch/reconcile.py runs, and when it raises.
use fleet_lambda_platform.Base.{
  ℕ, ◌+◌, ◌≤◌, ◌<◌, String, Bool, true, false, List, [], ◌∷◌, ◌++◌, ◌≡◌, ◌⊎◌, ◌↔◌, In, refl, sym,
  ap, ◌∙◌, inl, inr, arith, Bool-cases, append-nil, append_assoc,
}
use fleet_lambda_platform.Base.Result.{Result, ok, err}
use fleet_lambda_platform.Base.Descending.{Descending}
use fleet_lambda_platform.Batch.Reconcile.{LedgerRow, World, Tools, Outcome}
use fleet_lambda_platform.Batch.Reconcile.Day.{run_day}
use fleet_lambda_platform.Batch.Reconcile.Catchup.Dates.{
  IsReportDate, newest_first-Descending, newest_first-In, dates_of-IsReportDate,
}
use fleet_lambda_platform.Batch.Reconcile.Catchup.{
  Backfill, is_change, after_day, is_spent, backfill, newest_first, dates_of, catch_up,
}

module _ (tools : Tools) (run_id : ℕ → String) (is_locked : ℕ → Bool) (now budget : ℕ)
    (batches : List LedgerRow) where
  -- The dates were run in their order: all of them, or up to the budget, which is not exceeded.
  abbrev pub WithinBudget : List ℕ → Backfill → Type 0
  WithinBudget dates s =
      (s.changed ≤ budget)
      × ((s.visited ≡ dates)
          ⊎ ((s.changed ≡ budget) × ((rest : List ℕ) × (s.visited ++ rest ≡ dates))))

  is_change-le : (o : Outcome) → is_change o ≤ 1
  is_change-le o = ground arith

  after_day-visited :
      (day : ℕ) (s : Backfill) (x : Result Outcome × World)
      → (after_day tools run_id is_locked now budget batches day s x).visited
        ≡ s.visited ++ (day ∷ [])
  after_day-visited day s (ok o, w) = refl
  after_day-visited day s (err e, w) = refl

  after_day-changed :
      (day : ℕ) (s : Backfill) (x : Result Outcome × World)
      → (after_day tools run_id is_locked now budget batches day s x).changed ≤ s.changed + 1
  after_day-changed day s (ok o, w) = omega (arith, is_change-le o)
  after_day-changed day s (err e, w) = omega arith

  spent-changed :
      (day : ℕ) (s : Backfill) (x : Result Outcome × World)
      → is_spent tools run_id is_locked now budget batches x.0
          (after_day tools run_id is_locked now budget batches day s x).changed
        ≡ true
      → budget ≤ (after_day tools run_id is_locked now budget batches day s x).changed
  spent-changed day s (ok o, w) h = ground arith
  spent-changed day s (err e, w) h = cc

  unspent-changed :
      (day : ℕ) (s : Backfill) (x : Result Outcome × World)
      → s.changed < budget
      → is_spent tools run_id is_locked now budget batches x.0
          (after_day tools run_id is_locked now budget batches day s x).changed
        ≡ false
      → (after_day tools run_id is_locked now budget batches day s x).changed < budget
  unspent-changed day s (ok o, w) lt h = ground arith
  unspent-changed day s (err e, w) lt h = lt

  backfill-WithinBudget :
      (days dates : List ℕ) (s : Backfill)
      → s.changed < budget
      → s.visited ++ days ≡ dates
      → WithinBudget dates (backfill tools run_id is_locked now budget batches days s)
  unfolding backfill
  backfill-WithinBudget [] dates s lt h = (omega arith, inl (sym (append-nil s.visited) ∙ h))
  backfill-WithinBudget (day ∷ days) dates s lt h =
      let ran = run_day tools day now (run_id day) (is_locked day) batches s.world in
      let next = after_day tools run_id is_locked now budget batches day s ran in
      let split : next.visited ++ days ≡ dates =
        ap (λ v. v ++ days) (after_day-visited day s ran)
        ∙ (append_assoc s.visited (day ∷ []) days ∙ h) in
      elim (Bool-cases (is_spent tools run_id is_locked now budget batches ran.0 next.changed)) [
        | inl p ↦
            let most = after_day-changed day s ran in
            let least = spent-changed day s ran p in
            rw p (omega (arith, most), inr (omega (arith, most, least), (days, split)))
        | inr p ↦
            rw p (backfill-WithinBudget days dates next (unspent-changed day s ran lt p) split)
      ]

-- With a budget of at least one, `run_available` runs dates newest first, whichever of them raise. The
-- dates are those of the landed files and the days from the first simulated one that ended by the
-- newest event that a batch of the ledger records, each once. All of them run, or as many as it takes
-- for the changed dates to reach the budget, which they never exceed.
pub catch_up-WithinBudget :
    (tools : Tools) (run_id : ℕ → String) (is_locked : ℕ → Bool) (now budget sim_day : ℕ)
    (batches : List LedgerRow) (w : World)
    → 1 ≤ budget
    → (dates : List ℕ) × Descending dates
      × ((day : ℕ) → In day dates ↔ IsReportDate sim_day batches w day)
      × WithinBudget tools run_id is_locked now budget batches dates
          (catch_up tools run_id is_locked now budget sim_day batches w)
unfolding catch_up
catch_up-WithinBudget tools run_id is_locked now budget sim_day batches w h =
    let all_dates = dates_of tools run_id is_locked now budget sim_day batches w in
    let dates = newest_first all_dates in
    (
      dates,
      newest_first-Descending all_dates,
      λ day.
          let sorted = newest_first-In all_dates day in
          let dated =
            dates_of-IsReportDate tools run_id is_locked now budget sim_day batches w day in
          (λ m. dated.0 (sorted.0 m), λ r. sorted.1 (dated.1 r)),
      backfill-WithinBudget tools run_id is_locked now budget batches dates dates _ (omega arith)
          refl,
    )
