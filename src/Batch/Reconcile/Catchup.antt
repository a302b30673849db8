-- ===== src/Batch/Reconcile/Catchup.antt =====
-- `run_available` of batch/reconcile.py: all report dates, newest first, within a budget of changed
-- dates. The dates' runs are those of Day; a run's id and lock are given by its date.
pub mod Dates
pub mod Budget
use fleet_lambda_platform.Base.{
  ℕ, zero, suc, ◌/◌, ◌&&◌, ◌+◌, ◌-◌, String, Bool, false, not, Option, none, some, List, [], ◌∷◌,
  ◌++◌, map, greatest, present, ◌==◌, if◌then◌else◌, leb, ltb, string_eq, nat_eq, arith,
}
use fleet_lambda_platform.Base.Dict.{keys}
use fleet_lambda_platform.Base.Tables.{distinct}
use fleet_lambda_platform.Base.Sort.{sort_by}
use fleet_lambda_platform.Base.Result.{Result, ok, err, value_error}
use fleet_lambda_platform.Streaming.Serving.{day_length}
use fleet_lambda_platform.Batch.Reconcile.{LedgerRow, Run, World, Tools, Outcome, published, update}
use fleet_lambda_platform.Batch.Reconcile.Day.{run_day, fail_orphan}

-- the dates from `first` up to and not with `last`
unfoldable pub days_from : ℕ → ℕ → List ℕ
days_from first zero = []
days_from first (suc n) = first ∷ days_from (suc first) n

-- the landed dates, and the days from SIM_START to the newest event
abbrev pub report_dates : ℕ → Option ℕ → List ℕ → List ℕ
report_dates first none landed = landed
report_dates first (some boundary) landed =
    landed ++ days_from first (boundary / day_length - first)

abbrev pub is_stalled : ℕ → Run → Bool
is_stalled now r = r.status == "running" && ltb (r.started_at + 1200000000) now

-- int(result is True)
abbrev pub is_change : Outcome → ℕ
is_change published = 1
is_change _ = 0

-- What the loop has done: the dates it has run with their results, and the state.
pub record Backfill : Type 0 where
  pub changed : ℕ
  pub visited : List ℕ
  pub failed : List ℕ
  pub world : World

module _ (tools : Tools) (run_id : ℕ → String) (is_locked : ℕ → Bool) (now budget : ℕ)
    (batches : List LedgerRow) where
  abbrev pub after_day : ℕ → Backfill → Result Outcome × World → Backfill
  after_day day s (ok outcome, w) = record {
    changed = s.changed + is_change outcome;
    visited = s.visited ++ (day ∷ []);
    failed = s.failed;
    world = w;
  }
  after_day day s (err e, w) = record {
    changed = s.changed;
    visited = s.visited ++ (day ∷ []);
    failed = s.failed ++ (day ∷ []);
    world = w;
  }

  -- `break` where the budget is reached; a date that raises does not reach that test
  abbrev pub is_spent : Result Outcome → ℕ → Bool
  is_spent (ok _) changed = leb budget changed
  is_spent (err _) changed = false

  unfoldable pub backfill : List ℕ → Backfill → Backfill
  unfolding run_day
  backfill [] s = s
  backfill (day ∷ days) s =
      let ran = run_day tools day now (run_id day) (is_locked day) batches s.world in
      let next = after_day day s ran in
      let rest = backfill days next in if is_spent ran.0 next.changed then next else rest

-- sorted(dates, reverse=True), of a set
abbrev newer_first : ℕ → ℕ → Bool
newer_first a b = leb b a

unfoldable pub newest_first : List ℕ → List ℕ
unfolding distinct sort_by
newest_first dates = sort_by newer_first (distinct dates)

module _ (tools : Tools) (run_id : ℕ → String) (is_locked : ℕ → Bool) (now budget sim_day : ℕ)
    (batches : List LedgerRow) where
  -- With batches, runs that have been running for over twenty minutes are closed first.
  abbrev pub recovered : World → World
  recovered w = elim batches [
    | [] ↦ w
    | b ∷ bs ↦ record w { runs = update (is_stalled now) (fail_orphan now) w.runs }
  ]

  abbrev pub dates_of : World → List ℕ
  dates_of w =
      report_dates sim_day (greatest (present (map (λ b. b.max_event_ts) batches))) (keys w.landing)

  unfoldable pub catch_up : World → Backfill
  unfolding backfill newest_first update days_from greatest
  catch_up w =
      backfill tools run_id is_locked now budget batches (newest_first (dates_of w))
        (record { changed = 0; visited = []; failed = []; world = recovered w })

  abbrev pub raise_failed : Backfill → Result (Unit {0}) × World
  raise_failed s = elim s.failed [
    | [] ↦ (ok tt, s.world)
    | f ∷ fs ↦ (err (value_error "Failed report dates"), s.world)
  ]

  unfoldable pub run_available : World → Result (Unit {0}) × World
  unfolding catch_up
  run_available w = raise_failed (catch_up w)
