-- ===== src/Streaming/Serving/Merge/Corrected.antt =====
-- The windows that `merge_staged` of streaming/staged_sink.py corrects, and what later calls of
-- `metrics_partition` do to them.
use fleet_lambda_platform.Base.{
  ℕ, String, Bool, true, false, not, Option, some, List, [], ◌∷◌, keep, In, ◌≡◌, refl, ◌∙◌, subst,
  inl, inr, Bool-cases, ◌==◌, string_eq, nat_eq, pair_eq,
}
use fleet_lambda_platform.Base.Dict.{lookup, insert, lookup-insert_self, lookup-insert_ne}
use fleet_lambda_platform.Base.Result.{ok}
use fleet_lambda_platform.Streaming.Serving.{Serving, MetricEvent, ZoneMetric}
use fleet_lambda_platform.Streaming.Serving.Conflicts.{of_run}
use fleet_lambda_platform.Streaming.Serving.Windows.{
  recount, correct_windows, affected_windows, WindowRow, metrics_partition, upsert_window,
  may_overwrite,
}
use fleet_lambda_platform.Streaming.Serving.Merge.{merge_staged, commit, is_stale}
use fleet_lambda_platform.Streaming.Serving.Merge.Recounted.{
  IsAffected, affected_windows-In, IsTotal, recount-IsTotal,
}
use fleet_lambda_platform.Streaming.Serving.Merge.Outcome.{ids, bad, merge_rows-ok}

module _ (w : ℕ × String) (events : List (String × MetricEvent)) where
  corrected_kept :
      (windows : List (ℕ × String)) (metrics : List ((ℕ × String) × ZoneMetric))
      → lookup w metrics ≡ some (recount events w)
      → lookup w (correct_windows windows events metrics) ≡ some (recount events w)
  unfolding correct_windows
  corrected_kept [] metrics h = h
  corrected_kept (v ∷ windows) metrics h =
      corrected_kept windows (insert v (recount events v) metrics) (elim (Bool-cases (w == v)) [
        | inl p ↦ rw ((pair_eq.beq_iff w v).0 p) (lookup-insert_self v (recount events v) metrics)
        | inr q ↦
            lookup-insert_ne w v (recount events v) metrics
              (λ same. cc (q, (pair_eq.beq_iff w v).1 same))
            ∙ h
      ])

  pub lookup-correct_windows :
      (windows : List (ℕ × String)) (metrics : List ((ℕ × String) × ZoneMetric))
      → In w windows
      → lookup w (correct_windows windows events metrics) ≡ some (recount events w)
  unfolding correct_windows
  lookup-correct_windows [] metrics m = absurd m
  lookup-correct_windows (v ∷ windows) metrics (inl same) =
      corrected_kept windows (insert v (recount events v) metrics)
        (rw same (lookup-insert_self v (recount events v) metrics))
  lookup-correct_windows (v ∷ windows) metrics (inr m) =
      lookup-correct_windows windows (insert v (recount events v) metrics) m

module _ (w : ℕ × String) (m : ZoneMetric) (final : m.authoritative_corrected ≡ true) where
  no_overwrite : (o : Option ZoneMetric) → o ≡ some m → may_overwrite o ≡ false
  no_overwrite o h = rw (h, final) refl

  upsert_window_kept :
      (r : WindowRow) (metrics : List ((ℕ × String) × ZoneMetric))
      → lookup w metrics ≡ some m
      → lookup w (upsert_window r metrics) ≡ some m
  upsert_window_kept r metrics h = elim (Bool-cases (w == r.window)) [
    | inl p ↦
        let here : lookup r.window metrics ≡ some m = rw (← (pair_eq.beq_iff w r.window).0 p) h in
        rw (no_overwrite (lookup r.window metrics) here) h
    | inr q ↦ elim (Bool-cases (may_overwrite (lookup r.window metrics))) [
      | inl p ↦ rw p (
          lookup-insert_ne w r.window _ metrics
            (λ same. cc (q, (pair_eq.beq_iff w r.window).1 same))
          ∙ h)
      | inr k ↦ rw k h
    ]
  ]

  pub metrics_partition_kept :
      (rows : List WindowRow) (metrics : List ((ℕ × String) × ZoneMetric))
      → lookup w metrics ≡ some m
      → lookup w (metrics_partition rows metrics) ≡ some m
  unfolding metrics_partition
  metrics_partition_kept [] metrics h = h
  metrics_partition_kept (r ∷ rows) metrics h =
      metrics_partition_kept rows (upsert_window r metrics) (upsert_window_kept r metrics h)

-- After a merge that commits, each window of a metric event or of a staged row whose event is in
-- conflict or whose trip is bad has a row that holds the window's totals over the metric events that
-- the merge leaves: vehicles count once each, and trips and earnings are of completed trips only. The
-- row still holds them whatever windows Spark's later partitions bring.
pub metrics_partition-merge_staged :
    (after : String → String → Bool) (minutes batch_id now n : ℕ) (run_id : String)
    (db db' : Serving) (w : ℕ × String) (later : List WindowRow)
    → merge_staged after minutes run_id batch_id now db ≡ ok (n, db')
    → (let rows = of_run run_id (keep (λ s. not (is_stale now s)) db.stage) in
        IsAffected (ids rows db) (bad rows db) rows db.metric_events w)
    → (m : ZoneMetric) × (lookup w (metrics_partition later db'.metrics) ≡ some m)
      × IsTotal db'.metric_events w m
unfolding merge_staged commit recount
metrics_partition-merge_staged after minutes batch_id now n run_id db db' w later h affected =
    let stage = keep (λ s. not (is_stale now s)) db.stage in
    let rows = of_run run_id stage in
    let (completed, done, same) =
      merge_rows-ok rows db after minutes run_id batch_id n stage db' h in
    let windows = affected_windows (ids rows db) (bad rows db) rows db.metric_events in
    let there = affected_windows-In (ids rows db) (bad rows db) rows db.metric_events w affected in
    (
      recount db'.metric_events w,
      metrics_partition_kept w (recount db'.metric_events w) refl later db'.metrics (
          subst (λ d. lookup w d.metrics ≡ some (recount d.metric_events w)) same
            (lookup-correct_windows w _ windows db.metrics there)),
      recount-IsTotal db'.metric_events w,
    )
