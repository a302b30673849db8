-- ===== src/Batch/Reconcile/Day/Failed.antt =====
-- A run of batch/reconcile.py that raises: what it leaves of the day's publication, and of its own
-- row in pipeline_runs.
use fleet_lambda_platform.Base.{
  ℕ, String, Bool, true, false, some, List, ◌∷◌, map, ◌≡◌, ◌⊎◌, refl, sym, greatest, present, ap,
  ◌∙◌, subst, inl, inr, Bool-cases, Option-cases, string_eq, nat_eq, length,
}
use fleet_lambda_platform.Base.Dict.{lookup, lookup-insert_self}
use fleet_lambda_platform.Base.Result.{Result, Exn, ok, err, ◌>>=◌, Result-cases}
use fleet_lambda_platform.Common.Archive.{verified_paths}
use fleet_lambda_platform.Common.Publication.{
  Bytes, ExportManifest, report_formats, build_export_manifest,
}
use fleet_lambda_platform.Common.Domain.{Expense}
use fleet_lambda_platform.Streaming.Serving.{ConflictKey, Conflict}
use fleet_lambda_platform.Batch.Reconcile.{
  LedgerRow, ReportStatus, World, Output, Tools, Outcome, CsvRow,
}
use fleet_lambda_platform.Batch.Reconcile.Day.{
  target, write_exports, finish, seal, export, store_day, check_rows, overridden, aggregate_day,
  check_day, parse_day, reconcile_day, settle, started, is_current, run_inputs, run_closed_day,
  run_day, is_open_day, files_of, folder, conflicts_of, blocked_events, blocked_trips,
  close_orphans,
}
use fleet_lambda_platform.Batch.Reconcile.Day.Finished.{
  >>>-err, Untouched, write_exports-Untouched, check_rows-Untouched,
}

Untouched-self : (w : World) → Untouched w w
Untouched-self w = record { same_landing = refl; same_conflicts = refl; same_reports = refl }

Untouched-trans : (u v w : World) → Untouched u v → Untouched v w → Untouched u w
Untouched-trans u v w a b = record {
  same_landing = b.same_landing ∙ a.same_landing;
  same_conflicts = b.same_conflicts ∙ a.same_conflicts;
  same_reports = b.same_reports ∙ a.same_reports;
}

module _ (tools : Tools) (day now : ℕ) (run_id : String) where
  finish-raised :
      (n : ℕ) (output : Output) (m : ExportManifest) (w w' : World) (e : Exn)
      → finish tools day now run_id n output m w ≡ (err e, w')
      → Untouched w w'
  unfolding finish
  finish-raised n output m w w' e h = elim (Result-cases (tools.render "json" day run_id output)) [
    | inl (payload, p) ↦ cc (rw (p, finish) at h)
    | inr (e', p) ↦
        subst (λ v. Untouched w v) (ap (λ q. q.1) (rw (p, finish) at h)) (Untouched-self w)
  ]

  seal-raised :
      (n : ℕ) (output : Output) (w w' : World) (e : Exn)
      → seal tools day now run_id n output w ≡ (err e, w')
      → Untouched w w'
  unfolding seal
  seal-raised n output w w' e h =
      elim (Result-cases (
        build_export_manifest tools.sha256 w.disk (map (target tools day now run_id) report_formats)
          tools.report_dir)) [
            | inl (m, p) ↦ finish-raised n output m w w' e (rw (p, seal) at h)
            | inr (e', p) ↦
                subst (λ v. Untouched w v) (ap (λ q. q.1) (rw (p, seal) at h)) (Untouched-self w)
          ]

  -- An export that raises has not touched the reports.
  export-raised :
      (n : ℕ) (output : Output) (w w' : World) (e : Exn)
      → export tools day now run_id n output w ≡ (err e, w')
      → Untouched w w'
  unfolding export
  export-raised n output w w' e h =
      elim (>>>-err (write_exports tools day now run_id output report_formats w)
        (λ _ v. seal tools day now run_id n output v) h) [
          | inl p ↦
              write_exports-Untouched tools day now run_id output report_formats w w' (err e) p
          | inr (u, v, p, q) ↦
              Untouched-trans w v w'
                (write_exports-Untouched tools day now run_id output report_formats w v (ok u) p)
                (seal-raised n output v w' e q)
        ]

  -- The day's row is what it was, or it is not published.
  abbrev pub Unpublished : World → World → Type 0
  Unpublished w w' =
      (lookup day w'.reports ≡ lookup day w.reports)
      ⊎ ((r : ReportStatus) × (lookup day w'.reports ≡ some r) × (r.export_status ≡ "pending"))

  Unpublished-before : (u v w : World) → Untouched u v → Unpublished v w → Unpublished u w
  Unpublished-before u v w a (inl p) = inl (p ∙ ap (lookup day) a.same_reports)
  Unpublished-before u v w a (inr p) = inr p

  module _ (conflicts : List (ConflictKey × Conflict)) (fingerprint : String) where
    aggregate_day-raised :
        (n : ℕ) (paths : List (ℕ × List String)) (valid : List Expense) (w w' : World) (e : Exn)
        → aggregate_day tools day now run_id conflicts fingerprint n paths valid w ≡ (err e, w')
        → Unpublished w w'
    unfolding aggregate_day store_day
    aggregate_day-raised n paths valid w w' e h =
        elim (Result-cases (
          tools.aggregate paths valid day (blocked_events conflicts) (blocked_trips conflicts)
          >>= overridden tools day now run_id conflicts)) [
            | inr (e', p) ↦
                inl (ap (λ q. lookup day q.1.reports) (sym (rw (p, aggregate_day) at h)))
            | inl (output, p) ↦
                let stored = store_day tools day now run_id fingerprint output w in
                let same = export-raised n output stored w' e (rw (p, aggregate_day) at h) in
                inr
                  (_, ap (lookup day) same.same_reports ∙ lookup-insert_self day _ w.reports, refl)
          ]

    check_day-raised :
        (paths : List (ℕ × List String)) (rows : List CsvRow) (w w' : World) (e : Exn)
        → check_day tools day now run_id conflicts fingerprint paths rows w ≡ (err e, w')
        → Unpublished w w'
    unfolding check_day
    check_day-raised paths rows w w' e h =
        elim (>>>-err (check_rows tools day now run_id rows w)
          (λ valid v.
            aggregate_day tools day now run_id conflicts fingerprint (length rows) paths valid v)
          h) [
            | inl p ↦ inl (
                ap (lookup day)
                  (check_rows-Untouched tools day now run_id rows w w' (err e) p).same_reports)
            | inr (valid, v, p, q) ↦
                Unpublished-before w v w'
                  (check_rows-Untouched tools day now run_id rows w v (ok valid) p)
                  (aggregate_day-raised (length rows) paths valid v w' e q)
          ]

    reconcile_day-raised :
        (batches : List LedgerRow) (contents : Bytes) (w w' : World) (e : Exn)
        → reconcile_day tools day now run_id conflicts fingerprint batches contents w ≡ (err e, w')
        → Unpublished w w'
    unfolding reconcile_day parse_day
    reconcile_day-raised batches contents w w' e h =
        elim (Result-cases (
          verified_paths tools.sha256 w.bucket (map (λ (b : LedgerRow). b.batch) batches)
            (folder tools day now run_id))) [
              | inr (e', p) ↦
                  inl (ap (λ q. lookup day q.1.reports) (sym (rw (p, reconcile_day) at h)))
              | inl (paths, p) ↦
                  let h1 : parse_day tools day now run_id conflicts fingerprint contents paths w
                      ≡ (err e, w') =
                    rw (p, reconcile_day) at h in
                  elim (Result-cases (tools.parse contents)) [
                    | inr (e', q) ↦
                        inl (ap (λ x. lookup day x.1.reports) (sym (rw (q, parse_day) at h1)))
                    | inl (rows, q) ↦ check_day-raised paths rows w w' e (rw (q, parse_day) at h1)
                  ]
            ]

    settle-raised :
        (x : Result (Unit {0}) × World) (w' : World) (e : Exn)
        → settle tools day now run_id x ≡ (err e, w')
        → (v : World) × (x' : Exn) × (x ≡ (err x', v)) × (w'.reports ≡ v.reports)
    settle-raised (ok u, v) w' e h = cc (h)
    settle-raised (err e', v) w' e h = elim (Result-cases (tools.mark_failed e')) [
      | inl (u, p) ↦ (v, e', refl, sym (ap (λ q. q.1.reports) (rw (p, settle) at h)))
      | inr (x', p) ↦ (v, e', refl, sym (ap (λ q. q.1.reports) (rw (p, settle) at h)))
    ]

    run_inputs-raised :
        (batches : List LedgerRow) (contents : Bytes) (w w' : World) (e : Exn)
        → run_inputs tools day now run_id batches contents conflicts fingerprint w ≡ (err e, w')
        → Unpublished w w'
    unfolding run_inputs
    run_inputs-raised batches contents w w' e h =
        elim (Bool-cases
          (is_current tools day now run_id fingerprint (lookup day w.reports) w.disk)) [
            | inl p ↦ cc (rw (p, run_inputs) at h)
            | inr p ↦
                let w1 = record w { runs = started tools day now run_id ∷ w.runs } in
                let x =
                  reconcile_day tools day now run_id conflicts fingerprint batches contents w1 in
                let (v, e', q, same) = settle-raised x w' e (rw (p, run_inputs) at h) in
                elim (reconcile_day-raised batches contents w1 v e' q) [
                  | inl kept ↦ inl (ap (lookup day) same ∙ kept)
                  | inr (r, there, pending) ↦ inr (r, ap (lookup day) same ∙ there, pending)
                ]
          ]

  run_closed_day-raised :
      (batches : List LedgerRow) (w w' : World) (e : Exn)
      → run_closed_day tools day now run_id batches w ≡ (err e, w')
      → Unpublished w w'
  unfolding run_closed_day
  run_closed_day-raised batches w w' e h =
      elim (Bool-cases (is_open_day day (greatest (present (map (λ b. b.max_event_ts) batches))))) [
        | inl p ↦ cc (rw (p, run_closed_day) at h)
        | inr p ↦ elim (Option-cases (lookup day w.landing)) [
          | inl q ↦ inl (ap (λ x. lookup day x.1.reports) (sym (rw (p, q, run_closed_day) at h)))
          | inr (contents, q) ↦
              elim (Result-cases (files_of (folder tools day now run_id) batches)) [
                | inr (e', r) ↦
                    inl (ap (λ x. lookup day x.1.reports) (sym (rw (p, q, r, run_closed_day) at h)))
                | inl (files, r) ↦
                    run_inputs-raised (conflicts_of day w)
                      (tools.fingerprint contents files (conflicts_of day w)) batches contents w w'
                      e (rw (p, q, r, run_closed_day) at h)
              ]
        ]
      ]

  close_orphans-raised :
      (x : Result Outcome × World) (w' : World) (e : Exn)
      → close_orphans tools day now run_id x ≡ (err e, w')
      → x ≡ (err e, w')
  close_orphans-raised (ok o, v) w' e h = cc (h)
  close_orphans-raised (err e', v) w' e h = h

  -- A run that raises publishes nothing: afterwards the day's row of daily_report_status is the one
  -- it was before, or its export is pending.
  pub run_day-Unpublished :
      (is_locked : Bool) (batches : List LedgerRow) (w w' : World) (e : Exn)
      → run_day tools day now run_id is_locked batches w ≡ (err e, w')
      → Unpublished w w'
  unfolding run_day
  run_day-Unpublished true batches w w' e h = cc (h)
  run_day-Unpublished false batches w w' e h =
      run_closed_day-raised batches w w' e
        (close_orphans-raised (run_closed_day tools day now run_id batches w) w' e h)
