-- ===== src/Batch/Reconcile/Day/Finished.antt =====
-- What a run of batch/reconcile.py leaves in pipeline_runs, daily_report_status and the report
-- directory, when it publishes and when it raises.
use fleet_lambda_platform.Base.{
  ℕ, String, true, List, [], ◌∷◌, map, length, ◌≡◌, ◌≢◌, ◌⊎◌, refl, sym, ap, ◌∙◌, subst, inl, inr,
  Bool-cases, eq-ne, eqb, string_eq, nat_eq,
}
use fleet_lambda_platform.Base.Result.{Result, Exn, ok, err, ◌>>=◌, Result-cases}
use fleet_lambda_platform.Common.Archive.{verified_paths}
use fleet_lambda_platform.Common.Publication.{
  Bytes, Disk, ExportManifest, report_formats, build_export_manifest,
}
use fleet_lambda_platform.Common.Publication.Roundtrip.{IsReportPath}
use fleet_lambda_platform.Streaming.Serving.{ConflictKey, Conflict}
use fleet_lambda_platform.Common.Domain.{Expense}
use fleet_lambda_platform.Batch.Reconcile.{LedgerRow, World, Output, Tools, CsvRow}
use fleet_lambda_platform.Batch.Reconcile.Day.{
  ◌>>>◌, target, write_export, write_exports, export, store_day, check_rows, overridden, finish,
  finished, seal, aggregate_day, check_day, parse_day, reconcile_day, folder, blocked_events,
  blocked_trips, is_too_bad,
}
use Prim.Native.String.{◌++◌ as join_texts}
use text.Mathlib.Text.{starts_with}
use text.Mathlib.TextPositions.{starts_with-append}

module _ {A B : Type 0} where
  -- A chain that did not raise, and one that did.
  pub >>>-ok :
      (call : Result A × World) (next : A → World → Result B × World) {b : B} {w' : World}
      → call >>> next ≡ (ok b, w')
      → (a : A) × (v : World) × (call ≡ (ok a, v)) × (next a v ≡ (ok b, w'))
  >>>-ok (err e, w) next h = cc
  >>>-ok (ok a, w) next h = (a, w, refl, h)

  pub >>>-err :
      (call : Result A × World) (next : A → World → Result B × World) {e : Exn} {w' : World}
      → call >>> next ≡ (err e, w')
      → (call ≡ (err e, w'))
        ⊎ ((a : A) × (v : World) × (call ≡ (ok a, v)) × (next a v ≡ (err e, w')))
  >>>-err (err e, w) next h = inl cc
  >>>-err (ok a, w) next h = inr (a, w, refl, h)

-- The tables of the inputs and of the reports are as they were.
pub record Untouched (w w' : World) : Type 0 where
  pub same_landing : w'.landing ≡ w.landing
  pub same_conflicts : w'.conflicts ≡ w.conflicts
  pub same_reports : w'.reports ≡ w.reports

module _ (tools : Tools) (day now : ℕ) (run_id : String) where
  pub write_exports-Untouched :
      (output : Output) (formats : List String) (w w' : World) (r : Result (Unit {0}))
      → write_exports tools day now run_id output formats w ≡ (r, w')
      → Untouched w w'
  unfolding write_exports
  write_exports-Untouched output [] w w' r h =
      subst (λ v. Untouched w v) (ap (λ p. p.1) h)
        (record { same_landing = refl; same_conflicts = refl; same_reports = refl })
  write_exports-Untouched output (f ∷ formats) w w' r h =
      elim (Result-cases (write_export tools day now run_id output f w.disk)) [
        | inr (e, raised_there) ↦
            subst (λ v. Untouched w v) (ap (λ p. p.1) (rw (raised_there, write_exports) at h))
              (record { same_landing = refl; same_conflicts = refl; same_reports = refl })
        | inl (disk, done) ↦
            let rest =
              write_exports-Untouched output formats (record w { disk = disk }) w' r
                (rw (done, write_exports) at h) in
            record {
              same_landing = rest.same_landing;
              same_conflicts = rest.same_conflicts;
              same_reports = rest.same_reports;
            }
      ]

  -- The name of an export is no step up.
  name-ne : (rest : String) → ".." ≢ join_texts "profitability_" rest
  name-ne rest h =
      let prefixed = starts_with-append "profitability_" rest in
      let bad : starts_with ".." "profitability_" ≡ true =
        subst (λ n. starts_with n "profitability_" ≡ true) (sym h) prefixed in
      cc (bad)

  pub target-IsReportPath :
      (disk : Disk) (format : String)
      → IsReportPath tools.sha256 disk tools.report_dir (target tools day now run_id format)
  target-IsReportPath disk format =
      let rest = join_texts (tools.isoformat day) (join_texts "." format) in
      record {
        below = join_texts "profitability_" rest ∷ [];
        is_below = refl;
        is_nonempty = λ h. cc;
        no_parent = rw (eq-ne ".." (join_texts "profitability_" rest) (name-ne rest)) refl;
      }

  -- What an `export` that does not raise has done: the manifest is built on the files it has written,
  -- and the day's row becomes published if it is of this run.
  pub record Exported (rows_in : ℕ) (output : Output) (w w' : World) : Type 0 where
    pub manifest : ExportManifest
    pub payload : Bytes
    pub written : World
    pub untouched : Untouched w written
    pub built :
        build_export_manifest tools.sha256 written.disk
          (map (target tools day now run_id) report_formats)
          tools.report_dir
        ≡ ok manifest
    pub leaves : w' ≡ finished tools day now run_id rows_in output manifest payload written

  finish-finished :
      (rows_in : ℕ) (output : Output) (m : ExportManifest) (w w' : World) (u : Unit)
      → finish tools day now run_id rows_in output m w ≡ (ok u, w')
      → (payload : Bytes) × (w' ≡ finished tools day now run_id rows_in output m payload w)
  unfolding finish
  finish-finished rows_in output m w w' u h =
      elim (Result-cases (tools.render "json" day run_id output)) [
        | inl (payload, p) ↦ (payload, sym (ap (λ q. q.1) (rw (p, finish) at h)))
        | inr (e, p) ↦ cc (rw (p, finish) at h)
      ]

  pub export-Exported :
      (rows_in : ℕ) (output : Output) (w w' : World) (u : Unit)
      → export tools day now run_id rows_in output w ≡ (ok u, w')
      → Exported rows_in output w w'
  unfolding export seal
  export-Exported rows_in output w w' u h =
      let (_, written, wrote, h1) =
        >>>-ok (write_exports tools day now run_id output report_formats w)
          (λ _ v. seal tools day now run_id rows_in output v) h in
      elim (Result-cases (
        build_export_manifest tools.sha256 written.disk
          (map (target tools day now run_id) report_formats) tools.report_dir)) [
            | inr (e, p) ↦ cc (rw (p, seal) at h1)
            | inl (m, p) ↦
                let h2 : finish tools day now run_id rows_in output m written ≡ (ok u, w') =
                  rw (p, seal) at h1 in
                let (payload, same) = finish-finished rows_in output m written w' u h2 in
                record {
                  manifest = m;
                  payload = payload;
                  written = written;
                  untouched = write_exports-Untouched output report_formats w written (ok tt) wrote;
                  built = p;
                  leaves = same;
                }
          ]

  -- The rows of a day whose validation passes leave the reports as they were.
  pub check_rows-Untouched :
      (rows : List CsvRow) (w w' : World) (r : Result (List Expense))
      → check_rows tools day now run_id rows w ≡ (r, w')
      → Untouched w w'
  unfolding check_rows
  check_rows-Untouched rows w w' r h = elim (Bool-cases (eqb (length rows) 0)) [
    | inl p ↦
        subst (λ v. Untouched w v) (ap (λ q. q.1) (rw (p, check_rows) at h))
          (record { same_landing = refl; same_conflicts = refl; same_reports = refl })
    | inr p ↦
        elim (Bool-cases
          (is_too_bad tools day now run_id (length (tools.validate rows day).1) (length rows))) [
            | inl q ↦
                subst (λ v. Untouched w v) (ap (λ x. x.1) (rw (p, q, check_rows) at h))
                  (record { same_landing = refl; same_conflicts = refl; same_reports = refl })
            | inr q ↦
                subst (λ v. Untouched w v) (ap (λ x. x.1) (rw (p, q, check_rows) at h))
                  (record { same_landing = refl; same_conflicts = refl; same_reports = refl })
          ]
  ]

  module _ (conflicts : List (ConflictKey × Conflict)) (fingerprint : String) where
    -- What a day that does not raise has done: its output was stored and exported.
    pub record Reconciled (w w' : World) : Type 0 where
      pub total : ℕ
      pub output : Output
      pub checked : World
      pub untouched : Untouched w checked
      pub exported :
          Exported total output (store_day tools day now run_id fingerprint output checked) w'

    aggregate_day-Reconciled :
        (total : ℕ) (paths : List (ℕ × List String)) (valid : List Expense) (w v w' : World)
        (u : Unit)
        → Untouched w v
        → aggregate_day tools day now run_id conflicts fingerprint total paths valid v ≡ (ok u, w')
        → Reconciled w w'
    unfolding aggregate_day
    aggregate_day-Reconciled total paths valid w v w' u same h =
        elim (Result-cases (
          tools.aggregate paths valid day (blocked_events conflicts) (blocked_trips conflicts)
          >>= overridden tools day now run_id conflicts)) [
            | inr (e, p) ↦ cc (rw (p, aggregate_day) at h)
            | inl (output, p) ↦
                let h1 = rw (p, aggregate_day) at h in
                record {
                  total = total;
                  output = output;
                  checked = v;
                  untouched = same;
                  exported =
                      export-Exported total output
                        (store_day tools day now run_id fingerprint output v) w' u h1;
                }
          ]

    pub reconcile_day-Reconciled :
        (batches : List LedgerRow) (contents : Bytes) (w w' : World) (u : Unit)
        → reconcile_day tools day now run_id conflicts fingerprint batches contents w ≡ (ok u, w')
        → Reconciled w w'
    unfolding reconcile_day parse_day check_day
    reconcile_day-Reconciled batches contents w w' u h =
        let (paths, w1, p, h1) =
          >>>-ok
            (
              verified_paths tools.sha256 w.bucket (map (λ (b : LedgerRow). b.batch) batches)
                  (folder tools day now run_id),
              w,
            )
            (λ paths v. parse_day tools day now run_id conflicts fingerprint contents paths v) h in
        let (rows, w2, q, h2) =
          >>>-ok (tools.parse contents, w1)
            (λ rows v. check_day tools day now run_id conflicts fingerprint paths rows v) h1 in
        let (valid, w3, r, h3) =
          >>>-ok (check_rows tools day now run_id rows w2)
            (λ valid v.
              aggregate_day tools day now run_id conflicts fingerprint (length rows) paths valid v)
            h2 in
        let same : w ≡ w2 = ap (λ x. x.1) p ∙ ap (λ x. x.1) q in
        aggregate_day-Reconciled (length rows) paths valid w w3 w' u
          (subst (λ v. Untouched v w3) (sym same) (check_rows-Untouched rows w2 w3 (ok valid) r)) h3
