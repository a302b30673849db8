-- ===== src/Batch/Reconcile/Day/Again.antt =====
-- A published day of batch/reconcile.py: what its row and its files are, and the run after it.
use fleet_lambda_platform.Base.{
  ℕ, String, true, false, Option, none, some, List, ◌∷◌, map, ◌≡◌, ◌≢◌, refl, sym, ap, ◌∙◌, subst,
  inl, inr, Bool-cases, Option-cases, ◌==◌, eq_self, string_eq, nat_eq, greatest, present, keep,
  eqb,
}
use fleet_lambda_platform.Base.Dict.{lookup, lookup-insert_self}
use fleet_lambda_platform.Base.Result.{Result, ok, err, Result-cases}
use fleet_lambda_platform.Common.Archive.{ManifestFile}
use fleet_lambda_platform.Common.Publication.{Bytes, ExportManifest, report_formats}
use fleet_lambda_platform.Common.Publication.Roundtrip.{build_export_manifest-manifest_matches}
use fleet_lambda_platform.Streaming.Serving.{ConflictKey, Conflict}
use fleet_lambda_platform.Batch.Reconcile.{
  LedgerRow, ReportStatus, World, Output, Tools, Outcome, published, unchanged, update,
}
use fleet_lambda_platform.Batch.Reconcile.Day.{
  target, publish, publish_report, store_day, reconcile_day, settle, started, is_current,
  run_inputs, run_closed_day, run_day, is_open_day, files_of, folder, conflicts_of, supersede,
  is_recovered, is_orphan, fail_orphan, close_orphans,
}
use fleet_lambda_platform.Batch.Reconcile.Day.Finished.{
  Exported, Reconciled, reconcile_day-Reconciled, target-IsReportPath,
}

module _ (tools : Tools) (nonempty : (b : Bytes) → tools.sha256 b ≢ "") (day now : ℕ)
    (run_id : String) where
  -- the row of the day after the last transaction
  publish_report_self :
      (digest : String) (m : ExportManifest) (o : Option ReportStatus) (r : ReportStatus)
      (reports : List (ℕ × ReportStatus))
      → o ≡ some r
      → r.run_id ≡ run_id
      → lookup day (publish_report tools day now run_id digest m o reports)
        ≡ some (publish tools day now run_id (some digest) m r)
  publish_report_self digest m o r reports h mine =
      let test : (r.run_id == run_id) ≡ true = rw mine (eq_self run_id) in
      rw (h, test) (lookup-insert_self day (publish tools day now run_id (some digest) m r) reports)

  module _ (conflicts : List (ConflictKey × Conflict)) (fingerprint : String) where
    -- The day's row and files are those of a current publication.
    abbrev pub IsCurrent : World → Type 0
    IsCurrent w =
        (r : ReportStatus) × (lookup day w.reports ≡ some r)
        × (is_current tools day now run_id fingerprint (some r) w.disk ≡ true)

    Exported-IsCurrent :
        (total : ℕ) (output : Output) (checked w' : World)
        → Exported tools day now run_id total output
            (store_day tools day now run_id fingerprint output checked)
            w'
        → IsCurrent w'
    unfolding store_day is_current
    Exported-IsCurrent total output checked w' e =
        let stored = store_day tools day now run_id fingerprint output checked in
        let row : ReportStatus = record {
          run_id = run_id;
          input_fingerprint = fingerprint;
          coverage = output.coverage;
          export_status = "pending";
          version = 4;
          output_sha256 = none;
          export_manifest = none;
        } in
        let there : lookup day e.written.reports ≡ some row =
          ap (lookup day) e.untouched.same_reports ∙ lookup-insert_self day row checked.reports in
        let matches =
          build_export_manifest-manifest_matches tools.sha256 e.written.disk tools.report_dir
            nonempty (map (target tools day now run_id) report_formats) e.manifest
            (
              target-IsReportPath tools day now run_id e.written.disk "json",
              (
                target-IsReportPath tools day now run_id e.written.disk "csv",
                (
                  target-IsReportPath tools day now run_id e.written.disk "html",
                  (target-IsReportPath tools day now run_id e.written.disk "parquet", tt),
                ),
              ),
            )
            e.built in
        subst IsCurrent (sym e.leaves) (
          publish tools day now run_id (some (tools.sha256 e.payload)) e.manifest row,
          publish_report_self (tools.sha256 e.payload) e.manifest (lookup day e.written.reports) row
              e.written.reports there refl,
          rw (eq_self fingerprint, matches) refl,
        )

    settle-published :
        (x : Result (Unit {0}) × World) (w' : World)
        → settle tools day now run_id x ≡ (ok published, w')
        → x ≡ (ok tt, w')
    settle-published (ok u, v) w' h = cc (h)
    settle-published (err e, v) w' h = elim (Result-cases (tools.mark_failed e)) [
      | inl (u, p) ↦ cc (rw (p, settle) at h)
      | inr (x, p) ↦ cc (rw (p, settle) at h)
    ]

    -- A run that publishes had inputs that were not current, and reconciled them.
    run_inputs-Reconciled :
        (batches : List LedgerRow) (contents : Bytes) (w w' : World)
        → run_inputs tools day now run_id batches contents conflicts fingerprint w
          ≡ (ok published, w')
        → Reconciled tools day now run_id conflicts fingerprint
            (record w { runs = started tools day now run_id ∷ w.runs })
            w'
    unfolding run_inputs
    run_inputs-Reconciled batches contents w w' h =
        elim (Bool-cases
          (is_current tools day now run_id fingerprint (lookup day w.reports) w.disk)) [
            | inl p ↦ cc (rw (p, run_inputs) at h)
            | inr p ↦
                let w1 = record w { runs = started tools day now run_id ∷ w.runs } in
                reconcile_day-Reconciled tools day now run_id conflicts fingerprint batches contents
                  w1 w' tt
                  (settle-published
                    (reconcile_day tools day now run_id conflicts fingerprint batches contents w1)
                    w' (rw (p, run_inputs) at h))
          ]

-- What a run reads of a closed day: its expense file and its archive files.
pub record Inputs (tools : Tools) (day now : ℕ) (run_id : String) (batches : List LedgerRow)
    (w : World) : Type 0 where
  pub closed : is_open_day day (greatest (present (map (λ b. b.max_event_ts) batches))) ≡ false
  pub contents : Bytes
  pub landed : lookup day w.landing ≡ some contents
  pub files : List (ℕ × ManifestFile)
  pub listed : files_of (folder tools day now run_id) batches ≡ ok files

module _ (tools : Tools) (day now : ℕ) (run_id : String) (batches : List LedgerRow) where
  abbrev digest_of : World → Bytes → List (ℕ × ManifestFile) → String
  digest_of w contents files = tools.fingerprint contents files (conflicts_of day w)

  -- With its inputs, a run goes on to compare their fingerprint.
  run_closed_day-Inputs :
      (w : World) (i : Inputs tools day now run_id batches w)
      → run_closed_day tools day now run_id batches w
        ≡ run_inputs tools day now run_id batches i.contents
            (conflicts_of day w)
            (digest_of w i.contents i.files)
            w
  unfolding run_closed_day
  run_closed_day-Inputs w i = rw (i.closed, i.landed, i.listed) refl

  published-Inputs :
      (w w' : World)
      → run_closed_day tools day now run_id batches w ≡ (ok published, w')
      → Inputs tools day now run_id batches w
  unfolding run_closed_day
  published-Inputs w w' h =
      elim (Bool-cases (is_open_day day (greatest (present (map (λ b. b.max_event_ts) batches))))) [
        | inl p ↦ cc (rw (p, run_closed_day) at h)
        | inr p ↦ elim (Option-cases (lookup day w.landing)) [
          | inl q ↦ cc (rw (p, q, run_closed_day) at h)
          | inr (contents, q) ↦
              elim (Result-cases (files_of (folder tools day now run_id) batches)) [
                | inr (e, r) ↦ cc (rw (p, q, r, run_closed_day) at h)
                | inl (files, r) ↦ record {
                  closed = p;
                  contents = contents;
                  landed = q;
                  files = files;
                  listed = r;
                }
              ]
        ]
      ]

module _ (tools : Tools) (day now : ℕ) (run_id : String) (conflicts : List (ConflictKey × Conflict))
    (fingerprint : String) (w w' : World)
    (done : Reconciled tools day now run_id conflicts fingerprint w w') where
  Reconciled-landing : w'.landing ≡ w.landing
  unfolding store_day
  Reconciled-landing =
      ap (λ v. v.landing) done.exported.leaves
      ∙ (done.exported.untouched.same_landing ∙ done.untouched.same_landing)

  Reconciled-conflicts : w'.conflicts ≡ w.conflicts
  unfolding store_day
  Reconciled-conflicts =
      ap (λ v. v.conflicts) done.exported.leaves
      ∙ (done.exported.untouched.same_conflicts ∙ done.untouched.same_conflicts)

-- the inputs of a run are the same after it, for a later run of the day
abbrev Inputs_later :
    (tools : Tools) (day now later : ℕ) (run_id next_id : String) (batches : List LedgerRow)
    (w w' : World)
    → w'.landing ≡ w.landing
    → Inputs tools day now run_id batches w
    → Inputs tools day later next_id batches w'
Inputs_later tools day now later run_id next_id batches w w' same i = record {
  closed = i.closed;
  contents = i.contents;
  landed = ap (lookup day) same ∙ i.landed;
  files = i.files;
  listed = i.listed;
}

-- The tables without pipeline_runs, and the files.
abbrev pub SameReports : World → World → Type 0
SameReports w w' = (w'.reports ≡ w.reports) × (w'.disk ≡ w.disk)

module _ (tools : Tools) (nonempty : (b : Bytes) → tools.sha256 b ≢ "") (day now later : ℕ)
    (run_id next_id : String) (batches : List LedgerRow) where
  run_inputs_current :
      (contents : Bytes) (conflicts : List (ConflictKey × Conflict)) (fingerprint : String)
      (w : World)
      → IsCurrent tools nonempty day now run_id conflicts fingerprint w
      → run_inputs tools day later next_id batches contents conflicts fingerprint w
        ≡ (ok unchanged, record w { runs = update (is_recovered day) (supersede later) w.runs })
  unfolding run_inputs is_current
  run_inputs_current contents conflicts fingerprint w (r, there, current) = rw (there, current) refl

  run_closed_day_again :
      (w w' v : World)
      → v.landing ≡ w'.landing
      → v.conflicts ≡ w'.conflicts
      → SameReports w' v
      → run_closed_day tools day now run_id batches w ≡ (ok published, w')
      → (w'' : World) × (run_closed_day tools day later next_id batches v ≡ (ok unchanged, w''))
        × SameReports w' w''
  run_closed_day_again w w' v land blame (reports, files) h =
      let i = published-Inputs tools day now run_id batches w w' h in
      let conflicts = conflicts_of day w in
      let print = digest_of tools day now run_id batches w i.contents i.files in
      let w1 = record w { runs = started tools day now run_id ∷ w.runs } in
      let ran = sym (run_closed_day-Inputs tools day now run_id batches w i) ∙ h in
      let done =
        run_inputs-Reconciled tools nonempty day now run_id conflicts print batches i.contents w w'
          ran in
      let (r, there, current) =
        Exported-IsCurrent tools nonempty day now run_id conflicts print done.total done.output
          done.checked w' done.exported in
      let landed = land ∙ Reconciled-landing tools day now run_id conflicts print w1 w' done in
      let blamed = blame ∙ Reconciled-conflicts tools day now run_id conflicts print w1 w' done in
      let next = Inputs_later tools day now later run_id next_id batches w v landed i in
      let same : conflicts_of day v ≡ conflicts = ap (keep (λ c. eqb c.1.dt day)) blamed in
      (
        record v { runs = update (is_recovered day) (supersede later) v.runs },
        run_closed_day-Inputs tools day later next_id batches v next
            ∙ (ap
                  (λ c.
                    run_inputs tools day later next_id batches i.contents c
                      (tools.fingerprint i.contents i.files c) v)
                  same
                ∙ run_inputs_current i.contents conflicts print v (
                  r,
                  ap (lookup day) reports ∙ there,
                  subst (λ d. is_current tools day now run_id print (some r) d ≡ true) (sym files)
                      current,
                )),
        (reports, files),
      )

  close_orphans-ok :
      (x : Result Outcome × World) (w' : World) (o : Outcome)
      → close_orphans tools day now run_id x ≡ (ok o, w')
      → (v : World) × (record v { runs = update (is_orphan now day) (fail_orphan now) v.runs } ≡ w')
        × (x ≡ (ok o, v))
  close_orphans-ok (err e, v) w' o h = cc (h)
  close_orphans-ok (ok o', v) w' o h = (v, ap (λ p. p.1) h, cc (h))

  -- Where no digest is the empty text: once a run has published a date, a later run of the date with
  -- the same ledger is answered that it is unchanged, and leaves the reports and their files alone, in
  -- any state whose expense files, conflicts, reports and report files are those that the first run
  -- left.
  pub run_day_again :
      (w w' v : World)
      → run_day tools day now run_id false batches w ≡ (ok published, w')
      → v.landing ≡ w'.landing
      → v.conflicts ≡ w'.conflicts
      → SameReports w' v
      → (w'' : World) × (run_day tools day later next_id false batches v ≡ (ok unchanged, w''))
        × SameReports w' w''
  unfolding run_day
  run_day_again w w' v h land blame kept =
      let (first, same, ran) =
        close_orphans-ok (run_closed_day tools day now run_id batches w) w' published h in
      let (u, next, left) =
        run_closed_day_again w first v (land ∙ ap (λ x. x.landing) (sym same))
          (blame ∙ ap (λ x. x.conflicts) (sym same))
          (kept.0 ∙ ap (λ x. x.reports) (sym same), kept.1 ∙ ap (λ x. x.disk) (sym same)) ran in
      (
        record u { runs = update (is_orphan later day) (fail_orphan later) u.runs },
        ap (close_orphans tools day later next_id) next,
        (left.0 ∙ ap (λ x. x.reports) same, left.1 ∙ ap (λ x. x.disk) same),
      )
