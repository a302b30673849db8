-- ===== src/Batch/Reconcile/Day.antt =====
-- `run_day` and `_run_day` of batch/reconcile.py, in stages as the code runs them.
pub mod Finished
pub mod Again
pub mod Failed
pub mod Settled
use fleet_lambda_platform.Base.{
  ℕ, ◌+◌, ◌*◌, String, Bool, true, false, ◌&&◌, not, Option, none, some, List, [], ◌∷◌, ◌++◌, map,
  keep, elem, length, greatest, present, ◌==◌, if◌then◌else◌, eqb, ltb, string_eq, nat_eq, pair_eq,
  bool_eq, list_eq,
}
use fleet_lambda_platform.Base.Dict.{lookup, insert}
use fleet_lambda_platform.Base.Paths.{PurePath, join}
use fleet_lambda_platform.Base.Result.{
  Result, ok, err, ◌>>=◌, value_error, type_error, key_error, os_error,
}
use fleet_lambda_platform.Common.Archive.{ManifestFile, verified_paths}
use fleet_lambda_platform.Common.Publication.{
  Disk, key, ExportManifest, algorithm_version, report_formats, build_export_manifest,
  manifest_matches, Bytes,
}
use fleet_lambda_platform.Common.Domain.{Expense, ReportRow}
use fleet_lambda_platform.Streaming.Serving.{ConflictKey, Conflict, day_length}
use fleet_lambda_platform.Batch.Reconcile.{
  LedgerRow, RunError, orphaned, raised, Run, Coverage, ReportStatus, CsvRow, World, Output, Tools,
  Outcome, already_running, waiting, unchanged, published, update, with_status,
}
use Prim.Native.String.{◌++◌ as join_texts}
use text.Mathlib.Text.{starts_with}

module _ {A B : Type 0} where
  infixl 5 ◌>>>◌
  -- a statement that may raise, and the statements after it
  abbrev pub ◌>>>◌ : Result A × World → (A → World → Result B × World) → Result B × World
  (err e, w) >>> next = (err e, w)
  (ok a, w) >>> next = next a w

-- the changes of one row of pipeline_runs, selected by its key
abbrev pub update_run : String → (Run → Run) → World → World
update_run run_id change w = record w { runs = update (λ r. r.run_id == run_id) change w.runs }

abbrev pub is_orphan : ℕ → ℕ → Run → Bool
is_orphan now day r = eqb r.dt day && r.status == "running" && ltb (r.started_at + 1200000000) now

abbrev pub fail_orphan : ℕ → Run → Run
fail_orphan now r = with_status "failed" r.rows_in r.rows_out (some orphaned) (some now) r

abbrev pub was_orphaned : Option RunError → Bool
was_orphaned (some orphaned) = true
was_orphaned _ = false

abbrev pub is_recovered : ℕ → Run → Bool
is_recovered day r =
    eqb r.dt day && r.stage == "reconcile" && r.status == "failed" && was_orphaned r.error

abbrev or_now : ℕ → Option ℕ → Option ℕ
or_now now none = some now
or_now now (some t) = some t

abbrev pub supersede : ℕ → Run → Run
supersede now r = with_status "superseded" r.rows_in r.rows_out r.error (or_now now r.ended_at) r

-- path.startswith(f"dt={report_date}/")
abbrev pub is_below : String → PurePath → Bool
is_below folder p = elim p.parts [
  | first ∷ second ∷ rest ↦ not p.absolute && first == folder
  | _ ↦ false
]

-- the files of the date, of all batches
unfoldable pub files_of : String → List LedgerRow → Result (List (ℕ × ManifestFile))
files_of folder [] = ok []
files_of folder (b ∷ batches) = elim b.batch.archive_manifest [
  | none ↦ err (type_error "archive_manifest")
  | some m ↦ files_of folder batches >>= λ rest.
      ok (map (λ f. (b.batch.batch_id, f)) (keep (λ f. is_below folder f.path) m.files) ++ rest)
]

-- not timestamps or max(timestamps) < next_day
abbrev pub is_open_day : ℕ → Option ℕ → Bool
is_open_day day none = true
is_open_day day (some newest) = ltb newest ((day + 1) * day_length)

abbrev pub conflicts_of : ℕ → World → List (ConflictKey × Conflict)
conflicts_of day w = keep (λ c. eqb c.1.dt day) w.conflicts

abbrev pub blocked_events : List (ConflictKey × Conflict) → List String
blocked_events conflicts =
    keep (λ id. not (id == "") && not (starts_with id "prior:")) (map (λ c. c.0.event_id) conflicts)

abbrev pub blocked_trips : List (ConflictKey × Conflict) → List String
blocked_trips conflicts =
    keep (λ t. not (t == "")) (present (map (λ c. c.1.payload.trip_id) conflicts))

abbrev pub conflicting : ReportRow → ReportRow
conflicting r = record r {
  profit_cents = none;
  is_unprofitable = none;
  reconciliation_status = "conflicting_events";
}

-- coverage[vehicle]["conflict"] = True
abbrev pub mark :
    String → Option Coverage → List (String × Coverage) → Result (List (String × Coverage))
mark v none coverage = err (key_error v)
mark v (some c) coverage = ok (insert v (record c { conflict = true }) coverage)

-- the rows of the vehicles that a conflict names
unfoldable pub override :
    List String
    → List ReportRow
    → List (String × Coverage)
    → Result (List ReportRow × List (String × Coverage))
override vehicles [] coverage = ok ([], coverage)
override vehicles (r ∷ rows) coverage =
    if elem r.vehicle_id vehicles
    then (mark r.vehicle_id (lookup r.vehicle_id coverage) coverage >>= λ marked.
        override vehicles rows marked >>= λ (rest, final). ok (conflicting r ∷ rest, final))
    else (override vehicles rows coverage >>= λ (rest, final). ok (r ∷ rest, final))

module _ (tools : Tools) (day now : ℕ) (run_id : String) where
  abbrev pub folder : String
  folder = join_texts "dt=" (tools.isoformat day)

  abbrev pub target : String → PurePath
  target format = join tools.report_dir (record {
    absolute = false;
    parts =
        join_texts "profitability_" (join_texts (tools.isoformat day) (join_texts "." format)) ∷ [];
  })

  -- one export: its temporary file replaces the target
  unfoldable pub write_export : Output → String → Disk → Result Disk
  write_export output format disk = tools.render format day run_id output >>= λ bytes.
      ok (insert (key (target format)) bytes disk)

  -- The exports in turn; those written before one that raises stay.
  unfoldable pub write_exports : Output → List String → World → Result (Unit {0}) × World
  unfolding write_export
  write_exports output [] w = (ok tt, w)
  write_exports output (f ∷ formats) w = elim (write_export output f w.disk) [
    | err e ↦ (err e, w)
    | ok disk ↦ write_exports output formats (record w { disk = disk })
  ]

  -- the row of daily_report_status once the exports are complete
  abbrev pub publish : Option String → ExportManifest → ReportStatus → ReportStatus
  publish digest m r = record r {
    export_status = "published";
    output_sha256 = digest;
    export_manifest = some m;
  }

  -- UPDATE daily_report_status SET export_status='published' ... WHERE dt=%s AND run_id=%s
  abbrev pub publish_report :
      String
      → ExportManifest
      → Option ReportStatus
      → List (ℕ × ReportStatus)
      → List (ℕ × ReportStatus)
  publish_report digest m none reports = reports
  publish_report digest m (some r) reports =
      if r.run_id == run_id then insert day (publish (some digest) m r) reports else reports

  abbrev pub succeed : ℕ → ℕ → Run → Run
  succeed rows_in rows_out r =
      with_status "success" (some rows_in) (some rows_out) r.error (some now) r

  -- the last transaction
  abbrev pub finished : ℕ → Output → ExportManifest → Bytes → World → World
  finished rows_in output m payload w =
      update_run run_id (succeed rows_in (length output.vehicles)) (record w {
        reports = publish_report (tools.sha256 payload) m (lookup day w.reports) w.reports;
      })

  unfoldable pub finish : ℕ → Output → ExportManifest → World → Result (Unit {0}) × World
  finish rows_in output m w = (tools.render "json" day run_id output, w) >>> λ payload v.
      (ok tt, finished rows_in output m payload v)

  unfoldable pub seal : ℕ → Output → World → Result (Unit {0}) × World
  unfolding finish
  seal rows_in output w =
      (build_export_manifest tools.sha256 w.disk (map target report_formats) tools.report_dir, w)
      >>> λ m v. finish rows_in output m v

  -- from the exports to the last transaction
  unfoldable pub export : ℕ → Output → World → Result (Unit {0}) × World
  unfolding write_exports seal
  export rows_in output w = write_exports output report_formats w >>> λ _ v. seal rows_in output v

  -- the transaction that replaces the day
  unfoldable pub store_day : String → Output → World → World
  store_day fingerprint output w = record w {
    profits = map (λ r. (day, r)) output.vehicles ++ keep (λ p. not (eqb p.0 day)) w.profits;
    zones =
        (if eqb (length output.vehicles) 0 then [] else map (λ z. (day, z.0, z.1)) output.zones)
        ++ keep (λ z. not (eqb z.0 day)) w.zones;
    reports =
        insert day
          (record {
            run_id = run_id;
            input_fingerprint = fingerprint;
            coverage = output.coverage;
            export_status = "pending";
            version = algorithm_version;
            output_sha256 = none;
            export_manifest = none;
          })
          w.reports;
  }

  -- Data quality: the rows are counted, the rejected ones stored, and too many of them refused.
  abbrev pub is_too_bad : ℕ → ℕ → Bool
  is_too_bad rejected total = ltb (tools.threshold.0 * total) (rejected * tools.threshold.1)

  unfoldable pub check_rows : List CsvRow → World → Result (List Expense) × World
  check_rows rows w =
      let counted = update_run run_id (λ r. record r { rows_in = some (length rows) }) w in
      let (valid, rejected) = tools.validate rows day in
      let stored = record counted {
        quarantine =
            map (λ i. record { run_id = run_id; dt = day; item = i }) rejected
            ++ counted.quarantine;
      } in
      if eqb (length rows) 0
      then (err (value_error "Expense file has no rows"), w)
      else if is_too_bad (length rejected) (length rows)
      then (err (value_error "Data quality gate failed"), stored)
      else (ok valid, stored)

  abbrev pub blamed : List (ConflictKey × Conflict) → List String
  blamed conflicts = map (λ c. c.1.payload.vehicle_id) conflicts

  -- the output with the rows of the vehicles that a conflict names
  unfoldable pub overridden : List (ConflictKey × Conflict) → Output → Result Output
  unfolding override
  overridden conflicts output =
      override (blamed conflicts) output.vehicles output.coverage >>= λ (rows, coverage).
      ok (record output { vehicles = rows; coverage = coverage })

  module _ (conflicts : List (ConflictKey × Conflict)) (fingerprint : String) where
    unfoldable pub aggregate_day :
        ℕ → List (ℕ × List String) → List Expense → World → Result (Unit {0}) × World
    unfolding overridden store_day export
    aggregate_day total paths valid w =
        (
          tools.aggregate paths valid day (blocked_events conflicts) (blocked_trips conflicts)
              >>= overridden conflicts,
          w,
        )
        >>> λ output v. export total output (store_day fingerprint output v)

    unfoldable pub check_day :
        List (ℕ × List String) → List CsvRow → World → Result (Unit {0}) × World
    unfolding check_rows aggregate_day
    check_day paths rows w =
        check_rows rows w >>> λ valid v. aggregate_day (length rows) paths valid v

    unfoldable pub parse_day : Bytes → List (ℕ × List String) → World → Result (Unit {0}) × World
    unfolding check_day
    parse_day contents paths w = (tools.parse contents, w) >>> λ rows v. check_day paths rows v

    -- the body of the `try`
    unfoldable pub reconcile_day : List LedgerRow → Bytes → World → Result (Unit {0}) × World
    unfolding parse_day
    reconcile_day batches contents w =
        (verified_paths tools.sha256 w.bucket (map (λ b. b.batch) batches) folder, w) >>> λ paths v.
        parse_day contents paths v

  -- `except Exception`: the run is marked as failed, and the exception is raised again. Where the
  -- transaction of the mark raises itself (`mark_failed`), its exception is raised and no row changes.
  abbrev pub settle : Result (Unit {0}) × World → Result Outcome × World
  settle (ok _, w) = (ok published, w)
  settle (err e, w) = elim (tools.mark_failed e) [
    | err x ↦ (err x, w)
    | ok _ ↦ (
      err e,
      update_run run_id
          (λ r. with_status "failed" r.rows_in r.rows_out (some (raised e)) (some now) r) w,
    )
  ]

  abbrev pub started : Run
  started = record {
    run_id = run_id;
    dt = day;
    stage = "reconcile";
    status = "running";
    rows_in = none;
    rows_out = none;
    error = none;
    started_at = now;
    ended_at = none;
  }

  -- The inputs are those of a publication whose files still match its manifest.
  unfoldable pub is_current : String → Option ReportStatus → Disk → Bool
  is_current fingerprint none disk = false
  is_current fingerprint (some r) disk =
      r.input_fingerprint == fingerprint
      && r.export_status == "published"
      && manifest_matches tools.sha256 disk tools.report_dir r.export_manifest

  -- from the fingerprint on
  unfoldable pub run_inputs :
      List LedgerRow
      → Bytes
      → List (ConflictKey × Conflict)
      → String
      → World
      → Result Outcome × World
  unfolding is_current reconcile_day update
  run_inputs batches contents conflicts fingerprint w =
      if is_current fingerprint (lookup day w.reports) w.disk
      then (ok unchanged, record w { runs = update (is_recovered day) (supersede now) w.runs })
      else settle (
          reconcile_day conflicts fingerprint batches contents
            (record w { runs = started ∷ w.runs }))

  abbrev pub file_of : Option Bytes → Result Bytes
  file_of none = err (os_error "read")
  file_of (some contents) = ok contents

  unfoldable pub run_closed_day : List LedgerRow → World → Result Outcome × World
  unfolding run_inputs files_of
  run_closed_day batches w =
      let newest = greatest (present (map (λ b. b.max_event_ts) batches)) in
      if is_open_day day newest
      then (ok waiting, w)
      else (file_of (lookup day w.landing), w) >>> λ contents w1.
          (files_of folder batches, w1) >>> λ files w2.
          let conflicts = conflicts_of day w2 in
          run_inputs batches contents conflicts (tools.fingerprint contents files conflicts) w2

  -- The recovery of orphans is a statement of the transaction around the whole run: no other
  -- connection sees it before the run ends, and it is undone where the run raises. The rows it selects
  -- are those of before the run, which has no row of its own running at its end.
  abbrev pub close_orphans : Result Outcome × World → Result Outcome × World
  close_orphans (err e, w) = (err e, w)
  close_orphans (ok outcome, w) =
      (ok outcome, record w { runs = update (is_orphan now day) (fail_orphan now) w.runs })

  -- run_day: `is_locked` says whether another session holds the date's lock
  unfoldable pub run_day : Bool → List LedgerRow → World → Result Outcome × World
  unfolding run_closed_day update
  run_day is_locked batches w =
      if is_locked then (ok already_running, w) else close_orphans (run_closed_day batches w)
