-- ===== src/Api/Health/Reports.antt =====
-- What the answers of `health_reports` of api/main.py stand for.
use fleet_lambda_platform.Base.Greatest.{greatest-In}
use fleet_lambda_platform.Base.{
  greatest, present, ℕ, zero, suc, ◌+◌, ◌-◌, ◌*◌, ◌/◌, ◌≤◌, ◌<◌, String, true, false, not, Option,
  none, some, List, [], ◌∷◌, map, All, In, any, keep, length, ◌≡◌, refl, sym, subst, arith, inl,
  inr, Bool-cases, eqb, eqb_iff, leb→le, string_eq,
}
use fleet_lambda_platform.Base.Paths.{PurePath}
use fleet_lambda_platform.Base.Result.{Result, ok}
use fleet_lambda_platform.Common.Publication.{Bytes, Disk, algorithm_version}
use fleet_lambda_platform.Common.Publication.Verified.{IsPublished}
use fleet_lambda_platform.Api.Health.{
  second, ReportStatus, Tables, day_length, first_day, latest_runs, is_failed, is_stalled,
  is_published, day_before, archive_current, missing_from, missing_days, ReportHealth, reaches,
  is_healthy, is_processing, report_response, report_health, health_reports,
}

-- Every day of the range has a row.
abbrev HasRow : List ReportStatus → ℕ → Type 0
HasRow reports d = any (λ r. eqb r.dt d) reports ≡ true

missing_from-none :
    (reports : List ReportStatus) (day n d : ℕ)
    → missing_from reports day n ≡ 0
    → day ≤ d
    → d < day + n
    → HasRow reports d
unfolding missing_from
missing_from-none reports day zero d h lo hi = absurd (omega arith)
missing_from-none reports day (suc n) d h lo hi =
    elim (Bool-cases (any (λ r. eqb r.dt day) reports)) [
      | inl here ↦ elim (Bool-cases (eqb d day)) [
        | inl same ↦ rw ((eqb_iff d day).0 same) here
        | inr later ↦
            missing_from-none reports (day + 1) n d (ground arith) (ground arith) (ground arith)
      ]
      | inr absent ↦ ground arith
    ]

In-map_inverse :
    {A : Type 0} (f : A → ℕ) (m : ℕ) (xs : List A) → In m (map f xs) → (a : A) × In a xs × (f a ≡ m)
In-map_inverse f m [] i = absurd i
In-map_inverse f m (x ∷ xs) (inl e) = (x, inl refl, sym e)
In-map_inverse f m (x ∷ xs) (inr i) = let (a, j, e) = In-map_inverse f m xs i in (a, inr j, e)

-- What the answer "healthy" stands for beyond that: every report is published, every day up to
-- the one before the archive's last event has its report, and that day's or a later one is
-- published.
pub record IsComplete (t : Tables) : Type 0 where
  pub all_published : All (λ r. is_published r ≡ true) t.reports
  pub raw_time : ℕ
  pub is_raw_time : greatest (present t.batch_times) ≡ some raw_time
  pub all_days :
      (d : ℕ)
      → first_day ≤ d
      → d ≤ raw_time / day_length - 1
      → any (λ r. eqb r.dt d) t.reports ≡ true
  pub last_report : ReportStatus
  pub is_last : In last_report (keep is_published t.reports)
  pub reaches_day : raw_time / day_length - 1 ≤ last_report.dt

module _ (raw_archive_lag_minutes : ℕ) (sha256 : Bytes → String) (disk : Disk)
    (root : PurePath) where
  -- What every answer with status code 200 stands for: the latest run of no date failed or stalls,
  -- each published report has its four files on disk and the present algorithm version, and the
  -- archive is not too far behind the serving tables.
  pub record IsServable (now : ℕ) (t : Tables) : Type 0 where
    pub none_failed : All (λ e. is_failed e.1 ≡ false) (latest_runs t.runs)
    pub none_stalled : All (λ e. is_stalled now e.1 ≡ false) (latest_runs t.runs)
    pub exports_intact :
        All
          (λ r.
            IsPublished sha256 disk root r.export_manifest
            × (r.algorithm_version ≡ algorithm_version))
          (keep is_published t.reports)
    pub raw_time : ℕ
    pub live_time : ℕ
    pub is_raw_time : greatest (present t.batch_times) ≡ some raw_time
    pub is_live_time : greatest t.event_times ≡ some live_time
    pub lag_small : live_time - raw_time ≤ raw_archive_lag_minutes * 60 * second

  -- the checks that both ways to status code 200 share
  abbrev SharedChecks : ReportHealth → Type 0
  SharedChecks h =
      (h.failed_dates ≡ 0)
      × (h.stalled_dates ≡ 0)
      × (h.bad_exports ≡ 0)
      × (h.old_versions ≡ 0)
      × (archive_current raw_archive_lag_minutes h.raw_lag ≡ true)

  response_healthy :
      (h : ReportHealth)
      → (report_response raw_archive_lag_minutes h).status ≡ "healthy"
      → is_healthy raw_archive_lag_minutes h ≡ true
  unfolding report_response
  response_healthy h e = elim (Bool-cases (is_healthy raw_archive_lag_minutes h)) [
    | inl well ↦ well
    | inr ill ↦ elim (Bool-cases (is_processing raw_archive_lag_minutes h)) [
      | inl p ↦ cc (rw p at e)
      | inr q ↦ cc (rw (q, ill) at e)
    ]
  ]

  reaches-cases :
      (latest raw : Option ℕ)
      → reaches latest (day_before raw) ≡ true
      → (l : ℕ) × (r : ℕ) × (latest ≡ some l) × (raw ≡ some r) × (r / day_length - 1 ≤ l)
  reaches-cases none raw h = cc
  reaches-cases (some l) none h = cc
  reaches-cases (some l) (some r) h = (l, r, refl, refl, leb→le _ _ h)

  healthy_parts :
      (h : ReportHealth)
      → is_healthy raw_archive_lag_minutes h ≡ true
      → (h.pending_exports ≡ 0) × (h.missing ≡ 0) × (reaches h.latest_report h.expected ≡ true)
  healthy_parts h well = (ground arith, ground arith, ground arith)

  none_pending :
      (rs : List ReportStatus)
      → length (keep (λ r. not (is_published r)) rs) ≡ 0
      → All (λ r. is_published r ≡ true) rs
  none_pending [] h = tt
  none_pending (r ∷ rs) h = ground (arith, none_pending rs)

  complete :
      (now : ℕ) (t : Tables)
      → is_healthy raw_archive_lag_minutes (report_health sha256 disk root now t) ≡ true
      → IsComplete t
  unfolding report_health
  complete now t h =
      let (pending, missing, reached) = healthy_parts (report_health sha256 disk root now t) h in
      let exports = keep is_published t.reports in
      let raw = greatest (present t.batch_times) in
      let (l, a, e, ra, le) = reaches-cases (greatest (map (λ r. r.dt) exports)) raw reached in
      let (r, i, dt) = In-map_inverse (λ x. x.dt) l exports (greatest-In _ l e) in
      record {
        all_published = none_pending t.reports pending;
        raw_time = a;
        is_raw_time = ra;
        all_days = λ d lo hi.
            missing_from-none t.reports first_day (a / day_length - 1 + 1 - first_day) d
              (subst (λ o. missing_days t.reports (day_before o) ≡ 0) ra missing) lo (omega arith);
        last_report = r;
        is_last = i;
        reaches_day = rw dt le;
      }

  -- The answer "healthy" of `health_reports` implies, beside what status code 200 does, that every
  -- report is published, that every day from 2026-03-01 to the one before the archive's last event
  -- has its report, and that a report of that day or a later one is published.
  pub health_reports-IsComplete :
      (now : ℕ) (t : Tables)
      → (health_reports raw_archive_lag_minutes sha256 disk root now (ok t)).status ≡ "healthy"
      → IsComplete t
  unfolding health_reports
  health_reports-IsComplete now t h =
      complete now t (response_healthy (report_health sha256 disk root now t) h)
