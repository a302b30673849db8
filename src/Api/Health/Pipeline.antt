-- ===== src/Api/Health/Pipeline.antt =====
-- When `health_pipeline` of api/main.py answers that live ingestion is healthy.
use fleet_lambda_platform.Base.{
  ℕ, ◌*◌, ◌≤◌, true, some, ◌≡◌, ◌↔◌, refl, ap, ◌∙◌, arith, inl, inr, Option-cases, le→leb,
}
use fleet_lambda_platform.Base.Int.{ℤ, pos, leb_ℤ}
use fleet_lambda_platform.Base.Result.{Result, ok, err, ok-injective}
use fleet_lambda_platform.Api.Health.{second, Summary, health_pipeline}

module _ (no_data_seconds raw_archive_lag_minutes : ℕ) where
  -- The database answers, and both the last event and the archive are recent enough.
  abbrev pub IsLive : Result Summary → Type 0
  IsLive r =
      (s : Summary) × (age : ℤ) × (lag : ℕ) × (r ≡ ok s)
      × (s.last_event_age ≡ some age)
      × (leb_ℤ age (pos (no_data_seconds * second)) ≡ true)
      × (s.raw_archive_lag ≡ some lag)
      × (lag ≤ raw_archive_lag_minutes * 60 * second)

  -- `health_pipeline` answers with status code 200 exactly if the database answers, the last event
  -- is known and at most NO_DATA_SECONDS old, and the archive's lag is known and at most
  -- RAW_ARCHIVE_LAG_MINUTES.
  pub health_pipeline_iff :
      (r : Result Summary)
      → ((health_pipeline no_data_seconds raw_archive_lag_minutes r).0 ≡ 200) ↔ IsLive r
  unfolding health_pipeline
  health_pipeline_iff (err e) = (λ h. ground arith, λ h. cc)
  health_pipeline_iff (ok s) = (
    λ h. elim (Option-cases s.last_event_age) [
      | inl unknown ↦ ground arith
      | inr (age, a) ↦ elim (Option-cases s.raw_archive_lag) [
        | inl unknown ↦ ground arith
        | inr (lag, l) ↦ (s, age, lag, refl, a, ground arith, l, ground arith)
      ]
    ],
    λ (x, age, lag, e, a, recent, l, within).
        let a' = ap (λ v. v.last_event_age) (ok-injective e) ∙ a in
        let l' = ap (λ v. v.raw_archive_lag) (ok-injective e) ∙ l in
        rw (a', l') (rw (recent, le→leb _ _ within) refl),
  )
