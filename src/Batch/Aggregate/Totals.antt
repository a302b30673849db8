-- ===== src/Batch/Aggregate/Totals.antt =====
-- The totals by vehicle and the totals by zone of `aggregate` of batch/spark_reconcile.py.
use fleet_lambda_platform.Base.{
  ℕ, String, Bool, true, false, not, List, [], ◌∷◌, map, any, elem, sum_by, All, In, All-In,
  false-any, All-of_In, keep-In, In-map, In-elem, sum_by-map, sum_by_ext, ◌≡◌, refl, sym, ◌∙◌,
  subst, inl, inr, Bool-cases, string_eq, option_eq,
}
use fleet_lambda_platform.Base.Tables.{distinct, In-distinct, distinct_on-In}
use fleet_lambda_platform.Base.Grouping.{
  IsDistinct, distinct-IsDistinct, sum_by-group_sum, length-sum_by,
}
use fleet_lambda_platform.Base.Sort.{sort_by, sum_by-sort_by}
use fleet_lambda_platform.Base.Result.{ok, ok-injective}
use fleet_lambda_platform.Common.Domain.{Expense, ReportRow, costs_of, name_le}
use fleet_lambda_platform.Batch.Reconcile.{Output, ZoneTotal}
use fleet_lambda_platform.Batch.Aggregate.{
  ArchiveRow, is_bad_event, clean, is_bad_trip, trips, of_vehicle, of_zone, zone_total, zone_totals,
  vehicle_row, cover, aggregate_rows, aggregate, is_outside,
}

-- A quantity of the rows has the same sum over the vehicles and over the zones.
abbrev pub SameTotals : Output → Type 0
SameTotals out =
    (sum_by (λ r. r.revenue_cents) out.vehicles ≡ sum_by (λ z. z.1.revenue_cents) out.zones)
    × (sum_by (λ r. r.trips) out.vehicles ≡ sum_by (λ z. z.1.trips) out.zones)

module _ (f : ArchiveRow → ℕ) (counted : List ArchiveRow) where
  by_zone :
      sum_by (λ z. sum_by f (of_zone z counted)) (distinct (map (λ r. r.zone) counted))
      ≡ sum_by f counted
  by_zone =
      sum_by-group_sum f (λ r. r.zone) (distinct (map (λ r. r.zone) counted)) counted
        (distinct-IsDistinct (map (λ r. r.zone) counted))
        (All-of_In _ counted (λ r m.
          In-elem r.zone (distinct (map (λ r. r.zone) counted))
            (In-distinct r.zone (map (λ r. r.zone) counted) (In-map (λ r. r.zone) r counted m))))

  by_vehicle :
      (known : List String)
      → IsDistinct known
      → All (λ r. elem r.vehicle_id known ≡ true) counted
      → sum_by (λ v. sum_by f (of_vehicle v counted)) known ≡ sum_by f counted
  by_vehicle known d h = sum_by-group_sum f (λ r. r.vehicle_id) known counted d h

module _ (to_json : ArchiveRow → String) (events blocked : List String)
    (raw : List ArchiveRow) where
  -- A counted trip is a row of the archive.
  pub trips-In : (r : ArchiveRow) → In r (trips to_json events blocked raw) → In r raw
  unfolding trips clean
  trips-In r m =
      let good = distinct_on-In (λ (x : ArchiveRow). x.trip_id) r _ m in
      let (done, _) =
        keep-In (λ x. not (is_bad_trip to_json events blocked raw x.trip_id)) r _ good in
      let (kept, _) = keep-In (λ x. x.trip_completed) r (clean to_json events blocked raw) done in
      let single = distinct_on-In (λ (x : ArchiveRow). x.event_id) r _ kept in
      (keep-In (λ x. not (is_bad_event to_json events blocked raw x.event_id)) r raw single).0

module _ (to_json : ArchiveRow → String) (approx_count : List String → ℕ) (step : ℕ × ℕ)
    (sim_start report_date : ℕ) (known : List String) (distinct_known : IsDistinct known)
    (events blocked : List String) (raw : List ArchiveRow) (expenses : List Expense) where
  abbrev counted : List ArchiveRow
  counted = trips to_json events blocked raw

  abbrev row_of : String → ReportRow
  row_of =
      vehicle_row counted approx_count
        (cover to_json approx_count step sim_start report_date known events blocked raw)
        (costs_of expenses [])

  -- a quantity of the rows, as the sum of what it counts of each trip
  same_sum :
      (f : ArchiveRow → ℕ) (of_row : ReportRow → ℕ) (of_total : String × ZoneTotal → ℕ)
      → ((v : String) → of_row (row_of v) ≡ sum_by f (of_vehicle v counted))
      → ((z : String) → of_total (zone_total counted approx_count z) ≡ sum_by f (of_zone z counted))
      → All (λ r. elem r.vehicle_id known ≡ true) counted
      → sum_by of_row (map row_of (sort_by name_le known))
        ≡ sum_by of_total (zone_totals counted approx_count)
  unfolding zone_totals
  same_sum f of_row of_total rows totals inside =
      let zones = distinct (map (λ (r : ArchiveRow). r.zone) counted) in
      sum_by-map of_row row_of (sort_by name_le known)
      ∙ (sum_by_ext (λ v. of_row (row_of v)) (λ v. sum_by f (of_vehicle v counted))
            (sort_by name_le known) rows
          ∙ (sum_by-sort_by name_le (λ v. sum_by f (of_vehicle v counted)) known
              ∙ (by_vehicle f counted known distinct_known inside
                  ∙ (sym (by_zone f counted)
                      ∙ (sym (
                            sum_by_ext (λ z. of_total (zone_total counted approx_count z))
                              (λ z. sum_by f (of_zone z counted)) zones totals)
                          ∙ sym (sum_by-map of_total (zone_total counted approx_count) zones))))))

  aggregate_rows-SameTotals :
      All (λ r. elem r.vehicle_id known ≡ true) counted
      → SameTotals (
          aggregate_rows to_json approx_count step sim_start report_date known events blocked raw
            expenses)
  unfolding aggregate_rows
  aggregate_rows-SameTotals inside = (
    same_sum (λ r. r.fare_cents) (λ r. r.revenue_cents) (λ z. z.1.revenue_cents) (λ v. refl)
        (λ z. refl) inside,
    same_sum (λ r. 1) (λ r. r.trips) (λ z. z.1.trips) (λ v. length-sum_by (of_vehicle v counted))
        (λ z. length-sum_by (of_zone z counted)) inside,
  )

known_of_not : (b : Bool) → not b ≡ false → b ≡ true
known_of_not true h = refl
known_of_not false h = cc

-- Where no vehicle is configured twice, and the date has archive files: an aggregation that does not
-- raise gives the vehicles together the revenue and the trips that it gives the zones together.
pub aggregate-SameTotals :
    {File : Type 0} (to_json : ArchiveRow → String) (approx_count : List String → ℕ) (step : ℕ × ℕ)
    (sim_start report_date : ℕ) (known : List String) (read : List File → List ArchiveRow)
    (file : File) (files : List File) (expenses : List Expense) (events blocked : List String)
    (out : Output)
    → IsDistinct known
    → aggregate to_json approx_count step sim_start report_date known read
        (file ∷ files)
        expenses
        events
        blocked
      ≡ ok out
    → SameTotals out
unfolding aggregate
aggregate-SameTotals to_json approx_count step sim_start report_date known read file files expenses
      events blocked out d h =
    let raw = read (file ∷ files) in
    elim (Bool-cases (
      any (λ r. is_outside to_json approx_count step sim_start report_date known r.event_time)
        raw)) [
          | inl p ↦ cc (rw (p, aggregate) at h)
          | inr p ↦ elim (Bool-cases (any (λ r. not (elem r.vehicle_id known)) raw)) [
            | inl q ↦ cc (rw (p, q, aggregate) at h)
            | inr q ↦
                let inside = false-any (λ r. not (elem r.vehicle_id known)) raw q in
                let same = ok-injective (rw (p, q, aggregate) at h) in
                subst SameTotals same (
                  aggregate_rows-SameTotals to_json approx_count step sim_start report_date known d
                    events blocked raw expenses
                    (All-of_In _ _ (λ r m. known_of_not (elem r.vehicle_id known) (
                      All-In (λ (x : ArchiveRow). not (elem x.vehicle_id known) ≡ false) r raw
                        inside (trips-In to_json events blocked raw r m)))))
          ]
        ]
