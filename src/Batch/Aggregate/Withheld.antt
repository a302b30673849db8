-- ===== src/Batch/Aggregate/Withheld.antt =====
-- The vehicles for which `aggregate` of batch/spark_reconcile.py states a profit.
use fleet_lambda_platform.Base.{
  ℕ, String, Bool, true, false, not, Option, none, some, List, [], ◌∷◌, ◌++◌, map, keep, any, elem,
  In, In-map, map-In, In-keep, In-elem, append-In_left, ◌≡◌, refl, sym, ap, ◌∙◌, subst, inl, inr,
  Bool-cases, string_eq,
}
use fleet_lambda_platform.Base.Int.{ℤ}
use fleet_lambda_platform.Base.Result.{ok, ok-injective}
use fleet_lambda_platform.Base.Sort.{sort_by}
use fleet_lambda_platform.Common.Domain.{Expense, ReportRow, costs_of, name_le, profit_of}
use fleet_lambda_platform.Batch.Reconcile.{Output, Coverage}
use fleet_lambda_platform.Batch.Aggregate.{
  ArchiveRow, is_bad_event, event_conflicts, completed, is_bad_trip, conflicted, trips, vehicle_row,
  cover, coverage_of, status_of, profit_when, aggregate_rows, aggregate, is_outside,
}

-- A stated profit has its costs, and is the revenue less both.
profit_when-some :
    (c : Coverage) (revenue : ℕ) (cost : Option Expense) (p : ℤ)
    → profit_when (status_of c cost) revenue cost ≡ some p
    → (e : Expense) × (cost ≡ some e) × (p ≡ profit_of revenue e) × (c.conflict ≡ false)
profit_when-some c revenue none p h = cc
profit_when-some c revenue (some e) p h = elim (Bool-cases c.conflict) [
  | inl q ↦ cc (rw q at h)
  | inr q ↦ elim (Bool-cases c.complete) [
    | inl r ↦ (e, refl, cc (rw (q, r) at h), q)
    | inr r ↦ cc (rw (q, r) at h)
  ]
]

-- The row states a profit only if it is what the row's revenue leaves of its costs, and no archive row
-- of the vehicle belongs to an event with two contents or a blocked one.
pub record IsClean (to_json : ArchiveRow → String) (events blocked : List String)
    (raw : List ArchiveRow) (row : ReportRow) (profit : ℤ) : Type 0 where
  pub cost : Expense
  pub has_cost : row.cost ≡ some cost
  pub is_profit : profit ≡ profit_of row.revenue_cents cost
  pub no_conflict :
      (r : ArchiveRow)
      → In r raw
      → r.vehicle_id ≡ row.vehicle_id
      → is_bad_event to_json events blocked raw r.event_id ≡ false

coverage_of-conflict :
    (step : ℕ × ℕ) (sim_start start : ℕ) (conflict : Bool) (seen : List (ℕ × String))
    → (coverage_of step sim_start start conflict seen).conflict ≡ conflict
coverage_of-conflict step sim_start start conflict [] = refl
coverage_of-conflict step sim_start start conflict (s ∷ seen) = refl

module _ (to_json : ArchiveRow → String) (approx_count : List String → ℕ) (step : ℕ × ℕ)
    (sim_start report_date : ℕ) (known events blocked : List String) (raw : List ArchiveRow) where
  cover-conflict :
      (v : String)
      → (cover to_json approx_count step sim_start report_date known events blocked raw v).conflict
        ≡ elem v (conflicted to_json events blocked raw)
  unfolding cover
  cover-conflict v = coverage_of-conflict _ _ _ _ _

  -- The vehicle of a row of a bad event is conflicted.
  conflicted-bad_event :
      (r : ArchiveRow)
      → In r raw
      → is_bad_event to_json events blocked raw r.event_id ≡ true
      → elem r.vehicle_id (conflicted to_json events blocked raw) ≡ true
  unfolding conflicted
  conflicted-bad_event r m h =
      let bad = event_conflicts to_json events blocked raw in
      let others =
        keep (λ (x : ArchiveRow). is_bad_trip to_json events blocked raw x.trip_id)
          (completed to_json events blocked raw) in
      In-elem r.vehicle_id (map (λ (x : ArchiveRow). x.vehicle_id) (bad ++ others)) (
        In-map (λ (x : ArchiveRow). x.vehicle_id) r (bad ++ others)
          (append-In_left r bad others
            (In-keep (λ x. is_bad_event to_json events blocked raw x.event_id) r raw m h)))

  row-IsClean :
      (expenses : List Expense) (row : ReportRow) (p : ℤ)
      → In row
          (aggregate_rows to_json approx_count step sim_start report_date known events blocked raw
            expenses).vehicles
      → row.profit_cents ≡ some p
      → IsClean to_json events blocked raw row p
  unfolding aggregate_rows
  row-IsClean expenses row p m h =
      let counted = trips to_json events blocked raw in
      let look = cover to_json approx_count step sim_start report_date known events blocked raw in
      let (v, _, same) =
        map-In (vehicle_row counted approx_count look (costs_of expenses [])) row
          (sort_by name_le known) m in
      let made = vehicle_row counted approx_count look (costs_of expenses []) v in
      let (e, has, profit, free) =
        profit_when-some (look v) made.revenue_cents made.cost p
          (ap (λ x. x.profit_cents) (sym same) ∙ h) in
      record {
        cost = e;
        has_cost = ap (λ x. x.cost) same ∙ has;
        is_profit = profit ∙ sym (ap (λ x. profit_of x.revenue_cents e) same);
        no_conflict = λ r i its.
            elim (Bool-cases (is_bad_event to_json events blocked raw r.event_id)) [
              | inr q ↦ q
              | inl q ↦ cc (
                conflicted-bad_event r i q,
                sym (cover-conflict v) ∙ free,
                its ∙ ap (λ x. x.vehicle_id) same,
              )
            ];
      }

-- In an aggregation of archive files that does not raise, each stated profit is its row's revenue less
-- both costs of the vehicle, and no archive row of that vehicle belongs to an event with two contents
-- or to a blocked event.
pub aggregate-IsClean :
    {File : Type 0} (to_json : ArchiveRow → String) (approx_count : List String → ℕ) (step : ℕ × ℕ)
    (sim_start report_date : ℕ) (known : List String) (read : List File → List ArchiveRow)
    (file : File) (files : List File) (expenses : List Expense) (events blocked : List String)
    (out : Output) (row : ReportRow) (p : ℤ)
    → aggregate to_json approx_count step sim_start report_date known read
        (file ∷ files)
        expenses
        events
        blocked
      ≡ ok out
    → In row out.vehicles
    → row.profit_cents ≡ some p
    → IsClean to_json events blocked (read (file ∷ files)) row p
unfolding aggregate
aggregate-IsClean to_json approx_count step sim_start report_date known read file files expenses
      events blocked out row p h m stated =
    let raw = read (file ∷ files) in
    elim (Bool-cases (
      any (λ r. is_outside to_json approx_count step sim_start report_date known r.event_time)
        raw)) [
          | inl q ↦ cc (rw (q, aggregate) at h)
          | inr q ↦ elim (Bool-cases (any (λ r. not (elem r.vehicle_id known)) raw)) [
            | inl s ↦ cc (rw (q, s, aggregate) at h)
            | inr s ↦
                let same = ok-injective (rw (q, s, aggregate) at h) in
                row-IsClean to_json approx_count step sim_start report_date known events blocked raw
                  expenses row p (subst (λ o. In row o.vehicles) (sym same) m) stated
          ]
        ]
