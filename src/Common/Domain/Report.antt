-- ===== src/Common/Domain/Report.antt =====
-- What `reconcile` of common/domain.py reports: the totals of its rows.
use fleet_lambda_platform.Base.{
  ℕ, String, not, Option, some, List, [], ◌∷◌, map, keep, elem, ◌≡◌, ◌↔◌, refl, sym, ◌∙◌, arith,
  inl, inr, length, sum_by, sum_by-map, sum_by_ext, sum_by-append, Bool-cases, Option-cases,
  string_eq,
}
use fleet_lambda_platform.Base.Dict.{lookup, keys, share, NodupKeys, sum_by-keys, lookup_not_key}
use fleet_lambda_platform.Base.Sort.{sort_by, sum_by-sort_by}
use fleet_lambda_platform.Base.Result.{ok, >>=-eq-ok, ok-injective}
use fleet_lambda_platform.Common.Domain.{
  Value, Object, Stamp, Trip, Books, Expense, ReportRow, record_events, costs_of, union_keys,
  name_le, report_row, reconcile,
}
use fleet_lambda_platform.Common.Domain.Counting.{
  IsBooked, Completes, record_events-Adds, share_count, share_revenue,
}

row_trips :
    (totals : List (String × (ℕ × ℕ))) (costs : List (String × Expense)) (v : String)
    → (report_row totals costs v).trips ≡ share (λ t. t.0) (lookup v totals)
row_trips totals costs v = elim (Option-cases (lookup v costs)) [
  | inl e ↦ rw (e, report_row) (sym (share_count (lookup v totals)))
  | inr (c, e) ↦ rw (e, report_row) (sym (share_count (lookup v totals)))
]

row_revenue :
    (totals : List (String × (ℕ × ℕ))) (costs : List (String × Expense)) (v : String)
    → (report_row totals costs v).revenue_cents ≡ share (λ t. t.1) (lookup v totals)
row_revenue totals costs v = elim (Option-cases (lookup v costs)) [
  | inl e ↦ rw (e, report_row) (sym (share_revenue (lookup v totals)))
  | inr (c, e) ↦ rw (e, report_row) (sym (share_revenue (lookup v totals)))
]

-- Names without totals add nothing.
others_add_nothing :
    (f : ℕ × ℕ → ℕ) (totals : List (String × (ℕ × ℕ))) (js : List String)
    → sum_by (λ j. share f (lookup j totals)) (keep (λ j. not (elem j (keys totals))) js) ≡ 0
others_add_nothing f totals [] = refl
others_add_nothing f totals (j ∷ js) =
    let ih = others_add_nothing f totals js in
    elim (Bool-cases (elem j (keys totals))) [
      | inl there ↦ rw there ih
      | inr absent ↦ rw (absent, lookup_not_key j totals absent) (omega (arith, ih))
    ]

-- A column of the report sums up to the same column of the totals.
column_total :
    (f : ℕ × ℕ → ℕ) (column : ReportRow → ℕ) (totals : List (String × (ℕ × ℕ)))
    (costs : List (String × Expense))
    → ((v : String) → column (report_row totals costs v) ≡ share f (lookup v totals))
    → NodupKeys totals
    → sum_by column
        (map (report_row totals costs) (sort_by name_le (union_keys (keys totals) (keys costs))))
      ≡ sum_by (λ e. f e.1) totals
column_total f column totals costs h nodup =
    let vs = union_keys (keys totals) (keys costs) in
    let others = keep (λ j. not (elem j (keys totals))) (keys costs) in
    sum_by-map column (report_row totals costs) (sort_by name_le vs)
    ∙ sum_by_ext _ (λ v. share f (lookup v totals)) (sort_by name_le vs) h
    ∙ sum_by-sort_by name_le (λ v. share f (lookup v totals)) vs
    ∙ omega (
      arith,
      sum_by-append (λ v. share f (lookup v totals)) (keys totals) others,
      others_add_nothing f totals (keys costs),
      sum_by-keys f totals nodup,
    )

module _ (fromisoformat : Value → Option Stamp) (report_date : ℕ) where
  -- The trips that the report counts: exactly the completions of the day, none twice.
  abbrev pub CountsOnce : List Object → List ReportRow → Type 0
  CountsOnce events rows =
      (trips : List (String × Trip)) × NodupKeys trips
      × ((key : String) (trip : Trip)
          → (lookup key trips ≡ some trip) ↔ Completes fromisoformat report_date events key trip)
      × (sum_by (λ r. r.trips) rows ≡ length trips)
      × (sum_by (λ r. r.revenue_cents) rows ≡ sum_by (λ e. e.1.fare) trips)

  -- A report that `reconcile` returns counts every completed trip of the day once, however often
  -- its completion arrived: there is a table of trips without a repeated key, which has a trip
  -- exactly if one of the valid events completes it on the day, and the trips and the revenue of
  -- all rows add up to the number of these trips and to their fares.
  pub reconcile-CountsOnce :
      (events : List Object) (expenses : List Expense) (rows : List ReportRow)
      → reconcile fromisoformat report_date events expenses ≡ ok rows
      → CountsOnce events rows
  unfolding reconcile
  reconcile-CountsOnce events expenses rows h =
      let start : Books = record { trips = []; totals = [] } in
      let (books, r, same) = >>=-eq-ok (record_events fromisoformat report_date events start) _ h in
      let begun : IsBooked start = record {
        trips_once = tt;
        vehicles_once = tt;
        counts_agree = refl;
        revenue_agrees = refl;
      } in
      let (b, adds) = record_events-Adds fromisoformat report_date events start books r begun in
      let costs = costs_of expenses [] in
      (
        books.trips,
        b.trips_once,
        λ k t. (
          λ e. elim ((adds k t).0 e) [ inl none_yet ↦ cc | inr c ↦ c ],
          λ c. (adds k t).1 (inr c),
        ),
        rw (← ok-injective same) (
            column_total (λ t. t.0) (λ x. x.trips) books.totals costs (row_trips books.totals costs)
              b.vehicles_once
            ∙ b.counts_agree),
        rw (← ok-injective same) (
            column_total (λ t. t.1) (λ x. x.revenue_cents) books.totals costs
              (row_revenue books.totals costs) b.vehicles_once
            ∙ b.revenue_agrees),
      )
