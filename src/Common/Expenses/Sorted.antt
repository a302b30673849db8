-- ===== src/Common/Expenses/Sorted.antt =====
-- What `validate_expenses` of common/domain.py makes of the rows of a file.
use fleet_lambda_platform.Base.{
  not-false→true, ℕ, ◌+◌, ◌≤◌, String, true, false, not, Option, some, none, List, [], ◌∷◌, map,
  all, length, elem, eqb, eqb_iff, ◌≡◌, refl, ◌⊎◌, inl, inr, arith, ◌==◌, string_eq, option_eq,
  Bool-cases, All, All_weaken, ap, sym, subst, ◌∙◌,
}
use fleet_lambda_platform.Base.Dict.{contains}
use fleet_lambda_platform.Base.Grouping.{IsDistinct}
use fleet_lambda_platform.Base.Result.{
  Result, ok, err, value_error, invalid_operation, raise_if, ◌>>=◌, ◌>>◌, >>=-eq-ok, raise_if-ok,
  ok-injective,
}
use fleet_lambda_platform.Common.Domain.{Expense}
use fleet_lambda_platform.Common.Expenses.{
  Decimal, CsvRow, SortedRows, RejectedRow, expense_fields, cell, occurrences, known_vehicle,
  is_caught, decimal_of, money_cents, is_flag, shown, check_known, check_amounts, is_plausible,
  check_row, place, sort_rows, validate_expenses, add_valid, add_rejected,
}

known_vehicle-ok :
    (known : List String) (c : Option String) (v : String)
    → known_vehicle known c ≡ ok v
    → (c ≡ some v) × (elem v known ≡ true)
known_vehicle-ok known none v h = cc
known_vehicle-ok known (some w) v h = elim (Bool-cases (elem w known)) [
  | inl p ↦ let same = ok-injective (rw p at h) in (rw same refl, rw same at p)
  | inr q ↦ cc (rw q at h)
]

module _ (known : List String) (counts : String → ℕ) where
  -- a row that was let pass, and is among these rows
  abbrev IsAmong : List CsvRow → Expense → Type 0
  IsAmong rows e =
      (elem e.vehicle_id known ≡ true)
      × (counts e.vehicle_id ≡ 1)
      × (1 ≤ occurrences rows e.vehicle_id)

  elem-occurs :
      (rows : List CsvRow) (v : String) (es : List Expense)
      → All (IsAmong rows) es
      → elem v (map (λ (e : Expense). e.vehicle_id) es) ≡ true
      → 1 ≤ occurrences rows v
  elem-occurs rows v [] all_among h = cc
  elem-occurs rows v (e ∷ es) ((_, _, among), rest) h = elim (Bool-cases (v == e.vehicle_id)) [
    | inl p ↦ rw ((string_eq.beq_iff v e.vehicle_id).0 p) among
    | inr q ↦ elem-occurs rows v es rest (rw q at h)
  ]

  abbrev pub AreSorted : List CsvRow → SortedRows → Type 0
  AreSorted rows out =
      (length out.valid + length out.rejected ≡ length rows)
      × All (IsAmong rows) out.valid
      × IsDistinct (map (λ (e : Expense). e.vehicle_id) out.valid)

  occurrences-tail :
      (row : CsvRow) (rows : List CsvRow) (v : String)
      → occurrences rows v ≤ occurrences (row ∷ rows) v
  unfolding occurrences
  occurrences-tail row rows v = omega arith

  occurrences-head :
      (row : CsvRow) (rows : List CsvRow) (v : String)
      → cell "vehicle_id" row ≡ some v
      → occurrences (row ∷ rows) v ≡ 1 + occurrences rows v
  unfolding occurrences
  occurrences-head row rows v h = rw (h, (string_eq.beq_iff v v).1 refl) refl

  IsAmong-tail :
      (row : CsvRow) (rows : List CsvRow) (es : List Expense)
      → All (IsAmong rows) es
      → All (IsAmong (row ∷ rows)) es
  IsAmong-tail row rows es =
      All_weaken (IsAmong rows) (IsAmong (row ∷ rows)) es
        (λ e (there, once, m). (there, once, omega (arith, occurrences-tail row rows e.vehicle_id)))

module _ (decimal : String → Option Decimal) (times_100 : Decimal → Result Decimal) where
  check_amounts-ok :
      (row : CsvRow) (v : String) (e : Expense)
      → check_amounts decimal times_100 row v ≡ ok e
      → v ≡ e.vehicle_id
  unfolding check_amounts
  check_amounts-ok row v e h =
      let (distance, d3, k3) =
        >>=-eq-ok (decimal_of decimal times_100 invalid_operation (cell "distance_covered" row)) _
          h in
      let (_, d4, k4) =
        >>=-eq-ok
          (raise_if (not (is_plausible distance)) (value_error "Implausible distance_covered"))
          (λ _.
            raise_if (not (is_flag (shown (cell "service_flag" row))))
              (value_error "Invalid service_flag")
            >> (money_cents decimal times_100 (cell "fuel_cost" row) >>= λ f.
                money_cents decimal times_100 (cell "maintenance_cost" row) >>= λ m.
                ok (record { vehicle_id = v; fuel_cents = f; maintenance_cents = m })))
          k3 in
      let (_, d5, k5) =
        >>=-eq-ok
          (raise_if (not (is_flag (shown (cell "service_flag" row))))
            (value_error "Invalid service_flag"))
          (λ _. money_cents decimal times_100 (cell "fuel_cost" row) >>= λ f.
            money_cents decimal times_100 (cell "maintenance_cost" row) >>= λ m.
            ok (record { vehicle_id = v; fuel_cents = f; maintenance_cents = m }))
          k4 in
      let (fuel, d6, k6) =
        >>=-eq-ok (money_cents decimal times_100 (cell "fuel_cost" row))
          (λ f. money_cents decimal times_100 (cell "maintenance_cost" row) >>= λ m.
            ok (record { vehicle_id = v; fuel_cents = f; maintenance_cents = m }))
          k5 in
      let (maintenance, d7, k7) =
        >>=-eq-ok (money_cents decimal times_100 (cell "maintenance_cost" row))
          (λ m. ok (record { vehicle_id = v; fuel_cents = fuel; maintenance_cents = m })) k6 in
      ap (λ (x : Expense). x.vehicle_id) (ok-injective k7)

  module _ (counts : String → ℕ) (report_date : String) (known : List String) where
    -- what the checks of a row have found when they let it pass
    abbrev IsFound : CsvRow → Expense → Type 0
    IsFound row e =
        (cell "vehicle_id" row ≡ some e.vehicle_id)
        × (elem e.vehicle_id known ≡ true)
        × (counts e.vehicle_id ≡ 1)

    check_known-ok :
        (row : CsvRow) (v : String) (e : Expense)
        → check_known decimal times_100 counts report_date known row v ≡ ok e
        → (v ≡ e.vehicle_id) × (counts v ≡ 1)
    unfolding check_known
    check_known-ok row v e h =
        let (_, d1, k1) = >>=-eq-ok (raise_if (not (eqb (counts v) 1)) _) _ h in
        let (_, d2, k2) =
          >>=-eq-ok (raise_if (not (cell "report_date" row == some report_date)) _) _ k1 in
        (
          check_amounts-ok row v e k2,
          (eqb_iff (counts v) 1).0 (not-false→true _ (raise_if-ok _ _ _ d1)),
        )

    check_row-ok :
        (row : CsvRow) (e : Expense)
        → check_row decimal times_100 counts report_date known row ≡ ok e
        → IsFound row e
    unfolding check_row
    check_row-ok row e h =
        let (_, d1, k1) =
          >>=-eq-ok (raise_if (not (all (λ name. contains name row) expense_fields)) _) _ h in
        let (v, d2, k2) = >>=-eq-ok (known_vehicle known (cell "vehicle_id" row)) _ k1 in
        let (there, in_known) = known_vehicle-ok known (cell "vehicle_id" row) v d2 in
        let (same, once) = check_known-ok row v e k2 in
        (there ∙ ap some same, rw same at in_known, rw same at once)

    -- the row was let pass, or it was set aside
    place-ok :
        (n : ℕ) (row : CsvRow) (r : Result Expense) (add : SortedRows → SortedRows)
        → place decimal times_100 counts report_date known n row r ≡ ok add
        → ((e : Expense) × (r ≡ ok e) × (add ≡ add_valid e))
          ⊎ ((x : RejectedRow) × (add ≡ add_rejected x))
    place-ok n row (ok e) add h = inl (e, refl, sym (ok-injective h))
    place-ok n row (err raised) add h = elim (Bool-cases (is_caught raised)) [
      | inl p ↦ inr (_, sym (ok-injective (rw p at h)))
      | inr q ↦ cc (rw q at h)
    ]

    add_valid-AreSorted :
        (row : CsvRow) (rows : List CsvRow) (e : Expense) (out : SortedRows)
        → IsFound row e
        → occurrences (row ∷ rows) e.vehicle_id ≤ counts e.vehicle_id
        → AreSorted known counts rows out
        → AreSorted known counts (row ∷ rows) (add_valid e out)
    add_valid-AreSorted row rows e out (here, in_known, once) bound (total, among, distinct) =
        let head = occurrences-head known counts row rows e.vehicle_id here in
        let fresh : elem e.vehicle_id (map (λ (x : Expense). x.vehicle_id) out.valid) ≡ false =
          elim (Bool-cases (elem e.vehicle_id (map (λ (x : Expense). x.vehicle_id) out.valid))) [
            | inl p ↦
                let m = elem-occurs known counts rows e.vehicle_id out.valid among p in
                absurd (omega arith)
            | inr q ↦ q
          ] in
        (
          omega arith,
          ((in_known, once, omega arith), IsAmong-tail known counts row rows out.valid among),
          (fresh, distinct),
        )

    add_rejected-AreSorted :
        (row : CsvRow) (rows : List CsvRow) (x : RejectedRow) (out : SortedRows)
        → AreSorted known counts rows out
        → AreSorted known counts (row ∷ rows) (add_rejected x out)
    add_rejected-AreSorted row rows x out (total, among, distinct) =
        (omega arith, IsAmong-tail known counts row rows out.valid among, distinct)

    sort_rows-AreSorted :
        (n : ℕ) (rows : List CsvRow) (out : SortedRows)
        → sort_rows decimal times_100 counts report_date known n rows ≡ ok out
        → ((v : String) → occurrences rows v ≤ counts v)
        → AreSorted known counts rows out
    unfolding sort_rows
    sort_rows-AreSorted n [] out h bound =
        subst (AreSorted known counts []) (ok-injective h) (refl, tt, tt)
    sort_rows-AreSorted n (row ∷ rows) out h bound =
        let checked = check_row decimal times_100 counts report_date known row in
        let (add, placed, k1) =
          >>=-eq-ok (place decimal times_100 counts report_date known n row checked) _ h in
        let (rest, sorted, k2) =
          >>=-eq-ok (sort_rows decimal times_100 counts report_date known (n + 1) rows) _ k1 in
        let smaller : (v : String) → occurrences rows v ≤ counts v =
          λ v. omega (arith, bound v, occurrences-tail known counts row rows v) in
        let tail = sort_rows-AreSorted (n + 1) rows rest sorted smaller in
        let same : add rest ≡ out = ok-injective k2 in
        elim (place-ok n row checked add placed) [
          | inl (e, passed, by) ↦
              subst (AreSorted known counts (row ∷ rows)) (ap (λ f. f rest) (sym by) ∙ same) (
                add_valid-AreSorted row rows e rest (check_row-ok row e passed) (bound e.vehicle_id)
                  tail)
          | inr (x, by) ↦
              subst (AreSorted known counts (row ∷ rows)) (ap (λ f. f rest) (sym by) ∙ same)
                (add_rejected-AreSorted row rows x rest tail)
        ]

  -- When `validate_expenses` returns, every row of the file was either let pass or set aside, each
  -- vehicle that was let pass is a known one that the file names once, and none was let pass twice.
  pub validate_expenses-AreSorted :
      (rows : List CsvRow) (report_date : String) (known : List String) (out : SortedRows)
      → validate_expenses decimal times_100 rows report_date known ≡ ok out
      → AreSorted known (occurrences rows) rows out
  unfolding validate_expenses
  validate_expenses-AreSorted rows report_date known out h =
      sort_rows-AreSorted (occurrences rows) report_date known 2 rows out h (λ v. omega arith)
