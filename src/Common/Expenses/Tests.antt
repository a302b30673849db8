-- ===== src/Common/Expenses/Tests.antt =====
-- Runs of `validate_expenses` of common/domain.py on a file of five rows: one is let pass, two name the
-- same vehicle, one an unknown vehicle, and one is short.
use fleet_lambda_platform.Base.{
  ℕ, ◌*◌, String, false, Option, none, some, List, [], All, ◌∷◌, ◌≡◌, refl, if◌then◌else◌, ◌==◌,
  string_eq, list_beq,
}
use fleet_lambda_platform.Base.Int.{pos, negsuc}
use fleet_lambda_platform.Base.Result.{Result, ok, err, decimal_overflow, value_error}
use fleet_lambda_platform.Common.Expenses.{
  Decimal, finite, not_finite, CsvRow, SortedRows, RejectedRow, cell, occurrences,
  validate_expenses,
}
use fleet_lambda_platform.Common.Expenses.Sorted.{AreSorted, validate_expenses-AreSorted}
use fleet_lambda_platform.Common.Expenses.Total.{IsInRange, IsRowInRange, validate_expenses-returns}

-- the few texts of the file
abbrev decimal : String → Option Decimal
decimal s =
    if s == "420.50"
    then some (finite false 42050 (negsuc 1))
    else (if s == "12" then some (finite false 12 (pos 0)) else none)

abbrev times_100 : Decimal → Result Decimal
times_100 (finite negative c e) = ok (finite negative (c * 100) e)
times_100 not_finite = ok not_finite

abbrev row : String → CsvRow
row vehicle =
    ("vehicle_id", some vehicle)
    ∷ ("fuel_cost", some "420.50")
    ∷ ("maintenance_cost", some "12")
    ∷ ("distance_covered", some "12")
    ∷ ("service_flag", some "True")
    ∷ ("report_date", some "2026-03-01")
    ∷ []

abbrev rows : List CsvRow
rows = row "V1" ∷ row "V2" ∷ row "V3" ∷ row "V2" ∷ (("vehicle_id", some "V4") ∷ []) ∷ []

abbrev known : List String
known = "V1" ∷ "V2" ∷ "V4" ∷ []

abbrev rejected_row : ℕ → String → CsvRow → RejectedRow
rejected_row n message r = record { row_number = n; reason = value_error message; row = r }

abbrev sorted_rows : SortedRows
sorted_rows = record {
  valid = record { vehicle_id = "V1"; fuel_cents = 42050; maintenance_cents = 1200 } ∷ [];
  rejected =
      rejected_row 3 "Duplicate vehicle_id" (row "V2")
      ∷ rejected_row 4 "Unknown vehicle_id" (row "V3")
      ∷ rejected_row 5 "Duplicate vehicle_id" (row "V2")
      ∷ rejected_row 6 "Missing expense columns" (("vehicle_id", some "V4") ∷ [])
      ∷ [];
}

validate_expenses_rows :
    validate_expenses decimal times_100 rows "2026-03-01" known ≡ ok sorted_rows
unfolding validate_expenses list_beq
validate_expenses_rows = refl

-- An amount whose product by 100 leaves the range of the context: the exception is not handled.
validate_expenses_overflow :
    validate_expenses decimal (λ d. err decimal_overflow) rows "2026-03-01" known
    ≡ err decimal_overflow
unfolding validate_expenses list_beq
validate_expenses_overflow = refl

validate_expenses-AreSorted_example : AreSorted known (occurrences rows) rows sorted_rows
validate_expenses-AreSorted_example =
    validate_expenses-AreSorted decimal times_100 rows "2026-03-01" known sorted_rows
      validate_expenses_rows

abbrev fits : (v : Option String) → IsInRange decimal times_100 v
fits v s c e read = (s, c * 100, e, refl)

abbrev row_fits : (r : CsvRow) → IsRowInRange decimal times_100 r
row_fits r = (fits (cell "fuel_cost" r), fits (cell "maintenance_cost" r))

abbrev rows_fit : (rs : List CsvRow) → All (IsRowInRange decimal times_100) rs
rows_fit [] = tt
rows_fit (r ∷ rs) = (row_fits r, rows_fit rs)

validate_expenses-returns_example :
    (out : SortedRows) × (validate_expenses decimal times_100 rows "2026-03-01" known ≡ ok out)
validate_expenses-returns_example =
    validate_expenses-returns decimal times_100 rows "2026-03-01" known (rows_fit rows)
