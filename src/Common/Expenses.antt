-- ===== src/Common/Expenses.antt =====
-- common/domain.py: `money_cents` and `validate_expenses`. A Decimal is a sign, a coefficient and a
-- power of ten, or one constructor for infinities and NaN, since `is_finite` refuses them all. The
-- text that `Decimal` reads and the product by 100, which the context in force rounds and which raises
-- decimal.Overflow, are parameters.
pub mod Sorted
pub mod Total
mod Tests
use fleet_lambda_platform.Base.{
  ℕ, ◌+◌, ◌*◌, ◌^◌, ◌/◌, ◌%◌, String, Bool, true, false, ◌||◌, ◌&&◌, not, Option, none, some, List,
  [], ◌∷◌, map, all, any, elem, if◌then◌else◌, eqb, leb, ◌==◌, string_eq, nat_eq, option_eq,
  list_eq,
}
use fleet_lambda_platform.Base.Dict.{lookup, contains}
use fleet_lambda_platform.Base.Int.{ℤ, pos, negsuc}
use fleet_lambda_platform.Base.Paths.{codes}
use fleet_lambda_platform.Base.Result.{
  Result, Exn, ok, err, value_error, type_error, invalid_operation, overflow_error, raise_if, ◌>>=◌,
  ◌>>◌,
}
use fleet_lambda_platform.Common.Domain.{Expense}

pub data Decimal : Type 0 where
  finite : Bool → ℕ → ℤ → Decimal
  not_finite : Decimal

abbrev pub is_finite : Decimal → Bool
is_finite (finite negative c e) = true
is_finite not_finite = false

-- amount < 0, where a zero may have a sign
abbrev pub is_negative : Decimal → Bool
is_negative (finite negative c e) = negative && not (eqb c 0)
is_negative not_finite = false

-- amount <= bound, of an amount that is not negative
abbrev pub is_at_most : ℕ → Decimal → Bool
is_at_most bound (finite negative c (pos k)) = leb (c * 10 ^ k) bound
is_at_most bound (finite negative c (negsuc k)) = leb c (bound * 10 ^ (k + 1))
is_at_most bound not_finite = false

-- amount == amount.to_integral_value()
abbrev pub is_whole : Decimal → Bool
is_whole (finite negative c (pos k)) = true
is_whole (finite negative c (negsuc k)) = eqb (c % 10 ^ (k + 1)) 0
is_whole not_finite = true

-- int(amount), of an amount that is not negative
abbrev pub to_int : Decimal → Result ℕ
to_int (finite negative c (pos k)) = ok (c * 10 ^ k)
to_int (finite negative c (negsuc k)) = ok (c / 10 ^ (k + 1))
to_int not_finite = err (overflow_error "cannot convert Infinity to integer")

-- A row as csv.DictReader gives it: a short row has None in the last columns.
abbrev pub CsvRow : Type 0
CsvRow = List (String × Option String)

abbrev pub expense_fields : List String
expense_fields =
    "vehicle_id" ∷ "fuel_cost" ∷ "maintenance_cost" ∷ "distance_covered" ∷ "service_flag"
    ∷ "report_date" ∷ []

pub record RejectedRow : Type 0 where
  pub row_number : ℕ
  pub reason : Exn
  pub row : CsvRow

pub record SortedRows : Type 0 where
  pub valid : List Expense
  pub rejected : List RejectedRow

-- distance.is_finite() and 0 <= distance <= 2000
abbrev pub is_plausible : Decimal → Bool
is_plausible d = is_finite d && not (is_negative d) && is_at_most 2000 d

-- row.get(name)
abbrev pub cell : String → CsvRow → Option String
cell name row = elim (lookup name row) [ none ↦ none | some v ↦ v ]

-- str(row[name])
abbrev pub shown : Option String → String
shown none = "None"
shown (some s) = s

-- counts[vehicle]
unfoldable pub occurrences : List CsvRow → String → ℕ
occurrences [] vehicle = 0
occurrences (row ∷ rows) vehicle =
    (if cell "vehicle_id" row == some vehicle then 1 else 0) + occurrences rows vehicle

abbrev pub lower_code : ℕ → ℕ
lower_code c = if leb 65 c && leb c 90 then c + 32 else c

abbrev pub is_flag : String → Bool
is_flag s = any (λ word. map lower_code (codes s) == codes word) ("true" ∷ "false" ∷ "0" ∷ "1" ∷ [])

abbrev pub known_vehicle : List String → Option String → Result String
known_vehicle known none = err (value_error "Unknown vehicle_id")
known_vehicle known (some v) = if elem v known then ok v else err (value_error "Unknown vehicle_id")

-- except (ValueError, TypeError, InvalidOperation)
abbrev pub is_caught : Exn → Bool
is_caught (value_error m) = true
is_caught (type_error m) = true
is_caught invalid_operation = true
is_caught _ = false

abbrev pub add_valid : Expense → SortedRows → SortedRows
add_valid e out = record out { valid = e ∷ out.valid }

abbrev pub add_rejected : RejectedRow → SortedRows → SortedRows
add_rejected r out = record out { rejected = r ∷ out.rejected }

module _ (decimal : String → Option Decimal) (times_100 : Decimal → Result Decimal) where
  unfoldable pub decimal_of : Exn → Option String → Result Decimal
  decimal_of failure value = elim (decimal (shown value)) [ none ↦ err failure | some d ↦ ok d ]

  unfoldable pub money_of : Decimal → Result ℕ
  money_of amount = do
    raise_if (not (is_finite amount) || is_negative amount)
        (value_error "Money must be nonnegative")
    cents ← times_100 amount
    raise_if (not (is_whole cents)) (value_error "Money must have at most two decimal places")
    to_int cents

  unfoldable pub money_cents : Option String → Result ℕ
  unfolding decimal_of money_of
  money_cents value = do
    amount ← decimal_of (value_error "Invalid currency amount") value
    money_of amount

  -- the checks from the distance on
  unfoldable pub check_amounts : CsvRow → String → Result Expense
  unfolding decimal_of money_cents
  check_amounts row vehicle = do
    distance ← decimal_of invalid_operation (cell "distance_covered" row)
    raise_if (not (is_plausible distance)) (value_error "Implausible distance_covered")
    raise_if (not (is_flag (shown (cell "service_flag" row)))) (value_error "Invalid service_flag")
    fuel ← money_cents (cell "fuel_cost" row)
    maintenance ← money_cents (cell "maintenance_cost" row)
    ok (record { vehicle_id = vehicle; fuel_cents = fuel; maintenance_cents = maintenance })

  module _ (counts : String → ℕ) (report_date : String) (known_vehicles : List String) where
    -- the checks from the count on
    unfoldable pub check_known : CsvRow → String → Result Expense
    unfolding check_amounts
    check_known row vehicle = do
      raise_if (not (eqb (counts vehicle) 1)) (value_error "Duplicate vehicle_id")
      raise_if (not (cell "report_date" row == some report_date))
          (value_error "Incorrect report_date")
      check_amounts row vehicle

    unfoldable pub check_row : CsvRow → Result Expense
    unfolding check_known
    check_row row = do
      raise_if (not (all (λ name. contains name row) expense_fields))
          (value_error "Missing expense columns")
      vehicle ← known_vehicle known_vehicles (cell "vehicle_id" row)
      check_known row vehicle

    -- what a row adds to the two lists
    abbrev pub place : ℕ → CsvRow → Result Expense → Result (SortedRows → SortedRows)
    place n row (ok e) = ok (add_valid e)
    place n row (err raised) =
        if is_caught raised
        then ok (add_rejected (record { row_number = n; reason = raised; row = row }))
        else err raised

    unfoldable pub sort_rows : ℕ → List CsvRow → Result SortedRows
    unfolding check_row
    sort_rows n [] = ok (record { valid = []; rejected = [] })
    sort_rows n (row ∷ rows) = do
      add ← place n row (check_row row)
      rest ← sort_rows (n + 1) rows
      ok (add rest)

  unfoldable pub validate_expenses : List CsvRow → String → List String → Result SortedRows
  unfolding sort_rows occurrences
  validate_expenses rows report_date known_vehicles =
      sort_rows (occurrences rows) report_date known_vehicles 2 rows
