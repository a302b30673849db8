-- ===== src/Common/Expenses/Total.antt =====
-- When `validate_expenses` of common/domain.py returns, whatever the file holds.
use fleet_lambda_platform.Base.{
  ℕ, ◌+◌, String, Bool, true, false, not, Option, some, none, List, [], ◌∷◌, all, elem, eqb, ◌≡◌,
  refl, inl, inr, ◌==◌, string_eq, option_eq, Bool-cases, Option-cases, All,
}
use fleet_lambda_platform.Base.Dict.{contains}
use fleet_lambda_platform.Base.Int.{ℤ, pos, negsuc}
use fleet_lambda_platform.Base.Result.{Result, Exn, ok, err, value_error, raise_if, ◌>>=◌, ◌>>◌}
use fleet_lambda_platform.Common.Domain.{Expense}
use fleet_lambda_platform.Common.Expenses.{
  Decimal, finite, not_finite, CsvRow, SortedRows, add_rejected, expense_fields, cell, occurrences,
  known_vehicle, is_caught, decimal_of, money_of, money_cents, is_negative, is_whole, is_flag,
  to_int, shown, check_known, check_amounts, is_plausible, check_row, place, sort_rows,
  validate_expenses,
}

-- no exception, or one that the loop over the rows handles
abbrev IsHandled : {A : Type 0} → Result A → Type 0
IsHandled (ok a) = Unit
IsHandled (err e) = is_caught e ≡ true

>>=-IsHandled :
    {A B : Type 0} (call : Result A) (next : A → Result B)
    → IsHandled call
    → ((a : A) → IsHandled (next a))
    → IsHandled (call >>= next)
>>=-IsHandled (ok a) next h k = k a
>>=-IsHandled (err e) next h k = h

raise_if-IsHandled :
    {B : Type 0} (c : Bool) (message : String) (next : Result B)
    → IsHandled next
    → IsHandled (raise_if c (value_error message) >> next)
raise_if-IsHandled true message next h = refl
raise_if-IsHandled false message next h = h

to_int-IsHandled : (s : Bool) (c : ℕ) (e : ℤ) → IsHandled (to_int (finite s c e))
to_int-IsHandled s c (pos k) = tt
to_int-IsHandled s c (negsuc k) = tt

known_vehicle-IsHandled :
    (known : List String) (c : Option String) → IsHandled (known_vehicle known c)
known_vehicle-IsHandled known none = refl
known_vehicle-IsHandled known (some v) = elim (Bool-cases (elem v known)) [
  | inl p ↦ rw p tt
  | inr q ↦ rw q refl
]

module _ (decimal : String → Option Decimal) (times_100 : Decimal → Result Decimal) where
  -- the product by 100 of the amount in a cell, if it is finite, is in the range of the decimal context
  abbrev pub IsInRange : Option String → Type 0
  IsInRange value =
      (s : Bool) (c : ℕ) (e : ℤ)
      → decimal (shown value) ≡ some (finite s c e)
      → (s' : Bool) × (c' : ℕ) × (e' : ℤ) × (times_100 (finite s c e) ≡ ok (finite s' c' e'))

  abbrev pub IsRowInRange : CsvRow → Type 0
  IsRowInRange row = IsInRange (cell "fuel_cost" row) × IsInRange (cell "maintenance_cost" row)

  decimal_of-IsHandled :
      (failure : Exn) (value : Option String)
      → is_caught failure ≡ true
      → IsHandled (decimal_of decimal times_100 failure value)
  unfolding decimal_of
  decimal_of-IsHandled failure value h = elim (Option-cases (decimal (shown value))) [
    | inl p ↦ rw (p, decimal_of) h
    | inr (d, p) ↦ rw (p, decimal_of) tt
  ]

  money_of-IsHandled :
      (value : Option String) (amount : Decimal)
      → IsInRange value
      → decimal (shown value) ≡ some amount
      → IsHandled (money_of decimal times_100 amount)
  unfolding money_of
  money_of-IsHandled value not_finite in_range p = refl
  money_of-IsHandled value (finite s c e) in_range p =
      let (s', c', e', product) = in_range s c e p in
      raise_if-IsHandled (is_negative (finite s c e)) _ _ (
        rw product
          (raise_if-IsHandled (not (is_whole (finite s' c' e'))) _ _ (to_int-IsHandled s' c' e')))

  money_cents-IsHandled :
      (value : Option String) → IsInRange value → IsHandled (money_cents decimal times_100 value)
  unfolding money_cents decimal_of
  money_cents-IsHandled value in_range = elim (Option-cases (decimal (shown value))) [
    | inl p ↦ rw (p, money_cents, decimal_of) refl
    | inr (d, p) ↦ rw (p, money_cents, decimal_of) (money_of-IsHandled value d in_range p)
  ]

  check_amounts-IsHandled :
      (row : CsvRow) (v : String)
      → IsRowInRange row
      → IsHandled (check_amounts decimal times_100 row v)
  unfolding check_amounts
  check_amounts-IsHandled row v (fuel_fits, maintenance_fits) =
      >>=-IsHandled _ _ (decimal_of-IsHandled _ (cell "distance_covered" row) refl) (λ d.
        raise_if-IsHandled (not (is_plausible d)) _ _ (
          raise_if-IsHandled (not (is_flag (shown (cell "service_flag" row)))) _ _ (
            >>=-IsHandled _ _ (money_cents-IsHandled (cell "fuel_cost" row) fuel_fits) (λ fuel.
              >>=-IsHandled _ _
                (money_cents-IsHandled (cell "maintenance_cost" row) maintenance_fits) (λ m. tt)))))

  module _ (counts : String → ℕ) (report_date : String) (known : List String) where
    check_row-IsHandled :
        (row : CsvRow)
        → IsRowInRange row
        → IsHandled (check_row decimal times_100 counts report_date known row)
    unfolding check_row check_known
    check_row-IsHandled row fits =
        raise_if-IsHandled (not (all (λ name. contains name row) expense_fields)) _ _ (
          >>=-IsHandled _ _ (known_vehicle-IsHandled known (cell "vehicle_id" row)) (λ v.
            raise_if-IsHandled (not (eqb (counts v) 1)) _ _ (
              raise_if-IsHandled (not (cell "report_date" row == some report_date)) _ _
                (check_amounts-IsHandled row v fits))))

    place-returns :
        (n : ℕ) (row : CsvRow) (r : Result Expense)
        → IsHandled r
        → (add : SortedRows → SortedRows) × (place decimal times_100 counts report_date known n row
              r
            ≡ ok add)
    place-returns n row (ok e) h = (_, refl)
    place-returns n row (err raised) h =
        (add_rejected (record { row_number = n; reason = raised; row = row }), rw h refl)

    sort_rows-returns :
        (n : ℕ) (rows : List CsvRow)
        → All IsRowInRange rows
        → (out : SortedRows) × (sort_rows decimal times_100 counts report_date known n rows
            ≡ ok out)
    unfolding sort_rows
    sort_rows-returns n [] fits = (_, refl)
    sort_rows-returns n (row ∷ rows) (fit, fits) =
        let (add, placed) =
          place-returns n row (check_row decimal times_100 counts report_date known row)
            (check_row-IsHandled row fit) in
        let (rest, sorted) = sort_rows-returns (n + 1) rows fits in
        (add rest, rw (placed, sorted) refl)

  -- If the product by 100 of each finite amount of money in the rows is in the range of the decimal
  -- context, `validate_expenses` returns: whatever else the rows hold, none makes it raise.
  pub validate_expenses-returns :
      (rows : List CsvRow) (report_date : String) (known : List String)
      → All IsRowInRange rows
      → (out : SortedRows) × (validate_expenses decimal times_100 rows report_date known ≡ ok out)
  unfolding validate_expenses
  validate_expenses-returns rows report_date known fits =
      sort_rows-returns (occurrences rows) report_date known 2 rows fits
