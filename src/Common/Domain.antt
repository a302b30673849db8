-- ===== src/Common/Domain.antt =====
-- common/domain.py: validation of an event, and the reconciliation of completed trips with the
-- expenses of a day. A decoded JSON value is a `Value`: a finite float is the dyadic fraction
-- m / 2^k, and infinities and NaN are one constructor, since every comparison refuses them. What
-- `datetime.fromisoformat` reads is the parameter `fromisoformat`; instants are microseconds since
-- the year 1, and a date is a number of days, where the source compares ISO texts.
pub mod Values
pub mod Ranges
pub mod Valid
pub mod Counting
pub mod Report
mod Tests
use fleet_lambda_platform.Base.{
  ℕ, ◌+◌, ◌-◌, ◌*◌, ◌^◌, ◌/◌, String, Bool, true, false, ◌||◌, ◌&&◌, not, Option, none, some, List,
  [], ◌∷◌, ◌++◌, map, all, any, keep, elem, if◌then◌else◌, eqb, ltb, leb, ◌==◌, string_eq, nat_eq,
  pair_eq, list_eq,
}
use fleet_lambda_platform.Base.Dict.{lookup, insert, contains, keys}
use fleet_lambda_platform.Base.Int.{ℤ, pos, negsuc, leb_ℤ, ltb_ℤ, ◌-ℤ◌}
use fleet_lambda_platform.Base.Paths.{codes}
use fleet_lambda_platform.Base.Sort.{sort_by}
use fleet_lambda_platform.Base.Result.{
  Result, ok, err, value_error, type_error, overflow_error, ◌>>=◌, ◌>>◌, raise_if,
}
use fleet_lambda_platform.Common.Archive.{text_le}

pub data Value : Type 0 where
  null : Value
  boolean : Bool → Value
  integer : ℤ → Value
  dyadic : ℤ → ℕ → Value
  not_finite : Value
  text : String → Value
  container : Value

-- A decoded JSON object.
abbrev pub Object : Type 0
Object = List (String × Value)

-- What `fromisoformat` gives: an instant, in UTC if the text names a time zone. It is given in
-- microseconds since the start of the year 1; in UTC it may lie before that, or after the year 9999.
pub record Stamp : Type 0 where
  pub has_zone : Bool
  pub instant : ℤ

-- the microseconds of the years 1 to 9999
abbrev pub all_years : ℕ
all_years = 3652059 * 86400000000

-- parsed.astimezone(UTC)
abbrev pub to_utc : ℤ → Result ℕ
to_utc (pos t) = if ltb t all_years then ok t else err (overflow_error "date value out of range")
to_utc (negsuc t) = err (overflow_error "date value out of range")

pub record Event : Type 0 where
  pub event_id : String
  pub trip_id : Option String
  pub vehicle_id : String
  pub driver_id : String
  pub status : String
  pub fare_cents : ℕ
  pub trip_completed : Bool
  pub zone : String
  pub event_ts : ℕ
  pub ingest_ts : ℕ
  pub trace_id : String

abbrev pub statuses : List String
statuses = "idle" ∷ "enroute" ∷ "on_trip" ∷ []

abbrev pub required : List String
required =
    "event_id" ∷ "trip_id" ∷ "vehicle_id" ∷ "driver_id" ∷ "lat" ∷ "lon" ∷ "speed_kmph" ∷ "status"
    ∷ "fare_cents" ∷ "trip_completed" ∷ "zone" ∷ "event_ts" ∷ "ingest_ts" ∷ "trace_id" ∷ []

-- the code points for which str.isspace holds
abbrev pub is_space : ℕ → Bool
is_space c =
    (leb 9 c && leb c 13)
    || (leb 28 c && leb c 32)
    || (leb 8192 c && leb c 8202)
    || elem c (133 ∷ 160 ∷ 5760 ∷ 8232 ∷ 8233 ∷ 8239 ∷ 8287 ∷ 12288 ∷ [])

abbrev pub nonempty_text : Value → Result String
nonempty_text (text s) =
    if all is_space (codes s) then err (value_error "must be a nonempty string") else ok s
nonempty_text _ = err (value_error "must be a nonempty string")

-- a list or an object is no member of a set: it has no hash
abbrev pub valid_status : Value → Result String
valid_status (text s) = if elem s statuses then ok s else err (value_error "Invalid vehicle status")
valid_status container = err (type_error "unhashable type")
valid_status _ = err (value_error "Invalid vehicle status")

abbrev pub valid_fare : Value → Result ℕ
valid_fare (integer (pos n)) =
    if ltb n (2 ^ 63) then ok n else err (value_error "fare_cents must be a nonnegative integer")
valid_fare _ = err (value_error "fare_cents must be a nonnegative integer")

abbrev pub valid_completed : Value → Result Bool
valid_completed (boolean b) = ok b
valid_completed _ = err (value_error "trip_completed must be boolean")

abbrev pub valid_trip : Value → Result (Option String)
valid_trip null = ok none
valid_trip (text s) = ok (some s)
valid_trip _ = err (value_error "trip_id must be a string or null")

abbrev pub is_empty : Option String → Bool
is_empty none = true
is_empty (some s) = s == ""

abbrev pub scaled : ℤ → ℕ → ℤ
scaled (pos n) k = pos (n * 2 ^ k)
scaled (negsuc n) k = negsuc ((n + 1) * 2 ^ k - 1)

abbrev pub in_range : ℤ → ℤ → Value → Bool
in_range lower upper (integer z) = leb_ℤ lower z && leb_ℤ z upper
in_range lower upper (dyadic m k) = leb_ℤ (scaled lower k) m && leb_ℤ m (scaled upper k)
in_range lower upper _ = false

-- event[field], after the check that it is there
abbrev pub field : Object → String → Value
field event name = elim (lookup name event) [ none ↦ null | some v ↦ v ]

module _ (fromisoformat : Value → Option Stamp) where
  unfoldable pub parse_timestamp : Value → Result ℕ
  parse_timestamp value = elim (fromisoformat value) [
    | none ↦ err (value_error "Invalid isoformat string")
    | some stamp ↦
        if stamp.has_zone
        then to_utc stamp.instant
        else err (value_error "Timestamp must include a timezone")
  ]

  -- the checks from the ranges on, which complete the event
  unfoldable pub validate_measures : Object → (ℕ → ℕ → Event) → Result Event
  unfolding parse_timestamp
  validate_measures event finish = do
    raise_if (not (in_range (negsuc 89) (pos 90) (field event "lat"))) (value_error "Invalid lat")
    raise_if (not (in_range (negsuc 179) (pos 180) (field event "lon"))) (value_error "Invalid lon")
    raise_if (not (in_range (pos 0) (pos 200) (field event "speed_kmph")))
        (value_error "Invalid speed_kmph")
    event_ts ← parse_timestamp (field event "event_ts")
    ingest_ts ← parse_timestamp (field event "ingest_ts")
    ok (finish event_ts ingest_ts)

  -- the checks from the status on, after those of the five texts
  unfoldable pub validate_trip :
      Object → (String → ℕ → Bool → Option String → ℕ → ℕ → Event) → Result Event
  unfolding validate_measures
  validate_trip event finish = do
    status ← valid_status (field event "status")
    fare_cents ← valid_fare (field event "fare_cents")
    trip_completed ← valid_completed (field event "trip_completed")
    trip_id ← valid_trip (field event "trip_id")
    raise_if (trip_completed && is_empty trip_id) (value_error "Completed trips require trip_id")
    validate_measures event (finish status fare_cents trip_completed trip_id)

  unfoldable pub validate_event : Object → Result Event
  unfolding validate_trip
  validate_event event = do
    raise_if (any (λ name. not (contains name event)) required) (value_error "Missing event fields")
    event_id ← nonempty_text (field event "event_id")
    vehicle_id ← nonempty_text (field event "vehicle_id")
    driver_id ← nonempty_text (field event "driver_id")
    zone ← nonempty_text (field event "zone")
    trace_id ← nonempty_text (field event "trace_id")
    validate_trip event (λ status fare_cents trip_completed trip_id event_ts ingest_ts. record {
      event_id = event_id;
      trip_id = trip_id;
      vehicle_id = vehicle_id;
      driver_id = driver_id;
      status = status;
      fare_cents = fare_cents;
      trip_completed = trip_completed;
      zone = zone;
      event_ts = event_ts;
      ingest_ts = ingest_ts;
      trace_id = trace_id;
    })

-- A completion: vehicle, fare and instant.
pub record Trip : Type 0 where
  pub vehicle : String
  pub fare : ℕ
  pub instant : ℕ

abbrev pub same_trip : Trip → Trip → Bool
same_trip a b = a.vehicle == b.vehicle && eqb a.fare b.fare && eqb a.instant b.instant

-- What the loop over the events keeps: trips by their id, and of each vehicle the number of trips
-- and their revenue.
pub record Books : Type 0 where
  pub trips : List (String × Trip)
  pub totals : List (String × (ℕ × ℕ))

-- totals.get(vehicle, (0, 0))
abbrev pub total_of : Option (ℕ × ℕ) → ℕ × ℕ
total_of none = (0, 0)
total_of (some t) = t

-- the rest of a round, by what the trips have under the key
abbrev pub enter_trip : Option Trip → String → Trip → Books → Result Books
enter_trip (some known) key trip books =
    if same_trip known trip then ok books else err (value_error "Conflicting completion for trip")
enter_trip none key trip books =
    let (count, revenue) = total_of (lookup trip.vehicle books.totals) in
    ok (record {
      trips = insert key trip books.trips;
      totals = insert trip.vehicle (count + 1, revenue + trip.fare) books.totals;
    })

unfoldable pub record_trip : String → Trip → Books → Result Books
record_trip key trip books = enter_trip (lookup key books.trips) key trip books

abbrev pub day_of : ℕ → ℕ
day_of instant = instant / 86400000000

abbrev pub trip_of : Event → Trip
trip_of event = record {
  vehicle = event.vehicle_id;
  fare = event.fare_cents;
  instant = event.event_ts;
}

-- one round of the loop over the events, after the validation
abbrev pub record_event : ℕ → Event → Books → Result Books
record_event report_date event books =
    if not event.trip_completed || not (eqb (day_of event.event_ts) report_date)
    then ok books
    else elim event.trip_id [
      | none ↦ err (value_error "Completed trips require trip_id")
      | some key ↦ record_trip key (trip_of event) books
    ]

-- A row of expenses.
pub record Expense : Type 0 where
  pub vehicle_id : String
  pub fuel_cents : ℕ
  pub maintenance_cents : ℕ

-- A row of the report, without its date and margin_pct; `cost` holds its two expense columns.
pub record ReportRow : Type 0 where
  pub vehicle_id : String
  pub trips : ℕ
  pub revenue_cents : ℕ
  pub cost : Option Expense
  pub profit_cents : Option ℤ
  pub is_unprofitable : Option Bool
  pub reconciliation_status : String

-- {row["vehicle_id"]: row for row in expenses}
abbrev pub costs_of : List Expense → List (String × Expense) → List (String × Expense)
costs_of [] costs = costs
costs_of (row ∷ rows) costs = costs_of rows (insert row.vehicle_id row costs)

-- totals.keys() | costs.keys()
abbrev pub union_keys : List String → List String → List String
union_keys ks js = ks ++ keep (λ j. not (elem j ks)) js

abbrev pub name_le : String → String → Bool
name_le a b = text_le (codes a) (codes b)

abbrev pub profit_of : ℕ → Expense → ℤ
profit_of revenue cost = pos revenue -ℤ pos cost.fuel_cents -ℤ pos cost.maintenance_cents

abbrev pub report_row : List (String × (ℕ × ℕ)) → List (String × Expense) → String → ReportRow
report_row totals costs vehicle =
    let (count, revenue) = total_of (lookup vehicle totals) in
    elim (lookup vehicle costs) [
      | none ↦ record {
        vehicle_id = vehicle;
        trips = count;
        revenue_cents = revenue;
        cost = none;
        profit_cents = none;
        is_unprofitable = none;
        reconciliation_status = "missing_expenses";
      }
      | some cost ↦ record {
        vehicle_id = vehicle;
        trips = count;
        revenue_cents = revenue;
        cost = some cost;
        profit_cents = some (profit_of revenue cost);
        is_unprofitable = some (ltb_ℤ (profit_of revenue cost) (pos 0));
        reconciliation_status = "complete";
      }
    ]

module _ (fromisoformat : Value → Option Stamp) (report_date : ℕ) where
  -- the loop over the events
  unfoldable pub record_events : List Object → Books → Result Books
  unfolding validate_event record_trip
  record_events [] books = ok books
  record_events (object ∷ objects) books = do
    event ← validate_event fromisoformat object
    books ← record_event report_date event books
    record_events objects books

  unfoldable pub reconcile : List Object → List Expense → Result (List ReportRow)
  unfolding record_events sort_by
  reconcile events expenses = do
    books ← record_events events (record { trips = []; totals = [] })
    let costs = costs_of expenses []
    ok (
        map (report_row books.totals costs)
          (sort_by name_le (union_keys (keys books.totals) (keys costs))))
