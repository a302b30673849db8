-- ===== src/Common/Domain/Valid.antt =====
-- What `validate_event` of common/domain.py accepts.
use fleet_lambda_platform.Base.{
  not-false→true, ℕ, ◌^◌, ◌*◌, ◌<◌, ◌≢◌, ◌⊎◌, All, List, [], ◌∷◌, none, sym, In, elem-In, In-elem,
  eq-ne, ltb→lt, lt→ltb, String, Bool, true, false, ◌&&◌, not, Option, some, any, elem, ◌≡◌, ◌↔◌,
  refl, ap, ◌∙◌, subst, arith, inl, inr, ltb, Bool-cases, Option-cases, string_eq,
}
use fleet_lambda_platform.Base.Dict.{contains}
use fleet_lambda_platform.Base.Int.{ℤ, pos, negsuc}
use fleet_lambda_platform.Base.Result.{ok, raise_if, raise_if-ok, >>=-eq-ok, ok-injective}
use fleet_lambda_platform.Common.Domain.Ranges.{
  IsWithin, IsUpTo, in_range-IsWithin, IsWithin-in_range, in_range-IsUpTo, IsUpTo-in_range,
}
use fleet_lambda_platform.Common.Domain.{
  Value, null, dyadic, not_finite, container, all_years, to_utc, boolean, integer, text, Object,
  Stamp, Event, statuses, required, nonempty_text, valid_status, valid_fare, valid_completed,
  valid_trip, is_empty, in_range, field, parse_timestamp, validate_measures, validate_trip,
  validate_event,
}
use fleet_lambda_platform.Common.Domain.Values.{
  IsText, nonempty_text-IsText, status-inverse, fare-inverse, completed-inverse,
}

stamp_eq :
    (s : Stamp) (t : ℕ)
    → s.has_zone ≡ true
    → s.instant ≡ pos t
    → s ≡ record { has_zone = true; instant = pos t }
stamp_eq s t z i = ground arith

-- The trip id is null or a text.
abbrev pub IsTripId : Value → Option String → Type 0
IsTripId v o = ((v ≡ null) × (o ≡ none)) ⊎ ((s : String) × (v ≡ text s) × (o ≡ some s))

abbrev pub Has : Object → String → Type 0
Has object name = contains name object ≡ true

Has-fields :
    (object : Object) (names : List String)
    → any (λ name. not (contains name object)) names ≡ false
    → All (Has object) names
Has-fields object [] h = tt
Has-fields object (n ∷ names) h = elim (Bool-cases (contains n object)) [
  | inl p ↦ (p, Has-fields object names (rw p at h))
  | inr q ↦ cc (rw q at h)
]

fields-Has :
    (object : Object) (names : List String)
    → All (Has object) names
    → any (λ name. not (contains name object)) names ≡ false
fields-Has object [] h = refl
fields-Has object (n ∷ names) (p, h) = rw p (fields-Has object names h)

trip-IsTripId : (v : Value) (o : Option String) → valid_trip v ≡ ok o → IsTripId v o
trip-IsTripId null o h = inl (refl, sym (ok-injective h))
trip-IsTripId (text s) o h = inr (s, refl, sym (ok-injective h))
trip-IsTripId (boolean b) o h = cc
trip-IsTripId (integer z) o h = cc
trip-IsTripId (dyadic m k) o h = cc
trip-IsTripId not_finite o h = cc
trip-IsTripId container o h = cc

IsTripId-trip : (v : Value) (o : Option String) → IsTripId v o → valid_trip v ≡ ok o
IsTripId-trip v o (inl (p, q)) = rw (p, q) refl
IsTripId-trip v o (inr (s, p, q)) = rw (p, q) refl

named-trip : (o : Option String) → is_empty o ≡ false → (s : String) × (o ≡ some s) × (s ≢ "")
named-trip none h = cc
named-trip (some s) h = (s, refl, λ empty. cc (h, (string_eq.beq_iff s "").1 empty))

trip-named :
    (done : Bool) (o : Option String)
    → (done ≡ true → (s : String) × (o ≡ some s) × (s ≢ ""))
    → done && is_empty o ≡ false
trip-named false o h = refl
trip-named true o h = let (s, p, ne) = h refl in rw p (eq-ne s "" ne)

to_utc-ok : (z : ℤ) (t : ℕ) → to_utc z ≡ ok t → (z ≡ pos t) × (t < 3652059 * 86400000000)
to_utc-ok (negsuc n) t h = cc
to_utc-ok (pos n) t h = elim (Bool-cases (ltb n all_years)) [
  | inr q ↦ cc (rw q at h)
  | inl p ↦
      let same : n ≡ t = ok-injective (rw p at h) in
      (ap pos same, subst (λ k. k < 3652059 * 86400000000) same (ltb→lt n all_years p))
]

module _ (fromisoformat : Value → Option Stamp) where
  -- A time with a zone, which in UTC is in the years 1 to 9999.
  pub record IsInstant (v : Value) (t : ℕ) : Type 0 where
    pub is_stamp : fromisoformat v ≡ some (record { has_zone = true; instant = pos t })
    pub before_end : t < 3652059 * 86400000000

  -- The rules for an object and the event that is read from it.
  pub record IsValid (object : Object) (ev : Event) : Type 0 where
    pub has_fields : All (Has object) (
        "event_id" ∷ "trip_id" ∷ "vehicle_id" ∷ "driver_id" ∷ "lat" ∷ "lon" ∷ "speed_kmph"
        ∷ "status" ∷ "fare_cents" ∷ "trip_completed" ∷ "zone" ∷ "event_ts" ∷ "ingest_ts"
        ∷ "trace_id" ∷ [])
    pub event_id : IsText (field object "event_id") ev.event_id
    pub vehicle_id : IsText (field object "vehicle_id") ev.vehicle_id
    pub driver_id : IsText (field object "driver_id") ev.driver_id
    pub zone : IsText (field object "zone") ev.zone
    pub trace_id : IsText (field object "trace_id") ev.trace_id
    pub status : field object "status" ≡ text ev.status
    pub is_status : In ev.status ("idle" ∷ "enroute" ∷ "on_trip" ∷ [])
    pub fare : field object "fare_cents" ≡ integer (pos ev.fare_cents)
    pub fits_bigint : ev.fare_cents < 2 ^ 63
    pub completed : field object "trip_completed" ≡ boolean ev.trip_completed
    pub trip : IsTripId (field object "trip_id") ev.trip_id
    pub completed_trip : ev.trip_completed ≡ true → (s : String) × (ev.trip_id ≡ some s) × (s ≢ "")
    pub lat : IsWithin 90 (field object "lat")
    pub lon : IsWithin 180 (field object "lon")
    pub speed : IsUpTo 200 (field object "speed_kmph")
    pub event_instant : IsInstant (field object "event_ts") ev.event_ts
    pub ingest_instant : IsInstant (field object "ingest_ts") ev.ingest_ts

module _ (fromisoformat : Value → Option Stamp) where
  -- What the checks of the code say.
  record IsAccepted (object : Object) (ev : Event) : Type 0 where
    has_fields : any (λ name. not (contains name object)) required ≡ false
    event_id : IsText (field object "event_id") ev.event_id
    vehicle_id : IsText (field object "vehicle_id") ev.vehicle_id
    driver_id : IsText (field object "driver_id") ev.driver_id
    zone : IsText (field object "zone") ev.zone
    trace_id : IsText (field object "trace_id") ev.trace_id
    status : (field object "status" ≡ text ev.status) × (elem ev.status statuses ≡ true)
    fare :
        (field object "fare_cents" ≡ integer (pos ev.fare_cents))
        × (ltb ev.fare_cents (2 ^ 63) ≡ true)
    completed : field object "trip_completed" ≡ boolean ev.trip_completed
    trip : valid_trip (field object "trip_id") ≡ ok ev.trip_id
    completed_trip : ev.trip_completed && is_empty ev.trip_id ≡ false
    lat : in_range (negsuc 89) (pos 90) (field object "lat") ≡ true
    lon : in_range (negsuc 179) (pos 180) (field object "lon") ≡ true
    speed : in_range (pos 0) (pos 200) (field object "speed_kmph") ≡ true
    event_stamp : parse_timestamp fromisoformat (field object "event_ts") ≡ ok ev.event_ts
    ingest_stamp : parse_timestamp fromisoformat (field object "ingest_ts") ≡ ok ev.ingest_ts

  -- what the last checks give
  record HasMeasures (object : Object) (finish : ℕ → ℕ → Event) (ev : Event) : Type 0 where
    lat : in_range (negsuc 89) (pos 90) (field object "lat") ≡ true
    lon : in_range (negsuc 179) (pos 180) (field object "lon") ≡ true
    speed : in_range (pos 0) (pos 200) (field object "speed_kmph") ≡ true
    event_ts : ℕ
    ingest_ts : ℕ
    event_stamp : parse_timestamp fromisoformat (field object "event_ts") ≡ ok event_ts
    ingest_stamp : parse_timestamp fromisoformat (field object "ingest_ts") ≡ ok ingest_ts
    is_event : finish event_ts ingest_ts ≡ ev

  measures-inverse :
      (object : Object) (finish : ℕ → ℕ → Event) (ev : Event)
      → validate_measures fromisoformat object finish ≡ ok ev
      → HasMeasures object finish ev
  unfolding validate_measures
  measures-inverse object finish ev h =
      let (_, d2, k2) =
        >>=-eq-ok (raise_if (not (in_range (negsuc 89) (pos 90) (field object "lat"))) _) _ h in
      let (_, d3, k3) =
        >>=-eq-ok (raise_if (not (in_range (negsuc 179) (pos 180) (field object "lon"))) _) _ k2 in
      let (_, d4, k4) =
        >>=-eq-ok (raise_if (not (in_range (pos 0) (pos 200) (field object "speed_kmph"))) _) _
          k3 in
      let (t1, e1, m1) = >>=-eq-ok (parse_timestamp fromisoformat (field object "event_ts")) _ k4 in
      let (t2, e2, m2) =
        >>=-eq-ok (parse_timestamp fromisoformat (field object "ingest_ts")) _ m1 in
      record {
        lat = not-false→true _ (raise_if-ok _ _ _ d2);
        lon = not-false→true _ (raise_if-ok _ _ _ d3);
        speed = not-false→true _ (raise_if-ok _ _ _ d4);
        event_ts = t1;
        ingest_ts = t2;
        event_stamp = e1;
        ingest_stamp = e2;
        is_event = ok-injective m2;
      }

  -- what the checks from the status on give
  record HasTrip (object : Object) (finish : String → ℕ → Bool → Option String → ℕ → ℕ → Event)
      (ev : Event) : Type 0 where
    status : String
    fare : ℕ
    completed : Bool
    trip : Option String
    is_status : (field object "status" ≡ text status) × (elem status statuses ≡ true)
    is_fare : (field object "fare_cents" ≡ integer (pos fare)) × (ltb fare (2 ^ 63) ≡ true)
    is_completed : field object "trip_completed" ≡ boolean completed
    is_trip : valid_trip (field object "trip_id") ≡ ok trip
    completed_trip : completed && is_empty trip ≡ false
    measures : HasMeasures object (finish status fare completed trip) ev

  trip-inverse :
      (object : Object) (finish : String → ℕ → Bool → Option String → ℕ → ℕ → Event) (ev : Event)
      → validate_trip fromisoformat object finish ≡ ok ev
      → HasTrip object finish ev
  unfolding validate_trip
  trip-inverse object finish ev h =
      let (a6, c6, h6) = >>=-eq-ok (valid_status (field object "status")) _ h in
      let (a7, c7, h7) = >>=-eq-ok (valid_fare (field object "fare_cents")) _ h6 in
      let (a8, c8, h8) = >>=-eq-ok (valid_completed (field object "trip_completed")) _ h7 in
      let (a9, c9, h9) = >>=-eq-ok (valid_trip (field object "trip_id")) _ h8 in
      let (_, d1, k1) = >>=-eq-ok (raise_if (a8 && is_empty a9) _) _ h9 in
      record {
        status = a6;
        fare = a7;
        completed = a8;
        trip = a9;
        is_status = status-inverse _ a6 c6;
        is_fare = fare-inverse _ a7 c7;
        is_completed = completed-inverse _ a8 c8;
        is_trip = c9;
        completed_trip = raise_if-ok _ _ _ d1;
        measures = measures-inverse object (finish a6 a7 a8 a9) ev k1;
      }

  abbrev made :
      String → String → String → String → String → String → ℕ → Bool → Option String → ℕ → ℕ → Event
  made event_id vehicle_id driver_id zone trace_id status fare completed trip event_ts ingest_ts =
      record {
        event_id = event_id;
        trip_id = trip;
        vehicle_id = vehicle_id;
        driver_id = driver_id;
        status = status;
        fare_cents = fare;
        trip_completed = completed;
        zone = zone;
        event_ts = event_ts;
        ingest_ts = ingest_ts;
        trace_id = trace_id;
      }

  checked-IsAccepted :
      (object : Object) (ev : Event) (a1 a2 a3 a4 a5 : String)
      → any (λ name. not (contains name object)) required ≡ false
      → IsText (field object "event_id") a1
      → IsText (field object "vehicle_id") a2
      → IsText (field object "driver_id") a3
      → IsText (field object "zone") a4
      → IsText (field object "trace_id") a5
      → HasTrip object (made a1 a2 a3 a4 a5) ev
      → IsAccepted object ev
  checked-IsAccepted object ev a1 a2 a3 a4 a5 has i1 i2 i3 i4 i5 t =
      let m = t.measures in
      subst (IsAccepted object) m.is_event (record {
        has_fields = has;
        event_id = i1;
        vehicle_id = i2;
        driver_id = i3;
        zone = i4;
        trace_id = i5;
        status = t.is_status;
        fare = t.is_fare;
        completed = t.is_completed;
        trip = t.is_trip;
        completed_trip = t.completed_trip;
        lat = m.lat;
        lon = m.lon;
        speed = m.speed;
        event_stamp = m.event_stamp;
        ingest_stamp = m.ingest_stamp;
      })

  validate_event-IsAccepted :
      (object : Object) (ev : Event)
      → validate_event fromisoformat object ≡ ok ev
      → IsAccepted object ev
  unfolding validate_event
  validate_event-IsAccepted object ev h =
      let (_, c0, h0) =
        >>=-eq-ok (raise_if (any (λ name. not (contains name object)) required) _) _ h in
      let (a1, c1, h1) = >>=-eq-ok (nonempty_text (field object "event_id")) _ h0 in
      let (a2, c2, h2) = >>=-eq-ok (nonempty_text (field object "vehicle_id")) _ h1 in
      let (a3, c3, h3) = >>=-eq-ok (nonempty_text (field object "driver_id")) _ h2 in
      let (a4, c4, h4) = >>=-eq-ok (nonempty_text (field object "zone")) _ h3 in
      let (a5, c5, h5) = >>=-eq-ok (nonempty_text (field object "trace_id")) _ h4 in
      checked-IsAccepted object ev a1 a2 a3 a4 a5 (raise_if-ok _ _ _ c0)
        (nonempty_text-IsText _ a1 c1) (nonempty_text-IsText _ a2 c2) (nonempty_text-IsText _ a3 c3)
        (nonempty_text-IsText _ a4 c4) (nonempty_text-IsText _ a5 c5)
        (trip-inverse object (made a1 a2 a3 a4 a5) ev h5)

  IsAccepted-validate_event :
      (object : Object) (ev : Event)
      → IsAccepted object ev
      → validate_event fromisoformat object ≡ ok ev
  unfolding validate_event
  IsAccepted-validate_event object ev v =
      rw
        (
          validate_event, validate_trip, validate_measures, v.has_fields, v.event_id.0,
          v.event_id.1, v.vehicle_id.0, v.vehicle_id.1, v.driver_id.0, v.driver_id.1, v.zone.0,
          v.zone.1, v.trace_id.0, v.trace_id.1, v.status.0, v.status.1, v.fare.0, v.fare.1,
          v.completed, v.trip, v.completed_trip, v.lat, v.lon, v.speed, v.event_stamp,
          v.ingest_stamp,
        )
        refl

  stamp-IsInstant :
      (v : Value) (t : ℕ) → parse_timestamp fromisoformat v ≡ ok t → IsInstant fromisoformat v t
  unfolding parse_timestamp
  stamp-IsInstant v t h = elim (Option-cases (fromisoformat v)) [
    | inl e ↦ cc (rw (e, parse_timestamp) at h)
    | inr (s, e) ↦ elim (Bool-cases s.has_zone) [
      | inl zoned ↦
          let (same, before) = to_utc-ok s.instant t (rw zoned at (rw (e, parse_timestamp) at h)) in
          record { is_stamp = e ∙ ap some (stamp_eq s t zoned same); before_end = before }
      | inr naive ↦ cc (rw naive at (rw (e, parse_timestamp) at h))
    ]
  ]

  IsInstant-stamp :
      (v : Value) (t : ℕ) → IsInstant fromisoformat v t → parse_timestamp fromisoformat v ≡ ok t
  unfolding parse_timestamp
  IsInstant-stamp v t i =
      let before : ltb t all_years ≡ true = lt→ltb t all_years i.before_end in
      rw (parse_timestamp, i.is_stamp, before) refl

  IsAccepted-IsValid :
      (object : Object) (ev : Event) → IsAccepted object ev → IsValid fromisoformat object ev
  IsAccepted-IsValid object ev v = record {
    has_fields = Has-fields object required v.has_fields;
    event_id = v.event_id;
    vehicle_id = v.vehicle_id;
    driver_id = v.driver_id;
    zone = v.zone;
    trace_id = v.trace_id;
    status = v.status.0;
    is_status = elem-In ev.status statuses v.status.1;
    fare = v.fare.0;
    fits_bigint = ltb→lt ev.fare_cents (2 ^ 63) v.fare.1;
    completed = v.completed;
    trip = trip-IsTripId (field object "trip_id") ev.trip_id v.trip;
    completed_trip = λ done. named-trip ev.trip_id (rw done at v.completed_trip);
    lat = in_range-IsWithin 89 (field object "lat") v.lat;
    lon = in_range-IsWithin 179 (field object "lon") v.lon;
    speed = in_range-IsUpTo 200 (field object "speed_kmph") v.speed;
    event_instant = stamp-IsInstant (field object "event_ts") ev.event_ts v.event_stamp;
    ingest_instant = stamp-IsInstant (field object "ingest_ts") ev.ingest_ts v.ingest_stamp;
  }

  IsValid-IsAccepted :
      (object : Object) (ev : Event) → IsValid fromisoformat object ev → IsAccepted object ev
  IsValid-IsAccepted object ev v = record {
    has_fields = fields-Has object required v.has_fields;
    event_id = v.event_id;
    vehicle_id = v.vehicle_id;
    driver_id = v.driver_id;
    zone = v.zone;
    trace_id = v.trace_id;
    status = (v.status, In-elem ev.status statuses v.is_status);
    fare = (v.fare, lt→ltb ev.fare_cents (2 ^ 63) v.fits_bigint);
    completed = v.completed;
    trip = IsTripId-trip (field object "trip_id") ev.trip_id v.trip;
    completed_trip = trip-named ev.trip_completed ev.trip_id v.completed_trip;
    lat = IsWithin-in_range 89 (field object "lat") v.lat;
    lon = IsWithin-in_range 179 (field object "lon") v.lon;
    speed = IsUpTo-in_range 200 (field object "speed_kmph") v.speed;
    event_stamp = IsInstant-stamp (field object "event_ts") ev.event_ts v.event_instant;
    ingest_stamp = IsInstant-stamp (field object "ingest_ts") ev.ingest_ts v.ingest_instant;
  }

  -- `validate_event` accepts an object as an event exactly if the object has all fourteen fields;
  -- its ids but the trip's, its zone and its trace id are texts that are not blank; the status is one
  -- of the three; the fare is an integer from 0 to 2^63 - 1; trip_completed is a Boolean; the trip id
  -- is a text or null, and a nonempty text if the trip is completed; the latitude is a number from -90
  -- to 90, the longitude from -180 to 180, the speed from 0 to 200; and both timestamps have a time zone
  -- and lie, in UTC, in the years 1 to 9999.
  pub validate_event_iff :
      (object : Object) (ev : Event)
      → (validate_event fromisoformat object ≡ ok ev) ↔ IsValid fromisoformat object ev
  validate_event_iff object ev = (
    λ h. IsAccepted-IsValid object ev (validate_event-IsAccepted object ev h),
    λ v. IsAccepted-validate_event object ev (IsValid-IsAccepted object ev v),
  )
