-- ===== src/Streaming/Serving.antt =====
-- streaming/staged_sink.py: the serving tables, and the staging of a micro-batch's rows
-- (sql/001_schema.sql, sql/002_integrity.sql, sql/004_plan_tables.sql to 006_archive_offsets.sql).
-- A time is the number of microseconds since the epoch. The columns that no query of the merge
-- reads (driver_id, lat, lon, speed_kmph, ingest_ts) stand in a row's `details`.
pub mod Conflicts
pub mod Windows
pub mod States
pub mod Alerts
pub mod Verdict
pub mod Merge
pub mod Bulk
pub mod Staging
pub mod DeadLetters
pub mod Samples
use fleet_lambda_platform.Base.{
  ℕ, ◌/◌, ◌-◌, ◌%◌, String, Bool, true, false, ◌&&◌, not, Option, List, Eq, ◌==◌, ◌↔◌, ◌≡◌, refl,
  eqb, eqb_iff, arith, string_eq, nat_eq, pair_eq,
}

-- the columns that are stored and not read
pub record Details : Type 0 where
  pub driver_id : String
  pub lat : String
  pub lon : String
  pub speed_kmph : String
  pub ingest_ts : ℕ

-- a row of a micro-batch
pub record Item : Type 0 where
  pub partition : ℕ
  pub offset : ℕ
  pub event_id : String
  pub trip_id : Option String
  pub vehicle_id : String
  pub status : String
  pub fare_cents : ℕ
  pub trip_completed : Bool
  pub zone : String
  pub event_ts : ℕ
  pub time_of_day_bucket : String
  pub trace_id : String
  pub details : Details

-- stream_serving_stage
pub record Staged : Type 0 where
  pub run_id : String
  pub spark_batch_id : ℕ
  pub item : Item
  pub fingerprint : String
  pub staged_at : ℕ

-- stream_event_keys, less its key event_id
pub record EventKey : Type 0 where
  pub fingerprint : String
  pub event_ts : ℕ
  pub vehicle_id : String
  pub trip_id : Option String
  pub batch_id : ℕ

-- the column reason of stream_conflicts
pub data Reason : Type 0 where
  staged_conflict : ℕ → ℕ → Reason
  conflicting_copy : ℕ → Reason
  prior_event_conflict : Reason
  prior_trip_conflict : Reason

abbrev reason_beq : Reason → Reason → Bool
reason_beq (staged_conflict p o) (staged_conflict q i) = eqb p q && eqb o i
reason_beq (conflicting_copy n) (conflicting_copy m) = eqb n m
reason_beq prior_event_conflict prior_event_conflict = true
reason_beq prior_trip_conflict prior_trip_conflict = true
reason_beq _ _ = false

pub reason_beq_iff : (r s : Reason) → (reason_beq r s ≡ true) ↔ (r ≡ s)
reason_beq_iff (staged_conflict p o) (staged_conflict q i) = ground arith
reason_beq_iff (staged_conflict p o) (conflicting_copy m) = (λ h. cc, λ h. cc)
reason_beq_iff (staged_conflict p o) prior_event_conflict = (λ h. cc, λ h. cc)
reason_beq_iff (staged_conflict p o) prior_trip_conflict = (λ h. cc, λ h. cc)
reason_beq_iff (conflicting_copy n) (staged_conflict q i) = (λ h. cc, λ h. cc)
reason_beq_iff (conflicting_copy n) (conflicting_copy m) = ground (arith, eqb_iff n m)
reason_beq_iff (conflicting_copy n) prior_event_conflict = (λ h. cc, λ h. cc)
reason_beq_iff (conflicting_copy n) prior_trip_conflict = (λ h. cc, λ h. cc)
reason_beq_iff prior_event_conflict (staged_conflict q i) = (λ h. cc, λ h. cc)
reason_beq_iff prior_event_conflict (conflicting_copy m) = (λ h. cc, λ h. cc)
reason_beq_iff prior_event_conflict prior_event_conflict = (λ h. refl, λ h. refl)
reason_beq_iff prior_event_conflict prior_trip_conflict = (λ h. cc, λ h. cc)
reason_beq_iff prior_trip_conflict (staged_conflict q i) = (λ h. cc, λ h. cc)
reason_beq_iff prior_trip_conflict (conflicting_copy m) = (λ h. cc, λ h. cc)
reason_beq_iff prior_trip_conflict prior_event_conflict = (λ h. cc, λ h. cc)
reason_beq_iff prior_trip_conflict prior_trip_conflict = (λ h. refl, λ h. refl)

-- what the rows of a completed trip must agree on
pub record Signature : Type 0 where
  pub vehicle_id : String
  pub fare_cents : ℕ
  pub event_ts : ℕ
  pub zone : String

abbrev signature_beq : Signature → Signature → Bool
signature_beq a b =
    a.vehicle_id == b.vehicle_id
    && a.fare_cents == b.fare_cents
    && a.event_ts == b.event_ts
    && a.zone == b.zone

pub signature_beq_iff : (a b : Signature) → (signature_beq a b ≡ true) ↔ (a ≡ b)
signature_beq_iff a b = ground (
  arith,
  string_eq.beq_iff a.vehicle_id b.vehicle_id,
  eqb_iff a.fare_cents b.fare_cents,
  eqb_iff a.event_ts b.event_ts,
  string_eq.beq_iff a.zone b.zone,
)

instance abbrev pub signature_eq : Eq Signature
signature_eq = record { beq = signature_beq; beq_iff = signature_beq_iff }

-- the column payload of stream_conflicts
pub record Payload : Type 0 where
  pub trip_id : Option String
  pub vehicle_id : String
  pub fare_cents : Option ℕ
  pub event : Option (String × ℕ × String)

-- stream_conflicts, less its key (batch_id, event_id, reason)
pub record Conflict : Type 0 where
  pub dt : ℕ
  pub payload : Payload

pub record ConflictKey : Type 0 where
  pub batch_id : ℕ
  pub event_id : String
  pub reason : Reason

abbrev conflict_key_beq : ConflictKey → ConflictKey → Bool
conflict_key_beq a b =
    a.batch_id == b.batch_id && a.event_id == b.event_id && reason_beq a.reason b.reason

pub conflict_key_beq_iff : (a b : ConflictKey) → (conflict_key_beq a b ≡ true) ↔ (a ≡ b)
conflict_key_beq_iff a b = ground (
  arith,
  eqb_iff a.batch_id b.batch_id,
  string_eq.beq_iff a.event_id b.event_id,
  reason_beq_iff a.reason b.reason,
)

instance abbrev pub conflict_key_eq : Eq ConflictKey
conflict_key_eq = record { beq = conflict_key_beq; beq_iff = conflict_key_beq_iff }

-- rt_zone_metric_events, less its key event_id
pub record MetricEvent : Type 0 where
  pub trip_id : Option String
  pub fingerprint : String
  pub window : ℕ × String
  pub vehicle_id : String
  pub status : String
  pub trip_completed : Bool
  pub fare_cents : ℕ

-- rt_zone_metrics, less its key (window_start, zone); a ratio is kept as its two terms
pub record ZoneMetric : Type 0 where
  pub reporting_vehicles : ℕ
  pub active_vehicles : ℕ
  pub idle_ratio : Option (ℕ × ℕ)
  pub trips : ℕ
  pub earnings_cents : ℕ
  pub authoritative_corrected : Bool

-- rt_vehicle_state, less its key vehicle_id
pub record VehicleState : Type 0 where
  pub zone : String
  pub status : String
  pub idle_since : Option ℕ
  pub event_ts : ℕ
  pub event_id : String
  pub trace_id : String

-- completed_trips, less its key trip_id
pub record CompletedTrip : Type 0 where
  pub vehicle_id : String
  pub zone : String
  pub fare_cents : ℕ
  pub completed_at : ℕ
  pub time_of_day_bucket : String
  pub trace_id : String

-- rt_alerts: `idle_micros` is idle_minutes times 60,000,000
pub record Alert : Type 0 where
  pub vehicle_id : String
  pub alert_type : String
  pub resolved : Bool
  pub idle_micros : ℕ
  pub idle_since : ℕ

pub record Serving : Type 0 where
  pub stage : List Staged
  pub event_keys : List (String × EventKey)
  pub conflicts : List (ConflictKey × Conflict)
  pub metric_events : List (String × MetricEvent)
  pub metrics : List ((ℕ × String) × ZoneMetric)
  pub states : List (String × VehicleState)
  pub trips : List (String × CompletedTrip)
  pub alerts : List Alert

abbrev pub day_length : ℕ
day_length = 86400000000

-- ts::date
abbrev pub day_of : ℕ → ℕ
day_of t = t / day_length

-- date_trunc('minute', ts)
abbrev pub minute_of : ℕ → ℕ
minute_of t = t - t % 60000000

-- status='idle'
abbrev pub is_idle : String → Bool
is_idle status = status == "idle"
