-- ===== src/Streaming/Serving/Staging.antt =====
-- `stage_partition` and `_write` of streaming/staged_sink.py, and `fingerprint` of streaming/sink.py:
-- the rows of one Spark partition go to stream_serving_stage in chunks of 500. The parameters are
-- `isoformat` (datetime), `dumps` (json.dumps of the identity, with sorted keys, as bytes) and
-- `sha256` (hexdigest). `execute_values` with the page size 500 sends one chunk as one statement.
pub mod Chunks
mod Tests
use fleet_lambda_platform.Base.{
  ℕ, ◌+◌, String, Bool, ◌&&◌, Option, List, [], ◌∷◌, ◌++◌, map, any, length, arith, ◌==◌,
  if◌then◌else◌, leb, string_eq, nat_eq,
}
use fleet_lambda_platform.Streaming.Serving.{Item, Staged}

-- the fixed fields of an event, with its time as text
pub record Identity : Type 0 where
  pub event_id : String
  pub trip_id : Option String
  pub driver_id : String
  pub vehicle_id : String
  pub lat : String
  pub lon : String
  pub speed_kmph : String
  pub status : String
  pub fare_cents : ℕ
  pub trip_completed : Bool
  pub zone : String
  pub event_ts : String
  pub trace_id : String

module _ (isoformat : ℕ → String) (dumps : Identity → List ℕ) (sha256 : List ℕ → String) where
  abbrev identity : Item → Identity
  identity i = record {
    event_id = i.event_id;
    trip_id = i.trip_id;
    driver_id = i.details.driver_id;
    vehicle_id = i.vehicle_id;
    lat = i.details.lat;
    lon = i.details.lon;
    speed_kmph = i.details.speed_kmph;
    status = i.status;
    fare_cents = i.fare_cents;
    trip_completed = i.trip_completed;
    zone = i.zone;
    event_ts = isoformat i.event_ts;
    trace_id = i.trace_id;
  }

  unfoldable pub fingerprint : Item → String
  fingerprint i = sha256 (dumps (identity i))

  -- a row of stream_serving_stage; `now` is the default of staged_at
  abbrev pub staged_row : String → ℕ → ℕ → Item → Staged
  staged_row run_id batch_id now i = record {
    run_id = run_id;
    spark_batch_id = batch_id;
    item = i;
    fingerprint = fingerprint i;
    staged_at = now;
  }

-- the primary key (run_id, kafka_partition, kafka_offset)
abbrev pub same_key : Staged → Staged → Bool
same_key a b =
    a.run_id == b.run_id && a.item.partition == b.item.partition && a.item.offset == b.item.offset

-- INSERT ... ON CONFLICT DO NOTHING, of one row
abbrev pub add_staged : Staged → List Staged → List Staged
add_staged s stage = if any (same_key s) stage then stage else stage ++ (s ∷ [])

-- _write(values)
unfoldable pub write : List Staged → List Staged → List Staged
write [] stage = stage
write (s ∷ values) stage = write values (add_staged s stage)

-- The calls of `_write`, from the values gathered so far and the rows to come.
unfoldable pub chunks : List Staged → List Staged → List (List Staged)
chunks [] [] = []
chunks (v ∷ values) [] = (v ∷ values) ∷ []
chunks values (s ∷ rows) =
    let gathered = values ++ (s ∷ []) in
    let is_full = leb 500 (length gathered) in
    let rest = chunks (if is_full then [] else gathered) rows in
    if is_full then gathered ∷ rest else rest

unfoldable pub write_all : List (List Staged) → List Staged → List Staged
unfolding write
write_all [] stage = stage
write_all (values ∷ calls) stage = write_all calls (write values stage)

module _ (isoformat : ℕ → String) (dumps : Identity → List ℕ) (sha256 : List ℕ → String)
    (run_id : String) (batch_id now : ℕ) where
  unfoldable pub stage_partition : List Item → List Staged → List Staged
  unfolding chunks write_all fingerprint
  stage_partition rows stage =
      write_all (chunks [] (map (staged_row isoformat dumps sha256 run_id batch_id now) rows)) stage
