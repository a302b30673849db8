-- ===== src/Scripts/Recovery.antt =====
-- What scripts/restore_archive_batch.py and scripts/repair_archive_gap.py do alike: reading the
-- retained Kafka records up to an end offset of each partition, and writing the recovered events as one
-- Parquet file for each date. A poll gives records and the positions of the consumer after it; a
-- record whose text is no JSON has no value, and the deserializer raises. Empty polls are left out: after
-- the last poll of the list nothing comes any more, and the deadline passes. `fromisoformat`, the Parquet
-- writer and the folder f"dt={date}" of a day are parameters.
pub mod Events
pub mod Retained
pub mod Samples
use fleet_lambda_platform.Base.{
  ℕ, ◌/◌, ◌%◌, String, Bool, true, false, not, Option, none, some, List, [], ◌∷◌, ◌++◌, map, any,
  keep, if◌then◌else◌, eqb, ltb, leb, nat_eq,
}
use fleet_lambda_platform.Base.Dict.{lookup}
use fleet_lambda_platform.Base.Sort.{sort_by}
use fleet_lambda_platform.Base.Tables.{distinct}
use fleet_lambda_platform.Base.Result.{
  Result, Exn, ok, err, value_error, type_error, key_error, ◌>>=◌, ◌>>◌,
}
use fleet_lambda_platform.Common.Archive.{Bytes}
use fleet_lambda_platform.Common.Domain.{Value, Object, Stamp, Event, validate_event}

pub record Message : Type 0 where
  pub partition : ℕ
  pub offset : ℕ
  pub value : Option Object

pub record Poll : Type 0 where
  pub messages : List Message
  pub positions : List (ℕ × ℕ)

-- A recovered event: the decoded object, and what `validate_event` has read of it.
pub record Recovered : Type 0 where
  pub object : Object
  pub event : Event

-- A row of the table that is written.
pub record Item : Type 0 where
  pub recovered : Recovered
  pub event_time : ℕ
  pub time_of_day_bucket : String

abbrev pub offset_of : ℕ → List (ℕ × ℕ) → ℕ
offset_of p offsets = elim (lookup p offsets) [ none ↦ 0 | some n ↦ n ]

-- any(consumer.position(tp) < end for tp in partitions)
abbrev pub is_behind : List (ℕ × ℕ) → List (ℕ × ℕ) → Bool
is_behind ends positions = any (λ e. ltb (offset_of e.0 positions) e.1) ends

-- except (TypeError, ValueError, KeyError): continue
abbrev pub is_skipped : Exn → Bool
is_skipped (value_error m) = true
is_skipped (type_error m) = true
is_skipped (key_error m) = true
is_skipped _ = false

-- the hour of an instant in microseconds
abbrev pub hour : ℕ → ℕ
hour t = t / 3600000000 % 24

abbrev pub day_of : ℕ → ℕ
day_of t = t / 86400000000

unfoldable pub time_of_day : ℕ → String
time_of_day t =
    if ltb (hour t) 6
    then "night"
    else if ltb (hour t) 12
    then "morning"
    else if ltb (hour t) 18
    then "afternoon"
    else "evening"

module _ (fromisoformat : Value → Option Stamp) (within : ℕ → Result Bool)
    (ends : List (ℕ × ℕ)) where
  -- what the loop over the records keeps of an event
  unfoldable pub kept : Object → Event → Result (List Recovered)
  kept object event = do
    fits ← within event.event_ts
    ok (if fits then record { object = object; event = event } ∷ [] else [])

  unfoldable pub take_object : Object → Result (List Recovered)
  unfolding kept
  take_object object = elim (validate_event fromisoformat object) [
    | err e ↦ if is_skipped e then ok [] else err e
    | ok event ↦ kept object event
  ]

  unfoldable pub take_message : Message → Result (List Recovered)
  unfolding take_object
  take_message m = elim m.value [
    | none ↦ err (value_error "Expecting value")
    | some object ↦ if ltb m.offset (offset_of m.partition ends) then take_object object else ok []
  ]

  unfoldable pub take_messages : List Message → Result (List Recovered)
  unfolding take_message
  take_messages [] = ok []
  take_messages (m ∷ ms) = do here ← take_message m; later ← take_messages ms; ok (here ++ later)

  -- while any(position < end): poll
  unfoldable pub read_retained : List Poll → List (ℕ × ℕ) → List Recovered → Result (List Recovered)
  unfolding take_messages
  read_retained [] positions recovered =
      if is_behind ends positions
      then err (value_error "Kafka did not return the complete retained offset snapshot")
      else ok recovered
  read_retained (poll ∷ polls) positions recovered = elim (is_behind ends positions) [
    | false ↦ ok recovered
    | true ↦ (do
      more ← take_messages poll.messages
      read_retained polls poll.positions (recovered ++ more))
  ]

abbrev pub item_of : Recovered → Item
item_of r = record {
  recovered = r;
  event_time = r.event.event_ts;
  time_of_day_bucket = time_of_day r.event.event_ts;
}

-- sorted(by_date)
unfoldable pub dates : List Item → List ℕ
unfolding sort_by distinct
dates items = sort_by leb (distinct (map (λ i. day_of i.event_time) items))

abbrev pub of_day : ℕ → List Item → List Item
of_day day items = keep (λ i. eqb (day_of i.event_time) day) items

module _ (folder : ℕ → String) (write_table : List Item → Bytes) (name : String) where
  -- the files below the folder of the batch
  unfoldable pub date_files : List Recovered → List (List String × Bytes)
  unfolding dates
  date_files recovered =
      let items = map item_of recovered in
      map (λ day. ((folder day ∷ name ∷ []), write_table (of_day day items))) (dates items)
