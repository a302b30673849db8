-- ===== src/Scripts/Restore.antt =====
-- scripts/restore_archive_batch.py: `source_ranges`, the Kafka ranges from which a committed batch
-- can be rebuilt. `StoredOffsets` is the JSON object of the column source_offsets, with what may
-- be absent from it; partitions are numbers.
pub mod Committed
pub mod Run
mod Tests
use fleet_lambda_platform.Base.{
  ℕ, String, Bool, true, false, ◌||◌, not, Option, none, some, List, [], ◌∷◌, map, sum_by,
  if◌then◌else◌, eqb, ◌==◌, nat_eq, string_eq, option_eq,
}
use fleet_lambda_platform.Base.Dict.{insert}
use fleet_lambda_platform.Base.Result.{
  Result, ok, err, value_error, key_error, ◌>>=◌, ◌>>◌, raise_if,
}
use fleet_lambda_platform.Streaming.Raw.{topic}
use fleet_lambda_platform.Streaming.Raw.Ranges.{Details, Offsets}

pub record StoredItem : Type 0 where
  pub start : ℕ
  pub stop : ℕ
  pub rows : Option ℕ

pub record StoredOffsets : Type 0 where
  pub version : Option ℕ
  pub topic : Option String
  pub partitions : List (ℕ × StoredItem)
  pub recovery : Option String

-- offsets.get("recovery") is there and not empty
abbrev pub is_recovery : Option String → Bool
is_recovery none = false
is_recovery (some text) = not (text == "")

-- not offsets.get("partitions")
abbrev pub no_partitions : List (ℕ × StoredItem) → Bool
no_partitions [] = true
no_partitions (_ ∷ _) = false

abbrev pub item_range : StoredItem → Result Details
item_range item = elim item.rows [
  | none ↦ err (key_error "rows")
  | some rows ↦ ok (record { start = item.start; stop = item.stop; rows = rows })
]

-- the dict comprehension
unfoldable pub add_ranges : List (ℕ × StoredItem) → List (ℕ × Details) → Result (List (ℕ × Details))
add_ranges [] ranges = ok ranges
add_ranges ((p, item) ∷ items) ranges = do
  range ← item_range item
  add_ranges items (insert p range ranges)

abbrev pub ranges_of : ℕ → StoredOffsets → Result (List (ℕ × Details))
ranges_of rows_in offsets = do
  raise_if
      (not (offsets.version == some 1)
        || not (offsets.topic == some topic)
        || no_partitions offsets.partitions)
      (value_error "Batch has no restorable Kafka source-offset manifest")
  raise_if (is_recovery offsets.recovery)
      (value_error "Recovery batches require an exact retained archive copy")
  ranges ← add_ranges offsets.partitions []
  raise_if (not (eqb (sum_by (λ e. e.1.rows) ranges) rows_in))
      (value_error "Kafka source-offset row count does not match the committed batch")
  ok ranges

unfoldable pub source_ranges : ℕ → Option StoredOffsets → Result (List (ℕ × Details))
unfolding add_ranges
source_ranges rows_in none =
    err (value_error "Batch has no restorable Kafka source-offset manifest")
source_ranges rows_in (some offsets) = ranges_of rows_in offsets

-- The JSON object that the archive writer stores.
abbrev pub stored_item : Details → StoredItem
stored_item d = record { start = d.start; stop = d.stop; rows = some d.rows }

abbrev pub stored : Offsets → StoredOffsets
stored offsets = record {
  version = some offsets.version;
  topic = some offsets.topic;
  partitions = map (λ e. (e.0, stored_item e.1)) offsets.partitions;
  recovery = none;
}
