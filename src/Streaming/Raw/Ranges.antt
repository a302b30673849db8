-- ===== src/Streaming/Raw/Ranges.antt =====
-- streaming/raw_job.py: the identity of a Kafka offset range and the plan of a replay. Partitions
-- and offsets are numbers, also where the source writes a partition as a text for JSON.
pub mod Grouping
pub mod Frames
use fleet_lambda_platform.Base.{
  ℕ, suc, ◌+◌, ◌<◌, min, max, String, Bool, true, false, ◌||◌, not, Option, none, some, List, [],
  ◌∷◌, map, all, keep, elem, if◌then◌else◌, eqb, leb, ltb, nat_eq,
}
use fleet_lambda_platform.Base.Dict.{lookup, insert}
use fleet_lambda_platform.Base.Sort.{sort_by}

-- A row of the micro-batch: its Kafka position, the text, the validation error, and the instant
-- `try_to_timestamp(event.event_ts)` in microseconds since the year 1. The other columns are
-- functions of the text.
pub record Row : Type 0 where
  pub partition : ℕ
  pub offset : ℕ
  pub raw : String
  pub error : Option String
  pub event_ts : Option ℕ

-- A row of the aggregate over one partition; `end_offset` is max(offset) + 1.
pub record PartitionRow : Type 0 where
  pub partition : ℕ
  pub start_offset : ℕ
  pub end_offset : ℕ
  pub rows : ℕ

pub record Details : Type 0 where
  pub start : ℕ
  pub stop : ℕ
  pub rows : ℕ

pub record Offsets : Type 0 where
  pub version : ℕ
  pub topic : String
  pub partitions : List (ℕ × Details)

-- one more row of its partition
unfoldable pub add_row : Row → List PartitionRow → List PartitionRow
add_row r [] =
    record { partition = r.partition; start_offset = r.offset; end_offset = r.offset + 1; rows = 1 }
    ∷ []
add_row r (g ∷ gs) =
    if eqb r.partition g.partition
    then record g {
      start_offset = min r.offset g.start_offset;
      end_offset = max (r.offset + 1) g.end_offset;
      rows = g.rows + 1;
    }
      ∷ gs
    else g ∷ add_row r gs

-- cached.groupBy("partition").agg(min, max + 1, count).collect(); Spark fixes no order
unfoldable pub partition_rows : List Row → List PartitionRow
unfolding add_row
partition_rows [] = []
partition_rows (r ∷ rs) = add_row r (partition_rows rs)

abbrev pub details : PartitionRow → Details
details g = record { start = g.start_offset; stop = g.end_offset; rows = g.rows }

abbrev pub partition_le : PartitionRow → PartitionRow → Bool
partition_le a b = leb a.partition b.partition

-- the dict comprehension: a later row of the same partition replaces the earlier one
unfoldable pub add_partitions : List PartitionRow → List (ℕ × Details) → List (ℕ × Details)
add_partitions [] d = d
add_partitions (g ∷ gs) d = add_partitions gs (insert g.partition (details g) d)

-- the offsets of `source_identity`; its second result is their digest
unfoldable pub source_offsets : String → List PartitionRow → Offsets
unfolding sort_by add_partitions
source_offsets topic partitions = record {
  version = 1;
  topic = topic;
  partitions = add_partitions (sort_by partition_le partitions) [];
}

pub record Discontinuity : Type 0 where
  pub expected : ℕ
  pub actual : ℕ

unfoldable pub continuity_errors : List (ℕ × Details) → List (ℕ × ℕ) → List (ℕ × Discontinuity)
continuity_errors [] committed = []
continuity_errors ((p, d) ∷ ps) committed =
    let rest = continuity_errors ps committed in
    elim (lookup p committed) [
      | none ↦ rest
      | some n ↦
          if eqb d.start n then rest else (p, record { expected = n; actual = d.start }) ∷ rest
    ]

-- the thresholds and the gaps
abbrev pub Plan : Type 0
Plan = List (ℕ × ℕ) × List (ℕ × Discontinuity)

abbrev plan_partition : ℕ → Details → Option ℕ → Plan → Plan
plan_partition p d none (thresholds, gaps) = (thresholds, gaps)
plan_partition p d (some expected) (thresholds, gaps) =
    if ltb d.start expected
    then ((p, expected) ∷ thresholds, gaps)
    else if ltb expected d.start
    then (thresholds, (p, record { expected = expected; actual = d.start }) ∷ gaps)
    else (thresholds, gaps)

unfoldable pub replay_plan : List (ℕ × Details) → List (ℕ × ℕ) → Plan
replay_plan [] committed = ([], [])
replay_plan ((p, d) ∷ ps) committed =
    plan_partition p d (lookup p committed) (replay_plan ps committed)

-- the predicate that keeps what lies at or above each threshold
abbrev pub is_kept : List (ℕ × ℕ) → Row → Bool
is_kept thresholds r = all (λ t. not (eqb r.partition t.0) || leb t.1 r.offset) thresholds

abbrev pub trim : List (ℕ × ℕ) → List Row → List Row
trim thresholds = keep (is_kept thresholds)
