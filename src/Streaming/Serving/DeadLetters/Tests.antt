-- ===== src/Streaming/Serving/DeadLetters/Tests.antt =====
-- Runs of `dead_letter_partition` of streaming/staged_sink.py, and its theorem at one of them.
use fleet_lambda_platform.Base.{
  ℕ, String, Bool, true, not, Option, none, some, [], ◌∷◌, ◌++◌, keep, any, if◌then◌else◌, eqb, ◌≡◌,
  refl,
}
use fleet_lambda_platform.Base.Result.{ok, err, operational_error}
use fleet_lambda_platform.Streaming.Serving.DeadLetters.{
  Letter, Sinks, dead_letter, dead_letter_partition,
}
use fleet_lambda_platform.Streaming.Serving.DeadLetters.Sent.{
  is_refused, all_mirrored, dead_letter_partition_lem,
}

abbrev letter : ℕ → Option String → Letter
letter o raw = record { raw = raw; error = "invalid_json"; partition = 0; offset = o }

abbrev broken : Letter
broken = letter 4 (some "{")

abbrev unsent : Letter
unsent = letter 5 (some "[")

abbrev without_value : Letter
without_value = letter 6 none

abbrev sends : Letter → Bool
sends l = not (eqb l.offset 5)

abbrev binds : String → Bool
binds text = true

abbrev sinks : Sinks
sinks = record { topic = []; table = dead_letter 1 "?" (letter 1 none) ∷ [] }

-- A letter that Kafka does not take is mirrored all the same.
two_rows :
    dead_letter_partition sends binds 2 (ok tt) (ok tt) (ok tt) (broken ∷ unsent ∷ []) sinks ≡ (
      ok tt,
      record {
        topic = broken ∷ [];
        table = sinks.table ++ (dead_letter 2 "{" broken ∷ dead_letter 2 "[" unsent ∷ []);
      },
    )
unfolding dead_letter_partition
two_rows = refl

-- A record without a value takes the other rows of the partition with it.
none_stored :
    dead_letter_partition sends binds 2
      (ok tt)
      (ok tt)
      (ok tt)
      (broken ∷ without_value ∷ unsent ∷ [])
      sinks
    ≡ (ok tt, record { topic = broken ∷ without_value ∷ []; table = sinks.table })
unfolding dead_letter_partition
none_stored = refl

no_database :
    dead_letter_partition sends binds 2 (ok tt) (err operational_error) (ok tt) (broken ∷ []) sinks
    ≡ (err operational_error, sinks)
unfolding dead_letter_partition
no_database = refl

dead_letter_partition_lem_example :
    dead_letter_partition sends binds 2
      (ok tt)
      (ok tt)
      (ok tt)
      (broken ∷ without_value ∷ unsent ∷ [])
      sinks
    ≡ (
      ok tt,
      record {
        topic = sinks.topic ++ keep sends (broken ∷ without_value ∷ unsent ∷ []);
        table =
            if any (is_refused sends binds 2) (broken ∷ without_value ∷ unsent ∷ [])
            then sinks.table
            else sinks.table ++ all_mirrored sends binds 2 (broken ∷ without_value ∷ unsent ∷ []);
      },
    )
dead_letter_partition_lem_example =
    dead_letter_partition_lem sends binds 2 (broken ∷ without_value ∷ unsent ∷ []) sinks
