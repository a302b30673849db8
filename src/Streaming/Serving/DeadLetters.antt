-- ===== src/Streaming/Serving/DeadLetters.antt =====
-- `dead_letter_send` of streaming/sink.py and `dead_letter_partition` of streaming/staged_sink.py: the
-- invalid rows of one Spark partition go to a Kafka topic and to stream_dead_letters. The parameters
-- are what library code answers: `sends` (producer.send does not raise), `binds` (the driver can
-- pass the text on), and the outcomes of KafkaProducer(...), connection() and producer.flush(). In
-- PostgreSQL a statement that fails aborts its transaction: every later one fails, and COMMIT stores nothing.
pub mod Sent
mod Tests
use fleet_lambda_platform.Base.{
  ℕ, String, Bool, true, ◌&&◌, Option, none, some, List, [], ◌∷◌, ◌++◌, if◌then◌else◌,
}
use fleet_lambda_platform.Base.Result.{Result, ok, err}

-- an invalid row: a Kafka record without a value has no text
pub record Letter : Type 0 where
  pub raw : Option String
  pub error : String
  pub partition : ℕ
  pub offset : ℕ

-- a row of stream_dead_letters
pub record DeadLetter : Type 0 where
  pub batch_id : ℕ
  pub kafka_partition : ℕ
  pub kafka_offset : ℕ
  pub raw_value : String
  pub error_reason : String

pub record Sinks : Type 0 where
  pub topic : List Letter
  pub table : List DeadLetter

abbrev pub dead_letter : ℕ → String → Letter → DeadLetter
dead_letter batch_id text l = record {
  batch_id = batch_id;
  kafka_partition = l.partition;
  kafka_offset = l.offset;
  raw_value = text;
  error_reason = l.error;
}

-- what a transaction has inserted, and none when it is aborted
abbrev pub Transaction : Type 0
Transaction = Option (List DeadLetter)

module _ (sends : Letter → Bool) (binds : String → Bool) (batch_id : ℕ) where
  -- cur.execute of the INSERT, of which each exception is caught
  unfoldable pub mirror : Letter → Transaction → Transaction
  mirror l none = none
  mirror l (some inserted) = elim l.raw [
    | none ↦ if binds l.error then none else some inserted
    | some text ↦
        if binds text && binds l.error
        then some (inserted ++ (dead_letter batch_id text l ∷ []))
        else some inserted
  ]

  -- `producer` and `cur` tell whether the arguments of these names are given
  unfoldable pub dead_letter_send :
      Bool → Bool → Letter → List Letter × Transaction → List Letter × Transaction
  unfolding mirror
  dead_letter_send producer cur l (topic, transaction) = (
    if producer then (if sends l then topic ++ (l ∷ []) else topic) else topic,
    if cur then mirror l transaction else transaction,
  )

  unfoldable pub send_all : List Letter → List Letter × Transaction → List Letter × Transaction
  unfolding dead_letter_send
  send_all [] out = out
  send_all (l ∷ rows) out = send_all rows (dead_letter_send true true l out)

  abbrev pub commit : Transaction → List DeadLetter → List DeadLetter
  commit none table = table
  commit (some inserted) table = table ++ inserted

  -- the body of the with block, and its end
  unfoldable pub publish : Result (Unit {0}) → List Letter → Sinks → Result (Unit {0}) × Sinks
  unfolding send_all
  publish flush rows sinks =
      let (topic, transaction) = send_all rows (sinks.topic, some []) in
      elim flush [
        | err e ↦ (err e, record { topic = topic; table = sinks.table })
        | ok _ ↦ (ok tt, record { topic = topic; table = commit transaction sinks.table })
      ]

  unfoldable pub dead_letter_partition :
      Result (Unit {0})
      → Result (Unit {0})
      → Result (Unit {0})
      → List Letter
      → Sinks
      → Result (Unit {0}) × Sinks
  unfolding publish
  dead_letter_partition broker database flush [] sinks = (ok tt, sinks)
  dead_letter_partition (err e) database flush (l ∷ rows) sinks = (err e, sinks)
  dead_letter_partition (ok _) (err e) flush (l ∷ rows) sinks = (err e, sinks)
  dead_letter_partition (ok _) (ok _) flush (l ∷ rows) sinks = publish flush (l ∷ rows) sinks
