-- ===== src/Streaming/Serving/DeadLetters/Sent.antt =====
-- What `dead_letter_partition` of streaming/staged_sink.py leaves in the topic and in the table.
use fleet_lambda_platform.Base.{
  ℕ, String, Bool, true, false, ◌&&◌, none, some, List, [], ◌∷◌, ◌++◌, keep, any, append_assoc,
  append-nil, if◌then◌else◌, ◌≡◌, refl, sym, ap, ◌∙◌, inl, inr, Bool-cases, Option-cases, ◌⊎◌,
}
use fleet_lambda_platform.Base.Result.{ok}
use fleet_lambda_platform.Streaming.Serving.DeadLetters.{
  Letter, DeadLetter, Sinks, dead_letter, Transaction, mirror, dead_letter_send, send_all, publish,
  dead_letter_partition,
}

module _ (sends : Letter → Bool) (binds : String → Bool) (batch_id : ℕ) where
  -- The table refuses a row without a text: raw_value is NOT NULL.
  abbrev pub is_refused : Letter → Bool
  is_refused l = elim l.raw [ none ↦ binds l.error | some _ ↦ false ]

  abbrev pub mirrored : Letter → List DeadLetter
  mirrored l = elim l.raw [
    | none ↦ []
    | some text ↦ if binds text && binds l.error then dead_letter batch_id text l ∷ [] else []
  ]

  -- the rows of all letters
  unfoldable pub all_mirrored : List Letter → List DeadLetter
  all_mirrored [] = []
  all_mirrored (l ∷ rows) = mirrored l ++ all_mirrored rows

  -- the transaction after the letters: nothing if the table refused one of them
  abbrev after : List Letter → List DeadLetter → Transaction
  after rows inserted = if any is_refused rows then none else some (inserted ++ all_mirrored rows)

  mirror_lem :
      (l : Letter) (inserted : List DeadLetter)
      → mirror sends binds batch_id l (some inserted)
        ≡ (if is_refused l then none else some (inserted ++ mirrored l))
  unfolding mirror
  mirror_lem l inserted = elim (Option-cases l.raw) [
    | inl p ↦ rw p (nothing (binds l.error))
    | inr (text, p) ↦ rw p (one (binds text && binds l.error) (dead_letter batch_id text l))
  ]
    where
      nothing :
          (b : Bool)
          → (if b then none else some inserted) ≡ (if b then none else some (inserted ++ []))
      nothing true = refl
      nothing false = ap some (sym (append-nil inserted))

      one :
          (b : Bool) (d : DeadLetter)
          → (if b then some (inserted ++ (d ∷ [])) else some inserted)
            ≡ some (inserted ++ (if b then d ∷ [] else []))
      one true d = refl
      one false d = ap some (sym (append-nil inserted))

  send_all-aborted :
      (rows : List Letter) (topic : List Letter)
      → send_all sends binds batch_id rows (topic, none) ≡ (topic ++ keep sends rows, none)
  unfolding send_all dead_letter_send mirror
  send_all-aborted [] topic = ap (λ t. (t, none)) (sym (append-nil topic))
  send_all-aborted (l ∷ rows) topic = elim (Bool-cases (sends l)) [
    | inl p ↦ rw p (
        send_all-aborted rows (topic ++ (l ∷ []))
        ∙ ap (λ t. (t, none)) (append_assoc topic (l ∷ []) (keep sends rows)))
    | inr q ↦ rw q (send_all-aborted rows topic)
  ]

  send_all_lem :
      (rows topic : List Letter) (inserted : List DeadLetter)
      → send_all sends binds batch_id rows (topic, some inserted)
        ≡ (topic ++ keep sends rows, after rows inserted)
  unfolding send_all dead_letter_send all_mirrored
  send_all_lem [] topic inserted =
      let same : (topic, some inserted) ≡ (topic ++ [], some (inserted ++ [])) =
        rw (append-nil topic, append-nil inserted) refl in
      same
  send_all_lem (l ∷ rows) topic inserted =
      rw (mirror_lem l inserted) (by_refusal (Bool-cases (is_refused l)) (send_all_lem rows))
    where
      new_topic : List Letter
      new_topic = if sends l then topic ++ (l ∷ []) else topic

      sent : new_topic ++ keep sends rows ≡ topic ++ keep sends (l ∷ rows)
      sent = elim (Bool-cases (sends l)) [
        | inl p ↦ rw p (append_assoc topic (l ∷ []) (keep sends rows))
        | inr q ↦ rw q refl
      ]

      by_refusal :
          (is_refused l ≡ true) ⊎ (is_refused l ≡ false)
          → ((t : List Letter) (i : List DeadLetter)
              → send_all sends binds batch_id rows (t, some i)
                ≡ (t ++ keep sends rows, after rows i))
          → send_all sends binds batch_id rows
              (new_topic, if is_refused l then none else some (inserted ++ mirrored l))
            ≡ (topic ++ keep sends (l ∷ rows), after (l ∷ rows) inserted)
      by_refusal (inl p) rest = rw p (send_all-aborted rows new_topic ∙ ap (λ t. (t, none)) sent)
      by_refusal (inr q) rest = rw q (
          rest new_topic (inserted ++ mirrored l)
          ∙ rw (sent, append_assoc inserted (mirrored l) (all_mirrored rows)) refl)

-- Where Kafka and the database are reached and the flush returns, `dead_letter_partition` publishes
-- exactly the rows whose send does not raise, in their order. It stores all rows whose texts the
-- driver can pass on, in their order, or no row at all if one of them has no raw text.
pub dead_letter_partition_lem :
    (sends : Letter → Bool) (binds : String → Bool) (batch_id : ℕ) (rows : List Letter)
    (sinks : Sinks)
    → dead_letter_partition sends binds batch_id (ok tt) (ok tt) (ok tt) rows sinks ≡ (
      ok tt,
      record {
        topic = sinks.topic ++ keep sends rows;
        table =
            if any (is_refused sends binds batch_id) rows
            then sinks.table
            else sinks.table ++ all_mirrored sends binds batch_id rows;
      },
    )
unfolding dead_letter_partition publish all_mirrored
dead_letter_partition_lem sends binds batch_id [] sinks =
    rw (append-nil sinks.topic, append-nil sinks.table) refl
dead_letter_partition_lem sends binds batch_id (l ∷ rows) sinks =
    rw (send_all_lem sends binds batch_id (l ∷ rows) sinks.topic [])
      (elim (Bool-cases (any (is_refused sends binds batch_id) (l ∷ rows))) [
        | inl p ↦ rw p refl
        | inr q ↦ rw q refl
      ])
