-- ===== src/Scripts/Recovery/Events.antt =====
-- What the loop over the retained Kafka records keeps, in scripts/restore_archive_batch.py and
-- scripts/repair_archive_gap.py.
use fleet_lambda_platform.Base.{
  ℕ, Bool, true, Option, List, [], ◌∷◌, ◌++◌, All, ◌≡◌, subst, inl, inr, Bool-cases, Option-cases,
  ltb,
}
use fleet_lambda_platform.Base.Result.{Result, ok, >>=-eq-ok, ok-injective, Result-cases}
use fleet_lambda_platform.Common.Domain.{Value, Object, Stamp, Event, validate_event}
use fleet_lambda_platform.Scripts.Recovery.{
  Message, Poll, Recovered, offset_of, is_behind, is_skipped, kept, take_object, take_message,
  take_messages, read_retained,
}

All-append :
    (P : Recovered → Type 0) (xs ys : List Recovered) → All P xs → All P ys → All P (xs ++ ys)
All-append P [] ys h k = k
All-append P (x ∷ xs) ys (p, h) k = (p, All-append P xs ys h k)

module _ (fromisoformat : Value → Option Stamp) (within : ℕ → Result Bool) where
  -- A valid event whose instant is wanted.
  abbrev pub IsWanted : Recovered → Type 0
  IsWanted r =
      (validate_event fromisoformat r.object ≡ ok r.event) × (within r.event.event_ts ≡ ok true)

module _ (fromisoformat : Value → Option Stamp) (within : ℕ → Result Bool)
    (ends : List (ℕ × ℕ)) where
  kept-IsWanted :
      (object : Object) (event : Event) (out : List Recovered)
      → validate_event fromisoformat object ≡ ok event
      → kept fromisoformat within ends object event ≡ ok out
      → All (IsWanted fromisoformat within) out
  unfolding kept
  kept-IsWanted object event out valid h =
      let (fits, tested, made) = >>=-eq-ok (within event.event_ts) _ h in
      elim (Bool-cases fits) [
        | inl p ↦
            subst (All (IsWanted fromisoformat within)) (ok-injective (rw p at made))
              ((valid, rw p at tested), tt)
        | inr q ↦ subst (All (IsWanted fromisoformat within)) (ok-injective (rw q at made)) tt
      ]

  take_object-IsWanted :
      (object : Object) (out : List Recovered)
      → take_object fromisoformat within ends object ≡ ok out
      → All (IsWanted fromisoformat within) out
  unfolding take_object
  take_object-IsWanted object out h = elim (Result-cases (validate_event fromisoformat object)) [
    | inl (event, valid) ↦ kept-IsWanted object event out valid (rw (valid, take_object) at h)
    | inr (e, invalid) ↦ elim (Bool-cases (is_skipped e)) [
      | inl p ↦
          subst (All (IsWanted fromisoformat within))
            (ok-injective (rw (invalid, take_object, p) at h)) tt
      | inr q ↦ cc (rw (invalid, take_object, q) at h)
    ]
  ]

  take_message-IsWanted :
      (m : Message) (out : List Recovered)
      → take_message fromisoformat within ends m ≡ ok out
      → All (IsWanted fromisoformat within) out
  unfolding take_message
  take_message-IsWanted m out h = elim (Option-cases m.value) [
    | inl p ↦ cc (rw (p, take_message) at h)
    | inr (object, p) ↦ elim (Bool-cases (ltb m.offset (offset_of m.partition ends))) [
      | inl below ↦ take_object-IsWanted object out (rw (p, take_message, below) at h)
      | inr above ↦
          subst (All (IsWanted fromisoformat within))
            (ok-injective (rw (p, take_message, above) at h)) tt
    ]
  ]

  take_messages-IsWanted :
      (ms : List Message) (out : List Recovered)
      → take_messages fromisoformat within ends ms ≡ ok out
      → All (IsWanted fromisoformat within) out
  unfolding take_messages
  take_messages-IsWanted [] out h = subst (All (IsWanted fromisoformat within)) (ok-injective h) tt
  take_messages-IsWanted (m ∷ ms) out h =
      let (here, taken, more) = >>=-eq-ok (take_message fromisoformat within ends m) _ h in
      let (later, rest, made) = >>=-eq-ok (take_messages fromisoformat within ends ms) _ more in
      subst (All (IsWanted fromisoformat within)) (ok-injective made) (
        All-append (IsWanted fromisoformat within) here later (take_message-IsWanted m here taken)
          (take_messages-IsWanted ms later rest))

  -- The loop returns valid events at wanted instants alone.
  pub read_retained-IsWanted :
      (polls : List Poll) (positions : List (ℕ × ℕ)) (before out : List Recovered)
      → read_retained fromisoformat within ends polls positions before ≡ ok out
      → All (IsWanted fromisoformat within) before
      → All (IsWanted fromisoformat within) out
  unfolding read_retained
  read_retained-IsWanted [] positions before out h sound =
      elim (Bool-cases (is_behind ends positions)) [
        | inl behind ↦ cc (rw behind at h)
        | inr done ↦ subst (All (IsWanted fromisoformat within)) (ok-injective (rw done at h)) sound
      ]
  read_retained-IsWanted (poll ∷ polls) positions before out h sound =
      elim (Bool-cases (is_behind ends positions)) [
        | inr done ↦
            subst (All (IsWanted fromisoformat within))
              (ok-injective (rw (done, read_retained) at h)) sound
        | inl behind ↦
            let (new, taken, more) =
              >>=-eq-ok (take_messages fromisoformat within ends poll.messages)
                (λ new.
                  read_retained fromisoformat within ends polls poll.positions (before ++ new))
                (rw (behind, read_retained) at h) in
            read_retained-IsWanted polls poll.positions (before ++ new) out more (
              All-append (IsWanted fromisoformat within) before new sound
                (take_messages-IsWanted poll.messages new taken))
      ]
