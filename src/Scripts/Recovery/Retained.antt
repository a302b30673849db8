-- ===== src/Scripts/Recovery/Retained.antt =====
-- That the loop over the retained Kafka records, in scripts/restore_archive_batch.py and
-- scripts/repair_archive_gap.py, misses no record and adds none.
use fleet_lambda_platform.Base.{
  ℕ, Bool, true, false, Option, some, List, [], ◌∷◌, ◌++◌, map, concat, All, All_weaken, In,
  In-append, append-In_left, append-In_right, append_assoc, append-nil, false-any, ◌≤◌, ◌<◌, ◌≡◌,
  ◌↔◌, refl, sym, ap, ◌∙◌, subst, inl, inr, Bool-cases, Option-cases, ltb, lt→ltb, ltb→lt, arith,
}
use fleet_lambda_platform.Base.Result.{Result, ok, >>=-eq-ok, ok-injective, Result-cases}
use fleet_lambda_platform.Common.Domain.{Value, Object, Stamp, Event, validate_event}
use fleet_lambda_platform.Scripts.Recovery.{
  Message, Poll, Recovered, offset_of, is_behind, is_skipped, kept, take_object, take_message,
  take_messages, read_retained,
}
use fleet_lambda_platform.Scripts.Recovery.Events.{IsWanted}

-- The positions after the polls.
abbrev pub reached : List (ℕ × ℕ) → List Poll → List (ℕ × ℕ)
reached positions [] = positions
reached positions (poll ∷ polls) = reached poll.positions polls

abbrev pub messages_of : List Poll → List Message
messages_of polls = concat (map (λ p. p.messages) polls)

pub messages_of-In :
    (m : Message) (polls rest : List Poll)
    → In m (messages_of polls)
    → In m (messages_of (polls ++ rest))
messages_of-In m [] rest i = absurd i
messages_of-In m (poll ∷ polls) rest i = elim (In-append m poll.messages (messages_of polls) i) [
  | inl here ↦ append-In_left m poll.messages (messages_of (polls ++ rest)) here
  | inr later ↦
      append-In_right m poll.messages (messages_of (polls ++ rest))
        (messages_of-In m polls rest later)
]

module _ (fromisoformat : Value → Option Stamp) (within : ℕ → Result Bool)
    (ends : List (ℕ × ℕ)) where
  -- The message is below the end of its partition, and holds the valid event, at a wanted instant.
  abbrev pub Holds : Message → Recovered → Type 0
  Holds m r =
      (m.value ≡ some r.object)
      × (m.offset < offset_of m.partition ends)
      × IsWanted fromisoformat within r

  abbrev pub IsRetained : List Message → Recovered → Type 0
  IsRetained ms r = (m : Message) × In m ms × Holds m r

  -- The events of the first polls, up to the end of each partition.
  pub record IsComplete (polls : List Poll) (positions : List (ℕ × ℕ)) (out : List Recovered)
      : Type 0 where
    pub consumed : List Poll
    pub rest : List Poll
    pub are_polls : consumed ++ rest ≡ polls
    pub ended : All (λ e. e.1 ≤ offset_of e.0 (reached positions consumed)) ends
    pub same_events : (r : Recovered) → In r out ↔ IsRetained (messages_of consumed) r

  In-kept :
      (object : Object) (event : Event) (out : List Recovered) (r : Recovered)
      → validate_event fromisoformat object ≡ ok event
      → kept fromisoformat within ends object event ≡ ok out
      → In r out ↔ ((r.object ≡ object) × IsWanted fromisoformat within r)
  unfolding kept
  In-kept object event out r valid h =
      let (fits, tested, made) = >>=-eq-ok (within event.event_ts) _ h in
      let one : Recovered = record { object = object; event = event } in
      let same_event : r.object ≡ object → IsWanted fromisoformat within r → r.event ≡ event =
        λ o w. ok-injective (sym w.0 ∙ (ap (validate_event fromisoformat) o ∙ valid)) in
      elim (Bool-cases fits) [
        | inl p ↦
            let only : one ∷ [] ≡ out = ok-injective (rw p at made) in
            subst (λ xs. In r xs ↔ ((r.object ≡ object) × IsWanted fromisoformat within r)) only
              (
                λ m. elim m [
                  | inl same ↦
                      subst
                        (λ (x : Recovered). (x.object ≡ object) × IsWanted fromisoformat within x)
                        (sym same) (refl, (valid, rw p at tested))
                  | inr i ↦ absurd i
                ],
                λ (o, w). inl (same_record r object event o (same_event o w)),
              )
        | inr q ↦
            let only : [] ≡ out = ok-injective (rw q at made) in
            subst (λ xs. In r xs ↔ ((r.object ≡ object) × IsWanted fromisoformat within r)) only
              (
                λ m. absurd m,
                λ (o, w).
                    let fits_not : within r.event.event_ts ≡ ok false =
                      ap (λ (e : Event). within e.event_ts) (same_event o w) ∙ (rw q at tested) in
                    true-false (ok-injective (sym w.1 ∙ fits_not)),
              )
      ]
    where
      same_record :
          (r : Recovered) (object : Object) (event : Event)
          → r.object ≡ object
          → r.event ≡ event
          → r ≡ record { object = object; event = event }
      same_record r object event o e =
          ap (λ x. record { object = x; event = r.event }) o
          ∙ ap (λ x. record { object = object; event = x }) e

      true-false : true ≡ false → ⊥
      true-false h = cc

  In-take_object :
      (object : Object) (out : List Recovered) (r : Recovered)
      → take_object fromisoformat within ends object ≡ ok out
      → In r out ↔ ((r.object ≡ object) × IsWanted fromisoformat within r)
  unfolding take_object
  In-take_object object out r h = elim (Result-cases (validate_event fromisoformat object)) [
    | inl (event, valid) ↦ In-kept object event out r valid (rw (valid, take_object) at h)
    | inr (e, invalid) ↦ elim (Bool-cases (is_skipped e)) [
      | inl p ↦
          let none_kept : [] ≡ out = ok-injective (rw (invalid, take_object, p) at h) in
          subst (λ xs. In r xs ↔ ((r.object ≡ object) × IsWanted fromisoformat within r)) none_kept
            (
              λ m. absurd m,
              λ (o, w).
                  let raised = sym w.0 ∙ (ap (validate_event fromisoformat) o ∙ invalid) in
                  cc (raised),
            )
      | inr q ↦ cc (rw (invalid, take_object, q) at h)
    ]
  ]

  In-take_message :
      (m : Message) (out : List Recovered) (r : Recovered)
      → take_message fromisoformat within ends m ≡ ok out
      → In r out ↔ Holds m r
  unfolding take_message
  In-take_message m out r h = elim (Option-cases m.value) [
    | inl p ↦ cc (rw (p, take_message) at h)
    | inr (object, p) ↦ elim (Bool-cases (ltb m.offset (offset_of m.partition ends))) [
      | inl below ↦
          let both = In-take_object object out r (rw (p, take_message, below) at h) in
          (
            λ i.
                let (o, w) = both.0 i in
                (p ∙ ap some (sym o), ltb→lt m.offset (offset_of m.partition ends) below, w),
            λ (v, lt, w). both.1 (some-object r.object object (sym v ∙ p), w),
          )
      | inr above ↦
          let none_kept : [] ≡ out = ok-injective (rw (p, take_message, above) at h) in
          subst (λ xs. In r xs ↔ Holds m r) none_kept
            (
              λ i. absurd i,
              λ (v, lt, w).
                  let below = lt→ltb m.offset (offset_of m.partition ends) lt in cc (below, above),
            )
    ]
  ]
    where
      some-object : (a b : Object) → some a ≡ some b → a ≡ b
      some-object a b h = cc

  In-take_messages :
      (ms : List Message) (out : List Recovered) (r : Recovered)
      → take_messages fromisoformat within ends ms ≡ ok out
      → In r out ↔ IsRetained ms r
  unfolding take_messages
  In-take_messages [] out r h =
      subst (λ xs. In r xs ↔ IsRetained [] r) (ok-injective h)
        (λ i. absurd i, λ (m, i, _). absurd i)
  In-take_messages (m ∷ ms) out r h =
      let (here, taken, more) = >>=-eq-ok (take_message fromisoformat within ends m) _ h in
      let (later, others, made) = >>=-eq-ok (take_messages fromisoformat within ends ms) _ more in
      let first = In-take_message m here r taken in
      let next = In-take_messages ms later r others in
      subst (λ xs. In r xs ↔ IsRetained (m ∷ ms) r) (ok-injective made)
        (
          λ i. elim (In-append r here later i) [
            | inl j ↦ (m, inl refl, first.0 j)
            | inr j ↦ let (n, k, holds) = next.0 j in (n, inr k, holds)
          ],
          λ (n, k, holds). elim k [
            | inl same ↦
                append-In_left r here later
                  (first.1 (subst (λ (x : Message). Holds x r) same holds))
            | inr j ↦ append-In_right r here later (next.1 (n, j, holds))
          ],
        )

  IsRetained-append :
      (ms ns : List Message) (new later : List Recovered) (r : Recovered)
      → In r new ↔ IsRetained ms r
      → In r later ↔ IsRetained ns r
      → In r (new ++ later) ↔ IsRetained (ms ++ ns) r
  IsRetained-append ms ns new later r first next = (
    λ i. elim (In-append r new later i) [
      | inl j ↦ let (m, k, holds) = first.0 j in (m, append-In_left m ms ns k, holds)
      | inr j ↦ let (m, k, holds) = next.0 j in (m, append-In_right m ms ns k, holds)
    ],
    λ (m, k, holds). elim (In-append m ms ns k) [
      | inl j ↦ append-In_left r new later (first.1 (m, j, holds))
      | inr j ↦ append-In_right r new later (next.1 (m, j, holds))
    ],
  )

  ends_reached :
      (positions : List (ℕ × ℕ))
      → is_behind ends positions ≡ false
      → All (λ e. e.1 ≤ offset_of e.0 positions) ends
  ends_reached positions h =
      All_weaken (λ (e : ℕ × ℕ). ltb (offset_of e.0 positions) e.1 ≡ false)
        (λ (e : ℕ × ℕ). e.1 ≤ offset_of e.0 positions) ends (λ e not_less. ground arith)
        (false-any (λ (e : ℕ × ℕ). ltb (offset_of e.0 positions) e.1) ends h)

  read_on :
      (polls : List Poll) (positions : List (ℕ × ℕ)) (before out : List Recovered)
      → read_retained fromisoformat within ends polls positions before ≡ ok out
      → (new : List Recovered) × IsComplete polls positions new × (before ++ new ≡ out)
  unfolding read_retained
  read_on [] positions before out h = elim (Bool-cases (is_behind ends positions)) [
    | inl behind ↦ cc (rw behind at h)
    | inr done ↦ (
      [],
      record {
        consumed = [];
        rest = [];
        are_polls = refl;
        ended = ends_reached positions done;
        same_events = λ r. (λ i. absurd i, λ (m, i, _). absurd i);
      },
      append-nil before ∙ ok-injective (rw done at h),
    )
  ]
  read_on (poll ∷ polls) positions before out h = elim (Bool-cases (is_behind ends positions)) [
    | inr done ↦ (
      [],
      record {
        consumed = [];
        rest = poll ∷ polls;
        are_polls = refl;
        ended = ends_reached positions done;
        same_events = λ r. (λ i. absurd i, λ (m, i, _). absurd i);
      },
      append-nil before ∙ ok-injective (rw (done, read_retained) at h),
    )
    | inl behind ↦
        let (new, taken, more) =
          >>=-eq-ok (take_messages fromisoformat within ends poll.messages)
            (λ new. read_retained fromisoformat within ends polls poll.positions (before ++ new))
            (rw (behind, read_retained) at h) in
        let (later, c, same) = read_on polls poll.positions (before ++ new) out more in
        (
          new ++ later,
          record {
            consumed = poll ∷ c.consumed;
            rest = c.rest;
            are_polls = ap (◌∷◌ poll) c.are_polls;
            ended = c.ended;
            same_events = λ r.
                IsRetained-append poll.messages (messages_of c.consumed) new later r
                  (In-take_messages poll.messages new r taken) (c.same_events r);
          },
          sym (append_assoc before new later) ∙ same,
        )
  ]

  -- The loop returns the events of the messages that it consumes, and these reach the ends.
  pub read_retained-IsComplete :
      (polls : List Poll) (positions : List (ℕ × ℕ)) (out : List Recovered)
      → read_retained fromisoformat within ends polls positions [] ≡ ok out
      → IsComplete polls positions out
  read_retained-IsComplete polls positions out h =
      let (new, c, same) = read_on polls positions [] out h in
      subst (IsComplete polls positions) same c
