-- ===== src/Common/Domain/Counting.antt =====
-- What the loop of `reconcile` of common/domain.py keeps.
use fleet_lambda_platform.Base.{
  ℕ, ◌+◌, String, true, false, ◌||◌, not, Option, none, some, List, [], ◌∷◌, In, ◌≡◌, ◌↔◌, ◌⊎◌,
  refl, sym, ap, ◌∙◌, subst, arith, inl, inr, length, sum_by, eqb, Bool-cases, Option-cases,
  string_eq, ◌==◌,
}
use fleet_lambda_platform.Base.Dict.{
  lookup, insert, share, NodupKeys, insert-NodupKeys, lookup-insert, sum_by-insert,
  sum_by-insert_new, length-insert_new,
}
use fleet_lambda_platform.Base.Result.{ok, >>=-eq-ok, ok-injective}
use fleet_lambda_platform.Common.Domain.{
  Value, Object, Stamp, Event, Trip, Books, same_trip, trip_of, total_of, day_of, record_trip,
  record_event, record_events, validate_event,
}

pub record IsBooked (books : Books) : Type 0 where
  pub trips_once : NodupKeys books.trips
  pub vehicles_once : NodupKeys books.totals
  pub counts_agree : sum_by (λ e. e.1.0) books.totals ≡ length books.trips
  pub revenue_agrees : sum_by (λ e. e.1.1) books.totals ≡ sum_by (λ e. e.1.fare) books.trips

same_trip-eq : (a b : Trip) → same_trip a b ≡ true → a ≡ b
same_trip-eq a b h = ground (arith, string_eq.beq_iff a.vehicle b.vehicle)

pub share_count : (o : Option (ℕ × ℕ)) → share (λ t. t.0) o ≡ (total_of o).0
share_count none = refl
share_count (some t) = refl

pub share_revenue : (o : Option (ℕ × ℕ)) → share (λ t. t.1) o ≡ (total_of o).1
share_revenue none = refl
share_revenue (some t) = refl

-- the books with a trip that was not there
abbrev with_trip : String → Trip → Books → Books
with_trip key trip books = record {
  trips = insert key trip books.trips;
  totals =
      insert trip.vehicle
        (
          (total_of (lookup trip.vehicle books.totals)).0 + 1,
          (total_of (lookup trip.vehicle books.totals)).1 + trip.fare,
        )
        books.totals;
}

record_trip-cases :
    (key : String) (trip : Trip) (books after : Books)
    → record_trip key trip books ≡ ok after
    → ((lookup key books.trips ≡ some trip) × (after ≡ books))
      ⊎ ((lookup key books.trips ≡ none) × (after ≡ with_trip key trip books))
unfolding record_trip
record_trip-cases key trip books after h = elim (Option-cases (lookup key books.trips)) [
  | inl e ↦ inr (e, sym (ok-injective (rw e at h)))
  | inr (known, e) ↦ elim (Bool-cases (same_trip known trip)) [
    | inl same ↦
        inl
          (e ∙ ap some (same_trip-eq known trip same), sym (ok-injective (rw same at (rw e at h))))
    | inr other ↦ cc (rw other at (rw e at h))
  ]
]

with_trip-IsBooked :
    (key : String) (trip : Trip) (books : Books)
    → lookup key books.trips ≡ none
    → IsBooked books
    → IsBooked (with_trip key trip books)
with_trip-IsBooked key trip books absent b =
    let old = lookup trip.vehicle books.totals in
    let new : ℕ × ℕ = ((total_of old).0 + 1, (total_of old).1 + trip.fare) in
    record {
      trips_once = insert-NodupKeys key trip books.trips b.trips_once;
      vehicles_once = insert-NodupKeys trip.vehicle new books.totals b.vehicles_once;
      counts_agree = omega (
        arith,
        b.counts_agree,
        share_count old,
        length-insert_new key trip books.trips absent,
        sum_by-insert (λ t. t.0) trip.vehicle new books.totals,
      );
      revenue_agrees = omega (
        arith,
        b.revenue_agrees,
        share_revenue old,
        sum_by-insert_new (λ t. t.fare) key trip books.trips absent,
        sum_by-insert (λ t. t.1) trip.vehicle new books.totals,
      );
    }

-- The event completes a trip on the day, under the key.
pub record IsCompletion (day : ℕ) (ev : Event) (key : String) (trip : Trip) : Type 0 where
  pub is_completed : ev.trip_completed ≡ true
  pub on_day : day_of ev.event_ts ≡ day
  pub has_key : ev.trip_id ≡ some key
  pub is_trip : trip_of ev ≡ trip

-- What a step may add to the trips.
abbrev pub Adds : Books → Books → (String → Trip → Type 0) → Type 0
Adds books after New =
    IsBooked after
    × ((key : String) (trip : Trip)
        → (lookup key after.trips ≡ some trip)
          ↔ ((lookup key books.trips ≡ some trip) ⊎ New key trip))

added_lookup :
    (key k : String) (trip t : Trip) (table : List (String × Trip))
    → lookup key table ≡ none
    → (lookup k (insert key trip table) ≡ some t)
      ↔ ((lookup k table ≡ some t) ⊎ ((key ≡ k) × (trip ≡ t)))
added_lookup key k trip t table absent =
    let l = lookup-insert k key trip table in
    elim (Bool-cases (k == key)) [
      | inl same ↦
          let eq = (string_eq.beq_iff k key).0 same in
          let l' : lookup k (insert key trip table) ≡ some trip = rw same at l in
          (
            λ h. inr (sym eq, cc (h, l')),
            λ h. elim h [ inl e ↦ cc (eq, e, absent) | inr (p, q) ↦ l' ∙ ap some q ],
          )
      | inr other ↦
          let l' : lookup k (insert key trip table) ≡ lookup k table = rw other at l in
          (
            λ h. inl (sym l' ∙ h),
            λ h. elim h [
              | inl e ↦ l' ∙ e
              | inr (p, q) ↦ cc (other, (string_eq.beq_iff k key).1 (sym p))
            ],
          )
    ]

record_trip-Adds :
    (key : String) (trip : Trip) (books after : Books)
    → record_trip key trip books ≡ ok after
    → IsBooked books
    → Adds books after (λ k t. (key ≡ k) × (trip ≡ t))
record_trip-Adds key trip books after h b = elim (record_trip-cases key trip books after h) [
  | inl (there, same) ↦
      subst (λ x. Adds books x (λ k t. (key ≡ k) × (trip ≡ t))) (sym same)
        (
          b,
          λ k t. (
            λ e. inl e,
            λ m. elim m [
              | inl e ↦ e
              | inr (p, q) ↦ ap (λ x. lookup x books.trips) (sym p) ∙ there ∙ ap some q
            ],
          ),
        )
  | inr (absent, same) ↦
      subst (λ x. Adds books x (λ k t. (key ≡ k) × (trip ≡ t))) (sym same)
        (
          with_trip-IsBooked key trip books absent b,
          λ k t. added_lookup key k trip t books.trips absent,
        )
]

counted_event :
    (day : ℕ) (ev : Event) (key : String) (trip : Trip)
    → IsCompletion day ev key trip
    → not ev.trip_completed || not (eqb (day_of ev.event_ts) day) ≡ false
counted_event day ev key trip c = ground (arith, c.is_completed, c.on_day)

record_event-Adds :
    (day : ℕ) (ev : Event) (books after : Books)
    → record_event day ev books ≡ ok after
    → IsBooked books
    → Adds books after (IsCompletion day ev)
record_event-Adds day ev books after h b =
    elim (Bool-cases (not ev.trip_completed || not (eqb (day_of ev.event_ts) day))) [
      | inl skip ↦
          subst (λ x. Adds books x (IsCompletion day ev)) (ok-injective (rw skip at h))
            (
              b,
              λ k t. (
                λ e. inl e,
                λ m. elim m [ inl e ↦ e | inr c ↦ cc (skip, counted_event day ev k t c) ],
              ),
            )
      | inr counts ↦ elim (Option-cases ev.trip_id) [
        | inl no_id ↦ cc (rw no_id at (rw counts at h))
        | inr (key, id) ↦
            let (b', adds) =
              record_trip-Adds key (trip_of ev) books after (rw id at (rw counts at h)) b in
            (
              b',
              λ k t. (
                λ e. elim ((adds k t).0 e) [
                  | inl m ↦ inl m
                  | inr (p, q) ↦ inr (record {
                    is_completed = ground arith;
                    on_day = ground arith;
                    has_key = id ∙ ap some p;
                    is_trip = q;
                  })
                ],
                λ m.
                    (adds k t).1
                      (elim m [ inl e ↦ inl e | inr c ↦ inr (cc (id, c.has_key), c.is_trip) ]),
              ),
            )
      ]
    ]

module _ (fromisoformat : Value → Option Stamp) (day : ℕ) where
  -- One of the objects is a valid event that completes the trip on the day.
  abbrev pub Completes : List Object → String → Trip → Type 0
  Completes objects key trip =
      (object : Object) × In object objects
      × (ev : Event) × (validate_event fromisoformat object ≡ ok ev)
      × IsCompletion day ev key trip

  pub record_events-Adds :
      (objects : List Object) (books after : Books)
      → record_events fromisoformat day objects books ≡ ok after
      → IsBooked books
      → Adds books after (Completes objects)
  unfolding record_events
  record_events-Adds [] books after h b =
      subst (λ x. Adds books x (Completes [])) (ok-injective h)
        (b, λ k t. (λ e. inl e, λ m. elim m [ inl e ↦ e | inr (o, i, ev, v, c) ↦ absurd i ]))
  record_events-Adds (object ∷ objects) books after h b =
      let (ev, v, more) = >>=-eq-ok (validate_event fromisoformat object) _ h in
      let (mid, r, tail) = >>=-eq-ok (record_event day ev books) _ more in
      let (b1, a1) = record_event-Adds day ev books mid r b in
      let (b2, a2) = record_events-Adds objects mid after tail b1 in
      (
        b2,
        λ k t. (
          λ e. elim ((a2 k t).0 e) [
            | inl m ↦ elim ((a1 k t).0 m) [
              | inl there ↦ inl there
              | inr c ↦ inr (object, inl refl, ev, v, c)
            ]
            | inr (o, i, ev', v', c) ↦ inr (o, inr i, ev', v', c)
          ],
          λ m. elim m [
            | inl there ↦ (a2 k t).1 (inl ((a1 k t).1 (inl there)))
            | inr (o, inl p, ev', v', c) ↦
                let same = ok-injective (sym v' ∙ ap (validate_event fromisoformat) p ∙ v) in
                (a2 k t).1 (inl ((a1 k t).1 (inr (subst (λ x. IsCompletion day x k t) same c))))
            | inr (o, inr i, ev', v', c) ↦ (a2 k t).1 (inr (o, i, ev', v', c))
          ],
        ),
      )
