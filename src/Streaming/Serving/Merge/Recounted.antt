-- ===== src/Streaming/Serving/Merge/Recounted.antt =====
-- The windows that a merge of streaming/staged_sink.py affects, and what a recomputed row of
-- rt_zone_metrics holds, said of the tables' rows.
use fleet_lambda_platform.Base.{
  ℕ, String, Bool, true, false, ◌&&◌, ◌||◌, not, Option, none, some, List, ◌++◌, map, keep, elem,
  length, sum_by, sum_by-map, In, In-map, map-In, In-keep, keep-In, In-elem, append-In_left,
  append-In_right, eqb, ◌≡◌, refl, sym, subst, ◌⊎◌, ◌↔◌, inl, inr, ◌==◌, pair_eq, nat_eq, string_eq,
  Bool-cases, arith,
}
use fleet_lambda_platform.Base.Tables.{distinct, In-distinct, distinct-In}
use fleet_lambda_platform.Base.Grouping.{IsDistinct, distinct-IsDistinct}
use fleet_lambda_platform.Base.Totals.{length-map, keep-map-keep}
use fleet_lambda_platform.Streaming.Serving.{Staged, MetricEvent, ZoneMetric, is_idle}
use fleet_lambda_platform.Streaming.Serving.Conflicts.{trip_in, is_rejected}
use fleet_lambda_platform.Streaming.Serving.Windows.{
  window_of, is_discredited, affected_windows, vehicles_with, ratio, recount,
}

-- The event is in conflict, or its trip is bad.
abbrev pub InConflict : List String → List String → String → Option String → Type 0
InConflict ids bad id trip = In id ids ⊎ ((t : String) × (trip ≡ some t) × In t bad)

-- The window is that of a metric event in conflict or of a row in conflict.
abbrev pub IsAffected :
    List String → List String → List Staged → List (String × MetricEvent) → ℕ × String → Type 0
IsAffected ids bad rows events w =
    ((id : String) × (e : MetricEvent) × In (id, e) events
      × InConflict ids bad id e.trip_id
      × (e.window ≡ w))
    ⊎ ((s : Staged) × In s rows
        × InConflict ids bad s.item.event_id s.item.trip_id
        × (window_of s ≡ w))

InConflict-test :
    (ids bad : List String) (id : String) (trip : Option String)
    → InConflict ids bad id trip
    → (elem id ids || trip_in trip bad) ≡ true
InConflict-test ids bad id trip (inl m) = rw (In-elem id ids m) refl
InConflict-test ids bad id trip (inr (t, named, m)) = elim (Bool-cases (elem id ids)) [
  | inl p ↦ rw p refl
  | inr q ↦ rw (q, named, In-elem t bad m) refl
]

pub affected_windows-In :
    (ids bad : List String) (rows : List Staged) (events : List (String × MetricEvent))
    (w : ℕ × String)
    → IsAffected ids bad rows events w
    → In w (affected_windows ids bad rows events)
unfolding affected_windows
affected_windows-In ids bad rows events w (inl (id, e, m, c, same)) =
    let old =
      map (λ (x : String × MetricEvent). x.1.window) (keep (is_discredited ids bad) events) in
    In-distinct w (old ++ map window_of (keep (is_rejected ids bad) rows)) (
      append-In_left w old _ (
        subst (λ v. In v old) same
          (In-map (λ (x : String × MetricEvent). x.1.window) (id, e) _
            (In-keep (is_discredited ids bad) (id, e) events m
              (InConflict-test ids bad id e.trip_id c)))))
affected_windows-In ids bad rows events w (inr (s, m, c, same)) =
    let old =
      map (λ (x : String × MetricEvent). x.1.window) (keep (is_discredited ids bad) events) in
    let new = map window_of (keep (is_rejected ids bad) rows) in
    In-distinct w (old ++ new) (
      append-In_right w old new (
        subst (λ v. In v new) same
          (In-map window_of s _ (
            In-keep (is_rejected ids bad) s rows m
              (InConflict-test ids bad s.item.event_id s.item.trip_id c)))))

ratio-none : (a b : ℕ) → b ≡ 0 → ratio a b ≡ none
ratio-none a b h = rw h refl

ratio-some : (a b : ℕ) → ¬ (b ≡ 0) → ratio a b ≡ some (a, b)
ratio-some a b h = let other : eqb b 0 ≡ false = ground arith in rw other refl

module _ (table : List (String × MetricEvent)) (w : ℕ × String) where
  -- A metric event of the window that passes the test is of the vehicle.
  abbrev pub HasVehicle : (MetricEvent → Bool) → String → Type 0
  HasVehicle test v =
      (id : String) × (e : MetricEvent) × In (id, e) table
      × (e.window ≡ w)
      × (test e ≡ true)
      × (e.vehicle_id ≡ v)

  -- The number of vehicles that have such an event.
  abbrev pub CountsVehicles : (MetricEvent → Bool) → ℕ → Type 0
  CountsVehicles test n =
      (vs : List String) × IsDistinct vs
      × ((v : String) → In v vs ↔ HasVehicle test v)
      × (n ≡ length vs)

  abbrev pub completed_here : List (String × MetricEvent)
  completed_here = keep (λ e. e.1.window == w && e.1.trip_completed) table

  -- The row of the window's events: each vehicle counts once, however many events it has, and only
  -- completed trips count and earn.
  pub record IsTotal (m : ZoneMetric) : Type 0 where
    reporting : CountsVehicles (λ e. true) m.reporting_vehicles
    active : CountsVehicles (λ e. not (is_idle e.status)) m.active_vehicles
    idle :
        (n : ℕ) × CountsVehicles (λ e. is_idle e.status) n
        × (m.reporting_vehicles ≡ 0 → m.idle_ratio ≡ none)
        × (¬ (m.reporting_vehicles ≡ 0) → m.idle_ratio ≡ some (n, m.reporting_vehicles))
    trips : m.trips ≡ length completed_here
    earnings : m.earnings_cents ≡ sum_by (λ e. e.1.fare_cents) completed_here
    corrected : m.authoritative_corrected ≡ true

  abbrev is_here : String × MetricEvent → Bool
  is_here e = e.1.window == w

  abbrev here : List MetricEvent
  here = map (λ e. e.1) (keep is_here table)

  here-In : (e : MetricEvent) → In e here → (id : String) × In (id, e) table × (e.window ≡ w)
  here-In e m =
      let (x, i, same) = map-In (λ (y : String × MetricEvent). y.1) e (keep is_here table) m in
      let (j, h) = keep-In is_here x table i in
      (x.0, rw same j, rw same ((pair_eq.beq_iff x.1.window w).0 h))

  In-here : (id : String) (e : MetricEvent) → In (id, e) table → e.window ≡ w → In e here
  In-here id e m h =
      In-map (λ (y : String × MetricEvent). y.1) (id, e) (keep is_here table)
        (In-keep is_here (id, e) table m ((pair_eq.beq_iff e.window w).1 h))

  vehicles_with-CountsVehicles :
      (test : MetricEvent → Bool) → CountsVehicles test (vehicles_with test here)
  vehicles_with-CountsVehicles test =
      let all = map (λ (e : MetricEvent). e.vehicle_id) (keep test here) in
      (
        distinct all,
        distinct-IsDistinct all,
        λ v. (
          λ m.
              let (e, i, same) =
                map-In (λ (x : MetricEvent). x.vehicle_id) v (keep test here)
                  (distinct-In v all m) in
              let (j, passes) = keep-In test e here i in
              let (id, k, in_window) = here-In e j in (id, e, k, in_window, passes, sym same),
          λ (id, e, k, in_window, passes, same). In-distinct v all (
              subst (λ u. In u all) same
                (In-map (λ (x : MetricEvent). x.vehicle_id) e (keep test here)
                  (In-keep test e here (In-here id e k in_window) passes))),
        ),
        refl,
      )

  here-completed_here : keep (λ e. e.trip_completed) here ≡ map (λ e. e.1) completed_here
  here-completed_here =
      keep-map-keep (λ (e : String × MetricEvent). e.1) (λ (e : MetricEvent). e.trip_completed)
        is_here table

  pub recount-IsTotal : IsTotal (recount table w)
  unfolding recount
  recount-IsTotal = record {
    reporting = vehicles_with-CountsVehicles (λ e. true);
    active = vehicles_with-CountsVehicles (λ e. not (is_idle e.status));
    idle = (
      vehicles_with (λ e. is_idle e.status) here,
      vehicles_with-CountsVehicles (λ e. is_idle e.status),
      ratio-none _ _,
      ratio-some _ _,
    );
    trips = rw here-completed_here (length-map (λ (e : String × MetricEvent). e.1) completed_here);
    earnings = rw here-completed_here (
        sum_by-map (λ (e : MetricEvent). e.fare_cents) (λ (e : String × MetricEvent). e.1)
          completed_here);
    corrected = refl;
  }
