-- ===== src/Streaming/Serving/States.antt =====
-- The vehicle states of `merge_staged` of streaming/staged_sink.py. The order of texts, by which two
-- events of one instant are ordered, is the database's collation: the parameter `after`.
use fleet_lambda_platform.Base.{
  ℕ, String, Bool, true, false, not, Option, none, some, List, [], ◌∷◌, map, keep, all, elem,
  greatest, least, ◌==◌, if◌then◌else◌, ltb, string_eq, nat_eq, pair_eq, bool_eq, min,
}
use fleet_lambda_platform.Base.Dict.{lookup, insert}
use fleet_lambda_platform.Base.Tables.{distinct_on}
use fleet_lambda_platform.Base.Sort.{sort_by}
use fleet_lambda_platform.Streaming.Serving.{Staged, signature_eq, VehicleState, is_idle}

-- max(event_ts) FILTER(WHERE status<>'idle') and min(event_ts) FILTER(WHERE status='idle')
abbrev pub last_non_idle : List Staged → Option ℕ
last_non_idle rows =
    greatest (map (λ s. s.item.event_ts) (keep (λ s. not (is_idle s.item.status)) rows))

abbrev pub first_idle : List Staged → Option ℕ
first_idle rows = least (map (λ s. s.item.event_ts) (keep (λ s. is_idle s.item.status) rows))

-- LEAST(a, b), which passes nulls over
abbrev pub least_of : Option ℕ → Option ℕ → Option ℕ
least_of none b = b
least_of (some a) none = some a
least_of (some a) (some b) = some (min a b)

abbrev pub idle_from : List Staged → Option ℕ → Option VehicleState → Option ℕ
idle_from rows (some last) old = first_idle (keep (λ s. ltb last s.item.event_ts) rows)
idle_from rows none none = first_idle rows
idle_from rows none (some old) =
    if is_idle old.status then least_of old.idle_since (first_idle rows) else first_idle rows

-- CHECK (status IN ('idle', 'enroute', 'on_trip')) of rt_vehicle_state
abbrev pub is_status : String → Bool
is_status status = elem status ("idle" ∷ "enroute" ∷ "on_trip" ∷ [])

unfoldable pub have_status : List (String × VehicleState) → Bool
have_status states = all (λ v. is_status v.1.status) states

module _ (after : String → String → Bool) where
  -- (ts, id) > (ts', id')
  abbrev pub is_later : ℕ → String → ℕ → String → Bool
  is_later ts id ts' id' = if ltb ts' ts then true else if ltb ts ts' then false else after id id'

  -- ORDER BY event_ts DESC,event_id DESC
  abbrev pub newest_first : Staged → Staged → Bool
  newest_first a b = not (is_later b.item.event_ts b.item.event_id a.item.event_ts a.item.event_id)

  -- one row of stage_state_candidates, for the vehicle's latest accepted row
  unfoldable pub state_candidate :
      List Staged → List (String × VehicleState) → Staged → String × VehicleState
  unfolding greatest least
  state_candidate accepted states l =
      let rows = keep (λ s. s.item.vehicle_id == l.item.vehicle_id) accepted in
      let idle_since = idle_from rows (last_non_idle rows) (lookup l.item.vehicle_id states) in
      (
        l.item.vehicle_id,
        record {
          zone = l.item.zone;
          status = l.item.status;
          idle_since = if is_idle l.item.status then idle_since else none;
          event_ts = l.item.event_ts;
          event_id = l.item.event_id;
          trace_id = l.item.trace_id;
        },
      )

  -- stage_state_candidates
  unfoldable pub state_candidates :
      List Staged → List (String × VehicleState) → List (String × VehicleState)
  unfolding state_candidate sort_by distinct_on
  state_candidates accepted states =
      map (state_candidate accepted states)
        (distinct_on (λ s. s.item.vehicle_id) (sort_by newest_first accepted))

  -- ON CONFLICT(vehicle_id) DO UPDATE ... WHERE (EXCLUDED.event_ts,EXCLUDED.event_id) > (...)
  abbrev pub is_newer : VehicleState → Option VehicleState → Bool
  is_newer new none = true
  is_newer new (some old) = is_later new.event_ts new.event_id old.event_ts old.event_id

  abbrev pub upsert_state :
      String → VehicleState → List (String × VehicleState) → List (String × VehicleState)
  upsert_state v new states = if is_newer new (lookup v states) then insert v new states else states

  unfoldable pub upsert_states :
      List (String × VehicleState) → List (String × VehicleState) → List (String × VehicleState)
  upsert_states [] states = states
  upsert_states ((v, new) ∷ rows) states = upsert_states rows (upsert_state v new states)
