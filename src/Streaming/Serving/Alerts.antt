-- ===== src/Streaming/Serving/Alerts.antt =====
-- The idle alerts of `merge_staged` of streaming/staged_sink.py.
use fleet_lambda_platform.Base.{
  ℕ, ◌+◌, ◌-◌, ◌*◌, String, Bool, true, false, ◌&&◌, not, Option, none, some, List, ◌++◌, map, keep,
  any, ◌==◌, if◌then◌else◌, leb, string_eq, nat_eq, pair_eq, bool_eq,
}
use fleet_lambda_platform.Streaming.Serving.{signature_eq, VehicleState, Alert, is_idle}

-- an idle alert of the vehicle that is not resolved
abbrev pub is_open : String → Alert → Bool
is_open v a = a.vehicle_id == v && a.alert_type == "idle_threshold" && not a.resolved

abbrev pub or_zero : Option ℕ → ℕ
or_zero none = 0
or_zero (some n) = n

module _ (idle_alert_minutes : ℕ) where
  -- reference.ts - idle_since in minutes, against the threshold; null passes no test
  abbrev pub is_overdue : Option ℕ → Option ℕ → Bool
  is_overdue (some reference) (some since) = leb (since + idle_alert_minutes * 60000000) reference
  is_overdue _ _ = false

  abbrev pub raised : Option ℕ → Option ℕ → String → Alert
  raised reference since v = record {
    vehicle_id = v;
    alert_type = "idle_threshold";
    resolved = false;
    idle_micros = or_zero reference - or_zero since;
    idle_since = or_zero since;
  }

  unfoldable pub raise_alerts : Option ℕ → List (String × VehicleState) → List Alert → List Alert
  raise_alerts reference candidates alerts =
      map (λ c. raised reference c.1.idle_since c.0)
        (keep (λ c. is_overdue reference c.1.idle_since && not (any (is_open c.0) alerts))
          candidates)
      ++ alerts

-- UPDATE rt_alerts SET resolved_at=now()
abbrev pub resolve : Alert → Alert
resolve a = record {
  vehicle_id = a.vehicle_id;
  alert_type = a.alert_type;
  resolved = true;
  idle_micros = a.idle_micros;
  idle_since = a.idle_since;
}

abbrev pub is_over : List (String × VehicleState) → Alert → Bool
is_over candidates a = any (λ c. is_open c.0 a && not (is_idle c.1.status)) candidates

unfoldable pub resolve_alerts : List (String × VehicleState) → List Alert → List Alert
resolve_alerts candidates alerts = map (λ a. if is_over candidates a then resolve a else a) alerts
