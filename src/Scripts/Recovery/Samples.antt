-- ===== src/Scripts/Recovery/Samples.antt =====
-- A valid event and its Kafka record, for the runs of scripts/restore_archive_batch.py and
-- scripts/repair_archive_gap.py.
use fleet_lambda_platform.Base.{ℕ, ◌+◌, String, true, false, Option, none, some, [], ◌∷◌}
use fleet_lambda_platform.Base.Int.{pos}
use fleet_lambda_platform.Common.Domain.{Value, null, boolean, integer, text, Object, Stamp}
use fleet_lambda_platform.Streaming.Raw.{sim_start}
use fleet_lambda_platform.Scripts.Recovery.{Message}

-- Any text names this instant.
abbrev pub instant : ℕ
instant = sim_start + 5

abbrev pub fromisoformat : Value → Option Stamp
fromisoformat (text s) = some (record { has_zone = true; instant = pos instant })
fromisoformat _ = none

abbrev pub event : String → Object
event id =
    ("event_id", text id)
    ∷ ("trip_id", null)
    ∷ ("vehicle_id", text "V-001")
    ∷ ("driver_id", text "D-001")
    ∷ ("lat", integer (pos 7))
    ∷ ("lon", integer (pos 80))
    ∷ ("speed_kmph", integer (pos 40))
    ∷ ("status", text "idle")
    ∷ ("fare_cents", integer (pos 0))
    ∷ ("trip_completed", boolean false)
    ∷ ("zone", text "Fort")
    ∷ ("event_ts", text "2026-03-01T00:00:00.000005Z")
    ∷ ("ingest_ts", text "2026-03-01T00:00:01Z")
    ∷ ("trace_id", text "T")
    ∷ []

abbrev pub message : ℕ → Object → Message
message o object = record { partition = 0; offset = o; value = some object }
