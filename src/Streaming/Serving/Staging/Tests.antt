-- ===== src/Streaming/Serving/Staging/Tests.antt =====
-- A small partition that `stage_partition` of streaming/staged_sink.py stages.
use fleet_lambda_platform.Base.{ℕ, String, false, none, List, [], ◌∷◌, map, All, ◌≡◌}
use fleet_lambda_platform.Streaming.Serving.{Item}
use fleet_lambda_platform.Streaming.Serving.Staging.{
  Identity, staged_row, write, chunks, stage_partition,
}
use fleet_lambda_platform.Streaming.Serving.Staging.Chunks.{FitsPage, stage_partition-FitsPage}

abbrev item : ℕ → Item
item o = record {
  partition = 0;
  offset = o;
  event_id = "e";
  trip_id = none;
  vehicle_id = "v";
  status = "idle";
  fare_cents = 0;
  trip_completed = false;
  zone = "z";
  event_ts = 60;
  time_of_day_bucket = "am";
  trace_id = "t";
  details = record { driver_id = "d"; lat = "6.9"; lon = "79.8"; speed_kmph = "0"; ingest_ts = 0 };
}

abbrev isoformat : ℕ → String
isoformat t = "2026-03-01T00:00:00+00:00"

abbrev dumps : Identity → List ℕ
dumps i = []

abbrev sha256 : List ℕ → String
sha256 bytes = "digest"

-- the second row stands twice
abbrev rows : List Item
rows = item 1 ∷ item 2 ∷ item 2 ∷ []

stage_partition-FitsPage_example :
    All FitsPage (chunks [] (map (staged_row isoformat dumps sha256 "run" 7 0) rows))
    × (stage_partition isoformat dumps sha256 "run" 7 0 rows []
        ≡ write (map (staged_row isoformat dumps sha256 "run" 7 0) rows) [])
stage_partition-FitsPage_example = stage_partition-FitsPage isoformat dumps sha256 "run" 7 0 rows []
