-- ===== src/Scripts/Gap/Tests.antt =====
-- Runs of `repair` of scripts/repair_archive_gap.py on a gap with two retained events, one of them known
-- to serving and one in conflict, and the theorems at these runs.
use fleet_lambda_platform.Base.{
  ◌-◌, true, false, Option, none, some, [], ◌∷◌, map, length, greatest, ◌≡◌, refl, sym, ap, ◌∙◌,
  inl, inr,
}
use fleet_lambda_platform.Base.Result.{Exn, ok-injective, ok, err, operational_error}
use fleet_lambda_platform.Common.Domain.{Object, Event, validate_event}
use fleet_lambda_platform.Streaming.Serving.{EventKey, ConflictKey, Conflict, prior_event_conflict}
use fleet_lambda_platform.Scripts.Recovery.Samples.{instant, fromisoformat, event, message}
use fleet_lambda_platform.Scripts.Restore.Run.{
  LedgerBatch, Operation, back_up_root, write_object, publish_root, commit, remove_new, return_old,
}
use fleet_lambda_platform.Scripts.Gap.{World, Tools, Snapshot, repair}
use fleet_lambda_platform.Scripts.Gap.Uncommitted.{IsUncommitted, repair-IsUncommitted}
use fleet_lambda_platform.Scripts.Gap.Repaired.{IsRepaired, IsPolled, NamesDays, repair-IsRepaired}
use fleet_lambda_platform.Scripts.Recovery.{Recovered, Message, day_of}

abbrev tools : Tools
tools = record {
  num_rows = length;
  sha256 = λ b. "digest";
  manifest_fingerprint = λ m. "manifest";
  fingerprint = λ r. "event";
  source_digest = λ offsets raw live. "source";
  write_table = map (λ i. i.event_time);
  folder = λ d. "dt=2026-03-01";
  fromisoformat = fromisoformat;
}

abbrev snapshot : Snapshot
snapshot = record {
  starts = (0, 3) ∷ [];
  ends = (0, 6) ∷ [];
  polls =
      record {
        messages = message 3 (event "E1") ∷ message 4 [] ∷ message 5 (event "E2") ∷ [];
        positions = (0, 6) ∷ [];
      }
      ∷ [];
}

abbrev batch : LedgerBatch
batch = record {
  batch_id = 2;
  rows_in = 0;
  rows_valid = 0;
  max_event_ts = some (instant - 3);
  archive_manifest = none;
  source_offsets = none;
}

abbrev key : EventKey
key = record {
  fingerprint = "event";
  event_ts = instant;
  vehicle_id = "V-001";
  trip_id = none;
  batch_id = 7;
}

abbrev conflict : ConflictKey × Conflict
conflict = (
  record { batch_id = 7; event_id = "E2"; reason = prior_event_conflict },
  record {
    dt = 0;
    payload = record { trip_id = none; vehicle_id = "V-001"; fare_cents = none; event = none };
  },
)

abbrev before : World
before = record {
  batches = batch ∷ [];
  source_fingerprints = [];
  keys = ("E1", key) ∷ [];
  conflicts = conflict ∷ [];
  verification = [];
  bucket = [];
}

abbrev no_faults : Operation → Option Exn
no_faults op = none

abbrev commit_fails : Operation → Option Exn
commit_fails commit = some operational_error
commit_fails back_up_root = none
commit_fails publish_root = none
commit_fails (write_object path) = none
commit_fails remove_new = none
commit_fails return_old = none

abbrev repaired : World
repaired = (repair tools no_faults snapshot true false before).1

repair_commits : repair tools no_faults snapshot true false before ≡ (ok (some 3), repaired)
unfolding repair validate_event greatest
repair_commits = refl

abbrev failed : World
failed = (repair tools commit_fails snapshot true false before).1

repair_raises :
    repair tools commit_fails snapshot true false before ≡ (err operational_error, failed)
unfolding repair validate_event greatest
repair_raises = refl

some_object : (a b : Object) → some a ≡ some b → a ≡ b
some_object a b h = cc

-- The polled events are all of one day.
polled_instant : (r : Recovered) → IsPolled tools no_faults snapshot r → instant ≡ r.event.event_ts
unfolding validate_event
polled_instant r (m, i, value, valid) = elim i [
  | inl p ↦
      let same =
        some_object (event "E1") r.object (sym (ap (λ (x : Message). x.value) p) ∙ value) in
      ap (λ (e : Event). e.event_ts) (ok-injective (ap (validate_event fromisoformat) same ∙ valid))
  | inr (inl p) ↦
      let same = some_object [] r.object (sym (ap (λ (x : Message). x.value) p) ∙ value) in
      let bad = ap (validate_event fromisoformat) same ∙ valid in cc (bad)
  | inr (inr (inl p)) ↦
      let same =
        some_object (event "E2") r.object (sym (ap (λ (x : Message). x.value) p) ∙ value) in
      ap (λ (e : Event). e.event_ts) (ok-injective (ap (validate_event fromisoformat) same ∙ valid))
  | inr (inr (inr k)) ↦ absurd k
]

names_days : NamesDays tools no_faults snapshot
names_days a b i j same = ap day_of (sym (polled_instant a i) ∙ polled_instant b j)

repair-IsRepaired_example : IsRepaired tools no_faults snapshot false 3 before repaired
repair-IsRepaired_example =
    repair-IsRepaired tools no_faults snapshot true false before repaired 3 names_days
      repair_commits

repair-IsUncommitted_example : IsUncommitted tools commit_fails snapshot before failed
repair-IsUncommitted_example =
    repair-IsUncommitted tools commit_fails snapshot true false before failed operational_error
      repair_raises
