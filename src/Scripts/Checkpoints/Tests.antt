-- ===== src/Scripts/Checkpoints/Tests.antt =====
-- Runs of scripts/repair_spark_checkpoints.py on a small checkpoint root, and the theorems of its
-- modules at these inputs.
use fleet_lambda_platform.Base.{
  String, Bool, true, not, Option, none, some, List, [], ◌∷◌, ◌≡◌, ◌↔◌, refl, ◌==◌, string_eq,
  list_beq,
}
use fleet_lambda_platform.Base.Paths.{codes}
use fleet_lambda_platform.Base.Result.{ok}
use fleet_lambda_platform.Scripts.Checkpoints.{
  LogFile, Checkpoints, records, invalid_suffix, planned_repairs, repair,
}
use fleet_lambda_platform.Scripts.Checkpoints.Tail.{IsTail, invalid_suffix_iff}
use fleet_lambda_platform.Scripts.Checkpoints.Repair.{repair-planned_repairs}

abbrev is_json : String → Bool
is_json line = not (line == "")

abbrev file : String → Option (List String) → LogFile
file name lines = record { name = codes name; lines = lines }

-- The tenth record was cut off; the directory lists the files in no order.
abbrev offsets : List LogFile
offsets =
    file "10" (some [])
    ∷ file ".10.crc" none
    ∷ file "9" (some ("v1" ∷ "{}" ∷ []))
    ∷ file "metadata" none
    ∷ []

abbrev root : Checkpoints
root = record {
  queries = some (record { name = "raw"; offsets = some offsets; commits = none } ∷ []);
  backup = [];
}

abbrev after : Checkpoints
after = record {
  queries = some (
      record {
        name = "raw";
        offsets = some (file "9" (some ("v1" ∷ "{}" ∷ [])) ∷ file "metadata" none ∷ []);
        commits = none;
      }
      ∷ []);
  backup =
      ("20260301T000000Z", "raw", "offsets", file "10" (some []))
      ∷ ("20260301T000000Z", "raw", "offsets", file ".10.crc" none)
      ∷ [];
}

repairs : repair is_json true "20260301T000000Z" root ≡ ok after
unfolding repair list_beq
repairs = refl

invalid_suffix_iff_example :
    (invalid_suffix is_json offsets ≡ ok (file "10" (some []) ∷ []))
    ↔ IsTail is_json (records offsets) (file "10" (some []) ∷ [])
invalid_suffix_iff_example = invalid_suffix_iff is_json offsets (file "10" (some []) ∷ [])

repair-planned_repairs_example : planned_repairs is_json after ≡ ok []
repair-planned_repairs_example =
    repair-planned_repairs is_json "20260301T000000Z" root after repairs
