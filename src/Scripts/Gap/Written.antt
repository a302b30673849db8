-- ===== src/Scripts/Gap/Written.antt =====
-- The objects that `repair` of scripts/repair_archive_gap.py writes.
use fleet_lambda_platform.Base.{
  ℕ, String, Option, some, List, [], ◌∷◌, map, In, In-map, map-In, ◌≡◌, ◌⊎◌, sym, ap, ◌∙◌, subst,
  inl, inr, Bool-cases, ◌==◌, string_eq, nat_eq, pair_eq, list_eq, leb,
}
use fleet_lambda_platform.Base.Dict.{lookup, insert, lookup-insert_self, lookup-insert_ne}
use fleet_lambda_platform.Base.Result.{Exn, ok}
use fleet_lambda_platform.Base.Sort.{In-sort_by, sort_by-In}
use fleet_lambda_platform.Base.Stateful.{After, unless_raised, unless_raised-ok, >>>-ok}
use fleet_lambda_platform.Base.Tables.{distinct, In-distinct, distinct-In}
use fleet_lambda_platform.Common.Archive.{Bytes}
use fleet_lambda_platform.Scripts.Recovery.{
  Recovered, Item, item_of, day_of, dates, of_day, date_files,
}
use fleet_lambda_platform.Scripts.Restore.Run.{Folder, Operation, write_object}
use fleet_lambda_platform.Scripts.Gap.{World, Tools, Snapshot, write_files}

abbrev pub day_of_event : Recovered → ℕ
day_of_event r = day_of r.event.event_ts

-- Different days of recovered events have different folders.
abbrev pub HasFolders : (ℕ → String) → List Recovered → Type 0
HasFolders folder recovered =
    (a b : Recovered)
    → In a recovered
    → In b recovered
    → folder (day_of_event a) ≡ folder (day_of_event b)
    → day_of_event a ≡ day_of_event b

module _ (folder : ℕ → String) (write_table : List Item → Bytes) (name : String)
    (recovered : List Recovered) where
  abbrev pub file_of : ℕ → List String × Bytes
  file_of day = ((folder day ∷ name ∷ []), write_table (of_day day (map item_of recovered)))

  In-dates : (r : Recovered) → In r recovered → In (day_of_event r) (dates (map item_of recovered))
  unfolding dates
  In-dates r m =
      let days = map (λ (i : Item). day_of i.event_time) (map item_of recovered) in
      In-sort_by leb (day_of_event r) (distinct days) (
        In-distinct (day_of_event r) days (
          In-map (λ (i : Item). day_of i.event_time) (item_of r) (map item_of recovered)
            (In-map item_of r recovered m)))

  dates-In :
      (day : ℕ)
      → In day (dates (map item_of recovered))
      → (r : Recovered) × In r recovered × (day ≡ day_of_event r)
  unfolding dates
  dates-In day m =
      let days = map (λ (i : Item). day_of i.event_time) (map item_of recovered) in
      let (i, k, same) =
        map-In (λ (i : Item). day_of i.event_time) day (map item_of recovered)
          (distinct-In day days (sort_by-In leb day (distinct days) m)) in
      let (r, j, is_item) = map-In item_of i recovered k in
      (r, j, same ∙ ap (λ (x : Item). day_of x.event_time) is_item)

  pub In-date_files :
      (r : Recovered)
      → In r recovered
      → In (file_of (day_of_event r)) (date_files folder write_table name recovered)
  unfolding date_files
  In-date_files r m = In-map file_of (day_of_event r) (dates (map item_of recovered)) (In-dates r m)

  pub date_files_one :
      HasFolders folder recovered
      → (r : Recovered) → In r recovered
      → (bytes : Bytes)
      → In
          ((folder (day_of_event r) ∷ name ∷ []), bytes)
          (date_files folder write_table name recovered)
      → bytes ≡ (file_of (day_of_event r)).1
  unfolding date_files
  date_files_one folders r m bytes i =
      let (day, j, same) =
        map-In file_of ((folder (day_of_event r) ∷ name ∷ []), bytes)
          (dates (map item_of recovered)) i in
      let (other, k, is_day) = dates-In day j in
      let same_path : folder (day_of_event r) ≡ folder day =
        first_part (ap (λ (f : List String × Bytes). f.0) same) in
      let one : day ≡ day_of_event r =
        is_day ∙ sym (folders r other m k (same_path ∙ ap folder is_day)) in
      ap (λ (f : List String × Bytes). f.1) same ∙ ap (λ d. (file_of d).1) one
    where
      first_part : {a b : String} {xs ys : List String} → a ∷ xs ≡ b ∷ ys → a ≡ b
      first_part h = cc

module _ (tools : Tools) (faults : Operation → Option Exn) (snapshot : Snapshot) (id : ℕ)
    (path : List String) (bytes : Bytes) where
  -- The file is written, or the object is there, and no other file takes its path.
  pub write_files-holds :
      (files : Folder) (w v : World) (u : Unit {0})
      → write_files tools faults snapshot id files w ≡ (ok u, v)
      → ((b : Bytes) → In (path, b) files → b ≡ bytes)
      → (lookup (id, path) w.bucket ≡ some bytes) ⊎ In (path, bytes) files
      → lookup (id, path) v.bucket ≡ some bytes
  unfolding write_files
  write_files-holds [] w v u h one (inl there) =
      subst (λ (x : World). lookup (id, path) x.bucket ≡ some bytes) (ap (λ p. p.1) h) there
  write_files-holds [] w v u h one (inr m) = absurd m
  write_files-holds ((p, b) ∷ files) w v u h one there =
      let put : World → After World (Unit {0}) =
        λ x. (ok tt, record x { bucket = insert (id, p) b x.bucket }) in
      let (a, w1, wrote, rest) =
        >>>-ok (unless_raised (faults (write_object p)) put w)
          (λ _ x. write_files tools faults snapshot id files x) h in
      let stored : put w ≡ (ok a, w1) = unless_raised-ok (faults (write_object p)) put w wrote in
      let bucket : insert (id, p) b w.bucket ≡ w1.bucket = ap (λ x. x.1.bucket) stored in
      write_files-holds files w1 v u rest (λ c m. one c (inr m))
        (elim (Bool-cases (path == p)) [
          | inl same ↦
              let at : path ≡ p = (list_eq.beq_iff path p).0 same in
              let mine : b ≡ bytes = one b (inl (ap (λ q. (q, b)) at)) in
              inl (
                subst (λ d. lookup (id, path) d ≡ some bytes) bucket
                  (rw (at, mine) (lookup-insert_self (id, p) bytes w.bucket)))
          | inr other ↦
              let differs : path ≡ p → ⊥ = λ e. cc (other, (list_eq.beq_iff path p).1 e) in
              elim there [
                | inl before ↦ inl (
                    subst (λ d. lookup (id, path) d ≡ some bytes) bucket
                      (lookup-insert_ne (id, path) (id, p) b w.bucket
                          (λ e. differs (ap (λ (k : ℕ × List String). k.1) e))
                        ∙ before))
                | inr (inl e) ↦ absurd (differs (ap (λ (f : List String × Bytes). f.0) e))
                | inr (inr m) ↦ inr m
              ]
        ])
