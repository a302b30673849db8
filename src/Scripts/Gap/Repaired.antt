-- ===== src/Scripts/Gap/Repaired.antt =====
-- What `repair` of scripts/repair_archive_gap.py leaves when it commits.
use fleet_lambda_platform.Base.{
  ℕ, ◌≤◌, ◌<◌, String, Bool, true, false, Option, some, List, [], ◌∷◌, map, In, length, eqb, leb,
  All, ◌≡◌, sym, ap, ◌∙◌, subst, arith, inl, inr, Bool-cases, Option-cases, string_eq, nat_eq,
  pair_eq, list_eq,
}
use fleet_lambda_platform.Base.Dict.{lookup, lookup-insert_self}
use fleet_lambda_platform.Base.Result.{
  Result, Exn, ok, raise_if, >>=-eq-ok, raise_if-ok, ok-injective,
}
use fleet_lambda_platform.Base.Stateful.{After, ◌>>>◌, unless_raised, unless_raised-ok, >>>-ok}
use fleet_lambda_platform.Common.Archive.{Manifest, build_manifest, verified_paths}
use fleet_lambda_platform.Common.Archive.Intact.{day_keys}
use fleet_lambda_platform.Common.Archive.Roundtrip.{build_manifest-verified_paths}
use fleet_lambda_platform.Common.Domain.{validate_event}
use fleet_lambda_platform.Scripts.Recovery.{
  Message, Recovered, date_files, read_retained, of_day, item_of,
}
use fleet_lambda_platform.Scripts.Recovery.Retained.{
  IsComplete, messages_of, messages_of-In, read_retained-IsComplete,
}
use fleet_lambda_platform.Scripts.Gap.Written.{
  day_of_event, HasFolders, In-date_files, date_files_one, write_files-holds,
}
use fleet_lambda_platform.Scripts.Restore.Run.{LedgerBatch, Operation, commit}
use fleet_lambda_platform.Scripts.Gap.Uncommitted.{write_files-IsUncommitted, untouched}
use fleet_lambda_platform.Scripts.Gap.Known.{IsKnown, verify_identities-IsKnown}
use fleet_lambda_platform.Scripts.Gap.{
  World, Tools, Snapshot, raw_max, live_max, next_batch_id, in_gap, verify_identities, recover,
  write_files, new_batch, record_batch, archive, repair_between, repair,
}

next_batch_id-above :
    (bs : List LedgerBatch) (n : ℕ)
    → next_batch_id bs ≤ n
    → All (λ (b : LedgerBatch). b.batch_id < n) bs
next_batch_id-above [] n h = tt
next_batch_id-above (b ∷ bs) n h = (ground arith, next_batch_id-above bs n (ground arith))

some-injective : {a b : ℕ} → some a ≡ some b → a ≡ b
some-injective h = cc

module _ (tools : Tools) (faults : Operation → Option Exn) (snapshot : Snapshot) where
  -- The gap from `raw` to `live` is archived as one more batch, which was not in the ledger: events that
  -- Kafka retains, none missing and none added, valid, at instants of the gap, with identities that
  -- serving knows. The file of each day holds the day's events, under a manifest that is verified for
  -- every day.
  pub record IsRepaired (include_boundary : Bool) (id : ℕ) (w v : World) : Type 0 where
    pub raw : ℕ
    pub live : ℕ
    pub recovered : List Recovered
    pub manifest : Manifest
    pub is_raw : raw_max w ≡ some raw
    pub is_live : live_max w ≡ some live
    pub is_gap : leb live raw ≡ false
    pub is_new : All (λ (b : LedgerBatch). b.batch_id < id) w.batches
    pub is_nonempty : eqb (length recovered) 0 ≡ false
    pub are_retained :
        IsComplete tools.fromisoformat
          (in_gap include_boundary raw live)
          snapshot.ends
          snapshot.polls
          snapshot.starts
          recovered
    pub are_known : All (IsKnown tools w recovered) recovered
    pub is_recorded : v.batches ≡ new_batch tools faults snapshot id recovered manifest ∷ w.batches
    pub are_written :
        (r : Recovered)
        → In r recovered
        → lookup (id, (tools.folder (day_of_event r) ∷ "recovered-gap.parquet" ∷ [])) v.bucket
          ≡ some (tools.write_table (of_day (day_of_event r) (map item_of recovered)))
    pub is_marked : lookup id v.verification ≡ some (tools.manifest_fingerprint manifest)
    pub is_verified :
        (folder : String)
        → verified_paths tools.sha256 v.bucket
            (record {
              batch_id = id;
              rows_valid = length recovered;
              archive_manifest = some manifest;
            }
              ∷ [])
            folder
          ≡ ok (day_keys folder id manifest.files)

  recover_sound :
      (include_boundary : Bool) (raw live : ℕ) (w : World) (recovered : List Recovered)
      → recover tools faults snapshot include_boundary raw live w ≡ ok recovered
      → (eqb (length recovered) 0 ≡ false)
        × IsComplete tools.fromisoformat
            (in_gap include_boundary raw live)
            snapshot.ends
            snapshot.polls
            snapshot.starts
            recovered
        × All (IsKnown tools w recovered) recovered
  unfolding recover
  recover_sound include_boundary raw live w recovered h =
      let (out, read, h1) =
        >>=-eq-ok
          (read_retained tools.fromisoformat (in_gap include_boundary raw live) snapshot.ends
            snapshot.polls snapshot.starts [])
          _ h in
      let (_, some_there, h2) = >>=-eq-ok (raise_if (eqb (length out) 0) _) _ h1 in
      let (u, verified, h3) = >>=-eq-ok (verify_identities tools w out) _ h2 in
      subst
        (λ xs.
          (eqb (length xs) 0 ≡ false)
          × IsComplete tools.fromisoformat (in_gap include_boundary raw live) snapshot.ends
              snapshot.polls snapshot.starts xs
          × All (IsKnown tools w xs) xs)
        (ok-injective h3)
        (
          raise_if-ok _ _ _ some_there,
          read_retained-IsComplete tools.fromisoformat (in_gap include_boundary raw live)
              snapshot.ends snapshot.polls snapshot.starts out read,
          verify_identities-IsKnown tools w out verified,
        )

  -- What the last three steps leave of a ledger.
  record IsArchived (id : ℕ) (recovered : List Recovered) (w v : World) (m : Manifest)
      : Type 0 where
    records : v.batches ≡ new_batch tools faults snapshot id recovered m ∷ w.batches
    marks : lookup id v.verification ≡ some (tools.manifest_fingerprint m)
    builds : build_manifest tools.num_rows tools.sha256 v.bucket id (length recovered) ≡ ok m
    writes :
        (r : Recovered)
        → In r recovered
        → lookup (id, (tools.folder (day_of_event r) ∷ "recovered-gap.parquet" ∷ [])) v.bucket
          ≡ some (tools.write_table (of_day (day_of_event r) (map item_of recovered)))

  recorded-IsArchived :
      (raw live id : ℕ) (recovered : List Recovered) (w u : World) (m : Manifest)
      → u.batches ≡ w.batches
      → build_manifest tools.num_rows tools.sha256 u.bucket id (length recovered) ≡ ok m
      → ((r : Recovered)
          → In r recovered
          → lookup (id, (tools.folder (day_of_event r) ∷ "recovered-gap.parquet" ∷ [])) u.bucket
            ≡ some (tools.write_table (of_day (day_of_event r) (map item_of recovered))))
      → IsArchived id recovered w (record_batch tools faults snapshot raw live id recovered m u).1 m
  recorded-IsArchived raw live id recovered w u m same built written = record {
    records = ap (◌∷◌ (new_batch tools faults snapshot id recovered m)) same;
    marks = lookup-insert_self id (tools.manifest_fingerprint m) u.verification;
    builds = built;
    writes = written;
  }

  archive-IsArchived :
      (raw live : ℕ) (recovered : List Recovered) (w v : World) (answer : Option ℕ)
      → HasFolders tools.folder recovered
      → archive tools faults snapshot raw live recovered w ≡ (ok answer, v)
      → (m : Manifest) × IsArchived (next_batch_id w.batches) recovered w v m
        × (answer ≡ some (next_batch_id w.batches))
  unfolding archive
  archive-IsArchived raw live recovered w v answer folders h =
      let id = next_batch_id w.batches in
      let files = date_files tools.folder tools.write_table "recovered-gap.parquet" recovered in
      let build : World → After World Manifest =
        λ v. (build_manifest tools.num_rows tools.sha256 v.bucket id (length recovered), v) in
      let last : Manifest → World → After World (Option ℕ) = λ m u.
        unless_raised (faults commit) (record_batch tools faults snapshot raw live id recovered m)
          u in
      let (u, w1, wrote, h1) =
        >>>-ok (write_files tools faults snapshot id files w) (λ _ v. build v >>> last) h in
      let (m, w2, built, h2) = >>>-ok (build w1) last h1 in
      let recorded : record_batch tools faults snapshot raw live id recovered m w2
          ≡ (ok answer, v) =
        unless_raised-ok (faults commit) _ w2 h2 in
      let stay : w1 ≡ w2 = ap (λ p. p.1) built in
      let tables =
        write_files-IsUncommitted tools faults snapshot files w w
          (untouched tools faults snapshot w) in
      let same : w2.batches ≡ w.batches =
        ap (λ (x : World). x.batches) (sym stay ∙ ap (λ p. p.1) (sym wrote))
        ∙ tables.same_batches in
      let made : build_manifest tools.num_rows tools.sha256 w2.bucket id (length recovered) ≡ ok m =
        ap
          (λ (x : World). build_manifest tools.num_rows tools.sha256 x.bucket id (length recovered))
          (sym stay)
        ∙ ap (λ p. p.0) built in
      let name : String = "recovered-gap.parquet" in
      let written : (r : Recovered)
          → In r recovered
          → lookup (id, (tools.folder (day_of_event r) ∷ name ∷ [])) w2.bucket
            ≡ some (tools.write_table (of_day (day_of_event r) (map item_of recovered))) =
        λ r i.
          subst
            (λ (x : World).
              lookup (id, (tools.folder (day_of_event r) ∷ name ∷ [])) x.bucket
              ≡ some (tools.write_table (of_day (day_of_event r) (map item_of recovered))))
            stay
            (write_files-holds tools faults snapshot id (tools.folder (day_of_event r) ∷ name ∷ [])
              (tools.write_table (of_day (day_of_event r) (map item_of recovered))) files w w1 u
              wrote (date_files_one tools.folder tools.write_table name recovered folders r i)
              (inr (In-date_files tools.folder tools.write_table name recovered r i))) in
      (
        m,
        subst (λ x. IsArchived id recovered w x m) (ap (λ p. p.1) recorded)
            (recorded-IsArchived raw live id recovered w w2 m same made written),
        sym (ok-injective (ap (λ p. p.0) recorded)),
      )

  -- The event that `validate_event` reads in a polled message.
  abbrev pub IsPolled : Recovered → Type 0
  IsPolled r =
      (m : Message) × In m (messages_of snapshot.polls)
      × (m.value ≡ some r.object)
      × (validate_event tools.fromisoformat r.object ≡ ok r.event)

  -- The days of polled events have folders of their own.
  abbrev pub NamesDays : Type 0
  NamesDays =
      (a b : Recovered)
      → IsPolled a
      → IsPolled b
      → tools.folder (day_of_event a) ≡ tools.folder (day_of_event b)
      → day_of_event a ≡ day_of_event b

  recovered-HasFolders :
      (within : ℕ → Result Bool) (recovered : List Recovered)
      → NamesDays
      → IsComplete tools.fromisoformat within snapshot.ends snapshot.polls snapshot.starts recovered
      → HasFolders tools.folder recovered
  recovered-HasFolders within recovered names c a b i j same =
      names a b (polled a i) (polled b j) same
    where
      polled : (r : Recovered) → In r recovered → IsPolled r
      polled r k =
          let (m, n, (value, below, (valid, wanted))) = (c.same_events r).0 k in
          (
            m,
            subst (λ ps. In m (messages_of ps)) c.are_polls (messages_of-In m c.consumed c.rest n),
            value,
            valid,
          )

  repair_between-IsRepaired :
      (include_boundary : Bool) (raw live : ℕ) (w v : World) (id : ℕ)
      → raw_max w ≡ some raw
      → live_max w ≡ some live
      → NamesDays
      → repair_between tools faults snapshot include_boundary raw live w ≡ (ok (some id), v)
      → IsRepaired include_boundary id w v
  unfolding repair_between
  repair_between-IsRepaired include_boundary raw live w v id is_raw is_live names h =
      elim (Bool-cases (leb live raw)) [
        | inl current ↦ cc (ap (λ p. p.0) (rw current at h))
        | inr behind ↦
            let (recovered, w1, got, h1) =
              >>>-ok (recover tools faults snapshot include_boundary raw live w, w)
                (λ recovered u. archive tools faults snapshot raw live recovered u)
                (rw behind at h) in
            let (nonempty, complete, known) =
              recover_sound include_boundary raw live w recovered (ap (λ p. p.0) got) in
            let stay : w1 ≡ w = sym (ap (λ p. p.1) got) in
            let (m, r, answer) =
              archive-IsArchived raw live recovered w v (some id)
                (recovered-HasFolders (in_gap include_boundary raw live) recovered names complete)
                (ap (archive tools faults snapshot raw live recovered) (sym stay) ∙ h1) in
            let at : next_batch_id w.batches ≡ id = some-injective (sym answer) in
            subst (λ n. IsRepaired include_boundary n w v) at
              (record {
                raw = raw;
                live = live;
                recovered = recovered;
                manifest = m;
                is_raw = is_raw;
                is_live = is_live;
                is_gap = behind;
                is_new = next_batch_id-above w.batches (next_batch_id w.batches) (omega arith);
                is_nonempty = nonempty;
                are_retained = complete;
                are_known = known;
                is_recorded = r.records;
                are_written = r.writes;
                is_marked = r.marks;
                is_verified = λ folder.
                    build_manifest-verified_paths tools.num_rows tools.sha256 v.bucket
                      (next_batch_id w.batches) (length recovered) folder m r.builds;
              })
      ]

  -- Where different days of polled events have different folders, and `repair` commits a batch, the gap
  -- is archived as `IsRepaired` says: the batch is new in the ledger; its events are exactly the valid
  -- ones of the gap in the messages below the end offsets of the polls that were read, which reach
  -- the end of each partition; the file of each of their days holds the day's events; and the
  -- recorded manifest is verified for every day.
  pub repair-IsRepaired :
      (has_lock include_boundary : Bool) (w v : World) (id : ℕ)
      → NamesDays
      → repair tools faults snapshot has_lock include_boundary w ≡ (ok (some id), v)
      → IsRepaired include_boundary id w v
  unfolding repair
  repair-IsRepaired false include_boundary w v id names h = cc (ap (λ p. p.0) h)
  repair-IsRepaired true include_boundary w v id names h = elim (Option-cases (raw_max w)) [
    | inl empty ↦ cc (ap (λ p. p.0) (rw (empty, repair) at h))
    | inr (raw, is_raw) ↦ elim (Option-cases (live_max w)) [
      | inl empty ↦ cc (ap (λ p. p.0) (rw (is_raw, repair, empty) at h))
      | inr (live, is_live) ↦
          repair_between-IsRepaired include_boundary raw live w v id is_raw is_live names
            (rw (is_raw, repair, is_live) at h)
    ]
  ]
