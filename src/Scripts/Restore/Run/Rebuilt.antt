-- ===== src/Scripts/Restore/Run/Rebuilt.antt =====
-- What `restore` of scripts/restore_archive_batch.py leaves when it has rebuilt a batch from Kafka.
use fleet_lambda_platform.Base.{
  not-false→true, ℕ, String, true, false, not, Option, none, some, List, [], ◌∷◌, map, length, eqb,
  All, ◌≡◌, refl, sym, ap, ◌∙◌, subst, arith, nat_eq, string_eq, Bool-cases, Option-cases, inl, inr,
  eqb_iff,
}
use fleet_lambda_platform.Base.Dict.{lookup, lookup-insert_self}
use fleet_lambda_platform.Base.Paths.{PurePath}
use fleet_lambda_platform.Base.Result.{Exn, ok, err, raise_if, >>=-eq-ok, raise_if-ok, ok-injective}
use fleet_lambda_platform.Base.Stateful.{After, ◌>>>◌, unless_raised, unless_raised-ok, >>>-ok}
use fleet_lambda_platform.Common.Archive.{Bytes, Bucket, Manifest, build_manifest, verified_paths}
use fleet_lambda_platform.Common.Archive.Intact.{day_keys}
use fleet_lambda_platform.Common.Archive.Roundtrip.{build_manifest-verified_paths}
use fleet_lambda_platform.Scripts.Recovery.{Recovered, date_files, read_retained}
use fleet_lambda_platform.Scripts.Recovery.Events.{IsWanted, read_retained-IsWanted}
use fleet_lambda_platform.Scripts.Restore.{source_ranges}
use fleet_lambda_platform.Scripts.Restore.Run.{
  LedgerBatch, Folder, Store, Operation, back_up_root, write_object, Work, files_of, without,
  placed, root_exists, find_batch, or_no_files, within, newest, is_last, is_retained, set_manifest,
  Tools, Retained, back_up, roll_back, raise_again, guarded, publish, publish_root, commit,
  record_manifest, commit_manifest, replace_root, recover, write_temporary, rebuild, restore,
  exact_legacy,
}

abbrev with_manifest : Manifest → Option LedgerBatch → Option LedgerBatch
with_manifest m none = none
with_manifest m (some b) = some (record b { archive_manifest = some m })

module _ (id : ℕ) where
  files_of-without : (bucket : Bucket) → files_of id (without id bucket) ≡ []
  files_of-without [] = refl
  files_of-without (((i, p), c) ∷ bucket) = ground (arith, files_of-without bucket)

  files_of_absent : (bucket : Bucket) → root_exists id bucket ≡ false → files_of id bucket ≡ []
  files_of_absent [] h = refl
  files_of_absent (((i, p), c) ∷ bucket) h = ground (arith, files_of_absent bucket)

  files_of-placed :
      (files : Folder) (bucket : Bucket)
      → files_of id bucket ≡ []
      → files_of id (placed id files bucket) ≡ files
  files_of-placed [] bucket h = h
  files_of-placed (f ∷ files) bucket h =
      ground (arith, eqb_iff id id, files_of-placed files bucket h)

  find_batch-set_manifest :
      (m : Manifest) (batches : List LedgerBatch) (batch : LedgerBatch)
      → find_batch id batches ≡ some batch
      → find_batch id (set_manifest id m batches)
        ≡ some (record batch { archive_manifest = some m })
  find_batch-set_manifest m [] batch h = cc
  find_batch-set_manifest m (b ∷ bs) batch h = elim (Bool-cases (eqb b.batch_id id)) [
    | inl here ↦
        let same : some b ≡ some batch = rw here at h in rw (here, here) (ap (with_manifest m) same)
    | inr there ↦ rw (there, there) (find_batch-set_manifest m bs batch (rw there at h))
  ]

is_last-eq : (a b : Option ℕ) → is_last a b ≡ true → a ≡ b
is_last-eq none none h = refl
is_last-eq none (some y) h = cc
is_last-eq (some x) none h = cc
is_last-eq (some x) (some y) h = ap some ((eqb_iff x y).0 h)

module _ (tools : Tools) (faults : Operation → Option Exn) (id : ℕ) (token : String) where
  -- The folder of the batch holds these files alone, under the manifest that is recorded.
  record IsReplaced (files : Folder) (rows : ℕ) (s s' : Store) (m : Manifest) : Type 0 where
    holds : files_of id s'.bucket ≡ files
    builds : build_manifest tools.num_rows tools.sha256 s'.bucket id rows ≡ ok m
    records : s'.batches ≡ set_manifest id m s.batches
    marks : lookup id s'.verification ≡ some (tools.manifest_fingerprint m)

  raise_again-err :
      {A : Type 0} (e : Exn) (a : A) (s' : Store) (x : After Work (Unit {0}))
      → raise_again tools faults id token e x ≡ (ok a, s')
      → ⊥
  raise_again-err e a s' (ok u, v) k = cc
  raise_again-err e a s' (err x, v) k = cc

  guarded-ok :
      {A : Type 0} (block : After Work A) (a : A) (s' : Store)
      → guarded tools faults id token block ≡ (ok a, s')
      → (w : Work) × (block ≡ (ok a, w)) × (w.store ≡ s')
  guarded-ok (err e, w) a s' h =
      absurd (raise_again-err e a s' (roll_back tools faults id token w) h)
  guarded-ok (ok b, w) a s' h =
      let same : b ≡ a = ok-injective (ap (λ p. p.0) h) in (w, rw same refl, ap (λ p. p.1) h)

  back_up-cleared :
      (s : Store) (u : Unit {0}) (w : Work)
      → back_up tools faults id token (record { store = s; moved_old = false }) ≡ (ok u, w)
      → (files_of id w.store.bucket ≡ []) × (w.store.batches ≡ s.batches)
  unfolding back_up
  back_up-cleared s u w h = elim (Bool-cases (root_exists id s.bucket)) [
    | inl there ↦
        let moved = unless_raised-ok (faults back_up_root) _ _ (rw there at h) in
        let same = ap (λ p. p.1) moved in
        subst (λ v. (files_of id v.store.bucket ≡ []) × (v.store.batches ≡ s.batches)) same
          (files_of-without id s.bucket, refl)
    | inr absent ↦
        let same = ap (λ p. p.1) (rw absent at h) in
        subst (λ v. (files_of id v.store.bucket ≡ []) × (v.store.batches ≡ s.batches)) same
          (files_of_absent id s.bucket absent, refl)
  ]

  -- The store after the two moves and the last transaction, from a store without the folder.
  published-IsReplaced :
      (files : Folder) (rows : ℕ) (s : Store) (w : Work) (m : Manifest)
      → files_of id w.store.bucket ≡ []
      → w.store.batches ≡ s.batches
      → build_manifest tools.num_rows tools.sha256
          (publish tools faults id token files w).1.store.bucket
          id
          rows
        ≡ ok m
      → IsReplaced files rows s
          (record_manifest tools faults id token m
            (publish tools faults id token files w).1).1.store
          m
  published-IsReplaced files rows s w m empty batches built = record {
    holds = files_of-placed id files w.store.bucket empty;
    builds = built;
    records = ap (set_manifest id m) batches;
    marks = lookup-insert_self id (tools.manifest_fingerprint m) w.store.verification;
  }

  replace_root-IsReplaced :
      (files : Folder) (rows : ℕ) (s s' : Store)
      → replace_root tools faults id token files rows s ≡ (ok tt, s')
      → (m : Manifest) × IsReplaced files rows s s' m
  unfolding replace_root commit_manifest
  replace_root-IsReplaced files rows s s' h =
      let start : Work = record { store = s; moved_old = false } in
      let (w, block, same) = guarded-ok _ tt s' h in
      let (u1, w1, backed, h1) = >>>-ok (back_up tools faults id token start) _ block in
      let (u2, w2, moved, h2) =
        >>>-ok (unless_raised (faults publish_root) (publish tools faults id token files) w1)
          (λ _ v. commit_manifest tools faults id token rows v) h1 in
      let (m, w3, built, h3) =
        >>>-ok (build_manifest tools.num_rows tools.sha256 w2.store.bucket id rows, w2)
          (λ m v. unless_raised (faults commit) (record_manifest tools faults id token m) v) h2 in
      let placed_files : publish tools faults id token files w1 ≡ (ok u2, w2) =
        unless_raised-ok (faults publish_root) _ w1 moved in
      let recorded : record_manifest tools faults id token m w3 ≡ (ok tt, w) =
        unless_raised-ok (faults commit) _ w3 h3 in
      let (empty, batches) = back_up-cleared s u1 w1 backed in
      let published = (publish tools faults id token files w1).1 in
      let first : published ≡ w2 = ap (λ p. p.1) placed_files in
      let second : w2 ≡ w3 = ap (λ p. p.1) built in
      let made : build_manifest tools.num_rows tools.sha256 published.store.bucket id rows ≡ ok m =
        ap (λ (v : Work). build_manifest tools.num_rows tools.sha256 v.store.bucket id rows) first
        ∙ ap (λ p. p.0) built in
      let to_end : (record_manifest tools faults id token m published).1.store ≡ s' =
        ap (λ v. (record_manifest tools faults id token m v).1.store) (first ∙ second)
        ∙ (ap (λ p. p.1.store) recorded ∙ same) in
      (
        m,
        subst (λ v. IsReplaced files rows s v m) to_end
            (published-IsReplaced files rows s w1 m empty batches made),
      )

  -- The batch is rebuilt: its folder holds the files of the recovered events and no other, these are as
  -- many as the ledger counts, valid, at instants from the start of the simulation to the largest
  -- of the batch, which is reached, and the manifest that the ledger now has is verified for every day.
  pub record IsRebuilt (batch : LedgerBatch) (s' : Store) : Type 0 where
    pub recovered : List Recovered
    pub manifest : Manifest
    pub is_counted : length recovered ≡ batch.rows_valid
    pub are_wanted : All (IsWanted tools.fromisoformat (within batch.max_event_ts)) recovered
    pub same_end : newest recovered ≡ batch.max_event_ts
    pub holds :
        files_of id s'.bucket
        ≡ date_files tools.folder tools.write_table "restored.parquet" recovered
    pub is_recorded :
        find_batch id s'.batches ≡ some (record batch { archive_manifest = some manifest })
    pub is_marked : lookup id s'.verification ≡ some (tools.manifest_fingerprint manifest)
    pub is_verified :
        (folder : String)
        → verified_paths tools.sha256 s'.bucket
            (record {
              batch_id = id;
              rows_valid = batch.rows_valid;
              archive_manifest = some manifest;
            }
              ∷ [])
            folder
          ≡ ok (day_keys folder id manifest.files)

  module _ (retained : Retained) (batch : LedgerBatch) where
    recover_sound :
        (recovered : List Recovered)
        → recover tools faults id token retained batch ≡ ok recovered
        → (length recovered ≡ batch.rows_valid)
          × (newest recovered ≡ batch.max_event_ts)
          × All (IsWanted tools.fromisoformat (within batch.max_event_ts)) recovered
    unfolding recover
    recover_sound recovered h =
        let (ranges, r, h1) = >>=-eq-ok (source_ranges batch.rows_in batch.source_offsets) _ h in
        let (_, kept, h2) =
          >>=-eq-ok (raise_if (not (is_retained retained.beginnings retained.ends ranges)) _) _
            h1 in
        let (out, read, h3) =
          >>=-eq-ok
            (read_retained tools.fromisoformat (within batch.max_event_ts)
              (map (λ e. (e.0, e.1.stop)) ranges) retained.polls
              (map (λ e. (e.0, e.1.start)) ranges) [])
            _ h2 in
        let (_, counted, h4) =
          >>=-eq-ok (raise_if (not (eqb (length out) batch.rows_valid)) _) _ h3 in
        let (_, ended, h5) =
          >>=-eq-ok (raise_if (not (is_last (newest out) batch.max_event_ts)) _) _ h4 in
        subst
          (λ xs.
            (length xs ≡ batch.rows_valid)
            × (newest xs ≡ batch.max_event_ts)
            × All (IsWanted tools.fromisoformat (within batch.max_event_ts)) xs)
          (ok-injective h5)
          (
            (eqb_iff (length out) batch.rows_valid).0
                (not-false→true _ (raise_if-ok _ _ _ counted)),
            is_last-eq _ _ (not-false→true _ (raise_if-ok _ _ _ ended)),
            read_retained-IsWanted tools.fromisoformat (within batch.max_event_ts) _ retained.polls
                _ [] out read tt,
          )

    write_temporary-files :
        (recovered : List Recovered) (files : Folder)
        → write_temporary tools faults id token retained recovered ≡ ok files
        → date_files tools.folder tools.write_table "restored.parquet" recovered ≡ files
    write_temporary-files recovered files h = elim (Option-cases (faults (write_object []))) [
      | inl fine ↦ ok-injective (rw (fine, write_temporary) at h)
      | inr (e, raised) ↦ cc (rw (raised, write_temporary) at h)
    ]

    rebuild-IsRebuilt :
        (s s' : Store)
        → find_batch id s.batches ≡ some batch
        → rebuild tools faults id token retained batch s ≡ (ok tt, s')
        → IsRebuilt batch s'
    unfolding rebuild
    rebuild-IsRebuilt s s' found h =
        let (recovered, s1, got, h1) =
          >>>-ok (recover tools faults id token retained batch, s)
            (λ recovered s.
              (write_temporary tools faults id token retained recovered, s) >>> λ files s.
              replace_root tools faults id token files (length recovered) s)
            h in
        let (files, s2, written, h2) =
          >>>-ok (write_temporary tools faults id token retained recovered, s1)
            (λ files s. replace_root tools faults id token files (length recovered) s) h1 in
        let (counted, ended, wanted) = recover_sound recovered (ap (λ p. p.0) got) in
        let (m, r) = replace_root-IsReplaced files (length recovered) s2 s' h2 in
        let start : s ≡ s2 = ap (λ p. p.1) got ∙ ap (λ p. p.1) written in
        record {
          recovered = recovered;
          manifest = m;
          is_counted = counted;
          are_wanted = wanted;
          same_end = ended;
          holds = r.holds ∙ sym (write_temporary-files recovered files (ap (λ p. p.0) written));
          is_recorded =
              ap (find_batch id) (r.records ∙ ap (λ v. set_manifest id m v.batches) (sym start))
              ∙ find_batch-set_manifest id m s.batches batch found;
          is_marked = r.marks;
          is_verified = λ folder.
              build_manifest-verified_paths tools.num_rows tools.sha256 s'.bucket id
                batch.rows_valid folder m
                (subst (λ n. build_manifest tools.num_rows tools.sha256 s'.bucket id n ≡ ok m)
                  counted r.builds);
        }

  -- When a batch of the ledger has no exact legacy copy and `restore` returns, the batch is rebuilt as
  -- `IsRebuilt` says.
  pub restore-IsRebuilt :
      (retained : Retained) (batch : LedgerBatch) (read_legacy : PurePath → Option Bytes)
      (s s' : Store)
      → find_batch id s.batches ≡ some batch
      → exact_legacy tools faults id token read_legacy (or_no_files batch.archive_manifest) ≡ false
      → restore tools faults id token retained read_legacy s ≡ (ok tt, s')
      → IsRebuilt batch s'
  unfolding restore
  restore-IsRebuilt retained batch read_legacy s s' found other h =
      rebuild-IsRebuilt retained batch s s' found (elim (Option-cases batch.archive_manifest) [
        | inl bare ↦ rw (found, restore, bare) at h
        | inr (m, has) ↦ rw (found, restore, has, rw (has, or_no_files) at other) at h
      ])
