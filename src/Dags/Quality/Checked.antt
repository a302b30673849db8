-- ===== src/Dags/Quality/Checked.antt =====
-- What the verification of the archives of airflow/dags/data_quality_dag.py has found and stored when
-- it does not raise.
use fleet_lambda_platform.Base.{
  ℕ, String, Bool, true, false, some, List, [], ◌∷◌, keep, all, elem, In, All, All-In, all-All,
  In-keep, keep-In, All_weaken, ◌≡◌, ◌≢◌, ◌⊎◌, refl, sym, ap, ◌∙◌, subst, inl, inr, Bool-cases,
  Option-cases, ◌==◌, eqb, eqb_iff, string_eq, nat_eq, pair_eq, list_eq,
}
use fleet_lambda_platform.Base.Dict.{
  lookup, insert, lookup-insert_self, lookup-insert_ne, lookup-In, All-insert,
}
use fleet_lambda_platform.Base.Result.{ok}
use fleet_lambda_platform.Common.Archive.{
  Bytes, Bucket, Batch, Manifest, ManifestFile, digest, read_object,
}
use fleet_lambda_platform.Dags.Quality.{
  Verification, is_changed, sample_ids, add_batches, candidates, all_match, is_intact,
  fingerprint_of, store_verified, check_archive_integrity,
}

-- The ledger has one row for each batch id.
abbrev pub OneEach : List Batch → Type 0
OneEach batches = (a b : Batch) → In a batches → In b batches → a.batch_id ≡ b.batch_id → a ≡ b

-- Every object that the batch's manifest promises is there with its digest.
pub record Intact (sha256 : Bytes → String) (bucket : Bucket) (b : Batch) : Type 0 where
  pub manifest : Manifest
  pub has_manifest : b.archive_manifest ≡ some manifest
  pub same_rows : manifest.rows ≡ b.rows_valid
  pub objects :
      All
        (λ f.
          (bytes : Bytes) × (lookup (b.batch_id, f.path.parts) bucket ≡ some bytes)
          × (sha256 bytes ≡ f.sha256))
        manifest.files

module _ (num_rows : Bytes → ℕ) (sha256 : Bytes → String) (print : Manifest → String)
    (bucket : Bucket) (now : ℕ) where
  add_batches_kept :
      (b : Batch) (batches : List Batch) (found : List (ℕ × Batch))
      → ((a : Batch) → In a batches → a.batch_id ≡ b.batch_id → a ≡ b)
      → lookup b.batch_id found ≡ some b
      → lookup b.batch_id (add_batches num_rows sha256 print bucket now batches found) ≡ some b
  unfolding add_batches
  add_batches_kept b [] found one h = h
  add_batches_kept b (a ∷ batches) found one h =
      add_batches_kept b batches (insert a.batch_id a found) (λ x m. one x (inr m))
        (elim (Bool-cases (eqb b.batch_id a.batch_id)) [
          | inl p ↦
              let same = (eqb_iff b.batch_id a.batch_id).0 p in
              subst (λ (x : Batch). lookup b.batch_id (insert x.batch_id x found) ≡ some b)
                (sym (one a (inl refl) (sym same))) (lookup-insert_self b.batch_id b found)
          | inr q ↦
              lookup-insert_ne b.batch_id a.batch_id a found
                (λ e. cc (q, (eqb_iff b.batch_id a.batch_id).1 e))
              ∙ h
        ])

  add_batches_there :
      (b : Batch) (batches : List Batch) (found : List (ℕ × Batch))
      → ((a : Batch) → In a batches → a.batch_id ≡ b.batch_id → a ≡ b)
      → In b batches
      → lookup b.batch_id (add_batches num_rows sha256 print bucket now batches found) ≡ some b
  unfolding add_batches
  add_batches_there b [] found one m = absurd m
  add_batches_there b (a ∷ batches) found one (inl same) =
      add_batches_kept b batches (insert a.batch_id a found) (λ x m. one x (inr m))
        (subst (λ (x : Batch). lookup b.batch_id (insert x.batch_id x found) ≡ some b) same
          (lookup-insert_self b.batch_id b found))
  add_batches_there b (a ∷ batches) found one (inr m) =
      add_batches_there b batches (insert a.batch_id a found) (λ x i. one x (inr i)) m

  add_batches-All :
      (P : ℕ × Batch → Type 0) (batches : List Batch) (found : List (ℕ × Batch))
      → ((a : Batch) → In a batches → P (a.batch_id, a))
      → All P found
      → All P (add_batches num_rows sha256 print bucket now batches found)
  unfolding add_batches
  add_batches-All P [] found h k = k
  add_batches-All P (a ∷ batches) found h k =
      add_batches-All P batches (insert a.batch_id a found) (λ x m. h x (inr m))
        (All-insert P a.batch_id a found (h a (inl refl)) k)

  all_match-objects :
      (id : ℕ) (files : List ManifestFile)
      → all_match num_rows sha256 print bucket now id files ≡ true
      → All
          (λ f.
            (bytes : Bytes) × (lookup (id, f.path.parts) bucket ≡ some bytes)
            × (sha256 bytes ≡ f.sha256))
          files
  unfolding all_match digest read_object
  all_match-objects id [] h = tt
  all_match-objects id (f ∷ files) h = elim (Option-cases (lookup (id, f.path.parts) bucket)) [
    | inl p ↦ cc (rw (p, read_object, all_match, digest) at h)
    | inr (bytes, p) ↦
        let more = rw (p, read_object, all_match, digest) at h in
        elim (Bool-cases (sha256 bytes == f.sha256)) [
          | inr q ↦ cc (rw q at more)
          | inl q ↦ (
            (bytes, p, (string_eq.beq_iff (sha256 bytes) f.sha256).0 q),
            all_match-objects id files (rw q at more),
          )
        ]
  ]

  is_intact-Intact :
      (b : Batch) → is_intact num_rows sha256 print bucket now b ≡ true → Intact sha256 bucket b
  unfolding is_intact
  is_intact-Intact b h = elim (Option-cases b.archive_manifest) [
    | inl p ↦ cc (rw (p, is_intact) at h)
    | inr (m, p) ↦
        let more = rw (p, is_intact) at h in
        elim (Bool-cases (eqb m.rows b.rows_valid)) [
          | inr q ↦ cc (rw q at more)
          | inl q ↦ record {
            manifest = m;
            has_manifest = p;
            same_rows = (eqb_iff m.rows b.rows_valid).0 q;
            objects = all_match-objects b.batch_id m.files (rw q at more);
          }
        ]
  ]

  -- The batch is stored with the fingerprint of its manifest.
  abbrev IsStored : Batch → List (ℕ × Verification) → Type 0
  IsStored b prior =
      (v : Verification) × (lookup b.batch_id prior ≡ some v)
      × (v.manifest_sha256 ≡ fingerprint_of num_rows sha256 print bucket now b)

  abbrev entry : Batch → Verification
  entry b = record {
    manifest_sha256 = fingerprint_of num_rows sha256 print bucket now b;
    verified_at = now;
  }

  ne_of : (b a : Batch) → eqb b.batch_id a.batch_id ≡ false → a.batch_id ≢ b.batch_id
  ne_of b a q same = cc (q, (eqb_iff b.batch_id a.batch_id).1 (sym same))

  stored_insert :
      (b a : Batch) (prior : List (ℕ × Verification))
      → (a.batch_id ≡ b.batch_id → a ≡ b)
      → (IsStored b prior ⊎ (a.batch_id ≡ b.batch_id))
      → IsStored b (insert a.batch_id (entry a) prior)
  stored_insert b a prior one h = elim (Bool-cases (eqb b.batch_id a.batch_id)) [
    | inl p ↦
        subst (λ (x : Batch). IsStored b (insert x.batch_id (entry x) prior))
          (sym (one (sym ((eqb_iff b.batch_id a.batch_id).0 p))))
          (entry b, lookup-insert_self b.batch_id (entry b) prior, refl)
    | inr q ↦ elim h [
      | inr same ↦ absurd (ne_of b a q same)
      | inl (v, at, print_same) ↦ (
        v,
        lookup-insert_ne b.batch_id a.batch_id (entry a) prior (λ e. ne_of b a q (sym e)) ∙ at,
        print_same,
      )
    ]
  ]

  store_verified-IsStored :
      (b : Batch) (found : List (ℕ × Batch)) (prior : List (ℕ × Verification))
      → All (λ c. c.1.batch_id ≡ b.batch_id → c.1 ≡ b) found
      → (IsStored b prior ⊎ In (b.batch_id, b) found)
      → IsStored b (store_verified num_rows sha256 print bucket now found prior)
  unfolding store_verified
  store_verified-IsStored b [] prior one (inl h) = h
  store_verified-IsStored b [] prior one (inr m) = absurd m
  store_verified-IsStored b ((id, a) ∷ found) prior (here, one) (inl h) =
      store_verified-IsStored b found (insert a.batch_id (entry a) prior) one
        (inl (stored_insert b a prior here (inl h)))
  store_verified-IsStored b ((id, a) ∷ found) prior (here, one) (inr (inl same)) =
      let its : a ≡ b = cc (same) in
      store_verified-IsStored b found (insert a.batch_id (entry a) prior) one
        (inl (stored_insert b a prior here (inr (ap (λ x. x.batch_id) its))))
  store_verified-IsStored b ((id, a) ∷ found) prior (here, one) (inr (inr m)) =
      store_verified-IsStored b found (insert a.batch_id (entry a) prior) one (inr m)

  module _ (batches : List Batch) (prior : List (ℕ × Verification)) (one : OneEach batches) where
    abbrev found : List (ℕ × Batch)
    found = candidates num_rows sha256 print bucket now batches prior

    -- Each changed batch is a candidate.
    changed-candidate :
        (b : Batch)
        → In b batches
        → is_changed num_rows sha256 print bucket now prior b ≡ true
        → In (b.batch_id, b) found
    unfolding candidates
    changed-candidate b m h =
        let changed = keep (is_changed num_rows sha256 print bucket now prior) batches in
        let sampled =
          keep (λ (x : Batch). elem x.batch_id (sample_ids num_rows sha256 print bucket now prior))
            batches in
        lookup-In b.batch_id b found (
          add_batches_kept b sampled (add_batches num_rows sha256 print bucket now changed [])
            (λ a i.
              one a b
                (keep-In
                  (λ (x : Batch).
                    elem x.batch_id (sample_ids num_rows sha256 print bucket now prior))
                  a batches i).0
                m)
            (add_batches_there b changed []
              (λ a i.
                one a b (keep-In (is_changed num_rows sha256 print bucket now prior) a batches i).0
                  m)
              (In-keep (is_changed num_rows sha256 print bucket now prior) b batches m h)))

    candidates-In : All (λ c. In c.1 batches) found
    unfolding candidates
    candidates-In =
        let changed = keep (is_changed num_rows sha256 print bucket now prior) batches in
        let sampled =
          keep (λ (x : Batch). elem x.batch_id (sample_ids num_rows sha256 print bucket now prior))
            batches in
        add_batches-All (λ c. In c.1 batches) sampled
          (add_batches num_rows sha256 print bucket now changed [])
          (λ a i.
            (keep-In
              (λ (x : Batch). elem x.batch_id (sample_ids num_rows sha256 print bucket now prior)) a
              batches i).0)
          (add_batches-All (λ c. In c.1 batches) changed []
            (λ a i. (keep-In (is_changed num_rows sha256 print bucket now prior) a batches i).0) tt)

    stored_unchanged :
        (b : Batch) (m : Manifest) (after : List (ℕ × Verification))
        → b.archive_manifest ≡ some m
        → IsStored b after
        → is_changed num_rows sha256 print bucket now after b ≡ false
    unfolding is_changed
    stored_unchanged b m after has (v, at, same) =
        let its : v.manifest_sha256 ≡ print m = rw has at same in
        rw (has, at, (string_eq.beq_iff v.manifest_sha256 (print m)).1 its) refl

    -- Where the ledger has one row for each batch id, a check of the archives that does not raise has
    -- found every object of each new or changed batch with the digest that the manifest promises, and
    -- the next check finds that batch unchanged.
    pub check_archive_integrity-Intact :
        (after : List (ℕ × Verification)) (b : Batch)
        → check_archive_integrity num_rows sha256 print bucket now batches prior ≡ (ok tt, after)
        → In b batches
        → is_changed num_rows sha256 print bucket now prior b ≡ true
        → Intact sha256 bucket b × (is_changed num_rows sha256 print bucket now after b ≡ false)
    unfolding check_archive_integrity
    check_archive_integrity-Intact after b h m changed =
        let test : ℕ × Batch → Bool = λ c. is_intact num_rows sha256 print bucket now c.1 in
        elim (Bool-cases (all test found)) [
          | inr p ↦ cc (rw (p, check_archive_integrity) at h)
          | inl p ↦
              let there = changed-candidate b m changed in
              let intact = is_intact-Intact b (
                All-In (λ c. is_intact num_rows sha256 print bucket now c.1 ≡ true) (b.batch_id, b)
                  found (all-All test found p) there) in
              let unique =
                All_weaken (λ (c : ℕ × Batch). In c.1 batches)
                  (λ c. c.1.batch_id ≡ b.batch_id → c.1 ≡ b) found (λ c i same. one c.1 b i m same)
                  candidates-In in
              let left : store_verified num_rows sha256 print bucket now found prior ≡ after =
                ap (λ x. x.1) (rw (p, check_archive_integrity) at h) in
              let stored =
                subst (IsStored b) left
                  (store_verified-IsStored b found prior unique (inr there)) in
              (intact, stored_unchanged b intact.manifest after intact.has_manifest stored)
        ]
