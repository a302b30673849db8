-- ===== src/Scripts/Restore/Run/Folders.antt =====
-- The objects of one batch and the others, when `restore` of scripts/restore_archive_batch.py moves a
-- folder away and back.
use fleet_lambda_platform.Base.{
  ℕ, String, true, false, some, List, [], ◌∷◌, if◌then◌else◌, eqb, ◌≡◌, refl, sym, ap, ◌∙◌, arith,
  ◌==◌, string_eq, nat_eq, pair_eq, list_eq, Bool-cases, inl, inr, eqb_iff,
}
use fleet_lambda_platform.Base.Dict.{lookup, insert}
use fleet_lambda_platform.Common.Archive.{Bytes, Bucket}
use fleet_lambda_platform.Scripts.Restore.Run.{Folder, files_of, without, placed, root_exists}

module _ (id : ℕ) where
  same_id : eqb id id ≡ true
  same_id = (eqb_iff id id).1 refl

  pub without-placed :
      (files : Folder) (bucket : Bucket) → without id (placed id files bucket) ≡ without id bucket
  without-placed [] bucket = refl
  without-placed (f ∷ files) bucket = ground (arith, same_id, without-placed files bucket)

  pub without-insert :
      (path : List String) (b : Bytes) (bucket : Bucket)
      → without id (insert (id, path) b bucket) ≡ without id bucket
  without-insert path b [] = rw same_id
  without-insert path b (((i, p), c) ∷ bucket) =
      let k : ℕ × List String = (id, path) in
      let j : ℕ × List String = (i, p) in
      elim (Bool-cases (k == j)) [
        | inl e ↦
            let same : id ≡ i = ap (λ (x : ℕ × List String). x.0) ((pair_eq.beq_iff k j).0 e) in
            rw (e, ← same, same_id) refl
        | inr n ↦ rw n (ground (arith, without-insert path b bucket))
      ]

  pub without_absent :
      (bucket : Bucket) → root_exists id bucket ≡ false → without id bucket ≡ bucket
  without_absent [] h = refl
  without_absent (((i, p), c) ∷ bucket) h = ground (arith, without_absent bucket)

  pub without_twice : (bucket : Bucket) → without id (without id bucket) ≡ without id bucket
  without_twice [] = refl
  without_twice (((i, p), c) ∷ bucket) = ground (arith, without_twice bucket)

  -- An object of another batch is found behind those of this one.
  lookup-placed_other :
      (k : ℕ × List String) (i : ℕ) (p : List String) (c : Bytes) (files : Folder) (bucket : Bucket)
      → eqb i id ≡ false
      → lookup k (placed id files (((i, p), c) ∷ bucket))
        ≡ (if k == (i, p) then some c else lookup k (placed id files bucket))
  lookup-placed_other k i p c [] bucket h = refl
  lookup-placed_other k i p c (f ∷ files) bucket h = elim (Bool-cases (k == (id, f.0))) [
    | inr n ↦ rw n (lookup-placed_other k i p c files bucket h)
    | inl e ↦ elim (Bool-cases (k == (i, p))) [
      | inr m ↦ rw (e, m) refl
      | inl d ↦
          let one : k ≡ (id, f.0) = (pair_eq.beq_iff k (id, f.0)).0 e in
          let two : k ≡ (i, p) = (pair_eq.beq_iff k (i, p)).0 d in
          let clash : i ≡ id = ap (λ (x : ℕ × List String). x.0) (sym two ∙ one) in
          cc ((eqb_iff i id).1 clash, h)
    ]
  ]

  -- The folder of the batch put back in its place gives the same objects.
  pub lookup-placed-without :
      (k : ℕ × List String) (bucket : Bucket)
      → lookup k (placed id (files_of id bucket) (without id bucket)) ≡ lookup k bucket
  lookup-placed-without k [] = refl
  lookup-placed-without k (((i, p), c) ∷ bucket) = elim (Bool-cases (eqb i id)) [
    | inr n ↦ rw n (
        lookup-placed_other k i p c (files_of id bucket) (without id bucket) n
        ∙ rw (lookup-placed-without k bucket) refl)
    | inl e ↦ rw (e, lookup-placed-without k bucket, (eqb_iff i id).0 e) refl
  ]
