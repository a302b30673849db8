-- ===== src/Streaming/Serving/Staging/Chunks.antt =====
-- What `stage_partition` of streaming/staged_sink.py writes, call by call and in the end.
use fleet_lambda_platform.Base.{
  eq_self, ℕ, ◌≤◌, ◌<◌, String, Bool, true, ◌||◌, List, [], ◌∷◌, ◌++◌, map, any, All, length,
  length-append, concat, append_assoc, ◌≡◌, refl, sym, ap, ◌∙◌, inl, inr, arith, Bool-cases, leb,
  string_eq, nat_eq,
}
use fleet_lambda_platform.Streaming.Serving.{Item, Staged}
use fleet_lambda_platform.Streaming.Serving.Staging.{
  Identity, staged_row, same_key, add_staged, write, chunks, write_all, stage_partition,
}

-- A call of `_write` has at least one value and at most 500.
abbrev pub FitsPage : List Staged → Type 0
FitsPage values = (1 ≤ length values) × (length values ≤ 500)

chunks-FitsPage :
    (values rows : List Staged) → length values < 500 → All FitsPage (chunks values rows)
unfolding chunks
chunks-FitsPage [] [] h = tt
chunks-FitsPage (v ∷ values) [] h = ((omega arith, omega arith), tt)
chunks-FitsPage values (s ∷ rows) h =
    let size = length-append values (s ∷ []) in
    elim (Bool-cases (leb 500 (length (values ++ (s ∷ []))))) [
      | inl p ↦
          rw p ((omega (arith, size), omega (arith, size)), chunks-FitsPage [] rows (omega arith))
      | inr q ↦ rw q (chunks-FitsPage (values ++ (s ∷ [])) rows (ground arith))
    ]

concat-chunks : (values rows : List Staged) → concat (chunks values rows) ≡ values ++ rows
unfolding chunks
concat-chunks [] [] = refl
concat-chunks (v ∷ values) [] = refl
concat-chunks values (s ∷ rows) = elim (Bool-cases (leb 500 (length (values ++ (s ∷ []))))) [
  | inl p ↦ rw (p, concat-chunks [] rows) (append_assoc values (s ∷ []) rows)
  | inr q ↦ rw (q, concat-chunks (values ++ (s ∷ [])) rows) (append_assoc values (s ∷ []) rows)
]

write-append : (xs ys stage : List Staged) → write (xs ++ ys) stage ≡ write ys (write xs stage)
unfolding write
write-append [] ys stage = refl
write-append (x ∷ xs) ys stage = write-append xs ys (add_staged x stage)

write_all-concat :
    (calls : List (List Staged)) (stage : List Staged)
    → write_all calls stage ≡ write (concat calls) stage
unfolding write_all write
write_all-concat [] stage = refl
write_all-concat (values ∷ calls) stage =
    write_all-concat calls (write values stage) ∙ sym (write-append values (concat calls) stage)

any-append :
    (test : Staged → Bool) (xs ys : List Staged)
    → any test (xs ++ ys) ≡ (any test xs || any test ys)
any-append test [] ys = refl
any-append test (x ∷ xs) ys = ground (arith, any-append test xs ys)

same_key_self : (s : Staged) → same_key s s ≡ true
same_key_self s = rw (eq_self s.run_id, eq_self s.item.partition, eq_self s.item.offset) refl

-- The table has a row with the key of `s`.
abbrev IsStaged : Staged → List Staged → Type 0
IsStaged s stage = any (same_key s) stage ≡ true

add_staged_self : (s : Staged) (stage : List Staged) → IsStaged s (add_staged s stage)
add_staged_self s stage = elim (Bool-cases (any (same_key s) stage)) [
  | inl p ↦ rw p p
  | inr q ↦ rw q (rw (any-append (same_key s) stage (s ∷ []), q, same_key_self s) refl)
]

add_staged_kept :
    (s t : Staged) (stage : List Staged) → IsStaged s stage → IsStaged s (add_staged t stage)
add_staged_kept s t stage h = elim (Bool-cases (any (same_key t) stage)) [
  | inl p ↦ rw p h
  | inr q ↦ rw q (rw (any-append (same_key s) stage (t ∷ []), h) refl)
]

write_kept :
    (s : Staged) (values stage : List Staged) → IsStaged s stage → IsStaged s (write values stage)
unfolding write
write_kept s [] stage h = h
write_kept s (t ∷ values) stage h =
    write_kept s values (add_staged t stage) (add_staged_kept s t stage h)

write_there : (values stage : List Staged) → All (λ s. IsStaged s (write values stage)) values
unfolding write
write_there [] stage = tt
write_there (s ∷ values) stage = (
  write_kept s values (add_staged s stage) (add_staged_self s stage),
  write_there values (add_staged s stage),
)

write_nothing :
    (values stage : List Staged) → All (λ s. IsStaged s stage) values → write values stage ≡ stage
unfolding write
write_nothing [] stage h = refl
write_nothing (s ∷ values) stage h = rw (h.0) (write_nothing values stage h.1)

module _ (isoformat : ℕ → String) (dumps : Identity → List ℕ) (sha256 : List ℕ → String)
    (run_id : String) (batch_id now : ℕ) where
  abbrev values_of : List Item → List Staged
  values_of rows = map (staged_row isoformat dumps sha256 run_id batch_id now) rows

  -- Whatever rows a partition has, each call of `_write` gets at least one value and at most 500,
  -- and together the calls store what one call with all rows would.
  pub stage_partition-FitsPage :
      (rows : List Item) (stage : List Staged)
      → All FitsPage (chunks [] (values_of rows))
        × (stage_partition isoformat dumps sha256 run_id batch_id now rows stage
            ≡ write (values_of rows) stage)
  unfolding stage_partition
  stage_partition-FitsPage rows stage = (
    chunks-FitsPage [] (values_of rows) (omega arith),
    write_all-concat (chunks [] (values_of rows)) stage
        ∙ ap (λ vs. write vs stage) (concat-chunks [] (values_of rows)),
  )

  -- A partition that Spark stages a second time changes nothing.
  pub stage_partition_again :
      (rows : List Item) (stage : List Staged)
      → stage_partition isoformat dumps sha256 run_id batch_id now rows
          (stage_partition isoformat dumps sha256 run_id batch_id now rows stage)
        ≡ stage_partition isoformat dumps sha256 run_id batch_id now rows stage
  stage_partition_again rows stage =
      let once = (stage_partition-FitsPage rows stage).1 in
      rw (once, (stage_partition-FitsPage rows (write (values_of rows) stage)).1)
        (write_nothing (values_of rows) (write (values_of rows) stage)
          (write_there (values_of rows) stage))
