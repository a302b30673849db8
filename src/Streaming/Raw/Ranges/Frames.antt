-- ===== src/Streaming/Raw/Ranges/Frames.antt =====
-- What the offsets of a micro-batch say of its rows (streaming/raw_job.py).
use fleet_lambda_platform.Base.{
  ℕ, ◌+◌, ◌≤◌, ◌<◌, String, some, List, [], ◌∷◌, ◌≡◌, inl, inr, refl, arith, All, In, All-In,
  All-of_In, sum_by, length, Bool-cases, eqb, leb, min, max, nat_eq,
}
use fleet_lambda_platform.Base.Dict.{lookup, NodupKeys}
use fleet_lambda_platform.Base.Sort.{sort_by, sum_by-sort_by, All-sort_by, In-sort_by}
use fleet_lambda_platform.Streaming.Raw.Ranges.{
  Row, PartitionRow, Details, add_row, partition_rows, details, partition_le, source_offsets,
}
use fleet_lambda_platform.Streaming.Raw.Ranges.Grouping.{
  Distinct, partition_rows-Distinct, sort_by-Distinct, lookup-add_partitions,
  add_partitions-NodupKeys, All-add_partitions, sum_by-add_partitions,
}

sum_by-add_row :
    (r : Row) (gs : List PartitionRow)
    → sum_by (λ g. g.rows) (add_row r gs) ≡ sum_by (λ g. g.rows) gs + 1
unfolding add_row
sum_by-add_row r [] = omega arith
sum_by-add_row r (g ∷ gs) = ground (arith, sum_by-add_row r gs)

sum_by-partition_rows : (rs : List Row) → sum_by (λ g. g.rows) (partition_rows rs) ≡ length rs
unfolding partition_rows
sum_by-partition_rows [] = refl
sum_by-partition_rows (r ∷ rs) =
    omega (arith, sum_by-add_row r (partition_rows rs), sum_by-partition_rows rs)

-- The row lies in the range of a group.
abbrev Holds : Row → List PartitionRow → Type 0
Holds r gs =
    (g : PartitionRow) × In g gs
    × (g.partition ≡ r.partition)
    × (g.start_offset ≤ r.offset)
    × (r.offset < g.end_offset)

add_row-Holds_self : (r : Row) (gs : List PartitionRow) → Holds r (add_row r gs)
unfolding add_row
add_row-Holds_self r [] = (_, inl refl, refl, omega arith, omega arith)
add_row-Holds_self r (g ∷ gs) = elim (Bool-cases (eqb r.partition g.partition)) [
  | inl e ↦ rw e (_, inl refl, ground arith, omega arith, omega arith)
  | inr ne ↦ rw ne (let (h, m, a, b, c) = add_row-Holds_self r gs in (h, inr m, a, b, c))
]

add_row-Holds : (q r : Row) (gs : List PartitionRow) → Holds q gs → Holds q (add_row r gs)
unfolding add_row
add_row-Holds q r [] h = absurd h.1
add_row-Holds q r (g ∷ gs) (h, inl same, a, b, c) =
    elim (Bool-cases (eqb r.partition g.partition)) [
      | inl e ↦ rw e (_, inl refl, ground arith, ground arith, ground arith)
      | inr ne ↦ rw ne (h, inl same, a, b, c)
    ]
add_row-Holds q r (g ∷ gs) (h, inr m, a, b, c) = elim (Bool-cases (eqb r.partition g.partition)) [
  | inl e ↦ rw e (h, inr m, a, b, c)
  | inr ne ↦
      rw ne (
        let (h', m', a', b', c') = add_row-Holds q r gs (h, m, a, b, c) in (h', inr m', a', b', c'))
]

partition_rows-Holds : (q : Row) (rs : List Row) → In q rs → Holds q (partition_rows rs)
unfolding partition_rows
partition_rows-Holds q [] m = absurd m
partition_rows-Holds q (r ∷ rs) (inl e) = rw e (add_row-Holds_self r (partition_rows rs))
partition_rows-Holds q (r ∷ rs) (inr m) =
    add_row-Holds q r (partition_rows rs) (partition_rows-Holds q rs m)

-- The range of a partition is not empty, and begins at a row of the frame.
abbrev pub Begins : List Row → ℕ × Details → Type 0
Begins rs e =
    (e.1.start < e.1.stop) × ((r : Row) × In r rs × (r.partition ≡ e.0) × (r.offset ≡ e.1.start))

Begins-cons : (q : Row) (rs : List Row) (e : ℕ × Details) → Begins rs e → Begins (q ∷ rs) e
Begins-cons q rs e (lt, (r, m, a, b)) = (lt, (r, inr m, a, b))

Begins-widen :
    (r : Row) (rs : List Row) (g : PartitionRow)
    → r.partition ≡ g.partition
    → Begins (r ∷ rs) (g.partition, details g)
    → Begins (r ∷ rs) (
      g.partition,
      record {
        start = min r.offset g.start_offset;
        stop = max (r.offset + 1) g.end_offset;
        rows = g.rows + 1;
      },
    )
Begins-widen r rs g same (lt, (q, m, a, b)) = elim (Bool-cases (leb r.offset g.start_offset)) [
  | inl le ↦ (ground arith, (r, inl refl, same, ground arith))
  | inr gt ↦ (ground arith, (q, m, a, ground arith))
]

add_row-Begins :
    (r : Row) (rs : List Row) (gs : List PartitionRow)
    → All (λ g. Begins (r ∷ rs) (g.partition, details g)) gs
    → All (λ g. Begins (r ∷ rs) (g.partition, details g)) (add_row r gs)
unfolding add_row
add_row-Begins r rs [] h = ((omega arith, (r, inl refl, refl, refl)), tt)
add_row-Begins r rs (g ∷ gs) h = elim (Bool-cases (eqb r.partition g.partition)) [
  | inl e ↦ rw e (Begins-widen r rs g (ground arith) h.0, h.1)
  | inr ne ↦ rw ne (h.0, add_row-Begins r rs gs h.1)
]

partition_rows-Begins :
    (rs : List Row) → All (λ g. Begins rs (g.partition, details g)) (partition_rows rs)
unfolding partition_rows
partition_rows-Begins [] = tt
partition_rows-Begins (r ∷ rs) = add_row-Begins r rs (partition_rows rs) (
    All-of_In _ (partition_rows rs) (λ g m.
      Begins-cons r rs (g.partition, details g)
        (All-In _ g (partition_rows rs) (partition_rows-Begins rs) m)))

module _ (topic : String) (frame : List Row) where
  sorted-Distinct : Distinct (sort_by partition_le (partition_rows frame))
  sorted-Distinct = sort_by-Distinct (partition_rows frame) (partition_rows-Distinct frame)

  -- The counts of the partitions add up to the rows of the frame.
  pub sum_rows :
      sum_by (λ e. e.1.rows) (source_offsets topic (partition_rows frame)).partitions ≡ length frame
  unfolding source_offsets
  sum_rows = omega (
    arith,
    sum_by-add_partitions (sort_by partition_le (partition_rows frame)) [] sorted-Distinct
        (All-of_In _ (sort_by partition_le (partition_rows frame)) (λ g m. refl)),
    sum_by-sort_by partition_le (λ g. g.rows) (partition_rows frame),
    sum_by-partition_rows frame,
  )

  pub ranges-NodupKeys : NodupKeys (source_offsets topic (partition_rows frame)).partitions
  unfolding source_offsets
  ranges-NodupKeys = add_partitions-NodupKeys (sort_by partition_le (partition_rows frame)) [] tt

  -- Each row lies in the range of its partition.
  pub row-within_range :
      (r : Row)
      → In r frame
      → (d : Details) × (lookup r.partition (source_offsets topic (partition_rows frame)).partitions
          ≡ some d)
        × (d.start ≤ r.offset)
        × (r.offset < d.stop)
  unfolding source_offsets
  row-within_range r m =
      let (g, i, same, lo, hi) = partition_rows-Holds r frame m in
      (
        details g,
        rw (← same) (
            lookup-add_partitions g (sort_by partition_le (partition_rows frame)) [] sorted-Distinct
              (In-sort_by partition_le g (partition_rows frame) i)),
        lo,
        hi,
      )

  pub range-Begins : All (Begins frame) (source_offsets topic (partition_rows frame)).partitions
  unfolding source_offsets
  range-Begins =
      All-add_partitions (Begins frame) (sort_by partition_le (partition_rows frame)) []
        (All-sort_by partition_le (λ g. Begins frame (g.partition, details g))
          (partition_rows frame) (partition_rows-Begins frame))
        tt
