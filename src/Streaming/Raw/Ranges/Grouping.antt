-- ===== src/Streaming/Raw/Ranges/Grouping.antt =====
-- The aggregate of a micro-batch by partition, and the offsets made from it (streaming/raw_job.py).
use fleet_lambda_platform.Base.{
  ℕ, ◌+◌, none, some, List, [], ◌∷◌, ◌≡◌, ◌≢◌, inl, inr, refl, sym, ◌∙◌, arith, All, In, All-In,
  All-of_In, sum_by, Bool-cases, eqb, nat_eq, subst,
}
use fleet_lambda_platform.Base.Dict.{
  lookup, insert, NodupKeys, insert-NodupKeys, lookup-insert_self, lookup-insert_ne,
  sum_by-insert_new, All-insert,
}
use fleet_lambda_platform.Base.Sort.{sort_by, insert_by, All-sort_by, All-insert_by}
use fleet_lambda_platform.Streaming.Raw.Ranges.{
  Row, PartitionRow, Details, add_row, partition_rows, details, partition_le, add_partitions,
}

-- No partition has two rows.
abbrev pub Distinct : List PartitionRow → Type 0
Distinct [] = Unit
Distinct (g ∷ gs) = All (λ h. g.partition ≢ h.partition) gs × Distinct gs

All-add_row :
    (p : ℕ) (r : Row) (gs : List PartitionRow)
    → p ≢ r.partition
    → All (λ h. p ≢ h.partition) gs
    → All (λ h. p ≢ h.partition) (add_row r gs)
unfolding add_row
All-add_row p r [] ne h = (ne, tt)
All-add_row p r (g ∷ gs) ne h = ground (arith, All-add_row p r gs ne h.1)

add_row-Distinct : (r : Row) (gs : List PartitionRow) → Distinct gs → Distinct (add_row r gs)
unfolding add_row
add_row-Distinct r [] d = (tt, tt)
add_row-Distinct r (g ∷ gs) d = elim (Bool-cases (eqb r.partition g.partition)) [
  | inl e ↦ rw e d
  | inr ne ↦ rw ne (All-add_row g.partition r gs (ground arith) d.0, add_row-Distinct r gs d.1)
]

pub partition_rows-Distinct : (rs : List Row) → Distinct (partition_rows rs)
unfolding partition_rows
partition_rows-Distinct [] = tt
partition_rows-Distinct (r ∷ rs) =
    add_row-Distinct r (partition_rows rs) (partition_rows-Distinct rs)

insert_by-Distinct :
    (g : PartitionRow) (gs : List PartitionRow)
    → All (λ h. g.partition ≢ h.partition) gs
    → Distinct gs
    → Distinct (insert_by partition_le g gs)
unfolding insert_by
insert_by-Distinct g [] a d = (tt, tt)
insert_by-Distinct g (h ∷ hs) a d = elim (Bool-cases (partition_le g h)) [
  | inl e ↦ rw e (a, d)
  | inr ne ↦ rw ne (
    All-insert_by partition_le (λ x. h.partition ≢ x.partition) g hs (λ e. a.0 (sym e)) d.0,
    insert_by-Distinct g hs a.1 d.1,
  )
]

pub sort_by-Distinct : (gs : List PartitionRow) → Distinct gs → Distinct (sort_by partition_le gs)
unfolding sort_by
sort_by-Distinct [] d = tt
sort_by-Distinct (g ∷ gs) d =
    insert_by-Distinct g (sort_by partition_le gs)
      (All-sort_by partition_le (λ h. g.partition ≢ h.partition) gs d.0) (sort_by-Distinct gs d.1)

-- A partition that no row names keeps its entry.
lookup-add_partitions_ne :
    (p : ℕ) (gs : List PartitionRow) (d : List (ℕ × Details))
    → All (λ h. p ≢ h.partition) gs
    → lookup p (add_partitions gs d) ≡ lookup p d
unfolding add_partitions
lookup-add_partitions_ne p [] d a = refl
lookup-add_partitions_ne p (g ∷ gs) d a =
    lookup-add_partitions_ne p gs _ a.1 ∙ lookup-insert_ne p g.partition (details g) d a.0

pub lookup-add_partitions :
    (g : PartitionRow) (gs : List PartitionRow) (d : List (ℕ × Details))
    → Distinct gs
    → In g gs
    → lookup g.partition (add_partitions gs d) ≡ some (details g)
unfolding add_partitions
lookup-add_partitions g [] d h m = absurd m
lookup-add_partitions g (x ∷ gs) d h (inl e) =
    subst (λ y. lookup y.partition (add_partitions (x ∷ gs) d) ≡ some (details y)) (sym e)
      (lookup-add_partitions_ne x.partition gs _ h.0 ∙ lookup-insert_self x.partition (details x) d)
lookup-add_partitions g (x ∷ gs) d h (inr m) = lookup-add_partitions g gs _ h.1 m

pub add_partitions-NodupKeys :
    (gs : List PartitionRow) (d : List (ℕ × Details))
    → NodupKeys d
    → NodupKeys (add_partitions gs d)
unfolding add_partitions
add_partitions-NodupKeys [] d h = h
add_partitions-NodupKeys (g ∷ gs) d h =
    add_partitions-NodupKeys gs _ (insert-NodupKeys g.partition (details g) d h)

pub All-add_partitions :
    (P : ℕ × Details → Type 0) (gs : List PartitionRow) (d : List (ℕ × Details))
    → All (λ g. P (g.partition, details g)) gs
    → All P d
    → All P (add_partitions gs d)
unfolding add_partitions
All-add_partitions P [] d a h = h
All-add_partitions P (g ∷ gs) d a h =
    All-add_partitions P gs _ a.1 (All-insert P g.partition (details g) d a.0 h)

pub sum_by-add_partitions :
    (gs : List PartitionRow) (d : List (ℕ × Details))
    → Distinct gs
    → All (λ g. lookup g.partition d ≡ none) gs
    → sum_by (λ e. e.1.rows) (add_partitions gs d)
      ≡ sum_by (λ e. e.1.rows) d + sum_by (λ g. g.rows) gs
unfolding add_partitions
sum_by-add_partitions [] d h a = omega arith
sum_by-add_partitions (g ∷ gs) d h a = omega (
  arith,
  sum_by-add_partitions gs (insert g.partition (details g) d) h.1 (
      All-of_In _ gs (λ x m.
        lookup-insert_ne x.partition g.partition (details g) d (λ e. All-In _ x gs h.0 m (sym e))
        ∙ All-In _ x gs a.1 m)),
  sum_by-insert_new (λ y. y.rows) g.partition (details g) d a.0,
)
