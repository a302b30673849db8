-- ===== src/Streaming/Raw/Plan.antt =====
-- The plan of a replay (`replay_plan` of streaming/raw_job.py): its thresholds, its gaps, and what
-- the predicate over the thresholds keeps.
use fleet_lambda_platform.Base.{
  ℕ, ◌<◌, true, false, not, ◌||◌, some, List, [], ◌∷◌, ◌≡◌, refl, arith, map, keep, All, In, elem,
  inl, inr, Bool-cases, Option-cases, eqb, eqb_iff, nat_eq, leb,
}
use fleet_lambda_platform.Base.Dict.{lookup}
use fleet_lambda_platform.Streaming.Raw.{NextOffset}
use fleet_lambda_platform.Streaming.Raw.Ranges.{Row, Details, replay_plan, is_kept}

In-later : (a b : ℕ × ℕ) (l : List (ℕ × ℕ)) → In a l → In a (b ∷ l)
In-later a b l m = inr m

-- A partition that starts below its next offset gets a threshold.
pub plan_threshold :
    (ps : List (ℕ × Details)) (known : List (ℕ × ℕ)) (p n : ℕ) (d : Details)
    → lookup p ps ≡ some d
    → lookup p known ≡ some n
    → d.start < n
    → In (p, n) (replay_plan ps known).0
unfolding replay_plan
plan_threshold [] known p n d e k lt = cc
plan_threshold ((q, x) ∷ ps) known p n d e k lt = elim (Bool-cases (eqb p q)) [
  | inl same ↦ ground arith
  | inr other ↦
      let ih = plan_threshold ps known p n d (rw other at e) k lt in
      elim (Option-cases (lookup q known)) [
        | inl a ↦ rw a ih
        | inr (m, a) ↦ rw a (ground (arith, In-later (p, n) (q, m) _ ih))
      ]
]

-- Each threshold is the next offset of its partition.
pub plan_thresholds :
    (ps : List (ℕ × Details)) (known : List (ℕ × ℕ))
    → All (λ t. lookup t.0 known ≡ some t.1) (replay_plan ps known).0
unfolding replay_plan
plan_thresholds [] known = tt
plan_thresholds ((q, x) ∷ ps) known =
    let ih = plan_thresholds ps known in
    elim (Option-cases (lookup q known)) [ inl a ↦ rw a ih | inr (m, a) ↦ rw a (ground arith) ]

-- Each gap is at a known partition that starts above its next offset.
pub plan_gaps_none :
    (ps : List (ℕ × Details)) (known : List (ℕ × ℕ))
    → All (λ e. (n : ℕ) × (lookup e.0 known ≡ some n) × (e.1.start < n)) ps
    → (replay_plan ps known).1 ≡ []
unfolding replay_plan
plan_gaps_none [] known h = refl
plan_gaps_none ((q, x) ∷ ps) known ((n, k, lt), h) =
    rw k (ground (arith, plan_gaps_none ps known h))

-- A row below the threshold of its partition is not kept.
pub not_kept :
    (r : Row) (n : ℕ) (thresholds : List (ℕ × ℕ))
    → In (r.partition, n) thresholds
    → r.offset < n
    → is_kept thresholds r ≡ false
not_kept r n [] m lt = absurd m
not_kept r n (t ∷ ts) (inl e) lt = ground arith
not_kept r n (t ∷ ts) (inr m) lt = ground (arith, not_kept r n ts m lt)

-- A row that is not kept lies below some threshold of its partition.
pub dropped :
    (r : Row) (thresholds : List (ℕ × ℕ))
    → is_kept thresholds r ≡ false
    → (n : ℕ) × In (r.partition, n) thresholds × (r.offset < n)
dropped r [] h = cc
dropped r (t ∷ ts) h = elim (Bool-cases (not (eqb r.partition t.0) || leb t.1 r.offset)) [
  | inl kept ↦ let (n, m, lt) = dropped r ts (ground arith) in (n, inr m, lt)
  | inr out ↦ (t.1, inl (ground arith), ground arith)
]

selected_asked :
    (p n : ℕ) (ps : List ℕ) (table : List (ℕ × NextOffset))
    → lookup p (map (λ e. (e.0, e.1.next_offset)) (keep (λ e. elem e.0 ps) table)) ≡ some n
    → elem p ps ≡ true
selected_asked p n ps [] h = cc
selected_asked p n ps ((q, x) ∷ table) h = elim (Bool-cases (elem q ps)) [
  | inl asked ↦ elim (Bool-cases (eqb p q)) [
    | inl same ↦ rw ((eqb_iff p q).0 same) asked
    | inr other ↦ selected_asked p n ps table (rw other at (rw asked at h))
  ]
  | inr not_asked ↦ selected_asked p n ps table (rw not_asked at h)
]

-- A selected offset is one of the table.
pub selected_offset :
    (p n : ℕ) (ps : List ℕ) (table : List (ℕ × NextOffset))
    → lookup p (map (λ e. (e.0, e.1.next_offset)) (keep (λ e. elem e.0 ps) table)) ≡ some n
    → (old : NextOffset) × (lookup p table ≡ some old) × (old.next_offset ≡ n)
selected_offset p n ps [] h = cc
selected_offset p n ps ((q, x) ∷ table) h = elim (Bool-cases (eqb p q)) [
  | inl same ↦ elim (Bool-cases (elem q ps)) [
    | inl asked ↦ (x, rw same, ground arith)
    | inr not_asked ↦ cc (selected_asked p n ps ((q, x) ∷ table) h, (eqb_iff p q).0 same, not_asked)
  ]
  | inr other ↦
      let (old, k, e) = selected_offset p n ps table (ground arith) in (old, rw other k, e)
]
