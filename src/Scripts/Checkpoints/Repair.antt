-- ===== src/Scripts/Checkpoints/Repair.antt =====
-- What `repair` of scripts/repair_spark_checkpoints.py leaves.
use fleet_lambda_platform.Base.{
  String, Bool, true, false, not, Option, none, some, List, [], ◌∷◌, ◌++◌, All, All-of_In, All-In,
  In, In-append, append-In_left, append-In_right, In-map, In-any, In-keep, All-map, keep, keep-In,
  map, any-false, ◌==◌, string_eq, eq_self, list_eq, nat_eq, ◌≡◌, refl, subst, arith, inl, inr,
  Bool-cases, Option-cases,
}
use fleet_lambda_platform.Base.Sort.{sort_by, All-sort_by, In-sort_by}
use fleet_lambda_platform.Base.Result.{ok, >>=-eq-ok, ok-injective}
use fleet_lambda_platform.Scripts.Checkpoints.{
  LogFile, Query, Checkpoints, is_digits, file_le, query_le, records, is_corrupt, invalid_suffix,
  log_repairs, query_repairs, planned_repairs, is_moved, log_left, query_left, move_all, repair,
}
use fleet_lambda_platform.Scripts.Checkpoints.Tail.{invalid_suffix_iff}

abbrev Repairs : Type 0
Repairs = List (String × String × LogFile)

In-is_moved :
    (repairs : Repairs) (query log : String) (f : LogFile)
    → In (query, log, f) repairs
    → is_moved repairs query log f ≡ true
In-is_moved repairs query log f m =
    In-any _ (query, log, f) repairs m (rw (eq_self query, eq_self log, eq_self f.name) refl)

module _ (is_json : String → Bool) where
  abbrev IsSound : LogFile → Type 0
  IsSound f = is_corrupt is_json f ≡ false

  sound_log :
      (log_dir : List LogFile)
      → All (λ f. is_digits f.name ≡ true → IsSound f) log_dir
      → invalid_suffix is_json log_dir ≡ ok []
  unfolding invalid_suffix records
  sound_log log_dir h =
      let digits = keep (λ f. is_digits f.name) log_dir in
      rw
        (
          invalid_suffix,
          any-false (is_corrupt is_json) (records log_dir) (
              All-sort_by file_le IsSound digits (
                All-of_In _ digits (λ f m.
                  let (i, d) = keep-In (λ g. is_digits g.name) f log_dir m in
                  All-In _ f log_dir h i d))),
        )
        refl

  -- A file that `invalid_suffix` did not return is complete, if it is a record.
  kept-IsSound :
      (log_dir tail : List LogFile) (f : LogFile)
      → invalid_suffix is_json log_dir ≡ ok tail
      → In f log_dir
      → is_digits f.name ≡ true
      → (In f tail → ⊥)
      → IsSound f
  unfolding records
  kept-IsSound log_dir tail f h m d out =
      let (sound, e, s, _) = (invalid_suffix_iff is_json log_dir tail).0 h in
      let i : In f (records log_dir) =
        In-sort_by file_le f _ (In-keep (λ g. is_digits g.name) f log_dir m d) in
      elim (In-append f sound tail (subst (In f) e i)) [
        | inl l ↦ All-In IsSound f sound s l
        | inr r ↦ absurd (out r)
      ]

  -- The planned repairs contain what each log asks for.
  abbrev Plans : Repairs → String → String → Option (List LogFile) → Type 0
  Plans repairs query log dir =
      (tail : List LogFile) × (log_repairs is_json dir ≡ ok tail)
      × ((f : LogFile) → In f tail → In (query, log, f) repairs)

  log_left_sound :
      (repairs : Repairs) (query log : String) (dir : Option (List LogFile))
      → Plans repairs query log dir
      → log_repairs is_json (log_left repairs query log dir) ≡ ok []
  unfolding log_repairs
  log_left_sound repairs query log none p = refl
  log_left_sound repairs query log (some fs) (tail, e, planned) =
      let left = keep (λ f. not (is_moved repairs query log f)) fs in
      sound_log left (
        All-of_In _ left (λ f m d.
          let (i, stays) = keep-In (λ g. not (is_moved repairs query log g)) f fs m in
          kept-IsSound fs tail f e i d
            (λ r. let moved = In-is_moved repairs query log f (planned f r) in ground arith)))

  abbrev QueryPlans : Repairs → Query → Type 0
  QueryPlans repairs q =
      q.name == ".repair-backup" ≡ false
      → Plans repairs q.name "offsets" q.offsets × Plans repairs q.name "commits" q.commits

  Plans-mono :
      (repairs more : Repairs) (query log : String) (dir : Option (List LogFile))
      → ((r : String × String × LogFile) → In r repairs → In r more)
      → Plans repairs query log dir
      → Plans more query log dir
  Plans-mono repairs more query log dir sub (tail, e, p) = (tail, e, λ f m. sub _ (p f m))

  -- what the loop adds for one query
  abbrev added : Query → List LogFile → List LogFile → Repairs → Repairs
  added q os cs rest =
      map (λ f. (q.name, "offsets", f)) os ++ (map (λ f. (q.name, "commits", f)) cs ++ rest)

  added-QueryPlans :
      (q : Query) (qs : List Query) (os cs : List LogFile) (rest : Repairs)
      → log_repairs is_json q.offsets ≡ ok os
      → log_repairs is_json q.commits ≡ ok cs
      → All (QueryPlans rest) qs
      → All (QueryPlans (added q os cs rest)) (q ∷ qs)
  added-QueryPlans q qs os cs rest eo ec ih =
      let mo : Repairs = map (λ f. (q.name, "offsets", f)) os in
      let mc : Repairs = map (λ f. (q.name, "commits", f)) cs in
      let sub : (x : String × String × LogFile) → In x rest → In x (mo ++ (mc ++ rest)) =
        λ x m. append-In_right x mo (mc ++ rest) (append-In_right x mc rest m) in
      (
        λ _. (
          (
            os,
            eo,
            λ f m.
                append-In_left (q.name, "offsets", f) mo (mc ++ rest)
                  (In-map (λ g. (q.name, "offsets", g)) f os m),
          ),
          (
            cs,
            ec,
            λ f m.
                append-In_right (q.name, "commits", f) mo (mc ++ rest)
                  (append-In_left (q.name, "commits", f) mc rest
                    (In-map (λ g. (q.name, "commits", g)) f cs m)),
          ),
        ),
        All-of_In _ qs (λ x i no.
            let (a, b) = All-In (QueryPlans rest) x qs ih i no in
            (
              Plans-mono rest (mo ++ (mc ++ rest)) x.name "offsets" x.offsets sub a,
              Plans-mono rest (mo ++ (mc ++ rest)) x.name "commits" x.commits sub b,
            )),
      )

  query_repairs-QueryPlans :
      (qs : List Query) (repairs : Repairs)
      → query_repairs is_json qs ≡ ok repairs
      → All (QueryPlans repairs) qs
  unfolding query_repairs
  query_repairs-QueryPlans [] repairs h = tt
  query_repairs-QueryPlans (q ∷ qs) repairs h = elim (Bool-cases (q.name == ".repair-backup")) [
    | inl skip ↦ (λ no. cc (skip, no), query_repairs-QueryPlans qs repairs (rw skip at h))
    | inr other ↦
        let (os, eo, more) = >>=-eq-ok (log_repairs is_json q.offsets) _ (rw other at h) in
        let (cs, ec, tail) = >>=-eq-ok (log_repairs is_json q.commits) _ more in
        let (rest, r, same) = >>=-eq-ok (query_repairs is_json qs) _ tail in
        subst (λ l. All (QueryPlans l) (q ∷ qs)) (ok-injective same)
          (added-QueryPlans q qs os cs rest eo ec (query_repairs-QueryPlans qs rest r))
  ]

  query_repairs-none :
      (qs : List Query)
      → All
          (λ q.
            q.name == ".repair-backup" ≡ false
            → (log_repairs is_json q.offsets ≡ ok []) × (log_repairs is_json q.commits ≡ ok []))
          qs
      → query_repairs is_json qs ≡ ok []
  unfolding query_repairs
  query_repairs-none [] h = refl
  query_repairs-none (q ∷ qs) h =
      let ih = query_repairs-none qs h.1 in
      elim (Bool-cases (q.name == ".repair-backup")) [
        | inl skip ↦ rw (query_repairs, skip) ih
        | inr other ↦ let (a, b) = h.0 other in rw (query_repairs, other, a, b, ih) refl
      ]

  left_sound :
      (repairs : Repairs) (stamp : String) (root : Checkpoints)
      → planned_repairs is_json root ≡ ok repairs
      → planned_repairs is_json (move_all repairs stamp root) ≡ ok []
  unfolding planned_repairs move_all
  left_sound repairs stamp root planned = elim (Option-cases root.queries) [
    | inl e ↦ rw (planned_repairs, move_all, e) (rw e)
    | inr (qs, e) ↦
        let plans =
          query_repairs-QueryPlans (sort_by query_le qs) repairs
            (rw (planned_repairs, e) at planned) in
        rw (planned_repairs, move_all, e)
          (query_repairs-none (sort_by query_le (map (query_left repairs) qs)) (
            All-sort_by query_le _ (map (query_left repairs) qs) (
              All-map _ (query_left repairs) qs (
                All-of_In _ qs (λ q m no.
                  let (a, b) =
                    All-In _ q (sort_by query_le qs) plans (In-sort_by query_le q qs m) no in
                  (
                    log_left_sound repairs q.name "offsets" q.offsets a,
                    log_left_sound repairs q.name "commits" q.commits b,
                  ))))))
  ]

  -- After a repair that was applied, no repair is planned: a second run moves nothing.
  pub repair-planned_repairs :
      (stamp : String) (root after : Checkpoints)
      → repair is_json true stamp root ≡ ok after
      → planned_repairs is_json after ≡ ok []
  unfolding repair planned_repairs move_all
  repair-planned_repairs stamp root after h =
      let (repairs, planned, same) = >>=-eq-ok (planned_repairs is_json root) _ h in
      rw (← ok-injective same) (left_sound repairs stamp root planned)
