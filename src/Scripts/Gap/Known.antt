-- ===== src/Scripts/Gap/Known.antt =====
-- What `_verify_identities` of scripts/repair_archive_gap.py accepts.
use fleet_lambda_platform.Base.{
  not-false→true, String, true, none, some, List, [], ◌∷◌, map, any, keep, All, All-In, All-of_In,
  all-All, In, In-map, In-keep, ◌≡◌, ◌⊎◌, inl, inr, Option-cases, ◌==◌, string_eq, nat_eq, pair_eq,
  list_eq, eq_self,
}
use fleet_lambda_platform.Base.Dict.{lookup}
use fleet_lambda_platform.Base.Tables.{distinct, In-distinct}
use fleet_lambda_platform.Base.Result.{ok, >>=-eq-ok, raise_if-ok}
use fleet_lambda_platform.Streaming.Serving.{EventKey}
use fleet_lambda_platform.Scripts.Recovery.{Recovered}
use fleet_lambda_platform.Scripts.Gap.{
  World, Tools, signatures, verify_identity, verify_each, verify_identities,
}

module _ (tools : Tools) (w : World) (rows : List Recovered) where
  -- Serving has this event with this digest, or it has it in conflict alone.
  abbrev pub IsKnown : Recovered → Type 0
  IsKnown r =
      ((key : EventKey) × (lookup r.event.event_id w.keys ≡ some key)
        × (tools.fingerprint r ≡ key.fingerprint))
      ⊎ ((lookup r.event.event_id w.keys ≡ none)
          × (any (λ c. c.0.event_id == r.event.event_id) w.conflicts ≡ true))

  verify_each-ok :
      (id : String) (ids : List String)
      → verify_each tools w rows ids ≡ ok tt
      → In id ids
      → verify_identity tools w rows id ≡ ok tt
  unfolding verify_each
  verify_each-ok id [] h m = absurd m
  verify_each-ok id (x ∷ ids) h m =
      let (u, one, more) =
        >>=-eq-ok (verify_identity tools w rows x) (λ _. verify_each tools w rows ids) h in
      elim m [ inl same ↦ rw same one | inr later ↦ verify_each-ok id ids more later ]

  verify_identity-IsKnown :
      (r : Recovered)
      → In r rows
      → verify_identity tools w rows r.event.event_id ≡ ok tt
      → IsKnown r
  unfolding verify_identity
  verify_identity-IsKnown r m h = elim (Option-cases (lookup r.event.event_id w.keys)) [
    | inl absent ↦
        inr (absent, not-false→true _ (raise_if-ok _ _ _ (rw (absent, verify_identity) at h)))
    | inr (key, there) ↦
        let signs = signatures tools r.event.event_id rows in
        let same = not-false→true _ (raise_if-ok _ _ _ (rw (there, verify_identity) at h)) in
        let listed : In (tools.fingerprint r) signs =
          In-map tools.fingerprint r (keep (λ x. x.event.event_id == r.event.event_id) rows) (
            In-keep (λ (x : Recovered). x.event.event_id == r.event.event_id) r rows m
              (eq_self r.event.event_id)) in
        inl (
          key,
          there,
          (string_eq.beq_iff (tools.fingerprint r) key.fingerprint).0 (
              All-In (λ s. (s == key.fingerprint) ≡ true) (tools.fingerprint r) signs
                (all-All (λ s. s == key.fingerprint) signs same) listed),
        )
  ]

  pub verify_identities-IsKnown : verify_identities tools w rows ≡ ok tt → All IsKnown rows
  unfolding verify_identities
  verify_identities-IsKnown h = All-of_In IsKnown rows (λ r m.
      let ids : List String = map (λ (x : Recovered). x.event.event_id) rows in
      verify_identity-IsKnown r m (
        verify_each-ok r.event.event_id (distinct ids) h (
          In-distinct r.event.event_id ids
            (In-map (λ (x : Recovered). x.event.event_id) r rows m))))
