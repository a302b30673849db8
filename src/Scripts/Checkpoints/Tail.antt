-- ===== src/Scripts/Checkpoints/Tail.antt =====
-- Which tail `invalid_suffix` of scripts/repair_spark_checkpoints.py returns, and when it refuses.
use fleet_lambda_platform.Base.{
  String, Bool, true, false, not, List, [], ◌∷◌, ◌++◌, All, any, all, ◌≡◌, ◌↔◌, refl, ap, ◌∙◌,
  append-nil, arith, inl, inr, Bool-cases, any-false, all-All, All-all,
}
use fleet_lambda_platform.Base.Result.{ok, raise_if, >>=-eq-ok, raise_if-ok, ok-injective}
use fleet_lambda_platform.Scripts.Checkpoints.{
  LogFile, from_first, records, is_corrupt, invalid_suffix,
}

from_first-split :
    (bad : LogFile → Bool) (fs : List LogFile)
    → (sound : List LogFile) × (fs ≡ sound ++ from_first bad fs) × All (λ f. bad f ≡ false) sound
unfolding from_first
from_first-split bad [] = ([], refl, tt)
from_first-split bad (f ∷ fs) =
    let (sound, e, h) = from_first-split bad fs in
    elim (Bool-cases (bad f)) [
      | inl b ↦ ([], rw b, tt)
      | inr b ↦ (f ∷ sound, rw b (ap (◌∷◌ f) e), (b, h))
    ]

from_first-append :
    (bad : LogFile → Bool) (sound tail : List LogFile)
    → All (λ f. bad f ≡ false) sound
    → All (λ f. bad f ≡ true) tail
    → from_first bad (sound ++ tail) ≡ tail
unfolding from_first
from_first-append bad [] [] h t = refl
from_first-append bad [] (f ∷ fs) h t = rw (t.0)
from_first-append bad (f ∷ fs) tail h t = rw (h.0) (from_first-append bad fs tail h.1 t)

from_first-none :
    (bad : LogFile → Bool) (fs : List LogFile) → any bad fs ≡ false → from_first bad fs ≡ []
unfolding from_first
from_first-none bad [] h = refl
from_first-none bad (f ∷ fs) h = ground (arith, from_first-none bad fs)

any-append_true :
    (bad : LogFile → Bool) (sound : List LogFile) (f : LogFile) (tail : List LogFile)
    → bad f ≡ true
    → any bad (sound ++ f ∷ tail) ≡ true
any-append_true bad [] f tail h = rw h
any-append_true bad (g ∷ gs) f tail h = ground (arith, any-append_true bad gs f tail h)

module _ (is_json : String → Bool) where
  -- The records end with the corrupt files, and all before them are complete.
  abbrev pub IsTail : List LogFile → List LogFile → Type 0
  IsTail files tail =
      (sound : List LogFile) × (files ≡ sound ++ tail)
      × All (λ f. is_corrupt is_json f ≡ false) sound
      × All (λ f. is_corrupt is_json f ≡ true) tail

  none_left :
      (rs sound : List LogFile)
      → rs ≡ sound ++ from_first (is_corrupt is_json) rs
      → from_first (is_corrupt is_json) rs ≡ []
      → rs ≡ sound ++ []
  none_left rs sound e f = e ∙ ap (sound ++◌) f

  invalid_suffix-IsTail :
      (log_dir tail : List LogFile)
      → invalid_suffix is_json log_dir ≡ ok tail
      → IsTail (records log_dir) tail
  unfolding invalid_suffix
  invalid_suffix-IsTail log_dir tail h =
      let rs = records log_dir in
      let (sound, e, s) = from_first-split (is_corrupt is_json) rs in
      elim (Bool-cases (any (is_corrupt is_json) rs)) [
        | inl some_bad ↦
            let (_, checked, same) =
              >>=-eq-ok
                (raise_if (not (all (is_corrupt is_json) (from_first (is_corrupt is_json) rs))) _) _
                (rw some_bad at h) in
            let t = raise_if-ok _ _ _ checked in
            rw (← ok-injective same) (
              sound,
              e,
              s,
              all-All (is_corrupt is_json) (from_first (is_corrupt is_json) rs) (ground arith),
            )
        | inr none_bad ↦
            rw (← ok-injective (rw none_bad at h)) (
              sound,
              none_left rs sound e (from_first-none (is_corrupt is_json) rs none_bad),
              s,
              tt,
            )
      ]

  IsTail-invalid_suffix :
      (log_dir tail : List LogFile)
      → IsTail (records log_dir) tail
      → invalid_suffix is_json log_dir ≡ ok tail
  unfolding invalid_suffix
  IsTail-invalid_suffix log_dir [] (sound, e, s, t) =
      rw (invalid_suffix, e ∙ append-nil sound, any-false (is_corrupt is_json) sound s) refl
  IsTail-invalid_suffix log_dir (f ∷ fs) (sound, e, s, t) =
      let bad = is_corrupt is_json in
      rw
        (
          invalid_suffix,
          e,
          any-append_true bad sound f fs t.0,
          from_first-append bad sound (f ∷ fs) s t,
          All-all bad (f ∷ fs) t,
        )
        refl

  -- `invalid_suffix` returns a list of files exactly if the records of the log, by their numbers,
  -- are complete files followed by these files, which are all corrupt. It refuses a log in which a
  -- complete record comes after a corrupt one.
  pub invalid_suffix_iff :
      (log_dir tail : List LogFile)
      → (invalid_suffix is_json log_dir ≡ ok tail) ↔ IsTail (records log_dir) tail
  invalid_suffix_iff log_dir tail =
      (invalid_suffix-IsTail log_dir tail, IsTail-invalid_suffix log_dir tail)
