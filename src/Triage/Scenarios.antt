-- ===== src/Triage/Scenarios.antt =====
-- A baseline with one failing test, and a change that breaks another.
use local_ai_workestra.Base.{
  ◌≡◌, refl, true, false, not, ◌&&◌, some, List, [], ◌∷◌, all, Text, codes, text_in, text_eq,
}
use local_ai_workestra.Triage.{VerificationSummary, is_pytest_command, compare_verification}
use local_ai_workestra.Triage.Compare.{
  is_new, compare_verification-allowed, compare_verification-identities,
}

abbrev failing : List Text → VerificationSummary
failing identities = record {
  result = record {
    passed = false;
    returncode = codes "1";
    stdout = codes "out";
    stderr = codes "";
  };
  failure_identities = identities;
  parser = some (codes "pytest");
  interpretable = true;
  detail = codes "pytest failure identities parsed";
}

pytest_seen :
    (is_pytest_command (codes "uv" ∷ codes "run" ∷ codes "pytest" ∷ []) ≡ true)
    × (is_pytest_command (codes "/usr/bin/python3" ∷ codes "-m" ∷ codes "pytest" ∷ []) ≡ true)
    × (is_pytest_command (codes "npm" ∷ codes "test" ∷ []) ≡ false)
unfolding is_pytest_command text_in text_eq
pytest_seen = (refl, refl, refl)

compare_verification-allowed_example :
    (compare_verification (failing (codes "a.py" ∷ [])) (failing (codes "b.py" ∷ []))).allowed
    ≡ (not false && all (λ i. text_in i (codes "a.py" ∷ [])) (codes "b.py" ∷ []))
compare_verification-allowed_example =
    compare_verification-allowed (failing (codes "a.py" ∷ [])) (failing (codes "b.py" ∷ []))

compare_verification-identities_example :
    text_in
      (codes "b.py")
      (compare_verification
        (failing (codes "a.py" ∷ []))
        (failing (codes "b.py" ∷ codes "a.py" ∷ []))).new_failure_identities
    ≡ is_new
        (failing (codes "a.py" ∷ []))
        (failing (codes "b.py" ∷ codes "a.py" ∷ []))
        (codes "b.py")
compare_verification-identities_example =
    compare_verification-identities (failing (codes "a.py" ∷ []))
      (failing (codes "b.py" ∷ codes "a.py" ∷ [])) (codes "b.py")
