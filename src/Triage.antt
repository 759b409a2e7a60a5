-- ===== src/Triage.antt =====
-- src/local_agent_orchestrator/services/verification_triage.py: what a verification run says, and whether
-- a change may stand against its baseline. The two regular expressions are parameters.
mod Compare
mod Scenarios
use local_ai_workestra.Base.{
  ℕ, Bool, true, false, not, ◌&&◌, ◌||◌, Option, none, some, List, [], ◌∷◌, ◌++◌, ltb, leb,
  if◌then◌else◌, ◌==◌, Text, codes, text_eq, text_in, is_empty, keep, length,
}
use local_ai_workestra.Scope.{parts_of, last_part, lower}
use local_ai_workestra.Tracked.{CommandResult}

pub record VerificationSummary : Type 0 where
  pub result : CommandResult
  pub failure_identities : List Text
  pub parser : Option Text
  pub interpretable : Bool
  pub detail : Text

pub data Classification : Type 0 where
  baseline_uninterpretable post_change_uninterpretable : Classification
  passed_before baseline_failures_disappeared new_failures preexisting_failures_only :
      Classification

pub record VerificationComparison : Type 0 where
  pub allowed : Bool
  pub classification : Classification
  pub new_failure_identities : List Text
  pub detail : Text

-- `a <= b` of two texts
unfoldable pub text_leb : Text → Text → Bool
text_leb [] t = true
text_leb (c ∷ s) [] = false
text_leb (c ∷ s) (d ∷ t) = ltb c d || (c == d && text_leb s t)

-- `sorted`
unfoldable pub insert_text : Text → List Text → List Text
unfolding text_leb
insert_text x [] = x ∷ []
insert_text x (y ∷ ys) =
    let rest = insert_text x ys in if text_leb x y then x ∷ y ∷ ys else y ∷ rest

unfoldable pub sorted_texts : List Text → List Text
unfolding insert_text
sorted_texts [] = []
sorted_texts (x ∷ xs) = insert_text x (sorted_texts xs)

-- The elements of `set(xs)`, each once.
unfoldable pub set_of : List Text → List Text
unfolding text_in
set_of [] = []
set_of (x ∷ xs) = let rest = set_of xs in if text_in x rest then rest else x ∷ rest

-- `sorted(set(xs) - set(ys))`
unfoldable pub sorted_difference : List Text → List Text → List Text
unfolding sorted_texts set_of
sorted_difference xs ys = sorted_texts (keep (λ x. not (text_in x ys)) (set_of xs))

-- `Path(token).name.lower()`
unfoldable pub tool_name : Text → Text
unfolding parts_of last_part lower
tool_name token = lower (last_part (parts_of token))

is_python : Text → Bool
is_python name =
    text_in name (codes "python" ∷ codes "python3" ∷ codes "python.exe" ∷ codes "python3.exe" ∷ [])

-- The last part of `_verification_tool`, on the tokens that are left.
unfoldable pub tool_of_tokens : List Text → Option Text
unfolding is_python tool_name
tool_of_tokens [] = none
tool_of_tokens (first ∷ flag ∷ module_name ∷ rest) =
    if is_python (tool_name first) && text_eq flag (codes "-m")
    then some (tool_name module_name)
    else some (tool_name first)
tool_of_tokens (first ∷ rest) = some (tool_name first)

-- `_verification_tool`
unfoldable pub verification_tool : List Text → Option Text
unfolding tool_of_tokens
verification_tool [] = none
verification_tool (first ∷ rest) =
    if text_in (tool_name first) (codes "uv" ∷ codes "uv.exe" ∷ [])
    then (elim rest as (λ _. Option Text) [
      | [] ↦ none
      | second ∷ others ↦
          if is_empty others || not (text_eq second (codes "run"))
          then none
          else tool_of_tokens others
    ])
    else tool_of_tokens (first ∷ rest)

-- `_is_pytest_command`
unfoldable pub is_pytest_command : List Text → Bool
unfolding verification_tool
is_pytest_command command = elim (verification_tool command) [
  | none ↦ false
  | some tool ↦ text_eq tool (codes "pytest")
]

-- `find_failures` is `_PYTEST_FAILURE.findall`, `no_tests` is `_PYTEST_NO_TESTS.search`.
module _ (find_failures : Text → List Text) (no_tests : Text → Bool) where
  -- `_parse_pytest_failures`
  unfoldable pub parse_pytest_failures : CommandResult → List Text
  unfolding sorted_texts set_of
  parse_pytest_failures result =
      let text = result.stdout ++ 10 ∷ result.stderr in
      let found = find_failures text in
      sorted_texts (
        set_of (
          if text_eq result.returncode (codes "5") && no_tests text
          then codes "pytest:no_tests_collected" ∷ found
          else found))

  -- The end of `summarize_verification`, on the identities that were found.
  unfoldable pub summarize_failures : CommandResult → List Text → VerificationSummary
  summarize_failures result [] = record {
    result = result;
    failure_identities = [];
    parser = some (codes "pytest");
    interpretable = false;
    detail = codes "pytest failure identities were not found";
  }
  summarize_failures result (identity ∷ identities) = record {
    result = result;
    failure_identities = identity ∷ identities;
    parser = some (codes "pytest");
    interpretable = true;
    detail = codes "pytest failure identities parsed";
  }

  -- `summarize_verification`
  unfoldable pub summarize_verification : List Text → CommandResult → VerificationSummary
  unfolding parse_pytest_failures is_pytest_command
  summarize_verification command result =
      if result.passed
      then record {
        result = result;
        failure_identities = [];
        parser = if is_pytest_command command then some (codes "pytest") else none;
        interpretable = true;
        detail = codes "verification passed";
      }
      else if not (is_pytest_command command)
      then record {
        result = result;
        failure_identities = [];
        parser = none;
        interpretable = false;
        detail = codes "non-zero verification has no supported failure parser";
      }
      else summarize_failures result (parse_pytest_failures result)

-- The end of `compare_verification`, on `sorted(set(post) - set(baseline))`.
unfoldable pub compare_failures : List Text → VerificationComparison
compare_failures [] = record {
  allowed = true;
  classification = preexisting_failures_only;
  new_failure_identities = [];
  detail = codes "post-change failures are a subset of baseline failures";
}
compare_failures (identity ∷ identities) = record {
  allowed = false;
  classification = new_failures;
  new_failure_identities = identity ∷ identities;
  detail = codes "post-change verification added failure identities";
}

-- `compare_verification`
unfoldable pub compare_verification :
    VerificationSummary → VerificationSummary → VerificationComparison
unfolding sorted_difference
compare_verification baseline post_change =
    if not baseline.interpretable
    then record {
      allowed = false;
      classification = baseline_uninterpretable;
      new_failure_identities = [];
      detail = baseline.detail;
    }
    else if not post_change.interpretable
    then record {
      allowed = false;
      classification = post_change_uninterpretable;
      new_failure_identities = [];
      detail = post_change.detail;
    }
    else if post_change.result.passed
    then record {
      allowed = true;
      classification =
          if baseline.result.passed then passed_before else baseline_failures_disappeared;
      new_failure_identities = [];
      detail = codes "post-change verification passed";
    }
    else if baseline.result.passed
    then record {
      allowed = false;
      classification = new_failures;
      new_failure_identities = post_change.failure_identities;
      detail = codes "post-change failures were absent from the clean baseline";
    }
    else compare_failures
        (sorted_difference post_change.failure_identities baseline.failure_identities)
