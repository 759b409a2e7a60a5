-- ===== src/GitWorkspace/Branches/Scenarios.antt =====
-- The run ids `-run 7!-` and `run-7`.
use local_ai_workestra.Base.{◌≡◌, refl, Text, codes, starts_with}
use local_ai_workestra.GitWorkspace.{safe_run_id, undashed, dashed, is_plain}
use local_ai_workestra.GitWorkspace.Branches.{IsSafe, safe_run_id-IsSafe, safe_run_id-kept}

abbrev odd_id : Text
odd_id = codes "-run 7!-"

abbrev clean_id : Text
clean_id = codes "run-7"

safe_run_id-odd : safe_run_id odd_id ≡ clean_id
unfolding safe_run_id undashed dashed is_plain
safe_run_id-odd = refl

safe_run_id-IsSafe_example : IsSafe (safe_run_id odd_id)
safe_run_id-IsSafe_example = safe_run_id-IsSafe odd_id

safe_run_id-kept_example : safe_run_id clean_id ≡ clean_id
unfolding is_plain starts_with
safe_run_id-kept_example =
    safe_run_id-kept clean_id
      record { only_plain = refl; no_dash_first = refl; no_dash_last = refl }
