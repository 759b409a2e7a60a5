-- ===== src/TaskExecutor/Scenarios.antt =====
-- A small task in a repository: the first answer of the coding model misses the schema, and the second one
-- changes a file of the task.
use local_ai_workestra.Checkpointed.{distinct}
use local_ai_workestra.Triage.{
  tool_name, tool_of_tokens, verification_tool, is_pytest_command, summarize_verification,
  compare_verification,
}
use local_ai_workestra.Scope.{
  normalized, normalize_from, path_matches, split_on, parts_of, last_part, lower,
  is_builtin_forbidden, is_forbidden_path, with_path, classify_changed_files,
}
use local_ai_workestra.TaskExecutor.Baseline.{
  execution_failed, guard_at_head, guard_if_clean, guard_in_repository, baseline_git_guard,
  interpreted, mutated, unavailable, check_status, check_head, check_guard, baseline_behind,
  establish_baseline,
}
use local_ai_workestra.TaskExecutor.Fallback.{loop_result, finish_loop, finish_tried, after_loop}
use local_ai_workestra.TaskExecutor.Updates.{
  primary_review, counted, started_event, failure_of, rejected_event, rejected_state,
  forbidden_detail, forbidden_state, forbidden_event, compared_state, tests_event, compared_event,
  review_event, accepted_result, dismissed_state,
}
use local_ai_workestra.TaskExecutor.Attempt.{
  roll_back, changed_with, current_changed_files, post_result, run_post_verification,
  tell_operations, request_edits, diagnosed, fresh_prompt, revised_prompt, pending_into,
  with_pending, attempt_prompt, decide, review_changes, after_comparison, verify_changes,
  check_changes, after_coding, captured, attempt_with, iteration,
}
use local_ai_workestra.Base.{
  ℕ, zero, suc, ◌+◌, ◌≡◌, ◌≢◌, ◌≤◌, refl, Bool, true, false, none, some, [], ◌∷◌, Text, codes,
  arith, text_eq, text_in, starts_with, is_space, lstrip, strip, split_lines,
}
use local_ai_workestra.Session.{returns}
use local_ai_workestra.Work.{Desk, Result, done, fault, out_of_fuel, assertion_error}
use local_ai_workestra.Tracked.{CommandResult, TaskExecutionResult}
use local_ai_workestra.ScopeReview.{structured, read, parsed}
use local_ai_workestra.ScopeReview.Scenarios.{revision, source_scope}
use local_ai_workestra.TaskExecutor.{
  prepared, finished, value_error, CodingOutcome, edited, rejected, listed, Workbench, TaskCall,
  scope_enabled, scope_classification, initial_state, coding_failure_result,
  operation_failure_class, changed_paths,
}
use local_ai_workestra.TaskExecutor.Execute.{
  execute_task_with_retries, unattempted, bootstrapped_event, baseline_finished_event,
  after_iteration, loop, after_baseline, clean_repository, prepare_attempt_workspace,
  with_workspace, tell_bootstrapped, after_bootstrap,
}
use local_ai_workestra.TaskExecutor.Verdict.{RolledBack}
use local_ai_workestra.TaskExecutor.Whole.{
  execute_task_with_retries-RolledBack, execute_task_with_retries-attempts,
  execute_task_with_retries_stops,
}

abbrev green : CommandResult
green = record { passed = true; returncode = codes "0"; stdout = codes "ok"; stderr = [] }

-- The world is the number of the answers that the coding models have given.
abbrev answer : Text → ℕ → CodingOutcome
answer file zero =
    rejected
      record { kind = value_error; type_name = codes "ValueError"; message = codes "no JSON" }
answer file (suc n) = edited (file ∷ [])

-- A workspace whose coding models change `file`.
abbrev pub changing : Text → Workbench ℕ
changing file = record {
  reviewer = record {
    load_reviewer = λ w. (returns tt, w);
    git_diff = λ path w. (returns record { succeeded = true; stdout = codes "+x"; stderr = [] }, w);
    is_file = λ path w. (returns true, w);
    read_text = λ path w. (returns (read []), w);
    review_scope = λ task changed scope diff w. (returns (structured revision), w);
    parse_json = λ text. parsed revision;
    text = λ e. [];
    type_name = λ e. [];
  };
  prepare_environment = λ command w. (returns (prepared (codes "not_needed") []), w);
  assert_repository = λ w. (returns tt, w);
  assert_clean = λ w. (returns tt, w);
  head = λ w. (returns (codes "abc"), w);
  status = λ w. (returns [], w);
  rollback = λ w. (returns tt, w);
  run_tests = λ command w. (returns (finished green), w);
  find_failures = λ text. [];
  no_tests = λ text. false;
  diagnose_failure = λ task out problem context w. (returns (codes "look again"), w);
  execute_coding_task = λ coder prompt forbidden w.
      (record { context = some (codes "ctx"); operations = none; outcome = answer file w }, w + 1);
  list_changed = λ w. (returns (listed file), w);
  list_untracked = λ w. (returns (listed []), w);
}

abbrev small_call : TaskCall
small_call = record {
  task = codes "Add a flag";
  test_command = codes "pytest" ∷ [];
  retry_limit = 1;
  scope = source_scope;
}

abbrev desk : Desk ℕ
desk = record { world = 0; events = [] }

abbrev run_of : Text → Result TaskExecutionResult × Desk ℕ
run_of file = execute_task_with_retries (changing file) small_call desk

-- Of a run that ended with a result.
abbrev value_of : Result TaskExecutionResult → TaskExecutionResult
value_of (done r) = r
value_of (fault e) = record {
  passed = false;
  attempts = 99;
  changed_files = [];
  test_result = green;
  diagnoses = [];
  qwen_attempts = 0;
  devstral_used = false;
  accepted_model = none;
  accepted_attempt = none;
  baseline_result = none;
  baseline_failure_identities = [];
  post_change_failure_identities = [];
  verification_classification = none;
  operation_failures = [];
  scope_reviews = [];
}

abbrev result_in : Text → TaskExecutionResult
result_in file = value_of (run_of file).0

abbrev has_result : Result TaskExecutionResult → Bool
has_result (done r) = true
has_result (fault e) = false

-- A run that is done, taken apart.
done_value :
    (p : Result TaskExecutionResult × Desk ℕ)
    → has_result p.0 ≡ true
    → p ≡ (done (value_of p.0), p.1)
done_value (done r, d) h = refl
done_value (fault e, d) h = absurd (cc h)

runs_in_scope :
    (has_result (run_of (codes "src/a.py")).0 ≡ true)
    × ((result_in (codes "src/a.py")).passed ≡ true)
    × ((result_in (codes "src/a.py")).attempts ≡ 2)
unfolding unattempted bootstrapped_event baseline_finished_event after_iteration loop after_baseline
    clean_repository prepare_attempt_workspace with_workspace tell_bootstrapped after_bootstrap
    execute_task_with_retries counted started_event failure_of rejected_event rejected_state
    forbidden_detail forbidden_state forbidden_event compared_state tests_event compared_event
    review_event accepted_result dismissed_state roll_back changed_with current_changed_files
    post_result run_post_verification tell_operations request_edits diagnosed fresh_prompt
    revised_prompt pending_into with_pending attempt_prompt decide review_changes after_comparison
    verify_changes check_changes after_coding captured attempt_with iteration finish_loop
    finish_tried after_loop execution_failed guard_at_head guard_if_clean guard_in_repository
    baseline_git_guard interpreted mutated unavailable check_status check_head check_guard
    baseline_behind establish_baseline scope_enabled scope_classification initial_state
    coding_failure_result operation_failure_class changed_paths normalized normalize_from
    path_matches split_on parts_of last_part lower is_builtin_forbidden is_forbidden_path with_path
    classify_changed_files tool_name tool_of_tokens verification_tool is_pytest_command
    summarize_verification compare_verification text_eq text_in starts_with is_space lstrip strip
    split_lines distinct primary_review
runs_in_scope = (refl, refl, refl)

runs_forbidden :
    (has_result (run_of (codes "ci/a.yml")).0 ≡ true)
    × ((result_in (codes "ci/a.yml")).passed ≡ false)
    × ((result_in (codes "ci/a.yml")).attempts ≡ 2)
unfolding unattempted bootstrapped_event baseline_finished_event after_iteration loop after_baseline
    clean_repository prepare_attempt_workspace with_workspace tell_bootstrapped after_bootstrap
    execute_task_with_retries counted started_event failure_of rejected_event rejected_state
    forbidden_detail forbidden_state forbidden_event compared_state tests_event compared_event
    review_event accepted_result dismissed_state roll_back changed_with current_changed_files
    post_result run_post_verification tell_operations request_edits diagnosed fresh_prompt
    revised_prompt pending_into with_pending attempt_prompt decide review_changes after_comparison
    verify_changes check_changes after_coding captured attempt_with iteration finish_loop
    finish_tried after_loop execution_failed guard_at_head guard_if_clean guard_in_repository
    baseline_git_guard interpreted mutated unavailable check_status check_head check_guard
    baseline_behind establish_baseline scope_enabled scope_classification initial_state
    coding_failure_result operation_failure_class changed_paths normalized normalize_from
    path_matches split_on parts_of last_part lower is_builtin_forbidden is_forbidden_path with_path
    classify_changed_files tool_name tool_of_tokens verification_tool is_pytest_command
    summarize_verification compare_verification text_eq text_in starts_with is_space lstrip strip
    split_lines distinct loop_result
runs_forbidden = (refl, refl, refl)

execute_task_with_retries-RolledBack_example :
    RolledBack (changing (codes "ci/a.yml")) small_call (run_of (codes "ci/a.yml")).1.world
execute_task_with_retries-RolledBack_example =
    execute_task_with_retries-RolledBack (changing (codes "ci/a.yml")) small_call desk
      (run_of (codes "ci/a.yml")).1 (result_in (codes "ci/a.yml")) (λ w. refl)
      (done_value (run_of (codes "ci/a.yml")) runs_forbidden.0) runs_forbidden.1
      (omega (arith, runs_forbidden.2))

execute_task_with_retries-attempts_example : (result_in (codes "src/a.py")).attempts ≤ 1 + 4
execute_task_with_retries-attempts_example =
    execute_task_with_retries-attempts (changing (codes "src/a.py")) small_call desk
      (run_of (codes "src/a.py")).1 (result_in (codes "src/a.py"))
      (done_value (run_of (codes "src/a.py")) runs_in_scope.0)

execute_task_with_retries_stops_example :
    ((run_of (codes "ci/a.yml")).0 ≢ fault out_of_fuel)
    × ((run_of (codes "ci/a.yml")).0 ≢ fault assertion_error)
execute_task_with_retries_stops_example =
    execute_task_with_retries_stops (changing (codes "ci/a.yml")) small_call desk
