-- ===== src/TaskExecutor/Execute.antt =====
-- `execute_task_with_retries` of src/local_agent_orchestrator/services/task_executor.py: the bootstrap, the
-- baseline, the loop on fuel, and what the checkpointed executor sees of it.
use local_ai_workestra.Base.{
  ℕ, zero, suc, ◌+◌, Bool, true, false, ◌||◌, Option, none, some, List, [], ◌++◌, map, ltb,
  if◌then◌else◌, Text, codes, text_eq, strip,
}
use local_ai_workestra.Session.{external, Outcome, returns, raises}
use local_ai_workestra.Run.{
  verification_bootstrap_failed, verification_bootstrapped, verification_baseline_failed,
  verification_baseline_finished,
}
use local_ai_workestra.Work.{
  TaskEvent, event_named, from_outside, assertion_error, out_of_fuel, Result, done, fault, Work,
  Tried, git_ok, git_failed, ◌>>=◌, ◌>>◌, pure, fail_with, tell, call, call_git,
}
use local_ai_workestra.Runner.{joined}
use local_ai_workestra.Tracked.{CommandResult, TaskExecutionResult, Emitted}
use local_ai_workestra.Triage.{VerificationSummary}
use local_ai_workestra.TaskExecutor.{
  Bootstrap, prepared, bootstrap_failed, Workbench, TaskCall, LoopState, initial_state, exit_125,
}
use local_ai_workestra.TaskExecutor.Prompts.{test_detail}
use local_ai_workestra.TaskExecutor.Baseline.{
  Baseline, established, triage_error, establish_baseline,
}
use local_ai_workestra.TaskExecutor.Updates.{TurnEnd, again, break, accept, max_scope_repairs}
use local_ai_workestra.TaskExecutor.Attempt.{iteration}
use local_ai_workestra.TaskExecutor.Fallback.{after_loop}

-- `qwen_attempts`
abbrev pub qwen_attempts : TaskCall → ℕ
qwen_attempts c = c.retry_limit + 1

-- The turns that the loop can make: each attempt, and each scope repair.
abbrev pub loop_fuel : TaskCall → ℕ
loop_fuel c = qwen_attempts c + max_scope_repairs

-- The result before any attempt, with the baseline's result and its code if it ran.
unfoldable pub unattempted :
    CommandResult → Option CommandResult → Option Text → TaskExecutionResult
unattempted result baseline code = record {
  passed = false;
  attempts = 0;
  changed_files = [];
  test_result = result;
  diagnoses = [];
  qwen_attempts = 0;
  devstral_used = false;
  accepted_model = none;
  accepted_attempt = none;
  baseline_result = baseline;
  baseline_failure_identities = [];
  post_change_failure_identities = [];
  verification_classification = code;
  operation_failures = [];
  scope_reviews = [];
}

unfoldable pub bootstrap_result : Text → Text → CommandResult
bootstrap_result code detail =
    exit_125 [] (codes "Verification bootstrap failed [" ++ code ++ codes "]: " ++ detail)

unfoldable pub bootstrap_failed_event : CommandResult → TaskEvent
bootstrap_failed_event result = record (event_named verification_bootstrap_failed) {
  passed = some false;
  detail = some result.stderr;
}

unfoldable pub bootstrapped_event : Text → List Text → TaskEvent
bootstrapped_event status command = record (event_named verification_bootstrapped) {
  passed = some true;
  detail = some (strip (codes "status=" ++ status ++ codes " " ++ joined (codes " ") command));
}

-- `exc.result or CommandResult(...)`
unfoldable pub baseline_result_of : Text → Option CommandResult → CommandResult
baseline_result_of detail (some result) = result
baseline_result_of detail none = exit_125 [] detail

unfoldable pub baseline_failed_event : Text → CommandResult → TaskEvent
baseline_failed_event code result = record (event_named verification_baseline_failed) {
  passed = some false;
  verification_phase = some (codes "baseline");
  detail = some (test_detail result);
  verification_classification = some code;
}

unfoldable pub baseline_failed_result : Text → Text → CommandResult → CommandResult
baseline_failed_result code detail result =
    exit_125 result.stdout (codes "Verification baseline failed [" ++ code ++ codes "]: " ++ detail)

unfoldable pub baseline_finished_event : VerificationSummary → TaskEvent
baseline_finished_event baseline = record (event_named verification_baseline_finished) {
  passed = some baseline.result.passed;
  verification_phase = some (codes "baseline");
  detail = some (test_detail baseline.result);
  failure_identities = some baseline.failure_identities;
  verification_classification = some (
      if baseline.result.passed
      then codes "baseline_passed"
      else codes "baseline_failures_identified");
}

module _ {W : Type 0} (bench : Workbench W) (c : TaskCall) where
  module _ (git : Bool) (baseline : VerificationSummary) where
    -- After an iteration; `turn` is the rest of the loop.
    unfoldable pub after_iteration :
        (LoopState → Work W TaskExecutionResult) → TurnEnd → Work W TaskExecutionResult
    after_iteration turn (again s) = turn s
    after_iteration turn (break s) = after_loop bench c git baseline s
    after_iteration turn (accept result) = pure result

    -- The `while` loop, with what follows it.
    unfoldable pub loop : ℕ → LoopState → Work W TaskExecutionResult
    loop zero s =
        if ltb s.fresh_attempts_used (qwen_attempts c)
        then fail_with out_of_fuel
        else after_loop bench c git baseline s
    loop (suc fuel) s =
        let turn = loop fuel in
        if ltb s.fresh_attempts_used (qwen_attempts c)
        then (iteration bench c git baseline s >>= after_iteration turn)
        else after_loop bench c git baseline s

  unfoldable pub after_baseline : Bool → Baseline → Work W TaskExecutionResult
  after_baseline git (triage_error code detail result) =
      let baseline_result = baseline_result_of detail result in
      tell (baseline_failed_event code baseline_result)
      >> pure (
          unattempted (baseline_failed_result code detail baseline_result) (some baseline_result)
            (some code))
  after_baseline git (established baseline) =
      tell (baseline_finished_event baseline) >> loop git baseline (loop_fuel c) initial_state

  unfoldable pub clean_repository : Tried (Unit {0}) → Work W Bool
  clean_repository (git_failed text) = pure false
  clean_repository (git_ok _) = call bench.assert_clean >> pure true

  -- `_prepare_attempt_workspace`: whether there is a repository, which must be clean.
  unfoldable pub prepare_attempt_workspace : Work W Bool
  prepare_attempt_workspace = call_git bench.assert_repository >>= clean_repository

  unfoldable pub with_workspace : Bool → Work W TaskExecutionResult
  with_workspace git = establish_baseline bench c.test_command >>= after_baseline git

  unfoldable pub tell_bootstrapped : Text → List Text → Work W (Unit {0})
  tell_bootstrapped status command =
      if text_eq status (codes "bootstrapped") || text_eq status (codes "reused")
      then tell (bootstrapped_event status command)
      else pure tt

  unfoldable pub after_bootstrap : Bootstrap → Work W TaskExecutionResult
  after_bootstrap (bootstrap_failed code detail) =
      let result = bootstrap_result code detail in
      tell (bootstrap_failed_event result) >> pure (unattempted result none none)
  after_bootstrap (prepared status command) =
      tell_bootstrapped status command >> (prepare_attempt_workspace >>= with_workspace)

  -- `execute_task_with_retries`
  unfoldable pub execute_task_with_retries : Work W TaskExecutionResult
  execute_task_with_retries = call (bench.prepare_environment c.test_command) >>= after_bootstrap

-- What the durable trajectory keeps of an event.
abbrev pub emitted : TaskEvent → Emitted
emitted e = record { event = e.event; passed = e.passed; detail = e.detail }

-- The exception that leaves the function. The last two do not occur.
unfoldable pub outcome_of : {A : Type 0} → Result A → Outcome A
outcome_of (done a) = returns a
outcome_of (fault (from_outside e)) = raises e
outcome_of (fault assertion_error) = raises (external (codes "AssertionError"))
outcome_of (fault out_of_fuel) = raises (external (codes "out of fuel"))

-- The retry loop as the executors around it call it: its outcome, its events, each with the world at
-- its call, and the world.
unfoldable pub retries :
    {W : Type 0} → Workbench W → TaskCall → W → Outcome TaskExecutionResult × List (Emitted × W) × W
retries bench c w =
    let (r, d) = execute_task_with_retries bench c (record { world = w; events = [] }) in
    (outcome_of r, map (λ told. (emitted told.0, told.1)) d.events, d.world)
