-- ===== src/Safety/Scenarios/Waiting.antt =====
-- A task for a human: the run waits, and waits again when it is resumed.
use local_ai_workestra.Base.{none, ℕ, ◌≡◌, refl, false, some, [], ◌∷◌, codes, text_eq, text_in}
use local_ai_workestra.Plan.{ExecutionPlan, deploy, task_id}
use local_ai_workestra.TestCreation.{describes_test_creation}
use local_ai_workestra.Run.{pending}
use local_ai_workestra.Session.{Session, Outcome, returns}
use local_ai_workestra.Validation.{index_of, run_validate_plan}
use local_ai_workestra.Validation.Scenarios.{a_task, a_plan}
use local_ai_workestra.Manager.{
  record_decision, mark_waiting_for_approval, waiting_state, add_task, new_task, finish_run,
  finished_state, set_verification_status, verified_state, status_after, change_task, updated_state,
  update_task, get_task, find_task, new_run_state, create_run,
}
use local_ai_workestra.Runner.{
  row_at, row_of, missing_dependencies, is_done, attempt_task, record_verification_metadata,
  is_auto_executable, is_explicit_executable, run_checkpointed, run_explicit_task, execute_explicit,
  record_event, approval_required, is_approval_only,
}
use local_ai_workestra.Loop.{
  resume_loop, resume_row, run_loop, run_row, after_attempt, after_finalizer, finalize_plan_run,
}
use local_ai_workestra.Tracked.{
  execute_tracked_task, call_with_events, emit_all, after_events, after_execution, finish_tracked,
  assign_attempts,
}
use local_ai_workestra.Checkpointed.{has_blocking_findings, set_attempts}
use local_ai_workestra.Checkpointed.Security.{
  security_stage, review_security, after_first_review, security_rounds, settle_security,
}
use local_ai_workestra.Checkpointed.Execute.{
  after_tracked, optimization_stage, checkpoint_stage, after_checkpoint, record_commit,
  execute_checkpointed_task,
}
use local_ai_workestra.Execution.{
  resume_on, resume_plan, resume_validated, validated, run_validated, prepare_run, add_tasks,
  conclude, PlanRunResult, run_created, run_execution_plan, resume_execution_plan,
}
use local_ai_workestra.Safety.Waits.{WaitingOn}
use local_ai_workestra.Safety.Approval.{load_run, IsApproved, run_execution_plan-IsApproved}
use local_ai_workestra.Manager.{approve_waiting_task}
use local_ai_workestra.Safety.WaitingRuns.{
  run_execution_plan-WaitingOn, resume_execution_plan-WaitingOn,
}
use local_ai_workestra.Safety.Scenarios.{services, no_source, interrupted_state, a_state}

-- A plan with one task that only a human can do.
abbrev release : ExecutionPlan
release = a_plan (a_task (codes "a") deploy [] ∷ [])

abbrev release_created : Session ℕ
release_created =
    let state = new_run_state (codes "run") release.request in
    record { state = state; saved = state; events = []; world = 0; disk = λ n. none }

abbrev release_run : Outcome PlanRunResult × Session ℕ
release_run = run_created services release no_source release_created

abbrev release_result : PlanRunResult
release_result = record {
  passed = false;
  completed_tasks = 0;
  total_tasks = 1;
  commits = [];
  finalized = false;
  waiting_task_id = some (codes "task-001");
}

release-waits :
    run_execution_plan services [] release no_source (codes "run") (λ n. none) 0
    ≡ some (returns release_result, release_run.1)
unfolding record_decision run_execution_plan create_run mark_waiting_for_approval waiting_state
    run_validate_plan describes_test_creation text_in run_created validated run_validated
    prepare_run add_tasks add_task new_task run_loop row_at row_of run_row missing_dependencies
    is_done attempt_task record_verification_metadata approval_required is_approval_only
    is_auto_executable is_explicit_executable run_checkpointed run_explicit_task execute_explicit
    after_attempt conclude finalize_plan_run after_finalizer finish_run finished_state
    set_verification_status verified_state task_id execute_checkpointed_task execute_tracked_task
    call_with_events emit_all after_events after_execution finish_tracked assign_attempts
    after_tracked security_stage review_security after_first_review security_rounds settle_security
    has_blocking_findings set_attempts optimization_stage checkpoint_stage after_checkpoint
    record_commit record_event update_task get_task find_task text_eq change_task updated_state
    status_after index_of
release-waits = refl

run_execution_plan-WaitingOn_example : WaitingOn (codes "task-001") release_run.1
run_execution_plan-WaitingOn_example =
    run_execution_plan-WaitingOn services [] release no_source (codes "run") (λ n. none) 0
      release_result release_run.1 (codes "task-001") release-waits refl

-- The same run, resumed before it was approved and after it was interrupted.
abbrev stopped : Session ℕ
stopped = record release_created {
  state = record interrupted_state { tasks = a_state (codes "task-001") pending ∷ [] };
}

resumed-waits : (resume_execution_plan services (some release) stopped).0 ≡ returns release_result
unfolding record_decision resume_execution_plan resume_on resume_plan resume_validated resume_loop
    resume_row mark_waiting_for_approval waiting_state run_validate_plan describes_test_creation
    text_in run_created validated run_validated prepare_run add_tasks add_task new_task run_loop
    row_at row_of run_row missing_dependencies is_done attempt_task record_verification_metadata
    approval_required is_approval_only is_auto_executable is_explicit_executable run_checkpointed
    run_explicit_task execute_explicit after_attempt conclude finalize_plan_run after_finalizer
    finish_run finished_state set_verification_status verified_state task_id
    execute_checkpointed_task execute_tracked_task call_with_events emit_all after_events
    after_execution finish_tracked assign_attempts after_tracked security_stage review_security
    after_first_review security_rounds settle_security has_blocking_findings set_attempts
    optimization_stage checkpoint_stage after_checkpoint record_commit record_event update_task
    get_task find_task text_eq change_task updated_state status_after index_of
resumed-waits = refl

resume_execution_plan-WaitingOn_example :
    WaitingOn (codes "task-001") (resume_execution_plan services (some release) stopped).1
resume_execution_plan-WaitingOn_example =
    resume_execution_plan-WaitingOn services (some release) stopped release_result
      (codes "task-001") resumed-waits refl

run_execution_plan-IsApproved_example :
    IsApproved (codes "task-001") (approve_waiting_task none (load_run (λ n. none) release_run.1))
run_execution_plan-IsApproved_example =
    run_execution_plan-IsApproved services [] release no_source (codes "run") (λ n. none)
      (λ n. none) 0 release_result release_run.1 (codes "task-001") release-waits refl refl refl
