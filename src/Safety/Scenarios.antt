-- ===== src/Safety/Scenarios.antt =====
-- The diamond plan, run and resumed with executors that answer always the same.
mod Waiting
use mathlib.Core.Bool.{false≢true}
use local_ai_workestra.Base.{
  ℕ, zero, suc, ◌+◌, ◌≡◌, refl, sym, true, false, none, some, [], ◌∷◌, map, Text, codes, text_eq,
  text_in, is_some, ok,
}
use local_ai_workestra.Plan.{ExecutionPlan, code, docs, deploy, task_id, task_ids_from}
use local_ai_workestra.TestCreation.{describes_test_creation}
use local_ai_workestra.Run.{
  pending, running, passed, enforced_trusted_command, not_requested, TaskStatus, TaskState,
  RunState,
}
use local_ai_workestra.Session.{Session, external, Outcome, returns, raises}
use local_ai_workestra.Validation.{index_of, ValidatedPlan, run_validate_plan, validate_plan}
use local_ai_workestra.Validation.Scenarios.{a_task, a_plan, diamond, diamond_order}
use local_ai_workestra.Manager.{
  record_decision, mark_waiting_for_approval, waiting_state, add_task, new_task, finish_run,
  finished_state, set_verification_status, verified_state, status_after, change_task, updated_state,
  update_task, get_task, find_task, new_run_state, create_run,
}
use local_ai_workestra.Runner.{
  row_at, row_of, missing_dependencies, is_done, attempt_task, record_verification_metadata,
  is_auto_executable, is_explicit_executable, run_checkpointed, run_explicit_task, execute_explicit,
  record_event, Services, approval_required, is_approval_only,
}
use local_ai_workestra.Loop.{
  resume_loop, resume_row, run_loop, run_row, after_attempt, after_finalizer, finalize_plan_run,
}
use local_ai_workestra.Tracked.{
  execute_tracked_task, call_with_events, emit_all, after_events, after_execution, finish_tracked,
  assign_attempts, TaskExecutionResult,
}
use local_ai_workestra.Checkpointed.Commit.{execute_checkpointed_task-is_some}
use local_ai_workestra.Checkpointed.{has_blocking_findings, set_attempts, Agents}
use local_ai_workestra.Checkpointed.Security.{
  security_stage, review_security, after_first_review, security_rounds, settle_security,
}
use local_ai_workestra.Checkpointed.Execute.{
  after_tracked, optimization_stage, checkpoint_stage, after_checkpoint, record_commit,
  execute_checkpointed_task,
}
use local_ai_workestra.Execution.{
  resume_on, resume_plan, resume_validated, validated, run_validated, prepare_run, add_tasks,
  conclude, PlanSource, PlanRunResult, run_created, run_execution_plan, resume_execution_plan,
}
use local_ai_workestra.Safety.{PassedBehindGate}
use local_ai_workestra.Safety.Kept.{Keeps}
use local_ai_workestra.Safety.Rows.{Safe}
use local_ai_workestra.Safety.Checkpoint.{with_checkpoints, Keeps-execute_checkpointed_task}
use local_ai_workestra.Safety.Runs.{run_execution_plan-PassedBehindGate}
use local_ai_workestra.Safety.Waits.{WaitingOn}
use local_ai_workestra.Safety.WaitingRuns.{
  run_execution_plan-WaitingOn, resume_execution_plan-WaitingOn,
}
use local_ai_workestra.Safety.Resume.{resume_execution_plan-Safe}

abbrev succeeded : TaskExecutionResult
succeeded = record {
  passed = true;
  attempts = 1;
  changed_files = codes "a.py" ∷ [];
  test_result = record {
    passed = true;
    returncode = codes "0";
    stdout = codes "ok";
    stderr = codes "";
  };
  diagnoses = [];
  qwen_attempts = 1;
  devstral_used = false;
  accepted_model = none;
  accepted_attempt = none;
  baseline_result = none;
  baseline_failure_identities = [];
  post_change_failure_identities = [];
  verification_classification = none;
  operation_failures = [];
  scope_reviews = [];
}

-- The world counts the checkpoints.
abbrev pub agents : Agents ℕ
agents = record {
  execute_task_with_retries = λ task prompt w. (returns succeeded, [], w);
  requires_security_review = λ task files. true;
  run_security_review = λ task files w. (returns [], w);
  requires_optimization_review = λ task files. false;
  run_optimization_review = λ task files w. (raises (external (codes "offline")), w);
  read_file = λ path w. (returns none, w);
  assert_clean = λ w. (returns tt, w);
  checkpoint = λ message w. (returns (codes "c0ffee"), w + 1);
  rollback = λ w. (returns tt, w);
  write_metrics = λ id result commit w. (returns tt, w);
  text = λ e. codes "error";
  type_name = λ e. codes "RuntimeError";
}

abbrev pub services : Services ℕ
services = record {
  execute_checkpointed_task = execute_checkpointed_task agents 1;
  execute_test_task = λ w. (
    returns (record {
      passed = true;
      verification_status = enforced_trusted_command;
      error = codes "";
      detail = codes "ok";
    }),
    w,
  );
  execute_review_task = λ description w. (raises (external (codes "offline")), w);
  finalize_run = λ run_id w. (returns tt, w);
  assert_clean = λ w. (returns tt, w);
  current_branch = λ w. (returns (codes "main"), w);
  create_agent_branch = λ run_id w. (returns (codes "agent/run"), w);
  switch_branch = λ branch w. (returns (codes "agent/run"), w);
}

abbrev pub no_source : PlanSource
no_source = record {
  plan_id = none;
  compiled_revision = none;
  compiled_digest = none;
  source_digest = none;
}

abbrev created : Session ℕ
created =
    let state = new_run_state (codes "run") diamond.request in
    record { state = state; saved = state; events = []; world = 0; disk = λ n. none }

abbrev diamond_run : Outcome PlanRunResult × Session ℕ
diamond_run = run_created (with_checkpoints agents 1 services) diamond no_source created

diamond-accepted : validate_plan diamond (some (task_ids_from 1 diamond.tasks)) ≡ ok diamond_order
unfolding run_validate_plan text_eq text_in describes_test_creation
diamond-accepted = refl

diamond-ran :
    run_execution_plan
      (with_checkpoints agents 1 services)
      []
      diamond
      no_source
      (codes "run")
      (λ n. none)
      0
    ≡ some (diamond_run.0, diamond_run.1)
unfolding run_execution_plan create_run text_in
diamond-ran = refl

-- All four tasks pass, three of them with a commit.
diamond-passed :
    diamond_run.0
    ≡ returns (record {
      passed = true;
      completed_tasks = 4;
      total_tasks = 4;
      commits = codes "c0ffee" ∷ codes "c0ffee" ∷ codes "c0ffee" ∷ [];
      finalized = true;
      waiting_task_id = none;
    })
unfolding run_validate_plan describes_test_creation text_in run_created validated run_validated
    prepare_run add_tasks add_task new_task run_loop row_at row_of run_row missing_dependencies
    is_done attempt_task record_verification_metadata approval_required is_approval_only
    is_auto_executable is_explicit_executable run_checkpointed run_explicit_task execute_explicit
    after_attempt conclude finalize_plan_run after_finalizer finish_run finished_state
    set_verification_status verified_state task_id execute_checkpointed_task execute_tracked_task
    call_with_events emit_all after_events after_execution finish_tracked assign_attempts
    after_tracked security_stage review_security after_first_review security_rounds settle_security
    has_blocking_findings set_attempts optimization_stage checkpoint_stage after_checkpoint
    record_commit record_event update_task get_task find_task text_eq change_task updated_state
    status_after index_of
diamond-passed = refl

run_execution_plan-PassedBehindGate_example :
    PassedBehindGate diamond diamond_order.effective_ids diamond_run.1.state.tasks
run_execution_plan-PassedBehindGate_example =
    run_execution_plan-PassedBehindGate agents 1 services [] diamond no_source (codes "run")
      (λ n. none) 0 diamond_order diamond_run.0 diamond_run.1 diamond-accepted diamond-ran

-- A run of two tasks, interrupted after the first.
abbrev pair : ExecutionPlan
pair = a_plan (a_task (codes "a") code [] ∷ a_task (codes "b") docs (codes "a" ∷ []) ∷ [])

abbrev pair_order : ValidatedPlan
pair_order = record { effective_ids = codes "a" ∷ codes "b" ∷ []; order = 0 ∷ 1 ∷ [] }

abbrev pub a_state : Text → TaskStatus → TaskState
a_state id status = record {
  id = id;
  description = codes "work";
  status = status;
  attempts = 1;
  error = none;
  approval_granted = false;
  verification = [];
  verification_status = not_requested;
}

abbrev pub interrupted_state : RunState
interrupted_state = record {
  run_id = codes "run";
  request = codes "do it";
  status = running;
  current_task = some (codes "task-001");
  base_branch = some (codes "main");
  agent_branch = some (codes "agent/run");
  plan_id = none;
  compiled_revision = none;
  compiled_digest = none;
  source_digest = none;
  tasks = a_state (codes "task-001") passed ∷ a_state (codes "task-002") pending ∷ [];
}

abbrev pub interrupted : Session ℕ
interrupted = record {
  state = interrupted_state;
  saved = interrupted_state;
  events = [];
  world = 1;
  disk = λ n. none;
}

interrupted-Safe : Safe pair pair_order.effective_ids interrupted
unfolding task_id approval_required is_approval_only text_in
interrupted-Safe = record {
  generated = (refl, (refl, tt));
  gated = λ k p t at_p at_t passes. behind k p t at_p at_t passes;
}
  where
    behind : PassedBehindGate pair pair_order.effective_ids interrupted.state.tasks
    behind zero p t at_p at_t passes =
        let e : a_task (codes "a") code [] ≡ p = cc in
        rw (sym e) (record {
          approved = λ needed. absurd (false≢true needed);
          executable = refl;
          dependencies = λ d listed. absurd (false≢true listed);
        })
    behind (suc zero) p t at_p at_t passes =
        let e : a_state (codes "task-002") pending ≡ t = cc in
        absurd (false≢true (rw (sym e) at passes))
    behind (suc (suc k)) p t at_p at_t passes = cc

pair-accepted : validate_plan pair (some (map (λ t. t.id) interrupted.state.tasks)) ≡ ok pair_order
unfolding run_validate_plan text_eq text_in describes_test_creation
pair-accepted = refl

resume_execution_plan-Safe_example :
    Safe pair pair_order.effective_ids
      (resume_execution_plan (with_checkpoints agents 1 services) (some pair) interrupted).1
resume_execution_plan-Safe_example =
    resume_execution_plan-Safe agents 1 services pair pair_order interrupted interrupted-Safe
      pair-accepted

Keeps-execute_checkpointed_task_example :
    Keeps 1 (execute_checkpointed_task agents 1 (task_id 2) (a_task (codes "b") docs []))
Keeps-execute_checkpointed_task_example =
    Keeps-execute_checkpointed_task agents 1 1 (a_task (codes "b") docs [])

checkpointed :
    (execute_checkpointed_task agents 1
      (codes "task-002")
      (a_task (codes "b") docs [])
      interrupted).0
    ≡ returns (true, some (codes "c0ffee"))
unfolding execute_checkpointed_task execute_tracked_task call_with_events emit_all after_events
    after_execution finish_tracked assign_attempts after_tracked security_stage review_security
    after_first_review security_rounds settle_security has_blocking_findings set_attempts
    optimization_stage checkpoint_stage after_checkpoint record_commit record_event update_task
    get_task find_task text_eq change_task updated_state
checkpointed = refl

execute_checkpointed_task-is_some_example : true ≡ is_some (some (codes "c0ffee"))
execute_checkpointed_task-is_some_example =
    execute_checkpointed_task-is_some agents 1 (codes "task-002") (a_task (codes "b") docs [])
      interrupted true (some (codes "c0ffee")) checkpointed
