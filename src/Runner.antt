-- ===== src/Runner.antt =====
-- src/local_agent_orchestrator/services/plan_runner.py: the execution of a validated plan, task by
-- task. The checkpointed executor, the explicit executors, Git and the finalizer are the fields of
-- `Services`.
use local_ai_workestra.Base.{
  ℕ, Bool, true, false, not, ◌&&◌, ◌||◌, Option, none, some, List, [], ◌∷◌, ◌++◌, if◌then◌else◌,
  Text, codes, text_eq, text_in, is_empty, any, keep, get_elem?,
}
use local_ai_workestra.Plan.{
  TaskKind, TaskRisk, PlanTask, ExecutionPlan, code, test, review, docs, deploy, manual, high,
  critical,
}
use local_ai_workestra.Run.{
  running, passed, failed, VerificationStatus, TaskState, EventName, verification_metadata,
  task_started, task_completed, is_passed, is_pending,
}
use local_ai_workestra.Session.{
  plan_execution_error, external, Outcome, raises, Action, ◌>>=◌, ◌>>◌, pure, raise, append_event,
}
use local_ai_workestra.Manager.{
  mark_waiting_for_approval, mark_blocked, mark_skipped, set_verification_status, update_task,
}
use local_ai_workestra.Validation.{index_of}

-- `PlanTaskExecution`, with the texts that the runner takes from the command's result.
pub record PlanTaskExecution : Type 0 where
  pub passed : Bool
  pub verification_status : VerificationStatus
  pub error : Text  -- stderr, or stdout, or the exit code
  pub detail : Text

-- What the runner calls and this module does not define. An outcome `raises` is an exception.
pub record Services (W : Type 0) : Type 0 where
  pub execute_checkpointed_task : Text → PlanTask → Action W (Bool × Option Text)
  pub execute_test_task : W → Outcome PlanTaskExecution × W
  pub execute_review_task : Text → W → Outcome PlanTaskExecution × W
  pub finalize_run : Text → W → Outcome (Unit {0}) × W
  pub assert_clean : W → Outcome (Unit {0}) × W
  pub current_branch : W → Outcome Text × W
  pub create_agent_branch : Text → W → Outcome Text × W
  pub switch_branch : Text → W → Outcome Text × W

-- `AUTO_EXECUTABLE_KINDS`, `EXPLICIT_EXECUTABLE_KINDS`, `APPROVAL_ONLY_KINDS`
unfoldable pub is_auto_executable : TaskKind → Bool
is_auto_executable code = true
is_auto_executable docs = true
is_auto_executable _ = false

unfoldable pub is_explicit_executable : TaskKind → Bool
is_explicit_executable test = true
is_explicit_executable review = true
is_explicit_executable _ = false

unfoldable pub is_approval_only : TaskKind → Bool
is_approval_only deploy = true
is_approval_only manual = true
is_approval_only _ = false

abbrev pub is_high_risk : TaskRisk → Bool
is_high_risk high = true
is_high_risk critical = true
is_high_risk _ = false

-- `_approval_required`
unfoldable pub approval_required : PlanTask → Bool
approval_required task =
    task.requires_approval || is_high_risk task.risk || is_approval_only task.kind

-- `", ".join(texts)` and `"; ".join(texts)`
pub joined : Text → List Text → Text
joined separator [] = []
joined separator (x ∷ []) = x
joined separator (x ∷ y ∷ xs) = x ++ separator ++ joined separator (y ∷ xs)

pub incomplete_message : List Text → Text
incomplete_message missing =
    codes "Required dependency did not complete successfully: " ++ joined (codes ", ") missing

pub blocked_message : Text → Text
blocked_message failed_id = codes "Blocked by unsuccessful dependency: " ++ failed_id ++ codes "."

pub skipped_message : Text
skipped_message = codes "Skipped after an earlier task failed."

pub checkpoint_message : Text
checkpoint_message = codes "Checkpointed task failed."

pub metadata_message : List Text → Text
metadata_message verification =
    codes "Informational plan metadata was not executed as a shell command. "
    ++ codes "The trusted global test command is the only executable verifier. "
    ++ joined (codes "; ") verification

-- The kind's name is left out of this message and the next.
pub no_executor_message : Text
no_executor_message = codes "Task kind has no explicit executor."

pub unsupported_message : Text
unsupported_message = codes "Task kind is unsupported and cannot execute."

pub finalization_message : Text
finalization_message = codes "Analytics and retrospective finalization started."

-- `state_by_id[dependency].status != PASSED` is the negation. A validated plan has no other
-- dependency than its own ids.
unfoldable pub is_done : List Text → List TaskState → Text → Bool
is_done ids tasks dependency =
    text_in dependency ids && elim (get_elem? tasks (index_of dependency ids)) [
      | none ↦ false
      | some t ↦ is_passed t.status
    ]

unfoldable pub missing_dependencies : List Text → List TaskState → PlanTask → List Text
missing_dependencies ids tasks task = keep (λ d. not (is_done ids tasks d)) task.depends_on

-- Where the loop over the tasks stops.
pub data LoopEnd : Type 0 where
  finished : Bool → LoopEnd
  waiting : Text → LoopEnd

-- `completed_tasks` and `commits`
pub record Progress : Type 0 where
  pub completed : ℕ
  pub commits : List Text

-- How far one task came: it waits for approval, or was executed and passed or not.
pub data TaskEnd : Type 0 where
  waits : TaskEnd
  executed : Bool → Option Text → TaskEnd

-- What the loops read of one index.
unfoldable pub row_of :
    ExecutionPlan → List Text → List TaskState → ℕ → Option (PlanTask × TaskState × Text)
row_of plan ids tasks index = elim (get_elem? plan.tasks index) [
  | none ↦ none
  | some task ↦ elim (get_elem? tasks index) [
    | none ↦ none
    | some t ↦ elim (get_elem? ids index) [ none ↦ none | some id ↦ some (task, t, id) ]
  ]
]

module _ {W : Type 0} where
  -- `plan.tasks[index]`, `task_states[index]`, `effective_ids[index]`; past the end, `IndexError`.
  unfoldable pub row_at : ExecutionPlan → List Text → ℕ → Action W (PlanTask × TaskState × Text)
  row_at plan ids index s = elim (row_of plan ids s.state.tasks index) [
    | none ↦ raise (external (codes "IndexError")) s
    | some row ↦ pure row s
  ]

  -- `_record_event`
  unfoldable pub record_event : Text → EventName → Option Bool → Option Text → Action W (Unit {0})
  record_event id name outcome detail s =
      append_event
        (record {
          run_id = s.state.run_id;
          task_id = id;
          event = name;
          passed = outcome;
          detail = detail;
        })
        s

  -- `_record_verification_metadata`
  unfoldable pub record_verification_metadata : PlanTask → Text → Action W (Unit {0})
  record_verification_metadata task id =
      if is_empty task.verification
      then pure tt
      else record_event id verification_metadata none (some (metadata_message task.verification))

  -- `_mark_remaining_after_failure`: one index of the order, with `blocked_ids`.
  unfoldable pub mark_row : Text → List Text → PlanTask × TaskState × Text → Action W (List Text)
  mark_row failed_id blocked_ids (task, t, id) =
      if text_eq id failed_id || not (is_pending t.status)
      then pure blocked_ids
      else if any (λ d. text_in d blocked_ids) task.depends_on
      then (mark_blocked t.id (blocked_message failed_id) >> pure (id ∷ blocked_ids))
      else (mark_skipped t.id skipped_message >> pure blocked_ids)

  unfoldable pub mark_remaining :
      ExecutionPlan → List Text → Text → List ℕ → List Text → Action W (Unit {0})
  mark_remaining plan ids failed_id [] blocked_ids = pure tt
  mark_remaining plan ids failed_id (index ∷ order) blocked_ids = do
    row ← row_at plan ids index
    blocked_ids' ← mark_row failed_id blocked_ids row
    mark_remaining plan ids failed_id order blocked_ids'

  -- A call that reaches the rest of the world only.
  abbrev pub outside : {A : Type 0} → (W → Outcome A × W) → Action W A
  outside f s = let (r, w) = f s.world in (r, record s { world = w })

  -- `if result.passed: update_task(PASSED) else: update_task(FAILED, error)`
  abbrev pub settle : Text → Bool → Text → Action W (Unit {0})
  settle id ok error = if ok then update_task id passed none else update_task id failed (some error)

  module _ (services : Services W) where
    -- The executor of a kind: `execute_test_task` or `execute_review_task`.
    unfoldable pub execute_explicit : PlanTask → W → Outcome PlanTaskExecution × W
    execute_explicit task = elim task.kind as (λ _. W → Outcome PlanTaskExecution × W) [
      | test ↦ services.execute_test_task
      | review ↦ services.execute_review_task task.description
      | _ ↦ λ w. (raises (plan_execution_error no_executor_message), w)
    ]

    -- `_run_explicit_task`, for the kinds `test` and `review`.
    unfoldable pub run_explicit_task : PlanTask → Text → Action W Bool
    run_explicit_task task id = do
      update_task id running none
      record_event id task_started none (some task.description)
      result ← outside (execute_explicit task)
      set_verification_status id result.verification_status
      settle id result.passed result.error
      record_event id task_completed (some result.passed) (some result.detail)
      pure result.passed

    -- The branch of `AUTO_EXECUTABLE_KINDS`. The task's status is read after the call.
    unfoldable pub run_checkpointed :
        ExecutionPlan → List Text → ℕ → PlanTask → Text → Action W (Bool × Option Text)
    run_checkpointed plan ids index task id = do
      (ok, commit) ← services.execute_checkpointed_task id task
      (_, t, _) ← row_at plan ids index
      if ok && not (is_passed t.status)
          then update_task id passed none
          else if not ok && is_pending t.status
          then update_task id failed (some checkpoint_message)
          else pure tt
      pure (ok, commit)

    -- From the verification metadata to the end of the execution branches.
    unfoldable pub attempt_task :
        ExecutionPlan → List Text → ℕ → PlanTask → TaskState → Action W TaskEnd
    attempt_task plan ids index task t = do
      record_verification_metadata task t.id
      if (approval_required task && not t.approval_granted) || is_approval_only task.kind
          then (mark_waiting_for_approval t.id >> pure waits)
          else if is_auto_executable task.kind
          then (run_checkpointed plan ids index task t.id >>= λ (ok, commit).
              pure (executed ok commit))
          else if is_explicit_executable task.kind
          then (run_explicit_task task t.id >>= λ ok. pure (executed ok none))
          else raise (plan_execution_error unsupported_message)
