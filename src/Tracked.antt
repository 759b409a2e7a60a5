-- ===== src/Tracked.antt =====
-- src/local_agent_orchestrator/services/tracked_executor.py: one task under its durable status. The
-- retry loop of src/local_agent_orchestrator/services/task_executor.py is a parameter, which returns the
-- events of its callback, each with the world at that call, beside its outcome.
use local_ai_workestra.Base.{
  ℕ, Bool, true, false, Option, none, some, List, [], ◌∷◌, ◌++◌, if◌then◌else◌, Text, codes,
  is_empty, strip,
}
use local_ai_workestra.Run.{
  running, passed, failed, TaskState, EventName, task_started, task_completed, task_exception,
}
use local_ai_workestra.Session.{
  RunError, Outcome, returns, raises, Action, ◌>>=◌, ◌>>◌, pure, raise, modify, attempt,
}
use local_ai_workestra.ScopeReview.{ScopeReview}
use local_ai_workestra.Manager.{change_task, update_task}
use local_ai_workestra.Runner.{record_event, outside}

-- `CommandResult`; the exit code as it prints.
pub record CommandResult : Type 0 where
  pub passed : Bool
  pub returncode : Text
  pub stdout : Text
  pub stderr : Text

-- An entry of `operation_failures`.
pub record OperationFailure : Type 0 where
  pub model : Text
  pub attempt : ℕ
  pub failure_class : Text
  pub detail : Text

-- `TaskExecutionResult`
pub record TaskExecutionResult : Type 0 where
  pub passed : Bool
  pub attempts : ℕ
  pub changed_files : List Text
  pub test_result : CommandResult
  pub diagnoses : List Text
  pub qwen_attempts : ℕ
  pub devstral_used : Bool
  pub accepted_model : Option Text
  pub accepted_attempt : Option ℕ
  pub baseline_result : Option CommandResult
  pub baseline_failure_identities : List Text
  pub post_change_failure_identities : List Text
  pub verification_classification : Option Text
  pub operation_failures : List OperationFailure
  pub scope_reviews : List ScopeReview

-- What the event callback is called with, of the fields that a `TrajectoryEvent` keeps here.
pub record Emitted : Type 0 where
  pub event : EventName
  pub passed : Option Bool
  pub detail : Option Text

-- `error` of a task that did not pass: `"\n\n".join(parts)`, or the exit code.
unfoldable pub failure_text : CommandResult → Text
failure_text r =
    let out = strip r.stdout in
    let problem = strip r.stderr in
    let from_out = codes "STDOUT:" ++ 10 ∷ out in
    let from_problem = codes "STDERR:" ++ 10 ∷ problem in
    if is_empty out
    then (if is_empty problem
        then codes "Tests exited with code " ++ r.returncode
        else from_problem)
    else (if is_empty problem then from_out else from_out ++ 10 ∷ 10 ∷ from_problem)

-- `task.attempts = attempts`, on the task with the id if there is one.
unfoldable pub assign_attempts : Text → ℕ → List TaskState → List TaskState
assign_attempts id attempts = change_task id (λ t. record t { attempts = attempts })

module _ {W : Type 0} where
  -- `emit`
  unfoldable pub emit : Text → Emitted → Action W (Unit {0})
  emit id e = record_event id e.event e.passed e.detail

  -- The world comes to be this one.
  abbrev pub to_world : W → Action W (Unit {0})
  to_world w = outside (λ _. (returns tt, w))

  -- The calls of `emit` that the loop makes, with the world at each.
  unfoldable pub emit_all : Text → List (Emitted × W) → Action W (Unit {0})
  emit_all id [] = pure tt
  emit_all id ((e, w) ∷ es) = do to_world w; emit id e; emit_all id es

  -- The end of a call whose callback may have raised.
  unfoldable pub after_events :
      Outcome TaskExecutionResult → W → Outcome (Unit {0}) → Action W (Outcome TaskExecutionResult)
  after_events r w (returns _) = to_world w >> pure r
  after_events r w (raises e) = pure (raises e)

  -- The call of `execute_task_with_retries` with `emit` as its callback. An event that cannot be written
  -- ends the call there with its exception, which is taken to be none that the loop handles itself.
  unfoldable pub call_with_events :
      Text
      → (W → Outcome TaskExecutionResult × List (Emitted × W) × W)
      → Action W (Outcome TaskExecutionResult)
  call_with_events id run s =
      let (r, events, w) = run s.world in (attempt (emit_all id events) >>= after_events r w) s

  -- The end of a task that was executed.
  unfoldable pub finish_tracked : Text → TaskExecutionResult → Action W (Unit {0})
  finish_tracked id result =
      if result.passed
      then (update_task id passed none >> record_event id task_completed (some true) none)
      else (update_task id failed (some (failure_text result.test_result))
          >> record_event id task_completed (some false) (some (failure_text result.test_result)))

  -- After the retry loop: an exception fails the task and is raised again.
  unfoldable pub after_execution :
      (RunError → Text) → Text → Outcome TaskExecutionResult → Action W TaskExecutionResult
  after_execution text id (raises e) = do
    record_event id task_exception (some false) (some (text e))
    update_task id failed (some (text e))
    raise e
  after_execution text id (returns result) = do
    modify (λ state. record state { tasks = assign_attempts id result.attempts state.tasks })
    finish_tracked id result
    pure result

  -- `execute_tracked_task`; `text` is `str(exc)`.
  unfoldable pub execute_tracked_task :
      (RunError → Text)
      → (W → Outcome TaskExecutionResult × List (Emitted × W) × W)
      → Text
      → Text
      → Action W TaskExecutionResult
  execute_tracked_task text run id description = do
    record_event id task_started none (some description)
    update_task id running none
    r ← call_with_events id run
    after_execution text id r
