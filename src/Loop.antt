-- ===== src/Loop.antt =====
-- The loops of `_run_execution_plan` (src/local_agent_orchestrator/services/plan_runner.py) and of
-- `_resume_execution_plan` (src/local_agent_orchestrator/services/resume.py), and `finalize_plan_run`.
pub mod Final
use local_ai_workestra.Base.{
  ℕ, zero, suc, ◌+◌, Bool, true, false, not, ◌&&◌, ◌||◌, Option, none, some, List, [], ◌∷◌, ◌++◌,
  ◌==◌, if◌then◌else◌, Text, codes, is_empty, length, keep,
}
use local_ai_workestra.Plan.{PlanTask, ExecutionPlan}
use local_ai_workestra.Run.{
  TaskStatus, pending, running, waiting_for_approval, passed, failed, blocked, skipped, TaskState,
  RunState, finalization_started, finalization_failed, is_passed,
}
use local_ai_workestra.Session.{
  Session, RunError, plan_execution_error, external, Outcome, returns, raises, Action, ◌>>=◌, ◌>>◌,
  pure, raise, gets, modify, save,
}
use local_ai_workestra.Manager.{mark_blocked, finish_run}
use local_ai_workestra.Runner.{
  Services, LoopEnd, finished, waiting, Progress, TaskEnd, waits, executed, incomplete_message,
  finalization_message, missing_dependencies, row_at, mark_remaining, outside, record_event,
  attempt_task,
}

-- `completed_tasks += 1`
abbrev pub count_completed : Progress → Progress
count_completed p = record p { completed = p.completed + 1 }

-- `if result.commit: commits.append(result.commit)`
abbrev pub add_commit : Option Text → Progress → Progress
add_commit none p = p
add_commit (some c) p = if is_empty c then p else record p { commits = p.commits ++ c ∷ [] }

-- `task_state.status in {FAILED, BLOCKED, SKIPPED}`
abbrev pub is_unsuccessful : TaskStatus → Bool
is_unsuccessful failed = true
is_unsuccessful blocked = true
is_unsuccessful skipped = true
is_unsuccessful _ = false

-- `status.value`
status_value : TaskStatus → Text
status_value pending = codes "pending"
status_value running = codes "running"
status_value waiting_for_approval = codes "waiting_for_approval"
status_value passed = codes "passed"
status_value failed = codes "failed"
status_value blocked = codes "blocked"
status_value skipped = codes "skipped"

pub cannot_resume_message : TaskStatus → Text → Text
cannot_resume_message status id =
    codes "Cannot resume " ++ status_value status ++ codes " task " ++ id ++ codes "."

module _ {W : Type 0} (services : Services W) (plan : ExecutionPlan) (ids : List Text)
    (order : List ℕ) where
  -- After the attempt: a wait ends the loop, a failure marks the rest and ends it. What is left of
  -- the loop is `rest`.
  unfoldable pub after_attempt :
      (Progress → Action W (LoopEnd × Progress))
      → TaskState
      → Text
      → Progress
      → TaskEnd
      → Action W (LoopEnd × Progress)
  after_attempt rest t id p waits = pure (waiting t.id, p)
  after_attempt rest t id p (executed true commit) = rest (count_completed (add_commit commit p))
  after_attempt rest t id p (executed false commit) = do
    mark_remaining plan ids id order (id ∷ [])
    pure (finished false, add_commit commit p)

  -- The body of the loop of a new run. A missing dependency blocks the task and ends the loop.
  unfoldable pub run_row :
      (Progress → Action W (LoopEnd × Progress))
      → List Text
      → ℕ
      → PlanTask
      → TaskState
      → Text
      → Progress
      → Action W (LoopEnd × Progress)
  run_row rest missing index task t id p =
      if is_passed t.status
      then rest (count_completed p)
      else (elim missing as (λ _. Action W (LoopEnd × Progress)) [
        | dependency ∷ others ↦ do
          mark_blocked t.id (incomplete_message missing)
          mark_remaining plan ids dependency order (dependency ∷ [])
          pure (finished false, p)
        | [] ↦ attempt_task services plan ids index task t >>= after_attempt rest t id p
      ])

  -- The body of the loop of a resumed run. A task that ended without success cannot be resumed.
  unfoldable pub resume_row :
      (Progress → Action W (LoopEnd × Progress))
      → List Text
      → ℕ
      → PlanTask
      → TaskState
      → Text
      → Progress
      → Action W (LoopEnd × Progress)
  resume_row rest missing index task t id p =
      if is_passed t.status
      then rest p
      else if is_unsuccessful t.status
      then raise (plan_execution_error (cannot_resume_message t.status id))
      else (elim missing as (λ _. Action W (LoopEnd × Progress)) [
        | dependency ∷ others ↦ do
          mark_blocked t.id (incomplete_message missing)
          pure (finished false, p)
        | [] ↦ attempt_task services plan ids index task t >>= after_attempt rest t id p
      ])

  -- The loop of a new run, over the indices that are left.
  unfoldable pub run_loop : List ℕ → Progress → Action W (LoopEnd × Progress)
  run_loop [] p = pure (finished true, p)
  run_loop (index ∷ indices) p = do
    (task, t, id) ← row_at plan ids index
    tasks ← gets (λ state. state.tasks)
    run_row (run_loop indices) (missing_dependencies ids tasks task) index task t id p

  -- The loop of a resumed run.
  unfoldable pub resume_loop : List ℕ → Progress → Action W (LoopEnd × Progress)
  resume_loop [] p = pure (finished true, p)
  resume_loop (index ∷ indices) p = do
    (task, t, id) ← row_at plan ids index
    tasks ← gets (λ state. state.tasks)
    resume_row (resume_loop indices) (missing_dependencies ids tasks task) index task t id p

-- `str(exc)`, where the model knows it.
abbrev pub error_text : RunError → Text
error_text (external detail) = detail
error_text (plan_execution_error detail) = detail
error_text e = []

-- `state.current_task or "run"`
abbrev pub event_task : RunState → Text
event_task state = elim state.current_task [
  | none ↦ codes "run"
  | some id ↦ if is_empty id then codes "run" else id
]

module _ {W : Type 0} (services : Services W) where
  -- The `try` around the finalizer: an exception is recorded and the run fails.
  unfoldable pub after_finalizer : Bool → Outcome (Unit {0}) → Action W (Bool × Bool)
  after_finalizer all_passed (returns _) = do finish_run all_passed; pure (all_passed, true)
  after_finalizer all_passed (raises e) = do
    id ← gets event_task
    record_event id finalization_failed (some false) (some (error_text e))
    finish_run false
    pure (false, false)

  -- `finalize_plan_run`: analytics and retrospective, and the run's final status. The result is
  -- whether the run passed, and whether the finalizer returned.
  unfoldable pub finalize_plan_run : Bool → Action W (Bool × Bool)
  finalize_plan_run all_passed = do
    modify (λ state. record state { status = running })
    save
    id ← gets event_task
    record_event id finalization_started none (some finalization_message)
    run_id ← gets (λ state. state.run_id)
    r ← outside (λ w. let (r, w') = services.finalize_run run_id w in (returns r, w'))
    after_finalizer all_passed r
