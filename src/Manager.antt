-- ===== src/Manager.antt =====
-- `RunStateManager` of src/local_agent_orchestrator/services/run_state.py: the methods that change the
-- state of a run, and `approve_waiting_task` of src/local_agent_orchestrator/services/resume.py.
pub mod Durable
pub mod Effects
pub mod Tasks
mod Waiting
mod Scenarios
use local_ai_workestra.Base.{
  ℕ, suc, ◌+◌, Bool, true, false, not, Option, none, some, List, [], ◌∷◌, ◌++◌, if◌then◌else◌, Text,
  codes, text_eq, text_in, is_empty, all, length,
}
use local_ai_workestra.Plan.{task_id}
use local_ai_workestra.Run.{
  TaskStatus, pending, running, waiting_for_approval, passed, failed, blocked, skipped,
  VerificationStatus, not_requested, informational, TaskState, RunState, EventName,
  approval_requested, approval_granted_event, TrajectoryEvent, is_passed, is_waiting,
}
use local_ai_workestra.Session.{
  Session, task_not_found, not_waiting, no_task_waiting, Outcome, returns, raises, Action, ◌>>=◌,
  ◌>>◌, pure, raise, raise_if, gets, modify, save, append_event,
}

-- The first task with an id: the loop of `get_task`.
unfoldable pub find_task : Text → List TaskState → Option TaskState
find_task id [] = none
find_task id (t ∷ ts) = if text_eq t.id id then some t else find_task id ts

-- An assignment to fields of that task, which the list shares.
unfoldable pub change_task : Text → (TaskState → TaskState) → List TaskState → List TaskState
change_task id f [] = []
change_task id f (t ∷ ts) = if text_eq t.id id then f t ∷ ts else t ∷ change_task id f ts

-- `RunState(run_id=run_id, request=request)`
abbrev pub new_run_state : Text → Text → RunState
new_run_state run_id request = record {
  run_id = run_id;
  request = request;
  status = pending;
  current_task = none;
  base_branch = none;
  agent_branch = none;
  plan_id = none;
  compiled_revision = none;
  compiled_digest = none;
  source_digest = none;
  tasks = [];
}

-- `TaskState(...)` of `add_task`, in a list of tasks.
unfoldable pub new_task : List TaskState → Text → List Text → TaskState
new_task tasks description verification = record {
  id = task_id (length tasks + 1);
  description = description;
  status = pending;
  attempts = 0;
  error = none;
  approval_granted = false;
  verification = verification;
  verification_status = if is_empty verification then not_requested else informational;
}

-- The run's status after `update_task`, with what becomes of `current_task`.
unfoldable pub status_after : TaskStatus → Text → List TaskState → TaskStatus × Option Text
status_after failed id tasks = (failed, some id)
status_after blocked id tasks = (failed, some id)
status_after skipped id tasks = (failed, some id)
status_after waiting_for_approval id tasks = (waiting_for_approval, some id)
status_after _ id tasks =
    if all (λ t. is_passed t.status) tasks then (passed, none) else (running, some id)

-- `if status == RUNNING: task.attempts += 1`
abbrev pub attempts_after : TaskStatus → ℕ → ℕ
attempts_after running n = n + 1
attempts_after _ n = n

-- The assignments of each method to the state object and to the task.
unfoldable pub waiting_state : Text → RunState → RunState
unfolding change_task
waiting_state id state = record state {
  tasks =
      change_task id (λ t. record t { status = waiting_for_approval; error = none }) state.tasks;
  status = waiting_for_approval;
  current_task = some id;
}

unfoldable pub approved_state : Text → RunState → RunState
unfolding change_task
approved_state id state = record state {
  tasks =
      change_task id (λ t. record t { approval_granted = true; status = pending; error = none })
        state.tasks;
  status = pending;
  current_task = some id;
}

-- Of `mark_blocked` and `mark_skipped`.
unfoldable pub failed_as_state : TaskStatus → Text → Text → RunState → RunState
unfolding change_task
failed_as_state status id reason state = record state {
  tasks = change_task id (λ t. record t { status = status; error = some reason }) state.tasks;
  status = failed;
  current_task = some id;
}

unfoldable pub verified_state : Text → VerificationStatus → RunState → RunState
unfolding change_task
verified_state id status state = record state {
  tasks = change_task id (λ t. record t { verification_status = status }) state.tasks;
}

unfoldable pub finished_state : Bool → RunState → RunState
finished_state ok state = record state {
  status = if ok then passed else failed;
  current_task = none;
}

unfoldable pub updated_state : Text → TaskStatus → Option Text → RunState → RunState
unfolding change_task status_after
updated_state id status error state =
    let tasks =
      change_task id
        (λ t. record t {
          status = status;
          error = error;
          attempts = attempts_after status t.attempts;
        })
        state.tasks in
    record state {
      tasks = tasks;
      status = (status_after status id tasks).0;
      current_task = (status_after status id tasks).1;
    }

pub requested_detail : Text
requested_detail = codes "Human approval is required before execution."

pub granted_detail : Text
granted_detail = codes "Human approval granted."

-- `task_id or state.current_task`: an empty id is none.
unfoldable pub approval_target : Option Text → Option Text → Option Text
approval_target none current = current
approval_target (some id) current = if is_empty id then current else some id

module _ {W : Type 0} where
  -- The run that `create_run` saves. Before it is saved there is no file: `saved` is what it will hold.
  abbrev pub new_session : Text → Text → (ℕ → Option Text) → W → Session W
  new_session run_id request disk w =
      let state = new_run_state run_id request in
      record { state = state; saved = state; events = []; world = w; disk = disk }

  -- `create_run`, given the run directories that exist; `none` is `FileExistsError`. The session
  -- has no event yet.
  unfoldable pub create_run :
      List Text → Text → Text → (ℕ → Option Text) → W → Option (Outcome (Unit {0}) × Session W)
  create_run existing run_id request disk w =
      if text_in run_id existing then none else some (save (new_session run_id request disk w))

  unfoldable pub add_task : Text → List Text → Action W TaskState
  add_task description verification = do
    tasks ← gets (λ state. state.tasks)
    let task = new_task tasks description verification
    modify (λ state. record state { tasks = state.tasks ++ task ∷ [] })
    save
    pure task

  unfoldable pub get_task : Text → Action W TaskState
  get_task id s = elim (find_task id s.state.tasks) [
    | none ↦ raise (task_not_found id) s
    | some task ↦ pure task s
  ]

  -- The event that a method of the manager records.
  unfoldable pub record_decision : Text → EventName → Bool → Text → Action W (Unit {0})
  record_decision id name ok detail s =
      append_event
        (record {
          run_id = s.state.run_id;
          task_id = id;
          event = name;
          passed = some ok;
          detail = some detail;
        })
        s

  unfoldable pub mark_waiting_for_approval : Text → Action W (Unit {0})
  mark_waiting_for_approval id = do
    get_task id
    modify (waiting_state id)
    save
    record_decision id approval_requested false requested_detail

  unfoldable pub approve_task : Text → Action W (Unit {0})
  approve_task id = do
    task ← get_task id
    raise_if (not (is_waiting task.status)) (not_waiting id)
    modify (approved_state id)
    save
    record_decision id approval_granted_event true granted_detail

  -- The common body of `mark_blocked` and `mark_skipped`.
  unfoldable pub mark_failed_as : TaskStatus → Text → Text → Action W (Unit {0})
  mark_failed_as status id reason = do get_task id; modify (failed_as_state status id reason); save

  abbrev pub mark_blocked : Text → Text → Action W (Unit {0})
  mark_blocked = mark_failed_as blocked

  abbrev pub mark_skipped : Text → Text → Action W (Unit {0})
  mark_skipped = mark_failed_as skipped

  unfoldable pub set_verification_status : Text → VerificationStatus → Action W (Unit {0})
  set_verification_status id status = do get_task id; modify (verified_state id status); save

  unfoldable pub finish_run : Bool → Action W (Unit {0})
  finish_run ok = do modify (finished_state ok); save

  unfoldable pub update_task : Text → TaskStatus → Option Text → Action W (Unit {0})
  update_task id status error = do get_task id; modify (updated_state id status error); save

  -- `approve_waiting_task(run_id, task_id=...)`, on the loaded run.
  unfoldable pub approve_waiting_task : Option Text → Action W Text
  approve_waiting_task id s = elim (approval_target id s.state.current_task) [
    | none ↦ raise no_task_waiting s
    | some i ↦ (do approve_task i; pure i) s
  ]
