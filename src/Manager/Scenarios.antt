-- ===== src/Manager/Scenarios.antt =====
-- A run with one waiting task, under the methods of the manager.
use local_ai_workestra.Base.{refl, false, none, some, [], ◌∷◌, codes, text_eq}
use local_ai_workestra.Run.{waiting_for_approval, failed, not_requested, TaskState, RunState}
use local_ai_workestra.Session.{Session}
use local_ai_workestra.Manager.{find_task}
use local_ai_workestra.Manager.Durable.{update, block, perform, IsAtomic, perform-IsAtomic}
use local_ai_workestra.Manager.Waiting.{WaitsForTask, perform-WaitsForTask}

abbrev waiting_task : TaskState
waiting_task = record {
  id = codes "task-001";
  description = codes "deploy it";
  status = waiting_for_approval;
  attempts = 0;
  error = none;
  approval_granted = false;
  verification = [];
  verification_status = not_requested;
}

abbrev waiting_state : RunState
waiting_state = record {
  run_id = codes "run";
  request = codes "do it";
  status = waiting_for_approval;
  current_task = some (codes "task-001");
  base_branch = none;
  agent_branch = none;
  plan_id = none;
  compiled_revision = none;
  compiled_digest = none;
  source_digest = none;
  tasks = waiting_task ∷ [];
}

abbrev waiting_session : Session (Unit {0})
waiting_session = record {
  state = waiting_state;
  saved = waiting_state;
  events = [];
  world = tt;
  disk = λ n. none;
}

waiting_session-WaitsForTask : WaitsForTask waiting_state
unfolding find_task text_eq
waiting_session-WaitsForTask waits = (codes "task-001", waiting_task, refl, refl, refl)

perform-IsAtomic_example :
    IsAtomic waiting_session (perform (update (codes "task-001") failed none) waiting_session)
perform-IsAtomic_example = perform-IsAtomic (update (codes "task-001") failed none) waiting_session

perform-WaitsForTask_example :
    WaitsForTask (perform (block (codes "task-002") (codes "why")) waiting_session).1.state
perform-WaitsForTask_example =
    perform-WaitsForTask (block (codes "task-002") (codes "why")) waiting_session
      waiting_session-WaitsForTask
