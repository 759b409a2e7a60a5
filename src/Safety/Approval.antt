-- ===== src/Safety/Approval.antt =====
-- A run that waits, and its approval by `approve_waiting_task`
-- (src/local_agent_orchestrator/services/resume.py), which loads the run from its directory.
use local_ai_workestra.Base.{ℕ, ◌≡◌, refl, ap, none, some, Option, List, true, Bool, Text}
use local_ai_workestra.Plan.{ExecutionPlan}
use local_ai_workestra.Run.{
  TaskState, pending, RunState, EventName, approval_granted_event, is_waiting,
}
use local_ai_workestra.Session.{Session, Outcome, returns, ◌>>◌, pure, save, written, file_after}
use local_ai_workestra.Session.Binds.{bind_returns}
use local_ai_workestra.Manager.{
  find_task, approved_state, record_decision, granted_detail, approve_task, approval_target,
  approve_waiting_task,
}
use local_ai_workestra.Manager.Effects.{approve_task-waiting}
use local_ai_workestra.Manager.Tasks.{find_task-change_task_self}
use local_ai_workestra.Runner.{Services}
use local_ai_workestra.Execution.{PlanSource, PlanRunResult, run_execution_plan}
use local_ai_workestra.Safety.WaitingRuns.{run_execution_plan-WaitingOn}

module _ {W : Type 0} where
  -- `manager.load(run_id)`, in another process.
  unfoldable pub load_run : (ℕ → Option Text) → Session W → Session W
  load_run disk s = record s { state = s.saved; disk = disk }

  -- The approval of a task returned its id, and left it approved and the run to be resumed.
  pub record IsApproved (id : Text) (left : Outcome Text × Session W) : Type 0 where
    pub returned : left.0 ≡ returns id
    pub task : TaskState
    pub found : find_task id left.1.state.tasks ≡ some task
    pub task_pending : task.status ≡ pending
    pub granted : task.approval_granted ≡ true
    pub run_pending : left.1.state.status ≡ pending
    pub stored : left.1.saved ≡ left.1.state

  -- A return that left this state, saved.
  record IsStored (state : RunState) (left : Outcome (Unit {0}) × Session W) : Type 0 where
    returned : left.0 ≡ returns tt
    left_state : left.1.state ≡ state
    stored : left.1.saved ≡ left.1.state

  IsStored-decision :
      (id : Text) (name : EventName) (good : Bool) (detail : Text) (s : Session W)
      → s.disk 0 ≡ none
      → s.disk 1 ≡ none
      → IsStored s.state ((save >> record_decision id name good detail) s)
  unfolding record_decision
  IsStored-decision id name good detail s a b =
      rw (bind_returns save (λ _. record_decision id name good detail) s tt (ap written a))
        (record {
          returned = ap written b;
          left_state = refl;
          stored = ap (λ o. file_after o s.state s.saved) a;
        })

  approve_waiting_task-current :
      (s : Session W) (id : Text)
      → s.state.current_task ≡ some id
      → approve_waiting_task none s ≡ (approve_task id >> pure id) s
  unfolding approve_waiting_task approval_target
  approve_waiting_task-current s id current = rw current refl

  approve_task-IsStored :
      (s : Session W) (id : Text) (t : TaskState)
      → find_task id s.state.tasks ≡ some t
      → is_waiting t.status ≡ true
      → s.disk 0 ≡ none
      → s.disk 1 ≡ none
      → IsStored (approved_state id s.state) (approve_task id s)
  approve_task-IsStored s id t found waits a b = rw (approve_task-waiting id s t found waits) (
      IsStored-decision id approval_granted_event true granted_detail
        (record s { state = approved_state id s.state }) a b)

  IsApproved-stored :
      (id : Text) (state : RunState) (t : TaskState) (s : Session W)
      → find_task id state.tasks ≡ some t
      → s.state ≡ approved_state id state
      → s.saved ≡ s.state
      → IsApproved id (returns id, s)
  unfolding approved_state
  IsApproved-stored id state t s found e stored =
      let f : TaskState → TaskState =
        λ t. record t { approval_granted = true; status = pending; error = none } in
      record {
        returned = refl;
        task = f t;
        found = rw e (find_task-change_task_self f (λ t. refl) id state.tasks t found);
        task_pending = refl;
        granted = refl;
        run_pending = rw e refl;
        stored = stored;
      }

  approve_waiting_task-IsApproved :
      (s : Session W) (id : Text) (t : TaskState)
      → s.state.current_task ≡ some id
      → find_task id s.state.tasks ≡ some t
      → is_waiting t.status ≡ true
      → s.disk 0 ≡ none
      → s.disk 1 ≡ none
      → IsApproved id (approve_waiting_task none s)
  approve_waiting_task-IsApproved s id t current found waits a b =
      let h = approve_task-IsStored s id t found waits a b in
      rw
        (
          approve_waiting_task-current s id current,
          bind_returns (approve_task id) (λ _. pure id) s tt h.returned,
        )
        (IsApproved-stored id s.state t (approve_task id s).1 found h.left_state h.stored)

  -- A new run that returns a task to wait for can be approved with no task named, in another
  -- process whose two writes succeed: the approval returns the id of that task, which is then
  -- pending with its approval on record, and the saved run is pending, as a resumption asks.
  pub run_execution_plan-IsApproved :
      (services : Services W) (existing : List Text) (plan : ExecutionPlan) (source : PlanSource)
      (run_id : Text) (disk later : ℕ → Option Text) (w : W) (r : PlanRunResult) (s' : Session W)
      (id : Text)
      → run_execution_plan services existing plan source run_id disk w ≡ some (returns r, s')
      → r.waiting_task_id ≡ some id
      → later 0 ≡ none
      → later 1 ≡ none
      → IsApproved id (approve_waiting_task none (load_run later s'))
  unfolding load_run
  run_execution_plan-IsApproved services existing plan source run_id disk later w r s' id ran waits
        a b =
      let (_, current, stored, t, found, waiting) =
        run_execution_plan-WaitingOn services existing plan source run_id disk w r s' id ran
          waits in
      approve_waiting_task-IsApproved (load_run later s') id t (rw stored current) (rw stored found)
        waiting a b
