-- ===== src/Safety.antt =====
-- The gate of a task in a run: its approval, its kind and its dependencies
-- (src/local_agent_orchestrator/services/plan_runner.py, resume.py).
pub mod Touch
pub mod Kept
pub mod Attempt
pub mod Rows
pub mod Loops
pub mod Executor
pub mod Checkpoint
pub mod Runs
pub mod Resume
pub mod Waits
pub mod WaitingRuns
pub mod Approval
pub mod Scoped
mod Scenarios
use local_ai_workestra.Base.{
  ℕ, suc, ◌≡◌, ◌≢◌, Bool, true, false, some, List, [], ◌∷◌, Text, text_in, get_elem?,
}
use local_ai_workestra.Plan.{PlanTask, ExecutionPlan, task_id}
use local_ai_workestra.Run.{TaskState, is_passed}
use local_ai_workestra.Runner.{approval_required, is_approval_only, is_done}

-- The tasks carry the ids that `add_task` generates.
abbrev pub IdsFrom : ℕ → List TaskState → Type 0
IdsFrom n [] = Unit
IdsFrom n (t ∷ ts) = (t.id ≡ task_id n) × IdsFrom (suc n) ts

-- A change that reaches the task at position `j` only, and not its approval.
pub record Touched (j : ℕ) (ts ts' : List TaskState) : Type 0 where
  pub others : (k : ℕ) → k ≢ j → get_elem? ts' k ≡ get_elem? ts k
  pub same_approval :
      (t' : TaskState)
      → get_elem? ts' j ≡ some t'
      → (t : TaskState) × (get_elem? ts j ≡ some t) × (t'.approval_granted ≡ t.approval_granted)

-- What a task may pass under: the approval, if it needs one, an executable kind, and every
-- dependency passed.
pub record Gate (ids : List Text) (ts : List TaskState) (p : PlanTask) (t : TaskState)
    : Type 0 where
  pub approved : approval_required p ≡ true → t.approval_granted ≡ true
  pub executable : is_approval_only p.kind ≡ false
  pub dependencies : (d : Text) → text_in d p.depends_on ≡ true → is_done ids ts d ≡ true

-- Every task that has passed is behind its gate.
abbrev pub PassedBehindGate : ExecutionPlan → List Text → List TaskState → Type 0
PassedBehindGate plan ids ts =
    (k : ℕ) (p : PlanTask) (t : TaskState)
    → get_elem? plan.tasks k ≡ some p
    → get_elem? ts k ≡ some t
    → is_passed t.status ≡ true
    → Gate ids ts p t
