-- ===== src/Run.antt =====
-- The durable state of a run: src/local_agent_orchestrator/models/task.py, and what
-- src/local_agent_orchestrator/models/trajectory.py records of an event. Times are left out: no
-- operation that is modelled reads them.
use local_ai_workestra.Base.{ℕ, Bool, true, false, Option, List, Text}

pub data TaskStatus : Type 0 where
  pending running waiting_for_approval passed failed blocked skipped : TaskStatus

pub data VerificationStatus : Type 0 where
  not_requested informational enforced_trusted_command verification_failed : VerificationStatus

pub record TaskState : Type 0 where
  pub id : Text
  pub description : Text
  pub status : TaskStatus
  pub attempts : ℕ
  pub error : Option Text
  pub approval_granted : Bool
  pub verification : List Text
  pub verification_status : VerificationStatus

pub record RunState : Type 0 where
  pub run_id : Text
  pub request : Text
  pub status : TaskStatus
  pub current_task : Option Text
  pub base_branch : Option Text
  pub agent_branch : Option Text
  pub plan_id : Option Text
  pub compiled_revision : Option ℕ
  pub compiled_digest : Option Text
  pub source_digest : Option Text
  pub tasks : List TaskState

-- The values of `event` that the modelled code writes.
pub data EventName : Type 0 where
  approval_requested approval_granted_event verification_metadata : EventName
  task_started task_completed task_exception : EventName
  finalization_started finalization_failed : EventName
  post_edit_review_failed rollback checkpoint_failed checkpoint_created : EventName
  verification_bootstrap_failed verification_bootstrapped : EventName
  verification_baseline_failed verification_baseline_finished : EventName
  model_attempt_started edit_operations_requested coding_output_rejected scope_review : EventName
  tests_finished verification_compared fallback_started : EventName
  other_event : Text → EventName

-- `TrajectoryEvent`, without the time and the fields of the models, the attempts, the operations, the
-- verification and the scope: the code that is modelled writes events and reads none.
pub record TrajectoryEvent : Type 0 where
  pub run_id : Text
  pub task_id : Text
  pub event : EventName
  pub passed : Option Bool
  pub detail : Option Text

abbrev pub is_passed : TaskStatus → Bool
is_passed passed = true
is_passed _ = false

abbrev pub is_pending : TaskStatus → Bool
is_pending pending = true
is_pending _ = false

abbrev pub is_waiting : TaskStatus → Bool
is_waiting waiting_for_approval = true
is_waiting _ = false
