-- ===== src/Manager/Effects.antt =====
-- Each method as one equation: what it does to the session where the task is there.
use local_ai_workestra.Base.{◌≡◌, refl, ap, ◌∙◌, true, false, Option, none, some, arith, Text}
use local_ai_workestra.Run.{
  TaskStatus, VerificationStatus, TaskState, approval_requested, approval_granted_event, is_waiting,
}
use local_ai_workestra.Session.{Session, task_not_found, not_waiting, raises, ◌>>◌, save}
use local_ai_workestra.Session.Binds.{save_then-state}
use local_ai_workestra.Manager.{
  find_task, get_task, record_decision, waiting_state, approved_state, failed_as_state,
  verified_state, updated_state, requested_detail, granted_detail, mark_waiting_for_approval,
  approve_task, mark_failed_as, set_verification_status, update_task,
}

module _ {W : Type 0} where
  module _ (id : Text) (s : Session W) where
    module _ (missing : find_task id s.state.tasks ≡ none) where
      pub mark_waiting_for_approval-none :
          mark_waiting_for_approval id s ≡ (raises (task_not_found id), s)
      unfolding mark_waiting_for_approval get_task
      mark_waiting_for_approval-none = ground arith

      pub approve_task-none : approve_task id s ≡ (raises (task_not_found id), s)
      unfolding approve_task get_task
      approve_task-none = ground arith

      pub mark_failed_as-none :
          (status : TaskStatus) (reason : Text)
          → mark_failed_as status id reason s ≡ (raises (task_not_found id), s)
      unfolding mark_failed_as get_task
      mark_failed_as-none status reason = ground arith

      pub set_verification_status-none :
          (status : VerificationStatus)
          → set_verification_status id status s ≡ (raises (task_not_found id), s)
      unfolding set_verification_status get_task
      set_verification_status-none status = ground arith

      pub update_task-none :
          (status : TaskStatus) (error : Option Text)
          → update_task id status error s ≡ (raises (task_not_found id), s)
      unfolding update_task get_task
      update_task-none status error = ground arith

    module _ (t : TaskState) (found : find_task id s.state.tasks ≡ some t) where
      pub mark_waiting_for_approval-some :
          mark_waiting_for_approval id s
          ≡ (save >> record_decision id approval_requested false requested_detail)
              record s { state = waiting_state id s.state }
      unfolding mark_waiting_for_approval get_task
      mark_waiting_for_approval-some = ground arith

      pub mark_waiting_for_approval-state :
          (mark_waiting_for_approval id s).1.state ≡ waiting_state id s.state
      unfolding record_decision
      mark_waiting_for_approval-state =
          ap (λ r. r.1.state) mark_waiting_for_approval-some
          ∙ save_then-state (record_decision id approval_requested false requested_detail)
              record s { state = waiting_state id s.state } (λ s. refl)

      pub approve_task-not_waiting :
          is_waiting t.status ≡ false → approve_task id s ≡ (raises (not_waiting id), s)
      unfolding approve_task get_task
      approve_task-not_waiting h = ground arith

      pub approve_task-waiting :
          is_waiting t.status ≡ true
          → approve_task id s
            ≡ (save >> record_decision id approval_granted_event true granted_detail)
                record s { state = approved_state id s.state }
      unfolding approve_task get_task
      approve_task-waiting h = ground arith

      pub mark_failed_as-some :
          (status : TaskStatus) (reason : Text)
          → mark_failed_as status id reason s
            ≡ save record s { state = failed_as_state status id reason s.state }
      unfolding mark_failed_as get_task
      mark_failed_as-some status reason = ground arith

      pub set_verification_status-some :
          (status : VerificationStatus)
          → set_verification_status id status s
            ≡ save record s { state = verified_state id status s.state }
      unfolding set_verification_status get_task
      set_verification_status-some status = ground arith

      pub update_task-some :
          (status : TaskStatus) (error : Option Text)
          → update_task id status error s
            ≡ save record s { state = updated_state id status error s.state }
      unfolding update_task get_task
      update_task-some status error = ground arith
