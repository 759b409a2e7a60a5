-- ===== src/Manager/Waiting.antt =====
-- The task that a waiting run names, under the methods of the manager.
use local_ai_workestra.Base.{
  ◌≡◌, refl, sym, ◌∙◌, inl, inr, true, false, Option, none, some, List, [], ◌∷◌, arith, Bool-cases,
  Option-cases, Text, text_eq, text_eq_sound,
}
use mathlib.Core.Bool.{false≢true}
use local_ai_workestra.Run.{
  TaskStatus, waiting_for_approval, failed, blocked, skipped, TaskState, RunState, is_waiting,
  approval_requested, approval_granted_event,
}
use local_ai_workestra.Session.{Session}
use local_ai_workestra.Session.Binds.{save_then-state}
use local_ai_workestra.Manager.{
  find_task, change_task, status_after, waiting_state, approved_state, failed_as_state,
  verified_state, finished_state, updated_state, record_decision, requested_detail, granted_detail,
  finish_run,
}
use local_ai_workestra.Manager.Effects.{
  mark_waiting_for_approval-none, mark_waiting_for_approval-some, approve_task-none,
  approve_task-waiting, approve_task-not_waiting, mark_failed_as-none, mark_failed_as-some,
  set_verification_status-none, set_verification_status-some, update_task-none, update_task-some,
}
use local_ai_workestra.Manager.Tasks.{
  find_task-change_task_self, find_task-change_task_ne, find_task-append,
}
use local_ai_workestra.Manager.Durable.{
  Command, add, wait, approve, block, skip, verify, finish, update, perform, add_task-save,
}

-- The task that a waiting run names, in its waiting state.
abbrev pub WaitingTask : RunState → Type 0
WaitingTask state =
    (id : Text) × (t : TaskState) × (state.current_task ≡ some id)
    × (find_task id state.tasks ≡ some t)
    × (is_waiting t.status ≡ true)

abbrev pub WaitsForTask : RunState → Type 0
WaitsForTask state = is_waiting state.status ≡ true → WaitingTask state

find_task-id :
    (id : Text) (ts : List TaskState) (t : TaskState) → find_task id ts ≡ some t → t.id ≡ id
unfolding find_task
find_task-id id [] t h = cc
find_task-id id (u ∷ ts) t h = elim (Bool-cases (text_eq u.id id)) [
  | inl at ↦ let e : u ≡ t = ground arith in rw (sym e) (text_eq_sound u.id id at)
  | inr off ↦ find_task-id id ts t (ground arith)
]

-- A change that keeps the status keeps the waiting task.
WaitingTask-change :
    (f : TaskState → TaskState) (id : Text) (state : RunState)
    → ((t : TaskState) → (f t).id ≡ t.id)
    → ((t : TaskState) → (f t).status ≡ t.status)
    → WaitingTask state
    → WaitingTask (record state { tasks = change_task id f state.tasks })
WaitingTask-change f id state same_id same_status (i, t, current, found, waits) =
    elim (Bool-cases (text_eq id i)) [
      | inl at ↦
          let e : id ≡ i = text_eq_sound id i at in
          (
            i,
            f t,
            current,
            rw e (find_task-change_task_self f same_id i state.tasks t found),
            rw (same_status t) waits,
          )
      | inr off ↦
          (i, t, current, find_task-change_task_ne f same_id id i state.tasks off ∙ found, waits)
    ]

-- The method that has just made a task wait names it.
WaitingTask-now :
    (f : TaskState → TaskState) (id : Text) (state : RunState) (t : TaskState)
    → ((t : TaskState) → (f t).id ≡ t.id)
    → find_task id state.tasks ≡ some t
    → is_waiting (f t).status ≡ true
    → (status : TaskStatus)
    → WaitingTask (record state {
      tasks = change_task id f state.tasks;
      status = status;
      current_task = some id;
    })
WaitingTask-now f id state t same_id found waits status =
    (id, f t, refl, find_task-change_task_self f same_id id state.tasks t found, waits)

-- A run that has just stopped waiting names nothing.
not_waiting_status : (state : RunState) → is_waiting state.status ≡ false → WaitsForTask state
not_waiting_status state h waits = absurd (false≢true (sym h ∙ waits))

updated_state-WaitsForTask :
    (id : Text) (status : TaskStatus) (error : Option Text) (state : RunState) (t : TaskState)
    → find_task id state.tasks ≡ some t
    → WaitsForTask (updated_state id status error state)
unfolding updated_state status_after
updated_state-WaitsForTask id waiting_for_approval error state t found waits =
    WaitingTask-now (λ t. record t { status = waiting_for_approval; error = error }) id state t
      (λ t. refl) found refl waiting_for_approval
updated_state-WaitsForTask id failed error state t found waits = cc
updated_state-WaitsForTask id blocked error state t found waits = cc
updated_state-WaitsForTask id skipped error state t found waits = cc
updated_state-WaitsForTask id _ error state t found waits = absurd (ground arith)

module _ {W : Type 0} where
  -- Every method keeps this, raised or not: a run that waits for approval names a waiting task.
  pub perform-WaitsForTask :
      (c : Command) (s : Session W) → WaitsForTask s.state → WaitsForTask (perform c s).1.state
  unfolding record_decision finish_run waiting_state approved_state failed_as_state verified_state
      finished_state
  perform-WaitsForTask (add description verification) s h =
      rw (add_task-save description verification s) (λ waits.
        let (i, t, current, found, w) = h waits in
        (i, t, current, find_task-append i s.state.tasks _ t found, w))
  perform-WaitsForTask (finish true) s h = λ waits. cc
  perform-WaitsForTask (finish false) s h = λ waits. cc
  perform-WaitsForTask (wait id) s h = elim (Option-cases (find_task id s.state.tasks)) [
    | inl missing ↦ rw (mark_waiting_for_approval-none id s missing) h
    | inr (t, found) ↦
        rw
          (
            mark_waiting_for_approval-some id s t found,
            save_then-state (record_decision id approval_requested false requested_detail)
                (record s { state = waiting_state id s.state }) (λ s. refl),
          )
          (λ waits.
            WaitingTask-now (λ t. record t { status = waiting_for_approval; error = none }) id
              s.state t (λ t. refl) found refl waiting_for_approval)
  ]
  perform-WaitsForTask (approve id) s h = elim (Option-cases (find_task id s.state.tasks)) [
    | inl missing ↦ rw (approve_task-none id s missing) h
    | inr (t, found) ↦ elim (Bool-cases (is_waiting t.status)) [
      | inl w ↦
          rw
            (
              approve_task-waiting id s t found w,
              save_then-state (record_decision id approval_granted_event true granted_detail)
                  (record s { state = approved_state id s.state }) (λ s. refl),
            )
            (λ waits. cc)
      | inr off ↦ rw (approve_task-not_waiting id s t found off) h
    ]
  ]
  perform-WaitsForTask (block id reason) s h = elim (Option-cases (find_task id s.state.tasks)) [
    | inl missing ↦ rw (mark_failed_as-none id s missing blocked reason) h
    | inr (t, found) ↦ rw (mark_failed_as-some id s t found blocked reason) (λ waits. cc)
  ]
  perform-WaitsForTask (skip id reason) s h = elim (Option-cases (find_task id s.state.tasks)) [
    | inl missing ↦ rw (mark_failed_as-none id s missing skipped reason) h
    | inr (t, found) ↦ rw (mark_failed_as-some id s t found skipped reason) (λ waits. cc)
  ]
  perform-WaitsForTask (verify id status) s h = elim (Option-cases (find_task id s.state.tasks)) [
    | inl missing ↦ rw (set_verification_status-none id s missing status) h
    | inr (t, found) ↦ rw (set_verification_status-some id s t found status) (λ waits.
        WaitingTask-change (λ t. record t { verification_status = status }) id s.state (λ t. refl)
          (λ t. refl) (h waits))
  ]
  perform-WaitsForTask (update id status error) s h =
      elim (Option-cases (find_task id s.state.tasks)) [
        | inl missing ↦ rw (update_task-none id s missing status error) h
        | inr (t, found) ↦
            rw (update_task-some id s t found status error)
              (updated_state-WaitsForTask id status error s.state t found)
      ]
