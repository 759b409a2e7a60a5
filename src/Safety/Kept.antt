-- ===== src/Safety/Kept.antt =====
-- Actions on one task: what the methods of the manager keep of the others.
use local_ai_workestra.Base.{
  ℕ, ◌+◌, ◌≡◌, refl, ap, inl, inr, Bool, false, Option, none, some, List, Bool-cases, Option-cases,
  Text, get_elem?, is_empty,
}
use local_ai_workestra.Plan.{PlanTask, task_id}
use local_ai_workestra.Run.{
  TaskStatus, waiting_for_approval, VerificationStatus, TaskState, EventName, is_passed,
}
use local_ai_workestra.Session.{Session, RunError, Action, ◌>>=◌, pure, raise}
use local_ai_workestra.Session.Binds.{Outcome-cases, bind_returns, bind_raises}
use local_ai_workestra.Manager.{
  find_task, change_task, attempts_after, waiting_state, failed_as_state, verified_state,
  updated_state, mark_waiting_for_approval, mark_failed_as, set_verification_status, update_task,
}
use local_ai_workestra.Manager.Effects.{
  mark_waiting_for_approval-none, mark_waiting_for_approval-state, mark_failed_as-none,
  mark_failed_as-some, set_verification_status-none, set_verification_status-some, update_task-none,
  update_task-some,
}
use local_ai_workestra.Runner.{record_event, record_verification_metadata}
use local_ai_workestra.Safety.{IdsFrom, Touched}
use local_ai_workestra.Safety.Touch.{
  Touched-refl, Touched-trans, IdsFrom-change_task, change_task-Touched, change_task-from,
}

-- The task at a position has not passed.
abbrev pub Unpassed : ℕ → List TaskState → Type 0
Unpassed j ts = (t : TaskState) → get_elem? ts j ≡ some t → is_passed t.status ≡ false

Unpassed-change_task :
    (f : TaskState → TaskState) (j : ℕ) (ts : List TaskState)
    → ((t : TaskState) → (f t).id ≡ t.id)
    → ((t : TaskState) → is_passed (f t).status ≡ false)
    → IdsFrom 1 ts
    → Unpassed j (change_task (task_id (1 + j)) f ts)
Unpassed-change_task f j ts same_id not_passed h t' at =
    let (t, at_t, e) = change_task-from f same_id j ts t' h at in rw e (not_passed t)

module _ {W : Type 0} where
  pub record Kept (j : ℕ) (s s' : Session W) : Type 0 where
    pub ids : IdsFrom 1 s'.state.tasks
    pub touched : Touched j s.state.tasks s'.state.tasks

  -- An action that reaches one task only, whether it returns or raises.
  pub record Keeps {A : Type 0} (j : ℕ) (m : Action W A) : Type 0 where
    pub on : (s : Session W) → IdsFrom 1 s.state.tasks → Kept j s (m s).1

  -- An action after which that task has not passed, unless it had.
  pub record Stops {A : Type 0} (j : ℕ) (m : Action W A) : Type 0 where
    pub on :
        (s : Session W)
        → IdsFrom 1 s.state.tasks
        → Unpassed j s.state.tasks
        → Unpassed j (m s).1.state.tasks

  pub Kept-refl :
      (j : ℕ) (s s' : Session W)
      → IdsFrom 1 s.state.tasks
      → s'.state.tasks ≡ s.state.tasks
      → Kept j s s'
  Kept-refl j s s' h e = record { ids = rw e h; touched = rw e (Touched-refl j s.state.tasks) }

  -- What holds after an action and leads to what holds after the rest.
  pub bind_leads :
      {A B : Type 0} (P Q : Session W → Type 0) (s : Session W) (m : Action W A)
      (f : A → Action W B)
      → P (m s).1
      → ((s' : Session W) → P s' → Q s')
      → ((a : A) (s' : Session W) → P s' → Q (f a s').1)
      → Q ((m >>= f) s).1
  bind_leads P Q s m f holds weaker rest = elim (Outcome-cases (m s).0) [
    | inl (a, e) ↦ rw (bind_returns m f s a e) (rest a (m s).1 holds)
    | inr (x, e) ↦ rw (bind_raises m f s x e) (weaker (m s).1 holds)
  ]

  pub Keeps-bind :
      {A B : Type 0} (j : ℕ) (m : Action W A) (f : A → Action W B)
      → Keeps j m
      → ((a : A) → Keeps j (f a))
      → Keeps j (m >>= f)
  Keeps-bind j m f km kf = record {
    on = λ s h.
        let k = km.on s h in
        elim (Outcome-cases (m s).0) [
          | inl (a, e) ↦
              let k' = (kf a).on (m s).1 k.ids in
              rw (bind_returns m f s a e) (record {
                ids = k'.ids;
                touched =
                    Touched-trans j s.state.tasks (m s).1.state.tasks (f a (m s).1).1.state.tasks
                      k.touched k'.touched;
              })
          | inr (x, e) ↦ rw (bind_raises m f s x e) k
        ];
  }

  pub Stops-bind :
      {A B : Type 0} (j : ℕ) (m : Action W A) (f : A → Action W B)
      → Keeps j m
      → Stops j m
      → ((a : A) → Stops j (f a))
      → Stops j (m >>= f)
  Stops-bind j m f km sm sf = record {
    on = λ s h u.
        let k = km.on s h in
        elim (Outcome-cases (m s).0) [
          | inl (a, e) ↦ rw (bind_returns m f s a e) ((sf a).on (m s).1 k.ids (sm.on s h u))
          | inr (x, e) ↦ rw (bind_raises m f s x e) (sm.on s h u)
        ];
  }

  pub Keeps-pure : {A : Type 0} (j : ℕ) (a : A) → Keeps j (pure a)
  Keeps-pure j a = record { on = λ s h. Kept-refl j s s h refl }

  pub Keeps-raise : (A : Type 0) (j : ℕ) (e : RunError) → Keeps j (raise {A = A} e)
  Keeps-raise A j e = record { on = λ s h. Kept-refl j s s h refl }

  pub Keeps-record_event :
      (j : ℕ) (id : Text) (name : EventName) (outcome : Option Bool) (detail : Option Text)
      → Keeps j (record_event id name outcome detail)
  unfolding record_event
  Keeps-record_event j id name outcome detail = record { on = λ s h. Kept-refl j s _ h refl }

  pub Keeps-record_verification_metadata :
      (j : ℕ) (task : PlanTask) (id : Text) → Keeps j (record_verification_metadata task id)
  unfolding record_verification_metadata record_event
  Keeps-record_verification_metadata j task id = record {
    on = λ s h. elim (Bool-cases (is_empty task.verification)) [
      | inl e ↦ rw e (Kept-refl j s s h refl)
      | inr e ↦ rw e (Kept-refl j s _ h refl)
    ];
  }

  pub Stops-record_verification_metadata :
      (j : ℕ) (task : PlanTask) (id : Text) → Stops j (record_verification_metadata task id)
  unfolding record_verification_metadata record_event
  Stops-record_verification_metadata j task id = record {
    on =
        λ s h u. elim (Bool-cases (is_empty task.verification)) [ inl e ↦ rw e u | inr e ↦ rw e u ];
  }

  -- An assignment to the fields of the task that keeps its id and its approval.
  pub Kept-change_task :
      (f : TaskState → TaskState) (j : ℕ) (s s' : Session W)
      → ((t : TaskState) → (f t).id ≡ t.id)
      → ((t : TaskState) → (f t).approval_granted ≡ t.approval_granted)
      → IdsFrom 1 s.state.tasks
      → s'.state.tasks ≡ change_task (task_id (1 + j)) f s.state.tasks
      → Kept j s s'
  Kept-change_task f j s s' same_id same_approval h e = record {
    ids = rw e (IdsFrom-change_task f same_id (task_id (1 + j)) 1 s.state.tasks h);
    touched = rw e (change_task-Touched f same_id same_approval j s.state.tasks h);
  }

  module _ (j : ℕ) where
    pub Keeps-mark_waiting_for_approval : Keeps j (mark_waiting_for_approval (task_id (1 + j)))
    unfolding waiting_state
    Keeps-mark_waiting_for_approval = record {
      on = λ s h. elim (Option-cases (find_task (task_id (1 + j)) s.state.tasks)) [
        | inl missing ↦ rw (mark_waiting_for_approval-none _ s missing) (Kept-refl j s s h refl)
        | inr (t, found) ↦
            Kept-change_task (λ t. record t { status = waiting_for_approval; error = none }) j s _
              (λ t. refl) (λ t. refl) h
              (ap (λ x. x.tasks) (mark_waiting_for_approval-state _ s t found))
      ];
    }

    pub Stops-mark_waiting_for_approval : Stops j (mark_waiting_for_approval (task_id (1 + j)))
    unfolding waiting_state
    Stops-mark_waiting_for_approval = record {
      on = λ s h u. elim (Option-cases (find_task (task_id (1 + j)) s.state.tasks)) [
        | inl missing ↦ rw (mark_waiting_for_approval-none _ s missing) u
        | inr (t, found) ↦ rw (mark_waiting_for_approval-state _ s t found) (
            Unpassed-change_task (λ t. record t { status = waiting_for_approval; error = none }) j
              s.state.tasks (λ t. refl) (λ t. refl) h)
      ];
    }

    pub Keeps-mark_failed_as :
        (status : TaskStatus) (reason : Text)
        → Keeps j (mark_failed_as status (task_id (1 + j)) reason)
    unfolding failed_as_state
    Keeps-mark_failed_as status reason = record {
      on = λ s h. elim (Option-cases (find_task (task_id (1 + j)) s.state.tasks)) [
        | inl missing ↦ rw (mark_failed_as-none _ s missing status reason) (Kept-refl j s s h refl)
        | inr (t, found) ↦ rw (mark_failed_as-some _ s t found status reason) (
            Kept-change_task (λ t. record t { status = status; error = some reason }) j s _
              (λ t. refl) (λ t. refl) h refl)
      ];
    }

    pub Stops-mark_failed_as :
        (status : TaskStatus) (reason : Text)
        → is_passed status ≡ false
        → Stops j (mark_failed_as status (task_id (1 + j)) reason)
    unfolding failed_as_state
    Stops-mark_failed_as status reason not_passed = record {
      on = λ s h u. elim (Option-cases (find_task (task_id (1 + j)) s.state.tasks)) [
        | inl missing ↦ rw (mark_failed_as-none _ s missing status reason) u
        | inr (t, found) ↦ rw (mark_failed_as-some _ s t found status reason) (
            Unpassed-change_task (λ t. record t { status = status; error = some reason }) j
              s.state.tasks (λ t. refl) (λ t. not_passed) h)
      ];
    }

    pub Keeps-set_verification_status :
        (status : VerificationStatus) → Keeps j (set_verification_status (task_id (1 + j)) status)
    unfolding verified_state
    Keeps-set_verification_status status = record {
      on = λ s h. elim (Option-cases (find_task (task_id (1 + j)) s.state.tasks)) [
        | inl missing ↦
            rw (set_verification_status-none _ s missing status) (Kept-refl j s s h refl)
        | inr (t, found) ↦ rw (set_verification_status-some _ s t found status) (
            Kept-change_task (λ t. record t { verification_status = status }) j s _ (λ t. refl)
              (λ t. refl) h refl)
      ];
    }

    pub Keeps-update_task :
        (status : TaskStatus) (error : Option Text)
        → Keeps j (update_task (task_id (1 + j)) status error)
    unfolding updated_state
    Keeps-update_task status error = record {
      on = λ s h. elim (Option-cases (find_task (task_id (1 + j)) s.state.tasks)) [
        | inl missing ↦ rw (update_task-none _ s missing status error) (Kept-refl j s s h refl)
        | inr (t, found) ↦ rw (update_task-some _ s t found status error) (
            Kept-change_task
              (λ t. record t {
                status = status;
                error = error;
                attempts = attempts_after status t.attempts;
              })
              j s _ (λ t. refl) (λ t. refl) h refl)
      ];
    }
