-- ===== src/Safety/Waits.antt =====
-- The state that a loop leaves when it stops at a task which waits for approval.
use mathlib.Core.Path.{subst}
use local_ai_workestra.Base.{
  ℕ, ◌≡◌, refl, sym, ap, ◌∙◌, inl, inr, Bool, true, false, none, some, List, [], ◌∷◌, if◌then◌else◌,
  Option-cases, Text,
}
use local_ai_workestra.Plan.{PlanTask, ExecutionPlan}
use local_ai_workestra.Run.{TaskState, waiting_for_approval, is_waiting, blocked, is_passed}
use local_ai_workestra.Session.{
  Session, RunError, plan_execution_error, returns, Action, ◌>>=◌, pure, raise, gets,
}
use local_ai_workestra.Session.Binds.{
  Outcome-cases, bind_returns, bind_raises, returns-injective, returns_ne_raises,
}
use local_ai_workestra.Manager.Durable.{wait, perform-IsAtomic, IsAtomic-returns}
use local_ai_workestra.Manager.Tasks.{find_task-change_task_self}
use local_ai_workestra.Manager.{
  record_decision, find_task, waiting_state, mark_waiting_for_approval, mark_failed_as,
}
use local_ai_workestra.Manager.Effects.{
  mark_waiting_for_approval-none, mark_waiting_for_approval-state,
}
use local_ai_workestra.Runner.{
  Services, LoopEnd, finished, waiting, Progress, TaskEnd, unsupported_message, incomplete_message,
  waits, executed, is_auto_executable, is_explicit_executable, record_verification_metadata,
  mark_remaining, run_checkpointed, run_explicit_task, attempt_task, row_at, missing_dependencies,
}
use local_ai_workestra.Loop.{
  count_completed, add_commit, cannot_resume_message, is_unsuccessful, after_attempt, run_row,
  resume_row, run_loop, resume_loop,
}
use local_ai_workestra.Safety.Attempt.{asks}

module _ {W : Type 0} where
  -- The saved state of a run that waits for a task.
  abbrev pub WaitingOn : Text → Session W → Type 0
  WaitingOn id s =
      (s.state.status ≡ waiting_for_approval)
      × (s.state.current_task ≡ some id)
      × (s.saved ≡ s.state)
      × (t : TaskState) × (find_task id s.state.tasks ≡ some t)
      × (is_waiting t.status ≡ true)

  -- What an action leaves when it returns, from one session.
  pub record Leaves {A : Type 0} (s : Session W) (Q : A → Session W → Type 0) (m : Action W A)
      : Type 0 where
    pub on : (a : A) → (m s).0 ≡ returns a → Q a (m s).1

  abbrev Anything : {A : Type 0} → A → Session W → Type 0
  Anything a s = Unit {0}

  Leaves-any : {A : Type 0} (s : Session W) (m : Action W A) → Leaves s Anything m
  Leaves-any s m = record { on = λ a e. tt }

  pub Leaves-pure :
      {A : Type 0} (s : Session W) (Q : A → Session W → Type 0) (a : A)
      → Q a s
      → Leaves s Q (pure a)
  Leaves-pure s Q a q = record { on = λ b e. subst (λ x. Q x s) (returns-injective e) q }

  pub Leaves-raise :
      {A : Type 0} (s : Session W) (Q : A → Session W → Type 0) (e : RunError)
      → Leaves s Q (raise e)
  Leaves-raise s Q e = record { on = λ b h. returns_ne_raises (sym h) }

  pub Leaves-bind :
      {A B : Type 0} (s : Session W) (P : A → Session W → Type 0) (Q : B → Session W → Type 0)
      (m : Action W A) (f : A → Action W B)
      → Leaves s P m
      → ((a : A) (s' : Session W) → P a s' → Leaves s' Q (f a))
      → Leaves s Q (m >>= f)
  Leaves-bind s P Q m f pm qf = record {
    on = λ b e. elim (Outcome-cases (m s).0) [
      | inl (a, at) ↦
          let eq = bind_returns m f s a at in
          rw eq ((qf a (m s).1 (pm.on a at)).on b (sym (ap (λ r. r.0) eq) ∙ e))
      | inr (x, at) ↦ returns_ne_raises (sym e ∙ ap (λ r. r.0) (bind_raises m f s x at))
    ];
  }

  pub Leaves-then :
      {A B : Type 0} (s : Session W) (Q : B → Session W → Type 0) (m : Action W A)
      (f : A → Action W B)
      → ((a : A) (s' : Session W) → Leaves s' Q (f a))
      → Leaves s Q (m >>= f)
  Leaves-then s Q m f qf = Leaves-bind s Anything Q m f (Leaves-any s m) (λ a s' _. qf a s')

  pub Leaves-if :
      {A : Type 0} (s : Session W) (Q : A → Session W → Type 0) (b : Bool) (m k : Action W A)
      → Leaves s Q m
      → Leaves s Q k
      → Leaves s Q (if b then m else k)
  Leaves-if s Q true m k qm qk = qm
  Leaves-if s Q false m k qm qk = qk

  mark_waiting-Leaves :
      (id : Text) (s : Session W)
      → Leaves s (λ _ s'. WaitingOn id s') (mark_waiting_for_approval id)
  unfolding waiting_state record_decision
  mark_waiting-Leaves id s = record {
    on = λ a e. elim (Option-cases (find_task id s.state.tasks)) [
      | inl missing ↦
          returns_ne_raises (sym e ∙ ap (λ r. r.0) (mark_waiting_for_approval-none id s missing))
      | inr (t, found) ↦
          let f : TaskState → TaskState =
            λ t. record t { status = waiting_for_approval; error = none } in
          let kept = mark_waiting_for_approval-state id s t found in
          (
            rw kept refl,
            rw kept refl,
            IsAtomic-returns s (mark_waiting_for_approval id s) a (perform-IsAtomic (wait id) s) e,
            f t,
            rw kept (find_task-change_task_self f (λ t. refl) id s.state.tasks t found),
            refl,
          )
    ];
  }

  module _ (services : Services W) (plan : ExecutionPlan) (ids : List Text) where
    -- The attempt of a task that ends with a wait.
    abbrev AttemptLeaves : TaskState → TaskEnd → Session W → Type 0
    AttemptLeaves t end s = end ≡ waits → WaitingOn t.id s

    attempt_task-Leaves :
        (i : ℕ) (task : PlanTask) (t : TaskState) (s : Session W)
        → Leaves s (AttemptLeaves t) (attempt_task services plan ids i task t)
    unfolding attempt_task
    attempt_task-Leaves i task t s =
        Leaves-then s (AttemptLeaves t) (record_verification_metadata task t.id) _ (λ _ s1.
          Leaves-if s1 (AttemptLeaves t) (asks task t) _ _
            (Leaves-bind s1 (λ _ s'. WaitingOn t.id s') (AttemptLeaves t)
              (mark_waiting_for_approval t.id) (λ _. pure waits) (mark_waiting-Leaves t.id s1)
              (λ _ s2 w. Leaves-pure s2 (AttemptLeaves t) waits (λ _. w)))
            (Leaves-if s1 (AttemptLeaves t) (is_auto_executable task.kind) _ _
              (Leaves-then s1 (AttemptLeaves t) (run_checkpointed services plan ids i task t.id)
                (λ (good, commit). pure (executed good commit))
                (λ (good, commit) s2.
                  Leaves-pure s2 (AttemptLeaves t) (executed good commit) (λ e. cc)))
              (Leaves-if s1 (AttemptLeaves t) (is_explicit_executable task.kind) _ _
                (Leaves-then s1 (AttemptLeaves t) (run_explicit_task services task t.id)
                  (λ good. pure (executed good none))
                  (λ good s2. Leaves-pure s2 (AttemptLeaves t) (executed good none) (λ e. cc)))
                (Leaves-raise s1 (AttemptLeaves t) (plan_execution_error unsupported_message)))))

    -- The end of a loop that waits.
    abbrev pub LoopLeaves : LoopEnd × Progress → Session W → Type 0
    LoopLeaves end s = (id : Text) → end.0 ≡ waiting id → WaitingOn id s

    finished-Leaves :
        (good : Bool) (p : Progress) (s : Session W) → Leaves s LoopLeaves (pure (finished good, p))
    finished-Leaves good p s = Leaves-pure s LoopLeaves (finished good, p) (λ id e. cc)

    module _ (order : List ℕ) where
      module _ (rest : Progress → Action W (LoopEnd × Progress))
          (ih : (p : Progress) (s : Session W) → Leaves s LoopLeaves (rest p)) where
        after_attempt-Leaves :
            (t : TaskState) (id : Text) (p : Progress) (end : TaskEnd) (s : Session W)
            → AttemptLeaves t end s
            → Leaves s LoopLeaves (after_attempt services plan ids order rest t id p end)
        unfolding after_attempt
        after_attempt-Leaves t id p waits s w =
            Leaves-pure s LoopLeaves (waiting t.id, p)
              (λ i e.
                subst (λ x. WaitingOn x s)
                  (ap (λ end. elim end [ finished b ↦ t.id | waiting x ↦ x ]) e) (w refl))
        after_attempt-Leaves t id p (executed true commit) s w =
            ih (count_completed (add_commit commit p)) s
        after_attempt-Leaves t id p (executed false commit) s w =
            Leaves-then s LoopLeaves (mark_remaining plan ids id order (id ∷ []))
              (λ _. pure (finished false, add_commit commit p))
              (λ _ s1. finished-Leaves false (add_commit commit p) s1)

        goes-Leaves :
            (i : ℕ) (task : PlanTask) (t : TaskState) (id : Text) (p : Progress) (s : Session W)
            → Leaves s LoopLeaves (
                attempt_task services plan ids i task t
                >>= after_attempt services plan ids order rest t id p)
        goes-Leaves i task t id p s =
            Leaves-bind s (AttemptLeaves t) LoopLeaves (attempt_task services plan ids i task t)
              (after_attempt services plan ids order rest t id p) (attempt_task-Leaves i task t s)
              (λ end s1 w. after_attempt-Leaves t id p end s1 w)

        run_row-Leaves :
            (missing : List Text) (i : ℕ) (task : PlanTask) (t : TaskState) (id : Text)
            (p : Progress) (s : Session W)
            → Leaves s LoopLeaves (run_row services plan ids order rest missing i task t id p)
        unfolding run_row
        run_row-Leaves [] i task t id p s =
            Leaves-if s LoopLeaves (is_passed t.status) _ _ (ih (count_completed p) s)
              (goes-Leaves i task t id p s)
        run_row-Leaves (d ∷ ds) i task t id p s =
            Leaves-if s LoopLeaves (is_passed t.status) _ _ (ih (count_completed p) s) (
              Leaves-then s LoopLeaves (mark_failed_as blocked t.id (incomplete_message (d ∷ ds)))
                (λ _. mark_remaining plan ids d order (d ∷ []) >>= λ _. pure (finished false, p))
                (λ _ s1.
                  Leaves-then s1 LoopLeaves (mark_remaining plan ids d order (d ∷ []))
                    (λ _. pure (finished false, p)) (λ _ s2. finished-Leaves false p s2)))

        resume_row-Leaves :
            (missing : List Text) (i : ℕ) (task : PlanTask) (t : TaskState) (id : Text)
            (p : Progress) (s : Session W)
            → Leaves s LoopLeaves (resume_row services plan ids order rest missing i task t id p)
        unfolding resume_row
        resume_row-Leaves [] i task t id p s =
            Leaves-if s LoopLeaves (is_passed t.status) _ _ (ih p s) (
              Leaves-if s LoopLeaves (is_unsuccessful t.status) _ _
                (Leaves-raise s LoopLeaves
                  (plan_execution_error (cannot_resume_message t.status id)))
                (goes-Leaves i task t id p s))
        resume_row-Leaves (d ∷ ds) i task t id p s =
            Leaves-if s LoopLeaves (is_passed t.status) _ _ (ih p s) (
              Leaves-if s LoopLeaves (is_unsuccessful t.status) _ _
                (Leaves-raise s LoopLeaves
                  (plan_execution_error (cannot_resume_message t.status id)))
                (Leaves-then s LoopLeaves
                  (mark_failed_as blocked t.id (incomplete_message (d ∷ ds)))
                  (λ _. pure (finished false, p)) (λ _ s1. finished-Leaves false p s1)))

      pub run_loop-Leaves :
          (indices : List ℕ) (p : Progress) (s : Session W)
          → Leaves s LoopLeaves (run_loop services plan ids order indices p)
      unfolding run_loop
      run_loop-Leaves [] p s = finished-Leaves true p s
      run_loop-Leaves (i ∷ indices) p s =
          Leaves-then s LoopLeaves (row_at plan ids i)
            (λ (task, t, id). gets (λ state. state.tasks) >>= λ tasks.
              run_row services plan ids order (run_loop services plan ids order indices)
                (missing_dependencies ids tasks task) i task t id p)
            (λ (task, t, id) s1.
              Leaves-then s1 LoopLeaves (gets (λ state. state.tasks))
                (λ tasks.
                  run_row services plan ids order (run_loop services plan ids order indices)
                    (missing_dependencies ids tasks task) i task t id p)
                (λ tasks s2.
                  run_row-Leaves (run_loop services plan ids order indices)
                    (λ p s. run_loop-Leaves indices p s) (missing_dependencies ids tasks task) i
                    task t id p s2))

      pub resume_loop-Leaves :
          (indices : List ℕ) (p : Progress) (s : Session W)
          → Leaves s LoopLeaves (resume_loop services plan ids order indices p)
      unfolding resume_loop
      resume_loop-Leaves [] p s = finished-Leaves true p s
      resume_loop-Leaves (i ∷ indices) p s =
          Leaves-then s LoopLeaves (row_at plan ids i)
            (λ (task, t, id). gets (λ state. state.tasks) >>= λ tasks.
              resume_row services plan ids order (resume_loop services plan ids order indices)
                (missing_dependencies ids tasks task) i task t id p)
            (λ (task, t, id) s1.
              Leaves-then s1 LoopLeaves (gets (λ state. state.tasks))
                (λ tasks.
                  resume_row services plan ids order (resume_loop services plan ids order indices)
                    (missing_dependencies ids tasks task) i task t id p)
                (λ tasks s2.
                  resume_row-Leaves (resume_loop services plan ids order indices)
                    (λ p s. resume_loop-Leaves indices p s) (missing_dependencies ids tasks task) i
                    task t id p s2))
