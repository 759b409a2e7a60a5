-- ===== src/Safety/Attempt.antt =====
-- The attempt of one task: the tasks it reaches, and the gate it is behind.
use local_ai_workestra.Base.{
  ℕ, ◌+◌, ◌≡◌, refl, inl, inr, Bool, true, false, not, ◌&&◌, ◌||◌, none, some, List, [], ◌∷◌, arith,
  if◌then◌else◌, Bool-cases, Option-cases, Text, text_in, text_eq, text_eq_sound, keep,
}
use local_ai_workestra.Plan.{PlanTask, ExecutionPlan, task_id}
use local_ai_workestra.Run.{
  running, passed, failed, TaskState, task_started, task_completed, is_passed, is_pending,
}
use local_ai_workestra.Session.{plan_execution_error, Outcome, Action, pure}
use local_ai_workestra.Runner.{
  PlanTaskExecution, Services, TaskEnd, waits, executed, is_auto_executable, is_explicit_executable,
  is_approval_only, approval_required, checkpoint_message, unsupported_message, is_done,
  missing_dependencies, row_of, row_at, outside, execute_explicit, run_explicit_task,
  run_checkpointed, attempt_task,
}
use local_ai_workestra.Safety.{Gate}
use local_ai_workestra.Safety.Kept.{
  Keeps, Stops, Kept-refl, Keeps-bind, Stops-bind, Keeps-pure, Keeps-raise, Keeps-record_event,
  Keeps-record_verification_metadata, Stops-record_verification_metadata,
  Keeps-mark_waiting_for_approval, Stops-mark_waiting_for_approval, Keeps-set_verification_status,
  Keeps-update_task,
}

-- What the runner relies on: the checkpointed executor, called for a task, changes that task only,
-- not its approval, and keeps every task's id.
pub record ReachesItsTask {W : Type 0} (services : Services W) : Type 0 where
  pub keeps :
      (j : ℕ) (task : PlanTask)
      → Keeps j (services.execute_checkpointed_task (task_id (1 + j)) task)

keep-none :
    (f : Text → Bool) (ds : List Text) (d : Text)
    → keep f ds ≡ []
    → text_in d ds ≡ true
    → f d ≡ false
unfolding text_in
keep-none f [] d h listed = ground arith
keep-none f (x ∷ ds) d h listed = elim (Bool-cases (text_eq d x)) [
  | inl same ↦ let e : d ≡ x = text_eq_sound d x same in rw e (ground arith)
  | inr other ↦ ground (arith, keep-none f ds d)
]

-- With no dependency missing, each is done.
pub missing_dependencies-none :
    (ids : List Text) (ts : List TaskState) (task : PlanTask) (d : Text)
    → missing_dependencies ids ts task ≡ []
    → text_in d task.depends_on ≡ true
    → is_done ids ts d ≡ true
unfolding missing_dependencies
missing_dependencies-none ids ts task d h listed =
    ground (arith, keep-none (λ d. not (is_done ids ts d)) task.depends_on d h listed)

-- The condition under which the runner asks for approval instead of executing.
abbrev pub asks : PlanTask → TaskState → Bool
asks task t = (approval_required task && not t.approval_granted) || is_approval_only task.kind

pub Gate-of :
    (ids : List Text) (ts : List TaskState) (task : PlanTask) (t : TaskState)
    → asks task t ≡ false
    → missing_dependencies ids ts task ≡ []
    → Gate ids ts task t
Gate-of ids ts task t h missing = record {
  approved = λ r. ground arith;
  executable = ground arith;
  dependencies = λ d listed. missing_dependencies-none ids ts task d missing listed;
}

module _ {W : Type 0} where
  pub Keeps-if :
      {A : Type 0} (j : ℕ) (b : Bool) (m k : Action W A)
      → Keeps j m
      → Keeps j k
      → Keeps j (if b then m else k)
  Keeps-if j true m k km kk = km
  Keeps-if j false m k km kk = kk

  Stops-if :
      {A : Type 0} (j : ℕ) (b : Bool) (m k : Action W A)
      → b ≡ true
      → Stops j m
      → Stops j (if b then m else k)
  Stops-if j true m k e sm = sm
  Stops-if j false m k e sm = cc

  Stops-pure : {A : Type 0} (j : ℕ) (a : A) → Stops {W = W} j (pure a)
  Stops-pure j a = record { on = λ s h u. u }

  pub Keeps-outside : {A : Type 0} (j : ℕ) (f : W → Outcome A × W) → Keeps j (outside f)
  Keeps-outside j f = record { on = λ s h. Kept-refl j s _ h refl }

  Keeps-row_at :
      (j : ℕ) (plan : ExecutionPlan) (ids : List Text) (i : ℕ) → Keeps {W = W} j (row_at plan ids i)
  unfolding row_at
  Keeps-row_at j plan ids i = record {
    on = λ s h. elim (Option-cases (row_of plan ids s.state.tasks i)) [
      | inl gone ↦ rw (gone, row_at) (Kept-refl j s s h refl)
      | inr (row, found) ↦ rw (found, row_at) (Kept-refl j s s h refl)
    ];
  }

  module _ (services : Services W) (law : ReachesItsTask services) (j : ℕ) where
    Keeps-run_explicit_task :
        (task : PlanTask) → Keeps j (run_explicit_task services task (task_id (1 + j)))
    unfolding run_explicit_task
    Keeps-run_explicit_task task = Keeps-bind j _ _ (Keeps-update_task j running none) (λ _.
        Keeps-bind j _ _
          (Keeps-record_event j (task_id (1 + j)) task_started none (some task.description))
          (λ _.
            Keeps-bind j _ _ (Keeps-outside j (execute_explicit services task))
              (λ (result : PlanTaskExecution).
                Keeps-bind j _ _ (Keeps-set_verification_status j result.verification_status) (λ _.
                  Keeps-bind j _ _
                    (Keeps-if j result.passed _ _ (Keeps-update_task j passed none)
                      (Keeps-update_task j failed (some result.error)))
                    (λ _.
                      Keeps-bind j _ _
                        (Keeps-record_event j (task_id (1 + j)) task_completed (some result.passed)
                          (some result.detail))
                        (λ _. Keeps-pure j result.passed))))))

    Keeps-run_checkpointed :
        (plan : ExecutionPlan) (ids : List Text) (i : ℕ) (task : PlanTask)
        → Keeps j (run_checkpointed services plan ids i task (task_id (1 + j)))
    unfolding run_checkpointed
    Keeps-run_checkpointed plan ids i task = Keeps-bind j _ _ (law.keeps j task) (λ (good, commit).
        Keeps-bind j _ _ (Keeps-row_at j plan ids i) (λ (task', t, id).
          Keeps-bind j _ _
            (Keeps-if j (good && not (is_passed t.status)) _ _ (Keeps-update_task j passed none) (
              Keeps-if j (not good && is_pending t.status) _ _
                (Keeps-update_task j failed (some checkpoint_message)) (Keeps-pure j tt)))
            (λ _. Keeps-pure j (good, commit))))

    pub Keeps-attempt_task :
        (plan : ExecutionPlan) (ids : List Text) (i : ℕ) (task : PlanTask) (t : TaskState)
        → t.id ≡ task_id (1 + j)
        → Keeps j (attempt_task services plan ids i task t)
    unfolding attempt_task
    Keeps-attempt_task plan ids i task t e = rw e (
        Keeps-bind j _ _ (Keeps-record_verification_metadata j task (task_id (1 + j))) (λ _.
          Keeps-if j (asks task t) _ _
            (Keeps-bind j _ _ (Keeps-mark_waiting_for_approval j) (λ _. Keeps-pure j waits))
            (Keeps-if j (is_auto_executable task.kind) _ _
              (Keeps-bind j _ _ (Keeps-run_checkpointed plan ids i task)
                (λ (good, commit). Keeps-pure j (executed good commit)))
              (Keeps-if j (is_explicit_executable task.kind) _ _
                (Keeps-bind j _ _ (Keeps-run_explicit_task task)
                  (λ good. Keeps-pure j (executed good none)))
                (Keeps-raise TaskEnd j (plan_execution_error unsupported_message))))))

    -- Where the runner asks for approval, the task does not pass.
    pub Stops-attempt_task :
        (plan : ExecutionPlan) (ids : List Text) (i : ℕ) (task : PlanTask) (t : TaskState)
        → t.id ≡ task_id (1 + j)
        → asks task t ≡ true
        → Stops j (attempt_task services plan ids i task t)
    unfolding attempt_task
    Stops-attempt_task plan ids i task t e asked = rw e (
        Stops-bind j _ _ (Keeps-record_verification_metadata j task (task_id (1 + j)))
          (Stops-record_verification_metadata j task (task_id (1 + j)))
          (λ _. Stops-if j (asks task t) _ _ asked (
            Stops-bind j _ _ (Keeps-mark_waiting_for_approval j) (Stops-mark_waiting_for_approval j)
              (λ _. Stops-pure j waits))))
