-- ===== src/Safety/Runs.antt =====
-- A whole run, new or resumed, with the checkpointed executor in its place.
use local_ai_workestra.Session.Binds.{save_then-state}
use local_ai_workestra.Base.{
  ℕ, zero, suc, ◌+◌, ◌≡◌, refl, sym, ap, ◌∙◌, inl, inr, Bool, false, ◌&&◌, none, some, List, [],
  ◌∷◌, ◌++◌, arith, ◌==◌, Bool-cases, Text, text_in, length, keep, ok, Option,
}
use mathlib.Core.Bool.{false≢true}
use mathlib.Core.Path.{subst}
use local_ai_workestra.Plan.{PlanTask, ExecutionPlan, task_id, task_ids_from}
use local_ai_workestra.Run.{TaskState, is_passed}
use local_ai_workestra.Session.{
  Session, Outcome, Action, ◌>>=◌, pure, gets, modify, save, write_file, ◌>>◌,
}
use local_ai_workestra.Manager.{new_task, add_task, create_run, new_session}
use local_ai_workestra.Validation.{ValidatedPlan, validate_plan}
use local_ai_workestra.Runner.{Services, LoopEnd, finished, waiting, Progress, outside}
use local_ai_workestra.Loop.{run_loop, resume_loop, finalize_plan_run}
use local_ai_workestra.Loop.Final.{finalize_plan_run-IsFinal, IsFinal-tasks}
use local_ai_workestra.Execution.{
  PlanRunResult, PlanSource, validated, add_tasks, conclude, prepare_run, run_validated,
  run_created, run_execution_plan, resume_validated, with_source,
}
use local_ai_workestra.Checkpointed.{Agents}
use local_ai_workestra.Safety.{IdsFrom, PassedBehindGate}
use local_ai_workestra.Safety.Kept.{Unpassed, bind_leads}
use local_ai_workestra.Safety.Attempt.{ReachesItsTask}
use local_ai_workestra.Safety.Rows.{Safe}
use local_ai_workestra.Safety.Loops.{run_loop-Safe, resume_loop-Safe}
use local_ai_workestra.Safety.Checkpoint.{with_checkpoints, with_checkpoints-ReachesItsTask}

IdsFrom-append :
    (n : ℕ) (ts : List TaskState) (t : TaskState)
    → IdsFrom n ts
    → t.id ≡ task_id (length ts + n)
    → IdsFrom n (ts ++ t ∷ [])
IdsFrom-append n [] t h e = (e ∙ ap task_id (omega arith), tt)
IdsFrom-append n (u ∷ ts) t h e =
    (h.0, IdsFrom-append (suc n) ts t h.1 (e ∙ ap task_id (omega arith)))

-- No task has passed.
abbrev NonePassed : List TaskState → Type 0
NonePassed ts = (k : ℕ) → Unpassed k ts

NonePassed-append :
    (ts : List TaskState) (t : TaskState)
    → NonePassed ts
    → is_passed t.status ≡ false
    → NonePassed (ts ++ t ∷ [])
NonePassed-append [] t h fresh zero u at = ground arith
NonePassed-append [] t h fresh (suc k) u at = cc
NonePassed-append (v ∷ ts) t h fresh zero u at = h zero u at
NonePassed-append (v ∷ ts) t h fresh (suc k) u at =
    NonePassed-append ts t (λ k u at. h (suc k) u at) fresh k u at

-- The tasks of a run that are being added.
record Fresh (ts : List TaskState) : Type 0 where
  pub generated : IdsFrom 1 ts
  pub none_passed : NonePassed ts

module _ {W : Type 0} where
  record Preserves {A : Type 0} (m : Action W A) : Type 0 where
    pub on : (s : Session W) → Fresh s.state.tasks → Fresh (m s).1.state.tasks

  Preserves-bind :
      {A B : Type 0} (m : Action W A) (f : A → Action W B)
      → Preserves m
      → ((a : A) → Preserves (f a))
      → Preserves (m >>= f)
  Preserves-bind m f pm pf = record {
    on = λ s fresh.
        bind_leads (λ s. Fresh s.state.tasks) (λ s. Fresh s.state.tasks) s m f (pm.on s fresh)
          (λ s' h. h) (λ a s' h. (pf a).on s' h);
  }

  -- An action that changes no task.
  Preserves-same :
      {A : Type 0} (m : Action W A)
      → ((s : Session W) → (m s).1.state.tasks ≡ s.state.tasks)
      → Preserves m
  Preserves-same m same = record { on = λ s fresh. rw (same s) fresh }

  Preserves-add_task :
      (description : Text) (verification : List Text)
      → Preserves (add_task description verification)
  unfolding add_task new_task
  Preserves-add_task description verification = record {
    on = λ s fresh.
        let task = new_task s.state.tasks description verification in
        let after = record s { state = record s.state { tasks = s.state.tasks ++ task ∷ [] } } in
        rw (save_then-state (pure task) after (λ s. refl)) (record {
          generated = IdsFrom-append 1 s.state.tasks _ fresh.generated refl;
          none_passed = NonePassed-append s.state.tasks _ fresh.none_passed refl;
        });
  }

  Preserves-add_tasks : (tasks : List PlanTask) → Preserves (add_tasks tasks)
  unfolding add_tasks
  Preserves-add_tasks [] = Preserves-same _ (λ s. refl)
  Preserves-add_tasks (task ∷ tasks) =
      Preserves-bind _ _ (Preserves-add_task task.description task.verification)
        (λ _. Preserves-add_tasks tasks)

  Fresh-Safe :
      (plan : ExecutionPlan) (ids : List Text) (s : Session W)
      → Fresh s.state.tasks
      → Safe plan ids s
  Fresh-Safe plan ids s fresh = record {
    generated = fresh.generated;
    gated =
        λ k p t at_p at_t passes. absurd (false≢true (sym (fresh.none_passed k t at_t) ∙ passes));
  }

  pub Safe-same :
      (plan : ExecutionPlan) (ids : List Text) (s s' : Session W)
      → Safe plan ids s
      → s'.state.tasks ≡ s.state.tasks
      → Safe plan ids s'
  Safe-same plan ids s s' safe e = record {
    generated = rw e safe.generated;
    gated = rw e safe.gated;
  }

  module _ (services : Services W) (plan : ExecutionPlan) where
    Preserves-outside : {A : Type 0} (f : W → Outcome A × W) → Preserves (outside f)
    Preserves-outside f = Preserves-same (outside f) (λ s. refl)

    Preserves-prepare_run : Preserves (prepare_run services plan)
    unfolding prepare_run
    Preserves-prepare_run = Preserves-bind _ _ (Preserves-outside services.assert_clean) (λ _.
        Preserves-bind _ _ (Preserves-outside services.current_branch) (λ base.
          Preserves-bind _ _ (Preserves-same (gets (λ state. state.run_id)) (λ s. refl)) (λ run_id.
            Preserves-bind _ _ (Preserves-outside (services.create_agent_branch run_id)) (λ agent.
              Preserves-bind _ _
                (Preserves-same
                  (modify
                    (λ state. record state { base_branch = some base; agent_branch = some agent }))
                  (λ s. refl))
                (λ _.
                  Preserves-bind _ _ (Preserves-same save (λ s. refl))
                    (λ _. Preserves-add_tasks plan.tasks))))))

    -- The end of a run changes no task.
    finalize-tasks :
        (all_passed : Bool) (s : Session W)
        → (finalize_plan_run services all_passed s).1.state.tasks ≡ s.state.tasks
    finalize-tasks all_passed s =
        IsFinal-tasks all_passed s _ (finalize_plan_run-IsFinal services all_passed s)

    Safe-conclude :
        (ids : List Text) (end : LoopEnd × Progress) (s : Session W)
        → Safe plan ids s
        → Safe plan ids (conclude services plan end s).1
    unfolding conclude
    Safe-conclude ids (waiting id, p) s safe = safe
    Safe-conclude ids (finished all_passed, p) s safe =
        let done = all_passed && p.completed == length plan.tasks in
        bind_leads (Safe plan ids) (Safe plan ids) s (finalize_plan_run services done)
          (λ (run_passed, finalized). pure (record {
            passed = run_passed;
            completed_tasks = p.completed;
            total_tasks = length plan.tasks;
            commits = p.commits;
            finalized = finalized;
            waiting_task_id = none;
          }))
          (Safe-same plan ids s (finalize_plan_run services done s).1 safe (finalize-tasks done s))
          (λ s' h. h) (λ _ s' h. h)

    module _ (law : ReachesItsTask services) (v : ValidatedPlan) where
      Safe-run_validated :
          (s : Session W)
          → Fresh s.state.tasks
          → Safe plan v.effective_ids (run_validated services plan v s).1
      unfolding run_validated
      Safe-run_validated s fresh =
          bind_leads (λ s. Fresh s.state.tasks) (Safe plan v.effective_ids) s
            (prepare_run services plan)
            (λ _.
              run_loop services plan v.effective_ids v.order v.order
                (record { completed = 0; commits = [] })
              >>= conclude services plan)
            (Preserves-prepare_run.on s fresh) (Fresh-Safe plan v.effective_ids)
            (λ _ s1 fresh1.
              bind_leads (Safe plan v.effective_ids) (Safe plan v.effective_ids) s1
                (run_loop services plan v.effective_ids v.order v.order
                  (record { completed = 0; commits = [] }))
                (conclude services plan)
                (run_loop-Safe plan v.effective_ids services law v.order v.order _ s1
                  (Fresh-Safe plan v.effective_ids s1 fresh1))
                (λ s' h. h) (λ end s' h. Safe-conclude v.effective_ids end s' h))

      pub Safe-resume_validated :
          (s : Session W)
          → Safe plan v.effective_ids s
          → Safe plan v.effective_ids (resume_validated services plan v s).1
      unfolding resume_validated
      Safe-resume_validated s safe =
          bind_leads (Safe plan v.effective_ids) (Safe plan v.effective_ids) s
            (resume_loop services plan v.effective_ids v.order v.order (record {
              completed = length (keep (λ t. is_passed t.status) s.state.tasks);
              commits = [];
            }))
            (conclude services plan)
            (resume_loop-Safe plan v.effective_ids services law v.order v.order _ s safe)
            (λ s' h. h) (λ end s' h. Safe-conclude v.effective_ids end s' h)

module _ {W : Type 0} (services : Services W) (law : ReachesItsTask services) (plan : ExecutionPlan)
    (source : PlanSource) (v : ValidatedPlan)
    (valid : validate_plan plan (some (task_ids_from 1 plan.tasks)) ≡ ok v) where
  Safe-run_created :
      (s : Session W)
      → Fresh s.state.tasks
      → Safe plan v.effective_ids (run_created services plan source s).1
  unfolding run_created validated
  Safe-run_created s fresh =
      bind_leads (λ s. Fresh s.state.tasks) (Safe plan v.effective_ids)
        (record s { state = with_source source s.state }) save
        (λ _.
          write_file
          >> validated (validate_plan plan (some (task_ids_from 1 plan.tasks)))
          >>= run_validated services plan)
        fresh (Fresh-Safe plan v.effective_ids)
        (λ _ s1 fresh1.
          bind_leads (λ s. Fresh s.state.tasks) (Safe plan v.effective_ids) s1 write_file
            (λ _.
              validated (validate_plan plan (some (task_ids_from 1 plan.tasks)))
              >>= run_validated services plan)
            fresh1 (Fresh-Safe plan v.effective_ids)
            (λ _ s2 fresh2. rw valid (Safe-run_validated services plan law v s2 fresh2)))

  Safe-run_execution_plan :
      (existing : List Text) (run_id : Text) (disk : ℕ → Option Text) (w : W)
      (r : Outcome PlanRunResult) (s' : Session W)
      → run_execution_plan services existing plan source run_id disk w ≡ some (r, s')
      → Safe plan v.effective_ids s'
  unfolding run_execution_plan create_run
  Safe-run_execution_plan existing run_id disk w r s' ran =
      elim (Bool-cases (text_in run_id existing)) [
        | inl exists ↦ absurd (ground arith)
        | inr new ↦
            subst (Safe plan v.effective_ids)
              (ap (λ o. elim o [ none ↦ s' | some x ↦ x.1 ]) (rw (new, run_execution_plan) at ran))
              (bind_leads (λ s. Fresh s.state.tasks) (Safe plan v.effective_ids)
                (new_session run_id plan.request disk w) save
                (λ _. run_created services plan source)
                (record { generated = tt; none_passed = λ k t at. cc })
                (Fresh-Safe plan v.effective_ids) (λ _ s fresh. Safe-run_created s fresh))
      ]

module _ {W : Type 0} (agents : Agents W) (limit : ℕ) (services : Services W) where
  -- A new run of a plan that validates, with the checkpointed executor: when it ends, returned or
  -- raised, every task that has passed had the approval that it needs, is of a kind that is
  -- executed, and has each of its dependencies passed. It holds for every behaviour of the models,
  -- the reviewers, Git, the tests, the finalizer and the disk.
  pub run_execution_plan-PassedBehindGate :
      (existing : List Text) (plan : ExecutionPlan) (source : PlanSource) (run_id : Text)
      (disk : ℕ → Option Text) (w : W) (v : ValidatedPlan) (r : Outcome PlanRunResult)
      (s' : Session W)
      → validate_plan plan (some (task_ids_from 1 plan.tasks)) ≡ ok v
      → run_execution_plan
          (with_checkpoints agents limit services)
          existing
          plan
          source
          run_id
          disk
          w
        ≡ some (r, s')
      → PassedBehindGate plan v.effective_ids s'.state.tasks
  run_execution_plan-PassedBehindGate existing plan source run_id disk w v r s' valid ran =
      let law = with_checkpoints-ReachesItsTask agents limit services in
      (Safe-run_execution_plan (with_checkpoints agents limit services) law plan source v valid
        existing run_id disk w r s' ran).gated
