-- ===== src/Safety/WaitingRuns.antt =====
-- The saved state of a whole run that returns a waiting task.
use mathlib.Core.Path.{subst}
use local_ai_workestra.Base.{
  ◌≡◌, refl, ap, inl, inr, not, ◌&&◌, Option, none, some, List, [], map, keep, length, arith, ◌==◌,
  Bool-cases, Text, text_in, is_empty, ℕ,
}
use local_ai_workestra.Plan.{ExecutionPlan, task_ids_from}
use local_ai_workestra.Run.{is_passed}
use local_ai_workestra.Session.{
  Session, external, no_agent_branch, not_resumable, task_count_mismatch, Outcome, returns, Action,
  ◌>>=◌, ◌>>◌, pure, raise_if, save, write_file,
}
use local_ai_workestra.Manager.{create_run, new_session}
use local_ai_workestra.Validation.{Checked, ValidatedPlan, validate_plan}
use local_ai_workestra.Runner.{Services, LoopEnd, finished, waiting, Progress, outside}
use local_ai_workestra.Loop.{run_loop, resume_loop, finalize_plan_run}
use local_ai_workestra.Execution.{
  PlanRunResult, PlanSource, is_resumable, no_plan_message, validated, conclude, prepare_run,
  run_validated, run_created, run_execution_plan, resume_validated, resume_plan, resume_on,
  resume_execution_plan, with_source,
}
use local_ai_workestra.Safety.Waits.{
  WaitingOn, Leaves, Leaves-pure, Leaves-raise, Leaves-bind, Leaves-then, LoopLeaves,
  run_loop-Leaves, resume_loop-Leaves,
}

module _ {W : Type 0} (services : Services W) where
  -- The result of a run that waits.
  abbrev ResultLeaves : PlanRunResult → Session W → Type 0
  ResultLeaves r s = (id : Text) → r.waiting_task_id ≡ some id → WaitingOn id s

  conclude-Leaves :
      (plan : ExecutionPlan) (ids : List Text) (end : LoopEnd × Progress) (s : Session W)
      → LoopLeaves services plan ids end s
      → Leaves s ResultLeaves (conclude services plan end)
  unfolding conclude
  conclude-Leaves plan ids (waiting i, p) s w =
      Leaves-pure s ResultLeaves _ (λ id e.
        subst (λ x. WaitingOn x s) (ap (λ o. elim o [ none ↦ i | some x ↦ x ]) e) (w i refl))
  conclude-Leaves plan ids (finished all_passed, p) s w =
      Leaves-then s ResultLeaves
        (finalize_plan_run services (all_passed && p.completed == length plan.tasks))
        (λ (run_passed, finalized). pure (record {
          passed = run_passed;
          completed_tasks = p.completed;
          total_tasks = length plan.tasks;
          commits = p.commits;
          finalized = finalized;
          waiting_task_id = none;
        }))
        (λ (run_passed, finalized) s1. Leaves-pure s1 ResultLeaves _ (λ id e. cc))

  module _ (plan : ExecutionPlan) (v : ValidatedPlan) where
    run_validated-Leaves : (s : Session W) → Leaves s ResultLeaves (run_validated services plan v)
    unfolding run_validated
    run_validated-Leaves s =
        let start : Progress = record { completed = 0; commits = [] } in
        Leaves-then s ResultLeaves (prepare_run services plan)
          (λ _.
            run_loop services plan v.effective_ids v.order v.order start >>= conclude services plan)
          (λ _ s1.
            Leaves-bind s1 (LoopLeaves services plan v.effective_ids) ResultLeaves
              (run_loop services plan v.effective_ids v.order v.order start)
              (conclude services plan)
              (run_loop-Leaves services plan v.effective_ids v.order v.order start s1)
              (λ end s2 w. conclude-Leaves plan v.effective_ids end s2 w))

    resume_validated-Leaves :
        (s : Session W) → Leaves s ResultLeaves (resume_validated services plan v)
    unfolding resume_validated
    resume_validated-Leaves s = record {
      on =
          (Leaves-bind s (LoopLeaves services plan v.effective_ids) ResultLeaves
            (resume_loop services plan v.effective_ids v.order v.order (record {
              completed = length (keep (λ t. is_passed t.status) s.state.tasks);
              commits = [];
            }))
            (conclude services plan)
            (resume_loop-Leaves services plan v.effective_ids v.order v.order _ s)
            (λ end s2 w. conclude-Leaves plan v.effective_ids end s2 w)).on;
    }

  validated-Leaves :
      (plan : ExecutionPlan) (r : Checked ValidatedPlan)
      (f : ValidatedPlan → Action W PlanRunResult) (s : Session W)
      → ((v : ValidatedPlan) (s' : Session W) → Leaves s' ResultLeaves (f v))
      → Leaves s ResultLeaves (validated r >>= f)
  validated-Leaves plan r f s h = Leaves-then s ResultLeaves (validated r) f h

  run_created-Leaves :
      (plan : ExecutionPlan) (source : PlanSource) (s : Session W)
      → Leaves s ResultLeaves (run_created services plan source)
  unfolding run_created
  run_created-Leaves plan source s = record {
    on =
        (Leaves-then (record s { state = with_source source s.state }) ResultLeaves save
          (λ _.
            write_file
            >> (validated (validate_plan plan (some (task_ids_from 1 plan.tasks)))
                >>= run_validated services plan))
          (λ _ s1.
            Leaves-then s1 ResultLeaves write_file
              (λ _.
                validated (validate_plan plan (some (task_ids_from 1 plan.tasks)))
                >>= run_validated services plan)
              (λ _ s2.
                validated-Leaves plan (validate_plan plan (some (task_ids_from 1 plan.tasks)))
                  (run_validated services plan) s2 (λ v s'. run_validated-Leaves plan v s')))).on;
  }

  resume_plan-Leaves :
      (saved_plan : Option ExecutionPlan) (s : Session W)
      → Leaves s ResultLeaves (resume_plan services saved_plan)
  unfolding resume_plan
  resume_plan-Leaves none s = Leaves-raise s ResultLeaves (external no_plan_message)
  resume_plan-Leaves (some plan) s = record {
    on =
        (Leaves-then s ResultLeaves
          (raise_if (not (length plan.tasks == length s.state.tasks)) task_count_mismatch)
          (λ _.
            validated (validate_plan plan (some (map (λ t. t.id) s.state.tasks)))
            >>= resume_validated services plan)
          (λ _ s1.
            validated-Leaves plan (validate_plan plan (some (map (λ t. t.id) s.state.tasks)))
              (resume_validated services plan) s1 (λ v s'. resume_validated-Leaves plan v s'))).on;
  }

  resume_on-Leaves :
      (branch : Option Text) (saved_plan : Option ExecutionPlan) (s : Session W)
      → Leaves s ResultLeaves (resume_on services branch saved_plan)
  unfolding resume_on
  resume_on-Leaves none saved_plan s = Leaves-raise s ResultLeaves no_agent_branch
  resume_on-Leaves (some branch) saved_plan s =
      Leaves-then s ResultLeaves (raise_if (is_empty branch) no_agent_branch)
        (λ _.
          outside services.assert_clean
          >> outside (services.switch_branch branch)
          >> resume_plan services saved_plan)
        (λ _ s1.
          Leaves-then s1 ResultLeaves (outside services.assert_clean)
            (λ _. outside (services.switch_branch branch) >> resume_plan services saved_plan)
            (λ _ s2.
              Leaves-then s2 ResultLeaves (outside (services.switch_branch branch))
                (λ _. resume_plan services saved_plan) (λ _ s3. resume_plan-Leaves saved_plan s3)))

  -- A resumed run that returns a task to wait for leaves a saved run that waits for approval and
  -- names that task, which waits.
  pub resume_execution_plan-WaitingOn :
      (saved_plan : Option ExecutionPlan) (s : Session W) (r : PlanRunResult) (id : Text)
      → (resume_execution_plan services saved_plan s).0 ≡ returns r
      → r.waiting_task_id ≡ some id
      → WaitingOn id (resume_execution_plan services saved_plan s).1
  unfolding resume_execution_plan
  resume_execution_plan-WaitingOn saved_plan s r id returned waits =
      (Leaves-then s ResultLeaves (raise_if (not (is_resumable s.state.status)) not_resumable)
          (λ _ s1. resume_on services s1.state.agent_branch saved_plan s1)
          (λ _ s1. record { on = (resume_on-Leaves s1.state.agent_branch saved_plan s1).on })).on
        r returned id waits

  -- A new run that returns a task to wait for leaves a saved run that waits for approval and names
  -- that task, which waits.
  pub run_execution_plan-WaitingOn :
      (existing : List Text) (plan : ExecutionPlan) (source : PlanSource) (run_id : Text)
      (disk : ℕ → Option Text) (w : W) (r : PlanRunResult) (s' : Session W) (id : Text)
      → run_execution_plan services existing plan source run_id disk w ≡ some (returns r, s')
      → r.waiting_task_id ≡ some id
      → WaitingOn id s'
  unfolding run_execution_plan create_run
  run_execution_plan-WaitingOn existing plan source run_id disk w r s' id ran waits =
      elim (Bool-cases (text_in run_id existing)) [
        | inl exists ↦ absurd (ground arith)
        | inr new ↦
            let left : Outcome PlanRunResult × Session W = (returns r, s') in
            let e =
              ap (λ o. elim o [ none ↦ left | some x ↦ x ]) (rw (new, run_execution_plan) at ran) in
            subst (WaitingOn id) (ap (λ x. x.1) e) (
              (Leaves-then (new_session run_id plan.request disk w) ResultLeaves save
                  (λ _. run_created services plan source)
                  (λ _ s. run_created-Leaves plan source s)).on
                r (ap (λ x. x.0) e) id waits)
      ]
