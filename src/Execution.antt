-- ===== src/Execution.antt =====
-- `_run_execution_plan` (src/local_agent_orchestrator/services/plan_runner.py) and
-- `_resume_execution_plan` with the guard of `resume_execution_plan`
-- (src/local_agent_orchestrator/services/resume.py), from the plan to the result.
use local_ai_workestra.Base.{
  ℕ, Bool, true, false, not, ◌&&◌, Option, none, some, List, [], ◌∷◌, map, ◌==◌, Text, codes,
  is_empty, length, keep, ok, err,
}
use local_ai_workestra.Plan.{PlanTask, ExecutionPlan, task_ids_from}
use local_ai_workestra.Run.{TaskStatus, pending, running, is_passed, RunState}
use local_ai_workestra.Session.{
  returns, raises, Session, external, invalid_plan, not_resumable, no_agent_branch,
  task_count_mismatch, Outcome, Action, ◌>>=◌, ◌>>◌, pure, raise, raise_if, gets, modify, save,
  write_file,
}
use local_ai_workestra.Manager.{create_run, add_task}
use local_ai_workestra.Validation.{Checked, ValidatedPlan, validate_plan}
use local_ai_workestra.Runner.{Services, LoopEnd, finished, waiting, Progress, outside}
use local_ai_workestra.Loop.{run_loop, resume_loop, finalize_plan_run}

pub record PlanRunResult : Type 0 where
  pub passed : Bool
  pub completed_tasks : ℕ
  pub total_tasks : ℕ
  pub commits : List Text
  pub finalized : Bool  -- the paths of the analytics and of the retrospective are there
  pub waiting_task_id : Option Text

-- The arguments of `run_execution_plan` that the state keeps.
pub record PlanSource : Type 0 where
  pub plan_id : Option Text
  pub compiled_revision : Option ℕ
  pub compiled_digest : Option Text
  pub source_digest : Option Text

-- The assignments of the arguments to the state.
abbrev pub with_source : PlanSource → RunState → RunState
with_source source state = record state {
  plan_id = source.plan_id;
  compiled_revision = source.compiled_revision;
  compiled_digest = source.compiled_digest;
  source_digest = source.source_digest;
}

abbrev pub is_resumable : TaskStatus → Bool
is_resumable pending = true
is_resumable running = true
is_resumable _ = false

pub no_plan_message : Text
no_plan_message = codes "Saved plan not found."

module _ {W : Type 0} where
  -- `_validated_plan`
  unfoldable pub validated : Checked ValidatedPlan → Action W ValidatedPlan
  validated (ok v) = pure v
  validated (err e) = raise (invalid_plan e)

  -- `[manager.add_task(state, task.description, task.verification) for task in plan.tasks]`
  unfoldable pub add_tasks : List PlanTask → Action W (Unit {0})
  add_tasks [] = pure tt
  add_tasks (task ∷ tasks) = do add_task task.description task.verification; add_tasks tasks

  module _ (services : Services W) where
    -- From the end of the loop to the result: a wait returns at once, else the run is finalized.
    unfoldable pub conclude : ExecutionPlan → LoopEnd × Progress → Action W PlanRunResult
    conclude plan (waiting id, p) = pure (record {
      passed = false;
      completed_tasks = p.completed;
      total_tasks = length plan.tasks;
      commits = p.commits;
      finalized = false;
      waiting_task_id = some id;
    })
    conclude plan (finished all_passed, p) = do
      (run_passed, finalized) ←
          finalize_plan_run services (all_passed && p.completed == length plan.tasks)
      pure (record {
        passed = run_passed;
        completed_tasks = p.completed;
        total_tasks = length plan.tasks;
        commits = p.commits;
        finalized = finalized;
        waiting_task_id = none;
      })

    -- The branches, and the tasks of the run.
    unfoldable pub prepare_run : ExecutionPlan → Action W (Unit {0})
    prepare_run plan = do
      outside services.assert_clean
      base ← outside services.current_branch
      run_id ← gets (λ state. state.run_id)
      agent ← outside (services.create_agent_branch run_id)
      modify (λ state. record state { base_branch = some base; agent_branch = some agent })
      save
      add_tasks plan.tasks

    -- A new run of a validated plan.
    unfoldable pub run_validated : ExecutionPlan → ValidatedPlan → Action W PlanRunResult
    run_validated plan v = do
      prepare_run plan
      end ←
          run_loop services plan v.effective_ids v.order v.order
            (record { completed = 0; commits = [] })
      conclude plan end

    -- A new run, in the session that `create_run` made.
    unfoldable pub run_created : ExecutionPlan → PlanSource → Action W PlanRunResult
    run_created plan source = do
      modify (with_source source)
      save
      write_file  -- plan.json
      v ← validated (validate_plan plan (some (task_ids_from 1 plan.tasks)))
      run_validated plan v

    -- `_run_execution_plan`, given the run directories that exist; `none` is `FileExistsError`.
    unfoldable pub run_execution_plan :
        List Text
        → ExecutionPlan
        → PlanSource
        → Text
        → (ℕ → Option Text)
        → W
        → Option (Outcome PlanRunResult × Session W)
    run_execution_plan existing plan source run_id disk w =
        elim (create_run existing run_id plan.request disk w) [
          | none ↦ none
          | some (r, session) ↦ some (elim r [
            | returns _ ↦ run_created plan source session
            | raises e ↦ (raises e, session)
          ])
        ]

    -- The loop and the end of a resumed run.
    unfoldable pub resume_validated : ExecutionPlan → ValidatedPlan → Action W PlanRunResult
    resume_validated plan v = do
      tasks ← gets (λ state. state.tasks)
      end ←
          resume_loop services plan v.effective_ids v.order v.order
            (record { completed = length (keep (λ t. is_passed t.status) tasks); commits = [] })
      conclude plan end

    -- A resumed run, on its saved plan.
    unfoldable pub resume_plan : Option ExecutionPlan → Action W PlanRunResult
    resume_plan none = raise (external no_plan_message)
    resume_plan (some plan) = do
      tasks ← gets (λ state. state.tasks)
      raise_if (not (length plan.tasks == length tasks)) task_count_mismatch
      v ← validated (validate_plan plan (some (map (λ t. t.id) tasks)))
      resume_validated plan v

    -- The agent branch, and then the plan.
    unfoldable pub resume_on : Option Text → Option ExecutionPlan → Action W PlanRunResult
    resume_on none saved_plan = raise no_agent_branch
    resume_on (some branch) saved_plan = do
      raise_if (is_empty branch) no_agent_branch
      outside services.assert_clean
      outside (services.switch_branch branch)
      resume_plan saved_plan

    -- `_resume_execution_plan` behind the guard of its caller, on the loaded run and its saved plan.
    unfoldable pub resume_execution_plan : Option ExecutionPlan → Action W PlanRunResult
    resume_execution_plan saved_plan = do
      status ← gets (λ state. state.status)
      raise_if (not (is_resumable status)) not_resumable
      branch ← gets (λ state. state.agent_branch)
      resume_on branch saved_plan
