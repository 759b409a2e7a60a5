-- ===== src/Safety/Scoped/Recorded.antt =====
-- What the checkpointed executor records at the end.
use local_ai_workestra.Base.{ℕ, ◌≡◌, Bool, true, Option, List, [], Text}
use local_ai_workestra.Plan.{PlanTask}
use local_ai_workestra.Session.{Session, Outcome, returns, raises, Action}
use local_ai_workestra.Tracked.{TaskExecutionResult}
use local_ai_workestra.TaskExecutor.{scope_of, scope_enabled, Workbench}
use local_ai_workestra.Checkpointed.{Agents}
use local_ai_workestra.Safety.Scoped.{with_retries, IsBounded}
use local_ai_workestra.TaskExecutor.Bounded.{is_bounded}

module _ {W : Type 0} where
  -- A condition on what an action returns, with the session that it leaves.
  abbrev EndsAt : {A : Type 0} → (A → Session W → Type 0) → Outcome A × Session W → Type 0
  EndsAt Q (returns a, s) = Q a s
  EndsAt Q (raises e, s) = Unit

  record Ends {A : Type 0} (Q : A → Session W → Type 0) (m : Action W A) : Type 0 where
    on : (s : Session W) → EndsAt Q (m s)

  module _ (agents : Agents W) (forbidden : List Text) (id : Text) where
    -- The metrics that were written last are those of a result with this success, and a success has
    -- changed no forbidden file.
    pub record IsRecorded (report : Bool × Option Text) (s : Session W) : Type 0 where
      pub result : TaskExecutionResult
      pub reported : result.passed ≡ report.0
      pub bounded : report.0 ≡ true → is_bounded forbidden result.changed_files ≡ true
      pub before : W
      pub wrote : agents.write_metrics id result report.1 before ≡ (returns tt, s.world)

    abbrev FirstBounded : {A : Type 0} → TaskExecutionResult × A → Type 0
    FirstBounded (result, a) = IsBounded forbidden result

  module _ (bench : Workbench W) (test_command : List Text) (retry_limit : ℕ) (agents : Agents W)
      (task : PlanTask)
      (enabled : scope_enabled
          (scope_of task.primary_scope task.discouraged_scope task.forbidden_scope [])
        ≡ true) where
    abbrev joined_agents : Agents W
    joined_agents = with_retries bench test_command retry_limit agents
