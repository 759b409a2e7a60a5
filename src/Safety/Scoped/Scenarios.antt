-- ===== src/Safety/Scoped/Scenarios.antt =====
-- A documentation task with a scope, executed with the retry loop of the small workspace.
use local_ai_workestra.Base.{ℕ, Bool, [], ◌∷◌, Text, codes, Option}
use local_ai_workestra.Checkpointed.{Agents}
use local_ai_workestra.Checkpointed.Execute.{execute_checkpointed_task}
use local_ai_workestra.Safety.Scoped.{with_retries}
use local_ai_workestra.Plan.{PlanTask, docs}
use local_ai_workestra.Session.{Session, Outcome}
use local_ai_workestra.Validation.Scenarios.{a_task}
use local_ai_workestra.TaskExecutor.Scenarios.{changing}
use local_ai_workestra.Safety.Scenarios.{agents, interrupted}

abbrev scoped_task : PlanTask
scoped_task = record (a_task (codes "b") docs []) {
  primary_scope = codes "src" ∷ [];
  forbidden_scope = codes "ci" ∷ [];
}

abbrev joined : Agents ℕ
joined = with_retries (changing (codes "src/a.py")) (codes "pytest" ∷ []) 1 agents

abbrev scoped_run : Outcome (Bool × Option Text) × Session ℕ
scoped_run = execute_checkpointed_task joined 1 (codes "task-002") scoped_task interrupted
