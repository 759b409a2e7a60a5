-- ===== src/Safety/Scoped.antt =====
-- The checkpointed executor with the retry loop in place: what a commit contains.
pub mod Loop
pub mod Stages
pub mod Recorded
mod Scenarios
use local_ai_workestra.Base.{
  ℕ, zero, suc, ◌≡◌, refl, Bool, true, false, not, ◌&&◌, ◌||◌, Option, none, some, List, [], ◌∷◌,
  ◌++◌, map, all, is_empty, Text, codes, text_in, arith, if◌then◌else◌, Bool-cases, inl, inr, sym,
  ap, ◌∙◌,
}
use local_ai_workestra.ScopeReview.{TaskScope}
use local_ai_workestra.Plan.{PlanTask}
use local_ai_workestra.Run.{running, failed, task_started}
use local_ai_workestra.Session.{
  Session, RunError, Outcome, returns, raises, Action, ◌>>=◌, ◌>>◌, pure, attempt, modify,
}
use local_ai_workestra.Session.Binds.{Returns, Returns-pure, Returns-bind}
use local_ai_workestra.Manager.{update_task}
use local_ai_workestra.Runner.{record_event, outside}
use local_ai_workestra.Scope.{
  path_matches, is_forbidden_path, ScopeClassification, with_path, classify_changed_files,
}
use local_ai_workestra.Tracked.{
  TaskExecutionResult, Emitted, assign_attempts, emit_all, call_with_events, finish_tracked,
  after_execution, execute_tracked_task,
}
use local_ai_workestra.Work.{Desk, Result, done, fault}
use local_ai_workestra.TaskExecutor.{
  TaskCall, scope_of, scope_enabled, scope_classification, Workbench,
}
use local_ai_workestra.TaskExecutor.Execute.{
  execute_task_with_retries, outcome_of, emitted, retries,
}
use local_ai_workestra.TaskExecutor.Verdict.{IsAccepted}
use local_ai_workestra.TaskExecutor.Whole.{execute_task_with_retries-IsAccepted}
use local_ai_workestra.TaskExecutor.Bounded.{is_bounded}
use local_ai_workestra.Checkpointed.{
  SecurityFinding, Agents, distinct, distinct_from, merged, failed_result, is_blocked_by,
  without_events, set_attempts,
}
use local_ai_workestra.Checkpointed.Security.{
  give_up, fail_post_edit_review, after_fix_review, after_fix, security_rounds, security_fix_prompt,
  after_first_review, settle_security, review_security, security_stage,
}
use local_ai_workestra.Checkpointed.Execute.{
  after_tracked, after_optimization, optimization_stage, after_checkpoint, checkpoint_stage,
  record_commit, execute_checkpointed_task,
}
use local_ai_workestra.Checkpointed.Commit.{Anything, Returns-any, then_Returns, Returns-if}

-- The call of `execute_task_with_retries` for a task of the plan, without `file_boundaries`.
unfoldable pub call_of : List Text → ℕ → PlanTask → Text → TaskCall
call_of test_command retry_limit task prompt = record {
  task = prompt;
  test_command = test_command;
  retry_limit = retry_limit;
  scope = scope_of task.primary_scope task.discouraged_scope task.forbidden_scope [];
}

-- The executor calls the retry loop itself.
unfoldable pub with_retries : {W : Type 0} → Workbench W → List Text → ℕ → Agents W → Agents W
with_retries bench test_command retry_limit agents = record agents {
  execute_task_with_retries =
      λ task prompt. retries bench (call_of test_command retry_limit task prompt);
}

is_bounded-append :
    (forbidden xs ys : List Text)
    → is_bounded forbidden xs ≡ true
    → is_bounded forbidden ys ≡ true
    → is_bounded forbidden (xs ++ ys) ≡ true
is_bounded-append forbidden [] ys h k = k
is_bounded-append forbidden (x ∷ xs) ys h k =
    let rest = is_bounded-append forbidden xs ys (ground arith) k in ground arith

is_bounded-distinct_from :
    (forbidden seen files : List Text)
    → is_bounded forbidden files ≡ true
    → is_bounded forbidden (distinct_from seen files) ≡ true
unfolding distinct_from
is_bounded-distinct_from forbidden seen [] h = refl
is_bounded-distinct_from forbidden seen (x ∷ files) h =
    let skipped = is_bounded-distinct_from forbidden seen files (ground arith) in
    let kept = is_bounded-distinct_from forbidden (x ∷ seen) files (ground arith) in ground arith

-- What a result that passed says it changed.
pub record IsBounded (forbidden : List Text) (result : TaskExecutionResult) : Type 0 where
  pub bounded : result.passed ≡ true → is_bounded forbidden result.changed_files ≡ true

pub IsBounded-merged :
    (forbidden : List Text) (result fix : TaskExecutionResult)
    → IsBounded forbidden result
    → IsBounded forbidden fix
    → IsBounded forbidden (merged result fix)
unfolding merged distinct
IsBounded-merged forbidden result fix h k = record {
  bounded = λ good.
      is_bounded-distinct_from forbidden [] (result.changed_files ++ fix.changed_files) (
        is_bounded-append forbidden result.changed_files fix.changed_files
          (h.bounded (ground arith)) (k.bounded (ground arith)));
}
