-- ===== src/Checkpointed/Execute.antt =====
-- src/local_agent_orchestrator/services/checkpointed_executor.py: the optimization review, the
-- checkpoint and the whole of `execute_checkpointed_task`.
use local_ai_workestra.Base.{
  ℕ, Bool, true, false, ◌&&◌, Option, none, some, ◌∷◌, ◌++◌, if◌then◌else◌, Text, codes,
}
use local_ai_workestra.Plan.{PlanTask}
use local_ai_workestra.Run.{failed, checkpoint_failed, checkpoint_created}
use local_ai_workestra.Session.{
  git_error, Outcome, returns, raises, Action, ◌>>=◌, ◌>>◌, pure, raise, attempt,
}
use local_ai_workestra.Manager.{update_task}
use local_ai_workestra.Runner.{record_event, outside, joined}
use local_ai_workestra.Tracked.{TaskExecutionResult, execute_tracked_task}
use local_ai_workestra.Checkpointed.{Agents, failed_result, set_attempts}
use local_ai_workestra.Checkpointed.Security.{fail_post_edit_review, security_stage}

module _ {W : Type 0} (agents : Agents W) where
  -- After the optimization review, whose text only the metrics keep.
  unfoldable pub after_optimization :
      Text → TaskExecutionResult → Outcome Text → Action W TaskExecutionResult
  after_optimization id result (returns _) = pure result
  after_optimization id result (raises e) = fail_post_edit_review agents id result e

  unfoldable pub optimization_stage :
      PlanTask → Text → TaskExecutionResult → Action W TaskExecutionResult
  optimization_stage task id result =
      if result.passed && agents.requires_optimization_review task.description result.changed_files
      then (attempt (outside (agents.run_optimization_review task.description result.changed_files))
          >>= after_optimization id result)
      else pure result

  -- After the checkpoint: a Git error fails the task and rolls back.
  unfoldable pub after_checkpoint :
      Text → TaskExecutionResult → Outcome Text → Action W (TaskExecutionResult × Option Text)
  after_checkpoint id result (returns commit) = pure (result, some commit)
  after_checkpoint id result (raises (git_error e)) = do
    let error = codes "Checkpoint failed: " ++ e
    update_task id failed (some error)
    outside agents.rollback
    record_event id checkpoint_failed (some false) (some error)
    pure (failed_result error result, none)
  after_checkpoint id result (raises e) = raise e

  -- A passed task is committed, any other is rolled back.
  unfoldable pub checkpoint_stage :
      PlanTask → Text → TaskExecutionResult → Action W (TaskExecutionResult × Option Text)
  checkpoint_stage task id result =
      if result.passed
      then (attempt (outside (agents.checkpoint (codes "agent: " ++ id ++ 32 ∷ task.description)))
          >>= after_checkpoint id result)
      else (outside agents.rollback >> pure (result, none))

  unfoldable pub record_commit : Text → TaskExecutionResult × Option Text → Action W (Unit {0})
  record_commit id (result, none) = pure tt
  record_commit id (result, some commit) = record_event id checkpoint_created (some true) (
      some (
        codes "commit="
        ++ commit
        ++ codes "; changed_files="
        ++ joined (codes ",") result.changed_files))

  -- After the tracked task: an exception rolls back and is raised again.
  unfoldable pub after_tracked : Outcome TaskExecutionResult → Action W TaskExecutionResult
  after_tracked (returns result) = pure result
  after_tracked (raises e) = outside agents.rollback >> raise e

  -- `execute_checkpointed_task`, for a `security_fix_limit`.
  unfoldable pub execute_checkpointed_task : ℕ → Text → PlanTask → Action W (Bool × Option Text)
  execute_checkpointed_task limit id task = do
    outside agents.assert_clean
    r ← attempt (
        execute_tracked_task agents.text (agents.execute_task_with_retries task task.description) id
          task.description)
    tracked ← after_tracked r
    reviewed ← security_stage agents limit task id tracked
    set_attempts id reviewed.attempts
    optimized ← optimization_stage task id reviewed
    (result, commit) ← checkpoint_stage task id optimized
    record_commit id (result, commit)
    outside (agents.write_metrics id result commit)
    pure (result.passed, commit)
