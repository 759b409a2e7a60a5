-- ===== src/Checkpointed/Commit.antt =====
-- The commit that the checkpointed executor reports, against its success.
use local_ai_workestra.Base.{
  ℕ, ◌≡◌, refl, Bool, true, false, Option, none, some, if◌then◌else◌, is_some, Text, codes, ◌++◌,
  ◌∷◌,
}
use local_ai_workestra.Plan.{PlanTask}
use local_ai_workestra.Run.{failed, checkpoint_failed}
use local_ai_workestra.Manager.{update_task}
use local_ai_workestra.Session.{
  Session, git_error, Outcome, returns, raises, Action, ◌>>=◌, attempt,
}
use local_ai_workestra.Session.Binds.{Returns, Returns-pure, Returns-raise, Returns-bind}
use local_ai_workestra.Runner.{outside, record_event}
use local_ai_workestra.Tracked.{TaskExecutionResult, execute_tracked_task}
use local_ai_workestra.Checkpointed.{Agents, failed_result, set_attempts}
use local_ai_workestra.Checkpointed.Security.{security_stage}
use local_ai_workestra.Checkpointed.Execute.{
  after_tracked, optimization_stage, after_checkpoint, checkpoint_stage, record_commit,
  execute_checkpointed_task,
}

abbrev pub Committed : TaskExecutionResult × Option Text → Type 0
Committed (result, commit) = result.passed ≡ is_some commit

abbrev pub Reported : Bool × Option Text → Type 0
Reported (good, commit) = good ≡ is_some commit

abbrev pub Anything : {A : Type 0} → A → Type 0
Anything a = Unit {0}

module _ {W : Type 0} where
  pub Returns-any : {A : Type 0} (m : Action W A) → Returns Anything m
  Returns-any m = record { on = λ s a e. tt }

  -- After an action whatever it returns.
  pub then_Returns :
      {A B : Type 0} (Q : B → Type 0) (m : Action W A) (f : A → Action W B)
      → ((a : A) → Returns Q (f a))
      → Returns Q (m >>= f)
  then_Returns Q m f qf = Returns-bind Anything Q m f (Returns-any m) (λ a _. qf a)

  pub Returns-if :
      {A : Type 0} (Q : A → Type 0) (b : Bool) (m k : Action W A)
      → (b ≡ true → Returns Q m)
      → (b ≡ false → Returns Q k)
      → Returns Q (if b then m else k)
  Returns-if Q true m k qm qk = qm refl
  Returns-if Q false m k qm qk = qk refl

  module _ (agents : Agents W) where
    after_checkpoint-Committed :
        (id : Text) (result : TaskExecutionResult) (r : Outcome Text)
        → result.passed ≡ true
        → Returns Committed (after_checkpoint agents id result r)
    unfolding after_checkpoint
    after_checkpoint-Committed id result (returns commit) h =
        Returns-pure Committed (result, some commit) h
    after_checkpoint-Committed id result (raises (git_error e)) h =
        let error = codes "Checkpoint failed: " ++ e in
        then_Returns Committed (update_task id failed (some error)) _ (λ _.
          then_Returns Committed (outside agents.rollback) _ (λ _.
            then_Returns Committed (record_event id checkpoint_failed (some false) (some error)) _
              (λ _. Returns-pure Committed (failed_result error result, none) refl)))
    after_checkpoint-Committed id result (raises e) h = Returns-raise Committed e

    checkpoint_stage-Committed :
        (task : PlanTask) (id : Text) (result : TaskExecutionResult)
        → Returns Committed (checkpoint_stage agents task id result)
    unfolding checkpoint_stage
    checkpoint_stage-Committed task id result =
        Returns-if Committed result.passed _ _
          (λ good.
            then_Returns Committed
              (attempt
                (outside (agents.checkpoint (codes "agent: " ++ id ++ 32 ∷ task.description))))
              (after_checkpoint agents id result)
              (λ r. after_checkpoint-Committed id result r good))
          (λ bad.
            then_Returns Committed (outside agents.rollback) _
              (λ _. Returns-pure Committed (result, none) bad))

    execute_checkpointed_task-Reported :
        (limit : ℕ) (id : Text) (task : PlanTask)
        → Returns Reported (execute_checkpointed_task agents limit id task)
    unfolding execute_checkpointed_task
    execute_checkpointed_task-Reported limit id task =
        then_Returns Reported (outside agents.assert_clean) _ (λ _.
          then_Returns Reported
            (attempt (
              execute_tracked_task agents.text
                (agents.execute_task_with_retries task task.description) id task.description))
            _
            (λ r. then_Returns Reported (after_tracked agents r) _ (λ tracked.
              then_Returns Reported (security_stage agents limit task id tracked) _
                (λ (reviewed : TaskExecutionResult).
                  then_Returns Reported (set_attempts id reviewed.attempts) _ (λ _.
                    then_Returns Reported (optimization_stage agents task id reviewed) _
                      (λ optimized.
                        Returns-bind Committed Reported (checkpoint_stage agents task id optimized)
                          _ (checkpoint_stage-Committed task id optimized)
                          (λ (result, c) committed.
                            then_Returns Reported (record_commit agents id (result, c)) _ (λ _.
                              then_Returns Reported (outside (agents.write_metrics id result c)) _
                                (λ _. Returns-pure Reported (result.passed, c) committed)))))))))

    -- An execution that returns reports success exactly when it reports a commit.
    pub execute_checkpointed_task-is_some :
        (limit : ℕ) (id : Text) (task : PlanTask) (s : Session W) (good : Bool)
        (commit : Option Text)
        → (execute_checkpointed_task agents limit id task s).0 ≡ returns (good, commit)
        → good ≡ is_some commit
    execute_checkpointed_task-is_some limit id task s good commit h =
        (execute_checkpointed_task-Reported limit id task).on s (good, commit) h
