-- ===== src/Safety/Checkpoint.antt =====
-- The tasks that the checkpointed executor reaches: its reviews, its checkpoint, its rollbacks.
use local_ai_workestra.Base.{
  ℕ, zero, suc, ◌+◌, true, false, ◌&&◌, Option, none, some, List, [], ◌∷◌, ◌++◌, Text, codes,
}
use local_ai_workestra.Plan.{PlanTask, task_id}
use local_ai_workestra.Run.{
  post_edit_review_failed, rollback, checkpoint_failed, checkpoint_created,
}
use local_ai_workestra.Session.{RunError, git_error, Outcome, returns, raises, Action, ◌>>=◌, pure}
use local_ai_workestra.Runner.{Services, joined}
use local_ai_workestra.Tracked.{TaskExecutionResult}
use local_ai_workestra.Checkpointed.{
  SecurityFinding, Agents, failed_result, merged, is_blocked_by, without_events,
}
use local_ai_workestra.Checkpointed.Security.{
  current_files, security_fix_prompt, after_review_rollback, fail_post_edit_review,
  after_fix_review, after_fix, security_rounds, after_first_review, settle_security,
  review_security, security_stage,
}
use local_ai_workestra.Checkpointed.Execute.{
  after_optimization, optimization_stage, after_checkpoint, checkpoint_stage, record_commit,
  after_tracked, execute_checkpointed_task,
}
use local_ai_workestra.Safety.Kept.{Keeps, Keeps-bind, Keeps-pure, Keeps-raise, Keeps-record_event}
use local_ai_workestra.Safety.Attempt.{ReachesItsTask, Keeps-if, Keeps-outside}
use local_ai_workestra.Safety.Executor.{
  Keeps-attempt, Keeps-fail_with, Keeps-set_attempts, Keeps-execute_tracked_task,
}

-- The result of the reviews, with the findings.
abbrev Reviewed : Type 0
Reviewed = TaskExecutionResult × Option (List SecurityFinding)

module _ {W : Type 0} (agents : Agents W) (j : ℕ) where
  Keeps-after_review_rollback :
      (error : Text) (r : Outcome (Unit {0}))
      → Keeps {W = W} j (after_review_rollback agents (task_id (1 + j)) error r)
  unfolding after_review_rollback
  Keeps-after_review_rollback error (returns _) =
      Keeps-record_event j (task_id (1 + j)) rollback (some true)
        (some (codes "Rolled back post-edit review failure."))
  Keeps-after_review_rollback error (raises (git_error e)) =
      Keeps-fail_with j (error ++ codes " Rollback failed: " ++ e)
  Keeps-after_review_rollback error (raises e) = Keeps-raise (Unit {0}) j e

  Keeps-fail_post_edit_review :
      (result : TaskExecutionResult) (e : RunError)
      → Keeps j (fail_post_edit_review agents (task_id (1 + j)) result e)
  unfolding fail_post_edit_review
  Keeps-fail_post_edit_review result e =
      let error =
        codes "Post-edit review failed: " ++ agents.type_name e ++ codes ": " ++ agents.text e in
      Keeps-bind j _ _ (Keeps-fail_with j error) (λ _.
        Keeps-bind j _ _
          (Keeps-record_event j (task_id (1 + j)) post_edit_review_failed (some false) (some error))
          (λ _. Keeps-bind j _ _ (Keeps-attempt j _ (Keeps-outside j agents.rollback)) (λ r.
            Keeps-bind j _ _ (Keeps-after_review_rollback error r)
              (λ _. Keeps-pure j (failed_result error result)))))

  Keeps-give_up :
      (result : TaskExecutionResult) (review : Option (List SecurityFinding)) (e : RunError)
      → Keeps {A = Reviewed} j (
          fail_post_edit_review agents (task_id (1 + j)) result e >>= λ result'.
          pure (result', review))
  Keeps-give_up result review e =
      Keeps-bind j _ _ (Keeps-fail_post_edit_review result e)
        (λ result'. Keeps-pure j (result', review))

  Keeps-current_files : (paths : List Text) → Keeps j (current_files agents paths)
  unfolding current_files
  Keeps-current_files [] = Keeps-pure j []
  Keeps-current_files (path ∷ paths) =
      Keeps-bind j _ _ (Keeps-outside j (agents.read_file path))
        (λ content. Keeps-bind j _ _ (Keeps-current_files paths) (λ rest. Keeps-pure j _))

  Keeps-security_fix_prompt :
      (task : Text) (findings : List SecurityFinding) (files : List Text)
      → Keeps j (security_fix_prompt agents task findings files)
  unfolding security_fix_prompt
  Keeps-security_fix_prompt task findings files =
      Keeps-bind j _ _ (Keeps-current_files files) (λ _. Keeps-pure j _)

  module _ (task : PlanTask)
      (rest : TaskExecutionResult → Option (List SecurityFinding) → Action W Reviewed)
      (ih : (result : TaskExecutionResult) (review : Option (List SecurityFinding))
        → Keeps j (rest result review)) where
    Keeps-after_fix_review :
        (result : TaskExecutionResult) (review : Option (List SecurityFinding))
        (r : Outcome (List SecurityFinding))
        → Keeps j (after_fix_review agents task (task_id (1 + j)) rest result review r)
    unfolding after_fix_review
    Keeps-after_fix_review result review (returns findings) = ih result (some findings)
    Keeps-after_fix_review result review (raises e) = Keeps-give_up result review e

    Keeps-after_fix :
        (result : TaskExecutionResult) (review : Option (List SecurityFinding))
        (r : Outcome TaskExecutionResult)
        → Keeps j (after_fix agents task (task_id (1 + j)) rest result review r)
    unfolding after_fix
    Keeps-after_fix result review (raises e) = Keeps-give_up result review e
    Keeps-after_fix result review (returns fix) =
        Keeps-if j fix.passed _ _
          (Keeps-bind j _ _
            (Keeps-attempt j _ (
              Keeps-outside j
                (agents.run_security_review task.description (merged result fix).changed_files)))
            (λ r. Keeps-after_fix_review (merged result fix) review r))
          (Keeps-bind j _ _ (Keeps-fail_with j (codes "Security fix failed tests."))
            (λ _. Keeps-pure j (merged result fix, review)))

  Keeps-security_rounds :
      (task : PlanTask) (n : ℕ) (result : TaskExecutionResult)
      (review : Option (List SecurityFinding))
      → Keeps j (security_rounds agents task (task_id (1 + j)) n result review)
  unfolding security_rounds
  Keeps-security_rounds task zero result review = Keeps-pure j (result, review)
  Keeps-security_rounds task (suc n) result none = Keeps-pure j (result, none)
  Keeps-security_rounds task (suc n) result (some findings) =
      Keeps-if j (is_blocked_by result (some findings)) _ _
        (Keeps-bind j _ _
          (Keeps-attempt j _ (
            Keeps-bind j _ _
              (Keeps-security_fix_prompt task.description findings result.changed_files)
              (λ prompt.
                Keeps-outside j (without_events (agents.execute_task_with_retries task prompt)))))
          (λ r.
            Keeps-after_fix task (security_rounds agents task (task_id (1 + j)) n)
              (Keeps-security_rounds task n) result (some findings) r))
        (Keeps-pure j (result, some findings))

  Keeps-after_first_review :
      (result : TaskExecutionResult) (r : Outcome (List SecurityFinding))
      → Keeps j (after_first_review agents (task_id (1 + j)) result r)
  unfolding after_first_review
  Keeps-after_first_review result (returns findings) = Keeps-pure j (result, some findings)
  Keeps-after_first_review result (raises e) = Keeps-give_up result none e

  Keeps-settle_security :
      (reviewed : Reviewed) → Keeps {W = W} j (settle_security agents (task_id (1 + j)) reviewed)
  unfolding settle_security
  Keeps-settle_security (result, review) =
      Keeps-if j (is_blocked_by result review) _ _
        (Keeps-bind j _ _ (Keeps-fail_with j (codes "Blocking security findings remain."))
          (λ _. Keeps-pure j (record result { passed = false })))
        (Keeps-pure j result)

  Keeps-security_stage :
      (limit : ℕ) (task : PlanTask) (result : TaskExecutionResult)
      → Keeps j (security_stage agents limit task (task_id (1 + j)) result)
  unfolding security_stage review_security
  Keeps-security_stage limit task result =
      Keeps-if j
        (result.passed && agents.requires_security_review task.description result.changed_files) _ _
        (Keeps-bind j _ _
          (Keeps-attempt j _
            (Keeps-outside j (agents.run_security_review task.description result.changed_files)))
          (λ r. Keeps-bind j _ _ (Keeps-after_first_review result r) (λ (result', review).
            Keeps-bind j _ _ (Keeps-security_rounds task limit result' review)
              (λ settled. Keeps-settle_security settled))))
        (Keeps-pure j result)

  Keeps-after_optimization :
      (result : TaskExecutionResult) (r : Outcome Text)
      → Keeps j (after_optimization agents (task_id (1 + j)) result r)
  unfolding after_optimization
  Keeps-after_optimization result (returns _) = Keeps-pure j result
  Keeps-after_optimization result (raises e) = Keeps-fail_post_edit_review result e

  Keeps-optimization_stage :
      (task : PlanTask) (result : TaskExecutionResult)
      → Keeps j (optimization_stage agents task (task_id (1 + j)) result)
  unfolding optimization_stage
  Keeps-optimization_stage task result =
      Keeps-if j
        (result.passed && agents.requires_optimization_review task.description result.changed_files)
        _ _
        (Keeps-bind j _ _
          (Keeps-attempt j _ (
            Keeps-outside j (agents.run_optimization_review task.description result.changed_files)))
          (λ r. Keeps-after_optimization result r))
        (Keeps-pure j result)

  Keeps-after_checkpoint :
      (result : TaskExecutionResult) (r : Outcome Text)
      → Keeps j (after_checkpoint agents (task_id (1 + j)) result r)
  unfolding after_checkpoint
  Keeps-after_checkpoint result (returns commit) = Keeps-pure j (result, some commit)
  Keeps-after_checkpoint result (raises (git_error e)) =
      let error = codes "Checkpoint failed: " ++ e in
      Keeps-bind j _ _ (Keeps-fail_with j error) (λ _.
        Keeps-bind j _ _ (Keeps-outside j agents.rollback) (λ _.
          Keeps-bind j _ _
            (Keeps-record_event j (task_id (1 + j)) checkpoint_failed (some false) (some error))
            (λ _. Keeps-pure j (failed_result error result, none))))
  Keeps-after_checkpoint result (raises e) = Keeps-raise (TaskExecutionResult × Option Text) j e

  Keeps-checkpoint_stage :
      (task : PlanTask) (result : TaskExecutionResult)
      → Keeps j (checkpoint_stage agents task (task_id (1 + j)) result)
  unfolding checkpoint_stage
  Keeps-checkpoint_stage task result =
      Keeps-if j result.passed _ _
        (Keeps-bind j _ _
          (Keeps-attempt j _ (
            Keeps-outside j
              (agents.checkpoint (codes "agent: " ++ task_id (1 + j) ++ 32 ∷ task.description))))
          (λ r. Keeps-after_checkpoint result r))
        (Keeps-bind j _ _ (Keeps-outside j agents.rollback) (λ _. Keeps-pure j (result, none)))

  Keeps-record_commit :
      (end : TaskExecutionResult × Option Text)
      → Keeps {W = W} j (record_commit agents (task_id (1 + j)) end)
  unfolding record_commit
  Keeps-record_commit (result, none) = Keeps-pure j tt
  Keeps-record_commit (result, some commit) =
      Keeps-record_event j (task_id (1 + j)) checkpoint_created (some true) (
        some (
          codes "commit="
          ++ commit
          ++ codes "; changed_files="
          ++ joined (codes ",") result.changed_files))

  Keeps-after_tracked : (r : Outcome TaskExecutionResult) → Keeps j (after_tracked agents r)
  unfolding after_tracked
  Keeps-after_tracked (returns result) = Keeps-pure j result
  Keeps-after_tracked (raises e) =
      Keeps-bind j _ _ (Keeps-outside j agents.rollback) (λ _. Keeps-raise TaskExecutionResult j e)

  -- Whatever the models, the reviewers and Git answer, an execution of a task changes that task
  -- only, and not its approval.
  pub Keeps-execute_checkpointed_task :
      (limit : ℕ) (task : PlanTask)
      → Keeps j (execute_checkpointed_task agents limit (task_id (1 + j)) task)
  unfolding execute_checkpointed_task
  Keeps-execute_checkpointed_task limit task =
      Keeps-bind j _ _ (Keeps-outside j agents.assert_clean) (λ _.
        Keeps-bind j _ _
          (Keeps-attempt j _ (
            Keeps-execute_tracked_task j agents.text
              (agents.execute_task_with_retries task task.description) task.description))
          (λ r. Keeps-bind j _ _ (Keeps-after_tracked r) (λ tracked.
            Keeps-bind j _ _ (Keeps-security_stage limit task tracked)
              (λ (reviewed : TaskExecutionResult).
                Keeps-bind j _ _ (Keeps-set_attempts j reviewed.attempts) (λ _.
                  Keeps-bind j _ _ (Keeps-optimization_stage task reviewed) (λ optimized.
                    Keeps-bind j _ _ (Keeps-checkpoint_stage task optimized) (λ (result, commit).
                      Keeps-bind j _ _ (Keeps-record_commit (result, commit)) (λ _.
                        Keeps-bind j _ _
                          (Keeps-outside j (agents.write_metrics (task_id (1 + j)) result commit))
                          (λ _. Keeps-pure j (result.passed, commit))))))))))

-- The services of the runner with the checkpointed executor in its place.
abbrev pub with_checkpoints : {W : Type 0} → Agents W → ℕ → Services W → Services W
with_checkpoints agents limit services = record services {
  execute_checkpointed_task = execute_checkpointed_task agents limit;
}

pub with_checkpoints-ReachesItsTask :
    {W : Type 0} (agents : Agents W) (limit : ℕ) (services : Services W)
    → ReachesItsTask (with_checkpoints agents limit services)
with_checkpoints-ReachesItsTask agents limit services = record {
  keeps = λ j task. Keeps-execute_checkpointed_task agents j limit task;
}
