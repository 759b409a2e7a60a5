-- ===== src/Checkpointed/Security.antt =====
-- src/local_agent_orchestrator/services/checkpointed_executor.py: the security review and its fixes.
use local_ai_workestra.Base.{
  ℕ, zero, suc, true, false, ◌&&◌, Option, none, some, List, [], ◌∷◌, ◌++◌, map, if◌then◌else◌,
  Text, codes, keep,
}
use local_ai_workestra.Plan.{PlanTask}
use local_ai_workestra.Run.{failed, post_edit_review_failed, rollback}
use local_ai_workestra.Session.{
  RunError, git_error, Outcome, returns, raises, Action, ◌>>=◌, ◌>>◌, pure, raise, attempt,
}
use local_ai_workestra.Manager.{update_task}
use local_ai_workestra.Runner.{record_event, outside, joined}
use local_ai_workestra.Tracked.{TaskExecutionResult}
use local_ai_workestra.Checkpointed.{
  SecurityFinding, is_blocking, finding_text, Agents, failed_result, merged, is_blocked_by,
  without_events,
}

module _ {W : Type 0} (agents : Agents W) where
  -- `current_files` of `_security_fix_prompt`
  unfoldable pub current_files : List Text → Action W Text
  current_files [] = pure []
  current_files (path ∷ paths) = do
    content ← outside (agents.read_file path)
    rest ← current_files paths
    pure (elim content [
      | none ↦ rest
      | some c ↦ (10 ∷ codes "--- FILE: ") ++ path ++ codes " ---" ++ (10 ∷ c) ++ (10 ∷ rest)
    ])

  -- `_security_fix_prompt`
  unfoldable pub security_fix_prompt : Text → List SecurityFinding → List Text → Action W Text
  security_fix_prompt task findings changed_files = do
    files ← current_files changed_files
    pure (
        task
        ++ (10 ∷ 10 ∷ codes "SECURITY REVIEW FOUND BLOCKING ISSUES.")
        ++ (10
            ∷ codes
                "Fix ONLY the concrete security findings below while preserving existing functionality.")
        ++ (10 ∷ 10 ∷ codes "FINDINGS:")
        ++ (10 ∷ joined (10 ∷ []) (map finding_text (keep is_blocking findings)))
        ++ (10 ∷ 10 ∷ codes "CURRENT FILES:")
        ++ (10 ∷ files))

  -- The end of `_fail_post_edit_review`: after the rollback.
  unfoldable pub after_review_rollback : Text → Text → Outcome (Unit {0}) → Action W (Unit {0})
  after_review_rollback id error (returns _) =
      record_event id rollback (some true) (some (codes "Rolled back post-edit review failure."))
  after_review_rollback id error (raises (git_error e)) =
      update_task id failed (some (error ++ codes " Rollback failed: " ++ e))
  after_review_rollback id error (raises e) = raise e

  -- `_fail_post_edit_review`; it returns the result that it has changed.
  unfoldable pub fail_post_edit_review :
      Text → TaskExecutionResult → RunError → Action W TaskExecutionResult
  fail_post_edit_review id result e = do
    let error =
        codes "Post-edit review failed: " ++ agents.type_name e ++ codes ": " ++ agents.text e
    update_task id failed (some error)
    record_event id post_edit_review_failed (some false) (some error)
    r ← attempt (outside agents.rollback)
    after_review_rollback id error r
    pure (failed_result error result)

  -- A failed review of an edit: the result is failed, and the loop is left with it.
  abbrev pub give_up :
      Text
      → TaskExecutionResult
      → Option (List SecurityFinding)
      → RunError
      → Action W (TaskExecutionResult × Option (List SecurityFinding))
  give_up id result review e = do
    result' ← fail_post_edit_review id result e
    pure (result', review)

  module _ (task : PlanTask) (id : Text)
      (rest : TaskExecutionResult
        → Option (List SecurityFinding)
        → Action W (TaskExecutionResult × Option (List SecurityFinding))) where
    -- After the review of a fix.
    unfoldable pub after_fix_review :
        TaskExecutionResult
        → Option (List SecurityFinding)
        → Outcome (List SecurityFinding)
        → Action W (TaskExecutionResult × Option (List SecurityFinding))
    after_fix_review result review (returns findings) = rest result (some findings)
    after_fix_review result review (raises e) = give_up id result review e

    -- After a fix.
    unfoldable pub after_fix :
        TaskExecutionResult
        → Option (List SecurityFinding)
        → Outcome TaskExecutionResult
        → Action W (TaskExecutionResult × Option (List SecurityFinding))
    after_fix result review (raises e) = give_up id result review e
    after_fix result review (returns fix) =
        if fix.passed
        then (attempt (
              outside
                (agents.run_security_review task.description (merged result fix).changed_files))
            >>= after_fix_review (merged result fix) review)
        else (update_task id failed (some (codes "Security fix failed tests."))
            >> pure (merged result fix, review))

  -- The `while` loop, for the rounds that are left of `security_fix_limit`.
  unfoldable pub security_rounds :
      PlanTask
      → Text
      → ℕ
      → TaskExecutionResult
      → Option (List SecurityFinding)
      → Action W (TaskExecutionResult × Option (List SecurityFinding))
  security_rounds task id zero result review = pure (result, review)
  security_rounds task id (suc n) result none = pure (result, none)
  security_rounds task id (suc n) result (some findings) =
      if is_blocked_by result (some findings)
      then (attempt (
            security_fix_prompt task.description findings result.changed_files >>= λ prompt.
            outside (without_events (agents.execute_task_with_retries task prompt)))
          >>= after_fix task id (security_rounds task id n) result (some findings))
      else pure (result, some findings)

  -- After the first security review.
  unfoldable pub after_first_review :
      Text
      → TaskExecutionResult
      → Outcome (List SecurityFinding)
      → Action W (TaskExecutionResult × Option (List SecurityFinding))
  after_first_review id result (returns findings) = pure (result, some findings)
  after_first_review id result (raises e) = give_up id result none e

  -- Blocking findings that remain fail the task.
  unfoldable pub settle_security :
      Text → TaskExecutionResult × Option (List SecurityFinding) → Action W TaskExecutionResult
  settle_security id (result, review) =
      if is_blocked_by result review
      then (update_task id failed (some (codes "Blocking security findings remain."))
          >> pure (record result { passed = false }))
      else pure result

  -- The body of `if result.passed and requires_security_review(...)`.
  unfoldable pub review_security :
      ℕ → PlanTask → Text → TaskExecutionResult → Action W TaskExecutionResult
  review_security limit task id result = do
    r ← attempt (outside (agents.run_security_review task.description result.changed_files))
    (result', review) ← after_first_review id result r
    settled ← security_rounds task id limit result' review
    settle_security id settled

  unfoldable pub security_stage :
      ℕ → PlanTask → Text → TaskExecutionResult → Action W TaskExecutionResult
  security_stage limit task id result =
      if result.passed && agents.requires_security_review task.description result.changed_files
      then review_security limit task id result
      else pure result
