-- ===== src/Safety/Scoped/Stages.antt =====
-- The stages of the checkpointed executor, on results whose changed files a task may change.
use local_ai_workestra.Base.{
  ℕ, zero, suc, ◌≡◌, true, false, ◌&&◌, Option, none, some, List, [], ◌++◌, Text, codes,
}
use local_ai_workestra.Plan.{PlanTask}
use local_ai_workestra.Run.{failed, post_edit_review_failed}
use local_ai_workestra.Session.{RunError, Outcome, returns, raises, Action, ◌>>=◌, attempt}
use local_ai_workestra.Session.Binds.{Returns, Returns-pure, Returns-bind}
use local_ai_workestra.Manager.{update_task}
use local_ai_workestra.Runner.{record_event, outside}
use local_ai_workestra.Tracked.{TaskExecutionResult}
use local_ai_workestra.TaskExecutor.{scope_of, scope_enabled, Workbench}
use local_ai_workestra.Checkpointed.{
  SecurityFinding, Agents, merged, failed_result, is_blocked_by, without_events,
}
use local_ai_workestra.Checkpointed.Security.{
  give_up, fail_post_edit_review, after_review_rollback, after_fix_review, after_fix,
  security_rounds, security_fix_prompt, after_first_review, settle_security, review_security,
  security_stage,
}
use local_ai_workestra.Checkpointed.Execute.{after_optimization, optimization_stage}
use local_ai_workestra.Safety.Scoped.{with_retries, IsBounded, IsBounded-merged}
use local_ai_workestra.Checkpointed.Commit.{then_Returns, Returns-if}
use local_ai_workestra.Safety.Scoped.Loop.{InOutcome, attempted-In}

module _ {W : Type 0} (bench : Workbench W) (test_command : List Text) (retry_limit : ℕ)
    (agents : Agents W) (task : PlanTask)
    (enabled : scope_enabled
        (scope_of task.primary_scope task.discouraged_scope task.forbidden_scope [])
      ≡ true) where
  abbrev In : TaskExecutionResult → Type 0
  In = IsBounded task.forbidden_scope

  -- The result beside what it is returned with.
  abbrev InFirst : {A : Type 0} → TaskExecutionResult × A → Type 0
  InFirst (result, a) = In result

  abbrev InLoop : Outcome TaskExecutionResult → Type 0
  InLoop = InOutcome bench test_command retry_limit agents task enabled

  abbrev joined_agents : Agents W
  joined_agents = with_retries bench test_command retry_limit agents

  failed_result-In : (error : Text) (result : TaskExecutionResult) → In (failed_result error result)
  failed_result-In error result = record { bounded = λ good. absurd (cc good) }

  fail_post_edit_review-In :
      (id : Text) (result : TaskExecutionResult) (e : RunError)
      → Returns In (fail_post_edit_review joined_agents id result e)
  unfolding fail_post_edit_review with_retries
  fail_post_edit_review-In id result e =
      let error =
        codes "Post-edit review failed: " ++ agents.type_name e ++ codes ": " ++ agents.text e in
      then_Returns In (update_task id failed (some error)) _ λ _.
        then_Returns In (record_event id post_edit_review_failed (some false) (some error)) _ λ _.
          then_Returns In (attempt (outside agents.rollback)) _ λ r.
            then_Returns In (after_review_rollback joined_agents id error r) _
              λ _. Returns-pure In (failed_result error result) (failed_result-In error result)

  give_up-In :
      (id : Text) (result : TaskExecutionResult) (review : Option (List SecurityFinding))
      (e : RunError)
      → Returns InFirst (give_up joined_agents id result review e)
  give_up-In id result review e =
      Returns-bind In InFirst (fail_post_edit_review joined_agents id result e) _
        (fail_post_edit_review-In id result e) λ result h. Returns-pure InFirst (result, review) h

  module _ (id : Text)
      (rest : TaskExecutionResult
        → Option (List SecurityFinding)
        → Action W (TaskExecutionResult × Option (List SecurityFinding)))
      (rest-In : (result : TaskExecutionResult) (review : Option (List SecurityFinding))
        → In result
        → Returns InFirst (rest result review)) where
    after_fix_review-In :
        (result : TaskExecutionResult) (review : Option (List SecurityFinding))
        (r : Outcome (List SecurityFinding))
        → In result
        → Returns InFirst (after_fix_review joined_agents task id rest result review r)
    unfolding after_fix_review
    after_fix_review-In result review (returns findings) h = rest-In result (some findings) h
    after_fix_review-In result review (raises e) h = give_up-In id result review e

    after_fix-In :
        (result : TaskExecutionResult) (review : Option (List SecurityFinding))
        (r : Outcome TaskExecutionResult)
        → In result
        → InLoop r
        → Returns InFirst (after_fix joined_agents task id rest result review r)
    unfolding after_fix with_retries
    after_fix-In result review (raises e) h k = give_up-In id result review e
    after_fix-In result review (returns fix) h k =
        let m = IsBounded-merged task.forbidden_scope result fix h k in
        Returns-if InFirst fix.passed _ _
          (λ _.
            then_Returns InFirst
              (attempt (
                outside
                  (agents.run_security_review task.description (merged result fix).changed_files)))
              _ λ r. after_fix_review-In (merged result fix) review r m)
          (λ _.
            then_Returns InFirst (update_task id failed (some (codes "Security fix failed tests.")))
              _ λ _. Returns-pure InFirst (merged result fix, review) m)

  security_rounds-In :
      (id : Text) (n : ℕ) (result : TaskExecutionResult) (review : Option (List SecurityFinding))
      → In result
      → Returns InFirst (security_rounds joined_agents task id n result review)
  unfolding security_rounds
  security_rounds-In id zero result review h = Returns-pure InFirst (result, review) h
  security_rounds-In id (suc n) result none h = Returns-pure InFirst (result, none) h
  security_rounds-In id (suc n) result (some findings) h =
      let prompted =
        security_fix_prompt joined_agents task.description findings result.changed_files in
      Returns-if InFirst (is_blocked_by result (some findings)) _ _
        (λ _.
          Returns-bind InLoop InFirst
            (attempt (
              prompted >>= λ prompt.
              outside (without_events (joined_agents.execute_task_with_retries task prompt))))
            _ (attempted-In bench test_command retry_limit agents task enabled prompted)
            λ r k.
              after_fix-In id (security_rounds joined_agents task id n) (security_rounds-In id n)
                result (some findings) r h k)
        (λ _. Returns-pure InFirst (result, some findings) h)

  after_first_review-In :
      (id : Text) (result : TaskExecutionResult) (r : Outcome (List SecurityFinding))
      → In result
      → Returns InFirst (after_first_review joined_agents id result r)
  unfolding after_first_review
  after_first_review-In id result (returns findings) h =
      Returns-pure InFirst (result, some findings) h
  after_first_review-In id result (raises e) h = give_up-In id result none e

  settle_security-In :
      (id : Text) (settled : TaskExecutionResult × Option (List SecurityFinding))
      → InFirst settled
      → Returns In (settle_security joined_agents id settled)
  unfolding settle_security
  settle_security-In id (result, review) h =
      Returns-if In (is_blocked_by result review) _ _
        (λ _.
          then_Returns In
            (update_task id failed (some (codes "Blocking security findings remain."))) _
            λ _.
              Returns-pure In (record result { passed = false })
                record { bounded = λ good. absurd (cc good) })
        (λ _. Returns-pure In result h)

  pub security_stage-In :
      (limit : ℕ) (id : Text) (result : TaskExecutionResult)
      → In result
      → Returns In (security_stage joined_agents limit task id result)
  unfolding security_stage review_security
  security_stage-In limit id result h =
      Returns-if In
        (result.passed
          && joined_agents.requires_security_review task.description result.changed_files)
        _ _
        (λ _.
          then_Returns In
            (attempt
              (outside (joined_agents.run_security_review task.description result.changed_files)))
            _
            λ r.
              Returns-bind InFirst In (after_first_review joined_agents id result r) _
                (after_first_review-In id result r h)
                λ (result', review) k.
                  Returns-bind InFirst In
                    (security_rounds joined_agents task id limit result' review) _
                    (security_rounds-In id limit result' review k)
                    λ settled m. settle_security-In id settled m)
        (λ _. Returns-pure In result h)

  after_optimization-In :
      (id : Text) (result : TaskExecutionResult) (r : Outcome Text)
      → In result
      → Returns In (after_optimization joined_agents id result r)
  unfolding after_optimization
  after_optimization-In id result (returns text) h = Returns-pure In result h
  after_optimization-In id result (raises e) h = fail_post_edit_review-In id result e

  pub optimization_stage-In :
      (id : Text) (result : TaskExecutionResult)
      → In result
      → Returns In (optimization_stage joined_agents task id result)
  unfolding optimization_stage
  optimization_stage-In id result h =
      Returns-if In
        (result.passed
          && joined_agents.requires_optimization_review task.description result.changed_files)
        _ _
        (λ _.
          then_Returns In
            (attempt (
              outside
                (joined_agents.run_optimization_review task.description result.changed_files)))
            _ λ r. after_optimization-In id result r h)
        (λ _. Returns-pure In result h)
