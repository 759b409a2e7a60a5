-- ===== src/TaskExecutor/Attempt.antt =====
-- One turn of the loop of `execute_task_with_retries`: the prompt, the edits of the coding model, the
-- check of their scope, the verification and the review.
use local_ai_workestra.Base.{
  ℕ, ◌+◌, ◌-◌, Bool, true, false, not, ◌&&◌, Option, none, some, List, [], ◌∷◌, ◌++◌, ltb, ◌==◌,
  if◌then◌else◌, Text, is_empty,
}
use local_ai_workestra.Run.{edit_operations_requested}
use local_ai_workestra.Work.{
  event_named, Work, from_outside, ◌>>=◌, ◌>>◌, pure, fail_with, tell, call,
}
use local_ai_workestra.Scope.{ScopeClassification, grey}
use local_ai_workestra.Tracked.{CommandResult, OperationFailure}
use local_ai_workestra.Triage.{VerificationSummary, compare_verification}
use local_ai_workestra.ScopeReview.{is_pass, is_revise, ScopeReview, review_unexpected_scope}
use local_ai_workestra.TaskExecutor.{
  TestRun, finished, not_run, CodingReply, edited, rejected, broke, Listing, listed, not_listed,
  Workbench, TaskCall, scope_classification, LoopState, classification_text, last_failure,
  changed_paths,
}
use local_ai_workestra.TaskExecutor.Prompts.{
  operation_failure_prompt, base_prompt, repair_part, diagnosis_part,
}
use local_ai_workestra.TaskExecutor.Baseline.{execution_failed, summarized}
use local_ai_workestra.TaskExecutor.Updates.{
  max_scope_repairs, qwen_coder, TurnEnd, counted, started_event, failure_of, rejected_event,
  rejected_state, forbidden_state, forbidden_event, compared_state, tests_event, compared_event,
  review_event, primary_review, accepted_result, dismissed_state, again, break, accept,
}

module _ {W : Type 0} (bench : Workbench W) where
  -- `if attempt_git is not None: attempt_git.rollback()`
  unfoldable pub roll_back : Bool → Work W (Unit {0})
  roll_back true = call bench.rollback
  roll_back false = pure tt

  unfoldable pub changed_with : List Text → Listing → Work W (List Text)
  changed_with fallback not_listed = pure fallback
  changed_with fallback (listed diff) = call bench.list_untracked >>= λ untracked.
      pure (changed_paths fallback (listed diff) untracked)

  -- `_current_changed_files`
  unfoldable pub current_changed_files : List Text → Work W (List Text)
  current_changed_files fallback = call bench.list_changed >>= changed_with fallback

  unfoldable pub post_result : TestRun → CommandResult
  post_result (finished result) = result
  post_result (not_run name message) = execution_failed name message

  -- `_run_post_verification`
  unfoldable pub run_post_verification : List Text → Work W CommandResult
  run_post_verification command = call (bench.run_tests command) >>= λ run. pure (post_result run)

  unfoldable pub tell_operations : Text → ℕ → Option (List Text) → Work W (Unit {0})
  tell_operations model attempt none = pure tt
  tell_operations model attempt (some operations) =
      tell record (event_named edit_operations_requested) {
        model = some model;
        attempt = some attempt;
        operations = some operations;
      }

  -- A call of `execute_coding_task`, with its operation callback.
  unfoldable pub request_edits : Text → ℕ → List Text → Text → Work W CodingReply
  request_edits model attempt forbidden prompt d =
      let (reply, w) = bench.execute_coding_task model prompt forbidden d.world in
      (tell_operations model attempt reply.operations >> pure reply) (record d { world = w })

  -- The part of the prompt that needs a diagnosis of the last result.
  unfoldable pub diagnosed : TaskCall → Text → CommandResult → LoopState → Work W (Text × LoopState)
  diagnosed c prompt result s =
      call (bench.diagnose_failure c.task result.stdout result.stderr s.latest_repo_context)
      >>= λ diagnosis.
          let with_diagnosis = prompt ++ diagnosis_part diagnosis result in
          pure (
            elim (last_failure s.operation_failures) as (λ _. Text) [
              | none ↦ with_diagnosis
              | some f ↦
                  if f.attempt == s.attempts_used - 1
                  then with_diagnosis ++ operation_failure_prompt f
                  else with_diagnosis
            ],
            record s { diagnoses = s.diagnoses ++ diagnosis ∷ [] },
          )

  unfoldable pub fresh_prompt :
      TaskCall → Text → Option CommandResult → LoopState → Work W (Text × LoopState)
  fresh_prompt c prompt none s = pure (prompt, record s { skip_diagnosis = false })
  fresh_prompt c prompt (some result) s =
      if s.skip_diagnosis
      then pure (prompt, record s { skip_diagnosis = false })
      else diagnosed c prompt result s

  unfoldable pub revised_prompt :
      TaskCall → Text → Option ScopeReview → LoopState → Work W (Text × LoopState)
  revised_prompt c prompt (some review) s = pure (prompt ++ repair_part review, s)
  revised_prompt c prompt none s = fresh_prompt c prompt s.last_result s

  unfoldable pub pending_into : Option OperationFailure → Text → LoopState → Text × LoopState
  pending_into none prompt s = (prompt, s)
  pending_into (some f) prompt s =
      (prompt ++ operation_failure_prompt f, record s { pending_schema_failure = none })

  -- `pending_schema_failure` goes into the prompt once.
  unfoldable pub with_pending : Text × LoopState → Text × LoopState
  with_pending (prompt, s) = pending_into s.pending_schema_failure prompt s

  unfoldable pub attempt_prompt : TaskCall → LoopState → Work W (Text × LoopState)
  attempt_prompt c s = revised_prompt c (base_prompt c.task c.scope) s.repair_review s >>= λ built.
      pure (with_pending built)

  module _ (c : TaskCall) (git : Bool) (baseline : VerificationSummary) where
    -- The end of an iteration, by the decision of the review.
    unfoldable pub decide : CommandResult → ScopeReview → LoopState → Work W TurnEnd
    decide result review s =
        if is_pass review.decision
        then pure (accept (accepted_result baseline.result baseline.failure_identities result s))
        else if is_revise review.decision && ltb s.repair_attempts max_scope_repairs
        then pure (
            again
              (record s { repair_attempts = s.repair_attempts + 1; repair_review = some review }))
        else (roll_back git
            >> pure (
                if (dismissed_state review s).hard_scope_failure
                then break (dismissed_state review s)
                else again (dismissed_state review s)))

    unfoldable pub review_changes : CommandResult → ScopeClassification → LoopState → Work W TurnEnd
    review_changes result classes s =
        if is_empty (grey classes)
        then decide result (primary_review s.changed_files) s
        else (review_unexpected_scope bench.reviewer c.task s.changed_files c.scope >>= λ review.
            tell (review_event s.attempts_used classes review)
            >> decide result review (record s { scope_reviews = s.scope_reviews ++ review ∷ [] }))

    unfoldable pub after_comparison :
        CommandResult → ScopeClassification → Bool → LoopState → Work W TurnEnd
    after_comparison result classes allowed s =
        if allowed
        then review_changes result classes s
        else (roll_back git
            >> pure (again (record s { repair_review = none; skip_diagnosis = false })))

    -- The verification of changes that the scope allows.
    unfoldable pub verify_changes : ScopeClassification → LoopState → CommandResult → Work W TurnEnd
    verify_changes classes s result =
        let post = summarized bench c.test_command result in
        let comparison = compare_verification baseline post in
        tell (tests_event qwen_coder s.attempts_used result post)
        >> tell (
            compared_event comparison.allowed comparison.detail
              (some (classification_text comparison.classification)) post)
        >> after_comparison result classes comparison.allowed
            (compared_state result post comparison s)

    unfoldable pub check_changes : ScopeClassification → LoopState → Work W TurnEnd
    check_changes classes s =
        if not (is_empty classes.forbidden)
        then (roll_back git
            >> tell (forbidden_event classes s)
            >> pure (break (forbidden_state classes s)))
        else (run_post_verification c.test_command >>= verify_changes classes s)

    unfoldable pub after_coding : LoopState → CodingReply → Work W TurnEnd
    after_coding s reply = elim reply.outcome as (λ _. Work W TurnEnd) [
      | broke e ↦ fail_with (from_outside e)
      | rejected e ↦
          roll_back git
          >> tell (rejected_event (failure_of qwen_coder s.attempts_used e))
          >> pure (again (rejected_state e s))
      | edited files ↦ current_changed_files files >>= λ changed.
          check_changes (scope_classification c.scope changed)
            (record s { changed_files = changed })
    ]

    -- `capture_context`, if it was called.
    unfoldable pub captured : Option Text → LoopState → LoopState
    captured none s = s
    captured (some context) s = record s { latest_repo_context = some context }

    unfoldable pub attempt_with : Text × LoopState → Work W TurnEnd
    attempt_with (prompt, s) =
        request_edits qwen_coder s.attempts_used c.scope.forbidden_scope prompt >>= λ reply.
        after_coding (captured reply.context s) reply

    -- The body of the `while` loop.
    unfoldable pub iteration : LoopState → Work W TurnEnd
    iteration s =
        tell (started_event (counted s)) >> (attempt_prompt c (counted s) >>= attempt_with)
