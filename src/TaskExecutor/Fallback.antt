-- ===== src/TaskExecutor/Fallback.antt =====
-- The end of `execute_task_with_retries`: after the loop, the result of a hard scope failure, or one
-- attempt of the fallback engineer.
use local_ai_workestra.Base.{
  ◌+◌, Bool, true, false, not, ◌&&◌, Option, none, some, is_some, [], ◌∷◌, ◌++◌, if◌then◌else◌,
  Text, codes, text_eq, is_empty,
}
use local_ai_workestra.Run.{fallback_started}
use local_ai_workestra.Work.{
  TaskEvent, event_named, Work, from_outside, assertion_error, ◌>>=◌, ◌>>◌, pure, fail_with, tell,
  call,
}
use local_ai_workestra.Scope.{ScopeClassification, grey, lower}
use local_ai_workestra.Tracked.{CommandResult, OperationFailure, TaskExecutionResult}
use local_ai_workestra.Triage.{VerificationSummary, VerificationComparison, compare_verification}
use local_ai_workestra.ScopeReview.{is_pass, decision_text, ScopeReview, review_unexpected_scope}
use local_ai_workestra.TaskExecutor.{
  CodingReply, edited, rejected, broke, Workbench, TaskCall, scope_enabled, scope_classification,
  LoopState, classification_text, coding_failure_result, last_failure,
}
use local_ai_workestra.TaskExecutor.Prompts.{
  operation_failure_prompt, scope_guidance, scope_review_detail, fallback_part,
}
use local_ai_workestra.TaskExecutor.Baseline.{summarized}
use local_ai_workestra.TaskExecutor.Updates.{
  qwen_coder, failure_of, rejected_event, forbidden_detail, tests_event, compared_event,
  review_event,
}
use local_ai_workestra.TaskExecutor.Attempt.{
  roll_back, current_changed_files, run_post_verification, request_edits,
}

abbrev pub devstral : Text
devstral = codes "devstral"

-- What the results at the end have in common.
unfoldable pub loop_result : VerificationSummary → CommandResult → LoopState → TaskExecutionResult
loop_result baseline result s = record {
  passed = false;
  attempts = s.attempts_used;
  changed_files = [];
  test_result = result;
  diagnoses = s.diagnoses;
  qwen_attempts = s.attempts_used;
  devstral_used = false;
  accepted_model = none;
  accepted_attempt = none;
  baseline_result = some baseline.result;
  baseline_failure_identities = baseline.failure_identities;
  post_change_failure_identities = s.post_change_failure_identities;
  verification_classification = s.verification_classification;
  operation_failures = s.operation_failures;
  scope_reviews = s.scope_reviews;
}

-- `schema_repair_required`
unfoldable pub schema_repair_required : Option OperationFailure → Bool
schema_repair_required none = false
schema_repair_required (some f) =
    text_eq f.model qwen_coder && text_eq f.failure_class (codes "invalid_schema")

-- What the checks after the fallback leave: whether the change may stand, the detail and the
-- classification.
pub record FallbackVerdict : Type 0 where
  pub allowed : Bool
  pub detail : Text
  pub classification : Text

unfoldable pub verdict_of : VerificationComparison → FallbackVerdict
verdict_of comparison = record {
  allowed = comparison.allowed;
  detail = comparison.detail;
  classification = classification_text comparison.classification;
}

unfoldable pub devstral_failure : Text → Text → LoopState → OperationFailure
devstral_failure failure_class detail s = record {
  model = devstral;
  attempt = s.attempts_used + 1;
  failure_class = failure_class;
  detail = detail;
}

-- The assignments for a forbidden change of the fallback engineer.
unfoldable pub forbidden_verdict : ScopeClassification → FallbackVerdict
forbidden_verdict classes = record {
  allowed = false;
  detail = forbidden_detail classes;
  classification = codes "forbidden_scope";
}

-- The verdict after a review, which has to pass.
unfoldable pub reviewed_verdict : ScopeReview → FallbackVerdict → FallbackVerdict
reviewed_verdict review v = if is_pass review.decision then v else record {
  allowed = false;
  detail = scope_review_detail review;
  classification = codes "scope_review_" ++ lower (decision_text review.decision);
}

-- `if not comparison_allowed: operation_failures.append(...)`
unfoldable pub with_verdict_failure : FallbackVerdict → LoopState → LoopState
with_verdict_failure v s = if v.allowed then s else record s {
  operation_failures =
      s.operation_failures ++ devstral_failure (codes "verification_failure") v.detail s ∷ [];
}

-- The result of the fallback engineer's attempt.
unfoldable pub fallback_result :
    VerificationSummary → CommandResult → FallbackVerdict → LoopState → TaskExecutionResult
unfolding loop_result
fallback_result baseline result v s = record (loop_result baseline result s) {
  passed = v.allowed;
  attempts = s.attempts_used + 1;
  changed_files = s.changed_files;
  devstral_used = true;
  accepted_model = if v.allowed then some devstral else none;
  accepted_attempt = if v.allowed then some (s.attempts_used + 1) else none;
  verification_classification = some v.classification;
}

-- The result when the fallback engineer's edits were not applied.
unfoldable pub rejected_fallback_result :
    VerificationSummary → CommandResult → LoopState → TaskExecutionResult
unfolding loop_result
rejected_fallback_result baseline result s = record (loop_result baseline result s) {
  attempts = s.attempts_used + 1;
  changed_files = s.changed_files;
  devstral_used = true;
}

-- `fallback_prompt`
unfoldable pub fallback_prompt : TaskCall → Text → CommandResult → LoopState → Text
fallback_prompt c diagnosis result s =
    let prompt = fallback_part c.task diagnosis result in
    let guided = if scope_enabled c.scope then prompt ++ scope_guidance c.scope else prompt in
    elim (last_failure s.operation_failures) as (λ _. Text) [
      | none ↦ guided
      | some f ↦ guided ++ operation_failure_prompt f
    ]

unfoldable pub fallback_event : LoopState → TaskEvent
fallback_event s = record (event_named fallback_started) {
  model = some devstral;
  attempt = some (s.attempts_used + 1);
}

module _ {W : Type 0} (bench : Workbench W) (c : TaskCall) (git : Bool)
    (baseline : VerificationSummary) where
  -- The events and the rollback at the end, and the result.
  unfoldable pub conclude_fallback :
      CommandResult → VerificationSummary → FallbackVerdict → LoopState → Work W TaskExecutionResult
  conclude_fallback result post v s =
      tell (tests_event devstral (s.attempts_used + 1) result post)
      >> tell (compared_event v.allowed v.detail (some v.classification) post)
      >> roll_back bench (not v.allowed && git)
      >> pure (fallback_result baseline result v (with_verdict_failure v s))

  -- The scope of the change, whose files are `s.changed_files`, after its verification.
  unfoldable pub check_scope :
      CommandResult
      → VerificationSummary
      → VerificationComparison
      → LoopState
      → ScopeClassification
      → Work W TaskExecutionResult
  check_scope result post comparison s classes =
      if not (is_empty classes.forbidden)
      then conclude_fallback result post (forbidden_verdict classes) (record s {
        operation_failures =
            s.operation_failures
            ++ devstral_failure (codes "forbidden_scope") (forbidden_detail classes) s ∷ [];
      })
      else if comparison.allowed && not (is_empty (grey classes))
      then (review_unexpected_scope bench.reviewer c.task s.changed_files c.scope >>= λ review.
          tell (review_event (s.attempts_used + 1) classes review)
          >> conclude_fallback result post (reviewed_verdict review (verdict_of comparison))
              (record s { scope_reviews = s.scope_reviews ++ review ∷ [] }))
      else conclude_fallback result post (verdict_of comparison) s

  unfoldable pub check_fallback : LoopState → CommandResult → Work W TaskExecutionResult
  check_fallback s result =
      let post = summarized bench c.test_command result in
      let after = record s { post_change_failure_identities = post.failure_identities } in
      current_changed_files bench s.changed_files >>= λ changed.
      check_scope result post (compare_verification baseline post)
        (record after { changed_files = changed }) (scope_classification c.scope changed)

  unfoldable pub after_fallback_coding : LoopState → CodingReply → Work W TaskExecutionResult
  after_fallback_coding s reply = elim reply.outcome as (λ _. Work W TaskExecutionResult) [
    | broke e ↦ fail_with (from_outside e)
    | rejected e ↦
        roll_back bench git
        >> tell (rejected_event (failure_of devstral (s.attempts_used + 1) e))
        >> pure (
            rejected_fallback_result baseline (coding_failure_result e) (record s {
              operation_failures =
                  s.operation_failures ++ failure_of devstral (s.attempts_used + 1) e ∷ [];
            }))
    | edited files ↦
        run_post_verification bench c.test_command
        >>= check_fallback (record s { changed_files = files })
  ]

  -- The call of the fallback engineer.
  unfoldable pub fallback : CommandResult → LoopState → Text → Work W TaskExecutionResult
  fallback result s diagnosis =
      tell (fallback_event s)
      >> (request_edits bench devstral (s.attempts_used + 1) c.scope.forbidden_scope
            (fallback_prompt c diagnosis result s)
          >>= after_fallback_coding s)

  -- `fallback_diagnosis`, unless the last answer only missed the schema.
  unfoldable pub diagnose_fallback : CommandResult → LoopState → Work W TaskExecutionResult
  diagnose_fallback result s =
      if schema_repair_required (last_failure s.operation_failures)
      then fallback result s []
      else (call (bench.diagnose_failure c.task result.stdout result.stderr none) >>= λ diagnosis.
          fallback result (record s { diagnoses = s.diagnoses ++ diagnosis ∷ [] }) diagnosis)

  unfoldable pub finish_loop : LoopState → CommandResult → Work W TaskExecutionResult
  finish_loop s result =
      roll_back bench (is_some s.repair_review && git)
      >> (if s.hard_scope_failure
          then pure (loop_result baseline result s)
          else diagnose_fallback result s)

  -- `assert last_result is not None`
  unfoldable pub finish_tried : LoopState → Option CommandResult → Work W TaskExecutionResult
  finish_tried s none = fail_with assertion_error
  finish_tried s (some result) = finish_loop s result

  -- After the loop.
  unfoldable pub after_loop : LoopState → Work W TaskExecutionResult
  after_loop s = finish_tried s s.last_result
