-- ===== src/TaskExecutor/Updates.antt =====
-- What one turn of the loop of src/local_agent_orchestrator/services/task_executor.py assigns to the
-- variables of the loop, and the events that it sends.
use local_ai_workestra.Base.{
  ℕ, ◌+◌, Bool, true, false, Option, none, some, is_some, List, [], ◌∷◌, ◌++◌, if◌then◌else◌, Text,
  codes, text_eq,
}
use local_ai_workestra.Run.{
  model_attempt_started, coding_output_rejected, scope_review, tests_finished,
  verification_compared,
}
use local_ai_workestra.Work.{TaskEvent, event_named}
use local_ai_workestra.Runner.{joined}
use local_ai_workestra.Scope.{ScopeClassification, grey}
use local_ai_workestra.Tracked.{CommandResult, OperationFailure, TaskExecutionResult}
use local_ai_workestra.Triage.{VerificationSummary, VerificationComparison}
use local_ai_workestra.ScopeReview.{pass, is_pass, is_fail_hard, decision_text, ScopeReview}
use local_ai_workestra.TaskExecutor.{
  CodingError, LoopState, classification_text, exit_125, coding_failure_result,
  operation_failure_class,
}
use local_ai_workestra.TaskExecutor.Prompts.{
  max_retry_diagnosis_chars, tail_of, scope_review_detail, test_detail,
}

abbrev pub max_scope_repairs : ℕ
max_scope_repairs = 2

abbrev pub qwen_coder : Text
qwen_coder = codes "qwen_coder"

-- What an iteration does to the loop: it goes on, it breaks, or the function returns.
pub data TurnEnd : Type 0 where
  again break : LoopState → TurnEnd
  accept : TaskExecutionResult → TurnEnd

-- The counters at the start of an iteration.
unfoldable pub counted : LoopState → LoopState
counted s = record s {
  attempts_used = s.attempts_used + 1;
  fresh_attempts_used =
      if is_some s.repair_review then s.fresh_attempts_used else s.fresh_attempts_used + 1;
}

unfoldable pub started_event : LoopState → TaskEvent
started_event s = record (event_named model_attempt_started) {
  model = some qwen_coder;
  attempt = some s.attempts_used;
  detail = some (if is_some s.repair_review then codes "scope_repair" else codes "fresh_attempt");
}

unfoldable pub failure_of : Text → ℕ → CodingError → OperationFailure
failure_of model attempt e = record {
  model = model;
  attempt = attempt;
  failure_class = operation_failure_class e;
  detail = tail_of e.message max_retry_diagnosis_chars;
}

unfoldable pub rejected_event : OperationFailure → TaskEvent
rejected_event f = record (event_named coding_output_rejected) {
  model = some f.model;
  attempt = some f.attempt;
  passed = some false;
  detail = some f.detail;
  failure_class = some f.failure_class;
}

-- The assignments after an exception of the coding model.
unfoldable pub rejected_state : CodingError → LoopState → LoopState
rejected_state e s =
    let failure = failure_of qwen_coder s.attempts_used e in
    let invalid = text_eq failure.failure_class (codes "invalid_schema") in
    record s {
      repair_review = none;
      last_result = some (coding_failure_result e);
      operation_failures = s.operation_failures ++ failure ∷ [];
      pending_schema_failure = if invalid then some failure else s.pending_schema_failure;
      skip_diagnosis = if invalid then true else s.skip_diagnosis;
    }

unfoldable pub forbidden_detail : ScopeClassification → Text
forbidden_detail c = codes "Forbidden task scope change: " ++ joined (codes ", ") c.forbidden

-- The assignments after a forbidden change.
unfoldable pub forbidden_state : ScopeClassification → LoopState → LoopState
forbidden_state c s = record s {
  last_result = some (exit_125 [] (forbidden_detail c));
  operation_failures =
      s.operation_failures
      ++ (record {
        model = qwen_coder;
        attempt = s.attempts_used;
        failure_class = codes "forbidden_scope";
        detail = forbidden_detail c;
      })
        ∷ [];
  hard_scope_failure = true;
  repair_review = none;
}

unfoldable pub forbidden_event : ScopeClassification → LoopState → TaskEvent
forbidden_event c s = record (event_named scope_review) {
  model = some qwen_coder;
  attempt = some s.attempts_used;
  passed = some false;
  scope_decision = some (codes "FAIL_HARD");
  scope_paths = some c.forbidden;
  detail = some (forbidden_detail c);
}

-- The assignments after the verification and its comparison.
unfoldable pub compared_state :
    CommandResult → VerificationSummary → VerificationComparison → LoopState → LoopState
compared_state result post comparison s = record s {
  last_result = some result;
  post_change_failure_identities = post.failure_identities;
  verification_classification = some (classification_text comparison.classification);
  operation_failures =
      if comparison.allowed
      then s.operation_failures
      else s.operation_failures
        ++ (record {
          model = qwen_coder;
          attempt = s.attempts_used;
          failure_class = codes "verification_failure";
          detail = classification_text comparison.classification;
        })
          ∷ [];
}

unfoldable pub tests_event : Text → ℕ → CommandResult → VerificationSummary → TaskEvent
tests_event model attempt result post = record (event_named tests_finished) {
  model = some model;
  attempt = some attempt;
  passed = some result.passed;
  detail = some (test_detail result);
  verification_phase = some (codes "post_change");
  failure_identities = some post.failure_identities;
}

unfoldable pub compared_event : Bool → Text → Option Text → VerificationSummary → TaskEvent
compared_event allowed detail classification post = record (event_named verification_compared) {
  passed = some allowed;
  verification_phase = some (codes "comparison");
  detail = some detail;
  failure_identities = some post.failure_identities;
  verification_classification = classification;
  failure_class = if allowed then none else some (codes "verification_failure");
}

unfoldable pub review_event : ℕ → ScopeClassification → ScopeReview → TaskEvent
review_event attempt c review = record (event_named scope_review) {
  model = some (codes "gpt_oss");
  attempt = some attempt;
  passed = some (is_pass review.decision);
  scope_decision = some (decision_text review.decision);
  scope_paths = some (grey c);
  detail = some (scope_review_detail review);
}

-- The review of changes inside the primary scope.
unfoldable pub primary_review : List Text → ScopeReview
primary_review changed = record {
  decision = pass;
  reason = codes "All changes are within the primary scope.";
  preserve_paths = changed;
  remove_paths = [];
  instruction = [];
}

-- The result of an attempt that is accepted.
unfoldable pub accepted_result :
    CommandResult → List Text → CommandResult → LoopState → TaskExecutionResult
accepted_result baseline identities result s = record {
  passed = true;
  attempts = s.attempts_used;
  changed_files = s.changed_files;
  test_result = result;
  diagnoses = s.diagnoses;
  qwen_attempts = s.attempts_used;
  devstral_used = false;
  accepted_model = some qwen_coder;
  accepted_attempt = some s.attempts_used;
  baseline_result = some baseline;
  baseline_failure_identities = identities;
  post_change_failure_identities = s.post_change_failure_identities;
  verification_classification = s.verification_classification;
  operation_failures = s.operation_failures;
  scope_reviews = s.scope_reviews;
}

-- The assignments after a review that neither passes nor is revised.
unfoldable pub dismissed_state : ScopeReview → LoopState → LoopState
dismissed_state review s = record s {
  repair_review = none;
  hard_scope_failure = if is_fail_hard review.decision then true else s.hard_scope_failure;
  skip_diagnosis = true;
}
