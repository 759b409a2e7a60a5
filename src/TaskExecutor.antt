-- ===== src/TaskExecutor.antt =====
-- src/local_agent_orchestrator/services/task_executor.py: the retry loop over the coding models. This file
-- has what the loop is given and keeps; its children have the baseline, the prompts, one attempt,
-- the loop and the fallback engineer.
pub mod Prompts
pub mod Baseline
pub mod Updates
pub mod Attempt
pub mod Fallback
pub mod Execute
pub mod Bounded
pub mod Verdict
pub mod Decisions
pub mod Turns
pub mod Iterations
pub mod Conclusions
pub mod Endings
pub mod Loops
pub mod Established
pub mod Whole
pub mod Scenarios
use local_ai_workestra.Base.{
  contains, split_lines, ℕ, zero, suc, ◌+◌, Bool, true, false, not, ◌&&◌, ◌||◌, Option, none, some,
  List, [], ◌∷◌, ◌++◌, ◌==◌, leb, if◌then◌else◌, Text, codes, text_eq, is_empty, starts_with, strip,
}
use local_ai_workestra.Session.{RunError, Outcome}
use local_ai_workestra.Runner.{joined}
use local_ai_workestra.Scope.{ScopeClassification, classify_changed_files, lower}
use local_ai_workestra.Tracked.{CommandResult, OperationFailure}
use local_ai_workestra.Triage.{
  VerificationSummary, Classification, baseline_uninterpretable, post_change_uninterpretable,
  passed_before, baseline_failures_disappeared, new_failures, preexisting_failures_only,
}
use local_ai_workestra.ScopeReview.{ScopeReview, TaskScope, Reviewer}
use local_ai_workestra.Checkpointed.{distinct}

-- `prepare_verification_environment`: the result, or a `VerificationBootstrapError`.
pub data Bootstrap : Type 0 where
  prepared : Text → List Text → Bootstrap
  bootstrap_failed : Text → Text → Bootstrap

-- `run_tests`: the result, or the name and the text of an `OSError` or a `SubprocessError`.
pub data TestRun : Type 0 where
  finished : CommandResult → TestRun
  not_run : Text → Text → TestRun

-- The classes of the exceptions that end an attempt; an `EditOperationError` has its failure class.
pub data CodingErrorKind : Type 0 where
  edit_operation_error : Text → CodingErrorKind
  patch_error value_error : CodingErrorKind

pub record CodingError : Type 0 where
  pub kind : CodingErrorKind
  pub type_name : Text
  pub message : Text

pub data CodingOutcome : Type 0 where
  edited : List Text → CodingOutcome
  rejected : CodingError → CodingOutcome
  broke : RunError → CodingOutcome

-- What a call of `execute_coding_task` gave its two callbacks, and how it ended.
pub record CodingReply : Type 0 where
  pub context : Option Text
  pub operations : Option (List Text)
  pub outcome : CodingOutcome

-- A call of `git` that lists paths: its output, or an `OSError`.
pub data Listing : Type 0 where
  listed : Text → Listing
  not_listed : Listing

-- What the loop calls: Git, the test command, the models. `find_failures` and `no_tests` are the
-- regular expressions of the triage.
pub record Workbench (W : Type 0) : Type 0 where
  pub reviewer : Reviewer W
  pub prepare_environment : List Text → W → Outcome Bootstrap × W
  pub assert_repository : W → Outcome (Unit {0}) × W
  pub assert_clean : W → Outcome (Unit {0}) × W
  pub head : W → Outcome Text × W
  pub status : W → Outcome (List Text) × W
  pub rollback : W → Outcome (Unit {0}) × W
  pub run_tests : List Text → W → Outcome TestRun × W
  pub find_failures : Text → List Text
  pub no_tests : Text → Bool
  pub diagnose_failure : Text → Text → Text → Option Text → W → Outcome Text × W
  pub execute_coding_task : Text → Text → List Text → W → CodingReply × W
  pub list_changed : W → Outcome Listing × W
  pub list_untracked : W → Outcome Listing × W

-- The arguments of `execute_task_with_retries`, whose retry limit the settings bound below by 0.
pub record TaskCall : Type 0 where
  pub task : Text
  pub test_command : List Text
  pub retry_limit : ℕ
  pub scope : TaskScope

-- The scopes as the function reads them: `file_boundaries` stand in for an empty primary scope.
unfoldable pub scope_of : List Text → List Text → List Text → List Text → TaskScope
scope_of primary discouraged forbidden file_boundaries = record {
  primary_scope = if is_empty primary then file_boundaries else primary;
  discouraged_scope = discouraged;
  forbidden_scope = forbidden;
}

-- `scope_enabled`
unfoldable pub scope_enabled : TaskScope → Bool
scope_enabled scope =
    not (is_empty scope.primary_scope)
    || not (is_empty scope.discouraged_scope)
    || not (is_empty scope.forbidden_scope)

-- `_scope_classification`
unfoldable pub scope_classification : TaskScope → List Text → ScopeClassification
scope_classification scope changed =
    if scope_enabled scope
    then classify_changed_files scope.primary_scope scope.discouraged_scope scope.forbidden_scope
        changed
    else record { primary = changed; discouraged = []; unexpected = []; forbidden = [] }

-- The variables of the loop.
pub record LoopState : Type 0 where
  pub changed_files : List Text
  pub last_result : Option CommandResult
  pub diagnoses : List Text
  pub latest_repo_context : Option Text
  pub operation_failures : List OperationFailure
  pub scope_reviews : List ScopeReview
  pub post_change_failure_identities : List Text
  pub verification_classification : Option Text
  pub attempts_used : ℕ
  pub fresh_attempts_used : ℕ
  pub repair_attempts : ℕ
  pub repair_review : Option ScopeReview
  pub hard_scope_failure : Bool
  pub skip_diagnosis : Bool
  pub pending_schema_failure : Option OperationFailure

-- The variables before the loop.
unfoldable pub initial_state : LoopState
initial_state = record {
  changed_files = [];
  last_result = none;
  diagnoses = [];
  latest_repo_context = none;
  operation_failures = [];
  scope_reviews = [];
  post_change_failure_identities = [];
  verification_classification = none;
  attempts_used = 0;
  fresh_attempts_used = 0;
  repair_attempts = 0;
  repair_review = none;
  hard_scope_failure = false;
  skip_diagnosis = false;
  pending_schema_failure = none;
}

pub classification_text : Classification → Text
classification_text baseline_uninterpretable = codes "baseline_uninterpretable"
classification_text post_change_uninterpretable = codes "post_change_uninterpretable"
classification_text passed_before = codes "passed"
classification_text baseline_failures_disappeared = codes "baseline_failures_disappeared"
classification_text new_failures = codes "new_failures"
classification_text preexisting_failures_only = codes "preexisting_failures_only"

-- `CommandResult(passed=False, returncode=125, ...)`
abbrev pub exit_125 : Text → Text → CommandResult
exit_125 out problem = record {
  passed = false;
  returncode = codes "125";
  stdout = out;
  stderr = problem;
}

-- `_coding_failure_result`
unfoldable pub coding_failure_result : CodingError → CommandResult
coding_failure_result e = record {
  passed = false;
  returncode = codes "1";
  stdout = [];
  stderr =
      codes "Coding output could not be safely applied: " ++ e.type_name ++ codes ": " ++ e.message;
}

-- `_operation_failure_class`
unfoldable pub operation_failure_class : CodingError → Text
operation_failure_class e = elim e.kind [
  | edit_operation_error failure_class ↦ failure_class
  | patch_error ↦
      if contains (lower e.message) (codes "trailing whitespace")
      then codes "whitespace_error"
      else codes "patch_validation_failure"
  | value_error ↦ codes "invalid_schema"
]

abbrev pub last_failure : List OperationFailure → Option OperationFailure
last_failure [] = none
last_failure (f ∷ []) = some f
last_failure (f ∷ g ∷ fs) = last_failure (g ∷ fs)

-- `line.strip()` of the lines that are not blank
stripped_lines : List Text → List Text
stripped_lines [] = []
stripped_lines (line ∷ lines) =
    let rest = stripped_lines lines in if is_empty (strip line) then rest else strip line ∷ rest

-- `_current_changed_files`, of the two outputs of `git`.
unfoldable pub changed_paths : List Text → Listing → Listing → List Text
unfolding stripped_lines
changed_paths fallback (listed diff) (listed untracked) =
    let paths =
      distinct (stripped_lines (split_lines diff) ++ stripped_lines (split_lines untracked)) in
    if is_empty paths then fallback else paths
changed_paths fallback (listed diff) not_listed = fallback
changed_paths fallback not_listed _ = fallback
