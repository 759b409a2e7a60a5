-- ===== src/Checkpointed.antt =====
-- src/local_agent_orchestrator/services/checkpointed_executor.py: a tracked task between a clean
-- workspace and a checkpoint or a rollback, with its security and optimization reviews. The retry
-- loop, the reviewers, Git and the metrics file are the fields of `Agents`. Security has the rounds
-- of the security review, Execute the rest and the whole.
pub mod Security
pub mod Execute
pub mod Commit
use local_ai_workestra.Base.{
  ℕ, zero, suc, ◌+◌, Bool, true, false, ◌&&◌, Option, none, some, List, [], ◌∷◌, ◌++◌, map,
  if◌then◌else◌, Text, codes, text_in, any, keep,
}
use local_ai_workestra.Plan.{PlanTask}
use local_ai_workestra.Run.{
  failed, post_edit_review_failed, rollback, checkpoint_failed, checkpoint_created,
}
use local_ai_workestra.Session.{
  RunError, git_error, Outcome, returns, raises, Action, ◌>>=◌, ◌>>◌, pure, raise, modify, save,
  attempt,
}
use local_ai_workestra.Manager.{find_task, update_task}
use local_ai_workestra.Runner.{record_event, outside, joined}
use local_ai_workestra.Tracked.{TaskExecutionResult, Emitted, assign_attempts, execute_tracked_task}

pub data Severity : Type 0 where
  low medium high critical : Severity

pub record SecurityFinding : Type 0 where
  pub severity : Severity
  pub title : Text
  pub description : Text
  pub recommendation : Text

-- `finding.severity in ("high", "critical")`
unfoldable pub is_blocking : SecurityFinding → Bool
is_blocking finding = elim finding.severity [
  | low ↦ false
  | medium ↦ false
  | high ↦ true
  | critical ↦ true
]

-- `SecurityReview.has_blocking_findings`, of the review's findings.
unfoldable pub has_blocking_findings : List SecurityFinding → Bool
has_blocking_findings findings = any is_blocking findings

-- `finding.severity.upper()`
severity_text : Severity → Text
severity_text low = codes "LOW"
severity_text medium = codes "MEDIUM"
severity_text high = codes "HIGH"
severity_text critical = codes "CRITICAL"

pub finding_text : SecurityFinding → Text
finding_text f =
    codes "- ["
    ++ severity_text f.severity
    ++ codes "] "
    ++ f.title
    ++ codes ": "
    ++ f.description
    ++ codes " FIX: "
    ++ f.recommendation

-- What the executor calls and this module does not define, for a task's test command and scopes.
-- `text` is `str(exc)`, `type_name` is `type(exc).__name__`.
pub record Agents (W : Type 0) : Type 0 where
  pub execute_task_with_retries :
      PlanTask → Text → W → Outcome TaskExecutionResult × List (Emitted × W) × W
  pub requires_security_review : Text → List Text → Bool
  pub run_security_review : Text → List Text → W → Outcome (List SecurityFinding) × W
  pub requires_optimization_review : Text → List Text → Bool
  pub run_optimization_review : Text → List Text → W → Outcome Text × W
  pub read_file : Text → W → Outcome (Option Text) × W  -- `none` if it does not exist
  pub assert_clean : W → Outcome (Unit {0}) × W
  pub checkpoint : Text → W → Outcome Text × W
  pub rollback : W → Outcome (Unit {0}) × W
  pub write_metrics : Text → TaskExecutionResult → Option Text → W → Outcome (Unit {0}) × W
  pub text : RunError → Text
  pub type_name : RunError → Text

-- `list(dict.fromkeys(paths))`
unfoldable pub distinct_from : List Text → List Text → List Text
distinct_from seen [] = []
distinct_from seen (p ∷ ps) =
    if text_in p seen then distinct_from seen ps else p ∷ distinct_from (p ∷ seen) ps

unfoldable pub distinct : List Text → List Text
unfolding distinct_from
distinct = distinct_from []

-- `CommandResult(passed=False, returncode=125, stdout=..., stderr=error)`
abbrev pub failed_result : Text → TaskExecutionResult → TaskExecutionResult
failed_result error result = record result {
  passed = false;
  test_result = record {
    passed = false;
    returncode = codes "125";
    stdout = result.test_result.stdout;
    stderr = error;
  };
}

-- The assignments to `result` after a security fix.
unfoldable pub merged : TaskExecutionResult → TaskExecutionResult → TaskExecutionResult
merged result fix = record result {
  passed = result.passed && fix.passed;
  attempts = result.attempts + fix.attempts;
  changed_files = distinct (result.changed_files ++ fix.changed_files);
  test_result = fix.test_result;
  diagnoses = result.diagnoses ++ fix.diagnoses;
}

-- `result.passed and security_review is not None and security_review.has_blocking_findings`
abbrev pub is_blocked_by : TaskExecutionResult → Option (List SecurityFinding) → Bool
is_blocked_by result none = false
is_blocked_by result (some findings) = result.passed && has_blocking_findings findings

module _ {W : Type 0} where
  -- A call of the retry loop without the callback.
  abbrev pub without_events :
      (W → Outcome TaskExecutionResult × List (Emitted × W) × W)
      → W
      → Outcome TaskExecutionResult × W
  without_events run w = let (r, _, w') = run w in (r, w')

  -- `_set_attempts`
  unfoldable pub set_attempts : Text → ℕ → Action W (Unit {0})
  set_attempts id attempts s = elim (find_task id s.state.tasks) [
    | none ↦ pure tt s
    | some t ↦
        (modify (λ state. record state { tasks = assign_attempts id attempts state.tasks }) >> save)
          s
  ]
