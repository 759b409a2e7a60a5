-- ===== src/TaskExecutor/Baseline.antt =====
-- `establish_baseline` of src/local_agent_orchestrator/services/verification_triage.py: the verification of
-- the workspace before the first attempt, which must leave Git as it was.
use local_ai_workestra.Base.{
  not, Option, none, some, List, [], ◌++◌, if◌then◌else◌, Text, codes, text_eq, is_empty,
}
use local_ai_workestra.Work.{Work, Tried, git_ok, git_failed, ◌>>=◌, ◌>>◌, pure, call, call_git}
use local_ai_workestra.Tracked.{CommandResult}
use local_ai_workestra.Triage.{VerificationSummary, summarize_verification}
use local_ai_workestra.TaskExecutor.{TestRun, finished, not_run, Workbench, exit_125}

-- The summary, or a `VerificationTriageError`.
pub data Baseline : Type 0 where
  established : VerificationSummary → Baseline
  triage_error : Text → Text → Option CommandResult → Baseline

-- What `_baseline_git_guard` returns: nothing outside a repository, or the head of a clean one.
pub data Guard : Type 0 where
  unguarded : Guard
  guarded : Text → Guard
  dirty : Text → Guard

-- The result of a verification that did not run.
unfoldable pub execution_failed : Text → Text → CommandResult
execution_failed name message =
    exit_125 [] (codes "Verification execution failed: " ++ name ++ codes ": " ++ message)

module _ {W : Type 0} (bench : Workbench W) where
  -- `summarize_verification`, with the regular expressions of the workbench.
  abbrev pub summarized : List Text → CommandResult → VerificationSummary
  summarized = summarize_verification bench.find_failures bench.no_tests

  unfoldable pub guard_at_head : Tried Text → Work W Guard
  guard_at_head (git_failed text) = pure (dirty text)
  guard_at_head (git_ok head) = pure (guarded head)

  unfoldable pub guard_if_clean : Tried (Unit {0}) → Work W Guard
  guard_if_clean (git_failed text) = pure (dirty text)
  guard_if_clean (git_ok _) = call_git bench.head >>= guard_at_head

  unfoldable pub guard_in_repository : Tried (Unit {0}) → Work W Guard
  guard_in_repository (git_failed text) = pure unguarded
  guard_in_repository (git_ok _) = call_git bench.assert_clean >>= guard_if_clean

  -- `_baseline_git_guard`
  unfoldable pub baseline_git_guard : Work W Guard
  baseline_git_guard = call_git bench.assert_repository >>= guard_in_repository

  -- The end of `establish_baseline`.
  unfoldable pub interpreted : CommandResult → VerificationSummary → Baseline
  interpreted result summary =
      if summary.interpretable
      then established summary
      else triage_error (codes "baseline_uninterpretable") summary.detail (some result)

  -- The verification changed files: they are rolled back.
  unfoldable pub mutated : CommandResult → Work W Baseline
  mutated result =
      call bench.rollback
      >> pure (
          triage_error (codes "baseline_workspace_mutated")
            (codes "baseline verification mutated the clean target workspace; it was rolled back")
            (some result))

  unfoldable pub unavailable : CommandResult → Text → Baseline
  unavailable result text = triage_error (codes "baseline_workspace_unavailable") text (some result)

  -- The comparison of the heads, and of the status with a clean one.
  unfoldable pub check_status :
      List Text → CommandResult → Text → Text → Tried (List Text) → Work W Baseline
  check_status command result head now (git_failed text) = pure (unavailable result text)
  check_status command result head now (git_ok changed) =
      if not (text_eq now head)
      then pure (
          triage_error (codes "baseline_changed_head")
            (codes "baseline verification changed the target Git HEAD") (some result))
      else if is_empty changed
      then pure (interpreted result (summarized command result))
      else mutated result

  unfoldable pub check_head : List Text → CommandResult → Text → Tried Text → Work W Baseline
  check_head command result head (git_failed text) = pure (unavailable result text)
  check_head command result head (git_ok now) =
      call_git bench.status >>= check_status command result head now

  -- After the run of the verification command; `head` is the guard's, in a repository.
  unfoldable pub check_guard : List Text → Option Text → TestRun → Work W Baseline
  check_guard command head (not_run name message) =
      let result = execution_failed name message in
      pure (triage_error (codes "baseline_execution_failed") result.stderr (some result))
  check_guard command none (finished result) = pure (interpreted result (summarized command result))
  check_guard command (some head) (finished result) =
      call_git bench.head >>= check_head command result head

  unfoldable pub baseline_behind : List Text → Guard → Work W Baseline
  baseline_behind command (dirty text) =
      pure (triage_error (codes "baseline_workspace_dirty") text none)
  baseline_behind command unguarded = call (bench.run_tests command) >>= check_guard command none
  baseline_behind command (guarded head) =
      call (bench.run_tests command) >>= check_guard command (some head)

  -- `establish_baseline`
  unfoldable pub establish_baseline : List Text → Work W Baseline
  establish_baseline command = baseline_git_guard >>= baseline_behind command
