-- ===== src/TaskExecutor/Whole.antt =====
-- The retry loop from its call to its result.
use local_ai_workestra.Base.{
  codes, ◌||◌, ◌+◌, ◌≤◌, ◌≡◌, ◌≢◌, refl, Bool, true, false, List, Text, text_eq, ap, arith,
}
use local_ai_workestra.Session.{returns}
use local_ai_workestra.Work.{
  Desk, assertion_error, out_of_fuel, done, fault, Tried, git_ok, git_failed, ◌>>=◌, pure, tell,
  call, call_git, tried_of,
}
use local_ai_workestra.Work.Meets.{
  Meets-tell, Ends-then, Meets, Meets-bind, Meets-if, Meets-weaken, Meets-call_git, Meets-at,
  Meets-stops, Ends, Ends-call,
}
use local_ai_workestra.Tracked.{TaskExecutionResult}
use local_ai_workestra.TaskExecutor.{
  Workbench, TaskCall, Bootstrap, prepared, bootstrap_failed, initial_state,
}
use local_ai_workestra.TaskExecutor.Baseline.{
  Baseline, established, triage_error, establish_baseline,
}
use local_ai_workestra.TaskExecutor.Updates.{max_scope_repairs}
use local_ai_workestra.TaskExecutor.Execute.{
  qwen_attempts, loop_fuel, loop, unattempted, after_baseline, clean_repository,
  prepare_attempt_workspace, with_workspace, after_bootstrap, tell_bootstrapped, bootstrapped_event,
  execute_task_with_retries, baseline_finished_event,
}
use local_ai_workestra.TaskExecutor.Verdict.{RolledBack, IsAccepted, Ready}
use local_ai_workestra.TaskExecutor.Established.{FromResult, establish_baseline-Meets}
use local_ai_workestra.TaskExecutor.Loops.{loop-Meets}

module _ {W : Type 0} (bench : Workbench W) (c : TaskCall) where
  -- What a result is known to have gone through, without the loop's own variables.
  pub record IsSettled (result : TaskExecutionResult) (d : Desk W) : Type 0 where
    pub accepted : result.passed ≡ true → IsAccepted bench c result
    pub undone :
        ((w : W) → (bench.assert_repository w).0 ≡ returns tt)
        → result.passed ≡ false
        → 1 ≤ result.attempts
        → RolledBack bench c d.world
    pub counted : result.attempts ≤ qwen_attempts c + max_scope_repairs + 1

  -- Git is used wherever the workspace is a repository.
  abbrev SeesGit : Bool → Desk W → Type 0
  SeesGit git d = ((w : W) → (bench.assert_repository w).0 ≡ returns tt) → git ≡ true

  initial_state-Ready : Ready bench c (loop_fuel c) initial_state
  unfolding initial_state
  initial_state-Ready = record {
    enough = omega arith;
    used = omega arith;
    in_budget = omega arith;
    few_repairs = omega arith;
    soft = refl;
    tried = λ h. absurd (omega (arith, h));
  }

  after_baseline-Meets :
      (git : Bool) (b : Baseline) (d : Desk W)
      → SeesGit git d
      → FromResult bench c b d
      → Meets IsSettled (after_baseline bench c git b) d
  unfolding after_baseline unattempted
  after_baseline-Meets git (triage_error code detail result) d sees h = record {
    holds = record {
      accepted = λ e. absurd (cc e);
      undone = λ _ _ attempted. absurd (omega (arith, attempted));
      counted = omega arith;
    };
  }
  after_baseline-Meets git (established baseline) d sees h =
      Meets-tell IsSettled (baseline_finished_event baseline)
        (loop bench c git baseline (loop_fuel c) initial_state) d
        λ d1 _.
          Meets-weaken _ _ (loop bench c git baseline (loop_fuel c) initial_state) d1
            (loop-Meets bench c git baseline h (loop_fuel c) initial_state d1 initial_state-Ready)
            λ result d2 v. record {
              accepted = v.accepted;
              undone = λ present failed _. v.undone (sees present) failed;
              counted = v.counted;
            }

  clean_repository-Meets :
      (t : Tried (Unit {0})) (d : Desk W)
      → (((w : W) → (bench.assert_repository w).0 ≡ returns tt) → t ≡ git_ok tt)
      → Meets SeesGit (clean_repository bench c t) d
  unfolding clean_repository
  clean_repository-Meets (git_failed text) d h = record {
    holds = λ present. absurd (cc (h present));
  }
  clean_repository-Meets (git_ok _) d h =
      Ends-then SeesGit (call bench.assert_clean) _ d (Ends-call _ d)
        λ _ d1. record { holds = λ _. refl }

  prepare_attempt_workspace-Meets :
      (d : Desk W) → Meets SeesGit (prepare_attempt_workspace bench c) d
  unfolding prepare_attempt_workspace
  prepare_attempt_workspace-Meets d =
      Meets-bind (λ t _. ((w : W) → (bench.assert_repository w).0 ≡ returns tt) → t ≡ git_ok tt)
        SeesGit (call_git bench.assert_repository) (clean_repository bench c) d
        (Meets-call_git _ bench.assert_repository d
          λ t e present. cc (e, ap tried_of (present d.world)))
        λ t d1 h. clean_repository-Meets t d1 h

  tell_bootstrapped-Ends :
      (status : Text) (command : List Text) (d : Desk W)
      → Ends (tell_bootstrapped bench c status command) d
  unfolding tell_bootstrapped
  tell_bootstrapped-Ends status command d =
      Meets-if (λ _ _. Unit)
        (text_eq status (codes "bootstrapped") || text_eq status (codes "reused"))
        (tell (bootstrapped_event status command)) (pure tt) d (λ _. record { holds = tt })
        (λ _. record { holds = tt })

  after_bootstrap-Meets :
      (b : Bootstrap) (d : Desk W) → Meets IsSettled (after_bootstrap bench c b) d
  unfolding after_bootstrap unattempted with_workspace
  after_bootstrap-Meets (bootstrap_failed code detail) d = record {
    holds = record {
      accepted = λ e. absurd (cc e);
      undone = λ _ _ attempted. absurd (omega (arith, attempted));
      counted = omega arith;
    };
  }
  after_bootstrap-Meets (prepared status command) d =
      let started = prepare_attempt_workspace bench c >>= with_workspace bench c in
      Ends-then IsSettled (tell_bootstrapped bench c status command) (λ _. started) d
        (tell_bootstrapped-Ends status command d)
        λ _ d1.
          Meets-bind SeesGit IsSettled (prepare_attempt_workspace bench c) (with_workspace bench c)
            d1 (prepare_attempt_workspace-Meets d1)
            λ git d2 sees.
              Meets-bind (FromResult bench c) IsSettled (establish_baseline bench c.test_command)
                (after_baseline bench c git) d2 (establish_baseline-Meets bench c d2)
                λ b d3 h. after_baseline-Meets git b d3 sees h

  pub execute_task_with_retries-Meets :
      (d : Desk W) → Meets IsSettled (execute_task_with_retries bench c) d
  unfolding execute_task_with_retries
  execute_task_with_retries-Meets d =
      Ends-then IsSettled (call (bench.prepare_environment c.test_command))
        (after_bootstrap bench c) d (Ends-call _ d) after_bootstrap-Meets

  pub execute_task_with_retries-IsAccepted :
      (d d' : Desk W) (result : TaskExecutionResult)
      → execute_task_with_retries bench c d ≡ (done result, d')
      → result.passed ≡ true
      → IsAccepted bench c result
  execute_task_with_retries-IsAccepted d d' result e passed =
      (Meets-at IsSettled (execute_task_with_retries bench c) d result d'
          (execute_task_with_retries-Meets d) e).accepted
        passed

  -- In a repository, after a result that did not pass and was attempted, the world is what a rollback
  -- that returned left.
  pub execute_task_with_retries-RolledBack :
      (d d' : Desk W) (result : TaskExecutionResult)
      → ((w : W) → (bench.assert_repository w).0 ≡ returns tt)
      → execute_task_with_retries bench c d ≡ (done result, d')
      → result.passed ≡ false
      → 1 ≤ result.attempts
      → RolledBack bench c d'.world
  execute_task_with_retries-RolledBack d d' result present e failed attempted =
      (Meets-at IsSettled (execute_task_with_retries bench c) d result d'
          (execute_task_with_retries-Meets d) e).undone
        present failed attempted

  -- A result has at most as many attempts as the retry limit and one more, two scope repairs and the
  -- fallback engineer's attempt.
  pub execute_task_with_retries-attempts :
      (d d' : Desk W) (result : TaskExecutionResult)
      → execute_task_with_retries bench c d ≡ (done result, d')
      → result.attempts ≤ c.retry_limit + 4
  execute_task_with_retries-attempts d d' result e = omega (
    arith,
    (Meets-at IsSettled (execute_task_with_retries bench c) d result d'
        (execute_task_with_retries-Meets d) e).counted,
  )

  -- The call ends with a result or with an exception of the code outside: its loop does not run out of
  -- the fuel that the limits give, and the assertion after the loop does not fail.
  pub execute_task_with_retries_stops :
      (d : Desk W)
      → ((execute_task_with_retries bench c d).0 ≢ fault out_of_fuel)
        × ((execute_task_with_retries bench c d).0 ≢ fault assertion_error)
  execute_task_with_retries_stops d =
      Meets-stops IsSettled (execute_task_with_retries bench c) d
        (execute_task_with_retries-Meets d)
