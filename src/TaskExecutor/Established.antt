-- ===== src/TaskExecutor/Established.antt =====
-- The baseline that the loop is given: the summary of a run of the verification command.
use local_ai_workestra.Base.{
  ◌≡◌, refl, Option, none, some, List, [], ◌∷◌, Text, if-intro, not, text_eq, is_empty, sym, ap,
}
use local_ai_workestra.Work.{Desk, Tried, git_ok, git_failed, call, call_git}
use local_ai_workestra.Work.Meets.{
  Ends-then, Meets, Meets-pure, Meets-if, Meets-call_git, Ends, Ends-bind, Ends-call,
}
use local_ai_workestra.Tracked.{CommandResult}
use local_ai_workestra.Triage.{
  VerificationSummary, summarize_verification, summarize_failures, parse_pytest_failures,
  is_pytest_command,
}
use local_ai_workestra.TaskExecutor.{Workbench, TaskCall, TestRun, finished, not_run}
use local_ai_workestra.TaskExecutor.Baseline.{
  Baseline, established, triage_error, Guard, unguarded, guarded, dirty, summarized, interpreted,
  mutated, unavailable, check_status, check_head, check_guard, baseline_behind, baseline_git_guard,
  guard_at_head, guard_if_clean, guard_in_repository, establish_baseline,
}

module _ {W : Type 0} (bench : Workbench W) (c : TaskCall) where
  summarize_failures-result :
      (result : CommandResult) (found : List Text)
      → (summarize_failures bench.find_failures bench.no_tests result found).result ≡ result
  unfolding summarize_failures
  summarize_failures-result result [] = refl
  summarize_failures-result result (identity ∷ identities) = refl

  -- The result of a baseline that is established is the one that its summary was made from.
  summarized-result :
      (result : CommandResult) → (summarized bench c.test_command result).result ≡ result
  unfolding summarize_verification
  summarized-result result =
      if-intro (λ (b : VerificationSummary). b.result ≡ result) result.passed _ _ (λ _. refl)
        λ _.
          if-intro (λ (b : VerificationSummary). b.result ≡ result)
            (not (is_pytest_command c.test_command)) _ _ (λ _. refl)
            λ _.
              summarize_failures-result result
                (parse_pytest_failures bench.find_failures bench.no_tests result)

  abbrev pub FromResult : Baseline → Desk W → Type 0
  FromResult (established b) d = b ≡ summarized bench c.test_command b.result
  FromResult (triage_error code detail result) d = Unit

  interpreted-FromResult :
      (result : CommandResult) (d : Desk W)
      → FromResult (interpreted bench result (summarized bench c.test_command result)) d
  unfolding interpreted
  interpreted-FromResult result d =
      if-intro (λ b. FromResult b d) (summarized bench c.test_command result).interpretable _ _
        (λ _. sym (ap (summarized bench c.test_command) (summarized-result result))) (λ _. tt)

  check_guard-Meets :
      (head : Option Text) (run : TestRun) (d : Desk W)
      → Meets FromResult (check_guard bench c.test_command head run) d
  unfolding check_guard check_head check_status mutated unavailable
  check_guard-Meets head (not_run name message) d = record { holds = tt }
  check_guard-Meets none (finished result) d =
      Meets-pure FromResult _ d (interpreted-FromResult result d)
  check_guard-Meets (some head) (finished result) d =
      Ends-then FromResult (call_git bench.head) _ d
        (Meets-call_git (λ _ _. Unit) bench.head d (λ _ _. tt))
        λ now d1.
          elim now as (λ t. Meets FromResult (check_head bench c.test_command result head t) d1) [
            | git_failed text ↦ record { holds = tt }
            | git_ok now_at ↦
                Ends-then FromResult (call_git bench.status) _ d1
                  (Meets-call_git (λ _ _. Unit) bench.status d1 (λ _ _. tt))
                  λ t d2.
                    elim t
                      as (λ t.
                        Meets FromResult (check_status bench c.test_command result head now_at t)
                          d2) [
                            | git_failed text ↦ record { holds = tt }
                            | git_ok changed ↦
                                Meets-if FromResult (not (text_eq now_at head)) _ _ d2
                                  (λ _. record { holds = tt })
                                  λ _.
                                    Meets-if FromResult (is_empty changed) _ _ d2
                                      (λ _.
                                        Meets-pure FromResult _ d2
                                          (interpreted-FromResult result d2))
                                      λ _.
                                        Ends-then FromResult (call bench.rollback) _ d2
                                          (Ends-call _ d2) λ _ d3. record { holds = tt }
                          ]
          ]

  baseline_behind-Meets :
      (guard : Guard) (d : Desk W) → Meets FromResult (baseline_behind bench c.test_command guard) d
  unfolding baseline_behind
  baseline_behind-Meets (dirty text) d = record { holds = tt }
  baseline_behind-Meets unguarded d =
      Ends-then FromResult (call (bench.run_tests c.test_command)) _ d (Ends-call _ d)
        λ run d1. check_guard-Meets none run d1
  baseline_behind-Meets (guarded head) d =
      Ends-then FromResult (call (bench.run_tests c.test_command)) _ d (Ends-call _ d)
        λ run d1. check_guard-Meets (some head) run d1

  guard_if_clean-Ends : (t : Tried (Unit {0})) (d : Desk W) → Ends (guard_if_clean bench t) d
  unfolding guard_if_clean guard_at_head
  guard_if_clean-Ends (git_failed text) d = record { holds = tt }
  guard_if_clean-Ends (git_ok done_by) d =
      Ends-bind (call_git bench.head) (guard_at_head bench) d
        (Meets-call_git (λ _ _. Unit) bench.head d (λ _ _. tt))
        λ t d1. elim t as (λ t. Ends (guard_at_head bench t) d1) [
          | git_failed text ↦ record { holds = tt }
          | git_ok head ↦ record { holds = tt }
        ]

  guard_in_repository-Ends :
      (t : Tried (Unit {0})) (d : Desk W) → Ends (guard_in_repository bench t) d
  unfolding guard_in_repository
  guard_in_repository-Ends (git_failed text) d = record { holds = tt }
  guard_in_repository-Ends (git_ok done_by) d =
      Ends-bind (call_git bench.assert_clean) (guard_if_clean bench) d
        (Meets-call_git (λ _ _. Unit) bench.assert_clean d (λ _ _. tt)) guard_if_clean-Ends

  -- A baseline that is established is the summary of its result.
  pub establish_baseline-Meets :
      (d : Desk W) → Meets FromResult (establish_baseline bench c.test_command) d
  unfolding establish_baseline baseline_git_guard
  establish_baseline-Meets d =
      Ends-then FromResult (baseline_git_guard bench) (baseline_behind bench c.test_command) d
        (Ends-bind (call_git bench.assert_repository) (guard_in_repository bench) d
          (Meets-call_git (λ _ _. Unit) bench.assert_repository d (λ _ _. tt))
          guard_in_repository-Ends)
        baseline_behind-Meets
