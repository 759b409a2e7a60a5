-- ===== src/TaskExecutor/Turns.antt =====
-- One turn of the loop: the next state is ready for the fuel that is left, or broken off after a
-- rollback, or the result is accepted.
use mathlib.Core.Path.{subst}
use local_ai_workestra.Base.{
  ℕ, ◌≡◌, refl, sym, Bool, true, false, not, none, some, is_some, List, Text, is_empty, arith,
}
use local_ai_workestra.Work.{Desk, ◌>>◌, tell, call}
use local_ai_workestra.Work.Meets.{
  Meets-tell, Meets-told, Ends-then, Meets, Meets-pure, Meets-if, Ends, Ends-bind, Ends-call,
  Ends-pure,
}
use local_ai_workestra.Tracked.{CommandResult}
use local_ai_workestra.Triage.{VerificationSummary, compare_verification}
use local_ai_workestra.TaskExecutor.{
  classification_text, Workbench, TaskCall, LoopState, scope_classification, CodingReply, edited,
  rejected, broke, listed, not_listed,
}
use local_ai_workestra.TaskExecutor.Baseline.{summarized}
use local_ai_workestra.TaskExecutor.Updates.{
  forbidden_event, rejected_event, failure_of, compared_event, tests_event, qwen_coder,
  compared_state, forbidden_state, rejected_state, again, break,
}
use local_ai_workestra.TaskExecutor.Attempt.{
  after_comparison, verify_changes, check_changes, run_post_verification, current_changed_files,
  changed_with, after_coding,
}
use local_ai_workestra.TaskExecutor.Verdict.{RolledBack, InTurn, Next}
use local_ai_workestra.TaskExecutor.Decisions.{Meets-roll_back, Ready-again, review_changes-Meets}

module _ {W : Type 0} (bench : Workbench W) (c : TaskCall) where
  module _ (git : Bool) (baseline : VerificationSummary) (fuel : ℕ) where
    module _ (from_result : baseline ≡ summarized bench c.test_command baseline.result) where
      after_comparison-Meets :
          (result : CommandResult) (allowed : Bool) (s : LoopState) (d : Desk W)
          → InTurn bench c fuel s
          → is_some s.last_result ≡ true
          → (compare_verification baseline (summarized bench c.test_command result)).allowed
            ≡ allowed
          → is_empty (scope_classification c.scope s.changed_files).forbidden ≡ true
          → Meets
              (Next bench c git fuel)
              (after_comparison bench c git baseline result
                (scope_classification c.scope s.changed_files)
                allowed
                s)
              d
      unfolding after_comparison
      after_comparison-Meets result true s d t tried allowed bounded =
          review_changes-Meets bench c git baseline fuel from_result result s d t tried allowed
            bounded
      after_comparison-Meets result false s d t tried allowed bounded =
          Meets-roll_back bench c git (Next bench c git fuel) _ d λ d' _.
            Meets-pure (Next bench c git fuel) _ d' (
              Ready-again bench c git baseline fuel
                (record s { repair_review = none; skip_diagnosis = false }) t refl tried)

      verify_changes-Meets :
          (s : LoopState) (result : CommandResult) (d : Desk W)
          → InTurn bench c fuel s
          → is_empty (scope_classification c.scope s.changed_files).forbidden ≡ true
          → Meets
              (Next bench c git fuel)
              (verify_changes bench c git baseline
                (scope_classification c.scope s.changed_files)
                s
                result)
              d
      unfolding verify_changes compared_state
      verify_changes-Meets s result d t bounded =
          let post = summarized bench c.test_command result in
          let comparison = compare_verification baseline post in
          let told =
            compared_event comparison.allowed comparison.detail
              (some (classification_text comparison.classification)) post in
          let rest =
            after_comparison bench c git baseline result
              (scope_classification c.scope s.changed_files) comparison.allowed
              (compared_state result post comparison s) in
          Meets-tell (Next bench c git fuel) (tests_event qwen_coder s.attempts_used result post)
            (tell told >> rest) d
            λ d1 _. Meets-tell (Next bench c git fuel) told rest d1 λ d2 _.
              after_comparison-Meets result comparison.allowed
                (compared_state result post comparison s) d2 t refl refl bounded

      check_changes-Meets :
          (s : LoopState) (d : Desk W)
          → InTurn bench c fuel s
          → Meets
              (Next bench c git fuel)
              (check_changes bench c git baseline (scope_classification c.scope s.changed_files) s)
              d
      unfolding check_changes run_post_verification forbidden_state
      check_changes-Meets s d (t, soft) =
          Meets-if (Next bench c git fuel)
            (not (is_empty (scope_classification c.scope s.changed_files).forbidden)) _ _ d
            (λ _. Meets-roll_back bench c git (Next bench c git fuel) _ d λ d1 undone.
              Meets-told (Next bench c git fuel)
                (forbidden_event (scope_classification c.scope s.changed_files) s)
                (break (forbidden_state (scope_classification c.scope s.changed_files) s)) d1
                λ d2 same. record {
                  hard = refl;
                  unrepaired = refl;
                  tried = refl;
                  undone = λ e. subst (RolledBack bench c) (sym same) (undone e);
                  used = omega (arith, t.used, t.in_budget, t.few_repairs);
                })
            λ bounded.
              Ends-then (Next bench c git fuel) (run_post_verification bench c.test_command) _ d
                (Ends-bind (call (bench.run_tests c.test_command)) _ d (Ends-call _ d)
                  λ run d1. Ends-pure _ d1)
                λ result d1. verify_changes-Meets s result d1 (t, soft) (ground arith)

      pub current_changed_files-Ends :
          (files : List Text) (d : Desk W) → Ends (current_changed_files bench files) d
      unfolding current_changed_files changed_with
      current_changed_files-Ends files d =
          Ends-bind (call bench.list_changed) (changed_with bench files) d (Ends-call _ d) λ l d1.
            elim l as (λ l. Ends (changed_with bench files l) d1) [
              | not_listed ↦ Ends-pure files d1
              | listed out ↦
                  Ends-bind (call bench.list_untracked) _ d1 (Ends-call _ d1) λ u d2. Ends-pure _ d2
            ]

      pub after_coding-Meets :
          (s : LoopState) (reply : CodingReply) (d : Desk W)
          → InTurn bench c fuel s
          → Meets (Next bench c git fuel) (after_coding bench c git baseline s reply) d
      unfolding after_coding rejected_state
      after_coding-Meets s reply d t =
          elim reply.outcome
            as (λ o.
              Meets (Next bench c git fuel)
                (after_coding bench c git baseline s (record reply { outcome = o })) d) [
                  | broke e ↦ record { holds = tt }
                  | rejected e ↦ Meets-roll_back bench c git (Next bench c git fuel) _ d λ d1 _.
                      Meets-told (Next bench c git fuel)
                        (rejected_event (failure_of qwen_coder s.attempts_used e))
                        (again (rejected_state e s)) d1
                        λ _ _.
                          Ready-again bench c git baseline fuel (rejected_state e s) t refl refl
                  | edited files ↦
                      Ends-then (Next bench c git fuel) (current_changed_files bench files) _ d
                        (current_changed_files-Ends files d)
                        λ changed d1.
                          check_changes-Meets (record s { changed_files = changed }) d1 t
                ]
