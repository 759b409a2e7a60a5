-- ===== src/TaskExecutor/Conclusions.antt =====
-- The end of the fallback engineer's attempt: what the verdict has seen, and the result.
use mathlib.Core.Path.{subst}
use local_ai_workestra.Base.{
  ◌+◌, ◌≤◌, ◌≡◌, refl, sym, ◌∙◌, Bool, true, false, not, ◌&&◌, some, [], ◌∷◌, ◌++◌, if-intro,
  is_empty, arith,
}
use local_ai_workestra.Work.{Desk, ◌>>◌, pure, tell}
use local_ai_workestra.Work.Meets.{Meets-tell, Ends-then, Meets, Meets-pure, Meets-if, Meets-weaken}
use local_ai_workestra.Scope.{grey}
use local_ai_workestra.Tracked.{CommandResult, TaskExecutionResult}
use local_ai_workestra.Triage.{VerificationSummary, compare_verification}
use local_ai_workestra.ScopeReview.{review_unexpected_scope}
use local_ai_workestra.ScopeReview.Grounded.{review_unexpected_scope-Meets}
use local_ai_workestra.TaskExecutor.{Workbench, TaskCall, LoopState, scope_classification}
use local_ai_workestra.TaskExecutor.Baseline.{summarized}
use local_ai_workestra.TaskExecutor.Updates.{
  max_scope_repairs, tests_event, compared_event, review_event,
}
use local_ai_workestra.TaskExecutor.Attempt.{roll_back}
use local_ai_workestra.TaskExecutor.Fallback.{
  devstral, FallbackVerdict, verdict_of, forbidden_verdict, reviewed_verdict, with_verdict_failure,
  fallback_result, loop_result, conclude_fallback, check_scope,
}
use local_ai_workestra.TaskExecutor.Execute.{qwen_attempts}
use local_ai_workestra.TaskExecutor.Bounded.{is_bounded-scope_classification}
use local_ai_workestra.TaskExecutor.Verdict.{ends_in_pass, ends_in_pass-append, IsAccepted, Verdict}
use local_ai_workestra.TaskExecutor.Decisions.{Meets-roll_back}

module _ {W : Type 0} (bench : Workbench W) (c : TaskCall) (git : Bool)
    (baseline : VerificationSummary) where
  abbrev pub Judged : TaskExecutionResult → Desk W → Type 0
  Judged result d = Verdict bench c git result d.world

  -- What a verdict that allows the change has seen, for the state it is reached in.
  record IsChecked (result : CommandResult) (v : FallbackVerdict) (s : LoopState) : Type 0 where
    compared :
        v.allowed ≡ true
        → (compare_verification baseline (summarized bench c.test_command result)).allowed ≡ true
    bounded :
        v.allowed ≡ true → is_empty (scope_classification c.scope s.changed_files).forbidden ≡ true
    reviewed :
        v.allowed ≡ true
        → is_empty (grey (scope_classification c.scope s.changed_files)) ≡ false
        → ends_in_pass s.scope_reviews ≡ true

  with_verdict_failure-passes :
      (v : FallbackVerdict) (s : LoopState) → v.allowed ≡ true → with_verdict_failure v s ≡ s
  unfolding with_verdict_failure
  with_verdict_failure-passes v s h = rw h refl

  with_verdict_failure-attempts :
      (v : FallbackVerdict) (s : LoopState)
      → (with_verdict_failure v s).attempts_used ≡ s.attempts_used
  unfolding with_verdict_failure
  with_verdict_failure-attempts v s =
      if-intro (λ (t : LoopState). t.attempts_used ≡ s.attempts_used) v.allowed _ _ (λ _. refl)
        (λ _. refl)

  module _ (from_result : baseline ≡ summarized bench c.test_command baseline.result) where
    fallback_result-IsAccepted :
        (result : CommandResult) (v : FallbackVerdict) (s : LoopState)
        → IsChecked result v s
        → v.allowed ≡ true
        → IsAccepted bench c (fallback_result baseline result v s)
    unfolding fallback_result loop_result
    fallback_result-IsAccepted result v s h allowed = record {
      baseline = baseline.result;
      recorded = refl;
      compared =
          subst
            (λ b. (compare_verification b (summarized bench c.test_command result)).allowed ≡ true)
            from_result (h.compared allowed);
      bounded = λ enabled.
          is_bounded-scope_classification c.scope s.changed_files enabled (h.bounded allowed);
      reviewed = h.reviewed allowed;
    }

    conclude_fallback-Meets :
        (result : CommandResult) (post : VerificationSummary) (v : FallbackVerdict) (s : LoopState)
        (d : Desk W)
        → IsChecked result v s
        → s.attempts_used ≤ qwen_attempts c + max_scope_repairs
        → Meets Judged (conclude_fallback bench c git baseline result post v s) d
    unfolding conclude_fallback fallback_result loop_result
    conclude_fallback-Meets result post v s d h few =
        let last = fallback_result baseline result v (with_verdict_failure v s) in
        let told = compared_event v.allowed v.detail (some v.classification) post in
        let rest = roll_back bench (not v.allowed && git) >> pure last in
        Meets-tell Judged (tests_event devstral (s.attempts_used + 1) result post)
          (tell told >> rest) d
          λ d1 _. Meets-tell Judged told rest d1 λ d2 _.
            Meets-roll_back bench c (not v.allowed && git) Judged (pure last) d2 λ d3 undone.
              Meets-pure Judged last d3 record {
                accepted = λ passed.
                    fallback_result-IsAccepted result v (with_verdict_failure v s)
                      (subst (IsChecked result v) (sym (with_verdict_failure-passes v s passed)) h)
                      passed;
                undone = λ present failed. undone (ground arith);
                counted = omega (arith, with_verdict_failure-attempts v s);
              }

    pub check_scope-Meets :
        (result : CommandResult) (post : VerificationSummary) (s : LoopState) (d : Desk W)
        → s.attempts_used ≤ qwen_attempts c + max_scope_repairs
        → Meets Judged
            (check_scope bench c git baseline result post
              (compare_verification baseline (summarized bench c.test_command result))
              s
              (scope_classification c.scope s.changed_files))
            d
    unfolding check_scope forbidden_verdict reviewed_verdict verdict_of
    check_scope-Meets result post s d few =
        let comparison = compare_verification baseline (summarized bench c.test_command result) in
        let classes = scope_classification c.scope s.changed_files in
        Meets-if Judged (not (is_empty classes.forbidden)) _ _ d
          (λ _.
            conclude_fallback-Meets result post (forbidden_verdict classes) _ d
              record {
                compared = λ e. absurd (cc e);
                bounded = λ e. absurd (cc e);
                reviewed = λ e. absurd (cc e);
              }
              few)
          λ bounded.
            Meets-if Judged (comparison.allowed && not (is_empty (grey classes))) _ _ d
              (λ asked.
                Ends-then Judged
                  (review_unexpected_scope bench.reviewer c.task s.changed_files c.scope) _ d
                  (Meets-weaken _ _
                    (review_unexpected_scope bench.reviewer c.task s.changed_files c.scope) d
                    (review_unexpected_scope-Meets bench.reviewer c.task s.changed_files c.scope d)
                    (λ _ _ _. tt))
                  λ review d1.
                    let state = record s { scope_reviews = s.scope_reviews ++ review ∷ [] } in
                    let v = reviewed_verdict review (verdict_of comparison) in
                    Meets-tell Judged (review_event (s.attempts_used + 1) classes review)
                      (conclude_fallback bench c git baseline result post v state) d1
                      λ d2 _.
                        conclude_fallback-Meets result post v state d2
                          record {
                            compared = λ _. ground arith;
                            bounded = λ _. ground arith;
                            reviewed =
                                λ e _. ends_in_pass-append s.scope_reviews review ∙ ground arith;
                          }
                          few)
              λ unasked.
                conclude_fallback-Meets result post (verdict_of comparison) s d
                  record {
                    compared = λ e. e;
                    bounded = λ _. ground arith;
                    reviewed = λ e outside. absurd (ground arith);
                  }
                  few
