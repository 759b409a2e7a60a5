-- ===== src/TaskExecutor/Endings.antt =====
-- After the loop: a result of the fallback engineer is accepted like one of the loop, and a result that
-- did not pass stands behind a rollback.
use mathlib.Core.Path.{subst}
use local_ai_workestra.Base.{
  ◌+◌, ◌≤◌, ◌≡◌, sym, Bool, true, false, ◌&&◌, Option, none, some, is_some, [], ◌∷◌, ◌++◌, Text,
  arith,
}
use local_ai_workestra.Work.{Desk, Work, ◌>>=◌, ◌>>◌, call}
use local_ai_workestra.Work.Meets.{
  Meets-tell, Meets-told, Ends-then, Meets, Meets-pure, Meets-if, Ends-bind, Ends-call, Ends-pure,
}
use local_ai_workestra.Tracked.{CommandResult, TaskExecutionResult}
use local_ai_workestra.Triage.{VerificationSummary}
use local_ai_workestra.TaskExecutor.{
  Workbench, TaskCall, LoopState, CodingReply, edited, rejected, broke, coding_failure_result,
  last_failure,
}
use local_ai_workestra.TaskExecutor.Baseline.{summarized}
use local_ai_workestra.TaskExecutor.Updates.{max_scope_repairs, rejected_event, failure_of}
use local_ai_workestra.TaskExecutor.Attempt.{
  roll_back, current_changed_files, run_post_verification, request_edits,
}
use local_ai_workestra.TaskExecutor.Fallback.{
  devstral, rejected_fallback_result, loop_result, check_fallback, after_fallback_coding, fallback,
  fallback_event, fallback_prompt, diagnose_fallback, finish_loop, finish_tried, after_loop,
  schema_repair_required,
}
use local_ai_workestra.TaskExecutor.Execute.{qwen_attempts}
use local_ai_workestra.TaskExecutor.Verdict.{RolledBack, IsBroken}
use local_ai_workestra.TaskExecutor.Decisions.{Meets-roll_back}
use local_ai_workestra.TaskExecutor.Turns.{current_changed_files-Ends}
use local_ai_workestra.TaskExecutor.Iterations.{request_edits-Ends}
use local_ai_workestra.TaskExecutor.Conclusions.{Judged, check_scope-Meets}

module _ {W : Type 0} (bench : Workbench W) (c : TaskCall) (git : Bool)
    (baseline : VerificationSummary) where
  -- Where nothing is rolled back.
  Meets-kept :
      (b : Bool) (k : Work W TaskExecutionResult) (d : Desk W)
      → b ≡ false
      → Meets (Judged bench c git baseline) k d
      → Meets (Judged bench c git baseline) (roll_back bench b >> k) d
  unfolding roll_back
  Meets-kept true k d h q = absurd (cc h)
  Meets-kept false k d h q = record { holds = q.holds }

  module _ (from_result : baseline ≡ summarized bench c.test_command baseline.result) where
    check_fallback-Meets :
        (s : LoopState) (result : CommandResult) (d : Desk W)
        → s.attempts_used ≤ qwen_attempts c + max_scope_repairs
        → Meets (Judged bench c git baseline) (check_fallback bench c git baseline s result) d
    unfolding check_fallback
    check_fallback-Meets s result d few =
        Ends-then (Judged bench c git baseline) (current_changed_files bench s.changed_files) _ d
          (current_changed_files-Ends bench c git baseline 0 from_result s.changed_files d)
          λ changed d1.
            check_scope-Meets bench c git baseline from_result result
              (summarized bench c.test_command result)
              (record s {
                post_change_failure_identities =
                    (summarized bench c.test_command result).failure_identities;
                changed_files = changed;
              })
              d1 few

    after_fallback_coding-Meets :
        (s : LoopState) (reply : CodingReply) (d : Desk W)
        → s.attempts_used ≤ qwen_attempts c + max_scope_repairs
        → Meets (Judged bench c git baseline) (after_fallback_coding bench c git baseline s reply) d
    unfolding after_fallback_coding rejected_fallback_result loop_result run_post_verification
    after_fallback_coding-Meets s reply d few =
        elim reply.outcome
          as (λ o.
            Meets (Judged bench c git baseline)
              (after_fallback_coding bench c git baseline s (record reply { outcome = o })) d) [
                | broke e ↦ record { holds = tt }
                | rejected e ↦
                    Meets-roll_back bench c git (Judged bench c git baseline) _ d λ d1 undone.
                      Meets-told (Judged bench c git baseline)
                        (rejected_event (failure_of devstral (s.attempts_used + 1) e))
                        (rejected_fallback_result baseline (coding_failure_result e) (record s {
                          operation_failures =
                              s.operation_failures
                              ++ failure_of devstral (s.attempts_used + 1) e ∷ [];
                        }))
                        d1
                        λ d2 same. record {
                          accepted = λ e. absurd (cc e);
                          undone =
                              λ present _. subst (RolledBack bench c) (sym same) (undone present);
                          counted = omega (arith, few);
                        }
                | edited files ↦
                    Ends-then (Judged bench c git baseline)
                      (run_post_verification bench c.test_command) _ d
                      (Ends-bind (call (bench.run_tests c.test_command)) _ d (Ends-call _ d)
                        λ run d1. Ends-pure _ d1)
                      λ result d1.
                        check_fallback-Meets (record s { changed_files = files }) result d1 few
              ]

    fallback-Meets :
        (result : CommandResult) (s : LoopState) (diagnosis : Text) (d : Desk W)
        → s.attempts_used ≤ qwen_attempts c + max_scope_repairs
        → Meets (Judged bench c git baseline) (fallback bench c git baseline result s diagnosis) d
    unfolding fallback
    fallback-Meets result s diagnosis d few =
        let asked =
          request_edits bench devstral (s.attempts_used + 1) c.scope.forbidden_scope
            (fallback_prompt c diagnosis result s) in
        Meets-tell (Judged bench c git baseline) (fallback_event s)
          (asked >>= after_fallback_coding bench c git baseline s) d
          λ d1 _.
            Ends-then (Judged bench c git baseline) asked
              (after_fallback_coding bench c git baseline s) d1
              (request_edits-Ends bench _ _ _ _ d1)
              λ reply d2. after_fallback_coding-Meets s reply d2 few

    diagnose_fallback-Meets :
        (result : CommandResult) (s : LoopState) (d : Desk W)
        → s.attempts_used ≤ qwen_attempts c + max_scope_repairs
        → Meets (Judged bench c git baseline) (diagnose_fallback bench c git baseline result s) d
    unfolding diagnose_fallback
    diagnose_fallback-Meets result s d few =
        Meets-if (Judged bench c git baseline)
          (schema_repair_required (last_failure s.operation_failures)) _ _ d
          (λ _. fallback-Meets result s [] d few)
          λ _.
            Ends-then (Judged bench c git baseline)
              (call (bench.diagnose_failure c.task result.stdout result.stderr none)) _ d
              (Ends-call _ d)
              λ diagnosis d1.
                fallback-Meets result (record s { diagnoses = s.diagnoses ++ diagnosis ∷ [] })
                  diagnosis d1 few

    -- The loop ended because its fresh attempts are used up.
    finish_loop-Meets :
        (s : LoopState) (result : CommandResult) (d : Desk W)
        → s.hard_scope_failure ≡ false
        → s.attempts_used ≤ qwen_attempts c + max_scope_repairs
        → Meets (Judged bench c git baseline) (finish_loop bench c git baseline s result) d
    unfolding finish_loop
    finish_loop-Meets s result d soft few =
        Meets-roll_back bench c (is_some s.repair_review && git) (Judged bench c git baseline) _ d
          λ d1 _.
            Meets-if (Judged bench c git baseline) s.hard_scope_failure _ _ d1
              (λ hard. absurd (cc (soft, hard))) λ _. diagnose_fallback-Meets result s d1 few

    -- The loop was broken off by a hard scope failure.
    broken_loop-Meets :
        (s : LoopState) (result : CommandResult) (d : Desk W)
        → IsBroken bench c git s d.world
        → Meets (Judged bench c git baseline) (finish_loop bench c git baseline s result) d
    unfolding finish_loop loop_result
    broken_loop-Meets s result d h =
        Meets-kept (is_some s.repair_review && git) _ d (ground (arith, h.unrepaired)) (
          Meets-if (Judged bench c git baseline) s.hard_scope_failure _ _ d
            (λ _.
              Meets-pure (Judged bench c git baseline) (loop_result baseline result s) d record {
                accepted = λ e. absurd (cc e);
                undone = λ present _. h.undone present;
                counted = omega (arith, h.used);
              })
            λ soft. absurd (cc (soft, h.hard)))

    finish_tried-Meets :
        (s : LoopState) (tried : Option CommandResult) (d : Desk W)
        → is_some tried ≡ true
        → ((result : CommandResult)
            → Meets (Judged bench c git baseline) (finish_loop bench c git baseline s result) d)
        → Meets (Judged bench c git baseline) (finish_tried bench c git baseline s tried) d
    unfolding finish_tried
    finish_tried-Meets s none d h k = absurd (cc h)
    finish_tried-Meets s (some result) d h k = k result

    pub after_loop-broken :
        (s : LoopState) (d : Desk W)
        → IsBroken bench c git s d.world
        → Meets (Judged bench c git baseline) (after_loop bench c git baseline s) d
    unfolding after_loop
    after_loop-broken s d h =
        finish_tried-Meets s s.last_result d h.tried λ result. broken_loop-Meets s result d h

    pub after_loop-soft :
        (s : LoopState) (d : Desk W)
        → is_some s.last_result ≡ true
        → s.hard_scope_failure ≡ false
        → s.attempts_used ≤ qwen_attempts c + max_scope_repairs
        → Meets (Judged bench c git baseline) (after_loop bench c git baseline s) d
    unfolding after_loop
    after_loop-soft s d tried soft few =
        finish_tried-Meets s s.last_result d tried λ result. finish_loop-Meets s result d soft few
