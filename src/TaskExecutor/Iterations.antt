-- ===== src/TaskExecutor/Iterations.antt =====
-- The prompt and the call of the coding model leave the counters of the turn alone.
use local_ai_workestra.Base.{
  ℕ, suc, ◌+◌, ◌≤◌, ◌<◌, ◌≡◌, Bool, false, Option, none, some, is_some, List, if◌then◌else◌, Text,
  arith,
}
use local_ai_workestra.Work.{Desk, ◌>>=◌, pure, call}
use local_ai_workestra.Work.Meets.{
  Meets-tell, Ends-then, Meets, Meets-pure, Meets-bind, Meets-if, Meets-call, Ends, Ends-bind,
  Ends-pure,
}
use local_ai_workestra.Tracked.{CommandResult, OperationFailure}
use local_ai_workestra.Triage.{VerificationSummary}
use local_ai_workestra.ScopeReview.{ScopeReview}
use local_ai_workestra.TaskExecutor.{Workbench, TaskCall, LoopState}
use local_ai_workestra.TaskExecutor.Prompts.{base_prompt}
use local_ai_workestra.TaskExecutor.Baseline.{summarized}
use local_ai_workestra.TaskExecutor.Updates.{counted, started_event, qwen_coder, max_scope_repairs}
use local_ai_workestra.TaskExecutor.Attempt.{
  tell_operations, request_edits, diagnosed, fresh_prompt, revised_prompt, pending_into,
  with_pending, attempt_prompt, captured, attempt_with, iteration,
}
use local_ai_workestra.TaskExecutor.Execute.{qwen_attempts}
use local_ai_workestra.TaskExecutor.Verdict.{Turn, InTurn, Ready, Next, flag}
use local_ai_workestra.TaskExecutor.Turns.{after_coding-Meets}

module _ {W : Type 0} (bench : Workbench W) where
  tell_operations-Ends :
      (model : Text) (attempt : ℕ) (operations : Option (List Text)) (d : Desk W)
      → Ends (tell_operations bench model attempt operations) d
  unfolding tell_operations
  tell_operations-Ends model attempt none d = Ends-pure tt d
  tell_operations-Ends model attempt (some operations) d = record { holds = tt }

  pub request_edits-Ends :
      (model : Text) (attempt : ℕ) (forbidden : List Text) (prompt : Text) (d : Desk W)
      → Ends (request_edits bench model attempt forbidden prompt) d
  unfolding request_edits
  request_edits-Ends model attempt forbidden prompt d =
      let (reply, w) = bench.execute_coding_task model prompt forbidden d.world in
      record {
        holds =
            (Ends-bind (tell_operations bench model attempt reply.operations) (λ _. pure reply)
              (record d { world = w })
              (tell_operations-Ends model attempt reply.operations (record d { world = w }))
              (λ _ d1. Ends-pure reply d1)).holds;
      }

  module _ (c : TaskCall) (fuel : ℕ) where
    abbrev KeepsTurn : Text × LoopState → Desk W → Type 0
    KeepsTurn (prompt, s) d = InTurn bench c fuel s

    fresh_prompt-Meets :
        (prompt : Text) (result : Option CommandResult) (s : LoopState) (d : Desk W)
        → InTurn bench c fuel s
        → Meets KeepsTurn (fresh_prompt bench c prompt result s) d
    unfolding fresh_prompt diagnosed
    fresh_prompt-Meets prompt none s d t = Meets-pure KeepsTurn _ d t
    fresh_prompt-Meets prompt (some result) s d t =
        Meets-if KeepsTurn s.skip_diagnosis _ _ d
          (λ _. Meets-pure KeepsTurn (prompt, record s { skip_diagnosis = false }) d t)
          λ _.
            Ends-then KeepsTurn
              (call
                (bench.diagnose_failure c.task result.stdout result.stderr s.latest_repo_context))
              _ d (Meets-call (λ _ _. Unit) _ d (λ _ _. tt)) λ diagnosis d1. record { holds = t }

    revised_prompt-Meets :
        (prompt : Text) (review : Option ScopeReview) (s : LoopState) (d : Desk W)
        → InTurn bench c fuel s
        → Meets KeepsTurn (revised_prompt bench c prompt review s) d
    unfolding revised_prompt
    revised_prompt-Meets prompt none s d t = fresh_prompt-Meets prompt s.last_result s d t
    revised_prompt-Meets prompt (some review) s d t = record { holds = t }

    pending_into-KeepsTurn :
        (pending : Option OperationFailure) (prompt : Text) (s : LoopState) (d : Desk W)
        → InTurn bench c fuel s
        → KeepsTurn (pending_into bench pending prompt s) d
    unfolding pending_into
    pending_into-KeepsTurn none prompt s d t = t
    pending_into-KeepsTurn (some f) prompt s d t = t

    attempt_prompt-Meets :
        (s : LoopState) (d : Desk W)
        → InTurn bench c fuel s
        → Meets KeepsTurn (attempt_prompt bench c s) d
    unfolding attempt_prompt with_pending
    attempt_prompt-Meets s d t =
        Meets-bind KeepsTurn KeepsTurn
          (revised_prompt bench c (base_prompt c.task c.scope) s.repair_review s) _ d
          (revised_prompt-Meets (base_prompt c.task c.scope) s.repair_review s d t)
          λ built d1 kept. record {
            holds = pending_into-KeepsTurn built.1.pending_schema_failure built.0 built.1 d1 kept;
          }

    counted-Turn :
        (o : Option ScopeReview) (attempts fresh repairs : ℕ)
        → qwen_attempts c + max_scope_repairs + flag bench c o ≤ suc fuel + fresh + repairs
        → attempts + flag bench c o ≤ fresh + repairs
        → fresh < qwen_attempts c
        → repairs ≤ max_scope_repairs
        → Turn bench c fuel (attempts + 1) (if is_some o then fresh else fresh + 1) repairs
    counted-Turn none attempts fresh repairs enough used more few = record {
      enough = omega arith;
      used = omega arith;
      in_budget = omega arith;
      few_repairs = few;
    }
    counted-Turn (some review) attempts fresh repairs enough used more few = record {
      enough = omega arith;
      used = omega arith;
      in_budget = omega arith;
      few_repairs = few;
    }

    counted-InTurn :
        (s : LoopState)
        → Ready bench c (suc fuel) s
        → s.fresh_attempts_used < qwen_attempts c
        → InTurn bench c fuel (counted s)
    unfolding counted
    counted-InTurn s r more = (
      counted-Turn s.repair_review s.attempts_used s.fresh_attempts_used s.repair_attempts r.enough
          r.used more r.few_repairs,
      r.soft,
    )

    module _ (git : Bool) (baseline : VerificationSummary) where
      captured-InTurn :
          (context : Option Text) (s : LoopState)
          → InTurn bench c fuel s
          → InTurn bench c fuel (captured bench c git baseline context s)
      unfolding captured
      captured-InTurn none s t = t
      captured-InTurn (some context) s t = t

      pub iteration-Meets :
          (s : LoopState) (d : Desk W)
          → baseline ≡ summarized bench c.test_command baseline.result
          → Ready bench c (suc fuel) s
          → s.fresh_attempts_used < qwen_attempts c
          → Meets (Next bench c git fuel) (iteration bench c git baseline s) d
      unfolding iteration attempt_with
      iteration-Meets s d from_result r more =
          let told = started_event (counted s) in
          let next = Next bench c git fuel in
          Meets-tell next told
            (attempt_prompt bench c (counted s) >>= attempt_with bench c git baseline) d
            λ d1 _.
              Meets-bind KeepsTurn next (attempt_prompt bench c (counted s))
                (attempt_with bench c git baseline) d1
                (attempt_prompt-Meets (counted s) d1 (counted-InTurn s r more))
                λ built d2 kept.
                  Ends-then next
                    (request_edits bench qwen_coder built.1.attempts_used c.scope.forbidden_scope
                      built.0)
                    _ d2 (request_edits-Ends _ _ _ _ d2)
                    λ reply d3.
                      after_coding-Meets bench c git baseline fuel from_result
                        (captured bench c git baseline reply.context built.1) reply d3
                        (captured-InTurn reply.context built.1 kept)
