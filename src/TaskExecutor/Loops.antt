-- ===== src/TaskExecutor/Loops.antt =====
-- The loop on its fuel: it ends with a verdict on the result.
use local_ai_workestra.Base.{ℕ, zero, suc, ◌≡◌, Bool, false, ltb, ltb→lt, arith}
use local_ai_workestra.Work.{Desk, Work}
use local_ai_workestra.Work.Meets.{Meets, Meets-pure, Meets-bind, Meets-if}
use local_ai_workestra.Tracked.{TaskExecutionResult}
use local_ai_workestra.Triage.{VerificationSummary}
use local_ai_workestra.TaskExecutor.{Workbench, TaskCall, LoopState}
use local_ai_workestra.TaskExecutor.Baseline.{summarized}
use local_ai_workestra.TaskExecutor.Updates.{TurnEnd, again, break, accept}
use local_ai_workestra.TaskExecutor.Attempt.{iteration}
use local_ai_workestra.TaskExecutor.Fallback.{after_loop}
use local_ai_workestra.TaskExecutor.Execute.{qwen_attempts, after_iteration, loop}
use local_ai_workestra.TaskExecutor.Verdict.{Verdict, Ready, Next}
use local_ai_workestra.TaskExecutor.Iterations.{iteration-Meets}
use local_ai_workestra.TaskExecutor.Endings.{after_loop-broken, after_loop-soft}

module _ {W : Type 0} (bench : Workbench W) (c : TaskCall) where
  module _ (git : Bool) (baseline : VerificationSummary)
      (from_result : baseline ≡ summarized bench c.test_command baseline.result) where
    abbrev pub Judged : TaskExecutionResult → Desk W → Type 0
    Judged result d = Verdict bench c git result d.world

    -- The loop's condition fails.
    loop_over :
        (fuel : ℕ) (s : LoopState) (d : Desk W)
        → Ready bench c fuel s
        → ltb s.fresh_attempts_used (qwen_attempts c) ≡ false
        → Meets Judged (after_loop bench c git baseline s) d
    loop_over fuel s d r over =
        after_loop-soft bench c git baseline from_result s d (r.tried (ground arith)) r.soft
          (omega (arith, r.used, r.in_budget, r.few_repairs))

    after_iteration-Meets :
        (turn : LoopState → Work W TaskExecutionResult) (fuel : ℕ) (p : TurnEnd) (d : Desk W)
        → ((s : LoopState) (d' : Desk W) → Ready bench c fuel s → Meets Judged (turn s) d')
        → Next bench c git fuel p d
        → Meets Judged (after_iteration bench c git baseline turn p) d
    unfolding after_iteration
    after_iteration-Meets turn fuel (again s) d k r = k s d r
    after_iteration-Meets turn fuel (break s) d k b =
        after_loop-broken bench c git baseline from_result s d b
    after_iteration-Meets turn fuel (accept result) d k v = Meets-pure Judged result d v

    pub loop-Meets :
        (fuel : ℕ) (s : LoopState) (d : Desk W)
        → Ready bench c fuel s
        → Meets Judged (loop bench c git baseline fuel s) d
    unfolding loop
    loop-Meets zero s d r =
        Meets-if Judged (ltb s.fresh_attempts_used (qwen_attempts c)) _ _ d
          (λ more. absurd (ground (arith, r.enough, r.few_repairs))) (loop_over zero s d r)
    loop-Meets (suc fuel) s d r =
        Meets-if Judged (ltb s.fresh_attempts_used (qwen_attempts c)) _ _ d
          (λ more.
            Meets-bind (Next bench c git fuel) Judged (iteration bench c git baseline s)
              (after_iteration bench c git baseline (loop bench c git baseline fuel)) d
              (iteration-Meets bench c fuel git baseline s d from_result r (ltb→lt _ _ more))
              λ p d1 next.
                after_iteration-Meets (loop bench c git baseline fuel) fuel p d1 (loop-Meets fuel)
                  next)
          (loop_over (suc fuel) s d r)
