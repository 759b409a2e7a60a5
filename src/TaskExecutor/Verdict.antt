-- ===== src/TaskExecutor/Verdict.antt =====
-- What is said of a result of the retry loop: what an accepted change went through, what a rejected
-- one leaves, and how far the counters of the loop go.
use local_ai_workestra.Base.{
  ℕ, ◌+◌, ◌≤◌, ◌≡◌, refl, Bool, true, false, Option, none, some, is_some, List, [], ◌∷◌, ◌++◌,
  is_empty,
}
use local_ai_workestra.Session.{returns}
use local_ai_workestra.Work.{Desk}
use local_ai_workestra.Scope.{grey}
use local_ai_workestra.Tracked.{CommandResult, TaskExecutionResult}
use local_ai_workestra.Triage.{compare_verification}
use local_ai_workestra.ScopeReview.{ScopeReview, is_pass}
use local_ai_workestra.TaskExecutor.{
  Workbench, TaskCall, scope_enabled, scope_classification, LoopState,
}
use local_ai_workestra.TaskExecutor.Bounded.{is_bounded}
use local_ai_workestra.TaskExecutor.Baseline.{summarized}
use local_ai_workestra.TaskExecutor.Updates.{TurnEnd, again, break, accept, max_scope_repairs}
use local_ai_workestra.TaskExecutor.Execute.{qwen_attempts}

-- The last review of a list is a pass.
abbrev pub ends_in_pass : List ScopeReview → Bool
ends_in_pass [] = false
ends_in_pass (r ∷ []) = is_pass r.decision
ends_in_pass (r ∷ q ∷ rs) = ends_in_pass (q ∷ rs)

pub ends_in_pass-append :
    (rs : List ScopeReview) (r : ScopeReview) → ends_in_pass (rs ++ r ∷ []) ≡ is_pass r.decision
ends_in_pass-append [] r = refl
ends_in_pass-append (q ∷ []) r = refl
ends_in_pass-append (q ∷ p ∷ rs) r = ends_in_pass-append (p ∷ rs) r

module _ {W : Type 0} (bench : Workbench W) (c : TaskCall) where
  -- The changes of the result may stand: where there is a scope, no changed
  -- file is forbidden, the verification compares
  -- well with the baseline that the result names, and files outside the primary scope were passed.
  pub record IsAccepted (result : TaskExecutionResult) : Type 0 where
    pub baseline : CommandResult
    pub recorded : result.baseline_result ≡ some baseline
    pub compared :
        (compare_verification
          (summarized bench c.test_command baseline)
          (summarized bench c.test_command result.test_result)).allowed
        ≡ true
    pub bounded :
        scope_enabled c.scope ≡ true
        → is_bounded c.scope.forbidden_scope result.changed_files ≡ true
    pub reviewed :
        is_empty (grey (scope_classification c.scope result.changed_files)) ≡ false
        → ends_in_pass result.scope_reviews ≡ true

  -- The world is what a rollback that returned left.
  pub record RolledBack (w : W) : Type 0 where
    pub before : W
    pub returned : (bench.rollback before).0 ≡ returns tt
    pub left : (bench.rollback before).1 ≡ w

  pub record Verdict (git : Bool) (result : TaskExecutionResult) (w : W) : Type 0 where
    pub accepted : result.passed ≡ true → IsAccepted result
    pub undone : git ≡ true → result.passed ≡ false → RolledBack w
    pub counted : result.attempts ≤ qwen_attempts c + max_scope_repairs + 1

  -- The counters in a turn of the loop that leaves `fuel`.
  pub record Turn (fuel attempts fresh repairs : ℕ) : Type 0 where
    pub enough : qwen_attempts c + max_scope_repairs ≤ fuel + fresh + repairs
    pub used : attempts ≤ fresh + repairs
    pub in_budget : fresh ≤ qwen_attempts c
    pub few_repairs : repairs ≤ max_scope_repairs

  abbrev pub InTurn : ℕ → LoopState → Type 0
  InTurn fuel s =
      Turn fuel s.attempts_used s.fresh_attempts_used s.repair_attempts
      × (s.hard_scope_failure ≡ false)

  abbrev pub flag : Option ScopeReview → ℕ
  flag none = 0
  flag (some review) = 1

  -- The state in which the loop may be entered with `fuel`.
  pub record Ready (fuel : ℕ) (s : LoopState) : Type 0 where
    pub enough :
        qwen_attempts c + max_scope_repairs + flag s.repair_review
        ≤ fuel + s.fresh_attempts_used + s.repair_attempts
    pub used : s.attempts_used + flag s.repair_review ≤ s.fresh_attempts_used + s.repair_attempts
    pub in_budget : s.fresh_attempts_used ≤ qwen_attempts c
    pub few_repairs : s.repair_attempts ≤ max_scope_repairs
    pub soft : s.hard_scope_failure ≡ false
    pub tried : 1 ≤ s.fresh_attempts_used → is_some s.last_result ≡ true

  -- The state that a hard scope failure leaves.
  pub record IsBroken (git : Bool) (s : LoopState) (w : W) : Type 0 where
    pub hard : s.hard_scope_failure ≡ true
    pub unrepaired : is_some s.repair_review ≡ false
    pub tried : is_some s.last_result ≡ true
    pub undone : git ≡ true → RolledBack w
    pub used : s.attempts_used ≤ qwen_attempts c + max_scope_repairs

  abbrev pub Next : Bool → ℕ → TurnEnd → Desk W → Type 0
  Next git fuel (again s) d = Ready fuel s
  Next git fuel (break s) d = IsBroken git s d.world
  Next git fuel (accept result) d = Verdict git result d.world
