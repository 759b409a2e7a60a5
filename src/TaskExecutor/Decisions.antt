-- ===== src/TaskExecutor/Decisions.antt =====
-- The decisions at the end of a turn: the next state is ready for the fuel that is left, or the
-- result is accepted.
use mathlib.Core.Path.{subst}
use local_ai_workestra.Base.{
  ℕ, ◌+◌, ◌<◌, ◌≡◌, refl, ◌∙◌, Bool, true, false, ◌&&◌, Option, none, some, is_some, [], ◌∷◌, ◌++◌,
  ltb, if-intro, is_empty, arith,
}
use local_ai_workestra.Work.{Desk, Work, ◌>>◌, pure, call}
use local_ai_workestra.Work.Meets.{
  Meets-tell, Ends-then, Meets, Meets-pure, Meets-then, Meets-if, Meets-weaken, Meets-call,
  Ends-pure,
}
use local_ai_workestra.Scope.{grey}
use local_ai_workestra.Tracked.{CommandResult}
use local_ai_workestra.Triage.{VerificationSummary, compare_verification}
use local_ai_workestra.ScopeReview.{ScopeReview, is_pass, is_revise, review_unexpected_scope}
use local_ai_workestra.ScopeReview.Grounded.{review_unexpected_scope-Meets}
use local_ai_workestra.TaskExecutor.{Workbench, TaskCall, LoopState, scope_classification}
use local_ai_workestra.TaskExecutor.Baseline.{summarized}
use local_ai_workestra.TaskExecutor.Updates.{
  max_scope_repairs, accepted_result, dismissed_state, primary_review,
}
use local_ai_workestra.TaskExecutor.Attempt.{roll_back, decide, review_changes}
use local_ai_workestra.TaskExecutor.Bounded.{is_bounded-scope_classification}
use local_ai_workestra.TaskExecutor.Verdict.{
  ends_in_pass, ends_in_pass-append, IsAccepted, RolledBack, InTurn, Ready, Next, flag,
}

module _ {W : Type 0} where
  module _ (bench : Workbench W) (c : TaskCall) where
    flag_none : (o : Option ScopeReview) → is_some o ≡ false → flag bench c o ≡ 0
    flag_none none h = refl
    flag_none (some review) h = absurd (cc h)

    -- After a rollback if there is a repository.
    pub Meets-roll_back :
        {B : Type 0} (git : Bool) (Q : B → Desk W → Type 0) (k : Work W B) (d : Desk W)
        → ((d' : Desk W) → (git ≡ true → RolledBack bench c d'.world) → Meets Q k d')
        → Meets Q (roll_back bench git >> k) d
    unfolding roll_back
    Meets-roll_back true Q k d h =
        Meets-then (λ d'. true ≡ true → RolledBack bench c d'.world) Q (call bench.rollback) k d
          (Meets-call (λ _ d'. true ≡ true → RolledBack bench c d'.world) bench.rollback d
            λ a e _. record { before = d.world; returned = e; left = refl })
          h
    Meets-roll_back false Q k d h =
        Meets-then (λ _. Unit) Q (pure tt) k d (Ends-pure tt d) (λ d' _. h d' (λ e. absurd (cc e)))

    module _ (git : Bool) (baseline : VerificationSummary) (fuel : ℕ) where
      -- A state of this turn is ready for the next one.
      pub Ready-again :
          (s : LoopState)
          → InTurn bench c fuel s
          → is_some s.repair_review ≡ false
          → is_some s.last_result ≡ true
          → Ready bench c fuel s
      Ready-again s (t, soft) clear tried = record {
        enough = omega (arith, flag_none s.repair_review clear, t.enough);
        used = omega (arith, flag_none s.repair_review clear, t.used);
        in_budget = t.in_budget;
        few_repairs = t.few_repairs;
        soft = soft;
        tried = λ _. tried;
      }

      -- The same, with a repair that is asked for.
      Ready-repair :
          (s : LoopState) (review : ScopeReview)
          → InTurn bench c fuel s
          → is_some s.last_result ≡ true
          → s.repair_attempts < max_scope_repairs
          → Ready bench c fuel
              (record s { repair_attempts = s.repair_attempts + 1; repair_review = some review })
      Ready-repair s review (t, soft) tried more = record {
        enough = omega (arith, t.enough);
        used = omega (arith, t.used);
        in_budget = t.in_budget;
        few_repairs = omega arith;
        soft = soft;
        tried = λ _. tried;
      }

      decide-Meets :
          (result : CommandResult) (review : ScopeReview) (s : LoopState) (d : Desk W)
          → InTurn bench c fuel s
          → is_some s.last_result ≡ true
          → (is_pass review.decision ≡ true
              → IsAccepted bench c
                  (accepted_result baseline.result baseline.failure_identities result s))
          → Meets (Next bench c git fuel) (decide bench c git baseline result review s) d
      unfolding decide accepted_result dismissed_state
      decide-Meets result review s d (t, soft) tried h =
          Meets-if (Next bench c git fuel) (is_pass review.decision) _ _ d
            (λ passes. Meets-pure (Next bench c git fuel) _ d record {
              accepted = λ _. h passes;
              undone = λ _ e. absurd (cc e);
              counted = omega (arith, t.used, t.in_budget, t.few_repairs);
            })
            λ stops.
              Meets-if (Next bench c git fuel)
                (is_revise review.decision && ltb s.repair_attempts max_scope_repairs) _ _ d
                (λ more.
                  Meets-pure (Next bench c git fuel) _ d
                    (Ready-repair s review (t, soft) tried (ground arith)))
                λ over. Meets-roll_back git (Next bench c git fuel) _ d λ d' undone.
                  Meets-pure (Next bench c git fuel) _ d' (
                    if-intro (λ p. Next bench c git fuel p d')
                      (dismissed_state review s).hard_scope_failure _ _
                      (λ hard. record {
                        hard = hard;
                        unrepaired = refl;
                        tried = tried;
                        undone = undone;
                        used = omega (arith, t.used, t.in_budget, t.few_repairs);
                      })
                      λ soft_still.
                        Ready-again (dismissed_state review s) (t, soft_still) refl tried)

      module _ (from_result : baseline ≡ summarized bench c.test_command baseline.result) where
        accepted_result-IsAccepted :
            (result : CommandResult) (s : LoopState)
            → (compare_verification baseline (summarized bench c.test_command result)).allowed
              ≡ true
            → is_empty (scope_classification c.scope s.changed_files).forbidden ≡ true
            → (is_empty (grey (scope_classification c.scope s.changed_files)) ≡ false
                → ends_in_pass s.scope_reviews ≡ true)
            → IsAccepted bench c
                (accepted_result baseline.result baseline.failure_identities result s)
        unfolding accepted_result
        accepted_result-IsAccepted result s allowed bounded reviewed = record {
          baseline = baseline.result;
          recorded = refl;
          compared =
              subst
                (λ b.
                  (compare_verification b (summarized bench c.test_command result)).allowed ≡ true)
                from_result allowed;
          bounded =
              λ enabled. is_bounded-scope_classification c.scope s.changed_files enabled bounded;
          reviewed = reviewed;
        }

        pub review_changes-Meets :
            (result : CommandResult) (s : LoopState) (d : Desk W)
            → InTurn bench c fuel s
            → is_some s.last_result ≡ true
            → (compare_verification baseline (summarized bench c.test_command result)).allowed
              ≡ true
            → is_empty (scope_classification c.scope s.changed_files).forbidden ≡ true
            → Meets
                (Next bench c git fuel)
                (review_changes bench c git baseline result
                  (scope_classification c.scope s.changed_files)
                  s)
                d
        unfolding review_changes
        review_changes-Meets result s d t tried allowed bounded =
            Meets-if (Next bench c git fuel)
              (is_empty (grey (scope_classification c.scope s.changed_files))) _ _ d
              (λ inside. decide-Meets result (primary_review s.changed_files) s d t tried λ _.
                accepted_result-IsAccepted result s allowed bounded
                  λ outside. absurd (cc (inside, outside)))
              λ outside.
                Ends-then (Next bench c git fuel)
                  (review_unexpected_scope bench.reviewer c.task s.changed_files c.scope) _ d
                  (Meets-weaken _ _
                    (review_unexpected_scope bench.reviewer c.task s.changed_files c.scope) d
                    (review_unexpected_scope-Meets bench.reviewer c.task s.changed_files c.scope d)
                    (λ _ _ _. tt))
                  λ review d1. Meets-tell (Next bench c git fuel) _ _ d1 λ d2 _.
                    decide-Meets result review
                      (record s { scope_reviews = s.scope_reviews ++ review ∷ [] }) d2 t tried
                      λ passes.
                        accepted_result-IsAccepted result
                          (record s { scope_reviews = s.scope_reviews ++ review ∷ [] }) allowed
                          bounded λ _. ends_in_pass-append s.scope_reviews review ∙ passes
