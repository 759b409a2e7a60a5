-- ===== src/Safety/Executor.antt =====
-- The tasks that the tracked executor reaches, with its events and its attempts.
use local_ai_workestra.Base.{
  ℕ, ◌+◌, ◌≡◌, refl, inl, inr, true, false, none, some, List, [], ◌∷◌, Option-cases, Text,
}
use local_ai_workestra.Plan.{task_id}
use local_ai_workestra.Run.{running, passed, failed, task_started, task_completed, task_exception}
use local_ai_workestra.Session.{
  Session, RunError, Outcome, returns, raises, Action, modify, attempt,
}
use local_ai_workestra.Manager.{find_task, update_task}
use local_ai_workestra.Tracked.{
  TaskExecutionResult, Emitted, assign_attempts, emit, emit_all, after_events, call_with_events,
  finish_tracked, after_execution, execute_tracked_task, failure_text,
}
use local_ai_workestra.Checkpointed.{set_attempts}
use local_ai_workestra.Safety.{IdsFrom}
use local_ai_workestra.Safety.Kept.{
  Kept, Keeps, Kept-refl, Kept-change_task, Keeps-bind, Keeps-pure, Keeps-raise, Keeps-record_event,
  Keeps-update_task,
}
use local_ai_workestra.Safety.Attempt.{Keeps-outside, Keeps-if}

module _ {W : Type 0} (j : ℕ) where
  pub Keeps-attempt : {A : Type 0} (m : Action W A) → Keeps j m → Keeps j (attempt m)
  Keeps-attempt m km = record {
    on = λ s h. let k = km.on s h in record { ids = k.ids; touched = k.touched };
  }

  -- A failing update, and its event.
  pub Keeps-fail_with :
      (error : Text) → Keeps {W = W} j (update_task (task_id (1 + j)) failed (some error))
  Keeps-fail_with error = Keeps-update_task j failed (some error)

  Keeps-emit_all : (id : Text) (es : List (Emitted × W)) → Keeps {W = W} j (emit_all id es)
  unfolding emit_all emit
  Keeps-emit_all id [] = Keeps-pure j tt
  Keeps-emit_all id ((e, w) ∷ es) = Keeps-bind j _ _ (Keeps-outside j (λ _. (returns tt, w))) λ _.
      Keeps-bind j _ _ (Keeps-record_event j id e.event e.passed e.detail)
        (λ _. Keeps-emit_all id es)

  Keeps-after_events :
      (r : Outcome TaskExecutionResult) (w : W) (told : Outcome (Unit {0}))
      → Keeps j (after_events r w told)
  unfolding after_events
  Keeps-after_events r w (returns _) =
      Keeps-bind j _ _ (Keeps-outside j (λ _. (returns tt, w))) (λ _. Keeps-pure j r)
  Keeps-after_events r w (raises e) = Keeps-pure j (raises e)

  Keeps-call_with_events :
      (id : Text) (run : W → Outcome TaskExecutionResult × List (Emitted × W) × W)
      → Keeps j (call_with_events id run)
  unfolding call_with_events
  Keeps-call_with_events id run = record {
    on = λ s h.
        (Keeps-bind j (attempt (emit_all id (run s.world).1))
            (after_events (run s.world).0 (run s.world).2)
            (Keeps-attempt _ (Keeps-emit_all id (run s.world).1))
            (Keeps-after_events (run s.world).0 (run s.world).2)).on
          s h;
  }

  Kept-attempts :
      (n : ℕ) (s s' : Session W)
      → IdsFrom 1 s.state.tasks
      → s'.state.tasks ≡ assign_attempts (task_id (1 + j)) n s.state.tasks
      → Kept j s s'
  unfolding assign_attempts
  Kept-attempts n s s' h e =
      Kept-change_task (λ t. record t { attempts = n }) j s s' (λ t. refl) (λ t. refl) h e

  pub Keeps-set_attempts : (n : ℕ) → Keeps {W = W} j (set_attempts (task_id (1 + j)) n)
  unfolding set_attempts
  Keeps-set_attempts n = record {
    on = λ s h. elim (Option-cases (find_task (task_id (1 + j)) s.state.tasks)) [
      | inl missing ↦ rw (missing, set_attempts) (Kept-refl j s s h refl)
      | inr (t, found) ↦ rw (found, set_attempts) (Kept-attempts n s _ h refl)
    ];
  }

  Keeps-assign :
      (n : ℕ)
      → Keeps {W = W} j (
          modify
            (λ state. record state { tasks = assign_attempts (task_id (1 + j)) n state.tasks }))
  Keeps-assign n = record { on = λ s h. Kept-attempts n s _ h refl }

  Keeps-finish_tracked :
      (result : TaskExecutionResult) → Keeps {W = W} j (finish_tracked (task_id (1 + j)) result)
  unfolding finish_tracked
  Keeps-finish_tracked result =
      Keeps-if j result.passed _ _
        (Keeps-bind j _ _ (Keeps-update_task j passed none)
          (λ _. Keeps-record_event j (task_id (1 + j)) task_completed (some true) none))
        (Keeps-bind j _ _ (Keeps-fail_with (failure_text result.test_result)) (λ _.
          Keeps-record_event j (task_id (1 + j)) task_completed (some false)
            (some (failure_text result.test_result))))

  Keeps-after_execution :
      (text : RunError → Text) (r : Outcome TaskExecutionResult)
      → Keeps {W = W} j (after_execution text (task_id (1 + j)) r)
  unfolding after_execution
  Keeps-after_execution text (raises e) =
      Keeps-bind j _ _
        (Keeps-record_event j (task_id (1 + j)) task_exception (some false) (some (text e)))
        (λ _.
          Keeps-bind j _ _ (Keeps-fail_with (text e)) (λ _. Keeps-raise TaskExecutionResult j e))
  Keeps-after_execution text (returns result) =
      Keeps-bind j _ _ (Keeps-assign result.attempts)
        (λ _. Keeps-bind j _ _ (Keeps-finish_tracked result) (λ _. Keeps-pure j result))

  pub Keeps-execute_tracked_task :
      (text : RunError → Text) (run : W → Outcome TaskExecutionResult × List (Emitted × W) × W)
      (description : Text)
      → Keeps j (execute_tracked_task text run (task_id (1 + j)) description)
  unfolding execute_tracked_task
  Keeps-execute_tracked_task text run description =
      Keeps-bind j _ _ (Keeps-record_event j (task_id (1 + j)) task_started none (some description))
        (λ _. Keeps-bind j _ _ (Keeps-update_task j running none) (λ _.
          Keeps-bind j _ _ (Keeps-call_with_events (task_id (1 + j)) run)
            (λ r. Keeps-after_execution text r)))
