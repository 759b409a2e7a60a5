-- ===== src/Safety/Scoped/Loop.antt =====
-- What the retry loop returns to the checkpointed executor, directly and through the tracked task.
use mathlib.Core.Path.{subst}
use local_ai_workestra.Base.{ℕ, ◌≡◌, refl, true, false, none, some, List, [], Text, sym}
use local_ai_workestra.Plan.{PlanTask}
use local_ai_workestra.Run.{running, failed, task_started, task_exception}
use local_ai_workestra.Session.{Outcome, returns, raises, Action, ◌>>=◌, attempt, modify}
use local_ai_workestra.Session.Binds.{
  returns-injective, returns_ne_raises, Returns, Returns-pure, Returns-raise, Returns-bind,
}
use local_ai_workestra.Manager.{update_task}
use local_ai_workestra.Runner.{record_event, outside}
use local_ai_workestra.Tracked.{
  TaskExecutionResult, assign_attempts, emit_all, after_events, call_with_events, finish_tracked,
  after_execution, execute_tracked_task,
}
use local_ai_workestra.Work.{Desk, Result, done, fault, from_outside, assertion_error, out_of_fuel}
use local_ai_workestra.TaskExecutor.{scope_of, scope_enabled, Workbench}
use local_ai_workestra.TaskExecutor.Execute.{execute_task_with_retries, outcome_of, retries}
use local_ai_workestra.TaskExecutor.Whole.{execute_task_with_retries-IsAccepted}
use local_ai_workestra.Checkpointed.{Agents, without_events}
use local_ai_workestra.Safety.Scoped.{call_of, with_retries, IsBounded}
use local_ai_workestra.Checkpointed.Commit.{then_Returns}

module _ {W : Type 0} (bench : Workbench W) (test_command : List Text) (retry_limit : ℕ)
    (agents : Agents W) (task : PlanTask)
    (enabled : scope_enabled
        (scope_of task.primary_scope task.discouraged_scope task.forbidden_scope [])
      ≡ true) where
  abbrev pub In : TaskExecutionResult → Type 0
  In = IsBounded task.forbidden_scope

  abbrev pub InOutcome : Outcome TaskExecutionResult → Type 0
  InOutcome (returns result) = In result
  InOutcome (raises e) = Unit

  abbrev pub joined_agents : Agents W
  joined_agents = with_retries bench test_command retry_limit agents

  In-loop :
      (prompt : Text) (w : W) (r : Result TaskExecutionResult) (d : Desk W)
      → execute_task_with_retries bench
          (call_of test_command retry_limit task prompt)
          record { world = w; events = [] }
        ≡ (r, d)
      → InOutcome (outcome_of r)
  unfolding outcome_of call_of scope_of
  In-loop prompt w (done result) d e = record {
    bounded = λ good.
        (execute_task_with_retries-IsAccepted bench (call_of test_command retry_limit task prompt) _
            d result e good).bounded
          enabled;
  }
  In-loop prompt w (fault (from_outside e)) d h = tt
  In-loop prompt w (fault assertion_error) d h = tt
  In-loop prompt w (fault out_of_fuel) d h = tt

  In-retries :
      (prompt : Text) (w : W)
      → InOutcome (retries bench (call_of test_command retry_limit task prompt) w).0
  unfolding retries
  In-retries prompt w = In-loop prompt w _ _ refl

  InOutcome-at :
      (r : Outcome TaskExecutionResult) (a : TaskExecutionResult)
      → InOutcome r
      → r ≡ returns a
      → In a
  InOutcome-at (returns b) a h e = subst In (returns-injective e) h
  InOutcome-at (raises x) a h e = returns_ne_raises (sym e)

  InOutcome-of :
      (r : Outcome TaskExecutionResult)
      → ((a : TaskExecutionResult) → r ≡ returns a → In a)
      → InOutcome r
  InOutcome-of (returns a) h = h a refl
  InOutcome-of (raises e) h = tt

  loop-In :
      (prompt : Text)
      → Returns In (outside (without_events (joined_agents.execute_task_with_retries task prompt)))
  unfolding with_retries
  loop-In prompt = record { on = λ s a e. InOutcome-at _ a (In-retries prompt s.world) e }

  -- A prompt, then the loop.
  pub attempted-In :
      (m : Action W Text)
      → Returns InOutcome (
          attempt (
            m >>= λ prompt.
            outside (without_events (joined_agents.execute_task_with_retries task prompt))))
  attempted-In m =
      let h =
        then_Returns In m
          (λ prompt. outside (without_events (joined_agents.execute_task_with_retries task prompt)))
          loop-In in
      record { on = λ s r e. subst InOutcome (returns-injective e) (InOutcome-of _ (h.on s)) }

  after_events-In :
      (q : Outcome TaskExecutionResult) (w : W) (told : Outcome (Unit {0}))
      → InOutcome q
      → Returns InOutcome (after_events q w told)
  unfolding after_events
  after_events-In q w (returns a) h =
      then_Returns InOutcome (outside (λ _. (returns tt, w))) _ λ _. Returns-pure InOutcome q h
  after_events-In q w (raises e) h = Returns-pure InOutcome (raises e) tt

  call_with_events-In :
      (id prompt : Text)
      → Returns InOutcome
          (call_with_events id (joined_agents.execute_task_with_retries task prompt))
  unfolding call_with_events with_retries
  call_with_events-In id prompt = record {
    on = λ s r e.
        let (q, events, w) = retries bench (call_of test_command retry_limit task prompt) s.world in
        (then_Returns InOutcome (attempt (emit_all id events)) (after_events q w)
            λ told. after_events-In q w told (In-retries prompt s.world)).on
          s r e;
  }

  after_execution-In :
      (id : Text) (r : Outcome TaskExecutionResult)
      → InOutcome r
      → Returns {W = W} In (after_execution agents.text id r)
  unfolding after_execution
  after_execution-In id (raises e) h =
      then_Returns In (record_event id task_exception (some false) (some (agents.text e))) _ λ _.
        then_Returns In (update_task id failed (some (agents.text e))) _ λ _. Returns-raise In e
  after_execution-In id (returns result) h =
      then_Returns In
        (modify (λ state. record state { tasks = assign_attempts id result.attempts state.tasks }))
        _ λ _. then_Returns In (finish_tracked id result) _ λ _. Returns-pure In result h

  -- The tracked task returns what the loop returned.
  pub execute_tracked_task-In :
      (id : Text)
      → Returns In (
          execute_tracked_task agents.text
            (joined_agents.execute_task_with_retries task task.description)
            id
            task.description)
  unfolding execute_tracked_task
  execute_tracked_task-In id =
      then_Returns In (record_event id task_started none (some task.description)) _ λ _.
        then_Returns In (update_task id running none) _ λ _.
          Returns-bind InOutcome In
            (call_with_events id (joined_agents.execute_task_with_retries task task.description)) _
            (call_with_events-In id task.description) λ r h. after_execution-In id r h
