-- ===== src/Work.antt =====
-- How src/local_agent_orchestrator/services/task_executor.py and what it calls run: a world (the target
-- repository, the models, Git) and the events that the callback was given. An action ends with a
-- value or with a fault; what it did before stays done.
pub mod Meets
use local_ai_workestra.Base.{ℕ, Bool, Option, none, List, [], ◌∷◌, ◌++◌, Text}
use local_ai_workestra.Run.{EventName}
use local_ai_workestra.Session.{RunError, git_error, Outcome, returns, raises}

-- The dictionary that the event callback is called with; `none` is a key that it does not have.
pub record TaskEvent : Type 0 where
  pub event : EventName
  pub model : Option Text
  pub attempt : Option ℕ
  pub passed : Option Bool
  pub detail : Option Text
  pub verification_phase : Option Text
  pub failure_identities : Option (List Text)
  pub verification_classification : Option Text
  pub failure_class : Option Text
  pub scope_decision : Option Text
  pub scope_paths : Option (List Text)
  pub operations : Option (List Text)

abbrev pub event_named : EventName → TaskEvent
event_named name = record {
  event = name;
  model = none;
  attempt = none;
  passed = none;
  detail = none;
  verification_phase = none;
  failure_identities = none;
  verification_classification = none;
  failure_class = none;
  scope_decision = none;
  scope_paths = none;
  operations = none;
}

pub record Desk (W : Type 0) : Type 0 where
  pub world : W
  pub events : List (TaskEvent × W)  -- each with the world at its call

-- An exception of the code outside, a failed `assert`, or a loop of the model without fuel.
pub data Failure : Type 0 where
  from_outside : RunError → Failure
  assertion_error out_of_fuel : Failure

pub data Result (A : Type 0) : Type 0 where
  done : A → Result A
  fault : Failure → Result A

abbrev pub Work : Type 0 → Type 0 → Type 0
Work W A = Desk W → Result A × Desk W

-- A call of Git: what it returned, or the text of its `GitWorkspaceError`.
pub data Tried (A : Type 0) : Type 0 where
  git_ok : A → Tried A
  git_failed : Text → Tried A

abbrev pub result_of : {A : Type 0} → Outcome A → Result A
result_of (returns a) = done a
result_of (raises e) = fault (from_outside e)

abbrev pub tried_of : {A : Type 0} → Outcome A → Result (Tried A)
tried_of (returns a) = done (git_ok a)
tried_of (raises (git_error text)) = done (git_failed text)
tried_of (raises e) = fault (from_outside e)

module _ {W : Type 0} where
  abbrev pub continue : {A B : Type 0} → (A → Work W B) → Result A × Desk W → Result B × Desk W
  continue f (done a, d) = f a d
  continue f (fault e, d) = (fault e, d)

  infixr 5 ◌>>=◌ ◌>>◌
  abbrev pub ◌>>=◌ : {A B : Type 0} → Work W A → (A → Work W B) → Work W B
  ◌>>=◌ m f d = continue f (m d)

  abbrev pub ◌>>◌ : {A B : Type 0} → Work W A → Work W B → Work W B
  m >> k = m >>= λ _. k

  abbrev pub pure : {A : Type 0} → A → Work W A
  pure a d = (done a, d)

  abbrev pub fail_with : {A : Type 0} → Failure → Work W A
  fail_with e d = (fault e, d)

  -- `event_callback(e)`
  abbrev pub tell : TaskEvent → Work W (Unit {0})
  tell e d = (done tt, record d { events = d.events ++ (e, d.world) ∷ [] })

  -- A call of the code outside, whose exceptions nobody here handles.
  abbrev pub call : {A : Type 0} → (W → Outcome A × W) → Work W A
  call f d = (result_of (f d.world).0, record d { world = (f d.world).1 })

  -- A call of Git under `except GitWorkspaceError`.
  abbrev pub call_git : {A : Type 0} → (W → Outcome A × W) → Work W (Tried A)
  call_git f d = (tried_of (f d.world).0, record d { world = (f d.world).1 })

  abbrev pub attempt_of : {A : Type 0} → Result A × Desk W → Result (Outcome A) × Desk W
  attempt_of (done a, d) = (done (returns a), d)
  attempt_of (fault (from_outside e), d) = (done (raises e), d)
  attempt_of (fault assertion_error, d) = (fault assertion_error, d)
  attempt_of (fault out_of_fuel, d) = (fault out_of_fuel, d)

  -- `try: m except Exception as exc`, of code without an `assert`.
  abbrev pub attempt : {A : Type 0} → Work W A → Work W (Outcome A)
  attempt m d = attempt_of (m d)
