-- ===== src/Session.antt =====
-- A run as the code holds it: the state object in memory, the files of its run directory, and the
-- rest of the world (the target repository, the models), which `W` stands for. A method returns
-- what it returns or raises, and the session; what was written stays written after a raise. Any write to
-- the directory may raise: `disk` says of each that is to come whether it does.
pub mod Binds
use local_ai_workestra.Base.{
  ℕ, zero, suc, Option, none, some, Bool, List, [], ◌∷◌, ◌++◌, if◌then◌else◌, Text,
}
use local_ai_workestra.Run.{RunState, TrajectoryEvent}
use local_ai_workestra.Validation.{ValidationError}

pub record Session (W : Type 0) : Type 0 where
  pub state : RunState
  pub saved : RunState  -- state.json
  pub events : List TrajectoryEvent  -- trajectory.jsonl
  pub world : W
  pub disk : ℕ → Option Text  -- of each coming write to the directory, what it raises if it fails

-- What the modelled methods raise. `external` is an exception of the code that `W` stands for.
pub data RunError : Type 0 where
  task_not_found not_waiting git_error : Text → RunError
  plan_execution_error external : Text → RunError
  invalid_plan : ValidationError → RunError
  no_task_waiting not_resumable no_agent_branch task_count_mismatch : RunError

pub data Outcome (A : Type 0) : Type 0 where
  returns : A → Outcome A
  raises : RunError → Outcome A

-- A write that raises leaves the file as it was; the start of a line that a broken append may leave is
-- left out.
abbrev pub written : Option Text → Outcome (Unit {0})
written none = returns tt
written (some detail) = raises (external detail)

abbrev pub file_after : {A : Type 0} → Option Text → A → A → A
file_after none new old = new
file_after (some detail) new old = old

abbrev pub Action : Type 0 → Type 0 → Type 0
Action W A = Session W → Outcome A × Session W

module _ {W : Type 0} where
  infixr 5 ◌>>=◌ ◌>>◌
  abbrev pub ◌>>=◌ : {A B : Type 0} → Action W A → (A → Action W B) → Action W B
  ◌>>=◌ m f s = let (r, s') = m s in elim r [ returns a ↦ f a s' | raises e ↦ (raises e, s') ]

  abbrev pub ◌>>◌ : {A B : Type 0} → Action W A → Action W B → Action W B
  m >> k = m >>= λ _. k

  abbrev pub pure : {A : Type 0} → A → Action W A
  pure a s = (returns a, s)

  abbrev pub raise : {A : Type 0} → RunError → Action W A
  raise e s = (raises e, s)

  abbrev pub gets : {A : Type 0} → (RunState → A) → Action W A
  gets f s = (returns (f s.state), s)

  abbrev pub modify : (RunState → RunState) → Action W (Unit {0})
  modify f s = (returns tt, record s { state = f s.state })

  -- `try: m except Exception as exc`
  abbrev pub attempt : {A : Type 0} → Action W A → Action W (Outcome A)
  attempt m s = let (r, s') = m s in (returns r, s')

  -- `RunStateManager.save`: a temporary file, which then replaces `state.json`.
  abbrev pub save : Action W (Unit {0})
  save s = (
    written (s.disk 0),
    record s { saved = file_after (s.disk 0) s.state s.saved; disk = λ n. s.disk (suc n) },
  )

  -- The writing of another file of the directory.
  abbrev pub write_file : Action W (Unit {0})
  write_file s = (written (s.disk 0), record s { disk = λ n. s.disk (suc n) })

  -- `append_trajectory_event`
  abbrev pub append_event : TrajectoryEvent → Action W (Unit {0})
  append_event e s = (
    written (s.disk 0),
    record s {
      events = file_after (s.disk 0) (s.events ++ e ∷ []) s.events;
      disk = λ n. s.disk (suc n);
    },
  )

  -- `if c: raise e`
  abbrev pub raise_if : Bool → RunError → Action W (Unit {0})
  raise_if c e s = (if c then raises e else returns tt, s)
