-- ===== src/Manager/Durable.antt =====
-- The methods of the manager as commands, and how a call may end.
use local_ai_workestra.Base.{
  ℕ, suc, ◌≡◌, refl, sym, ◌⊎◌, inl, inr, true, false, Bool, Option, none, some, List, [], ◌∷◌, ◌++◌,
  Option-cases, Bool-cases, Text,
}
use local_ai_workestra.Run.{
  TaskStatus, blocked, skipped, VerificationStatus, RunState, TrajectoryEvent, EventName,
  is_waiting,
}
use local_ai_workestra.Session.{
  Session, RunError, external, Outcome, returns, raises, ◌>>◌, pure, save, written, file_after,
}
use local_ai_workestra.Session.Binds.{returns_ne_raises}
use local_ai_workestra.Manager.{
  find_task, new_task, add_task, record_decision, mark_waiting_for_approval, approve_task,
  mark_failed_as, mark_blocked, mark_skipped, set_verification_status, finish_run, update_task,
}
use local_ai_workestra.Manager.Effects.{
  mark_waiting_for_approval-none, mark_waiting_for_approval-some, approve_task-none,
  approve_task-waiting, approve_task-not_waiting, mark_failed_as-none, mark_failed_as-some,
  set_verification_status-none, set_verification_status-some, update_task-none, update_task-some,
}

-- A call of one of the methods that change a run.
pub data Command : Type 0 where
  add : Text → List Text → Command
  wait approve : Text → Command
  block skip : Text → Text → Command
  verify : Text → VerificationStatus → Command
  finish : Bool → Command
  update : Text → TaskStatus → Option Text → Command

module _ {W : Type 0} where
  abbrev pub perform : Command → Session W → Outcome (Unit {0}) × Session W
  perform (add description verification) = add_task description verification >> pure tt
  perform (wait id) = mark_waiting_for_approval id
  perform (approve id) = approve_task id
  perform (block id reason) = mark_blocked id reason
  perform (skip id reason) = mark_skipped id reason
  perform (verify id status) = set_verification_status id status
  perform (finish ok) = finish_run ok
  perform (update id status error) = update_task id status error

  -- An exception of a write that fails.
  pub record IsUnwritten (s : Session W) (e : RunError) : Type 0 where
    pub write : ℕ
    pub detail : Text
    pub fails : s.disk write ≡ some detail
    pub thrown : e ≡ external detail

  -- How a call may end.
  abbrev pub IsAtomic : Session W → Outcome (Unit {0}) × Session W → Type 0
  IsAtomic s (returns _, s') = s'.saved ≡ s'.state
  IsAtomic s (raises e, s') =
      (s' ≡ s) ⊎ (IsUnwritten s e × ((s'.saved ≡ s.saved) ⊎ (s'.saved ≡ s'.state)))

  pub IsAtomic-returns :
      (s : Session W) (r : Outcome (Unit {0}) × Session W) (a : Unit {0})
      → IsAtomic s r
      → r.0 ≡ returns a
      → r.1.saved ≡ r.1.state
  IsAtomic-returns s (returns x, s') a h e = h
  IsAtomic-returns s (raises x, s') a h e = returns_ne_raises (sym e)

  saved-IsAtomic :
      (o : Option Text) (s : Session W) (state : RunState)
      → s.disk 0 ≡ o
      → IsAtomic s (
        written o,
        record s { state = state; saved = file_after o state s.saved; disk = λ n. s.disk (suc n) },
      )
  saved-IsAtomic none s state e = refl
  saved-IsAtomic (some detail) s state e =
      inr (record { write = 0; detail = detail; fails = e; thrown = refl }, inl refl)

  save-IsAtomic : (s : Session W) (state : RunState) → IsAtomic s (save record s { state = state })
  save-IsAtomic s state = saved-IsAtomic (s.disk 0) s state refl

  recorded-IsAtomic :
      (o : Option Text) (s s' : Session W) (events : List TrajectoryEvent)
      → s.disk 1 ≡ o
      → s'.saved ≡ s'.state
      → IsAtomic s (written o, record s' { events = events; disk = λ n. s'.disk (suc n) })
  recorded-IsAtomic none s s' events e same = same
  recorded-IsAtomic (some detail) s s' events e same =
      inr (record { write = 1; detail = detail; fails = e; thrown = refl }, inr same)

  decided-IsAtomic :
      (o : Option Text) (s : Session W) (state : RunState) (id : Text) (name : EventName)
      (good : Bool) (detail : Text)
      → s.disk 0 ≡ o
      → IsAtomic s (elim (written o) as (λ r. Outcome (Unit {0}) × Session W) [
        | returns a ↦ record_decision id name good detail record s {
          state = state;
          saved = file_after o state s.saved;
          disk = λ n. s.disk (suc n);
        }
        | raises x ↦ (
          raises x,
          record s {
            state = state;
            saved = file_after o state s.saved;
            disk = λ n. s.disk (suc n);
          },
        )
      ])
  unfolding record_decision
  decided-IsAtomic none s state id name good detail e =
      recorded-IsAtomic (s.disk 1) s
        record s { state = state; saved = state; disk = λ n. s.disk (suc n) } _ refl refl
  decided-IsAtomic (some x) s state id name good detail e = saved-IsAtomic (some x) s state e

  decision-IsAtomic :
      (s : Session W) (state : RunState) (id : Text) (name : EventName) (good : Bool)
      (detail : Text)
      → IsAtomic s ((save >> record_decision id name good detail) record s { state = state })
  decision-IsAtomic s state id name good detail =
      decided-IsAtomic (s.disk 0) s state id name good detail refl

  mark_failed_as-IsAtomic :
      (status : TaskStatus) (id reason : Text) (s : Session W)
      → IsAtomic s (mark_failed_as status id reason s)
  mark_failed_as-IsAtomic status id reason s = elim (Option-cases (find_task id s.state.tasks)) [
    | inl missing ↦ rw (mark_failed_as-none id s missing status reason) (inl refl)
    | inr (t, found) ↦ rw (mark_failed_as-some id s t found status reason) (save-IsAtomic s _)
  ]

  twice_bound :
      {A : Type 0} (a : A) (r : Outcome (Unit {0}) × Session W)
      → (((λ s. r) >> pure a) >> pure tt) r.1 ≡ r
  twice_bound a (returns u, s) = refl
  twice_bound a (raises e, s) = refl

  pub add_task-save :
      (description : Text) (verification : List Text) (s : Session W)
      → perform (add description verification) s
        ≡ save record s {
          state = record s.state {
            tasks = s.state.tasks ++ new_task s.state.tasks description verification ∷ [];
          };
        }
  unfolding add_task
  add_task-save description verification s =
      twice_bound (new_task s.state.tasks description verification) _

  -- Every method returns with the state it has written saved, or raises and has changed nothing,
  -- or raises the exception of a write that failed; then the state in the file is the one
  -- before the call or the one that the object now has.
  pub perform-IsAtomic : (c : Command) (s : Session W) → IsAtomic s (perform c s)
  unfolding finish_run
  perform-IsAtomic (add description verification) s =
      rw (add_task-save description verification s) (save-IsAtomic s _)
  perform-IsAtomic (finish good) s = save-IsAtomic s _
  perform-IsAtomic (wait id) s = elim (Option-cases (find_task id s.state.tasks)) [
    | inl missing ↦ rw (mark_waiting_for_approval-none id s missing) (inl refl)
    | inr (t, found) ↦
        rw (mark_waiting_for_approval-some id s t found) (decision-IsAtomic s _ id _ false _)
  ]
  perform-IsAtomic (approve id) s = elim (Option-cases (find_task id s.state.tasks)) [
    | inl missing ↦ rw (approve_task-none id s missing) (inl refl)
    | inr (t, found) ↦ elim (Bool-cases (is_waiting t.status)) [
      | inl waits ↦ rw (approve_task-waiting id s t found waits) (decision-IsAtomic s _ id _ true _)
      | inr other ↦ rw (approve_task-not_waiting id s t found other) (inl refl)
    ]
  ]
  perform-IsAtomic (block id reason) s = mark_failed_as-IsAtomic blocked id reason s
  perform-IsAtomic (skip id reason) s = mark_failed_as-IsAtomic skipped id reason s
  perform-IsAtomic (verify id status) s = elim (Option-cases (find_task id s.state.tasks)) [
    | inl missing ↦ rw (set_verification_status-none id s missing status) (inl refl)
    | inr (t, found) ↦ rw (set_verification_status-some id s t found status) (save-IsAtomic s _)
  ]
  perform-IsAtomic (update id status error) s = elim (Option-cases (find_task id s.state.tasks)) [
    | inl missing ↦ rw (update_task-none id s missing status error) (inl refl)
    | inr (t, found) ↦ rw (update_task-some id s t found status error) (save-IsAtomic s _)
  ]
