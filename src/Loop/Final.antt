-- ===== src/Loop/Final.antt =====
-- The end of a run: `finalize_plan_run`.
use local_ai_workestra.Base.{
  ℕ, suc, ◌≡◌, refl, sym, ap, ◌∙◌, ◌⊎◌, inl, inr, Bool, true, false, ◌&&◌, Option-cases, none, some,
  if◌then◌else◌, Text,
}
use local_ai_workestra.Run.{passed, failed, running, finalization_started, RunState}
use local_ai_workestra.Session.{
  Session, RunError, external, Outcome, returns, raises, file_after, ◌>>◌, pure,
}
use local_ai_workestra.Manager.{finished_state, finish_run}
use local_ai_workestra.Manager.Durable.{IsUnwritten}
use local_ai_workestra.Runner.{Services, finalization_message, record_event}
use local_ai_workestra.Loop.{event_task, after_finalizer, finalize_plan_run}

-- The state of a run that has ended.
abbrev pub ended_state : Bool → RunState → RunState
ended_state ok state = record state { status = if ok then passed else failed; current_task = none }

-- What a return leaves: the run's result, and whether the finalizer returned.
pub record IsEnded {W : Type 0} (all_passed run_passed finalized : Bool) (state : RunState)
    (s : Session W) : Type 0 where
  pub both : run_passed ≡ all_passed && finalized
  pub ended : s.state ≡ ended_state run_passed state
  pub stored : s.saved ≡ s.state

abbrev pub running_state : RunState → RunState
running_state state = record state { status = running }

-- What a raise leaves: a write failed, and the file has the state before or one that runs.
pub record IsBroken {W : Type 0} (start : Session W) (e : RunError) (s : Session W) : Type 0 where
  pub unwritten : IsUnwritten start e
  pub same_tasks : s.state.tasks ≡ start.state.tasks
  pub stored : (s.saved ≡ start.saved) ⊎ (s.saved ≡ running_state start.state)

abbrev pub IsFinal : {W : Type 0} → Bool → Session W → Outcome (Bool × Bool) × Session W → Type 0
IsFinal all_passed start (returns (run_passed, finalized), s) =
    IsEnded all_passed run_passed finalized start.state s
IsFinal all_passed start (raises e, s) = IsBroken start e s

pub IsFinal-tasks :
    {W : Type 0} (all_passed : Bool) (start : Session W) (left : Outcome (Bool × Bool) × Session W)
    → IsFinal all_passed start left
    → left.1.state.tasks ≡ start.state.tasks
IsFinal-tasks all_passed start (returns r, s) h = ap (λ state. state.tasks) h.ended
IsFinal-tasks all_passed start (raises e, s) h = h.same_tasks

&&-true : (b : Bool) → b ≡ b && true
&&-true true = refl
&&-true false = refl

&&-false : (b : Bool) → false ≡ b && false
&&-false true = refl
&&-false false = refl

module _ {W : Type 0} (services : Services W) (all_passed : Bool) (start : Session W) where
  broken :
      (n : ℕ) (detail : Text) (s : Session W)
      → start.disk n ≡ some detail
      → s.state.tasks ≡ start.state.tasks
      → (s.saved ≡ start.saved) ⊎ (s.saved ≡ running_state start.state)
      → IsBroken start (external detail) s
  broken n detail s e t h = record {
    same_tasks = t;
    unwritten = record { write = n; detail = detail; fails = e; thrown = refl };
    stored = h;
  }

  -- A session whose state runs and is saved, with writes of the start to come.
  record Runs (s : Session W) : Type 0 where
    state_runs : s.state ≡ running_state start.state
    saved_runs : s.saved ≡ running_state start.state
    coming : (k : ℕ) → (n : ℕ) × (s.disk k ≡ start.disk n)

  finish_run-IsFinal :
      (good finalized : Bool) (s : Session W)
      → Runs s
      → good ≡ all_passed && finalized
      → IsFinal all_passed start ((finish_run good >> pure (good, finalized)) s)
  unfolding finish_run finished_state
  finish_run-IsFinal good finalized s h both = elim (Option-cases (s.disk 0)) [
    | inl e ↦ rw e record {
      both = both;
      ended = ap (λ state. ended_state good state) h.state_runs;
      stored = rw e refl;
    }
    | inr (detail, e) ↦ rw e (
        broken (h.coming 0).0 detail (finish_run good s).1 (sym (h.coming 0).1 ∙ e)
          (ap (λ state. state.tasks) h.state_runs) (inr (rw e h.saved_runs)))
  ]

  after_finalizer-IsFinal :
      (r : Outcome (Unit {0})) (s : Session W)
      → Runs s
      → IsFinal all_passed start (after_finalizer services all_passed r s)
  unfolding after_finalizer record_event
  after_finalizer-IsFinal (returns _) s h =
      finish_run-IsFinal all_passed true s h (&&-true all_passed)
  after_finalizer-IsFinal (raises x) s h = elim (Option-cases (s.disk 0)) [
    | inl e ↦ rw e (
        finish_run-IsFinal false false _
          record {
            state_runs = h.state_runs;
            saved_runs = h.saved_runs;
            coming = λ k. h.coming (suc k);
          }
          (&&-false all_passed))
    | inr (detail, e) ↦ rw e (
        broken (h.coming 0).0 detail _ (sym (h.coming 0).1 ∙ e)
          (ap (λ state. state.tasks) h.state_runs) (inr h.saved_runs))
  ]

  pub finalize_plan_run-IsFinal :
      IsFinal all_passed start (finalize_plan_run services all_passed start)
  unfolding finalize_plan_run record_event
  finalize_plan_run-IsFinal =
      let state = running_state start.state in
      let begun =
        (record_event (event_task state) finalization_started none (some finalization_message)
          record start {
            state = state;
            saved = file_after (start.disk 0) state start.saved;
            disk = λ n. start.disk (suc n);
          }).1 in
      let r = services.finalize_run state.run_id start.world in
      elim (Option-cases (start.disk 0)) [
        | inl e0 ↦ elim (Option-cases (start.disk 1)) [
          | inl e1 ↦
              rw (e0, e1)
                (after_finalizer-IsFinal r.0 (record begun { world = r.1 })
                  record {
                    state_runs = refl;
                    saved_runs = rw e0 refl;
                    coming = λ k. (suc (suc k), refl);
                  })
          | inr (detail, e1) ↦ rw (e0, e1) (broken 1 detail _ e1 refl (inr (rw e0 refl)))
        ]
        | inr (detail, e0) ↦ rw e0 (broken 0 detail _ e0 refl (inl (rw e0 refl)))
      ]
