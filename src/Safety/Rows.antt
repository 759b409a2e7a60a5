-- ===== src/Safety/Rows.antt =====
-- The gates of the passed tasks under the steps of the loops: a row, its attempt, and the marking of the
-- tasks that remain.
use local_ai_workestra.Base.{
  ℕ, ◌+◌, ◌≡◌, refl, sym, ap, ◌∙◌, ◌⊎◌, inl, inr, false, not, ◌||◌, none, some, List, [], ◌∷◌,
  arith, Bool-cases, Option-cases, Text, text_in, text_eq, any, get_elem?, codes,
}
use mathlib.Core.Bool.{false≢true}
use local_ai_workestra.Plan.{PlanTask, ExecutionPlan, task_id}
use local_ai_workestra.Run.{TaskState, blocked, skipped, is_passed, is_pending}
use local_ai_workestra.Session.{Session, external, returns, raises, Action, ◌>>=◌, pure}
use local_ai_workestra.Session.Binds.{Outcome-cases, bind_returns, bind_raises}
use local_ai_workestra.Manager.{mark_failed_as}
use local_ai_workestra.Runner.{
  Services, blocked_message, skipped_message, missing_dependencies, row_of, row_at, mark_row,
  mark_remaining, attempt_task,
}
use local_ai_workestra.Safety.{IdsFrom, PassedBehindGate}
use local_ai_workestra.Safety.Touch.{IdsFrom-at, Touched-PassedBehindGate}
use local_ai_workestra.Safety.Kept.{
  Unpassed, Keeps, Stops, Keeps-mark_failed_as, Stops-mark_failed_as,
}
use local_ai_workestra.Safety.Attempt.{
  ReachesItsTask, asks, Gate-of, Keeps-attempt_task, Stops-attempt_task,
}

pub List-cases : (xs : List Text) → (xs ≡ []) ⊎ ((y : Text) × (ys : List Text) × (xs ≡ y ∷ ys))
List-cases [] = inl refl
List-cases (y ∷ ys) = inr (y, ys, refl)

-- What a row that was read stands for.
pub row_of-some :
    (plan : ExecutionPlan) (ids : List Text) (ts : List TaskState) (i : ℕ) (task : PlanTask)
    (t : TaskState) (id : Text)
    → row_of plan ids ts i ≡ some (task, t, id)
    → (get_elem? plan.tasks i ≡ some task) × (get_elem? ts i ≡ some t) × (get_elem? ids i ≡ some id)
unfolding row_of
row_of-some plan ids ts i task t id h = ground arith

module _ {W : Type 0} (plan : ExecutionPlan) (ids : List Text) where
  -- The ids are the generated ones, and every passed task is behind its gate.
  pub record Safe (s : Session W) : Type 0 where
    pub generated : IdsFrom 1 s.state.tasks
    pub gated : PassedBehindGate plan ids s.state.tasks

  pub Safe-bind :
      {A B : Type 0} (s : Session W) (m : Action W A) (f : A → Action W B)
      → Safe (m s).1
      → ((a : A) (s' : Session W) → Safe s' → Safe (f a s').1)
      → Safe ((m >>= f) s).1
  Safe-bind s m f safe rest = elim (Outcome-cases (m s).0) [
    | inl (a, e) ↦ rw (bind_returns m f s a e) (rest a (m s).1 safe)
    | inr (x, e) ↦ rw (bind_raises m f s x e) safe
  ]

  module _ (i : ℕ) (s : Session W) where
    row_at-some :
        (row : PlanTask × TaskState × Text)
        → row_of plan ids s.state.tasks i ≡ some row
        → row_at plan ids i s ≡ (returns row, s)
    unfolding row_at
    row_at-some row h = rw (h, row_at)

    row_at-none :
        row_of plan ids s.state.tasks i ≡ none
        → row_at plan ids i s ≡ (raises (external (codes "IndexError")), s)
    unfolding row_at
    row_at-none h = rw (h, row_at)

    module _ {B : Type 0} (f : PlanTask × TaskState × Text → Action W B) where
      pub row_bind-some :
          (row : PlanTask × TaskState × Text)
          → row_of plan ids s.state.tasks i ≡ some row
          → (row_at plan ids i >>= f) s ≡ f row s
      row_bind-some row h =
          let e = row_at-some row h in
          bind_returns (row_at plan ids i) f s row (ap (λ r. r.0) e) ∙ ap (λ r. f row r.1) e

      pub row_bind-none :
          row_of plan ids s.state.tasks i ≡ none
          → (row_at plan ids i >>= f) s ≡ (raises (external (codes "IndexError")), s)
      row_bind-none h =
          let e = row_at-none h in
          bind_raises (row_at plan ids i) f s (external (codes "IndexError")) (ap (λ r. r.0) e)
          ∙ ap (λ r. (raises (external (codes "IndexError")), r.1)) e

  -- An action on a task that has not passed and does not pass.
  Safe-stop :
      {A : Type 0} (j : ℕ) (m : Action W A) (s : Session W)
      → Keeps j m
      → Stops j m
      → Unpassed j s.state.tasks
      → Safe s
      → Safe (m s).1
  Safe-stop j m s km sm u safe =
      let k = km.on s safe.generated in
      let still = sm.on s safe.generated u in
      record {
        generated = k.ids;
        gated =
            Touched-PassedBehindGate plan ids j s.state.tasks (m s).1.state.tasks k.touched u
              (λ p t t' at_p at_t at_t' passes. absurd (false≢true (sym (still t' at_t') ∙ passes)))
              safe.gated;
      }

  module _ (j : ℕ) (s : Session W) (task : PlanTask) (t : TaskState) (safe : Safe s)
      (at_task : get_elem? plan.tasks j ≡ some task) (at_t : get_elem? s.state.tasks j ≡ some t)
      (not_passed : is_passed t.status ≡ false) where
    generated_id : t.id ≡ task_id (1 + j)
    generated_id = IdsFrom-at 1 j s.state.tasks t safe.generated at_t

    unpassed : Unpassed j s.state.tasks
    unpassed t' at = ground arith

    pub Safe-mark_blocked : (reason : Text) → Safe (mark_failed_as blocked t.id reason s).1
    Safe-mark_blocked reason = rw generated_id (
        Safe-stop j (mark_failed_as blocked (task_id (1 + j)) reason) s
          (Keeps-mark_failed_as j blocked reason) (Stops-mark_failed_as j blocked reason refl)
          unpassed safe)

    Safe-mark_skipped : (reason : Text) → Safe (mark_failed_as skipped t.id reason s).1
    Safe-mark_skipped reason = rw generated_id (
        Safe-stop j (mark_failed_as skipped (task_id (1 + j)) reason) s
          (Keeps-mark_failed_as j skipped reason) (Stops-mark_failed_as j skipped reason refl)
          unpassed safe)

    -- The attempt of a task whose dependencies are done.
    pub Safe-attempt_task :
        (services : Services W)
        → ReachesItsTask services
        → missing_dependencies ids s.state.tasks task ≡ []
        → Safe (attempt_task services plan ids j task t s).1
    Safe-attempt_task services law missing = elim (Bool-cases (asks task t)) [
      | inl asked ↦
          Safe-stop j (attempt_task services plan ids j task t) s
            (Keeps-attempt_task services law j plan ids j task t generated_id)
            (Stops-attempt_task services law j plan ids j task t generated_id asked) unpassed safe
      | inr goes ↦
          let k =
            (Keeps-attempt_task services law j plan ids j task t generated_id).on s
              safe.generated in
          record {
            generated = k.ids;
            gated =
                Touched-PassedBehindGate plan ids j s.state.tasks
                  (attempt_task services plan ids j task t s).1.state.tasks k.touched unpassed
                  (λ p u u' at_p at_u at_u' passes.
                    let same_task : p ≡ task = ground arith in
                    let same : u ≡ t = ground arith in
                    rw (same_task, same) (Gate-of ids s.state.tasks task t goes missing))
                  safe.gated;
          }
    ]

  Safe-mark_row :
      (failed_id : Text) (blocked_ids : List Text) (i : ℕ) (task : PlanTask) (t : TaskState)
      (id : Text) (s : Session W)
      → row_of plan ids s.state.tasks i ≡ some (task, t, id)
      → Safe s
      → Safe (mark_row failed_id blocked_ids (task, t, id) s).1
  unfolding mark_row
  Safe-mark_row failed_id blocked_ids i task t id s found safe =
      let (at_task, at_t, _) = row_of-some plan ids s.state.tasks i task t id found in
      elim (Bool-cases (text_eq id failed_id || not (is_pending t.status))) [
        | inl over ↦ rw over safe
        | inr left ↦
            let not_passed : is_passed t.status ≡ false = ground arith in
            elim (Bool-cases (any (λ d. text_in d blocked_ids) task.depends_on)) [
              | inl b ↦
                  rw (left, b)
                    (Safe-bind s (mark_failed_as blocked t.id (blocked_message failed_id))
                      (λ _. pure (id ∷ blocked_ids))
                      (Safe-mark_blocked i s task t safe at_task at_t not_passed
                        (blocked_message failed_id))
                      (λ _ s' safe'. safe'))
              | inr b ↦
                  rw (left, b)
                    (Safe-bind s (mark_failed_as skipped t.id skipped_message)
                      (λ _. pure blocked_ids)
                      (Safe-mark_skipped i s task t safe at_task at_t not_passed skipped_message)
                      (λ _ s' safe'. safe'))
            ]
      ]

  pub Safe-mark_remaining :
      (failed_id : Text) (order : List ℕ) (blocked_ids : List Text) (s : Session W)
      → Safe s
      → Safe (mark_remaining plan ids failed_id order blocked_ids s).1
  unfolding mark_remaining
  Safe-mark_remaining failed_id [] blocked_ids s safe = safe
  Safe-mark_remaining failed_id (i ∷ order) blocked_ids s safe =
      elim (Option-cases (row_of plan ids s.state.tasks i)) [
        | inl gone ↦ rw (row_bind-none i s _ gone) safe
        | inr ((task, t, id), found) ↦ rw (row_bind-some i s _ (task, t, id) found) (
            Safe-bind s (mark_row failed_id blocked_ids (task, t, id))
              (λ more. mark_remaining plan ids failed_id order more)
              (Safe-mark_row failed_id blocked_ids i task t id s found safe)
              (λ more s' safe'. Safe-mark_remaining failed_id order more s' safe'))
      ]
