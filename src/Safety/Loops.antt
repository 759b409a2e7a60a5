-- ===== src/Safety/Loops.antt =====
-- The gates of the passed tasks under the loops of a new and of a resumed run.
use local_ai_workestra.Base.{
  ℕ, ◌≡◌, inl, inr, true, false, some, List, [], ◌∷◌, Bool-cases, Option-cases, Text, get_elem?,
}
use local_ai_workestra.Plan.{PlanTask, ExecutionPlan}
use local_ai_workestra.Run.{TaskState, blocked, is_passed}
use local_ai_workestra.Session.{Session, Action, ◌>>=◌, pure}
use local_ai_workestra.Manager.{mark_failed_as}
use local_ai_workestra.Runner.{
  Services, LoopEnd, finished, Progress, TaskEnd, waits, executed, incomplete_message,
  missing_dependencies, row_of, mark_remaining, attempt_task,
}
use local_ai_workestra.Loop.{
  add_commit, is_unsuccessful, after_attempt, run_row, resume_row, run_loop, resume_loop,
}
use local_ai_workestra.Safety.Attempt.{ReachesItsTask}
use local_ai_workestra.Safety.Rows.{
  List-cases, row_of-some, Safe, Safe-bind, Safe-mark_remaining, Safe-attempt_task,
  Safe-mark_blocked, row_bind-none, row_bind-some,
}

module _ {W : Type 0} (plan : ExecutionPlan) (ids : List Text) where
  module _ (services : Services W) (law : ReachesItsTask services) (order : List ℕ) where
    Safe-after_attempt :
        (rest : Progress → Action W (LoopEnd × Progress))
        → ((p : Progress) (s : Session W) → Safe plan ids s → Safe plan ids (rest p s).1)
        → (t : TaskState) (id : Text) (p : Progress) (end : TaskEnd) (s : Session W)
        → Safe plan ids s
        → Safe plan ids (after_attempt services plan ids order rest t id p end s).1
    unfolding after_attempt
    Safe-after_attempt rest ih t id p waits s safe = safe
    Safe-after_attempt rest ih t id p (executed true commit) s safe = ih _ s safe
    Safe-after_attempt rest ih t id p (executed false commit) s safe =
        Safe-bind plan ids s (mark_remaining plan ids id order (id ∷ []))
          (λ _. pure (finished false, add_commit commit p))
          (Safe-mark_remaining plan ids id order (id ∷ []) s safe) (λ _ s' safe'. safe')

    module _ (rest : Progress → Action W (LoopEnd × Progress))
        (ih : (p : Progress) (s : Session W) → Safe plan ids s → Safe plan ids (rest p s).1) (i : ℕ)
        (task : PlanTask) (t : TaskState) (id : Text) (p : Progress) (s : Session W)
        (found : row_of plan ids s.state.tasks i ≡ some (task, t, id))
        (safe : Safe plan ids s) where
      at_row :
          (get_elem? plan.tasks i ≡ some task)
          × (get_elem? s.state.tasks i ≡ some t)
          × (get_elem? ids i ≡ some id)
      at_row = row_of-some plan ids s.state.tasks i task t id found

      Safe-run_row :
          Safe plan ids
            (run_row services plan ids order rest
              (missing_dependencies ids s.state.tasks task)
              i
              task
              t
              id
              p
              s).1
      unfolding run_row
      Safe-run_row = elim (Bool-cases (is_passed t.status)) [
        | inl done ↦ rw done (ih _ s safe)
        | inr not_passed ↦ elim (List-cases (missing_dependencies ids s.state.tasks task)) [
          | inl none_missing ↦
              rw (not_passed, none_missing)
                (Safe-bind plan ids s (attempt_task services plan ids i task t)
                  (after_attempt services plan ids order rest t id p)
                  (Safe-attempt_task plan ids i s task t safe at_row.0 at_row.1 not_passed services
                    law none_missing)
                  (λ end s' safe'. Safe-after_attempt rest ih t id p end s' safe'))
          | inr (d, ds, some_missing) ↦
              rw (not_passed, some_missing)
                (Safe-bind plan ids s
                  (mark_failed_as blocked t.id
                    (incomplete_message (missing_dependencies ids s.state.tasks task)))
                  (λ _. mark_remaining plan ids d order (d ∷ []) >>= λ _. pure (finished false, p))
                  (Safe-mark_blocked plan ids i s task t safe at_row.0 at_row.1 not_passed
                    (incomplete_message (missing_dependencies ids s.state.tasks task)))
                  (λ _ s' safe'.
                    Safe-bind plan ids s' (mark_remaining plan ids d order (d ∷ []))
                      (λ _. pure (finished false, p))
                      (Safe-mark_remaining plan ids d order (d ∷ []) s' safe')
                      (λ _ s2 safe2. safe2)))
        ]
      ]

      Safe-resume_row :
          Safe plan ids
            (resume_row services plan ids order rest
              (missing_dependencies ids s.state.tasks task)
              i
              task
              t
              id
              p
              s).1
      unfolding resume_row
      Safe-resume_row = elim (Bool-cases (is_passed t.status)) [
        | inl done ↦ rw done (ih _ s safe)
        | inr not_passed ↦ elim (Bool-cases (is_unsuccessful t.status)) [
          | inl ended ↦ rw (not_passed, ended) safe
          | inr going ↦ elim (List-cases (missing_dependencies ids s.state.tasks task)) [
            | inl none_missing ↦
                rw (not_passed, going, none_missing)
                  (Safe-bind plan ids s (attempt_task services plan ids i task t)
                    (after_attempt services plan ids order rest t id p)
                    (Safe-attempt_task plan ids i s task t safe at_row.0 at_row.1 not_passed
                      services law none_missing)
                    (λ end s' safe'. Safe-after_attempt rest ih t id p end s' safe'))
            | inr (d, ds, some_missing) ↦
                rw (not_passed, going, some_missing)
                  (Safe-bind plan ids s
                    (mark_failed_as blocked t.id
                      (incomplete_message (missing_dependencies ids s.state.tasks task)))
                    (λ _. pure (finished false, p))
                    (Safe-mark_blocked plan ids i s task t safe at_row.0 at_row.1 not_passed
                      (incomplete_message (missing_dependencies ids s.state.tasks task)))
                    (λ _ s' safe'. safe'))
          ]
        ]
      ]

    -- Whatever the executors answer, and whether it returns or raises, the loop of a new run keeps
    -- every passed task behind its gate: the approval it needs, an executable kind, and its
    -- dependencies passed. It assumes that the ids are the generated ones and that a call of the
    -- checkpointed executor for a task changes that task only.
    pub run_loop-Safe :
        (indices : List ℕ) (p : Progress) (s : Session W)
        → Safe plan ids s
        → Safe plan ids (run_loop services plan ids order indices p s).1
    unfolding run_loop
    run_loop-Safe [] p s safe = safe
    run_loop-Safe (i ∷ indices) p s safe = elim (Option-cases (row_of plan ids s.state.tasks i)) [
      | inl gone ↦ rw (row_bind-none plan ids i s _ gone) safe
      | inr ((task, t, id), found) ↦
          rw (row_bind-some plan ids i s _ (task, t, id) found)
            (Safe-run_row _ (λ p s safe. run_loop-Safe indices p s safe) i task t id p s found safe)
    ]

    -- The same of the loop of a resumed run, under the same conditions.
    pub resume_loop-Safe :
        (indices : List ℕ) (p : Progress) (s : Session W)
        → Safe plan ids s
        → Safe plan ids (resume_loop services plan ids order indices p s).1
    unfolding resume_loop
    resume_loop-Safe [] p s safe = safe
    resume_loop-Safe (i ∷ indices) p s safe =
        elim (Option-cases (row_of plan ids s.state.tasks i)) [
          | inl gone ↦ rw (row_bind-none plan ids i s _ gone) safe
          | inr ((task, t, id), found) ↦ rw (row_bind-some plan ids i s _ (task, t, id) found) (
              Safe-resume_row _ (λ p s safe. resume_loop-Safe indices p s safe) i task t id p s
                found safe)
        ]
