-- ===== src/Safety/Resume.antt =====
-- A whole resumed run, with the checkpointed executor in its place.
use local_ai_workestra.Base.{
  ℕ, ◌≡◌, refl, inl, inr, Option, none, some, map, ◌==◌, Bool-cases, Text, is_empty, length, ok,
}
use local_ai_workestra.Plan.{ExecutionPlan}
use local_ai_workestra.Session.{Session, ◌>>◌}
use local_ai_workestra.Validation.{ValidatedPlan, validate_plan}
use local_ai_workestra.Runner.{Services, outside}
use local_ai_workestra.Execution.{
  validated, is_resumable, resume_plan, resume_on, resume_execution_plan,
}
use local_ai_workestra.Checkpointed.{Agents}
use local_ai_workestra.Safety.Kept.{bind_leads}
use local_ai_workestra.Safety.Attempt.{ReachesItsTask}
use local_ai_workestra.Safety.Rows.{Safe}
use local_ai_workestra.Safety.Checkpoint.{with_checkpoints, with_checkpoints-ReachesItsTask}
use local_ai_workestra.Safety.Runs.{Safe-same, Safe-resume_validated}

module _ {W : Type 0} (services : Services W) (law : ReachesItsTask services) (plan : ExecutionPlan)
    (v : ValidatedPlan) where
  -- A session with a safe run whose task ids validate.
  abbrev Ready : Session W → Type 0
  Ready s =
      Safe plan v.effective_ids s
      × (validate_plan plan (some (map (λ t. t.id) s.state.tasks)) ≡ ok v)

  Ready-same : (s s' : Session W) → Ready s → s'.state.tasks ≡ s.state.tasks → Ready s'
  Ready-same s s' (safe, valid) e = (Safe-same plan v.effective_ids s s' safe e, rw e valid)

  Safe-resume_plan :
      (s : Session W) → Ready s → Safe plan v.effective_ids (resume_plan services (some plan) s).1
  unfolding resume_plan validated
  Safe-resume_plan s (safe, valid) = elim (Bool-cases (length plan.tasks == length s.state.tasks)) [
    | inl same ↦ rw (same, valid) (Safe-resume_validated services plan law v s safe)
    | inr other ↦ rw other safe
  ]

  Safe-resume_on :
      (branch : Option Text) (s : Session W)
      → Ready s
      → Safe plan v.effective_ids (resume_on services branch (some plan) s).1
  unfolding resume_on
  Safe-resume_on none s ready = ready.0
  Safe-resume_on (some branch) s ready = elim (Bool-cases (is_empty branch)) [
    | inl empty ↦ rw empty (ready.0)
    | inr named ↦ rw named (
        bind_leads Ready (Safe plan v.effective_ids) s (outside services.assert_clean)
          (λ _. outside (services.switch_branch branch) >> resume_plan services (some plan))
          (Ready-same s _ ready refl) (λ s' r. r.0)
          (λ _ s1 r1.
            bind_leads Ready (Safe plan v.effective_ids) s1
              (outside (services.switch_branch branch)) (λ _. resume_plan services (some plan))
              (Ready-same s1 _ r1 refl) (λ s' r. r.0) (λ _ s2 r2. Safe-resume_plan s2 r2)))
  ]

  Safe-resume_execution_plan :
      (s : Session W)
      → Ready s
      → Safe plan v.effective_ids (resume_execution_plan services (some plan) s).1
  unfolding resume_execution_plan
  Safe-resume_execution_plan s ready = elim (Bool-cases (is_resumable s.state.status)) [
    | inl goes ↦ rw goes (Safe-resume_on s.state.agent_branch s ready)
    | inr stays ↦ rw stays (ready.0)
  ]

module _ {W : Type 0} (agents : Agents W) (limit : ℕ) (services : Services W) where
  -- A resumed run keeps what a run establishes, returned or raised: if the task ids are the
  -- generated ones, every passed task is behind its gate, and the saved plan validates under those
  -- ids, then so it is when the resumed run ends.
  pub resume_execution_plan-Safe :
      (plan : ExecutionPlan) (v : ValidatedPlan) (s : Session W)
      → Safe plan v.effective_ids s
      → validate_plan plan (some (map (λ t. t.id) s.state.tasks)) ≡ ok v
      → Safe plan v.effective_ids
          (resume_execution_plan (with_checkpoints agents limit services) (some plan) s).1
  resume_execution_plan-Safe plan v s safe valid =
      Safe-resume_execution_plan (with_checkpoints agents limit services)
        (with_checkpoints-ReachesItsTask agents limit services) plan v s (safe, valid)
