-- ===== src/Validation/Verifiers.antt =====
-- The code tasks below the test tasks of an accepted plan.
use local_ai_workestra.Base.{
  ℕ, zero, suc, ◌+◌, ◌≡◌, sym, Bool, true, false, not, Option, some, List, [], ◌∷◌, arith, Text,
  text_in, is_empty, get_elem?, length, ok, err, raise_if, ◌>>=◌, ok_ne_err,
}
use mathlib.Core.List.{reverse}
use local_ai_workestra.Plan.{PlanTask, ExecutionPlan, is_test}
use local_ai_workestra.Validation.{
  ValidatedPlan, Checked, verifier_only, code_ids_of, code_prerequisite, total_dependencies,
  check_prerequisite, ids_for, validate_plan,
}
use local_ai_workestra.Validation.Prerequisite.{Reaches, Decides, code_prerequisite-Decides}
use local_ai_workestra.Validation.Tasks.{Approved, AllApproved}
use local_ai_workestra.Validation.Sound.{validate_plan-Accepted}

-- A code task that the task depends on, directly or through others.
abbrev pub CodePrerequisite : List Text → List PlanTask → PlanTask → Type 0
CodePrerequisite ids tasks t =
    (d : Text) × Reaches ids tasks t.depends_on d × (text_in d (code_ids_of ids tasks) ≡ true)

found :
    (ids : List Text) (tasks : List PlanTask) (t : PlanTask) (id : Text) (r : Checked Bool)
    → Decides ids tasks t.depends_on r
    → (r >>= λ found. raise_if (not found) (verifier_only id)) ≡ ok tt
    → CodePrerequisite ids tasks t
found ids tasks t id (ok true) w h = w
found ids tasks t id (ok false) w h = ok_ne_err (sym h)
found ids tasks t id (err e) w h = ok_ne_err (sym h)

prerequisite_found :
    (ids : List Text) (tasks : List PlanTask) (t : PlanTask) (id : Text)
    → check_prerequisite ids tasks t id ≡ ok tt
    → is_test t.kind ≡ true
    → is_empty (code_ids_of ids tasks) ≡ false
    → CodePrerequisite ids tasks t
unfolding check_prerequisite
prerequisite_found ids tasks t id h tests some_code =
    found ids tasks t id
      (code_prerequisite (suc (length t.depends_on + total_dependencies tasks)) ids tasks
        (reverse t.depends_on) [])
      (code_prerequisite-Decides ids tasks t.depends_on) (rw (tests, some_code) at h)

Approved-at :
    (ids : List Text) (tasks rest : List PlanTask) (names : List Text) (j : ℕ) (t : PlanTask)
    → length names ≡ length rest
    → AllApproved ids tasks rest names
    → get_elem? rest j ≡ some t
    → (id : Text) × Approved ids tasks t id
Approved-at ids tasks [] names j t len all at = cc
Approved-at ids tasks (u ∷ rest) [] j t len all at = absurd (omega arith)
Approved-at ids tasks (u ∷ rest) (id ∷ names) zero t len all at =
    let e : u ≡ t = cc in (id, rw (sym e) (all.0))
Approved-at ids tasks (u ∷ rest) (id ∷ names) (suc j) t len all at =
    Approved-at ids tasks rest names j t (omega arith) all.1 at

-- If a plan with a code task is accepted, every test task in it depends on a code task, directly
-- or through other tasks.
pub validate_plan-tests_follow_code :
    (plan : ExecutionPlan) (generated_ids : Option (List Text)) (v : ValidatedPlan) (j : ℕ)
    (t : PlanTask)
    → validate_plan plan generated_ids ≡ ok v
    → get_elem? plan.tasks j ≡ some t
    → is_test t.kind ≡ true
    → is_empty (code_ids_of (ids_for plan generated_ids) plan.tasks) ≡ false
    → CodePrerequisite (ids_for plan generated_ids) plan.tasks t
validate_plan-tests_follow_code plan gs v j t h at tests some_code =
    let a = validate_plan-Accepted plan gs v h in
    let ids = ids_for plan gs in
    let (id, approved) =
      Approved-at ids plan.tasks plan.tasks ids j t a.prepared.same_length a.prepared.approved at in
    prerequisite_found ids plan.tasks t id approved.prerequisite tests some_code
