-- ===== src/Validation/Scenarios.antt =====
-- Small plans, run through `validate_plan`.
use mathlib.Core.List.{reverse}
use local_ai_workestra.Base.{
  suc, ◌+◌, ◌≡◌, refl, false, none, some, List, [], ◌∷◌, Text, codes, text_eq, text_in, is_empty,
  ok, err,
}
use local_ai_workestra.Plan.{TaskKind, PlanTask, ExecutionPlan, code, test, docs, low}
use local_ai_workestra.TestCreation.{describes_test_creation}
use local_ai_workestra.Validation.{
  ValidatedPlan, key_error, cycle, code_ids_of, code_prerequisite, total_dependencies, ids_for,
  run_validate_plan, validate_plan,
}
use local_ai_workestra.Validation.Sound.{IsExecutable, validate_plan-IsExecutable}
use local_ai_workestra.Validation.Errors.{Explains, validate_plan-Explains}
use local_ai_workestra.Validation.Verifiers.{CodePrerequisite, validate_plan-tests_follow_code}
use local_ai_workestra.Validation.Prerequisite.{Decides, code_prerequisite-Decides}

abbrev pub a_task : Text → TaskKind → List Text → PlanTask
a_task id kind depends_on = record {
  id = some id;
  description = codes "work";
  kind = kind;
  depends_on = depends_on;
  verification = [];
  primary_scope = [];
  discouraged_scope = [];
  forbidden_scope = [];
  requires_approval = false;
  risk = low;
}

abbrev pub a_plan : List PlanTask → ExecutionPlan
a_plan tasks = record { request = codes "do it"; tasks = tasks }

abbrev pub diamond : ExecutionPlan
diamond = a_plan (
    a_task (codes "d") test (codes "b" ∷ codes "c" ∷ [])
    ∷ a_task (codes "b") docs (codes "a" ∷ [])
    ∷ a_task (codes "c") docs (codes "a" ∷ [])
    ∷ a_task (codes "a") code []
    ∷ [])

abbrev pub diamond_order : ValidatedPlan
diamond_order = record {
  effective_ids = codes "d" ∷ codes "b" ∷ codes "c" ∷ codes "a" ∷ [];
  order = 3 ∷ 1 ∷ 2 ∷ 0 ∷ [];
}

pub diamond-ordered : validate_plan diamond none ≡ ok diamond_order
unfolding run_validate_plan text_eq text_in describes_test_creation
diamond-ordered = refl

loop-rejected :
    validate_plan
      (a_plan
        (a_task (codes "a") code (codes "b" ∷ []) ∷ a_task (codes "b") code (codes "a" ∷ []) ∷ []))
      none
    ≡ err (cycle (codes "a" ∷ codes "b" ∷ []))
unfolding run_validate_plan text_eq text_in describes_test_creation
loop-rejected = refl

-- A test task that reaches a later task with an unknown dependency.
abbrev pub ghost : ExecutionPlan
ghost = a_plan (
    a_task (codes "t") test (codes "c" ∷ [])
    ∷ a_task (codes "c") docs (codes "ghost" ∷ [])
    ∷ a_task (codes "x") code []
    ∷ [])

ghost-key_error : validate_plan ghost none ≡ err (key_error (codes "ghost"))
unfolding run_validate_plan text_eq text_in describes_test_creation
ghost-key_error = refl

validate_plan-IsExecutable_example : IsExecutable diamond.tasks diamond_order
validate_plan-IsExecutable_example =
    validate_plan-IsExecutable diamond none diamond_order diamond-ordered

validate_plan-Explains_example : Explains ghost none (key_error (codes "ghost"))
validate_plan-Explains_example =
    validate_plan-Explains ghost none (key_error (codes "ghost")) ghost-key_error

abbrev diamond_test : PlanTask
diamond_test = a_task (codes "d") test (codes "b" ∷ codes "c" ∷ [])

some_code : is_empty (code_ids_of (ids_for diamond none) diamond.tasks) ≡ false
unfolding run_validate_plan text_eq text_in code_ids_of
some_code = refl

validate_plan-tests_follow_code_example :
    CodePrerequisite (ids_for diamond none) diamond.tasks diamond_test
validate_plan-tests_follow_code_example =
    validate_plan-tests_follow_code diamond none diamond_order 0 diamond_test diamond-ordered refl
      refl some_code

code_prerequisite-Decides_example :
    Decides (ids_for diamond none) diamond.tasks (codes "b" ∷ codes "c" ∷ []) (
      code_prerequisite
        (suc (2 + total_dependencies diamond.tasks))
        (ids_for diamond none)
        diamond.tasks
        (reverse (codes "b" ∷ codes "c" ∷ []))
        [])
code_prerequisite-Decides_example =
    code_prerequisite-Decides (ids_for diamond none) diamond.tasks (codes "b" ∷ codes "c" ∷ [])
