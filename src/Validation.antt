-- ===== src/Validation.antt =====
-- `validate_plan` of src/local_agent_orchestrator/services/plan_validation.py: the ids, the checks of
-- each task, and the dependency order.
pub mod Scenarios
mod Verifiers
mod Errors
mod Sound
mod Counters
mod Tasks
mod Edges
mod Prerequisite
use local_ai_workestra.Base.{
  ℕ, zero, suc, ◌+◌, Bool, true, false, not, ◌&&◌, ◌||◌, Option, none, some, List, [], ◌∷◌, ◌++◌,
  map, ltb, leb, ◌==◌, if◌then◌else◌, Text, text_eq, text_in, is_empty, any, keep, length, get_or,
  Result, ok, err, ◌>>=◌, ◌>>◌, raise_if,
}
use mathlib.Core.List.{reverse}
use local_ai_workestra.Plan.{
  TaskKind, TaskRisk, PlanTask, ExecutionPlan, other_kind, other_risk, is_code, is_test,
  task_ids_from,
}
use local_ai_workestra.Ordering.{sorted_by, drain, zeros_from}
use local_ai_workestra.TestCreation.{describes_test_creation}

-- What `validate_plan` raises: a `PlanValidationError` for each message, and the `KeyError` of a
-- dictionary that is read at an unknown id. `out_of_fuel` is the model's own.
pub data ValidationError : Type 0 where
  id_count_mismatch empty_id duplicate_ids : ValidationError
  unsupported_kind test_creation unsupported_risk self_dependency verifier_only :
      Text → ValidationError
  unknown_dependency : Text → Text → ValidationError
  cycle : List Text → ValidationError
  key_error : Text → ValidationError
  out_of_fuel : ValidationError

abbrev pub Checked : Type 0 → Type 0
Checked A = Result ValidationError A

pub record ValidatedPlan : Type 0 where
  pub effective_ids : List Text
  pub order : List ℕ

-- `task.id or generated_id`
pub effective_task_id : PlanTask → Text → Text
effective_task_id task generated_id = elim task.id [
  | none ↦ generated_id
  | some id ↦ if is_empty id then generated_id else id
]

-- `zip(..., strict=True)` after the lengths were compared.
unfoldable pub effective_ids_of : List PlanTask → List Text → List Text
unfolding effective_task_id
effective_ids_of [] gs = []
effective_ids_of (t ∷ ts) [] = []
effective_ids_of (t ∷ ts) (g ∷ gs) = effective_task_id t g ∷ effective_ids_of ts gs

-- `len(ids) != len(set(ids))`
unfoldable pub has_duplicates : List Text → Bool
has_duplicates [] = false
has_duplicates (x ∷ xs) = text_in x xs || has_duplicates xs

-- `indices[task_id]`
unfoldable pub index_of : Text → List Text → ℕ
index_of id [] = 0
index_of id (x ∷ xs) = if text_eq id x then 0 else suc (index_of id xs)

-- `{effective_id for ... if task.kind == "code"}`
unfoldable pub code_ids_of : List Text → List PlanTask → List Text
code_ids_of [] ts = []
code_ids_of (id ∷ ids) [] = []
code_ids_of (id ∷ ids) (t ∷ ts) =
    let rest = code_ids_of ids ts in if is_code t.kind then id ∷ rest else rest

-- `dependencies_by_id[task_id]`; `none` where that is a `KeyError`.
unfoldable pub dependencies_of : Text → List Text → List PlanTask → Option (List Text)
dependencies_of id [] ts = none
dependencies_of id (x ∷ xs) [] = none
dependencies_of id (x ∷ xs) (t ∷ ts) =
    if text_eq id x then some t.depends_on else dependencies_of id xs ts

-- `dependents: dict[str, list[int]]`, every id a key.
abbrev pub Dependents : Type 0
Dependents = List (Text × List ℕ)

unfoldable pub empty_dependents : List Text → Dependents
empty_dependents [] = []
empty_dependents (id ∷ ids) = (id, []) ∷ empty_dependents ids

unfoldable pub dependents_at : Text → Dependents → List ℕ
dependents_at id [] = []
dependents_at id ((k, v) ∷ d) = if text_eq id k then v else dependents_at id d

-- `dependents[dependency].append(index)`
unfoldable pub append_dependent : Text → ℕ → Dependents → Dependents
append_dependent id index [] = []
append_dependent id index ((k, v) ∷ d) =
    if text_eq id k then (k, v ++ index ∷ []) ∷ d else (k, v) ∷ append_dependent id index d

-- The loop over the dependencies of one task.
unfoldable pub check_dependencies :
    List Text → ℕ → Text → List Text → Dependents → Checked Dependents
unfolding append_dependent
check_dependencies known_ids index id [] dependents = ok dependents
check_dependencies known_ids index id (dependency ∷ rest) dependents = do
  raise_if (not (text_in dependency known_ids)) (unknown_dependency id dependency)
  raise_if (text_eq dependency id) (self_dependency id)
  check_dependencies known_ids index id rest (append_dependent dependency index dependents)

-- `while pending: ...`, the search for a code task below a test task. `pending` has its top first.
unfoldable pub code_prerequisite :
    ℕ → List Text → List PlanTask → List Text → List Text → Checked Bool
unfolding code_ids_of dependencies_of
code_prerequisite zero ids tasks pending seen = err out_of_fuel
code_prerequisite (suc fuel) ids tasks [] seen = ok false
code_prerequisite (suc fuel) ids tasks (dependency ∷ pending) seen =
    let skip = code_prerequisite fuel ids tasks pending seen in
    let deeper = elim (dependencies_of dependency ids tasks) as (λ _. Checked Bool) [
      | none ↦ err (key_error dependency)
      | some more ↦ code_prerequisite fuel ids tasks (reverse more ++ pending) (dependency ∷ seen)
    ] in
    if text_in dependency seen
    then skip
    else if text_in dependency (code_ids_of ids tasks)
    then ok true
    else deeper

-- Enough rounds for the search: one for each entry that is ever pushed, and one to see the end.
unfoldable pub total_dependencies : List PlanTask → ℕ
total_dependencies [] = 0
total_dependencies (t ∷ ts) = length t.depends_on + total_dependencies ts

unfoldable pub is_unsupported_kind : TaskKind → Bool
is_unsupported_kind (other_kind k) = true
is_unsupported_kind _ = false

unfoldable pub is_unsupported_risk : TaskRisk → Bool
is_unsupported_risk (other_risk r) = true
is_unsupported_risk _ = false

-- `if task.kind == "test" and code_ids: ... if not has_code_prerequisite: raise`
unfoldable pub check_prerequisite : List Text → List PlanTask → PlanTask → Text → Checked (Unit {0})
unfolding code_prerequisite total_dependencies
check_prerequisite ids tasks task id =
    if is_test task.kind && not (is_empty (code_ids_of ids tasks))
    then (code_prerequisite (suc (length task.depends_on + total_dependencies tasks)) ids tasks
          (reverse task.depends_on) []
        >>= λ found. raise_if (not found) (verifier_only id))
    else ok tt

-- The body of the loop over the tasks, which adds the task's edges.
unfoldable pub check_task :
    List Text → List PlanTask → ℕ → PlanTask → Text → Dependents → Checked Dependents
check_task ids tasks index task id dependents = do
  raise_if (is_unsupported_kind task.kind) (unsupported_kind id)
  raise_if (is_test task.kind && describes_test_creation task.description) (test_creation id)
  raise_if (is_unsupported_risk task.risk) (unsupported_risk id)
  dependents' ← check_dependencies ids index id task.depends_on dependents
  check_prerequisite ids tasks task id
  ok dependents'

-- The loop over the tasks from position `index` on: the edges and the counters.
unfoldable pub check_tasks :
    List Text
    → List PlanTask
    → ℕ
    → List PlanTask
    → List Text
    → Dependents
    → List ℕ
    → Checked (Dependents × List ℕ)
check_tasks ids tasks index [] names dependents indegree = ok (dependents, indegree)
check_tasks ids tasks index (task ∷ rest) [] dependents indegree = ok (dependents, indegree)
check_tasks ids tasks index (task ∷ rest) (id ∷ names) dependents indegree = do
  dependents' ← check_task ids tasks index task id dependents
  check_tasks ids tasks (suc index) rest names dependents' (indegree ++ length task.depends_on ∷ [])

-- `sorted(dependents[effective_ids[index]], key=...)`
unfoldable pub sorted_dependents : List Text → Dependents → ℕ → List ℕ
unfolding dependents_at sorted_by index_of
sorted_dependents ids dependents index =
    sorted_by (λ item. index_of (get_or ids item []) ids)
      (dependents_at (get_or ids index []) dependents)

-- `[effective_ids[index] for index, degree in enumerate(indegree) if degree > 0]`
unfoldable pub remaining : List Text → List ℕ → List Text
remaining (id ∷ ids) (degree ∷ indegree) =
    let rest = remaining ids indegree in if ltb 0 degree then id ∷ rest else rest
remaining _ _ = []

-- After the loop: the test for a cycle, and the result.
unfoldable pub finish_order :
    List Text → List PlanTask → Option (List ℕ × List ℕ) → Checked ValidatedPlan
finish_order ids tasks none = err out_of_fuel
finish_order ids tasks (some (order, indegree)) =
    if length order == length tasks
    then ok (record { effective_ids = ids; order = order })
    else err (cycle (remaining ids indegree))

-- The ordering of the checked plan, a round for each task and one more.
unfoldable pub order_plan : List Text → List PlanTask → Dependents → List ℕ → Checked ValidatedPlan
order_plan ids tasks dependents indegree = finish_order ids tasks (
    drain (suc (length tasks)) (sorted_dependents ids dependents) (zeros_from 0 indegree) indegree
      [])

-- `generated_ids`, with the default that stands for `None`.
abbrev pub given_ids : ExecutionPlan → Option (List Text) → List Text
given_ids plan none = task_ids_from 1 plan.tasks
given_ids plan (some ids) = ids

-- The ids that the plan's tasks go by.
abbrev pub ids_for : ExecutionPlan → Option (List Text) → List Text
ids_for plan generated_ids = effective_ids_of plan.tasks (given_ids plan generated_ids)

-- `validate_plan(plan, generated_ids)`
unfoldable pub validate_plan : ExecutionPlan → Option (List Text) → Checked ValidatedPlan
validate_plan plan generated_ids =
    let ids = ids_for plan generated_ids in
    do
      raise_if (not (length (given_ids plan generated_ids) == length plan.tasks)) id_count_mismatch
      raise_if (any is_empty ids) empty_id
      raise_if (has_duplicates ids) duplicate_ids
      (dependents, indegree) ← check_tasks ids plan.tasks 0 plan.tasks ids (empty_dependents ids) []
      order_plan ids plan.tasks dependents indegree

-- What a run of `validate_plan` on a concrete plan computes with.
unfoldable pub run_validate_plan : ExecutionPlan → Option (List Text) → Checked ValidatedPlan
unfolding task_ids_from effective_ids_of has_duplicates empty_dependents is_unsupported_kind
    is_unsupported_risk check_dependencies check_prerequisite check_task check_tasks
    sorted_dependents drain zeros_from remaining finish_order order_plan validate_plan
run_validate_plan = validate_plan
