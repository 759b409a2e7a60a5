-- ===== src/Plan.antt =====
-- The plan that a run executes: src/local_agent_orchestrator/models/plan.py, and the task ids that
-- src/local_agent_orchestrator/services generates. A text is its list of code points.
pub mod Ids
mod Scenarios
use local_ai_workestra.Base.{
  ℕ, zero, suc, ◌+◌, ◌/◌, ◌%◌, Bool, true, false, Option, List, [], ◌∷◌, ◌++◌, ltb, if◌then◌else◌,
  Text, codes, length,
}

-- `TaskKind`. `other_kind` is a kind outside the `Literal`, which an object built past the model's
-- validation can carry.
pub data TaskKind : Type 0 where
  code test review docs deploy manual : TaskKind
  other_kind : Text → TaskKind

-- `TaskRisk`, with the same provision.
pub data TaskRisk : Type 0 where
  low medium high critical : TaskRisk
  other_risk : Text → TaskRisk

pub record PlanTask : Type 0 where
  pub id : Option Text
  pub description : Text
  pub kind : TaskKind
  pub depends_on : List Text
  pub verification : List Text
  pub primary_scope : List Text
  pub discouraged_scope : List Text
  pub forbidden_scope : List Text
  pub requires_approval : Bool
  pub risk : TaskRisk

pub record ExecutionPlan : Type 0 where
  pub request : Text
  pub tasks : List PlanTask

-- `kind == "code"` and `kind == "test"`
abbrev pub is_code : TaskKind → Bool
is_code code = true
is_code _ = false

abbrev pub is_test : TaskKind → Bool
is_test test = true
is_test _ = false

-- The decimal digits of a number, given as much fuel as the number and one more.
digits_from : ℕ → ℕ → Text
digits_from zero n = []
digits_from (suc fuel) n =
    let front = digits_from fuel (n / 10) in
    if ltb n 10 then (48 + n) ∷ [] else front ++ (48 + n % 10) ∷ []

-- `str(n)`
pub decimal : ℕ → Text
decimal n = digits_from (suc n) n

-- `f"{n:03d}"`
padded : ℕ → Text
padded n =
    if ltb n 10
    then 48 ∷ 48 ∷ (48 + n) ∷ []
    else if ltb n 100
    then 48 ∷ digits_from (suc n) n
    else digits_from (suc n) n

-- `f"task-{n:03d}"`
unfoldable pub task_id : ℕ → Text
unfolding padded digits_from
task_id n = codes "task-" ++ padded n

-- `[f"task-{index:03d}" for index, _ in enumerate(tasks, start=n)]`
unfoldable pub task_ids_from : ℕ → List PlanTask → List Text
task_ids_from n [] = []
task_ids_from n (t ∷ ts) = task_id n ∷ task_ids_from (suc n) ts
