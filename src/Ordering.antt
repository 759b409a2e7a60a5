-- ===== src/Ordering.antt =====
-- The ordering loop of `validate_plan` (src/local_agent_orchestrator/services/plan_validation.py): the
-- queue of ready task indices, the counters of open prerequisites, and the order that is built.
pub mod Relax
pub mod Drain
use local_ai_workestra.Base.{
  ℕ, zero, suc, ◌-◌, Bool, Option, none, some, List, [], ◌∷◌, ◌++◌, ◌==◌, leb, if◌then◌else◌,
  get_or, set,
}

-- Python's stable `sorted(xs, key=key)`.
insert_by : (ℕ → ℕ) → ℕ → List ℕ → List ℕ
insert_by key x [] = x ∷ []
insert_by key x (y ∷ ys) = if leb (key x) (key y) then x ∷ y ∷ ys else y ∷ insert_by key x ys

unfoldable pub sorted_by : (ℕ → ℕ) → List ℕ → List ℕ
unfolding insert_by
sorted_by key [] = []
sorted_by key (x ∷ xs) = insert_by key x (sorted_by key xs)

-- The inner loop, on the dependents of the task just ordered, the queue and the counters. The
-- source lowers the counter and appends the dependent if it is then 0: so if it was 1. A counter
-- that is 0 or less never comes to 0 again, and is only tested for `> 0`, so 0 stands for it.
unfoldable pub relax : List ℕ → List ℕ → List ℕ → List ℕ × List ℕ
relax [] ready indegree = (ready, indegree)
relax (d ∷ ds) ready indegree =
    let degree = get_or indegree d 0 in
    relax ds (if degree == 1 then ready ++ d ∷ [] else ready) (set indegree d (degree - 1))

-- `while ready: ...`. `dependents_of` is the sorted list that the inner loop runs over. The result
-- is the order with the last counters; `none` if the fuel runs out.
unfoldable pub drain : ℕ → (ℕ → List ℕ) → List ℕ → List ℕ → List ℕ → Option (List ℕ × List ℕ)
unfolding relax sorted_by
drain zero dependents_of ready indegree order = none
drain (suc fuel) dependents_of [] indegree order = some (order, indegree)
drain (suc fuel) dependents_of (index ∷ ready) indegree order =
    let (ready', indegree') = relax (dependents_of index) ready indegree in
    drain fuel dependents_of (sorted_by (λ i. i) ready') indegree' (order ++ index ∷ [])

-- `[index for index, degree in enumerate(indegree) if degree == 0]`
unfoldable pub zeros_from : ℕ → List ℕ → List ℕ
zeros_from index [] = []
zeros_from index (degree ∷ rest) =
    let later = zeros_from (suc index) rest in if degree == 0 then index ∷ later else later
