-- ===== src/Validation/Tasks.antt =====
-- What the loop over the tasks has established of every task when it succeeds.
use local_ai_workestra.Base.{
  ℕ, suc, ◌+◌, ◌≤◌, ◌≡◌, sym, ◌∙◌, true, false, ◌&&◌, List, [], ◌∷◌, ◌++◌, map, arith, ◌==◌,
  if◌then◌else◌, Text, text_in, length, ok, guard-eq_ok, >>=-eq_ok, count, Below,
}
use mathlib.Core.List.{append_assoc, append-nil}
use local_ai_workestra.Plan.{PlanTask, is_test}
use local_ai_workestra.TestCreation.{describes_test_creation}
use local_ai_workestra.Validation.{
  unsupported_kind, test_creation, unsupported_risk, Dependents, dependents_at, is_unsupported_kind,
  is_unsupported_risk, check_dependencies, check_prerequisite, check_task, check_tasks,
}
use local_ai_workestra.Validation.Edges.{occurrences, has_key, Added, check_dependencies-Added}

-- The checks that a task has passed.
pub record Approved (ids : List Text) (tasks : List PlanTask) (task : PlanTask) (id : Text)
    : Type 0 where
  pub kind_supported : is_unsupported_kind task.kind ≡ false
  pub runs_tests : (is_test task.kind && describes_test_creation task.description) ≡ false
  pub risk_supported : is_unsupported_risk task.risk ≡ false
  pub all_known : (x : Text) → text_in x task.depends_on ≡ true → text_in x ids ≡ true
  pub not_self : text_in id task.depends_on ≡ false
  pub prerequisite : check_prerequisite ids tasks task id ≡ ok tt

abbrev pub AllApproved : List Text → List PlanTask → List PlanTask → List Text → Type 0
AllApproved ids tasks [] names = Unit
AllApproved ids tasks (t ∷ ts) [] = Unit
AllApproved ids tasks (t ∷ ts) (id ∷ names) =
    Approved ids tasks t id × AllApproved ids tasks ts names

-- The edges from `k` to position `j` that the tasks from position `index` on declare.
abbrev pub declared : Text → ℕ → ℕ → List PlanTask → ℕ
declared k j index [] = 0
declared k j index (t ∷ ts) =
    (if j == index then occurrences k t.depends_on else 0) + declared k j (suc index) ts

abbrev pub degrees : List PlanTask → List ℕ
degrees ts = map (λ t. length t.depends_on) ts

check_task_lem :
    (ids : List Text) (tasks : List PlanTask) (index : ℕ) (task : PlanTask) (id : Text)
    (d d' : Dependents)
    → check_task ids tasks index task id d ≡ ok d'
    → Approved ids tasks task id × Added ids index id task.depends_on d d'
unfolding check_task
check_task_lem ids tasks index task id d d' h =
    let (kind_ok, h₁) = guard-eq_ok (is_unsupported_kind task.kind) (unsupported_kind id) _ h in
    let (runs_ok, h₂) =
      guard-eq_ok (is_test task.kind && describes_test_creation task.description) (test_creation id)
        _ h₁ in
    let (risk_ok, h₃) = guard-eq_ok (is_unsupported_risk task.risk) (unsupported_risk id) _ h₂ in
    let (d₁, listed, h₄) = >>=-eq_ok (check_dependencies ids index id task.depends_on d) _ h₃ in
    let (u, pre, done) = >>=-eq_ok (check_prerequisite ids tasks task id) (λ _. ok d₁) h₄ in
    let same : d₁ ≡ d' = cc in
    let added = check_dependencies-Added ids index id task.depends_on d d₁ listed in
    (
      record {
        kind_supported = kind_ok;
        runs_tests = runs_ok;
        risk_supported = risk_ok;
        all_known = added.all_known;
        not_self = added.not_self;
        prerequisite = pre;
      },
      rw (sym same) added,
    )

pub record Collected (ids : List Text) (tasks : List PlanTask) (index : ℕ) (rest : List PlanTask)
    (names : List Text) (d : Dependents) (indegree : List ℕ) (d' : Dependents) (indegree' : List ℕ)
    : Type 0 where
  pub approved : AllApproved ids tasks rest names
  pub counters : indegree' ≡ indegree ++ degrees rest
  pub keys : (k : Text) → has_key k d' ≡ has_key k d
  pub edges :
      (k : Text) (j : ℕ)
      → has_key k d ≡ true
      → count j (dependents_at k d') ≡ count j (dependents_at k d) + declared k j index rest
  pub below :
      (n : ℕ) (k : Text)
      → index + length rest ≤ n
      → Below n (dependents_at k d)
      → Below n (dependents_at k d')

pub check_tasks-Collected :
    (ids : List Text) (tasks : List PlanTask) (index : ℕ) (rest : List PlanTask) (names : List Text)
    (d : Dependents) (indegree : List ℕ) (d' : Dependents) (indegree' : List ℕ)
    → length names ≡ length rest
    → check_tasks ids tasks index rest names d indegree ≡ ok (d', indegree')
    → Collected ids tasks index rest names d indegree d' indegree'
unfolding check_tasks
check_tasks-Collected ids tasks index [] names d indegree d' indegree' len h =
    let same : d ≡ d' = cc in
    record {
      approved = tt;
      counters = rw append-nil (cc);
      keys = λ k. rw same;
      edges = λ k j key. rw same (omega arith);
      below = λ n k fits b. rw same at b;
    }
check_tasks-Collected ids tasks index (t ∷ rest) [] d indegree d' indegree' len h =
    absurd (omega arith)
check_tasks-Collected ids tasks index (t ∷ rest) (id ∷ names) d indegree d' indegree' len h =
    let (d₁, first, later) = >>=-eq_ok (check_task ids tasks index t id d) _ h in
    let (approved, added) = check_task_lem ids tasks index t id d d₁ first in
    let tail =
      check_tasks-Collected ids tasks (suc index) rest names d₁
        (indegree ++ length t.depends_on ∷ []) d' indegree' (omega arith) later in
    record {
      approved = (approved, tail.approved);
      counters = tail.counters ∙ append_assoc indegree (length t.depends_on ∷ []) (degrees rest);
      keys = λ k. tail.keys k ∙ added.keys k;
      edges = λ k j key. omega (arith, tail.edges k j (added.keys k ∙ key), added.edges k j key);
      below = λ n k fits b. tail.below n k (omega arith) (added.below n k (omega arith) b);
    }
