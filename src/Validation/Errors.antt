-- ===== src/Validation/Errors.antt =====
-- The facts about a plan that the errors report.
use local_ai_workestra.Base.{
  ℕ, suc, ◌+◌, ◌<◌, ◌≡◌, refl, sym, ◌∙◌, ◌≢◌, inl, inr, Bool, true, false, not, ◌&&◌, Option, none,
  some, List, [], ◌∷◌, ◌++◌, arith, ◌==◌, Bool-cases, Text, text_eq, text_in, is_empty, any,
  text_eq_sound, text_eq_refl, text_in-cons, get_elem?, err-injective, length, get_or, ok, err,
  raise_if, ◌>>=◌, ok_ne_err, >>=-eq_err, guard-eq_err,
}
use mathlib.Core.List.{reverse}
use local_ai_workestra.Plan.{PlanTask, ExecutionPlan, is_test}
use local_ai_workestra.TestCreation.{describes_test_creation}
use local_ai_workestra.Ordering.Drain.{Inv, full_of_each_once, ranked_all_ordered}
use local_ai_workestra.Validation.{
  ValidationError, Checked, Dependents, id_count_mismatch, empty_id, duplicate_ids,
  unsupported_kind, test_creation, unsupported_risk, self_dependency, verifier_only,
  unknown_dependency, cycle, key_error, out_of_fuel, has_duplicates, code_ids_of, dependencies_of,
  empty_dependents, is_unsupported_kind, is_unsupported_risk, code_prerequisite, total_dependencies,
  check_dependencies, check_prerequisite, check_task, check_tasks, append_dependent,
  sorted_dependents, finish_order, order_plan, given_ids, ids_for, validate_plan,
}
use local_ai_workestra.Validation.Prerequisite.{Reaches, Decides, code_prerequisite-Decides}
use local_ai_workestra.Validation.Counters.{deps_at, occurrences-listed, duplicates_repeat}
use local_ai_workestra.Validation.Sound.{
  Prepared, prepare, ordered, edge_count, edges-Below, length-effective_ids_of,
}

-- The tasks have no cyclic dependencies: each id has a rank above those that its task lists.
abbrev pub Ranked : List Text → List PlanTask → Type 0
Ranked ids tasks =
    (rank : Text → ℕ) × ((j : ℕ) (d : Text)
      → j < length tasks
      → text_in d (deps_at tasks j) ≡ true
      → rank d < rank (get_or ids j []))

-- The fact about one task that an error reports; the errors about a whole plan report none.
abbrev pub TaskFault : List Text → List PlanTask → PlanTask → Text → ValidationError → Type 0
TaskFault ids tasks t id (unsupported_kind i) = (i ≡ id) × (is_unsupported_kind t.kind ≡ true)
TaskFault ids tasks t id (test_creation i) =
    (i ≡ id) × (is_test t.kind ≡ true) × (describes_test_creation t.description ≡ true)
TaskFault ids tasks t id (unsupported_risk i) = (i ≡ id) × (is_unsupported_risk t.risk ≡ true)
TaskFault ids tasks t id (self_dependency i) = (i ≡ id) × (text_in id t.depends_on ≡ true)
TaskFault ids tasks t id (unknown_dependency i d) =
    (i ≡ id) × (text_in d t.depends_on ≡ true) × (text_in d ids ≡ false)
TaskFault ids tasks t id (verifier_only i) =
    (i ≡ id)
    × (is_test t.kind ≡ true)
    × ((d : Text) → Reaches ids tasks t.depends_on d → text_in d (code_ids_of ids tasks) ≡ false)
TaskFault ids tasks t id (key_error d) =
    (is_test t.kind ≡ true)
    × Reaches ids tasks t.depends_on d
    × (dependencies_of d ids tasks ≡ none)
TaskFault ids tasks t id _ = ⊥

abbrev pub SomeTaskFault :
    List Text → List PlanTask → List PlanTask → List Text → ValidationError → Type 0
SomeTaskFault ids tasks rest names e =
    (j : ℕ) × (t : PlanTask) × (id : Text) × (get_elem? rest j ≡ some t)
    × (get_elem? names j ≡ some id)
    × TaskFault ids tasks t id e

-- The fact about a plan that each error reports.
abbrev pub Explains : ExecutionPlan → Option (List Text) → ValidationError → Type 0
Explains plan gs id_count_mismatch = length (given_ids plan gs) ≢ length plan.tasks
Explains plan gs empty_id = any is_empty (ids_for plan gs) ≡ true
Explains plan gs duplicate_ids = ¬ (
    (i j : ℕ)
    → i < length (ids_for plan gs)
    → j < length (ids_for plan gs)
    → get_or (ids_for plan gs) i [] ≡ get_or (ids_for plan gs) j []
    → i ≡ j)
Explains plan gs (cycle remaining) = ¬ Ranked (ids_for plan gs) plan.tasks
Explains plan gs out_of_fuel = ⊥
Explains plan gs e = SomeTaskFault (ids_for plan gs) plan.tasks plan.tasks (ids_for plan gs) e

explain :
    (plan : ExecutionPlan) (gs : Option (List Text)) (e : ValidationError)
    → SomeTaskFault (ids_for plan gs) plan.tasks plan.tasks (ids_for plan gs) e
    → Explains plan gs e
explain plan gs id_count_mismatch f = absurd (f.5)
explain plan gs empty_id f = absurd (f.5)
explain plan gs duplicate_ids f = absurd (f.5)
explain plan gs (cycle xs) f = absurd (f.5)
explain plan gs out_of_fuel f = f.5
explain plan gs _ f = f

module _ (ids : List Text) (tasks : List PlanTask) where
  check_dependencies-fault :
      (index : ℕ) (t : PlanTask) (id : Text) (deps : List Text) (d : Dependents)
      (e : ValidationError)
      → ((x : Text) → text_in x deps ≡ true → text_in x t.depends_on ≡ true)
      → check_dependencies ids index id deps d ≡ err e
      → TaskFault ids tasks t id e
  unfolding check_dependencies
  check_dependencies-fault index t id [] d e sub h = ok_ne_err h
  check_dependencies-fault index t id (x ∷ deps) d e sub h =
      let at : text_in x t.depends_on ≡ true = sub x (rw (text_in-cons x x deps, text_eq_refl x)) in
      elim (guard-eq_err (not (text_in x ids)) (unknown_dependency id x) _ h) [
        | inl (u, same) ↦ rw (sym same) (refl, at, ground arith)
        | inr (passed₁, h₁) ↦ elim (guard-eq_err (text_eq x id) (self_dependency id) _ h₁) [
          | inl (u, same) ↦
              let e' : x ≡ id = text_eq_sound x id u in rw (sym same) (refl, rw e' at at)
          | inr (passed₂, h₂) ↦
              check_dependencies-fault index t id deps (append_dependent x index d) e
                (λ y m. sub y (ground (arith, text_in-cons y x deps))) h₂
        ]
      ]

  check_prerequisite-fault :
      (t : PlanTask) (id : Text) (e : ValidationError)
      → check_prerequisite ids tasks t id ≡ err e
      → TaskFault ids tasks t id e
  unfolding check_prerequisite
  check_prerequisite-fault t id e h =
      elim (Bool-cases (is_test t.kind && not (is_empty (code_ids_of ids tasks)))) [
        | inr off ↦ let h' = rw off at h in ok_ne_err h'
        | inl on ↦
            let tests : is_test t.kind ≡ true = ground arith in
            let h' = rw on at h in
            fault tests
              (code_prerequisite (suc (length t.depends_on + total_dependencies tasks)) ids tasks
                (reverse t.depends_on) [])
              (code_prerequisite-Decides ids tasks t.depends_on) h'
      ]
    where
      fault :
          is_test t.kind ≡ true
          → (r : Checked Bool) → Decides ids tasks t.depends_on r
          → (r >>= λ found. raise_if (not found) (verifier_only id)) ≡ err e
          → TaskFault ids tasks t id e
      fault tests (ok true) w g = ok_ne_err g
      fault tests (ok false) w g =
          let same : verifier_only id ≡ e = err-injective g in rw (sym same) (refl, tests, w)
      fault tests (err x) w g =
          let same : x ≡ e = err-injective g in
          let (d, is_key, reached, missing) = w in
          let same' : key_error d ≡ e = sym is_key ∙ same in
          rw (sym same') (tests, reached, missing)

  check_task-fault :
      (index : ℕ) (t : PlanTask) (id : Text) (d : Dependents) (e : ValidationError)
      → check_task ids tasks index t id d ≡ err e
      → TaskFault ids tasks t id e
  unfolding check_task
  check_task-fault index t id d e h =
      elim (guard-eq_err (is_unsupported_kind t.kind) (unsupported_kind id) _ h) [
        | inl (u, same) ↦ rw (sym same) (refl, u)
        | inr (passed₁, h₁) ↦
            elim (guard-eq_err (is_test t.kind && describes_test_creation t.description)
              (test_creation id) _ h₁) [
                | inl (u, same) ↦ rw (sym same) (refl, ground arith, ground arith)
                | inr (passed₂, h₂) ↦
                    elim (guard-eq_err (is_unsupported_risk t.risk) (unsupported_risk id) _ h₂) [
                      | inl (u, same) ↦ rw (sym same) (refl, u)
                      | inr (passed₃, h₃) ↦
                          elim (>>=-eq_err (check_dependencies ids index id t.depends_on d) _ h₃) [
                            | inl failed ↦
                                check_dependencies-fault index t id t.depends_on d e (λ x m. m)
                                  failed
                            | inr (d', _, h₄) ↦
                                elim (>>=-eq_err (check_prerequisite ids tasks t id) (λ _. ok d')
                                  h₄) [
                                    | inl failed ↦ check_prerequisite-fault t id e failed
                                    | inr (u, _, h₅) ↦ ok_ne_err h₅
                                  ]
                          ]
                    ]
              ]
      ]

  check_tasks-fault :
      (index : ℕ) (rest : List PlanTask) (names : List Text) (d : Dependents) (indegree : List ℕ)
      (e : ValidationError)
      → check_tasks ids tasks index rest names d indegree ≡ err e
      → SomeTaskFault ids tasks rest names e
  unfolding check_tasks
  check_tasks-fault index [] names d indegree e h = ok_ne_err h
  check_tasks-fault index (t ∷ rest) [] d indegree e h = ok_ne_err h
  check_tasks-fault index (t ∷ rest) (id ∷ names) d indegree e h =
      elim (>>=-eq_err (check_task ids tasks index t id d) _ h) [
        | inl failed ↦ (0, t, id, refl, refl, check_task-fault index t id d e failed)
        | inr (d', _, later) ↦
            let (j, u, i, at_task, at_id, fault) =
              check_tasks-fault (suc index) rest names d' (indegree ++ length t.depends_on ∷ []) e
                later in
            (suc j, u, i, at_task, at_id, fault)
      ]

  -- With ranks the ordering takes every task.
  Ranked-full :
      (d : Dependents) (indegree order indegree' : List ℕ)
      → Prepared ids tasks d indegree
      → Inv (length tasks) (sorted_dependents ids d) order [] indegree'
      → Ranked ids tasks
      → length order ≡ length tasks
  Ranked-full d indegree order indegree' p inv (rank, below) =
      let level = λ (j : ℕ). rank (get_or ids j []) in
      full_of_each_once (length tasks) (sorted_dependents ids d) order [] indegree' inv (λ j lt.
        ranked_all_ordered (length tasks) (sorted_dependents ids d)
          (λ i ilt. edges-Below ids tasks d indegree p i ilt) level
          (λ i k ilt klt edge. below k (get_or ids i []) klt (
            occurrences-listed (get_or ids i []) (deps_at tasks k)
              (rw (edge_count ids tasks d indegree p i k ilt) at edge)))
          order indegree' inv (suc (level j)) j (omega arith) lt)

  order_plan-fault :
      (d : Dependents) (indegree : List ℕ) (e : ValidationError)
      → Prepared ids tasks d indegree
      → order_plan ids tasks d indegree ≡ err e
      → (xs : List Text) × (e ≡ cycle xs) × (¬ Ranked ids tasks)
  unfolding order_plan finish_order
  order_plan-fault d indegree e p h =
      let (order, indegree', ran, inv) = ordered ids tasks d indegree p in
      let h' : finish_order ids tasks (some (order, indegree')) ≡ err e = rw ran at h in
      elim (Bool-cases (length order == length tasks)) [
        | inl full ↦ let h'' = rw full at h' in ok_ne_err h''
        | inr short ↦
            let h'' = rw short at h' in
            (
              _,
              sym (err-injective h''),
              λ ranked.
                  let full = Ranked-full d indegree order indegree' p inv ranked in
                  absurd (ground arith),
            )
      ]

-- Each error that `validate_plan` raises reports a fact about the plan, and no loop in it runs
-- out of fuel.
pub validate_plan-Explains :
    (plan : ExecutionPlan) (generated_ids : Option (List Text)) (e : ValidationError)
    → validate_plan plan generated_ids ≡ err e
    → Explains plan generated_ids e
unfolding validate_plan
validate_plan-Explains plan gs e h =
    let ids = ids_for plan gs in
    elim (guard-eq_err (not (length (given_ids plan gs) == length plan.tasks)) id_count_mismatch _
      h) [
        | inl (u, same) ↦ rw (sym same) (ground arith)
        | inr (passed₁, h₁) ↦ elim (guard-eq_err (any is_empty ids) empty_id _ h₁) [
          | inl (u, same) ↦ rw (sym same) u
          | inr (passed₂, h₂) ↦ elim (guard-eq_err (has_duplicates ids) duplicate_ids _ h₂) [
            | inl (u, same) ↦ rw (sym same) (duplicates_repeat ids u)
            | inr (passed₃, h₃) ↦
                elim (>>=-eq_err
                  (check_tasks ids plan.tasks 0 plan.tasks ids (empty_dependents ids) []) _ h₃) [
                    | inl failed ↦ explain plan gs e (
                        check_tasks-fault ids plan.tasks 0 plan.tasks ids (empty_dependents ids) []
                          e failed)
                    | inr (r, collected, h₄) ↦
                        let p =
                          prepare ids plan.tasks r.0 r.1
                            (length-effective_ids_of plan.tasks (given_ids plan gs) (ground arith))
                            passed₃ collected in
                        let (xs, is_cycle, unranked) =
                          order_plan-fault ids plan.tasks r.0 r.1 e p h₄ in
                        rw is_cycle unranked
                  ]
          ]
        ]
      ]
