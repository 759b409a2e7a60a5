-- ===== src/Validation/Sound.antt =====
-- The order of an accepted plan, as what can be executed.
use local_ai_workestra.Base.{
  ℕ, suc, ◌+◌, ◌<◌, ◌≡◌, refl, sym, ap, ◌∙◌, inl, inr, true, false, not, Option, some, List, [],
  ◌∷◌, ◌++◌, arith, ◌==◌, Bool-cases, Text, text_in, is_empty, any, length, length-map, get_or, ok,
  >>=-eq_ok, guard-eq_ok, ok-injective, ok_ne_err, count, Below, sum_below-eq,
}
use local_ai_workestra.Plan.{PlanTask, ExecutionPlan}
use local_ai_workestra.Ordering.{drain, zeros_from}
use local_ai_workestra.Ordering.Relax.{count-sorted_by, Below-sorted_by}
use local_ai_workestra.Ordering.Drain.{Inv, append_ne_nil, drain_total, each_once}
use local_ai_workestra.Validation.{
  ValidatedPlan, Dependents, id_count_mismatch, empty_id, duplicate_ids, effective_ids_of,
  has_duplicates, empty_dependents, dependents_at, check_tasks, index_of, sorted_dependents,
  finish_order, order_plan, given_ids, ids_for, validate_plan,
}
use local_ai_workestra.Validation.Edges.{occurrences}
use local_ai_workestra.Validation.Tasks.{AllApproved, check_tasks-Collected, degrees}
use local_ai_workestra.Validation.Counters.{
  deps_at, declared_at, degrees_at, deps_at-known, has_key-empty, dependents_at-empty,
  zeros_from-Below, count-zeros_from, text_in-get_or, occurrences-sum, occurrences-pos,
  position_unique, position_of,
}

-- What the checks hand to the ordering.
pub record Prepared (ids : List Text) (tasks : List PlanTask) (d : Dependents) (indegree : List ℕ)
    : Type 0 where
  pub same_length : length ids ≡ length tasks
  pub unique : has_duplicates ids ≡ false
  pub approved : AllApproved ids tasks tasks ids
  pub counters : indegree ≡ degrees tasks
  pub edges :
      (i j : ℕ)
      → i < length ids
      → count j (dependents_at (get_or ids i []) d)
        ≡ occurrences (get_or ids i []) (deps_at tasks j)
  pub below : (i : ℕ) → Below (length tasks) (dependents_at (get_or ids i []) d)

pub prepare :
    (ids : List Text) (tasks : List PlanTask) (d : Dependents) (indegree : List ℕ)
    → length ids ≡ length tasks
    → has_duplicates ids ≡ false
    → check_tasks ids tasks 0 tasks ids (empty_dependents ids) [] ≡ ok (d, indegree)
    → Prepared ids tasks d indegree
prepare ids tasks d indegree len unique h =
    let c =
      check_tasks-Collected ids tasks 0 tasks ids (empty_dependents ids) [] d indegree len h in
    record {
      same_length = len;
      unique = unique;
      approved = c.approved;
      counters = c.counters;
      edges = λ i j lt.
          let id = get_or ids i [] in
          let e = c.edges id j (has_key-empty id ids ∙ text_in-get_or ids i lt) in
          let none_yet : count j (dependents_at id (empty_dependents ids)) ≡ 0 =
            rw (dependents_at-empty id ids) in
          omega (arith, e, none_yet, declared_at id j j 0 tasks (omega arith));
      below = λ i.
          c.below (length tasks) (get_or ids i []) (omega arith)
            (rw (dependents_at-empty (get_or ids i []) ids) (tt));
    }

module _ (ids : List Text) (tasks : List PlanTask) (d : Dependents) (indegree : List ℕ)
    (p : Prepared ids tasks d indegree) where
  pub edge_count :
      (i j : ℕ)
      → i < length tasks
      → count j (sorted_dependents ids d i) ≡ occurrences (get_or ids i []) (deps_at tasks j)
  unfolding sorted_dependents
  edge_count i j lt =
      count-sorted_by (λ item. index_of (get_or ids item []) ids) j
        (dependents_at (get_or ids i []) d)
      ∙ p.edges i j (rw p.same_length lt)

  pub edges-Below : (i : ℕ) → i < length tasks → Below (length tasks) (sorted_dependents ids d i)
  unfolding sorted_dependents
  edges-Below i lt =
      Below-sorted_by (λ item. index_of (get_or ids item []) ids) (length tasks)
        (dependents_at (get_or ids i []) d) (p.below i)

  start : Inv (length tasks) (sorted_dependents ids d) [] (zeros_from 0 indegree) indegree
  start =
      let size : length indegree ≡ length tasks =
        rw p.counters (length-map (λ t. length t.depends_on) tasks) in
      record {
        size = size;
        ordered_below = tt;
        ready_below = zeros_from-Below 0 indegree (length tasks) (omega arith);
        counters = λ j lt.
            let sum =
              sum_below-eq (length tasks) (λ i. count j (sorted_dependents ids d i))
                (λ i. occurrences (get_or ids i []) (deps_at tasks j))
                (λ i ilt. edge_count i j ilt) in
            let total =
              occurrences-sum ids (deps_at tasks j) p.unique
                (λ x at. deps_at-known ids tasks tasks ids j x p.same_length p.approved at) in
            let total' = rw p.same_length at total in
            rw p.counters (degrees_at tasks j ∙ sym total' ∙ sym sum);
        once = λ j lt.
            let z = count-zeros_from 0 j indegree (omega arith) in
            let e : 0 + j ≡ j = omega arith in let z' = rw e at z in ground arith;
        settled = λ pre post j i cut lt edge. absurd (append_ne_nil pre j post cut);
      }

  -- The ordering ends, and its result satisfies the loop's invariant with an empty queue.
  pub ordered :
      (order indegree' : List ℕ) × (drain
          (suc (length tasks))
          (sorted_dependents ids d)
          (zeros_from 0 indegree)
          indegree
          []
        ≡ some (order, indegree'))
      × Inv (length tasks) (sorted_dependents ids d) order [] indegree'
  ordered =
      drain_total (length tasks) (sorted_dependents ids d) edges-Below (suc (length tasks)) []
        (zeros_from 0 indegree) indegree (omega arith) start

pub length-effective_ids_of :
    (ts : List PlanTask) (gs : List Text)
    → length gs ≡ length ts
    → length (effective_ids_of ts gs) ≡ length ts
unfolding effective_ids_of
length-effective_ids_of [] gs h = refl
length-effective_ids_of (t ∷ ts) [] h = absurd (omega arith)
length-effective_ids_of (t ∷ ts) (g ∷ gs) h = ap suc (length-effective_ids_of ts gs (omega arith))

-- What a successful validation went through.
pub record Accepted (plan : ExecutionPlan) (generated_ids : Option (List Text)) (v : ValidatedPlan)
    : Type 0 where
  pub no_empty_id : any is_empty (ids_for plan generated_ids) ≡ false
  pub dependents : Dependents
  pub indegree : List ℕ
  pub prepared : Prepared (ids_for plan generated_ids) plan.tasks dependents indegree
  pub ordering : order_plan (ids_for plan generated_ids) plan.tasks dependents indegree ≡ ok v

pub validate_plan-Accepted :
    (plan : ExecutionPlan) (generated_ids : Option (List Text)) (v : ValidatedPlan)
    → validate_plan plan generated_ids ≡ ok v
    → Accepted plan generated_ids v
unfolding validate_plan
validate_plan-Accepted plan generated_ids v h =
    let ids = ids_for plan generated_ids in
    let (count_ok, h₁) =
      guard-eq_ok (not (length (given_ids plan generated_ids) == length plan.tasks))
        id_count_mismatch _ h in
    let (named, h₂) = guard-eq_ok (any is_empty ids) empty_id _ h₁ in
    let (unique, h₃) = guard-eq_ok (has_duplicates ids) duplicate_ids _ h₂ in
    let (r, collected, ordering) =
      >>=-eq_ok (check_tasks ids plan.tasks 0 plan.tasks ids (empty_dependents ids) []) _ h₃ in
    let same_length =
      length-effective_ids_of plan.tasks (given_ids plan generated_ids) (ground arith) in
    record {
      no_empty_id = named;
      dependents = r.0;
      indegree = r.1;
      prepared = prepare ids plan.tasks r.0 r.1 same_length unique collected;
      ordering = ordering;
    }

-- The order of an accepted plan: every task once, under distinct ids, after all that it depends on.
pub record IsExecutable (tasks : List PlanTask) (v : ValidatedPlan) : Type 0 where
  pub one_id_each : length v.effective_ids ≡ length tasks
  pub ids_differ :
      (i j : ℕ)
      → i < length tasks
      → j < length tasks
      → get_or v.effective_ids i [] ≡ get_or v.effective_ids j []
      → i ≡ j
  pub in_range : Below (length tasks) v.order
  pub each_once : (j : ℕ) → j < length tasks → count j v.order ≡ 1
  pub after_dependencies :
      (pre post : List ℕ) (j : ℕ) (d : Text)
      → v.order ≡ pre ++ j ∷ post
      → text_in d (deps_at tasks j) ≡ true
      → (i : ℕ) × (get_or v.effective_ids i [] ≡ d) × (0 < count i pre)

ordered-IsExecutable :
    (ids : List Text) (tasks : List PlanTask) (d : Dependents) (indegree order indegree' : List ℕ)
    → Prepared ids tasks d indegree
    → Inv (length tasks) (sorted_dependents ids d) order [] indegree'
    → length order ≡ length tasks
    → IsExecutable tasks (record { effective_ids = ids; order = order })
ordered-IsExecutable ids tasks d indegree order indegree' p inv full =
    let len = p.same_length in
    record {
      one_id_each = len;
      ids_differ =
          λ i j li lj same_id. position_unique ids p.unique i j (omega arith) (omega arith) same_id;
      in_range = inv.ordered_below;
      each_once = each_once (length tasks) (sorted_dependents ids d) order [] indegree' inv full;
      after_dependencies = λ pre post j x cut listed.
          let known = deps_at-known ids tasks tasks ids j x len p.approved listed in
          let (i, lt, at) = position_of ids x known in
          let lt' : i < length tasks = omega arith in
          let occurs : 0 < occurrences (get_or ids i []) (deps_at tasks j) =
            rw at (occurrences-pos x (deps_at tasks j) listed) in
          (
            i,
            at,
            inv.settled pre post j i cut lt'
                (rw (edge_count ids tasks d indegree p i j lt') occurs),
          );
    }

finish_order-ok :
    (ids : List Text) (tasks : List PlanTask) (order indegree : List ℕ) (v : ValidatedPlan)
    → finish_order ids tasks (some (order, indegree)) ≡ ok v
    → (length order ≡ length tasks) × (record { effective_ids = ids; order = order } ≡ v)
unfolding finish_order
finish_order-ok ids tasks order indegree v h = elim (Bool-cases (length order == length tasks)) [
  | inl full ↦ (ground arith, ok-injective (rw full at h))
  | inr short ↦ let h' = rw short at h in ok_ne_err (sym h')
]

-- A plan that `validate_plan` accepts can be executed in its order.
pub validate_plan-IsExecutable :
    (plan : ExecutionPlan) (generated_ids : Option (List Text)) (v : ValidatedPlan)
    → validate_plan plan generated_ids ≡ ok v
    → IsExecutable plan.tasks v
unfolding order_plan
validate_plan-IsExecutable plan generated_ids v h =
    let a = validate_plan-Accepted plan generated_ids v h in
    let ids = ids_for plan generated_ids in
    let (order, indegree', e, inv) = ordered ids plan.tasks a.dependents a.indegree a.prepared in
    let h' = rw e at (a.ordering) in
    let (full, same) = finish_order-ok ids plan.tasks order indegree' v h' in
    rw (sym same) (
      ordered-IsExecutable ids plan.tasks a.dependents a.indegree order indegree' a.prepared inv
        full)
