-- ===== src/Safety/Touch.antt =====
-- Changes of one task, by its generated id, and what they keep.
use local_ai_workestra.Base.{
  ℕ, zero, suc, ◌+◌, ◌≡◌, refl, sym, ap, ◌∙◌, ◌≢◌, inl, inr, true, false, none, some, List, [], ◌∷◌,
  arith, ◌==◌, Bool-cases, Option-cases, Text, text_eq, text_eq_refl, text_eq_sound, get_elem?,
}
use local_ai_workestra.Plan.{PlanTask, ExecutionPlan, task_id}
use local_ai_workestra.Plan.Ids.{task_id-injective}
use local_ai_workestra.Run.{TaskState, is_passed}
use local_ai_workestra.Manager.{change_task}
use local_ai_workestra.Validation.{index_of}
use local_ai_workestra.Runner.{is_done}
use local_ai_workestra.Safety.{IdsFrom, Touched, Gate, PassedBehindGate}

pub Touched-refl : (j : ℕ) (ts : List TaskState) → Touched j ts ts
Touched-refl j ts = record { others = λ k ne. refl; same_approval = λ t at. (t, at, refl) }

pub Touched-trans :
    (j : ℕ) (ts us vs : List TaskState) → Touched j ts us → Touched j us vs → Touched j ts vs
Touched-trans j ts us vs a b = record {
  others = λ k ne. b.others k ne ∙ a.others k ne;
  same_approval = λ t at.
      let (u, at_u, e) = b.same_approval t at in
      let (w, at_w, e') = a.same_approval u at_u in (w, at_w, e ∙ e');
}

pub IdsFrom-at :
    (n j : ℕ) (ts : List TaskState) (t : TaskState)
    → IdsFrom n ts
    → get_elem? ts j ≡ some t
    → t.id ≡ task_id (n + j)
IdsFrom-at n j [] t h at = cc
IdsFrom-at n zero (u ∷ ts) t h at =
    let e : u ≡ t = cc in let e' : n + 0 ≡ n = omega arith in rw (sym e, e') (h.0)
IdsFrom-at n (suc j) (u ∷ ts) t h at =
    let e : n + suc j ≡ suc n + j = omega arith in rw e (IdsFrom-at (suc n) j ts t h.1 at)

module _ (f : TaskState → TaskState) (same_id : (t : TaskState) → (f t).id ≡ t.id) where
  pub IdsFrom-change_task :
      (id : Text) (n : ℕ) (ts : List TaskState) → IdsFrom n ts → IdsFrom n (change_task id f ts)
  unfolding change_task
  IdsFrom-change_task id n [] h = tt
  IdsFrom-change_task id n (t ∷ ts) h = elim (Bool-cases (text_eq t.id id)) [
    | inl at ↦ rw at (same_id t ∙ h.0, h.1)
    | inr off ↦ rw off (h.0, IdsFrom-change_task id (suc n) ts h.1)
  ]

  -- At the position whose id is sought, the search hits; before it, it misses.
  hits :
      (n : ℕ) (u : TaskState) (ts : List TaskState)
      → IdsFrom n (u ∷ ts)
      → text_eq u.id (task_id (n + 0)) ≡ true
  hits n u ts h =
      let e : task_id (n + 0) ≡ u.id = ap task_id (omega arith) ∙ sym h.0 in
      rw e (text_eq_refl u.id)

  misses :
      (n j : ℕ) (u : TaskState) (ts : List TaskState)
      → IdsFrom n (u ∷ ts)
      → text_eq u.id (task_id (n + suc j)) ≡ false
  misses n j u ts h = elim (Bool-cases (text_eq u.id (task_id (n + suc j)))) [
    | inl hit ↦
        let same = sym h.0 ∙ text_eq_sound u.id (task_id (n + suc j)) hit in
        absurd (omega (arith, task_id-injective n (n + suc j) same))
    | inr off ↦ off
  ]

  -- A change by the generated id of a position reaches that position.
  pub change_task-at :
      (n j : ℕ) (ts : List TaskState) (t : TaskState)
      → IdsFrom n ts
      → get_elem? ts j ≡ some t
      → get_elem? (change_task (task_id (n + j)) f ts) j ≡ some (f t)
  unfolding change_task
  change_task-at n j [] t h at = cc
  change_task-at n zero (u ∷ ts) t h at =
      let same : u ≡ t = cc in rw (hits n u ts h) (ap (λ x. some (f x)) same)
  change_task-at n (suc j) (u ∷ ts) t h at =
      let e : n + suc j ≡ suc n + j = omega arith in
      let rest : get_elem? (change_task (task_id (n + suc j)) f ts) j ≡ some (f t) =
        rw e (change_task-at (suc n) j ts t h.1 at) in
      rw (misses n j u ts h) rest

  -- And no other.
  pub change_task-other :
      (n j k : ℕ) (ts : List TaskState)
      → IdsFrom n ts
      → k ≢ j
      → get_elem? (change_task (task_id (n + j)) f ts) k ≡ get_elem? ts k
  unfolding change_task
  change_task-other n j k [] h ne = refl
  change_task-other n zero zero (u ∷ ts) h ne = absurd (ne refl)
  change_task-other n zero (suc k) (u ∷ ts) h ne = rw (hits n u ts h)
  change_task-other n (suc j) zero (u ∷ ts) h ne = rw (misses n j u ts h)
  change_task-other n (suc j) (suc k) (u ∷ ts) h ne =
      let e : n + suc j ≡ suc n + j = omega arith in
      let rest : get_elem? (change_task (task_id (n + suc j)) f ts) k ≡ get_elem? ts k =
        rw e (change_task-other (suc n) j k ts h.1 (λ z. ne (ap suc z))) in
      rw (misses n j u ts h) rest

  -- No change adds a task.
  change_task-past :
      (id : Text) (j : ℕ) (ts : List TaskState)
      → get_elem? ts j ≡ none
      → get_elem? (change_task id f ts) j ≡ none
  unfolding change_task
  change_task-past id j [] h = h
  change_task-past id zero (u ∷ ts) h = cc
  change_task-past id (suc j) (u ∷ ts) h = elim (Bool-cases (text_eq u.id id)) [
    | inl at ↦ rw at h
    | inr off ↦ rw off (change_task-past id j ts h)
  ]

  -- What stands at the position after such a change.
  pub change_task-from :
      (j : ℕ) (ts : List TaskState) (t' : TaskState)
      → IdsFrom 1 ts
      → get_elem? (change_task (task_id (1 + j)) f ts) j ≡ some t'
      → (t : TaskState) × (get_elem? ts j ≡ some t) × (t' ≡ f t)
  change_task-from j ts t' h at = elim (Option-cases (get_elem? ts j)) [
    | inl gone ↦
        let e = sym at ∙ change_task-past (task_id (1 + j)) j ts gone in absurd (ground (arith, e))
    | inr (t, at_t) ↦ (t, at_t, ground (arith, change_task-at 1 j ts t h at_t))
  ]

  module _ (same_approval : (t : TaskState) → (f t).approval_granted ≡ t.approval_granted) where
    pub change_task-Touched :
        (j : ℕ) (ts : List TaskState)
        → IdsFrom 1 ts
        → Touched j ts (change_task (task_id (1 + j)) f ts)
    change_task-Touched j ts h = record {
      others = λ k ne. change_task-other 1 j k ts h ne;
      same_approval = λ t' at.
          let (t, at_t, e) = change_task-from j ts t' h at in (t, at_t, rw e (same_approval t));
    }

module _ (plan : ExecutionPlan) (ids : List Text) where
  -- A dependency that was done stays done when a task that had not passed is changed.
  is_done-Touched :
      (j : ℕ) (ts ts' : List TaskState) (d : Text)
      → Touched j ts ts'
      → ((t : TaskState) → get_elem? ts j ≡ some t → is_passed t.status ≡ false)
      → is_done ids ts d ≡ true
      → is_done ids ts' d ≡ true
  unfolding is_done
  is_done-Touched j ts ts' d touched not_passed done = elim (Bool-cases (index_of d ids == j)) [
    | inl at ↦
        let e : index_of d ids ≡ j = ground arith in
        elim (Option-cases (get_elem? ts j)) [
          | inl gone ↦
              let gone' : get_elem? ts (index_of d ids) ≡ none = rw e gone in absurd (ground arith)
          | inr (t, at_t) ↦
              let at' : get_elem? ts (index_of d ids) ≡ some t = rw e at_t in
              let n = not_passed t at_t in absurd (ground arith)
        ]
    | inr off ↦
        let ne : index_of d ids ≢ j = ground arith in rw (touched.others (index_of d ids) ne) done
  ]

  -- Changing a task that had not passed keeps all passed tasks behind their gates, if that task,
  -- should it pass now, is behind its own.
  pub Touched-PassedBehindGate :
      (j : ℕ) (ts ts' : List TaskState)
      → Touched j ts ts'
      → ((t : TaskState) → get_elem? ts j ≡ some t → is_passed t.status ≡ false)
      → ((p : PlanTask) (t t' : TaskState)
          → get_elem? plan.tasks j ≡ some p
          → get_elem? ts j ≡ some t
          → get_elem? ts' j ≡ some t'
          → is_passed t'.status ≡ true
          → Gate ids ts p t)
      → PassedBehindGate plan ids ts
      → PassedBehindGate plan ids ts'
  Touched-PassedBehindGate j ts ts' touched not_passed gate safe k p t' at_p at_t passes =
      elim (Bool-cases (k == j)) [
        | inl same ↦
            let e : k ≡ j = ground arith in
            let at_p' : get_elem? plan.tasks j ≡ some p = rw e at at_p in
            let at_t' : get_elem? ts' j ≡ some t' = rw e at at_t in
            let (t, at, approval) = touched.same_approval t' at_t' in
            let g = gate p t t' at_p' at at_t' passes in
            record {
              approved = λ r. approval ∙ g.approved r;
              executable = g.executable;
              dependencies = λ d listed.
                  is_done-Touched j ts ts' d touched not_passed (g.dependencies d listed);
            }
        | inr other ↦
            let ne : k ≢ j = ground arith in
            let g = safe k p t' at_p (sym (touched.others k ne) ∙ at_t) passes in
            record {
              approved = g.approved;
              executable = g.executable;
              dependencies = λ d listed.
                  is_done-Touched j ts ts' d touched not_passed (g.dependencies d listed);
            }
      ]
