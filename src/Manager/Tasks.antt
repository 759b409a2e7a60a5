-- ===== src/Manager/Tasks.antt =====
-- Looking a task up after a change.
use local_ai_workestra.Base.{
  ◌≡◌, refl, ap, inl, inr, true, false, none, some, List, [], ◌∷◌, ◌++◌, arith, Bool-cases, Text,
  text_eq, text_eq_sound,
}
use local_ai_workestra.Run.{TaskState}
use local_ai_workestra.Session.{Session, task_not_found, returns, raises}
use local_ai_workestra.Manager.{find_task, change_task, get_task}

module _ (f : TaskState → TaskState) (same_id : (t : TaskState) → (f t).id ≡ t.id) where
  pub find_task-change_task_self :
      (id : Text) (ts : List TaskState) (t : TaskState)
      → find_task id ts ≡ some t
      → find_task id (change_task id f ts) ≡ some (f t)
  unfolding find_task change_task
  find_task-change_task_self id [] t h = cc
  find_task-change_task_self id (u ∷ ts) t h = elim (Bool-cases (text_eq u.id id)) [
    | inl at ↦
        let here : text_eq (f u).id id ≡ true = rw (same_id u) at in
        let e : u ≡ t = ground arith in rw at (rw here (ap (λ x. some (f x)) e))
    | inr off ↦ let rest = find_task-change_task_self id ts t (ground arith) in rw off (rw off rest)
  ]

  pub find_task-change_task_ne :
      (id i : Text) (ts : List TaskState)
      → text_eq id i ≡ false
      → find_task i (change_task id f ts) ≡ find_task i ts
  unfolding find_task change_task
  find_task-change_task_ne id i [] ne = refl
  find_task-change_task_ne id i (u ∷ ts) ne = elim (Bool-cases (text_eq u.id id)) [
    | inl at ↦
        let e : u.id ≡ id = text_eq_sound u.id id at in
        let miss : text_eq u.id i ≡ false = rw e ne in
        let miss' : text_eq (f u).id i ≡ false = rw (same_id u) miss in rw at (rw (miss', miss))
    | inr off ↦
        let rest = find_task-change_task_ne id i ts ne in
        rw off (elim (Bool-cases (text_eq u.id i)) [ inl hit ↦ rw hit | inr miss ↦ rw miss rest ])
  ]

pub find_task-append :
    (id : Text) (ts us : List TaskState) (t : TaskState)
    → find_task id ts ≡ some t
    → find_task id (ts ++ us) ≡ some t
unfolding find_task
find_task-append id [] us t h = cc
find_task-append id (u ∷ ts) us t h = ground (arith, find_task-append id ts us t)

module _ {W : Type 0} (id : Text) (s : Session W) where
  pub get_task-some :
      (t : TaskState) → find_task id s.state.tasks ≡ some t → get_task id s ≡ (returns t, s)
  unfolding get_task
  get_task-some t h = rw (h, get_task)

  pub get_task-none :
      find_task id s.state.tasks ≡ none → get_task id s ≡ (raises (task_not_found id), s)
  unfolding get_task
  get_task-none h = rw (h, get_task)
