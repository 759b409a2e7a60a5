-- ===== src/Plan/Scenarios.antt =====
-- Task ids at concrete positions.
use local_ai_workestra.Base.{◌≡◌, refl, codes}
use local_ai_workestra.Plan.{task_id}

padded_ids : (task_id 7 ≡ codes "task-007") × (task_id 1234 ≡ codes "task-1234")
unfolding task_id
padded_ids = (refl, refl)
