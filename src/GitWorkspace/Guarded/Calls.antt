-- ===== src/GitWorkspace/Guarded/Calls.antt =====
-- The calls of one `GitWorkspace` object, in any order, whether they return or raise.
use local_ai_workestra.Base.{
  ◌≡◌, refl, true, false, List, [], ◌∷◌, if◌then◌else◌, Text, is_empty, arith,
}
use local_ai_workestra.Session.{Outcome, returns, raises}
use local_ai_workestra.GitWorkspace.{
  GitCommand, status_porcelain, GitReply, succeeded, ExitCode, exit_zero, exit_one, exit_other,
  GitResult, git_returns, git_raises, GitState, git_continue, ◌>>=◌, pure, dirty_lines,
  set_verified, logged, run_unchecked, run, assert_repository, status, assert_clean, current_branch,
  branch_exists, head, create_agent_branch, switch_branch, checkpoint, rollback_workspace,
  raise_git, failure_message,
}
use local_ai_workestra.GitWorkspace.Guarded.{seen_clean, IsGuarded, Guards, Keeps}
use local_ai_workestra.GitWorkspace.Guarded.Methods.{
  Keeps-assert_repository, Keeps-status, Keeps-current_branch, Keeps-branch_exists, Keeps-head,
  Keeps-create_agent_branch, Keeps-switch_branch, Keeps-checkpoint, Keeps-rollback_workspace,
}

-- The public methods with their arguments.
pub data Method : Type 0 where
  call_assert_repository call_status call_assert_clean call_current_branch call_rollback call_head :
      Method
  call_branch_exists call_create_agent_branch call_switch_branch call_checkpoint : Text → Method

module _ {W : Type 0} (run_git : GitCommand → W → Outcome GitReply × W) (root : Text) where
  -- The object after a call, whatever the call ends with.
  unfoldable pub called : Method → GitState W → GitState W
  called call_assert_repository s = (assert_repository run_git root s).1
  called call_status s = (status run_git root s).1
  called call_assert_clean s = (assert_clean run_git root s).1
  called call_current_branch s = (current_branch run_git root s).1
  called call_rollback s = (rollback_workspace run_git s).1
  called call_head s = (head run_git s).1
  called (call_branch_exists branch) s = (branch_exists run_git branch s).1
  called (call_create_agent_branch run_id) s = (create_agent_branch run_git root run_id s).1
  called (call_switch_branch branch) s = (switch_branch run_git root branch s).1
  called (call_checkpoint message) s = (checkpoint run_git message s).1

  -- The states of an object: `__init__`, and a call of a method; between calls the world may change.
  pub data IsReachable : GitState W → Type 0 where
    fresh : (w : W) → IsReachable record { verified = false; world = w; log = [] }
    after : (method : Method) {s : GitState W} → IsReachable s → IsReachable (called method s)
    meanwhile : (w : W) {s : GitState W} → IsReachable s → IsReachable record s { world = w }

  -- If the result is a list without entries, a clean status was logged.
  abbrev pub Told : GitResult (List Text) × GitState W → Type 0
  Told (git_returns dirty, s) = is_empty dirty ≡ true → seen_clean s.log ≡ true
  Told (git_raises e, s) = Unit

  Told-checked :
      (reply : GitReply) (code : ExitCode) (s : GitState W)
      → reply.code ≡ code
      → Told (
          git_continue
            (λ reply. pure (dirty_lines reply))
            ((if succeeded code
                then pure reply
                else raise_git (failure_message status_porcelain reply))
              record s { log = (status_porcelain, reply) ∷ s.log }))
  Told-checked reply exit_zero s e = λ clean. ground arith
  Told-checked reply exit_one s e = tt
  Told-checked reply exit_other s e = tt

  Told-logged :
      (s : GitState W) (r : Outcome GitReply × W)
      → Told (
          git_continue
            (λ reply. pure (dirty_lines reply))
            (git_continue
              (λ reply.
                if succeeded reply.code
                then pure reply
                else raise_git (failure_message status_porcelain reply))
              (logged run_git status_porcelain s r)))
  unfolding logged
  Told-logged s (returns reply, w) = Told-checked reply reply.code record s { world = w } refl
  Told-logged s (raises e, w) = tt

  Told-continue :
      (r : GitResult (Unit {0}) × GitState W)
      → Told
          (git_continue (λ _. run run_git status_porcelain >>= λ reply. pure (dirty_lines reply)) r)
  unfolding run run_unchecked
  Told-continue (git_returns a, s) = Told-logged s (run_git status_porcelain s.world)
  Told-continue (git_raises e, s) = tt

  Told-status : (s : GitState W) → Told (status run_git root s)
  unfolding status
  Told-status s = Told-continue (assert_repository run_git root s)

  Guards-Told :
      (r : GitResult (List Text) × GitState W) (message : List Text → Text)
      → Told r
      → Guards false r.1
      → Guards false
          (git_continue
            (λ dirty. if is_empty dirty then set_verified else raise_git (message dirty))
            r).1
  unfolding set_verified
  Guards-Told (git_returns [], s) message told h = record {
    guarded = record { log_guarded = h.guarded.log_guarded; flag_earned = λ _. told refl };
    passed = λ e. cc;
  }
  Guards-Told (git_returns (line ∷ dirty), s) message told h = h
  Guards-Told (git_raises e, s) message told h = h

  Keeps-assert_clean : Keeps false (assert_clean run_git root)
  unfolding assert_clean
  Keeps-assert_clean = record {
    on = λ s h.
        Guards-Told (status run_git root s) _ (Told-status s)
          ((Keeps-status run_git false root).on s h);
  }

  Guards-called :
      (method : Method) (s : GitState W) → Guards false s → Guards false (called method s)
  unfolding called
  Guards-called call_assert_repository s h = (Keeps-assert_repository run_git false root).on s h
  Guards-called call_status s h = (Keeps-status run_git false root).on s h
  Guards-called call_assert_clean s h = Keeps-assert_clean.on s h
  Guards-called call_current_branch s h = (Keeps-current_branch run_git false root).on s h
  Guards-called call_rollback s h = (Keeps-rollback_workspace run_git).on s h
  Guards-called call_head s h = (Keeps-head run_git false).on s h
  Guards-called (call_branch_exists branch) s h = (Keeps-branch_exists run_git false branch).on s h
  Guards-called (call_create_agent_branch run_id) s h =
      (Keeps-create_agent_branch run_git root run_id).on s h
  Guards-called (call_switch_branch branch) s h = (Keeps-switch_branch run_git root branch).on s h
  Guards-called (call_checkpoint message) s h = (Keeps-checkpoint run_git message).on s h

  IsReachable-Guards : {s : GitState W} → IsReachable s → Guards false s
  IsReachable-Guards (fresh w) = record {
    guarded = record { log_guarded = refl; flag_earned = λ e. absurd cc };
    passed = λ e. cc;
  }
  IsReachable-Guards (after method {s} r) = Guards-called method s (IsReachable-Guards r)
  IsReachable-Guards (meanwhile w {s} r) =
      let h = IsReachable-Guards r in
      record {
        guarded = record {
          log_guarded = h.guarded.log_guarded;
          flag_earned = h.guarded.flag_earned;
        };
        passed = h.passed;
      }

  -- In every state that an object of the class reaches by calls of its methods, whatever Git answers,
  -- each command of the log that changes branches, index or files comes after a
  -- `git status --porcelain` that succeeded and listed no change, and if the object counts
  -- as verified, such a status is in the log.
  pub IsReachable-IsGuarded : {s : GitState W} → IsReachable s → IsGuarded s
  IsReachable-IsGuarded r = (IsReachable-Guards r).guarded
