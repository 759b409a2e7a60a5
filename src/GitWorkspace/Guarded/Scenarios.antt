-- ===== src/GitWorkspace/Guarded/Scenarios.antt =====
-- A repository that is clean: `assert_clean`, then `rollback`.
use local_ai_workestra.Base.{◌≡◌, refl, false, [], ◌∷◌, Text, codes, text_eq, strip, split_lines}
use local_ai_workestra.Session.{Outcome, returns}
use local_ai_workestra.GitWorkspace.{
  GitCommand, is_inside_work_tree, status_porcelain, reset_hard, clean_fd, GitReply, exit_zero,
  GitState, rollback_workspace, only_if_verified, assert_clean, status, assert_repository,
  run_unchecked, logged, run, dirty_lines, set_verified,
}
use local_ai_workestra.GitWorkspace.Guarded.{IsGuarded}
use local_ai_workestra.GitWorkspace.Guarded.Calls.{
  fresh, after, call_assert_clean, call_rollback, called, IsReachable-IsGuarded,
}

abbrev answer : GitCommand → Text
answer is_inside_work_tree = codes "true"
answer _ = []

abbrev clean_git : GitCommand → Unit {0} → Outcome GitReply × Unit {0}
clean_git command w = (returns record { code = exit_zero; stdout = answer command; stderr = [] }, w)

abbrev root_path : Text
root_path = codes "/repo"

abbrev rolled_back : GitState Unit
rolled_back =
    called clean_git root_path call_rollback (
      called clean_git root_path call_assert_clean
        record { verified = false; world = tt; log = [] })

rolled_back-commands :
    rolled_back.log
    ≡ (clean_fd, record { code = exit_zero; stdout = []; stderr = [] })
      ∷ (reset_hard, record { code = exit_zero; stdout = []; stderr = [] })
      ∷ (status_porcelain, record { code = exit_zero; stdout = []; stderr = [] })
      ∷ (is_inside_work_tree, record { code = exit_zero; stdout = codes "true"; stderr = [] })
      ∷ []
unfolding called rollback_workspace only_if_verified assert_clean status assert_repository
    run_unchecked logged text_eq strip run dirty_lines split_lines set_verified
rolled_back-commands = refl

IsReachable-IsGuarded_example : IsGuarded rolled_back
IsReachable-IsGuarded_example =
    IsReachable-IsGuarded clean_git root_path
      (after call_rollback (after call_assert_clean (fresh tt)))
