-- ===== src/GitWorkspace/Guarded/Methods.antt =====
-- Each method of `GitWorkspace` keeps the log guarded.
use local_ai_workestra.Base.{
  ◌≡◌, refl, Bool, true, false, List, [], ◌++◌, Text, codes, text_eq, starts_with, strip, is_empty,
  not, ◌&&◌,
}
use local_ai_workestra.Session.{Outcome}
use local_ai_workestra.GitWorkspace.{
  GitCommand, is_inside_work_tree, status_porcelain, show_current_branch, add_all, diff_cached,
  reset_hard, clean_fd, rev_parse_head, show_ref, switch_to, create_branch, config_get, commit,
  GitReply, succeeded, is_known, Git, ◌>>=◌, ◌>>◌, pure, dirty_lines, run_unchecked, run,
  assert_repository, status, current_branch, branch_exists, head, create_unless, create_from,
  create_agent_branch, switch_if_other, switch_existing, switch_branch, with_identity,
  identity_options, commit_staged, checkpoint, rollback_workspace, agent_prefix, safe_run_id,
}
use local_ai_workestra.GitWorkspace.Guarded.{
  changes, Keeps, Keeps-bind, Keeps-pure, Keeps-raise_git, Keeps-if, Keeps-only_if_verified,
  Keeps-run, Keeps-read_only,
}

module _ {W : Type 0} (run_git : GitCommand → W → Outcome GitReply × W) where
  -- A run whose reply is only read.
  Keeps-then :
      {A : Type 0} (b : Bool) (command : GitCommand) (f : GitReply → A)
      → (changes command ≡ true → b ≡ true)
      → Keeps b (run run_git command >>= λ reply. pure (f reply))
  Keeps-then b command f allowed =
      Keeps-bind b (run run_git command) _ (Keeps-run run_git b command allowed)
        λ reply. Keeps-pure b (f reply)

  pub Keeps-assert_repository : (b : Bool) (root : Text) → Keeps b (assert_repository run_git root)
  unfolding assert_repository
  Keeps-assert_repository b root =
      Keeps-bind b (run_unchecked run_git is_inside_work_tree) _
        (Keeps-read_only run_git b is_inside_work_tree refl)
        λ reply.
          Keeps-if b (succeeded reply.code && text_eq (strip reply.stdout) (codes "true")) _ _
            (λ _. Keeps-pure b tt) (λ _. Keeps-raise_git b (codes "Not a Git repository: " ++ root))

  Keeps-in_repository :
      {A : Type 0} (b : Bool) (root : Text) (m : Git W A)
      → Keeps b m
      → Keeps b (assert_repository run_git root >> m)
  Keeps-in_repository b root m h =
      Keeps-bind b (assert_repository run_git root) _ (Keeps-assert_repository b root) λ _. h

  pub Keeps-status : (b : Bool) (root : Text) → Keeps b (status run_git root)
  unfolding status
  Keeps-status b root =
      Keeps-in_repository b root _ (Keeps-then b status_porcelain dirty_lines λ e. cc)

  pub Keeps-current_branch : (b : Bool) (root : Text) → Keeps b (current_branch run_git root)
  unfolding current_branch
  Keeps-current_branch b root = Keeps-in_repository b root _ (
      Keeps-bind b (run run_git show_current_branch) _
        (Keeps-run run_git b show_current_branch λ e. cc)
        λ reply.
          Keeps-if b (is_empty (strip reply.stdout)) _ _
            (λ _. Keeps-raise_git b (codes "Repository is in detached HEAD state."))
            (λ _. Keeps-pure b (strip reply.stdout)))

  pub Keeps-branch_exists : (b : Bool) (branch : Text) → Keeps b (branch_exists run_git branch)
  unfolding branch_exists
  Keeps-branch_exists b branch =
      Keeps-bind b (run_unchecked run_git (show_ref branch)) _
        (Keeps-read_only run_git b (show_ref branch) refl)
        λ reply. Keeps-pure b (succeeded reply.code)

  pub Keeps-head : (b : Bool) → Keeps b (head run_git)
  unfolding head
  Keeps-head b = Keeps-then b rev_parse_head (λ reply. strip reply.stdout) λ e. cc

  -- A run that may change the repository: the guard is passed.
  Keeps-change :
      {A : Type 0} (command : GitCommand) (m : Git W A)
      → Keeps true m
      → Keeps true (run run_git command >> m)
  Keeps-change command m h =
      Keeps-bind true (run run_git command) _ (Keeps-run run_git true command λ _. refl) λ _. h

  Keeps-create_unless :
      (branch : Text) (exists : Bool) → Keeps true (create_unless run_git branch exists)
  unfolding create_unless
  Keeps-create_unless branch true =
      Keeps-raise_git true (codes "Agent branch already exists: " ++ branch)
  Keeps-create_unless branch false =
      Keeps-change (create_branch branch) (pure branch) (Keeps-pure true branch)

  pub Keeps-create_agent_branch :
      (root run_id : Text) → Keeps false (create_agent_branch run_git root run_id)
  unfolding create_agent_branch create_from
  Keeps-create_agent_branch root run_id =
      Keeps-only_if_verified (codes "Clean baseline was not verified before branch creation.") _ (
        Keeps-bind true (current_branch run_git root) _ (Keeps-current_branch true root) λ current.
          Keeps-if true (starts_with current agent_prefix) _ _ (λ _. Keeps-pure true current)
            λ _.
              Keeps-if true (is_empty (safe_run_id run_id)) _ _
                (λ _. Keeps-raise_git true (codes "Run ID cannot produce a valid branch name."))
                (λ _.
                  Keeps-bind true (branch_exists run_git (agent_prefix ++ safe_run_id run_id)) _
                    (Keeps-branch_exists true (agent_prefix ++ safe_run_id run_id))
                    (Keeps-create_unless (agent_prefix ++ safe_run_id run_id))))

  Keeps-switch_if_other :
      (branch current : Text) → Keeps true (switch_if_other run_git branch current)
  unfolding switch_if_other
  Keeps-switch_if_other branch current =
      Keeps-if true (text_eq current branch) _ _ (λ _. Keeps-pure true tt)
        λ _. Keeps-change (switch_to branch) (pure tt) (Keeps-pure true tt)

  Keeps-switch_existing :
      (root branch : Text) (exists : Bool) → Keeps true (switch_existing run_git root branch exists)
  unfolding switch_existing
  Keeps-switch_existing root branch false =
      Keeps-raise_git true (codes "Branch does not exist: " ++ branch)
  Keeps-switch_existing root branch true =
      Keeps-bind true (current_branch run_git root) _ (Keeps-current_branch true root) λ current.
        Keeps-bind true (switch_if_other run_git branch current) _
          (Keeps-switch_if_other branch current) λ _. Keeps-current_branch true root

  pub Keeps-switch_branch : (root branch : Text) → Keeps false (switch_branch run_git root branch)
  unfolding switch_branch
  Keeps-switch_branch root branch =
      Keeps-only_if_verified (codes "Clean baseline was not verified before branch switch.") _ (
        Keeps-bind true (branch_exists run_git branch) _ (Keeps-branch_exists true branch)
          (Keeps-switch_existing root branch))

  Keeps-with_identity :
      (b : Bool) (key fallback : Text) (options : List Text) (reply : GitReply)
      → Keeps b (with_identity run_git key fallback options reply)
  unfolding with_identity
  Keeps-with_identity b key fallback options reply =
      Keeps-if b (not (is_known reply.code)) _ _ (λ _. Keeps-raise_git b _)
        λ _.
          Keeps-if b (succeeded reply.code && not (is_empty (strip reply.stdout))) _ _
            (λ _. Keeps-pure b options) (λ _. Keeps-pure b _)

  Keeps-lookup :
      {A : Type 0} (b : Bool) (key fallback : Text) (options : List Text) (f : List Text → Git W A)
      → ((options : List Text) → Keeps b (f options))
      → Keeps b (
          run_unchecked run_git (config_get key) >>= λ reply.
          with_identity run_git key fallback options reply >>= f)
  Keeps-lookup b key fallback options f h =
      Keeps-bind b (run_unchecked run_git (config_get key)) _
        (Keeps-read_only run_git b (config_get key) refl)
        λ reply.
          Keeps-bind b (with_identity run_git key fallback options reply) f
            (Keeps-with_identity b key fallback options reply) h

  Keeps-identity_options : (b : Bool) → Keeps b (identity_options run_git)
  unfolding identity_options
  Keeps-identity_options b =
      Keeps-lookup b (codes "user.name") (codes "local-agent-orchestrator") [] _ λ options.
        Keeps-bind b (run_unchecked run_git (config_get (codes "user.email"))) _
          (Keeps-read_only run_git b (config_get (codes "user.email")) refl)
          (Keeps-with_identity b (codes "user.email") (codes "local-agent-orchestrator@localhost")
            options)

  Keeps-commit_staged :
      (message : Text) (staged : GitReply) → Keeps true (commit_staged run_git message staged)
  unfolding commit_staged
  Keeps-commit_staged message staged =
      Keeps-if true (succeeded staged.code) _ _ (λ _. Keeps-head true)
        λ _.
          Keeps-bind true (identity_options run_git) _ (Keeps-identity_options true)
            λ options. Keeps-change (commit options message) (head run_git) (Keeps-head true)

  pub Keeps-checkpoint : (message : Text) → Keeps false (checkpoint run_git message)
  unfolding checkpoint
  Keeps-checkpoint message =
      Keeps-only_if_verified (codes "Clean baseline was not verified before execution.") _ (
        Keeps-change add_all _ (
          Keeps-bind true (run_unchecked run_git diff_cached) _
            (Keeps-read_only run_git true diff_cached refl) (Keeps-commit_staged message)))

  pub Keeps-rollback_workspace : Keeps false (rollback_workspace run_git)
  unfolding rollback_workspace
  Keeps-rollback_workspace =
      Keeps-only_if_verified (codes "Refusing rollback because clean baseline was not verified.") _
        (Keeps-change reset_hard _ (Keeps-change clean_fd (pure tt) (Keeps-pure true tt)))
