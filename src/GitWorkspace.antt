-- ===== src/GitWorkspace.antt =====
-- src/local_agent_orchestrator/services/git_workspace.py: `GitWorkspace`, whose methods run Git and keep
-- whether the workspace was seen clean. Git is a parameter; every command is logged with its reply,
-- the newest first.
pub mod Guarded
pub mod Branches
use mathlib.Core.List.{reverse}
use local_ai_workestra.Base.{
  ℕ, Bool, true, false, not, ◌&&◌, ◌||◌, Option, none, some, List, [], ◌∷◌, ◌++◌, leb, ◌==◌,
  if◌then◌else◌, Text, codes, text_eq, starts_with, split_lines, strip, is_empty, keep,
}
use local_ai_workestra.Session.{RunError, Outcome, returns, raises}
use local_ai_workestra.Runner.{joined}

-- The commands that the class runs.
pub data GitCommand : Type 0 where
  is_inside_work_tree status_porcelain show_current_branch add_all diff_cached reset_hard clean_fd
        rev_parse_head :
      GitCommand
  show_ref switch_to create_branch config_get : Text → GitCommand
  commit : List Text → Text → GitCommand

pub data ExitCode : Type 0 where
  exit_zero exit_one exit_other : ExitCode

abbrev pub succeeded : ExitCode → Bool
succeeded exit_zero = true
succeeded _ = false

abbrev pub is_known : ExitCode → Bool
is_known exit_other = false
is_known _ = true

-- `subprocess.CompletedProcess`
pub record GitReply : Type 0 where
  pub code : ExitCode
  pub stdout : Text
  pub stderr : Text

-- `GitWorkspaceError`, or an exception of `subprocess.run`.
pub data GitFailure : Type 0 where
  workspace_error : Text → GitFailure
  not_started : RunError → GitFailure

pub data GitResult (A : Type 0) : Type 0 where
  git_returns : A → GitResult A
  git_raises : GitFailure → GitResult A

-- The object: `_baseline_verified_clean`, with the world and the log.
pub record GitState (W : Type 0) : Type 0 where
  pub verified : Bool
  pub world : W
  pub log : List (GitCommand × GitReply)

abbrev pub Git : Type 0 → Type 0 → Type 0
Git W A = GitState W → GitResult A × GitState W

-- `" ".join(args)`
unfoldable pub command_text : GitCommand → Text
command_text is_inside_work_tree = codes "rev-parse --is-inside-work-tree"
command_text status_porcelain = codes "status --porcelain"
command_text show_current_branch = codes "branch --show-current"
command_text add_all = codes "add -A"
command_text diff_cached = codes "diff --cached --quiet"
command_text reset_hard = codes "reset --hard HEAD"
command_text clean_fd = codes "clean -fd"
command_text rev_parse_head = codes "rev-parse HEAD"
command_text (show_ref branch) = codes "show-ref --verify --quiet refs/heads/" ++ branch
command_text (switch_to branch) = codes "switch " ++ branch
command_text (create_branch branch) = codes "switch -c " ++ branch
command_text (config_get key) = codes "config --local --get " ++ key
command_text (commit options message) =
    joined (codes " ") (options ++ codes "commit" ∷ codes "-m" ∷ message ∷ [])

-- `a or b` of two texts
abbrev pub or_else : Text → Text → Text
or_else [] b = b
or_else (c ∷ a) b = c ∷ a

-- The text of a `CalledProcessError`.
unfoldable pub failure_message : GitCommand → GitReply → Text
failure_message command reply =
    or_else (strip reply.stderr)
      (or_else (strip reply.stdout) (codes "git command failed: " ++ command_text command))

-- `[line for line in stdout.splitlines() if line.strip()]`
unfoldable pub dirty_lines : GitReply → List Text
dirty_lines reply = keep (λ line. not (is_empty (strip line))) (split_lines reply.stdout)

-- A character of `[A-Za-z0-9._-]`
unfoldable pub is_plain : ℕ → Bool
is_plain c =
    (leb 65 c && leb c 90)
    || (leb 97 c && leb c 122)
    || (leb 48 c && leb c 57)
    || c == 46
    || c == 95
    || c == 45

-- `re.sub(r"[^A-Za-z0-9._-]+", "-", run_id)`; `gap` is whether the last character was replaced.
unfoldable pub dashed : Bool → Text → Text
dashed gap [] = []
dashed gap (c ∷ s) =
    let plain = dashed false s in
    let other = dashed true s in if is_plain c then c ∷ plain else if gap then other else 45 ∷ other

-- `s.lstrip("-")`
unfoldable pub undashed : Text → Text
undashed [] = []
undashed (c ∷ s) = let rest = undashed s in if c == 45 then rest else c ∷ s

-- `safe_run_id`
unfoldable pub safe_run_id : Text → Text
safe_run_id run_id = reverse (undashed (reverse (undashed (dashed false run_id))))

abbrev pub agent_prefix : Text
agent_prefix = codes "agent/"

module _ {W : Type 0} where
  abbrev pub git_continue :
      {A B : Type 0} → (A → Git W B) → GitResult A × GitState W → GitResult B × GitState W
  git_continue f (git_returns a, s) = f a s
  git_continue f (git_raises e, s) = (git_raises e, s)

  infixr 5 ◌>>=◌ ◌>>◌
  abbrev pub ◌>>=◌ : {A B : Type 0} → Git W A → (A → Git W B) → Git W B
  ◌>>=◌ m f s = git_continue f (m s)

  abbrev pub ◌>>◌ : {A B : Type 0} → Git W A → Git W B → Git W B
  m >> k = m >>= λ _. k

  abbrev pub pure : {A : Type 0} → A → Git W A
  pure a s = (git_returns a, s)

  -- `raise GitWorkspaceError(message)`
  abbrev pub raise_git : {A : Type 0} → Text → Git W A
  raise_git message s = (git_raises (workspace_error message), s)

  -- `if not self._baseline_verified_clean: raise GitWorkspaceError(message)`
  unfoldable pub only_if_verified : {A : Type 0} → Text → Git W A → Git W A
  only_if_verified message m s = if s.verified then m s else raise_git message s

  unfoldable pub set_verified : Git W (Unit {0})
  set_verified s = (git_returns tt, record s { verified = true })

  module _ (run_git : GitCommand → W → Outcome GitReply × W) where
    unfoldable pub logged :
        GitCommand → GitState W → Outcome GitReply × W → GitResult GitReply × GitState W
    logged command s (returns reply, w) =
        (git_returns reply, record s { world = w; log = (command, reply) ∷ s.log })
    logged command s (raises e, w) = (git_raises (not_started e), record s { world = w })

    -- `_run` with `check=False`
    unfoldable pub run_unchecked : GitCommand → Git W GitReply
    run_unchecked command s = logged command s (run_git command s.world)

    -- `_run`
    unfoldable pub run : GitCommand → Git W GitReply
    run command = run_unchecked command >>= λ reply.
        if succeeded reply.code then pure reply else raise_git (failure_message command reply)

    unfoldable pub assert_repository : Text → Git W (Unit {0})
    assert_repository root = run_unchecked is_inside_work_tree >>= λ reply.
        if succeeded reply.code && text_eq (strip reply.stdout) (codes "true")
        then pure tt
        else raise_git (codes "Not a Git repository: " ++ root)

    unfoldable pub status : Text → Git W (List Text)
    status root =
        assert_repository root >> (run status_porcelain >>= λ reply. pure (dirty_lines reply))

    unfoldable pub assert_clean : Text → Git W (Unit {0})
    assert_clean root = status root >>= λ dirty.
        if is_empty dirty
        then set_verified
        else raise_git (
            codes "Workspace has pre-existing changes. Commit or stash them before agent execution."
            ++ 10 ∷ joined (10 ∷ []) dirty)

    unfoldable pub current_branch : Text → Git W Text
    current_branch root =
        assert_repository root
        >> (run show_current_branch >>= λ reply.
            if is_empty (strip reply.stdout)
            then raise_git (codes "Repository is in detached HEAD state.")
            else pure (strip reply.stdout))

    unfoldable pub branch_exists : Text → Git W Bool
    branch_exists branch = run_unchecked (show_ref branch) >>= λ reply. pure (succeeded reply.code)

    unfoldable pub head : Git W Text
    head = run rev_parse_head >>= λ reply. pure (strip reply.stdout)

    unfoldable pub create_unless : Text → Bool → Git W Text
    create_unless branch true = raise_git (codes "Agent branch already exists: " ++ branch)
    create_unless branch false = run (create_branch branch) >> pure branch

    unfoldable pub create_from : Text → Text → Git W Text
    create_from run_id current =
        if starts_with current agent_prefix
        then pure current
        else if is_empty (safe_run_id run_id)
        then raise_git (codes "Run ID cannot produce a valid branch name.")
        else (branch_exists (agent_prefix ++ safe_run_id run_id)
            >>= create_unless (agent_prefix ++ safe_run_id run_id))

    unfoldable pub create_agent_branch : Text → Text → Git W Text
    create_agent_branch root run_id =
        only_if_verified (codes "Clean baseline was not verified before branch creation.")
          (current_branch root >>= create_from run_id)

    unfoldable pub switch_if_other : Text → Text → Git W (Unit {0})
    switch_if_other branch current =
        if text_eq current branch then pure tt else (run (switch_to branch) >> pure tt)

    unfoldable pub switch_existing : Text → Text → Bool → Git W Text
    switch_existing root branch false = raise_git (codes "Branch does not exist: " ++ branch)
    switch_existing root branch true =
        current_branch root >>= λ current. switch_if_other branch current >> current_branch root

    unfoldable pub switch_branch : Text → Text → Git W Text
    switch_branch root branch =
        only_if_verified (codes "Clean baseline was not verified before branch switch.")
          (branch_exists branch >>= switch_existing root branch)

    -- One turn of the loop over the identity of the committer.
    unfoldable pub with_identity : Text → Text → List Text → GitReply → Git W (List Text)
    with_identity key fallback options reply =
        if not (is_known reply.code)
        then raise_git (or_else (strip reply.stderr) (codes "git config lookup failed for " ++ key))
        else if succeeded reply.code && not (is_empty (strip reply.stdout))
        then pure options
        else pure (codes "-c" ∷ (key ++ 61 ∷ fallback) ∷ options)

    unfoldable pub identity_options : Git W (List Text)
    identity_options = run_unchecked (config_get (codes "user.name")) >>= λ name.
        with_identity (codes "user.name") (codes "local-agent-orchestrator") [] name >>= λ options.
        run_unchecked (config_get (codes "user.email")) >>= λ email.
        with_identity (codes "user.email") (codes "local-agent-orchestrator@localhost") options
          email

    unfoldable pub commit_staged : Text → GitReply → Git W Text
    commit_staged message staged =
        if succeeded staged.code
        then head
        else (identity_options >>= λ options. run (commit options message) >> head)

    unfoldable pub checkpoint : Text → Git W Text
    checkpoint message =
        only_if_verified (codes "Clean baseline was not verified before execution.")
          (run add_all >> (run_unchecked diff_cached >>= commit_staged message))

    unfoldable pub rollback_workspace : Git W (Unit {0})
    rollback_workspace =
        only_if_verified (codes "Refusing rollback because clean baseline was not verified.")
          (run reset_hard >> (run clean_fd >> pure tt))
