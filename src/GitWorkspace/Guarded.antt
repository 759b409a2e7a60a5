-- ===== src/GitWorkspace/Guarded.antt =====
-- No command that changes the repository runs before a status that reports nothing.
pub mod Methods
pub mod Calls
mod Scenarios
use local_ai_workestra.Base.{
  ◌≡◌, refl, Bool, true, false, not, ◌&&◌, ◌||◌, List, [], ◌∷◌, ◌++◌, if◌then◌else◌, Bool-cases,
  inl, inr, Text, codes, text_eq, starts_with, strip, is_empty, arith,
}
use local_ai_workestra.Session.{Outcome, returns, raises}
use local_ai_workestra.GitWorkspace.{
  GitCommand, is_inside_work_tree, status_porcelain, show_current_branch, add_all, diff_cached,
  reset_hard, clean_fd, rev_parse_head, show_ref, switch_to, create_branch, config_get, commit,
  GitReply, succeeded, is_known, GitResult, git_returns, git_raises, GitState, Git, git_continue,
  ◌>>=◌, ◌>>◌, pure, dirty_lines, only_if_verified, set_verified, logged, run_unchecked, run,
  assert_repository, status, assert_clean, current_branch, branch_exists, head, create_unless,
  create_from, create_agent_branch, switch_if_other, switch_existing, switch_branch, with_identity,
  identity_options, commit_staged, checkpoint, rollback_workspace, raise_git, failure_message,
  agent_prefix, safe_run_id,
}

-- A command that changes the branches, the index or the files.
abbrev pub changes : GitCommand → Bool
changes add_all = true
changes reset_hard = true
changes clean_fd = true
changes (switch_to branch) = true
changes (create_branch branch) = true
changes (commit options message) = true
changes _ = false

-- A status that reports no change.
abbrev pub is_clean_status : GitCommand → GitReply → Bool
is_clean_status status_porcelain reply = succeeded reply.code && is_empty (dirty_lines reply)
is_clean_status _ reply = false

abbrev pub seen_clean : List (GitCommand × GitReply) → Bool
seen_clean [] = false
seen_clean ((command, reply) ∷ earlier) = is_clean_status command reply || seen_clean earlier

-- Each change stands after a clean status; the log has the newest command first.
abbrev pub is_guarded : List (GitCommand × GitReply) → Bool
is_guarded [] = true
is_guarded ((command, reply) ∷ earlier) =
    (not (changes command) || seen_clean earlier) && is_guarded earlier

||-intro : (a : Bool) {b : Bool} → b ≡ true → (a || b) ≡ true
||-intro true e = refl
||-intro false e = e

guarded-step :
    (b : Bool) (command : GitCommand) (reply : GitReply) (v : Bool)
    (log : List (GitCommand × GitReply))
    → (changes command ≡ true → b ≡ true)
    → (b ≡ true → v ≡ true)
    → (v ≡ true → seen_clean log ≡ true)
    → is_guarded log ≡ true
    → is_guarded ((command, reply) ∷ log) ≡ true
guarded-step b command reply v log allowed passed earned e = elim (Bool-cases (changes command)) [
  | inl t ↦ let seen = earned (passed (allowed t)) in ground arith
  | inr f ↦ ground arith
]

module _ {W : Type 0} where
  pub record IsGuarded (s : GitState W) : Type 0 where
    pub log_guarded : is_guarded s.log ≡ true
    pub flag_earned : s.verified ≡ true → seen_clean s.log ≡ true

  -- A state that the method may start in: `b` is whether it has passed the guard.
  pub record Guards (b : Bool) (s : GitState W) : Type 0 where
    pub guarded : IsGuarded s
    pub passed : b ≡ true → s.verified ≡ true

  pub record Keeps {A : Type 0} (b : Bool) (m : Git W A) : Type 0 where
    pub on : (s : GitState W) → Guards b s → Guards b (m s).1

  pub Guards-continue :
      {A B : Type 0} (b : Bool) (f : A → Git W B) (r : GitResult A × GitState W)
      → ((a : A) → Keeps b (f a))
      → Guards b r.1
      → Guards b (git_continue f r).1
  Guards-continue b f (git_returns a, s) k h = (k a).on s h
  Guards-continue b f (git_raises e, s) k h = h

  pub Keeps-bind :
      {A B : Type 0} (b : Bool) (m : Git W A) (f : A → Git W B)
      → Keeps b m
      → ((a : A) → Keeps b (f a))
      → Keeps b (m >>= f)
  Keeps-bind b m f h k = record { on = λ s g. Guards-continue b f (m s) k (h.on s g) }

  pub Keeps-pure : {A : Type 0} (b : Bool) (a : A) → Keeps b (pure a)
  Keeps-pure b a = record { on = λ s g. g }

  pub Keeps-raise_git :
      {A : Type 0} (b : Bool) (message : Text) → Keeps b (raise_git {A = A} message)
  Keeps-raise_git b message = record { on = λ s g. g }

  pub Keeps-if :
      {A : Type 0} (b t : Bool) (m k : Git W A)
      → (t ≡ true → Keeps b m)
      → (t ≡ false → Keeps b k)
      → Keeps b (if t then m else k)
  Keeps-if b true m k hm hk = hm refl
  Keeps-if b false m k hm hk = hk refl

  Guards-if_verified :
      {A : Type 0} (message : Text) (m : Git W A) (s : GitState W) (v : Bool)
      → s.verified ≡ v
      → Keeps true m
      → Guards false s
      → Guards false (if v then m s else raise_git message s).1
  Guards-if_verified message m s true e h g = record {
    guarded = (h.on s record { guarded = g.guarded; passed = λ _. e }).guarded;
    passed = λ f. cc;
  }
  Guards-if_verified message m s false e h g = g

  -- The guard: inside it, the flag is set.
  pub Keeps-only_if_verified :
      {A : Type 0} (message : Text) (m : Git W A)
      → Keeps true m
      → Keeps false (only_if_verified message m)
  unfolding only_if_verified
  Keeps-only_if_verified message m h = record {
    on = λ s g. Guards-if_verified message m s s.verified refl h g;
  }

  module _ (run_git : GitCommand → W → Outcome GitReply × W) where
    Guards-logged :
        (b : Bool) (command : GitCommand) (s : GitState W) (r : Outcome GitReply × W)
        → (changes command ≡ true → b ≡ true)
        → Guards b s
        → Guards b (logged run_git command s r).1
    unfolding logged
    Guards-logged b command s (returns reply, w) allowed h = record {
      guarded = record {
        log_guarded =
            guarded-step b command reply s.verified s.log allowed h.passed h.guarded.flag_earned
              h.guarded.log_guarded;
        flag_earned = λ e. ||-intro (is_clean_status command reply) (h.guarded.flag_earned e);
      };
      passed = h.passed;
    }
    Guards-logged b command s (raises e, w) allowed h = record {
      guarded = record { log_guarded = h.guarded.log_guarded; flag_earned = h.guarded.flag_earned };
      passed = h.passed;
    }

    pub Keeps-run_unchecked :
        (b : Bool) (command : GitCommand)
        → (changes command ≡ true → b ≡ true)
        → Keeps b (run_unchecked run_git command)
    unfolding run_unchecked
    Keeps-run_unchecked b command allowed = record {
      on = λ s h. Guards-logged b command s (run_git command s.world) allowed h;
    }

    pub Keeps-run :
        (b : Bool) (command : GitCommand)
        → (changes command ≡ true → b ≡ true)
        → Keeps b (run run_git command)
    unfolding run
    Keeps-run b command allowed =
        Keeps-bind b (run_unchecked run_git command) _ (Keeps-run_unchecked b command allowed)
          λ reply.
            Keeps-if b (succeeded reply.code) _ _ (λ _. Keeps-pure b reply)
              λ _. Keeps-raise_git b (failure_message command reply)

    pub Keeps-read_only :
        (b : Bool) (command : GitCommand)
        → changes command ≡ false
        → Keeps b (run_unchecked run_git command)
    Keeps-read_only b command e = Keeps-run_unchecked b command λ t. cc
