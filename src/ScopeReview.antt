-- ===== src/ScopeReview.antt =====
-- src/local_agent_orchestrator/services/scope_review.py and src/local_agent_orchestrator/models/scope.py:
-- the decision on files that a task changed outside its primary scope. The reviewing model, its
-- configuration, `git diff` and the files are the fields of `Reviewer`.
pub mod Grounded
pub mod Scenarios
use local_ai_workestra.Base.{
  ℕ, zero, suc, Bool, true, false, not, ◌&&◌, Option, List, [], ◌∷◌, ◌++◌, if◌then◌else◌, Text,
  codes, text_in, is_empty, all, strip,
}
use local_ai_workestra.Session.{RunError, external, Outcome, returns, raises}
use local_ai_workestra.Work.{Work, from_outside, ◌>>=◌, ◌>>◌, pure, fail_with, call, attempt}
use local_ai_workestra.Runner.{joined}
use local_ai_workestra.Scope.{ScopeClassification, grey, classify_changed_files}

-- `ScopeDecision`
pub data ScopeDecision : Type 0 where
  pass revise retry_fresh fail_hard : ScopeDecision

-- `ScopeReview`
pub record ScopeReview : Type 0 where
  pub decision : ScopeDecision
  pub reason : Text
  pub preserve_paths : List Text
  pub remove_paths : List Text
  pub instruction : Text

abbrev pub is_pass : ScopeDecision → Bool
is_pass pass = true
is_pass _ = false

abbrev pub is_revise : ScopeDecision → Bool
is_revise revise = true
is_revise _ = false

abbrev pub is_fail_hard : ScopeDecision → Bool
is_fail_hard fail_hard = true
is_fail_hard _ = false

pub decision_text : ScopeDecision → Text
decision_text pass = codes "PASS"
decision_text revise = codes "REVISE"
decision_text retry_fresh = codes "RETRY_FRESH"
decision_text fail_hard = codes "FAIL_HARD"

-- What the reviewer returns, read as `_parse_review` reads it: a review, a text, something else.
pub data RawReview : Type 0 where
  structured : ScopeReview → RawReview
  content : Text → RawReview
  unstructured : RawReview

-- `ScopeReview.model_validate(json.loads(content))`: the review, or the text of the exception.
pub data Parsed : Type 0 where
  parsed : ScopeReview → Parsed
  invalid : Text → Parsed

-- The outcome of `git diff` on a path.
pub record GitDiff : Type 0 where
  pub succeeded : Bool
  pub stdout : Text
  pub stderr : Text

-- `file_path.read_text()`: the text, or the text of the `OSError`.
pub data FileText : Type 0 where
  read : Text → FileText
  os_error : Text → FileText

-- The scopes of a task.
pub record TaskScope : Type 0 where
  pub primary_scope : List Text
  pub discouraged_scope : List Text
  pub forbidden_scope : List Text

pub record Reviewer (W : Type 0) : Type 0 where
  pub load_reviewer : W → Outcome (Unit {0}) × W  -- the settings, the models, the agent object
  pub git_diff : Text → W → Outcome GitDiff × W
  pub is_file : Text → W → Outcome Bool × W
  pub read_text : Text → W → Outcome FileText × W
  pub review_scope : Text → List Text → TaskScope → Text → W → Outcome RawReview × W
  pub parse_json : Text → Parsed
  pub text : RunError → Text  -- `str(exc)`
  pub type_name : RunError → Text  -- `type(exc).__name__`

-- `_fail_hard`
unfoldable pub fail_hard_review : Text → ScopeReview
fail_hard_review reason = record {
  decision = fail_hard;
  reason = reason;
  preserve_paths = [];
  remove_paths = [];
  instruction = codes "Do not preserve the unexpected changes.";
}

-- `s[:n]`
pub first_of : ℕ → Text → Text
first_of zero s = []
first_of (suc n) [] = []
first_of (suc n) (c ∷ s) = c ∷ first_of n s

abbrev pub max_scope_diff_chars : ℕ
max_scope_diff_chars = 20000

-- `"\n".join(parts)[:MAX_SCOPE_DIFF_CHARS] or ...`
unfoldable pub diff_of_parts : List Text → Text
diff_of_parts parts =
    let diff = first_of max_scope_diff_chars (joined (10 ∷ []) parts) in
    if is_empty diff then codes "(unexpected files have no readable diff)" else diff

-- `set(preserve_paths) | set(remove_paths) <= changed`
unfoldable pub refers_to_changed : List Text → ScopeReview → Bool
refers_to_changed changed review =
    all (λ path. text_in path changed) (review.preserve_paths ++ review.remove_paths)

-- The checks at the end of `review_unexpected_scope`.
unfoldable pub checked_review : List Text → ScopeReview → ScopeReview
unfolding refers_to_changed fail_hard_review
checked_review changed review =
    if not (refers_to_changed changed review)
    then fail_hard_review (codes "Scope reviewer referenced a path outside the changed-file set.")
    else if is_revise review.decision && is_empty (strip review.instruction)
    then fail_hard_review (codes "Scope reviewer requested revision without guidance.")
    else review

module _ {W : Type 0} (reviewer : Reviewer W) where
  -- The content of a file that Git does not know, at the end of the loop of `_focused_diff`.
  unfoldable pub new_file_part : Text → FileText → Work W (List Text)
  new_file_part path (os_error text) = fail_with (
      from_outside
        (external (codes "Could not read unexpected file " ++ path ++ codes ": " ++ text)))
  new_file_part path (read text) =
      pure ((codes "--- NEW FILE " ++ path ++ codes " ---" ++ 10 ∷ text) ∷ [])

  unfoldable pub untracked_part : Text → Bool → Work W (List Text)
  untracked_part path false = pure []
  untracked_part path true = call (reviewer.read_text path) >>= new_file_part path

  -- One path of the loop of `_focused_diff`.
  unfoldable pub diff_part : Text → GitDiff → Work W (List Text)
  diff_part path diff =
      if not diff.succeeded
      then fail_with (
          from_outside (
            external (
              if is_empty (strip diff.stderr)
              then codes "Could not collect the focused scope diff."
              else strip diff.stderr)))
      else if is_empty diff.stdout
      then (call (reviewer.is_file path) >>= untracked_part path)
      else pure (diff.stdout ∷ [])

  unfoldable pub diff_parts : List Text → Work W (List Text)
  diff_parts [] = pure []
  diff_parts (path ∷ paths) = do
    diff ← call (reviewer.git_diff path)
    part ← diff_part path diff
    parts ← diff_parts paths
    pure (part ++ parts)

  -- `_focused_diff`
  unfoldable pub focused_diff : List Text → Work W Text
  focused_diff [] = pure (codes "(no unexpected diff)")
  focused_diff (path ∷ paths) = do parts ← diff_parts (path ∷ paths); pure (diff_of_parts parts)

  unfoldable pub review_of_parsed : Parsed → ScopeReview
  review_of_parsed (parsed review) = review
  review_of_parsed (invalid text) =
      fail_hard_review (codes "Scope reviewer returned invalid JSON: " ++ text)

  -- `_parse_review`
  unfoldable pub parse_review : RawReview → ScopeReview
  parse_review (structured review) = review
  parse_review unstructured =
      fail_hard_review (codes "Scope reviewer returned no structured decision.")
  parse_review (content text) = review_of_parsed (reviewer.parse_json text)

  -- After the `try` block.
  unfoldable pub after_review : List Text → Outcome RawReview → ScopeReview
  after_review changed (raises e) =
      fail_hard_review
        (codes "Scope reviewer failed: " ++ reviewer.type_name e ++ codes ": " ++ reviewer.text e)
  after_review changed (returns raw) = checked_review changed (parse_review raw)

  -- The call of the reviewer, on the diff of the files outside the primary scope.
  unfoldable pub ask_reviewer : Text → List Text → TaskScope → List Text → Work W RawReview
  ask_reviewer task changed scope unexpected = do
    diff ← focused_diff unexpected
    call (reviewer.review_scope task changed scope diff)

  unfoldable pub review_classified :
      Text → List Text → TaskScope → ScopeClassification → Work W ScopeReview
  review_classified task changed scope classification =
      if not (is_empty classification.forbidden)
      then pure (
          fail_hard_review (
            codes "Forbidden scope change detected: "
            ++ joined (codes ", ") classification.forbidden))
      else if is_empty (grey classification)
      then pure record {
        decision = pass;
        reason = codes "All changes are within primary scope.";
        preserve_paths = changed;
        remove_paths = [];
        instruction = [];
      }
      else (call reviewer.load_reviewer
          >> (attempt (ask_reviewer task changed scope (grey classification)) >>= λ raw.
              pure (after_review changed raw)))

  -- `review_unexpected_scope`
  unfoldable pub review_unexpected_scope : Text → List Text → TaskScope → Work W ScopeReview
  review_unexpected_scope task changed scope = review_classified task changed scope (
      classify_changed_files scope.primary_scope scope.discouraged_scope scope.forbidden_scope
        changed)
