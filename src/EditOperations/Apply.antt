-- ===== src/EditOperations/Apply.antt =====
-- `_apply_to_candidate`, `_build_diff` and `apply_edit_operations` of
-- src/local_agent_orchestrator/services/edit_operations.py: the edits on a copy of the files, and the
-- difference that goes to the workspace. Git and the application of the difference are parameters.
use local_ai_workestra.Base.{
  Bool, Option, none, some, is_some, List, [], ◌∷◌, ◌++◌, if◌then◌else◌, Text, codes, text_eq,
  is_empty, strip, Result, ok, err, ◌>>=◌, ◌>>◌, raise_if,
}
use local_ai_workestra.Session.{RunError, external, Outcome, returns, raises}
use local_ai_workestra.EditOperations.{
  EditKind, replace_exact, create_file, delete_file, EditOperation, Refusal, edit_error, raised,
  assertion_failed,
}
use local_ai_workestra.EditOperations.Validate.{Checkout, validate_operations}

-- The files of the candidate by the places that paths lead to.
abbrev pub Files : Type 0
Files = Text → Option Text

-- The place gets a content, or none.
abbrev pub set_file : Text → Option Text → Files → Files
set_file place content files q = if text_eq q place then content else files q

-- `candidate_contents[path]`, or a `KeyError`
unfoldable pub content_at : Text → List (Text × Option Text) → Result Refusal (Option Text)
content_at path [] = err (raised (external (codes "KeyError: " ++ path)))
content_at path ((p, content) ∷ rest) =
    let later = content_at path rest in if text_eq path p then ok content else later

-- `refuses` is what the file system raises, if it does, when a place of these files is given a content or
-- removed: a directory stands there, or a file in place of a parent, or it may not be changed.
module _ (locate : Text → Text) (refuses : Text → Files → Option RunError) where
  -- A change of one place, with its parent directories.
  unfoldable pub put : Text → Option Text → Files → Result Refusal Files
  put place content files = elim (refuses place files) as (λ _. Result Refusal Files) [
    | none ↦ ok (set_file place content files)
    | some e ↦ err (raised e)
  ]

  -- `resolved.unlink()`
  unfoldable pub unlink : Text → Files → Result Refusal Files
  unlink place files =
      if is_some (files place)
      then put place none files
      else err (raised (external (codes "FileNotFoundError: " ++ place)))

  -- `Workspace.write_text`, after the assertion on the content.
  unfoldable pub write_text : Text → Option Text → Files → Result Refusal Files
  write_text place none files = err assertion_failed
  write_text place (some content) files = put place (some content) files

  unfoldable pub apply_operation : EditKind → Text → Option Text → Files → Result Refusal Files
  apply_operation replace_exact place content files = write_text place content files
  apply_operation create_file place content files = write_text place content files
  apply_operation delete_file place content files = unlink place files

  -- `_apply_to_candidate`: the changed paths, and the files.
  unfoldable pub apply_to_candidate :
      List (Text × Option Text) → List EditOperation → Files → Result Refusal (List Text × Files)
  apply_to_candidate contents [] files = ok ([], files)
  apply_to_candidate contents (op ∷ ops) files = content_at op.path contents >>= λ content.
      apply_operation op.kind (locate op.path) content files >>= λ changed.
      apply_to_candidate contents ops changed >>= λ rest. ok (op.path ∷ rest.0, rest.1)

-- What `_build_diff` calls, and `apply_unified_diff`.
pub record EditTools (W : Type 0) : Type 0 where
  pub locate : Text → Text  -- where a path of the candidate leads
  pub refuses : Text → Files → Option RunError  -- what a change of the candidate raises
  pub copy_source : Text → Outcome Text  -- the source file of a path, for `shutil.copyfile`
  pub commit_baseline : Files → Result Refusal (Unit {0})  -- `init`, `config`, `add` and `commit`
  pub add_intent : Text → Result Refusal (Unit {0})  -- `add -N`
  pub git_diff : Files → Files → List Text → Result Refusal Text
  pub apply_unified_diff : Text → List Text → W → Result Refusal (List Text) × W
  pub root : Text
  pub root_exists : Bool

of_outcome : {A : Type 0} → Outcome A → Result Refusal A
of_outcome (returns a) = ok a
of_outcome (raises e) = err (raised e)

module _ {W : Type 0} (tools : EditTools W) where
  -- The baseline of the candidate: a copy of each file that is not created.
  unfoldable pub copied : List EditOperation → Files → Result Refusal Files
  unfolding of_outcome
  copied [] files = ok files
  copied (op ∷ ops) files = elim op.kind as (λ _. Result Refusal Files) [
    | create_file ↦ copied ops files
    | replace_exact ↦ of_outcome (tools.copy_source op.path) >>= λ content.
        put tools.locate tools.refuses (tools.locate op.path) (some content) files >>= copied ops
    | delete_file ↦ of_outcome (tools.copy_source op.path) >>= λ content.
        put tools.locate tools.refuses (tools.locate op.path) (some content) files >>= copied ops
  ]

  unfoldable pub add_created : List EditOperation → Result Refusal (Unit {0})
  add_created [] = ok tt
  add_created (op ∷ ops) = elim op.kind as (λ _. Result Refusal (Unit {0})) [
    | create_file ↦ tools.add_intent op.path >> add_created ops
    | replace_exact ↦ add_created ops
    | delete_file ↦ add_created ops
  ]

  unfoldable pub difference : List EditOperation → Files → List Text × Files → Result Refusal Text
  difference ops baseline applied =
      add_created ops
      >> (tools.git_diff baseline applied.1 applied.0 >>= λ diff.
          raise_if (is_empty (strip diff))
            (edit_error (codes "no_op") (codes "Edit operations produced no workspace changes."))
          >> ok diff)

  -- The part of `_build_diff` in the temporary directory.
  unfoldable pub diff_of : List EditOperation → List (Text × Option Text) → Result Refusal Text
  diff_of ops contents = copied ops (λ place. none) >>= λ baseline.
      tools.commit_baseline baseline
      >> (apply_to_candidate tools.locate tools.refuses contents ops baseline
          >>= difference ops baseline)

  -- `_build_diff`
  unfoldable pub build_diff :
      Checkout → List Text → List Text → List EditOperation → Result Refusal Text
  build_diff checkout grounded forbidden ops =
      validate_operations checkout grounded forbidden ops >>= diff_of ops

  unfoldable pub apply_diff : List Text → Result Refusal Text → W → Result Refusal (List Text) × W
  apply_diff grounded (err e) w = (err e, w)
  apply_diff grounded (ok patch) w = tools.apply_unified_diff patch grounded w

  -- `apply_edit_operations`
  unfoldable pub apply_edit_operations :
      Checkout → List Text → List Text → List EditOperation → W → Result Refusal (List Text) × W
  apply_edit_operations checkout grounded forbidden ops w =
      if tools.root_exists
      then apply_diff grounded (build_diff checkout grounded forbidden ops) w
      else (
        err (
            edit_error (codes "invalid_operation")
              (codes "Workspace does not exist: " ++ tools.root)),
        w,
      )
