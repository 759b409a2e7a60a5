-- ===== src/EditOperations/Validate.antt =====
-- `_validate_operations` of src/local_agent_orchestrator/services/edit_operations.py: what the files become,
-- or the first refusal.
use local_ai_workestra.Base.{
  Bool, not, ◌||◌, Option, none, some, List, [], ◌∷◌, ◌++◌, ltb, ◌==◌, Text, codes, text_in,
  split_lines, starts_with, any, Result, ok, err, ◌>>=◌, ◌>>◌, raise_if,
}
use mathlib.Core.List.{reverse}
use local_ai_workestra.Session.{Outcome, returns, raises}
use local_ai_workestra.Plan.{decimal}
use local_ai_workestra.Scope.{is_forbidden_path, parts_of}
use local_ai_workestra.EditOperations.{
  EditKind, replace_exact, create_file, delete_file, EditOperation, Refusal, edit_error, raised,
  assertion_failed,
}
use local_ai_workestra.EditOperations.Matching.{count_matches, replace_first}

-- The workspace: where a path leads, and what is there. `inside` is whether a resolved path is
-- relative to the root.
pub record Checkout : Type 0 where
  pub resolve : Text → Text
  pub inside : Text → Bool
  pub exists : Text → Bool
  pub is_file : Text → Bool
  pub read_text : Text → Outcome Text

-- `raise EditOperationError(f"...: {path}", failure_class=...)`
abbrev pub refuse : Text → Text → Text → Refusal
refuse failure_class message path = edit_error failure_class (message ++ codes ": " ++ path)

-- `line.endswith((" ", "\t"))`
unfoldable pub ends_in_blank : Text → Bool
ends_in_blank line = starts_with (reverse line) (32 ∷ []) || starts_with (reverse line) (9 ∷ [])

-- `Path.is_absolute`
abbrev pub is_absolute : Text → Bool
is_absolute path = starts_with path (47 ∷ [])

-- `".." in Path(path).parts`
abbrev pub climbs : Text → Bool
climbs path = text_in (46 ∷ 46 ∷ []) (parts_of path)

module _ (checkout : Checkout) where
  -- `_validate_path`, with `Workspace._resolve_safe`
  unfoldable pub validate_path : Text → Result Refusal Text
  validate_path path =
      raise_if (is_absolute path)
        (refuse (codes "unsafe_path") (codes "Absolute path is not allowed") path)
      >> raise_if (climbs path)
          (refuse (codes "unsafe_path") (codes "Parent traversal is not allowed") path)
      >> raise_if (not (checkout.inside (checkout.resolve path)))
          (refuse (codes "unsafe_path") (codes "Path escapes workspace") path)
      >> ok (checkout.resolve path)

  unfoldable pub checked_content : Text → Option Text → Result Refusal (Option Text)
  checked_content path none = err assertion_failed
  checked_content path (some text) =
      raise_if (any ends_in_blank (split_lines text)) (
        refuse (codes "whitespace_error") (codes "New file content contains trailing whitespace")
          path)
      >> ok (some text)

  -- A `create_file`.
  unfoldable pub created_content : EditOperation → Text → Result Refusal (Option Text)
  created_content op resolved =
      raise_if (checkout.exists resolved)
        (refuse (codes "path_conflict") (codes "New file path already exists") op.path)
      >> checked_content op.path op.content

  -- `current.replace(old_text, new_text, 1)`, after the assertion on `new_text`.
  unfoldable pub replacement : Text → Text → Option Text → Result Refusal (Option Text)
  replacement current old none = err assertion_failed
  replacement current old (some new) = ok (some (replace_first current old new))

  unfoldable pub replaced_once : EditOperation → Text → Option Text → Result Refusal (Option Text)
  replaced_once op current none = err assertion_failed
  replaced_once op current (some old) =
      let matches = count_matches current old in
      raise_if (matches == 0)
        (refuse (codes "no_match") (codes "Exact replacement matched zero times") op.path)
      >> raise_if (ltb 1 matches) (
          refuse (codes "ambiguous_match")
            (codes "Exact replacement matched " ++ decimal matches ++ codes " times") op.path)
      >> replacement current old op.new_text

  -- A `replace_exact`, on what `read_text` returned.
  unfoldable pub replaced_content : EditOperation → Outcome Text → Result Refusal (Option Text)
  replaced_content op (raises e) = err (raised e)
  replaced_content op (returns current) = replaced_once op current op.old_text

  -- The checks of a path that has to exist, before `next`.
  unfoldable pub grounded_content :
      List Text → EditOperation → Text → Result Refusal (Option Text) → Result Refusal (Option Text)
  grounded_content grounded op resolved next =
      raise_if (not (text_in op.path grounded)) (
        refuse (codes "ungrounded_path") (codes "Edit path is not grounded in repository evidence")
          op.path)
      >> raise_if (not (checkout.exists resolved))
          (refuse (codes "ungrounded_path") (codes "Existing edit path does not exist") op.path)
      >> raise_if (not (checkout.is_file resolved))
          (refuse (codes "invalid_operation") (codes "Edit path is not a file") op.path)
      >> next

  -- The content of one operation's file, `none` where it is deleted.
  unfoldable pub content_of :
      List Text → EditKind → EditOperation → Text → Result Refusal (Option Text)
  content_of grounded create_file op resolved = created_content op resolved
  content_of grounded replace_exact op resolved =
      grounded_content grounded op resolved (replaced_content op (checkout.read_text resolved))
  content_of grounded delete_file op resolved = grounded_content grounded op resolved (ok none)

  module _ (grounded forbidden : List Text) where
    -- The checks after the path, where `seen` are the resolved paths of the turns before.
    unfoldable pub validate_resolved :
        List Text → EditOperation → Text → Result Refusal (Text × Option Text)
    validate_resolved seen op resolved =
        raise_if (is_forbidden_path forbidden op.path) (
          refuse (codes "forbidden_scope") (codes "Edit path is forbidden by the safety boundary")
            op.path)
        >> raise_if (text_in resolved seen) (
            refuse (codes "invalid_operation") (codes "Multiple operations target the same path")
              op.path)
        >> (content_of grounded op.kind op resolved >>= λ content. ok (resolved, content))

    -- One turn of the loop.
    unfoldable pub validate_operation :
        List Text → EditOperation → Result Refusal (Text × Option Text)
    validate_operation seen op = validate_path op.path >>= validate_resolved seen op

    unfoldable pub validate_from :
        List Text → List EditOperation → Result Refusal (List (Text × Option Text))
    validate_from seen [] = ok []
    validate_from seen (op ∷ ops) = validate_operation seen op >>= λ checked.
        validate_from (checked.0 ∷ seen) ops >>= λ rest. ok ((op.path, checked.1) ∷ rest)

    -- `_validate_operations`
    unfoldable pub validate_operations :
        List EditOperation → Result Refusal (List (Text × Option Text))
    validate_operations = validate_from []
