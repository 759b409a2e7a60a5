-- ===== src/EditOperations.antt =====
-- src/local_agent_orchestrator/services/edit_operations.py and src/local_agent_orchestrator/models/edit.py: the
-- edits that a coding model asks for, read, validated against the workspace, and applied to a copy
-- whose difference goes to the workspace. Files, Git and the JSON parser are parameters.
pub mod Matching
pub mod Validate
pub mod Accepts
pub mod Decides
pub mod Apply
pub mod Edited
mod Scenarios
use local_ai_workestra.Base.{
  ℕ, suc, Bool, true, false, not, ◌&&◌, ◌||◌, Option, none, some, is_some, List, [], ◌∷◌, ◌++◌, ltb,
  map, keep, if◌then◌else◌, ◌==◌, Text, codes, text_eq, text_in, contains, drop_chars, split_lines,
  starts_with, is_empty, any, strip, Result, ok, err,
}
use local_ai_workestra.Session.{RunError}
use local_ai_workestra.Runner.{joined}
use local_ai_workestra.Triage.{sorted_texts, set_of}

-- `EditOperation.kind`
pub data EditKind : Type 0 where
  replace_exact create_file delete_file : EditKind

-- `EditOperation`
pub record EditOperation : Type 0 where
  pub kind : EditKind
  pub path : Text
  pub old_text : Option Text
  pub new_text : Option Text
  pub content : Option Text

-- `EditOperationError`, another exception, or a failed `assert`.
pub data Refusal : Type 0 where
  edit_error : Text → Text → Refusal
  raised : RunError → Refusal
  assertion_failed : Refusal

-- `value is None or not value`
abbrev pub is_blank : Option Text → Bool
is_blank none = true
is_blank (some text) = is_empty text

-- `validate_kind_fields`: the message of its `ValueError`, if it raises.
unfoldable pub validate_kind_fields : EditOperation → Option Text
validate_kind_fields op = elim op.kind [
  | replace_exact ↦
      if is_blank op.old_text
      then some (codes "replace_exact requires a non-empty old_text")
      else if not (is_some op.new_text)
      then some (codes "replace_exact requires new_text")
      else if is_some op.content
      then some (codes "replace_exact does not accept content")
      else none
  | create_file ↦
      if not (is_some op.content)
      then some (codes "create_file requires content")
      else if is_some op.old_text || is_some op.new_text
      then some (codes "create_file does not accept replacement fields")
      else none
  | delete_file ↦
      if is_some op.old_text || is_some op.new_text || is_some op.content
      then some (codes "delete_file does not accept content fields")
      else none
]

-- `Counter(paths)[path]`
abbrev times : Text → List Text → ℕ
times path [] = 0
times path (p ∷ ps) = let rest = times path ps in if text_eq path p then suc rest else rest

-- `validate_unique_paths`: the message of its `ValueError`, if it raises.
unfoldable pub validate_unique_paths : List EditOperation → Option Text
validate_unique_paths operations =
    let paths = map (λ (op : EditOperation). op.path) operations in
    let duplicates = sorted_texts (set_of (keep (λ path. ltb 1 (times path paths)) paths)) in
    if is_empty duplicates
    then none
    else some
        (codes "operations must not contain duplicate paths: " ++ joined (codes ", ") duplicates)

kind_problems : List EditOperation → List Text
kind_problems [] = []
kind_problems (op ∷ ops) =
    let rest = kind_problems ops in
    elim (validate_kind_fields op) as (λ _. List Text) [ none ↦ rest | some text ↦ text ∷ rest ]

-- The messages of the validators: `validate_unique_paths` runs after those of the operations.
unfoldable pub response_problems : List EditOperation → List Text
unfolding kind_problems
response_problems operations =
    if not (is_empty (kind_problems operations))
    then kind_problems operations
    else (elim (validate_unique_paths operations) as (λ _. List Text) [
      | none ↦ []
      | some text ↦ text ∷ []
    ])

-- `decoder.raw_decode`: the value and where it ends, or the text of the `JSONDecodeError`.
pub data Decoded (V : Type 0) : Type 0 where
  decoded : V → ℕ → Decoded V
  undecodable : Text → Decoded V

-- The fields of a value by their types: at least one operation, with no other keys, or `str(exc)`.
pub data TypedResponse : Type 0 where
  typed : List EditOperation → TypedResponse
  mistyped : Text → TypedResponse

pub record Decoder (V : Type 0) : Type 0 where
  pub raw_decode : Text → Decoded V
  pub typed_response : V → TypedResponse
  pub error_text : List Text → Text  -- `str(exc)` of the validators' messages

abbrev fence : Text
fence = codes "```"

-- `lines[:-1]` if the last line is a fence
drop_last_fence : List Text → List Text
drop_last_fence [] = []
drop_last_fence (line ∷ []) = if text_eq (strip line) fence then [] else line ∷ []
drop_last_fence (line ∷ next ∷ lines) = line ∷ drop_last_fence (next ∷ lines)

drop_first_fence : List Text → List Text
drop_first_fence [] = []
drop_first_fence (line ∷ lines) = if starts_with line fence then lines else line ∷ lines

-- The text without the fences around it.
unfoldable pub unfenced : Text → Text
unfolding drop_first_fence drop_last_fence
unfenced text =
    let cleaned = strip text in
    if starts_with cleaned fence
    then strip (joined (10 ∷ []) (drop_last_fence (drop_first_fence (split_lines cleaned))))
    else cleaned

-- The failure class of a `ValidationError`.
unfoldable pub schema_failure_class : Text → Text
schema_failure_class text =
    if contains text (codes "requires a non-empty old_text")
      && not (contains text (codes "create_file requires content"))
    then codes "empty_old_text"
    else codes "invalid_schema"

unfoldable pub schema_error : Text → Result Refusal (List EditOperation)
schema_error text = err (
    edit_error (schema_failure_class text)
      (codes "Model returned invalid edit-operation schema: " ++ text))

module _ {V : Type 0} (decoder : Decoder V) where
  unfoldable pub model_validate : TypedResponse → Result Refusal (List EditOperation)
  model_validate (mistyped text) = schema_error text
  model_validate (typed operations) =
      if is_empty (response_problems operations)
      then ok operations
      else schema_error (decoder.error_text (response_problems operations))

  unfoldable pub after_decode : Text → Decoded V → Result Refusal (List EditOperation)
  after_decode cleaned (undecodable text) =
      err (edit_error (codes "invalid_schema") (codes "Model returned invalid JSON: " ++ text))
  after_decode cleaned (decoded value end) =
      if not (is_empty (strip (drop_chars end cleaned)))
      then err (
          edit_error (codes "invalid_schema")
            (codes "Model returned trailing text after the JSON object."))
      else model_validate (decoder.typed_response value)

  -- `parse_edit_response`
  unfoldable pub parse_edit_response : Text → Result Refusal (List EditOperation)
  parse_edit_response text =
      if is_empty (unfenced text)
      then err
          (edit_error (codes "invalid_schema") (codes "Model response contains no JSON object."))
      else after_decode (unfenced text) (decoder.raw_decode (unfenced text))
