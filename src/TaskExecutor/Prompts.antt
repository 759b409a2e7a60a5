-- ===== src/TaskExecutor/Prompts.antt =====
-- The texts that src/local_agent_orchestrator/services/task_executor.py builds: the prompts of an attempt
-- and of the fallback engineer, and the details of its events.
use local_ai_workestra.Base.{
  contains, drop_chars, ℕ, ◌-◌, List, [], ◌∷◌, ◌++◌, map, leb, length, if◌then◌else◌, Text, codes,
  text_eq, is_empty,
}
use local_ai_workestra.Runner.{joined}
use local_ai_workestra.Scope.{lower}
use local_ai_workestra.Tracked.{CommandResult, OperationFailure}
use local_ai_workestra.ScopeReview.{ScopeReview, decision_text, TaskScope}
use local_ai_workestra.TaskExecutor.{scope_enabled}

abbrev pub max_retry_diagnosis_chars : ℕ
max_retry_diagnosis_chars = 2000

abbrev pub max_retry_output_chars : ℕ
max_retry_output_chars = 2000

-- `"\n"` and `"\n\n"` before a literal
abbrev line : Text → Text
line text = 10 ∷ text

abbrev paragraph : Text → Text
paragraph text = 10 ∷ 10 ∷ text

-- `_tail`
pub tail_of : Text → ℕ → Text
tail_of text limit =
    if leb (length text) limit
    then text
    else codes "...[truncated]" ++ line (drop_chars (length text - limit) text)

-- `_operation_retry_guidance`
pub operation_retry_guidance : Text → Text → Text
operation_retry_guidance failure_class detail =
    if text_eq failure_class (codes "whitespace_error")
    then paragraph (
        codes "WHITESPACE GUIDANCE: Regenerate only the affected create_file "
        ++ codes "content with no trailing spaces or tabs on any line. Blank lines "
        ++ codes "must contain no indentation. Preserve the requested file content "
        ++ codes "and do not normalize existing-file replacements.")
    else if text_eq failure_class (codes "invalid_schema")
    then (if contains (lower detail) (codes "duplicate paths")
        then paragraph (
            codes "DUPLICATE PATH REPAIR: The response had more than one "
            ++ codes "operation for a file. Combine all changes to the same file "
            ++ codes "into one operation. For an existing file, use one "
            ++ codes "replace_exact operation with exact observed old_text spanning "
            ++ codes "the required edits (including unchanged lines between them) "
            ++ codes "and new_text containing every requested change. For a new "
            ++ codes "file, use one create_file operation with complete content. "
            ++ codes "Do not drop requested changes. Exact-match validation remains "
            ++ codes "required; do not use fuzzy matching.")
        else paragraph (
            codes "SCHEMA REPAIR: Return one JSON object matching the semantic "
            ++ codes "edit-operation schema exactly. Correct the reported validation "
            ++ codes "error without weakening exact-match or path-safety requirements."))
    else []

-- `_operation_failure_prompt`
pub operation_failure_prompt : OperationFailure → Text
operation_failure_prompt failure =
    let detail = tail_of failure.detail max_retry_diagnosis_chars in
    paragraph (codes "OPERATION_FAILURE_CLASS: ")
    ++ failure.failure_class
    ++ line (codes "OPERATION_FAILURE_DETAIL: ")
    ++ detail
    ++ line (codes "Correct exactly this failure using the authoritative repository ")
    ++ codes "evidence above."
    ++ operation_retry_guidance failure.failure_class detail

bullets : List Text → Text
bullets paths = joined (10 ∷ []) (map (λ path. codes "- " ++ path) paths)

-- `_scope_guidance`
pub scope_guidance : TaskScope → Text
scope_guidance scope =
    paragraph (codes "TASK SCOPE GUIDANCE:")
    ++ line (codes "PRIMARY (expected changes):")
    ++ line (bullets scope.primary_scope)
    ++ line (codes "DISCOURAGED (allowed but requires focused review):")
    ++ line (bullets scope.discouraged_scope)
    ++ line (codes "FORBIDDEN (hard safety boundaries):")
    ++ line (bullets scope.forbidden_scope)
    ++ line (codes "Primary scope guides the implementation; discouraged scope is not an ")
    ++ codes "automatic failure."

-- `_scope_review_detail`
pub scope_review_detail : ScopeReview → Text
scope_review_detail review =
    codes "decision="
    ++ decision_text review.decision
    ++ codes "; reason="
    ++ review.reason
    ++ codes "; preserve="
    ++ joined (codes ",") review.preserve_paths
    ++ codes "; remove="
    ++ joined (codes ",") review.remove_paths
    ++ codes "; instruction="
    ++ review.instruction

-- `_test_detail`
pub test_detail : CommandResult → Text
test_detail result =
    codes "returncode="
    ++ result.returncode
    ++ line (codes "STDOUT:")
    ++ line (tail_of result.stdout max_retry_output_chars)
    ++ line (codes "STDERR:")
    ++ line (tail_of result.stderr max_retry_output_chars)

-- The task, with the guidance on its scope if it has one.
pub base_prompt : Text → TaskScope → Text
base_prompt task scope = if scope_enabled scope then task ++ scope_guidance scope else task

or_none_specified : Text → Text
or_none_specified text = if is_empty text then codes "(none specified)" else text

-- The prompt's part on a revision that the scope review asked for.
pub repair_part : ScopeReview → Text
repair_part review =
    paragraph (codes "REVISE THE CURRENT IMPLEMENTATION.")
    ++ line (codes "Preserve correct implementation work and repair only the ")
    ++ codes "scope issue below."
    ++ line (codes "PRESERVE PATHS: ")
    ++ or_none_specified (joined (codes ", ") review.preserve_paths)
    ++ line (codes "REMOVE OR REWORK PATHS: ")
    ++ or_none_specified (joined (codes ", ") review.remove_paths)
    ++ line (codes "REPAIR INSTRUCTION: ")
    ++ review.instruction
    ++ line (codes "Do not restart the implementation or make unrelated changes.")

failure_output : CommandResult → Text
failure_output result =
    codes "FAILURE STDOUT:"
    ++ line (tail_of result.stdout max_retry_output_chars)
    ++ paragraph (codes "FAILURE STDERR:")
    ++ line (tail_of result.stderr max_retry_output_chars)

-- The prompt's part on the attempt that failed.
pub diagnosis_part : Text → CommandResult → Text
diagnosis_part diagnosis result =
    paragraph (codes "Previous implementation failed.")
    ++ line (codes "A debugging reviewer analyzed the failure.")
    ++ paragraph (codes "DIAGNOSIS:")
    ++ line (tail_of diagnosis max_retry_diagnosis_chars)
    ++ paragraph (failure_output result)
    ++ paragraph (codes "Produce a corrected implementation. ")
    ++ codes "Return schema-valid semantic edit operations. "
    ++ codes "Use exact observed text for replacements and do not guess paths. "
    ++ codes "Do not make unrelated changes."

final_diagnosis : Text → Text
final_diagnosis [] = []
final_diagnosis (c ∷ diagnosis) =
    codes "FINAL DIAGNOSIS:"
    ++ line (tail_of (c ∷ diagnosis) max_retry_diagnosis_chars)
    ++ paragraph []

-- `fallback_prompt`, before the guidance and the last failure.
pub fallback_part : Text → Text → CommandResult → Text
fallback_part task diagnosis result =
    task
    ++ paragraph (codes "The primary coding agent exhausted its retry budget.")
    ++ line (codes "You are the fallback engineer.")
    ++ paragraph (final_diagnosis diagnosis)
    ++ failure_output result
    ++ paragraph (codes "Produce the smallest correct fix using schema-valid semantic edit ")
    ++ codes "operations. Do not make unrelated changes."
