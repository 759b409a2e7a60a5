-- ===== src/TaskExecutor/Bounded.antt =====
-- The classification of the changed files against the test of each file, where a task has a scope.
use local_ai_workestra.Base.{
  ◌≡◌, refl, sym, ap, ◌∙◌, Bool, true, false, not, List, [], ◌∷◌, all, is_empty, Text, arith,
}
use local_ai_workestra.Scope.{
  path_matches, is_forbidden_path, ScopeClassification, with_path, classify_changed_files,
}
use local_ai_workestra.ScopeReview.{TaskScope}
use local_ai_workestra.TaskExecutor.{scope_enabled, scope_classification}

-- No file is one that a task may not change.
abbrev pub is_bounded : List Text → List Text → Bool
is_bounded forbidden_scope files = all (λ path. not (is_forbidden_path forbidden_scope path)) files

is_bounded-with_path :
    (forbidden files : List Text) (x : Text) (f p d : Bool) (c : ScopeClassification)
    → is_forbidden_path forbidden x ≡ f
    → is_empty c.forbidden ≡ is_bounded forbidden files
    → is_empty (with_path f p d x c).forbidden ≡ is_bounded forbidden (x ∷ files)
unfolding with_path
is_bounded-with_path forbidden files x true p d c e h = ground arith
is_bounded-with_path forbidden files x false true d c e h = ground arith
is_bounded-with_path forbidden files x false false true c e h = ground arith
is_bounded-with_path forbidden files x false false false c e h = ground arith

is_bounded-classified :
    (primary discouraged forbidden files : List Text)
    → is_empty (classify_changed_files primary discouraged forbidden files).forbidden
      ≡ is_bounded forbidden files
unfolding classify_changed_files
is_bounded-classified primary discouraged forbidden [] = refl
is_bounded-classified primary discouraged forbidden (x ∷ files) =
    is_bounded-with_path forbidden files x (is_forbidden_path forbidden x) (path_matches x primary)
      (path_matches x discouraged) _ refl
      (is_bounded-classified primary discouraged forbidden files)

-- Where a scope is given, the retry loop's classification sees every forbidden file.
pub is_bounded-scope_classification :
    (scope : TaskScope) (files : List Text)
    → scope_enabled scope ≡ true
    → is_empty (scope_classification scope files).forbidden ≡ true
    → is_bounded scope.forbidden_scope files ≡ true
unfolding scope_classification
is_bounded-scope_classification scope files enabled h =
    let same : scope_classification scope files
        ≡ classify_changed_files scope.primary_scope scope.discouraged_scope scope.forbidden_scope
            files =
      rw enabled refl in
    sym (
      is_bounded-classified scope.primary_scope scope.discouraged_scope scope.forbidden_scope files)
    ∙ (ap (λ c. is_empty c.forbidden) (sym same) ∙ h)
