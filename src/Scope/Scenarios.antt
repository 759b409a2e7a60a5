-- ===== src/Scope/Scenarios.antt =====
-- Changed files of a small task.
use local_ai_workestra.Base.{
  ◌≡◌, refl, List, [], ◌∷◌, Text, codes, text_in, text_eq, starts_with, strip,
}
use local_ai_workestra.Scope.{is_forbidden_path, path_matches, classify_changed_files}

abbrev changed : List Text
changed = codes "src/app.py" ∷ codes "docs/a.md" ∷ codes "deploy/.env.local" ∷ codes "x.py" ∷ []

classified : classify_changed_files (codes "src/" ∷ []) (codes "docs" ∷ []) [] changed ≡ record {
  primary = codes "src/app.py" ∷ [];
  discouraged = codes "docs/a.md" ∷ [];
  unexpected = codes "x.py" ∷ [];
  forbidden = codes "deploy/.env.local" ∷ [];
}
unfolding classify_changed_files is_forbidden_path path_matches text_in text_eq starts_with strip
classified = refl
