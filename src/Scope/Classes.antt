-- ===== src/Scope/Classes.antt =====
-- The classes that `classify_changed_files` puts a file in (services/task_scope.py).
use local_ai_workestra.Base.{◌≡◌, not, ◌&&◌, List, Text, text_in}
use local_ai_workestra.Scope.{path_matches, is_forbidden_path, ScopeClassification}

module _ (primary_scope discouraged_scope forbidden_scope : List Text) where
  -- What classes a path stands in.
  abbrev pub StandsByItsTests : Text → List Text → ScopeClassification → Type 0
  StandsByItsTests path files c =
      let is_forbidden = is_forbidden_path forbidden_scope path in
      let is_primary = path_matches path primary_scope in
      let is_discouraged = path_matches path discouraged_scope in
      (text_in path c.forbidden ≡ text_in path files && is_forbidden)
      × (text_in path c.primary ≡ text_in path files && (not is_forbidden && is_primary))
      × (text_in path c.discouraged
          ≡ text_in path files && (not is_forbidden && (not is_primary && is_discouraged)))
      × (text_in path c.unexpected
          ≡ text_in path files && (not is_forbidden && (not is_primary && not is_discouraged)))
