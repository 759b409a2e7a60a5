-- ===== src/Scope.antt =====
-- src/local_agent_orchestrator/services/task_scope.py: the classes of the files that a task changed.
mod Classes
mod Scenarios
use mathlib.Core.List.{reverse}
use local_ai_workestra.Base.{
  ℕ, ◌+◌, Bool, true, false, not, ◌&&◌, ◌||◌, Option, none, some, List, [], ◌∷◌, ◌++◌, map, leb,
  if◌then◌else◌, ◌==◌, Text, codes, text_eq, text_in, is_empty, starts_with, any, keep, strip,
}

-- `s.replace(a, b)` of single characters
abbrev replaced : ℕ → ℕ → Text → Text
replaced a b s = map (λ c. if c == a then b else c) s

-- `s.lstrip("/")`
strip_left : Text → Text
strip_left [] = []
strip_left (c ∷ s) = if c == 47 then strip_left s else c ∷ s

-- `s.rstrip("/")`
strip_right : Text → Text
unfolding strip_left
strip_right s = reverse (strip_left (reverse s))

-- `value.replace("\\", "/").strip().rstrip("/")`
unfoldable pub normalized : Text → Text
unfolding strip_right
normalized s = strip_right (strip (replaced 92 47 s))

-- `normalize_scope`, given the paths that are already there.
unfoldable pub normalize_from : List Text → List Text → List Text
unfolding normalized
normalize_from seen [] = []
normalize_from seen (value ∷ values) =
    elim (is_empty (normalized value) || text_in (normalized value) seen) as (λ _. List Text) [
      | true ↦ normalize_from seen values
      | false ↦ normalized value ∷ normalize_from (normalized value ∷ seen) values
    ]

-- `path_matches`
unfoldable pub path_matches : Text → List Text → Bool
unfolding normalized normalize_from
path_matches path scope =
    any
      (λ boundary.
        text_eq (normalized path) boundary || starts_with (normalized path) (boundary ++ 47 ∷ []))
      (normalize_from [] scope)

-- `s.split(c)`
unfoldable pub split_on : ℕ → Text → List Text
split_on c [] = [] ∷ []
split_on c (d ∷ s) = elim (split_on c s) as (λ _. List Text) [
  | [] ↦ [] ∷ []
  | piece ∷ pieces ↦ if d == c then [] ∷ piece ∷ pieces else (d ∷ piece) ∷ pieces
]

-- `PurePosixPath(s).parts`, of a path without slashes at its ends.
unfoldable pub parts_of : Text → List Text
unfolding split_on
parts_of s = keep (λ part. not (is_empty part || text_eq part (46 ∷ []))) (split_on 47 s)

-- `parts[-1] if parts else ""`
unfoldable pub last_part : List Text → Text
last_part [] = []
last_part (p ∷ []) = p
last_part (p ∷ q ∷ ps) = last_part (q ∷ ps)

-- `s.lower()`, on the characters whose lower case has an ASCII letter.
unfoldable pub lower : Text → Text
lower [] = []
lower (c ∷ s) =
    let rest = lower s in
    if leb 65 c && leb c 90
    then (c + 32) ∷ rest
    else if c == 8490
    then 107 ∷ rest
    else if c == 304
    then 105 ∷ 775 ∷ rest
    else c ∷ rest

abbrev forbidden_names : List Text
forbidden_names =
    codes ".git"
    ∷ codes ".env"
    ∷ codes ".env.local"
    ∷ codes ".env.production"
    ∷ codes "credentials.json"
    ∷ codes "credentials.yml"
    ∷ codes "credentials.yaml"
    ∷ codes "secrets.json"
    ∷ codes "secrets.yml"
    ∷ codes "secrets.yaml"
    ∷ []

abbrev forbidden_suffixes : List Text
forbidden_suffixes = codes ".pem" ∷ codes ".key" ∷ codes ".p12" ∷ codes ".pfx" ∷ []

abbrev protected_words : List Text
protected_words = codes "secret" ∷ codes "secrets" ∷ codes "credential" ∷ codes "credentials" ∷ []

-- `s.endswith(suffix)`
ends_with : Text → Text → Bool
unfolding starts_with
ends_with s suffix = starts_with (reverse s) (reverse suffix)

-- `protected_tokens & {...}`
has_protected_token : Text → Bool
unfolding split_on
has_protected_token name =
    any (λ token. text_in token protected_words)
      (split_on 95 (replaced 45 95 (replaced 46 95 name)))

-- The tests of `is_builtin_forbidden`, on the parts and on the lower case of the last one.
is_forbidden_name : List Text → Text → Bool
unfolding ends_with has_protected_token
is_forbidden_name parts name =
    text_in (codes ".git") parts
    || text_in name forbidden_names
    || starts_with name (codes ".env.")
    || any (ends_with name) forbidden_suffixes
    || has_protected_token name

-- `is_builtin_forbidden`
unfoldable pub is_builtin_forbidden : Text → Bool
unfolding strip_left strip_right parts_of last_part lower is_forbidden_name
is_builtin_forbidden path =
    let parts = parts_of (strip_left (strip_right (replaced 92 47 path))) in
    is_forbidden_name parts (lower (last_part parts))

-- `is_forbidden_path`
unfoldable pub is_forbidden_path : List Text → Text → Bool
unfolding is_builtin_forbidden path_matches
is_forbidden_path forbidden_scope path =
    is_builtin_forbidden path || path_matches path forbidden_scope

-- `ScopeClassification`
pub record ScopeClassification : Type 0 where
  pub primary : List Text
  pub discouraged : List Text
  pub unexpected : List Text
  pub forbidden : List Text

-- `grey`
abbrev pub grey : ScopeClassification → List Text
grey c = c.discouraged ++ c.unexpected

-- The branches of the loop: the first class whose test holds takes the path.
unfoldable pub with_path : Bool → Bool → Bool → Text → ScopeClassification → ScopeClassification
with_path true _ _ path c = record c { forbidden = path ∷ c.forbidden }
with_path false true _ path c = record c { primary = path ∷ c.primary }
with_path false false true path c = record c { discouraged = path ∷ c.discouraged }
with_path false false false path c = record c { unexpected = path ∷ c.unexpected }

-- `classify_changed_files`; the loop appends, so the classes keep the order of the files.
unfoldable pub classify_changed_files :
    List Text → List Text → List Text → List Text → ScopeClassification
unfolding with_path
classify_changed_files primary_scope discouraged_scope forbidden_scope [] = record {
  primary = [];
  discouraged = [];
  unexpected = [];
  forbidden = [];
}
classify_changed_files primary_scope discouraged_scope forbidden_scope (path ∷ paths) =
    with_path (is_forbidden_path forbidden_scope path) (path_matches path primary_scope)
      (path_matches path discouraged_scope) path
      (classify_changed_files primary_scope discouraged_scope forbidden_scope paths)
