-- ===== src/EditOperations/Scenarios.antt =====
-- A batch of three operations on two files of a small workspace.
use local_ai_workestra.Base.{
  drop_chars, starts_with, split_lines, strip, ◌≡◌, refl, true, Bool, Option, none, some, List, [],
  ◌∷◌, Text, codes, text_eq, text_eq_sound, text_in, if◌then◌else◌, ok, starts_with, ◌⊎◌, err,
  is_some, ◌&&◌, map,
}
use local_ai_workestra.Session.{returns, RunError, external}
use local_ai_workestra.EditOperations.{
  replace_exact, create_file, delete_file, EditOperation, raised,
}
use local_ai_workestra.Scope.{is_forbidden_path, parts_of, path_matches}
use local_ai_workestra.EditOperations.Matching.{
  count_matches, replace_first, IsReplaced, replace_first-IsReplaced, replace_first-roundtrip,
}
use local_ai_workestra.EditOperations.Validate.{
  Checkout, ends_in_blank, validate_path, checked_content, created_content, replacement,
  replaced_once, replaced_content, grounded_content, content_of, validate_resolved,
  validate_operation, validate_from, validate_operations,
}
use local_ai_workestra.EditOperations.Accepts.{Accepts}
use local_ai_workestra.EditOperations.Decides.{validate_operations-Accepts}
use local_ai_workestra.EditOperations.Apply.{
  Files, apply_to_candidate, put, content_at, apply_operation, write_text,
}
use local_ai_workestra.EditOperations.Edited.{IsEdited, apply_to_candidate-IsEdited, IsRefused}

-- Paths lead to themselves; two files are there.
abbrev there : Text → Bool
there path = text_in path (codes "a.py" ∷ codes "b.py" ∷ [])

abbrev checkout : Checkout
checkout = record {
  resolve = λ path. path;
  inside = λ path. true;
  exists = there;
  is_file = there;
  read_text = λ path. returns (codes "x = 1");
}

abbrev batch : List EditOperation
batch =
    record {
      kind = replace_exact;
      path = codes "a.py";
      old_text = some (codes "1");
      new_text = some (codes "2");
      content = none;
    }
    ∷ record {
      kind = delete_file;
      path = codes "b.py";
      old_text = none;
      new_text = none;
      content = none;
    }
    ∷ record {
      kind = create_file;
      path = codes "c.py";
      old_text = none;
      new_text = none;
      content = some (codes "y");
    }
    ∷ []

abbrev contents : List (Text × Option Text)
contents =
    (codes "a.py", some (codes "x = 2"))
    ∷ (codes "b.py", none)
    ∷ (codes "c.py", some (codes "y"))
    ∷ []

abbrev evidence : List Text
evidence = codes "a.py" ∷ codes "b.py" ∷ []

validated : validate_operations checkout evidence [] batch ≡ ok contents
unfolding ends_in_blank validate_path checked_content created_content replacement replaced_once
    replaced_content grounded_content content_of validate_resolved validate_operation validate_from
    validate_operations count_matches replace_first drop_chars text_in text_eq starts_with
    split_lines is_forbidden_path parts_of path_matches strip
validated = refl

overlaps_counted : count_matches (codes "aaa") (codes "aa") ≡ 2
unfolding count_matches starts_with
overlaps_counted = refl

once : count_matches (codes "x = 1") (codes "1") ≡ 1
unfolding count_matches starts_with
once = refl

back_once : count_matches (replace_first (codes "x = 1") (codes "1") (codes "2")) (codes "2") ≡ 1
unfolding count_matches replace_first starts_with
back_once = refl

replace_first-IsReplaced_example :
    IsReplaced
      (codes "x = 1")
      (codes "1")
      (codes "2")
      (replace_first (codes "x = 1") (codes "1") (codes "2"))
replace_first-IsReplaced_example =
    replace_first-IsReplaced (codes "x = 1") (codes "1") (codes "2") refl once

replace_first-roundtrip_example :
    replace_first (replace_first (codes "x = 1") (codes "1") (codes "2")) (codes "2") (codes "1")
    ≡ codes "x = 1"
replace_first-roundtrip_example =
    replace_first-roundtrip (codes "x = 1") (codes "1") (codes "2") refl refl once back_once

-- The candidate has the two files.
abbrev two_files : Files
two_files place = if there place then some (codes "x = 1") else none

accepted : Accepts checkout evidence [] [] batch contents
accepted = (validate_operations-Accepts checkout evidence [] batch contents).0 validated

b_present : there (codes "b.py") ≡ true
unfolding text_in text_eq
b_present = refl

-- A batch that creates `d` and then `d/e`: a directory cannot be made where a file stands.
abbrev refuses_below : Text → Files → Option RunError
refuses_below place files =
    if text_eq place (codes "d/e") && is_some (files (codes "d"))
    then some (external (codes "FileExistsError: d"))
    else none

abbrev nested : List EditOperation
nested =
    map
      (λ path. record {
        kind = create_file;
        path = path;
        old_text = none;
        new_text = none;
        content = some (codes "y");
      })
      (codes "d" ∷ codes "d/e" ∷ [])

nested-refused :
    apply_to_candidate
      (λ path. path)
      refuses_below
      ((codes "d", some (codes "y")) ∷ (codes "d/e", some (codes "y")) ∷ [])
      nested
      two_files
    ≡ err (raised (external (codes "FileExistsError: d")))
unfolding apply_to_candidate put content_at text_eq apply_operation write_text
nested-refused = refl

apply_to_candidate-IsEdited_example :
    IsEdited
      (λ path. path)
      refuses_below
      batch
      contents
      two_files
      (apply_to_candidate (λ path. path) refuses_below contents batch two_files)
    ⊎ IsRefused
        (λ path. path)
        refuses_below
        contents
        two_files
        (apply_to_candidate (λ path. path) refuses_below contents batch two_files)
apply_to_candidate-IsEdited_example =
    apply_to_candidate-IsEdited (λ path. path) refuses_below checkout evidence []
      (λ p q same. text_eq_sound p q same) batch contents two_files accepted
      ((λ e. absurd (cc e)), ((λ e. rw b_present refl), ((λ e. absurd (cc e)), tt)))
