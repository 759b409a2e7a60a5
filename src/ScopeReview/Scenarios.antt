-- ===== src/ScopeReview/Scenarios.antt =====
-- A reviewer that answers with a fixed review.
use local_ai_workestra.Base.{true, List, [], ◌∷◌, Text, codes}
use local_ai_workestra.Session.{returns}
use local_ai_workestra.Work.{Desk}
use local_ai_workestra.ScopeReview.{
  ScopeReview, revise, TaskScope, RawReview, Reviewer, parsed, read,
}

-- To rework `x.py`, with guidance.
abbrev pub revision : ScopeReview
revision = record {
  decision = revise;
  reason = codes "x.py is not needed";
  preserve_paths = codes "src/app.py" ∷ [];
  remove_paths = codes "x.py" ∷ [];
  instruction = codes "Move it.";
}

abbrev pub answering : RawReview → Reviewer (Unit {0})
answering raw = record {
  load_reviewer = λ w. (returns tt, w);
  git_diff = λ path w. (returns record { succeeded = true; stdout = codes "+x"; stderr = [] }, w);
  is_file = λ path w. (returns true, w);
  read_text = λ path w. (returns (read []), w);
  review_scope = λ task changed scope diff w. (returns raw, w);
  parse_json = λ text. parsed revision;
  text = λ e. [];
  type_name = λ e. [];
}

abbrev pub source_scope : TaskScope
source_scope = record {
  primary_scope = codes "src" ∷ [];
  discouraged_scope = [];
  forbidden_scope = codes "ci" ∷ [];
}

abbrev pub two_files : List Text
two_files = codes "src/app.py" ∷ codes "x.py" ∷ []

abbrev empty_desk : Desk (Unit {0})
empty_desk = record { world = tt; events = [] }
