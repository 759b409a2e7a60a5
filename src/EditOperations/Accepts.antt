-- ===== src/EditOperations/Accepts.antt =====
-- What a batch of edit operations has to be, said without the order of the checks.
use local_ai_workestra.Base.{
  ◌≡◌, true, false, Option, none, some, List, [], ◌∷◌, Text, text_in, split_lines, any,
}
use local_ai_workestra.Session.{returns}
use local_ai_workestra.Scope.{is_forbidden_path}
use local_ai_workestra.EditOperations.{
  EditKind, replace_exact, create_file, delete_file, EditOperation,
}
use local_ai_workestra.EditOperations.Matching.{count_matches, replace_first}
use local_ai_workestra.EditOperations.Validate.{Checkout, ends_in_blank, is_absolute, climbs}

module _ (checkout : Checkout) (grounded forbidden : List Text) where
  -- The path of an existing file that the evidence named.
  pub record IsGroundedFile (path : Text) : Type 0 where
    pub named : text_in path grounded ≡ true
    pub exists : checkout.exists (checkout.resolve path) ≡ true
    pub is_file : checkout.is_file (checkout.resolve path) ≡ true

  -- The content that an operation gives its file; `none` deletes it.
  pub data Gives (op : EditOperation) : EditKind → Option Text → Type 0 where
    creates :
        {text : Text}
        → checkout.exists (checkout.resolve op.path) ≡ false
        → op.content ≡ some text
        → any ends_in_blank (split_lines text) ≡ false
        → Gives op create_file (some text)
    replaces :
        {current old new : Text}
        → IsGroundedFile op.path
        → checkout.read_text (checkout.resolve op.path) ≡ returns current
        → op.old_text ≡ some old
        → op.new_text ≡ some new
        → count_matches current old ≡ 1
        → Gives op replace_exact (some (replace_first current old new))
    deletes : IsGroundedFile op.path → Gives op delete_file none

  -- An operation that may be applied after others at the resolved paths `seen`.
  pub record IsAcceptable (seen : List Text) (op : EditOperation) (content : Option Text)
      : Type 0 where
    pub relative : is_absolute op.path ≡ false
    pub level : climbs op.path ≡ false
    pub inside : checkout.inside (checkout.resolve op.path) ≡ true
    pub allowed : is_forbidden_path forbidden op.path ≡ false
    pub fresh : text_in (checkout.resolve op.path) seen ≡ false
    pub gives : Gives op op.kind content

  -- The batch, one operation after the other.
  pub data Accepts : List Text → List EditOperation → List (Text × Option Text) → Type 0 where
    none_left : {seen : List Text} → Accepts seen [] []
    next :
        {seen : List Text} {op : EditOperation} {ops : List EditOperation} {content : Option Text}
        {rest : List (Text × Option Text)}
        → IsAcceptable seen op content
        → Accepts (checkout.resolve op.path ∷ seen) ops rest
        → Accepts seen (op ∷ ops) ((op.path, content) ∷ rest)
