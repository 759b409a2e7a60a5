-- ===== src/ScopeReview/Grounded.antt =====
-- What a review of unexpected files may say, whatever the reviewing model answers.
use local_ai_workestra.Base.{
  ◌≡◌, refl, Bool, true, false, not, ◌&&◌, if-intro, List, [], ◌∷◌, ◌++◌, Text, text_in,
  text_in-cons, text_eq_refl, is_empty, all, strip, arith,
}
use local_ai_workestra.Session.{Outcome, returns, raises}
use local_ai_workestra.Work.{Desk, pure, call, attempt}
use local_ai_workestra.Work.Meets.{
  Meets, Meets-pure, Meets-bind, Meets-then, Meets-if, Meets-attempt, Ends, Ends-bind, Ends-call,
  Ends-pure,
}
use local_ai_workestra.Scope.{ScopeClassification, classify_changed_files, grey}
use local_ai_workestra.ScopeReview.{
  ScopeReview, TaskScope, Reviewer, GitDiff, FileText, read, os_error, RawReview, is_revise,
  is_fail_hard, fail_hard_review, refers_to_changed, checked_review, new_file_part, untracked_part,
  diff_part, diff_parts, focused_diff, parse_review, after_review, ask_reviewer, review_classified,
  review_unexpected_scope,
}

-- The paths of a review are changed files, a revision comes with guidance, and only a review that
-- fails the task is given when `forbidden` is not empty.
pub record IsGrounded (forbidden changed : List Text) (review : ScopeReview) : Type 0 where
  pub inside : refers_to_changed changed review ≡ true
  pub guided : is_revise review.decision ≡ true → is_empty (strip review.instruction) ≡ false
  pub bounded : is_fail_hard review.decision ≡ false → is_empty forbidden ≡ true

pub fail_hard_review-IsGrounded :
    (forbidden changed : List Text) (reason : Text)
    → IsGrounded forbidden changed (fail_hard_review reason)
unfolding fail_hard_review refers_to_changed
fail_hard_review-IsGrounded forbidden changed reason = record {
  inside = refl;
  guided = λ h. absurd (cc h);
  bounded = λ h. absurd (cc h);
}

all_in-cons :
    (x : Text) (xs ys : List Text)
    → all (λ s. text_in s ys) xs ≡ true
    → all (λ s. text_in s (x ∷ ys)) xs ≡ true
all_in-cons x [] ys h = refl
all_in-cons x (y ∷ xs) ys h = ground (arith, text_in-cons y x ys, all_in-cons x xs ys)

all_in_self : (xs : List Text) → all (λ s. text_in s xs) (xs ++ []) ≡ true
all_in_self [] = refl
all_in_self (x ∷ xs) =
    ground
      (arith, text_in-cons x x xs, text_eq_refl x, all_in-cons x (xs ++ []) xs (all_in_self xs))

checked_review-IsGrounded :
    (forbidden changed : List Text) (review : ScopeReview)
    → is_empty forbidden ≡ true
    → IsGrounded forbidden changed (checked_review changed review)
unfolding checked_review
checked_review-IsGrounded forbidden changed review h =
    if-intro (IsGrounded forbidden changed) (not (refers_to_changed changed review)) _ _
      (λ _. fail_hard_review-IsGrounded forbidden changed _)
      λ known.
        if-intro (IsGrounded forbidden changed)
          (is_revise review.decision && is_empty (strip review.instruction)) _ _
          (λ _. fail_hard_review-IsGrounded forbidden changed _)
          λ said. record {
            inside = ground arith;
            guided = λ revises. ground arith;
            bounded = λ _. h;
          }

module _ {W : Type 0} (reviewer : Reviewer W) where
  after_review-IsGrounded :
      (forbidden changed : List Text) (raw : Outcome RawReview)
      → is_empty forbidden ≡ true
      → IsGrounded forbidden changed (after_review reviewer changed raw)
  unfolding after_review
  after_review-IsGrounded forbidden changed (raises e) h =
      fail_hard_review-IsGrounded forbidden changed _
  after_review-IsGrounded forbidden changed (returns raw) h =
      checked_review-IsGrounded forbidden changed (parse_review reviewer raw) h

  new_file_part-Ends :
      (path : Text) (t : FileText) (d : Desk W) → Ends (new_file_part reviewer path t) d
  unfolding new_file_part
  new_file_part-Ends path (read text) d = record { holds = tt }
  new_file_part-Ends path (os_error text) d = record { holds = tt }

  untracked_part-Ends :
      (path : Text) (b : Bool) (d : Desk W) → Ends (untracked_part reviewer path b) d
  unfolding untracked_part
  untracked_part-Ends path false d = Ends-pure [] d
  untracked_part-Ends path true d =
      Ends-bind (call (reviewer.read_text path)) _ d (Ends-call _ d) (new_file_part-Ends path)

  diff_part-Ends :
      (path : Text) (diff : GitDiff) (d : Desk W) → Ends (diff_part reviewer path diff) d
  unfolding diff_part
  diff_part-Ends path diff d =
      Meets-if (λ _ _. Unit) (not diff.succeeded) _ _ d (λ _. record { holds = tt })
        (λ _.
          Meets-if (λ _ _. Unit) (is_empty diff.stdout) _ _ d
            (λ _.
              Ends-bind (call (reviewer.is_file path)) _ d (Ends-call _ d)
                (untracked_part-Ends path))
            (λ _. Ends-pure (diff.stdout ∷ []) d))

  diff_parts-Ends : (paths : List Text) (d : Desk W) → Ends (diff_parts reviewer paths) d
  unfolding diff_parts
  diff_parts-Ends [] d = Ends-pure [] d
  diff_parts-Ends (path ∷ paths) d =
      Ends-bind (call (reviewer.git_diff path)) _ d (Ends-call _ d) λ diff d1.
        Ends-bind (diff_part reviewer path diff) _ d1 (diff_part-Ends path diff d1) λ part d2.
          Ends-bind (diff_parts reviewer paths) _ d2 (diff_parts-Ends paths d2)
            λ parts d3. Ends-pure (part ++ parts) d3

  focused_diff-Ends : (paths : List Text) (d : Desk W) → Ends (focused_diff reviewer paths) d
  unfolding focused_diff
  focused_diff-Ends [] d = Ends-pure _ d
  focused_diff-Ends (path ∷ paths) d =
      Ends-bind (diff_parts reviewer (path ∷ paths)) _ d (diff_parts-Ends (path ∷ paths) d)
        λ parts d1. Ends-pure _ d1

  ask_reviewer-Ends :
      (task : Text) (changed : List Text) (scope : TaskScope) (unexpected : List Text) (d : Desk W)
      → Ends (ask_reviewer reviewer task changed scope unexpected) d
  unfolding ask_reviewer
  ask_reviewer-Ends task changed scope unexpected d =
      Ends-bind (focused_diff reviewer unexpected) _ d (focused_diff-Ends unexpected d)
        λ diff d1. Ends-call _ d1

  review_classified-Meets :
      (task : Text) (changed : List Text) (scope : TaskScope) (c : ScopeClassification) (d : Desk W)
      → Meets
          (λ review _. IsGrounded c.forbidden changed review)
          (review_classified reviewer task changed scope c)
          d
  unfolding review_classified refers_to_changed
  review_classified-Meets task changed scope c d =
      let G = λ (review : ScopeReview) (_ : Desk W). IsGrounded c.forbidden changed review in
      Meets-if G (not (is_empty c.forbidden)) _ _ d
        (λ _. Meets-pure G _ d (fail_hard_review-IsGrounded c.forbidden changed _))
        λ allowed.
          Meets-if G (is_empty (grey c)) _ _ d
            (λ _. Meets-pure G _ d record {
              inside = all_in_self changed;
              guided = λ h. absurd (cc h);
              bounded = λ _. ground arith;
            })
            λ unexpected.
              Meets-then (λ _. Unit) G (call reviewer.load_reviewer) _ d (Ends-call _ d)
                λ d1 _.
                  Meets-bind (λ _ _. Unit) G
                    (attempt (ask_reviewer reviewer task changed scope (grey c)))
                    (λ raw. pure (after_review reviewer changed raw)) d1
                    (Meets-attempt (λ _. Unit) (ask_reviewer reviewer task changed scope (grey c))
                      d1 (ask_reviewer-Ends task changed scope (grey c) d1) tt)
                    λ raw d2 _.
                      Meets-pure G _ d2
                        (after_review-IsGrounded c.forbidden changed raw (ground arith))

  pub review_unexpected_scope-Meets :
      (task : Text) (changed : List Text) (scope : TaskScope) (d : Desk W)
      → Meets
          (λ review _.
            IsGrounded
              (classify_changed_files scope.primary_scope scope.discouraged_scope
                scope.forbidden_scope changed).forbidden
              changed
              review)
          (review_unexpected_scope reviewer task changed scope)
          d
  unfolding review_unexpected_scope
  review_unexpected_scope-Meets task changed scope d =
      review_classified-Meets task changed scope _ d
