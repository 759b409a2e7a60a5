-- ===== src/EditOperations/Decides.antt =====
-- The validation of a batch of edit operations decides what Accepts says of it.
use mathlib.Core.Path.{subst}
use local_ai_workestra.Base.{
  sym, ap, ◌≡◌, refl, ◌↔◌, true, false, not, Option, none, some, List, [], ◌∷◌, Text, text_in,
  split_lines, any, ltb, ◌==◌, Result, ok, >>=-eq_ok, guard_passes, guard-eq_ok, ok-injective,
  arith,
}
use local_ai_workestra.Session.{Outcome, returns, raises}
use local_ai_workestra.Scope.{is_forbidden_path}
use local_ai_workestra.EditOperations.{
  EditKind, replace_exact, create_file, delete_file, EditOperation, Refusal,
}
use local_ai_workestra.EditOperations.Matching.{count_matches, replace_first}
use local_ai_workestra.EditOperations.Validate.{
  Checkout, ends_in_blank, is_absolute, climbs, validate_path, checked_content, created_content,
  replacement, replaced_once, replaced_content, grounded_content, content_of, validate_resolved,
  validate_operation, validate_from, validate_operations,
}
use local_ai_workestra.EditOperations.Accepts.{
  IsGroundedFile, Gives, creates, replaces, deletes, IsAcceptable, Accepts, none_left, next,
}

module _ (checkout : Checkout) (grounded forbidden : List Text) where
  checked_content-eq_ok :
      (path : Text) (o : Option Text) (content : Option Text)
      → checked_content checkout path o ≡ ok content
      → (text : Text) × (o ≡ some text)
        × (any ends_in_blank (split_lines text) ≡ false)
        × (content ≡ some text)
  unfolding checked_content
  checked_content-eq_ok path none content h = absurd (cc h)
  checked_content-eq_ok path (some text) content h =
      let (clean, e) = guard-eq_ok (any ends_in_blank (split_lines text)) _ _ h in
      (text, refl, clean, sym (ok-injective e))

  created_content-Gives :
      (op : EditOperation) (content : Option Text)
      → created_content checkout op (checkout.resolve op.path) ≡ ok content
      → (Gives checkout grounded forbidden) op create_file content
  unfolding created_content
  created_content-Gives op content h =
      let (free, e) = guard-eq_ok (checkout.exists (checkout.resolve op.path)) _ _ h in
      let (text, from, clean, same) = checked_content-eq_ok op.path op.content content e in
      subst ((Gives checkout grounded forbidden) op create_file) (sym same)
        (creates free from clean)

  grounded_content-eq_ok :
      (op : EditOperation) (after : Result Refusal (Option Text)) (content : Option Text)
      → grounded_content checkout grounded op (checkout.resolve op.path) after ≡ ok content
      → (IsGroundedFile checkout grounded forbidden) op.path × (after ≡ ok content)
  unfolding grounded_content
  grounded_content-eq_ok op after content h =
      let (named, h1) = guard-eq_ok (not (text_in op.path grounded)) _ _ h in
      let (exists, h2) = guard-eq_ok (not (checkout.exists (checkout.resolve op.path))) _ _ h1 in
      let (is_file, h3) = guard-eq_ok (not (checkout.is_file (checkout.resolve op.path))) _ _ h2 in
      (record { named = ground arith; exists = ground arith; is_file = ground arith }, h3)

  replacement-eq_ok :
      (current old : Text) (o : Option Text) (content : Option Text)
      → replacement checkout current old o ≡ ok content
      → (new : Text) × (o ≡ some new) × (content ≡ some (replace_first current old new))
  unfolding replacement
  replacement-eq_ok current old none content h = absurd (cc h)
  replacement-eq_ok current old (some new) content h = (new, refl, sym (ok-injective h))

  replaced_once-Gives :
      (op : EditOperation) (current : Text) (o : Option Text) (content : Option Text)
      → (IsGroundedFile checkout grounded forbidden) op.path
      → checkout.read_text (checkout.resolve op.path) ≡ returns current
      → op.old_text ≡ o
      → replaced_once checkout op current o ≡ ok content
      → (Gives checkout grounded forbidden) op replace_exact content
  unfolding replaced_once
  replaced_once-Gives op current none content g r from h = absurd (cc h)
  replaced_once-Gives op current (some old) content g r from h =
      let (found, h1) = guard-eq_ok (count_matches current old == 0) _ _ h in
      let (single, h2) = guard-eq_ok (ltb 1 (count_matches current old)) _ _ h1 in
      let (new, given, same) = replacement-eq_ok current old op.new_text content h2 in
      subst ((Gives checkout grounded forbidden) op replace_exact) (sym same)
        (replaces g r from given (ground arith))

  replaced_content-Gives :
      (op : EditOperation) (r : Outcome Text) (content : Option Text)
      → (IsGroundedFile checkout grounded forbidden) op.path
      → checkout.read_text (checkout.resolve op.path) ≡ r
      → replaced_content checkout op r ≡ ok content
      → (Gives checkout grounded forbidden) op replace_exact content
  unfolding replaced_content
  replaced_content-Gives op (raises e) content g from h = absurd (cc h)
  replaced_content-Gives op (returns current) content g from h =
      replaced_once-Gives op current op.old_text content g from refl h

  content_of-Gives :
      (kind : EditKind) (op : EditOperation) (content : Option Text)
      → content_of checkout grounded kind op (checkout.resolve op.path) ≡ ok content
      → (Gives checkout grounded forbidden) op kind content
  unfolding content_of
  content_of-Gives create_file op content h = created_content-Gives op content h
  content_of-Gives replace_exact op content h =
      let (g, e) = grounded_content-eq_ok op _ content h in
      replaced_content-Gives op (checkout.read_text (checkout.resolve op.path)) content g refl e
  content_of-Gives delete_file op content h =
      let (g, e) = grounded_content-eq_ok op (ok none) content h in
      subst ((Gives checkout grounded forbidden) op delete_file) (ok-injective e) (deletes g)

  validate_path-eq_ok :
      (path resolved : Text)
      → validate_path checkout path ≡ ok resolved
      → (is_absolute path ≡ false)
        × (climbs path ≡ false)
        × (checkout.inside (checkout.resolve path) ≡ true)
        × (checkout.resolve path ≡ resolved)
  unfolding validate_path
  validate_path-eq_ok path resolved h =
      let (relative, h1) = guard-eq_ok (is_absolute path) _ _ h in
      let (level, h2) = guard-eq_ok (climbs path) _ _ h1 in
      let (inside, h3) = guard-eq_ok (not (checkout.inside (checkout.resolve path))) _ _ h2 in
      (relative, level, ground arith, ok-injective h3)

  validate_path-ok :
      (path : Text)
      → is_absolute path ≡ false
      → climbs path ≡ false
      → checkout.inside (checkout.resolve path) ≡ true
      → validate_path checkout path ≡ ok (checkout.resolve path)
  unfolding validate_path
  validate_path-ok path relative level inside = guard_passes (is_absolute path) _ _ relative (
      guard_passes (climbs path) _ _ level (
        guard_passes (not (checkout.inside (checkout.resolve path))) _ _ (ground (arith, inside))
          refl))

  validate_operation-IsAcceptable :
      (seen : List Text) (op : EditOperation) (resolved : Text) (content : Option Text)
      → validate_operation checkout grounded forbidden seen op ≡ ok (resolved, content)
      → (IsAcceptable checkout grounded forbidden) seen op content
        × (checkout.resolve op.path ≡ resolved)
  unfolding validate_operation validate_resolved
  validate_operation-IsAcceptable seen op resolved content h =
      let (r, e1, h1) = >>=-eq_ok (validate_path checkout op.path) _ h in
      let (relative, level, inside, same) = validate_path-eq_ok op.path r e1 in
      let rest =
        subst
          (λ x. validate_resolved checkout grounded forbidden seen op x ≡ ok (resolved, content))
          (sym same) h1 in
      let (allowed, h2) = guard-eq_ok (is_forbidden_path forbidden op.path) _ _ rest in
      let (fresh, h3) = guard-eq_ok (text_in (checkout.resolve op.path) seen) _ _ h2 in
      let (given, e4, h4) =
        >>=-eq_ok (content_of checkout grounded op.kind op (checkout.resolve op.path)) _ h3 in
      let gives = content_of-Gives op.kind op given e4 in
      (
        record {
          relative = relative;
          level = level;
          inside = inside;
          allowed = allowed;
          fresh = fresh;
          gives =
              subst ((Gives checkout grounded forbidden) op op.kind)
                (ap (λ p. p.1) (ok-injective h4)) gives;
        },
        ap (λ p. p.0) (ok-injective h4),
      )

  validate_from-Accepts :
      (seen : List Text) (ops : List EditOperation) (contents : List (Text × Option Text))
      → validate_from checkout grounded forbidden seen ops ≡ ok contents
      → (Accepts checkout grounded forbidden) seen ops contents
  unfolding validate_from
  validate_from-Accepts seen [] contents h =
      subst ((Accepts checkout grounded forbidden) seen []) (ok-injective h) none_left
  validate_from-Accepts seen (op ∷ ops) contents h =
      let (checked, e1, h1) =
        >>=-eq_ok (validate_operation checkout grounded forbidden seen op) _ h in
      let (rest, e2, h2) =
        >>=-eq_ok (validate_from checkout grounded forbidden (checked.0 ∷ seen) ops) _ h1 in
      let (good, same) = validate_operation-IsAcceptable seen op checked.0 checked.1 e1 in
      let later = validate_from-Accepts (checked.0 ∷ seen) ops rest e2 in
      subst ((Accepts checkout grounded forbidden) seen (op ∷ ops)) (ok-injective h2) (
        next good
          (subst (λ r. (Accepts checkout grounded forbidden) (r ∷ seen) ops rest) (sym same) later))

  grounded_content-ok :
      (op : EditOperation) (after : Result Refusal (Option Text)) (content : Option Text)
      → (IsGroundedFile checkout grounded forbidden) op.path
      → after ≡ ok content
      → grounded_content checkout grounded op (checkout.resolve op.path) after ≡ ok content
  unfolding grounded_content
  grounded_content-ok op after content g h =
      guard_passes (not (text_in op.path grounded)) _ _ (ground (arith, g.named)) (
        guard_passes (not (checkout.exists (checkout.resolve op.path))) _ _
          (ground (arith, g.exists))
          (guard_passes (not (checkout.is_file (checkout.resolve op.path))) _ _
            (ground (arith, g.is_file)) h))

  content_of-ok :
      (kind : EditKind) (op : EditOperation) (content : Option Text)
      → (Gives checkout grounded forbidden) op kind content
      → content_of checkout grounded kind op (checkout.resolve op.path) ≡ ok content
  unfolding content_of created_content checked_content replaced_content replaced_once replacement
  content_of-ok create_file op content (creates {text} free from clean) =
      guard_passes (checkout.exists (checkout.resolve op.path)) _ _ free
        (rw from (guard_passes (any ends_in_blank (split_lines text)) _ _ clean refl))
  content_of-ok replace_exact op content (replaces {current} {old} {new} g r from given once) =
      grounded_content-ok op _ _ g (
        rw (r, from, given)
          (guard_passes (count_matches current old == 0) _ _ (ground (arith, once))
            (guard_passes (ltb 1 (count_matches current old)) _ _ (ground (arith, once)) refl)))
  content_of-ok delete_file op content (deletes g) = grounded_content-ok op (ok none) none g refl

  IsAcceptable-validate_operation :
      (seen : List Text) (op : EditOperation) (content : Option Text)
      → (IsAcceptable checkout grounded forbidden) seen op content
      → validate_operation checkout grounded forbidden seen op
        ≡ ok (checkout.resolve op.path, content)
  unfolding validate_operation validate_path validate_resolved
  IsAcceptable-validate_operation seen op content good =
      rw (validate_path-ok op.path good.relative good.level good.inside) (
        guard_passes (is_forbidden_path forbidden op.path) _ _ good.allowed (
          guard_passes (text_in (checkout.resolve op.path) seen) _ _ good.fresh
            (rw (content_of-ok op.kind op content good.gives) refl)))

  Accepts-validate_from :
      (seen : List Text) (ops : List EditOperation) (contents : List (Text × Option Text))
      → (Accepts checkout grounded forbidden) seen ops contents
      → validate_from checkout grounded forbidden seen ops ≡ ok contents
  unfolding validate_from
  Accepts-validate_from seen [] contents none_left = refl
  Accepts-validate_from seen (op ∷ ops) contents
        (next {content = content} {rest = rest} good later) =
      rw
        (
          IsAcceptable-validate_operation seen op content good,
          Accepts-validate_from (checkout.resolve op.path ∷ seen) ops rest later,
        )
        refl

  pub validate_operations-Accepts :
      (ops : List EditOperation) (contents : List (Text × Option Text))
      → (validate_operations checkout grounded forbidden ops ≡ ok contents)
        ↔ (Accepts checkout grounded forbidden) [] ops contents
  unfolding validate_operations
  validate_operations-Accepts ops contents =
      (validate_from-Accepts [] ops contents, Accepts-validate_from [] ops contents)
