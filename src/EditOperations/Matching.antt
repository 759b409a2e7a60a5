-- ===== src/EditOperations/Matching.antt =====
-- How `_validate_operations` of src/local_agent_orchestrator/services/edit_operations.py counts the matches of an
-- exact replacement, overlapping ones included, and replaces the first one.
use mathlib.Core.List.{append_cancel_left}
use local_ai_workestra.Base.{
  drop_chars, ℕ, ◌+◌, ◌≡◌, ◌≢◌, refl, sym, ap, ◌∙◌, true, false, Bool-cases, inl, inr, [], ◌∷◌,
  ◌++◌, length, is_empty, if◌then◌else◌, Text, starts_with, arith,
}

-- `sum(current.startswith(old, index) for index in range(len(current) - len(old) + 1))`
unfoldable pub count_matches : Text → Text → ℕ
count_matches [] old = if starts_with [] old then 1 else 0
count_matches (c ∷ s) old =
    let rest = count_matches s old in if starts_with (c ∷ s) old then 1 + rest else rest

-- `s.replace(old, new, 1)`
unfoldable pub replace_first : Text → Text → Text → Text
unfolding drop_chars
replace_first [] old new = if starts_with [] old then new else []
replace_first (c ∷ s) old new =
    let rest = replace_first s old new in
    if starts_with (c ∷ s) old then new ++ drop_chars (length old) (c ∷ s) else c ∷ rest

-- `old` stands in `s` once: between `before` and `after`, and nowhere else.
pub record IsOnlyMatch (s old before after : Text) : Type 0 where
  pub at : s ≡ before ++ old ++ after
  pub only : (p q : Text) → s ≡ p ++ old ++ q → p ≡ before

starts_with-drop : (s old : Text) → starts_with s old ≡ true → s ≡ old ++ drop_chars (length old) s
unfolding starts_with drop_chars
starts_with-drop s [] h = refl
starts_with-drop [] (d ∷ p) h = absurd (cc h)
starts_with-drop (c ∷ s) (d ∷ p) h = ground (arith, starts_with-drop s p)

starts_with-append : (old q : Text) → starts_with (old ++ q) old ≡ true
unfolding starts_with
starts_with-append [] [] = refl
starts_with-append [] (c ∷ q) = refl
starts_with-append (d ∷ p) q = ground (arith, starts_with-append p q)

count_matches-front : (s old : Text) → starts_with s old ≡ true → count_matches s old ≢ 0
unfolding count_matches
count_matches-front [] old h = ground (arith, h)
count_matches-front (c ∷ s) old h = ground (arith, h)

-- A match further on is counted too.
count_matches-append : (p old q : Text) → count_matches (p ++ old ++ q) old ≢ 0
unfolding count_matches
count_matches-append [] old q = count_matches-front (old ++ q) old (starts_with-append old q)
count_matches-append (c ∷ p) old q = ground (arith, count_matches-append p old q)

tail_eq : {c d : ℕ} {s t : Text} → c ∷ s ≡ d ∷ t → s ≡ t
tail_eq {s = s} h = ap (λ x. elim x as (λ _. Text) [ [] ↦ s | c ∷ t ↦ t ]) h

head_eq : {c d : ℕ} {s t : Text} → c ∷ s ≡ d ∷ t → c ≡ d
head_eq {c = c} h = ap (λ x. elim x as (λ _. ℕ) [ [] ↦ c | d ∷ t ↦ d ]) h

-- The match is at the front.
only_front : (c : ℕ) (s old p q : Text) → count_matches s old ≡ 0 → c ∷ s ≡ p ++ old ++ q → p ≡ []
only_front c s old [] q h e = refl
only_front c s old (d ∷ p) q h e =
    absurd (count_matches-append p old q (ap (λ t. count_matches t old) (sym (tail_eq e)) ∙ h))

-- The match is not at the front.
only_rest :
    (c : ℕ) (s old before p q : Text)
    → starts_with (c ∷ s) old ≡ false
    → ((p q : Text) → s ≡ p ++ old ++ q → p ≡ before)
    → c ∷ s ≡ p ++ old ++ q
    → p ≡ c ∷ before
only_rest c s old before [] q h only e =
    absurd (cc (h, ap (λ t. starts_with t old) e, starts_with-append old q))
only_rest c s old before (d ∷ p) q h only e = cc (head_eq e, only p q (tail_eq e))

-- What the branch `1 + rest` of the count leaves for the rest.
count_here :
    (c : ℕ) (s old : Text)
    → starts_with (c ∷ s) old ≡ true
    → count_matches (c ∷ s) old ≡ 1
    → count_matches s old ≡ 0
unfolding count_matches
count_here c s old here h = ground arith

count_there :
    (c : ℕ) (s old : Text)
    → starts_with (c ∷ s) old ≡ false
    → count_matches (c ∷ s) old ≡ 1
    → count_matches s old ≡ 1
unfolding count_matches
count_there c s old there h = ground arith

replace_here :
    (c : ℕ) (s old new : Text)
    → starts_with (c ∷ s) old ≡ true
    → replace_first (c ∷ s) old new ≡ new ++ drop_chars (length old) (c ∷ s)
unfolding replace_first
replace_here c s old new here = rw here refl

replace_there :
    (c : ℕ) (s old new : Text)
    → starts_with (c ∷ s) old ≡ false
    → replace_first (c ∷ s) old new ≡ c ∷ replace_first s old new
unfolding replace_first
replace_there c s old new there = rw there refl

count_nil : (old : Text) → is_empty old ≡ false → count_matches [] old ≢ 1
unfolding count_matches starts_with
count_nil [] h e = absurd (cc h)
count_nil (d ∷ p) h e = absurd (omega (arith, e))

-- The text with its only match replaced.
pub record IsReplaced (s old new result : Text) : Type 0 where
  pub before : Text
  pub after : Text
  pub only : IsOnlyMatch s old before after
  pub replaced : result ≡ before ++ new ++ after

-- Where the count of a text that is not empty is one, the text is what stands before the match, the match
-- and what stands after it, no other place has it, and the replacement puts the new text there.
pub replace_first-IsReplaced :
    (s old new : Text)
    → is_empty old ≡ false
    → count_matches s old ≡ 1
    → IsReplaced s old new (replace_first s old new)
replace_first-IsReplaced [] old new filled h = absurd (count_nil old filled h)
replace_first-IsReplaced (c ∷ s) old new filled h = elim (Bool-cases (starts_with (c ∷ s) old)) [
  | inl here ↦ record {
    before = [];
    after = drop_chars (length old) (c ∷ s);
    only = record {
      at = starts_with-drop (c ∷ s) old here;
      only = λ p q e. only_front c s old p q (count_here c s old here h) e;
    };
    replaced = replace_here c s old new here;
  }
  | inr there ↦
      let rest = replace_first-IsReplaced s old new filled (count_there c s old there h) in
      record {
        before = c ∷ rest.before;
        after = rest.after;
        only = record {
          at = ap (λ t. c ∷ t) rest.only.at;
          only = λ p q e. only_rest c s old rest.before p q there rest.only.only e;
        };
        replaced = replace_there c s old new there ∙ ap (λ t. c ∷ t) rest.replaced;
      }
]

-- A replacement of one text by another, neither empty, where the old text stands once before and the
-- new one once after, is undone by the opposite one.
pub replace_first-roundtrip :
    (s old new : Text)
    → is_empty old ≡ false
    → is_empty new ≡ false
    → count_matches s old ≡ 1
    → count_matches (replace_first s old new) new ≡ 1
    → replace_first (replace_first s old new) new old ≡ s
replace_first-roundtrip s old new filled filled_new once once_new =
    let there = replace_first-IsReplaced s old new filled once in
    let back = replace_first-IsReplaced (replace_first s old new) new old filled_new once_new in
    let same = back.only.only there.before there.after there.replaced in
    let ends =
      append_cancel_left (there.before ++ new) there.after back.after
        (sym there.replaced ∙ back.only.at ∙ ap (λ b. b ++ new ++ back.after) (sym same)) in
    back.replaced
    ∙ ap (λ b. b ++ old ++ back.after) (sym same)
    ∙ ap (λ a. there.before ++ old ++ a) (sym ends)
    ∙ sym there.only.at
