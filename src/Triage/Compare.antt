-- ===== src/Triage/Compare.antt =====
-- The failing tests that `compare_verification` reports, and whether it allows the change.
use local_ai_workestra.Base.{
  ◌≡◌, refl, sym, ap, ◌∙◌, inl, inr, Bool, true, false, not, ◌&&◌, ◌||◌, List, [], ◌∷◌, arith,
  Bool-cases, Text, text_eq, text_in, text_eq_sound, text_in-nil, is_empty, keep, all,
}
use local_ai_workestra.Triage.{
  VerificationSummary, text_leb, insert_text, sorted_texts, set_of, sorted_difference,
  compare_failures, compare_verification,
}

text_in-insert_text :
    (i x : Text) (ys : List Text) → text_in i (insert_text x ys) ≡ (text_eq i x || text_in i ys)
unfolding insert_text text_in
text_in-insert_text i x [] = refl
text_in-insert_text i x (y ∷ ys) = elim (Bool-cases (text_leb x y)) [
  | inl before ↦ rw before
  | inr after ↦ rw after (ground (arith, text_in-insert_text i x ys))
]

text_in-sorted_texts : (i : Text) (xs : List Text) → text_in i (sorted_texts xs) ≡ text_in i xs
unfolding sorted_texts text_in
text_in-sorted_texts i [] = refl
text_in-sorted_texts i (x ∷ xs) =
    text_in-insert_text i x (sorted_texts xs)
    ∙ ap (λ b. text_eq i x || b) (text_in-sorted_texts i xs)

text_in-set_of : (i : Text) (xs : List Text) → text_in i (set_of xs) ≡ text_in i xs
unfolding set_of text_in
text_in-set_of i [] = refl
text_in-set_of i (x ∷ xs) = elim (Bool-cases (text_in x (set_of xs))) [
  | inl there ↦ rw there (elim (Bool-cases (text_eq i x)) [
    | inl same ↦ let e = text_eq_sound i x same in rw e (ground (arith, text_in-set_of x xs))
    | inr other ↦ ground (arith, text_in-set_of i xs)
  ])
  | inr missing ↦ rw missing (ap (λ b. text_eq i x || b) (text_in-set_of i xs))
]

text_in-keep :
    (f : Text → Bool) (i : Text) (xs : List Text) → text_in i (keep f xs) ≡ (text_in i xs && f i)
unfolding text_in
text_in-keep f i [] = refl
text_in-keep f i (x ∷ xs) = elim (Bool-cases (text_eq i x)) [
  | inl same ↦
      let e : f i ≡ f x = ap f (text_eq_sound i x same) in
      elim (Bool-cases (f x)) [
        | inl good ↦ rw good (rw same (sym (e ∙ good)))
        | inr bad ↦ rw bad (rw same (ground (arith, text_in-keep f i xs)))
      ]
  | inr other ↦ elim (Bool-cases (f x)) [
    | inl good ↦ rw good (rw other (ground (arith, text_in-keep f i xs)))
    | inr bad ↦ rw bad (rw other (ground (arith, text_in-keep f i xs)))
  ]
]

text_in-sorted_difference :
    (i : Text) (xs ys : List Text)
    → text_in i (sorted_difference xs ys) ≡ (text_in i xs && not (text_in i ys))
unfolding sorted_difference
text_in-sorted_difference i xs ys =
    text_in-sorted_texts i _
    ∙ text_in-keep (λ x. not (text_in x ys)) i (set_of xs)
    ∙ ap (λ b. b && not (text_in i ys)) (text_in-set_of i xs)

-- Which identities a comparison reports.
unfoldable pub is_new : VerificationSummary → VerificationSummary → Text → Bool
is_new baseline post_change i =
    text_in i post_change.failure_identities
    && (baseline.result.passed || not (text_in i baseline.failure_identities))

compare_failures-identities : (is : List Text) → (compare_failures is).new_failure_identities ≡ is
unfolding compare_failures
compare_failures-identities [] = refl
compare_failures-identities (i ∷ is) = refl

compare_failures-allowed : (is : List Text) → (compare_failures is).allowed ≡ is_empty is
unfolding compare_failures
compare_failures-allowed [] = refl
compare_failures-allowed (i ∷ is) = refl

-- Two interpretable summaries of a post-change failure: the comparison reports exactly the failing
-- tests of the change that the baseline did not have, and all of them if the baseline passed; in
-- every other case it reports none.
pub compare_verification-identities :
    (baseline post_change : VerificationSummary) (i : Text)
    → text_in i (compare_verification baseline post_change).new_failure_identities
      ≡ (baseline.interpretable && (post_change.interpretable && not post_change.result.passed))
        && is_new baseline post_change i
unfolding compare_verification is_new
compare_verification-identities baseline post_change i =
    let difference = sorted_difference post_change.failure_identities baseline.failure_identities in
    ground (
      arith,
      compare_failures-identities difference,
      text_in-sorted_difference i post_change.failure_identities baseline.failure_identities,
      text_in-nil i,
    )

all-at :
    (ys xs : List Text) (x : Text)
    → all (λ i. text_in i ys) xs ≡ true
    → text_in x xs ≡ true
    → text_in x ys ≡ true
unfolding text_in
all-at ys [] x h there = cc
all-at ys (z ∷ xs) x h there = elim (Bool-cases (text_eq x z)) [
  | inl same ↦ rw (text_eq_sound x z same) (ground arith)
  | inr other ↦ all-at ys xs x (ground arith) (ground arith)
]

insert_text-full : (x : Text) (ys : List Text) → is_empty (insert_text x ys) ≡ false
unfolding insert_text
insert_text-full x [] = refl
insert_text-full x (y ∷ ys) = elim (Bool-cases (text_leb x y)) [ inl e ↦ rw e | inr e ↦ rw e ]

is_empty-sorted_texts : (xs : List Text) → is_empty (sorted_texts xs) ≡ is_empty xs
unfolding sorted_texts
is_empty-sorted_texts [] = refl
is_empty-sorted_texts (x ∷ xs) = insert_text-full x (sorted_texts xs)

is_empty-keep :
    (xs ys : List Text)
    → is_empty (keep (λ x. not (text_in x ys)) (set_of xs)) ≡ all (λ x. text_in x ys) xs
unfolding set_of
is_empty-keep [] ys = refl
is_empty-keep (x ∷ xs) ys = elim (Bool-cases (text_in x (set_of xs))) [
  | inl there ↦
      let there' : text_in x xs ≡ true = sym (text_in-set_of x xs) ∙ there in
      rw there (elim (Bool-cases (all (λ x. text_in x ys) xs)) [
        | inl covered ↦
            let at_x = all-at ys xs x covered there' in ground (arith, is_empty-keep xs ys)
        | inr open_one ↦ ground (arith, is_empty-keep xs ys)
      ])
  | inr missing ↦ rw missing (elim (Bool-cases (text_in x ys)) [
    | inl old ↦ rw old (is_empty-keep xs ys)
    | inr new ↦ rw new
  ])
]

-- A change is allowed exactly when both summaries can be interpreted and either it passes, or the
-- baseline had failed too and every failing test of the change was failing before.
pub compare_verification-allowed :
    (baseline post_change : VerificationSummary)
    → (compare_verification baseline post_change).allowed ≡ (
        baseline.interpretable
        && (post_change.interpretable
            && (post_change.result.passed
                || (not baseline.result.passed
                    && all
                        (λ i. text_in i baseline.failure_identities)
                        post_change.failure_identities))))
unfolding compare_verification sorted_difference
compare_verification-allowed baseline post_change =
    let xs = post_change.failure_identities in
    let ys = baseline.failure_identities in
    let zs = keep (λ x. not (text_in x ys)) (set_of xs) in
    let e =
      compare_failures-allowed (sorted_texts zs) ∙ is_empty-sorted_texts zs ∙ is_empty-keep xs ys in
    ground (arith, e)
