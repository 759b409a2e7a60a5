-- ===== src/Validation/Edges.antt =====
-- The edges and counters that the loop over the tasks collects.
use local_ai_workestra.Base.{
  ℕ, ◌+◌, ◌<◌, ◌≡◌, refl, sym, ◌∙◌, inl, inr, Bool, true, false, ◌||◌, List, [], ◌∷◌, arith, ◌==◌,
  if◌then◌else◌, Bool-cases, Text, text_eq, text_in, text_eq_sound, text_eq_comm, text_in-cons,
  text_in-nil, ok, count, count-append, Below, Below-append,
}
use mathlib.Core.Bool.{false≢true}
use local_ai_workestra.Validation.{Dependents, dependents_at, append_dependent, check_dependencies}

-- How often an id is listed among dependencies.
abbrev pub occurrences : Text → List Text → ℕ
occurrences k [] = 0
occurrences k (d ∷ ds) = (if text_eq k d then 1 else 0) + occurrences k ds

unfoldable pub has_key : Text → Dependents → Bool
has_key k [] = false
has_key k ((i, v) ∷ d) = text_eq k i || has_key k d

has_key-append_dependent :
    (k dep : Text) (index : ℕ) (d : Dependents)
    → has_key k (append_dependent dep index d) ≡ has_key k d
unfolding has_key append_dependent
has_key-append_dependent k dep index [] = refl
has_key-append_dependent k dep index ((i, v) ∷ d) =
    ground (arith, has_key-append_dependent k dep index d)

-- An append adds one edge, at its own key.
count-append_dependent :
    (k dep : Text) (index j : ℕ) (d : Dependents)
    → has_key k d ≡ true
    → count j (dependents_at k (append_dependent dep index d))
      ≡ count j (dependents_at k d) + (if text_eq k dep then (if j == index then 1 else 0) else 0)
unfolding has_key append_dependent dependents_at
count-append_dependent k dep index j [] h = cc
count-append_dependent k dep index j ((i, v) ∷ d) h = elim (Bool-cases (text_eq k i)) [
  | inl at ↦
      let e : k ≡ i = text_eq_sound k i at in
      let c = text_eq_comm k dep in
      let same : text_eq dep i ≡ text_eq k dep = rw (sym e) (sym c) in
      ground (arith, count-append j v (index ∷ []))
  | inr off ↦
      let ih = count-append_dependent k dep index j d in
      elim (Bool-cases (text_eq dep i)) [
        | inl hit ↦
            let e : dep ≡ i = text_eq_sound dep i hit in
            let miss : text_eq k dep ≡ false = rw e off in ground arith
        | inr other ↦ ground arith
      ]
]

Below-append_dependent :
    (n : ℕ) (k dep : Text) (index : ℕ) (d : Dependents)
    → index < n
    → Below n (dependents_at k d)
    → Below n (dependents_at k (append_dependent dep index d))
unfolding append_dependent dependents_at
Below-append_dependent n k dep index [] lt b = b
Below-append_dependent n k dep index ((i, v) ∷ d) lt b = elim (Bool-cases (text_eq dep i)) [
  | inl hit ↦ elim (Bool-cases (text_eq k i)) [
    | inl at ↦ rw (hit, at) (Below-append n v (index ∷ []) (rw at at b) (lt, tt))
    | inr off ↦ rw (hit, off) (rw off at b)
  ]
  | inr other ↦ elim (Bool-cases (text_eq k i)) [
    | inl at ↦ rw (other, at) (rw at at b)
    | inr off ↦ rw (other, off) (Below-append_dependent n k dep index d lt (rw off at b))
  ]
]

-- What the loop over one task's dependencies has checked and added.
pub record Added (known : List Text) (index : ℕ) (id : Text) (deps : List Text) (d d' : Dependents)
    : Type 0 where
  pub all_known : (x : Text) → text_in x deps ≡ true → text_in x known ≡ true
  pub not_self : text_in id deps ≡ false
  pub keys : (k : Text) → has_key k d' ≡ has_key k d
  pub edges :
      (k : Text) (j : ℕ)
      → has_key k d ≡ true
      → count j (dependents_at k d')
        ≡ count j (dependents_at k d) + (if j == index then occurrences k deps else 0)
  pub below :
      (n : ℕ) (k : Text) → index < n → Below n (dependents_at k d) → Below n (dependents_at k d')

pub check_dependencies-Added :
    (known : List Text) (index : ℕ) (id : Text) (deps : List Text) (d d' : Dependents)
    → check_dependencies known index id deps d ≡ ok d'
    → Added known index id deps d d'
unfolding check_dependencies
check_dependencies-Added known index id [] d d' h =
    let same : d ≡ d' = cc in
    record {
      all_known = λ x at. absurd (false≢true (sym (text_in-nil x) ∙ at));
      not_self = text_in-nil id;
      keys = λ k. rw same;
      edges = λ k j key. rw same (ground arith);
      below = λ n k lt b. rw same at b;
    }
check_dependencies-Added known index id (x ∷ deps) d d' h = elim (Bool-cases (text_in x known)) [
  | inr unknown ↦ absurd (ground arith)
  | inl is_known ↦ elim (Bool-cases (text_eq x id)) [
    | inl self ↦ absurd (ground arith)
    | inr other ↦
        let rest =
          check_dependencies-Added known index id deps (append_dependent x index d) d'
            (ground arith) in
        record {
          all_known = λ y at. elim (Bool-cases (text_eq y x)) [
            | inl same ↦ let e : y ≡ x = text_eq_sound y x same in rw e is_known
            | inr off ↦ rest.all_known y (ground (arith, text_in-cons y x deps))
          ];
          not_self = ground (arith, text_in-cons id x deps, text_eq_comm id x, rest.not_self);
          keys = λ k. rest.keys k ∙ has_key-append_dependent k x index d;
          edges = λ k j key.
              let step = count-append_dependent k x index j d key in
              let tail = rest.edges k j (has_key-append_dependent k x index d ∙ key) in
              ground arith;
          below = λ n k lt b. rest.below n k lt (Below-append_dependent n k x index d lt b);
        }
  ]
]
