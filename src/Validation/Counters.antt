-- ===== src/Validation/Counters.antt =====
-- The counters and the edges that the loop over the tasks starts the ordering with agree.
use local_ai_workestra.Base.{
  ℕ, zero, suc, ◌+◌, ◌≤◌, ◌<◌, ◌≡◌, refl, sym, ap, ◌∙◌, inl, inr, true, false, List, [], ◌∷◌, arith,
  ◌==◌, if◌then◌else◌, Bool-cases, Text, text_eq, text_in, text_eq_refl, text_eq_sound,
  text_eq_comm, text_in-cons, text_in-nil, length, get_or, count, Below, sum_below, sum_below-suc,
  sum_below-const_zero, sum_below-add,
}
use mathlib.Core.Bool.{false≢true}
use local_ai_workestra.Plan.{PlanTask}
use local_ai_workestra.Ordering.{zeros_from}
use local_ai_workestra.Validation.{has_duplicates, empty_dependents, dependents_at}
use local_ai_workestra.Validation.Edges.{occurrences, has_key}
use local_ai_workestra.Validation.Tasks.{AllApproved, declared, degrees}

-- The dependencies of the task at a position.
abbrev pub deps_at : List PlanTask → ℕ → List Text
deps_at [] j = []
deps_at (t ∷ ts) zero = t.depends_on
deps_at (t ∷ ts) (suc j) = deps_at ts j

pub declared_before :
    (k : Text) (j index : ℕ) (ts : List PlanTask) → j < index → declared k j index ts ≡ 0
declared_before k j index [] lt = refl
declared_before k j index (t ∷ ts) lt = ground (arith, declared_before k j (suc index) ts)

pub declared_at :
    (k : Text) (m j index : ℕ) (ts : List PlanTask)
    → m ≡ index + j
    → declared k m index ts ≡ occurrences k (deps_at ts j)
declared_at k m j index [] e = refl
declared_at k m zero index (t ∷ ts) e = ground (arith, declared_before k m (suc index) ts)
declared_at k m (suc j) index (t ∷ ts) e = ground (arith, declared_at k m j (suc index) ts)

pub degrees_at : (ts : List PlanTask) (j : ℕ) → get_or (degrees ts) j 0 ≡ length (deps_at ts j)
degrees_at [] j = refl
degrees_at (t ∷ ts) zero = refl
degrees_at (t ∷ ts) (suc j) = degrees_at ts j

pub deps_at-known :
    (ids : List Text) (tasks ts : List PlanTask) (names : List Text) (j : ℕ) (x : Text)
    → length names ≡ length ts
    → AllApproved ids tasks ts names
    → text_in x (deps_at ts j) ≡ true
    → text_in x ids ≡ true
deps_at-known ids tasks [] names j x len all at = absurd (false≢true (sym (text_in-nil x) ∙ at))
deps_at-known ids tasks (t ∷ ts) [] j x len all at = absurd (omega arith)
deps_at-known ids tasks (t ∷ ts) (id ∷ names) zero x len all at = all.0.all_known x at
deps_at-known ids tasks (t ∷ ts) (id ∷ names) (suc j) x len all at =
    deps_at-known ids tasks ts names j x (omega arith) all.1 at

pub has_key-empty : (k : Text) (ids : List Text) → has_key k (empty_dependents ids) ≡ text_in k ids
unfolding has_key empty_dependents text_in
has_key-empty k [] = refl
has_key-empty k (x ∷ xs) = ground (arith, has_key-empty k xs)

pub dependents_at-empty : (k : Text) (ids : List Text) → dependents_at k (empty_dependents ids) ≡ []
unfolding dependents_at empty_dependents
dependents_at-empty k [] = refl
dependents_at-empty k (x ∷ xs) = ground (arith, dependents_at-empty k xs)

-- The queue that the ordering starts with holds each index of a zero counter once.
pub zeros_from-Below : (k : ℕ) (xs : List ℕ) (n : ℕ) → k + length xs ≤ n → Below n (zeros_from k xs)
unfolding zeros_from
zeros_from-Below k [] n le = tt
zeros_from-Below k (x ∷ xs) n le = elim (Bool-cases (x == 0)) [
  | inl z ↦ rw z (omega arith, zeros_from-Below (suc k) xs n (omega arith))
  | inr nz ↦ rw nz (zeros_from-Below (suc k) xs n (omega arith))
]

count-zeros_from_before : (j k : ℕ) (xs : List ℕ) → j < k → count j (zeros_from k xs) ≡ 0
unfolding zeros_from
count-zeros_from_before j k [] lt = refl
count-zeros_from_before j k (x ∷ xs) lt = ground (arith, count-zeros_from_before j (suc k) xs)

pub count-zeros_from :
    (k j : ℕ) (xs : List ℕ)
    → j < length xs
    → count (k + j) (zeros_from k xs) ≡ (if get_or xs j 0 == 0 then 1 else 0)
unfolding zeros_from
count-zeros_from k j [] lt = elim lt [ ]
count-zeros_from k zero (x ∷ xs) lt = ground (arith, count-zeros_from_before (k + 0) (suc k) xs)
count-zeros_from k (suc j) (x ∷ xs) lt =
    let e : k + suc j ≡ suc k + j = omega arith in
    let ih = count-zeros_from (suc k) j xs (omega arith) in rw e (ground arith)

pub text_in-get_or :
    (ids : List Text) (i : ℕ) → i < length ids → text_in (get_or ids i []) ids ≡ true
unfolding text_in
text_in-get_or [] i lt = elim lt [ ]
text_in-get_or (x ∷ xs) zero lt = ground (arith, text_eq_refl x)
text_in-get_or (x ∷ xs) (suc i) lt = ground (arith, text_in-get_or xs i (omega arith))

-- The positions at which an id stands.
abbrev hits : List Text → Text → ℕ → ℕ
hits ids d i = if text_eq (get_or ids i []) d then 1 else 0

hits-none :
    (ids : List Text) (d : Text) → text_in d ids ≡ false → sum_below (length ids) (hits ids d) ≡ 0
hits-none [] d h = refl
hits-none (x ∷ xs) d h =
    let f = sum_below-suc (length xs) (hits (x ∷ xs) d) in
    ground (arith, text_in-cons d x xs, text_eq_comm x d, hits-none xs d)

-- Where the ids are distinct, a known id stands at one position.
hits-one :
    (ids : List Text) (d : Text)
    → has_duplicates ids ≡ false
    → text_in d ids ≡ true
    → sum_below (length ids) (hits ids d) ≡ 1
unfolding has_duplicates
hits-one [] d u h = absurd (false≢true (sym (text_in-nil d) ∙ h))
hits-one (x ∷ xs) d u h =
    let f = sum_below-suc (length xs) (hits (x ∷ xs) d) in
    let c = text_eq_comm x d in
    elim (Bool-cases (text_eq d x)) [
      | inl at ↦
          let e : x ≡ d = sym (text_eq_sound d x at) in
          let fresh : text_in x xs ≡ false = ground arith in
          let fresh' : text_in d xs ≡ false = rw e at fresh in ground (arith, hits-none xs d)
      | inr off ↦ ground (arith, text_in-cons d x xs, hits-one xs d)
    ]

-- So the edges to a task, over all positions, are as many as its listed dependencies.
pub occurrences-sum :
    (ids deps : List Text)
    → has_duplicates ids ≡ false
    → ((x : Text) → text_in x deps ≡ true → text_in x ids ≡ true)
    → sum_below (length ids) (λ i. occurrences (get_or ids i []) deps) ≡ length deps
occurrences-sum ids [] u known = sum_below-const_zero (length ids)
occurrences-sum ids (d ∷ deps) u known =
    let here : text_in d ids ≡ true = known d (rw (text_in-cons d d deps, text_eq_refl d)) in
    omega (
      arith,
      sum_below-add (length ids) (hits ids d) (λ i. occurrences (get_or ids i []) deps),
      hits-one ids d u here,
      occurrences-sum ids deps u (λ x at. known x (ground (arith, text_in-cons x d deps))),
    )

-- Distinct ids stand at distinct positions.
pub position_unique :
    (ids : List Text)
    → has_duplicates ids ≡ false
    → (i j : ℕ) → i < length ids
    → j < length ids
    → get_or ids i [] ≡ get_or ids j []
    → i ≡ j
unfolding has_duplicates
position_unique [] u i j li lj e = elim li [ ]
position_unique (x ∷ xs) u zero zero li lj e = refl
position_unique (x ∷ xs) u zero (suc j) li lj e =
    let there = text_in-get_or xs j (omega arith) in
    let there' : text_in x xs ≡ true = rw e there in absurd (ground arith)
position_unique (x ∷ xs) u (suc i) zero li lj e =
    let there = text_in-get_or xs i (omega arith) in
    let there' : text_in x xs ≡ true = rw (sym e) there in absurd (ground arith)
position_unique (x ∷ xs) u (suc i) (suc j) li lj e =
    ap suc (position_unique xs (ground arith) i j (omega arith) (omega arith) e)

-- An id that is listed among dependencies occurs there, and the other way round.
pub occurrences-pos : (d : Text) (deps : List Text) → text_in d deps ≡ true → 0 < occurrences d deps
occurrences-pos d [] at = absurd (false≢true (sym (text_in-nil d) ∙ at))
occurrences-pos d (x ∷ deps) at = ground (arith, text_in-cons d x deps, occurrences-pos d deps)

-- The position of a known id.
pub position_of :
    (ids : List Text) (d : Text)
    → text_in d ids ≡ true
    → (i : ℕ) × (i < length ids) × (get_or ids i [] ≡ d)
position_of [] d at = absurd (false≢true (sym (text_in-nil d) ∙ at))
position_of (x ∷ xs) d at = elim (Bool-cases (text_eq d x)) [
  | inl here ↦ (0, omega arith, sym (text_eq_sound d x here))
  | inr off ↦
      let (i, lt, e) = position_of xs d (ground (arith, text_in-cons d x xs)) in
      (suc i, omega arith, e)
]

pub occurrences-listed :
    (d : Text) (deps : List Text) → 0 < occurrences d deps → text_in d deps ≡ true
occurrences-listed d [] h = absurd (omega arith)
occurrences-listed d (x ∷ deps) h = ground (arith, text_in-cons d x deps, occurrences-listed d deps)

-- A repeated id stands at two positions.
pub duplicates_repeat :
    (ids : List Text)
    → has_duplicates ids ≡ true
    → ¬ ((i j : ℕ) → i < length ids → j < length ids → get_or ids i [] ≡ get_or ids j [] → i ≡ j)
unfolding has_duplicates
duplicates_repeat [] h unique = cc
duplicates_repeat (x ∷ xs) h unique = elim (Bool-cases (text_in x xs)) [
  | inl again ↦
      let (i, lt, at) = position_of xs x again in
      absurd (omega (arith, unique 0 (suc i) (omega arith) (omega arith) (sym at)))
  | inr fresh ↦
      duplicates_repeat xs (ground arith)
        (λ i j li lj e. let s = unique (suc i) (suc j) (omega arith) (omega arith) e in omega arith)
]
