-- ===== src/Ordering/Drain.antt =====
-- The ordering loop as a whole: its invariant and its fuel.
use local_ai_workestra.Base.{
  ℕ, zero, suc, ◌+◌, ◌≤◌, ◌<◌, ◌≡◌, refl, sym, ◌∙◌, ◌≢◌, ◌⊎◌, inl, inr, some, List, [], ◌∷◌, ◌++◌,
  arith, ◌==◌, if◌then◌else◌, Bool-cases, length, get_or, length-append, count, count-append, Below,
  Below-append, sum_below, sum_below-change, sum_below-zero, sum_below-le, sum_below-count,
  sum_below-pos, sum_below-full, sum_below-eq, sum_below-const_one,
}
use local_ai_workestra.Ordering.{relax, sorted_by, drain}
use local_ai_workestra.Ordering.Relax.{
  count-sorted_by, Below-sorted_by, length-relax, Below-relax, relax_effect,
}

pub append_ne_nil : (pre : List ℕ) (j : ℕ) (post : List ℕ) → [] ≢ pre ++ j ∷ post
append_ne_nil [] j post h = cc
append_ne_nil (p ∷ pre) j post h = cc

-- Where a list that ends in `x` is cut before some `j`: at that end, or earlier.
snoc-split :
    (xs : List ℕ) (x : ℕ) (pre : List ℕ) (j : ℕ) (post : List ℕ)
    → xs ++ x ∷ [] ≡ pre ++ j ∷ post
    → ((xs ≡ pre) × (x ≡ j)) ⊎ ((rest : List ℕ) × (xs ≡ pre ++ j ∷ rest))
snoc-split [] x [] j post h = inl (refl, cc)
snoc-split [] x (p ∷ pre) j post h = absurd (append_ne_nil pre j post (cc))
snoc-split (y ∷ xs) x [] j post h = inr (xs, cc)
snoc-split (y ∷ xs) x (p ∷ pre) j post h =
    let e : y ≡ p = cc in
    elim (snoc-split xs x pre j post (cc)) [
      | inl (same, at) ↦ inl (cc, at)
      | inr (rest, same) ↦ inr (rest, cc)
    ]

module _ (n : ℕ) (dependents_of : ℕ → List ℕ) where
  -- How many prerequisites of `j` are not in `order` yet, each as often as it is listed.
  abbrev pub open_term : List ℕ → ℕ → ℕ → ℕ
  open_term order j i = if count i order == 0 then count j (dependents_of i) else 0

  abbrev pub open_count : List ℕ → ℕ → ℕ
  open_count order j = sum_below n (open_term order j)

  -- Every prerequisite of an ordered index stands before it.
  abbrev pub Settled : List ℕ → Type 0
  Settled order =
      (pre post : List ℕ) (j i : ℕ)
      → order ≡ pre ++ j ∷ post
      → i < n
      → 0 < count j (dependents_of i)
      → 0 < count i pre

  pub record Inv (order ready indegree : List ℕ) : Type 0 where
    pub size : length indegree ≡ n
    pub ordered_below : Below n order
    pub ready_below : Below n ready
    pub counters : (j : ℕ) → j < n → get_or indegree j 0 ≡ open_count order j
    pub once :
        (j : ℕ)
        → j < n
        → count j order + count j ready ≡ (if get_or indegree j 0 == 0 then 1 else 0)
    pub settled : Settled order

  -- Ordering `x` closes its edges.
  open_count-snoc :
      (order : List ℕ) (x j : ℕ)
      → x < n
      → count x order ≡ 0
      → open_count order j ≡ open_count (order ++ x ∷ []) j + count j (dependents_of x)
  open_count-snoc order x j lt fresh =
      sum_below-change n x (count j (dependents_of x)) (open_term order j)
        (open_term (order ++ x ∷ []) j) lt (ground (arith, count-append x order (x ∷ [])))
        (λ i ne. ground (arith, count-append i order (x ∷ [])))

  Settled-snoc :
      (order : List ℕ) (x : ℕ) → Settled order → open_count order x ≡ 0 → Settled (order ++ x ∷ [])
  Settled-snoc order x settled none_open pre post j i cut lt edge =
      elim (snoc-split order x pre j post cut) [
        | inl (same, at) ↦
            let closed = sum_below-zero n (open_term order x) none_open i lt in
            let edge' : 0 < count x (dependents_of i) = rw at edge in
            let found : 0 < count i order = ground arith in rw same at found
        | inr (rest, same) ↦ settled pre rest j i same lt edge
      ]

  module _ (below : (i : ℕ) → i < n → Below n (dependents_of i)) where
    Inv-step :
        (order ready indegree : List ℕ) (x : ℕ)
        → Inv order (x ∷ ready) indegree
        → let (ready', indegree') = relax (dependents_of x) ready indegree in
          Inv (order ++ x ∷ []) (sorted_by (λ i. i) ready') indegree'
    Inv-step order ready indegree x inv =
        let lt = inv.ready_below.0 in
        let at_x = inv.once x lt in
        let fresh : count x order ≡ 0 = ground arith in
        let zero_x : get_or indegree x 0 ≡ 0 = ground arith in
        let ds_below : Below (length indegree) (dependents_of x) = rw inv.size (below x lt) in
        let effect = λ (j : ℕ) (jlt : j < n).
          let snoc = open_count-snoc order x j lt fresh in
          let was = inv.counters j jlt in
          relax_effect j (dependents_of x) ready indegree ds_below (omega arith) in
        record {
          size = length-relax (dependents_of x) ready indegree ∙ inv.size;
          ordered_below = Below-append n order (x ∷ []) inv.ordered_below (lt, tt);
          ready_below =
              Below-sorted_by (λ i. i) n (relax (dependents_of x) ready indegree).0
                (Below-relax n (dependents_of x) ready indegree (below x lt) inv.ready_below.1);
          counters = λ j jlt.
              let snoc = open_count-snoc order x j lt fresh in
              let was = inv.counters j jlt in let now = (effect j jlt).0 in omega arith;
          once = λ j jlt.
              let snoc = count-append j order (x ∷ []) in
              let order_ready =
                count-sorted_by (λ i. i) j (relax (dependents_of x) ready indegree).0 in
              let was = inv.once j jlt in
              let lowered = (effect j jlt).0 in let queued = (effect j jlt).1 in ground arith;
          settled = Settled-snoc order x inv.settled (sym (inv.counters x lt) ∙ zero_x);
        }

    -- No index is ordered twice, so the order is at most `n` long.
    length-le : (order ready indegree : List ℕ) → Inv order ready indegree → length order ≤ n
    length-le order ready indegree inv = omega (
      arith,
      sum_below-count n order inv.ordered_below,
      sum_below-le n (λ i. count i order) (λ j lt. let o = inv.once j lt in ground arith),
    )

    -- With a round of fuel for each index left and one more, the loop ends by its own test.
    pub drain_total :
        (fuel : ℕ) (order ready indegree : List ℕ)
        → length order + fuel ≡ suc n
        → Inv order ready indegree
        → (order' indegree' : List ℕ) × (drain fuel dependents_of ready indegree order
            ≡ some (order', indegree'))
          × Inv order' [] indegree'
    unfolding drain
    drain_total zero order ready indegree enough inv =
        absurd (omega (arith, length-le order ready indegree inv))
    drain_total (suc fuel) order [] indegree enough inv = (order, indegree, refl, inv)
    drain_total (suc fuel) order (x ∷ ready) indegree enough inv =
        drain_total fuel (order ++ x ∷ [])
          (sorted_by (λ i. i) (relax (dependents_of x) ready indegree).0)
          (relax (dependents_of x) ready indegree).1 (omega (arith, length-append order (x ∷ [])))
          (Inv-step order ready indegree x inv)

    -- Where the prerequisites have no cycle (each has a smaller rank than what depends on it),
    -- an emptied queue means that all are ordered.
    pub ranked_all_ordered :
        (rank : ℕ → ℕ)
        → ((i j : ℕ) → i < n → j < n → 0 < count j (dependents_of i) → rank i < rank j)
        → (order indegree : List ℕ) → Inv order [] indegree
        → (bound j : ℕ) → rank j < bound
        → j < n
        → count j order ≡ 1
    ranked_all_ordered rank mono order indegree inv zero j rlt lt = elim rlt [ ]
    ranked_all_ordered rank mono order indegree inv (suc bound) j rlt lt =
        let o = inv.once j lt in
        let c = inv.counters j lt in
        elim (Bool-cases (count j order == 0)) [
          | inl missing ↦
              let positive : 0 < open_count order j = ground arith in
              let (i, ilt, p) = sum_below-pos n (open_term order j) positive in
              let edge : 0 < count j (dependents_of i) = ground arith in
              let closed =
                ranked_all_ordered rank mono order indegree inv bound i
                  (omega (arith, mono i j ilt lt edge)) ilt in
              absurd (ground arith)
          | inr found ↦ ground arith
        ]

  -- An order of `n` distinct indices below `n` holds each once.
  pub each_once :
      (order ready indegree : List ℕ)
      → Inv order ready indegree
      → length order ≡ n
      → (j : ℕ) → j < n
      → count j order ≡ 1
  each_once order ready indegree inv full =
      sum_below-full n (λ i. count i order) (λ j lt. let o = inv.once j lt in ground arith)
        (sum_below-count n order inv.ordered_below ∙ full)

  pub full_of_each_once :
      (order ready indegree : List ℕ)
      → Inv order ready indegree
      → ((j : ℕ) → j < n → count j order ≡ 1)
      → length order ≡ n
  full_of_each_once order ready indegree inv each =
      sym (sum_below-count n order inv.ordered_below)
      ∙ sum_below-eq n (λ i. count i order) (λ i. 1) each
      ∙ sum_below-const_one n
