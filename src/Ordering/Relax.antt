-- ===== src/Ordering/Relax.antt =====
-- What one round of the ordering loop does to the queue and to the counters.
use local_ai_workestra.Base.{
  ℕ, ◌+◌, ◌-◌, ◌≤◌, ◌<◌, ◌≡◌, refl, ◌≢◌, inl, inr, Bool, true, false, List, [], ◌∷◌, ◌++◌, arith,
  ◌==◌, if◌then◌else◌, Bool-cases, length, get_or, set, length-set, get_or-set_self, get_or-set_ne,
  count, count-append, Below, Below-append,
}
use local_ai_workestra.Ordering.{insert_by, sorted_by, relax}

count-insert_by :
    (key : ℕ → ℕ) (a x : ℕ) (xs : List ℕ) → count a (insert_by key x xs) ≡ count a (x ∷ xs)
unfolding insert_by
count-insert_by key a x [] = refl
count-insert_by key a x (y ∷ ys) = ground (arith, count-insert_by key a x ys)

-- Sorting keeps the members, as often.
pub count-sorted_by : (key : ℕ → ℕ) (a : ℕ) (xs : List ℕ) → count a (sorted_by key xs) ≡ count a xs
unfolding sorted_by
count-sorted_by key a [] = refl
count-sorted_by key a (x ∷ xs) =
    ground (arith, count-insert_by key a x (sorted_by key xs), count-sorted_by key a xs)

Below-insert_by :
    (key : ℕ → ℕ) (n x : ℕ) (xs : List ℕ) → x < n → Below n xs → Below n (insert_by key x xs)
unfolding insert_by
Below-insert_by key n x [] h b = (h, tt)
Below-insert_by key n x (y ∷ ys) h b = ground (arith, Below-insert_by key n x ys h b.1)

pub Below-sorted_by : (key : ℕ → ℕ) (n : ℕ) (xs : List ℕ) → Below n xs → Below n (sorted_by key xs)
unfolding sorted_by
Below-sorted_by key n [] b = tt
Below-sorted_by key n (x ∷ xs) b =
    Below-insert_by key n x (sorted_by key xs) b.0 (Below-sorted_by key n xs b.1)

-- How often a round appends an index whose counter is `degree` and which it meets `met` times.
abbrev pub freed : ℕ → ℕ → ℕ
freed met degree = if met == 0 then 0 else if met == degree then 1 else 0

pub length-relax :
    (ds ready indegree : List ℕ) → length (relax ds ready indegree).1 ≡ length indegree
unfolding relax
length-relax [] ready indegree = refl
length-relax (d ∷ ds) ready indegree =
    let degree = get_or indegree d 0 in
    let tail =
      length-relax ds (if degree == 1 then ready ++ d ∷ [] else ready)
        (set indegree d (degree - 1)) in
    omega (arith, tail, length-set indegree d (degree - 1))

pub Below-relax :
    (n : ℕ) (ds ready indegree : List ℕ)
    → Below n ds
    → Below n ready
    → Below n (relax ds ready indegree).0
unfolding relax
Below-relax n [] ready indegree b r = r
Below-relax n (d ∷ ds) ready indegree b r =
    Below-relax n ds (if get_or indegree d 0 == 1 then ready ++ d ∷ [] else ready)
      (set indegree d (get_or indegree d 0 - 1)) b.1 (grow (get_or indegree d 0 == 1))
  where
    grow : (t : Bool) → Below n (if t then ready ++ d ∷ [] else ready)
    grow true = Below-append n ready (d ∷ []) r (b.0, tt)
    grow false = r

module _ (j : ℕ) where
  get_or-lower :
      (d : ℕ) (indegree : List ℕ)
      → d < length indegree
      → get_or (set indegree d (get_or indegree d 0 - 1)) j 0
        ≡ (if j == d then get_or indegree j 0 - 1 else get_or indegree j 0)
  get_or-lower d indegree h = elim (Bool-cases (j == d)) [
    | inl at ↦
        let at' : j ≡ d = ground arith in
        rw at' (ground (arith, get_or-set_self indegree d (get_or indegree d 0 - 1) 0 h))
    | inr off ↦
        let ne : d ≢ j = ground arith in
        ground (arith, get_or-set_ne indegree d j (get_or indegree d 0 - 1) 0 ne)
  ]

  -- Each counter falls by the number of times that its task is met, and the task is queued once,
  -- when the counter comes to 0.
  pub relax_effect :
      (ds ready indegree : List ℕ)
      → Below (length indegree) ds
      → count j ds ≤ get_or indegree j 0
      → (get_or (relax ds ready indegree).1 j 0 + count j ds ≡ get_or indegree j 0)
        × (count j (relax ds ready indegree).0
            ≡ count j ready + freed (count j ds) (get_or indegree j 0))
  unfolding relax
  relax_effect [] ready indegree b c = (omega arith, omega arith)
  relax_effect (d ∷ ds) ready indegree b c =
      let degree = get_or indegree d 0 in
      let next = if degree == 1 then ready ++ d ∷ [] else ready in
      let lowered = set indegree d (degree - 1) in
      let size = length-set indegree d (degree - 1) in
      let at = get_or-lower d indegree b.0 in
      let tail = relax_effect ds next lowered (rw size b.1) in
      let snoc = count-append j ready (d ∷ []) in
      elim (Bool-cases (j == d)) [
        | inl same ↦
            let e : j ≡ d = ground arith in
            let room : count j ds ≤ get_or lowered j 0 = ground arith in
            let ih = tail room in (ground arith, ground arith)
        | inr off ↦
            let ne : j ≢ d = ground arith in
            let room : count j ds ≤ get_or lowered j 0 = ground arith in
            let ih = tail room in (ground arith, ground arith)
      ]
