-- ===== src/Base/Counts.antt =====
-- Occurrences in a list of numbers, and sums over the numbers below a bound.
use Prim.Native.Nat.{ℕ, zero, suc, ◌+◌, ◌≤◌, ◌<◌}
use mathlib.Core.Path.{◌≡◌, refl}
use mathlib.Core.Logic.{◌≢◌, inl, inr}
use mathlib.Core.List.{List, [], ◌∷◌, ◌++◌}
use native.Mathlib.Omega.{arith}
use local_ai_workestra.Base.Tests.{◌==◌, if◌then◌else◌, Bool-cases}
use local_ai_workestra.Base.Lists.{length}

abbrev pub count : ℕ → List ℕ → ℕ
count a [] = 0
count a (x ∷ xs) = if a == x then suc (count a xs) else count a xs

pub count-append : (a : ℕ) (xs ys : List ℕ) → count a (xs ++ ys) ≡ count a xs + count a ys
count-append a [] ys = omega arith
count-append a (x ∷ xs) ys = ground (arith, count-append a xs ys)

-- The sum of `f i` over the `i` below `n`.
abbrev pub sum_below : ℕ → (ℕ → ℕ) → ℕ
sum_below zero f = 0
sum_below (suc n) f = f n + sum_below n f

pub sum_below-eq :
    (n : ℕ) (f g : ℕ → ℕ) → ((i : ℕ) → i < n → f i ≡ g i) → sum_below n f ≡ sum_below n g
sum_below-eq zero f g same = refl
sum_below-eq (suc n) f g same =
    omega (arith, same n (omega arith), sum_below-eq n f g (λ i lt. same i (omega arith)))

-- Two functions that differ at one place only.
pub sum_below-change :
    (n x v : ℕ) (f g : ℕ → ℕ)
    → x < n
    → f x ≡ g x + v
    → ((i : ℕ) → i ≢ x → f i ≡ g i)
    → sum_below n f ≡ sum_below n g + v
sum_below-change zero x v f g h e same = elim h [ ]
sum_below-change (suc n) x v f g h e same = elim (Bool-cases (n == x)) [
  | inl at ↦
      let at' : n ≡ x = ground arith in
      let rest = sum_below-eq n f g (λ i lt. same i (omega arith)) in
      let head : f n ≡ g n + v = rw at' e in omega (arith, rest, head)
  | inr off ↦
      let ne : n ≢ x = ground arith in
      let head = same n ne in omega (arith, head, sum_below-change n x v f g (omega arith) e same)
]

pub sum_below-zero : (n : ℕ) (f : ℕ → ℕ) → sum_below n f ≡ 0 → (i : ℕ) → i < n → f i ≡ 0
sum_below-zero zero f h i lt = elim lt [ ]
sum_below-zero (suc n) f h i lt = elim (Bool-cases (i == n)) [
  | inl at ↦ let at' : i ≡ n = ground arith in rw at' (omega arith)
  | inr off ↦ sum_below-zero n f (omega arith) i (ground arith)
]

-- A positive sum has a positive term.
pub sum_below-pos : (n : ℕ) (f : ℕ → ℕ) → 0 < sum_below n f → (i : ℕ) × (i < n) × (0 < f i)
sum_below-pos zero f h = elim h [ ]
sum_below-pos (suc n) f h = elim (Bool-cases (f n == 0)) [
  | inl empty ↦ let (i, lt, p) = sum_below-pos n f (ground arith) in (i, omega arith, p)
  | inr full ↦ (n, omega arith, ground arith)
]

pub sum_below-add :
    (n : ℕ) (f g : ℕ → ℕ) → sum_below n (λ i. f i + g i) ≡ sum_below n f + sum_below n g
sum_below-add zero f g = refl
sum_below-add (suc n) f g = omega (arith, sum_below-add n f g)

pub sum_below-const_zero : (n : ℕ) → sum_below n (λ i. 0) ≡ 0
sum_below-const_zero zero = refl
sum_below-const_zero (suc n) = omega (arith, sum_below-const_zero n)

pub sum_below-le : (n : ℕ) (f : ℕ → ℕ) → ((i : ℕ) → i < n → f i ≤ 1) → sum_below n f ≤ n
sum_below-le zero f h = omega arith
sum_below-le (suc n) f h =
    omega (arith, h n (omega arith), sum_below-le n f (λ i lt. h i (omega arith)))

-- A sum of `n` terms of at most one that reaches `n` has every term one.
pub sum_below-full :
    (n : ℕ) (f : ℕ → ℕ)
    → ((i : ℕ) → i < n → f i ≤ 1)
    → sum_below n f ≡ n
    → (i : ℕ) → i < n
    → f i ≡ 1
sum_below-full zero f h e i lt = elim lt [ ]
sum_below-full (suc n) f h e i lt = elim (Bool-cases (i == n)) [
  | inl at ↦
      let at' : i ≡ n = ground arith in
      rw at' (omega (arith, sum_below-le n f (λ k p. h k (omega arith)), h n (omega arith)))
  | inr off ↦
      sum_below-full n f (λ k p. h k (omega arith))
        (omega (arith, sum_below-le n f (λ k p. h k (omega arith)), h n (omega arith))) i
        (ground arith)
]

-- Every member lies below `n`.
abbrev pub Below : ℕ → List ℕ → Type 0
Below n [] = Unit
Below n (x ∷ xs) = (x < n) × Below n xs

pub Below-append : (n : ℕ) (xs ys : List ℕ) → Below n xs → Below n ys → Below n (xs ++ ys)
Below-append n [] ys p q = q
Below-append n (x ∷ xs) ys p q = (p.0, Below-append n xs ys p.1 q)

-- A list of numbers below `n` is as long as its occurrences of them.
pub sum_below-count : (n : ℕ) (xs : List ℕ) → Below n xs → sum_below n (λ i. count i xs) ≡ length xs
sum_below-count n [] b = sum_below-const_zero n
sum_below-count n (x ∷ xs) b = omega (
  arith,
  sum_below-count n xs b.1,
  sum_below-change n x 1 (λ i. count i (x ∷ xs)) (λ i. count i xs) b.0 (ground arith)
      (λ i ne. ground arith),
)

pub sum_below-const_one : (n : ℕ) → sum_below n (λ i. 1) ≡ n
sum_below-const_one zero = refl
sum_below-const_one (suc n) = omega (arith, sum_below-const_one n)

-- The sum from the front.
pub sum_below-suc : (n : ℕ) (f : ℕ → ℕ) → sum_below (suc n) f ≡ f 0 + sum_below n (λ i. f (suc i))
sum_below-suc zero f = refl
sum_below-suc (suc n) f = omega (arith, sum_below-suc n f)
