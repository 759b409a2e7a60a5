-- ===== src/Plan/Ids.antt =====
-- The decimal digits of the generated task ids, read back.
use local_ai_workestra.Base.{
  ℕ, zero, suc, ◌+◌, ◌-◌, ◌*◌, ◌/◌, ◌≤◌, ◌<◌, ◌≡◌, refl, sym, ap, ◌∙◌, inl, inr, [], ◌∷◌, ◌++◌,
  arith, ltb, Bool-cases, Text,
}
use local_ai_workestra.Plan.{digits_from, padded, task_id}

-- The number that a run of decimal digits writes.
value_from : ℕ → Text → ℕ
value_from acc [] = acc
value_from acc (c ∷ s) = value_from (acc * 10 + (c - 48)) s

value_from-snoc :
    (acc : ℕ) (s : Text) (c : ℕ) → value_from acc (s ++ c ∷ []) ≡ value_from acc s * 10 + (c - 48)
unfolding value_from
value_from-snoc acc [] c = refl
value_from-snoc acc (d ∷ s) c = value_from-snoc (acc * 10 + (d - 48)) s c

value-digits_from : (fuel n : ℕ) → n < fuel → value_from 0 (digits_from fuel n) ≡ n
unfolding digits_from value_from
value-digits_from zero n h = elim h [ ]
value-digits_from (suc fuel) n h = elim (Bool-cases (ltb n 10)) [
  | inl short ↦ rw short (omega arith)
  | inr long ↦
      let big : 10 ≤ n = ground arith in
      let ih = value-digits_from fuel (n / 10) (omega arith) in
      rw long (rw value_from-snoc (rw ih (omega arith)))
]

value-padded : (n : ℕ) → value_from 0 (padded n) ≡ n
unfolding padded value_from
value-padded n = elim (Bool-cases (ltb n 10)) [
  | inl short ↦ rw short (omega arith)
  | inr long ↦ elim (Bool-cases (ltb n 100)) [
    | inl two ↦ rw (long, two) (value-digits_from (suc n) n (omega arith))
    | inr more ↦ rw (long, more) (value-digits_from (suc n) n (omega arith))
  ]
]

-- The digits after `task-`.
suffix : Text → Text
suffix (a ∷ b ∷ c ∷ d ∷ e ∷ s) = s
suffix _ = []

-- Different numbers have different ids.
pub task_id-injective : (m n : ℕ) → task_id m ≡ task_id n → m ≡ n
unfolding task_id suffix
task_id-injective m n h =
    sym (value-padded m) ∙ ap (λ s. value_from 0 (suffix s)) h ∙ value-padded n
