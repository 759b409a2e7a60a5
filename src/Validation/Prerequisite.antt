-- ===== src/Validation/Prerequisite.antt =====
-- The search for a code task below a test task, against reachability.
use local_ai_workestra.Base.{
  ℕ, zero, suc, ◌+◌, ◌≤◌, ◌<◌, ◌≡◌, refl, sym, ◌∙◌, inl, inr, Bool, true, false, ◌||◌, none, some,
  List, [], ◌∷◌, ◌++◌, arith, if◌then◌else◌, Bool-cases, Option-cases, Text, text_eq, text_in,
  text_eq_refl, text_eq_sound, text_eq_comm, text_in-append, text_in-cons, text_in-nil,
  text_in-reverse, length, length-append, length-reverse, ok, err,
}
use mathlib.Core.Bool.{false≢true}
use mathlib.Core.List.{reverse}
use local_ai_workestra.Plan.{PlanTask}
use local_ai_workestra.Validation.{
  Checked, key_error, code_ids_of, dependencies_of, code_prerequisite, total_dependencies,
}

module _ (ids : List Text) (tasks : List PlanTask) where
  -- The ids that `roots` reach along the declared dependencies.
  pub data Reaches (roots : List Text) : Text → Type 0 where
    root : {d : Text} → text_in d roots ≡ true → Reaches roots d
    down :
        {d x : Text} (more : List Text)
        → Reaches roots x
        → dependencies_of x ids tasks ≡ some more
        → text_in d more ≡ true
        → Reaches roots d

  -- What the search may answer: yes with a code task that is reached, no when none is, or the
  -- `KeyError` at a reached id that is not a task.
  abbrev pub Decides : List Text → Checked Bool → Type 0
  Decides roots (ok true) =
      (d : Text) × Reaches roots d × (text_in d (code_ids_of ids tasks) ≡ true)
  Decides roots (ok false) =
      (d : Text) → Reaches roots d → text_in d (code_ids_of ids tasks) ≡ false
  Decides roots (err e) =
      (d : Text) × (e ≡ key_error d) × Reaches roots d × (dependencies_of d ids tasks ≡ none)

-- The entries that the search can still push: those of the ids not seen.
weight : List Text → List Text → List PlanTask → ℕ
weight seen [] ts = 0
weight seen (x ∷ xs) [] = 0
weight seen (x ∷ xs) (t ∷ ts) =
    (if text_in x seen then 0 else length t.depends_on) + weight seen xs ts

weight-nil :
    (ids : List Text) (tasks : List PlanTask) → weight [] ids tasks ≤ total_dependencies tasks
unfolding weight total_dependencies
weight-nil [] ts = omega arith
weight-nil (x ∷ xs) [] = omega arith
weight-nil (x ∷ xs) (t ∷ ts) = ground (arith, text_in-nil x, weight-nil xs ts)

weight_mono :
    (d : Text) (seen ids : List Text) (tasks : List PlanTask)
    → weight (d ∷ seen) ids tasks ≤ weight seen ids tasks
unfolding weight
weight_mono d seen [] ts = omega arith
weight_mono d seen (x ∷ xs) [] = omega arith
weight_mono d seen (x ∷ xs) (t ∷ ts) =
    ground (arith, text_in-cons x d seen, weight_mono d seen xs ts)

-- Seeing an id pays for the entries that it pushes.
weight-see :
    (d : Text) (more seen ids : List Text) (tasks : List PlanTask)
    → dependencies_of d ids tasks ≡ some more
    → text_in d seen ≡ false
    → weight (d ∷ seen) ids tasks + length more ≤ weight seen ids tasks
unfolding weight dependencies_of
weight-see d more seen [] ts e new = cc
weight-see d more seen (x ∷ xs) [] e new = cc
weight-see d more seen (x ∷ xs) (t ∷ ts) e new = elim (Bool-cases (text_eq d x)) [
  | inl at ↦
      let same : d ≡ x = text_eq_sound d x at in
      let new' : text_in x seen ≡ false = rw (sym same) new in
      let hit = text_in-cons x d seen in
      let hit' : text_eq x d ≡ true = text_eq_comm x d ∙ at in
      let found : some t.depends_on ≡ some more = rw at at e in
      let rest = weight_mono d seen xs ts in ground arith
  | inr off ↦
      let rest = weight-see d more seen xs ts (rw off at e) new in
      ground (arith, text_in-cons x d seen, rest)
]

-- An id is seen already or still to be looked at.
abbrev Covered : List Text → List Text → Text → Type 0
Covered seen pending d = (text_in d seen || text_in d pending) ≡ true

Covered-skip :
    (seen pending : List Text) (h d : Text)
    → text_in h seen ≡ true
    → Covered seen (h ∷ pending) d
    → Covered seen pending d
Covered-skip seen pending h d old c = elim (Bool-cases (text_eq d h)) [
  | inl at ↦ let e : d ≡ h = text_eq_sound d h at in rw (e, old)
  | inr off ↦ ground (arith, text_in-cons d h pending)
]

Covered-see :
    (seen pending more : List Text) (h d : Text)
    → Covered seen (h ∷ pending) d
    → Covered (h ∷ seen) (reverse more ++ pending) d
Covered-see seen pending more h d c = ground (
  arith,
  text_in-cons d h seen,
  text_in-cons d h pending,
  text_in-append d (reverse more) pending,
)

Covered-push :
    (seen pending more : List Text) (h d : Text)
    → text_in d more ≡ true
    → Covered (h ∷ seen) (reverse more ++ pending) d
Covered-push seen pending more h d m =
    ground (arith, text_in-reverse d more, text_in-append d (reverse more) pending)

module _ (ids : List Text) (tasks : List PlanTask) (roots : List Text) where
  -- What is known of an id that was seen.
  record Expanded (seen pending : List Text) (x : Text) : Type 0 where
    not_code : text_in x (code_ids_of ids tasks) ≡ false
    more : List Text
    listed : dependencies_of x ids tasks ≡ some more
    pushed : (d : Text) → text_in d more ≡ true → Covered seen pending d

  record Inv (pending seen : List Text) : Type 0 where
    reached : (d : Text) → text_in d pending ≡ true → Reaches ids tasks roots d
    expanded : (x : Text) → text_in x seen ≡ true → Expanded seen pending x
    covered : (d : Text) → text_in d roots ≡ true → Covered seen pending d

  seen_all :
      (seen : List Text) (d : Text)
      → Inv [] seen
      → Reaches ids tasks roots d
      → text_in d seen ≡ true
  seen_all seen d inv (root at) = let c = inv.covered d at in ground (arith, text_in-nil d)
  seen_all seen d inv (down {x = x} more r listed at) =
      let x_seen = seen_all seen x inv r in
      let known = inv.expanded x x_seen in
      let same : some more ≡ some known.more = sym listed ∙ known.listed in
      let c = known.pushed d (let e : more ≡ known.more = cc in rw e at at) in
      ground (arith, text_in-nil d)

  Inv-skip :
      (h : Text) (pending seen : List Text)
      → text_in h seen ≡ true
      → Inv (h ∷ pending) seen
      → Inv pending seen
  Inv-skip h pending seen old inv = record {
    reached = λ d at. inv.reached d (ground (arith, text_in-cons d h pending));
    expanded = λ x at.
        let known = inv.expanded x at in
        record {
          not_code = known.not_code;
          more = known.more;
          listed = known.listed;
          pushed = λ d m. Covered-skip seen pending h d old (known.pushed d m);
        };
    covered = λ d at. Covered-skip seen pending h d old (inv.covered d at);
  }

  Inv-see :
      (h : Text) (more pending seen : List Text)
      → text_in h (code_ids_of ids tasks) ≡ false
      → dependencies_of h ids tasks ≡ some more
      → Inv (h ∷ pending) seen
      → Inv (reverse more ++ pending) (h ∷ seen)
  Inv-see h more pending seen no_code listed inv =
      let at_h : text_in h (h ∷ pending) ≡ true = rw (text_in-cons h h pending, text_eq_refl h) in
      record {
        reached = λ d at. elim (Bool-cases (text_in d more)) [
          | inl m ↦ down more (inv.reached h at_h) listed m
          | inr other ↦ inv.reached d (
              ground (
                arith,
                text_in-cons d h pending,
                text_in-reverse d more,
                text_in-append d (reverse more) pending,
              ))
        ];
        expanded = λ x at. elim (Bool-cases (text_eq x h)) [
          | inl same ↦
              let e : x ≡ h = text_eq_sound x h same in
              record {
                not_code = rw e no_code;
                more = more;
                listed = rw e listed;
                pushed = λ d m. Covered-push seen pending more h d m;
              }
          | inr off ↦
              let old : text_in x seen ≡ true = ground (arith, text_in-cons x h seen) in
              let known = inv.expanded x old in
              record {
                not_code = known.not_code;
                more = known.more;
                listed = known.listed;
                pushed = λ d m. Covered-see seen pending more h d (known.pushed d m);
              }
        ];
        covered = λ d at. Covered-see seen pending more h d (inv.covered d at);
      }

  search-Decides :
      (fuel : ℕ) (pending seen : List Text)
      → length pending + weight seen ids tasks < fuel
      → Inv pending seen
      → Decides ids tasks roots (code_prerequisite fuel ids tasks pending seen)
  unfolding code_prerequisite
  search-Decides zero pending seen enough inv = elim enough [ ]
  search-Decides (suc fuel) [] seen enough inv =
      λ d r. (inv.expanded d (seen_all seen d inv r)).not_code
  search-Decides (suc fuel) (h ∷ pending) seen enough inv =
      let at_h : text_in h (h ∷ pending) ≡ true = rw (text_in-cons h h pending, text_eq_refl h) in
      elim (Bool-cases (text_in h seen)) [
        | inl old ↦
            rw old
              (search-Decides fuel pending seen (omega arith) (Inv-skip h pending seen old inv))
        | inr new ↦ elim (Bool-cases (text_in h (code_ids_of ids tasks))) [
          | inl is_a_code ↦ rw (new, is_a_code) (h, inv.reached h at_h, is_a_code)
          | inr no_code ↦ elim (Option-cases (dependencies_of h ids tasks)) [
            | inl unknown ↦ rw (new, no_code, unknown) (h, refl, inv.reached h at_h, unknown)
            | inr (more, listed) ↦
                rw (new, no_code, listed)
                  (search-Decides fuel (reverse more ++ pending) (h ∷ seen)
                    (omega (
                      arith,
                      weight-see h more seen ids tasks listed new,
                      length-append (reverse more) pending,
                      length-reverse more,
                    ))
                    (Inv-see h more pending seen no_code listed inv))
          ]
        ]
      ]

-- From the dependencies of a task, with the fuel that `validate_plan` gives, the search says
-- whether a code task is reached, or stops at a reached id that is no task; it never runs out.
pub code_prerequisite-Decides :
    (ids : List Text) (tasks : List PlanTask) (roots : List Text)
    → Decides ids tasks roots (
        code_prerequisite
          (suc (length roots + total_dependencies tasks))
          ids
          tasks
          (reverse roots)
          [])
code_prerequisite-Decides ids tasks roots =
    search-Decides ids tasks roots (suc (length roots + total_dependencies tasks)) (reverse roots)
      [] (omega (arith, length-reverse roots, weight-nil ids tasks))
      (record {
        reached = λ d at. root (sym (text_in-reverse d roots) ∙ at);
        expanded = λ x at. absurd (false≢true (sym (text_in-nil x) ∙ at));
        covered = λ d at. ground (arith, text_in-reverse d roots, text_in-nil d);
      })
