-- ===== src/GitWorkspace/Branches.antt =====
-- src/local_agent_orchestrator/services/git_workspace.py: the names of the branches for the agents.
mod Scenarios
use mathlib.Core.List.{reverse, reverse-append, reverse-reverse, reverse-cons}
use local_ai_workestra.Base.{
  ◌≡◌, refl, ap, ◌∙◌, sym, ℕ, Bool, true, false, List, [], ◌∷◌, ◌++◌, ◌&&◌, ◌==◌, if◌then◌else◌,
  Bool-cases, inl, inr, Text, starts_with, is_empty, all, arith,
}
use local_ai_workestra.GitWorkspace.{is_plain, dashed, undashed, safe_run_id}

-- A name of plain characters that neither begins nor ends with a dash.
pub record IsSafe (t : Text) : Type 0 where
  pub only_plain : all is_plain t ≡ true
  pub no_dash_first : starts_with t (45 ∷ []) ≡ false
  pub no_dash_last : starts_with (reverse t) (45 ∷ []) ≡ false

all-append : (p : ℕ → Bool) (s t : Text) → all p (s ++ t) ≡ (all p s && all p t)
all-append p [] t = refl
all-append p (c ∷ s) t = let rest = all-append p s t in ground arith

all-reverse : (p : ℕ → Bool) (s : Text) → all p (reverse s) ≡ all p s
all-reverse p [] = refl
all-reverse p (c ∷ s) =
    let rest = all-reverse p s in
    let at = all-append p (reverse s) (c ∷ []) in
    let cons = ap (all p) (reverse-cons c s) in ground arith

all-replaced :
    (gap b : Bool) (c : ℕ) (plain other : Text)
    → is_plain c ≡ b
    → all is_plain plain ≡ true
    → all is_plain other ≡ true
    → all is_plain (if b then c ∷ plain else if gap then other else 45 ∷ other) ≡ true
unfolding is_plain
all-replaced gap true c plain other e h k = ground arith
all-replaced true false c plain other e h k = k
all-replaced false false c plain other e h k = k

all-dashed : (gap : Bool) (s : Text) → all is_plain (dashed gap s) ≡ true
unfolding dashed
all-dashed gap [] = refl
all-dashed gap (c ∷ s) =
    all-replaced gap (is_plain c) c (dashed false s) (dashed true s) refl (all-dashed false s)
      (all-dashed true s)

-- What `lstrip` leaves is an end of the text, and does not begin with a dash.
record IsStripped (s t : Text) : Type 0 where
  gone : Text
  parts : s ≡ gone ++ t
  no_dash : starts_with t (45 ∷ []) ≡ false

IsStripped-if :
    (b : Bool) (c : ℕ) (s t : Text)
    → (c == 45) ≡ b
    → IsStripped s t
    → IsStripped (c ∷ s) (if b then t else c ∷ s)
unfolding starts_with
IsStripped-if true c s t e h = record {
  gone = c ∷ h.gone;
  parts = ap (λ t. c ∷ t) h.parts;
  no_dash = h.no_dash;
}
IsStripped-if false c s t e h = record { gone = []; parts = refl; no_dash = ground arith }

undashed-IsStripped : (s : Text) → IsStripped s (undashed s)
unfolding undashed starts_with
undashed-IsStripped [] = record { gone = []; parts = refl; no_dash = refl }
undashed-IsStripped (c ∷ s) = IsStripped-if (c == 45) c s (undashed s) refl (undashed-IsStripped s)

all-undashed : (p : ℕ → Bool) (s : Text) → all p s ≡ true → all p (undashed s) ≡ true
all-undashed p s e =
    let h = undashed-IsStripped s in
    let at = all-append p h.gone (undashed s) in let same = ap (all p) h.parts in ground arith

-- The front of a text begins as the text does.
starts_with-front :
    (s t : Text) (d : ℕ) → starts_with (s ++ t) (d ∷ []) ≡ false → starts_with s (d ∷ []) ≡ false
unfolding starts_with
starts_with-front [] t d e = refl
starts_with-front (c ∷ s) t d e = e

undashed-kept : (s : Text) → starts_with s (45 ∷ []) ≡ false → undashed s ≡ s
unfolding undashed starts_with
undashed-kept [] e = refl
undashed-kept (c ∷ s) e = ground arith

dashed-kept : (gap : Bool) (s : Text) → all is_plain s ≡ true → dashed gap s ≡ s
unfolding dashed is_plain
dashed-kept gap [] e = refl
dashed-kept gap (c ∷ s) e =
    let rest : dashed false s ≡ s = dashed-kept false s (ground arith) in ground arith

-- For every run id, the cleaned id has only letters, digits, `.`, `_` and `-`, and neither begins
-- nor ends with a dash.
pub safe_run_id-IsSafe : (run_id : Text) → IsSafe (safe_run_id run_id)
unfolding safe_run_id
safe_run_id-IsSafe run_id =
    let first = undashed-IsStripped (dashed false run_id) in
    let start = undashed (dashed false run_id) in
    let last = undashed-IsStripped (reverse start) in
    let end = undashed (reverse start) in
    let front : start ≡ reverse end ++ reverse last.gone =
      sym (reverse-reverse start) ∙ (ap reverse last.parts ∙ reverse-append last.gone end) in
    let plain = all-undashed is_plain (dashed false run_id) (all-dashed false run_id) in
    let back = all-reverse is_plain start in
    let tail = all-undashed is_plain (reverse start) (ground arith) in
    let whole = all-reverse is_plain end in
    record {
      only_plain = ground arith;
      no_dash_first =
          starts_with-front (reverse end) (reverse last.gone) 45
            (ap (λ t. starts_with t (45 ∷ [])) (sym front) ∙ first.no_dash);
      no_dash_last = ap (λ t. starts_with t (45 ∷ [])) (reverse-reverse end) ∙ last.no_dash;
    }

-- A run id that is of that form already is kept as it is.
pub safe_run_id-kept : (run_id : Text) → IsSafe run_id → safe_run_id run_id ≡ run_id
unfolding safe_run_id
safe_run_id-kept run_id h =
    ap (λ t. reverse (undashed (reverse (undashed t)))) (dashed-kept false run_id h.only_plain)
    ∙ (ap (λ t. reverse (undashed (reverse t))) (undashed-kept run_id h.no_dash_first)
        ∙ (ap reverse (undashed-kept (reverse run_id) h.no_dash_last) ∙ reverse-reverse run_id))
