-- ===== src/Work/Meets.antt =====
-- What an action does from one desk: it ends with a value that satisfies a condition, or with a
-- fault of the code outside.
use local_ai_workestra.Base.{[], ◌∷◌, ◌++◌, ◌≡◌, ◌≢◌, refl, Bool, true, false, if◌then◌else◌}
use local_ai_workestra.Session.{Outcome, returns, raises, git_error}
use local_ai_workestra.Work.{
  TaskEvent, tell, ◌>>◌, Desk, from_outside, assertion_error, out_of_fuel, Result, done, fault,
  Work, Tried, git_ok, git_failed, result_of, tried_of, continue, attempt_of, attempt, ◌>>=◌, pure,
  call, call_git,
}
use mathlib.Core.Path.{subst}

module _ {W : Type 0} where
  abbrev pub Post : {A : Type 0} → (A → Desk W → Type 0) → Result A × Desk W → Type 0
  Post Q (done a, d) = Q a d
  Post Q (fault (from_outside e), d) = Unit
  Post Q (fault assertion_error, d) = ⊥
  Post Q (fault out_of_fuel, d) = ⊥

  pub record Meets {A : Type 0} (Q : A → Desk W → Type 0) (m : Work W A) (d : Desk W) : Type 0 where
    pub holds : Post Q (m d)

  Post-continue :
      {A B : Type 0} (R : A → Desk W → Type 0) (Q : B → Desk W → Type 0) (f : A → Work W B)
      (r : Result A × Desk W)
      → Post R r
      → ((a : A) (d : Desk W) → R a d → Meets Q (f a) d)
      → Post Q (continue f r)
  Post-continue R Q f (done a, d) h k = (k a d h).holds
  Post-continue R Q f (fault (from_outside e), d) h k = tt
  Post-continue R Q f (fault assertion_error, d) h k = h
  Post-continue R Q f (fault out_of_fuel, d) h k = h

  pub Meets-bind :
      {A B : Type 0} (R : A → Desk W → Type 0) (Q : B → Desk W → Type 0) (m : Work W A)
      (f : A → Work W B) (d : Desk W)
      → Meets R m d
      → ((a : A) (d' : Desk W) → R a d' → Meets Q (f a) d')
      → Meets Q (m >>= f) d
  Meets-bind R Q m f d h k = record { holds = Post-continue R Q f (m d) h.holds k }

  pub Meets-pure :
      {A : Type 0} (Q : A → Desk W → Type 0) (a : A) (d : Desk W) → Q a d → Meets Q (pure a) d
  Meets-pure Q a d q = record { holds = q }

  pub Meets-then :
      {A B : Type 0} (R : Desk W → Type 0) (Q : B → Desk W → Type 0) (m : Work W A) (k : Work W B)
      (d : Desk W)
      → Meets (λ _ d'. R d') m d
      → ((d' : Desk W) → R d' → Meets Q k d')
      → Meets Q (m >>= λ _. k) d
  Meets-then R Q m k d h q = Meets-bind (λ _ d'. R d') Q m (λ _. k) d h (λ _ d' r. q d' r)

  pub Meets-if :
      {A : Type 0} (Q : A → Desk W → Type 0) (b : Bool) (m k : Work W A) (d : Desk W)
      → (b ≡ true → Meets Q m d)
      → (b ≡ false → Meets Q k d)
      → Meets Q (if b then m else k) d
  Meets-if Q true m k d hm hk = hm refl
  Meets-if Q false m k d hm hk = hk refl

  Post-result_of :
      {A : Type 0} (Q : A → Desk W → Type 0) (d : Desk W) (r : Outcome A × W)
      → ((a : A) → r.0 ≡ returns a → Q a (record d { world = r.1 }))
      → Post Q (result_of r.0, record d { world = r.1 })
  Post-result_of Q d (returns a, w) h = h a refl
  Post-result_of Q d (raises e, w) h = tt

  pub Meets-call :
      {A : Type 0} (Q : A → Desk W → Type 0) (f : W → Outcome A × W) (d : Desk W)
      → ((a : A) → (f d.world).0 ≡ returns a → Q a (record d { world = (f d.world).1 }))
      → Meets Q (call f) d
  Meets-call Q f d h = record { holds = Post-result_of Q d (f d.world) h }

  Post-tried_of :
      {A : Type 0} (Q : Tried A → Desk W → Type 0) (d : Desk W) (r : Outcome A × W)
      → ((t : Tried A) → tried_of r.0 ≡ done t → Q t (record d { world = r.1 }))
      → Post Q (tried_of r.0, record d { world = r.1 })
  Post-tried_of Q d (returns a, w) h = h (git_ok a) refl
  Post-tried_of Q d (raises (git_error text), w) h = h (git_failed text) refl
  Post-tried_of Q d (raises e, w) h = tt

  pub Meets-call_git :
      {A : Type 0} (Q : Tried A → Desk W → Type 0) (f : W → Outcome A × W) (d : Desk W)
      → ((t : Tried A) → tried_of (f d.world).0 ≡ done t → Q t (record d { world = (f d.world).1 }))
      → Meets Q (call_git f) d
  Meets-call_git Q f d h = record { holds = Post-tried_of Q d (f d.world) h }

  -- What an action that stops by itself does not end with.
  Post-stops :
      {A : Type 0} (Q : A → Desk W → Type 0) (r : Result A × Desk W)
      → Post Q r
      → (r.0 ≢ fault out_of_fuel) × (r.0 ≢ fault assertion_error)
  Post-stops Q (done a, d) h = ((λ e. absurd (cc e)), (λ e. absurd (cc e)))
  Post-stops Q (fault (from_outside x), d) h = ((λ e. absurd (cc e)), (λ e. absurd (cc e)))
  Post-stops Q (fault assertion_error, d) h = absurd h
  Post-stops Q (fault out_of_fuel, d) h = absurd h

  pub Meets-stops :
      {A : Type 0} (Q : A → Desk W → Type 0) (m : Work W A) (d : Desk W)
      → Meets Q m d
      → ((m d).0 ≢ fault out_of_fuel) × ((m d).0 ≢ fault assertion_error)
  Meets-stops Q m d h = Post-stops Q (m d) h.holds

  Post-attempt_of :
      {A : Type 0} (R : Desk W → Type 0) (r : Result A × Desk W)
      → Post (λ _. R) r
      → R r.1
      → Post (λ _. R) (attempt_of r)
  Post-attempt_of R (done a, d) h k = h
  Post-attempt_of R (fault (from_outside e), d) h k = k
  Post-attempt_of R (fault assertion_error, d) h k = h
  Post-attempt_of R (fault out_of_fuel, d) h k = h

  -- Under `except Exception`, with what holds of the desk either way.
  pub Meets-attempt :
      {A : Type 0} (R : Desk W → Type 0) (m : Work W A) (d : Desk W)
      → Meets (λ _. R) m d
      → R (m d).1
      → Meets (λ _. R) (attempt m) d
  Meets-attempt R m d h k = record { holds = Post-attempt_of R (m d) h.holds k }

  -- The condition, at what the action ended with.
  pub Meets-at :
      {A : Type 0} (Q : A → Desk W → Type 0) (m : Work W A) (d : Desk W) (a : A) (d' : Desk W)
      → Meets Q m d
      → m d ≡ (done a, d')
      → Q a d'
  Meets-at Q m d a d' h e = subst (Post Q) e h.holds

  -- An action that stops by itself, wherever it ends.
  abbrev pub Ends : {A : Type 0} → Work W A → Desk W → Type 0
  Ends m d = Meets (λ _ _. Unit) m d

  pub Ends-bind :
      {A B : Type 0} (m : Work W A) (f : A → Work W B) (d : Desk W)
      → Ends m d
      → ((a : A) (d' : Desk W) → Ends (f a) d')
      → Ends (m >>= f) d
  Ends-bind m f d h k = Meets-bind (λ _ _. Unit) (λ _ _. Unit) m f d h (λ a d' _. k a d')

  pub Ends-call : {A : Type 0} (f : W → Outcome A × W) (d : Desk W) → Ends (call f) d
  Ends-call f d = Meets-call (λ _ _. Unit) f d (λ _ _. tt)

  pub Ends-pure : {A : Type 0} (a : A) (d : Desk W) → Ends (pure a) d
  Ends-pure a d = record { holds = tt }

  Post-weaken :
      {A : Type 0} (R Q : A → Desk W → Type 0) (r : Result A × Desk W)
      → Post R r
      → ((a : A) (d : Desk W) → R a d → Q a d)
      → Post Q r
  Post-weaken R Q (done a, d) h k = k a d h
  Post-weaken R Q (fault (from_outside e), d) h k = tt
  Post-weaken R Q (fault assertion_error, d) h k = h
  Post-weaken R Q (fault out_of_fuel, d) h k = h

  pub Meets-weaken :
      {A : Type 0} (R Q : A → Desk W → Type 0) (m : Work W A) (d : Desk W)
      → Meets R m d
      → ((a : A) (d' : Desk W) → R a d' → Q a d')
      → Meets Q m d
  Meets-weaken R Q m d h k = record { holds = Post-weaken R Q (m d) h.holds k }

  pub Meets-tell :
      {B : Type 0} (Q : B → Desk W → Type 0) (e : TaskEvent) (k : Work W B) (d : Desk W)
      → ((d' : Desk W) → d'.world ≡ d.world → Meets Q k d')
      → Meets Q (tell e >> k) d
  Meets-tell Q e k d h =
      Meets-then (λ d'. d'.world ≡ d.world) Q (tell e) k d (record { holds = refl })
        (λ d' p. h d' p)

  -- A last event, and a value.
  pub Meets-told :
      {B : Type 0} (Q : B → Desk W → Type 0) (e : TaskEvent) (b : B) (d : Desk W)
      → ((d' : Desk W) → d'.world ≡ d.world → Q b d')
      → Meets Q (tell e >> pure b) d
  Meets-told Q e b d h = record {
    holds = h (record d { events = d.events ++ (e, d.world) ∷ [] }) refl;
  }

  pub Ends-then :
      {A B : Type 0} (Q : B → Desk W → Type 0) (m : Work W A) (f : A → Work W B) (d : Desk W)
      → Ends m d
      → ((a : A) (d' : Desk W) → Meets Q (f a) d')
      → Meets Q (m >>= f) d
  Ends-then Q m f d h k = Meets-bind (λ _ _. Unit) Q m f d h (λ a d' _. k a d')
