-- ===== src/Session/Binds.antt =====
-- What an action in sequence does, by what its first part returned or raised.
use mathlib.Core.Path.{subst}
use local_ai_workestra.Base.{Option, none, some, Text, ◌≡◌, refl, sym, ap, ◌∙◌, ◌⊎◌, inl, inr}
use local_ai_workestra.Session.{
  Session, RunError, Outcome, returns, raises, Action, ◌>>=◌, ◌>>◌, pure, raise, save, written,
}

pub Outcome-cases :
    {A : Type 0} (r : Outcome A) → ((a : A) × (r ≡ returns a)) ⊎ ((e : RunError) × (r ≡ raises e))
Outcome-cases (returns a) = inl (a, refl)
Outcome-cases (raises e) = inr (e, refl)

pub returns-injective : {A : Type 0} {a b : A} → returns a ≡ returns b → a ≡ b
returns-injective {a = a} h = ap (λ r. elim r [ returns x ↦ x | raises e ↦ a ]) h

pub returns_ne_raises : {A B : Type 0} {a : A} {e : RunError} → returns a ≡ raises e → B
returns_ne_raises h = absurd (cc h)

module _ {W : Type 0} where
  pub bind_returns :
      {A B : Type 0} (m : Action W A) (f : A → Action W B) (s : Session W) (a : A)
      → (m s).0 ≡ returns a
      → (m >>= f) s ≡ f a (m s).1
  bind_returns m f s a h = rw (h, ◌>>=◌)

  pub bind_raises :
      {A B : Type 0} (m : Action W A) (f : A → Action W B) (s : Session W) (e : RunError)
      → (m s).0 ≡ raises e
      → (m >>= f) s ≡ (raises e, (m s).1)
  bind_raises m f s e h = rw (h, ◌>>=◌)

  -- What every value that an action returns satisfies.
  pub record Returns {A : Type 0} (P : A → Type 0) (m : Action W A) : Type 0 where
    pub on : (s : Session W) (a : A) → (m s).0 ≡ returns a → P a

  pub Returns-pure : {A : Type 0} (P : A → Type 0) (a : A) → P a → Returns P (pure a)
  Returns-pure P a h = record { on = λ s b e. subst P (returns-injective e) h }

  pub Returns-raise : {A : Type 0} (P : A → Type 0) (e : RunError) → Returns P (raise {A = A} e)
  Returns-raise P e = record { on = λ s a h. returns_ne_raises (sym h) }

  pub Returns-bind :
      {A B : Type 0} (P : A → Type 0) (Q : B → Type 0) (m : Action W A) (f : A → Action W B)
      → Returns P m
      → ((a : A) → P a → Returns Q (f a))
      → Returns Q (m >>= f)
  Returns-bind P Q m f pm qf = record {
    on = λ s b e. elim (Outcome-cases (m s).0) [
      | inl (a, at) ↦
          (qf a (pm.on s a at)).on (m s).1 b (sym (ap (λ r. r.0) (bind_returns m f s a at)) ∙ e)
      | inr (x, at) ↦ returns_ne_raises (sym e ∙ ap (λ r. r.0) (bind_raises m f s x at))
    ];
  }

  -- An action that keeps the state keeps it behind a save, whether that is written or not.
  saved-state :
      {A : Type 0} (o : Option Text) (m : Action W A) (s : Session W)
      → (m s).1.state ≡ s.state
      → (elim (written o) as (λ r. Outcome A × Session W) [
        | returns a ↦ m s
        | raises e ↦ (raises e, s)
      ]).1.state
        ≡ s.state
  saved-state none m s h = h
  saved-state (some detail) m s h = refl

  pub save_then-state :
      {A : Type 0} (m : Action W A) (s : Session W)
      → ((s : Session W) → (m s).1.state ≡ s.state)
      → ((save >> m) s).1.state ≡ s.state
  save_then-state m s h = saved-state (s.disk 0) m (save s).1 (h (save s).1)
