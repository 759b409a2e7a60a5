-- ===== src/Base/Results.antt =====
-- A call that may raise: `ok` with the value, or `err` with what was raised.
use mathlib.Core.Path.{◌≡◌, refl}
use mathlib.Core.Logic.{◌⊎◌, inl, inr}
use mathlib.Core.Bool.{Bool, true, false}

pub data Result {ℓ κ} (E : Type ℓ) (A : Type κ) : Type (ℓ ⊔ κ) where
  ok : A → Result E A
  err : E → Result E A

infixr 5 ◌>>=◌ ◌>>◌
abbrev pub ◌>>=◌ {ℓ κ λ₁} :
    {E : Type ℓ} {A : Type κ} {B : Type λ₁} → Result E A → (A → Result E B) → Result E B
ok a >>= f = f a
err e >>= f = err e

abbrev pub ◌>>◌ {ℓ κ} : {E : Type ℓ} {B : Type κ} → Result E (Unit {0}) → Result E B → Result E B
m >> k = m >>= λ _. k

-- `if c: raise e`
abbrev pub raise_if {ℓ} : {E : Type ℓ} → Bool → E → Result E (Unit {0})
raise_if true e = err e
raise_if false e = ok tt

-- Inversion of a successful bind.
pub >>=-eq_ok {ℓ κ λ₁} :
    {E : Type ℓ} {A : Type κ} {B : Type λ₁} (m : Result E A) (f : A → Result E B) {b : B}
    → (m >>= f) ≡ ok b
    → (a : A) × (m ≡ ok a) × (f a ≡ ok b)
>>=-eq_ok (ok a) f h = (a, refl, h)
>>=-eq_ok (err e) f h = cc

-- A guard that is passed.
pub guard-eq_ok {ℓ κ} :
    {E : Type ℓ} {B : Type κ} (b : Bool) (e : E) (m : Result E B) {v : B}
    → (raise_if b e >> m) ≡ ok v
    → (b ≡ false) × (m ≡ ok v)
guard-eq_ok true e m h = cc
guard-eq_ok false e m h = (refl, h)

pub ok-injective {ℓ κ} :
    {E : Type ℓ} {A : Type κ} {a b : A} → ◌≡◌ {A = Result E A} (ok a) (ok b) → a ≡ b
ok-injective h = cc

pub ok_ne_err {ℓ κ λ₁} :
    {E : Type ℓ} {A : Type κ} {P : Type λ₁} {a : A} {e : E}
    → ◌≡◌ {A = Result E A} (ok a) (err e)
    → P
ok_ne_err h = cc

-- Where a bind that failed has failed.
pub >>=-eq_err {ℓ κ λ₁} :
    {E : Type ℓ} {A : Type κ} {B : Type λ₁} (m : Result E A) (f : A → Result E B) {e : E}
    → (m >>= f) ≡ err e
    → (m ≡ err e) ⊎ ((a : A) × (m ≡ ok a) × (f a ≡ err e))
>>=-eq_err (ok a) f h = inr (a, refl, h)
>>=-eq_err (err e) f h = inl (cc)

pub guard-eq_err {ℓ κ} :
    {E : Type ℓ} {B : Type κ} (b : Bool) (x : E) (m : Result E B) {e : E}
    → (raise_if b x >> m) ≡ err e
    → ((b ≡ true) × (x ≡ e)) ⊎ ((b ≡ false) × (m ≡ err e))
guard-eq_err true x m h = inl (refl, cc)
guard-eq_err false x m h = inr (refl, h)

pub err-injective {ℓ κ} :
    {E : Type ℓ} {A : Type κ} {d e : E} → ◌≡◌ {A = Result E A} (err d) (err e) → d ≡ e
err-injective h = cc

-- A guard whose condition fails does nothing.
pub guard_passes {ℓ κ} :
    {E : Type ℓ} {B : Type κ} (b : Bool) (e : E) (m : Result E B) {r : Result E B}
    → b ≡ false
    → m ≡ r
    → (raise_if b e >> m) ≡ r
guard_passes true e m h k = absurd (cc h)
guard_passes false e m h k = k
