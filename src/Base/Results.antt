-- ===== src/Base/Results.antt =====
-- A Go function that returns a value and an error.
use mathlib.Core.Path.{◌≡◌, refl, subst}
use mathlib.Core.Logic.{◌⊎◌, ◌↔◌, inl, inr}
use mathlib.Core.Bool.{Bool, true, false}

pub data Result {ℓ} (E : Type 0) (A : Type ℓ) : Type ℓ where
  ok : A → Result E A
  err : E → Result E A

infixl 5 ◌>>=◌ ◌>>◌
abbrev pub ◌>>=◌ {ℓ κ} :
    {E : Type 0} {A : Type ℓ} {B : Type κ} → Result E A → (A → Result E B) → Result E B
ok a >>= f = f a
err e >>= f = err e

abbrev pub ◌>>◌ {ℓ} : {E : Type 0} {B : Type ℓ} → Result E (Unit {0}) → Result E B → Result E B
m >> k = m >>= λ _. k

-- Go's `if bad { return err }`.
abbrev pub reject_if : {E : Type 0} → Bool → E → Result E (Unit {0})
reject_if true e = err e
reject_if false e = ok tt

pub Result-cases {ℓ} :
    {E : Type 0} {A : Type ℓ} (r : Result E A) → ((a : A) × (r ≡ ok a)) ⊎ ((e : E) × (r ≡ err e))
Result-cases (ok a) = inl (a, refl)
Result-cases (err e) = inr (e, refl)

-- A chain of checks passes exactly when each one does.
pub >>-eq-ok :
    {E : Type 0} (m k : Result E (Unit {0})) → ((m >> k) ≡ ok tt) ↔ ((m ≡ ok tt) × (k ≡ ok tt))
>>-eq-ok (ok tt) k = (λ h. (refl, h), λ h. h.1)
>>-eq-ok (err e) k = (λ h. absurd (cc), λ h. cc (h.0))

-- A chain that succeeds ran each of its steps, and one that fails stopped at a step that failed.
module _ {ℓ κ} {E : Type 0} {A : Type ℓ} {B : Type κ} (next : A → Result E B) where
  pub >>=-eq-ok :
      (first : Result E A) {out : B}
      → (first >>= next) ≡ ok out
      → (mid : A) × (first ≡ ok mid) × (next mid ≡ ok out)
  >>=-eq-ok (err why) run = cc
  >>=-eq-ok (ok mid) run = (mid, refl, run)

  pub >>=-eq-err :
      (first : Result E A) {why : E}
      → (first >>= next) ≡ err why
      → (first ≡ err why) ⊎ ((mid : A) × (first ≡ ok mid) × (next mid ≡ err why))
  >>=-eq-err (err why) run = inl (cc)
  >>=-eq-err (ok mid) run = inr (mid, refl, run)

pub ok-injective {ℓ} :
    {E : Type 0} {A : Type ℓ} {a b : A} → ◌≡◌ {A = Result E A} (ok a) (ok b) → a ≡ b
ok-injective h = cc

pub err-injective {ℓ} :
    {E : Type 0} {A : Type ℓ} {a b : E} → ◌≡◌ {A = Result E A} (err a) (err b) → a ≡ b
err-injective h = cc

-- What holds of the value of a result, where it has one.
abbrev pub Returns {ℓ} : {E : Type 0} {A : Type ℓ} → (A → Type 0) → Result E A → Type 0
Returns P (ok a) = P a
Returns P (err e) = Unit

pub bind-Returns {ℓ κ} :
    {E : Type 0} {A : Type ℓ} {B : Type κ} (P : A → Type 0) (Q : B → Type 0) (m : Result E A)
    (f : A → Result E B)
    → Returns P m
    → ((a : A) → P a → Returns Q (f a))
    → Returns Q (m >>= f)
bind-Returns P Q (ok a) f h k = k a h
bind-Returns P Q (err e) f h k = tt

pub Returns-ok {ℓ} :
    {E : Type 0} {A : Type ℓ} (P : A → Type 0) (m : Result E A) (a : A)
    → Returns P m
    → m ≡ ok a
    → P a
Returns-ok P m a h e = subst (Returns P) e h

pub Returns-weaken {ℓ} :
    {E : Type 0} {A : Type ℓ} (P Q : A → Type 0) (m : Result E A)
    → Returns P m
    → ((a : A) → P a → Q a)
    → Returns Q m
Returns-weaken P Q (ok a) h k = k a h
Returns-weaken P Q (err e) h k = tt
