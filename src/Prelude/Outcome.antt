-- ===== src/Prelude/Outcome.antt =====
-- What a Python call does: it returns a value or raises an exception.
use mathlib.Core.Path.{◌≡◌, refl}

pub data Outcome {ℓ κ} (E : Type ℓ) (A : Type κ) : Type (ℓ ⊔ κ) where
  returned : A → Outcome E A
  raised : E → Outcome E A

infixl 5 ◌>>=◌ ◌>>◌
abbrev pub ◌>>=◌ {ℓ κ μ} :
    {E : Type ℓ} {A : Type κ} {B : Type μ} → Outcome E A → (A → Outcome E B) → Outcome E B
returned a >>= f = f a
raised e >>= f = raised e

abbrev pub ◌>>◌ {ℓ κ μ} :
    {E : Type ℓ} {A : Type κ} {B : Type μ} → Outcome E A → Outcome E B → Outcome E B
m >> k = m >>= λ _. k

-- Inversion of a chain that returned.
pub >>=-eq-returned {ℓ κ μ} :
    {E : Type ℓ} {A : Type κ} {B : Type μ} (m : Outcome E A) (f : A → Outcome E B) {b : B}
    → (m >>= f) ≡ returned b
    → (a : A) × (m ≡ returned a) × (f a ≡ returned b)
>>=-eq-returned (returned a) f h = (a, refl, h)
>>=-eq-returned (raised e) f h = cc

-- The call returns, and what it returns satisfies `P`.
abbrev pub Yields {ℓ κ} : {E : Type ℓ} {A : Type κ} → (A → Type 0) → Outcome E A → Type 0
Yields P (returned a) = P a
Yields P (raised e) = ⊥

pub Yields-bind {ℓ κ μ} :
    {E : Type ℓ} {A : Type κ} {B : Type μ} (P : A → Type 0) (Q : B → Type 0) (o : Outcome E A)
    (f : A → Outcome E B)
    → Yields P o
    → ((a : A) → P a → Yields Q (f a))
    → Yields Q (o >>= f)
Yields-bind P Q (returned a) f h k = k a h
Yields-bind P Q (raised e) f h k = absurd h

pub Yields-returned {ℓ κ} :
    {E : Type ℓ} {A : Type κ} (P : A → Type 0) (o : Outcome E A)
    → Yields P o
    → (a : A) × (o ≡ returned a) × P a
Yields-returned P (returned a) h = (a, refl, h)
Yields-returned P (raised e) h = absurd h
