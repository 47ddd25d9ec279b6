-- ===== src/Base/Outcome.antt =====
-- What a run of C code comes to: a result, or a step that has no defined result or never ends.
-- A null pointer that is followed, memory that is used after it was freed, an access outside an
-- object, a mutex that is locked again by the thread that holds it.
use mathlib.Core.Path.{◌≡◌, refl}

pub data Fault : Type 0 where
  null_dereference use_after_free out_of_bounds deadlock : Fault

pub data Outcome {ℓ} (A : Type ℓ) : Type ℓ where
  returns : A → Outcome A
  faults : Fault → Outcome A

infixl 5 ◌>>=◌
abbrev pub ◌>>=◌ {ℓ κ} : {A : Type ℓ} {B : Type κ} → Outcome A → (A → Outcome B) → Outcome B
returns a >>= f = f a
faults e >>= f = faults e

-- Inversion of a bind that returns.
pub >>=-eq-returns {ℓ κ} :
    {A : Type ℓ} {B : Type κ} (m : Outcome A) (f : A → Outcome B) {b : B}
    → (m >>= f) ≡ returns b
    → (a : A) × (m ≡ returns a) × (f a ≡ returns b)
>>=-eq-returns (returns a) f h = (a, refl, h)
>>=-eq-returns (faults e) f h = cc
