-- ===== src/Prelude/Faults.antt =====
-- What an asynchronous call gives back: a value, or an exception that unwinds the caller
-- (shared/kernel/result.ts keeps the business errors in the value).
use mathlib.Core.Path.{◌≡◌, refl}
use mathlib.Core.Bool.{Bool, true, false}

-- Why a call throws: `RangeError` of a value object, a constraint of the database, a broken
-- invariant that the source reports by `throw new Error`; `ConversionConflictError`, by which the
-- repository of conversion reports a violation of a unique index; a queue, a store of objects or
-- an engine that does not answer.
pub data Fault : Type 0 where
  range_error check_violation unique_violation broken_invariant conversion_conflict unavailable :
      Fault

pub data Outcome {ℓ} (A : Type ℓ) : Type ℓ where
  done : A → Outcome A
  thrown : Fault → Outcome A

infixl 5 ◌>>=◌
abbrev pub ◌>>=◌ {ℓ κ} : {A : Type ℓ} {B : Type κ} → Outcome A → (A → Outcome B) → Outcome B
done a >>= f = f a
thrown e >>= f = thrown e

abbrev pub require {ℓ} : {A : Type ℓ} → Bool → Fault → A → Outcome A
require true e a = done a
require false e a = thrown e

pub >>=-eq-done {ℓ κ} :
    {A : Type ℓ} {B : Type κ} (m : Outcome A) (f : A → Outcome B) {b : B}
    → (m >>= f) ≡ done b
    → (a : A) × (m ≡ done a) × (f a ≡ done b)
>>=-eq-done (done a) f h = (a, refl, h)
>>=-eq-done (thrown e) f h = cc

-- `withTransaction`: what a callback that throws has written is rolled back. A nested call
-- rethrows into the enclosing transaction, so the callbacks compose by `>>=`.
abbrev pub committed {ℓ κ} : {S : Type ℓ} {A : Type κ} → S → Outcome (A × S) → Outcome A × S
committed s (done (a, s')) = (done a, s')
committed s (thrown e) = (thrown e, s)

abbrev pub with_transaction {ℓ κ} :
    {S : Type ℓ} {A : Type κ} → (S → Outcome (A × S)) → S → Outcome A × S
with_transaction body s = committed s (body s)

-- `Result<T, E>`: a business error is a value.
pub data Result {ℓ κ} (A : Type ℓ) (E : Type κ) : Type (ℓ ⊔ κ) where
  ok : A → Result A E
  err : E → Result A E
