-- ===== src/Base/Faults.antt =====
-- What a piece of C code does: it returns a value, or it faults.
use mathlib.Core.Path.{◌≡◌, refl}

-- `null_deref` follows a null pointer, `dangling` a pointer to no live structure, `overrun` is an
-- access behind the end of an array, `uninitialized` a read of memory that nothing was written to,
-- `aborted` a call of abort(3), and `out_of_fuel` a recursion deeper than the model's fuel.
pub data Fault : Type 0 where
  null_deref dangling overrun uninitialized aborted out_of_fuel : Fault

pub data Outcome {ℓ} (A : Type ℓ) : Type ℓ where
  done : A → Outcome A
  fault : Fault → Outcome A

infixl 5 ◌>>=◌
abbrev pub ◌>>=◌ {ℓ κ} : {A : Type ℓ} {B : Type κ} → Outcome A → (A → Outcome B) → Outcome B
done a >>= f = f a
fault e >>= f = fault e

-- The call returns a value with the property, or it stops in one of the two ways that the source
-- allows for: a failed initialization aborts, and a missing holder is a null pointer.
abbrev pub Ensures {ℓ} : {A : Type ℓ} → (A → Type 0) → Outcome A → Type 0
Ensures P (done a) = P a
Ensures P (fault null_deref) = Unit
Ensures P (fault aborted) = Unit
Ensures P (fault _) = ⊥

pub Ensures-bind {ℓ κ} :
    {A : Type ℓ} {B : Type κ} (P : A → Type 0) (Q : B → Type 0) (o : Outcome A) (f : A → Outcome B)
    → Ensures P o
    → ((a : A) → P a → Ensures Q (f a))
    → Ensures Q (o >>= f)
Ensures-bind P Q (done a) f p step = step a p
Ensures-bind P Q (fault null_deref) f p step = tt
Ensures-bind P Q (fault aborted) f p step = tt
Ensures-bind P Q (fault dangling) f p step = absurd p
Ensures-bind P Q (fault overrun) f p step = absurd p
Ensures-bind P Q (fault uninitialized) f p step = absurd p
Ensures-bind P Q (fault out_of_fuel) f p step = absurd p

-- A property of the result that may use what the call returned.
pub Ensures-with {ℓ} :
    {A : Type ℓ} (P Q : A → Type 0) (o : Outcome A)
    → Ensures P o
    → ((a : A) → o ≡ done a → P a → Q a)
    → Ensures Q o
Ensures-with P Q (done a) p more = more a refl p
Ensures-with P Q (fault null_deref) p more = tt
Ensures-with P Q (fault aborted) p more = tt
Ensures-with P Q (fault dangling) p more = absurd p
Ensures-with P Q (fault overrun) p more = absurd p
Ensures-with P Q (fault uninitialized) p more = absurd p
Ensures-with P Q (fault out_of_fuel) p more = absurd p
