-- ===== src/Prelude/Outcome.antt =====
-- What a C++ call can end in: a value, an exception, a failed MSW_ASSERT, or the end of the fuel
-- that the model gives a loop.
use mathlib.Core.Bool.{Bool, true, false}
use rubetek_ios_cpp_releases.Prelude.Tests.{if◌then◌else◌}

pub data Outcome {ℓ} (A : Type ℓ) : Type ℓ where
  done : A → Outcome A
  thrown : Outcome A
  aborted : Outcome A
  exhausted : Outcome A

infixl 5 ◌>>=◌
abbrev pub ◌>>=◌ {ℓ κ} : {A : Type ℓ} {B : Type κ} → Outcome A → (A → Outcome B) → Outcome B
done a >>= f = f a
thrown >>= f = thrown
aborted >>= f = aborted
exhausted >>= f = exhausted

-- The value on a run that ended well, and a given one on every other.
abbrev pub value_or {ℓ} : {A : Type ℓ} → A → Outcome A → A
value_or d (done a) = a
value_or d thrown = d
value_or d aborted = d
value_or d exhausted = d

-- What holds of the value, if there is one.
pub data Returns {ℓ κ} {A : Type ℓ} (P : A → Type κ) : Outcome A → Type (ℓ ⊔ κ) where
  returns : {a : A} → P a → Returns P (done a)
  throws : Returns P thrown
  aborts : Returns P aborted
  exhausts : Returns P exhausted

pub Returns-bind {ℓ κ} :
    {A B : Type ℓ} {P : A → Type κ} {Q : B → Type κ} {f : A → Outcome B} {m : Outcome A}
    → Returns P m
    → ((a : A) → P a → Returns Q (f a))
    → Returns Q (m >>= f)
Returns-bind (returns {a = a} h) k = k a h
Returns-bind throws k = throws
Returns-bind aborts k = aborts
Returns-bind exhausts k = exhausts

pub Returns-if {ℓ κ} :
    {A : Type ℓ} {P : A → Type κ} {x y : Outcome A} (b : Bool)
    → Returns P x
    → Returns P y
    → Returns P (if b then x else y)
Returns-if true h k = h
Returns-if false h k = k

pub Returns-value {ℓ κ} : {A : Type ℓ} {P : A → Type κ} {a : A} → Returns P (done a) → P a
Returns-value (returns h) = h
