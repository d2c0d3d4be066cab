-- ===== src/Base/Results.antt =====
-- What a call of the program ends in: a value, or one of the exceptions that the modelled code
-- raises, and the chain of fallible steps.
use Prim.Native.Nat.{ℕ}
use mathlib.Core.Bool.{Bool, false, true}
use mathlib.Core.List.{List, [], ◌∷◌}
use mathlib.Core.Option.{Option, none, some}
use mathlib.Core.Path.{refl, ◌≡◌}

-- `multiple_results` and `integrity_error` are SQLAlchemy's MultipleResultsFound and
-- IntegrityError; `http` is FastAPI's HTTPException with its status code; `circuit_open` is
-- CircuitBreakerOpen; `database_error` is SQLAlchemy's DBAPIError around an error of the driver.
pub data Exception : Type 0 where
  permission_error value_error type_error key_error multiple_results integrity_error circuit_open
        database_error :
      Exception
  http : ℕ → Exception

pub data Outcome {ℓ} (A : Type ℓ) : Type ℓ where
  ok : A → Outcome A
  raise : Exception → Outcome A

infixl 5 ◌>>=◌ ◌>>◌
abbrev pub ◌>>=◌ {ℓ κ} : {A : Type ℓ} {B : Type κ} → Outcome A → (A → Outcome B) → Outcome B
ok a >>= f = f a
raise e >>= f = raise e

abbrev pub ◌>>◌ {ℓ} : {B : Type ℓ} → Outcome (Unit {0}) → Outcome B → Outcome B
m >> k = m >>= λ _. k

abbrev pub raise_if : Bool → Exception → Outcome (Unit {0})
raise_if true e = raise e
raise_if false e = ok tt

-- `result.scalar_one_or_none()`
abbrev pub scalar_one_or_none {ℓ} : {A : Type ℓ} → List A → Outcome (Option A)
scalar_one_or_none [] = ok none
scalar_one_or_none (x ∷ []) = ok (some x)
scalar_one_or_none (x ∷ y ∷ l) = raise multiple_results

-- A chain that returns, returned at its first step.
pub bind-ok {ℓ κ} :
    {A : Type ℓ} {B : Type κ} (o : Outcome A) (k : A → Outcome B) (r : B)
    → (o >>= k) ≡ ok r
    → (a : A) × (o ≡ ok a) × (k a ≡ ok r)
bind-ok (ok a) k r e = (a, refl, e)
bind-ok (raise x) k r e = cc

pub ok-injective {ℓ} : {A : Type ℓ} {x y : A} → Path (Outcome A) (ok x) (ok y) → x ≡ y
ok-injective e = cc
