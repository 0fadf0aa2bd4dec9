-- ===== src/Raise.antt =====
-- Python exceptions as values. A provider outside the modelled code raises a `Fault`; the modelled
-- code itself raises the other exceptions, so that the two are told apart.
use network_change_delivery.Base.{String, Bool, true, false}
use network_change_delivery.Models.{FinalOutcome}

-- The classes that the `except` clauses of the program distinguish; `DeploymentRuntimeError` is a
-- `RuntimeError`.
pub data Fault : Type 0 where
  value_fault os_fault runtime_fault deployment_runtime_fault other_fault : Fault

pub data Exn : Type 0 where
  provider : Fault → Exn
  -- `ProfiledExecutionError(outcome, message)`
  profiled_execution : FinalOutcome → String → Exn
  -- a `ValueError` or `RuntimeError` raised by the modelled code
  value_error runtime_error : String → Exn
  -- pydantic's `ValidationError`, raised where a model's own validator rejects it
  validation_error : Exn

-- `except (ValueError, OSError, RuntimeError)`: pydantic's error is a `ValueError`.
abbrev pub is_io : Exn → Bool
is_io (provider other_fault) = false
is_io _ = true

pub data Result (A : Type 0) : Type 0 where
  ok : A → Result A
  raised : Exn → Result A

infixl 5 ◌>>=◌ ◌>>◌
abbrev pub ◌>>=◌ : {A B : Type 0} → Result A → (A → Result B) → Result B
ok a >>= f = f a
raised e >>= f = raised e

abbrev pub ◌>>◌ : {B : Type 0} → Result (Unit {0}) → Result B → Result B
m >> k = m >>= λ _. k

-- `if rejected: raise e`
abbrev pub raise_if : Bool → Exn → Result (Unit {0})
raise_if true e = raised e
raise_if false e = ok tt

abbrev pub is_ok : {A : Type 0} → Result A → Bool
is_ok (ok a) = true
is_ok (raised e) = false

-- The exception is not that of a validator of the modelled code's own records.
abbrev pub Foreign : Exn → Type 0
Foreign validation_error = ⊥
Foreign _ = Unit

abbrev pub Yields : {A : Type 0} → (A → Type 0) → Result A → Type 0
Yields P (ok a) = P a
Yields P (raised e) = Foreign e
