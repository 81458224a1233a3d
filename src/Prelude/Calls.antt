-- ===== src/Prelude/Calls.antt =====
-- Calls that may raise: a value, or the exception. `do` blocks chain them.
use mathlib.Core.Path.{◌≡◌, refl}
use mathlib.Core.Bool.{Bool, true, false}

-- The exceptions that the modelled code raises, by class.
pub data Error : Type 0 where
  value_error overflow_error integrity_error transport_error : Error
  normalization_error finding_not_found : Error
  configuration_error protocol_error response_too_large unavailable no_result : Error
  authentication already_exists invalid_hash verification system_exit : Error

-- How a call ends.
pub data Outcome {ℓ} (Value : Type ℓ) : Type ℓ where
  ok : Value → Outcome Value
  err : Error → Outcome Value

infixl 5 ◌>>=◌ ◌>>◌
abbrev pub ◌>>=◌ {κ ℓ} :
    {Value : Type κ} {Next : Type ℓ} → Outcome Value → (Value → Outcome Next) → Outcome Next
err raised >>= continue = err raised
ok value >>= continue = continue value

-- `if bad: raise error`
abbrev pub raise_if : (bad : Bool) → Error → Outcome (Unit {0})
raise_if false error = ok tt
raise_if true error = err error

-- A call for its effect alone.
abbrev pub ◌>>◌ {ℓ} : {Next : Type ℓ} → Outcome (Unit {0}) → Outcome Next → Outcome Next
check >> continue = check >>= λ _. continue

-- What a chain that returned went through.
pub >>=-eq-ok {κ ℓ} :
    {Value : Type κ} {Next : Type ℓ} {last : Next} (call : Outcome Value)
    (continue : Value → Outcome Next)
    → (call >>= continue) ≡ ok last
    → (value : Value) × (call ≡ ok value) × (continue value ≡ ok last)
>>=-eq-ok (err raised) continue returned = cc
>>=-eq-ok (ok value) continue returned = (value, refl, returned)

pub ok-injective {ℓ} : {Value : Type ℓ} (a b : Value) → ok a ≡ ok b → a ≡ b
ok-injective a b h = cc
