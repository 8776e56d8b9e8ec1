-- ===== src/Rma/Outcome.antt =====
-- How a call into the analyzer's run time ends.
use parcoach.Base.{◌≡◌, refl}

pub data Outcome {ℓ} (A : Type ℓ) : Type ℓ where
  ok : A → Outcome A
  -- exit(EXIT_FAILURE)
  exit_failure : Outcome A
  -- MPI_Abort
  abort : Outcome A
  -- std::terminate: a thread object is overwritten or joined in the wrong state
  terminated : Outcome A
  -- an access outside of an array
  out_of_bounds : Outcome A
  -- the call waits for messages that have not come
  blocked : Outcome A

infixl 5 ◌>>=◌
abbrev pub ◌>>=◌ {ℓ κ} : {A : Type ℓ} {B : Type κ} → Outcome A → (A → Outcome B) → Outcome B
exit_failure >>= rest = exit_failure
abort >>= rest = abort
terminated >>= rest = terminated
out_of_bounds >>= rest = out_of_bounds
blocked >>= rest = blocked
ok a >>= rest = rest a

-- A chain that succeeds has succeeded at its first step.
pub >>=-eq-ok {ℓ κ} :
    {A : Type ℓ} {B : Type κ} {b : B} (first : Outcome A) (rest : A → Outcome B)
    → first >>= rest ≡ ok b
    → (a : A) × (first ≡ ok a) × (rest a ≡ ok b)
>>=-eq-ok (ok a) rest h = (a, refl, h)
>>=-eq-ok exit_failure rest h = cc
>>=-eq-ok abort rest h = cc
>>=-eq-ok terminated rest h = cc
>>=-eq-ok out_of_bounds rest h = cc
>>=-eq-ok blocked rest h = cc
