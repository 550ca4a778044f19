-- ===== src/Prelude/Outcomes.antt =====
-- What a call of the program comes to: a value, or the end of the process.
use mathlib.Core.Path.{◌≡◌, refl}
use mathlib.Core.Bool.{Bool, true, false}
use mathlib.Core.Option.{Option, none, some}

-- `abort` is a call of `abort()`, `uncaught` an exception that leaves the call; the others stand for
-- undefined behaviour.
pub data Fault : Type 0 where
  abort uncaught null_deref out_of_bounds div_by_zero : Fault

pub data Outcome {ℓ} (A : Type ℓ) : Type ℓ where
  ok : A → Outcome A
  fault : Fault → Outcome A

-- The rest of the code runs on the value of a call that returns.
infixl 5 ◌>>=◌ ◌>>◌
abbrev pub ◌>>=◌ {ℓ ℓ'} :
    {Value : Type ℓ} {Next : Type ℓ'}
    → (call : Outcome Value) (rest : Value → Outcome Next) → Outcome Next
fault why >>= rest = fault why
ok value >>= rest = rest value

abbrev pub ◌>>◌ {ℓ} :
    {Next : Type ℓ} (call : Outcome (Unit {0})) (rest : Outcome Next) → Outcome Next
fault why >> rest = fault why
ok tt >> rest = rest

abbrev pub or_fault {ℓ} : {A : Type ℓ} → Option A → Fault → Outcome A
or_fault none e = fault e
or_fault (some a) e = ok a

abbrev pub ensure : Bool → Fault → Outcome (Unit {0})
ensure true e = ok tt
ensure false e = fault e

-- Inversion of a call that returned.
pub >>=-eq-ok {ℓ ℓ'} :
    {Value : Type ℓ} {Next : Type ℓ'}
    → (call : Outcome Value) (rest : Value → Outcome Next) {last : Next} → (call >>= rest) ≡ ok last
    → (value : Value) × (call ≡ ok value) × (rest value ≡ ok last)
>>=-eq-ok (fault why) rest h = cc
>>=-eq-ok (ok value) rest h = (value, refl, h)
