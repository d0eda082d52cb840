-- ===== src/Prelude/Results.antt =====
-- How a C++ call ends: with a value, with an exception, or in undefined behaviour.
use mathlib.Core.Path.{◌≡◌}
use mathlib.Core.Bool.{Bool, true, false}

-- `std::runtime_error`, which the program throws itself, and the `std::out_of_range` of `at`.
pub data Exception : Type 0 where
  runtime_error : Exception
  out_of_range : Exception

-- `fault` is a read or write outside of an object, which C++ leaves undefined.
pub data Result {ℓ} (A : Type ℓ) : Type ℓ where
  ok : A → Result A
  throw : Exception → Result A
  fault : Result A

infixl 5 ◌>>=◌ ◌>>◌
abbrev pub ◌>>=◌ {ℓ κ} : {A : Type ℓ} {B : Type κ} → Result A → (A → Result B) → Result B
ok a >>= f = f a
throw e >>= f = throw e
fault >>= f = fault

abbrev pub ◌>>◌ {ℓ} : {B : Type ℓ} → Result (Unit {0}) → Result B → Result B
m >> k = m >>= λ _. k

-- `if (!b) throw e;`
abbrev pub require : Bool → Exception → Result (Unit {0})
require true e = ok tt
require false e = throw e

-- An access that is defined only under the test.
abbrev pub within : Bool → Result (Unit {0})
within true = ok tt
within false = fault

pub ok-injective {ℓ} : {A : Type ℓ} {a b : A} → ok a ≡ ok b → a ≡ b
ok-injective e = cc
