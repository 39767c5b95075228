-- ===== src/Base/Outcome.antt =====
-- Outcomes of kernel code. `fault` is a point from which the kernel does not go on: a failed
-- `assert` spins for ever, `panic` halts, a loop that never ends exhausts every fuel, and after an
-- access through a null pointer nothing is said.
use mathlib.Core.Bool.{Bool, true, false}
use mathlib.Core.Option.{Option, none, some}

pub data Fault : Type 0 where
  assertion panic out_of_fuel null_pointer : Fault

pub data Run {ℓ} (A : Type ℓ) : Type ℓ where
  ok : A → Run A
  fault : Fault → Run A

infixl 5 ◌>>=◌ ◌>>◌
abbrev pub ◌>>=◌ {ℓ κ} : {A : Type ℓ} {B : Type κ} → Run A → (A → Run B) → Run B
ok a >>= f = f a
fault e >>= f = fault e

abbrev pub ◌>>◌ {ℓ} : {B : Type ℓ} → Run (Unit {0}) → Run B → Run B
m >> k = m >>= λ _. k

-- `assert(b)` of include/stdio.h.
abbrev pub assert : Bool → Run (Unit {0})
assert true = ok tt
assert false = fault assertion

-- The answer of a loop on fuel.
abbrev pub finished {ℓ} : {A : Type ℓ} → Option A → Run A
finished none = fault out_of_fuel
finished (some a) = ok a
