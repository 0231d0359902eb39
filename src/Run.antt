-- ===== src/Run.antt =====
-- The outcome of code that may not return: `abort` is a failed `assert`, which ends the emulator,
-- and `fault` is what C leaves undefined, such as an access outside of an array.
pub mod Yields
use mayfly_emu.Prelude.{Bool, true, false}

pub data Run {ℓ} (A : Type ℓ) : Type ℓ where
  done : A → Run A
  abort : Run A
  fault : Run A

module _ {ℓ κ} {A : Type ℓ} {B : Type κ} where
  abbrev pub and_then : Run A → (A → Run B) → Run B
  and_then (done a) k = k a
  and_then abort k = abort
  and_then fault k = fault

-- `assert(b)` before `k`.
abbrev pub assert {ℓ} : {A : Type ℓ} → Bool → Run A → Run A
assert true k = k
assert false k = abort

-- An access that is defined only if `b` holds.
abbrev pub require {ℓ} : {A : Type ℓ} → Bool → Run A → Run A
require true k = k
require false k = fault
