-- ===== src/Run/Yields.antt =====
-- What an outcome satisfies if the code returns, with rules for the parts of the code.
use mayfly_emu.Prelude.{Bool, true, false, if◌then◌else◌, ◌≡◌, refl}
use mayfly_emu.Run.{Run, done, abort, fault, and_then, assert, require}

-- A result, if there is one, has the property.
abbrev pub Returns : {A : Type 0} → (A → Type 0) → Run A → Type 0
Returns Good (done a) = Good a
Returns Good abort = Unit {0}
Returns Good fault = Unit {0}

pub data Yields {A : Type 0} (Good : A → Type 0) (x : Run A) : Type 0 where
  yields : Returns Good x → Yields Good x

module _ {A : Type 0} {Good : A → Type 0} where
  pub Returns-of : {x : Run A} → Yields Good x → Returns Good x
  Returns-of (yields h) = h

  pub done-Yields : (a : A) → Good a → Yields Good (done a)
  done-Yields a h = yields h

  pub if-Yields :
      (b : Bool) {x y : Run A} → Yields Good x → Yields Good y → Yields Good (if b then x else y)
  if-Yields true h k = h
  if-Yields false h k = k

  pub split-Yields :
      (b : Bool) {x y : Run A}
      → (b ≡ true → Yields Good x)
      → (b ≡ false → Yields Good y)
      → Yields Good (if b then x else y)
  split-Yields true h k = h refl
  split-Yields false h k = k refl

  pub require-Yields : (b : Bool) {x : Run A} → Yields Good x → Yields Good (require b x)
  require-Yields true h = h
  require-Yields false h = yields tt

  pub assert-Yields : (b : Bool) {x : Run A} → Yields Good x → Yields Good (assert b x)
  assert-Yields true h = h
  assert-Yields false h = yields tt

  pub then-Yields :
      {B : Type 0} {Fine : B → Type 0} (x : Run A) (k : A → Run B)
      → Yields Good x
      → ((a : A) → Good a → Yields Fine (k a))
      → Yields Fine (and_then x k)
  then-Yields (done a) k (yields h) hk = hk a h
  then-Yields abort k h hk = yields tt
  then-Yields fault k h hk = yields tt
