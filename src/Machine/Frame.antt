-- ===== src/Machine/Frame.antt =====
-- What an operation leaves alone: an observation that has the same value behind every run that
-- returns, with rules for the parts of an operation.
use mathlib.Core.Path.{subst}
use mayfly_emu.Prelude.{Bool, true, false, ◌≡◌, refl, if◌then◌else◌}
use mayfly_emu.Run.{Run, done, abort, fault, and_then}
use mayfly_emu.Machine.{Machine, M, ◌>>=◌, lift}

module _ {V : Type 0} (view : Machine → V) where
  -- The outcome, if there is one, has the view `v`.
  abbrev pub Ends : {A : Type 0} → V → Run (A × Machine) → Type 0
  Ends v (done r) = view r.1 ≡ v
  Ends v abort = Unit {0}
  Ends v fault = Unit {0}

  -- The operation keeps the view.
  pub data Keeps {A : Type 0} (x : M A) : Type 0 where
    keeps : ((m : Machine) → Ends (view m) (x m)) → Keeps x

  pub Ends-of : {A : Type 0} {x : M A} → Keeps x → (m : Machine) → Ends (view m) (x m)
  Ends-of (keeps h) = h

  pub Ends-and_then :
      {A B : Type 0} (x : Run (A × Machine)) (k : A → M B) (v : V)
      → Ends v x
      → ((a : A) → Keeps (k a))
      → Ends v (and_then x λ r. k r.0 r.1)
  Ends-and_then (done r) k v h hk = subst (λ u. Ends u (k r.0 r.1)) h (Ends-of (hk r.0) r.1)
  Ends-and_then abort k v h hk = tt
  Ends-and_then fault k v h hk = tt

  pub Keeps-bind :
      {A B : Type 0} {x : M A} (k : A → M B) → Keeps x → ((a : A) → Keeps (k a)) → Keeps (x >>= k)
  Keeps-bind {x = x} k hx hk = keeps λ m. Ends-and_then (x m) k (view m) (Ends-of hx m) hk

  pub Keeps-if :
      {A : Type 0} (b : Bool) {x y : M A} → Keeps x → Keeps y → Keeps (if b then x else y)
  Keeps-if true hx hy = hx
  Keeps-if false hx hy = hy

  Ends-lift : {A : Type 0} (x : Run A) (m : Machine) → Ends (view m) (and_then x λ a. done (a, m))
  Ends-lift (done a) m = refl
  Ends-lift abort m = tt
  Ends-lift fault m = tt

  pub Keeps-lift : {A : Type 0} (x : Run A) → Keeps (lift x)
  Keeps-lift x = keeps (Ends-lift x)

  pub view_of_Keeps :
      {A : Type 0} (x : M A) (m : Machine) (r : A × Machine)
      → Keeps x
      → x m ≡ done r
      → view r.1 ≡ view m
  view_of_Keeps {A} x m r h q = subst (λ (o : Run (A × Machine)). Ends (view m) o) q (Ends-of h m)
