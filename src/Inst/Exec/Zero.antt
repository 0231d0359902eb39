-- ===== src/Inst/Exec/Zero.antt =====
-- What every instruction leaves behind: the register `x0` of mayfly_emu/cpu/inst.c.
use mathlib.Core.Path.{subst}
use mayfly_emu.Prelude.{◌≡◌, refl}
use mayfly_emu.Run.{Run, done, abort, fault, and_then}
use mayfly_emu.Machine.{Machine, M, pure, ◌>>=◌, ◌>>◌}
use mayfly_emu.Inst.Exec.{Decode, decode_exec, reset_zero}

-- The register reads as zero behind an outcome that returns.
abbrev ZeroEnds : {A : Type 0} → Run (A × Machine) → Type 0
ZeroEnds (done r) = r.1.cpu.gpr 0 ≡ 0
ZeroEnds abort = Unit {0}
ZeroEnds fault = Unit {0}

data Zeroes {A : Type 0} (x : M A) : Type 0 where
  zeroes : ((m : Machine) → ZeroEnds (x m)) → Zeroes x

ZeroEnds-of : {A : Type 0} {x : M A} → Zeroes x → (m : Machine) → ZeroEnds (x m)
ZeroEnds-of (zeroes h) = h

ZeroEnds-and_then :
    {A B : Type 0} (x : Run (A × Machine)) (k : A → M B)
    → ((a : A) → Zeroes (k a))
    → ZeroEnds (and_then x λ r. k r.0 r.1)
ZeroEnds-and_then (done r) k h = ZeroEnds-of (h r.0) r.1
ZeroEnds-and_then abort k h = tt
ZeroEnds-and_then fault k h = tt

Zeroes-bind : {A B : Type 0} (x : M A) (k : A → M B) → ((a : A) → Zeroes (k a)) → Zeroes (x >>= k)
Zeroes-bind x k h = zeroes λ m. ZeroEnds-and_then (x m) k h

reset-Zeroes : (s : Decode) → Zeroes (reset_zero >> pure s)
reset-Zeroes s = zeroes λ m. refl

decode_exec-Zeroes : (s : Decode) → Zeroes (decode_exec s)
unfolding decode_exec
decode_exec-Zeroes s = search (Zeroes-bind, reset-Zeroes)

-- An instruction that returns, whatever its encoding, leaves 0 in the register x0.
pub decode_exec-zero :
    (s : Decode) (m : Machine) (r : Decode × Machine) → decode_exec s m ≡ done r → r.1.cpu.gpr 0 ≡ 0
decode_exec-zero s m r q =
    subst (λ (o : Run (Decode × Machine)). ZeroEnds o) q (ZeroEnds-of (decode_exec-Zeroes s) m)
