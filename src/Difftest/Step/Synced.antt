-- ===== src/Difftest/Step/Synced.antt =====
-- A step of the difference test of mayfly_emu/cpu/difftest.c.
use mayfly_emu.Prelude.{ℕ, ◌≡◌, ◌↔◌, refl, ap, inl, inr, arith, Bool-cases}
use mayfly_emu.Prelude.{true, false}
use mayfly_emu.Run.{done}
use mayfly_emu.Cpu.{Cpu}
use mayfly_emu.Machine.{Machine, abort_status}
use mayfly_emu.Inst.Exec.{Decode}
use mayfly_emu.Emulator.{Input, cpu_exec}
use mayfly_emu.Difftest.{isa_difftest_checkregs}
use mayfly_emu.Difftest.Agrees.{SameState, isa_difftest_checkregs-SameState}
use mayfly_emu.Difftest.Step.{
  Reference, checkregs, difftest_step, difftest_regcpy, difftest_exec, emulator,
}

-- Aborted at `pc`.
abbrev pub aborted : ℕ → Machine → Machine
aborted pc m = record m { emu = record (m.emu) { state = abort_status; halt_pc = pc } }

checkregs-same :
    (r : Cpu) (pc : ℕ) (m : Machine) → SameState m.cpu.pc r m.cpu → checkregs r pc m ≡ m
unfolding checkregs
checkregs-same r pc m h = rw ((isa_difftest_checkregs-SameState r m.cpu.pc m.cpu).1 h) refl

checkregs-different :
    (r : Cpu) (pc : ℕ) (m : Machine)
    → ¬ SameState m.cpu.pc r m.cpu
    → checkregs r pc m ≡ aborted pc m
unfolding checkregs
checkregs-different r pc m h = elim (Bool-cases (isa_difftest_checkregs r m.cpu.pc m.cpu)) [
  | inl t ↦ absurd (h ((isa_difftest_checkregs-SameState r m.cpu.pc m.cpu).0 t))
  | inr f ↦ rw f refl
]

-- An instruction that is neither skipped nor interrupted is executed by the reference too. The
-- emulator stays as it is if the reference then has the same program counter, mode and registers,
-- less `mip` and the scratch registers; if not, it is aborted at the instruction.
pub difftest_step-SameState :
    {S : Type 0} (ref : Reference S) (ref_r : Cpu) (pc : ℕ) (m : Machine) (s s' : S)
    → m.cpu.is_diff_skip ≡ false
    → ref.exec 1 s ≡ done s'
    → (SameState m.cpu.pc (ref.regcpy_to_dut s' ref_r) m.cpu
        → difftest_step ref ref_r pc false false m s ≡ done (m, s'))
      × (¬ SameState m.cpu.pc (ref.regcpy_to_dut s' ref_r) m.cpu
          → difftest_step ref ref_r pc false false m s ≡ done (aborted pc m, s'))
unfolding difftest_step
difftest_step-SameState ref ref_r pc m s s' skip e =
    let r = ref.regcpy_to_dut s' ref_r in
    (
      λ h. simp (skip, e) (ap (λ (x : Machine). done (x, s')) (checkregs-same r pc m h)),
      λ h. simp (skip, e) (ap (λ (x : Machine). done (x, s')) (checkregs-different r pc m h)),
    )

-- A copy of the registers to this emulator as the reference, as behind an instruction that is
-- skipped, makes the comparison succeed exactly if the two were in the same mode before: the mode
-- is not copied, and all else that is compared is.
pub difftest_regcpy-SameState :
    (dut c : Cpu) → SameState dut.pc (difftest_regcpy true dut c).1 dut ↔ (c.mode ≡ dut.mode)
unfolding difftest_regcpy
difftest_regcpy-SameState dut c = (
  λ h. h.mode,
  λ e. record { pc = refl; mode = e; gpr = λ j a b. refl; csr = λ j a b n4 n6 n12. ground arith },
)

-- The copy back from this emulator as the reference has all that is compared.
copied-SameState : (c r : Cpu) → SameState c.pc (difftest_regcpy false r c).0 c
unfolding difftest_regcpy
copied-SameState c r = record {
  pc = refl;
  mode = refl;
  gpr = λ j a b. refl;
  csr = λ j a b n4 n6 n12. refl;
}

-- The emulator tested against itself never differs: where the reference starts a step from the
-- same machine and finds the same outside, the test leaves the machine behind the step as it is, and
-- the reference is in the same state.
pub difftest_step_self :
    (inputs : ℕ → Input) (s : Decode) (ref_r : Cpu) (pc : ℕ) (m m' : Machine)
    → cpu_exec 1 inputs s m ≡ done (tt, m')
    → m'.cpu.is_diff_skip ≡ false
    → difftest_step (emulator inputs s) ref_r pc false false m' m ≡ done (m', m')
unfolding difftest_exec
difftest_step_self inputs s ref_r pc m m' e skip =
    (difftest_step-SameState (emulator inputs s) ref_r pc m' m m' skip (rw e refl)).0
      (copied-SameState m'.cpu ref_r)
