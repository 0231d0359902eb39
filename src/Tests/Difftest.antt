-- ===== src/Tests/Difftest.antt =====
-- The difference test, with the emulator as its own reference.
use mayfly_emu.Prelude.{ℕ, ◌<◌, ◌≡◌, refl, arith, false, ◌==◌, if◌then◌else◌, none}
use mayfly_emu.Run.{Run, done, abort, fault}
use mayfly_emu.Cpu.{Cpu}
use mayfly_emu.Machine.{Machine}
use mayfly_emu.Memory.Vaddr.{vaddr_ifetch}
use mayfly_emu.Memory.Paddr.{paddr_read}
use mayfly_emu.Memory.Host.{host_read}
use mayfly_emu.Mmu.{isa_mmu_check}
use mayfly_emu.Inst.Pattern.{pattern_decode}
use mayfly_emu.Inst.Exec.{Decode}
use mayfly_emu.Emulator.{Input, cpu_exec}
use mayfly_emu.Difftest.Agrees.{SameState}
use mayfly_emu.Difftest.Step.{Reference, difftest_step, init_difftest, emulator}
use mayfly_emu.Difftest.Step.Synced.{aborted, difftest_step-SameState}
use mayfly_emu.Difftest.Step.Image.{init_difftest-SameState}
use mayfly_emu.Tests.Base.{hart, user_hart, machine}

abbrev no_input : ℕ → Input
no_input i = record { rx = none; key = none }

abbrev scratch : Decode
scratch = record { pc = 0; snpc = 0; dnpc = 0; isa = 0 }

-- The machine with `addi x0, x0, 0` at the reset address, and behind that instruction.
abbrev with_nop : Machine
with_nop = record machine { pmem = λ i. if i == 0 then 0x13 else 0 }

abbrev machine_of : Run (Unit {0} × Machine) → Machine
machine_of (done r) = r.1
machine_of abort = machine
machine_of fault = machine

abbrev behind : Machine
behind = machine_of (cpu_exec 1 no_input scratch with_nop)

one_step : cpu_exec 1 no_input scratch with_nop ≡ done (tt, behind)
unfolding cpu_exec vaddr_ifetch isa_mmu_check paddr_read host_read pattern_decode
one_step = refl

-- A reference that does nothing and always shows a hart in U.
abbrev idle : Reference Cpu
idle = record {
  memcpy = λ addr buf s. done s;
  regcpy_to_ref = λ dut s. s;
  regcpy_to_dut = λ s dut. s;
  exec = λ n s. done s;
  init = λ s. s;
}

difftest_step-SameState_example :
    (SameState machine.cpu.pc user_hart machine.cpu
      → difftest_step idle hart 0x80000000 false false machine user_hart
        ≡ done (machine, user_hart))
    × (¬ SameState machine.cpu.pc user_hart machine.cpu
        → difftest_step idle hart 0x80000000 false false machine user_hart
          ≡ done (aborted 0x80000000 machine, user_hart))
difftest_step-SameState_example =
    difftest_step-SameState idle hart 0x80000000 machine user_hart user_hart refl refl

init_difftest-SameState_example :
    (r' : Machine) × (init_difftest (emulator no_input scratch) 4096 machine with_nop ≡ done r')
    × ((i : ℕ) → i < 4096 → r'.pmem i ≡ machine.pmem i)
    × SameState machine.cpu.pc r'.cpu machine.cpu
init_difftest-SameState_example =
    init_difftest-SameState no_input scratch 4096 machine with_nop (omega arith) (λ i. omega arith)
      refl
