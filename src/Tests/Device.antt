-- ===== src/Tests/Device.antt =====
-- The devices and the run loop.
use mayfly_emu.Prelude.{
  false, ℕ, ◌+◌, ◌/◌, ◌≡◌, ◌≤◌, ◌↔◌, ◌⊎◌, refl, arith, true, ltb, if◌then◌else◌, none,
}
use mayfly_emu.Word.{field}
use mayfly_emu.Cpu.{set_mip}
use mayfly_emu.Run.{done, fault}
use mayfly_emu.Machine.{end, set_status}
use mayfly_emu.Device.Aclint.{Aclint}
use mayfly_emu.Device.Aclint.Timer.{updates, updates-timer}
use mayfly_emu.Device.Plic.{Plic, Best, plic_update}
use mayfly_emu.Device.Plic.Claim.{IsBest, pend, requested, plic_update-IsBest}
use mayfly_emu.Inst.Exec.{Decode}
use mayfly_emu.Emulator.{Input, cpu_exec}
use mayfly_emu.Emulator.Control.{Halted, cpu_exec-Halted}
use mayfly_emu.Tests.Base.{hart, machine}

abbrev timer : Aclint
timer = record { mtimecmp = 3; mtime = 0; time_count = 0 }

updates-timer_example :
    ((updates 51 timer hart).0.mtime ≡ 0 + (51 + 24) / 25)
    × ((field 7 1 ((updates 51 timer hart).1.csr 4) ≡ 1) ↔ (3 ≤ 0 + (51 + 24) / 25))
updates-timer_example = updates-timer 50 timer hart refl (omega arith) (omega arith)

-- Two sources of different priorities.
abbrev plic : Plic
plic = record {
  source_priority = λ i. i;
  source_pending = 0x4;
  target_enables = 0x6;
  target_threshold = 1;
  target_claim = 0;
}

plic_update-IsBest_example :
    ((requested (pend 0x2 plic) 31 ≡ false)
      × (best : Best) × IsBest (pend 0x2 plic) 32 best
      × (plic_update 0x2 plic hart
          ≡ done (
            record (pend 0x2 plic) { target_claim = best.id },
            set_mip 9 (if ltb 1 best.priority then 1 else 0) hart,
          )))
    ⊎ ((requested (pend 0x2 plic) 31 ≡ true) × (plic_update 0x2 plic hart ≡ fault))
plic_update-IsBest_example = plic_update-IsBest 0x2 plic hart

abbrev idle : ℕ → Input
idle _ = record { rx = none; key = none }

abbrev fresh : Decode
fresh = record { pc = 0; snpc = 0; dnpc = 0; isa = 0 }

ended : cpu_exec 5 idle fresh (set_status end machine) ≡ done (tt, set_status end machine)
unfolding cpu_exec
ended = refl

cpu_exec-Halted_example : Halted end
cpu_exec-Halted_example =
    cpu_exec-Halted 5 idle fresh (set_status end machine) (tt, set_status end machine) ended
