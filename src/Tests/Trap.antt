-- ===== src/Tests/Trap.antt =====
-- An environment call by U as a step of the run.
use mayfly_emu.Prelude.{◌≡◌, refl, true, none}
use mayfly_emu.Run.{Run, done, abort, fault}
use mayfly_emu.Machine.{Machine}
use mayfly_emu.Memory.Host.{host_read, store_bytes}
use mayfly_emu.Memory.Paddr.{paddr_read}
use mayfly_emu.Memory.Vaddr.{vaddr_ifetch}
use mayfly_emu.Mmu.{isa_mmu_check}
use mayfly_emu.Inst.Pattern.{pattern_decode}
use mayfly_emu.Inst.Exec.{Decode, isa_exec_once}
use mayfly_emu.Emulator.{Input, exec_once}
use mayfly_emu.Emulator.Trapped.{cause_of, Trapped, exec_once-Trapped}
use mayfly_emu.Tests.Base.{user_hart, machine}

-- `ecall` at the reset address.
abbrev calling : Machine
calling = record machine { cpu = user_hart; pmem = store_bytes 4 0x73 (λ _. 0) 0 }

abbrev decode : Decode
decode = record { pc = 0x80000000; snpc = 0x80000000; dnpc = 0; isa = 0 }

abbrev quiet : Input
quiet = record { rx = none; key = none }

abbrev outcome_of : Run (Decode × Machine) → Decode × Machine
outcome_of (done r) = r
outcome_of abort = (decode, machine)
outcome_of fault = (decode, machine)

abbrev called : Decode × Machine
called = outcome_of (isa_exec_once decode calling)

abbrev stepped : Decode × Machine
stepped = outcome_of (exec_once quiet decode calling)

calls : isa_exec_once decode calling ≡ done called
unfolding isa_exec_once vaddr_ifetch isa_mmu_check paddr_read host_read pattern_decode store_bytes
calls = refl

raises : called.1.cpu.is_except ≡ true
unfolding isa_exec_once vaddr_ifetch isa_mmu_check paddr_read host_read pattern_decode store_bytes
raises = refl

steps : exec_once quiet decode calling ≡ done stepped
unfolding exec_once vaddr_ifetch isa_mmu_check paddr_read host_read pattern_decode store_bytes
steps = refl

exec_once-Trapped_example :
    Trapped (record (cause_of called.1.cpu) { pre_pc = 0x80000000 }) stepped.1.cpu
exec_once-Trapped_example = exec_once-Trapped quiet decode calling called stepped calls raises steps
