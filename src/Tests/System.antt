-- ===== src/Tests/System.antt =====
-- Traps, interrupts and the control and status registers.
use mayfly_emu.Prelude.{◌+◌, ◌^◌, ◌≡◌, refl, arith, false, true, bit_and}
use mayfly_emu.Cpu.{Cpu, set_csr}
use mayfly_emu.Csr.{csr_read, csr_write}
use mayfly_emu.Csr.Laws.{SameHart, csr_write-raises, csr_write_satp}
use mayfly_emu.Intr.{priority, isa_query_intr, raise_intr, intr_deleg_S}
use mayfly_emu.Intr.Return.{mret, sret}
use mayfly_emu.Intr.Trap.{Resumed, mret-raise_intr, sret-raise_intr}
use mayfly_emu.Intr.Query.{IsChoice, isa_query_intr-IsChoice}
use mayfly_emu.Difftest.{isa_difftest_checkregs}
use mayfly_emu.Difftest.Agrees.{SameState, isa_difftest_checkregs-SameState}
use mayfly_emu.Prelude.{◌↔◌}
use mayfly_emu.Tests.Base.{hart, user_hart}

-- The machine timer pending and enabled, in U.
abbrev timer_hart : Cpu
timer_hart = set_csr 5 0x80 (set_csr 4 0x80 user_hart)

isa_query_intr-IsChoice_example : IsChoice timer_hart priority (isa_query_intr timer_hart)
isa_query_intr-IsChoice_example = isa_query_intr-IsChoice timer_hart

isa_query_intr-timer : isa_query_intr timer_hart ≡ 2 ^ 63 + 7
unfolding isa_query_intr
isa_query_intr-timer = refl

not-delegated : intr_deleg_S 8 user_hart ≡ false
unfolding intr_deleg_S
not-delegated = refl

mret-raise_intr_example :
    Resumed 3 0x80001000 user_hart (mret (raise_intr 8 0x80001000 user_hart).1)
mret-raise_intr_example = mret-raise_intr 8 0x80001000 user_hart (omega arith) not-delegated

-- Page faults of loads delegated to S.
abbrev deleg_hart : Cpu
deleg_hart = set_csr 2 0x2000 user_hart

delegated : intr_deleg_S 13 deleg_hart ≡ true
unfolding intr_deleg_S
delegated = refl

sret-raise_intr_example :
    Resumed 1 0x80001000 deleg_hart (sret (raise_intr 13 0x80001000 deleg_hart).1)
sret-raise_intr_example = sret-raise_intr 13 0x80001000 deleg_hart (omega arith) delegated

csr_write-raises_example :
    SameHart user_hart (csr_write 0x300 5 user_hart)
    × ((csr_write 0x300 5 user_hart).is_except ≡ (csr_read 0x300 user_hart).1.is_except)
csr_write-raises_example = csr_write-raises 0x300 5 user_hart

csr_write_satp_example :
    (bit_and ((csr_write 0x180 0x8000000000080000 hart).csr 16) 0xf0000fffffffffff
      ≡ bit_and 0x8000000000080000 0xf0000fffffffffff)
    × (bit_and ((csr_write 0x180 0x8000000000080000 hart).csr 16) 0x0ffff00000000000
        ≡ bit_and (hart.csr 0) 0x0ffff00000000000)
csr_write_satp_example = csr_write_satp 0x8000000000080000 hart (omega arith)

-- A reference that differs from the hart in `mip` and `mie`.
isa_difftest_checkregs-SameState_example :
    (isa_difftest_checkregs timer_hart 0x80000000 user_hart ≡ true)
    ↔ SameState 0x80000000 timer_hart user_hart
isa_difftest_checkregs-SameState_example =
    isa_difftest_checkregs-SameState timer_hart 0x80000000 user_hart

enable-compared : isa_difftest_checkregs timer_hart 0x80000000 user_hart ≡ false
unfolding isa_difftest_checkregs
enable-compared = refl
