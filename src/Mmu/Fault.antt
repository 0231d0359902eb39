-- ===== src/Mmu/Fault.antt =====
-- The faults of `isa_mmu_translate` of mayfly_emu/system/mmu.c behind the page walk.
use mayfly_emu.Prelude.{ℕ}
use mayfly_emu.Cpu.{Cpu, set_except}
use mayfly_emu.Machine.{Machine}
use mayfly_emu.Mmu.{AccessType, page_fault}

-- The machine with the page fault of an access.
abbrev pub faulted : ℕ → AccessType → Machine → Machine
faulted vaddr type m = record m { cpu = set_except (page_fault type m.cpu) vaddr m.cpu }
