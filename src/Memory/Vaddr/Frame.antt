-- ===== src/Memory/Vaddr/Frame.antt =====
-- What the reads and fetches of mayfly_emu/memory/vaddr.c leave alone.
use mayfly_emu.Prelude.{ℕ, ◌≡◌, refl}
use mayfly_emu.Run.{done}
use mayfly_emu.Cpu
use mayfly_emu.Cpu.{Cpu, set_except}
use mayfly_emu.Machine.{Machine, modify_cpu}
use mayfly_emu.Machine.Frame.{Keeps, keeps, view_of_Keeps}
use mayfly_emu.Mmu.{AccessType, ifetch, read, MmuCheck, direct, translate, fail}
use mayfly_emu.Memory.Vaddr.{
  mmu_check, vaddr_mmu_read, ifetch_by, read_by, vaddr_ifetch, vaddr_read,
}
use mayfly_emu.Memory.Paddr.Kept.{kept, pure-Keeps, paddr_read-Keeps, keeps_rules}
use mayfly_emu.Mmu.Kept.{Ends-SameRegs, isa_mmu_check-SameRegs, isa_mmu_translate-Keeps}

mmu_check-Keeps : (addr : ℕ) (type : AccessType) → Keeps kept (mmu_check addr type)
mmu_check-Keeps addr type = keeps λ m. Ends-SameRegs m _ (isa_mmu_check-SameRegs addr type m.cpu)

vaddr_mmu_read-Keeps :
    (addr len : ℕ) (type : AccessType) → Keeps kept (vaddr_mmu_read addr len type)
unfolding vaddr_mmu_read
vaddr_mmu_read-Keeps addr len type = search (keeps_rules, isa_mmu_translate-Keeps)

ifetch_by-Keeps : (answer : MmuCheck) (addr len : ℕ) → Keeps kept (ifetch_by answer addr len)
unfolding ifetch_by
ifetch_by-Keeps direct addr len = paddr_read-Keeps addr len
ifetch_by-Keeps translate addr len = vaddr_mmu_read-Keeps addr len ifetch
ifetch_by-Keeps fail addr len = keeps λ m. tt

read_by-Keeps : (answer : MmuCheck) (addr len : ℕ) → Keeps kept (read_by answer addr len)
unfolding read_by
read_by-Keeps direct addr len = paddr_read-Keeps addr len
read_by-Keeps translate addr len = vaddr_mmu_read-Keeps addr len read
read_by-Keeps fail addr len = pure-Keeps 0

pub vaddr_ifetch-Keeps : (addr len : ℕ) → Keeps kept (vaddr_ifetch addr len)
unfolding vaddr_ifetch
vaddr_ifetch-Keeps addr len = search (keeps_rules, mmu_check-Keeps, ifetch_by-Keeps)

lam-Keeps : (addr : ℕ) → Keeps kept (modify_cpu (set_except Cpu.Ex.lam addr))
unfolding kept
lam-Keeps addr = keeps λ m. refl

pub vaddr_read-Keeps : (addr len : ℕ) → Keeps kept (vaddr_read addr len)
unfolding vaddr_read
vaddr_read-Keeps addr len = search (keeps_rules, lam-Keeps, mmu_check-Keeps, read_by-Keeps)

-- A load that returns, by whatever translation and from whatever device, changes no register, CSR,
-- mode or program counter, nor any byte of RAM or flash.
pub vaddr_read-kept :
    (addr len : ℕ) (m : Machine) (r : ℕ × Machine)
    → vaddr_read addr len m ≡ done r
    → kept r.1 ≡ kept m
vaddr_read-kept addr len m r =
    view_of_Keeps kept (vaddr_read addr len) m r (vaddr_read-Keeps addr len)

-- Nor does a fetch that returns.
pub vaddr_ifetch-kept :
    (addr len : ℕ) (m : Machine) (r : ℕ × Machine)
    → vaddr_ifetch addr len m ≡ done r
    → kept r.1 ≡ kept m
vaddr_ifetch-kept addr len m r =
    view_of_Keeps kept (vaddr_ifetch addr len) m r (vaddr_ifetch-Keeps addr len)
