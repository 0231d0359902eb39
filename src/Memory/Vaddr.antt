-- ===== src/Memory/Vaddr.antt =====
-- Virtual addresses: mayfly_emu/memory/vaddr.c, less what it prints.
pub mod Align
pub mod Frame
use mayfly_emu.Prelude.{ℕ, ◌+◌, ◌-◌, ◌*◌, ◌/◌, ◌%◌, ◌^◌, bit_and, bit_or}
use mayfly_emu.Prelude.{Bool, true, false, not, ◌==◌, if◌then◌else◌}
use mayfly_emu.Cpu
use mayfly_emu.Cpu.{Cpu, set_except}
use mayfly_emu.Run.{done, abort}
use mayfly_emu.Machine.{Machine, M, pure, ◌>>=◌, ◌>>◌, skip, modify_cpu, fail_assert}
use mayfly_emu.Memory.Paddr.{paddr_read, paddr_write}
use mayfly_emu.Mmu.{
  AccessType, ifetch, read, write, MmuCheck, direct, translate, fail, isa_mmu_check,
  isa_mmu_translate, mem_ret_ok,
}

abbrev pub pg_mask : ℕ
pg_mask = 2 ^ 12 - 1

-- `(addr & (len - 1)) != 0`.
abbrev pub misaligned : ℕ → ℕ → Bool
misaligned addr len = not (bit_and addr (len - 1) == 0)

abbrev pub mmu_check : ℕ → AccessType → M MmuCheck
mmu_check addr type m =
    let (answer, c) = isa_mmu_check addr type m.cpu in done (answer, record m { cpu = c })

unfoldable pub vaddr_mmu_read : ℕ → ℕ → AccessType → M ℕ
vaddr_mmu_read addr len type = do
  page_base ← isa_mmu_translate addr type
  if bit_and page_base pg_mask == mem_ret_ok
      then paddr_read (bit_or page_base (bit_and addr pg_mask)) len
      else pure 0

unfoldable pub vaddr_mmu_write : ℕ → ℕ → ℕ → M (Unit {0})
vaddr_mmu_write addr len wdata =
    if misaligned addr len then modify_cpu (set_except Cpu.Ex.sam addr) else do
      page_base ← isa_mmu_translate addr write
      if bit_and page_base pg_mask == mem_ret_ok
          then paddr_write (bit_or page_base (bit_and addr pg_mask)) len wdata
          else skip

-- The switches of `vaddr_ifetch`, `vaddr_read` and `vaddr_write` on the answer of the check.
unfoldable pub ifetch_by : MmuCheck → ℕ → ℕ → M ℕ
ifetch_by direct addr len = paddr_read addr len
ifetch_by translate addr len = vaddr_mmu_read addr len ifetch
ifetch_by fail addr len = fail_assert

unfoldable pub read_by : MmuCheck → ℕ → ℕ → M ℕ
read_by direct addr len = paddr_read addr len
read_by translate addr len = vaddr_mmu_read addr len read
read_by fail addr len = pure 0

unfoldable pub write_by : MmuCheck → ℕ → ℕ → ℕ → M (Unit {0})
write_by direct addr len wdata = paddr_write addr len wdata
write_by translate addr len wdata = vaddr_mmu_write addr len wdata
write_by fail addr len wdata = skip

unfoldable pub vaddr_ifetch : ℕ → ℕ → M ℕ
unfolding ifetch_by
vaddr_ifetch addr len = do answer ← mmu_check addr ifetch; ifetch_by answer addr len

unfoldable pub vaddr_read : ℕ → ℕ → M ℕ
unfolding read_by
vaddr_read addr len =
    if misaligned addr len
    then (do modify_cpu (set_except Cpu.Ex.lam addr); pure 0)
    else do answer ← mmu_check addr read; read_by answer addr len

-- A misaligned store goes on behind the exception.
unfoldable pub vaddr_write : ℕ → ℕ → ℕ → M (Unit {0})
unfolding write_by
vaddr_write addr len wdata = do
  if misaligned addr len then modify_cpu (set_except Cpu.Ex.sam addr) else skip
  answer ← mmu_check addr write
  write_by answer addr len wdata

unfoldable pub paddr_by : MmuCheck → ℕ → AccessType → M ℕ
paddr_by direct addr type = pure addr
paddr_by translate addr type = do
  page_base ← isa_mmu_translate addr type
  pure (bit_or page_base (bit_and addr pg_mask))
paddr_by fail addr type = pure 0

unfoldable pub vaddr_to_paddr : ℕ → AccessType → M ℕ
unfolding paddr_by
vaddr_to_paddr addr type = do answer ← mmu_check addr type; paddr_by answer addr type
