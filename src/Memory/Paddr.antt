-- ===== src/Memory/Paddr.antt =====
-- Physical addresses: `in_pmem`, `paddr_read` and `paddr_write` of mayfly_emu/memory/paddr.c with
-- the map of the devices of mayfly_emu/device/device.h. `pmem` is indexed from `CONFIG_MBASE`.
pub mod Ram
pub mod Map
pub mod Kept
use mayfly_emu.Prelude.{ℕ, ◌+◌, ◌-◌, ◌%◌, ◌^◌, Bool, true, ◌&&◌, ltb, leb, if◌then◌else◌}
use mayfly_emu.Run.{done, and_then}
use mayfly_emu.Machine.{Machine, M, ◌>>=◌, ◌>>◌, modify_cpu, lift, set_status, abort_status}
use mayfly_emu.Memory.Host.{host_read, host_write}
use mayfly_emu.Device.Aclint.{aclint_read, aclint_write}
use mayfly_emu.Device.Plic.{plic_read, plic_write}
use mayfly_emu.Device.Serial.{serail_read, serail_write}
use mayfly_emu.Device.Flash.{flash_read, flash_write}

abbrev pub mbase : ℕ
mbase = 0x80000000

abbrev pub msize : ℕ
msize = 0x8000000

abbrev pub in_pmem : ℕ → Bool
in_pmem addr = leb mbase addr && ltb addr (mbase + msize)

unfoldable pub pmem_read : ℕ → ℕ → M ℕ
pmem_read addr len m = lift (host_read msize m.pmem (addr - mbase) len) m

unfoldable pub pmem_write : ℕ → ℕ → ℕ → M (Unit {0})
pmem_write addr len data' m =
    and_then (host_write msize m.pmem (addr - mbase) len data')
      λ mem. done (tt, record m { pmem = mem })

-- The regions behind `pmem`, in the order of the tests.
pub data Region : Type 0 where
  uart clint plic_region flash gpio unmapped : Region

abbrev pub uart_addr : ℕ
uart_addr = 0x10000000

abbrev pub clint_addr : ℕ
clint_addr = 0x2000000

abbrev pub plic_addr : ℕ
plic_addr = 0xc000000

abbrev pub flash_addr : ℕ
flash_addr = 0x30000000

abbrev pub gpio_addr : ℕ
gpio_addr = 0x40000000

abbrev pub region : ℕ → Region
region addr =
    if leb uart_addr addr && leb addr (uart_addr + 0xffff)
    then uart
    else if leb clint_addr addr && leb addr (clint_addr + 0xffff)
    then clint
    else if leb plic_addr addr && leb addr (plic_addr + 0x300000)
    then plic_region
    else if leb flash_addr addr && leb addr (flash_addr + 0xfffffff)
    then flash
    else if leb gpio_addr addr && leb addr (gpio_addr + 0xffffff)
    then gpio
    else unmapped

-- `out_of_bound`, less what it prints.
abbrev pub out_of_bound : Machine → Machine
out_of_bound = set_status abort_status

unfoldable pub region_read : Region → ℕ → ℕ → M ℕ
region_read uart addr len m =
    let (ret, serial) = serail_read (addr - uart_addr) m.serial in
    done (ret, record m { serial = serial })
region_read clint addr len m = done (aclint_read (addr - clint_addr) m.aclint m.cpu, m)
region_read plic_region addr len m = lift (plic_read (addr - plic_addr) m.plic) m
region_read flash addr len m = lift (flash_read (addr - flash_addr) len m.flash_mem) m
region_read gpio addr len m = done (0, m)
region_read unmapped addr len m = done (0, out_of_bound m)

unfoldable pub region_write : Region → ℕ → ℕ → ℕ → M (Unit {0})
region_write uart addr len wdata m =
    done (tt, record m { serial = serail_write (addr - uart_addr) wdata m.serial })
region_write clint addr len wdata m =
    and_then (aclint_write (addr - clint_addr) len wdata m.aclint m.cpu)
      λ r. done (tt, record m { aclint = r.0; cpu = r.1 })
region_write plic_region addr len wdata m =
    and_then (plic_write (addr - plic_addr) len (wdata % 2 ^ 32) m.plic)
      λ p. done (tt, record m { plic = p })
region_write flash addr len wdata m =
    and_then (flash_write (addr - flash_addr) len (wdata % 2 ^ 32) m.flash_mem)
      λ f. done (tt, record m { flash_mem = f })
region_write gpio addr len wdata m = done (tt, m)
region_write unmapped addr len wdata m = done (tt, out_of_bound m)

unfoldable pub paddr_read : ℕ → ℕ → M ℕ
unfolding pmem_read region_read
paddr_read addr len =
    if in_pmem addr
    then pmem_read addr len
    else do modify_cpu (λ c. record c { is_mmio = true }); region_read (region addr) addr len

unfoldable pub paddr_write : ℕ → ℕ → ℕ → M (Unit {0})
unfolding pmem_write region_write
paddr_write addr len wdata =
    if in_pmem addr
    then pmem_write addr len wdata
    else do modify_cpu (λ c. record c { is_mmio = true }); region_write (region addr) addr len wdata
