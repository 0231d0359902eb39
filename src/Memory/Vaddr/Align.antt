-- ===== src/Memory/Vaddr/Align.antt =====
-- Aligned and misaligned accesses, where translation is off, in mayfly_emu/memory/vaddr.c.
use mayfly_emu.Prelude.{ℕ, ◌-◌, ◌%◌, ◌^◌, ◌≡◌, ◌⊎◌, inl, inr, refl, arith, bit_and}
use mayfly_emu.Prelude.{Bool, true, false, not, ◌||◌, ◌==◌}
use mayfly_emu.Word.{◌>>>◌, bitmask, bit_and-mask}
use mayfly_emu.Cpu
use mayfly_emu.Cpu.{Cpu, set_except}
use mayfly_emu.Run.{done}
use mayfly_emu.Machine.{Machine}
use mayfly_emu.Memory.Paddr.{in_pmem}
use mayfly_emu.Memory.Host.{is_len}
use mayfly_emu.Memory.Paddr.Ram.{
  IsRam, aligned-IsRam, ram_written, paddr_write-ram, paddr_read-paddr_write,
}
use mayfly_emu.Mmu.{AccessType, read, write, direct, isa_mmu_check, vm_enable}
use mayfly_emu.Memory.Vaddr.{misaligned, vaddr_read, vaddr_write}

or_on : (a b : Bool) → (a || b || not false) ≡ true
or_on true b = refl
or_on false true = refl
or_on false false = refl

-- Where translation is off, every address is accessed directly.
pub isa_mmu_check-direct :
    (vaddr : ℕ) (type : AccessType) (c : Cpu)
    → vm_enable type c ≡ false
    → isa_mmu_check vaddr type c ≡ (direct, c)
unfolding isa_mmu_check
isa_mmu_check-direct vaddr type c v =
    rw (v, or_on (vaddr >>> 38 == bitmask 26) (vaddr >>> 38 == 0)) refl

-- The machine with the exception.
abbrev pub raise : ℕ → ℕ → Machine → Machine
raise cause tval m = record m { cpu = set_except cause tval m.cpu }

len-cases : (len : ℕ) → is_len len ≡ true → (len ≡ 1) ⊎ ((len ≡ 2) ⊎ ((len ≡ 4) ⊎ (len ≡ 8)))
len-cases len h = ground arith

-- The code's test of alignment is divisibility by the width.
aligned_lem : (k addr len : ℕ) → len ≡ 2 ^ k → misaligned addr len ≡ false → addr % len ≡ 0
aligned_lem k addr len e a =
    let low : bit_and addr (len - 1) ≡ addr % len = rw e (bit_and-mask k addr) in
    ground (arith, low)

aligned : (addr len : ℕ) → is_len len ≡ true → misaligned addr len ≡ false → addr % len ≡ 0
aligned addr len w a = elim (len-cases len w) [
  | inl e ↦ aligned_lem 0 addr len e a
  | inr (inl e) ↦ aligned_lem 1 addr len e a
  | inr (inr (inl e)) ↦ aligned_lem 2 addr len e a
  | inr (inr (inr e)) ↦ aligned_lem 3 addr len e a
]

-- Where translation is off, a naturally aligned store to RAM succeeds, raises nothing, changes RAM
-- only, and the load behind it gives the value cut to the width.
pub vaddr_read-vaddr_write :
    (addr len wdata : ℕ) (m : Machine)
    → is_len len ≡ true
    → misaligned addr len ≡ false
    → in_pmem addr ≡ true
    → vm_enable read m.cpu ≡ false
    → vm_enable write m.cpu ≡ false
    → (let m' = ram_written addr len wdata m in
        (vaddr_write addr len wdata m ≡ done (tt, m'))
        × (vaddr_read addr len m' ≡ done (wdata % 256 ^ len, m')))
unfolding vaddr_read vaddr_write
vaddr_read-vaddr_write addr len wdata m w a i r v =
    let ram = aligned-IsRam addr len w (aligned addr len w a) i in
    let both = paddr_read-paddr_write addr len wdata m ram in
    (
      rw (a, isa_mmu_check-direct addr write m.cpu v) (both.0),
      rw (a, isa_mmu_check-direct addr read m.cpu r) (both.1),
    )

-- Where translation is off, a misaligned store to RAM raises the exception and performs the store
-- all the same.
pub vaddr_write-misaligned :
    (addr len wdata : ℕ) (m : Machine)
    → misaligned addr len ≡ true
    → IsRam addr len
    → vm_enable write m.cpu ≡ false
    → vaddr_write addr len wdata m ≡ done (tt, ram_written addr len wdata (raise Cpu.Ex.sam addr m))
unfolding vaddr_write
vaddr_write-misaligned addr len wdata m a r v =
    rw (a, isa_mmu_check-direct addr write (set_except Cpu.Ex.sam addr m.cpu) v)
      (paddr_write-ram wdata (raise Cpu.Ex.sam addr m) r)
