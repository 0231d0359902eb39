-- ===== src/Inst/Exec/Reserve.antt =====
-- `lr` and `sc` of mayfly_emu/cpu/inst.c.
use mayfly_emu.Prelude.{ℕ, ◌-◌, ◌^◌, ◌<◌, ◌≡◌, inl, inr, refl, arith}
use mayfly_emu.Prelude.{true, false, ◌&&◌, ◌==◌, if◌then◌else◌, Bool-cases}
use mayfly_emu.Cpu
use mayfly_emu.Cpu.{Cpu, set_gpr, set_except}
use mayfly_emu.Run.{done}
use mayfly_emu.Machine.{Machine}
use mayfly_emu.Memory.Host.{load_bytes, store_bytes}
use mayfly_emu.Memory.Paddr.{mbase, out_of_bound}
use mayfly_emu.Memory.Paddr.Map.{at_device, paddr-unmapped}
use mayfly_emu.Memory.Paddr.Ram.{IsRam, paddr_read-ram, paddr_write-ram}
use mayfly_emu.Memory.Vaddr.{vaddr_to_paddr}
use mayfly_emu.Memory.Vaddr.Align.{isa_mmu_check-direct}
use mayfly_emu.Mmu
use mayfly_emu.Mmu.{vm_enable, isa_mmu_check}
use mayfly_emu.Mmu.Check.{IsCanonical, isa_mmu_check-fail}
use mayfly_emu.Inst.Operand.{Operands}
use mayfly_emu.Inst.Exec.{exec_lr, exec_sc}

-- No exception is pending and translation is off.
pub record IsDirect (m : Machine) : Type 0 where
  pub no_except : m.cpu.is_except ≡ false
  pub no_read : vm_enable Mmu.read m.cpu ≡ false
  pub no_write : vm_enable Mmu.write m.cpu ≡ false

abbrev pub set_amo : Cpu → Cpu
set_amo c = record c { amo = true }

to_paddr-direct :
    (addr : ℕ) (type : Mmu.AccessType) (m : Machine)
    → vm_enable type m.cpu ≡ false
    → vaddr_to_paddr addr type m ≡ done (addr, m)
unfolding vaddr_to_paddr
to_paddr-direct addr type m v = rw (isa_mmu_check-direct addr type m.cpu v) refl

-- The machine behind `lr` of the value `v`.
abbrev pub reserved : ℕ → ℕ → Operands → Machine → Machine
reserved v flag o m = record m {
  cpu = set_gpr o.dest v (set_amo m.cpu);
  reserve_addr = o.src1;
  reserve_flag = flag;
}

pub exec_lr_lem :
    (len flag : ℕ) (rdata_of : ℕ → ℕ) (o : Operands) (m : Machine)
    → IsDirect m
    → IsRam o.src1 len
    → exec_lr len rdata_of flag o m
      ≡ done (tt, reserved (rdata_of (load_bytes len m.pmem (o.src1 - mbase))) flag o m)
unfolding exec_lr
exec_lr_lem len flag rdata_of o m d r =
    let m' = record m { cpu = set_amo m.cpu } in
    rw (to_paddr-direct o.src1 Mmu.read m' d.no_read, paddr_read-ram m' r, d.no_except) refl

-- The machine behind an `sc` that stores.
abbrev pub stored : ℕ → ℕ → Operands → Machine → Machine
stored len v o m = record m {
  cpu = set_gpr o.dest 0 (set_amo m.cpu);
  pmem = store_bytes len v m.pmem (o.src1 - mbase);
  reserve_flag = 0;
}

-- The machine behind an `sc` that does not.
abbrev pub refused : Operands → Machine → Machine
refused o m = record m { cpu = set_gpr o.dest 1 (set_amo m.cpu); reserve_flag = 0 }

-- Where no exception is pending and translation is off, `sc` of a location in RAM stores, and
-- answers 0, if the reservation has its address and its flag; otherwise it answers 1 and leaves
-- memory alone. Either way the reservation is gone.
pub exec_sc_lem :
    (len flag : ℕ) (value_of : ℕ → ℕ) (o : Operands) (m : Machine)
    → IsDirect m
    → IsRam o.src1 len
    → exec_sc len value_of flag o m
      ≡ done (
        tt,
        if o.src1 == m.reserve_addr && m.reserve_flag == flag
            then stored len (value_of o.src2) o m
            else refused o m,
      )
unfolding exec_sc
exec_sc_lem len flag value_of o m d r =
    let m' = record m { cpu = set_amo m.cpu } in
    let quiet = record m { cpu = record (m.cpu) { amo = true; is_except = false } } in
    elim (Bool-cases (o.src1 == m.reserve_addr && m.reserve_flag == flag)) [
      | inl t ↦
          rw
            (
              to_paddr-direct o.src1 Mmu.write m' d.no_write,
              d.no_except,
              t,
              paddr_write-ram (value_of o.src2) quiet r,
            )
            refl
      | inr f ↦ rw (to_paddr-direct o.src1 Mmu.write m' d.no_write, d.no_except, f) refl
    ]

-- `lr` of an address that is not canonical, where translation is on, does raise the store page fault
-- but then reads the physical address 0, which aborts the emulator.
pub exec_lr-aborts :
    (len flag : ℕ) (rdata_of : ℕ → ℕ) (o : Operands) (m : Machine)
    → o.src1 < 2 ^ 64
    → vm_enable Mmu.read m.cpu ≡ true
    → ¬ IsCanonical o.src1
    → exec_lr len rdata_of flag o m
      ≡ done (
        tt,
        out_of_bound (at_device (record m { cpu = set_except Cpu.Ex.spf o.src1 (set_amo m.cpu) })),
      )
unfolding exec_lr vaddr_to_paddr
exec_lr-aborts len flag rdata_of o m h v n =
    let c = set_amo m.cpu in
    rw (isa_mmu_check-fail o.src1 Mmu.read c h v n) (
      rw
        ((paddr-unmapped 0 len 0 (record m { cpu = set_except Cpu.Ex.spf o.src1 c })
          (λ q. omega arith)
          (
            λ q. omega arith,
            λ q. omega arith,
            λ q. omega arith,
            λ q. omega arith,
            λ q. omega arith,
          )).0)
        refl)
