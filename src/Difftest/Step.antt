-- ===== src/Difftest/Step.antt =====
-- The difference test: mayfly_emu/cpu/difftest.c, less what it prints. The reference, a library loaded at
-- run time, is a parameter: its state and the functions that the code looks up in it. The functions
-- that this emulator offers as a reference itself are those of the second half of the file.
pub mod Synced
pub mod Image
use mayfly_emu.Prelude.{
  ℕ, zero, suc, ◌+◌, ◌-◌, ◌%◌, ◌^◌, Bool, true, false, not, ◌||◌, leb, ◌==◌, if◌then◌else◌,
}
use mayfly_emu.Prelude.{Option, none, some, List, [], ◌∷◌, length, update}
use mayfly_emu.Run.{Run, done, abort, fault, and_then, require}
use mayfly_emu.Cpu.{Cpu, set_csr, set_gpr, set_mstatus}
use mayfly_emu.Intr.{handle_difftest_irq}
use mayfly_emu.Machine.{Machine, M, ◌>>=◌, ◌>>◌, skip, abort_status, EmuState}
use mayfly_emu.Memory.Paddr.{paddr_write, msize}
use mayfly_emu.Inst.Exec.{Decode}
use mayfly_emu.Emulator.{Input, cpu_exec}
use mayfly_emu.Difftest.{isa_difftest_checkregs}

-- The reference over a state `S`: `ref_difftest_memcpy` to it, `ref_difftest_regcpy` to and from it,
-- `ref_difftest_exec` and `difftest_init`. Registers that a copy from it does not write stay.
pub record Reference (S : Type 0) : Type 0 where
  pub memcpy : ℕ → List ℕ → S → Run S
  pub regcpy_to_ref : Cpu → S → S
  pub regcpy_to_dut : S → Cpu → Cpu
  pub exec : ℕ → S → Run S
  pub init : S → S

-- The bytes that a copy of `n` reads from `a` on.
abbrev pub bytes_at : ℕ → (ℕ → ℕ) → ℕ → List ℕ
bytes_at zero mem a = []
bytes_at (suc n) mem a = mem a ∷ bytes_at n mem (a + 1)

-- `checkregs`: a difference aborts the emulator.
unfoldable pub checkregs : Cpu → ℕ → Machine → Machine
unfolding isa_difftest_checkregs
checkregs ref_r pc m =
    if not (isa_difftest_checkregs ref_r m.cpu.pc m.cpu)
    then record m { emu = record (m.emu) { state = abort_status; halt_pc = pc } }
    else m

module _ {S : Type 0} (ref : Reference S) where
  -- `init_difftest`, behind the loading of the library.
  unfoldable pub init_difftest : ℕ → Machine → S → Run S
  init_difftest img_size m s = require (leb img_size msize) (
      and_then (ref.memcpy 0x80000000 (bytes_at img_size m.pmem 0) (ref.init s))
        λ s'. done (ref.regcpy_to_ref m.cpu s'))

  -- `ref_r` is the uninitialised local.
  unfoldable pub difftest_step : Cpu → ℕ → Bool → Bool → Machine → S → Run (Machine × S)
  unfolding checkregs
  difftest_step ref_r pc is_irq is_mmio m s =
      if is_mmio || m.cpu.is_diff_skip
      then done (m, ref.regcpy_to_ref m.cpu s)
      else if is_irq
      then (and_then (ref.exec 1 s) λ s'. done (m, ref.regcpy_to_ref m.cpu s'))
      else and_then (ref.exec 1 s) λ s'. done (checkregs (ref.regcpy_to_dut s' ref_r) pc m, s')

-- This emulator as a reference. `direction` is true towards the reference.
unfoldable pub copy_bytes : ℕ → List ℕ → M (Unit {0})
unfolding paddr_write
copy_bytes addr [] = skip
copy_bytes addr (b ∷ bs) = do paddr_write addr 1 b; copy_bytes ((addr + 1) % 2 ^ 64) bs

unfoldable pub difftest_memcpy : ℕ → List ℕ → Bool → M (Unit {0})
unfolding copy_bytes
difftest_memcpy addr buf true m = copy_bytes addr buf m
difftest_memcpy addr buf false m = abort

-- The state of the test, which is written in the one direction, and of this emulator in the other.
unfoldable pub difftest_regcpy : Bool → Cpu → Cpu → Cpu × Cpu
difftest_regcpy false dut c =
    (record dut { gpr = c.gpr; pc = c.pc; pre_pc = c.pre_pc; mode = c.mode; csr = c.csr }, c)
difftest_regcpy true dut c = (
  dut,
  record c { gpr = dut.gpr; csr = update dut.csr 4 (c.csr 4); pc = dut.pc; pre_pc = dut.pre_pc },
)

unfoldable pub difftest_only_gprcpy : Cpu → Cpu → Cpu
difftest_only_gprcpy dut c = record c { gpr = dut.gpr; pc = dut.pc; pre_pc = dut.pre_pc }

unfoldable pub difftest_exec : ℕ → (ℕ → Input) → Decode → M (Unit {0})
unfolding cpu_exec
difftest_exec n inputs s m = cpu_exec n inputs s m

unfoldable pub difftest_raise_intr : Cpu → Bool → Cpu → Cpu
unfolding handle_difftest_irq
difftest_raise_intr dut true c = handle_difftest_irq (set_csr 4 (dut.csr 4) c)
difftest_raise_intr dut false c = c

unfoldable pub difftest_init : Cpu → Cpu
difftest_init c =
    let c1 = record c {
      mode = 3;
      pc = 0x80000000;
      amo = false;
      is_irq = false;
      is_except = false;
    } in
    let c2 = set_csr 24 0 (set_csr 23 0 c1) in set_gpr 0 0 (set_mstatus 11 2 3 c2)

-- The emulator as a reference for another one: what a step finds outside is the same for each call.
abbrev pub emulator : (ℕ → Input) → Decode → Reference Machine
emulator inputs s = record {
  memcpy = λ addr buf m. and_then (difftest_memcpy addr buf true m) λ r. done r.1;
  regcpy_to_ref = λ dut m. record m { cpu = (difftest_regcpy true dut m.cpu).1 };
  regcpy_to_dut = λ m dut. (difftest_regcpy false dut m.cpu).0;
  exec = λ n m. and_then (difftest_exec n inputs s m) λ r. done r.1;
  init = λ m. record m { cpu = difftest_init m.cpu };
}
