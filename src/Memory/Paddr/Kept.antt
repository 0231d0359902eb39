-- ===== src/Memory/Paddr/Kept.antt =====
-- What a read of a physical address leaves alone, in mayfly_emu/memory/paddr.c and the devices.
use mayfly_emu.Prelude.{ℕ, refl, Bool, true, if◌then◌else◌}
use mayfly_emu.Machine.{Machine, M, pure, ◌>>=◌, modify_cpu}
use mayfly_emu.Machine.Frame.{Keeps, keeps, Ends-of, Keeps-bind, Keeps-if, Keeps-lift}
use mayfly_emu.Memory.Paddr.{
  Region, uart, clint, plic_region, flash, gpio, unmapped, region, in_pmem, region_read, pmem_read,
  paddr_read,
}

-- What a load or a fetch may not change.
pub record Kept : Type 0 where
  pub gpr : ℕ → ℕ
  pub csr : ℕ → ℕ
  pub mode : ℕ
  pub pc : ℕ
  pub pmem : ℕ → ℕ
  pub flash_mem : ℕ → ℕ

unfoldable pub kept : Machine → Kept
kept m = record {
  gpr = m.cpu.gpr;
  csr = m.cpu.csr;
  mode = m.cpu.mode;
  pc = m.cpu.pc;
  pmem = m.pmem;
  flash_mem = m.flash_mem;
}

region_read-Keeps : (g : Region) (addr len : ℕ) → Keeps kept (region_read g addr len)
unfolding region_read kept
region_read-Keeps uart addr len = keeps λ m. refl
region_read-Keeps clint addr len = keeps λ m. refl
region_read-Keeps plic_region addr len = keeps λ m. Ends-of kept (Keeps-lift kept _) m
region_read-Keeps flash addr len = keeps λ m. Ends-of kept (Keeps-lift kept _) m
region_read-Keeps gpio addr len = keeps λ m. refl
region_read-Keeps unmapped addr len = keeps λ m. refl

pmem_read-Keeps : (addr len : ℕ) → Keeps kept (pmem_read addr len)
unfolding pmem_read
pmem_read-Keeps addr len = keeps λ m. Ends-of kept (Keeps-lift kept _) m

mmio-Keeps : Keeps kept (modify_cpu (λ c. record c { is_mmio = true }))
unfolding kept
mmio-Keeps = keeps λ m. refl

pub paddr_read-Keeps : (addr len : ℕ) → Keeps kept (paddr_read addr len)
unfolding paddr_read
paddr_read-Keeps addr len =
    Keeps-if kept (in_pmem addr) (pmem_read-Keeps addr len)
      (Keeps-bind kept _ mmio-Keeps (λ _. region_read-Keeps (region addr) addr len))

pub pure-Keeps : {A : Type 0} (a : A) → Keeps kept (pure a)
pure-Keeps a = keeps λ m. refl

pub Keeps-do :
    {A B : Type 0} {x : M A} (k : A → M B)
    → Keeps kept x
    → ((a : A) → Keeps kept (k a))
    → Keeps kept (x >>= k)
Keeps-do = Keeps-bind kept

pub Keeps-choice :
    {A : Type 0} (b : Bool) {x y : M A}
    → Keeps kept x
    → Keeps kept y
    → Keeps kept (if b then x else y)
Keeps-choice = Keeps-if kept

pub ruleset keeps_rules = (Keeps-do, Keeps-choice, pure-Keeps, paddr_read-Keeps)
