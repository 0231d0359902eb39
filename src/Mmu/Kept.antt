-- ===== src/Mmu/Kept.antt =====
-- What address translation leaves alone, in mayfly_emu/system/mmu.c.
use mayfly_emu.Prelude.{ℕ, zero, suc, ◌≡◌, refl, Bool, true, false, not, ◌||◌, if◌then◌else◌, ◌==◌}
use mayfly_emu.Run.{Run, done, abort, fault, and_then, assert}
use mayfly_emu.Word.{◌>>>◌, bitmask}
use mayfly_emu.Cpu.{Cpu, set_except}
use mayfly_emu.Machine.{Machine, get_cpu}
use mayfly_emu.Machine.Frame.{Ends, Keeps, keeps}
use mayfly_emu.Mmu.{
  AccessType, ifetch, read, write, MmuCheck, direct, translate, fail, check_permission,
  permission_by, mode_ok, permission, WalkEnd, leaf, bad, walk, after_walk, isa_mmu_translate,
  isa_mmu_check, bad_translation, vm_enable, page_fault,
}
use mayfly_emu.Memory.Paddr.Kept.{kept, keeps_rules}

-- A check answers with a hart whose registers are those before.
abbrev pub Same : Cpu → Run (Bool × Cpu) → Type 0
Same c (done r) = (r.1.gpr ≡ c.gpr) × (r.1.csr ≡ c.csr) × (r.1.mode ≡ c.mode) × (r.1.pc ≡ c.pc)
Same c abort = Unit {0}
Same c fault = Unit {0}

pub data SameRegs (c : Cpu) (x : Run (Bool × Cpu)) : Type 0 where
  same : Same c x → SameRegs c x

SameRegs-if :
    (c : Cpu) (b : Bool) {x y : Run (Bool × Cpu)}
    → SameRegs c x
    → SameRegs c y
    → SameRegs c (if b then x else y)
SameRegs-if c true hx hy = hx
SameRegs-if c false hx hy = hy

SameRegs-assert :
    (c : Cpu) (b : Bool) {x : Run (Bool × Cpu)} → SameRegs c x → SameRegs c (assert b x)
SameRegs-assert c true h = h
SameRegs-assert c false h = same tt

SameRegs-done :
    (c : Cpu) {b : Bool} {d : Cpu}
    → d.gpr ≡ c.gpr
    → d.csr ≡ c.csr
    → d.mode ≡ c.mode
    → d.pc ≡ c.pc
    → SameRegs c (done (b, d))
SameRegs-done c g s m p = same (g, s, m, p)

permission_by-SameRegs :
    (type : AccessType) (b : Bool) (pte vaddr : ℕ) (c : Cpu)
    → SameRegs c (permission_by type b pte vaddr c)
unfolding permission_by
permission_by-SameRegs ifetch b pte vaddr c = search (SameRegs-if, SameRegs-assert, SameRegs-done)
permission_by-SameRegs read b pte vaddr c = search (SameRegs-if, SameRegs-done)
permission_by-SameRegs write b pte vaddr c = search (SameRegs-if, SameRegs-done)

check_permission-SameRegs :
    (pte : ℕ) (b : Bool) (vaddr : ℕ) (type : AccessType) (c : Cpu)
    → SameRegs c (check_permission pte b vaddr type c)
unfolding check_permission
check_permission-SameRegs pte b vaddr type c =
    SameRegs-assert c _ (permission_by-SameRegs type (mode_ok b pte type c) pte vaddr c)

Ends-Same :
    (m : Machine) (x : Run (Bool × Cpu))
    → Same m.cpu x
    → Ends kept (kept m) (and_then x λ r. done (r.0, record m { cpu = r.1 }))
unfolding kept
Ends-Same m (done r) h = λ i. record {
  gpr = h.0 i;
  csr = h.1 i;
  mode = h.2 i;
  pc = h.3 i;
  pmem = m.pmem;
  flash_mem = m.flash_mem;
}
Ends-Same m abort h = tt
Ends-Same m fault h = tt

pub Ends-SameRegs :
    (m : Machine) (x : Run (Bool × Cpu))
    → SameRegs m.cpu x
    → Ends kept (kept m) (and_then x λ r. done (r.0, record m { cpu = r.1 }))
Ends-SameRegs m x (same h) = Ends-Same m x h

pub permission-Keeps :
    (pte : ℕ) (b : Bool) (vaddr : ℕ) (type : AccessType) → Keeps kept (permission pte b vaddr type)
permission-Keeps pte b vaddr type = keeps λ m.
    Ends-SameRegs m (check_permission pte b vaddr type m.cpu)
      (check_permission-SameRegs pte b vaddr type m.cpu)

ruleset walk_rules = (keeps_rules, permission-Keeps)

walk-Keeps : (vaddr level pg_base : ℕ) → Keeps kept (walk vaddr level pg_base)
unfolding walk
walk-Keeps vaddr zero pg_base = search walk_rules
walk-Keeps vaddr (suc level) pg_base = let ih = walk-Keeps vaddr level in search (walk_rules, ih)

bad-Keeps : (pte vaddr : ℕ) (type : AccessType) → Keeps kept (bad_translation pte vaddr type)
bad-Keeps pte vaddr type = search walk_rules

after_walk-Keeps :
    (vaddr : ℕ) (type : AccessType) (w : WalkEnd) → Keeps kept (after_walk vaddr type w)
unfolding after_walk
after_walk-Keeps vaddr type (bad pte) = bad-Keeps pte vaddr type
after_walk-Keeps vaddr type (leaf level pte pg_base) = search (walk_rules, bad-Keeps) depth 8

pub get_cpu-Keeps : Keeps kept get_cpu
get_cpu-Keeps = keeps λ m. refl

pub isa_mmu_translate-Keeps :
    (vaddr : ℕ) (type : AccessType) → Keeps kept (isa_mmu_translate vaddr type)
unfolding isa_mmu_translate
isa_mmu_translate-Keeps vaddr type =
    search (walk_rules, get_cpu-Keeps, bad-Keeps, walk-Keeps, after_walk-Keeps) depth 8

check_branch-SameRegs :
    (c : Cpu) (b : Bool) (x y : MmuCheck) (d : Cpu)
    → SameRegs c (done (true, d))
    → SameRegs c (done (true, (if◌then◌else◌ {A = MmuCheck × Cpu} b (x, d) (y, c)).1))
check_branch-SameRegs c true x y d h = h
check_branch-SameRegs c false x y d h = same (refl, refl, refl, refl)

pub isa_mmu_check-SameRegs :
    (addr : ℕ) (type : AccessType) (c : Cpu)
    → SameRegs c (done (true, (isa_mmu_check addr type c).1))
unfolding isa_mmu_check
isa_mmu_check-SameRegs addr type c =
    check_branch-SameRegs c
      (not (addr >>> 38 == bitmask 26 || addr >>> 38 == 0 || not (vm_enable type c))) fail
      (if vm_enable type c then translate else direct) (set_except (page_fault type c) addr c)
      (same (refl, refl, refl, refl))
