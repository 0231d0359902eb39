-- ===== src/Tests/Memory.antt =====
-- Physical and virtual addresses.
use mayfly_emu.Prelude.{ℕ, ◌%◌, ◌^◌, ◌≡◌, ◌↔◌, refl, arith, true, inl, inr}
use mayfly_emu.Cpu
use mayfly_emu.Cpu.{Cpu, set_csr}
use mayfly_emu.Run.{done}
use mayfly_emu.Machine.{Machine}
use mayfly_emu.Memory.Host.{load_bytes, store_bytes}
use mayfly_emu.Memory.Paddr.{paddr_read, paddr_write}
use mayfly_emu.Memory.Paddr.Ram.{
  IsRam, ram_written, paddr_read-paddr_write, paddr_read-paddr_write_apart,
}
use mayfly_emu.Memory.Vaddr.{vaddr_read, vaddr_write}
use mayfly_emu.Memory.Vaddr.Align.{raise, vaddr_read-vaddr_write, vaddr_write-misaligned}
use mayfly_emu.Memory.Paddr.Kept.{kept}
use mayfly_emu.Memory.Vaddr.Frame.{vaddr_read-kept}
use mayfly_emu.Mmu
use mayfly_emu.Mmu.{isa_mmu_check, isa_mmu_translate, vaddr39, pte_ppn, leaf, check_permission}
use mayfly_emu.Mmu.Check.{IsCanonical, isa_mmu_check-IsCanonical}
use mayfly_emu.Mmu.Walk.{Walks}
use mayfly_emu.Mmu.Permission.{Permitted, check_permission_iff}
use mayfly_emu.Mmu.Translate.{leaf_base, isa_mmu_translate-leaf}
use mayfly_emu.Tests.Base.{hart, machine}

word-IsRam : IsRam 0x80001000 4
word-IsRam = record { width = refl; above = omega arith; below = omega arith }

next-IsRam : IsRam 0x80001004 4
next-IsRam = record { width = refl; above = omega arith; below = omega arith }

paddr_read-paddr_write_example :
    let m' = ram_written 0x80001000 4 0x1234567890 machine in
    (paddr_write 0x80001000 4 0x1234567890 machine ≡ done (tt, m'))
    × (paddr_read 0x80001000 4 m' ≡ done (0x1234567890 % 256 ^ 4, m'))
paddr_read-paddr_write_example = paddr_read-paddr_write 0x80001000 4 0x1234567890 machine word-IsRam

paddr_read-paddr_write_apart_example :
    let m' = ram_written 0x80001000 4 99 machine in
    (paddr_write 0x80001000 4 99 machine ≡ done (tt, m'))
    × ((w : ℕ) × (paddr_read 0x80001004 4 machine ≡ done (w, machine))
        × (paddr_read 0x80001004 4 m' ≡ done (w, m')))
paddr_read-paddr_write_apart_example =
    paddr_read-paddr_write_apart 0x80001000 4 99 0x80001004 4 machine word-IsRam next-IsRam
      (inr (omega arith))

vaddr_read-vaddr_write_example :
    let m' = ram_written 0x80001000 4 0x1234567890 machine in
    (vaddr_write 0x80001000 4 0x1234567890 machine ≡ done (tt, m'))
    × (vaddr_read 0x80001000 4 m' ≡ done (0x1234567890 % 256 ^ 4, m'))
vaddr_read-vaddr_write_example =
    vaddr_read-vaddr_write 0x80001000 4 0x1234567890 machine refl refl refl refl refl

misaligned-IsRam : IsRam 0x80001001 4
misaligned-IsRam = record { width = refl; above = omega arith; below = omega arith }

vaddr_write-misaligned_example :
    vaddr_write 0x80001001 4 7 machine
    ≡ done (tt, ram_written 0x80001001 4 7 (raise Cpu.Ex.sam 0x80001001 machine))
vaddr_write-misaligned_example =
    vaddr_write-misaligned 0x80001001 4 7 machine refl misaligned-IsRam refl

misread : vaddr_read 0x80001001 4 machine ≡ done (0, raise Cpu.Ex.lam 0x80001001 machine)
unfolding vaddr_read
misread = refl

vaddr_read-kept_example : kept (raise Cpu.Ex.lam 0x80001001 machine) ≡ kept machine
vaddr_read-kept_example =
    vaddr_read-kept 0x80001001 4 machine (0, raise Cpu.Ex.lam 0x80001001 machine) misread

-- Sv39 with the root table at 0x80001000, whose entry 2 is a leaf for the gigabyte at 0x80000000.
abbrev pte : ℕ
pte = 0x200000cf

abbrev paging : Machine
paging = record machine {
  cpu = record (set_csr 16 0x8000000000080001 hart) { mode = 1 };
  pmem = store_bytes 8 pte (λ _. 0) 0x1010;
}

isa_mmu_check-IsCanonical_example :
    (((isa_mmu_check 0x80001234 Mmu.read paging.cpu).0 ≡ Mmu.translate) ↔ IsCanonical 0x80001234)
    × ((vaddr39 0x80001234 ≡ 0x80001234) ↔ IsCanonical 0x80001234)
isa_mmu_check-IsCanonical_example =
    isa_mmu_check-IsCanonical 0x80001234 Mmu.read paging.cpu (omega arith) refl

gigabyte_walk : Walks paging 0x80001234 2 0x80001000 (leaf 2 pte 0x80000000)
unfolding load_bytes store_bytes
gigabyte_walk =
    Walks.at_leaf {level = 2} {base = 0x80001000} {pte = pte}
      (record { width = refl; above = omega arith; below = omega arith }, refl)
      (λ h. omega arith, inl refl)

granted : check_permission pte true 0x80001234 Mmu.read paging.cpu ≡ done (true, paging.cpu)
unfolding check_permission
granted = refl

-- A load by S from a page of S.
check_permission_iff_example :
    (check_permission pte true 0x80001234 Mmu.read paging.cpu ≡ done (true, paging.cpu))
    ↔ Permitted Mmu.read pte paging.cpu
check_permission_iff_example = check_permission_iff Mmu.read pte 0x80001234 paging.cpu (inr refl)

isa_mmu_translate-leaf_example :
    isa_mmu_translate 0x80001234 Mmu.read paging ≡ done (leaf_base 0x80001234 2 0x80000000, paging)
isa_mmu_translate-leaf_example =
    isa_mmu_translate-leaf paging 0x80001234 Mmu.read 2 pte refl gigabyte_walk refl granted
