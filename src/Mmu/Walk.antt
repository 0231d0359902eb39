-- ===== src/Mmu/Walk.antt =====
-- The page-table walk of `isa_mmu_translate` in mayfly_emu/system/mmu.c, for tables in RAM, against the walk of the
-- privileged architecture.
use mayfly_emu.Prelude.{
  ℕ, zero, suc, ◌+◌, ◌-◌, ◌*◌, ◌%◌, ◌^◌, ◌≡◌, ◌⊎◌, inl, inr, refl, ap, ◌∙◌, arith,
}
use mayfly_emu.Prelude.{true, false, not, ◌&&◌, ◌||◌}
use mayfly_emu.Word.{field}
use mayfly_emu.Run.{done}
use mayfly_emu.Machine.{Machine}
use mayfly_emu.Memory.Host.{load_bytes}
use mayfly_emu.Memory.Paddr.{mbase, paddr_read}
use mayfly_emu.Memory.Paddr.Ram.{IsRam, paddr_read-ram}
use mayfly_emu.Mmu.{WalkEnd, leaf, bad, walk, vpn_i, pte_v, pte_r, pte_w, pte_x, pte_ppn}

-- The entry for the address in the table at `base`, and that it lies in RAM.
abbrev pub entry_addr : ℕ → ℕ → ℕ → ℕ
entry_addr vaddr level base = base + vpn_i vaddr level * 8

abbrev pub IsEntry : Machine → ℕ → ℕ → ℕ → ℕ → Type 0
IsEntry m vaddr level base pte =
    IsRam (entry_addr vaddr level base) 8
    × (load_bytes 8 m.pmem (entry_addr vaddr level base - mbase) ≡ pte)

-- The bits V, R, W and X of an entry decide what it is.
abbrev pub IsInvalid : ℕ → Type 0
IsInvalid pte = (field 0 1 pte ≡ 0) ⊎ ((field 1 1 pte ≡ 0) × (field 2 1 pte ≡ 1))

abbrev pub IsLeaf : ℕ → Type 0
IsLeaf pte = ¬ IsInvalid pte × ((field 1 1 pte ≡ 1) ⊎ (field 3 1 pte ≡ 1))

abbrev pub IsPointer : ℕ → Type 0
IsPointer pte = ¬ IsInvalid pte × (field 1 1 pte ≡ 0) × (field 3 1 pte ≡ 0)

-- The walk of the architecture from a level and a table, by the entries in RAM.
pub data Walks (m : Machine) (vaddr : ℕ) : ℕ → ℕ → WalkEnd → Type 0 where
  invalid :
      {level base pte : ℕ}
      → IsEntry m vaddr level base pte
      → IsInvalid pte
      → Walks m vaddr level base (bad pte)
  at_leaf :
      {level base pte : ℕ}
      → IsEntry m vaddr level base pte
      → IsLeaf pte
      → Walks m vaddr level base (leaf level pte (pte_ppn pte * 2 ^ 12))
  too_deep :
      {base pte : ℕ} → IsEntry m vaddr 0 base pte → IsPointer pte → Walks m vaddr 0 base (bad pte)
  down :
      {level base pte : ℕ} {w : WalkEnd}
      → IsEntry m vaddr (suc level) base pte
      → IsPointer pte
      → Walks m vaddr level (pte_ppn pte * 2 ^ 12) w
      → Walks m vaddr (suc level) base w

bit-cases : (lo x : ℕ) → (field lo 1 x ≡ 0) ⊎ (field lo 1 x ≡ 1)
bit-cases lo x = omega arith

-- The tests of the loop on an entry.
invalid-test :
    (pte : ℕ) → IsInvalid pte → (not (pte_v pte) || (not (pte_r pte) && pte_w pte)) ≡ true
invalid-test pte h = ground arith

valid-test :
    (pte : ℕ) → ¬ IsInvalid pte → (not (pte_v pte) || (not (pte_r pte) && pte_w pte)) ≡ false
valid-test pte h = elim (bit-cases 0 pte) [
  | inl z ↦ absurd (h (inl z))
  | inr o ↦ elim (bit-cases 1 pte) [
    | inl z ↦ elim (bit-cases 2 pte) [ inl y ↦ rw (o, z, y) refl | inr y ↦ absurd (h (inr (z, y))) ]
    | inr y ↦ rw (o, y) refl
  ]
]

leaf-test : (pte : ℕ) → (field 1 1 pte ≡ 1) ⊎ (field 3 1 pte ≡ 1) → (pte_r pte || pte_x pte) ≡ true
leaf-test pte h = ground arith

pointer-test :
    (pte : ℕ) → (field 1 1 pte ≡ 0) → (field 3 1 pte ≡ 0) → (pte_r pte || pte_x pte) ≡ false
pointer-test pte r x = ground arith

entry-read :
    (m : Machine) (vaddr level base pte : ℕ)
    → IsEntry m vaddr level base pte
    → paddr_read (entry_addr vaddr level base) 8 m ≡ done (pte, m)
entry-read m vaddr level base pte e = paddr_read-ram m e.0 ∙ ap (λ (x : ℕ). done (x, m)) e.1

-- A table whose entry lies in RAM has a base of less than 44 bits.
entry-base :
    (m : Machine) (vaddr level base pte : ℕ) → IsEntry m vaddr level base pte → base % 2 ^ 44 ≡ base
entry-base m vaddr level base pte e = ground (arith, e.0.below)

pub Walks-base :
    (m : Machine) (vaddr level base : ℕ) (w : WalkEnd)
    → Walks m vaddr level base w
    → base % 2 ^ 44 ≡ base
Walks-base m vaddr level base _ (Walks.invalid {pte = pte} e i) =
    entry-base m vaddr level base pte e
Walks-base m vaddr level base _ (Walks.at_leaf {pte = pte} e i) =
    entry-base m vaddr level base pte e
Walks-base m vaddr zero base _ (Walks.too_deep {pte = pte} e i) = entry-base m vaddr 0 base pte e
Walks-base m vaddr (suc level) base w (Walks.down {pte = pte} e i rest) =
    entry-base m vaddr (suc level) base pte e

-- What the code makes of the end of a walk: its page base has the 44 low bits of the architecture's.
abbrev pub cut : WalkEnd → WalkEnd
cut (leaf level pte base) = leaf level pte (base % 2 ^ 44)
cut (bad pte) = bad pte

pub walk-Walks :
    (m : Machine) (vaddr level base : ℕ) (w : WalkEnd)
    → Walks m vaddr level base w
    → walk vaddr level base m ≡ done (cut w, m)
unfolding walk
walk-Walks m vaddr zero base _ (invalid {pte = pte} e i) =
    rw (entry-read m vaddr 0 base pte e, invalid-test pte i) refl
walk-Walks m vaddr (suc level) base _ (invalid {pte = pte} e i) =
    rw (entry-read m vaddr (suc level) base pte e, invalid-test pte i) refl
walk-Walks m vaddr zero base _ (at_leaf {pte = pte} e i) =
    rw (entry-read m vaddr 0 base pte e, valid-test pte i.0, leaf-test pte i.1) refl
walk-Walks m vaddr (suc level) base _ (at_leaf {pte = pte} e i) =
    rw (entry-read m vaddr (suc level) base pte e, valid-test pte i.0, leaf-test pte i.1) refl
walk-Walks m vaddr zero base _ (too_deep {pte = pte} e i) =
    rw (entry-read m vaddr 0 base pte e, valid-test pte i.0, pointer-test pte i.1 i.2) refl
walk-Walks m vaddr (suc level) base w (down {pte = pte} e i rest) =
    rw (entry-read m vaddr (suc level) base pte e, valid-test pte i.0, pointer-test pte i.1 i.2)
      (rw (Walks-base m vaddr level (pte_ppn pte * 2 ^ 12) w rest)
        (walk-Walks m vaddr level (pte_ppn pte * 2 ^ 12) w rest))
