-- ===== src/Mmu/Translate.antt =====
-- The result of `isa_mmu_translate` of mayfly_emu/system/mmu.c behind the page walk.
use native.Mathlib.Nat.{mod-lt, mod-eq_of_lt}
use mayfly_emu.Prelude.{
  ==_iff, ℕ, zero, suc, ◌+◌, ◌-◌, ◌*◌, ◌/◌, ◌%◌, ◌^◌, ◌<◌, ◌≤◌, ◌≡◌, refl, sym, ap, ◌∙◌, arith,
}
use mayfly_emu.Prelude.{true, not, ◌==◌, bit_and, bit_or, if◌then◌else◌}
use mayfly_emu.Word.{not64, bitmask, bit_and-mask, bit_and-shift, bit_or_low, bit_or-zero}
use mayfly_emu.Run.{done}
use mayfly_emu.Machine.{Machine, pure}
use mayfly_emu.Mmu.{
  AccessType, WalkEnd, leaf, bad, after_walk, isa_mmu_translate, pte_ppn, satp_ppn, vaddr39,
  check_permission, bad_translation, mem_ret_ok,
}
use mayfly_emu.Mmu.Walk.{Walks, Walks-base, walk-Walks}

-- The page of a leaf at the level has 2 ^ page_bits bytes.
abbrev pub page_bits : ℕ → ℕ
page_bits level = 12 + 9 * level

clear_low :
    (k j a : ℕ)
    → 2 ^ 64 - 1 - (2 ^ k - 1) ≡ (2 ^ j - 1) * 2 ^ k
    → a / 2 ^ k < 2 ^ j
    → bit_and a (2 ^ 64 - 1 - (2 ^ k - 1)) ≡ a / 2 ^ k * 2 ^ k
clear_low k j a e h =
    rw (e, bit_and-shift k a (2 ^ j - 1), bit_and-mask j (a / 2 ^ k)) (small (a / 2 ^ k) (2 ^ j) h)
  where
    small : (x n : ℕ) → x < n → x % n * 2 ^ k ≡ x * 2 ^ k
    small x n l = ap (λ (t : ℕ). t * 2 ^ k) (mod-eq_of_lt l)

==-refl : (a : ℕ) → (a == a) ≡ true
==-refl a = ground arith

-- The base of the page, with the bits of the address that pass through a large page.
abbrev pub leaf_base : ℕ → ℕ → ℕ → ℕ
leaf_base vaddr level pg_base = pg_base + vaddr % 2 ^ page_bits level / 2 ^ 12 * 2 ^ 12

compose :
    (k j pg_base vaddr : ℕ)
    → 0 < 2 ^ k
    → 2 ^ k ≤ 2 ^ 64
    → 2 ^ 64 - 1 - (2 ^ k - 1) ≡ (2 ^ j - 1) * 2 ^ k
    → pg_base / 2 ^ k < 2 ^ j
    → pg_base ≡ pg_base / 2 ^ k * 2 ^ k
    → bit_or
        (bit_or
          (bit_and pg_base (2 ^ 64 - 1 - (2 ^ k - 1)))
          (bit_and (bit_and vaddr (2 ^ k - 1)) (not64 (bitmask 12))))
        mem_ret_ok
      ≡ pg_base + vaddr % 2 ^ k / 2 ^ 12 * 2 ^ 12
compose k j pg_base vaddr pos64 le64 e h m =
    let low = vaddr % 2 ^ k in
    let below : low < 2 ^ k = mod-lt vaddr pos64 in
    let page = low / 2 ^ 12 * 2 ^ 12 in
    rw
      (
        clear_low k j pg_base e h,
        bit_and-mask k vaddr,
        clear_low 12 52 low refl (omega arith),
        sym m,
        bit_or_low k pg_base page (omega arith) m,
      )
      (bit_or-zero (pg_base + page))

-- A large page whose base is aligned.
large :
    (k j pg_base vaddr pte : ℕ) (type : AccessType) (m : Machine)
    → 0 < 2 ^ k
    → 2 ^ k ≤ 2 ^ 64
    → 2 ^ 64 - 1 - (2 ^ k - 1) ≡ (2 ^ j - 1) * 2 ^ k
    → pg_base / 2 ^ k < 2 ^ j
    → pg_base % 2 ^ k ≡ 0
    → pg_base ≡ pg_base / 2 ^ k * 2 ^ k
    → (if not (bit_and pg_base (2 ^ k - 1) == 0)
          then bad_translation pte vaddr type
          else pure (
              bit_or
                (bit_or
                  (bit_and pg_base (2 ^ 64 - 1 - (2 ^ k - 1)))
                  (bit_and (bit_and vaddr (2 ^ k - 1)) (not64 (bitmask 12))))
                mem_ret_ok))
        m
      ≡ done (pg_base + vaddr % 2 ^ k / 2 ^ 12 * 2 ^ 12, m)
large k j pg_base vaddr pte type m pos64 le64 e h z g =
    rw (compose k j pg_base vaddr pos64 le64 e h g, bit_and-mask k pg_base, z) refl

-- Behind a leaf of any of the three levels.
after_walk-leaf :
    (m : Machine) (vaddr : ℕ) (type : AccessType) (level pte base : ℕ)
    → level ≤ 2
    → base < 2 ^ 44
    → base % 2 ^ 12 ≡ 0
    → base % 2 ^ page_bits level ≡ 0
    → check_permission pte true vaddr type m.cpu ≡ done (true, m.cpu)
    → after_walk vaddr type (leaf level pte base) m ≡ done (leaf_base vaddr level base, m)
unfolding after_walk
after_walk-leaf m vaddr type zero pte base l h z a g =
    rw g (ap (λ (b : ℕ). done (b, m)) (bit_or-zero base ∙ omega arith))
after_walk-leaf m vaddr type (suc zero) pte base l h z a g = rw g (
    large 21 43 base vaddr pte type m (omega arith) (omega arith) refl (omega arith) a
      (omega arith))
after_walk-leaf m vaddr type (suc (suc zero)) pte base l h z a g = rw g (
    large 30 34 base vaddr pte type m (omega arith) (omega arith) refl (omega arith) a
      (omega arith))
after_walk-leaf m vaddr type (suc (suc (suc level))) pte base l h z a g = absurd (omega arith)

-- The cut to 44 bits leaves the alignment of a page alone.
cut-aligned :
    (level base : ℕ)
    → level ≤ 2
    → base % 2 ^ page_bits level ≡ 0
    → base % 2 ^ 44 % 2 ^ page_bits level ≡ 0
cut-aligned zero base l a = omega arith
cut-aligned (suc zero) base l a = omega arith
cut-aligned (suc (suc zero)) base l a = omega arith
cut-aligned (suc (suc (suc level))) base l a = absurd (omega arith)

abbrev LevelAtMost : ℕ → WalkEnd → Type 0
LevelAtMost n (leaf level pte base) = level ≤ n
LevelAtMost n (bad pte) = Unit {0}

LevelAtMost-suc : (n : ℕ) (w : WalkEnd) → LevelAtMost n w → LevelAtMost (suc n) w
LevelAtMost-suc n (leaf level pte base) h = omega arith
LevelAtMost-suc n (bad pte) h = tt

Walks-LevelAtMost :
    (m : Machine) (vaddr n base : ℕ) (w : WalkEnd) → Walks m vaddr n base w → LevelAtMost n w
Walks-LevelAtMost m vaddr n base _ (Walks.invalid e i) = tt
Walks-LevelAtMost m vaddr n base _ (Walks.at_leaf e i) = omega arith
Walks-LevelAtMost m vaddr zero base _ (Walks.too_deep e i) = tt
Walks-LevelAtMost m vaddr (suc n) base w (Walks.down {pte = pte} e i rest) =
    LevelAtMost-suc n w (Walks-LevelAtMost m vaddr n (pte_ppn pte * 2 ^ 12) w rest)

-- For a canonical address whose walk through the tables in RAM ends at a leaf that grants the
-- access, and whose page base is aligned to the size of the page, the translation succeeds and
-- changes nothing: the answer is the 44 low bits of the page base of the entry, the whole of it for a
-- page below 16 TiB, with the bits of the address that lie above the low 12 and inside the page.
pub isa_mmu_translate-leaf :
    (m : Machine) (vaddr : ℕ) (type : AccessType) (level pte : ℕ)
    → vaddr39 vaddr ≡ vaddr
    → Walks m vaddr 2 (satp_ppn m.cpu * 2 ^ 12) (leaf level pte (pte_ppn pte * 2 ^ 12))
    → pte_ppn pte * 2 ^ 12 % 2 ^ page_bits level ≡ 0
    → check_permission pte true vaddr type m.cpu ≡ done (true, m.cpu)
    → isa_mmu_translate vaddr type m
      ≡ done (leaf_base vaddr level (pte_ppn pte * 2 ^ 12 % 2 ^ 44), m)
unfolding isa_mmu_translate
isa_mmu_translate-leaf m vaddr type level pte c w a g =
    let root = satp_ppn m.cpu * 2 ^ 12 in
    let l = Walks-LevelAtMost m vaddr 2 root _ w in
    rw
      (
        (==_iff (vaddr39 vaddr) vaddr).1 c,
        Walks-base m vaddr 2 root (leaf level pte (pte_ppn pte * 2 ^ 12)) w,
        walk-Walks m vaddr 2 root (leaf level pte (pte_ppn pte * 2 ^ 12)) w,
      )
      (after_walk-leaf m vaddr type level pte (pte_ppn pte * 2 ^ 12 % 2 ^ 44) l (omega arith)
        (omega arith) (cut-aligned level (pte_ppn pte * 2 ^ 12) l a) g)
