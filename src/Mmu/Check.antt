-- ===== src/Mmu/Check.antt =====
-- The tests of mayfly_emu/system/mmu.c on a virtual address.
use mayfly_emu.Prelude.{
  ◌==◌, ◌||◌, not, ltb→lt, ℕ, ◌-◌, ◌*◌, ◌/◌, ◌%◌, ◌^◌, ◌<◌, ◌≤◌, ◌≡◌, ◌⊎◌, ◌↔◌, inl, inr, refl,
  arith, ltb, if◌then◌else◌, Bool, true, false, Bool-cases,
}
use mayfly_emu.Cpu.{Cpu, set_except}
use mayfly_emu.Mmu.{
  AccessType, MmuCheck, fail, translate, vaddr39, vm_enable, isa_mmu_check, page_fault,
}

-- The address is the sign extension of its 39 low bits.
abbrev pub IsCanonical : ℕ → Type 0
IsCanonical vaddr = (vaddr < 2 ^ 38) ⊎ (2 ^ 64 - 2 ^ 38 ≤ vaddr)

low_half :
    (vaddr : ℕ)
    → vaddr < 2 ^ 64
    → vaddr * 2 ^ 25 % 2 ^ 64 < 2 ^ 63
    → (vaddr * 2 ^ 25 % 2 ^ 64 / 2 ^ 25 % 2 ^ 64 ≡ vaddr) ↔ IsCanonical vaddr
low_half vaddr h l =
    (λ q. inl (omega arith), λ c. elim c [ inl a ↦ omega arith | inr b ↦ omega arith ])

high_half :
    (vaddr : ℕ)
    → vaddr < 2 ^ 64
    → ¬ (vaddr * 2 ^ 25 % 2 ^ 64 < 2 ^ 63)
    → (2 ^ 64 - 1 - (2 ^ 64 - vaddr * 2 ^ 25 % 2 ^ 64 - 1) / 2 ^ 25 % 2 ^ 64 ≡ vaddr)
      ↔ IsCanonical vaddr
high_half vaddr h l =
    (λ q. inr (omega arith), λ c. elim c [ inl a ↦ omega arith | inr b ↦ omega arith ])

ltb-false : (a b : ℕ) → ltb a b ≡ false → ¬ (a < b)
ltb-false a b h = ground arith

pub vaddr39_lem : (vaddr : ℕ) → vaddr < 2 ^ 64 → (vaddr39 vaddr ≡ vaddr) ↔ IsCanonical vaddr
vaddr39_lem vaddr h = elim (Bool-cases (ltb (vaddr * 2 ^ 25 % 2 ^ 64) (2 ^ 63))) [
  | inl l ↦ rw l (low_half vaddr h (ltb→lt _ _ l))
  | inr g ↦ rw g (high_half vaddr h (ltb-false _ _ g))
]

msbs_iff :
    (vaddr : ℕ)
    → vaddr < 2 ^ 64
    → ((vaddr / 2 ^ 38 == 2 ^ 26 - 1 || vaddr / 2 ^ 38 == 0) ≡ true) ↔ IsCanonical vaddr
msbs_iff vaddr h = (λ q. grind arith, λ c. elim c [ inl a ↦ ground arith | inr b ↦ ground arith ])

answer_iff :
    (b : Bool) (c d : Cpu)
    → ((if◌then◌else◌ {A = MmuCheck × Cpu} (not b) (fail, d) (translate, c)).0 ≡ translate)
      ↔ (b ≡ true)
answer_iff true c d = (λ _. refl, λ _. refl)
answer_iff false c d = (λ q. cc, λ q. cc)

or_off : (a b : Bool) → (a || b || not true) ≡ (a || b)
or_off true b = refl
or_off false true = refl
or_off false false = refl

-- Where translation is on, for any type of access, `isa_mmu_check` lets an address through exactly
-- if it is canonical, that is, if the bits above its 39 low ones repeat bit 38; this is the test
-- with which `isa_mmu_translate` begins, so that its first jump to `bad` is never taken behind the
-- check.
pub isa_mmu_check-IsCanonical :
    (vaddr : ℕ) (type : AccessType) (c : Cpu)
    → vaddr < 2 ^ 64
    → vm_enable type c ≡ true
    → (((isa_mmu_check vaddr type c).0 ≡ translate) ↔ IsCanonical vaddr)
      × ((vaddr39 vaddr ≡ vaddr) ↔ IsCanonical vaddr)
unfolding isa_mmu_check
isa_mmu_check-IsCanonical vaddr type c h v =
    let ok = vaddr / 2 ^ 38 == 2 ^ 26 - 1 || vaddr / 2 ^ 38 == 0 in
    let a = answer_iff ok c (set_except (page_fault type c) vaddr c) in
    let b = msbs_iff vaddr h in
    (
      rw (v, or_off (vaddr / 2 ^ 38 == 2 ^ 26 - 1) (vaddr / 2 ^ 38 == 0))
          (λ q. b.0 (a.0 q), λ q. a.1 (b.1 q)),
      vaddr39_lem vaddr h,
    )

not-true : (b : Bool) → ¬ (b ≡ true) → b ≡ false
not-true true h = absurd (h refl)
not-true false h = refl

-- Where translation is on, an address that is not canonical raises the page fault of the access.
pub isa_mmu_check-fail :
    (vaddr : ℕ) (type : AccessType) (c : Cpu)
    → vaddr < 2 ^ 64
    → vm_enable type c ≡ true
    → ¬ IsCanonical vaddr
    → isa_mmu_check vaddr type c ≡ (fail, set_except (page_fault type c) vaddr c)
unfolding isa_mmu_check
isa_mmu_check-fail vaddr type c h v n =
    rw
      (
        v,
        or_off (vaddr / 2 ^ 38 == 2 ^ 26 - 1) (vaddr / 2 ^ 38 == 0),
        not-true _ (λ q. n ((msbs_iff vaddr h).0 q)),
      )
      refl
