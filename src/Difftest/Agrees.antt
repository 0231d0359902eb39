-- ===== src/Difftest/Agrees.antt =====
-- What the comparison of mayfly_emu/monitor/sdb.c accepts.
use mathlib.Core.Bool.{false≢true}
use mayfly_emu.Prelude.{
  ℕ, zero, suc, ◌+◌, ◌<◌, ◌≤◌, ◌≡◌, ◌≢◌, ◌⊎◌, ◌↔◌, inl, inr, refl, sym, ◌∙◌, arith,
}
use mayfly_emu.Prelude.{Bool, true, false, not, ◌||◌, ◌==◌, if◌then◌else◌, ==_iff, Bool-cases}
use mayfly_emu.Cpu.{Cpu}
use mayfly_emu.Difftest.{check_gpr, check_csr, isa_difftest_checkregs}

-- The two harts have the same general registers from `i` to `k`, and the same control and status
-- registers but for `mip` and the two scratch registers.
abbrev pub SameGpr : ℕ → ℕ → Cpu → Cpu → Type 0
SameGpr i k ref c = (j : ℕ) → i ≤ j → j < k → ref.gpr j ≡ c.gpr j

abbrev pub SameCsr : ℕ → ℕ → Cpu → Cpu → Type 0
SameCsr i k ref c = (j : ℕ) → i ≤ j → j < k → j ≢ 4 → j ≢ 6 → j ≢ 12 → ref.csr j ≡ c.csr j

pub record SameState (next_pc : ℕ) (ref c : Cpu) : Type 0 where
  pub pc : ref.pc ≡ next_pc
  pub mode : ref.mode ≡ c.mode
  pub gpr : SameGpr 0 32 ref c
  pub csr : SameCsr 0 17 ref c

from-cases : (i j : ℕ) → i ≤ j → (i ≡ j) ⊎ (i + 1 ≤ j)
from-cases i j h = omega arith

check_gpr-SameGpr :
    (n i k : ℕ) (ref c : Cpu) → i + n ≡ k → (check_gpr n i ref c ≡ true) ↔ SameGpr i k ref c
unfolding check_gpr
check_gpr-SameGpr zero i k ref c e = (λ h j a b. absurd (omega arith), λ h. refl)
check_gpr-SameGpr (suc n) i k ref c e =
    let ih = check_gpr-SameGpr n (i + 1) k ref c (omega arith) in
    elim (Bool-cases (ref.gpr i == c.gpr i)) [
      | inl t ↦ rw t (
        λ h j a b. elim (from-cases i j a) [
          | inl q ↦ rw (sym q) ((==_iff (ref.gpr i) (c.gpr i)).0 t)
          | inr l ↦ ih.0 h j l b
        ],
        λ h. ih.1 (λ j a b. h j (omega arith) b),
      )
      | inr f ↦ rw f (
        λ h. absurd (false≢true h),
        λ h. absurd (
            false≢true
              (sym f ∙ (==_iff (ref.gpr i) (c.gpr i)).1 (h i (omega arith) (omega arith)))),
      )
    ]

-- A register that the loop compares, and one that it does not.
compared-cases : (i : ℕ) → ((i ≡ 4) ⊎ ((i ≡ 6) ⊎ (i ≡ 12))) ⊎ ((i ≢ 4) × (i ≢ 6) × (i ≢ 12))
compared-cases i = omega arith

skip-round :
    (i : ℕ) (same rest : Bool)
    → (i ≡ 4) ⊎ ((i ≡ 6) ⊎ (i ≡ 12))
    → (if i == 6 || i == 12
        then rest
        else if not same
        then (if i == 4 then rest else false)
        else rest)
      ≡ rest
skip-round i true rest (inl e) = rw e refl
skip-round i false rest (inl e) = rw e refl
skip-round i same rest (inr (inl e)) = rw e refl
skip-round i same rest (inr (inr e)) = rw e refl

compare-round :
    (i : ℕ) (same rest : Bool)
    → i ≢ 4
    → i ≢ 6
    → i ≢ 12
    → (if i == 6 || i == 12
        then rest
        else if not same
        then (if i == 4 then rest else false)
        else rest)
      ≡ (if not same then false else rest)
compare-round i same rest a b c = ground arith

check_csr-SameCsr :
    (n i k : ℕ) (ref c : Cpu) → i + n ≡ k → (check_csr n i ref c ≡ true) ↔ SameCsr i k ref c
unfolding check_csr
check_csr-SameCsr zero i k ref c e = (λ h j a b x y z. absurd (omega arith), λ h. refl)
check_csr-SameCsr (suc n) i k ref c e =
    let ih = check_csr-SameCsr n (i + 1) k ref c (omega arith) in
    let same = ref.csr i == c.csr i in
    let rest = check_csr n (i + 1) ref c in
    elim (compared-cases i) [
      | inl s ↦ rw (skip-round i same rest s) (
        λ h j a b x y z. elim (from-cases i j a) [
          | inl q ↦ absurd (omega arith)
          | inr l ↦ ih.0 h j l b x y z
        ],
        λ h. ih.1 (λ j a b. h j (omega arith) b),
      )
      | inr d ↦ elim (Bool-cases same) [
        | inl t ↦
            rw (compare-round i same rest d.0 d.1 d.2, t)
              (
                λ h j a b x y z. elim (from-cases i j a) [
                  | inl q ↦ rw (sym q) ((==_iff (ref.csr i) (c.csr i)).0 t)
                  | inr l ↦ ih.0 h j l b x y z
                ],
                λ h. ih.1 (λ j a b. h j (omega arith) b),
              )
        | inr f ↦
            rw (compare-round i same rest d.0 d.1 d.2, f)
              (
                λ h. absurd (false≢true h),
                λ h. absurd (
                    false≢true (
                      sym f
                      ∙ (==_iff (ref.csr i) (c.csr i)).1
                          (h i (omega arith) (omega arith) d.0 d.1 d.2))),
              )
      ]
    ]

-- The four tests, one behind the other.
tests_iff :
    (p q r s : Bool)
    → ((if not p then false else if not q then false else if r then s else false) ≡ true)
      ↔ ((p ≡ true) × (q ≡ true) × (r ≡ true) × (s ≡ true))
tests_iff p q r s = (λ h. ground arith, λ h. ground arith)

-- The comparison with the reference succeeds exactly if the program counter and the mode, all 32
-- general registers and the first 17 control and status registers but `mip` and the two scratch
-- registers are the same.
pub isa_difftest_checkregs-SameState :
    (ref : Cpu) (next_pc : ℕ) (c : Cpu)
    → (isa_difftest_checkregs ref next_pc c ≡ true) ↔ SameState next_pc ref c
unfolding isa_difftest_checkregs
isa_difftest_checkregs-SameState ref next_pc c =
    let t =
      tests_iff (ref.pc == next_pc) (ref.mode == c.mode) (check_gpr 32 0 ref c)
        (check_csr 17 0 ref c) in
    let g = check_gpr-SameGpr 32 0 32 ref c refl in
    let s = check_csr-SameCsr 17 0 17 ref c refl in
    (
      λ h. record {
        pc = (==_iff ref.pc next_pc).0 ((t.0 h).0);
        mode = (==_iff ref.mode c.mode).0 ((t.0 h).1);
        gpr = g.0 ((t.0 h).2);
        csr = s.0 ((t.0 h).3);
      },
      λ h.
          t.1 (
            (==_iff ref.pc next_pc).1 h.pc,
            (==_iff ref.mode c.mode).1 h.mode,
            g.1 h.gpr,
            s.1 h.csr,
          ),
    )
