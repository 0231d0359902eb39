-- ===== src/Intr/Query.antt =====
-- Which interrupt `isa_query_intr` of mayfly_emu/system/intr.c chooses, against an independent
-- reading of the privileged architecture: the first of the priority list that is pending, enabled
-- by its own bit and enabled for the mode.
use mayfly_emu.Prelude.{ℕ, ◌/◌, ◌%◌, ◌^◌, ◌<◌, ◌≡◌, ◌⊎◌, inl, inr, refl, arith}
use mayfly_emu.Prelude.{
  Bool, true, false, ◌==◌, ◌&&◌, List, [], ◌∷◌, bit_and, bit_or, Bool-cases, ◌↔◌, ◌||◌, ltb, sym,
  ==_iff, if◌then◌else◌, ap, ◌∙◌,
}
use native.Mathlib.Nat.{one-le-pow, zero-div}
use mathlib.Core.Bool.{false≢true}
use mayfly_emu.Cpu.{Cpu, mode_s, mode_m, mstatus}
use mayfly_emu.Word.{bit_and-pow}
use mayfly_emu.Intr.{
  intr_bit, intr_empty, test_bit, priority, global_enable, query_loop, isa_query_intr, raise_intr,
  intr_deleg_S, trap_M, keeps_tval,
}

-- The interrupt may be taken in this state. A delegated one (`mideleg`) belongs to S, another to M;
-- it is taken in a lower mode, and in its own mode where that mode's enable bit is set.
abbrev pub IsEnabled : Cpu → ℕ → ℕ → Type 0
IsEnabled c level enable_bit = (c.mode < level) ⊎ ((c.mode ≡ level) × (mstatus enable_bit 1 c ≡ 1))

abbrev pub bit_at : ℕ → ℕ → ℕ
bit_at x n = x / 2 ^ n % 2

abbrev pub IsTaken : Cpu → ℕ → Type 0
IsTaken c irq =
    (bit_at (bit_and (c.csr 5) (c.csr 4)) irq ≡ 1)
    × (((bit_at (c.csr 3) irq ≡ 1) × IsEnabled c mode_s 1)
        ⊎ ((bit_at (c.csr 3) irq ≡ 0) × IsEnabled c mode_m 3))

-- `x` is the answer that the list asks for.
pub data IsChoice (c : Cpu) : List ℕ → ℕ → Type 0 where
  nothing : {x : ℕ} → x ≡ intr_empty → IsChoice c [] x
  here :
      {irq x : ℕ} {rest : List ℕ}
      → IsTaken c irq
      → x ≡ bit_or irq intr_bit
      → IsChoice c (irq ∷ rest) x
  later :
      {irq x : ℕ} {rest : List ℕ} → ¬ IsTaken c irq → IsChoice c rest x → IsChoice c (irq ∷ rest) x

-- `x & (1 << n)` is a test of the n-th binary digit.
pub test_bit_lem : (x n : ℕ) → test_bit x n ≡ (bit_at x n == 1)
test_bit_lem x n = elim (digit_cases (x / 2 ^ n)) [
  | inl z ↦ rw (bit_and-pow n x) (rw z (ground (arith, one-le-pow n 2)))
  | inr o ↦ rw (bit_and-pow n x) (rw o (ground (arith, one-le-pow n 2)))
]
  where
    digit_cases : (y : ℕ) → (y % 2 ≡ 0) ⊎ (y % 2 ≡ 1)
    digit_cases y = omega arith

digit_cases : (y : ℕ) → (y % 2 ≡ 0) ⊎ (y % 2 ≡ 1)
digit_cases y = omega arith

enable_S_iff :
    (c : Cpu)
    → (((c.mode == mode_s && mstatus 1 1 c == 1) || ltb c.mode mode_s) ≡ true)
      ↔ IsEnabled c mode_s 1
enable_S_iff c = (λ h. ground arith, λ h. ground arith)

enable_M_iff :
    (c : Cpu)
    → (((c.mode == mode_m && mstatus 3 1 c == 1) || ltb c.mode mode_m) ≡ true)
      ↔ IsEnabled c mode_m 3
enable_M_iff c = (λ h. ground arith, λ h. ground arith)

enable_iff :
    (c : Cpu) (irq : ℕ)
    → (global_enable irq c ≡ true) ↔ (
        ((bit_at (c.csr 3) irq ≡ 1) × IsEnabled c mode_s 1)
        ⊎ ((bit_at (c.csr 3) irq ≡ 0) × IsEnabled c mode_m 3))
unfolding global_enable
enable_iff c irq = elim (digit_cases (c.csr 3 / 2 ^ irq)) [
  | inl z ↦
      rw (test_bit_lem (c.csr 3) irq, z)
        (
          λ h. inr (refl, (enable_M_iff c).0 h),
          λ h. (enable_M_iff c).1 (elim h [ inl s ↦ absurd (omega arith) | inr m ↦ m.1 ]),
        )
  | inr o ↦
      rw (test_bit_lem (c.csr 3) irq, o)
        (
          λ h. inl (refl, (enable_S_iff c).0 h),
          λ h. (enable_S_iff c).1 (elim h [ inl s ↦ s.1 | inr m ↦ absurd (omega arith) ]),
        )
]

-- The test of the loop is the specification, both ways.
IsTaken-iff :
    (c : Cpu) (irq : ℕ)
    → ((test_bit (bit_and (c.csr 5) (c.csr 4)) irq && global_enable irq c) ≡ true) ↔ IsTaken c irq
IsTaken-iff c irq = elim (digit_cases (bit_and (c.csr 5) (c.csr 4) / 2 ^ irq)) [
  | inl z ↦
      rw (test_bit_lem (bit_and (c.csr 5) (c.csr 4)) irq, z) (λ h. cc, λ h. absurd (omega arith))
  | inr o ↦
      rw (test_bit_lem (bit_and (c.csr 5) (c.csr 4)) irq, o)
        (λ h. (refl, (enable_iff c irq).0 h), λ h. (enable_iff c irq).1 h.1)
]

loop-IsChoice :
    (c : Cpu) (irqs : List ℕ) → IsChoice c irqs (query_loop irqs (bit_and (c.csr 5) (c.csr 4)) c)
unfolding query_loop
loop-IsChoice c [] = nothing refl
loop-IsChoice c (irq ∷ rest) =
    elim (Bool-cases (test_bit (bit_and (c.csr 5) (c.csr 4)) irq && global_enable irq c)) [
      | inl t ↦ rw t (here ((IsTaken-iff c irq).0 t) refl)
      | inr f ↦
          rw f (later (λ t. false≢true (sym f ∙ (IsTaken-iff c irq).1 t)) (loop-IsChoice c rest))
    ]

none-IsChoice :
    (c : Cpu) (irqs : List ℕ) → bit_and (c.csr 5) (c.csr 4) ≡ 0 → IsChoice c irqs intr_empty
none-IsChoice c [] z = nothing refl
none-IsChoice c (irq ∷ rest) z = later (λ t. absurd (none t.0)) (none-IsChoice c rest z)
  where
    none : bit_at (bit_and (c.csr 5) (c.csr 4)) irq ≡ 1 → ⊥
    none t = omega (arith, ap (λ (v : ℕ). bit_at v irq) z, zero-div (2 ^ irq))

-- The query answers with the first interrupt of the priority list that is pending, enabled by its
-- bit of `mie` and enabled for the mode, with the top bit set, and with `INTR_EMPTY` if there is
-- none.
pub isa_query_intr-IsChoice : (c : Cpu) → IsChoice c priority (isa_query_intr c)
unfolding isa_query_intr
isa_query_intr-IsChoice c = elim (Bool-cases (bit_and (c.csr 5) (c.csr 4) == 0)) [
  | inl z ↦ rw z (none-IsChoice c priority ((==_iff _ _).0 z))
  | inr n ↦ rw n (loop-IsChoice c priority)
]

masked_loop :
    (c : Cpu) (irqs : List ℕ) (vec : ℕ)
    → c.mode ≡ mode_m
    → mstatus 3 1 c ≡ 0
    → query_loop irqs vec c ≡ intr_empty
unfolding query_loop
masked_loop c [] vec m e = refl
masked_loop c (irq ∷ rest) vec m e =
    rw (off, &&-false (test_bit vec irq)) (masked_loop c rest vec m e)
  where
    off : global_enable irq c ≡ false
    off = unfold global_enable in ground arith

    &&-false : (b : Bool) → (b && false) ≡ false
    &&-false true = refl
    &&-false false = refl

trap_M-masks :
    (cause epc : ℕ) (c : Cpu)
    → ((trap_M cause epc c).mode ≡ mode_m) × (mstatus 3 1 (trap_M cause epc c) ≡ 0)
unfolding trap_M
trap_M-masks cause epc c = elim (Bool-cases (keeps_tval cause)) [
  | inl keep ↦ rw keep (refl, omega arith)
  | inr drop ↦ rw drop (refl, omega arith)
]

-- A trap that is not delegated masks every interrupt: until the handler changes the enable bits,
-- the query finds none, so that the handler is not interrupted.
pub isa_query_intr-raise_intr :
    (cause epc : ℕ) (c : Cpu)
    → intr_deleg_S cause c ≡ false
    → isa_query_intr (raise_intr cause epc c).1 ≡ intr_empty
unfolding raise_intr isa_query_intr
isa_query_intr-raise_intr cause epc c d =
    let t = trap_M cause epc c in
    let m = trap_M-masks cause epc c in
    rw (d, masked_loop t priority (bit_and (t.csr 5) (t.csr 4)) m.0 m.1) (if_same _)
  where
    if_same : (b : Bool) → (if b then intr_empty else intr_empty) ≡ intr_empty
    if_same true = refl
    if_same false = refl
