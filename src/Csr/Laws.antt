-- ===== src/Csr/Laws.antt =====
-- What the accesses to the control and status registers keep, raise and give back.
use mayfly_emu.Prelude.{ℕ, ◌-◌, ◌^◌, ◌/◌, ◌≡◌, ◌≢◌, refl, sym, arith, bit_and}
use mayfly_emu.Prelude.{false, update, ap, ◌∙◌}
use mayfly_emu.Word.{masked, bit_and-masked, bit_and-masked_rest}
use mayfly_emu.Cpu.{Cpu}
use mayfly_emu.Csr.{
  CsrCase, satp, bad, reg, csr_read_case, csr_write_case, csr_read, csr_write, write_case,
  read_case, read_default, write_default, check_read, check_write, check_csr_idx,
}

-- What neither access touches.
pub record SameHart (c r : Cpu) : Type 0 where
  pub gpr : r.gpr ≡ c.gpr
  pub pc : r.pc ≡ c.pc
  pub pre_pc : r.pre_pc ≡ c.pre_pc
  pub mode : r.mode ≡ c.mode
  pub tval : r.m_s_tval ≡ c.m_s_tval
  pub cause : r.m_s_cause ≡ c.m_s_cause
  pub amo : r.amo ≡ c.amo
  pub irq : r.is_irq ≡ c.is_irq
  pub mmio : r.is_mmio ≡ c.is_mmio

-- What a write raises by its case.
write_tail :
    (k : CsrCase) (idx v : ℕ) (c : Cpu)
    → let r = check_write idx (write_default k (write_case k v c)) in
      SameHart c r × (r.is_except ≡ (check_read idx (read_default k c)).is_except)
unfolding write_case
write_tail satp idx v c = ground arith
write_tail _ idx v c = ground arith

-- The two switches have the same labels.
same_labels : (idx : ℕ) → csr_write_case idx ≡ csr_read_case idx
unfolding csr_write_case csr_read_case
same_labels idx = refl

-- A write touches no register but the control and status registers, and it raises exactly when a
-- read of the same address does.
pub csr_write-raises :
    (idx v : ℕ) (c : Cpu)
    → SameHart c (csr_write idx v c)
      × ((csr_write idx v c).is_except ≡ (csr_read idx c).1.is_except)
unfolding csr_write csr_read
csr_write-raises idx v c =
    let t = write_tail (csr_write_case idx) idx v c in
    (
      t.0,
      t.1 ∙ ap (λ (k : CsrCase). (check_read idx (read_default k c)).is_except) (same_labels idx),
    )

-- A read raises for an address that no case serves, and for one above 0x200 outside of M; the
-- check of `check_csr_idx` agrees with it at every address but 0x34a and 0xb02.
pub csr_read-check_csr_idx :
    (idx : ℕ) (c : Cpu)
    → idx ≢ 0x34a
    → idx ≢ 0xb02
    → c.is_except ≡ false
    → (csr_read idx c).1.is_except ≡ (check_csr_idx idx c).1.is_except
unfolding csr_read check_csr_idx
csr_read-check_csr_idx idx c h k n = ground arith

-- `r` is `c` after a write of `v` to the bits of `mask` of register `i`, and to nothing else.
pub record IsMaskedWrite (i mask v : ℕ) (c r : Cpu) : Type 0 where
  pub inside : bit_and (r.csr i) mask ≡ bit_and v mask
  pub outside : bit_and (r.csr i) (2 ^ 64 - 1 - mask) ≡ bit_and (c.csr i) (2 ^ 64 - 1 - mask)
  pub others : (j : ℕ) → i ≢ j → r.csr j ≡ c.csr j

csr_write-csr :
    (idx v : ℕ) (c : Cpu) → (csr_write idx v c).csr ≡ (write_case (csr_write_case idx) v c).csr
unfolding csr_write
csr_write-csr idx v c = keeps (csr_write_case idx) (write_case (csr_write_case idx) v c)
  where
    keeps : (k : CsrCase) (r : Cpu) → (check_write idx (write_default k r)).csr ≡ r.csr
    keeps bad r = ground arith
    keeps _ r = ground arith

-- A register that is served whole reads back as written, and any other register keeps its value.
pub csr_read-csr_write :
    (idx i j v : ℕ) (c : Cpu)
    → csr_write_case idx ≡ reg i
    → i ≢ j
    → ((csr_read idx (csr_write idx v c)).0 ≡ v) × ((csr_write idx v c).csr j ≡ c.csr j)
unfolding csr_read
csr_read-csr_write idx i j v c k ne = (
  ap (λ (t : CsrCase). read_case t r) (sym (same_labels idx) ∙ k)
      ∙ read_reg r
      ∙ ap (λ (f : ℕ → ℕ). f i) written
      ∙ here,
  ap (λ (f : ℕ → ℕ). f j) written ∙ there,
)
  where
    r : Cpu
    r = csr_write idx v c

    written : r.csr ≡ (write_case (reg i) v c).csr
    written = csr_write-csr idx v c ∙ ap (λ (t : CsrCase). (write_case t v c).csr) k

    read_reg : (c : Cpu) → read_case (reg i) c ≡ c.csr i
    read_reg c = unfold read_case in refl

    here : (write_case (reg i) v c).csr i ≡ v
    here = unfold write_case in ground arith

    there : (write_case (reg i) v c).csr j ≡ c.csr j
    there = unfold write_case in ground arith

-- A write to `satp` whose mode is not Sv39, Bare included, is ignored.
pub csr_write_satp_ignored : (v : ℕ) (c : Cpu) → v / 2 ^ 60 ≢ 8 → (csr_write 0x180 v c).csr ≡ c.csr
csr_write_satp_ignored v c ne =
    csr_write-csr 0x180 v c ∙ (unfold write_case csr_write_case in ground arith)

-- A write to `satp` whose mode is Sv39 stores the mode and the page number, but takes the bits
-- between them, the address space's, from `mstatus`.
pub csr_write_satp :
    (v : ℕ) (c : Cpu)
    → v / 2 ^ 60 ≡ 8
    → let r = csr_write 0x180 v c in
      (bit_and (r.csr 16) 0xf0000fffffffffff ≡ bit_and v 0xf0000fffffffffff)
      × (bit_and (r.csr 16) 0x0ffff00000000000 ≡ bit_and (c.csr 0) 0x0ffff00000000000)
csr_write_satp v c e = (
  ap (λ (f : ℕ → ℕ). bit_and (f 16) 0xf0000fffffffffff) written
      ∙ bit_and-masked 64 (c.csr 0) v 0xf0000fffffffffff (omega arith),
  ap (λ (f : ℕ → ℕ). bit_and (f 16) 0x0ffff00000000000) written
      ∙ bit_and-masked_rest 64 (c.csr 0) v 0xf0000fffffffffff (omega arith),
)
  where
    written : (csr_write 0x180 v c).csr ≡ update c.csr 16 (masked 64 (c.csr 0) v 0xf0000fffffffffff)
    written = csr_write-csr 0x180 v c ∙ (unfold write_case csr_write_case in rw e)
