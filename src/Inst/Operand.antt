-- ===== src/Inst/Operand.antt =====
-- Operands: the immediates and `decode_operand` of mayfly_emu/cpu/inst.c.
pub mod Immediate
use mayfly_emu.Prelude.{ℕ, ◌+◌, ◌-◌, ◌*◌, ◌/◌, ◌%◌, ◌^◌, bit_and, bit_or}
use mayfly_emu.Word.{bits, sext, ◌<<<◌}
use mayfly_emu.Cpu.{Cpu}
use mayfly_emu.Csr.{csr_read}
use mayfly_emu.Inst.Table.{
  OperandType, type_i, type_u, type_s, type_r, type_b, type_j, type_csr, type_ir, type_n,
}

-- The locals of `decode_exec`.
pub record Operands : Type 0 where
  pub dest : ℕ
  pub src1 : ℕ
  pub src2 : ℕ
  pub csr_addr : ℕ
  pub csr_value : ℕ

unfoldable pub imm_i : ℕ → ℕ
unfolding sext bits
imm_i i = sext (bits i 31 20) 12

unfoldable pub imm_u : ℕ → ℕ
unfolding sext bits
imm_u i = (sext (bits i 31 12) 20 <<< 12) % 2 ^ 64

unfoldable pub imm_s : ℕ → ℕ
unfolding sext bits
imm_s i = bit_or ((sext (bits i 31 25) 7 <<< 5) % 2 ^ 64) (bits i 11 7)

unfoldable pub imm_j : ℕ → ℕ
unfolding sext bits
imm_j i =
    let raw =
      bit_or (bit_or (bit_or (bits i 31 31 <<< 19) (bits i 30 21)) (bits i 20 20 <<< 10))
        (bits i 19 12 <<< 11) in
    (sext raw 20 <<< 1) % 2 ^ 64

unfoldable pub imm_b : ℕ → ℕ
unfolding sext bits
imm_b i =
    let raw =
      bit_or (bit_or (bit_or (bits i 31 31 <<< 11) (bits i 30 25 <<< 4)) (bits i 11 8))
        (bits i 7 7 <<< 10) in
    (sext raw 12 <<< 1) % 2 ^ 64

-- Reads the operands of an instruction of the type; the read of a CSR may raise an exception.
unfoldable pub decode_operand : OperandType → ℕ → Cpu → Operands × Cpu
unfolding imm_i imm_u imm_s imm_j imm_b bits csr_read
decode_operand type i c =
    let r1 = c.gpr (bits i 19 15) in
    let r2 = c.gpr (bits i 24 20) in
    let o : Operands = record {
      dest = bits i 11 7;
      src1 = 0;
      src2 = 0;
      csr_addr = bits i 31 20;
      csr_value = 0;
    } in
    elim type [
      | type_i ↦ (record o { src1 = r1; src2 = imm_i i }, c)
      | type_u ↦ (record o { src1 = imm_u i }, c)
      | type_s ↦ (record o { dest = imm_s i; src1 = r1; src2 = r2 }, c)
      | type_j ↦ (record o { src1 = imm_j i }, c)
      | type_r ↦ (record o { src1 = r1; src2 = r2 }, c)
      | type_b ↦ (record o { src1 = r1; src2 = r2; dest = imm_b i }, c)
      | type_csr ↦
          let (value, c') = csr_read (bits i 31 20) c in
          (record o { src1 = r1; csr_value = value; src2 = bits i 19 15 }, c')
      | type_ir ↦ (record o { src1 = r1; src2 = bits i 25 20 }, c)
      | type_n ↦ (o, c)
    ]
