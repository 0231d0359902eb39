-- ===== src/Inst/Table/Encodings.antt =====
-- The instruction words of RV64IMA and of its privileged instructions, from their encodings in the
-- manual (opcode, funct3, funct7 and funct5), with the operand type and the operation that
-- mayfly_emu/cpu/inst.c should give them.
use mayfly_emu.Prelude.{ℕ, zero, suc, ◌/◌, ◌%◌, ◌==◌, if◌then◌else◌}
use mayfly_emu.Prelude.{List, [], ◌∷◌, ◌++◌}
use mayfly_emu.Inst.Table.{
  OperandType, type_i, type_u, type_s, type_r, type_b, type_j, type_csr, type_ir, type_n, Op, alu,
  branch, csr, load, store, division, amo_d, amo_w, nothing, jal, jalr, ebreak, mret, sret, ecall,
  lr_d, sc_d, lr_w, sc_w, auipc, lui, add, addw, and_op, sll, slli, sllw, slt, sltiu, sltu, sra,
  srai, sraw, srl, srlw, sub, subw, or_op, xor_op, mul, mulh, mulhsu, mulhu, mulw, beq, bge, bgeu,
  blt, bltu, bne, csrrc, csrrci, csrrs, csrrsi, csrrw, csrrwi, ld, lb, lbu, lh, lhu, lw, lwu, sd,
  sb, sh, sw, div, divu, divuw, divw, rem, remu, remuw, remw, amoswap, amoadd, amoxor, amoand,
  amoor, amomin, amomax, amominu, amomaxu,
}

-- `n` bits of a value, the lowest first, and `n` free bits.
abbrev pub fixed : ℕ → ℕ → List ℕ
fixed zero v = []
fixed (suc n) v = (if v % 2 == 1 then b'1' else b'0') ∷ fixed n (v / 2)

abbrev pub free : ℕ → List ℕ
free zero = []
free (suc n) = b'?' ∷ free n

-- The classes of words that an encoding's fields give.
abbrev pub opcode_class : ℕ → List ℕ
opcode_class opcode = fixed 7 opcode

abbrev pub f3_class : ℕ → ℕ → List ℕ
f3_class opcode f3 = fixed 7 opcode ++ (free 5 ++ fixed 3 f3)

abbrev pub f7_class : ℕ → ℕ → ℕ → List ℕ
f7_class opcode f3 f7 = f3_class opcode f3 ++ (free 10 ++ fixed 7 f7)

abbrev pub f6_class : ℕ → ℕ → ℕ → List ℕ
f6_class opcode f3 f6 = f3_class opcode f3 ++ (free 11 ++ fixed 6 f6)

abbrev pub f5_class : ℕ → ℕ → ℕ → List ℕ
f5_class opcode f3 f5 = f3_class opcode f3 ++ (free 12 ++ fixed 5 f5)

abbrev pub lr_class : ℕ → List ℕ
lr_class f3 = f3_class 0x2f f3 ++ (free 5 ++ (fixed 5 0 ++ (free 2 ++ fixed 5 2)))

-- `fence` with its reserved fields rd and rs1 0, and `sfence.vma`.
abbrev pub fence_class : List ℕ
fence_class = fixed 7 0x0f ++ (fixed 5 0 ++ (fixed 3 0 ++ (fixed 5 0 ++ free 12)))

abbrev pub sfence_vma_class : List ℕ
sfence_vma_class = fixed 7 0x73 ++ (fixed 5 0 ++ (fixed 3 0 ++ (free 10 ++ fixed 7 0x09)))

abbrev pub word_class : ℕ → List ℕ
word_class w = fixed 32 w

pub record Entry : Type 0 where
  pub known : List ℕ
  pub type : OperandType
  pub op : Op

abbrev pub entry : List ℕ → OperandType → Op → Entry
entry k t o = record { known = k; type = t; op = o }

abbrev pub isa_control_memory : List Entry
isa_control_memory =
    entry (opcode_class 0x37) type_u (alu lui)
    ∷ entry (opcode_class 0x17) type_u (alu auipc)
    ∷ entry (opcode_class 0x6f) type_j jal
    ∷ entry (f3_class 0x67 0) type_i jalr
    ∷ entry (f3_class 0x63 0) type_b (branch beq)
    ∷ entry (f3_class 0x63 1) type_b (branch bne)
    ∷ entry (f3_class 0x63 4) type_b (branch blt)
    ∷ entry (f3_class 0x63 5) type_b (branch bge)
    ∷ entry (f3_class 0x63 6) type_b (branch bltu)
    ∷ entry (f3_class 0x63 7) type_b (branch bgeu)
    ∷ entry (f3_class 0x03 0) type_i (load lb)
    ∷ entry (f3_class 0x03 1) type_i (load lh)
    ∷ entry (f3_class 0x03 2) type_i (load lw)
    ∷ entry (f3_class 0x03 3) type_i (load ld)
    ∷ entry (f3_class 0x03 4) type_i (load lbu)
    ∷ entry (f3_class 0x03 5) type_i (load lhu)
    ∷ entry (f3_class 0x03 6) type_i (load lwu)
    ∷ entry (f3_class 0x23 0) type_s (store sb)
    ∷ entry (f3_class 0x23 1) type_s (store sh)
    ∷ entry (f3_class 0x23 2) type_s (store sw)
    ∷ entry (f3_class 0x23 3) type_s (store sd)
    ∷ []

abbrev pub isa_arithmetic : List Entry
isa_arithmetic =
    entry (f3_class 0x13 0) type_i (alu add)
    ∷ entry (f3_class 0x13 2) type_i (alu slt)
    ∷ entry (f3_class 0x13 3) type_i (alu sltiu)
    ∷ entry (f3_class 0x13 4) type_i (alu xor_op)
    ∷ entry (f3_class 0x13 6) type_i (alu or_op)
    ∷ entry (f3_class 0x13 7) type_i (alu and_op)
    ∷ entry (f6_class 0x13 1 0x00) type_ir (alu slli)
    ∷ entry (f6_class 0x13 5 0x00) type_ir (alu srl)
    ∷ entry (f6_class 0x13 5 0x10) type_ir (alu srai)
    ∷ entry (f3_class 0x1b 0) type_i (alu addw)
    ∷ entry (f7_class 0x1b 1 0x00) type_ir (alu sllw)
    ∷ entry (f7_class 0x1b 5 0x00) type_ir (alu srlw)
    ∷ entry (f7_class 0x1b 5 0x20) type_ir (alu sraw)
    ∷ entry (f7_class 0x33 0 0x00) type_r (alu add)
    ∷ entry (f7_class 0x33 0 0x20) type_r (alu sub)
    ∷ entry (f7_class 0x33 1 0x00) type_r (alu sll)
    ∷ entry (f7_class 0x33 2 0x00) type_r (alu slt)
    ∷ entry (f7_class 0x33 3 0x00) type_r (alu sltu)
    ∷ entry (f7_class 0x33 4 0x00) type_r (alu xor_op)
    ∷ entry (f7_class 0x33 5 0x00) type_r (alu srl)
    ∷ entry (f7_class 0x33 5 0x20) type_r (alu sra)
    ∷ entry (f7_class 0x33 6 0x00) type_r (alu or_op)
    ∷ entry (f7_class 0x33 7 0x00) type_r (alu and_op)
    ∷ entry (f7_class 0x3b 0 0x00) type_r (alu addw)
    ∷ entry (f7_class 0x3b 0 0x20) type_r (alu subw)
    ∷ entry (f7_class 0x3b 1 0x00) type_r (alu sllw)
    ∷ entry (f7_class 0x3b 5 0x00) type_r (alu srlw)
    ∷ entry (f7_class 0x3b 5 0x20) type_r (alu sraw)
    ∷ []

abbrev pub isa_multiply_system : List Entry
isa_multiply_system =
    entry (f7_class 0x33 0 0x01) type_r (alu mul)
    ∷ entry (f7_class 0x33 1 0x01) type_r (alu mulh)
    ∷ entry (f7_class 0x33 2 0x01) type_r (alu mulhsu)
    ∷ entry (f7_class 0x33 3 0x01) type_r (alu mulhu)
    ∷ entry (f7_class 0x33 4 0x01) type_r (division div)
    ∷ entry (f7_class 0x33 5 0x01) type_r (division divu)
    ∷ entry (f7_class 0x33 6 0x01) type_r (division rem)
    ∷ entry (f7_class 0x33 7 0x01) type_r (division remu)
    ∷ entry (f7_class 0x3b 0 0x01) type_r (alu mulw)
    ∷ entry (f7_class 0x3b 4 0x01) type_r (division divw)
    ∷ entry (f7_class 0x3b 5 0x01) type_r (division divuw)
    ∷ entry (f7_class 0x3b 6 0x01) type_r (division remw)
    ∷ entry (f7_class 0x3b 7 0x01) type_r (division remuw)
    ∷ entry (f3_class 0x73 1) type_csr (csr csrrw)
    ∷ entry (f3_class 0x73 2) type_csr (csr csrrs)
    ∷ entry (f3_class 0x73 3) type_csr (csr csrrc)
    ∷ entry (f3_class 0x73 5) type_csr (csr csrrwi)
    ∷ entry (f3_class 0x73 6) type_csr (csr csrrsi)
    ∷ entry (f3_class 0x73 7) type_csr (csr csrrci)
    ∷ entry (word_class 0x00000073) type_n ecall
    ∷ entry (word_class 0x00100073) type_n ebreak
    ∷ entry (word_class 0x10200073) type_n sret
    ∷ entry (word_class 0x30200073) type_n mret
    ∷ entry (word_class 0x10500073) type_n nothing
    ∷ entry (word_class 0x0000100f) type_n nothing
    ∷ entry fence_class type_n nothing
    ∷ entry sfence_vma_class type_n nothing
    ∷ []

abbrev pub isa_atomic : List Entry
isa_atomic =
    entry (lr_class 3) type_r lr_d
    ∷ entry (f5_class 0x2f 3 0x03) type_r sc_d
    ∷ entry (f5_class 0x2f 3 0x01) type_r (amo_d amoswap)
    ∷ entry (f5_class 0x2f 3 0x00) type_r (amo_d amoadd)
    ∷ entry (f5_class 0x2f 3 0x04) type_r (amo_d amoxor)
    ∷ entry (f5_class 0x2f 3 0x0c) type_r (amo_d amoand)
    ∷ entry (f5_class 0x2f 3 0x08) type_r (amo_d amoor)
    ∷ entry (f5_class 0x2f 3 0x10) type_r (amo_d amomin)
    ∷ entry (f5_class 0x2f 3 0x14) type_r (amo_d amomax)
    ∷ entry (f5_class 0x2f 3 0x18) type_r (amo_d amominu)
    ∷ entry (f5_class 0x2f 3 0x1c) type_r (amo_d amomaxu)
    ∷ entry (lr_class 2) type_r lr_w
    ∷ entry (f5_class 0x2f 2 0x03) type_r sc_w
    ∷ entry (f5_class 0x2f 2 0x01) type_r (amo_w amoswap)
    ∷ entry (f5_class 0x2f 2 0x00) type_r (amo_w amoadd)
    ∷ entry (f5_class 0x2f 2 0x04) type_r (amo_w amoxor)
    ∷ entry (f5_class 0x2f 2 0x0c) type_r (amo_w amoand)
    ∷ entry (f5_class 0x2f 2 0x08) type_r (amo_w amoor)
    ∷ entry (f5_class 0x2f 2 0x10) type_r (amo_w amomin)
    ∷ entry (f5_class 0x2f 2 0x14) type_r (amo_w amomax)
    ∷ entry (f5_class 0x2f 2 0x18) type_r (amo_w amominu)
    ∷ entry (f5_class 0x2f 2 0x1c) type_r (amo_w amomaxu)
    ∷ []

abbrev pub isa_table : List Entry
isa_table = isa_control_memory ++ (isa_arithmetic ++ (isa_multiply_system ++ isa_atomic))

-- The floating-point loads and stores of doublewords, which the emulator does not implement.
abbrev pub fp_atomic : List Entry
fp_atomic =
    entry (f5_class 0x07 3 0x00) type_r (amo_d amoadd)
    ∷ entry (f5_class 0x07 3 0x01) type_r (amo_d amoswap)
    ∷ entry (f5_class 0x07 3 0x03) type_r sc_d
    ∷ entry (f5_class 0x27 3 0x00) type_r (amo_d amoadd)
    ∷ entry (f5_class 0x27 3 0x01) type_r (amo_d amoswap)
    ∷ entry (f5_class 0x27 3 0x03) type_r sc_d
    ∷ []
