-- ===== src/Inst/Table.antt =====
-- The instruction table of `decode_exec` in mayfly_emu/cpu/inst.c: each `INSTPAT` with its pattern, its
-- operand type and the operation that its body performs. Instructions whose bodies are the same
-- text on their operands share an operation.
pub mod Symbolic
pub mod Encodings
pub mod Isa
use Prim.Native.String.{String}
use mayfly_emu.Prelude.{
  ℕ, Bool, true, false, if◌then◌else◌, List, [], ◌∷◌, ◌++◌, Option, none, some,
}
use mayfly_emu.Run.{Run, done, and_then}
use mayfly_emu.Inst.Pattern.{codes, pattern_decode, matches}

-- `TYPE_I` and the others.
pub data OperandType : Type 0 where
  type_i type_u type_s type_r type_b type_j type_csr type_ir type_n : OperandType

pub data AluOp : Type 0 where
  auipc lui add addw and_op sll slli sllw slt sltiu sltu sra srai sraw srl srlw sub subw : AluOp
  or_op xor_op mul mulh mulhsu mulhu mulw : AluOp

pub data BranchOp : Type 0 where
  beq bge bgeu blt bltu bne : BranchOp

pub data CsrOp : Type 0 where
  csrrc csrrci csrrs csrrsi csrrw csrrwi : CsrOp

pub data LoadOp : Type 0 where
  ld lb lbu lh lhu lw lwu : LoadOp

pub data StoreOp : Type 0 where
  sd sb sh sw : StoreOp

pub data DivisionOp : Type 0 where
  div divu divuw divw rem remu remuw remw : DivisionOp

pub data AmoOp : Type 0 where
  amoswap amoadd amoxor amoand amoor amomin amomax amominu amomaxu : AmoOp

pub data Op : Type 0 where
  alu : AluOp → Op
  branch : BranchOp → Op
  csr : CsrOp → Op
  load : LoadOp → Op
  store : StoreOp → Op
  division : DivisionOp → Op
  amo_d amo_w : AmoOp → Op
  nothing jal jalr ebreak mret sret ecall lr_d sc_d lr_w sc_w inv : Op

pub record Row : Type 0 where
  pub pattern : List ℕ
  pub type : OperandType
  pub op : Op

abbrev pub inst_pat : String → OperandType → Op → Row
inst_pat p t o = record { pattern = codes p; type = t; op = o }

abbrev pub alu_rows : List Row
alu_rows =
    inst_pat "??????? ????? ????? ??? ????? 00101 11" type_u (alu auipc)
    ∷ inst_pat "??????? ????? ????? ??? ????? 01101 11" type_u (alu lui)
    ∷ inst_pat "??????? ????? ????? 000 ????? 00100 11" type_i (alu add)
    ∷ inst_pat "0000000 ????? ????? 000 ????? 01100 11" type_r (alu add)
    ∷ inst_pat "??????? ????? ????? 000 ????? 00110 11" type_i (alu addw)
    ∷ inst_pat "0000000 ????? ????? 000 ????? 01110 11" type_r (alu addw)
    ∷ inst_pat "0000000 ????? ????? 111 ????? 01100 11" type_r (alu and_op)
    ∷ inst_pat "??????? ????? ????? 111 ????? 00100 11" type_i (alu and_op)
    ∷ inst_pat "??????? ????? ????? 000 ????? 11000 11" type_b (branch beq)
    ∷ inst_pat "??????? ????? ????? 101 ????? 11000 11" type_b (branch bge)
    ∷ inst_pat "??????? ????? ????? 111 ????? 11000 11" type_b (branch bgeu)
    ∷ inst_pat "??????? ????? ????? 100 ????? 11000 11" type_b (branch blt)
    ∷ inst_pat "??????? ????? ????? 110 ????? 11000 11" type_b (branch bltu)
    ∷ inst_pat "??????? ????? ????? 001 ????? 11000 11" type_b (branch bne)
    ∷ []

abbrev pub csr_load_rows : List Row
csr_load_rows =
    inst_pat "??????? ????? ????? 011 ????? 11100 11" type_csr (csr csrrc)
    ∷ inst_pat "??????? ????? ????? 111 ????? 11100 11" type_csr (csr csrrci)
    ∷ inst_pat "??????? ????? ????? 010 ????? 11100 11" type_csr (csr csrrs)
    ∷ inst_pat "??????? ????? ????? 110 ????? 11100 11" type_csr (csr csrrsi)
    ∷ inst_pat "??????? ????? ????? 001 ????? 11100 11" type_csr (csr csrrw)
    ∷ inst_pat "??????? ????? ????? 101 ????? 11100 11" type_csr (csr csrrwi)
    ∷ inst_pat "??????? ????? ????? 011 ????? 00000 11" type_i (load ld)
    ∷ inst_pat "??????? ????? ????? 000 ????? 00000 11" type_i (load lb)
    ∷ inst_pat "??????? ????? ????? 100 ????? 00000 11" type_i (load lbu)
    ∷ inst_pat "??????? ????? ????? 001 ????? 00000 11" type_i (load lh)
    ∷ inst_pat "??????? ????? ????? 101 ????? 00000 11" type_i (load lhu)
    ∷ inst_pat "??????? ????? ????? ??? ????? 01101 11" type_u (alu lui)
    ∷ inst_pat "??????? ????? ????? 010 ????? 00000 11" type_i (load lw)
    ∷ inst_pat "??????? ????? ????? 110 ????? 00000 11" type_i (load lwu)
    ∷ inst_pat "??????? ????? ????? 011 ????? 01000 11" type_s (store sd)
    ∷ inst_pat "??????? ????? ????? 000 ????? 01000 11" type_s (store sb)
    ∷ inst_pat "??????? ????? ????? 001 ????? 01000 11" type_s (store sh)
    ∷ []

abbrev pub shift_rows : List Row
shift_rows =
    inst_pat "0000000 ????? ????? 001 ????? 01100 11" type_r (alu sll)
    ∷ inst_pat "000000? ????? ????? 001 ????? 00100 11" type_ir (alu slli)
    ∷ inst_pat "0000000 ????? ????? 001 ????? 00110 11" type_ir (alu sllw)
    ∷ inst_pat "0000000 ????? ????? 001 ????? 01110 11" type_r (alu sllw)
    ∷ inst_pat "0000000 ????? ????? 010 ????? 01100 11" type_r (alu slt)
    ∷ inst_pat "??????? ????? ????? 010 ????? 00100 11" type_i (alu slt)
    ∷ inst_pat "??????? ????? ????? 011 ????? 00100 11" type_i (alu sltiu)
    ∷ inst_pat "0000000 ????? ????? 011 ????? 01100 11" type_r (alu sltu)
    ∷ inst_pat "0100000 ????? ????? 101 ????? 01100 11" type_r (alu sra)
    ∷ inst_pat "010000? ????? ????? 101 ????? 00100 11" type_ir (alu srai)
    ∷ inst_pat "0100000 ????? ????? 101 ????? 00110 11" type_ir (alu sraw)
    ∷ inst_pat "0100000 ????? ????? 101 ????? 01110 11" type_r (alu sraw)
    ∷ inst_pat "0000000 ????? ????? 101 ????? 01100 11" type_r (alu srl)
    ∷ inst_pat "000000? ????? ????? 101 ????? 00100 11" type_ir (alu srl)
    ∷ inst_pat "0000000 ????? ????? 101 ????? 00110 11" type_ir (alu srlw)
    ∷ inst_pat "0000000 ????? ????? 101 ????? 01110 11" type_r (alu srlw)
    ∷ inst_pat "0100000 ????? ????? 000 ????? 01100 11" type_r (alu sub)
    ∷ inst_pat "0100000 ????? ????? 000 ????? 01110 11" type_r (alu subw)
    ∷ inst_pat "??????? ????? ????? 010 ????? 01000 11" type_s (store sw)
    ∷ inst_pat "0000000 ????? ????? 110 ????? 01100 11" type_r (alu or_op)
    ∷ inst_pat "??????? ????? ????? 110 ????? 00100 11" type_i (alu or_op)
    ∷ inst_pat "0000000 ????? ????? 100 ????? 01100 11" type_r (alu xor_op)
    ∷ inst_pat "??????? ????? ????? 100 ????? 00100 11" type_i (alu xor_op)
    ∷ []

abbrev pub mul_div_rows : List Row
mul_div_rows =
    inst_pat "0000001 ????? ????? 100 ????? 01100 11" type_r (division div)
    ∷ inst_pat "0000001 ????? ????? 101 ????? 01100 11" type_r (division divu)
    ∷ inst_pat "0000001 ????? ????? 101 ????? 01110 11" type_r (division divuw)
    ∷ inst_pat "0000001 ????? ????? 100 ????? 01110 11" type_r (division divw)
    ∷ inst_pat "0000001 ????? ????? 000 ????? 01100 11" type_r (alu mul)
    ∷ inst_pat "0000001 ????? ????? 001 ????? 01100 11" type_r (alu mulh)
    ∷ inst_pat "0000001 ????? ????? 010 ????? 01100 11" type_r (alu mulhsu)
    ∷ inst_pat "0000001 ????? ????? 011 ????? 01100 11" type_r (alu mulhu)
    ∷ inst_pat "0000001 ????? ????? 000 ????? 01110 11" type_r (alu mulw)
    ∷ inst_pat "0000001 ????? ????? 110 ????? 01100 11" type_r (division rem)
    ∷ inst_pat "0000001 ????? ????? 111 ????? 01100 11" type_r (division remu)
    ∷ inst_pat "0000001 ????? ????? 111 ????? 01110 11" type_r (division remuw)
    ∷ inst_pat "0000001 ????? ????? 110 ????? 01110 11" type_r (division remw)
    ∷ []

abbrev pub system_rows : List Row
system_rows =
    inst_pat "0001000 00101 00000 000 00000 11100 11" type_n nothing
    ∷ inst_pat "??????? ????? ????? ??? ????? 11011 11" type_j jal
    ∷ inst_pat "??????? ????? ????? 000 ????? 11001 11" type_i jalr
    ∷ inst_pat "0000000 00001 00000 000 00000 11100 11" type_n ebreak
    ∷ inst_pat "??????? ????? 00000 000 00000 00011 11" type_n nothing
    ∷ inst_pat "0000000 00000 00000 001 00000 00011 11" type_n nothing
    ∷ inst_pat "0011000 00010 00000 000 00000 11100 11" type_n mret
    ∷ inst_pat "0001000 00010 00000 000 00000 11100 11" type_n sret
    ∷ inst_pat "0001001 ????? ????? 000 00000 11100 11" type_n nothing
    ∷ inst_pat "0000000 00000 00000 000 00000 11100 11" type_n ecall
    ∷ []

abbrev pub amo_rows : List Row
amo_rows =
    inst_pat "00010 ?? 00000 ????? 011 ????? ????? ??" type_r lr_d
    ∷ inst_pat "00011 ?? ????? ????? 011 ????? ????? ??" type_r sc_d
    ∷ inst_pat "00001 ?? ????? ????? 011 ????? ????? ??" type_r (amo_d amoswap)
    ∷ inst_pat "00000 ?? ????? ????? 011 ????? ????? ??" type_r (amo_d amoadd)
    ∷ inst_pat "00100 ?? ????? ????? 011 ????? ????? ??" type_r (amo_d amoxor)
    ∷ inst_pat "01100 ?? ????? ????? 011 ????? ????? ??" type_r (amo_d amoand)
    ∷ inst_pat "01000 ?? ????? ????? 011 ????? ????? ??" type_r (amo_d amoor)
    ∷ inst_pat "10000 ?? ????? ????? 011 ????? ????? ??" type_r (amo_d amomin)
    ∷ inst_pat "10100 ?? ????? ????? 011 ????? ????? ??" type_r (amo_d amomax)
    ∷ inst_pat "11000 ?? ????? ????? 011 ????? ????? ??" type_r (amo_d amominu)
    ∷ inst_pat "11100 ?? ????? ????? 011 ????? ????? ??" type_r (amo_d amomaxu)
    ∷ inst_pat "00010 ?? 00000 ????? 010 ????? ????? ??" type_r lr_w
    ∷ inst_pat "00011 ?? ????? ????? 010 ????? ????? ??" type_r sc_w
    ∷ inst_pat "00001 ?? ????? ????? 010 ????? ????? ??" type_r (amo_w amoswap)
    ∷ inst_pat "00000 ?? ????? ????? 010 ????? ????? ??" type_r (amo_w amoadd)
    ∷ inst_pat "00100 ?? ????? ????? 010 ????? ????? ??" type_r (amo_w amoxor)
    ∷ inst_pat "01100 ?? ????? ????? 010 ????? ????? ??" type_r (amo_w amoand)
    ∷ inst_pat "01000 ?? ????? ????? 010 ????? ????? ??" type_r (amo_w amoor)
    ∷ inst_pat "10000 ?? ????? ????? 010 ????? ????? ??" type_r (amo_w amomin)
    ∷ inst_pat "10100 ?? ????? ????? 010 ????? ????? ??" type_r (amo_w amomax)
    ∷ inst_pat "11000 ?? ????? ????? 010 ????? ????? ??" type_r (amo_w amominu)
    ∷ inst_pat "11100 ?? ????? ????? 010 ????? ????? ??" type_r (amo_w amomaxu)
    ∷ inst_pat "??????? ????? ????? ??? ????? ????? ??" type_n inv
    ∷ []

abbrev pub inst_table : List Row
inst_table =
    alu_rows ++ (csr_load_rows ++ (shift_rows ++ (mul_div_rows ++ (system_rows ++ amo_rows))))

-- The first row whose pattern matches, as the `goto` behind each body has it.
unfoldable pub find_row : List Row → ℕ → Run (Option Row)
find_row [] isa = done none
find_row (row ∷ rest) isa =
    let later = find_row rest isa in
    and_then (pattern_decode row.pattern) λ p. if matches p isa then done (some row) else later
