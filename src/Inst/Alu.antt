-- ===== src/Inst/Alu.antt =====
-- The arithmetic of the instruction bodies of mayfly_emu/cpu/inst.c. Signed multiplication wraps, as
-- in the build; `int128_t temp1 = src1` keeps the value of the unsigned `src1`. A division that C
-- leaves undefined is a fault.
pub mod Signed
pub mod Atomic
use mayfly_emu.Prelude.{ℕ, ◌+◌, ◌-◌, ◌*◌, ◌/◌, ◌%◌, ◌^◌, bit_and, bit_or, bit_xor}
use mayfly_emu.Prelude.{Bool, true, false, not, ◌&&◌, ltb, ◌==◌, if◌then◌else◌}
use mayfly_emu.Word.{u32, u64, ◌<<<◌, ◌>>>◌, not64, not32, bits, sext}
use mayfly_emu.Word.{signed64, signed32, wrap64, ltℤ, shr_ℤ, div_ℤ, rem_ℤ, ◌*ℤ◌}
use mayfly_emu.Run.{Run, done, fault, require}
use mayfly_emu.Inst.Table.{
  AluOp, auipc, lui, add, addw, and_op, sll, slli, sllw, slt, sltiu, sltu, sra, srai, sraw, srl,
  srlw, sub, subw, or_op, xor_op, mul, mulh, mulhsu, mulhu, mulw, BranchOp, beq, bge, bgeu, blt,
  bltu, bne, CsrOp, csrrc, csrrci, csrrs, csrrsi, csrrw, csrrwi, DivisionOp, div, divu, divuw, divw,
  rem, remu, remuw, remw, AmoOp, amoswap, amoadd, amoxor, amoand, amoor, amomin, amomax, amominu,
  amomaxu,
}

abbrev pub flag : Bool → ℕ
flag true = 1
flag false = 0

-- The value for `R(dest)`, from `s->pc`, `src1` and `src2`.
unfoldable pub alu_value : AluOp → ℕ → ℕ → ℕ → ℕ
unfolding sext bits
alu_value auipc pc src1 src2 = u64 (src1 + pc)
alu_value lui pc src1 src2 = src1
alu_value add pc src1 src2 = u64 (src1 + src2)
alu_value addw pc src1 src2 = sext (u64 (bits src1 31 0 + bits src2 31 0)) 32
alu_value and_op pc src1 src2 = bit_and src1 src2
alu_value sll pc src1 src2 = u64 (src1 <<< bit_and src2 0x3f)
alu_value slli pc src1 src2 = u64 (src1 <<< src2)
alu_value sllw pc src1 src2 = sext (u64 (src1 <<< bit_and src2 0x1f)) 32
alu_value slt pc src1 src2 = flag (ltℤ (signed64 src1) (signed64 src2))
alu_value sltiu pc src1 src2 = flag (ltb src1 (bit_and src2 0xfff))
alu_value sltu pc src1 src2 = flag (ltb src1 src2)
alu_value sra pc src1 src2 = wrap64 (shr_ℤ (signed64 src1) (bit_and src2 0x3f))
alu_value srai pc src1 src2 = wrap64 (shr_ℤ (signed64 src1) src2)
alu_value sraw pc src1 src2 = sext (wrap64 (shr_ℤ (signed32 (u32 src1)) (bit_and src2 0x1f))) 32
alu_value srl pc src1 src2 = src1 >>> bit_and src2 0x3f
alu_value srlw pc src1 src2 = sext (u32 src1 >>> bit_and src2 0x1f) 32
alu_value sub pc src1 src2 = u64 (src1 + u64 (not64 src2 + 1))
alu_value subw pc src1 src2 = sext (u32 (u32 src1 + u32 (not32 (u32 src2) + 1))) 32
alu_value or_op pc src1 src2 = bit_or src1 src2
alu_value xor_op pc src1 src2 = bit_xor src1 src2
alu_value mul pc src1 src2 = wrap64 (signed64 src1 *ℤ signed64 src2)
alu_value mulh pc src1 src2 = u64 (src1 * src2 >>> 64)
alu_value mulhsu pc src1 src2 = u64 (src1 * bit_and src2 0x00000000ffffffff >>> 64)
alu_value mulhu pc src1 src2 = u64 (src1 * src2 >>> 64)
alu_value mulw pc src1 src2 = sext (wrap64 (signed32 (u32 src1) *ℤ signed32 (u32 src2))) 32

-- The condition of a branch.
unfoldable pub branch_taken : BranchOp → ℕ → ℕ → Bool
branch_taken beq src1 src2 = src1 == src2
branch_taken bge src1 src2 = not (ltℤ (signed64 src1) (signed64 src2))
branch_taken bgeu src1 src2 = not (ltb src1 src2)
branch_taken blt src1 src2 = ltℤ (signed64 src1) (signed64 src2)
branch_taken bltu src1 src2 = ltb src1 src2
branch_taken bne src1 src2 = not (src1 == src2)

-- The value that an instruction of the CSRs writes.
unfoldable pub csr_update : CsrOp → ℕ → ℕ → ℕ → ℕ
csr_update csrrc csr_value src1 src2 = bit_and csr_value (not64 src1)
csr_update csrrci csr_value src1 src2 = bit_and csr_value (not64 src2)
csr_update csrrs csr_value src1 src2 = bit_or csr_value src1
csr_update csrrsi csr_value src1 src2 = bit_or csr_value src2
csr_update csrrw csr_value src1 src2 = src1
csr_update csrrwi csr_value src1 src2 = bit_or src2 (bit_and csr_value (not64 0x1f))

abbrev pub ones64 : ℕ
ones64 = 0xffffffffffffffff

-- `INT64_MIN / -1` and `INT32_MIN / -1` overflow.
abbrev pub overflows64 : ℕ → ℕ → Bool
overflows64 a b = a == 2 ^ 63 && b == 2 ^ 64 - 1

abbrev pub overflows32 : ℕ → ℕ → Bool
overflows32 a b = a == 2 ^ 31 && b == 2 ^ 32 - 1

unfoldable pub division_value : DivisionOp → ℕ → ℕ → Run ℕ
unfolding sext
division_value div src1 src2 =
    if src2 == 0
    then done ones64
    else require (not (overflows64 src1 src2))
        (done (wrap64 (div_ℤ (signed64 src1) (signed64 src2))))
division_value divu src1 src2 = if src2 == 0 then done ones64 else done (src1 / src2)
division_value divuw src1 src2 =
    if u32 src2 == 0 then done ones64 else done (sext (u32 src1 / u32 src2) 32)
division_value divw src1 src2 =
    if u32 src2 == 0
    then done ones64
    else require (not (overflows32 (u32 src1) (u32 src2)))
        (done (sext (wrap64 (div_ℤ (signed32 (u32 src1)) (signed32 (u32 src2)))) 32))
division_value rem src1 src2 =
    require (not (src2 == 0) && not (overflows64 src1 src2))
      (done (wrap64 (rem_ℤ (signed64 src1) (signed64 src2))))
division_value remu src1 src2 = require (not (src2 == 0)) (done (src1 % src2))
division_value remuw src1 src2 =
    require (not (u32 src2 == 0)) (done (sext (u32 src1 % u32 src2) 32))
division_value remw src1 src2 =
    require (not (u32 src2 == 0) && not (overflows32 (u32 src1) (u32 src2)))
      (done (sext (wrap64 (rem_ℤ (signed32 (u32 src1)) (signed32 (u32 src2)))) 32))

-- What an atomic operation on doublewords stores, from `src2` and the value read.
unfoldable pub amo_d_value : AmoOp → ℕ → ℕ → ℕ
amo_d_value amoswap src2 rdata = src2
amo_d_value amoadd src2 rdata = u64 (src2 + rdata)
amo_d_value amoxor src2 rdata = bit_xor src2 rdata
amo_d_value amoand src2 rdata = bit_and src2 rdata
amo_d_value amoor src2 rdata = bit_or src2 rdata
amo_d_value amomin src2 rdata = if ltℤ (signed64 rdata) (signed64 src2) then rdata else src2
amo_d_value amomax src2 rdata = if ltℤ (signed64 src2) (signed64 rdata) then rdata else src2
amo_d_value amominu src2 rdata = if ltb rdata src2 then rdata else src2
amo_d_value amomaxu src2 rdata = if ltb src2 rdata then rdata else src2

-- `rdata` of an atomic operation on words, from the word read: sign-extended where the operation
-- compares.
unfoldable pub amo_w_rdata : AmoOp → ℕ → ℕ
unfolding sext
amo_w_rdata amoswap w = w
amo_w_rdata amoadd w = w
amo_w_rdata amoxor w = w
amo_w_rdata amoand w = w
amo_w_rdata amoor w = w
amo_w_rdata amomin w = sext w 32
amo_w_rdata amomax w = sext w 32
amo_w_rdata amominu w = sext w 32
amo_w_rdata amomaxu w = sext w 32

-- What an atomic operation on words stores, cut to a word by the store.
unfoldable pub amo_w_value : AmoOp → ℕ → ℕ → ℕ
unfolding sext amo_d_value
amo_w_value amomin src2 rdata =
    if ltℤ (signed64 rdata) (signed64 (sext src2 32)) then rdata else src2
amo_w_value amomax src2 rdata =
    if ltℤ (signed64 (sext src2 32)) (signed64 rdata) then rdata else src2
amo_w_value amoswap src2 rdata = amo_d_value amoswap src2 rdata
amo_w_value amoadd src2 rdata = amo_d_value amoadd src2 rdata
amo_w_value amoxor src2 rdata = amo_d_value amoxor src2 rdata
amo_w_value amoand src2 rdata = amo_d_value amoand src2 rdata
amo_w_value amoor src2 rdata = amo_d_value amoor src2 rdata
amo_w_value amominu src2 rdata = if ltb rdata (sext src2 32) then rdata else src2
amo_w_value amomaxu src2 rdata = if ltb (sext src2 32) rdata then rdata else src2
