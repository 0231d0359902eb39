-- ===== src/Tests/Inst.antt =====
-- Decoding, immediates, arithmetic and the reservation.
use mayfly_emu.Prelude.{◌≢◌, ◌⊎◌, ℕ, ◌+◌, ◌*◌, ◌%◌, ◌^◌, ◌-◌, ◌≡◌, refl, arith, List, []}
use mayfly_emu.Word.{sext}
use mayfly_emu.Cpu.{set_csr, set_gpr}
use mayfly_emu.Run.{done}
use mayfly_emu.Machine.{Machine}
use mayfly_emu.Memory.Host.{load_bytes}
use mayfly_emu.Memory.Paddr.Ram.{IsRam}
use mayfly_emu.Inst.Pattern.{Pattern, codes, pattern_decode, matches}
use mayfly_emu.Inst.Pattern.Agrees.{agrees, bits_of, pattern_decode-agrees}
use mayfly_emu.Inst.Table.{amo_w, amomin, mul, sub, addw, subw}
use mayfly_emu.Inst.Operand.{Operands}
use mayfly_emu.Inst.Alu.{alu_value}
use mayfly_emu.Inst.Alu.Signed.{alu_value-modular}
use mayfly_emu.Inst.Exec.{Decode, exec_op, decode_exec}
use mayfly_emu.Inst.Exec.Zero.{decode_exec-zero}
use mayfly_emu.Inst.Exec.Reserve.{IsDirect, refused}
use mayfly_emu.Inst.Exec.Pair.{word, doubleword, lr_of, sc_of, behind_lr, behind_sc, sc_of-lr_of}
use mayfly_emu.Inst.Exec.Atomic.{swapped, exec_op-result}
use mayfly_emu.Tests.Base.{hart, machine}

-- The pattern of `addi`.
abbrev addi_pattern : List ℕ
addi_pattern = codes "??????? ????? ????? 000 ????? 00100 11"

pattern_decode-agrees_example :
    (p : Pattern) × (pattern_decode addi_pattern ≡ done p)
    × ((x : ℕ) → matches p x ≡ agrees (bits_of addi_pattern []) x)
pattern_decode-agrees_example = pattern_decode-agrees addi_pattern refl

alu_value-modular_example :
    (alu_value mul 0 (2 ^ 64 - 1) 5 ≡ (2 ^ 64 - 1) * 5 % 2 ^ 64)
    × (alu_value sub 0 (2 ^ 64 - 1) 5 ≡ ((2 ^ 64 - 1) + (2 ^ 64 - 5)) % 2 ^ 64)
    × (alu_value addw 0 (2 ^ 64 - 1) 5 ≡ sext ((2 ^ 64 - 1) + 5) 32)
    × (alu_value subw 0 (2 ^ 64 - 1) 5 ≡ sext ((2 ^ 64 - 1) + (2 ^ 64 - 5)) 32)
alu_value-modular_example = alu_value-modular 0 (2 ^ 64 - 1) 5 (omega arith) (omega arith)

-- `addi x0, x0, 5`.
abbrev addi_zero : Decode
addi_zero = record { pc = 0x80000000; snpc = 0x80000004; dnpc = 0; isa = 0x00500013 }

-- `lr.d` and `sc.d` on a location in RAM, in M.
abbrev lr_operands : Operands
lr_operands = record { dest = 5; src1 = 0x80001000; src2 = 0; csr_addr = 0; csr_value = 0 }

abbrev sc_operands : Operands
sc_operands = record { dest = 6; src1 = 0x80001000; src2 = 77; csr_addr = 0; csr_value = 0 }

machine-IsDirect : IsDirect machine
machine-IsDirect = record { no_except = refl; no_read = refl; no_write = refl }

doubleword-IsRam : IsRam 0x80001000 8
doubleword-IsRam = record { width = refl; above = omega arith; below = omega arith }

word-IsRam : IsRam 0x80001000 4
word-IsRam = record { width = refl; above = omega arith; below = omega arith }

-- `lr.d`, then `sc.d` to the same location, then `sc.w` to it.
sc_of-lr_of_example :
    let m1 = behind_lr doubleword lr_operands machine in
    (exec_op (lr_of doubleword) addi_zero lr_operands machine ≡ done (0x80000004, m1))
    × (doubleword ≡ doubleword
        → sc_operands.src1 ≡ lr_operands.src1
        → (exec_op (sc_of doubleword) addi_zero sc_operands m1
            ≡ done (0x80000004, behind_sc doubleword sc_operands m1))
          × (exec_op (sc_of word) addi_zero sc_operands (behind_sc doubleword sc_operands m1)
              ≡ done (0x80000004, refused sc_operands (behind_sc doubleword sc_operands m1))))
    × ((doubleword ≢ doubleword) ⊎ (sc_operands.src1 ≢ lr_operands.src1)
        → (exec_op (sc_of doubleword) addi_zero sc_operands m1
            ≡ done (0x80000004, refused sc_operands m1))
          × (exec_op (sc_of word) addi_zero sc_operands (refused sc_operands m1)
              ≡ done (0x80000004, refused sc_operands (refused sc_operands m1))))
sc_of-lr_of_example =
    sc_of-lr_of doubleword doubleword word addi_zero addi_zero addi_zero lr_operands sc_operands
      sc_operands machine machine-IsDirect doubleword-IsRam doubleword-IsRam word-IsRam

-- `amomin.w` of 77 on memory that holds -1.
abbrev full : Machine
full = record machine { pmem = λ i. 255 }

exec_op-result_example :
    exec_op (amo_w amomin) addi_zero sc_operands full
    ≡ done (0x80000004, swapped 4 0xffffffffffffffff 0xffffffff sc_operands full)
unfolding sext load_bytes
exec_op-result_example =
    exec_op-result word amomin addi_zero sc_operands full
      (record { no_except = refl; no_read = refl; no_write = refl }) refl word-IsRam
      (λ i. omega arith) (omega arith)

-- A supervisor with Sv39 on, and an address that is not canonical.
abbrev paging : Machine
paging = record machine { cpu = record (set_csr 16 0x8000000000080001 hart) { mode = 1 } }

abbrev stray_operands : Operands
stray_operands = record { dest = 5; src1 = 2 ^ 40; src2 = 0; csr_addr = 0; csr_value = 0 }

abbrev behind : Machine
behind = record machine { cpu = set_gpr 0 0 (set_gpr 0 5 hart) }

executed : decode_exec addi_zero machine ≡ done (record addi_zero { dnpc = 0x80000004 }, behind)
unfolding decode_exec pattern_decode alu_value
executed = refl

decode_exec-zero_example : behind.cpu.gpr 0 ≡ 0
decode_exec-zero_example =
    decode_exec-zero addi_zero machine (record addi_zero { dnpc = 0x80000004 }, behind) executed
