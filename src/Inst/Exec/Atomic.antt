-- ===== src/Inst/Exec/Atomic.antt =====
-- The atomic read-modify-write instructions of mayfly_emu/cpu/inst.c.
use mayfly_emu.Prelude.{ℕ, ◌-◌, ◌%◌, ◌^◌, ◌<◌, ◌≡◌, refl, ap, ◌∙◌, arith, false, true}
use mayfly_emu.Word.{sext}
use mayfly_emu.Cpu.{set_gpr}
use mayfly_emu.Run.{done, and_then}
use mayfly_emu.Machine.{Machine}
use mayfly_emu.Memory.Host.{load_bytes, store_bytes}
use mayfly_emu.Memory.Host.Bytes.{load_bytes-lt, store_bytes_low}
use mayfly_emu.Memory.Paddr.{mbase}
use mayfly_emu.Memory.Paddr.Ram.{IsRam, paddr_read-ram, paddr_write-ram}
use mayfly_emu.Memory.Vaddr.{misaligned, vaddr_read, vaddr_write}
use mayfly_emu.Memory.Vaddr.Align.{isa_mmu_check-direct}
use mayfly_emu.Mmu
use mayfly_emu.Inst.Table.{Op, AmoOp, amo_w, amo_d}
use mayfly_emu.Inst.Operand.{Operands}
use mayfly_emu.Inst.Alu.{amo_w_rdata, amo_w_value, amo_d_value}
use mayfly_emu.Inst.Alu.Atomic.{result, amo_w_value-result, amo_w_rdata-sext, amo_d_value-result}
use mayfly_emu.Inst.Exec.{Decode, exec_op, exec_amo}
use mayfly_emu.Inst.Exec.Reserve.{IsDirect, set_amo}
use mayfly_emu.Inst.Exec.Pair.{Width, word, doubleword, bytes_of, loaded_of}

abbrev pub amo_of : Width → AmoOp → Op
amo_of word = amo_w
amo_of doubleword = amo_d

abbrev pub digits_of : Width → ℕ
digits_of word = 32
digits_of doubleword = 64

-- The machine behind the instruction: `v` in the register, the bytes of `r` in memory.
abbrev pub swapped : ℕ → ℕ → ℕ → Operands → Machine → Machine
swapped len v r o m = record m {
  cpu = set_gpr o.dest v (set_amo m.cpu);
  pmem = store_bytes len r m.pmem (o.src1 - mbase);
}

exec_amo_lem :
    (len : ℕ) (rdata_of amo_value dest_value : ℕ → ℕ) (o : Operands) (m : Machine)
    → IsDirect m
    → misaligned o.src1 len ≡ false
    → IsRam o.src1 len
    → exec_amo len rdata_of amo_value dest_value o m ≡ (
        let x = rdata_of (load_bytes len m.pmem (o.src1 - mbase)) in
        done (tt, swapped len (dest_value x) (amo_value x) o m))
unfolding exec_amo vaddr_read vaddr_write
exec_amo_lem len rdata_of amo_value dest_value o m d a r =
    let m' = record m { cpu = set_amo m.cpu } in
    let x = rdata_of (load_bytes len m.pmem (o.src1 - mbase)) in
    let quiet = record m { cpu = record (m.cpu) { amo = true; is_except = false } } in
    rw
      (
        a,
        isa_mmu_check-direct o.src1 Mmu.read (m'.cpu) d.no_read,
        paddr_read-ram m' r,
        d.no_except,
        isa_mmu_check-direct o.src1 Mmu.write (quiet.cpu) d.no_write,
        paddr_write-ram (amo_value x) quiet r,
      )
      refl

-- Two values with the same low bytes leave the same memory.
swapped_low :
    (len v x y : ℕ) (o : Operands) (m : Machine)
    → x % 256 ^ len ≡ y % 256 ^ len
    → swapped len v x o m ≡ swapped len v y o m
swapped_low len v x y o m h =
    ap (λ (f : ℕ → ℕ). record m { cpu = set_gpr o.dest v (set_amo m.cpu); pmem = f })
      (store_bytes_low len x y m.pmem (o.src1 - mbase) h)

-- A value that is cut to its width already.
again32 : (x y : ℕ) → x % 2 ^ 32 ≡ y → x % 256 ^ 4 ≡ y % 256 ^ 4
again32 x y h = omega arith

again64 : (x y : ℕ) → x % 2 ^ 64 ≡ y → x % 256 ^ 8 ≡ y % 256 ^ 8
again64 x y h = omega arith

-- The word or doubleword in memory and the register's, as the instruction takes them.
abbrev pub in_memory : Width → Operands → Machine → ℕ
in_memory a o m = load_bytes (bytes_of a) m.pmem (o.src1 - mbase)

abbrev pub in_register : Width → Operands → ℕ
in_register a o = o.src2 % 2 ^ digits_of a

-- No exception is pending and translation is off; the location is aligned and in RAM, whose
-- elements are bytes, and the second operand is a 64-bit word. Then each of the nine atomic
-- operations, on words and on doublewords, puts what the location held, sign-extended, into its
-- register, and stores there what the instruction set says: the value of the register, the sum
-- modulo the width, the bits, or the lesser or greater of the two in the order of signed or of
-- unsigned words. It changes nothing else but the mark of an atomic instruction.
pub exec_op-result :
    (a : Width) (op : AmoOp) (s : Decode) (o : Operands) (m : Machine)
    → IsDirect m
    → misaligned o.src1 (bytes_of a) ≡ false
    → IsRam o.src1 (bytes_of a)
    → ((i : ℕ) → m.pmem i < 256)
    → o.src2 < 2 ^ 64
    → exec_op (amo_of a op) s o m
      ≡ done (
        s.snpc,
        swapped
            (bytes_of a)
            (loaded_of a (in_memory a o m))
            (result (digits_of a) op (in_memory a o m) (in_register a o))
            o
            m,
      )
unfolding exec_op
exec_op-result word op s o m d a r b k =
    let w = in_memory word o m in
    let fits : w < 2 ^ 32 = load_bytes-lt 4 m.pmem (o.src1 - mbase) b in
    ap (λ x. and_then x λ t. done (s.snpc, t.1))
      (exec_amo_lem 4 (amo_w_rdata op) (amo_w_value op o.src2) (λ v. sext v 32) o m d a r)
    ∙ ap (λ (v : ℕ). done (s.snpc, swapped 4 v (amo_w_value op o.src2 (amo_w_rdata op w)) o m))
        (amo_w_rdata-sext op w)
    ∙ ap (λ (m' : Machine). done (s.snpc, m'))
        (swapped_low 4 (sext w 32) (amo_w_value op o.src2 (amo_w_rdata op w))
          (result 32 op w (o.src2 % 2 ^ 32)) o m
          (again32 (amo_w_value op o.src2 (amo_w_rdata op w)) _
            (amo_w_value-result op o.src2 w fits)))
exec_op-result doubleword op s o m d a r b k =
    let w = in_memory doubleword o m in
    let fits : w < 2 ^ 64 = load_bytes-lt 8 m.pmem (o.src1 - mbase) b in
    ap (λ x. and_then x λ t. done (s.snpc, t.1))
      (exec_amo_lem 8 (λ v. v) (amo_d_value op o.src2) (λ v. v) o m d a r)
    ∙ ap (λ (m' : Machine). done (s.snpc, m'))
        (swapped_low 8 w (amo_d_value op o.src2 w) (result 64 op w (o.src2 % 2 ^ 64)) o m
          (again64 (amo_d_value op o.src2 w) _ (amo_d_value-result op o.src2 w fits k)))
