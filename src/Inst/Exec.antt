-- ===== src/Inst/Exec.antt =====
-- The instruction bodies, `decode_exec` and `isa_exec_once` of mayfly_emu/cpu/inst.c, with
-- `set_mayfly_state` and `invalid_inst` of mayfly_emu/cpu/cpu-exec.c. Each body returns `s->dnpc`.
pub mod Zero
pub mod Reserve
pub mod Pair
pub mod Atomic
use mayfly_emu.Prelude.{ℕ, ◌+◌, ◌-◌, ◌*◌, ◌/◌, ◌%◌, ◌^◌, bit_and}
use mayfly_emu.Prelude.{Bool, true, false, not, ◌&&◌, ltb, ◌==◌, if◌then◌else◌, Option, none, some}
use mayfly_emu.Word.{u32, u64, sext}
use mayfly_emu.Cpu
use mayfly_emu.Cpu.{Cpu, mode_s, mode_m, set_gpr}
use mayfly_emu.Csr.{csr_write}
use mayfly_emu.Intr.Return.{mret as do_mret, sret as do_sret}
use mayfly_emu.Run.{Run, done, abort, and_then}
use mayfly_emu.Machine.{
  Machine, M, pure, ◌>>=◌, ◌>>◌, get, get_cpu, modify, modify_cpu, skip, lift, Status, end,
  abort_status,
}
use mayfly_emu.Memory.Paddr.{paddr_read, paddr_write}
use mayfly_emu.Memory.Vaddr.{vaddr_ifetch, vaddr_read, vaddr_write, vaddr_to_paddr}
use mayfly_emu.Mmu
use mayfly_emu.Inst.Table.{
  Op, alu, branch, csr, load, store, division, amo_d, amo_w, nothing, jal, jalr, ebreak, mret, sret,
  ecall, lr_d, sc_d, lr_w, sc_w, inv, LoadOp, ld, lb, lbu, lh, lhu, lw, lwu, StoreOp, sd, sb, sh,
  sw, AmoOp, CsrOp, find_row, inst_table,
}
use mayfly_emu.Inst.Operand.{Operands, decode_operand}
use mayfly_emu.Inst.Alu.{
  alu_value, branch_taken, csr_update, division_value, amo_d_value, amo_w_rdata, amo_w_value,
}

-- `Decode`.
pub record Decode : Type 0 where
  pub pc : ℕ
  pub snpc : ℕ
  pub dnpc : ℕ
  pub isa : ℕ

unfoldable pub set_mayfly_state : Status → ℕ → ℕ → Machine → Machine
set_mayfly_state state pc halt_ret m = record m {
  emu = record { state = state; halt_pc = pc; halt_ret = u32 halt_ret };
}

-- `R(dest) = v`.
abbrev pub write_r : ℕ → ℕ → M (Unit {0})
write_r dest v = modify_cpu (set_gpr dest v)

-- `if(!cpu.is_except) x`.
abbrev pub unless_except : M (Unit {0}) → M (Unit {0})
unless_except x m = if m.cpu.is_except then done (tt, m) else x m

-- The width of a load and what it makes of the bytes read.
abbrev pub load_len : LoadOp → ℕ
load_len ld = 8
load_len lb = 1
load_len lbu = 1
load_len lh = 2
load_len lhu = 2
load_len lw = 4
load_len lwu = 4

unfoldable pub load_value : LoadOp → ℕ → ℕ
unfolding sext
load_value ld v = v
load_value lb v = sext v 8
load_value lbu v = bit_and v 0xff
load_value lh v = sext v 16
load_value lhu v = bit_and v 0xffff
load_value lw v = sext v 32
load_value lwu v = bit_and v 0xffffffff

abbrev pub store_len : StoreOp → ℕ
store_len sd = 8
store_len sb = 1
store_len sh = 2
store_len sw = 4

abbrev pub store_value : StoreOp → ℕ → ℕ
store_value sw src2 = bit_and src2 0xffffffff
store_value sd src2 = src2
store_value sb src2 = src2
store_value sh src2 = src2

unfoldable pub exec_load : LoadOp → Operands → M (Unit {0})
unfolding load_value
exec_load op o = do
  v ← vaddr_read (u64 (o.src1 + o.src2)) (load_len op)
  unless_except (write_r o.dest (load_value op v))

-- An instruction of the CSRs whose read raised an exception is illegal, and writes nothing.
unfoldable pub exec_csr : CsrOp → Decode → Operands → Cpu → Cpu
exec_csr op s o c =
    if c.is_except
    then record c { m_s_tval = s.isa; m_s_cause = Cpu.Ex.ii }
    else csr_write o.csr_addr (csr_update op o.csr_value o.src1 o.src2)
        (set_gpr o.dest o.csr_value c)

-- The atomic operations: `amo_value` makes the value to store and `dest_value` that for `R(dest)`.
unfoldable pub exec_amo : ℕ → (ℕ → ℕ) → (ℕ → ℕ) → (ℕ → ℕ) → Operands → M (Unit {0})
exec_amo len rdata_of amo_value dest_value o = do
  modify_cpu (λ c. record c { amo = true })
  v ← vaddr_read o.src1 len
  let rdata = rdata_of v
  unless_except (vaddr_write o.src1 len (amo_value rdata))
  unless_except (write_r o.dest (dest_value rdata))

-- `lr`: the flag is 0xff for a doubleword and 0xf for a word.
unfoldable pub exec_lr : ℕ → (ℕ → ℕ) → ℕ → Operands → M (Unit {0})
exec_lr len rdata_of flag o = do
  modify_cpu (λ c. record c { amo = true })
  paddr ← vaddr_to_paddr o.src1 Mmu.read
  v ← paddr_read paddr len
  unless_except (do
    write_r o.dest (rdata_of v)
    modify (λ m. record m { reserve_addr = paddr; reserve_flag = flag }))

unfoldable pub exec_sc : ℕ → (ℕ → ℕ) → ℕ → Operands → M (Unit {0})
exec_sc len value_of flag o = do
  modify_cpu (λ c. record c { amo = true })
  paddr ← vaddr_to_paddr o.src1 Mmu.write
  unless_except (do
    m ← get
    if paddr == m.reserve_addr && m.reserve_flag == flag
        then (do paddr_write paddr len (value_of o.src2); write_r o.dest 0)
        else write_r o.dest 1
    modify (λ m. record m { reserve_flag = 0 }))

abbrev pub ecall_cause : ℕ → ℕ
ecall_cause mode =
    if mode == mode_m then Cpu.Ex.ecm else if mode == mode_s then Cpu.Ex.ecs else Cpu.Ex.ecu

-- `s->dnpc` after a body that leaves it at `s->snpc`.
abbrev pub to_snpc : Decode → M (Unit {0}) → M ℕ
to_snpc s x = do x; pure s.snpc

-- A return from a trap.
abbrev pub return_by : (Cpu → ℕ × Cpu) → M ℕ
return_by f m = let (pc, c) = f m.cpu in done (pc, record m { cpu = c })

unfoldable pub exec_op : Op → Decode → Operands → M ℕ
unfolding exec_load exec_csr exec_amo exec_lr exec_sc set_mayfly_state
exec_op (alu op) s o = to_snpc s (write_r o.dest (alu_value op s.pc o.src1 o.src2))
exec_op (branch op) s o =
    pure (if branch_taken op o.src1 o.src2 then u64 (s.pc + o.dest) else s.snpc)
exec_op (csr op) s o = to_snpc s (modify_cpu (exec_csr op s o))
exec_op (load op) s o = to_snpc s (exec_load op o)
exec_op (store op) s o =
    to_snpc s (vaddr_write (u64 (o.src1 + o.dest)) (store_len op) (store_value op o.src2))
exec_op (division op) s o = to_snpc s (lift (division_value op o.src1 o.src2) >>= write_r o.dest)
exec_op (amo_d op) s o = to_snpc s (exec_amo 8 (λ v. v) (amo_d_value op o.src2) (λ v. v) o)
exec_op (amo_w op) s o =
    to_snpc s (exec_amo 4 (amo_w_rdata op) (amo_w_value op o.src2) (λ v. sext v 32) o)
exec_op nothing s o = pure s.snpc
exec_op jal s o = do write_r o.dest (u64 (s.pc + 4)); pure (u64 (s.pc + o.src1))
exec_op jalr s o = do
  write_r o.dest (u64 (s.pc + 4))
  pure (bit_and (u64 (o.src1 + o.src2)) 0xfffffffffffffffe)
exec_op ebreak s o = to_snpc s (modify λ m. set_mayfly_state end s.pc (m.cpu.gpr 10) m)
exec_op mret s o = return_by do_mret
exec_op sret s o = return_by do_sret
exec_op ecall s o =
    to_snpc s (modify_cpu λ c. record c { is_except = true; m_s_cause = ecall_cause c.mode })
exec_op lr_d s o = to_snpc s (exec_lr 8 (λ v. v) 0xff o)
exec_op sc_d s o = to_snpc s (exec_sc 8 (λ v. v) 0xff o)
exec_op lr_w s o = to_snpc s (exec_lr 4 (λ v. sext v 32) 0xf o)
exec_op sc_w s o = to_snpc s (exec_sc 4 (λ v. bit_and v 0xffffffff) 0xf o)
exec_op inv s o = to_snpc s (modify (set_mayfly_state abort_status s.pc (2 ^ 32 - 1)))

-- `R(0) = 0`.
abbrev pub reset_zero : M (Unit {0})
reset_zero = write_r 0 0

unfoldable pub decode_exec : Decode → M Decode
unfolding find_row decode_operand exec_op
decode_exec s = do
  found ← lift (find_row inst_table s.isa)
  dnpc ← elim found [
    | none ↦ pure s.snpc
    | some row ↦ λ m.
        let (o, c) = decode_operand row.type s.isa m.cpu in
        exec_op row.op s o (record m { cpu = c })
  ]
  reset_zero
  pure (record s { dnpc = dnpc })

-- A fetch that raises an exception leaves `s->dnpc` as it was.
unfoldable pub isa_exec_once : Decode → M Decode
unfolding decode_exec
isa_exec_once s0 = do
  isa ← vaddr_ifetch s0.pc 4
  let s = record s0 { isa = u32 isa; snpc = u64 (s0.pc + 4) }
  c ← get_cpu
  if c.is_except then pure s else decode_exec s
