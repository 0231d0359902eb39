-- ===== src/Intr/Return.antt =====
-- Return from a trap: the bodies of `mret` (as built for the stand-alone emulator) and `sret` in
-- `decode_exec` of mayfly_emu/cpu/inst.c, with the address that they put into `dnpc`.
use mayfly_emu.Prelude.{ℕ}
use mayfly_emu.Cpu.{Cpu, mstatus, set_mstatus}

unfoldable pub mret : Cpu → ℕ × Cpu
mret c0 =
    let c1 = set_mstatus 3 1 (mstatus 7 1 c0) c0 in
    let c2 = set_mstatus 7 1 1 c1 in
    let c3 = record c2 { mode = mstatus 11 2 c2 } in (c0.csr 7, set_mstatus 11 2 0 c3)

unfoldable pub sret : Cpu → ℕ × Cpu
sret c0 =
    let c1 = set_mstatus 1 1 (mstatus 5 1 c0) c0 in
    let c2 = set_mstatus 5 1 1 c1 in
    let c3 = record c2 { mode = mstatus 8 1 c2 } in (c0.csr 13, set_mstatus 8 1 0 c3)
