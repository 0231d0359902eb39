-- ===== src/Device/Aclint.antt =====
-- The timer and software interrupts: mayfly_emu/device/aclint.c. `time_count` is the bit pattern of
-- the `int`.
pub mod Timer
use mayfly_emu.Prelude.{ℕ, ◌+◌, ◌-◌, ◌%◌, ◌^◌, bit_and, ltb, leb, ◌==◌, if◌then◌else◌}
use mayfly_emu.Word.{field, abs, signed32}
use mayfly_emu.Cpu.{Cpu, set_mip}
use mayfly_emu.Run.{Run, done, assert}

pub record Aclint : Type 0 where
  pub mtimecmp : ℕ
  pub mtime : ℕ
  pub time_count : ℕ

-- The offsets of `mtimecmp`, `mtime` and `msip`.
abbrev pub mtimecmp_offset : ℕ
mtimecmp_offset = 0x4000

abbrev pub mtime_offset : ℕ
mtime_offset = 0xbff8

abbrev pub msip_offset : ℕ
msip_offset = 0

unfoldable pub aclint_read : ℕ → Aclint → Cpu → ℕ
aclint_read offset t c =
    if offset == mtimecmp_offset
    then t.mtimecmp
    else if offset == mtime_offset
    then t.mtime
    else if offset == msip_offset
    then field 3 1 (c.csr 4)
    else 0

unfoldable pub aclint_write : ℕ → ℕ → ℕ → Aclint → Cpu → Run (Aclint × Cpu)
aclint_write offset len wdata t c =
    if offset == mtimecmp_offset
    then assert (len == 8) (done (record t { mtimecmp = wdata }, c))
    else if offset == mtime_offset
    then assert (len == 8) (done (record t { mtime = wdata }, c))
    else if offset == msip_offset
    then done (t, set_mip 3 (bit_and wdata 0x1) c)
    else done (t, c)

-- The remainder of a negative `time_count` by 25 is 0 exactly if that of its magnitude is.
unfoldable pub aclint_update : Aclint → Cpu → Aclint × Cpu
aclint_update t c =
    let mtime = if abs (signed32 t.time_count) % 25 == 0 then (t.mtime + 1) % 2 ^ 64 else t.mtime in
    let t' = record t { mtime = mtime; time_count = (t.time_count + 1) % 2 ^ 32 } in
    (t', if leb t'.mtimecmp t'.mtime then set_mip 7 1 c else set_mip 7 0 c)
