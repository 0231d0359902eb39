-- ===== src/Cpu.antt =====
-- The hart's registers: `riscv64_CPU_state` and the unions over its `csr` array of
-- mayfly_emu/cpu/mayfly_isa.h, the register names of mayfly_emu/common.h, and `restart` of
-- mayfly_emu/main.c. A flag that the code keeps in a `uint8_t` and sets to 0 or 1 only is a `Bool`.
pub mod Ex
use mayfly_emu.Prelude.{ℕ, ◌-◌, ◌^◌, Bool, true, false, update}
use mayfly_emu.Word.{field, set_field}

pub record Cpu : Type 0 where
  pub gpr : ℕ → ℕ
  pub pc : ℕ
  pub pre_pc : ℕ
  pub mode : ℕ
  pub csr : ℕ → ℕ
  pub m_s_tval : ℕ
  pub m_s_cause : ℕ
  pub amo : Bool
  pub is_irq : Bool
  pub is_except : Bool
  pub is_mmio : Bool
  pub is_diff_skip : Bool

-- The privilege modes.
abbrev pub mode_u : ℕ
mode_u = 0

abbrev pub mode_s : ℕ
mode_s = 1

abbrev pub mode_m : ℕ
mode_m = 3

-- `cpu.csr[i] = v`.
abbrev pub set_csr : ℕ → ℕ → Cpu → Cpu
set_csr i v c = record c { csr = update c.csr i v }

-- `cpu.gpr[i] = v`.
abbrev pub set_gpr : ℕ → ℕ → Cpu → Cpu
set_gpr i v c = record c { gpr = update c.gpr i v }

-- `mstatus->f` and `mstatus->f = v`, for the field of `w` bits at bit `lo`.
abbrev pub mstatus : ℕ → ℕ → Cpu → ℕ
mstatus lo w c = field lo w (c.csr 0)

abbrev pub set_mstatus : ℕ → ℕ → ℕ → Cpu → Cpu
set_mstatus lo w v c = set_csr 0 (set_field lo w v (c.csr 0)) c

-- The single-bit fields of `mip`.
abbrev pub set_mip : ℕ → ℕ → Cpu → Cpu
set_mip lo v c = set_csr 4 (set_field lo 1 v (c.csr 4)) c

-- `cpu.m_s_cause = ex; cpu.m_s_tval = tval; cpu.is_except = true`.
abbrev pub set_except : ℕ → ℕ → Cpu → Cpu
set_except ex tval c = record c { m_s_cause = ex; m_s_tval = tval; is_except = true }

-- `restart`: the state at reset, given what the registers held.
abbrev pub restart : Cpu → Cpu
restart c =
    let c1 = record c {
      mode = 3;
      pc = 0x80000000;
      amo = false;
      is_irq = false;
      is_except = false;
    } in
    let c2 = set_csr 24 0 (set_csr 23 0 (set_csr 17 0x8000000000141101 c1)) in
    let c3 = set_mstatus 34 2 2 (set_mstatus 32 2 2 (set_mstatus 11 2 3 (set_mstatus 8 1 1 c2))) in
    set_gpr 0 0 c3
