-- ===== src/Machine.antt =====
-- The emulator's whole state: the hart of mayfly_emu/cpu, the arrays of mayfly_emu/memory/paddr.c
-- and mayfly_emu/device/flash.c, the devices, the reservation of `lr` and `sc` of
-- mayfly_emu/cpu/inst.c, the instruction ring of mayfly_emu/cpu/cpu-exec.c, and the run state
-- `mayfly_state`. An operation on it is a function to an outcome with the new state.
pub mod Frame
use mayfly_emu.Prelude.{ℕ, List}
use mayfly_emu.Cpu.{Cpu}
use mayfly_emu.Run.{Run, done, abort, fault, and_then}
use mayfly_emu.Device.Aclint.{Aclint}
use mayfly_emu.Device.Plic.{Plic}
use mayfly_emu.Device.Serial.{Serial}

-- `MAYFLY_RUNNING` and the others, and `MAYFLYState`.
pub data Status : Type 0 where
  running stop end abort_status quit : Status

pub record EmuState : Type 0 where
  pub state : Status
  pub halt_pc : ℕ
  pub halt_ret : ℕ

pub record Machine : Type 0 where
  pub cpu : Cpu
  pub emu : EmuState
  pub pmem : ℕ → ℕ
  pub flash_mem : ℕ → ℕ
  pub aclint : Aclint
  pub plic : Plic
  pub serial : Serial
  pub exteranl_irq : ℕ
  pub sent : List ℕ
  pub reserve_addr : ℕ
  pub reserve_flag : ℕ
  pub iringbuf_pc : ℕ → ℕ
  pub iringbuf_inst : ℕ → ℕ
  pub iringbuf_counter : ℕ

abbrev pub M : Type 0 → Type 0
M A = Machine → Run (A × Machine)

abbrev pub pure : {A : Type 0} → A → M A
pure a m = done (a, m)

infixl 5 ◌>>=◌ ◌>>◌
abbrev pub ◌>>=◌ : {A B : Type 0} → M A → (A → M B) → M B
◌>>=◌ x f m = and_then (x m) λ r. f r.0 r.1

abbrev pub ◌>>◌ : {B : Type 0} → M (Unit {0}) → M B → M B
x >> y = x >>= λ _. y

-- The state, a field of it, and a change of either.
abbrev pub get : M Machine
get m = done (m, m)

abbrev pub modify : (Machine → Machine) → M (Unit {0})
modify f m = done (tt, f m)

abbrev pub get_cpu : M Cpu
get_cpu m = done (m.cpu, m)

abbrev pub modify_cpu : (Cpu → Cpu) → M (Unit {0})
modify_cpu f m = done (tt, record m { cpu = f m.cpu })

abbrev pub skip : M (Unit {0})
skip m = done (tt, m)

abbrev pub fail_assert : {A : Type 0} → M A
fail_assert m = abort

-- An outcome computed without the state.
abbrev pub lift : {A : Type 0} → Run A → M A
lift r m = and_then r λ a. done (a, m)

-- `mayfly_state.state = s`.
abbrev pub set_status : Status → Machine → Machine
set_status s m = record m { emu = record (m.emu) { state = s } }
