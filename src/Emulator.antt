-- ===== src/Emulator.antt =====
-- The run loop of the stand-alone emulator: mayfly_emu/cpu/cpu-exec.c (`CONFIG_SHARE_SO` is 0, no
-- difference test) with `update_device` of mayfly_emu/device/device.c. What a step takes from the outside, a byte
-- of the serial port's pipe and a key of the terminal, is an argument. A terminal at its end, where the
-- character that `get_stop` returns is not initialised, is left out.
pub mod Control
pub mod Trapped
use mayfly_emu.Prelude.{ℕ, zero, suc, ◌+◌, ◌%◌, ◌^◌, Bool, true, false, ◌==◌, if◌then◌else◌, update}
use mayfly_emu.Prelude.{Option, none, some, List, [], ◌∷◌}
use mayfly_emu.Cpu.{Cpu, set_csr}
use mayfly_emu.Intr.{handle_irq_or_except}
use mayfly_emu.Run.{Run, done, and_then}
use mayfly_emu.Machine.{
  Machine, M, pure, ◌>>=◌, ◌>>◌, modify, modify_cpu, Status, running, stop, end, abort_status, quit,
  set_status,
}
use mayfly_emu.Device.Aclint.{aclint_update}
use mayfly_emu.Device.Plic.{plic_update}
use mayfly_emu.Device.Serial.{serail_update}
use mayfly_emu.Inst.Exec.{Decode, isa_exec_once}

-- What one step finds at the serial pipe, and what `get_stop` reads from the terminal.
pub record Input : Type 0 where
  pub rx : Option ℕ
  pub key : Option ℕ

abbrev pub send : Option ℕ → List ℕ → List ℕ
send none l = l
send (some b) l = b ∷ l

unfoldable pub update_device : Option ℕ → M (Unit {0})
unfolding aclint_update serail_update plic_update
update_device rx m0 =
    let (aclint, c1) = aclint_update m0.aclint m0.cpu in
    let u = serail_update rx m0.serial in
    and_then (plic_update u.exteranl_irq m0.plic c1) λ r. done (
      tt,
      record m0 {
        cpu = r.1;
        aclint = aclint;
        plic = r.0;
        serial = u.serial;
        exteranl_irq = u.exteranl_irq;
        sent = send u.sent m0.sent;
      },
    )

-- The escape key stops the run.
abbrev pub check_stop : Option ℕ → Machine → Machine
check_stop none m = m
check_stop (some key) m = if key == 27 then set_status stop m else m

abbrev pub record_inst : ℕ → ℕ → Machine → Machine
record_inst pc isa m = record m {
  iringbuf_pc = update m.iringbuf_pc (m.iringbuf_counter % 16) pc;
  iringbuf_inst = update m.iringbuf_inst (m.iringbuf_counter % 16) isa;
}

-- The counters behind a step: `iringbuf_counter`, `minstret` and `mcycle`.
abbrev pub count : Machine → Machine
count m =
    let c1 = set_csr 23 ((m.cpu.csr 23 + 1) % 2 ^ 64) m.cpu in
    record m {
      cpu = set_csr 24 ((c1.csr 24 + 1) % 2 ^ 64) c1;
      iringbuf_counter = (m.iringbuf_counter + 1) % 2 ^ 64;
    }

unfoldable pub exec_once : Input → Decode → M Decode
unfolding isa_exec_once update_device handle_irq_or_except
exec_once input s0 m0 =
    let pc = m0.cpu.pc in
    let body : M Decode = (do
      s ← isa_exec_once (record s0 { pc = pc; snpc = pc })
      modify (record_inst pc s.isa)
      modify_cpu (λ c. record c { pre_pc = pc; pc = s.dnpc })
      update_device input.rx
      modify_cpu handle_irq_or_except
      modify (check_stop input.key)
      modify count
      pure s) in
    body m0

-- The flags that `execute` clears before each step.
abbrev pub clear_flags : Cpu → Cpu
clear_flags c = record c {
  is_except = false;
  is_irq = false;
  is_mmio = false;
  is_diff_skip = false;
  amo = false;
}

abbrev pub is_running : Status → Bool
is_running running = true
is_running _ = false

-- `n` steps, with the inputs of the steps by their number.
unfoldable pub execute : ℕ → (ℕ → Input) → Decode → M (Unit {0})
unfolding exec_once
execute zero inputs s m = done (tt, m)
execute (suc n) inputs s m =
    let rest = execute n (λ i. inputs (suc i)) in
    and_then (exec_once (inputs 0) s (record m { cpu = clear_flags m.cpu }))
      λ r. if is_running r.1.emu.state then rest r.0 r.1 else done (tt, r.1)

abbrev pub before_run : Status → Option Status
before_run end = none
before_run abort_status = none
before_run _ = some running

abbrev pub after_run : Status → Status
after_run running = stop
after_run s = s

-- `s` is the uninitialised local `Decode` of `execute`. With no state to run in, nothing is done.
unfoldable pub cpu_exec_from : Option Status → ℕ → (ℕ → Input) → Decode → M (Unit {0})
unfolding execute
cpu_exec_from none n inputs s m = done (tt, m)
cpu_exec_from (some state) n inputs s m =
    and_then (execute n inputs s (set_status state m))
      λ r. done (tt, set_status (after_run r.1.emu.state) r.1)

unfoldable pub cpu_exec : ℕ → (ℕ → Input) → Decode → M (Unit {0})
unfolding cpu_exec_from
cpu_exec n inputs s m = cpu_exec_from (before_run m.emu.state) n inputs s m
