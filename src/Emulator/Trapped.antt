-- ===== src/Emulator/Trapped.antt =====
-- A step that raises an exception: `exec_once` of mayfly_emu/cpu/cpu-exec.c with `isa_exec_once`,
-- `update_device` and `handle_irq_or_except`.
use mathlib.Core.Path.{subst, ap₂}
use mayfly_emu.Prelude.{
  ℕ, ◌≡◌, refl, sym, ap, ◌∙◌, ltb, bit_and, bit_or, not, ◌&&◌, ◌==◌, Bool-cases, inl, inr, Bool,
  true, false, if◌then◌else◌, Option, none, some,
}
use mayfly_emu.Run.{Run, done, abort, fault, and_then}
use mayfly_emu.Run.Yields.{Yields, yields, Returns}
use mayfly_emu.Cpu.{Cpu, set_mip}
use mayfly_emu.Machine.{Machine, M, pure, ◌>>◌, modify, modify_cpu}
use mayfly_emu.Intr.{
  handle_irq_or_except, intr_deleg_S, raise_intr, handle_difftest_irq, trap_S, trap_M, get_trap_pc,
  keeps_tval, intr_bit, test_bit,
}
use mayfly_emu.Device.Aclint.{Aclint, aclint_update}
use mayfly_emu.Device.Plic.{Plic, Best, plic_update, claim_loop}
use mayfly_emu.Device.Serial.{serail_update}
use mayfly_emu.Inst.Exec.{Decode, isa_exec_once}
use mayfly_emu.Emulator.{Input, exec_once, update_device, check_stop, count, record_inst, send}

-- What a trap goes by: the vectors, the delegation, the mode, and the exception.
pub record Cause : Type 0 where
  pub mtvec : ℕ
  pub medeleg : ℕ
  pub mideleg : ℕ
  pub stvec : ℕ
  pub mode : ℕ
  pub except : Bool
  pub cause : ℕ
  pub pre_pc : ℕ

abbrev pub cause_of : Cpu → Cause
cause_of c = record {
  mtvec = c.csr 1;
  medeleg = c.csr 2;
  mideleg = c.csr 3;
  stvec = c.csr 10;
  mode = c.mode;
  except = c.is_except;
  cause = c.m_s_cause;
  pre_pc = c.pre_pc;
}

mip_choice :
    (b : Bool) (lo : ℕ) (c : Cpu)
    → cause_of (if b then set_mip lo 1 c else set_mip lo 0 c) ≡ cause_of c
mip_choice true lo c = refl
mip_choice false lo c = refl

aclint_update-cause : (t : Aclint) (c : Cpu) → cause_of (aclint_update t c).1 ≡ cause_of c
unfolding aclint_update
aclint_update-cause t c = mip_choice _ 7 c

claimed-cause :
    (x : Run Best) (p : Plic) (c : Cpu)
    → Yields
        (λ (r : Plic × Cpu). cause_of r.1 ≡ cause_of c)
        (and_then x λ best. done (
          record p { target_claim = best.id },
          if ltb p.target_threshold best.priority then set_mip 9 1 c else set_mip 9 0 c,
        ))
claimed-cause (done best) p c = yields (mip_choice (ltb p.target_threshold best.priority) 9 c)
claimed-cause abort p c = yields tt
claimed-cause fault p c = yields tt

plic_update-cause :
    (irq : ℕ) (p : Plic) (c : Cpu)
    → Yields (λ (r : Plic × Cpu). cause_of r.1 ≡ cause_of c) (plic_update irq p c)
unfolding plic_update
plic_update-cause irq p c =
    let p' = record p { source_pending = bit_or p.source_pending irq } in
    claimed-cause (claim_loop 32 0 p' (record { id = 0; priority = 0 })) p' c

-- The machine behind `update_device`, by the answer of the interrupt controller.
abbrev updated : Option ℕ → Machine → Plic × Cpu → Machine
updated rx m r =
    let u = serail_update rx m.serial in
    record m {
      cpu = r.1;
      aclint = (aclint_update m.aclint m.cpu).0;
      plic = r.0;
      serial = u.serial;
      exteranl_irq = u.exteranl_irq;
      sent = send u.sent m.sent;
    }

-- The hart of a machine that is put together from an outcome.
put-cause :
    (x : Run (Plic × Cpu)) (put : Plic × Cpu → Machine) (k : Cause)
    → Yields (λ (r : Plic × Cpu). cause_of r.1 ≡ k) x
    → ((r : Plic × Cpu) → cause_of r.1 ≡ k → cause_of (put r).cpu ≡ k)
    → Yields (λ (r : Unit {0} × Machine). cause_of r.1.cpu ≡ k) (and_then x λ r. done (tt, put r))
put-cause (done r) put k (yields h) f = yields (f r h)
put-cause abort put k h f = yields tt
put-cause fault put k h f = yields tt

update_device-cause :
    (rx : Option ℕ) (m : Machine)
    → Yields (λ (r : Unit {0} × Machine). cause_of r.1.cpu ≡ cause_of m.cpu) (update_device rx m)
unfolding update_device
update_device-cause rx m =
    let irq = (serail_update rx m.serial).exteranl_irq in
    let c = (aclint_update m.aclint m.cpu).1 in
    put-cause (plic_update irq m.plic c) (updated rx m) (cause_of m.cpu)
      (subst
        (λ (k : Cause). Yields (λ (r : Plic × Cpu). cause_of r.1 ≡ k) (plic_update irq m.plic c))
        (aclint_update-cause m.aclint m.cpu) (plic_update-cause irq m.plic c))
      (λ r h. h)

-- A trap has been entered: the handler's address, and the exception in the registers for it.
pub record Entered (vector epc_reg cause_reg mode : ℕ) (k : Cause) (d : Cpu) : Type 0 where
  pub pc : d.pc ≡ get_trap_pc vector k.cause
  pub epc : d.csr epc_reg ≡ k.pre_pc
  pub cause : d.csr cause_reg ≡ k.cause
  pub mode_is : d.mode ≡ mode

-- The delegation to S, of exceptions and of interrupts, and never from M.
abbrev pub delegated : Cause → Bool
delegated k =
    let deleg = if not (bit_and k.cause intr_bit == 0) then k.mideleg else k.medeleg in
    test_bit deleg (bit_and k.cause 0xf) && ltb k.mode 3

abbrev pub TrapTo : Bool → Cause → Cpu → Type 0
TrapTo true k d = Entered k.stvec 13 14 1 k d
TrapTo false k d = Entered k.mtvec 7 8 3 k d

abbrev pub Trapped : Cause → Cpu → Type 0
Trapped k d = TrapTo (delegated k) k d

trap_S-registers :
    (cause epc : ℕ) (c : Cpu)
    → ((trap_S cause epc c).csr 13 ≡ epc)
      × ((trap_S cause epc c).csr 14 ≡ cause)
      × ((trap_S cause epc c).csr 10 ≡ c.csr 10)
      × ((trap_S cause epc c).mode ≡ 1)
unfolding trap_S
trap_S-registers cause epc c = elim (Bool-cases (keeps_tval cause)) [
  | inl keep ↦ rw keep (refl, refl, refl, refl)
  | inr drop ↦ rw drop (refl, refl, refl, refl)
]

trap_M-registers :
    (cause epc : ℕ) (c : Cpu)
    → ((trap_M cause epc c).csr 7 ≡ epc)
      × ((trap_M cause epc c).csr 8 ≡ cause)
      × ((trap_M cause epc c).csr 1 ≡ c.csr 1)
      × ((trap_M cause epc c).mode ≡ 3)
unfolding trap_M
trap_M-registers cause epc c = elim (Bool-cases (keeps_tval cause)) [
  | inl keep ↦ rw keep (refl, refl, refl, refl)
  | inr drop ↦ rw drop (refl, refl, refl, refl)
]

-- The hart with the handler's address as its program counter.
abbrev jump : ℕ × Cpu → Cpu
jump r = record (r.1) { pc = r.0 }

raise_intr-Trapped :
    (b : Bool) (c : Cpu)
    → intr_deleg_S c.m_s_cause c ≡ b
    → TrapTo b (cause_of c) (jump (raise_intr c.m_s_cause c.pre_pc c))
unfolding raise_intr
raise_intr-Trapped true c q =
    let r = trap_S-registers c.m_s_cause c.pre_pc c in
    rw q (record { pc = ap₂ get_trap_pc r.2 r.1; epc = r.0; cause = r.1; mode_is = r.3 })
raise_intr-Trapped false c q =
    let r = trap_M-registers c.m_s_cause c.pre_pc c in
    rw q (record { pc = ap₂ get_trap_pc r.2 r.1; epc = r.0; cause = r.1; mode_is = r.3 })

deleg-delegated : (c : Cpu) → intr_deleg_S c.m_s_cause c ≡ delegated (cause_of c)
unfolding intr_deleg_S
deleg-delegated c = refl

handle-except :
    (c : Cpu)
    → c.is_except ≡ true
    → handle_irq_or_except c ≡ jump (raise_intr c.m_s_cause c.pre_pc c)
unfolding handle_irq_or_except
handle-except c e =
    ap (λ (b : Bool). if b then jump (raise_intr c.m_s_cause c.pre_pc c) else handle_difftest_irq c)
      e

handle-Trapped : (c : Cpu) → c.is_except ≡ true → Trapped (cause_of c) (handle_irq_or_except c)
handle-Trapped c e =
    subst (λ (d : Cpu). Trapped (cause_of c) d) (sym (handle-except c e))
      (raise_intr-Trapped (delegated (cause_of c)) c (deleg-delegated c))

count-TrapTo : (b : Bool) (k : Cause) (m : Machine) → TrapTo b k m.cpu → TrapTo b k (count m).cpu
count-TrapTo true k m t = record { pc = t.pc; epc = t.epc; cause = t.cause; mode_is = t.mode_is }
count-TrapTo false k m t = record { pc = t.pc; epc = t.epc; cause = t.cause; mode_is = t.mode_is }

check_stop-cpu : (key : Option ℕ) (m : Machine) → (check_stop key m).cpu ≡ m.cpu
check_stop-cpu none m = refl
check_stop-cpu (some key) m = elim (Bool-cases (key == 27)) [
  | inl q ↦ rw q refl
  | inr q ↦ rw q refl
]

-- The end of a step, behind the devices.
abbrev finished : Option ℕ → Machine → Machine
finished key m = count (check_stop key (record m { cpu = handle_irq_or_except m.cpu }))

finished-Trapped :
    (key : Option ℕ) (m : Machine)
    → m.cpu.is_except ≡ true
    → Trapped (cause_of m.cpu) (finished key m).cpu
finished-Trapped key m e =
    let k = cause_of m.cpu in
    let m' = record m { cpu = handle_irq_or_except m.cpu } in
    count-TrapTo (delegated k) k (check_stop key m')
      (subst (λ (d : Cpu). Trapped k d) (sym (check_stop-cpu key m')) (handle-Trapped m.cpu e))

finished-Returns :
    (x : Run (Unit {0} × Machine)) (key : Option ℕ) (s : Decode) (k : Cause)
    → k.except ≡ true
    → Yields (λ (r : Unit {0} × Machine). cause_of r.1.cpu ≡ k) x
    → Returns
        (λ (r : Decode × Machine). Trapped k r.1.cpu)
        (and_then x λ r. done (s, finished key r.1))
finished-Returns (done r) key s k e (yields h) =
    subst (λ (j : Cause). Trapped j (finished key r.1).cpu) h
      (finished-Trapped key r.1 (ap (λ (j : Cause). j.except) h ∙ e))
finished-Returns abort key s k e h = tt
finished-Returns fault key s k e h = tt

-- The instruction is recorded, and the program counter moves on.
abbrev moved : ℕ → Decode → Machine → Machine
moved pc s m =
    let m' = record_inst pc s.isa m in
    record m' { cpu = record (m'.cpu) { pre_pc = pc; pc = s.dnpc } }

-- What a step does behind the instruction, by what updates the devices and takes the trap.
abbrev behind : M (Unit {0}) → (Cpu → Cpu) → Option ℕ → ℕ → Decode → M Decode
behind devices handle key pc s = do
  modify (record_inst pc s.isa)
  modify_cpu (λ c. record c { pre_pc = pc; pc = s.dnpc })
  devices
  modify_cpu handle
  modify (check_stop key)
  modify count
  pure s

behind_lem :
    (devices : M (Unit {0})) (handle : Cpu → Cpu) (key : Option ℕ) (pc : ℕ) (s : Decode)
    (m : Machine)
    → behind devices handle key pc s m
      ≡ and_then
          (devices (moved pc s m))
          λ u. done (s, count (check_stop key (record (u.1) { cpu = handle u.1.cpu })))
behind_lem devices handle key pc s m = refl

exec_once-behind :
    (input : Input) (s : Decode) (m : Machine)
    → exec_once input s m
      ≡ and_then
          (isa_exec_once (record s { pc = m.cpu.pc; snpc = m.cpu.pc }) m)
          λ r. behind (update_device input.rx) handle_irq_or_except input.key m.cpu.pc r.0 r.1
unfolding exec_once
exec_once-behind input s m = refl

-- If the fetch or the instruction of a step raises an exception, a step that returns has entered
-- the trap for it, whatever the devices do meanwhile: the program counter is the handler's address
-- in the vector of S if the exception is delegated and the hart was below M, else in that of M; the
-- registers of that mode hold the address of the instruction and the cause; and the hart is in that
-- mode.
pub exec_once-Trapped :
    (input : Input) (s : Decode) (m : Machine) (r1 r : Decode × Machine)
    → isa_exec_once (record s { pc = m.cpu.pc; snpc = m.cpu.pc }) m ≡ done r1
    → r1.1.cpu.is_except ≡ true
    → exec_once input s m ≡ done r
    → Trapped (record (cause_of r1.1.cpu) { pre_pc = m.cpu.pc }) r.1.cpu
exec_once-Trapped input s m r1 r h e q =
    let k : Cause = record (cause_of r1.1.cpu) { pre_pc = m.cpu.pc } in
    let rest : Decode × Machine → Run (Decode × Machine) =
      λ t. behind (update_device input.rx) handle_irq_or_except input.key m.cpu.pc t.0 t.1 in
    let path =
      sym (behind_lem (update_device input.rx) handle_irq_or_except input.key m.cpu.pc r1.0 r1.1)
      ∙ ap (λ (o : Run (Decode × Machine)). and_then o rest) (sym h)
      ∙ sym (exec_once-behind input s m)
      ∙ q in
    subst (λ (o : Run (Decode × Machine)). Returns (λ (t : Decode × Machine). Trapped k t.1.cpu) o)
      path
      (finished-Returns (update_device input.rx (moved m.cpu.pc r1.0 r1.1)) input.key r1.0 k e
        (update_device-cause input.rx (moved m.cpu.pc r1.0 r1.1)))
