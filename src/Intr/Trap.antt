-- ===== src/Intr/Trap.antt =====
-- Taking a trap and returning from it: `raise_intr` of mayfly_emu/system/intr.c against `mret` and
-- `sret` of mayfly_emu/cpu/inst.c.
use mayfly_emu.Prelude.{ℕ, ◌+◌, ◌*◌, ◌/◌, ◌%◌, ◌^◌, ◌≤◌, ◌<◌, ◌≡◌, ◌≢◌, refl, arith}
use mayfly_emu.Prelude.{
  true, false, leb, ◌==◌, ◌&&◌, if◌then◌else◌, Bool-cases, inl, inr, ◌⊎◌, ap, ◌∙◌,
}
use mayfly_emu.Cpu.{Cpu, mode_s, mode_m, mstatus}
use mayfly_emu.Word.{bit_and-mask, field, set_field}
use mayfly_emu.Intr.{intr_deleg_S, get_trap_pc, raise_intr, trap_M, trap_S, keeps_tval}
use mayfly_emu.Intr.Return.{mret, sret}

-- What `mret` undoes of a trap to M.
pub record Resumed (ie : ℕ) (epc : ℕ) (c : Cpu) (back : ℕ × Cpu) : Type 0 where
  pub pc : back.0 ≡ epc
  pub mode : back.1.mode ≡ c.mode
  pub enabled : mstatus ie 1 back.1 ≡ mstatus ie 1 c

-- `mstatus` behind a trap to M, and its fields that `mret` reads.
status_M : ℕ → ℕ → ℕ
status_M mode x = let y = set_field 11 2 mode x in set_field 3 1 0 (set_field 7 1 (field 3 1 y) y)

status_M-fields :
    (mode x : ℕ)
    → mode < 4
    → (field 7 1 (status_M mode x) ≡ field 3 1 x) × (field 11 2 (status_M mode x) ≡ mode)
unfolding status_M
status_M-fields mode x h = omega arith

trap_M-fields :
    (cause epc : ℕ) (c : Cpu)
    → ((trap_M cause epc c).csr 0 ≡ status_M c.mode (c.csr 0)) × ((trap_M cause epc c).csr 7 ≡ epc)
unfolding trap_M status_M
trap_M-fields cause epc c = elim (Bool-cases (keeps_tval cause)) [
  | inl keep ↦ rw keep (refl, refl)
  | inr drop ↦ rw drop (refl, refl)
]

mret-fields :
    (c : Cpu)
    → ((mret c).0 ≡ c.csr 7)
      × ((mret c).1.mode ≡ mstatus 11 2 c)
      × (mstatus 3 1 (mret c).1 ≡ mstatus 7 1 c)
unfolding mret
mret-fields c = (refl, omega arith, omega arith)

mret-trap_M : (cause epc : ℕ) (c : Cpu) → c.mode < 4 → Resumed 3 epc c (mret (trap_M cause epc c))
mret-trap_M cause epc c h =
    let t = trap_M cause epc c in
    let status = trap_M-fields cause epc c in
    let m = mret-fields t in
    let f = status_M-fields c.mode (c.csr 0) h in
    record {
      pc = m.0 ∙ status.1;
      mode = m.1 ∙ ap (λ (x : ℕ). field 11 2 x) status.0 ∙ f.1;
      enabled = m.2 ∙ ap (λ (x : ℕ). field 7 1 x) status.0 ∙ f.0;
    }

sret-trap_S : (cause epc : ℕ) (c : Cpu) → c.mode < 2 → Resumed 1 epc c (sret (trap_S cause epc c))
unfolding sret trap_S
sret-trap_S cause epc c h = ground arith

-- A trap that is not delegated is undone by `mret`: it returns to the saved address, in the mode
-- and with the machine interrupt enable that the trap found.
pub mret-raise_intr :
    (cause epc : ℕ) (c : Cpu)
    → c.mode < 4
    → intr_deleg_S cause c ≡ false
    → Resumed 3 epc c (mret (raise_intr cause epc c).1)
unfolding raise_intr
mret-raise_intr cause epc c h d = rw d (mret-trap_M cause epc c h)

-- In S or U, a delegated trap is undone by `sret`: it returns to the saved address, in the mode and
-- with the supervisor interrupt enable that the trap found.
pub sret-raise_intr :
    (cause epc : ℕ) (c : Cpu)
    → c.mode < 2
    → intr_deleg_S cause c ≡ true
    → Resumed 1 epc c (sret (raise_intr cause epc c).1)
unfolding raise_intr
sret-raise_intr cause epc c h d = rw d (sret-trap_S cause epc c h)

deleg_below_M : (cause : ℕ) (c : Cpu) → intr_deleg_S cause c ≡ true → c.mode < mode_m
unfolding intr_deleg_S
deleg_below_M cause c d = ground arith

trap_M-mode : (cause epc : ℕ) (c : Cpu) → (trap_M cause epc c).mode ≡ mode_m
unfolding trap_M
trap_M-mode cause epc c = refl

trap_S-mode : (cause epc : ℕ) (c : Cpu) → (trap_S cause epc c).mode ≡ mode_s
unfolding trap_S
trap_S-mode cause epc c = refl

-- A trap never lowers the privilege: from M it stays in M, from U or S it enters S or M.
pub raise_intr-mode_le :
    (cause epc : ℕ) (c : Cpu)
    → c.mode ≤ mode_m
    → c.mode ≢ 2
    → let c' = (raise_intr cause epc c).1 in
      (c.mode ≤ c'.mode) × ((c'.mode ≡ mode_s) ⊎ (c'.mode ≡ mode_m))
unfolding raise_intr
raise_intr-mode_le cause epc c h ne =
    ground (arith, deleg_below_M cause c, trap_M-mode cause epc c, trap_S-mode cause epc c)

-- The entry of a vectored table that a cause selects; entry 0 under a direct one.
abbrev pub vector_entry : ℕ → ℕ → ℕ
vector_entry xtvec xcause = if leb (2 ^ 63) xcause && xtvec % 2 == 1 then xcause % 16 else 0

-- The handler's address is the vector's base, a multiple of four, plus four bytes for each entry:
-- an interrupt under a vectored table goes to the entry of its number, all else to entry 0. The
-- vector lies below 2 ^ 63, so that nothing wraps.
pub get_trap_pc_lem :
    (xtvec xcause : ℕ)
    → xtvec < 2 ^ 63
    → xcause < 2 ^ 64
    → (get_trap_pc xtvec xcause ≡ xtvec / 4 * 4 + 4 * vector_entry xtvec xcause)
      × (get_trap_pc xtvec xcause % 4 ≡ 0)
unfolding get_trap_pc
get_trap_pc_lem xtvec xcause h hc = ground (arith, bit_and-mask 1 xtvec, bit_and-mask 4 xcause)
