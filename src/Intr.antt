-- ===== src/Intr.antt =====
-- Traps: mayfly_emu/system/intr.c. The functions touch the hart's registers only. `INTR_EMPTY` is
-- the all-ones word, as the `int64_t` -1 becomes one when it is returned.
pub mod Return
pub mod Trap
pub mod Query
use mayfly_emu.Prelude.{ℕ, ◌+◌, ◌%◌, ◌^◌, Bool, true, not, ◌&&◌, ◌||◌, bit_and, bit_or}
use mayfly_emu.Prelude.{ltb, ◌==◌, if◌then◌else◌, List, [], ◌∷◌}
use mayfly_emu.Word.{◌>>>◌, ◌<<<◌}
use mayfly_emu.Cpu
use mayfly_emu.Cpu.{Cpu, mode_s, mode_m, set_csr, mstatus, set_mstatus}

abbrev pub intr_bit : ℕ
intr_bit = 2 ^ 63

abbrev pub intr_empty : ℕ
intr_empty = 0xffffffffffffffff

-- `x & (1 << n)`, as a test.
abbrev pub test_bit : ℕ → ℕ → Bool
test_bit x n = not (bit_and x (2 ^ n) == 0)

unfoldable pub intr_deleg_S : ℕ → Cpu → Bool
intr_deleg_S cause c =
    let deleg = if not (bit_and cause intr_bit == 0) then c.csr 3 else c.csr 2 in
    test_bit deleg (bit_and cause 0xf) && ltb c.mode mode_m

unfoldable pub get_trap_pc : ℕ → ℕ → ℕ
get_trap_pc xtvec xcause =
    let base = (xtvec >>> 2) <<< 2 in
    let mode = bit_and xtvec 0x1 in
    let is_intr = xcause >>> 63 == 1 in
    let cause_no = bit_and xcause 0xf in
    if is_intr && mode == 1 then (base + (cause_no <<< 2)) % 2 ^ 64 else base

-- The exceptions whose trap keeps `m_s_tval`.
abbrev pub keeps_tval : ℕ → Bool
keeps_tval cause =
    cause == Cpu.Ex.ipf
    || cause == Cpu.Ex.lpf
    || cause == Cpu.Ex.spf
    || cause == Cpu.Ex.lam
    || cause == Cpu.Ex.sam
    || cause == Cpu.Ex.iaf
    || cause == Cpu.Ex.laf
    || cause == Cpu.Ex.saf

unfoldable pub trap_S : ℕ → ℕ → Cpu → Cpu
trap_S cause epc c0 =
    let c1 = set_csr 13 epc (set_csr 14 cause c0) in
    let c2 = set_mstatus 8 1 c1.mode c1 in
    let c3 = set_mstatus 5 1 (mstatus 1 1 c2) c2 in
    let c4 = set_mstatus 1 1 0 c3 in
    let c5 = set_csr 15 c4.m_s_tval c4 in
    let c6 = if keeps_tval cause then c5 else set_csr 15 0 c5 in record c6 { mode = mode_s }

unfoldable pub trap_M : ℕ → ℕ → Cpu → Cpu
trap_M cause epc c0 =
    let c1 = set_csr 7 epc (set_csr 8 cause c0) in
    let c2 = set_mstatus 11 2 c1.mode c1 in
    let c3 = set_mstatus 7 1 (mstatus 3 1 c2) c2 in
    let c4 = set_mstatus 3 1 0 c3 in
    let c5 = set_csr 9 c4.m_s_tval c4 in
    let c6 = if keeps_tval cause then c5 else set_csr 9 0 c5 in record c6 { mode = mode_m }

-- Returns the address of the handler beside the new state.
unfoldable pub raise_intr : ℕ → ℕ → Cpu → ℕ × Cpu
unfolding intr_deleg_S get_trap_pc trap_S trap_M
raise_intr cause epc c =
    if intr_deleg_S cause c
    then (let c' = trap_S cause epc c in (get_trap_pc (c'.csr 10) (c'.csr 14), c'))
    else (let c' = trap_M cause epc c in (get_trap_pc (c'.csr 1) (c'.csr 8), c'))

abbrev pub priority : List ℕ
priority = 11 ∷ 3 ∷ 7 ∷ 9 ∷ 1 ∷ 5 ∷ 8 ∷ 0 ∷ 4 ∷ []

unfoldable pub global_enable : ℕ → Cpu → Bool
global_enable irq c =
    if test_bit (c.csr 3) irq
    then (c.mode == mode_s && mstatus 1 1 c == 1) || ltb c.mode mode_s
    else (c.mode == mode_m && mstatus 3 1 c == 1) || ltb c.mode mode_m

-- The loop over `priority`, from one of its positions on.
unfoldable pub query_loop : List ℕ → ℕ → Cpu → ℕ
unfolding global_enable
query_loop [] intr_vec c = intr_empty
query_loop (irq ∷ rest) intr_vec c =
    if test_bit intr_vec irq && global_enable irq c
    then bit_or irq intr_bit
    else query_loop rest intr_vec c

unfoldable pub isa_query_intr : Cpu → ℕ
unfolding query_loop
isa_query_intr c =
    let intr_vec = bit_and (c.csr 5) (c.csr 4) in
    if intr_vec == 0 then intr_empty else query_loop priority intr_vec c

unfoldable pub handle_difftest_irq : Cpu → Cpu
unfolding isa_query_intr raise_intr
handle_difftest_irq c =
    let intr = isa_query_intr c in
    if intr == intr_empty
    then c
    else (let (pc, c') = raise_intr intr c.pc c in record c' { pc = pc; is_irq = true })

-- The version of the stand-alone emulator (`CONFIG_SHARE_SO` is 0).
unfoldable pub handle_irq_or_except : Cpu → Cpu
unfolding handle_difftest_irq
handle_irq_or_except c =
    if c.is_except
    then (let (pc, c') = raise_intr c.m_s_cause c.pre_pc c in record c' { pc = pc })
    else handle_difftest_irq c
