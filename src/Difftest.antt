-- ===== src/Difftest.antt =====
-- The comparison of the difference test with a reference hart: `isa_difftest_checkregs` of
-- mayfly_emu/monitor/sdb.c, less what it prints.
pub mod Agrees
pub mod Step
use mayfly_emu.Prelude.{ℕ, zero, suc, ◌+◌, Bool, true, false, not, ◌||◌, ◌==◌, if◌then◌else◌}
use mayfly_emu.Cpu.{Cpu}

-- The rounds `i`, `i + 1`, ... of the loop over the general registers, `n` of them.
unfoldable pub check_gpr : ℕ → ℕ → Cpu → Cpu → Bool
check_gpr zero i ref c = true
check_gpr (suc n) i ref c =
    let rest = check_gpr n (i + 1) ref c in if not (ref.gpr i == c.gpr i) then false else rest

-- The same over the control and status registers: the scratch registers are skipped, and a
-- difference in `mip` is passed over.
unfoldable pub check_csr : ℕ → ℕ → Cpu → Cpu → Bool
check_csr zero i ref c = true
check_csr (suc n) i ref c =
    let rest = check_csr n (i + 1) ref c in
    if i == 6 || i == 12
    then rest
    else if not (ref.csr i == c.csr i)
    then (if i == 4 then rest else false)
    else rest

unfoldable pub isa_difftest_checkregs : Cpu → ℕ → Cpu → Bool
unfolding check_gpr check_csr
isa_difftest_checkregs ref next_pc c =
    if not (ref.pc == next_pc)
    then false
    else if not (ref.mode == c.mode)
    then false
    else if check_gpr 32 0 ref c
    then check_csr 17 0 ref c
    else false
