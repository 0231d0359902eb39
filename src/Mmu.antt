-- ===== src/Mmu.antt =====
-- Address translation: mayfly_emu/system/mmu.c. What the functions print is left out.
pub mod Check
pub mod Walk
pub mod Kept
pub mod Translate
pub mod Fault
pub mod Permission
use mayfly_emu.Prelude.{ℕ, zero, suc, ◌+◌, ◌-◌, ◌*◌, ◌/◌, ◌%◌, ◌^◌, bit_and, bit_or}
use mayfly_emu.Prelude.{Bool, true, false, not, ◌&&◌, ◌||◌, ltb, ◌==◌, if◌then◌else◌}
use mayfly_emu.Word.{field, ◌<<<◌, ◌>>>◌, not64, bitmask, signed64, shr_ℤ, wrap64}
use mayfly_emu.Cpu
use mayfly_emu.Cpu.{Cpu, mode_u, mode_s, mode_m, mstatus, set_except}
use mayfly_emu.Run.{Run, done, abort, and_then, assert}
use mayfly_emu.Machine.{Machine, M, pure, ◌>>=◌, get_cpu}
use mayfly_emu.Memory.Paddr.{paddr_read}

-- The types of access, and the answers of `isa_mmu_check`.
pub data AccessType : Type 0 where
  ifetch read write : AccessType

pub data MmuCheck : Type 0 where
  direct translate fail : MmuCheck

abbrev pub is_ifetch : AccessType → Bool
is_ifetch ifetch = true
is_ifetch _ = false

-- The fields of a page-table entry that are read.
abbrev pub pte_v : ℕ → Bool
pte_v pte = field 0 1 pte == 1

abbrev pub pte_r : ℕ → Bool
pte_r pte = field 1 1 pte == 1

abbrev pub pte_w : ℕ → Bool
pte_w pte = field 2 1 pte == 1

abbrev pub pte_x : ℕ → Bool
pte_x pte = field 3 1 pte == 1

abbrev pub pte_u : ℕ → Bool
pte_u pte = field 4 1 pte == 1

abbrev pub pte_a : ℕ → Bool
pte_a pte = field 6 1 pte == 1

abbrev pub pte_d : ℕ → Bool
pte_d pte = field 7 1 pte == 1

abbrev pub pte_ppn : ℕ → ℕ
pte_ppn pte = field 10 44 pte

-- `mstatus->mprv && !ifetch ? mstatus->mpp : cpu.mode`.
abbrev pub access_mode : AccessType → Cpu → ℕ
access_mode type c = if mstatus 17 1 c == 1 && not (is_ifetch type) then mstatus 11 2 c else c.mode

abbrev pub satp_mode : Cpu → ℕ
satp_mode c = field 60 4 (c.csr 16)

abbrev pub satp_ppn : Cpu → ℕ
satp_ppn c = field 0 44 (c.csr 16)

-- `PgBASE`. The page number is a bit-field of 44 bits, and gcc shifts it in a type of that width.
abbrev pub pg_base_of : ℕ → ℕ
pg_base_of ppn = (ppn <<< 12) % 2 ^ 44

-- `vm_enable` of `isa_mmu_check`.
abbrev pub vm_enable : AccessType → Cpu → Bool
vm_enable type c = ltb (access_mode type c) mode_m && satp_mode c == 8

-- The page fault that an access of the type raises.
abbrev pub page_fault : AccessType → Cpu → ℕ
page_fault ifetch c = Cpu.Ex.ipf
page_fault read c = if c.amo then Cpu.Ex.spf else Cpu.Ex.lpf
page_fault write c = Cpu.Ex.spf

unfoldable pub isa_mmu_check : ℕ → AccessType → Cpu → MmuCheck × Cpu
isa_mmu_check vaddr type c =
    let vm = vm_enable type c in
    let va_mask = bitmask 26 in
    let va_msbs = vaddr >>> 38 in
    let va_msbs_ok = va_msbs == va_mask || va_msbs == 0 || not vm in
    if not va_msbs_ok
    then (fail, set_except (page_fault type c) vaddr c)
    else (if vm then translate else direct, c)

-- The tests of `check_permission` on `ok`.
abbrev pub mode_ok : Bool → ℕ → AccessType → Cpu → Bool
mode_ok ok pte type c =
    let mode = access_mode type c in
    ok
    && pte_v pte
    && not (mode == mode_u && not (pte_u pte))
    && not (pte_u pte && mode == mode_s && (not (mstatus 18 1 c == 1) || is_ifetch type))

-- The branches of `check_permission` on the type of access.
unfoldable pub permission_by : AccessType → Bool → ℕ → ℕ → Cpu → Run (Bool × Cpu)
permission_by ifetch ok pte vaddr c =
    if not (ok && pte_x pte) || not (pte_a pte)
    then assert (not c.amo) (done (false, set_except Cpu.Ex.ipf vaddr c))
    else done (true, c)
permission_by read ok pte vaddr c =
    let can_load = pte_r pte || (mstatus 19 1 c == 1 && pte_x pte) in
    if not (ok && can_load) || not (pte_a pte)
    then done (false, record (set_except (page_fault read c) vaddr c) { amo = false })
    else done (true, c)
permission_by write ok pte vaddr c =
    if not (ok && pte_w pte) || (not (pte_a pte) || not (pte_d pte))
    then done (false, record (set_except Cpu.Ex.spf vaddr c) { amo = false })
    else done (true, c)

unfoldable pub check_permission : ℕ → Bool → ℕ → AccessType → Cpu → Run (Bool × Cpu)
unfolding permission_by
check_permission pte ok vaddr type c =
    let mode = access_mode type c in
    assert (mode == mode_u || mode == mode_s)
      (permission_by type (mode_ok ok pte type c) pte vaddr c)

-- `VPN_i`.
abbrev pub vpn_i : ℕ → ℕ → ℕ
vpn_i va i = bit_and (va >>> (12 + 9 * i)) 0x1ff

-- How the loop of `isa_mmu_translate` ends: at a leaf, with the level, the entry and its page base,
-- or at `bad`, with the entry read last.
pub data WalkEnd : Type 0 where
  leaf : ℕ → ℕ → ℕ → WalkEnd
  bad : ℕ → WalkEnd

-- The loop from `level` down, at the table `pg_base`.
unfoldable pub walk : ℕ → ℕ → ℕ → M WalkEnd
walk vaddr zero pg_base = do
  pte ← paddr_read (pg_base + vpn_i vaddr 0 * 8) 8
  if not (pte_v pte) || (not (pte_r pte) && pte_w pte)
      then pure (bad pte)
      else if pte_r pte || pte_x pte
      then pure (leaf 0 pte (pg_base_of (pte_ppn pte)))
      else pure (bad pte)
walk vaddr (suc level) pg_base = do
  pte ← paddr_read (pg_base + vpn_i vaddr (suc level) * 8) 8
  let rest = walk vaddr level (pg_base_of (pte_ppn pte))
  if not (pte_v pte) || (not (pte_r pte) && pte_w pte)
      then pure (bad pte)
      else if pte_r pte || pte_x pte
      then pure (leaf (suc level) pte (pg_base_of (pte_ppn pte)))
      else rest

abbrev pub permission : ℕ → Bool → ℕ → AccessType → M Bool
permission pte ok vaddr type m =
    and_then (check_permission pte ok vaddr type m.cpu) λ r. done (r.0, record m { cpu = r.1 })

-- `MEM_RET_OK` and `MEM_RET_FAIL`.
abbrev pub mem_ret_ok : ℕ
mem_ret_ok = 0

abbrev pub mem_ret_fail : ℕ
mem_ret_fail = 1

-- The label `bad`: the permission check raises the fault.
abbrev pub bad_translation : ℕ → ℕ → AccessType → M ℕ
bad_translation pte vaddr type = do _ ← permission pte false vaddr type; pure mem_ret_fail

-- Behind the loop. `pg_mask` covers the page of a leaf at the level.
unfoldable pub after_walk : ℕ → AccessType → WalkEnd → M ℕ
unfolding check_permission
after_walk vaddr type (bad pte) = bad_translation pte vaddr type
after_walk vaddr type (leaf level pte pg_base) = do
  granted ← permission pte true vaddr type
  if not granted
      then pure mem_ret_fail
      else if ltb 0 level
      then (let pg_mask = bitmask (12 + 9 * level) in
          if not (bit_and pg_base pg_mask == 0)
          then bad_translation pte vaddr type
          else pure (
              bit_or
                (bit_or (bit_and pg_base (not64 pg_mask))
                  (bit_and (bit_and vaddr pg_mask) (not64 (bitmask 12))))
                mem_ret_ok))
      else pure (bit_or pg_base mem_ret_ok)

-- The sign extension of the 39 low bits.
abbrev pub vaddr39 : ℕ → ℕ
vaddr39 vaddr = wrap64 (shr_ℤ (signed64 ((vaddr <<< 25) % 2 ^ 64)) 25)

-- The entry that the first `goto bad` finds is not initialised; the check does not depend on it.
unfoldable pub isa_mmu_translate : ℕ → AccessType → M ℕ
unfolding walk after_walk
isa_mmu_translate vaddr type = do
  c ← get_cpu
  if not (vaddr39 vaddr == vaddr)
      then bad_translation 0 vaddr type
      else (walk vaddr 2 (pg_base_of (satp_ppn c)) >>= after_walk vaddr type)
