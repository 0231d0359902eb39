-- ===== src/Csr.antt =====
-- Access to the control and status registers: `csr_maps`, `check_csr_idx`, `csr_read` and
-- `csr_write` of mayfly_emu/cpu/reg.h. Each access has a
-- `switch` of its own on the address.
pub mod Laws
use mayfly_emu.Prelude.{ℕ, ◌-◌, ◌^◌, Bool, true, false, not, ◌&&◌, ◌||◌, bit_and}
use mayfly_emu.Prelude.{ltb, ◌==◌, if◌then◌else◌, List, [], ◌∷◌, Option, none, some}
use mayfly_emu.Word.{◌>>>◌, masked}
use mayfly_emu.Cpu.{Cpu, mode_m, set_csr}

-- The cases of a switch; `reg i` is one that reads, or writes, `cpu.csr[i]` whole, and `bad` is the
-- default.
pub data CsrCase : Type 0 where
  mstatus satp sstatus sip sie misa mvendorid marchid mimpid mhartid minstret mcycle bad : CsrCase
  reg : ℕ → CsrCase

-- The labels of the switch of `csr_read`.
unfoldable pub csr_read_case : ℕ → CsrCase
csr_read_case idx =
    if idx == 0x300
    then mstatus
    else if idx == 0x305
    then reg 1
    else if idx == 0x302
    then reg 2
    else if idx == 0x303
    then reg 3
    else if idx == 0x344
    then reg 4
    else if idx == 0x304
    then reg 5
    else if idx == 0x340
    then reg 6
    else if idx == 0x341
    then reg 7
    else if idx == 0x342
    then reg 8
    else if idx == 0x343
    then reg 9
    else if idx == 0x105
    then reg 10
    else if idx == 0x106
    then reg 11
    else if idx == 0x140
    then reg 12
    else if idx == 0x141
    then reg 13
    else if idx == 0x142
    then reg 14
    else if idx == 0x143
    then reg 15
    else if idx == 0x180
    then satp
    else if idx == 0x100
    then sstatus
    else if idx == 0x144
    then sip
    else if idx == 0x104
    then sie
    else if idx == 0x301
    then misa
    else if idx == 0xf11
    then mvendorid
    else if idx == 0xf12
    then marchid
    else if idx == 0xf13
    then mimpid
    else if idx == 0xf14
    then mhartid
    else if idx == 0xb02
    then minstret
    else if idx == 0xb00
    then mcycle
    else bad

-- What the switch of `csr_read` puts into `temp`.
unfoldable pub read_case : CsrCase → Cpu → ℕ
read_case mstatus c = c.csr 0
read_case (reg i) c = c.csr i
read_case satp c = c.csr 16
read_case sstatus c = bit_and (c.csr 0) 0x80000003000de762
read_case sip c = bit_and (c.csr 4) 0x222
read_case sie c = bit_and (c.csr 5) 0x222
read_case misa c = 0x8000000000141101
read_case mvendorid c = 0
read_case marchid c = 0
read_case mimpid c = 0
read_case mhartid c = 0
read_case minstret c = c.csr 23
read_case mcycle c = c.csr 24
read_case bad c = 0

-- The default branch of `csr_read`, and its check of the mode behind the switch.
abbrev pub read_default : CsrCase → Cpu → Cpu
read_default bad c = record c { is_except = true; is_diff_skip = true }
read_default _ c = c

abbrev pub check_read : ℕ → Cpu → Cpu
check_read idx c =
    if ltb 0x200 idx && not (c.mode == mode_m) then record c { is_except = true } else c

unfoldable pub csr_read : ℕ → Cpu → ℕ × Cpu
unfolding read_case csr_read_case
csr_read idx c =
    (read_case (csr_read_case idx) c, check_read idx (read_default (csr_read_case idx) c))

-- The labels of the switch of `csr_write`.
unfoldable pub csr_write_case : ℕ → CsrCase
csr_write_case idx =
    if idx == 0x300
    then mstatus
    else if idx == 0x305
    then reg 1
    else if idx == 0x302
    then reg 2
    else if idx == 0x303
    then reg 3
    else if idx == 0x344
    then reg 4
    else if idx == 0x304
    then reg 5
    else if idx == 0x340
    then reg 6
    else if idx == 0x341
    then reg 7
    else if idx == 0x342
    then reg 8
    else if idx == 0x343
    then reg 9
    else if idx == 0x105
    then reg 10
    else if idx == 0x106
    then reg 11
    else if idx == 0x140
    then reg 12
    else if idx == 0x141
    then reg 13
    else if idx == 0x142
    then reg 14
    else if idx == 0x143
    then reg 15
    else if idx == 0x180
    then satp
    else if idx == 0x100
    then sstatus
    else if idx == 0x144
    then sip
    else if idx == 0x104
    then sie
    else if idx == 0x301
    then misa
    else if idx == 0xf11
    then mvendorid
    else if idx == 0xf12
    then marchid
    else if idx == 0xf13
    then mimpid
    else if idx == 0xf14
    then mhartid
    else if idx == 0xb02
    then minstret
    else if idx == 0xb00
    then mcycle
    else bad

-- What the switch of `csr_write` stores.
unfoldable pub write_case : CsrCase → ℕ → Cpu → Cpu
write_case mstatus wdata c = set_csr 0 (masked 64 (c.csr 0) wdata 0x80000030007fffea) c
write_case (reg i) wdata c = set_csr i wdata c
write_case satp wdata c =
    if wdata >>> 60 == 8 then set_csr 16 (masked 64 (c.csr 0) wdata 0xf0000fffffffffff) c else c
write_case sstatus wdata c = set_csr 0 (masked 64 (c.csr 0) wdata 0x80000000000de762) c
write_case sip wdata c = set_csr 4 (masked 64 (c.csr 4) wdata 0x222) c
write_case sie wdata c = set_csr 5 (masked 64 (c.csr 5) wdata 0x222) c
write_case misa wdata c = c
write_case mvendorid wdata c = c
write_case marchid wdata c = c
write_case mimpid wdata c = c
write_case mhartid wdata c = c
write_case minstret wdata c = c
write_case mcycle wdata c = c
write_case bad wdata c = c

-- The default branch of `csr_write`, and its check of the mode behind the switch.
abbrev pub write_default : CsrCase → Cpu → Cpu
write_default bad c = record c { is_except = true; is_diff_skip = true }
write_default _ c = c

abbrev pub check_write : ℕ → Cpu → Cpu
check_write idx c =
    if ltb 0x200 idx && not (c.mode == mode_m) then record c { is_except = true } else c

unfoldable pub csr_write : ℕ → ℕ → Cpu → Cpu
unfolding write_case csr_write_case
csr_write idx wdata c =
    let k = csr_write_case idx in check_write idx (write_default k (write_case k wdata c))

-- `csr_maps`: address and index of each register that `check_csr_idx` knows.
abbrev pub csr_maps : List (ℕ × ℕ)
csr_maps =
    (0x300, 0)
    ∷ (0x305, 1)
    ∷ (0x302, 2)
    ∷ (0x303, 3)
    ∷ (0x344, 4)
    ∷ (0x304, 5)
    ∷ (0x340, 6)
    ∷ (0x341, 7)
    ∷ (0x342, 8)
    ∷ (0x343, 9)
    ∷ (0x105, 10)
    ∷ (0x106, 11)
    ∷ (0x140, 12)
    ∷ (0x141, 13)
    ∷ (0x142, 14)
    ∷ (0x143, 15)
    ∷ (0x180, 16)
    ∷ (0x100, 0)
    ∷ (0x144, 4)
    ∷ (0x104, 5)
    ∷ (0x301, 17)
    ∷ (0xf11, 18)
    ∷ (0xf12, 19)
    ∷ (0xf13, 20)
    ∷ (0xf14, 21)
    ∷ (0x34a, 23)
    ∷ (0xb00, 24)
    ∷ []

unfoldable pub find_csr : ℕ → List (ℕ × ℕ) → Option ℕ
find_csr idx [] = none
find_csr idx ((addr, i) ∷ rest) = if addr == idx then some i else find_csr idx rest

-- `check_csr_idx`; `none` from the search is its `ret == -1`.
unfoldable pub check_csr_idx : ℕ → Cpu → ℕ × Cpu
unfolding find_csr
check_csr_idx idx c = elim (find_csr idx csr_maps) [
  | none ↦ (0, record c { is_except = true; is_diff_skip = true })
  | some i ↦
      if not (c.mode == mode_m) && ltb 0x200 idx then (0, record c { is_except = true }) else (i, c)
]
