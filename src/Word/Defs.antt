-- ===== src/Word/Defs.antt =====
-- `BITMASK`, `BITS`, `SEXT` and bit-fields of mayfly_emu/cpu/macro.h and mayfly_isa.h.
use mayfly_emu.Prelude.{ℕ, ◌+◌, ◌-◌, ◌*◌, ◌/◌, ◌%◌, ◌^◌, bit_and, ltb, if◌then◌else◌}

-- The casts to the unsigned types.
abbrev pub u8 : ℕ → ℕ
u8 x = x % 2 ^ 8

abbrev pub u32 : ℕ → ℕ
u32 x = x % 2 ^ 32

abbrev pub u64 : ℕ → ℕ
u64 x = x % 2 ^ 64

infixl 75 ◌<<<◌ ◌>>>◌
-- `x >> k` on an unsigned word.
abbrev pub ◌>>>◌ : ℕ → ℕ → ℕ
x >>> k = x / 2 ^ k

-- `x << k` before it is cut to its width.
abbrev pub ◌<<<◌ : ℕ → ℕ → ℕ
x <<< k = x * 2 ^ k

-- `~x` on 64 and on 32 bits.
abbrev pub not64 : ℕ → ℕ
not64 x = 2 ^ 64 - 1 - x % 2 ^ 64

abbrev pub not32 : ℕ → ℕ
not32 x = 2 ^ 32 - 1 - x % 2 ^ 32

abbrev pub bitmask : ℕ → ℕ
bitmask k = 2 ^ k - 1

-- `BITS(x, hi, lo)`.
unfoldable pub bits : ℕ → ℕ → ℕ → ℕ
bits x hi lo = bit_and (x >>> lo) (bitmask (hi - lo + 1))

-- `SEXT(x, len)`: the value of a signed bit-field of `len` bits, as a 64-bit pattern.
unfoldable pub sext : ℕ → ℕ → ℕ
sext x len =
    let low = x % 2 ^ len in if ltb low (2 ^ (len - 1)) then low else low + (2 ^ 64 - 2 ^ len)

-- A bit-field of `w` bits at bit `lo` of a union's `val`: its value, and `val` after a store to it.
abbrev pub field : ℕ → ℕ → ℕ → ℕ
field lo w x = x / 2 ^ lo % 2 ^ w

abbrev pub set_field : ℕ → ℕ → ℕ → ℕ → ℕ
set_field lo w v x = x / 2 ^ (lo + w) * 2 ^ (lo + w) + v % 2 ^ w * 2 ^ lo + x % 2 ^ lo
