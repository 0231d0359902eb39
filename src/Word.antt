-- ===== src/Word.antt =====
-- Machine words of mayfly_emu/cpu/macro.h: a w-bit word is a native number below 2 ^ w, its
-- wrap-around written out. Here are `BITS`, `SEXT`, complement, shifts and the casts to signed
-- types; the children hold the integers that signed words stand for and the laws of the bits.
mod Defs
mod Int
mod Step
mod Bits
mod Low
mod Masked
unfoldable pub use Defs.*
pub use Int.*
pub use Step.*
pub use Bits.*
pub use Low.*
unfoldable pub use Masked.*
