-- ===== src/Inst/Pattern.antt =====
-- Instruction patterns: `pattern_decode` and the test of `INSTPAT` of mayfly_emu/cpu/decode.h. The
-- shifts by `shift` may be by 32, where C leaves the result open and the values are 0 in any case.
pub mod Agrees
use Prim.Native.Char.{code}
use Prim.Native.String.{String}
use Prim.Native.String
use mayfly_emu.Prelude.{ℕ, zero, suc, ◌+◌, ◌*◌, ◌/◌, ◌%◌, ◌^◌, bit_and, bit_or, Bool, true, false}
use mayfly_emu.Prelude.{◌||◌, ◌==◌, if◌then◌else◌, List, [], ◌∷◌}
use mayfly_emu.Word.{u32, ◌<<<◌, ◌>>>◌}
use mayfly_emu.Run.{Run, done, abort, assert}

-- The characters of a string constant.
abbrev pub codes : String → List ℕ
codes String.[] = []
codes (String.◌∷◌ c s) = code c ∷ codes s

pub record Pattern : Type 0 where
  pub key : ℕ
  pub mask : ℕ
  pub shift : ℕ

abbrev pub is_digit : ℕ → Bool
is_digit c = c == b'0' || c == b'1' || c == b'?'

-- What `macro` does for a character other than a space.
unfoldable pub add_char : ℕ → Pattern → Pattern
add_char c p = record {
  key = bit_or (u32 (p.key <<< 1)) (if c == b'1' then 1 else 0);
  mask = bit_or (u32 (p.mask <<< 1)) (if c == b'?' then 0 else 1);
  shift = if c == b'?' then p.shift + 1 else 0;
}

-- The macros, `n` of them still to come; a string that they do not finish ends in `panic`.
unfoldable pub decode_loop : ℕ → List ℕ → Pattern → Run Pattern
unfolding add_char
decode_loop zero str p = abort
decode_loop (suc n) [] p = done p
decode_loop (suc n) (c ∷ str) p =
    let here = decode_loop n str p in
    let next = decode_loop n str (add_char c p) in
    if c == b' ' then here else assert (is_digit c) next

abbrev pub finish : Pattern → Pattern
finish p = record p { key = p.key >>> p.shift; mask = p.mask >>> p.shift }

abbrev pub no_bits : Pattern
no_bits = record { key = 0; mask = 0; shift = 0 }

abbrev pub map_run : (Pattern → Pattern) → Run Pattern → Run Pattern
map_run f (Run.done p) = done (f p)
map_run f Run.abort = abort
map_run f Run.fault = Run.fault

unfoldable pub pattern_decode : List ℕ → Run Pattern
unfolding decode_loop
pattern_decode str = map_run finish (decode_loop 64 str no_bits)

-- `((INSTPAT_INST(s) >> shift) & mask) == key`.
abbrev pub matches : Pattern → ℕ → Bool
matches p isa = bit_and (isa >>> p.shift) p.mask == p.key
