-- ===== src/Expr/Number.antt =====
-- The conversions of C's library that mayfly_emu/monitor calls on texts: `atoi`, `atol` and `strtoul`
-- as glibc has them, with the result as a word, and `strcmp` for equality.
use mayfly_emu.Prelude.{ℕ, ◌+◌, ◌-◌, ◌*◌, ◌%◌, ◌^◌, min, Bool, true, false, ◌&&◌, ◌||◌}
use mayfly_emu.Prelude.{ltb, leb, ◌==◌, if◌then◌else◌, List, [], ◌∷◌}

-- `strcmp(a, b) == 0`.
abbrev pub same_text : List ℕ → List ℕ → Bool
same_text [] [] = true
same_text [] (_ ∷ _) = false
same_text (_ ∷ _) [] = false
same_text (a ∷ s) (b ∷ t) = a == b && same_text s t

abbrev is_space : ℕ → Bool
is_space c = c == 32 || (leb 9 c && leb c 13)

abbrev skip_space : List ℕ → List ℕ
skip_space [] = []
skip_space (c ∷ s) = if is_space c then skip_space s else c ∷ s

-- The value of a digit, up to 36.
abbrev digit_value : ℕ → ℕ
digit_value c =
    if leb b'0' c && leb c b'9'
    then c - b'0'
    else if leb b'a' c && leb c b'z'
    then c - b'a' + 10
    else if leb b'A' c && leb c b'Z'
    then c - b'A' + 10
    else 36

-- The number that the digits at the front of a text denote, behind the digits of `acc`.
unfoldable pub digits : ℕ → ℕ → List ℕ → ℕ
digits base acc [] = acc
digits base acc (c ∷ s) =
    let rest = digits base (acc * base + digit_value c) s in
    if ltb (digit_value c) base then rest else acc

-- The sign and what follows it.
abbrev sign : List ℕ → Bool × List ℕ
sign [] = (false, [])
sign (c ∷ s) = if c == b'-' then (true, s) else if c == b'+' then (false, s) else (false, c ∷ s)

-- `0x`, if a digit follows.
abbrev hex_prefix : List ℕ → List ℕ
hex_prefix (a ∷ b ∷ c ∷ s) =
    if a == b'0' && (b == b'x' || b == b'X') && ltb (digit_value c) 16 then c ∷ s else a ∷ b ∷ c ∷ s
hex_prefix s = s

-- A value that does not fit is the greatest, or the least, that does.
unfoldable pub atol : List ℕ → ℕ
unfolding digits
atol s =
    let (neg, t) = sign (skip_space s) in
    let n = digits 10 0 t in if neg then (2 ^ 64 - min n (2 ^ 63)) % 2 ^ 64 else min n (2 ^ 63 - 1)

-- The 32 low bits of that.
unfoldable pub atoi : List ℕ → ℕ
unfolding atol
atoi s = atol s % 2 ^ 32

-- `strtoul(s, NULL, 16)`.
unfoldable pub strtoul_16 : List ℕ → ℕ
unfolding digits
strtoul_16 s =
    let (neg, t) = sign (skip_space s) in
    let n = digits 16 0 (hex_prefix t) in
    if ltb n (2 ^ 64) then (if neg then (2 ^ 64 - n) % 2 ^ 64 else n) else 2 ^ 64 - 1
