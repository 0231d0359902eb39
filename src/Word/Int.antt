-- ===== src/Word/Int.antt =====
-- The integers that signed words stand for, with C's arithmetic on them: `int64_t`, `int32_t` and
-- `__int128` of mayfly_emu/cpu/inst.c.
use mayfly_emu.Prelude.{ℕ, suc, ◌+◌, ◌-◌, ◌*◌, ◌/◌, ◌%◌, ◌^◌, ◌<◌, ◌≡◌, arith}
use mayfly_emu.Prelude.{Bool, true, false, ltb, if◌then◌else◌}

-- `negsuc n` is -(n + 1).
pub data ℤ : Type 0 where
  pos : ℕ → ℤ
  negsuc : ℕ → ℤ

-- The magnitude with a sign, as C's truncating division uses it.
abbrev pub abs : ℤ → ℕ
abs (pos n) = n
abs (negsuc n) = suc n

abbrev pub is_neg : ℤ → Bool
is_neg (pos n) = false
is_neg (negsuc n) = true

abbrev pub of_sign : Bool → ℕ → ℤ
of_sign false n = pos n
of_sign true n = if ltb 0 n then negsuc (n - 1) else pos 0

abbrev pub xor_sign : Bool → Bool → Bool
xor_sign true true = false
xor_sign true false = true
xor_sign false b = b

infixl 70 ◌*ℤ◌
abbrev pub ◌*ℤ◌ : ℤ → ℤ → ℤ
a *ℤ b = of_sign (xor_sign (is_neg a) (is_neg b)) (abs a * abs b)

-- `a / b` and `a % b` for a `b` other than 0: truncated towards zero, the remainder with the sign
-- of `a`.
abbrev pub div_ℤ : ℤ → ℤ → ℤ
div_ℤ a b = of_sign (xor_sign (is_neg a) (is_neg b)) (abs a / abs b)

abbrev pub rem_ℤ : ℤ → ℤ → ℤ
rem_ℤ a b = of_sign (is_neg a) (abs a % abs b)

-- `a >> k` on a signed type: rounded down.
abbrev pub shr_ℤ : ℤ → ℕ → ℤ
shr_ℤ (pos n) k = pos (n / 2 ^ k)
shr_ℤ (negsuc n) k = negsuc (n / 2 ^ k)

-- `a < b`.
abbrev pub ltℤ : ℤ → ℤ → Bool
ltℤ (pos a) (pos b) = ltb a b
ltℤ (pos a) (negsuc b) = false
ltℤ (negsuc a) (pos b) = true
ltℤ (negsuc a) (negsuc b) = ltb b a

-- The integer that a w-bit pattern stands for, and the w-bit pattern of an integer.
abbrev pub signed64 : ℕ → ℤ
signed64 x = if ltb x (2 ^ 63) then pos x else negsuc (2 ^ 64 - x - 1)

abbrev pub signed32 : ℕ → ℤ
signed32 x = if ltb x (2 ^ 31) then pos x else negsuc (2 ^ 32 - x - 1)

abbrev pub wrap64 : ℤ → ℕ
wrap64 (pos n) = n % 2 ^ 64
wrap64 (negsuc n) = 2 ^ 64 - 1 - n % 2 ^ 64

-- The pattern stands for its integer, and the comparison of the integers is that of the patterns
-- with their top bit flipped.
pub wrap64-signed64 : (x : ℕ) → x < 2 ^ 64 → wrap64 (signed64 x) ≡ x
wrap64-signed64 x h = ground arith

pub wrap64-signed32 : (x : ℕ) → x < 2 ^ 32 → wrap64 (signed32 x) % 2 ^ 32 ≡ x
wrap64-signed32 x h = ground arith

pub ltℤ-signed64 :
    (x y : ℕ)
    → x < 2 ^ 64
    → y < 2 ^ 64
    → ltℤ (signed64 x) (signed64 y) ≡ ltb ((x + 2 ^ 63) % 2 ^ 64) ((y + 2 ^ 63) % 2 ^ 64)
ltℤ-signed64 x y hx hy = ground arith
