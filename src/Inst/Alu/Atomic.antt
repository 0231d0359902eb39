-- ===== src/Inst/Alu/Atomic.antt =====
-- The values that the atomic operations of mayfly_emu/cpu/inst.c store, against the instruction set.
use mayfly_emu.Prelude.{ℕ, ◌+◌, ◌-◌, ◌%◌, ◌^◌, ◌<◌, ◌≡◌, refl, sym, ap, ◌∙◌, arith}
use mayfly_emu.Prelude.{Bool, true, false, ltb, if◌then◌else◌, bit_and, bit_or, bit_xor}
use mayfly_emu.Word.{sext, signed64, ltℤ, ltℤ-signed64, bit_and-mod, bit_or-mod, bit_xor-mod}
use mayfly_emu.Inst.Table.{
  AmoOp, amoswap, amoadd, amoxor, amoand, amoor, amomin, amomax, amominu, amomaxu,
}
use mayfly_emu.Inst.Alu.Signed.{sext_low}
use mayfly_emu.Inst.Alu.{amo_d_value, amo_w_rdata, amo_w_value}

-- Signed order on words of `k` bits: that of the words with the top bit flipped.
abbrev pub less : ℕ → ℕ → ℕ → Bool
less k x y = ltb ((x + 2 ^ (k - 1)) % 2 ^ k) ((y + 2 ^ (k - 1)) % 2 ^ k)

-- The instruction set: from the word of `k` bits in memory and that of the register, the new word.
abbrev pub result : ℕ → AmoOp → ℕ → ℕ → ℕ
result k amoswap w v = v
result k amoadd w v = (w + v) % 2 ^ k
result k amoxor w v = bit_xor v w % 2 ^ k
result k amoand w v = bit_and v w % 2 ^ k
result k amoor w v = bit_or v w % 2 ^ k
result k amomin w v = if less k w v then w else v
result k amomax w v = if less k v w then w else v
result k amominu w v = if ltb w v then w else v
result k amomaxu w v = if ltb v w then w else v

-- The code compares sign-extended words.
less-sext :
    (x y : ℕ)
    → ltℤ (signed64 (sext x 32)) (signed64 (sext y 32)) ≡ less 32 (x % 2 ^ 32) (y % 2 ^ 32)
unfolding sext
less-sext x y = ground arith

ltb-sext : (x y : ℕ) → ltb (sext x 32) (sext y 32) ≡ ltb (x % 2 ^ 32) (y % 2 ^ 32)
unfolding sext
ltb-sext x y = ground arith

sext-mod : (x : ℕ) → sext x 32 % 2 ^ 32 ≡ x % 2 ^ 32
unfolding sext
sext-mod x = ground arith

-- A choice between the extended word and the register keeps the low word of the one chosen.
compared :
    (b c : Bool) (w src2 : ℕ)
    → w < 2 ^ 32
    → b ≡ c
    → (if b then sext w 32 else src2) % 2 ^ 32 ≡ (if c then w else src2 % 2 ^ 32)
compared b c w src2 h e = ap (λ (t : Bool). (if t then sext w 32 else src2) % 2 ^ 32) e ∙ chosen c
  where
    chosen :
        (t : Bool) → (if t then sext w 32 else src2) % 2 ^ 32 ≡ (if t then w else src2 % 2 ^ 32)
    chosen true = sext-mod w ∙ omega arith
    chosen false = refl

pub amo_w_value-result :
    (op : AmoOp) (src2 w : ℕ)
    → w < 2 ^ 32
    → amo_w_value op src2 (amo_w_rdata op w) % 2 ^ 32 ≡ result 32 op w (src2 % 2 ^ 32)
unfolding amo_w_value amo_w_rdata amo_d_value
amo_w_value-result op src2 w h = value op
  where
    low : w % 2 ^ 32 ≡ w
    low = omega arith

    value :
        (op : AmoOp)
        → amo_w_value op src2 (amo_w_rdata op w) % 2 ^ 32 ≡ result 32 op w (src2 % 2 ^ 32)
    value amoswap = refl
    value amoadd = omega arith
    value amoxor = bit_xor-mod 32 src2 w ∙ ap (λ (t : ℕ). bit_xor (src2 % 2 ^ 32) t % 2 ^ 32) low
    value amoand = bit_and-mod 32 src2 w ∙ ap (λ (t : ℕ). bit_and (src2 % 2 ^ 32) t % 2 ^ 32) low
    value amoor = bit_or-mod 32 src2 w ∙ ap (λ (t : ℕ). bit_or (src2 % 2 ^ 32) t % 2 ^ 32) low
    value amomin =
        compared _ _ w src2 h (less-sext w src2 ∙ ap (λ (t : ℕ). less 32 t (src2 % 2 ^ 32)) low)
    value amomax =
        compared _ _ w src2 h (less-sext src2 w ∙ ap (λ (t : ℕ). less 32 (src2 % 2 ^ 32) t) low)
    value amominu =
        compared _ _ w src2 h (ltb-sext w src2 ∙ ap (λ (t : ℕ). ltb t (src2 % 2 ^ 32)) low)
    value amomaxu =
        compared _ _ w src2 h (ltb-sext src2 w ∙ ap (λ (t : ℕ). ltb (src2 % 2 ^ 32) t) low)

-- What goes into the register: the word, sign-extended.
pub amo_w_rdata-sext : (op : AmoOp) (w : ℕ) → sext (amo_w_rdata op w) 32 ≡ sext w 32
unfolding amo_w_rdata
amo_w_rdata-sext op w = case op
  where
    twice : sext (sext w 32) 32 ≡ sext w 32
    twice = sext_low (sext w 32) w (sext-mod w)

    case : (op : AmoOp) → sext (amo_w_rdata op w) 32 ≡ sext w 32
    case amoswap = refl
    case amoadd = refl
    case amoxor = refl
    case amoand = refl
    case amoor = refl
    case amomin = twice
    case amomax = twice
    case amominu = twice
    case amomaxu = twice

pub amo_d_value-result :
    (op : AmoOp) (src2 w : ℕ)
    → w < 2 ^ 64
    → src2 < 2 ^ 64
    → amo_d_value op src2 w % 2 ^ 64 ≡ result 64 op w (src2 % 2 ^ 64)
unfolding amo_d_value
amo_d_value-result op src2 w h k = value op ∙ ap (λ (t : ℕ). result 64 op w t) (sym low)
  where
    low : src2 % 2 ^ 64 ≡ src2
    low = omega arith

    kept : (b c : Bool) → b ≡ c → (if b then w else src2) % 2 ^ 64 ≡ (if c then w else src2)
    kept b c e = ap (λ (t : Bool). (if t then w else src2) % 2 ^ 64) e ∙ chosen c
      where
        chosen : (t : Bool) → (if t then w else src2) % 2 ^ 64 ≡ (if t then w else src2)
        chosen true = omega arith
        chosen false = omega arith

    value : (op : AmoOp) → amo_d_value op src2 w % 2 ^ 64 ≡ result 64 op w src2
    value amoswap = low
    value amoadd = omega arith
    value amoxor = refl
    value amoand = refl
    value amoor = refl
    value amomin = kept _ _ (ltℤ-signed64 w src2 h k)
    value amomax = kept _ _ (ltℤ-signed64 src2 w k h)
    value amominu = kept _ _ refl
    value amomaxu = kept _ _ refl
