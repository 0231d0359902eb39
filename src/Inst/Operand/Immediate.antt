-- ===== src/Inst/Operand/Immediate.antt =====
-- The immediates of mayfly_emu/cpu/inst.c against the encodings of the manual: an instruction word
-- built from a value by the manual's fields gives the value back.
use mayfly_emu.Prelude.{ℕ, ◌+◌, ◌-◌, ◌*◌, ◌/◌, ◌%◌, ◌^◌, ◌≤◌, ◌<◌, ◌≡◌, ◌⊎◌, arith, bit_or, ap, ◌∙◌}
use mathlib.Core.Path.{ap₂}
use mayfly_emu.Word.{bits, sext, field, bit_and-mask, bit_or_insert, bit_or_low}
use mayfly_emu.Inst.Operand.{imm_i, imm_u, imm_s, imm_b, imm_j}

-- The words of the types I, S, B, U and J with the value `v`, and `low` for the bits that are no
-- part of the immediate.
unfoldable pub encode_i : ℕ → ℕ → ℕ
encode_i v low = field 0 12 v * 2 ^ 20 + low

-- `mid` is rs2, rs1 and funct3, `low` is the opcode.
unfoldable pub encode_s : ℕ → ℕ → ℕ → ℕ
encode_s v mid low = field 5 7 v * 2 ^ 25 + mid * 2 ^ 12 + field 0 5 v * 2 ^ 7 + low

unfoldable pub encode_b : ℕ → ℕ → ℕ → ℕ
encode_b v mid low =
    field 12 1 v * 2 ^ 31
    + field 5 6 v * 2 ^ 25
    + mid * 2 ^ 12
    + field 1 4 v * 2 ^ 8
    + field 11 1 v * 2 ^ 7
    + low

unfoldable pub encode_u : ℕ → ℕ → ℕ
encode_u v low = field 12 20 v * 2 ^ 12 + low

unfoldable pub encode_j : ℕ → ℕ → ℕ
encode_j v low =
    field 20 1 v * 2 ^ 31
    + field 1 10 v * 2 ^ 21
    + field 11 1 v * 2 ^ 20
    + field 12 8 v * 2 ^ 12
    + low

-- `v` is a 64-bit pattern that is the sign extension of its `n` low bits.
abbrev pub IsSigned : ℕ → ℕ → Type 0
IsSigned n v = (v < 2 ^ (n - 1)) ⊎ ((2 ^ 64 - 2 ^ (n - 1) ≤ v) × (v < 2 ^ 64))

-- `BITS` as arithmetic.
pub bits-field : (x hi lo : ℕ) → bits x hi lo ≡ x / 2 ^ lo % 2 ^ (hi - lo + 1)
unfolding bits
bits-field x hi lo = bit_and-mask (hi - lo + 1) (x / 2 ^ lo)

-- `immI` recovers a signed immediate of 12 bits from its encoding, whatever the other bits are.
pub imm_i-encode_i : (v low : ℕ) → low < 2 ^ 20 → IsSigned 12 v → imm_i (encode_i v low) ≡ v
unfolding imm_i encode_i
imm_i-encode_i v low h s = ground (arith, bits-field (field 0 12 v * 2 ^ 20 + low) 31 20)

-- `immU` recovers a signed immediate of 32 bits, its 12 low bits 0, from its encoding, whatever the
-- other bits are.
pub imm_u-encode_u :
    (v low : ℕ) → low < 2 ^ 12 → v % 2 ^ 12 ≡ 0 → IsSigned 32 v → imm_u (encode_u v low) ≡ v
unfolding imm_u encode_u
imm_u-encode_u v low h z s = ground (arith, bits-field (field 12 20 v * 2 ^ 12 + low) 31 12)

-- `immS` recovers a signed immediate of 12 bits from its encoding, whatever the other bits are.
pub imm_s-encode_s :
    (v mid low : ℕ) → mid < 2 ^ 13 → low < 2 ^ 7 → IsSigned 12 v → imm_s (encode_s v mid low) ≡ v
unfolding imm_s
imm_s-encode_s v mid low hm hl s =
    let w = encode_s v mid low in
    let hi : bits w 31 25 ≡ field 5 7 v = bits-field w 31 25 ∙ (unfold encode_s in omega arith) in
    let lo : bits w 11 7 ≡ field 0 5 v = bits-field w 11 7 ∙ (unfold encode_s in omega arith) in
    let top : ℕ = sext (field 5 7 v) 7 * 2 ^ 5 % 2 ^ 64 in
    ap₂ (λ (a b : ℕ). bit_or (sext a 7 * 2 ^ 5 % 2 ^ 64) b) hi lo
    ∙ bit_or_low 5 top (field 0 5 v) (omega arith) (omega arith)
    ∙ (unfold sext in ground arith)

-- The digits of a `type_b` word in the order in which they are shifted, and their sum.
raw_b :
    (a b c d : ℕ)
    → a < 2
    → b < 64
    → c < 16
    → d < 2
    → bit_or (bit_or (bit_or (a * 2 ^ 11) (b * 2 ^ 4)) c) (d * 2 ^ 10)
      ≡ a * 2 ^ 11 + d * 2 ^ 10 + b * 2 ^ 4 + c
raw_b a b c d ha hb hc hd =
    let one : bit_or (a * 2 ^ 11) (b * 2 ^ 4) ≡ a * 2 ^ 11 + b * 2 ^ 4 =
      bit_or_insert 4 6 (a * 2 ^ 11) b hb (omega arith) in
    let two : bit_or (a * 2 ^ 11 + b * 2 ^ 4) c ≡ a * 2 ^ 11 + b * 2 ^ 4 + c =
      bit_or_low 4 (a * 2 ^ 11 + b * 2 ^ 4) c hc (omega arith) in
    let three = bit_or_insert 10 1 (a * 2 ^ 11 + b * 2 ^ 4 + c) d hd (omega arith) in
    ap (λ (t : ℕ). bit_or (bit_or t c) (d * 2 ^ 10)) one
    ∙ ap (λ (t : ℕ). bit_or t (d * 2 ^ 10)) two
    ∙ three
    ∙ omega arith

raw_j :
    (a b c d : ℕ)
    → a < 2
    → b < 1024
    → c < 2
    → d < 256
    → bit_or (bit_or (bit_or (a * 2 ^ 19) b) (c * 2 ^ 10)) (d * 2 ^ 11)
      ≡ a * 2 ^ 19 + d * 2 ^ 11 + c * 2 ^ 10 + b
raw_j a b c d ha hb hc hd =
    let one : bit_or (a * 2 ^ 19) b ≡ a * 2 ^ 19 + b =
      bit_or_low 10 (a * 2 ^ 19) b hb (omega arith) in
    let two = bit_or_insert 10 1 (a * 2 ^ 19 + b) c hc (omega arith) in
    let three = bit_or_insert 11 8 (a * 2 ^ 19 + b + c * 2 ^ 10) d hd (omega arith) in
    ap (λ (t : ℕ). bit_or (bit_or t (c * 2 ^ 10)) (d * 2 ^ 11)) one
    ∙ ap (λ (t : ℕ). bit_or t (d * 2 ^ 11)) two
    ∙ three
    ∙ omega arith

-- `immB` recovers an even signed immediate of 13 bits from its encoding, whatever the other bits
-- are.
pub imm_b-encode_b :
    (v mid low : ℕ)
    → mid < 2 ^ 13
    → low < 2 ^ 7
    → v % 2 ≡ 0
    → IsSigned 13 v
    → imm_b (encode_b v mid low) ≡ v
unfolding imm_b
imm_b-encode_b v mid low hm hl z s =
    let w = encode_b v mid low in
    let e31 : bits w 31 31 ≡ field 12 1 v = bits-field w 31 31 ∙ (unfold encode_b in omega arith) in
    let e30 : bits w 30 25 ≡ field 5 6 v = bits-field w 30 25 ∙ (unfold encode_b in omega arith) in
    let e11 : bits w 11 8 ≡ field 1 4 v = bits-field w 11 8 ∙ (unfold encode_b in omega arith) in
    let e7 : bits w 7 7 ≡ field 11 1 v = bits-field w 7 7 ∙ (unfold encode_b in omega arith) in
    let raw =
      raw_b (field 12 1 v) (field 5 6 v) (field 1 4 v) (field 11 1 v) (omega arith) (omega arith)
        (omega arith) (omega arith) in
    rw (e31, e30, e11, e7) (rw raw (unfold sext in ground arith))

-- `immJ` recovers an even signed immediate of 21 bits from its encoding, whatever the other bits
-- are.
pub imm_j-encode_j :
    (v low : ℕ) → low < 2 ^ 12 → v % 2 ≡ 0 → IsSigned 21 v → imm_j (encode_j v low) ≡ v
unfolding imm_j
imm_j-encode_j v low hl z s =
    let w = encode_j v low in
    let e31 : bits w 31 31 ≡ field 20 1 v = bits-field w 31 31 ∙ (unfold encode_j in omega arith) in
    let e30 : bits w 30 21 ≡ field 1 10 v = bits-field w 30 21 ∙ (unfold encode_j in omega arith) in
    let e20 : bits w 20 20 ≡ field 11 1 v = bits-field w 20 20 ∙ (unfold encode_j in omega arith) in
    let e19 : bits w 19 12 ≡ field 12 8 v = bits-field w 19 12 ∙ (unfold encode_j in omega arith) in
    let raw =
      raw_j (field 20 1 v) (field 1 10 v) (field 11 1 v) (field 12 8 v) (omega arith) (omega arith)
        (omega arith) (omega arith) in
    rw (e31, e30, e20, e19) (rw raw (unfold sext in ground arith))
