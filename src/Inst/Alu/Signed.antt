-- ===== src/Inst/Alu/Signed.antt =====
-- The signed arithmetic of mayfly_emu/cpu/inst.c against arithmetic modulo 2^64.
use native.Mathlib.Nat.{mul-add, mul_comm}
use mayfly_emu.Prelude.{
  ℕ, suc, ◌+◌, ◌-◌, ◌*◌, ◌/◌, ◌%◌, ◌^◌, ◌<◌, ◌≤◌, ◌≡◌, ◌⊎◌, inl, inr, refl, ap, ◌∙◌, sym, arith,
}
use mayfly_emu.Prelude.{true}
use mayfly_emu.Word.{pos, negsuc, of_sign, ◌*ℤ◌, signed64, wrap64, sext, bits, bit_and-mask}
use mayfly_emu.Inst.Table.{sub, mul, addw, subw}
use mayfly_emu.Inst.Alu.{alu_value}

-- A product with a factor `2 ^ 64 - y`.
complement : (x y : ℕ) → y ≤ 2 ^ 64 → x * y + x * (2 ^ 64 - y) ≡ x * 2 ^ 64
complement x y h = sym (mul-add x y (2 ^ 64 - y)) ∙ ap (λ (t : ℕ). x * t) (omega arith)

minus : (p q a : ℕ) → q + p ≡ a * 2 ^ 64 → wrap64 (of_sign true p) ≡ q % 2 ^ 64
minus p q a h = ground arith

-- The signed value by the sign bit.
low_lem : (x : ℕ) → x < 2 ^ 63 → signed64 x ≡ pos x
low_lem x h = ground arith

high_lem : (x : ℕ) → ¬ (x < 2 ^ 63) → signed64 x ≡ negsuc (2 ^ 64 - x - 1)
high_lem x h = ground arith

sign-cases : (x : ℕ) → (x < 2 ^ 63) ⊎ ¬ (x < 2 ^ 63)
sign-cases x = omega arith

back : (x : ℕ) → x < 2 ^ 64 → suc (2 ^ 64 - x - 1) ≡ 2 ^ 64 - x
back x h = omega arith

mul-cases :
    (x y : ℕ)
    → x < 2 ^ 64
    → y < 2 ^ 64
    → (x < 2 ^ 63) ⊎ ¬ (x < 2 ^ 63)
    → (y < 2 ^ 63) ⊎ ¬ (y < 2 ^ 63)
    → wrap64 (signed64 x *ℤ signed64 y) ≡ x * y % 2 ^ 64
mul-cases x y hx hy (inl a) (inl b) = rw (low_lem x a, low_lem y b) refl
mul-cases x y hx hy (inl a) (inr b) =
    rw (low_lem x a, high_lem y b, back y hy)
      (minus (x * (2 ^ 64 - y)) (x * y) x (complement x y (omega arith)))
mul-cases x y hx hy (inr a) (inl b) =
    rw (high_lem x a, low_lem y b, back x hx) (minus ((2 ^ 64 - x) * y) (x * y) y (turned))
  where
    turned : x * y + (2 ^ 64 - x) * y ≡ y * 2 ^ 64
    turned = omega (arith, complement y x (omega arith), mul_comm x y, mul_comm (2 ^ 64 - x) y)
mul-cases x y hx hy (inr a) (inr b) =
    rw (high_lem x a, high_lem y b, back x hx, back y hy)
      (omega (
        arith,
        complement x y (omega arith),
        complement (2 ^ 64 - y) x (omega arith),
        mul_comm (2 ^ 64 - y) x,
        mul_comm (2 ^ 64 - y) (2 ^ 64 - x),
      ))

-- `SEXT` looks at the low bits only.
pub sext_low : (x y : ℕ) → x % 2 ^ 32 ≡ y % 2 ^ 32 → sext x 32 ≡ sext y 32
unfolding sext
sext_low x y h = rw h refl

low_word : (x : ℕ) → bits x 31 0 ≡ x % 2 ^ 32
unfolding bits
low_word x = bit_and-mask 32 (x / 1) ∙ omega arith

-- On 64-bit operands, `mul` and `sub` are multiplication and subtraction modulo 2^64, although
-- the one multiplies signed values and the other adds a complement; `addw` and `subw` are the sign
-- extensions of the sum and of the difference modulo 2^32.
pub alu_value-modular :
    (pc src1 src2 : ℕ)
    → src1 < 2 ^ 64
    → src2 < 2 ^ 64
    → (alu_value mul pc src1 src2 ≡ src1 * src2 % 2 ^ 64)
      × (alu_value sub pc src1 src2 ≡ (src1 + (2 ^ 64 - src2)) % 2 ^ 64)
      × (alu_value addw pc src1 src2 ≡ sext (src1 + src2) 32)
      × (alu_value subw pc src1 src2 ≡ sext (src1 + (2 ^ 64 - src2)) 32)
unfolding alu_value
alu_value-modular pc src1 src2 h k = (
  mul-cases src1 src2 h k (sign-cases src1) (sign-cases src2),
  omega arith,
  rw (low_word src1, low_word src2)
      (sext_low ((src1 % 2 ^ 32 + src2 % 2 ^ 32) % 2 ^ 64) (src1 + src2) (omega arith)),
  sext_low _ (src1 + (2 ^ 64 - src2)) (omega arith),
)
