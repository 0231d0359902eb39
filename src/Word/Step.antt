-- ===== src/Word/Step.antt =====
-- One equation for the lowest binary digit of each bit operation. The kernel computes them by
-- `digits`, whose first argument is fuel; that the value does not depend on it comes first.
use Prim.Native.Nat.{bitwise, digits, differ, bit_or-bitwise, bit_and-bitwise, bit_xor-bitwise}
use mayfly_emu.Prelude.{
  ℕ, zero, suc, ◌+◌, ◌-◌, ◌*◌, ◌/◌, ◌%◌, ◌≤◌, min, max, bit_and, bit_or, bit_xor,
}
use mayfly_emu.Prelude.{◌≡◌, refl, ap, ◌∙◌, arith}

module _ (rest : ℕ → ℕ) (digit : ℕ → ℕ → ℕ) where
  -- One more unit of fuel than suffices.
  digits-more :
      (fuel x y : ℕ) → x ≤ fuel → digits rest digit (suc fuel) x y ≡ digits rest digit fuel x y
  digits-more zero zero y h = refl
  digits-more zero (suc x) y h = absurd (omega arith)
  digits-more (suc fuel) zero y h = refl
  digits-more (suc fuel) (suc x) y h =
      ap (λ (t : ℕ). t * 2 + digit (suc x % 2) (y % 2))
        (digits-more fuel (suc x / 2) (y / 2) (omega arith))

  -- Any number of units more.
  digits-extra : (k x y : ℕ) → digits rest digit (k + x) x y ≡ digits rest digit x x y
  digits-extra zero x y = ap (λ (t : ℕ). digits rest digit t x y) (omega arith)
  digits-extra (suc k) x y =
      let next : suc k + x ≡ suc (k + x) = omega arith in
      ap (λ (t : ℕ). digits rest digit t x y) next
      ∙ digits-more (k + x) x y (omega arith)
      ∙ digits-extra k x y

  bitwise-lowest :
      (x y : ℕ)
      → bitwise rest digit (suc x) y
        ≡ bitwise rest digit (suc x / 2) (y / 2) * 2 + digit (suc x % 2) (y % 2)
  bitwise-lowest x y =
      let half = suc x / 2 in
      ap (λ (t : ℕ). t * 2 + digit (suc x % 2) (y % 2))
        (ap (λ (t : ℕ). digits rest digit t half (y / 2)) (omega arith)
          ∙ digits-extra (x - half) half (y / 2))

pub zero-bit_or : (x : ℕ) → bit_or 0 x ≡ x
zero-bit_or = bit_or-bitwise 0

pub zero-bit_and : (x : ℕ) → bit_and 0 x ≡ 0
zero-bit_and = bit_and-bitwise 0

-- The lowest digit of a result, and the result of the others.
pub bit_or_step : (x y : ℕ) → bit_or x y ≡ max (x % 2) (y % 2) + 2 * bit_or (x / 2) (y / 2)
bit_or_step zero y = let half = zero-bit_or (y / 2) in omega (arith, half, zero-bit_or y)
bit_or_step (suc x) y =
    let low = bitwise-lowest (λ v. v) max x y in
    let half = bit_or-bitwise (suc x / 2) (y / 2) in
    omega (arith, bit_or-bitwise (suc x) y, low, half)

pub bit_and_step : (x y : ℕ) → bit_and x y ≡ min (x % 2) (y % 2) + 2 * bit_and (x / 2) (y / 2)
bit_and_step zero y = let half = zero-bit_and (y / 2) in omega (arith, half, zero-bit_and y)
bit_and_step (suc x) y =
    let low = bitwise-lowest (λ v. 0) min x y in
    let half = bit_and-bitwise (suc x / 2) (y / 2) in
    omega (arith, bit_and-bitwise (suc x) y, low, half)

zero-bit_xor : (x : ℕ) → bit_xor 0 x ≡ x
zero-bit_xor = bit_xor-bitwise 0

pub bit_xor_step : (x y : ℕ) → bit_xor x y ≡ differ (x % 2) (y % 2) + 2 * bit_xor (x / 2) (y / 2)
bit_xor_step zero y = omega (arith, zero-bit_xor y, zero-bit_xor (y / 2))
bit_xor_step (suc x) y =
    let low = bitwise-lowest (λ v. v) differ x y in
    let half = bit_xor-bitwise (suc x / 2) (y / 2) in
    omega (arith, bit_xor-bitwise (suc x) y, low, half)
