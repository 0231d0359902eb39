-- ===== src/Word/Low.antt =====
-- The low digits of a result of `&`, `|` and `^` are those of the operands' low digits.
use Prim.Native.Nat.{differ}
use mayfly_emu.Prelude.{
  ℕ, zero, suc, ◌+◌, ◌*◌, ◌/◌, ◌%◌, ◌^◌, ◌<◌, ◌≡◌, min, max, ap, sym, ◌∙◌, arith,
}
use mayfly_emu.Prelude.{bit_and, bit_or, bit_xor}
use mayfly_emu.Word.Step.{bit_and_step, bit_or_step, bit_xor_step}
use mayfly_emu.Word.Bits.{mod-pow_suc}

-- An operation that works digit by digit.
module _ (op digit : ℕ → ℕ → ℕ)
    (step : (x y : ℕ) → op x y ≡ digit (x % 2) (y % 2) + 2 * op (x / 2) (y / 2))
    (is_digit : (x y : ℕ) → digit (x % 2) (y % 2) < 2) where
  op-half : (x y : ℕ) → op x y / 2 ≡ op (x / 2) (y / 2)
  op-half x y = omega (arith, step x y, is_digit x y)

  op-lowest : (x y : ℕ) → op x y % 2 ≡ digit (x % 2) (y % 2)
  op-lowest x y = omega (arith, step x y, is_digit x y)

  upper : (a x : ℕ) → (a * 2 + x % 2) / 2 ≡ a
  upper a x = omega arith

  lower : (a x : ℕ) → (a * 2 + x % 2) % 2 ≡ x % 2
  lower a x = omega arith

  half : (k x : ℕ) → x % 2 ^ suc k / 2 ≡ x / 2 % 2 ^ k
  half k x = ap (λ (t : ℕ). t / 2) (mod-pow_suc x k) ∙ upper (x / 2 % 2 ^ k) x

  lowest : (k x : ℕ) → x % 2 ^ suc k % 2 ≡ x % 2
  lowest k x = ap (λ (t : ℕ). t % 2) (mod-pow_suc x k) ∙ lower (x / 2 % 2 ^ k) x

  op-mod : (k x y : ℕ) → op x y % 2 ^ k ≡ op (x % 2 ^ k) (y % 2 ^ k) % 2 ^ k
  op-mod zero x y = omega arith
  op-mod (suc k) x y =
      let x' = x % 2 ^ suc k in
      let y' = y % 2 ^ suc k in
      let high : op x y / 2 % 2 ^ k ≡ op x' y' / 2 % 2 ^ k =
        ap (λ (t : ℕ). t % 2 ^ k) (op-half x y)
        ∙ op-mod k (x / 2) (y / 2)
        ∙ ap (λ (t : ℕ). op t (y / 2 % 2 ^ k) % 2 ^ k) (sym (half k x))
        ∙ ap (λ (t : ℕ). op (x' / 2) t % 2 ^ k) (sym (half k y))
        ∙ ap (λ (t : ℕ). t % 2 ^ k) (sym (op-half x' y')) in
      let low : op x y % 2 ≡ op x' y' % 2 =
        op-lowest x y
        ∙ ap (λ (t : ℕ). digit t (y % 2)) (sym (lowest k x))
        ∙ ap (λ (t : ℕ). digit (x' % 2) t) (sym (lowest k y))
        ∙ sym (op-lowest x' y') in
      mod-pow_suc (op x y) k
      ∙ ap (λ (t : ℕ). t * 2 + op x y % 2) high
      ∙ ap (λ (t : ℕ). op x' y' / 2 % 2 ^ k * 2 + t) low
      ∙ sym (mod-pow_suc (op x' y') k)

pub bit_and-mod : (k x y : ℕ) → bit_and x y % 2 ^ k ≡ bit_and (x % 2 ^ k) (y % 2 ^ k) % 2 ^ k
bit_and-mod = op-mod bit_and min bit_and_step (λ x y. omega arith)

pub bit_or-mod : (k x y : ℕ) → bit_or x y % 2 ^ k ≡ bit_or (x % 2 ^ k) (y % 2 ^ k) % 2 ^ k
bit_or-mod = op-mod bit_or max bit_or_step (λ x y. omega arith)

differ-digit : (x y : ℕ) → differ (x % 2) (y % 2) < 2
differ-digit x y = small (x % 2) (y % 2) (omega arith) (omega arith)
  where
    small : (a b : ℕ) → a < 2 → b < 2 → differ a b < 2
    small zero b h k = k
    small (suc zero) zero h k = omega arith
    small (suc zero) (suc zero) h k = omega arith
    small (suc zero) (suc (suc b)) h k = absurd (omega arith)
    small (suc (suc a)) b h k = absurd (omega arith)

pub bit_xor-mod : (k x y : ℕ) → bit_xor x y % 2 ^ k ≡ bit_xor (x % 2 ^ k) (y % 2 ^ k) % 2 ^ k
bit_xor-mod = op-mod bit_xor differ bit_xor_step differ-digit
