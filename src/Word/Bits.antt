-- ===== src/Word/Bits.antt =====
-- Laws of `&` and `|` at every width, each by recursion on the number of binary digits.
use native.Mathlib.Nat.{pow-suc, one-le-pow, div-div-eq-div-mul, mod-add-div}
use mayfly_emu.Prelude.{ℕ, zero, suc, ◌+◌, ◌-◌, ◌*◌, ◌/◌, ◌%◌, ◌^◌, ◌≤◌, ◌<◌, bit_and, bit_or}
use mathlib.Core.WellFounded.{Acc}
use mayfly_emu.Prelude.{lt_wf, ◌≡◌, refl, sym, ap, ◌∙◌, arith}
use mayfly_emu.Word.Step.{bit_and_step, bit_or_step, zero-bit_and, zero-bit_or}

-- Digits above the lowest: how `/` and `%` by a power of two go down one digit.
pub two-mul-pow : (k : ℕ) → 2 ^ suc k ≡ 2 * 2 ^ k
two-mul-pow k = omega (arith, pow-suc 2 k)

pub div-pow_suc : (a k : ℕ) → a / 2 ^ suc k ≡ a / 2 / 2 ^ k
div-pow_suc a k = ap (λ (t : ℕ). a / t) (two-mul-pow k) ∙ sym (div-div-eq-div-mul a 2 (2 ^ k))

pub mod-pow_suc : (a k : ℕ) → a % 2 ^ suc k ≡ a / 2 % 2 ^ k * 2 + a % 2
mod-pow_suc a k = omega (
  arith,
  div-pow_suc a k,
  mod-add-div a (2 ^ suc k),
  mod-add-div (a / 2) (2 ^ k),
  ap (λ (t : ℕ). t * (a / 2 ^ suc k)) (two-mul-pow k),
  ap (λ (t : ℕ). 2 ^ k * t) (div-pow_suc a k),
)

-- An operand that has no digits, by strong induction on the other.
zero_laws : (x : ℕ) → Acc ◌<◌ x → (bit_and x 0 ≡ 0) × (bit_or x 0 ≡ x)
zero_laws zero w = (refl, refl)
zero_laws (suc x) (Acc.intro _ below) =
    let ih = zero_laws (suc x / 2) (below (suc x / 2) (omega arith)) in
    (omega (arith, bit_and_step (suc x) 0, ih.0), omega (arith, bit_or_step (suc x) 0, ih.1))

pub bit_and-zero : (x : ℕ) → bit_and x 0 ≡ 0
bit_and-zero x = (zero_laws x (lt_wf.apply x)).0

pub bit_or-zero : (x : ℕ) → bit_or x 0 ≡ x
bit_or-zero x = (zero_laws x (lt_wf.apply x)).1

-- A mask of the `k` low bits is the remainder by 2 ^ k.
pub bit_and-mask : (k a : ℕ) → bit_and a (2 ^ k - 1) ≡ a % 2 ^ k
bit_and-mask zero a = omega (arith, bit_and-zero a)
bit_and-mask (suc k) a =
    let half : (2 ^ suc k - 1) / 2 ≡ 2 ^ k - 1 = omega (arith, two-mul-pow k, one-le-pow k 2) in
    omega (
      arith,
      bit_and_step a (2 ^ suc k - 1),
      ap (λ (t : ℕ). bit_and (a / 2) t) half,
      two-mul-pow k,
      one-le-pow k 2,
      mod-pow_suc a k,
      bit_and-mask k (a / 2),
    )

-- A single bit: `x & (1 << k)`.
pub bit_and-pow : (k a : ℕ) → bit_and a (2 ^ k) ≡ a / 2 ^ k % 2 * 2 ^ k
bit_and-pow zero a = omega (arith, bit_and-mask 1 a)
bit_and-pow (suc k) a =
    let half : 2 ^ suc k / 2 ≡ 2 ^ k = omega (arith, two-mul-pow k) in
    omega (
      arith,
      bit_and_step a (2 ^ suc k),
      ap (λ (t : ℕ). bit_and (a / 2) t) half,
      two-mul-pow k,
      ap (λ (t : ℕ). t % 2 * 2 ^ suc k) (div-pow_suc a k),
      ap (λ (t : ℕ). a / 2 / 2 ^ k % 2 * t) (two-mul-pow k),
      bit_and-pow k (a / 2),
    )

pub bit_and-le : (k a b : ℕ) → b < 2 ^ k → bit_and a b ≤ b
bit_and-le zero a b h = ground (arith, bit_and-zero a)
bit_and-le (suc k) a b h = omega (
  arith,
  bit_and_step a b,
  two-mul-pow k,
  bit_and-le k (a / 2) (b / 2) (omega (arith, two-mul-pow k)),
)

pub bit_or-lt : (k a b : ℕ) → a < 2 ^ k → b < 2 ^ k → bit_or a b < 2 ^ k
bit_or-lt zero a b ha hb = ground (arith, bit_or-zero a)
bit_or-lt (suc k) a b ha hb = omega (
  arith,
  bit_or_step a b,
  two-mul-pow k,
  bit_or-lt k (a / 2) (b / 2) (omega (arith, two-mul-pow k)) (omega (arith, two-mul-pow k)),
)

-- A mask of bits above `s` may be shifted down with the word.
pub bit_and-shift : (s x m : ℕ) → bit_and x (m * 2 ^ s) ≡ bit_and (x / 2 ^ s) m * 2 ^ s
bit_and-shift zero x m =
    let a : m * 1 ≡ m = omega arith in
    let b : x / 1 ≡ x = omega arith in
    omega (arith, ap (λ (t : ℕ). bit_and x t) a, ap (λ (t : ℕ). bit_and t m) b)
bit_and-shift (suc s) x m =
    let p : m * 2 ^ suc s ≡ 2 * (m * 2 ^ s) =
      omega (arith, ap (λ (t : ℕ). m * t) (two-mul-pow s)) in
    let half : m * 2 ^ suc s / 2 ≡ m * 2 ^ s = omega (arith, p) in
    let low : m * 2 ^ suc s % 2 ≡ 0 = omega (arith, p) in
    omega (
      arith,
      bit_and_step x (m * 2 ^ suc s),
      low,
      ap (λ (t : ℕ). bit_and (x / 2) t) half,
      bit_and-shift s (x / 2) m,
      ap (λ (t : ℕ). bit_and t m * 2 ^ suc s) (div-pow_suc x s),
      ap (λ (t : ℕ). bit_and (x / 2 / 2 ^ s) m * t) (two-mul-pow s),
    )

-- `|` and `&` of the same words add up to their sum.
pub bit_or-add_bit_and : (k a b : ℕ) → a ≤ k → bit_or a b + bit_and a b ≡ a + b
bit_or-add_bit_and k zero b h = omega (arith, zero-bit_or b, zero-bit_and b)
bit_or-add_bit_and zero (suc a) b h = absurd (omega arith)
bit_or-add_bit_and (suc k) (suc a) b h = omega (
  arith,
  bit_or_step (suc a) b,
  bit_and_step (suc a) b,
  bit_or-add_bit_and k (suc a / 2) (b / 2) (omega arith),
)

-- Bits below `w` do not meet a multiple of 2 ^ w.
pub bit_and-multiple : (w q s : ℕ) → s < 2 ^ w → bit_and (q * 2 ^ w) s ≡ 0
bit_and-multiple zero q s h =
    let z : s ≡ 0 = omega arith in
    ap (λ (t : ℕ). bit_and (q * 2 ^ 0) t) z ∙ bit_and-zero (q * 2 ^ 0)
bit_and-multiple (suc w) q s h =
    let p : q * 2 ^ suc w ≡ 2 * (q * 2 ^ w) =
      omega (arith, ap (λ (t : ℕ). q * t) (two-mul-pow w)) in
    let half : q * 2 ^ suc w / 2 ≡ q * 2 ^ w = omega (arith, p) in
    omega (
      arith,
      p,
      bit_and_step (q * 2 ^ suc w) s,
      ap (λ (t : ℕ). bit_and t (s / 2)) half,
      bit_and-multiple w q (s / 2) (omega (arith, two-mul-pow w)),
    )

-- `a | s` is a sum where `a` is a multiple of 2 ^ w and `s` is below it.
pub bit_or_low : (w a s : ℕ) → s < 2 ^ w → a ≡ a / 2 ^ w * 2 ^ w → bit_or a s ≡ a + s
bit_or_low w a s small gap = omega (
  arith,
  bit_or-add_bit_and a a s (omega arith),
  ap (λ (t : ℕ). bit_and t s) gap,
  bit_and-multiple w (a / 2 ^ w) s small,
)

-- `a | (s << k)` is a sum where `a` has no bit among the `w` from `k` on and `s` fits in them.
pub bit_or_insert :
    (k w a s : ℕ)
    → s < 2 ^ w
    → a / 2 ^ k ≡ a / 2 ^ k / 2 ^ w * 2 ^ w
    → bit_or a (s * 2 ^ k) ≡ a + s * 2 ^ k
bit_or_insert k w a s small gap = omega (
  arith,
  bit_or-add_bit_and a a (s * 2 ^ k) (omega arith),
  bit_and-shift k a s,
  ap (λ (t : ℕ). bit_and t s * 2 ^ k) gap,
  ap (λ (t : ℕ). t * 2 ^ k) (bit_and-multiple w (a / 2 ^ k / 2 ^ w) s small),
)
