-- ===== src/Word/Masked.antt =====
-- Masked writes, `(old & ~mask) | (new & mask)`, as the registers of mayfly_emu/cpu/reg.h use them.
use mayfly_emu.Prelude.{ℕ, zero, suc, ◌+◌, ◌-◌, ◌*◌, ◌/◌, ◌%◌, ◌^◌, ◌<◌, min, max, bit_and, bit_or}
use mayfly_emu.Prelude.{◌≡◌, ap, arith}
use mayfly_emu.Word.Step.{bit_and_step, bit_or_step}
use mayfly_emu.Word.Bits.{two-mul-pow, bit_and-zero, bit_or-lt, bit_and-le}

-- A masked write of `k` bits, `(old & ~mask) | (new & mask)`.
unfoldable pub masked : ℕ → ℕ → ℕ → ℕ → ℕ
masked k old new mask = bit_or (bit_and old (2 ^ k - 1 - mask)) (bit_and new mask)

-- One digit of it.
masked-suc :
    (k old new mask : ℕ)
    → mask < 2 ^ suc k
    → masked (suc k) old new mask
      ≡ masked k (old / 2) (new / 2) (mask / 2) * 2
        + max (min (old % 2) (1 - mask % 2)) (min (new % 2) (mask % 2))
unfolding masked
masked-suc k old new mask h =
    let rest : (2 ^ suc k - 1 - mask) / 2 ≡ 2 ^ k - 1 - mask / 2 = omega (arith, two-mul-pow k) in
    let last : (2 ^ suc k - 1 - mask) % 2 ≡ 1 - mask % 2 = omega (arith, two-mul-pow k) in
    let o = bit_and old (2 ^ suc k - 1 - mask) in
    let n = bit_and new mask in
    let o2 : o / 2 ≡ bit_and (old / 2) (2 ^ k - 1 - mask / 2) =
      omega (
        arith,
        bit_and_step old (2 ^ suc k - 1 - mask),
        ap (λ (t : ℕ). bit_and (old / 2) t) rest,
      ) in
    let n2 : n / 2 ≡ bit_and (new / 2) (mask / 2) = omega (arith, bit_and_step new mask) in
    omega (
      arith,
      bit_or_step o n,
      ap (λ (t : ℕ). bit_or t (n / 2)) o2,
      ap (λ (t : ℕ). bit_or (bit_and (old / 2) (2 ^ k - 1 - mask / 2)) t) n2,
      bit_and_step old (2 ^ suc k - 1 - mask),
      bit_and_step new mask,
      last,
    )

-- Under the mask the result reads as `new`.
pub bit_and-masked :
    (k old new mask : ℕ) → mask < 2 ^ k → bit_and (masked k old new mask) mask ≡ bit_and new mask
bit_and-masked zero old new zero h =
    omega (arith, bit_and-zero new, bit_and-zero (masked 0 old new 0))
bit_and-masked zero old new (suc mask) h = absurd (omega arith)
bit_and-masked (suc k) old new mask h =
    let m = masked (suc k) old new mask in
    let half : m / 2 ≡ masked k (old / 2) (new / 2) (mask / 2) =
      omega (arith, masked-suc k old new mask h) in
    omega (
      arith,
      masked-suc k old new mask h,
      bit_and_step m mask,
      bit_and_step new mask,
      ap (λ (t : ℕ). bit_and t (mask / 2)) half,
      bit_and-masked k (old / 2) (new / 2) (mask / 2) (omega (arith, two-mul-pow k)),
    )

-- Outside the mask it reads as `old`.
pub bit_and-masked_rest :
    (k old new mask : ℕ)
    → mask < 2 ^ k
    → bit_and (masked k old new mask) (2 ^ k - 1 - mask) ≡ bit_and old (2 ^ k - 1 - mask)
bit_and-masked_rest zero old new zero h =
    omega (arith, bit_and-zero (masked 0 old new 0), bit_and-zero old)
bit_and-masked_rest zero old new (suc mask) h = absurd (omega arith)
bit_and-masked_rest (suc k) old new mask h =
    let m = masked (suc k) old new mask in
    let rest : (2 ^ suc k - 1 - mask) / 2 ≡ 2 ^ k - 1 - mask / 2 = omega (arith, two-mul-pow k) in
    let last : (2 ^ suc k - 1 - mask) % 2 ≡ 1 - mask % 2 = omega (arith, two-mul-pow k) in
    let half : m / 2 ≡ masked k (old / 2) (new / 2) (mask / 2) =
      omega (arith, masked-suc k old new mask h) in
    omega (
      arith,
      masked-suc k old new mask h,
      last,
      bit_and_step m (2 ^ suc k - 1 - mask),
      bit_and_step old (2 ^ suc k - 1 - mask),
      ap (λ (t : ℕ). bit_and t ((2 ^ suc k - 1 - mask) / 2)) half,
      ap (λ (t : ℕ). bit_and (masked k (old / 2) (new / 2) (mask / 2)) t) rest,
      ap (λ (t : ℕ). bit_and (old / 2) t) rest,
      bit_and-masked_rest k (old / 2) (new / 2) (mask / 2) (omega (arith, two-mul-pow k)),
    )

pub masked-lt :
    (k old new mask : ℕ) → old < 2 ^ k → new < 2 ^ k → mask < 2 ^ k → masked k old new mask < 2 ^ k
unfolding masked
masked-lt k old new mask ho hn hm =
    bit_or-lt k (bit_and old (2 ^ k - 1 - mask)) (bit_and new mask)
      (omega (arith, bit_and-le k old (2 ^ k - 1 - mask))) (omega (arith, bit_and-le k new mask hm))
