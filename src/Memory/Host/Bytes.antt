-- ===== src/Memory/Host/Bytes.antt =====
-- Loads and stores of the host's arrays: a word reads back as stored, and no other byte changes.
use native.Mathlib.Nat.{pow-suc, div-div-eq-div-mul, mod-add-div}
use mayfly_emu.Prelude.{ℕ, zero, suc, ◌+◌, ◌*◌, ◌/◌, ◌%◌, ◌^◌, ◌≤◌, ◌<◌, ◌≡◌, ◌⊎◌, refl}
use mayfly_emu.Prelude.{arith, update, ap, sym, ◌∙◌}
use mayfly_emu.Memory.Host.{load_bytes, store_bytes}

-- A load sees the bytes from `a` on only.
pub load_bytes_ext :
    (n : ℕ) (f g : ℕ → ℕ) (a : ℕ)
    → ((j : ℕ) → a ≤ j → j < a + n → f j ≡ g j)
    → load_bytes n f a ≡ load_bytes n g a
unfolding load_bytes
load_bytes_ext zero f g a same = refl
load_bytes_ext (suc n) f g a same = omega (
  arith,
  same a (omega arith) (omega arith),
  load_bytes_ext n f g (a + 1) (λ j p q. same j (omega arith) (omega arith)),
)

-- A store of `n` bytes at `a` leaves every byte outside of [a, a + n) alone.
pub store_bytes-outside :
    (n v : ℕ) (f : ℕ → ℕ) (a j : ℕ) → (j < a) ⊎ (a + n ≤ j) → store_bytes n v f a j ≡ f j
unfolding store_bytes
store_bytes-outside zero v f a j out = refl
store_bytes-outside (suc n) v f a j out =
    ground (arith, store_bytes-outside n (v / 256) f (a + 1) j)

-- The lowest byte of a word of one more byte.
mod-pow_suc : (n v : ℕ) → v % 256 ^ suc n ≡ v % 256 + 256 * (v / 256 % 256 ^ n)
mod-pow_suc n v =
    let p : 256 ^ suc n ≡ 256 * 256 ^ n = omega (arith, pow-suc 256 n) in
    let d : v / 256 ^ suc n ≡ v / 256 / 256 ^ n =
      ap (λ (t : ℕ). v / t) p ∙ sym (div-div-eq-div-mul v 256 (256 ^ n)) in
    omega (
      arith,
      mod-add-div v (256 ^ suc n),
      mod-add-div (v / 256) (256 ^ n),
      ap (λ (t : ℕ). t * (v / 256 ^ suc n)) p,
      ap (λ (t : ℕ). 256 ^ n * t) d,
    )

-- A word reads back as it was stored, cut to its bytes.
pub load_bytes-store_bytes :
    (n v : ℕ) (f : ℕ → ℕ) (a : ℕ) → load_bytes n (store_bytes n v f a) a ≡ v % 256 ^ n
unfolding load_bytes store_bytes
load_bytes-store_bytes zero v f a = omega arith
load_bytes-store_bytes (suc n) v f a =
    let g = store_bytes n (v / 256) f (a + 1) in
    let low : update g a (v % 256) a ≡ v % 256 = ground arith in
    let high : load_bytes n (update g a (v % 256)) (a + 1) ≡ load_bytes n g (a + 1) =
      load_bytes_ext n (update g a (v % 256)) g (a + 1) (λ j p q. ground arith) in
    omega (arith, low, high, load_bytes-store_bytes n (v / 256) f (a + 1), mod-pow_suc n v)

-- Loads that do not meet the stored bytes see what stood there before.
pub load_bytes-store_bytes_apart :
    (n m v : ℕ) (f : ℕ → ℕ) (a b : ℕ)
    → (b + m ≤ a) ⊎ (a + n ≤ b)
    → load_bytes m (store_bytes n v f a) b ≡ load_bytes m f b
load_bytes-store_bytes_apart n m v f a b apart =
    load_bytes_ext m (store_bytes n v f a) f b λ j p q. store_bytes-outside n v f a j (ground arith)

-- A load of bytes is a word of their number.
pub load_bytes-lt : (n : ℕ) (f : ℕ → ℕ) (a : ℕ) → ((j : ℕ) → f j < 256) → load_bytes n f a < 256 ^ n
unfolding load_bytes
load_bytes-lt zero f a h = omega arith
load_bytes-lt (suc n) f a h =
    let p : 256 ^ suc n ≡ 256 * 256 ^ n = omega (arith, pow-suc 256 n) in
    omega (arith, p, h a, load_bytes-lt n f (a + 1) h)

-- A store looks at the low bytes of the value only.
pub store_bytes_low :
    (n u v : ℕ) (f : ℕ → ℕ) (a : ℕ)
    → u % 256 ^ n ≡ v % 256 ^ n
    → store_bytes n u f a ≡ store_bytes n v f a
unfolding store_bytes
store_bytes_low zero u v f a h = refl
store_bytes_low (suc n) u v f a h =
    let both = sym (mod-pow_suc n u) ∙ h ∙ mod-pow_suc n v in
    let first : u % 256 ≡ v % 256 = omega (arith, both) in
    let rest : u / 256 % 256 ^ n ≡ v / 256 % 256 ^ n = omega (arith, both) in
    ap (λ (g : ℕ → ℕ). update g a (u % 256)) (store_bytes_low n (u / 256) (v / 256) f (a + 1) rest)
    ∙ ap (λ (t : ℕ). update (store_bytes n (v / 256) f (a + 1)) a t) first
