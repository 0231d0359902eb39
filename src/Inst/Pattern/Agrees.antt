-- ===== src/Inst/Pattern/Agrees.antt =====
-- `pattern_decode` of mayfly_emu/cpu/decode.h against the reading of a pattern bit by bit.
use native.Mathlib.Nat.{one-le-pow, pow-le-pow_right}
use native.Mathlib.Numerals.{add-one}
use mathlib.Core.Path.{ap₂, subst}
use mayfly_emu.Prelude.{ℕ, zero, suc, ◌+◌, ◌*◌, ◌/◌, ◌%◌, ◌^◌, ◌≤◌, ◌<◌, ◌≡◌, refl, arith}
use mayfly_emu.Prelude.{bit_and, bit_or, Bool, true, false, ◌&&◌, ◌||◌, ◌==◌, if◌then◌else◌}
use mayfly_emu.Prelude.{List, [], ◌∷◌, length, ap, sym, ◌∙◌, Bool-cases, inl, inr, ==_iff, min}
use mayfly_emu.Word.{u32, ◌<<<◌, bit_and_step, bit_or_step, bit_and-zero, bit_or-zero}
use mayfly_emu.Word.{div-pow_suc, two-mul-pow, bit_and-shift}
use mayfly_emu.Run.{Run, done}
use mayfly_emu.Inst.Pattern.{
  Pattern, is_digit, add_char, decode_loop, finish, no_bits, pattern_decode, matches,
}

-- The digit that a character asks of a bit.
abbrev pub digit : ℕ → ℕ
digit c = if c == b'1' then 1 else 0

-- The characters of a pattern but its spaces, last first, on top of `acc`.
abbrev pub bits_of : List ℕ → List ℕ → List ℕ
bits_of [] acc = acc
bits_of (c ∷ str) acc = bits_of str (if c == b' ' then acc else c ∷ acc)

-- The word agrees with the characters, the lowest bit with the first: `?` allows either digit.
unfoldable pub agrees : List ℕ → ℕ → Bool
agrees [] x = true
agrees (c ∷ cs) x = (c == b'?' || (x % 2 == digit c)) && agrees cs (x / 2)

-- A pattern of at most 32 bits whose characters are legal and fit the macros.
abbrev pub is_legal : ℕ → ℕ → List ℕ → Bool
is_legal zero b str = false
is_legal (suc n) b [] = true
is_legal (suc n) b (c ∷ str) =
    if c == b' '
    then is_legal n b str
    else is_digit c && elim b [ zero ↦ false | suc b' ↦ is_legal n b' str ]

-- What the loop holds behind the characters `cs`, last first: the test by `key` and `mask` is the
-- agreement, and the last `shift` characters are all `?`.
record IsRead (cs : List ℕ) (p : Pattern) : Type 0 where
  tests : (x : ℕ) → (bit_and x p.mask == p.key) ≡ agrees cs x
  mask_lt : p.mask < 2 ^ length cs
  key_lt : p.key < 2 ^ length cs
  mask_low : p.mask ≡ p.mask / 2 ^ p.shift * 2 ^ p.shift
  key_low : p.key ≡ p.key / 2 ^ p.shift * 2 ^ p.shift

bit_or_double : (m d : ℕ) → d < 2 → bit_or (2 * m) d ≡ 2 * m + d
bit_or_double m d h =
    let half : 2 * m / 2 ≡ m = omega arith in
    let low : d / 2 ≡ 0 = omega arith in
    omega (
      arith,
      bit_or_step (2 * m) d,
      ap (λ (t : ℕ). bit_or t (d / 2)) half,
      ap (λ (t : ℕ). bit_or m t) low,
      bit_or-zero m,
    )

-- Adding a `?` and adding a digit, as arithmetic.
add_char-fields :
    (c : ℕ) (p : Pattern)
    → p.mask < 2 ^ 31
    → p.key < 2 ^ 31
    → ((add_char c p).mask ≡ 2 * p.mask + (if c == b'?' then 0 else 1))
      × ((add_char c p).key ≡ 2 * p.key + digit c)
unfolding add_char
add_char-fields c p hm hk =
    let m2 : u32 (p.mask <<< 1) ≡ 2 * p.mask = omega arith in
    let k2 : u32 (p.key <<< 1) ≡ 2 * p.key = omega arith in
    (
      ap (λ (t : ℕ). bit_or t (if c == b'?' then 0 else 1)) m2
          ∙ bit_or_double p.mask (if c == b'?' then 0 else 1) (ground arith),
      ap (λ (t : ℕ). bit_or t (digit c)) k2 ∙ bit_or_double p.key (digit c) (ground arith),
    )

-- The test of one more character.
and_double : (x m d : ℕ) → d < 2 → bit_and x (2 * m + d) ≡ 2 * bit_and (x / 2) m + min (x % 2) d
and_double x m d h =
    let half : (2 * m + d) / 2 ≡ m = omega arith in
    let low : (2 * m + d) % 2 ≡ d = omega arith in
    omega (arith, bit_and_step x (2 * m + d), ap (λ (t : ℕ). bit_and (x / 2) t) half, low)

test_double :
    (x m k c : ℕ)
    → is_digit c ≡ true
    → (bit_and x (2 * m + (if c == b'?' then 0 else 1)) == 2 * k + digit c)
      ≡ ((c == b'?' || (x % 2 == digit c)) && (bit_and (x / 2) m == k))
test_double x m k c legal = ground (arith, and_double x m 0, and_double x m 1)

pow_le : {n : ℕ} → n ≤ 31 → 2 ^ n ≤ 2 ^ 31
pow_le h = pow-le-pow_right (omega arith) h

-- Behind a `?` the run of them is one longer, and the fields are shifted down one more.
low_any : (s m : ℕ) → m ≡ m / 2 ^ s * 2 ^ s → 2 * m ≡ 2 * m / 2 ^ suc s * 2 ^ suc s
low_any s m h =
    let half : 2 * m / 2 ≡ m = omega arith in
    let q : 2 * m / 2 ^ suc s ≡ m / 2 ^ s =
      div-pow_suc (2 * m) s ∙ ap (λ (t : ℕ). t / 2 ^ s) half in
    omega (arith, h, ap (λ (t : ℕ). t * 2 ^ suc s) q, ap (λ (t : ℕ). m / 2 ^ s * t) (two-mul-pow s))

add_char-shift :
    (c : ℕ) (p : Pattern) (m d : ℕ)
    → m ≡ m / 2 ^ p.shift * 2 ^ p.shift
    → (c ≡ b'?' → d ≡ 0)
    → 2 * m + d ≡ (2 * m + d) / 2 ^ (add_char c p).shift * 2 ^ (add_char c p).shift
unfolding add_char
add_char-shift c p m d h any = elim (Bool-cases (c == b'?')) [
  | inl q ↦
      let z : d ≡ 0 = any ((==_iff c b'?').0 q) in
      rw (q, z) (rw (plus_zero (2 * m), add-one) (low_any p.shift m h))
  | inr n ↦ rw n (omega arith)
]
  where
    plus_zero : (x : ℕ) → x + 0 ≡ x
    plus_zero x = omega arith

add_char-IsRead :
    (c : ℕ) (cs : List ℕ) (p : Pattern)
    → is_digit c ≡ true
    → length cs ≤ 31
    → IsRead cs p
    → IsRead (c ∷ cs) (add_char c p)
add_char-IsRead c cs p legal short r =
    let m31 : p.mask < 2 ^ 31 = omega (arith, r.mask_lt, pow_le short) in
    let k31 : p.key < 2 ^ 31 = omega (arith, r.key_lt, pow_le short) in
    let f = add_char-fields c p m31 k31 in
    let b : ℕ = (if c == b'?' then 0 else 1) in
    record {
      tests = λ x.
          ap₂ (λ (m k : ℕ). bit_and x m == k) f.0 f.1
          ∙ test_double x p.mask p.key c legal
          ∙ (unfold agrees in
              ap (λ (t : Bool). (c == b'?' || (x % 2 == digit c)) && t) (r.tests (x / 2)));
      mask_lt = ground (arith, f.0, r.mask_lt, two-mul-pow (length cs));
      key_lt = ground (arith, f.1, r.key_lt, two-mul-pow (length cs));
      mask_low =
          subst (λ (m : ℕ). m ≡ m / 2 ^ (add_char c p).shift * 2 ^ (add_char c p).shift) (sym f.0)
            (add_char-shift c p p.mask b r.mask_low (λ e. ground arith));
      key_low =
          subst (λ (m : ℕ). m ≡ m / 2 ^ (add_char c p).shift * 2 ^ (add_char c p).shift) (sym f.1)
            (add_char-shift c p p.key (digit c) r.key_low (λ e. ground arith));
    }

no_bits-IsRead : IsRead [] no_bits
no_bits-IsRead = record {
  tests = λ x. unfold agrees in rw (bit_and-zero x);
  mask_lt = omega arith;
  key_lt = omega arith;
  mask_low = refl;
  key_low = refl;
}

mul_lt : (p a b : ℕ) → 1 ≤ p → a < b → a * p < b * p
mul_lt p a b h k = grind arith

mul_cancel : (p a b : ℕ) → 1 ≤ p → (a * p == b * p) ≡ (a == b)
mul_cancel p a b h = ground (arith, mul_lt p a b h, mul_lt p b a h)

-- The shift at the end changes nothing in the test.
finish-tests :
    (cs : List ℕ) (p : Pattern) → IsRead cs p → (x : ℕ) → matches (finish p) x ≡ agrees cs x
finish-tests cs p r x =
    let s = p.shift in
    let m : bit_and x p.mask ≡ bit_and (x / 2 ^ s) (p.mask / 2 ^ s) * 2 ^ s =
      ap (λ (t : ℕ). bit_and x t) r.mask_low ∙ bit_and-shift s x (p.mask / 2 ^ s) in
    sym (
      mul_cancel (2 ^ s) (bit_and (x / 2 ^ s) (p.mask / 2 ^ s)) (p.key / 2 ^ s)
        (one-le-pow s 2 (omega arith)))
    ∙ sym (ap₂ (λ (a b : ℕ). a == b) m r.key_low)
    ∙ r.tests x

-- The loop finishes a legal string, and has read its characters.
record Reads (cs : List ℕ) (run : Run Pattern) : Type 0 where
  result : Pattern
  returns : run ≡ done result
  is_read : IsRead cs result

never : (b : Bool) → (b && false) ≡ true → ⊥
never true h = cc
never false h = cc

decode_loop-Reads :
    (n b : ℕ) (str cs : List ℕ) (p : Pattern)
    → is_legal n b str ≡ true
    → length cs + b ≤ 32
    → IsRead cs p
    → Reads (bits_of str cs) (decode_loop n str p)
unfolding decode_loop
decode_loop-Reads zero b str cs p legal fits r = cc
decode_loop-Reads (suc n) b [] cs p legal fits r = record {
  result = p;
  returns = refl;
  is_read = r;
}
decode_loop-Reads (suc n) zero (c ∷ str) cs p legal fits r = elim (Bool-cases (c == b' ')) [
  | inl sp ↦ rw sp (decode_loop-Reads n zero str cs p (rw sp at legal) fits r)
  | inr ns ↦
      (let both : (is_digit c && false) ≡ true = rw ns at legal in absurd (never (is_digit c) both))
]
decode_loop-Reads (suc n) (suc b) (c ∷ str) cs p legal fits r = elim (Bool-cases (c == b' ')) [
  | inl sp ↦ rw sp (decode_loop-Reads n (suc b) str cs p (rw sp at legal) fits r)
  | inr ns ↦
      let both : (is_digit c && is_legal n b str) ≡ true = rw ns at legal in
      let d : is_digit c ≡ true = ground arith in
      let l : is_legal n b str ≡ true = ground arith in
      rw (ns, d)
        (decode_loop-Reads n b str (c ∷ cs) (add_char c p) l (omega arith)
          (add_char-IsRead c cs p d (omega arith) r))
]

-- `pattern_decode` accepts every legal pattern, and the test that it prepares holds for exactly the
-- words that have a 1 wherever the pattern has `1` and a 0 wherever it has `0`, bit by bit, with
-- the spaces left out and the last character at bit 0.
pub pattern_decode-agrees :
    (str : List ℕ)
    → is_legal 64 32 str ≡ true
    → (p : Pattern) × (pattern_decode str ≡ done p)
      × ((x : ℕ) → matches p x ≡ agrees (bits_of str []) x)
unfolding pattern_decode
pattern_decode-agrees str legal =
    let r = decode_loop-Reads 64 32 str [] no_bits legal (omega arith) no_bits-IsRead in
    (finish r.result, rw r.returns, finish-tests (bits_of str []) r.result r.is_read)
