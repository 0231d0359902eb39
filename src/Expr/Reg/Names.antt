-- ===== src/Expr/Reg/Names.antt =====
-- The registers' names of mayfly_emu/monitor/expr.c: each is found at its own number.
use mathlib.Core.Path.{subst}
use Prim.Native.String.{String}
use mayfly_emu.Prelude.{
  ℕ, zero, suc, ◌+◌, ◌/◌, ◌%◌, ◌<◌, ◌≤◌, ◌≡◌, ◌⊎◌, inl, inr, refl, ap, ◌∙◌, arith, &&-left,
  &&-right, ==_iff,
}
use mayfly_emu.Prelude.{
  Bool, true, false, ltb, ◌&&◌, ◌==◌, if◌then◌else◌, Option, none, some, List, [], ◌∷◌, get_elem?,
}
use mayfly_emu.Cpu.{Cpu}
use mayfly_emu.Inst.Pattern.{codes}
use mayfly_emu.Expr.Number.{atoi}
use mayfly_emu.Expr.Reg.{regs, find_reg, isa_reg_str2val}

abbrev is_some : Option ℕ → ℕ → Bool
is_some none i = false
is_some (some j) i = j == i

is_some_lem : (o : Option ℕ) (i : ℕ) → is_some o i ≡ true → o ≡ some i
is_some_lem none i h = cc
is_some_lem (some j) i h = ap (λ (k : ℕ). some k) ((==_iff j i).0 h)

-- Each name of a list is found at its own number, from `i` on.
all_found : List String → ℕ → Bool
all_found [] i = true
all_found (r ∷ rs) i = is_some (find_reg regs 0 (codes r)) i && all_found rs (i + 1)

all_found_lem :
    (rs : List String) (i k : ℕ) (r : String)
    → all_found rs i ≡ true
    → get_elem? rs k ≡ some r
    → find_reg regs 0 (codes r) ≡ some (i + k)
unfolding all_found
all_found_lem [] i k r h e = cc
all_found_lem (x ∷ xs) i zero r h e =
    let here =
      is_some_lem (find_reg regs 0 (codes x)) i
        (&&-left (is_some (find_reg regs 0 (codes x)) i) (all_found xs (i + 1)) h) in
    let same : x ≡ r = cc in
    subst (λ (s : String). find_reg regs 0 (codes s) ≡ some (i + 0)) same
      (here ∙ ap (λ (k : ℕ). some k) (omega arith))
all_found_lem (x ∷ xs) i (suc k) r h e =
    all_found_lem xs (i + 1) k r
      (&&-right (is_some (find_reg regs 0 (codes x)) i) (all_found xs (i + 1)) h) e
    ∙ ap (λ (k : ℕ). some k) (omega arith)

regs_found : all_found regs 0 ≡ true
unfolding all_found find_reg
regs_found = refl

-- A number below 100 in decimal digits.
abbrev pub decimal : ℕ → List ℕ
decimal n = if ltb n 10 then (b'0' + n) ∷ [] else (b'0' + n / 10) ∷ (b'0' + n % 10) ∷ []

abbrev is_none : Option ℕ → Bool
is_none none = true
is_none (some i) = false

is_none_lem : (o : Option ℕ) → is_none o ≡ true → o ≡ none
is_none_lem none h = refl
is_none_lem (some i) h = cc

-- The numbers from `n` down to 1 are no names, and are read as themselves.
all_read : ℕ → Bool
all_read zero = true
all_read (suc n) =
    is_none (find_reg regs 0 (decimal (suc n))) && atoi (decimal (suc n)) == suc n && all_read n

all_read_lem :
    (n k : ℕ)
    → all_read n ≡ true
    → 1 ≤ k
    → k ≤ n
    → (find_reg regs 0 (decimal k) ≡ none) × (atoi (decimal k) ≡ k)
unfolding all_read
all_read_lem zero k h a b = absurd (omega arith)
all_read_lem (suc n) k h a b = elim (le-cases k n) [
  | inl l ↦ all_read_lem n k (&&-right (here n) (all_read n) h) a l
  | inr e ↦
      let now = &&-left (here n) (all_read n) h in
      let same : suc n ≡ k = omega arith in
      subst (λ (j : ℕ). (find_reg regs 0 (decimal j) ≡ none) × (atoi (decimal j) ≡ j)) same
        (
          is_none_lem (find_reg regs 0 (decimal (suc n))) (
              &&-left (is_none (find_reg regs 0 (decimal (suc n))))
                (atoi (decimal (suc n)) == suc n) now),
          (==_iff (atoi (decimal (suc n))) (suc n)).0 (
              &&-right (is_none (find_reg regs 0 (decimal (suc n))))
                (atoi (decimal (suc n)) == suc n) now),
        )
]
  where
    le-cases : (k n : ℕ) → (k ≤ n) ⊎ (n < k)
    le-cases k n = omega arith

    here : ℕ → Bool
    here n = is_none (find_reg regs 0 (decimal (suc n))) && atoi (decimal (suc n)) == suc n

numbers_read : all_read 31 ≡ true
unfolding all_read find_reg atoi
numbers_read = refl

-- Behind a `$`, the name of a register and its number from 1 on give the register's value: no name
-- hides another. The number 0 gives none.
pub isa_reg_str2val-regs :
    (c : Cpu)
    → ((i : ℕ) (r : String)
        → get_elem? regs i ≡ some r
        → isa_reg_str2val (b'$' ∷ codes r) c ≡ some (c.gpr i))
      × ((i : ℕ) → 1 ≤ i → i ≤ 31 → isa_reg_str2val (b'$' ∷ decimal i) c ≡ some (c.gpr i))
      × (isa_reg_str2val (b'$' ∷ decimal 0) c ≡ none)
unfolding isa_reg_str2val
isa_reg_str2val-regs c = (
  λ i r e.
      rw (all_found_lem regs 0 i r regs_found e, isa_reg_str2val)
        (ap (λ (k : ℕ). some (c.gpr k)) (omega arith)),
  λ i a b.
      let read = all_read_lem 31 i numbers_read a b in
      rw (read.0, isa_reg_str2val, read.1) (ground arith),
  unfold find_reg in refl,
)
