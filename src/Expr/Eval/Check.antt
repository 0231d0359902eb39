-- ===== src/Expr/Eval/Check.antt =====
-- What `check_parentheses` of mayfly_emu/monitor/expr.c answers for the tokens of a tree.
use mayfly_emu.Prelude.{
  ℕ, suc, ◌+◌, ◌-◌, ◌<◌, ◌≡◌, refl, sym, ◌∙◌, inl, inr, arith, lt→ltb, Bool-cases,
}
use mayfly_emu.Prelude.{
  Bool, true, false, not, ◌&&◌, ◌==◌, if◌then◌else◌, List, [], ◌∷◌, ◌++◌, length,
}
use mathlib.Core.Bool.{false≢true}
use mathlib.Core.List.{append_assoc, append-nil}
use mayfly_emu.Word.{ℤ, pos, is_neg}
use mayfly_emu.Run.{done}
use mayfly_emu.Expr.Token.{Token}
use mayfly_emu.Expr.Eval.{is_zero, count_paren, check_loop, check_parentheses}
use mayfly_emu.Expr.Eval.Grammar.{
  Tree, num, hex, reg, paren, deref, bin, op_token, rparen, emit, Holds, Holds-right, length-tokens,
  length-emit_pos, BinOp, add, sub, mul, div, eq, neq, and,
}

-- The loop on the list of the tokens that are left.
abbrev is_empty : List Token → Bool
is_empty [] = true
is_empty (_ ∷ _) = false

abbrev check_list : ℤ → List Token → Bool
check_list count [] = is_zero count
check_list count (x ∷ xs) =
    let count' = count_paren x.type count in
    let rest = check_list count' xs in
    if is_neg count' then false else if is_zero count' && not (is_empty xs) then false else rest

last_empty : (p q : ℕ) (xs : List Token) → p + suc (length xs) ≡ q + 1 → (p == q) ≡ is_empty xs
last_empty p q [] e = ground arith
last_empty p q (x ∷ xs) e = ground arith

if-done :
    (a b c : Bool)
    → (if a then done false else if b then done false else done c)
      ≡ done (if a then false else if b then false else c)
if-done true b c = refl
if-done false true c = refl
if-done false false c = refl

check_loop-list :
    (l : List Token) (p q : ℕ) (count : ℤ) (t : ℕ → Token)
    → Holds t p l
    → p + length l ≡ q + 1
    → q < 1000
    → check_loop (length l) p q count t ≡ done (check_list count l)
unfolding check_loop
check_loop-list [] p q count t h e b = refl
check_loop-list (x ∷ xs) p q count t h e b =
    let count' = count_paren x.type count in
    rw
      (
        lt→ltb p 1000 (omega arith),
        h.0,
        last_empty p q xs e,
        check_loop-list xs (p + 1) q count' t h.1 (omega arith) b,
      )
      (if-done (is_neg count') (is_zero count' && not (is_empty xs)) (check_list count' xs))

-- Inside of a parenthesis a tree leaves the count as it is.
check_list-inside :
    (e : Tree) (k : ℕ) (rest : List Token)
    → check_list (pos (suc k)) (emit e ++ rest) ≡ check_list (pos (suc k)) rest
check_list-inside (num s) k rest = refl
check_list-inside (hex s) k rest = refl
check_list-inside (reg s) k rest = refl
check_list-inside (paren e) k rest =
    rw (append_assoc (emit e) (rparen ∷ []) rest) (check_list-inside e (suc k) (rparen ∷ rest))
check_list-inside (deref e) k rest = check_list-inside e k rest
check_list-inside (bin op l r) k rest = rw (append_assoc (emit l) (op_token op ∷ emit r) rest) (
    check_list-inside l k (op_token op ∷ (emit r ++ rest))
    ∙ operator op
    ∙ check_list-inside r k rest)
  where
    operator :
        (o : BinOp)
        → check_list (pos (suc k)) (op_token o ∷ (emit r ++ rest))
          ≡ check_list (pos (suc k)) (emit r ++ rest)
    operator add = refl
    operator sub = refl
    operator mul = refl
    operator div = refl
    operator eq = refl
    operator neq = refl
    operator and = refl

-- The tree begins with a parenthesis; it is one.
abbrev pub opens : Tree → Bool
opens (paren e) = true
opens (bin op l r) = opens l
opens _ = false

abbrev pub is_paren : Tree → Bool
is_paren (paren e) = true
is_paren _ = false

-- The first parenthesis is closed before the end.
check_list-opens :
    (e : Tree) (x : Token) (rest : List Token)
    → opens e ≡ true
    → check_list (pos 0) (emit e ++ x ∷ rest) ≡ false
check_list-opens (num s) x rest o = cc
check_list-opens (hex s) x rest o = cc
check_list-opens (reg s) x rest o = cc
check_list-opens (deref e) x rest o = cc
check_list-opens (paren e) x rest o =
    rw (append_assoc (emit e) (rparen ∷ []) (x ∷ rest)) (check_list-inside e 0 (rparen ∷ x ∷ rest))
check_list-opens (bin op l r) x rest o =
    rw (append_assoc (emit l) (op_token op ∷ emit r) (x ∷ rest))
      (check_list-opens l (op_token op) (emit r ++ x ∷ rest) o)

first-opens :
    (e : Tree) (rest : List Token) (p : ℕ) (t : ℕ → Token)
    → Holds t p (emit e ++ rest)
    → ((t p).type == b'(') ≡ opens e
first-opens (num s) rest p t h = rw (h.0) refl
first-opens (hex s) rest p t h = rw (h.0) refl
first-opens (reg s) rest p t h = rw (h.0) refl
first-opens (paren e) rest p t h = rw (h.0) refl
first-opens (deref e) rest p t h = rw (h.0) refl
first-opens (bin op l r) rest p t h =
    first-opens l (op_token op ∷ (emit r ++ rest)) p t
      (rw (sym (append_assoc (emit l) (op_token op ∷ emit r) rest)) h)

-- The answer over the whole range of a tree.
check_list-is_paren : (e : Tree) → opens e ≡ true → check_list (pos 0) (emit e) ≡ is_paren e
check_list-is_paren (num s) o = cc
check_list-is_paren (hex s) o = cc
check_list-is_paren (reg s) o = cc
check_list-is_paren (deref e) o = cc
check_list-is_paren (paren e) o = check_list-inside e 0 (rparen ∷ [])
check_list-is_paren (bin op l r) o = check_list-opens l (op_token op) (emit r) o

closes :
    (e : Tree) (p q : ℕ) (t : ℕ → Token)
    → is_paren e ≡ true
    → Holds t p (emit e)
    → p + length (emit e) ≡ q + 1
    → ((t q).type == b')') ≡ true
closes (num s) p q t i h e = cc
closes (hex s) p q t i h e = cc
closes (reg s) p q t i h e = cc
closes (deref f) p q t i h e = cc
closes (bin op l r) p q t i h e = cc
closes (paren f) p q t i h e =
    let last = Holds-right t (p + 1) (emit f) (rparen ∷ []) h.1 in
    let same : p + 1 + length (emit f) ≡ q = omega (arith, length-tokens (emit f) (rparen ∷ [])) in
    rw (sym same, last.0) refl

paren_opens : (e : Tree) → opens e ≡ false → is_paren e ≡ false
paren_opens (num s) o = refl
paren_opens (hex s) o = refl
paren_opens (reg s) o = refl
paren_opens (deref e) o = refl
paren_opens (paren e) o = cc
paren_opens (bin op l r) o = refl

-- Over the range of a tree the check succeeds exactly if the tree is one in parentheses.
pub check_parentheses-emit :
    (e : Tree) (p q : ℕ) (t : ℕ → Token)
    → Holds t p (emit e)
    → p + length (emit e) ≡ q + 1
    → q < 1000
    → check_parentheses p q t ≡ done (is_paren e)
unfolding check_parentheses
check_parentheses-emit e p q t h len b =
    let first = first-opens e [] p t (rw append-nil h) in
    let loop = check_loop-list (emit e) p q (pos 0) t h len b in
    let rounds : q + 1 - p ≡ length (emit e) = omega arith in
    let low = lt→ltb p 1000 (omega (arith, length-emit_pos e)) in
    let high = lt→ltb q 1000 b in
    elim (Bool-cases (opens e)) [
      | inr f ↦ rw (low, first, f, paren_opens e f) refl
      | inl o ↦ elim (Bool-cases ((t q).type == b')')) [
        | inl c ↦ rw (low, first, o, high, c, rounds, loop, check_list-is_paren e o) refl
        | inr n ↦ elim (Bool-cases (is_paren e)) [
          | inl i ↦ absurd (false≢true (sym n ∙ closes e p q t i h len))
          | inr i ↦ rw (low, first, o, high, n, i) refl
        ]
      ]
    ]
