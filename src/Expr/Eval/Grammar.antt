-- ===== src/Expr/Eval/Grammar.antt =====
-- What the expressions of mayfly_emu/monitor/expr.c mean: trees with the usual precedences, the tokens
-- that a tree is written with, and its value.
use mayfly_emu.Prelude.{ℕ, suc, ◌+◌, ◌-◌, ◌*◌, ◌/◌, ◌%◌, ◌^◌, ◌≤◌, ◌<◌, ◌≡◌, sym, arith, max}
use mayfly_emu.Prelude.{not, ◌||◌, ◌==◌, if◌then◌else◌, List, [], ◌∷◌, ◌++◌, length, length-append}
use mayfly_emu.Run.{done, require}
use mayfly_emu.Machine.{M, pure, ◌>>=◌}
use mayfly_emu.Memory.Paddr.{paddr_read}
use mayfly_emu.Expr.Number.{atol, strtoul_16}
use mayfly_emu.Expr.Reg.{isa_reg_str2val}
use mayfly_emu.Expr.Token.{tk_eq, tk_num, tk_hex_num, tk_reg, tk_deref, tk_neq, tk_and, Token}
use mayfly_emu.Expr.Eval.{reg_value}

pub data BinOp : Type 0 where
  add sub mul div eq neq and : BinOp

pub data Tree : Type 0 where
  num : List ℕ → Tree
  hex : List ℕ → Tree
  reg : List ℕ → Tree
  paren : Tree → Tree
  deref : Tree → Tree
  bin : BinOp → Tree → Tree → Tree

abbrev pub op_type : BinOp → ℕ
op_type add = b'+'
op_type sub = b'-'
op_type mul = b'*'
op_type div = b'/'
op_type eq = tk_eq
op_type neq = tk_neq
op_type and = tk_and

-- The characters of an operator.
abbrev pub op_str : BinOp → List ℕ
op_str add = b'+' ∷ []
op_str sub = b'-' ∷ []
op_str mul = b'*' ∷ []
op_str div = b'/' ∷ []
op_str eq = b'=' ∷ b'=' ∷ []
op_str neq = b'!' ∷ b'=' ∷ []
op_str and = b'&' ∷ b'&' ∷ []

-- The greater, the tighter the operator binds.
abbrev pub rank : BinOp → ℕ
rank and = 1
rank eq = 2
rank neq = 2
rank add = 3
rank sub = 3
rank mul = 4
rank div = 4

abbrev pub level : Tree → ℕ
level (num s) = 7
level (hex s) = 7
level (reg s) = 7
level (paren e) = 7
level (deref e) = 5
level (bin op l r) = rank op

-- The parentheses that the precedences ask for are there: binary operators group to the left, and
-- a dereference is of a value or of an expression in parentheses.
abbrev pub Grouped : Tree → Type 0
Grouped (num s) = Unit {0}
Grouped (hex s) = Unit {0}
Grouped (reg s) = Unit {0}
Grouped (paren e) = Grouped e
Grouped (deref e) = (6 ≤ level e) × Grouped e
Grouped (bin op l r) = (rank op ≤ level l) × (rank op < level r) × Grouped l × Grouped r

abbrev pub token : ℕ → List ℕ → Token
token type str = record { type = type; str = str }

abbrev pub lparen : Token
lparen = token b'(' (b'(' ∷ [])

abbrev pub rparen : Token
rparen = token b')' (b')' ∷ [])

abbrev pub op_token : BinOp → Token
op_token op = token (op_type op) (op_str op)

abbrev pub deref_token : Token
deref_token = token tk_deref (b'*' ∷ [])

abbrev pub emit : Tree → List Token
emit (num s) = token tk_num s ∷ []
emit (hex s) = token tk_hex_num s ∷ []
emit (reg s) = token tk_reg s ∷ []
emit (paren e) = lparen ∷ (emit e ++ (rparen ∷ []))
emit (deref e) = deref_token ∷ emit e
emit (bin op l r) = emit l ++ (op_token op ∷ emit r)

-- The value: 64-bit arithmetic, both operands always and the left one first.
abbrev pub op_value : BinOp → ℕ → ℕ → M ℕ
op_value add a b m = done ((a + b) % 2 ^ 64, m)
op_value sub a b m = done ((a + 2 ^ 64 - b) % 2 ^ 64, m)
op_value mul a b m = done (a * b % 2 ^ 64, m)
op_value div a b m = require (not (b == 0)) (done (a / b, m))
op_value eq a b m = done (if a == b then 1 else 0, m)
op_value neq a b m = done (if a == b then 0 else 1, m)
op_value and a b m = done (if a == 0 || b == 0 then 0 else 1, m)

abbrev pub denote : Tree → M ℕ
denote (num s) = pure (atol s)
denote (hex s) = pure (strtoul_16 s)
denote (reg s) = λ m. reg_value (isa_reg_str2val s m.cpu) m
denote (paren e) = denote e
denote (deref e) = denote e >>= λ a. paddr_read a 4
denote (bin op l r) = denote l >>= λ a. denote r >>= λ b. op_value op a b

-- The frames of `eval` that the tree takes.
abbrev pub height : Tree → ℕ
height (num s) = 1
height (hex s) = 1
height (reg s) = 1
height (paren e) = height e + 1
height (deref e) = height e + 1
height (bin op l r) = max (height l) (height r) + 1

-- The array has these tokens from `p` on.
abbrev pub Holds : (ℕ → Token) → ℕ → List Token → Type 0
Holds t p [] = Unit {0}
Holds t p (x ∷ xs) = (t p ≡ x) × Holds t (p + 1) xs

pub Holds-at : (t : ℕ → Token) (p q : ℕ) (xs : List Token) → p ≡ q → Holds t p xs → Holds t q xs
Holds-at t p q xs e h = rw (sym e) h

pub Holds-left : (t : ℕ → Token) (p : ℕ) (xs ys : List Token) → Holds t p (xs ++ ys) → Holds t p xs
Holds-left t p [] ys h = tt
Holds-left t p (x ∷ xs) ys h = (h.0, Holds-left t (p + 1) xs ys h.1)

pub Holds-right :
    (t : ℕ → Token) (p : ℕ) (xs ys : List Token) → Holds t p (xs ++ ys) → Holds t (p + length xs) ys
Holds-right t p [] ys h = Holds-at t p (p + 0) ys (omega arith) h
Holds-right t p (x ∷ xs) ys h =
    Holds-at t (p + 1 + length xs) (p + suc (length xs)) ys (omega arith)
      (Holds-right t (p + 1) xs ys h.1)

pub length-tokens : (xs ys : List Token) → length (xs ++ ys) ≡ length xs + length ys
length-tokens = length-append

pub length-emit_pos : (e : Tree) → 1 ≤ length (emit e)
length-emit_pos (num s) = omega arith
length-emit_pos (hex s) = omega arith
length-emit_pos (reg s) = omega arith
length-emit_pos (paren e) = omega arith
length-emit_pos (deref e) = omega arith
length-emit_pos (bin op l r) =
    omega (arith, length-tokens (emit l) (op_token op ∷ emit r), length-emit_pos l)

pub height_pos : (e : Tree) → 1 ≤ height e
height_pos (num s) = omega arith
height_pos (hex s) = omega arith
height_pos (reg s) = omega arith
height_pos (paren e) = omega arith
height_pos (deref e) = omega arith
height_pos (bin op l r) = omega arith
