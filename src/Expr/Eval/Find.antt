-- ===== src/Expr/Eval/Find.antt =====
-- The position that `find_poistion_main_operator` of mayfly_emu/monitor/expr.c answers for a tree: the
-- operator at its root.
use mathlib.Core.List.{append_assoc}
use mayfly_emu.Prelude.{ℕ, ◌+◌, ◌-◌, ◌<◌, ◌≤◌, ◌≡◌, ◌⊎◌, refl, sym, ap, ◌∙◌, inl, inr, arith}
use mayfly_emu.Prelude.{List, [], ◌∷◌, ◌++◌, length}
use mayfly_emu.Word.{pos}
use mayfly_emu.Run.{done}
use mayfly_emu.Expr.Token.{Token, tk_deref, tk_num, tk_hex_num, tk_reg}
use mayfly_emu.Expr.Eval.{MainOperator, main_step, find_poistion_main_operator, no_operator}
use mayfly_emu.Expr.Eval.Main.{
  main_list, main_list-append, main_list-skip, main_loop-list, at, rank_of, step-op, step-deref,
}
use mayfly_emu.Expr.Eval.Grammar.{
  Tree, num, hex, reg, paren, deref, bin, op_token, deref_token, op_type, rank, level, Grouped,
  lparen, rparen, emit, token, Holds, Holds-left, length-tokens, BinOp, add, sub, mul, div, eq, neq,
  and,
}

-- The operator at the root, and the number of tokens before it.
abbrev pub root : Tree → ℕ
root (bin op l r) = op_type op
root _ = tk_deref

abbrev pub offset : Tree → ℕ
offset (bin op l r) = length (emit l)
offset _ = 0

rank_of-le : (m : ℕ) → rank_of m ≤ 6
rank_of-le m = ground arith

rank_of-op : (op : BinOp) → rank_of (op_type op) ≡ rank op
rank_of-op add = refl
rank_of-op sub = refl
rank_of-op mul = refl
rank_of-op div = refl
rank_of-op eq = refl
rank_of-op neq = refl
rank_of-op and = refl

rank_of-root : (e : Tree) → level e ≤ 6 → rank_of (root e) ≡ level e
rank_of-root (num s) h = absurd (omega arith)
rank_of-root (hex s) h = absurd (omega arith)
rank_of-root (reg s) h = absurd (omega arith)
rank_of-root (paren e) h = absurd (omega arith)
rank_of-root (deref e) h = refl
rank_of-root (bin op l r) h = rank_of-op op

le-cases : (a b : ℕ) → (a ≤ b) ⊎ (b < a)
le-cases a b = omega arith

-- Whatever was found behind the left operand, the operator comes in its place.
found_op :
    (op : BinOp) (m p x : ℕ)
    → rank op ≤ rank_of m
    → main_step (op_type op) p (at m (pos 0) x) ≡ at (op_type op) (pos 0) p
found_op op m p x h = step-op op m p x ∙ ground arith

left_operand :
    (op : BinOp) (l : Tree) (m p x q : ℕ)
    → Grouped l
    → rank op ≤ level l
    → rank op ≤ rank_of m
    → (level l ≤ rank_of m
        → main_list p (emit l) (at m (pos 0) x) ≡ at (root l) (pos 0) (p + offset l))
    → main_step (op_type op) q (main_list p (emit l) (at m (pos 0) x)) ≡ at (op_type op) (pos 0) q
left_operand op l m p x q g tight free ih = elim (le-cases (level l) (rank_of m)) [
  | inl h ↦
      ap (λ (s : MainOperator). main_step (op_type op) q s) (ih h)
      ∙ found_op op (root l) q (p + offset l)
          (omega (arith, rank_of-root l (omega (arith, rank_of-le m))))
  | inr h ↦
      ap (λ (s : MainOperator). main_step (op_type op) q s) (main_list-skip l m p x g h)
      ∙ found_op op m q x free
]

-- A tree that does not bind more tightly than the operator found has its root found.
main_list-take :
    (e : Tree) (m p x : ℕ)
    → Grouped e
    → level e ≤ rank_of m
    → main_list p (emit e) (at m (pos 0) x) ≡ at (root e) (pos 0) (p + offset e)
main_list-take (num s) m p x g h = absurd (omega (arith, rank_of-le m))
main_list-take (hex s) m p x g h = absurd (omega (arith, rank_of-le m))
main_list-take (reg s) m p x g h = absurd (omega (arith, rank_of-le m))
main_list-take (paren e) m p x g h = absurd (omega (arith, rank_of-le m))
main_list-take (deref e) m p x g h =
    ap (λ (s : MainOperator). main_list (p + 1) (emit e) s) (step-deref m p x ∙ ground arith)
    ∙ main_list-skip e tk_deref (p + 1) p g.1 (omega (arith, g.0))
    ∙ ap (λ (i : ℕ). at tk_deref (pos 0) i) (omega arith)
main_list-take (bin op l r) m p x g h =
    main_list-append (emit l) (op_token op ∷ emit r) p (at m (pos 0) x)
    ∙ ap (λ (s : MainOperator). main_list (p + length (emit l) + 1) (emit r) s)
        (left_operand op l m p x (p + length (emit l)) g.2 g.0 h (main_list-take l m p x g.2))
    ∙ main_list-skip r (op_type op) (p + length (emit l) + 1) (p + length (emit l)) g.3
        (omega (arith, g.1, rank_of-op op))

-- The tokens but for the last, which the loop does not read.
abbrev back : Tree → Token
back (num s) = token tk_num s
back (hex s) = token tk_hex_num s
back (reg s) = token tk_reg s
back (paren e) = rparen
back (deref e) = back e
back (bin op l r) = back r

abbrev front : Tree → List Token
front (num s) = []
front (hex s) = []
front (reg s) = []
front (paren e) = lparen ∷ emit e
front (deref e) = deref_token ∷ front e
front (bin op l r) = emit l ++ (op_token op ∷ front r)

emit-front : (e : Tree) → emit e ≡ front e ++ (back e ∷ [])
emit-front (num s) = refl
emit-front (hex s) = refl
emit-front (reg s) = refl
emit-front (paren e) = refl
emit-front (deref e) = ap (λ (l : List Token). deref_token ∷ l) (emit-front e)
emit-front (bin op l r) =
    ap (λ (k : List Token). emit l ++ (op_token op ∷ k)) (emit-front r)
    ∙ sym (append_assoc (emit l) (op_token op ∷ front r) (back r ∷ []))

back-position :
    (e : Tree) (p : ℕ) (s : MainOperator) → (main_step (back e).type p s).position ≡ s.position
unfolding main_step
back-position (num str) p s = refl
back-position (hex str) p s = refl
back-position (reg str) p s = refl
back-position (paren e) p s = refl
back-position (deref e) p s = back-position e p s
back-position (bin op l r) p s = back-position r p s

front-position :
    (e : Tree) (p : ℕ)
    → Grouped e
    → level e ≤ 6
    → (main_list p (front e) no_operator).position ≡ p + offset e
front-position e p g h =
    sym (back-position e (p + length (front e)) (main_list p (front e) no_operator))
    ∙ ap (λ (s : MainOperator). s.position)
        (sym (main_list-append (front e) (back e ∷ []) p no_operator))
    ∙ ap (λ (l : List Token). (main_list p l no_operator).position) (sym (emit-front e))
    ∙ ap (λ (s : MainOperator). s.position) (main_list-take e 0 p 0 g h)

-- Over the range of a tree whose root is an operator, the search finds it.
pub find_poistion_main_operator-emit :
    (e : Tree) (p q : ℕ) (t : ℕ → Token)
    → Grouped e
    → level e ≤ 6
    → Holds t p (emit e)
    → p + length (emit e) ≡ q + 1
    → q < 1000
    → find_poistion_main_operator p q t ≡ done (p + offset e)
unfolding find_poistion_main_operator
find_poistion_main_operator-emit e p q t g l h len b =
    let size = ap (λ (k : List Token). length k) (emit-front e) in
    let sum = length-tokens (front e) (back e ∷ []) in
    let rounds : q - p ≡ length (front e) = omega arith in
    let held = Holds-left t p (front e) (back e ∷ []) (rw (sym (emit-front e)) h) in
    rw (rounds, main_loop-list (front e) p no_operator t held (omega arith))
      (ap (λ (i : ℕ). done i) (front-position e p g l))
