-- ===== src/Expr/Eval/Main.antt =====
-- Where `find_poistion_main_operator` of mayfly_emu/monitor/expr.c finds the operator of a tree.
use mayfly_emu.Prelude.{ℕ, suc, ◌+◌, ◌<◌, ◌≤◌, ◌≡◌, refl, ap, ◌∙◌, arith, lt→ltb}
use mayfly_emu.Prelude.{leb, ◌||◌, ◌==◌, if◌then◌else◌, List, [], ◌∷◌, ◌++◌, length}
use mayfly_emu.Word.{ℤ, pos}
use mayfly_emu.Run.{done}
use mayfly_emu.Expr.Token.{Token, tk_and, tk_eq, tk_neq, tk_deref}
use mayfly_emu.Expr.Eval.{MainOperator, main_step, main_loop}
use mayfly_emu.Expr.Eval.Grammar.{
  Tree, num, hex, reg, paren, deref, bin, op_token, op_type, rank, level, Grouped, rparen, emit,
  Holds, BinOp, add, sub, mul, div, eq, neq, and,
}

-- The loop on the list of the tokens.
abbrev pub main_list : ℕ → List Token → MainOperator → MainOperator
main_list p [] s = s
main_list p (x ∷ xs) s = main_list (p + 1) xs (main_step x.type p s)

pub main_loop-list :
    (l : List Token) (p : ℕ) (s : MainOperator) (t : ℕ → Token)
    → Holds t p l
    → p + length l ≤ 1000
    → main_loop (length l) p s t ≡ done (main_list p l s)
unfolding main_loop
main_loop-list [] p s t h b = refl
main_loop-list (x ∷ xs) p s t h b =
    rw (lt→ltb p 1000 (omega arith), h.0)
      (main_loop-list xs (p + 1) (main_step x.type p s) t h.1 (omega arith))

main_list-at :
    (p q : ℕ) (xs : List Token) (s : MainOperator) → p ≡ q → main_list p xs s ≡ main_list q xs s
main_list-at p q xs s e = ap (λ (i : ℕ). main_list i xs s) e

pub main_list-append :
    (xs ys : List Token) (p : ℕ) (s : MainOperator)
    → main_list p (xs ++ ys) s ≡ main_list (p + length xs) ys (main_list p xs s)
main_list-append [] ys p s = main_list-at p (p + 0) ys s (omega arith)
main_list-append (x ∷ xs) ys p s =
    main_list-append xs ys (p + 1) (main_step x.type p s)
    ∙ main_list-at (p + 1 + length xs) (p + suc (length xs)) ys
        (main_list (p + 1) xs (main_step x.type p s)) (omega arith)

abbrev pub at : ℕ → ℤ → ℕ → MainOperator
at m count x = record { main_operator_type = m; count = count; position = x }

-- How tightly the operator that was found binds; 6 before there is one.
abbrev pub rank_of : ℕ → ℕ
rank_of m =
    if m == tk_and
    then 1
    else if m == tk_eq || m == tk_neq
    then 2
    else if m == b'+' || m == b'-'
    then 3
    else if m == b'*' || m == b'/'
    then 4
    else if m == tk_deref
    then 5
    else 6

-- A binary operator, outside of parentheses and inside.
pub step-op :
    (op : BinOp) (m p x : ℕ)
    → main_step (op_type op) p (at m (pos 0) x)
      ≡ (if leb (rank op) (rank_of m) then at (op_type op) (pos 0) p else at m (pos 0) x)
unfolding main_step
step-op add m p x = ground arith
step-op sub m p x = ground arith
step-op mul m p x = ground arith
step-op div m p x = ground arith
step-op eq m p x = ground arith
step-op neq m p x = ground arith
step-op and m p x = ground arith

step-op_inside :
    (op : BinOp) (m p x k : ℕ)
    → main_step (op_type op) p (at m (pos (suc k)) x) ≡ at m (pos (suc k)) x
unfolding main_step
step-op_inside add m p x k = refl
step-op_inside sub m p x k = refl
step-op_inside mul m p x k = refl
step-op_inside div m p x k = refl
step-op_inside eq m p x k = refl
step-op_inside neq m p x k = refl
step-op_inside and m p x k = refl

pub step-deref :
    (m p x : ℕ)
    → main_step tk_deref p (at m (pos 0) x)
      ≡ (if leb 5 (rank_of m) then at tk_deref (pos 0) p else at m (pos 0) x)
unfolding main_step
step-deref m p x = ground arith

-- Inside of a parenthesis nothing is found.
main_list-inside :
    (e : Tree) (m p x k : ℕ) → main_list p (emit e) (at m (pos (suc k)) x) ≡ at m (pos (suc k)) x
unfolding main_step
main_list-inside (num s) m p x k = refl
main_list-inside (hex s) m p x k = refl
main_list-inside (reg s) m p x k = refl
main_list-inside (paren e) m p x k =
    main_list-append (emit e) (rparen ∷ []) (p + 1) (at m (pos (suc (suc k))) x)
    ∙ ap (λ (s : MainOperator). main_step b')' (p + 1 + length (emit e)) s)
        (main_list-inside e m (p + 1) x (suc k))
main_list-inside (deref e) m p x k = main_list-inside e m (p + 1) x k
main_list-inside (bin op l r) m p x k =
    main_list-append (emit l) (op_token op ∷ emit r) p (at m (pos (suc k)) x)
    ∙ ap (λ (s : MainOperator). main_list (p + length (emit l)) (op_token op ∷ emit r) s)
        (main_list-inside l m p x k)
    ∙ ap (λ (s : MainOperator). main_list (p + length (emit l) + 1) (emit r) s)
        (step-op_inside op m (p + length (emit l)) x k)
    ∙ main_list-inside r m (p + length (emit l) + 1) x k

-- A tree that binds more tightly than the operator found leaves it.
pub main_list-skip :
    (e : Tree) (m p x : ℕ)
    → Grouped e
    → rank_of m < level e
    → main_list p (emit e) (at m (pos 0) x) ≡ at m (pos 0) x
unfolding main_step
main_list-skip (num s) m p x g h = refl
main_list-skip (hex s) m p x g h = refl
main_list-skip (reg s) m p x g h = refl
main_list-skip (paren e) m p x g h =
    main_list-append (emit e) (rparen ∷ []) (p + 1) (at m (pos 1) x)
    ∙ ap (λ (s : MainOperator). main_step b')' (p + 1 + length (emit e)) s)
        (main_list-inside e m (p + 1) x 0)
main_list-skip (deref e) m p x g h =
    ap (λ (s : MainOperator). main_list (p + 1) (emit e) s) (step-deref m p x ∙ ground (arith))
    ∙ main_list-skip e m (p + 1) x g.1 (omega (arith, g.0))
main_list-skip (bin op l r) m p x g h =
    main_list-append (emit l) (op_token op ∷ emit r) p (at m (pos 0) x)
    ∙ ap (λ (s : MainOperator). main_list (p + length (emit l)) (op_token op ∷ emit r) s)
        (main_list-skip l m p x g.2 (omega (arith, g.0)))
    ∙ ap (λ (s : MainOperator). main_list (p + length (emit l) + 1) (emit r) s)
        (step-op op m (p + length (emit l)) x ∙ ground arith)
    ∙ main_list-skip r m (p + length (emit l) + 1) x g.3 (omega (arith, g.1))
