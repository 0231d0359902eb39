-- ===== src/Expr/Eval/Correct.antt =====
-- `eval` of mayfly_emu/monitor/expr.c on the tokens of a tree.
use mayfly_emu.Prelude.{
  ℕ, zero, suc, ◌+◌, ◌-◌, ◌%◌, ◌^◌, ◌<◌, ◌≤◌, ◌≡◌, refl, ap, ◌∙◌, arith, fun_ext, lt→ltb,
}
use mayfly_emu.Prelude.{true, false, ltb, ◌==◌, if◌then◌else◌, [], ◌∷◌, length}
use mayfly_emu.Run.{done}
use mayfly_emu.Machine.{Machine, M, pure, ◌>>=◌}
use mayfly_emu.Memory.Paddr.{paddr_read}
use mayfly_emu.Expr.Token.{Token, tk_deref}
use mayfly_emu.Expr.Eval.{
  eval, eval_token, apply_operator, check_parentheses, find_poistion_main_operator,
}
use mayfly_emu.Expr.Eval.Check.{check_parentheses-emit}
use mayfly_emu.Expr.Eval.Find.{find_poistion_main_operator-emit}
use mayfly_emu.Expr.Eval.Grammar.{
  Tree, num, hex, reg, paren, deref, bin, op_token, op_type, op_value, rank, Grouped, rparen, emit,
  denote, height, height_pos, Holds, Holds-left, Holds-right, length-tokens, length-emit_pos, BinOp,
  add, sub, mul, div, eq, neq, and,
}

rank_le : (op : BinOp) → rank op ≤ 6
rank_le op = ground arith

-- Both operands, and what the operator makes of them.
abbrev pub combine : ℕ → M ℕ → M ℕ → M ℕ
combine type left right = left >>= λ a. right >>= λ b. apply_operator type a b

abbrev pub left_part : ℕ → ℕ → (ℕ → Token) → ℕ → M ℕ
left_part op stack t p m = (if op == 0 then pure 0 else (λ m'. eval stack t p (op - 1) m')) m

module _ (stack : ℕ) (t : ℕ → Token) (p q : ℕ) where
  pub eval-below : (m : Machine) → q < p → eval (suc stack) t p q m ≡ done (0, m)
  unfolding eval
  eval-below m h = rw (lt→ltb q p h) refl

  pub eval-one : (m : Machine) → p ≡ q → p < 1000 → eval (suc stack) t p q m ≡ eval_token (t p) m
  unfolding eval
  eval-one m e b =
      let low : ltb q p ≡ false = ground arith in
      let same : (p == q) ≡ true = ground arith in rw (low, same, lt→ltb p 1000 b) refl

  pub eval-inside :
      (m : Machine)
      → p < q
      → q < 1000
      → check_parentheses p q t ≡ done true
      → eval (suc stack) t p q m ≡ eval stack t (p + 1) (q - 1) m
  unfolding eval
  eval-inside m h b c =
      let low : ltb q p ≡ false = ground arith in
      let same : (p == q) ≡ false = ground arith in
      let next : (p + 1) % 2 ^ 32 ≡ p + 1 = omega arith in
      let before : (q + 2 ^ 32 - 1) % 2 ^ 32 ≡ q - 1 = omega arith in
      rw (low, same, c, next, before) refl

  pub eval-split :
      (op : ℕ) (m : Machine)
      → p < q
      → check_parentheses p q t ≡ done false
      → find_poistion_main_operator p q t ≡ done op
      → eval (suc stack) t p q m
        ≡ combine (t op).type (left_part op stack t p) (eval stack t (op + 1) q) m
  unfolding eval
  eval-split op m h c f =
      let low : ltb q p ≡ false = ground arith in
      let same : (p == q) ≡ false = ground arith in rw (low, same, c, f) refl

apply_operator-op :
    (op : BinOp) (a b : ℕ) (m : Machine) → apply_operator (op_type op) a b m ≡ op_value op a b m
unfolding apply_operator
apply_operator-op add a b m = refl
apply_operator-op sub a b m = refl
apply_operator-op mul a b m = refl
apply_operator-op div a b m = refl
apply_operator-op eq a b m = refl
apply_operator-op neq a b m = refl
apply_operator-op and a b m = refl

-- The operands of a split range have the values `left` and `right`.
combine-parts :
    (type : ℕ) (x left y right : M ℕ) (m : Machine)
    → ((m' : Machine) → x m' ≡ left m')
    → ((m' : Machine) → y m' ≡ right m')
    → combine type x y m ≡ combine type left right m
combine-parts type x left y right m hx hy = rw (fun_ext hx, fun_ext hy) refl

combine-op :
    (op : BinOp) (left right : M ℕ) (m : Machine)
    → combine (op_type op) left right m ≡ (left >>= λ a. right >>= λ b. op_value op a b) m
combine-op op left right m =
    ap (λ (f : ℕ → ℕ → M ℕ). (left >>= λ a. right >>= λ b. f a b) m)
      (fun_ext λ a. fun_ext λ b. fun_ext λ m'. apply_operator-op op a b m')

combine-deref :
    (right : M ℕ) (m : Machine)
    → combine tk_deref (pure 0) right m ≡ (right >>= λ a. paddr_read a 4) m
unfolding apply_operator
combine-deref right m = refl

-- Before a dereference there is nothing to evaluate.
left_part-deref :
    (stack : ℕ) (t : ℕ → Token) (p : ℕ) (m : Machine)
    → 1 ≤ stack
    → left_part p stack t p m ≡ done (0, m)
left_part-deref zero t p m h = absurd (omega arith)
left_part-deref (suc stack) t zero m h = refl
left_part-deref (suc stack) t (suc p) m h =
    let later : (suc p == 0) ≡ false = ground arith in
    rw later (eval-below stack t (suc p) (suc p - 1) m (omega arith))

left_part-later :
    (stack : ℕ) (t : ℕ → Token) (p op : ℕ) (m : Machine)
    → 1 ≤ op
    → left_part op stack t p m ≡ eval stack t p (op - 1) m
left_part-later stack t p op m h = let later : (op == 0) ≡ false = ground arith in rw later refl

-- The tokens of a tree, from `p` to `q`.
pub record Stands (e : Tree) (t : ℕ → Token) (p q : ℕ) : Type 0 where
  pub held : Holds t p (emit e)
  pub size : p + length (emit e) ≡ q + 1
  pub bound : q < 1000

length-bin :
    (op : BinOp) (l r : Tree) → length (emit (bin op l r)) ≡ length (emit l) + 1 + length (emit r)
length-bin op l r = omega (arith, length-tokens (emit l) (op_token op ∷ emit r))

Stands-paren :
    (e : Tree) (t : ℕ → Token) (p q : ℕ) → Stands (paren e) t p q → Stands e t (p + 1) (q - 1)
Stands-paren e t p q s = record {
  held = Holds-left t (p + 1) (emit e) (rparen ∷ []) (s.held.1);
  size = omega (arith, s.size, length-tokens (emit e) (rparen ∷ []), length-emit_pos e);
  bound = omega (arith, s.bound);
}

Stands-deref : (e : Tree) (t : ℕ → Token) (p q : ℕ) → Stands (deref e) t p q → Stands e t (p + 1) q
Stands-deref e t p q s = record { held = s.held.1; size = omega (arith, s.size); bound = s.bound }

Stands-left :
    (op : BinOp) (l r : Tree) (t : ℕ → Token) (p q : ℕ)
    → Stands (bin op l r) t p q
    → Stands l t p (p + length (emit l) - 1)
Stands-left op l r t p q s = record {
  held = Holds-left t p (emit l) (op_token op ∷ emit r) (s.held);
  size = omega (arith, length-emit_pos l);
  bound = omega (arith, s.size, s.bound, length-bin op l r);
}

Stands-right :
    (op : BinOp) (l r : Tree) (t : ℕ → Token) (p q : ℕ)
    → Stands (bin op l r) t p q
    → Stands r t (p + length (emit l) + 1) q
Stands-right op l r t p q s = record {
  held = (Holds-right t p (emit l) (op_token op ∷ emit r) (s.held)).1;
  size = omega (arith, s.size, length-bin op l r);
  bound = s.bound;
}

Stands-root :
    (op : BinOp) (l r : Tree) (t : ℕ → Token) (p q : ℕ)
    → Stands (bin op l r) t p q
    → (t (p + length (emit l))).type ≡ op_type op
Stands-root op l r t p q s =
    ap (λ (x : Token). x.type) (Holds-right t p (emit l) (op_token op ∷ emit r) (s.held)).0

-- The evaluation of the tokens of a tree whose parentheses fit the precedences, anywhere in the
-- array, gives the value of the tree, with its effects and failures: 64-bit arithmetic that wraps
-- around, reads of four bytes of physical memory, an assertion for an unknown register and a fault
-- for a division by 0. The stack needs a frame for each level of the tree.
pub eval-denote :
    (e : Tree) (stack p q : ℕ) (t : ℕ → Token) (m : Machine)
    → Grouped e
    → height e ≤ stack
    → Stands e t p q
    → eval stack t p q m ≡ denote e m
eval-denote e zero p q t m g h s = absurd (omega (arith, height_pos e))
eval-denote (num str) (suc stack) p q t m g h s =
    eval-one stack t p q m (omega (arith, s.size)) (omega (arith, s.size, s.bound))
    ∙ rw (s.held.0) (unfold eval_token in refl)
eval-denote (hex str) (suc stack) p q t m g h s =
    eval-one stack t p q m (omega (arith, s.size)) (omega (arith, s.size, s.bound))
    ∙ rw (s.held.0) (unfold eval_token in refl)
eval-denote (reg str) (suc stack) p q t m g h s =
    eval-one stack t p q m (omega (arith, s.size)) (omega (arith, s.size, s.bound))
    ∙ rw (s.held.0) (unfold eval_token in refl)
eval-denote (paren e) (suc stack) p q t m g h s =
    let inner = Stands-paren e t p q s in
    eval-inside stack t p q m (omega (arith, s.size, inner.size, length-emit_pos e)) s.bound
      (check_parentheses-emit (paren e) p q t s.held s.size s.bound)
    ∙ eval-denote e stack (p + 1) (q - 1) t m g (omega arith) inner
eval-denote (deref e) (suc stack) p q t m g h s =
    let found =
      find_poistion_main_operator-emit (deref e) p q t g (omega arith) s.held s.size s.bound in
    let at_p : p + 0 ≡ p = omega arith in
    eval-split stack t p q p m (omega (arith, s.size, length-emit_pos e))
      (check_parentheses-emit (deref e) p q t s.held s.size s.bound)
      (found ∙ ap (λ (i : ℕ). done i) at_p)
    ∙ ap (λ (x : Token). combine x.type (left_part p stack t p) (eval stack t (p + 1) q) m) s.held.0
    ∙ combine-parts tk_deref (left_part p stack t p) (pure 0) (eval stack t (p + 1) q) (denote e) m
        (λ m'. left_part-deref stack t p m' (omega (arith, height_pos e)))
        (λ m'. eval-denote e stack (p + 1) q t m' g.1 (omega arith) (Stands-deref e t p q s))
    ∙ combine-deref (denote e) m
eval-denote (bin op l r) (suc stack) p q t m g h s =
    let op_at = p + length (emit l) in
    let found =
      find_poistion_main_operator-emit (bin op l r) p q t g (rank_le op) s.held s.size s.bound in
    eval-split stack t p q op_at m
      (omega (arith, s.size, length-bin op l r, length-emit_pos l, length-emit_pos r))
      (check_parentheses-emit (bin op l r) p q t s.held s.size s.bound) found
    ∙ ap (λ (ty : ℕ). combine ty (left_part op_at stack t p) (eval stack t (op_at + 1) q) m)
        (Stands-root op l r t p q s)
    ∙ combine-parts (op_type op) (left_part op_at stack t p) (denote l) (eval stack t (op_at + 1) q)
        (denote r) m
        (λ m'.
          left_part-later stack t p op_at m' (omega (arith, length-emit_pos l))
          ∙ eval-denote l stack p (op_at - 1) t m' g.2 (omega arith) (Stands-left op l r t p q s))
        (λ m'.
          eval-denote r stack (op_at + 1) q t m' g.3 (omega arith) (Stands-right op l r t p q s))
    ∙ combine-op op (denote l) (denote r) m
