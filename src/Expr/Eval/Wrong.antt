-- ===== src/Expr/Eval/Wrong.antt =====
-- Where `eval` and `expr` of mayfly_emu/monitor/expr.c do not give an expression's value.
use mathlib.Core.Path.{subst}
use mayfly_emu.Prelude.{
  ℕ, fun_ext, zero, suc, ◌+◌, ◌-◌, ◌%◌, ◌^◌, ◌<◌, ◌≤◌, ◌≡◌, refl, sym, ap, ◌∙◌, arith, inl, inr,
  Bool-cases,
}
use mayfly_emu.Prelude.{true, false, ltb, ◌==◌, some, List, [], ◌∷◌, length}
use mayfly_emu.Run.{Run, done, abort, fault}
use mayfly_emu.Machine.{Machine, M, ◌>>=◌}
use mayfly_emu.Memory.Paddr.{paddr_read}
use mayfly_emu.Expr.Number.{atol}
use mayfly_emu.Expr.Reg.{isa_reg_str2val}
use mayfly_emu.Expr.Token.{Token, Tokens, tk_num, tk_reg, Pcre, make_token}
use mayfly_emu.Expr.Eval.{
  eval, eval_token, expr, mark_deref, apply_operator, reg_value, check_parentheses, MainOperator,
  main_step, main_loop, no_operator, find_poistion_main_operator,
}
use mayfly_emu.Expr.Eval.Main.{main_list, main_loop-list}
use mayfly_emu.Expr.Eval.Correct.{combine, left_part, eval-below, eval-one, eval-split}
use mayfly_emu.Expr.Eval.Mark.{star}
use mayfly_emu.Expr.Eval.Whole.{with_tokens, mark_all, mark_deref-Holds}
use mayfly_emu.Expr.Eval.Grammar.{
  token, deref_token, op_token, op_type, Holds, BinOp, add, sub, mul, div, eq, neq, and,
}

-- An operand that faults makes the whole a fault, unless the left one fails an assertion.
combine-fault :
    (type : ℕ) (x y : M ℕ) (m : Machine)
    → (v : ℕ) → x m ≡ done (v, m)
    → y m ≡ fault
    → combine type x y m ≡ fault
combine-fault type x y m v hx hy = rw (hx, hy) refl

combine-left_fault : (type : ℕ) (x y : M ℕ) (m : Machine) → x m ≡ fault → combine type x y m ≡ fault
combine-left_fault type x y m hx = rw hx refl

-- A range that does not begin with a parenthesis is not in parentheses.
check-not_open :
    (p q : ℕ) (t : ℕ → Token)
    → ltb p 1000 ≡ true
    → ((t p).type == b'(') ≡ false
    → check_parentheses p q t ≡ done false
unfolding check_parentheses
check-not_open p q t b h = rw (b, h) refl

find-position :
    (p q x : ℕ) (l : List Token) (t : ℕ → Token)
    → Holds t p l
    → p + length l ≡ q
    → q ≤ 1000
    → (main_list p l no_operator).position ≡ x
    → find_poistion_main_operator p q t ≡ done x
unfolding find_poistion_main_operator
find-position p q x l t held e b found =
    let rounds : q - p ≡ length l = omega arith in
    rw (rounds, main_loop-list l p no_operator t held (omega arith)) (ap (λ (i : ℕ). done i) found)

-- Two numbers behind an operator, with nothing between them.
abbrev adjacent : List ℕ → BinOp → List ℕ → List ℕ → List Token
adjacent a op b c = token tk_num a ∷ op_token op ∷ token tk_num b ∷ token tk_num c ∷ []

op_position : (o : BinOp) → (main_step (op_type o) 1 no_operator).position ≡ 1
unfolding main_step
op_position add = refl
op_position sub = refl
op_position mul = refl
op_position div = refl
op_position eq = refl
op_position neq = refl
op_position and = refl

op_not_open : (o : BinOp) → (op_type o == b'(') ≡ false
op_not_open add = refl
op_not_open sub = refl
op_not_open mul = refl
op_not_open div = refl
op_not_open eq = refl
op_not_open neq = refl
op_not_open and = refl

module _ (t : ℕ → Token) (a b c : List ℕ) (op : BinOp) (h : Holds t 0 (adjacent a op b c)) where
  find-none : find_poistion_main_operator 2 3 t ≡ done 0
  unfolding main_step
  find-none = find-position 2 3 0 (token tk_num b ∷ []) t (h.1.1.0, tt) refl (omega arith) refl

  find-inner : find_poistion_main_operator 1 3 t ≡ done 1
  unfolding main_step
  find-inner =
      find-position 1 3 1 (op_token op ∷ token tk_num b ∷ []) t (h.1.0, (h.1.1.0, tt)) refl
        (omega arith) (op_position op)

  find-outer : find_poistion_main_operator 0 3 t ≡ done 1
  unfolding main_step
  find-outer =
      find-position 0 3 1 (token tk_num a ∷ op_token op ∷ token tk_num b ∷ []) t
        (h.0, (h.1.0, (h.1.1.0, tt))) refl (omega arith) (op_position op)

  -- The two calls that call each other.
  inner : (stack : ℕ) (m : Machine) → eval stack t 2 3 m ≡ fault
  unfolding eval
  inner zero m = refl
  inner (suc zero) m =
      eval-split 0 t 2 3 0 m (omega arith) (check-not_open 2 3 t refl (rw (h.1.1.0) refl)) find-none
  inner (suc (suc stack)) m =
      eval-split (suc stack) t 2 3 0 m (omega arith) (check-not_open 2 3 t refl (rw (h.1.1.0) refl))
        find-none
      ∙ combine-fault (t 0).type (left_part 0 (suc stack) t 2) (eval (suc stack) t 1 3) m 0 refl (
          eval-split stack t 1 3 1 m (omega arith)
            (check-not_open 1 3 t refl (rw (h.1.0) (op_not_open op))) find-inner
          ∙ outer_part stack (inner stack m))
    where
      outer_part :
          (s : ℕ)
          → eval s t 2 3 m ≡ fault
          → combine (t 1).type (left_part 1 s t 1) (eval s t 2 3) m ≡ fault
      outer_part zero e = combine-left_fault (t 1).type (left_part 1 0 t 1) (eval 0 t 2 3) m refl
      outer_part (suc s) e =
          combine-fault (t 1).type (left_part 1 (suc s) t 1) (eval (suc s) t 2 3) m 0
            (eval-below s t 1 0 m (omega arith)) e

  -- On two numbers behind an operator, such as `1+2 3`, the evaluation calls itself for ever on the
  -- same ranges: no stack is large enough.
  pub eval-adjacent : (stack : ℕ) (m : Machine) → eval stack t 0 3 m ≡ fault
  unfolding eval eval_token
  eval-adjacent zero m = refl
  eval-adjacent (suc zero) m =
      eval-split 0 t 0 3 1 m (omega arith) (check-not_open 0 3 t refl (rw (h.0) refl)) find-outer
  eval-adjacent (suc (suc stack)) m =
      eval-split (suc stack) t 0 3 1 m (omega arith) (check-not_open 0 3 t refl (rw (h.0) refl))
        find-outer
      ∙ combine-fault (t 1).type (left_part 1 (suc stack) t 0) (eval (suc stack) t 2 3) m (atol a)
          (eval-one stack t 0 0 m refl (omega arith) ∙ rw (h.0) refl) (inner (suc stack) m)

-- A dereference of a dereference, such as `**8`, fails an assertion: the second `*` counts as the
-- operator, and the first is evaluated as a value.
pub eval-deref_deref :
    (a : List ℕ) (stack : ℕ) (t : ℕ → Token) (m : Machine)
    → Holds t 0 (deref_token ∷ deref_token ∷ token tk_num a ∷ [])
    → eval (suc (suc stack)) t 0 2 m ≡ abort
unfolding main_step eval_token
eval-deref_deref a stack t m h =
    let found : find_poistion_main_operator 0 2 t ≡ done 1 =
      find-position 0 2 1 (deref_token ∷ deref_token ∷ []) t (h.0, (h.1.0, tt)) refl (omega arith)
        refl in
    let first : eval (suc stack) t 0 0 m ≡ abort =
      eval-one stack t 0 0 m refl (omega arith) ∙ rw (h.0) refl in
    eval-split (suc stack) t 0 2 1 m (omega arith) (check-not_open 0 2 t refl (rw (h.0) refl)) found
    ∙ rw first refl

-- A register times a number.
abbrev pub reg_times : List ℕ → List ℕ → List Token
reg_times r n = token tk_reg r ∷ star ∷ token tk_num n ∷ []

eval-reg_deref :
    (r n : List ℕ) (stack : ℕ) (t : ℕ → Token) (m : Machine)
    → Holds t 0 (token tk_reg r ∷ deref_token ∷ token tk_num n ∷ [])
    → eval (suc (suc stack)) t 0 2 m
      ≡ (reg_value (isa_reg_str2val r m.cpu) >>= λ _. paddr_read (atol n) 4) m
unfolding main_step eval_token apply_operator
eval-reg_deref r n stack t m h =
    let found : find_poistion_main_operator 0 2 t ≡ done 1 =
      find-position 0 2 1 (token tk_reg r ∷ deref_token ∷ []) t (h.0, (h.1.0, tt)) refl
        (omega arith) refl in
    let first : eval (suc stack) t 0 0 m ≡ reg_value (isa_reg_str2val r m.cpu) m =
      eval-one stack t 0 0 m refl (omega arith) ∙ rw (h.0) refl in
    let second : (m' : Machine) → eval (suc stack) t 2 2 m' ≡ done (atol n, m') =
      λ m'. eval-one stack t 2 2 m' refl (omega arith) ∙ rw (h.1.1.0) refl in
    eval-split (suc stack) t 0 2 1 m (omega arith) (check-not_open 0 2 t refl (rw (h.0) refl)) found
    ∙ rw (first, fun_ext second, h.1.0) refl

-- A register times a number is taken as a read of memory: the `*` counts as a dereference, and the
-- value is that of the four bytes at the number, if the register is known.
pub expr-reg_times :
    (r n : List ℕ) (stack : ℕ) (pcre : Pcre) (text : List ℕ) (t t' : Tokens) (m : Machine)
    → make_token pcre (some text) t ≡ done (true, t')
    → t'.nr_token ≡ 3
    → Holds t'.tokens 0 (reg_times r n)
    → expr (suc (suc stack)) pcre (some text) t m
      ≡ with_tokens
          (mark_all t')
          ((reg_value (isa_reg_str2val r m.cpu) >>= λ _. paddr_read (atol n) 4) m)
unfolding expr
expr-reg_times r n stack pcre text t t' m made nr held =
    let marks = mark_deref-Holds (reg_times r n) 0 t'.tokens held in
    let tokens : Holds (mark_all t').tokens 0 (token tk_reg r ∷ deref_token ∷ token tk_num n ∷ []) =
      subst
        (λ (k : ℕ).
          Holds (mark_deref k 0 t'.tokens) 0 (token tk_reg r ∷ deref_token ∷ token tk_num n ∷ []))
        (sym nr) marks in
    let value = eval-reg_deref r n stack (mark_all t').tokens m tokens in
    let last : (t'.nr_token + 2 ^ 32 - 1) % 2 ^ 32 ≡ 2 = omega arith in
    rw (made, last) (ap (λ (x : Run (ℕ × Machine)). with_tokens (mark_all t') x) value)

-- A loop that leaves the array.
main_loop-out :
    (n p : ℕ) (s : MainOperator) (t : ℕ → Token)
    → 1000 < p + n
    → p ≤ 1000
    → main_loop n p s t ≡ fault
unfolding main_loop
main_loop-out zero p s t h b = absurd (omega arith)
main_loop-out (suc n) p s t h b = elim (Bool-cases (ltb p 1000)) [
  | inl i ↦ rw i (main_loop-out n (p + 1) (main_step (t p).type p s) t (omega arith) (ground arith))
  | inr o ↦ rw o refl
]

eval-out : (q stack : ℕ) (t : ℕ → Token) (m : Machine) → 1000 < q → eval (suc stack) t 0 q m ≡ fault
unfolding eval check_parentheses find_poistion_main_operator
eval-out q stack t m h =
    let low : ltb q 0 ≡ false = ground arith in
    let same : (0 == q) ≡ false = ground arith in
    let high : ltb q 1000 ≡ false = ground arith in
    elim (Bool-cases ((t 0).type == b'(')) [
      | inl o ↦ rw (low, same, o, high) refl
      | inr n ↦
          rw (low, same, n, main_loop-out (q - 0) 0 no_operator t (omega arith) (omega arith)) refl
    ]

-- A text with no token, such as one of spaces only, makes the evaluation leave the array: the last
-- position is the number of tokens less one, without a sign.
pub expr-no_token :
    (stack : ℕ) (pcre : Pcre) (text : List ℕ) (t t' : Tokens) (m : Machine)
    → make_token pcre (some text) t ≡ done (true, t')
    → t'.nr_token ≡ 0
    → expr (suc stack) pcre (some text) t m ≡ fault
unfolding expr
expr-no_token stack pcre text t t' m made nr =
    let last = (t'.nr_token + 2 ^ 32 - 1) % 2 ^ 32 in
    rw (made, eval-out last stack (mark_all t').tokens m (omega arith)) refl
