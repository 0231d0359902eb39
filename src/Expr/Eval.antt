-- ===== src/Expr/Eval.antt =====
-- The evaluation of the tokens: `check_parentheses`, `find_poistion_main_operator`, `eval` and `expr`
-- of mayfly_emu/monitor/expr.c. `eval` calls itself, also on ranges that do not get smaller: `stack` is the
-- number of frames that the host's stack has, and a call past it is a fault. The counters of
-- parentheses stay in the range of `int`, since the array has 1000 elements.
pub mod Grammar
pub mod Check
pub mod Main
pub mod Find
pub mod Correct
pub mod Mark
pub mod Whole
pub mod Wrong
use mayfly_emu.Prelude.{
  ℕ, zero, suc, ◌+◌, ◌-◌, ◌*◌, ◌/◌, ◌%◌, ◌^◌, Bool, true, false, not, ◌&&◌, ◌||◌,
}
use mayfly_emu.Prelude.{ltb, leb, ◌==◌, if◌then◌else◌, update, Option, none, some, List, [], ◌∷◌}
use mayfly_emu.Word.{ℤ, pos, negsuc, is_neg}
use mayfly_emu.Run.{Run, done, abort, fault, and_then, assert, require}
use mayfly_emu.Machine.{Machine, M, pure, ◌>>=◌, ◌>>◌, fail_assert, lift}
use mayfly_emu.Memory.Paddr.{paddr_read}
use mayfly_emu.Expr.Number.{atol, strtoul_16}
use mayfly_emu.Expr.Reg.{isa_reg_str2val, isa_csr_reg_str2val}
use mayfly_emu.Expr.Token.{
  tk_eq, tk_num, tk_hex_num, tk_reg, tk_deref, tk_neq, tk_and, tk_csr_reg, Pcre, Token, Tokens,
  make_token,
}

-- `count++`, `count--` and `count == 0`.
abbrev pub inc : ℤ → ℤ
inc (pos n) = pos (suc n)
inc (negsuc zero) = pos zero
inc (negsuc (suc n)) = negsuc n

abbrev pub dec : ℤ → ℤ
dec (pos zero) = negsuc zero
dec (pos (suc n)) = pos n
dec (negsuc n) = negsuc (suc n)

abbrev pub is_zero : ℤ → Bool
is_zero (pos zero) = true
is_zero (pos (suc n)) = false
is_zero (negsuc n) = false

-- The count behind a token.
abbrev pub count_paren : ℕ → ℤ → ℤ
count_paren type count =
    if type == b'(' then inc count else if type == b')' then dec count else count

-- The rounds of the loop for `p` and behind, `n` of them.
unfoldable pub check_loop : ℕ → ℕ → ℕ → ℤ → (ℕ → Token) → Run Bool
check_loop zero p q count t = done (is_zero count)
check_loop (suc n) p q count t =
    let count' = count_paren (t p).type count in
    let rest = check_loop n (p + 1) q count' t in
    require (ltb p 1000) (
      if is_neg count'
      then done false
      else if is_zero count' && not (p == q)
      then done false
      else rest)

unfoldable pub check_parentheses : ℕ → ℕ → (ℕ → Token) → Run Bool
unfolding check_loop
check_parentheses p q t = require (ltb p 1000) (
    if not ((t p).type == b'(')
    then done false
    else require (ltb q 1000)
        (if not ((t q).type == b')') then done false else check_loop (q + 1 - p) p q (pos 0) t))

pub record MainOperator : Type 0 where
  pub main_operator_type : ℕ
  pub count : ℤ
  pub position : ℕ

-- `main_operator_type = type; position = p`.
abbrev pub found : ℕ → ℕ → MainOperator → MainOperator
found type p s = record s { main_operator_type = type; position = p }

-- What a round of the loop does at `p`.
unfoldable pub main_step : ℕ → ℕ → MainOperator → MainOperator
main_step type p s =
    let m = s.main_operator_type in
    let below_eq = not (m == tk_and) && not (m == tk_eq) && not (m == tk_neq) in
    let below_sum = below_eq && not (m == b'-') && not (m == b'+') in
    if type == tk_and
    then (if is_zero s.count then found type p s else s)
    else if type == tk_eq || type == tk_neq
    then (if is_zero s.count && not (m == tk_and) then found type p s else s)
    else if type == b'+' || type == b'-'
    then (if is_zero s.count && below_eq then found type p s else s)
    else if type == b'*' || type == b'/'
    then (if is_zero s.count && below_sum then found type p s else s)
    else if type == tk_deref
    then (if is_zero s.count && (not (m == b'*') && not (m == b'/') && below_sum)
        then found type p s
        else s)
    else if type == b'('
    then record s { count = inc s.count }
    else if type == b')'
    then record s { count = dec s.count }
    else s

unfoldable pub main_loop : ℕ → ℕ → MainOperator → (ℕ → Token) → Run MainOperator
unfolding main_step
main_loop zero p s t = done s
main_loop (suc n) p s t =
    let rest = main_loop n (p + 1) (main_step (t p).type p s) t in require (ltb p 1000) rest

abbrev pub no_operator : MainOperator
no_operator = record { main_operator_type = 0; count = pos 0; position = 0 }

-- The loop ends before `q`.
unfoldable pub find_poistion_main_operator : ℕ → ℕ → (ℕ → Token) → Run ℕ
unfolding main_loop
find_poistion_main_operator p q t =
    and_then (main_loop (q - p) p no_operator t) λ s. done s.position

-- A failure of the register's name is an assertion.
abbrev pub reg_value : Option ℕ → M ℕ
reg_value none = fail_assert
reg_value (some v) = pure v

-- A range of one token.
unfoldable pub eval_token : Token → M ℕ
unfolding atol strtoul_16 isa_reg_str2val
eval_token tok m =
    if tok.type == tk_num
    then done (atol tok.str, m)
    else if tok.type == tk_hex_num
    then done (strtoul_16 tok.str, m)
    else if tok.type == tk_reg
    then reg_value (isa_reg_str2val tok.str m.cpu) m
    else if tok.type == tk_csr_reg
    then reg_value (isa_csr_reg_str2val tok.str) m
    else abort

-- The switch on the type of the operator.
unfoldable pub apply_operator : ℕ → ℕ → ℕ → M ℕ
unfolding paddr_read
apply_operator op_type val1 val2 m =
    if op_type == b'+'
    then done ((val1 + val2) % 2 ^ 64, m)
    else if op_type == b'-'
    then done ((val1 + 2 ^ 64 - val2) % 2 ^ 64, m)
    else if op_type == b'*'
    then done (val1 * val2 % 2 ^ 64, m)
    else if op_type == b'/'
    then require (not (val2 == 0)) (done (val1 / val2, m))
    else if op_type == tk_eq
    then done (if val1 == val2 then 1 else 0, m)
    else if op_type == tk_neq
    then done (if val1 == val2 then 0 else 1, m)
    else if op_type == tk_and
    then done (if val1 == 0 || val2 == 0 then 0 else 1, m)
    else if op_type == tk_deref
    then paddr_read val2 4 m
    else abort

unfoldable pub eval : ℕ → (ℕ → Token) → ℕ → ℕ → M ℕ
unfolding check_parentheses find_poistion_main_operator eval_token apply_operator
eval zero t p q m = fault
eval (suc stack) t p q m =
    let one = require (ltb p 1000) (eval_token (t p) m) in
    let inside = eval stack t ((p + 1) % 2 ^ 32) ((q + 2 ^ 32 - 1) % 2 ^ 32) m in
    let split = and_then (find_poistion_main_operator p q t) λ op.
      let left : M ℕ = λ m'. eval stack t p (op - 1) m' in
      let value : M ℕ = (do
        val1 ← (if op == 0 then pure 0 else left)
        val2 ← eval stack t (op + 1) q
        apply_operator (t op).type val1 val2) in
      value m in
    let wide = and_then (check_parentheses p q t) λ b. if b then inside else split in
    if ltb q p then done (0, m) else if p == q then one else wide

-- The loop of `expr`: a `*` that does not follow a number or a parenthesis is a dereference.
abbrev pub follows_value : ℕ → Bool
follows_value type = type == tk_num || type == tk_hex_num || type == b')'

unfoldable pub mark_deref : ℕ → ℕ → (ℕ → Token) → ℕ → Token
mark_deref zero i t = t
mark_deref (suc n) i t =
    let marked = update t i (record (t i) { type = tk_deref }) in
    let is_deref = (t i).type == b'*' && (i == 0 || not (follows_value (t (i - 1)).type)) in
    mark_deref n (i + 1) (if is_deref then marked else t)

-- The value, or none where the code clears `*success`, with the tokens left behind.
unfoldable pub expr :
    ℕ → Pcre → Option (List ℕ) → Tokens → Machine → Run ((Option ℕ × Tokens) × Machine)
unfolding make_token mark_deref eval
expr stack pcre e t m = and_then (make_token pcre e t) λ r.
    let marked = record (r.1) { tokens = mark_deref r.1.nr_token 0 r.1.tokens } in
    let value =
      and_then (eval stack marked.tokens 0 ((marked.nr_token + 2 ^ 32 - 1) % 2 ^ 32) m)
        λ v. done ((some v.0, marked), v.1) in
    if r.0 then value else done ((none, r.1), m)
