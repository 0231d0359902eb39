-- ===== src/Expr/Eval/Mark.antt =====
-- `expr` of mayfly_emu/monitor/expr.c: the tokens of a text with every `*` as it is read, and the loop
-- that tells multiplications from dereferences.
use mayfly_emu.Prelude.{◌≡◌, refl, ap, ◌∙◌}
use mayfly_emu.Prelude.{Bool, true, false, not, ◌==◌, ◌&&◌, if◌then◌else◌, List, [], ◌∷◌, ◌++◌}
use mayfly_emu.Expr.Token.{Token, tk_deref, tk_num, tk_hex_num, tk_reg}
use mayfly_emu.Expr.Eval.{follows_value}
use mayfly_emu.Expr.Eval.Grammar.{
  Tree, num, hex, reg, paren, deref, bin, op_token, op_type, deref_token, lparen, rparen, emit,
  token, BinOp, add, sub, mul, div, eq, neq, and,
}

-- As `make_token` reads them.
abbrev pub star : Token
star = op_token mul

abbrev pub written : Tree → List Token
written (num s) = token tk_num s ∷ []
written (hex s) = token tk_hex_num s ∷ []
written (reg s) = token tk_reg s ∷ []
written (paren e) = lparen ∷ (written e ++ (rparen ∷ []))
written (deref e) = star ∷ written e
written (bin op l r) = written l ++ (op_token op ∷ written r)

-- The tree ends in a number or a parenthesis, and not in a register.
abbrev pub ends_in_value : Tree → Bool
ends_in_value (num s) = true
ends_in_value (hex s) = true
ends_in_value (reg s) = false
ends_in_value (paren e) = true
ends_in_value (deref e) = ends_in_value e
ends_in_value (bin op l r) = ends_in_value r

abbrev pub is_mul : BinOp → Bool
is_mul mul = true
is_mul _ = false

-- No multiplication stands directly behind a register.
abbrev pub NoRegTimes : Tree → Type 0
NoRegTimes (paren e) = NoRegTimes e
NoRegTimes (deref e) = NoRegTimes e
NoRegTimes (bin op l r) = (is_mul op ≡ true → ends_in_value l ≡ true) × NoRegTimes l × NoRegTimes r
NoRegTimes _ = Unit {0}

-- The loop on a list, behind a token that a `*` would multiply or not.
abbrev pub marked : Bool → Token → Token
marked after x = if x.type == b'*' && not after then record x { type = tk_deref } else x

abbrev pub mark_list : Bool → List Token → List Token
mark_list after [] = []
mark_list after (x ∷ xs) = marked after x ∷ mark_list (follows_value (marked after x).type) xs

abbrev after_of : Bool → List Token → Bool
after_of after [] = after
after_of after (x ∷ xs) = after_of (follows_value (marked after x).type) xs

mark_list-append :
    (after : Bool) (xs ys : List Token)
    → mark_list after (xs ++ ys) ≡ mark_list after xs ++ mark_list (after_of after xs) ys
mark_list-append after [] ys = refl
mark_list-append after (x ∷ xs) ys =
    ap (λ (l : List Token). marked after x ∷ l)
      (mark_list-append (follows_value (marked after x).type) xs ys)

after_of-append :
    (after : Bool) (xs ys : List Token)
    → after_of after (xs ++ ys) ≡ after_of (after_of after xs) ys
after_of-append after [] ys = refl
after_of-append after (x ∷ xs) ys = after_of-append (follows_value (marked after x).type) xs ys

after_of-op : (op : BinOp) (after : Bool) → after_of after (op_token op ∷ []) ≡ false
after_of-op mul true = refl
after_of-op mul false = refl
after_of-op add after = refl
after_of-op sub after = refl
after_of-op div after = refl
after_of-op eq after = refl
after_of-op neq after = refl
after_of-op and after = refl

-- Behind a tree stands its last token.
after_of-written : (e : Tree) → after_of false (written e) ≡ ends_in_value e
after_of-written (num s) = refl
after_of-written (hex s) = refl
after_of-written (reg s) = refl
after_of-written (paren e) = after_of-append false (written e) (rparen ∷ [])
after_of-written (deref e) = after_of-written e
after_of-written (bin op l r) =
    after_of-append false (written l) (op_token op ∷ written r)
    ∙ ap (λ (b : Bool). after_of b (written r)) (after_of-op op (after_of false (written l)))
    ∙ after_of-written r

marked-op :
    (op : BinOp) (after : Bool)
    → (is_mul op ≡ true → after ≡ true)
    → marked after (op_token op) ≡ op_token op
marked-op mul after h = rw (h refl) refl
marked-op add after h = refl
marked-op sub after h = refl
marked-op div after h = refl
marked-op eq after h = refl
marked-op neq after h = refl
marked-op and after h = refl

pub mark_list-written : (e : Tree) → NoRegTimes e → mark_list false (written e) ≡ emit e
mark_list-written (num s) h = refl
mark_list-written (hex s) h = refl
mark_list-written (reg s) h = refl
mark_list-written (paren e) h =
    ap (λ (l : List Token). lparen ∷ l)
      (mark_list-append false (written e) (rparen ∷ [])
        ∙ ap (λ (l : List Token). l ++ (rparen ∷ [])) (mark_list-written e h))
mark_list-written (deref e) h = ap (λ (l : List Token). deref_token ∷ l) (mark_list-written e h)
mark_list-written (bin op l r) h =
    let after = after_of false (written l) in
    let kept = marked-op op after (λ q. after_of-written l ∙ h.0 q) in
    mark_list-append false (written l) (op_token op ∷ written r)
    ∙ ap (λ (k : List Token). k ++ mark_list after (op_token op ∷ written r))
        (mark_list-written l h.1)
    ∙ ap (λ (x : Token). emit l ++ (x ∷ mark_list (follows_value x.type) (written r))) kept
    ∙ ap (λ (b : Bool). emit l ++ (op_token op ∷ mark_list b (written r))) (follows-op op)
    ∙ ap (λ (k : List Token). emit l ++ (op_token op ∷ k)) (mark_list-written r h.2)
  where
    follows-op : (op : BinOp) → follows_value (op_type op) ≡ false
    follows-op mul = refl
    follows-op add = refl
    follows-op sub = refl
    follows-op div = refl
    follows-op eq = refl
    follows-op neq = refl
    follows-op and = refl
