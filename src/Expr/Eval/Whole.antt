-- ===== src/Expr/Eval/Whole.antt =====
-- `expr` of mayfly_emu/monitor/expr.c as a whole: the tokens of a text, the multiplications told from the
-- dereferences, and the value.
use mathlib.Core.Path.{subst}
use mayfly_emu.Prelude.{
  ℕ, zero, suc, ◌+◌, ◌-◌, ◌%◌, ◌^◌, ◌<◌, ◌≤◌, ◌≡◌, ◌≢◌, refl, sym, ap, ◌∙◌, arith, inl, inr,
  Bool-cases,
}
use mayfly_emu.Prelude.{
  Bool, true, false, not, ◌==◌, ◌&&◌, ◌||◌, if◌then◌else◌, update, Option, some, List, [], ◌∷◌,
  length,
}
use mayfly_emu.Run.{Run, done, and_then}
use mayfly_emu.Machine.{Machine}
use mayfly_emu.Expr.Token.{Token, Tokens, tk_deref, Pcre, make_token}
use mayfly_emu.Expr.Eval.{expr, mark_deref, follows_value}
use mayfly_emu.Expr.Eval.Correct.{eval-denote}
use mayfly_emu.Expr.Eval.Mark.{written, marked, mark_list, NoRegTimes, mark_list-written}
use mayfly_emu.Expr.Eval.Grammar.{
  Tree, num, hex, reg, paren, deref, bin, op_token, Grouped, rparen, emit, denote, height, Holds,
  length-tokens, length-emit_pos,
}

update-other : (t : ℕ → Token) (i j : ℕ) (w : Token) → i ≢ j → update t i w j ≡ t j
update-other t i j w h = let off : (i == j) ≡ false = ground arith in rw off refl

update-here : (t : ℕ → Token) (i : ℕ) (w : Token) → update t i w i ≡ w
update-here t i w = let same : (i == i) ≡ true = ground arith in rw same refl

-- One round of the loop.
abbrev round : ℕ → (ℕ → Token) → ℕ → Token
round i t =
    if (t i).type == b'*' && (i == 0 || not (follows_value (t (i - 1)).type))
    then update t i (record (t i) { type = tk_deref })
    else t

round-other : (i j : ℕ) (t : ℕ → Token) → i ≢ j → round i t j ≡ t j
round-other i j t h =
    elim (Bool-cases ((t i).type == b'*' && (i == 0 || not (follows_value (t (i - 1)).type)))) [
      | inl d ↦ rw d (update-other t i j (record (t i) { type = tk_deref }) h)
      | inr d ↦ rw d refl
    ]

-- Whether the token before `i` is a value.
abbrev before : ℕ → (ℕ → Token) → Bool
before i t = not (i == 0) && follows_value (t (i - 1)).type

not-before : (z f : Bool) → (z || not f) ≡ not (not z && f)
not-before true f = refl
not-before false true = refl
not-before false false = refl

round-here : (i : ℕ) (t : ℕ → Token) (x : Token) → t i ≡ x → round i t i ≡ marked (before i t) x
round-here i t x e =
    let same = not-before (i == 0) (follows_value (t (i - 1)).type) in
    rw (same, e)
      (elim (Bool-cases (x.type == b'*' && not (before i t))) [
        | inl d ↦ rw d (update-here t i (record x { type = tk_deref }))
        | inr d ↦ rw d e
      ])

Holds-round :
    (xs : List Token) (i q : ℕ) (t : ℕ → Token) → i < q → Holds t q xs → Holds (round i t) q xs
Holds-round [] i q t h c = tt
Holds-round (x ∷ xs) i q t h c =
    (round-other i q t (omega arith) ∙ c.0, Holds-round xs i (q + 1) t (omega arith) c.1)

mark_deref-other : (n i j : ℕ) (t : ℕ → Token) → j < i → mark_deref n i t j ≡ t j
unfolding mark_deref
mark_deref-other zero i j t h = refl
mark_deref-other (suc n) i j t h =
    mark_deref-other n (i + 1) j (round i t) (omega arith) ∙ round-other i j t (omega arith)

pub mark_deref-Holds :
    (xs : List Token) (i : ℕ) (t : ℕ → Token)
    → Holds t i xs
    → Holds (mark_deref (length xs) i t) i (mark_list (before i t) xs)
unfolding mark_deref
mark_deref-Holds [] i t h = tt
mark_deref-Holds (x ∷ xs) i t h =
    let here = round-here i t x h.0 in
    let next : before (i + 1) (round i t) ≡ follows_value (marked (before i t) x).type =
      not_zero (i + 1) (follows_value (round i t (i + 1 - 1)).type) (omega arith)
      ∙ ap (λ (k : ℕ). follows_value (round i t k).type) (omega arith)
      ∙ ap (λ (y : Token). follows_value y.type) here in
    (
      mark_deref-other (length xs) (i + 1) i (round i t) (omega arith) ∙ here,
      subst
          (λ (b : Bool).
            Holds (mark_deref (length xs) (i + 1) (round i t)) (i + 1) (mark_list b xs))
          next
          (mark_deref-Holds xs (i + 1) (round i t) (Holds-round xs i (i + 1) t (omega arith) h.1)),
    )
  where
    not_zero : (k : ℕ) (b : Bool) → 1 ≤ k → (not (k == 0) && b) ≡ b
    not_zero k b h = ground arith

length-written : (e : Tree) → length (written e) ≡ length (emit e)
length-written (num s) = refl
length-written (hex s) = refl
length-written (reg s) = refl
length-written (paren e) = omega (
  arith,
  length-written e,
  length-tokens (written e) (rparen ∷ []),
  length-tokens (emit e) (rparen ∷ []),
)
length-written (deref e) = omega (arith, length-written e)
length-written (bin op l r) = omega (
  arith,
  length-written l,
  length-written r,
  length-tokens (written l) (op_token op ∷ written r),
  length-tokens (emit l) (op_token op ∷ emit r),
)

-- The result of `expr` on a value, with the tokens as the marking leaves them.
abbrev pub with_tokens : Tokens → Run (ℕ × Machine) → Run ((Option ℕ × Tokens) × Machine)
with_tokens t r = and_then r λ v. done ((some v.0, t), v.1)

abbrev pub mark_all : Tokens → Tokens
mark_all t = record t { tokens = mark_deref t.nr_token 0 t.tokens }

-- A text whose tokens are those of a tree, with every `*` as it is read, has the value of the tree,
-- where the parentheses fit the precedences and no multiplication stands behind a register.
pub expr-denote :
    (e : Tree) (stack : ℕ) (pcre : Pcre) (text : List ℕ) (t t' : Tokens) (m : Machine)
    → make_token pcre (some text) t ≡ done (true, t')
    → t'.nr_token ≡ length (written e)
    → Holds t'.tokens 0 (written e)
    → length (written e) ≤ 1000
    → Grouped e
    → NoRegTimes e
    → height e ≤ stack
    → expr stack pcre (some text) t m ≡ with_tokens (mark_all t') (denote e m)
unfolding expr
expr-denote e stack pcre text t t' m made nr held b g ok h =
    let size = length-written e in
    let some_token = length-emit_pos e in
    let q = (t'.nr_token + 2 ^ 32 - 1) % 2 ^ 32 in
    let range : 0 + length (emit e) ≡ q + 1 = omega arith in
    let marks = mark_deref-Holds (written e) 0 t'.tokens held in
    let tokens : Holds (mark_all t').tokens 0 (emit e) =
      subst (λ (n : ℕ). Holds (mark_deref n 0 t'.tokens) 0 (emit e)) (sym nr)
        (subst (λ (l : List Token). Holds (mark_deref (length (written e)) 0 t'.tokens) 0 l)
          (mark_list-written e ok) marks) in
    let value =
      eval-denote e stack 0 q (mark_all t').tokens m g h
        (record { held = tokens; size = range; bound = omega arith }) in
    rw made (ap (λ (r : Run (ℕ × Machine)). with_tokens (mark_all t') r) value)
