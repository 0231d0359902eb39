-- ===== src/Tests/Expr.antt =====
-- The expressions of the monitor, with a matcher for the patterns of the rules.
use mayfly_emu.Prelude.{
  ℕ, suc, ◌≡◌, ◌≤◌, ◌<◌, refl, arith, Bool, true, ◌&&◌, ◌||◌, ltb, leb, ◌==◌, if◌then◌else◌,
}
use mayfly_emu.Prelude.{Option, none, some, List, [], ◌∷◌, length}
use mayfly_emu.Run.{Run, done, abort, fault}
use mayfly_emu.Machine.{◌>>=◌}
use mayfly_emu.Memory.Paddr.{paddr_read}
use mayfly_emu.Inst.Pattern.{codes}
use mayfly_emu.Expr.Number.{same_text, atol}
use mayfly_emu.Expr.Reg.{isa_reg_str2val}
use mayfly_emu.Expr.Reg.Names.{decimal, isa_reg_str2val-regs}
use mayfly_emu.Expr.Token.{Pcre, Tokens, rules, make_token}
use mayfly_emu.Expr.Token.Pieces.{Progress, Outcome}
use mayfly_emu.Expr.Token.Ends.{make_token-Outcome}
use mayfly_emu.Expr.Eval.{eval, expr, reg_value}
use mayfly_emu.Expr.Eval.Grammar.{Tree, num, paren, bin, add, mul, denote, token}
use mayfly_emu.Expr.Eval.Correct.{eval-denote}
use mayfly_emu.Expr.Eval.Whole.{expr-denote, with_tokens, mark_all}
use mayfly_emu.Expr.Eval.Wrong.{expr-reg_times}
use mayfly_emu.Tests.Base.{hart, machine}

-- The characters at the front that pass a test, as a match if there is one.
abbrev pub run_of : (ℕ → Bool) → List ℕ → ℕ
run_of p [] = 0
run_of p (c ∷ s) = if p c then suc (run_of p s) else 0

abbrev pub match_run : (ℕ → Bool) → List ℕ → Option (ℕ × ℕ)
match_run p e = if ltb 0 (run_of p e) then some (0, run_of p e) else none

-- One character, and a `$` with one letter or digit.
abbrev pub match_char : ℕ → List ℕ → Option (ℕ × ℕ)
match_char a [] = none
match_char a (c ∷ s) = if c == a then some (0, 1) else none

abbrev pub is_word : ℕ → Bool
is_word c = leb b'a' c && leb c b'z' || leb b'0' c && leb c b'9'

abbrev pub match_reg : List ℕ → Option (ℕ × ℕ)
match_reg (a ∷ b ∷ c ∷ s) = if a == b'$' && is_word b && is_word c then some (0, 3) else none
match_reg _ = none

-- A matcher for the patterns of spaces, numbers, registers and single characters.
abbrev pub matcher : Pcre
matcher pattern e =
    if same_text pattern (codes " +")
    then match_run (λ c. c == b' ') e
    else if same_text pattern (codes "[0-9]+")
    then match_run (λ c. leb b'0' c && leb c b'9') e
    else if same_text pattern (codes "\\+")
    then match_char b'+' e
    else if same_text pattern (codes "\\*")
    then match_char b'*' e
    else if same_text pattern (codes "\\(")
    then match_char b'(' e
    else if same_text pattern (codes "\\)")
    then match_char b')' e
    else if same_text pattern (codes "\\$[a-z]{0,2}(?:[0-9]|[1-9][0-9]|)")
    then match_reg e
    else none

abbrev pub no_tokens : Tokens
no_tokens = record { tokens = λ _. token 0 []; nr_token = 0 }

abbrev tokens_of : Run (Bool × Tokens) → Tokens
tokens_of (done r) = r.1
tokens_of abort = no_tokens
tokens_of fault = no_tokens

abbrev lexed : List ℕ → Tokens
lexed text = tokens_of (make_token matcher (some text) no_tokens)

run_of-le : (p : ℕ → Bool) (e : List ℕ) → run_of p e ≤ length e
run_of-le p [] = omega arith
run_of-le p (c ∷ s) = ground (arith, run_of-le p s)

match_run-progress :
    (p : ℕ → Bool) (e : List ℕ) (from to : ℕ)
    → match_run p e ≡ some (from, to)
    → (from < to) × (to ≤ length e)
match_run-progress p e from to h = ground (arith, run_of-le p e)

match_char-progress :
    (a : ℕ) (e : List ℕ) (from to : ℕ)
    → match_char a e ≡ some (from, to)
    → (from < to) × (to ≤ length e)
match_char-progress a [] from to h = cc
match_char-progress a (c ∷ s) from to h = ground arith

match_reg-progress :
    (e : List ℕ) (from to : ℕ) → match_reg e ≡ some (from, to) → (from < to) × (to ≤ length e)
match_reg-progress [] from to h = cc
match_reg-progress (a ∷ []) from to h = cc
match_reg-progress (a ∷ b ∷ []) from to h = cc
match_reg-progress (a ∷ b ∷ c ∷ s) from to h = ground arith

none-progress :
    (e : List ℕ) (from to : ℕ)
    → ◌≡◌ {A = Option (ℕ × ℕ)} none (some (from, to))
    → (from < to) × (to ≤ length e)
none-progress e from to h = cc

matcher-Progress : Progress matcher rules
matcher-Progress = (
  match_char-progress b'*',
  (
    none-progress,
    (
      none-progress,
      (
        match_char-progress b')',
        (
          match_char-progress b'(',
          (
            match_run-progress (λ c. c == b' '),
            (
              match_char-progress b'+',
              (
                none-progress,
                (
                  none-progress,
                  (
                    none-progress,
                    (
                      none-progress,
                      (
                        match_run-progress (λ c. leb b'0' c && leb c b'9'),
                        (match_reg-progress, (none-progress, tt)),
                      ),
                    ),
                  ),
                ),
              ),
            ),
          ),
        ),
      ),
    ),
  ),
)

isa_reg_str2val-regs_example : isa_reg_str2val (b'$' ∷ decimal 17) hart ≡ some (hart.gpr 17)
isa_reg_str2val-regs_example = (isa_reg_str2val-regs hart).1 17 (omega arith) (omega arith)

-- (1 + 2) * 3
abbrev text : List ℕ
text = codes "(1 + 2) * 3"

abbrev tree : Tree
tree = bin mul (paren (bin add (num (codes "1")) (num (codes "2")))) (num (codes "3"))

make_token-Outcome_example :
    Outcome matcher 0 text no_tokens (make_token matcher (some text) no_tokens)
make_token-Outcome_example =
    make_token-Outcome matcher text no_tokens matcher-Progress (omega arith)

lexed_text : make_token matcher (some text) no_tokens ≡ done (true, lexed text)
unfolding make_token
lexed_text = refl

eval-denote_example : eval 9 (lexed text).tokens 0 6 machine ≡ denote tree machine
unfolding make_token
eval-denote_example =
    eval-denote tree 9 0 6 (lexed text).tokens machine (omega arith) (omega arith) (record {
      held = (refl, (refl, (refl, (refl, (refl, (refl, (refl, tt)))))));
      size = refl;
      bound = omega arith;
    })

expr-denote_example :
    expr 9 matcher (some text) no_tokens machine
    ≡ with_tokens (mark_all (lexed text)) (denote tree machine)
unfolding make_token
expr-denote_example =
    expr-denote tree 9 matcher text no_tokens (lexed text) machine lexed_text refl
      (refl, (refl, (refl, (refl, (refl, (refl, (refl, tt))))))) (omega arith) (omega arith)
      ((λ q. refl), ((λ q. cc), tt, tt), tt) (omega arith)

denoted : denote tree machine ≡ done (9, machine)
unfolding atol
denoted = refl

-- $a0*2
expr-reg_times_example :
    expr 9 matcher (some (codes "$a0*2")) no_tokens machine
    ≡ with_tokens (mark_all (lexed (codes "$a0*2"))) (
        (reg_value (isa_reg_str2val (codes "$a0") machine.cpu) >>= λ _.
        paddr_read (atol (codes "2")) 4)
          machine)
unfolding make_token
expr-reg_times_example =
    expr-reg_times (codes "$a0") (codes "2") 7 matcher (codes "$a0*2") no_tokens
      (lexed (codes "$a0*2")) machine refl refl (refl, (refl, (refl, tt)))
