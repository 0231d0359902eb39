-- ===== src/Expr/Token/Pieces.antt =====
-- What `make_token` of mayfly_emu/monitor/expr.c makes of a text: it ends, and its tokens are the pieces
-- of the text but for the spaces.
use mathlib.Core.Path.{subst, ap₂}
use mayfly_emu.Prelude.{
  ℕ, ◌+◌, ◌<◌, ◌≤◌, ◌≡◌, ◌≢◌, ◌⊎◌, refl, sym, ap, ◌∙◌, inl, inr, arith, Bool-cases, Option-cases,
}
use mayfly_emu.Prelude.{
  Bool, true, false, leb, leb→le, ◌==◌, if◌then◌else◌, update, Option, none, some,
}
use mayfly_emu.Prelude.{List, [], ◌∷◌, ◌++◌, length, take, drop, append-take-drop, length-take}
use mayfly_emu.Run.{Run, done, abort, fault}
use mayfly_emu.Inst.Pattern.{codes}
use mayfly_emu.Expr.Token.{Pcre, Rule, rules, Token, Tokens, tk_notype, find_rule}
use mayfly_emu.Expr.Eval.Grammar.{token, Holds}

-- What the code relies on of pcre: a match of one of the patterns, none of which matches the empty
-- text, has a character and lies in the text.
abbrev pub Progress : Pcre → List Rule → Type 0
Progress pcre [] = Unit {0}
Progress pcre (r ∷ rs) =
    ((e : List ℕ) (from to : ℕ)
      → pcre (codes r.regex) e ≡ some (from, to)
      → (from < to) × (to ≤ length e))
    × Progress pcre rs

-- The text of pieces with a rest behind them.
abbrev pub text_of : List Token → List ℕ → List ℕ
text_of [] rest = rest
text_of (x ∷ xs) rest = x.str ++ text_of xs rest

-- The pieces that are not spaces.
abbrev pub visible : List Token → List Token
visible [] = []
visible (x ∷ xs) = if x.type == tk_notype then visible xs else x ∷ visible xs

-- Every piece has a character and fits into a token's array.
abbrev pub AllFit : List Token → Type 0
AllFit [] = Unit {0}
AllFit (x ∷ xs) = (1 ≤ length x.str) × (length x.str ≤ 31) × AllFit xs

-- A rule matches at the front of the text with that length, or does not match there at all.
abbrev pub MatchesFront : Pcre → Rule → List ℕ → ℕ → Type 0
MatchesFront pcre r e len = pcre (codes r.regex) e ≡ some (0, len)

abbrev pub MissesFront : Pcre → Rule → List ℕ → Type 0
MissesFront pcre r e = (len : ℕ) → pcre (codes r.regex) e ≢ some (0, len)

-- The first of the rules that matches at the front does so on the piece, and gives its type.
abbrev pub FirstMatch : Pcre → List Rule → List ℕ → Token → Type 0
FirstMatch pcre [] e x = ⊥
FirstMatch pcre (r ∷ rs) e x =
    (MatchesFront pcre r e (length x.str) × (x.type ≡ r.token_type))
    ⊎ (MissesFront pcre r e × FirstMatch pcre rs e x)

-- No rule matches at the front.
abbrev pub NoMatch : Pcre → List Rule → List ℕ → Type 0
NoMatch pcre [] e = Unit {0}
NoMatch pcre (r ∷ rs) e = MissesFront pcre r e × NoMatch pcre rs e

-- Each piece is what the first matching rule takes from the text that the pieces before it leave.
abbrev pub AllMatch : Pcre → List Token → List ℕ → Type 0
AllMatch pcre [] rest = Unit {0}
AllMatch pcre (x ∷ xs) rest =
    FirstMatch pcre rules (text_of (x ∷ xs) rest) x × AllMatch pcre xs rest

-- The text `e` was split into the tokens of `t'` from the number `k` on, those before it being kept.
pub record Split (pcre : Pcre) (k : ℕ) (e : List ℕ) (t t' : Tokens) : Type 0 where
  pub pieces : List Token
  pub whole : text_of pieces [] ≡ e
  pub held : Holds t'.tokens k (visible pieces)
  pub number : t'.nr_token ≡ k + length (visible pieces)
  pub kept : (j : ℕ) → j < k → t'.tokens j ≡ t.tokens j
  pub fit : AllFit pieces
  pub matched : AllMatch pcre pieces []

-- Behind some pieces the text has a rest, not empty, at which no rule matches.
pub record Stuck (pcre : Pcre) (e : List ℕ) : Type 0 where
  pub pieces : List Token
  pub rest : List ℕ
  pub whole : text_of pieces rest ≡ e
  pub matched : AllMatch pcre pieces rest
  pub more : 1 ≤ length rest
  pub no_rule : NoMatch pcre rules rest

-- Behind some pieces comes one that does not fit into a token's array.
pub record TooLong (pcre : Pcre) (e : List ℕ) : Type 0 where
  pub pieces : List Token
  pub rest : List ℕ
  pub whole : text_of pieces rest ≡ e
  pub matched : AllMatch pcre pieces rest
  pub piece : Token
  pub first : FirstMatch pcre rules rest piece
  pub long : 31 < length piece.str

abbrev pub Answers : Pcre → ℕ → List ℕ → Tokens → Bool → Tokens → Type 0
Answers pcre k e t true t' = Split pcre k e t t'
Answers pcre k e t false t' = Stuck pcre e

-- The outcome: it succeeds with the text split, fails where no rule matches, or aborts for a token that
-- is too long.
abbrev pub Outcome : Pcre → ℕ → List ℕ → Tokens → Run (Bool × Tokens) → Type 0
Outcome pcre k e t (done r) = Answers pcre k e t r.0 r.1
Outcome pcre k e t abort = TooLong pcre e
Outcome pcre k e t fault = ⊥

pub find_rule-Progress :
    (pcre : Pcre) (rs : List Rule) (e : List ℕ) (type len : ℕ)
    → Progress pcre rs
    → find_rule pcre rs e ≡ some (type, len)
    → (1 ≤ len) × (len ≤ length e)
unfolding find_rule
find_rule-Progress pcre [] e type len h q = cc
find_rule-Progress pcre (r ∷ rs) e type len h q = elim (Option-cases (pcre (codes r.regex) e)) [
  | inl miss ↦ find_rule-Progress pcre rs e type len h.1 (rw (miss, find_rule) at q)
  | inr (range, hit) ↦ elim (Bool-cases (range.0 == 0)) [
    | inl zero_at ↦
        let same : ◌≡◌ {A = Option (ℕ × ℕ)} (some (r.token_type, range.1)) (some (type, len)) =
          rw (hit, zero_at, find_rule) at q in
        let b = h.0 e range.0 range.1 hit in ground (arith)
    | inr later ↦ find_rule-Progress pcre rs e type len h.1 (rw (hit, later, find_rule) at q)
  ]
]

-- What the search for a rule says of the rules.
front-none :
    (pcre : Pcre) (r : Rule) (e : List ℕ) → pcre (codes r.regex) e ≡ none → MissesFront pcre r e
front-none pcre r e h len q =
    let clash : ◌≡◌ {A = Option (ℕ × ℕ)} none (some (0, len)) = sym h ∙ q in cc

front-later :
    (pcre : Pcre) (r : Rule) (e : List ℕ) (range : ℕ × ℕ)
    → pcre (codes r.regex) e ≡ some range
    → (range.0 == 0) ≡ false
    → MissesFront pcre r e
front-later pcre r e range hit later len q =
    let same : ◌≡◌ {A = Option (ℕ × ℕ)} (some range) (some (0, len)) = sym hit ∙ q in ground arith

pub find_rule-FirstMatch :
    (pcre : Pcre) (rs : List Rule) (e : List ℕ) (type len : ℕ)
    → find_rule pcre rs e ≡ some (type, len)
    → length (take len e) ≡ len
    → FirstMatch pcre rs e (token type (take len e))
unfolding find_rule
find_rule-FirstMatch pcre [] e type len q n = cc
find_rule-FirstMatch pcre (r ∷ rs) e type len q n = elim (Option-cases (pcre (codes r.regex) e)) [
  | inl none_at ↦ inr (
    front-none pcre r e none_at,
    find_rule-FirstMatch pcre rs e type len (rw (none_at, find_rule) at q) n,
  )
  | inr (range, hit) ↦ elim (Bool-cases (range.0 == 0)) [
    | inl zero_at ↦
        let same : ◌≡◌ {A = Option (ℕ × ℕ)} (some (r.token_type, range.1)) (some (type, len)) =
          rw (hit, zero_at, find_rule) at q in
        let from : range.0 ≡ 0 = ground arith in
        let to : range.1 ≡ length (take len e) = ground arith in
        inl (hit ∙ ap₂ (λ (a b : ℕ). some (a, b)) from to, ground arith)
    | inr later ↦ inr (
      front-later pcre r e range hit later,
      find_rule-FirstMatch pcre rs e type len (rw (hit, later, find_rule) at q) n,
    )
  ]
]

pub find_rule-NoMatch :
    (pcre : Pcre) (rs : List Rule) (e : List ℕ) → find_rule pcre rs e ≡ none → NoMatch pcre rs e
unfolding find_rule
find_rule-NoMatch pcre [] e q = tt
find_rule-NoMatch pcre (r ∷ rs) e q = elim (Option-cases (pcre (codes r.regex) e)) [
  | inl none_at ↦
      (front-none pcre r e none_at, find_rule-NoMatch pcre rs e (rw (none_at, find_rule) at q))
  | inr (range, hit) ↦ elim (Bool-cases (range.0 == 0)) [
    | inl zero_at ↦
        let same : ◌≡◌ {A = Option (ℕ × ℕ)} (some (r.token_type, range.1)) none =
          rw (hit, zero_at, find_rule) at q in
        cc
    | inr later ↦ (
      front-later pcre r e range hit later,
      find_rule-NoMatch pcre rs e (rw (hit, later, find_rule) at q),
    )
  ]
]

-- A token put at the end of the array.
abbrev pub added : Token → Tokens → Tokens
added x t = record t { tokens = update t.tokens t.nr_token x; nr_token = t.nr_token + 1 }

added-here : (x : Token) (t : Tokens) → (added x t).tokens t.nr_token ≡ x
added-here x t = let same : (t.nr_token == t.nr_token) ≡ true = ground arith in rw same refl

added-other : (x : Token) (t : Tokens) (j : ℕ) → j < t.nr_token → (added x t).tokens j ≡ t.tokens j
added-other x t j h = let off : (t.nr_token == j) ≡ false = ground arith in rw off refl

pub fits-piece :
    (len : ℕ) (e : List ℕ)
    → 1 ≤ len
    → len ≤ length e
    → leb len 31 ≡ true
    → (1 ≤ length (take len e)) × (length (take len e) ≤ 31)
fits-piece len e a b c = omega (arith, length-take len e b, leb→le len 31 c)

-- A piece in front of a split rest: spaces, and a token.
behind-piece : (len : ℕ) (e : List ℕ) {rest : List ℕ} → rest ≡ drop len e → take len e ++ rest ≡ e
behind-piece len e r = ap (λ (l : List ℕ). take len e ++ l) r ∙ append-take-drop len e

match-whole :
    (pcre : Pcre) (len : ℕ) (e rest : List ℕ) (x : Token)
    → rest ≡ drop len e
    → x.str ≡ take len e
    → FirstMatch pcre rules e x
    → FirstMatch pcre rules (x.str ++ rest) x
match-whole pcre len e rest x r q f =
    subst (λ (l : List ℕ). FirstMatch pcre rules l x)
      (sym (ap₂ (λ (a b : List ℕ). a ++ b) q r ∙ append-take-drop len e)) f

pub Split-space :
    (pcre : Pcre) (k len : ℕ) (e : List ℕ) (t t' : Tokens)
    → (1 ≤ length (take len e)) × (length (take len e) ≤ 31)
    → FirstMatch pcre rules e (token tk_notype (take len e))
    → Split pcre k (drop len e) t t'
    → Split pcre k e t t'
Split-space pcre k len e t t' f m s =
    let x = token tk_notype (take len e) in
    record {
      pieces = x ∷ s.pieces;
      whole = behind-piece len e s.whole;
      held = s.held;
      number = s.number;
      kept = s.kept;
      fit = (f.0, f.1, s.fit);
      matched = (match-whole pcre len e (text_of s.pieces []) x s.whole refl m, s.matched);
    }

pub Split-token :
    (pcre : Pcre) (k type len : ℕ) (e : List ℕ) (t t' : Tokens)
    → (type == tk_notype) ≡ false
    → t.nr_token ≡ k
    → (1 ≤ length (take len e)) × (length (take len e) ≤ 31)
    → FirstMatch pcre rules e (token type (take len e))
    → Split pcre (k + 1) (drop len e) (added (token type (take len e)) t) t'
    → Split pcre k e t t'
Split-token pcre k type len e t t' v n f m s =
    let x = token type (take len e) in
    record {
      pieces = x ∷ s.pieces;
      whole = behind-piece len e s.whole;
      held = rw v (
        s.kept k (omega arith) ∙ subst (λ (i : ℕ). (added x t).tokens i ≡ x) n (added-here x t),
        s.held,
      );
      number = rw v (s.number ∙ omega arith);
      kept = λ j h. s.kept j (omega arith) ∙ added-other x t j (omega arith);
      fit = (f.0, f.1, s.fit);
      matched = (match-whole pcre len e (text_of s.pieces []) x s.whole refl m, s.matched);
    }

Stuck-later :
    (pcre : Pcre) (type len : ℕ) (e : List ℕ)
    → FirstMatch pcre rules e (token type (take len e))
    → Stuck pcre (drop len e)
    → Stuck pcre e
Stuck-later pcre type len e m s =
    let x = token type (take len e) in
    record {
      pieces = x ∷ s.pieces;
      rest = s.rest;
      whole = behind-piece len e s.whole;
      matched = (match-whole pcre len e (text_of s.pieces s.rest) x s.whole refl m, s.matched);
      more = s.more;
      no_rule = s.no_rule;
    }

TooLong-later :
    (pcre : Pcre) (type len : ℕ) (e : List ℕ)
    → FirstMatch pcre rules e (token type (take len e))
    → TooLong pcre (drop len e)
    → TooLong pcre e
TooLong-later pcre type len e m s =
    let x = token type (take len e) in
    record {
      pieces = x ∷ s.pieces;
      rest = s.rest;
      whole = behind-piece len e s.whole;
      matched = (match-whole pcre len e (text_of s.pieces s.rest) x s.whole refl m, s.matched);
      piece = s.piece;
      first = s.first;
      long = s.long;
    }

-- The outcome for the rest gives that for the whole.
pub Outcome-step :
    (pcre : Pcre) (k k' type len : ℕ) (e : List ℕ) (t t1 : Tokens) (r : Run (Bool × Tokens))
    → FirstMatch pcre rules e (token type (take len e))
    → ((t' : Tokens) → Split pcre k' (drop len e) t1 t' → Split pcre k e t t')
    → Outcome pcre k' (drop len e) t1 r
    → Outcome pcre k e t r
Outcome-step pcre k k' type len e t t1 (done (true, t')) m f o = f t' o
Outcome-step pcre k k' type len e t t1 (done (false, t')) m f o = Stuck-later pcre type len e m o
Outcome-step pcre k k' type len e t t1 abort m f o = TooLong-later pcre type len e m o
Outcome-step pcre k k' type len e t t1 fault m f o = o

-- At the start of the array nothing is kept.
pub Outcome-start :
    (pcre : Pcre) (e : List ℕ) (t t0 : Tokens) (r : Run (Bool × Tokens))
    → Outcome pcre 0 e t0 r
    → Outcome pcre 0 e t r
Outcome-start pcre e t t0 (done (true, t')) s = record {
  pieces = s.pieces;
  whole = s.whole;
  held = s.held;
  number = s.number;
  kept = λ j h. absurd (omega arith);
  fit = s.fit;
  matched = s.matched;
}
Outcome-start pcre e t t0 (done (false, t')) s = s
Outcome-start pcre e t t0 abort s = s
Outcome-start pcre e t t0 fault s = s
