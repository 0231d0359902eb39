-- ===== src/Expr/Token/Ends.antt =====
-- `make_token` of mayfly_emu/monitor/expr.c comes to an end, with the text split.
use mathlib.Core.Path.{subst}
use mayfly_emu.Prelude.{
  ℕ, zero, suc, ◌+◌, ◌<◌, ◌≤◌, ◌≡◌, refl, inl, inr, arith, Bool-cases, Option-cases,
}
use mayfly_emu.Prelude.{true, false, ltb, leb, lt→ltb, ◌==◌, ==_iff, length-take, none, some}
use mayfly_emu.Prelude.{List, [], ◌∷◌, length, take, drop, length-drop}
use mayfly_emu.Run.{done, abort}
use mayfly_emu.Expr.Token.{
  Pcre, rules, Tokens, tk_notype, find_rule, add_token, make_loop, make_token,
}
use mayfly_emu.Expr.Eval.Grammar.{token}
use mayfly_emu.Expr.Token.Pieces.{
  Progress, Outcome, FirstMatch, added, find_rule-Progress, find_rule-FirstMatch, find_rule-NoMatch,
  fits-piece, Split-space, Split-token, Outcome-step, Outcome-start,
}

module _ (fuel : ℕ) (pcre : Pcre) (c : ℕ) (e : List ℕ) (t : Tokens) where
  loop-miss :
      find_rule pcre rules (c ∷ e) ≡ none → make_loop (suc fuel) pcre (c ∷ e) t ≡ done (false, t)
  unfolding make_loop
  loop-miss miss = rw (miss, make_loop) refl

  module _ (type len : ℕ) (hit : find_rule pcre rules (c ∷ e) ≡ some (type, len)) where
    loop-long : leb len 31 ≡ false → make_loop (suc fuel) pcre (c ∷ e) t ≡ abort
    unfolding make_loop
    loop-long long = rw (hit, make_loop, long) refl

    loop-space :
        leb len 31 ≡ true
        → (type == tk_notype) ≡ true
        → make_loop (suc fuel) pcre (c ∷ e) t ≡ make_loop fuel pcre (drop len (c ∷ e)) t
    unfolding make_loop add_token
    loop-space fits space = rw (hit, make_loop, fits, space) refl

    loop-token :
        leb len 31 ≡ true
        → (type == tk_notype) ≡ false
        → ltb t.nr_token 1000 ≡ true
        → make_loop (suc fuel) pcre (c ∷ e) t
          ≡ make_loop fuel pcre (drop len (c ∷ e)) (added (token type (take len (c ∷ e))) t)
    unfolding make_loop add_token
    loop-token fits shown room = rw (hit, make_loop, fits, shown, room) refl

too_long : (len : ℕ) (e : List ℕ) → leb len 31 ≡ false → len ≤ length e → 31 < length (take len e)
too_long len e long h =
    let n = length-take len e h in let more : 31 < len = ground arith in omega (arith, n)

make_loop-nil : (fuel : ℕ) (pcre : Pcre) (t : Tokens) → make_loop fuel pcre [] t ≡ done (true, t)
unfolding make_loop
make_loop-nil zero pcre t = refl
make_loop-nil (suc fuel) pcre t = refl

make_loop-Outcome :
    (fuel : ℕ) (pcre : Pcre) (e : List ℕ) (t : Tokens) (k : ℕ)
    → Progress pcre rules
    → length e ≤ fuel
    → t.nr_token ≡ k
    → k + length e ≤ 1000
    → Outcome pcre k e t (make_loop fuel pcre e t)
make_loop-Outcome fuel pcre [] t k pr f n b = rw (make_loop-nil fuel pcre t) (record {
  pieces = [];
  whole = refl;
  held = tt;
  number = omega arith;
  kept = λ j h. refl;
  fit = tt;
  matched = tt;
})
make_loop-Outcome zero pcre (c ∷ e) t k pr f n b = absurd (omega arith)
make_loop-Outcome (suc fuel) pcre (c ∷ e) t k pr f n b =
    elim (Option-cases (find_rule pcre rules (c ∷ e))) [
      | inl miss ↦ rw (loop-miss fuel pcre c e t miss) (record {
        pieces = [];
        rest = c ∷ e;
        whole = refl;
        matched = tt;
        more = omega arith;
        no_rule = find_rule-NoMatch pcre rules (c ∷ e) miss;
      })
      | inr (r, hit) ↦
          let p = find_rule-Progress pcre rules (c ∷ e) r.0 r.1 pr hit in
          let chosen =
            find_rule-FirstMatch pcre rules (c ∷ e) r.0 r.1 hit (length-take r.1 (c ∷ e) p.1) in
          let shorter = length-drop r.1 (c ∷ e) in
          let rest = drop r.1 (c ∷ e) in
          elim (Bool-cases (leb r.1 31)) [
            | inr long ↦ rw (loop-long fuel pcre c e t r.0 r.1 hit long) (record {
              pieces = [];
              rest = c ∷ e;
              whole = refl;
              matched = tt;
              piece = token r.0 (take r.1 (c ∷ e));
              first = chosen;
              long = too_long r.1 (c ∷ e) long p.1;
            })
            | inl fits ↦
                let piece = fits-piece r.1 (c ∷ e) p.0 p.1 fits in
                elim (Bool-cases (r.0 == tk_notype)) [
                  | inl space ↦ rw (loop-space fuel pcre c e t r.0 r.1 hit fits space) (
                      Outcome-step pcre k k r.0 r.1 (c ∷ e) t t (make_loop fuel pcre rest t) chosen
                        (λ t' s.
                          Split-space pcre k r.1 (c ∷ e) t t' piece
                            (subst
                              (λ (type : ℕ).
                                FirstMatch pcre rules (c ∷ e) (token type (take r.1 (c ∷ e))))
                              ((==_iff r.0 tk_notype).0 space) chosen)
                            s)
                        (make_loop-Outcome fuel pcre rest t k pr (omega arith) n (omega arith)))
                  | inr shown ↦
                      let t1 = added (token r.0 (take r.1 (c ∷ e))) t in
                      let room = lt→ltb t.nr_token 1000 (omega arith) in
                      rw (loop-token fuel pcre c e t r.0 r.1 hit fits shown room) (
                        Outcome-step pcre k (k + 1) r.0 r.1 (c ∷ e) t t1
                          (make_loop fuel pcre rest t1) chosen
                          (λ t' s. Split-token pcre k r.0 r.1 (c ∷ e) t t' shown n piece chosen s)
                          (make_loop-Outcome fuel pcre rest t1 (k + 1) pr (omega arith)
                            (omega arith) (omega arith)))
                ]
          ]
    ]

-- A text of up to 1000 characters is read to its end, with no access outside of the arrays: it is
-- split into pieces of 1 to 31 characters, each of them what the first of the rules that match there
-- takes, with the type of that rule, and the array has those whose type is not that of spaces, in
-- order; or the answer is false, and behind some such pieces there is more text, at whose front no rule
-- matches; or the assertion fails, and behind some such pieces comes one of more than 31 characters.
pub make_token-Outcome :
    (pcre : Pcre) (e : List ℕ) (t : Tokens)
    → Progress pcre rules
    → length e ≤ 1000
    → Outcome pcre 0 e t (make_token pcre (some e) t)
unfolding make_token
make_token-Outcome pcre e t pr b =
    let t0 = record t { nr_token = 0 } in
    Outcome-start pcre e t t0 (make_loop (length e) pcre e t0)
      (make_loop-Outcome (length e) pcre e t0 0 pr (omega arith) refl (omega arith))
