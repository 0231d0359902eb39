-- ===== src/Expr/Token.antt =====
-- The tokens of a text: `make_token` of mayfly_emu/monitor/expr.c. The regular expressions of pcre are
-- a parameter: where a pattern first matches in a text, from and to, or none. What follows
-- `e + position` is a list. A loop that a match of no character keeps from ending counts as a fault.
pub mod Pieces
pub mod Ends
use Prim.Native.String.{String}
use mayfly_emu.Prelude.{
  ℕ, zero, suc, ◌+◌, ◌-◌, Bool, true, false, ltb, leb, ◌==◌, if◌then◌else◌, update,
}
use mayfly_emu.Prelude.{Option, none, some, List, [], ◌∷◌, length, take, drop}
use mayfly_emu.Run.{Run, done, fault, and_then, assert, require}
use mayfly_emu.Inst.Pattern.{codes}

-- The types of tokens; 0 is that of an element of the array that was never written.
abbrev pub tk_notype : ℕ
tk_notype = 256

abbrev pub tk_eq : ℕ
tk_eq = 257

abbrev pub tk_num : ℕ
tk_num = 258

abbrev pub tk_hex_num : ℕ
tk_hex_num = 259

abbrev pub tk_reg : ℕ
tk_reg = 260

abbrev pub tk_deref : ℕ
tk_deref = 261

abbrev pub tk_neq : ℕ
tk_neq = 262

abbrev pub tk_and : ℕ
tk_and = 263

abbrev pub tk_csr_reg : ℕ
tk_csr_reg = 264

pub record Rule : Type 0 where
  pub regex : String
  pub token_type : ℕ

abbrev rule : String → ℕ → Rule
rule regex token_type = record { regex = regex; token_type = token_type }

abbrev pub rules : List Rule
rules =
    rule "\\*" b'*'
    ∷ rule "\\/" b'/'
    ∷ rule "\\-" b'-'
    ∷ rule "\\)" b')'
    ∷ rule "\\(" b'('
    ∷ rule " +" tk_notype
    ∷ rule "\\+" b'+'
    ∷ rule "==" tk_eq
    ∷ rule "!=" tk_neq
    ∷ rule "&&" tk_and
    ∷ rule "0x[0-9]+" tk_hex_num
    ∷ rule "[0-9]+" tk_num
    ∷ rule "\\$[a-z]{0,2}(?:[0-9]|[1-9][0-9]|)" tk_reg
    ∷ rule "\\$csr_(?:[12][0-9]|[0-9]|30|31)" tk_csr_reg
    ∷ []

abbrev pub Pcre : Type 0
Pcre = List ℕ → List ℕ → Option (ℕ × ℕ)

pub record Token : Type 0 where
  pub type : ℕ
  pub str : List ℕ

pub record Tokens : Type 0 where
  pub tokens : ℕ → Token
  pub nr_token : ℕ

-- A match at the front of the text, and its length.
abbrev pub at_front : Option (ℕ × ℕ) → Option ℕ
at_front none = none
at_front (some (from, to)) = if from == 0 then some to else none

-- The first rule that matches at the front: its type and the length.
unfoldable pub find_rule : Pcre → List Rule → List ℕ → Option (ℕ × ℕ)
find_rule pcre [] e = none
find_rule pcre (r ∷ rs) e =
    let rest = find_rule pcre rs e in
    elim (at_front (pcre (codes r.regex) e)) [ none ↦ rest | some len ↦ some (r.token_type, len) ]

-- The switch on the type: spaces are dropped, all else is put at the end of the array.
unfoldable pub add_token : ℕ → List ℕ → Tokens → Run Tokens
add_token type str t =
    if type == tk_notype
    then done t
    else require (ltb t.nr_token 1000) (
        done (record t {
          tokens = update t.tokens t.nr_token (record { type = type; str = str });
          nr_token = t.nr_token + 1;
        }))

unfoldable pub make_loop : ℕ → Pcre → List ℕ → Tokens → Run (Bool × Tokens)
unfolding find_rule add_token
make_loop fuel pcre [] t = done (true, t)
make_loop zero pcre (c ∷ e) t = fault
make_loop (suc fuel) pcre (c ∷ e) t = elim (find_rule pcre rules (c ∷ e)) [
  | none ↦ done (false, t)
  | some (type, len) ↦ assert (leb len 31) (
      and_then (add_token type (take len (c ∷ e)) t)
        λ t'. make_loop fuel pcre (drop len (c ∷ e)) t')
]

unfoldable pub make_token : Pcre → Option (List ℕ) → Tokens → Run (Bool × Tokens)
unfolding make_loop
make_token pcre none t = done (false, t)
make_token pcre (some e) t = make_loop (length e) pcre e (record t { nr_token = 0 })
