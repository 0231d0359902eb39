-- ===== src/Monitor.antt =====
-- The commands of the monitor: mayfly_emu/monitor/sdb.c, less what they print. A line of input comes
-- with what the steps that it starts find outside, and with the contents of the uninitialised local
-- `Decode` of `execute`. The texts are lists of characters.
pub mod Sessions
pub mod Ended
use Prim.Native.String.{String}
use mayfly_emu.Prelude.{ℕ, zero, suc, ◌+◌, ◌-◌, ◌*◌, ◌%◌, ◌^◌, Bool, true, false, not, ◌&&◌, ◌||◌}
use mayfly_emu.Prelude.{ltb, leb, ◌==◌, if◌then◌else◌, Option, none, some, List, [], ◌∷◌}
use mayfly_emu.Run.{Run, done, abort, fault, and_then, require}
use mayfly_emu.Machine.{Machine, M, set_status, running, Status}
use mayfly_emu.Memory.Paddr.{paddr_read}
use mayfly_emu.Inst.Pattern.{codes}
use mayfly_emu.Inst.Exec.{Decode}
use mayfly_emu.Emulator.{Input, cpu_exec, is_running}
use mayfly_emu.Watchpoint.{WpPool, init_wp_pool, create_watchpoint, delete_watchpoint}
use mayfly_emu.Expr.Number.{same_text, atoi, strtoul_16}
use mayfly_emu.Expr.Token.{Pcre, Token, Tokens}
use mayfly_emu.Expr.Eval.{expr}

pub record Monitor : Type 0 where
  pub machine : Machine
  pub pool : WpPool
  pub tokens : Tokens

pub record Line : Type 0 where
  pub text : List ℕ
  pub inputs : ℕ → Input
  pub local : Decode

-- `strtok` with a space for the delimiter: the first token, and what follows the space behind it.
abbrev skip_delimiters : List ℕ → List ℕ
skip_delimiters [] = []
skip_delimiters (c ∷ s) = if c == b' ' then skip_delimiters s else c ∷ s

abbrev pub cut : List ℕ → List ℕ × List ℕ
cut [] = ([], [])
cut (c ∷ s) = let r = cut s in if c == b' ' then ([], s) else (c ∷ r.0, r.1)

abbrev begin_token : List ℕ → Option (List ℕ × List ℕ)
begin_token [] = none
begin_token (c ∷ s) = some (cut (c ∷ s))

abbrev pub strtok : List ℕ → Option (List ℕ × List ℕ)
strtok s = begin_token (skip_delimiters s)

-- `strncmp(prefix, s, strlen(prefix)) == 0`.
abbrev pub starts_with : List ℕ → List ℕ → Bool
starts_with [] s = true
starts_with (_ ∷ _) [] = false
starts_with (a ∷ p) (b ∷ s) = a == b && starts_with p s

-- A positive `int`.
abbrev pub is_positive : ℕ → Bool
is_positive n = ltb 0 n && ltb n (2 ^ 31)

abbrev with_machine : Monitor → Machine → Monitor
with_machine s m = record s { machine = m }

-- The handlers answer the new state; that of `q` is in the main loop.
unfoldable pub cmd_c : Line → Monitor → Run Monitor
unfolding cpu_exec
cmd_c l s =
    and_then (cpu_exec (2 ^ 64 - 1) l.inputs l.local s.machine) λ r. done (with_machine s r.1)

unfoldable pub cmd_si : Option (List ℕ) → Line → Monitor → Run Monitor
unfolding cpu_exec
cmd_si none l s = and_then (cpu_exec 1 l.inputs l.local s.machine) λ r. done (with_machine s r.1)
cmd_si (some args) l s =
    let num = atoi args in
    let m = s.machine in
    let m' = if is_running m.emu.state then m else set_status running m in
    if not (is_positive num)
    then done s
    else and_then (cpu_exec num l.inputs l.local m') λ r. done (with_machine s r.1)

-- `info fr` calls the reference through a pointer that is null without a difference test.
unfoldable pub cmd_info : Option (List ℕ) → Monitor → Run Monitor
cmd_info none s = done s
cmd_info (some args) s =
    if starts_with (codes "r") args
    then done s
    else if starts_with (codes "w") args
    then done s
    else if starts_with (codes "csr") args
    then done s
    else if same_text (codes "fr") args
    then fault
    else done s

-- The reads of `cmd_x` from the round `i` on, `n` of them.
unfoldable pub scan : ℕ → ℕ → ℕ → Machine → Run Machine
unfolding paddr_read
scan zero i paddr m = done m
scan (suc n) i paddr m =
    let rest = scan n (i + 1) paddr in
    require (ltb (i * 4) (2 ^ 31))
      (and_then (paddr_read ((paddr + i * 4) % 2 ^ 64) 4 m) λ r. rest r.1)

-- The address, and the reads if it is one.
unfoldable pub scan_from : ℕ → Option (List ℕ × List ℕ) → Monitor → Run Monitor
unfolding scan strtoul_16
scan_from num none s = fault
scan_from num (some (str_addr, _)) s =
    let paddr = strtoul_16 str_addr in
    if paddr == 0 && not (starts_with (codes "0x00000000") str_addr)
    then done s
    else and_then (scan num 0 paddr s.machine) λ m. done (with_machine s m)

-- The number, and the rest if it is positive.
unfoldable pub scan_number : Option (List ℕ × List ℕ) → Monitor → Run Monitor
unfolding scan_from atoi
scan_number none s = fault
scan_number (some (str_num, rest)) s =
    if is_positive (atoi str_num) then scan_from (atoi str_num) (strtok rest) s else done s

unfoldable pub cmd_x : Option (List ℕ) → Monitor → Run Monitor
unfolding scan_number
cmd_x none s = done s
cmd_x (some args) s = scan_number (strtok args) s

-- The text that the element gets, `args`, is there wherever the expression has a value.
abbrev pub text_of : Option (List ℕ) → List ℕ
text_of none = []
text_of (some s) = s

module _ (stack : ℕ) (pcre : Pcre) where
  unfoldable pub cmd_p : Option (List ℕ) → Monitor → Run Monitor
  unfolding expr
  cmd_p args s =
      and_then (expr stack pcre args s.tokens s.machine)
        λ r. done (record s { machine = r.1; tokens = r.0.1 })

  unfoldable pub cmd_w : Option (List ℕ) → Monitor → Run Monitor
  unfolding expr create_watchpoint
  cmd_w args s = and_then (expr stack pcre args s.tokens s.machine) λ r.
      and_then (create_watchpoint (λ _. r.0.0) (text_of args) s.pool)
        λ pool. done (record s { machine = r.1; tokens = r.0.1; pool = pool })

-- Without an argument `atoi` reads a null pointer.
unfoldable pub cmd_d : Option (List ℕ) → Monitor → Run Monitor
unfolding atoi delete_watchpoint
cmd_d none s = fault
cmd_d (some args) s =
    let num = atoi args in
    if leb 32 num && ltb num (2 ^ 31)
    then done s
    else and_then (delete_watchpoint num s.pool) λ pool. done (record s { pool = pool })

pub data Command : Type 0 where
  help c q si info x p w d : Command

abbrev pub cmd_table : List (String × Command)
cmd_table =
    ("help", help)
    ∷ ("c", c)
    ∷ ("q", q)
    ∷ ("si", si)
    ∷ ("info", info)
    ∷ ("x", x)
    ∷ ("p", p)
    ∷ ("w", w)
    ∷ ("d", d)
    ∷ []

unfoldable pub find_command : List (String × Command) → List ℕ → Option Command
find_command [] cmd = none
find_command (r ∷ rs) cmd =
    let rest = find_command rs cmd in if same_text cmd (codes r.0) then some r.1 else rest

-- What is left behind the command; nothing is a null pointer.
abbrev pub args_of : List ℕ → Option (List ℕ)
args_of [] = none
args_of (a ∷ s) = some (a ∷ s)

-- The handler of a command, with the answer 255 of `q` as a Boolean.
unfoldable pub handler :
    ℕ → Pcre → Command → Option (List ℕ) → Line → Monitor → Run (Bool × Monitor)
unfolding cmd_c cmd_si cmd_info cmd_x cmd_p cmd_w cmd_d
handler stack pcre help args l s = done (false, s)
handler stack pcre c args l s = and_then (cmd_c l s) λ s'. done (false, s')
handler stack pcre q args l s = done (true, s)
handler stack pcre si args l s = and_then (cmd_si args l s) λ s'. done (false, s')
handler stack pcre info args l s = and_then (cmd_info args s) λ s'. done (false, s')
handler stack pcre x args l s = and_then (cmd_x args s) λ s'. done (false, s')
handler stack pcre p args l s = and_then (cmd_p stack pcre args s) λ s'. done (false, s')
handler stack pcre w args l s = and_then (cmd_w stack pcre args s) λ s'. done (false, s')
handler stack pcre d args l s = and_then (cmd_d args s) λ s'. done (false, s')

-- One line: whether the monitor quits, and the state.
unfoldable pub run_line : ℕ → Pcre → Line → Monitor → Run (Bool × Monitor)
unfolding find_command handler
run_line stack pcre l s = elim (strtok l.text) [
  | none ↦ done (false, s)
  | some (cmd, rest) ↦ elim (find_command cmd_table cmd) [
    | none ↦ done (false, s)
    | some command ↦ handler stack pcre command (args_of rest) l s
  ]
]

-- The lines up to the end of the input; `exit(0)` is the answer true.
unfoldable pub sdb_mainloop : ℕ → Pcre → List Line → Monitor → Run (Bool × Monitor)
unfolding run_line
sdb_mainloop stack pcre [] s = done (false, s)
sdb_mainloop stack pcre (l ∷ ls) s =
    and_then (run_line stack pcre l s)
      λ r. elim (r.0) [ true ↦ done (true, r.1) | false ↦ sdb_mainloop stack pcre ls r.1 ]

-- `init_sdb`, less the compilation of the patterns.
abbrev pub init_sdb : Monitor → Monitor
init_sdb s = record s { pool = init_wp_pool s.pool }
