-- ===== src/Tests/Sessions.antt =====
-- The start of the emulator and sessions with its monitor.
use mayfly_emu.Prelude.{ℕ, ◌≡◌, refl, arith, Bool, true, false, none, some, List, [], ◌∷◌}
use mayfly_emu.Run.{Run, done, abort, fault, and_then}
use mayfly_emu.Cpu.{restart}
use mayfly_emu.Machine.{Machine, set_status, end, running}
use mayfly_emu.Watchpoint.{WpPool, init_wp_pool}
use mayfly_emu.Inst.Pattern.{codes}
use mayfly_emu.Inst.Exec.{Decode}
use mayfly_emu.Emulator.{Input, execute, after_run}
use mayfly_emu.Expr.Number.{atoi}
use mayfly_emu.Monitor.{Monitor, Line, cmd_c, cmd_si, sdb_mainloop, init_sdb}
use mayfly_emu.Monitor.Sessions.{Sound, sdb_mainloop-Sound}
use mayfly_emu.Monitor.Ended.{cmd_si-Over}
use mayfly_emu.Startup.{Arguments, boot}
use mayfly_emu.Startup.Layout.{layout, args, at_reset, boot-layout}
use mayfly_emu.Tests.Base.{machine}
use mayfly_emu.Tests.Expr.{matcher, no_tokens}

abbrev quiet : ℕ → Input
quiet i = record { rx = none; key = none }

abbrev local : Decode
local = record { pc = 0; snpc = 0; dnpc = 0; isa = 0 }

abbrev line : List ℕ → Line
line text = record { text = text; inputs = quiet; local = local }

-- A watchpoint is set, and deleted; one more is set; the monitor is left.
abbrev lines : List Line
lines =
    line (codes "w 3*(1+2)")
    ∷ line (codes "p 7")
    ∷ line (codes "d 0")
    ∷ line (codes "w 5")
    ∷ line (codes "q")
    ∷ line (codes "d 0")
    ∷ []

abbrev blank : WpPool
blank = record {
  wp_pool = λ i. record { number = 0; next = none; expr_str = []; old_value = 0 };
  head = none;
  free_ = none;
}

abbrev monitor : Monitor
monitor = record { machine = machine; pool = blank; tokens = no_tokens }

abbrev state_of : Run (Bool × Monitor) → Bool × Monitor
state_of (done r) = r
state_of abort = (false, monitor)
state_of fault = (false, monitor)

abbrev session : Run (Bool × Monitor)
session = sdb_mainloop 50 matcher lines (init_sdb monitor)

session_ends : session ≡ done (state_of session)
unfolding sdb_mainloop init_wp_pool
session_ends = refl

session_quits : (state_of session).0 ≡ true
unfolding sdb_mainloop init_wp_pool
session_quits = refl

sdb_mainloop-Sound_example : Sound (state_of session).1.pool
sdb_mainloop-Sound_example =
    sdb_mainloop-Sound 50 matcher lines monitor (state_of session) session_ends

-- The program has ended.
abbrev over : Monitor
over = record monitor { machine = set_status end machine }

cmd_si-Over_example :
    (cmd_c (line (codes "si 2")) over ≡ done over)
    × (cmd_si none (line (codes "si 2")) over ≡ done over)
    × (cmd_si (some (codes "2")) (line (codes "si 2")) over
        ≡ and_then {A = Unit {0} × Machine}
            (execute 2 quiet local (set_status running over.machine))
            (λ r. done (record over { machine = set_status (after_run r.1.emu.state) r.1 })))
unfolding atoi
cmd_si-Over_example = cmd_si-Over (codes "2") (line (codes "si 2")) over tt refl

-- An image and a kernel.
abbrev two_files : Arguments
two_files = args (some (1 ∷ 2 ∷ [])) (some (3 ∷ [])) none

boot-layout_example :
    (boot two_files machine
      ≡ done (record (at_reset machine) {
        pmem = layout (some (1 ∷ 2 ∷ [])) (some (3 ∷ [])) none (at_reset machine).pmem;
      }))
    × ((at_reset machine).cpu ≡ restart machine.cpu)
boot-layout_example =
    boot-layout (some (1 ∷ 2 ∷ [])) (some (3 ∷ [])) none machine (omega arith) (omega arith) tt
