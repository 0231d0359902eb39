-- ===== src/Monitor/Ended.antt =====
-- The commands that run the program, where it has ended.
use mayfly_emu.Prelude.{ℕ, ◌≡◌, refl, true, false, some, none, List}
use mayfly_emu.Run.{Run, done, and_then}
use mayfly_emu.Machine.{Machine, set_status, Status, running, stop, end, abort_status, quit}
use mayfly_emu.Emulator.{cpu_exec, cpu_exec_from, execute, before_run, after_run}
use mayfly_emu.Expr.Number.{atoi}
use mayfly_emu.Monitor.{Monitor, Line, cmd_c, cmd_si, is_positive}

-- The program has ended or was aborted.
abbrev pub Over : Status → Type 0
Over end = Unit {0}
Over abort_status = Unit {0}
Over _ = ⊥

Over-cases : (st : Status) → Over st → before_run st ≡ none
Over-cases end h = refl
Over-cases abort_status h = refl
Over-cases running h = absurd h
Over-cases stop h = absurd h
Over-cases quit h = absurd h

Over-not_running : (st : Status) → Over st → mayfly_emu.Emulator.is_running st ≡ false
Over-not_running end h = refl
Over-not_running abort_status h = refl
Over-not_running running h = absurd h
Over-not_running stop h = absurd h
Over-not_running quit h = absurd h

cpu_exec-Over :
    (n : ℕ) (l : Line) (m : Machine)
    → Over m.emu.state
    → cpu_exec n l.inputs l.local m ≡ done (tt, m)
unfolding cpu_exec
cpu_exec-Over n l m h = rw (Over-cases m.emu.state h) refl

-- Once the program has ended or was aborted, `c`, and `si` without a number, change nothing. But `si`
-- with a number sets the emulator running again and executes further instructions.
pub cmd_si-Over :
    (args : List ℕ) (l : Line) (s : Monitor)
    → Over s.machine.emu.state
    → is_positive (atoi args) ≡ true
    → (cmd_c l s ≡ done s)
      × (cmd_si none l s ≡ done s)
      × (cmd_si (some args) l s
          ≡ and_then {A = Unit {0} × Machine}
              (execute (atoi args) l.inputs l.local (set_status running s.machine))
              (λ r. done (record s { machine = set_status (after_run r.1.emu.state) r.1 })))
unfolding cmd_c cmd_si cpu_exec
cmd_si-Over args l s h n = (
  rw (Over-cases s.machine.emu.state h) refl,
  rw (Over-cases s.machine.emu.state h) refl,
  rw (n, Over-not_running s.machine.emu.state h)
      (regroup (execute (atoi args) l.inputs l.local (set_status running s.machine))),
)
  where
    regroup :
        (x : Run (Unit {0} × Machine))
        → and_then {A = Unit {0} × Machine}
            (and_then {A = Unit {0} × Machine} x
              λ r. done (tt, set_status (after_run r.1.emu.state) r.1))
            (λ r. done (record s { machine = r.1 }))
          ≡ and_then {A = Unit {0} × Machine} x
              (λ r. done (record s { machine = set_status (after_run r.1.emu.state) r.1 }))
    regroup (done r) = refl
    regroup Run.abort = refl
    regroup Run.fault = refl
