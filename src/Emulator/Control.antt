-- ===== src/Emulator/Control.antt =====
-- The states of the run loop: `cpu_exec` of mayfly_emu/cpu/cpu-exec.c.
use mathlib.Core.Path.{subst}
use mayfly_emu.Prelude.{ℕ, ◌≡◌, Option, none, some}
use mayfly_emu.Run.{Run, done, abort, fault, and_then}
use mayfly_emu.Machine.{Machine, Status, running, stop, end, abort_status, quit, set_status}
use mayfly_emu.Inst.Exec.{Decode}
use mayfly_emu.Emulator.{Input, execute, cpu_exec, cpu_exec_from, before_run, after_run}

-- Not running.
abbrev pub Halted : Status → Type 0
Halted running = ⊥
Halted _ = Unit {0}

after_run-Halted : (s : Status) → Halted (after_run s)
after_run-Halted running = tt
after_run-Halted stop = tt
after_run-Halted end = tt
after_run-Halted abort_status = tt
after_run-Halted quit = tt

-- The state is halted behind an outcome that returns.
abbrev HaltedEnds : Run (Unit {0} × Machine) → Type 0
HaltedEnds (done r) = Halted r.1.emu.state
HaltedEnds abort = Unit {0}
HaltedEnds fault = Unit {0}

after-HaltedEnds :
    (x : Run (Unit {0} × Machine))
    → HaltedEnds (and_then x λ r. done (tt, set_status (after_run r.1.emu.state) r.1))
after-HaltedEnds (done r) = after_run-Halted r.1.emu.state
after-HaltedEnds abort = tt
after-HaltedEnds fault = tt

-- A state that no run starts from is halted.
abbrev HaltedUnless : Option Status → Status → Type 0
HaltedUnless none s = Halted s
HaltedUnless (some _) s = Unit {0}

before_run-HaltedUnless : (s : Status) → HaltedUnless (before_run s) s
before_run-HaltedUnless running = tt
before_run-HaltedUnless stop = tt
before_run-HaltedUnless end = tt
before_run-HaltedUnless abort_status = tt
before_run-HaltedUnless quit = tt

cpu_exec_from-HaltedEnds :
    (o : Option Status) (n : ℕ) (inputs : ℕ → Input) (s : Decode) (m : Machine)
    → HaltedUnless o m.emu.state
    → HaltedEnds (cpu_exec_from o n inputs s m)
unfolding cpu_exec_from
cpu_exec_from-HaltedEnds none n inputs s m h = h
cpu_exec_from-HaltedEnds (some state) n inputs s m h =
    after-HaltedEnds (execute n inputs s (set_status state m))

-- A run that returns, of any number of steps and from any state, does not leave the emulator
-- running: it has stopped, ended, aborted or quit.
pub cpu_exec-Halted :
    (n : ℕ) (inputs : ℕ → Input) (s : Decode) (m : Machine) (r : Unit {0} × Machine)
    → cpu_exec n inputs s m ≡ done r
    → Halted r.1.emu.state
unfolding cpu_exec
cpu_exec-Halted n inputs s m r q =
    subst (λ (o : Run (Unit {0} × Machine)). HaltedEnds o) q
      (cpu_exec_from-HaltedEnds (before_run m.emu.state) n inputs s m
        (before_run-HaltedUnless m.emu.state))
