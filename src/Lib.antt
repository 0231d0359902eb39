-- ===== src/Lib.antt =====
-- A RISC-V emulator, mayfly_emu: one RV64IMA hart with machine, supervisor and user modes, Sv39
-- address translation, RAM, and the devices of a small board. The emulator fetches an instruction
-- at `cpu.pc` through the address translation, decodes it with a table of text patterns, executes
-- the body that the table gives, updates the devices, and takes an exception or an interrupt.
--
-- The parts, each with the code that it models:
--   Word       the integer types, BITS and SEXT of cpu/macro.h, and bit-fields (Word.Defs); the
--              signed integers (Word.Int); lemmas on binary digits (Word.Step, Word.Bits,
--              Word.Low, Word.Masked)
--   Cpu        riscv64_CPU_state of cpu/mayfly_isa.h; Cpu.Ex, the exception numbers; restart of
--              main.c
--   Csr        csr_read, csr_write, check_csr_idx and csr_maps of cpu/reg.h
--   Intr       system/intr.c; Intr.Return, mret and sret of cpu/inst.c
--   Run        the outcome of code: it returns, it fails an assert, or it does what C leaves
--              undefined
--   Device     device/aclint.c, device/plic.c, device/serial.c and device/flash.c
--   Machine    the whole state, with a monad for operations on it; Machine.Frame, rules for what an
--              operation leaves alone
--   Memory     memory/paddr.c (Memory.Host for the array, Memory.Paddr for the map) and
--              memory/vaddr.c (Memory.Vaddr)
--   Mmu        system/mmu.c
--   Inst       cpu/decode.h (Inst.Pattern) and cpu/inst.c: the table (Inst.Table), the operands
--              (Inst.Operand), the arithmetic (Inst.Alu) and the bodies (Inst.Exec; Inst.Exec.Pair, the
--              instructions lr and sc together; Inst.Exec.Atomic, the other atomic ones)
--   Emulator   cpu/cpu-exec.c and update_device of device/device.c; Emulator.Trapped, a step that
--              raises an exception
--   Difftest   isa_difftest_checkregs of monitor/sdb.c; Difftest.Step, cpu/difftest.c
--   Watchpoint monitor/watchpoint.c
--   Expr       monitor/expr.c: the tokens (Expr.Token), the registers' names (Expr.Reg), the evaluation
--              (Expr.Eval); Expr.Number, the conversions of C's library
--   Monitor    the commands and the main loop of monitor/sdb.c
--   Startup    main of main.c, init_mem, load_kernel and load_fs of memory/paddr.c,
--              flash_init of device/flash.c
--   Tests      concrete runs, and each theorem at a concrete input
-- All paths are relative to mayfly_emu. A function of the code has the name of its definition here;
-- where the code has one function with a switch, the model has a function for the switch too. A
-- global variable is a field of `Machine`, of `Cpu` or of a device's record, and a function of the
-- code that changes one takes and returns the state.
--
-- What the model takes from the outside: the byte that a step finds in the serial port's pipe and
-- the key that it finds at the terminal are arguments of the step; the lines of the monitor and the
-- files of the command line are arguments too. pcre is a function from a pattern and a text to the
-- range of the first match; what is relied on is that a match has a character and lies in the text
-- (Expr.Token.Pieces). The reference of the difference test is a record of functions. `expr` is an
-- argument of the operations on watchpoints, which the command `w` gives them. Output to the pipe is
-- kept in a list; what the code prints on its own terminal is left out.
--
-- The assumptions on C: the host is little-endian, `char` is signed, signed multiplication wraps
-- around and `>>` on a negative value rounds down, as gcc has it. A bit-field is a quotient and a
-- remainder of its word, and it is shifted in its own width, so that PgBASE of a page number keeps
-- 44 bits. Fields that the code sets to 0 and 1 only are Booleans. The configuration is
-- that of the stand-alone emulator: CONFIG_SHARE_SO and CONFIG_FLASH are 0, and the run loop calls no
-- difference test, whose operations are modelled on their own.
--
-- Bounds and fuel: the numbers are unbounded and each operation cuts its result to its width. The
-- loop of `pattern_decode` runs on the 64 characters that the code's macro handles, and a longer
-- pattern aborts, as there; the loop of `plic_update` runs its 32 rounds, the page walk its three
-- levels, `execute` the number of steps that it is given. A loop over a list of watchpoints runs for
-- the 32 elements of the pool, and a well-formed list has no more. `make_token` runs on as many rounds
-- as the text has characters. `eval` calls itself on ranges that may grow: its fuel is the number of
-- frames of the host's stack, an argument.
--
-- Not modelled: what only prints or reads (rl_gets and the display functions of monitor/sdb.c,
-- show_iringbuf_info), the loading of the reference's library, the adapter of the spike simulator
-- (tools), the disassembler (utils), the parsing of arguments, the opening and closing of
-- pipes, and the terminal of mayfly_serial. They are input and output, or stand on other libraries.
pub mod Prelude
pub mod Word
pub mod Cpu
pub mod Csr
pub mod Intr
pub mod Run
pub mod Device
pub mod Machine
pub mod Memory
pub mod Mmu
pub mod Inst
pub mod Emulator
pub mod Difftest
pub mod Watchpoint
pub mod Tests
pub mod Expr
pub mod Monitor
pub mod Startup
