-- ===== src/Startup.antt =====
-- The start of the emulator: `init_mem`, `load_kernel`, `load_fs` and `clear_mem` of
-- mayfly_emu/memory/paddr.c, `flash_init` of mayfly_emu/device/flash.c, the registers of `serial_init` of
-- mayfly_emu/device/serial.c, and `init_isa` and `main` of mayfly_emu/main.c in the configuration with `CONFIG_FLASH` 0 and no difference test. A path is
-- null or names a file: its bytes, or none where `fopen` fails. What `getopt` finds is an argument. A file
-- that does not fit behind its place in `pmem` is written past the end of the array.
pub mod Layout
use mayfly_emu.Prelude.{
  ℕ, zero, suc, ◌+◌, ◌-◌, ◌/◌, ◌%◌, ◌^◌, Bool, true, false, leb, ◌==◌, if◌then◌else◌, update,
}
use mayfly_emu.Prelude.{Option, none, some, List, [], ◌∷◌, length}
use mayfly_emu.Run.{Run, done, abort, fault, and_then, assert, require}
use mayfly_emu.Cpu.{restart}
use mayfly_emu.Machine.{Machine}
use mayfly_emu.Memory.Host.{store_bytes}
use mayfly_emu.Memory.Paddr.{msize}
use mayfly_emu.Device.Serial.{
  Serial, set_stat, rx_fifo_valid, rx_fifo_full, tx_fifo_empty, tx_fifo_full,
}
use mayfly_emu.Device.Flash.{flash_size}
use mayfly_emu.Expr.Token.{Pcre}
use mayfly_emu.Monitor.{Monitor, Line, init_sdb, sdb_mainloop}

-- A path that is not null: the file, if it can be opened.
abbrev pub File : Type 0
File = Option (List ℕ)

unfoldable pub write_bytes : ℕ → List ℕ → (ℕ → ℕ) → ℕ → ℕ
write_bytes a [] mem = mem
write_bytes a (b ∷ bs) mem = write_bytes (a + 1) bs (update mem a b)

-- `fread` of the whole file to `pmem + at`: of a file with no byte it answers 0, and the code asserts.
unfoldable pub load_file : ℕ → Option File → (ℕ → ℕ) → Run (ℕ → ℕ)
unfolding write_bytes
load_file at none mem = abort
load_file at (some none) mem = abort
load_file at (some (some bytes)) mem =
    require (leb (at + length bytes) msize)
      (assert (leb 1 (length bytes)) (done (write_bytes at bytes mem)))

unfoldable pub init_mem : Option File → (ℕ → ℕ) → Run (ℕ → ℕ)
unfolding load_file
init_mem img_file mem = load_file 0 img_file mem

unfoldable pub load_kernel : Option File → (ℕ → ℕ) → Run (ℕ → ℕ)
unfolding load_file
load_kernel img_file mem = load_file 0x2000000 img_file mem

unfoldable pub load_fs : Option File → (ℕ → ℕ) → Run (ℕ → ℕ)
unfolding load_file
load_fs img_file mem = load_file 0x3000000 img_file mem

-- A file that is larger than the flash is only reported, and written past the end of the array.
unfoldable pub flash_init : Option File → (ℕ → ℕ) → Run (ℕ → ℕ)
unfolding write_bytes
flash_init none flash_mem = abort
flash_init (some none) flash_mem = abort
flash_init (some (some bytes)) flash_mem =
    require (leb (length bytes) flash_size)
      (assert (leb 1 (length bytes)) (done (write_bytes 0 bytes flash_mem)))

abbrev pub clear_mem : (ℕ → ℕ) → ℕ → ℕ
clear_mem mem = λ i. if leb msize i then mem i else 0

-- `serial_init`, less the pipes.
abbrev pub serial_init : Serial → Serial
serial_init s =
    set_stat rx_fifo_valid 0
      (set_stat rx_fifo_full 0 (set_stat tx_fifo_full 0 (set_stat tx_fifo_empty 1 s)))

-- The built-in program.
abbrev pub img : List ℕ
img = 0x00000297 ∷ 0x0002b823 ∷ 0x0102b503 ∷ 0x00100073 ∷ 0xdeadbeef ∷ []

abbrev pub write_words : ℕ → List ℕ → (ℕ → ℕ) → ℕ → ℕ
write_words a [] mem = mem
write_words a (v ∷ vs) mem = write_words (a + 4) vs (store_bytes 4 v mem a)

unfoldable pub init_isa : Machine → Machine
unfolding store_bytes
init_isa m = record m { pmem = write_words 0 img m.pmem; cpu = restart m.cpu }

-- The arguments of the command line: the files that were named.
pub record Arguments : Type 0 where
  pub img_file : Option File
  pub kernel_file : Option File
  pub file_system : Option File

-- `if (file != NULL) load(file)`.
abbrev pub if_given : (Option File → (ℕ → ℕ) → Run (ℕ → ℕ)) → Option File → (ℕ → ℕ) → Run (ℕ → ℕ)
if_given load none mem = done mem
if_given load (some file) mem = load (some file) mem

-- `main` up to the monitor.
unfoldable pub boot : Arguments → Machine → Run Machine
unfolding init_mem load_kernel load_fs init_isa
boot args m0 =
    let m = init_isa (record m0 { serial = serial_init m0.serial }) in
    and_then (if_given init_mem args.img_file m.pmem) λ mem1.
      and_then (if_given load_kernel args.kernel_file mem1) λ mem2.
        and_then (if_given load_fs args.file_system mem2) λ mem3. done (record m { pmem = mem3 })

unfoldable pub main : ℕ → Pcre → Arguments → List Line → Monitor → Run (Bool × Monitor)
unfolding boot sdb_mainloop
main stack pcre args ls s =
    and_then (boot args s.machine)
      λ m. sdb_mainloop stack pcre ls (init_sdb (record s { machine = m }))
