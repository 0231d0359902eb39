-- ===== src/Startup/Layout.antt =====
-- What `main` of mayfly_emu/main.c leaves in memory before the monitor starts.
use mayfly_emu.Prelude.{ℕ, zero, suc, ◌+◌, ◌-◌, ◌≤◌, ◌≡◌, refl, ap, ◌∙◌, arith, fun_ext}
use mayfly_emu.Prelude.{
  true, leb, if◌then◌else◌, update, Option, none, some, List, [], ◌∷◌, length, get_elem?,
}
use mayfly_emu.Run.{Run, done}
use mayfly_emu.Cpu.{restart}
use mayfly_emu.Machine.{Machine}
use mayfly_emu.Memory.Paddr.{msize}
use mayfly_emu.Device.Flash.{flash_size}
use mayfly_emu.Startup.{
  File, write_bytes, load_file, init_mem, load_kernel, load_fs, flash_init, serial_init, init_isa,
  Arguments, if_given, boot,
}

-- The byte at `i` where bytes lie from `at` on over other contents.
abbrev pub or_else : Option ℕ → ℕ → ℕ
or_else none v = v
or_else (some b) v = b

abbrev pub overlay : ℕ → List ℕ → (ℕ → ℕ) → ℕ → ℕ
overlay at bytes mem i = if leb at i then or_else (get_elem? bytes (i - at)) (mem i) else mem i

pub write_bytes-overlay :
    (bytes : List ℕ) (at i : ℕ) (mem : ℕ → ℕ) → write_bytes at bytes mem i ≡ overlay at bytes mem i
unfolding write_bytes
write_bytes-overlay [] at i mem = ground arith
write_bytes-overlay (b ∷ bs) at i mem =
    write_bytes-overlay bs (at + 1) i (update mem at b) ∙ shift (i - at) refl
  where
    shift :
        (k : ℕ) → i - at ≡ k → overlay (at + 1) bs (update mem at b) i ≡ overlay at (b ∷ bs) mem i
    shift zero e = ground arith
    shift (suc k) e = ground arith

-- A file that can be read and fits.
abbrev pub Fits : ℕ → List ℕ → Type 0
Fits at bytes = (1 ≤ length bytes) × (at + length bytes ≤ msize)

load_file-overlay :
    (at : ℕ) (bytes : List ℕ) (mem : ℕ → ℕ)
    → Fits at bytes
    → load_file at (some (some bytes)) mem ≡ done (overlay at bytes mem)
unfolding load_file
load_file-overlay at bytes mem h =
    let room : leb (at + length bytes) msize ≡ true = ground arith in
    let some_byte : leb 1 (length bytes) ≡ true = ground arith in
    rw (room, some_byte)
      (ap (λ (f : ℕ → ℕ). done f) (fun_ext λ i. write_bytes-overlay bytes at i mem))

-- The flash, in the configuration that has one, holds the file from its start.
pub flash_init-overlay :
    (bytes : List ℕ) (mem : ℕ → ℕ)
    → 1 ≤ length bytes
    → length bytes ≤ flash_size
    → flash_init (some (some bytes)) mem ≡ done (overlay 0 bytes mem)
unfolding flash_init
flash_init-overlay bytes mem h k =
    let room : leb (length bytes) flash_size ≡ true = ground arith in
    let some_byte : leb 1 (length bytes) ≡ true = ground arith in
    rw (room, some_byte)
      (ap (λ (f : ℕ → ℕ). done f) (fun_ext λ i. write_bytes-overlay bytes 0 i mem))

-- The files of the command line, each named or not, that can be read and fit.
abbrev pub named : Option (List ℕ) → Option File
named none = none
named (some bytes) = some (some bytes)

abbrev pub FitsIf : ℕ → Option (List ℕ) → Type 0
FitsIf at none = Unit {0}
FitsIf at (some bytes) = Fits at bytes

abbrev pub overlay_if : ℕ → Option (List ℕ) → (ℕ → ℕ) → ℕ → ℕ
overlay_if at none mem = mem
overlay_if at (some bytes) mem = overlay at bytes mem

given-overlay :
    (load : Option File → (ℕ → ℕ) → Run (ℕ → ℕ)) (at : ℕ) (o : Option (List ℕ)) (mem : ℕ → ℕ)
    → ((bytes : List ℕ)
        → Fits at bytes
        → load (some (some bytes)) mem ≡ done (overlay at bytes mem))
    → FitsIf at o
    → if_given load (named o) mem ≡ done (overlay_if at o mem)
given-overlay load at none mem h f = refl
given-overlay load at (some bytes) mem h f = h bytes f

-- The memory with the image at its start, the kernel 32 MiB and the file system 48 MiB behind.
abbrev pub layout : Option (List ℕ) → Option (List ℕ) → Option (List ℕ) → (ℕ → ℕ) → ℕ → ℕ
layout image kernel fs mem =
    overlay_if 0x3000000 fs (overlay_if 0x2000000 kernel (overlay_if 0 image mem))

abbrev pub args : Option (List ℕ) → Option (List ℕ) → Option (List ℕ) → Arguments
args image kernel fs = record {
  img_file = named image;
  kernel_file = named kernel;
  file_system = named fs;
}

-- The machine at the reset, before the files.
abbrev pub at_reset : Machine → Machine
at_reset m0 = init_isa (record m0 { serial = serial_init m0.serial })

-- Where every file that is named can be read, is not empty and fits behind its place, the emulator
-- starts with the hart at its reset, and with every byte of memory that of the file system, else of
-- the kernel, else of the image, else of the built-in program and of what was there before.
pub boot-layout :
    (image kernel fs : Option (List ℕ)) (m0 : Machine)
    → FitsIf 0 image
    → FitsIf 0x2000000 kernel
    → FitsIf 0x3000000 fs
    → (boot (args image kernel fs) m0
        ≡ done (record (at_reset m0) { pmem = layout image kernel fs (at_reset m0).pmem }))
      × ((at_reset m0).cpu ≡ restart m0.cpu)
unfolding boot init_mem load_kernel load_fs init_isa
boot-layout image kernel fs m0 fi fk ff =
    let mem = (at_reset m0).pmem in
    let mem1 = overlay_if 0 image mem in
    let mem2 = overlay_if 0x2000000 kernel mem1 in
    (
      rw
          (
            given-overlay init_mem 0 image mem (λ b h. load_file-overlay 0 b mem h) fi,
            given-overlay load_kernel 0x2000000 kernel mem1
                (λ b h. load_file-overlay 0x2000000 b mem1 h) fk,
            given-overlay load_fs 0x3000000 fs mem2 (λ b h. load_file-overlay 0x3000000 b mem2 h)
                ff,
          )
          refl,
      refl,
    )
