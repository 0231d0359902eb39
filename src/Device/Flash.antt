-- ===== src/Device/Flash.antt =====
-- The flash: mayfly_emu/device/flash.c. The region that is mapped to it is larger than the array;
-- an access outside of the array is a fault.
use mayfly_emu.Prelude.{ℕ, ◌+◌, ◌*◌, ◌||◌, leb, ◌==◌, if◌then◌else◌}
use mayfly_emu.Run.{Run, done, require}
use mayfly_emu.Memory.Host.{load_bytes, store_bytes}

abbrev pub flash_size : ℕ
flash_size = 64 * 1024 * 1024

unfoldable pub flash_read : ℕ → ℕ → (ℕ → ℕ) → Run ℕ
flash_read offset len flash_mem =
    if len == 1 || len == 2 || len == 4
    then require (leb (offset + len) flash_size) (done (load_bytes len flash_mem offset))
    else done 0

unfoldable pub flash_write : ℕ → ℕ → ℕ → (ℕ → ℕ) → Run (ℕ → ℕ)
flash_write offset len wdata flash_mem =
    if len == 1 || len == 2 || len == 4
    then require (leb (offset + len) flash_size) (done (store_bytes len wdata flash_mem offset))
    else done flash_mem
