-- ===== src/Memory/Host.antt =====
-- Access to the host's arrays: `host_read` and `host_write` of mayfly_emu/memory/paddr.c. An array
-- is the function from an index to the byte there; the host is little-endian, and an access that
-- leaves the array is a fault.
pub mod Bytes
use mayfly_emu.Prelude.{ℕ, zero, suc, ◌+◌, ◌*◌, ◌/◌, ◌%◌, Bool, true, false, ◌||◌}
use mayfly_emu.Prelude.{leb, ◌==◌, if◌then◌else◌, update}
use mayfly_emu.Run.{Run, done, abort, fault, require}

-- The word of `n` bytes at `a`, and the array after a store of one.
unfoldable pub load_bytes : ℕ → (ℕ → ℕ) → ℕ → ℕ
load_bytes zero mem a = 0
load_bytes (suc n) mem a = mem a + 256 * load_bytes n mem (a + 1)

unfoldable pub store_bytes : ℕ → ℕ → (ℕ → ℕ) → ℕ → ℕ → ℕ
store_bytes zero v mem a = mem
store_bytes (suc n) v mem a = update (store_bytes n (v / 256) mem (a + 1)) a (v % 256)

abbrev pub is_len : ℕ → Bool
is_len len = len == 1 || len == 2 || len == 4 || len == 8

-- `size` is that of the array.
unfoldable pub host_read : ℕ → (ℕ → ℕ) → ℕ → ℕ → Run ℕ
unfolding load_bytes
host_read size mem a len =
    if is_len len then require (leb (a + len) size) (done (load_bytes len mem a)) else done 0

unfoldable pub host_write : ℕ → (ℕ → ℕ) → ℕ → ℕ → ℕ → Run (ℕ → ℕ)
unfolding store_bytes
host_write size mem a len v =
    if is_len len then require (leb (a + len) size) (done (store_bytes len v mem a)) else abort
