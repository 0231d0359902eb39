-- ===== src/Memory/Paddr/Ram.antt =====
-- Reads and writes of RAM through `paddr_read` and `paddr_write` of mayfly_emu/memory/paddr.c.
use mayfly_emu.Prelude.{ℕ, ◌+◌, ◌-◌, ◌%◌, ◌^◌, ◌≤◌, ◌<◌, ◌≡◌, ◌⊎◌, inl, inr, refl, arith}
use mayfly_emu.Prelude.{true, leb, ap, ◌∙◌}
use mayfly_emu.Run.{done}
use mayfly_emu.Machine.{Machine}
use mayfly_emu.Memory.Host.{load_bytes, store_bytes, is_len, host_read, host_write}
use mayfly_emu.Memory.Host.Bytes.{load_bytes-store_bytes, load_bytes-store_bytes_apart}
use mayfly_emu.Memory.Paddr.{mbase, msize, in_pmem, paddr_read, paddr_write, pmem_read, pmem_write}

-- An access of one of the four widths that lies in RAM whole.
pub record IsRam (addr len : ℕ) : Type 0 where
  pub width : is_len len ≡ true
  pub above : mbase ≤ addr
  pub below : addr + len ≤ mbase + msize

is_len-pos : (len : ℕ) → is_len len ≡ true → 1 ≤ len
is_len-pos len h = ground arith

IsRam-in_pmem : {addr len : ℕ} → IsRam addr len → in_pmem addr ≡ true
IsRam-in_pmem {addr} {len} r = ground (arith, is_len-pos len r.width, r.above, r.below)

pub paddr_read-ram :
    {addr len : ℕ} (m : Machine)
    → IsRam addr len
    → paddr_read addr len m ≡ done (load_bytes len m.pmem (addr - mbase), m)
unfolding paddr_read pmem_read host_read
paddr_read-ram {addr} {len} m r = rw (IsRam-in_pmem r, r.width, fits) refl
  where
    fits : leb (addr - mbase + len) msize ≡ true
    fits = ground (arith, r.above, r.below)

pub paddr_write-ram :
    {addr len : ℕ} (v : ℕ) (m : Machine)
    → IsRam addr len
    → paddr_write addr len v m
      ≡ done (tt, record m { pmem = store_bytes len v m.pmem (addr - mbase) })
unfolding paddr_write pmem_write host_write
paddr_write-ram {addr} {len} v m r = rw (IsRam-in_pmem r, r.width, fits) refl
  where
    fits : leb (addr - mbase + len) msize ≡ true
    fits = ground (arith, r.above, r.below)

-- A naturally aligned access whose first byte is in RAM lies in RAM whole.
pub aligned-IsRam :
    (addr len : ℕ) → is_len len ≡ true → addr % len ≡ 0 → in_pmem addr ≡ true → IsRam addr len
aligned-IsRam addr len w a i = record {
  width = w;
  above = ground arith;
  below = below (len_cases len w);
}
  where
    len_cases : (n : ℕ) → is_len n ≡ true → (n ≡ 1) ⊎ ((n ≡ 2) ⊎ ((n ≡ 4) ⊎ (n ≡ 8)))
    len_cases n h = ground arith

    lt : addr < mbase + msize
    lt = ground arith

    below : (len ≡ 1) ⊎ ((len ≡ 2) ⊎ ((len ≡ 4) ⊎ (len ≡ 8))) → addr + len ≤ mbase + msize
    below (inl e) = omega (arith, lt)
    below (inr (inl e)) = omega (arith, lt, a, ap (λ (t : ℕ). addr % t) e)
    below (inr (inr (inl e))) = omega (arith, lt, a, ap (λ (t : ℕ). addr % t) e)
    below (inr (inr (inr e))) = omega (arith, lt, a, ap (λ (t : ℕ). addr % t) e)

-- The machine with the bytes of a value written to RAM.
abbrev pub ram_written : ℕ → ℕ → ℕ → Machine → Machine
ram_written addr len v m = record m { pmem = store_bytes len v m.pmem (addr - mbase) }

shifted :
    (addr len b n : ℕ)
    → (b + n ≤ addr) ⊎ (addr + len ≤ b)
    → mbase ≤ addr
    → mbase ≤ b
    → ((b - mbase) + n ≤ addr - mbase) ⊎ ((addr - mbase) + len ≤ b - mbase)
shifted addr len b n (inl h) j k = inl (omega arith)
shifted addr len b n (inr h) j k = inr (omega arith)

-- A write to RAM succeeds, touches nothing but RAM, and reads back cut to its width.
pub paddr_read-paddr_write :
    (addr len v : ℕ) (m : Machine)
    → IsRam addr len
    → (let m' = ram_written addr len v m in
        (paddr_write addr len v m ≡ done (tt, m'))
        × (paddr_read addr len m' ≡ done (v % 256 ^ len, m')))
paddr_read-paddr_write addr len v m r =
    let m' = ram_written addr len v m in
    (
      paddr_write-ram v m r,
      paddr_read-ram m' r
          ∙ ap (λ (x : ℕ). done (x, m')) (load_bytes-store_bytes len v m.pmem (addr - mbase)),
    )

-- A read of RAM that does not meet the bytes of a write gives after it what it gave before.
pub paddr_read-paddr_write_apart :
    (addr len v b n : ℕ) (m : Machine)
    → IsRam addr len
    → IsRam b n
    → (b + n ≤ addr) ⊎ (addr + len ≤ b)
    → (let m' = ram_written addr len v m in
        (paddr_write addr len v m ≡ done (tt, m'))
        × ((w : ℕ) × (paddr_read b n m ≡ done (w, m)) × (paddr_read b n m' ≡ done (w, m'))))
paddr_read-paddr_write_apart addr len v b n m r q apart =
    let m' = ram_written addr len v m in
    (
      paddr_write-ram v m r,
      (
        load_bytes n m.pmem (b - mbase),
        paddr_read-ram m q,
        paddr_read-ram m' q
            ∙ ap (λ (x : ℕ). done (x, m'))
                (load_bytes-store_bytes_apart len n v m.pmem (addr - mbase) (b - mbase)
                  (shifted addr len b n apart r.above q.above)),
      ),
    )
