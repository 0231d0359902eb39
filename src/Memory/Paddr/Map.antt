-- ===== src/Memory/Paddr/Map.antt =====
-- What the memory map of mayfly_emu/memory/paddr.c and mayfly_emu/device/device.h answers outside of
-- RAM.
use mathlib.Core.Bool.{false≢true}
use mayfly_emu.Prelude.{
  ◌↔◌, ℕ, ◌+◌, ◌-◌, ◌%◌, ◌^◌, ◌<◌, ◌≤◌, ◌≡◌, ◌⊎◌, inl, inr, refl, ap, ◌∙◌, arith,
}
use mayfly_emu.Prelude.{◌==◌, ◌||◌, Bool, true, false, ◌&&◌, leb, if◌then◌else◌}
use mayfly_emu.Run.{done, fault}
use mayfly_emu.Machine.{Machine}
use mayfly_emu.Device.Flash.{flash_read, flash_write, flash_size}
use mayfly_emu.Memory.Host.{store_bytes}
use mayfly_emu.Memory.Host.Bytes.{load_bytes-store_bytes}
use mayfly_emu.Memory.Paddr.{
  Region, uart, clint, plic_region, flash, gpio, unmapped, region, in_pmem, out_of_bound,
  region_read, region_write, paddr_read, paddr_write, uart_addr, clint_addr, plic_addr, flash_addr,
  gpio_addr, mbase, msize,
}

-- The machine behind an access that is not one of RAM.
abbrev pub at_device : Machine → Machine
at_device m = record m { cpu = record (m.cpu) { is_mmio = true } }

abbrev pub InUart : ℕ → Type 0
InUart addr = (uart_addr ≤ addr) × (addr < uart_addr + 2 ^ 16)

abbrev pub InClint : ℕ → Type 0
InClint addr = (clint_addr ≤ addr) × (addr < clint_addr + 2 ^ 16)

abbrev pub InPlic : ℕ → Type 0
InPlic addr = (plic_addr ≤ addr) × (addr ≤ plic_addr + 0x300000)

abbrev pub InFlash : ℕ → Type 0
InFlash addr = (flash_addr ≤ addr) × (addr < flash_addr + 2 ^ 28)

abbrev pub InGpio : ℕ → Type 0
InGpio addr = (gpio_addr ≤ addr) × (addr < gpio_addr + 2 ^ 24)

-- The address range of a region.
abbrev pub InRegion : Region → ℕ → Type 0
InRegion uart addr = InUart addr
InRegion clint addr = InClint addr
InRegion plic_region addr = InPlic addr
InRegion flash addr = InFlash addr
InRegion gpio addr = InGpio addr
InRegion unmapped addr =
    ¬ InUart addr × ¬ InClint addr × ¬ InPlic addr × ¬ InFlash addr × ¬ InGpio addr

test_iff :
    (lo n addr : ℕ) → ((leb lo addr && leb addr (lo + n)) ≡ true) ↔ ((lo ≤ addr) × (addr ≤ lo + n))
test_iff lo n addr = ground arith

-- The tests of the map, one behind the other, with the answers of the later ones.
choose-InRegion :
    (addr : ℕ) (u c p f g : Bool)
    → ((u ≡ true) ↔ InUart addr)
    → ((c ≡ true) ↔ InClint addr)
    → ((p ≡ true) ↔ InPlic addr)
    → ((f ≡ true) ↔ InFlash addr)
    → ((g ≡ true) ↔ InGpio addr)
    → InRegion
        (if u
          then uart
          else if c
          then clint
          else if p
          then plic_region
          else if f
          then flash
          else if g
          then gpio
          else unmapped)
        addr
choose-InRegion addr true c p f g hu hc hp hf hg = hu.0 refl
choose-InRegion addr false true p f g hu hc hp hf hg = hc.0 refl
choose-InRegion addr false false true f g hu hc hp hf hg = hp.0 refl
choose-InRegion addr false false false true g hu hc hp hf hg = hf.0 refl
choose-InRegion addr false false false false true hu hc hp hf hg = hg.0 refl
choose-InRegion addr false false false false false hu hc hp hf hg = (
  λ h. false≢true (hu.1 h),
  λ h. false≢true (hc.1 h),
  λ h. false≢true (hp.1 h),
  λ h. false≢true (hf.1 h),
  λ h. false≢true (hg.1 h),
)

range_iff :
    (lo n k addr : ℕ)
    → k ≡ n + 1
    → ((leb lo addr && leb addr (lo + n)) ≡ true) ↔ ((lo ≤ addr) × (addr < lo + k))
range_iff lo n k addr e = ground arith

region-InRegion : (addr : ℕ) → InRegion (region addr) addr
region-InRegion addr =
    choose-InRegion addr _ _ _ _ _ (range_iff uart_addr 0xffff _ addr refl)
      (range_iff clint_addr 0xffff _ addr refl) (test_iff plic_addr 0x300000 addr)
      (range_iff flash_addr 0xfffffff _ addr refl) (range_iff gpio_addr 0xffffff _ addr refl)

only-unmapped : (g : Region) (addr : ℕ) → InRegion g addr → InRegion unmapped addr → g ≡ unmapped
only-unmapped uart addr h (u, c, p, f, g) = absurd (u h)
only-unmapped clint addr h (u, c, p, f, g) = absurd (c h)
only-unmapped plic_region addr h (u, c, p, f, g) = absurd (p h)
only-unmapped flash addr h (u, c, p, f, g) = absurd (f h)
only-unmapped gpio addr h (u, c, p, f, g) = absurd (g h)
only-unmapped unmapped addr h k = refl

only-flash : (g : Region) (addr : ℕ) → InRegion g addr → InFlash addr → g ≡ flash
only-flash uart addr h k = absurd (omega arith)
only-flash clint addr h k = absurd (omega arith)
only-flash plic_region addr h k = absurd (omega arith)
only-flash flash addr h k = refl
only-flash gpio addr h k = absurd (omega arith)
only-flash unmapped addr (u, c, p, f, g) k = absurd (f k)

not_ram : (addr : ℕ) → ¬ ((mbase ≤ addr) × (addr < mbase + msize)) → in_pmem addr ≡ false
not_ram addr h = ground arith

-- An access of an address outside of RAM and of every device aborts the emulator: a read answers 0,
-- and neither a read nor a write changes memory or a device.
pub paddr-unmapped :
    (addr len wdata : ℕ) (m : Machine)
    → ¬ ((mbase ≤ addr) × (addr < mbase + msize))
    → InRegion unmapped addr
    → (paddr_read addr len m ≡ done (0, out_of_bound (at_device m)))
      × (paddr_write addr len wdata m ≡ done (tt, out_of_bound (at_device m)))
unfolding paddr_read paddr_write region_read region_write
paddr-unmapped addr len wdata m r u =
    let q = only-unmapped (region addr) addr (region-InRegion addr) u in
    (rw (not_ram addr r, q) refl, rw (not_ram addr r, q) refl)

flash-test : (addr : ℕ) → InFlash addr → (in_pmem addr ≡ false) × (region addr ≡ flash)
flash-test addr f =
    (not_ram addr (λ h. omega arith), only-flash (region addr) addr (region-InRegion addr) f)

cut : (len v : ℕ) → (len ≡ 1) ⊎ ((len ≡ 2) ⊎ (len ≡ 4)) → v % 2 ^ 32 % 256 ^ len ≡ v % 256 ^ len
cut len v (inl e) = rw e (omega arith)
cut len v (inr (inl e)) = rw e (omega arith)
cut len v (inr (inr e)) = rw e (omega arith)

-- The machine with the bytes of a value written to the flash.
abbrev pub flash_written : ℕ → ℕ → ℕ → Machine → Machine
flash_written addr len v m = record (at_device m) {
  flash_mem = store_bytes len (v % 2 ^ 32) m.flash_mem (addr - flash_addr);
}

-- A write of one, two or four bytes to the flash, inside its array of 64 MiB, succeeds, touches
-- nothing but the flash and the mark of a device access, and reads back cut to its width.
pub paddr_read-paddr_write_flash :
    (addr len v : ℕ) (m : Machine)
    → InFlash addr
    → (len ≡ 1) ⊎ ((len ≡ 2) ⊎ (len ≡ 4))
    → addr - flash_addr + len ≤ flash_size
    → (let m' = flash_written addr len v m in
        (paddr_write addr len v m ≡ done (tt, m'))
        × (paddr_read addr len m' ≡ done (v % 256 ^ len, m')))
unfolding paddr_read region_read flash_read paddr_write region_write flash_write
paddr_read-paddr_write_flash addr len v m f l h =
    let t = flash-test addr f in
    let w : (len == 1 || len == 2 || len == 4) ≡ true = ground arith in
    let b : leb (addr - flash_addr + len) flash_size ≡ true = ground arith in
    (
      rw (t.0, t.1, w, b) refl,
      rw (t.0, t.1, w, b)
          (ap (λ (x : ℕ). done (x, flash_written addr len v m))
            (load_bytes-store_bytes len (v % 2 ^ 32) m.flash_mem (addr - flash_addr)
              ∙ cut len v l)),
    )

-- A read of one, two or four bytes in the rest of the flash region, which the map makes 256 MiB
-- large, is an access outside of the array of 64 MiB, undefined in C.
pub paddr_read-flash_hole :
    (addr len : ℕ) (m : Machine)
    → InFlash addr
    → (len ≡ 1) ⊎ ((len ≡ 2) ⊎ (len ≡ 4))
    → flash_size < addr - flash_addr + len
    → paddr_read addr len m ≡ fault
unfolding paddr_read region_read flash_read
paddr_read-flash_hole addr len m f l h =
    let t = flash-test addr f in
    let w : (len == 1 || len == 2 || len == 4) ≡ true = ground arith in
    let b : leb (addr - flash_addr + len) flash_size ≡ false = ground arith in
    rw (t.0, t.1, w, b) refl
