-- ===== src/Difftest/Step/Image.antt =====
-- The start of the difference test of mayfly_emu/cpu/difftest.c with this emulator as the reference.
use mayfly_emu.Prelude.{ℕ, zero, suc, ◌+◌, ◌-◌, ◌%◌, ◌^◌, ◌<◌, ◌≤◌, ◌≡◌, refl, sym, ap, ◌∙◌, arith}
use mayfly_emu.Prelude.{true, leb, update, some, List, [], ◌∷◌, length, get_elem?}
use mayfly_emu.Run.{done}
use mayfly_emu.Machine.{Machine}
use mayfly_emu.Memory.Host.{store_bytes}
use mayfly_emu.Memory.Paddr.{mbase, msize}
use mayfly_emu.Memory.Paddr.Ram.{IsRam, paddr_write-ram}
use mayfly_emu.Inst.Exec.{Decode}
use mayfly_emu.Emulator.{Input}
use mayfly_emu.Difftest.Agrees.{SameState}
use mayfly_emu.Difftest.Step.{
  bytes_at, init_difftest, copy_bytes, difftest_memcpy, difftest_regcpy, difftest_init, emulator,
}
use mayfly_emu.Difftest.Step.Synced.{difftest_regcpy-SameState}
use mayfly_emu.Startup.{write_bytes}
use mayfly_emu.Startup.Layout.{write_bytes-overlay}

abbrev pub AllBytes : List ℕ → Type 0
AllBytes [] = Unit {0}
AllBytes (b ∷ bs) = (b < 256) × AllBytes bs

store_byte : (v a : ℕ) (mem : ℕ → ℕ) → v < 256 → store_bytes 1 v mem a ≡ update mem a v
unfolding store_bytes
store_byte v a mem h = ap (λ (x : ℕ). update mem a x) (ground arith)

byte-IsRam : (k : ℕ) → k < msize → IsRam (mbase + k) 1
byte-IsRam k h = record { width = refl; above = omega arith; below = omega arith }

-- A copy of bytes into RAM.
copy_bytes-ram :
    (bs : List ℕ) (k : ℕ) (m : Machine)
    → AllBytes bs
    → k + length bs ≤ msize
    → copy_bytes (mbase + k) bs m ≡ done (tt, record m { pmem = write_bytes k bs m.pmem })
unfolding copy_bytes write_bytes
copy_bytes-ram [] k m h b = refl
copy_bytes-ram (v ∷ bs) k m h b =
    let at_k : mbase + k - mbase ≡ k = omega arith in
    let next : (mbase + k + 1) % 2 ^ 64 ≡ mbase + (k + 1) = omega arith in
    rw (paddr_write-ram v m (byte-IsRam k (omega arith)), at_k, store_byte v k m.pmem h.0, next)
      (copy_bytes-ram bs (k + 1) (record m { pmem = update m.pmem k v }) h.1 (omega arith))

length-bytes_at : (n a : ℕ) (mem : ℕ → ℕ) → length (bytes_at n mem a) ≡ n
length-bytes_at zero a mem = refl
length-bytes_at (suc n) a mem = omega (arith, length-bytes_at n (a + 1) mem)

AllBytes-bytes_at : (n a : ℕ) (mem : ℕ → ℕ) → ((i : ℕ) → mem i < 256) → AllBytes (bytes_at n mem a)
AllBytes-bytes_at zero a mem h = tt
AllBytes-bytes_at (suc n) a mem h = (h a, AllBytes-bytes_at n (a + 1) mem h)

get_elem?-bytes_at :
    (n a i : ℕ) (mem : ℕ → ℕ) → i < n → get_elem? (bytes_at n mem a) i ≡ some (mem (a + i))
get_elem?-bytes_at zero a i mem h = absurd (omega arith)
get_elem?-bytes_at (suc n) a zero mem h = ap (λ (k : ℕ). some (mem k)) (omega arith)
get_elem?-bytes_at (suc n) a (suc i) mem h =
    get_elem?-bytes_at n (a + 1) i mem (omega arith) ∙ ap (λ (k : ℕ). some (mem k)) (omega arith)

written-same :
    (n i : ℕ) (mem mem' : ℕ → ℕ) → i < n → write_bytes 0 (bytes_at n mem 0) mem' i ≡ mem i
written-same n i mem mem' h =
    let here = get_elem?-bytes_at n 0 i mem h in
    let at_i : i - 0 ≡ i = omega arith in
    let same : 0 + i ≡ i = omega arith in
    let from : leb 0 i ≡ true = ground arith in
    write_bytes-overlay (bytes_at n mem 0) 0 i mem' ∙ rw (from, at_i, here, same) refl

-- At the start of the test this emulator, as the reference, has the first `img_size` bytes of the
-- tested emulator's memory and, if that is in machine mode, all that the steps compare.
pub init_difftest-SameState :
    (inputs : ℕ → Input) (s : Decode) (img_size : ℕ) (m r : Machine)
    → img_size ≤ msize
    → ((i : ℕ) → m.pmem i < 256)
    → m.cpu.mode ≡ 3
    → (r' : Machine) × (init_difftest (emulator inputs s) img_size m r ≡ done r')
      × ((i : ℕ) → i < img_size → r'.pmem i ≡ m.pmem i)
      × SameState m.cpu.pc r'.cpu m.cpu
unfolding init_difftest difftest_memcpy
init_difftest-SameState inputs s img_size m r b bytes mode =
    let bs = bytes_at img_size m.pmem 0 in
    let r0 = record r { cpu = difftest_init r.cpu } in
    let copied =
      copy_bytes-ram bs 0 r0 (AllBytes-bytes_at img_size 0 m.pmem bytes)
        (omega (arith, length-bytes_at img_size 0 m.pmem)) in
    let fits : leb img_size msize ≡ true = ground arith in
    (
      record r0 { pmem = write_bytes 0 bs r.pmem; cpu = (difftest_regcpy true m.cpu r0.cpu).1 },
      rw (fits, copied) refl,
      λ i h. written-same img_size i m.pmem r.pmem h,
      (difftest_regcpy-SameState m.cpu r0.cpu).1 (unfold difftest_init in sym mode),
    )
