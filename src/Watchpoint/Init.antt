-- ===== src/Watchpoint/Init.antt =====
-- The pool as `init_wp_pool` of mayfly_emu/monitor/watchpoint.c leaves it.
use mathlib.Core.Path.{subst}
use mayfly_emu.Prelude.{ℕ, zero, suc, ◌+◌, ◌≡◌, refl, sym, arith, ◌&&◌}
use mayfly_emu.Prelude.{ltb, leb, ◌==◌, if◌then◌else◌, Option, none, some, List, [], ◌∷◌}
use mayfly_emu.Watchpoint.{WpPool, init_wp_pool}
use mayfly_emu.Watchpoint.Pool.{Chain, tally, IsPool}

-- `n` numbers from `i` on.
abbrev pub range : ℕ → ℕ → List ℕ
range i zero = []
range i (suc n) = i ∷ range (i + 1) n

abbrev next_of : ℕ → Option ℕ
next_of i = if i == 32 then none else some i

next_of_lem : (i : ℕ) → (if i == 31 then none else some (i + 1)) ≡ next_of (i + 1)
next_of_lem i = ground arith

below_next : (i n : ℕ) → i + suc n ≡ 32 → next_of i ≡ some i
below_next i n e = ground arith

range-Chain :
    (p : WpPool) (n i : ℕ) → i + n ≡ 32 → Chain (init_wp_pool p).wp_pool (next_of i) (range i n)
unfolding init_wp_pool
range-Chain p zero i e = ground arith
range-Chain p (suc n) i e = (
  below_next i n e,
  subst (λ (o : Option ℕ). Chain (init_wp_pool p).wp_pool o (range (i + 1) n)) (sym (next_of_lem i))
      (range-Chain p n (i + 1) (omega arith)),
)

tally-range : (j n i : ℕ) → tally j (range i n) ≡ (if leb i j && ltb j (i + n) then 1 else 0)
tally-range j zero i = ground arith
tally-range j (suc n) i = ground (arith, tally-range j n (i + 1))

once-range : (i n : ℕ) → tally i [] + tally i (range 0 n) ≡ (if ltb i n then 1 else 0)
once-range i n = from i n (tally i (range 0 n)) (tally-range i n 0)
  where
    from :
        (i n c : ℕ)
        → c ≡ (if leb 0 i && ltb i (0 + n) then 1 else 0)
        → 0 + c ≡ (if ltb i n then 1 else 0)
    from i n c e = ground arith

-- From any contents, the initial pool is well formed: no element is used, and all 32 are free in
-- the order of their numbers.
pub init_wp_pool-IsPool : (p : WpPool) → IsPool (init_wp_pool p) [] (range 0 32)
unfolding init_wp_pool
init_wp_pool-IsPool p = record {
  used_chain = refl;
  free_chain = range-Chain p 32 0 refl;
  once = λ i. once-range i 32;
  size = refl;
  numbers = λ i. refl;
}
