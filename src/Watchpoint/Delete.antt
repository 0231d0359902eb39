-- ===== src/Watchpoint/Delete.antt =====
-- Deleting a watchpoint: `delete_watchpoint` and `free_wp` of mayfly_emu/monitor/watchpoint.c.
use mathlib.Core.Path.{subst}
use mayfly_emu.Prelude.{ℕ, zero, suc, ◌+◌, ◌<◌, ◌≤◌, ◌≡◌, inl, inr, refl, sym, ap, ◌∙◌, arith}
use mayfly_emu.Prelude.{
  true, false, ◌==◌, if◌then◌else◌, update, Option, none, some, List, [], ◌∷◌, length, Bool-cases,
  ==_iff,
}
use mayfly_emu.Run.{done}
use mayfly_emu.Watchpoint.{
  Wp, WpPool, nr_wp, set_next, find_before, find_number, unlink, give_back, free_wp,
  delete_watchpoint,
}
use mayfly_emu.Watchpoint.Pool.{
  Chain, tally, IsPool, tally-tail, update-apart, update-same, Chain-update, self-tally, Once,
  Once-tail, number-update, Apart-Once, once-Apart, last-tally,
}

-- The list with the first occurrence of an element left out, and the element before it.
abbrev pub without : ℕ → List ℕ → List ℕ
without n [] = []
without n (j ∷ l) = if j == n then l else j ∷ without n l

abbrev before : ℕ → ℕ → List ℕ → ℕ
before n i [] = i
before n i (j ∷ l) = if j == n then i else before n j l

eq-swap : (i j : ℕ) → (i == j) ≡ (j == i)
eq-swap i j = ground arith

find_number-some :
    (fuel n : ℕ) (o : Option ℕ) (l : List ℕ) (pool : ℕ → Wp)
    → length l < fuel
    → ((j : ℕ) → (pool j).number ≡ j)
    → Chain pool o l
    → 1 ≤ tally n l
    → find_number fuel n o pool ≡ done (some n)
unfolding find_number
find_number-some zero n o l pool f h c k = absurd (omega arith)
find_number-some (suc fuel) n o [] pool f h c k = absurd (omega arith)
find_number-some (suc fuel) n o (i ∷ l) pool f h c k = elim (Bool-cases (i == n)) [
  | inl t ↦ rw (c.0, h i, t) (ap (λ (x : ℕ). done (some x)) ((==_iff i n).0 t))
  | inr g ↦
      rw (c.0, h i, g)
        (find_number-some fuel n ((pool i).next) l pool (omega arith) h c.1
          (ground (arith, eq-swap i n)))
]

find_number-none :
    (fuel n : ℕ) (o : Option ℕ) (l : List ℕ) (pool : ℕ → Wp)
    → length l < fuel
    → ((j : ℕ) → (pool j).number ≡ j)
    → Chain pool o l
    → tally n l ≡ 0
    → find_number fuel n o pool ≡ done none
unfolding find_number
find_number-none zero n o l pool f h c k = absurd (omega arith)
find_number-none (suc fuel) n o [] pool f h c k = rw (c) refl
find_number-none (suc fuel) n o (i ∷ l) pool f h c k =
    let off : (i == n) ≡ false = ground (arith, eq-swap i n) in
    rw (c.0, h i, off)
      (find_number-none fuel n ((pool i).next) l pool (omega arith) h c.1 (tally-tail n i l k))

find_before_lem :
    (fuel n i : ℕ) (l : List ℕ) (pool : ℕ → Wp)
    → length l < fuel
    → Chain pool ((pool i).next) l
    → 1 ≤ tally n l
    → find_before fuel n i pool ≡ done (before n i l)
unfolding find_before
find_before_lem zero n i l pool f c k = absurd (omega arith)
find_before_lem (suc fuel) n i [] pool f c k = absurd (omega arith)
find_before_lem (suc fuel) n i (j ∷ l) pool f c k = elim (Bool-cases (j == n)) [
  | inl t ↦ rw (find_before, c.0, t) refl
  | inr g ↦
      rw (find_before, c.0, g)
        (find_before_lem fuel n j l pool (omega arith) c.1 (ground (arith, eq-swap j n)))
]

before-tally : (n i : ℕ) (l : List ℕ) → 1 ≤ tally (before n i l) (i ∷ l)
before-tally n i [] = ground arith
before-tally n i (j ∷ l) = elim (Bool-cases (j == n)) [
  | inl t ↦
      let q : before n i (j ∷ l) ≡ i = rw t refl in
      omega (arith, ap (λ (b : ℕ). tally b (i ∷ j ∷ l)) q, last-tally i [])
  | inr g ↦
      let q : before n i (j ∷ l) ≡ before n j l = rw g refl in
      omega (arith, ap (λ (b : ℕ). tally b (i ∷ j ∷ l)) q, before-tally n j l)
]

-- The list behind `i` once the pointer to `n` leads past it.
Chain-without :
    (pool : ℕ → Wp) (n i : ℕ) (l : List ℕ)
    → Once (i ∷ l)
    → 1 ≤ tally n l
    → Chain pool ((pool i).next) l
    → Chain
        (set_next (before n i l) ((pool n).next) pool)
        ((set_next (before n i l) ((pool n).next) pool i).next)
        (without n l)
Chain-without pool n i [] s k c = absurd (omega arith)
Chain-without pool n i (j ∷ l) s k c = elim (Bool-cases (j == n)) [
  | inl t ↦ here t
  | inr g ↦
      later g (Chain-without pool n j l (Once-tail i (j ∷ l) s) (ground (arith, eq-swap j n)) c.1)
]
  where
    here :
        (j == n) ≡ true
        → Chain
            (set_next (before n i (j ∷ l)) ((pool n).next) pool)
            ((set_next (before n i (j ∷ l)) ((pool n).next) pool i).next)
            (without n (j ∷ l))
    here t =
        let w = record (pool i) { next = (pool n).next } in
        rw t (
          subst (λ (v : Wp). Chain (update pool i w) (v.next) l) (sym (update-same pool i w))
            (Chain-update pool i w ((pool n).next) l (tally-tail i j l (self-tally i (j ∷ l) s))
              (subst (λ (m : ℕ). Chain pool ((pool m).next) l) ((==_iff j n).0 t) c.1)))

    later :
        (j == n) ≡ false
        → Chain
            (set_next (before n j l) ((pool n).next) pool)
            ((set_next (before n j l) ((pool n).next) pool j).next)
            (without n l)
        → Chain
            (set_next (before n i (j ∷ l)) ((pool n).next) pool)
            ((set_next (before n i (j ∷ l)) ((pool n).next) pool i).next)
            (without n (j ∷ l))
    later g ih =
        let b = before n j l in
        let w = record (pool b) { next = (pool n).next } in
        rw g (
          ap (λ (v : Wp). v.next)
                (update-apart pool b i w (λ q. omega (
                  arith,
                  before-tally n j l,
                  ap (λ (x : ℕ). tally x (j ∷ l)) q,
                  self-tally i (j ∷ l) s,
                )))
              ∙ c.0,
          ih,
        )

tally-without :
    (n i : ℕ) (l : List ℕ)
    → 1 ≤ tally n l
    → tally i (without n l) + (if i == n then 1 else 0) ≡ tally i l
tally-without n i [] k = absurd (omega arith)
tally-without n i (j ∷ l) k = elim (Bool-cases (j == n)) [
  | inl t ↦
      rw t (
        ap (λ (m : ℕ). tally i l + (if i == m then 1 else 0)) (sym ((==_iff j n).0 t))
        ∙ omega arith)
  | inr g ↦ rw g (omega (arith, tally-without n i l (ground (arith, eq-swap j n))))
]

length-without : (n : ℕ) (l : List ℕ) → 1 ≤ tally n l → length (without n l) + 1 ≡ length l
length-without n [] k = absurd (omega arith)
length-without n (j ∷ l) k = elim (Bool-cases (j == n)) [
  | inl t ↦ rw t (omega arith)
  | inr g ↦ rw g (omega (arith, length-without n l (ground (arith, eq-swap j n))))
]

-- Where the element is taken out of the used ones.
unlink_lem :
    (n : ℕ) (p : WpPool) (used free : List ℕ)
    → IsPool p used free
    → 1 ≤ tally n used
    → (q : WpPool) × (unlink n p ≡ done q)
      × Chain q.wp_pool q.head (without n used)
      × Chain q.wp_pool q.free_ free
      × ((j : ℕ) → (q.wp_pool j).number ≡ j)
unfolding unlink
unlink_lem n p [] free h k = absurd (omega arith)
unlink_lem n p (first ∷ l) free h k = elim (Bool-cases (first == n)) [
  | inl t ↦ (
    record p { head = (p.wp_pool n).next },
    rw (h.used_chain.0, t) refl,
    rw t (
        subst (λ (m : ℕ). Chain p.wp_pool ((p.wp_pool m).next) l) ((==_iff first n).0 t)
          h.used_chain.1),
    h.free_chain,
    h.numbers,
  )
  | inr g ↦
      let inside : 1 ≤ tally n l = ground (arith, eq-swap first n) in
      let a = once-Apart p (first ∷ l) free h in
      let b = before n first l in
      let w = record (p.wp_pool b) { next = (p.wp_pool n).next } in
      (
        record p { wp_pool = set_next b ((p.wp_pool n).next) p.wp_pool },
        rw
            (
              h.used_chain.0,
              g,
              find_before_lem nr_wp n first l p.wp_pool (omega (arith, h.size)) h.used_chain.1
                  inside,
            )
            refl,
        rw g (
          h.used_chain.0,
          Chain-without p.wp_pool n first l (Apart-Once (first ∷ l) free a) inside h.used_chain.1,
        ),
        Chain-update p.wp_pool b w p.free_ free (omega (arith, a b, before-tally n first l))
            h.free_chain,
        number-update p.wp_pool b w h.numbers (h.numbers b),
      )
]

-- Deleting the number of a used watchpoint takes its element out of the used ones and makes it the
-- first free one; the pool stays well formed.
pub delete_watchpoint-IsPool :
    (n : ℕ) (p : WpPool) (used free : List ℕ)
    → IsPool p used free
    → 1 ≤ tally n used
    → (r : WpPool) × (delete_watchpoint n p ≡ done r) × IsPool r (without n used) (n ∷ free)
unfolding delete_watchpoint free_wp
delete_watchpoint-IsPool n p used free h k =
    let u = unlink_lem n p used free h k in
    let q = u.0 in
    let w = record (q.wp_pool n) { next = q.free_; expr_str = []; old_value = 0 } in
    let a = once-Apart p used free h in
    (
      give_back n q,
      rw
          (
            find_number-some 33 n p.head used p.wp_pool (omega (arith, h.size)) h.numbers
                h.used_chain k,
            u.1,
          )
          refl,
      record {
        used_chain =
            Chain-update q.wp_pool n w q.head (without n used)
              (ground (arith, tally-without n n used k, a n)) u.2;
        free_chain = (
          refl,
          subst (λ (v : Wp). Chain (update q.wp_pool n w) (v.next) free)
              (sym (update-same q.wp_pool n w))
              (Chain-update q.wp_pool n w q.free_ free (omega (arith, a n)) u.3),
        );
        once = λ j. omega (arith, h.once j, tally-without n j used k);
        size = omega (arith, h.size, length-without n used k);
        numbers = number-update q.wp_pool n w u.4 (u.4 n);
      },
    )

-- Deleting a number that is not in use changes nothing.
pub delete_watchpoint-unused :
    (n : ℕ) (p : WpPool) (used free : List ℕ)
    → IsPool p used free
    → tally n used ≡ 0
    → delete_watchpoint n p ≡ done p
unfolding delete_watchpoint
delete_watchpoint-unused n p used free h k =
    rw
      (find_number-none 33 n p.head used p.wp_pool (omega (arith, h.size)) h.numbers h.used_chain k)
      refl
