-- ===== src/Watchpoint/Pool.antt =====
-- The two lists of mayfly_emu/monitor/watchpoint.c and the elements of the pool.
use mathlib.Core.Path.{subst}
use mayfly_emu.Prelude.{ℕ, zero, suc, ◌+◌, ◌<◌, ◌≤◌, ◌≡◌, ◌≢◌, inl, inr, refl, sym, ap, ◌∙◌, arith}
use mayfly_emu.Prelude.{
  true, false, ltb, ◌==◌, if◌then◌else◌, update, Option, none, some, List, [], ◌∷◌, ◌++◌, length,
  length-append, Bool-cases, ==_iff, lt→ltb,
}
use mayfly_emu.Run.{done}
use mayfly_emu.Watchpoint.{
  Wp, WpPool, nr_wp, set_next, new_wp, find_last, link_last, fill, create_watchpoint,
}

-- The pointer leads through the elements of the list, in its order, to a null pointer.
abbrev pub Chain : (ℕ → Wp) → Option ℕ → List ℕ → Type 0
Chain pool o [] = o ≡ none
Chain pool o (i ∷ l) = (o ≡ some i) × Chain pool ((pool i).next) l

abbrev pub tally : ℕ → List ℕ → ℕ
tally i [] = 0
tally i (j ∷ l) = (if i == j then 1 else 0) + tally i l

pub tally-append : (i : ℕ) (xs ys : List ℕ) → tally i (xs ++ ys) ≡ tally i xs + tally i ys
tally-append i [] ys = omega arith
tally-append i (j ∷ xs) ys = omega (arith, tally-append i xs ys)

-- Each element of the pool is on exactly one of the two lists, once, and bears its number.
pub record IsPool (p : WpPool) (used free : List ℕ) : Type 0 where
  pub used_chain : Chain p.wp_pool p.head used
  pub free_chain : Chain p.wp_pool p.free_ free
  pub once : (i : ℕ) → tally i used + tally i free ≡ (if ltb i 32 then 1 else 0)
  pub size : length used + length free ≡ 32
  pub numbers : (i : ℕ) → (p.wp_pool i).number ≡ i

pub tally-head : (i j : ℕ) (l : List ℕ) → tally i (j ∷ l) ≡ 0 → i ≢ j
tally-head i j l h = ground arith

pub tally-tail : (i j : ℕ) (l : List ℕ) → tally i (j ∷ l) ≡ 0 → tally i l ≡ 0
tally-tail i j l h = omega arith

pub update-apart : (pool : ℕ → Wp) (i j : ℕ) (w : Wp) → i ≢ j → update pool i w j ≡ pool j
update-apart pool i j w h = rw (off i j h) refl
  where
    off : (i j : ℕ) → i ≢ j → (i == j) ≡ false
    off i j h = ground arith

pub update-same : (pool : ℕ → Wp) (i : ℕ) (w : Wp) → update pool i w i ≡ w
update-same pool i w = rw (same i) refl
  where
    same : (i : ℕ) → (i == i) ≡ true
    same i = ground arith

-- A change of an element that is not on a list leaves the list.
pub Chain-update :
    (pool : ℕ → Wp) (i : ℕ) (w : Wp) (o : Option ℕ) (l : List ℕ)
    → tally i l ≡ 0
    → Chain pool o l
    → Chain (update pool i w) o l
Chain-update pool i w o [] n c = c
Chain-update pool i w o (j ∷ l) n c = (
  c.0,
  subst (λ (v : Wp). Chain (update pool i w) (v.next) l)
      (sym (update-apart pool i j w (tally-head i j l n)))
      (Chain-update pool i w ((pool j).next) l (tally-tail i j l n) c.1),
)

abbrev last : ℕ → List ℕ → ℕ
last i [] = i
last i (j ∷ l) = last j l

find_last_lem :
    (fuel i : ℕ) (l : List ℕ) (pool : ℕ → Wp)
    → length l < fuel
    → Chain pool ((pool i).next) l
    → find_last fuel i pool ≡ done (last i l)
unfolding find_last
find_last_lem zero i l pool f c = absurd (omega arith)
find_last_lem (suc fuel) i [] pool f c = rw (find_last, c) refl
find_last_lem (suc fuel) i (j ∷ l) pool f c =
    rw (find_last, c.0) (find_last_lem fuel j l pool (omega arith) c.1)

tally-last : (i j : ℕ) (l : List ℕ) → tally i (j ∷ l) ≡ 0 → i ≢ last j l
tally-last i j [] h = tally-head i j [] h
tally-last i j (k ∷ l) h = tally-last i k l (tally-tail i j (k ∷ l) h)

-- Every element is on the list at most once.
abbrev pub Once : List ℕ → Type 0
Once l = (i : ℕ) → tally i l ≤ 1

pub self-tally : (i : ℕ) (l : List ℕ) → Once (i ∷ l) → tally i l ≡ 0
self-tally i l h = ground (arith, h i)

pub Once-tail : (i : ℕ) (l : List ℕ) → Once (i ∷ l) → Once l
Once-tail i l h j = omega (arith, h j)

-- The list from `i` on with an element put at its end.
Chain-append :
    (pool : ℕ → Wp) (i w : ℕ) (l : List ℕ)
    → Once (i ∷ l)
    → tally w (i ∷ l) ≡ 0
    → (pool w).next ≡ none
    → Chain pool ((pool i).next) l
    → Chain
        (set_next (last i l) (some w) pool)
        ((set_next (last i l) (some w) pool i).next)
        (l ++ (w ∷ []))
Chain-append pool i w [] s n e c = (
  ap (λ (v : Wp). v.next) (update-same pool i (record (pool i) { next = some w })),
  ap (λ (v : Wp). v.next)
        (update-apart pool i w (record (pool i) { next = some w })
          (λ q. tally-head w i [] n (sym q)))
      ∙ e,
)
Chain-append pool i w (j ∷ l) s n e c =
    let end = last j l in
    let apart = tally-last i j l (self-tally i (j ∷ l) s) in
    (
      ap (λ (v : Wp). v.next)
            (update-apart pool end i (record (pool end) { next = some w }) (λ q. apart (sym q)))
          ∙ c.0,
      Chain-append pool j w l (Once-tail i (j ∷ l) s) (tally-tail w i (j ∷ l) n) e c.1,
    )

pub number-update :
    (pool : ℕ → Wp) (i : ℕ) (w : Wp)
    → ((j : ℕ) → (pool j).number ≡ j)
    → w.number ≡ i
    → (j : ℕ) → (update pool i w j).number ≡ j
number-update pool i w h e j = elim (Bool-cases (i == j)) [
  | inl t ↦ rw t (e ∙ (==_iff i j).0 t)
  | inr f ↦ rw f (h j)
]

-- What `new_wp` and the filling of the element leave.
abbrev taken : ℕ → List ℕ → ℕ → Option ℕ → WpPool → WpPool
taken i str v rest p = fill i str v (record p { free_ = rest; wp_pool = set_next i none p.wp_pool })

taken-next :
    (i : ℕ) (str : List ℕ) (v : ℕ) (rest : Option ℕ) (p : WpPool)
    → ((taken i str v rest p).wp_pool i).next ≡ none
taken-next i str v rest p =
    ap (λ (x : Wp). x.next)
      (update-same (set_next i none p.wp_pool) i
        (record (set_next i none p.wp_pool i) { expr_str = str; old_value = v }))
    ∙ ap (λ (x : Wp). x.next) (update-same p.wp_pool i (record (p.wp_pool i) { next = none }))

taken-Chain :
    (i : ℕ) (str : List ℕ) (v : ℕ) (rest o : Option ℕ) (p : WpPool) (l : List ℕ)
    → tally i l ≡ 0
    → Chain p.wp_pool o l
    → Chain (taken i str v rest p).wp_pool o l
taken-Chain i str v rest o p l n c =
    Chain-update (set_next i none p.wp_pool) i _ o l n (Chain-update p.wp_pool i _ o l n c)

taken-numbers :
    (i : ℕ) (str : List ℕ) (v : ℕ) (rest : Option ℕ) (p : WpPool)
    → ((j : ℕ) → (p.wp_pool j).number ≡ j)
    → (j : ℕ) → ((taken i str v rest p).wp_pool j).number ≡ j
taken-numbers i str v rest p h =
    let first = number-update p.wp_pool i (record (p.wp_pool i) { next = none }) h (h i) in
    number-update (set_next i none p.wp_pool) i _ first (first i)

pub last-tally : (i : ℕ) (l : List ℕ) → 1 ≤ tally (last i l) (i ∷ l)
last-tally i [] = ground arith
last-tally i (j ∷ l) = omega (arith, last-tally j l)

-- No element is on both lists, nor twice on one.
abbrev pub Apart : List ℕ → List ℕ → Type 0
Apart used free = (j : ℕ) → tally j used + tally j free ≤ 1

pub Apart-Once : (used free : List ℕ) → Apart used free → Once used
Apart-Once used free a j = omega (arith, a j)

-- Where the taken element is put behind the used ones.
link_last_lem :
    (i : ℕ) (q : WpPool) (used free : List ℕ)
    → Chain q.wp_pool q.head used
    → Chain q.wp_pool q.free_ free
    → Apart used free
    → tally i used ≡ 0
    → length used ≤ 32
    → (q.wp_pool i).next ≡ none
    → ((j : ℕ) → (q.wp_pool j).number ≡ j)
    → (r : WpPool) × (link_last i q ≡ done r)
      × Chain r.wp_pool r.head (used ++ (i ∷ []))
      × Chain r.wp_pool r.free_ free
      × ((j : ℕ) → (r.wp_pool j).number ≡ j)
unfolding link_last
link_last_lem i q [] free c d a n z e h = (record q { head = some i }, rw (c) refl, (refl, e), d, h)
link_last_lem i q (first ∷ l) free c d a n z e h =
    let end = last first l in
    let w = record (q.wp_pool end) { next = some i } in
    (
      record q { wp_pool = set_next end (some i) q.wp_pool },
      rw (c.0, find_last_lem nr_wp first l q.wp_pool (omega arith) c.1) refl,
      (c.0, Chain-append q.wp_pool first i l (Apart-Once (first ∷ l) free a) n e c.1),
      Chain-update q.wp_pool end w q.free_ free (omega (arith, a end, last-tally first l)) d,
      number-update q.wp_pool end w h (h end),
    )

pub once-Apart : (p : WpPool) (used free : List ℕ) → IsPool p used free → Apart used free
once-Apart p used free h j = ground (arith, h.once j)

in_pool :
    (i : ℕ) (used free : List ℕ)
    → tally i used + tally i (i ∷ free) ≤ 1
    → (tally i used ≡ 0) × (tally i free ≡ 0)
in_pool i used free h = ground arith

new_wp-some :
    (i : ℕ) (p : WpPool)
    → p.free_ ≡ some i
    → new_wp p
      ≡ (some i, record p { free_ = (p.wp_pool i).next; wp_pool = set_next i none p.wp_pool })
unfolding new_wp
new_wp-some i p q = rw (q) refl

create-run :
    (expr : List ℕ → Option ℕ) (str : List ℕ) (v i : ℕ) (p : WpPool)
    → expr str ≡ some v
    → p.free_ ≡ some i
    → ltb (length str) 500 ≡ true
    → create_watchpoint expr str p ≡ link_last i (taken i str v ((p.wp_pool i).next) p)
unfolding create_watchpoint
create-run expr str v i p e q l =
    let new = new_wp-some i p q in rw (create_watchpoint, e, new, l) (rw new refl)

-- Creating a watchpoint on a text that has a value and fits its array takes the first free element
-- and puts it at the end of the used ones; the pool stays well formed.
pub create_watchpoint-IsPool :
    (expr : List ℕ → Option ℕ) (str : List ℕ) (v i : ℕ) (p : WpPool) (used free : List ℕ)
    → IsPool p used (i ∷ free)
    → expr str ≡ some v
    → length str < 500
    → (r : WpPool) × (create_watchpoint expr str p ≡ done r) × IsPool r (used ++ (i ∷ [])) free
create_watchpoint-IsPool expr str v i p used free h e f =
    let a = once-Apart p used (i ∷ free) h in
    let both = in_pool i used free (a i) in
    let rest = (p.wp_pool i).next in
    let q = taken i str v rest p in
    let linked =
      link_last_lem i q used free (taken-Chain i str v rest p.head p used both.0 h.used_chain)
        (taken-Chain i str v rest rest p free both.1 (h.free_chain.1)) (λ j. omega (arith, a j))
        both.0 (omega (arith, h.size)) (taken-next i str v rest p)
        (taken-numbers i str v rest p h.numbers) in
    (
      linked.0,
      create-run expr str v i p e (h.free_chain.0) (lt→ltb (length str) 500 f) ∙ linked.1,
      record {
        used_chain = linked.2;
        free_chain = linked.3;
        once = λ j. omega (arith, h.once j, tally-append j used (i ∷ []));
        size = omega (arith, h.size, length-append used (i ∷ []));
        numbers = linked.4;
      },
    )
