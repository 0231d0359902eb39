-- ===== src/Watchpoint.antt =====
-- The watchpoints of mayfly_emu/monitor/watchpoint.c, less what they print. A pointer into `wp_pool` is
-- the number of the element. `expr` of mayfly_emu/monitor/expr.c is a parameter: its value on a text, or
-- none if it reports a failure. A loop over a list runs on fuel for the elements of the pool; a list
-- that is longer goes round, the loop does not end, and the outcome counts as a fault.
pub mod Pool
pub mod Delete
pub mod Init
use mayfly_emu.Prelude.{
  ℕ, zero, suc, ◌+◌, ◌-◌, Bool, true, false, not, ltb, ◌==◌, if◌then◌else◌, update,
}
use mayfly_emu.Prelude.{Option, none, some, List, [], ◌∷◌, length}
use mayfly_emu.Run.{Run, done, abort, fault, and_then, require}

pub record Wp : Type 0 where
  pub number : ℕ
  pub next : Option ℕ
  pub expr_str : List ℕ
  pub old_value : ℕ

pub record WpPool : Type 0 where
  pub wp_pool : ℕ → Wp
  pub head : Option ℕ
  pub free_ : Option ℕ

abbrev pub nr_wp : ℕ
nr_wp = 32

-- `wp->next = o`.
abbrev pub set_next : ℕ → Option ℕ → (ℕ → Wp) → ℕ → Wp
set_next i o pool = update pool i (record (pool i) { next = o })

unfoldable pub init_wp_pool : WpPool → WpPool
init_wp_pool p = record {
  wp_pool = λ i. record (p.wp_pool i) {
    number = i;
    next = if i == nr_wp - 1 then none else some (i + 1);
  };
  head = none;
  free_ = some 0;
}

-- The element taken, if there is one.
unfoldable pub new_wp : WpPool → Option ℕ × WpPool
new_wp p = elim (p.free_) [
  | none ↦ (none, p)
  | some temp ↦ (
    some temp,
    record p { free_ = (p.wp_pool temp).next; wp_pool = set_next temp none p.wp_pool },
  )
]

-- The loops that look for the last element, for the one before `wp`, and for the one of a number,
-- from the element `temp` on.
unfoldable pub find_last : ℕ → ℕ → (ℕ → Wp) → Run ℕ
find_last zero temp pool = fault
find_last (suc fuel) temp pool = elim ((pool temp).next) [
  | none ↦ done temp
  | some j ↦ find_last fuel j pool
]

unfoldable pub find_before : ℕ → ℕ → ℕ → (ℕ → Wp) → Run ℕ
find_before zero wp temp pool = fault
find_before (suc fuel) wp temp pool = elim ((pool temp).next) [
  | none ↦ done temp
  | some j ↦ let rest = find_before fuel wp j pool in if j == wp then done temp else rest
]

unfoldable pub find_number : ℕ → ℕ → Option ℕ → (ℕ → Wp) → Run (Option ℕ)
find_number zero n temp pool = fault
find_number (suc fuel) n none pool = done none
find_number (suc fuel) n (some i) pool =
    let rest = find_number fuel n ((pool i).next) pool in
    if (pool i).number == n then done (some i) else rest

-- Takes `wp` out of the list of `head`. An empty list that does not begin with `wp` is a null
-- pointer that the loop reads.
unfoldable pub unlink : ℕ → WpPool → Run WpPool
unfolding find_before
unlink wp p = elim (p.head) [
  | none ↦ fault
  | some first ↦
      if first == wp
      then done (record p { head = (p.wp_pool wp).next })
      else and_then (find_before nr_wp wp first p.wp_pool)
          λ temp. done (record p { wp_pool = set_next temp ((p.wp_pool wp).next) p.wp_pool })
]

-- Behind the removal: the element is cleared and becomes the first free one.
abbrev pub give_back : ℕ → WpPool → WpPool
give_back wp p = record p {
  wp_pool =
      update p.wp_pool wp (record (p.wp_pool wp) { next = p.free_; expr_str = []; old_value = 0 });
  free_ = some wp;
}

unfoldable pub free_wp : ℕ → WpPool → Run WpPool
unfolding unlink
free_wp wp p = and_then (unlink wp p) λ q. done (give_back wp q)

-- Puts the element at the end of the list of `head`.
unfoldable pub link_last : ℕ → WpPool → Run WpPool
unfolding find_last
link_last wp p = elim (p.head) [
  | none ↦ done (record p { head = some wp })
  | some first ↦
      and_then (find_last nr_wp first p.wp_pool)
        λ temp. done (record p { wp_pool = set_next temp (some wp) p.wp_pool })
]

-- `strcpy` into an array of 500 characters, and the value.
abbrev pub fill : ℕ → List ℕ → ℕ → WpPool → WpPool
fill wp str value p = record p {
  wp_pool = update p.wp_pool wp (record (p.wp_pool wp) { expr_str = str; old_value = value });
}

unfoldable pub create_watchpoint : (List ℕ → Option ℕ) → List ℕ → WpPool → Run WpPool
unfolding new_wp link_last
create_watchpoint expr str p = elim (expr str) [
  | none ↦ done p
  | some value ↦
      let r = new_wp p in
      elim (r.0) [
        | none ↦ done r.1
        | some wp ↦ require (ltb (length str) 500) (link_last wp (fill wp str value r.1))
      ]
]

unfoldable pub delete_watchpoint : ℕ → WpPool → Run WpPool
unfolding find_number free_wp
delete_watchpoint n p =
    and_then (find_number (suc nr_wp) n p.head p.wp_pool)
      λ found. elim found [ none ↦ done p | some wp ↦ free_wp wp p ]

-- The loop of `calculate_watchpoint`: the first element whose value has changed takes the new one.
unfoldable pub calculate : ℕ → (List ℕ → Option ℕ) → Option ℕ → WpPool → Run (Bool × WpPool)
calculate zero expr temp p = fault
calculate (suc fuel) expr none p = done (false, p)
calculate (suc fuel) expr (some i) p =
    let rest = calculate fuel expr ((p.wp_pool i).next) p in
    elim (expr ((p.wp_pool i).expr_str)) [
      | none ↦ abort
      | some value ↦
          if not ((p.wp_pool i).old_value == value)
          then done (
            true,
            record p { wp_pool = update p.wp_pool i (record (p.wp_pool i) { old_value = value }) },
          )
          else rest
    ]

unfoldable pub calculate_watchpoint : (List ℕ → Option ℕ) → WpPool → Run (Bool × WpPool)
unfolding calculate
calculate_watchpoint expr p = calculate (suc nr_wp) expr p.head p
