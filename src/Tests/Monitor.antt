-- ===== src/Tests/Monitor.antt =====
-- The watchpoints.
use mayfly_emu.Prelude.{ℕ, ◌≡◌, refl, arith, Option, none, some, List, [], ◌∷◌}
use mayfly_emu.Run.{done}
use mayfly_emu.Watchpoint.{WpPool, init_wp_pool, create_watchpoint, delete_watchpoint}
use mayfly_emu.Watchpoint.Pool.{IsPool, create_watchpoint-IsPool}
use mayfly_emu.Watchpoint.Delete.{delete_watchpoint-IsPool}
use mayfly_emu.Watchpoint.Init.{range, init_wp_pool-IsPool}

-- The pool before it is initialised.
abbrev blank : WpPool
blank = record {
  wp_pool = λ i. record { number = 0; next = none; expr_str = []; old_value = 0 };
  head = none;
  free_ = none;
}

abbrev seven : List ℕ → Option ℕ
seven str = some 7

create_watchpoint-IsPool_example :
    (r : WpPool) × (create_watchpoint seven (55 ∷ []) (init_wp_pool blank) ≡ done r)
    × IsPool r (0 ∷ []) (range 1 31)
create_watchpoint-IsPool_example =
    create_watchpoint-IsPool seven (55 ∷ []) 7 0 (init_wp_pool blank) [] (range 1 31)
      (init_wp_pool-IsPool blank) refl (omega arith)

-- A pool with one watchpoint.
abbrev one_used :
    (r : WpPool) × (create_watchpoint seven (55 ∷ []) (init_wp_pool blank) ≡ done r)
    × IsPool r (0 ∷ []) (range 1 31)
one_used =
    create_watchpoint-IsPool seven (55 ∷ []) 7 0 (init_wp_pool blank) [] (range 1 31)
      (init_wp_pool-IsPool blank) refl (omega arith)

delete_watchpoint-IsPool_example :
    (r : WpPool) × (delete_watchpoint 0 (one_used.0) ≡ done r) × IsPool r [] (0 ∷ range 1 31)
delete_watchpoint-IsPool_example =
    delete_watchpoint-IsPool 0 (one_used.0) (0 ∷ []) (range 1 31) (one_used.2) (omega arith)
