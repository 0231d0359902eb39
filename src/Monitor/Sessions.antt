-- ===== src/Monitor/Sessions.antt =====
-- Whole sessions with the monitor of mayfly_emu/monitor/sdb.c.
use mathlib.Core.Path.{subst}
use mayfly_emu.Prelude.{
  ℕ, ◌≤◌, ◌≡◌, ◌⊎◌, refl, ap, inl, inr, arith, Bool-cases, Option-cases, ltb→lt,
}
use mayfly_emu.Prelude.{
  Bool, true, false, ltb, if◌then◌else◌, Option, none, some, List, [], ◌∷◌, ◌++◌, length,
}
use mayfly_emu.Run.{Run, done, abort, fault, and_then}
use mayfly_emu.Watchpoint.{WpPool, new_wp, create_watchpoint, delete_watchpoint}
use mayfly_emu.Watchpoint.Pool.{IsPool, tally, create_watchpoint-IsPool}
use mayfly_emu.Watchpoint.Delete.{without, delete_watchpoint-IsPool, delete_watchpoint-unused}
use mayfly_emu.Watchpoint.Init.{range, init_wp_pool-IsPool}
use mayfly_emu.Expr.Number.{atoi}
use mayfly_emu.Expr.Token.{Pcre}
use mayfly_emu.Expr.Eval.{expr}
use mayfly_emu.Monitor.{
  Monitor, Line, cmd_c, cmd_si, cmd_info, cmd_x, cmd_p, cmd_w, cmd_d, scan_from, scan_number,
  text_of, strtok, Command, help, c, q, si, info, x, p, w, d, handler, find_command, cmd_table,
  args_of, run_line, sdb_mainloop, init_sdb,
}

-- Some split of the elements into used and free ones is that of the pool.
abbrev pub Sound : WpPool → Type 0
Sound pool = (used : List ℕ) × (free : List ℕ) × IsPool pool used free

abbrev Ends : Run WpPool → Type 0
Ends (done pool) = Sound pool
Ends abort = Unit {0}
Ends fault = Unit {0}

create-none :
    (value : List ℕ → Option ℕ) (str : List ℕ) (pool : WpPool)
    → value str ≡ none
    → create_watchpoint value str pool ≡ done pool
unfolding create_watchpoint
create-none value str pool e = rw (e, create_watchpoint) refl

new-none : (pool : WpPool) → pool.free_ ≡ none → new_wp pool ≡ (none, pool)
unfolding new_wp
new-none pool f = ground arith

new-some : (i : ℕ) (pool : WpPool) → pool.free_ ≡ some i → (new_wp pool).0 ≡ some i
unfolding new_wp
new-some i pool f = rw (f, new_wp) refl

create-full :
    (value : List ℕ → Option ℕ) (str : List ℕ) (v : ℕ) (pool : WpPool)
    → value str ≡ some v
    → pool.free_ ≡ none
    → create_watchpoint value str pool ≡ done pool
unfolding create_watchpoint
create-full value str v pool e f =
    rw (e, create_watchpoint)
      (let same = new-none pool f in rw (same) (ap (λ (r : Option ℕ × WpPool). done r.1) same))

create-long :
    (value : List ℕ → Option ℕ) (str : List ℕ) (v i : ℕ) (pool : WpPool)
    → value str ≡ some v
    → pool.free_ ≡ some i
    → ltb (length str) 500 ≡ false
    → create_watchpoint value str pool ≡ fault
unfolding create_watchpoint
create-long value str v i pool e f l = rw (e, create_watchpoint) (rw (new-some i pool f, l) refl)

create-Ends :
    (value : List ℕ → Option ℕ) (str : List ℕ) (pool : WpPool) (used free : List ℕ)
    → IsPool pool used free
    → Ends (create_watchpoint value str pool)
create-Ends value str pool used free h = elim (Option-cases (value str)) [
  | inl e ↦ rw (create-none value str pool e) (used, free, h)
  | inr (v, e) ↦ taken free h
]
  where
    taken : (l : List ℕ) → IsPool pool used l → Ends (create_watchpoint value str pool)
    taken [] g = elim (Option-cases (value str)) [
      | inl e ↦ rw (create-none value str pool e) (used, [], g)
      | inr (v, e) ↦ rw (create-full value str v pool e g.free_chain) (used, [], g)
    ]
    taken (i ∷ l) g = elim (Option-cases (value str)) [
      | inl e ↦ rw (create-none value str pool e) (used, i ∷ l, g)
      | inr (v, e) ↦ elim (Bool-cases (ltb (length str) 500)) [
        | inl short ↦
            let r =
              create_watchpoint-IsPool value str v i pool used l g e
                (ltb→lt (length str) 500 short) in
            rw (r.1) (used ++ (i ∷ []), l, r.2)
        | inr long ↦ rw (create-long value str v i pool e g.free_chain.0 long) tt
      ]
    ]

tally-cases : (n : ℕ) (l : List ℕ) → (tally n l ≡ 0) ⊎ (1 ≤ tally n l)
tally-cases n l = omega arith

delete-Ends :
    (n : ℕ) (pool : WpPool) (used free : List ℕ)
    → IsPool pool used free
    → Ends (delete_watchpoint n pool)
delete-Ends n pool used free h = elim (tally-cases n used) [
  | inl z ↦ rw (delete_watchpoint-unused n pool used free h z) (used, free, h)
  | inr k ↦
      let r = delete_watchpoint-IsPool n pool used free h k in
      rw (r.1) (without n used, n ∷ free, r.2)
]

-- The pool is sound behind an outcome that returns.
abbrev SoundEnds : Run Monitor → Type 0
SoundEnds (done s) = Sound s.pool
SoundEnds abort = Unit {0}
SoundEnds fault = Unit {0}

data IsSound (r : Run Monitor) : Type 0 where
  is_sound : SoundEnds r → IsSound r

ends_of : {r : Run Monitor} → IsSound r → SoundEnds r
ends_of (is_sound h) = h

IsSound-done : {s : Monitor} → Sound s.pool → IsSound (done s)
IsSound-done h = is_sound h

IsSound-and_then :
    {A : Type 0} (r : Run A) (k : A → Run Monitor)
    → ((a : A) → IsSound (k a))
    → IsSound (and_then r k)
IsSound-and_then (done a) k h = h a
IsSound-and_then abort k h = is_sound tt
IsSound-and_then fault k h = is_sound tt

IsSound-pool :
    (r : Run WpPool) (k : WpPool → Monitor)
    → ((pool : WpPool) → (k pool).pool ≡ pool)
    → Ends r
    → IsSound (and_then r λ pool. done (k pool))
IsSound-pool (done pool) k same h = is_sound (rw (same pool) h)
IsSound-pool abort k same h = is_sound tt
IsSound-pool fault k same h = is_sound tt

IsSound-if :
    (b : Bool) (r r' : Run Monitor) → IsSound r → IsSound r' → IsSound (if b then r else r')
IsSound-if true r r' h h' = h
IsSound-if false r r' h h' = h'

IsSound-fault : IsSound fault
IsSound-fault = is_sound tt

ruleset sound_rules = (IsSound-done, IsSound-fault, IsSound-and_then, IsSound-if)

module _ (s : Monitor) (h : Sound s.pool) where
  c-IsSound : (l : Line) → IsSound (cmd_c l s)
  unfolding cmd_c
  c-IsSound l = search (sound_rules)

  si-IsSound : (args : Option (List ℕ)) (l : Line) → IsSound (cmd_si args l s)
  unfolding cmd_si
  si-IsSound none l = search (sound_rules)
  si-IsSound (some args) l = search (sound_rules)

  info-IsSound : (args : Option (List ℕ)) → IsSound (cmd_info args s)
  unfolding cmd_info
  info-IsSound none = IsSound-done h
  info-IsSound (some args) = search (sound_rules)

  from-IsSound : (num : ℕ) (o : Option (List ℕ × List ℕ)) → IsSound (scan_from num o s)
  unfolding scan_from
  from-IsSound num none = is_sound tt
  from-IsSound num (some (str_addr, _)) = search (sound_rules)

  number-IsSound : (o : Option (List ℕ × List ℕ)) → IsSound (scan_number o s)
  unfolding scan_number
  number-IsSound none = is_sound tt
  number-IsSound (some (str_num, rest)) = search (sound_rules, from-IsSound)

  x-IsSound : (args : Option (List ℕ)) → IsSound (cmd_x args s)
  unfolding cmd_x
  x-IsSound none = IsSound-done h
  x-IsSound (some args) = number-IsSound (strtok args)

  p-IsSound : (stack : ℕ) (pcre : Pcre) (args : Option (List ℕ)) → IsSound (cmd_p stack pcre args s)
  unfolding cmd_p
  p-IsSound stack pcre args = search (sound_rules)

  w-IsSound : (stack : ℕ) (pcre : Pcre) (args : Option (List ℕ)) → IsSound (cmd_w stack pcre args s)
  unfolding cmd_w
  w-IsSound stack pcre args = IsSound-and_then (expr stack pcre args s.tokens s.machine) _ (λ r.
      IsSound-pool (create_watchpoint (λ _. r.0.0) (text_of args) s.pool)
        (λ pool. record s { machine = r.1; tokens = r.0.1; pool = pool }) (λ pool. refl)
        (create-Ends (λ _. r.0.0) (text_of args) s.pool h.0 h.1 h.2))

  d-IsSound : (args : Option (List ℕ)) → IsSound (cmd_d args s)
  unfolding cmd_d
  d-IsSound none = is_sound tt
  d-IsSound (some args) =
      let deleted =
        IsSound-pool (delete_watchpoint (atoi args) s.pool) (λ pool. record s { pool = pool })
          (λ pool. refl) (delete-Ends (atoi args) s.pool h.0 h.1 h.2) in
      search (sound_rules)

-- The same for an outcome with an answer.
abbrev AnswerEnds : Run (Bool × Monitor) → Type 0
AnswerEnds (done r) = Sound r.1.pool
AnswerEnds abort = Unit {0}
AnswerEnds fault = Unit {0}

answer : (b : Bool) (r : Run Monitor) → IsSound r → AnswerEnds (and_then r λ s'. done (b, s'))
answer b (done s) (is_sound h) = h
answer b abort h = tt
answer b fault h = tt

handler-AnswerEnds :
    (stack : ℕ) (pcre : Pcre) (command : Command) (args : Option (List ℕ)) (l : Line) (s : Monitor)
    → Sound s.pool
    → AnswerEnds (handler stack pcre command args l s)
unfolding handler
handler-AnswerEnds stack pcre help args l s h = h
handler-AnswerEnds stack pcre c args l s h = answer false (cmd_c l s) (c-IsSound s h l)
handler-AnswerEnds stack pcre q args l s h = h
handler-AnswerEnds stack pcre si args l s h = answer false (cmd_si args l s) (si-IsSound s h args l)
handler-AnswerEnds stack pcre info args l s h =
    answer false (cmd_info args s) (info-IsSound s h args)
handler-AnswerEnds stack pcre x args l s h = answer false (cmd_x args s) (x-IsSound s h args)
handler-AnswerEnds stack pcre p args l s h =
    answer false (cmd_p stack pcre args s) (p-IsSound s h stack pcre args)
handler-AnswerEnds stack pcre w args l s h =
    answer false (cmd_w stack pcre args s) (w-IsSound s h stack pcre args)
handler-AnswerEnds stack pcre d args l s h = answer false (cmd_d args s) (d-IsSound s h args)

run_line-AnswerEnds :
    (stack : ℕ) (pcre : Pcre) (l : Line) (s : Monitor)
    → Sound s.pool
    → AnswerEnds (run_line stack pcre l s)
unfolding run_line
run_line-AnswerEnds stack pcre l s h = elim (Option-cases (strtok l.text)) [
  | inl blank ↦ rw (blank, run_line) h
  | inr (tok, e) ↦ elim (Option-cases (find_command cmd_table tok.0)) [
    | inl unknown ↦ rw (e, run_line, unknown) h
    | inr (command, known) ↦
        rw (e, run_line, known) (handler-AnswerEnds stack pcre command (args_of tok.1) l s h)
  ]
]

next-AnswerEnds :
    (r : Run (Bool × Monitor)) (k : Monitor → Run (Bool × Monitor))
    → AnswerEnds r
    → ((s : Monitor) → Sound s.pool → AnswerEnds (k s))
    → AnswerEnds (and_then r λ a. elim (a.0) [ true ↦ done (true, a.1) | false ↦ k a.1 ])
next-AnswerEnds (done (true, s)) k h hk = h
next-AnswerEnds (done (false, s)) k h hk = hk s h
next-AnswerEnds abort k h hk = tt
next-AnswerEnds fault k h hk = tt

mainloop-AnswerEnds :
    (stack : ℕ) (pcre : Pcre) (ls : List Line) (s : Monitor)
    → Sound s.pool
    → AnswerEnds (sdb_mainloop stack pcre ls s)
unfolding sdb_mainloop
mainloop-AnswerEnds stack pcre [] s h = h
mainloop-AnswerEnds stack pcre (l ∷ ls) s h =
    next-AnswerEnds (run_line stack pcre l s) (sdb_mainloop stack pcre ls)
      (run_line-AnswerEnds stack pcre l s h) (mainloop-AnswerEnds stack pcre ls)

-- From the start of the monitor, whatever lines are entered, the watchpoints are well formed
-- behind a session that returns: each of the 32 elements is on exactly one of the two lists.
pub sdb_mainloop-Sound :
    (stack : ℕ) (pcre : Pcre) (ls : List Line) (s : Monitor) (r : Bool × Monitor)
    → sdb_mainloop stack pcre ls (init_sdb s) ≡ done r
    → Sound r.1.pool
sdb_mainloop-Sound stack pcre ls s r e =
    subst (λ (o : Run (Bool × Monitor)). AnswerEnds o) e
      (mainloop-AnswerEnds stack pcre ls (init_sdb s) ([], range 0 32, init_wp_pool-IsPool s.pool))
