-- ===== src/Device/Plic/Claim.antt =====
-- Which source `plic_update` of mayfly_emu/device/plic.c claims.
use mathlib.Core.Path.{subst}
use mathlib.Core.Bool.{false≢true}
use mayfly_emu.Prelude.{ap, ℕ, zero, suc, ◌+◌, ◌<◌, ◌≤◌, ◌≡◌, refl, sym, ◌∙◌, ◌⊎◌, inl, inr, arith}
use mayfly_emu.Prelude.{Bool, true, false, ltb, ◌==◌, bit_and, bit_or, if◌then◌else◌, Bool-cases}
use mayfly_emu.Word.{◌>>>◌}
use mayfly_emu.Cpu.{Cpu, set_mip}
use mayfly_emu.Run.{Run, done, fault, and_then}
use mayfly_emu.Device.Plic.{Plic, Best, priority_at, claim_loop, plic_update}

-- The source is pending and enabled.
abbrev pub requested : Plic → ℕ → Bool
requested p i = bit_and (bit_and p.source_pending p.target_enables >>> i) 0x1 == 1

-- The claimed source is requested, has the highest priority of the requested ones below `n`, and
-- the lowest number among those of its priority.
pub record IsClaimed (p : Plic) (n : ℕ) (best : Best) : Type 0 where
  pub below : best.id < n
  pub request : requested p best.id ≡ true
  pub its_priority : p.source_priority best.id ≡ best.priority
  pub positive : 0 < best.priority
  pub lowest : (j : ℕ) → j < best.id → requested p j ≡ true → p.source_priority j < best.priority

pub record IsBest (p : Plic) (n : ℕ) (best : Best) : Type 0 where
  pub upper : (j : ℕ) → j < n → requested p j ≡ true → p.source_priority j ≤ best.priority
  pub claim : ((best.id ≡ 0) × (best.priority ≡ 0)) ⊎ IsClaimed p n best

-- The choice between the best source and the one of the round.
abbrev better : ℕ → ℕ → Best → Best
better i priority best =
    if ltb best.priority priority then record { id = i; priority = priority } else best

below-cases : (j i : ℕ) → j < i + 1 → (j < i) ⊎ (j ≡ i)
below-cases j i h = omega arith

grow-IsClaimed : (p : Plic) (i : ℕ) (best : Best) → IsClaimed p i best → IsClaimed p (i + 1) best
grow-IsClaimed p i best c = record {
  below = omega (arith, c.below);
  request = c.request;
  its_priority = c.its_priority;
  positive = c.positive;
  lowest = c.lowest;
}

-- A source that is not requested, or has no higher priority, leaves the best.
keep-IsBest :
    (p : Plic) (i : ℕ) (best : Best)
    → (requested p i ≡ true → p.source_priority i ≤ best.priority)
    → IsBest p i best
    → IsBest p (i + 1) best
keep-IsBest p i best r b = record {
  upper = λ j h q. elim (below-cases j i h) [
    | inl below ↦ b.upper j below q
    | inr e ↦ rw e (r (rw⁻¹ e q))
  ];
  claim = elim (b.claim) [ inl z ↦ inl z | inr c ↦ inr (grow-IsClaimed p i best c) ];
}

raise-IsBest :
    (p : Plic) (i : ℕ) (best : Best)
    → requested p i ≡ true
    → best.priority < p.source_priority i
    → IsBest p i best
    → IsBest p (i + 1) (record { id = i; priority = p.source_priority i })
raise-IsBest p i best r l b = record {
  upper = λ j h q. elim (below-cases j i h) [
    | inl below ↦ omega (arith, b.upper j below q)
    | inr e ↦ rw e (omega arith)
  ];
  claim = inr (record {
    below = omega arith;
    request = r;
    its_priority = refl;
    positive = omega arith;
    lowest = λ j h q. omega (arith, b.upper j h q);
  });
}

better-IsBest :
    (p : Plic) (i : ℕ) (best : Best)
    → requested p i ≡ true
    → IsBest p i best
    → IsBest p (i + 1) (better i (p.source_priority i) best)
better-IsBest p i best r b = elim (Bool-cases (ltb best.priority (p.source_priority i))) [
  | inl l ↦ rw l (raise-IsBest p i best r (ground arith) b)
  | inr g ↦ rw g (keep-IsBest p i best (λ _. ground arith) b)
]

-- The loop ends with the best of the sources below `n`, source 31 not being requested if it is one of
-- them, or it faults at source 31.
Claims : Plic → ℕ → Run Best → Type 0
Claims p n x =
    ((best : Best) × IsBest p n best × (31 < n → requested p 31 ≡ false) × (x ≡ done best))
    ⊎ ((requested p 31 ≡ true) × (x ≡ fault))

-- A round at a requested source, before the rest of the loop.
round-Claims :
    (p : Plic) (i n : ℕ) (best : Best) (rest : Best → Run Best)
    → i ≤ 31
    → requested p i ≡ true
    → IsBest p i best
    → ((b : Best) → IsBest p (i + 1) b → i < 31 → Claims p n (rest b))
    → Claims p n (and_then (priority_at i p) λ priority. rest (better i priority best))
unfolding Claims
round-Claims p i n best rest h r b k = elim (Bool-cases (ltb i 31)) [
  | inl l ↦ rw l (k _ (better-IsBest p i best r b) (ground arith))
  | inr g ↦ inr (subst (λ (j : ℕ). requested p j ≡ true) (last g) r, rw g refl)
]
  where
    last : ltb i 31 ≡ false → i ≡ 31
    last g = ground arith

claim_loop-Claims :
    (n i k : ℕ) (p : Plic) (best : Best)
    → i + n ≡ k
    → k ≤ 32
    → IsBest p i best
    → (31 < i → requested p 31 ≡ false)
    → Claims p k (claim_loop n i p best)
unfolding claim_loop Claims
claim_loop-Claims zero i k p best e h b f =
    inl (best, subst (λ j. IsBest p j best) (omega arith) b, λ l. f (omega arith), refl)
claim_loop-Claims (suc n) i k p best e h b f = elim (Bool-cases (requested p i)) [
  | inl r ↦ rw r (
      round-Claims p i k best (claim_loop n (i + 1) p) (omega arith) r b (λ b' h' l.
        claim_loop-Claims n (i + 1) k p b' (omega arith) h h' (λ l'. absurd (omega arith))))
  | inr free ↦ rw free (
      claim_loop-Claims n (i + 1) k p best (omega arith) h
        (keep-IsBest p i best (λ r. absurd (false≢true (sym free ∙ r))) b)
        (λ l. elim (below-cases 31 i l) [
          | inl below ↦ f below
          | inr same ↦ subst (λ j. requested p j ≡ false) (sym same) free
        ]))
]

-- The pending sources of the update.
abbrev pub pend : ℕ → Plic → Plic
pend irq p = record p { source_pending = bit_or p.source_pending irq }

start-IsBest : (p : Plic) → IsBest p 0 (record { id = 0; priority = 0 })
start-IsBest p = record { upper = λ j h q. absurd (omega arith); claim = inl (refl, refl) }

if_mip :
    (b : Bool) (c : Cpu)
    → (if b then set_mip 9 1 c else set_mip 9 0 c) ≡ set_mip 9 (if b then 1 else 0) c
if_mip true c = refl
if_mip false c = refl

-- An update adds the new sources to the pending ones, and claims the requested source of the
-- highest priority, the lowest-numbered of those, or 0 if no requested source has a priority above
-- 0; it sets the supervisor external interrupt bit of `mip` exactly if that priority is above the
-- threshold. It does so exactly where source 31 is not requested: where it is, the update reads
-- `source_priority` out of its bounds.
pub plic_update-IsBest :
    (irq : ℕ) (p : Plic) (c : Cpu)
    → ((requested (pend irq p) 31 ≡ false)
        × (best : Best) × IsBest (pend irq p) 32 best
        × (plic_update irq p c
            ≡ done (
              record (pend irq p) { target_claim = best.id },
              set_mip 9 (if ltb p.target_threshold best.priority then 1 else 0) c,
            )))
      ⊎ ((requested (pend irq p) 31 ≡ true) × (plic_update irq p c ≡ fault))
unfolding plic_update Claims
plic_update-IsBest irq p c =
    elim (claim_loop-Claims 32 0 32 (pend irq p) (record { id = 0; priority = 0 }) refl
      (omega arith) (start-IsBest (pend irq p)) (λ l. absurd (omega arith))) [
        | inl (best, b, f, q) ↦ inl (
          f (omega arith),
          best,
          b,
          rw q (
              ap (λ d. done (record (pend irq p) { target_claim = best.id }, d))
                (if_mip (ltb p.target_threshold best.priority) c)),
        )
        | inr (r, q) ↦ inr (r, rw q refl)
      ]
