-- ===== src/Device/Plic.antt =====
-- The interrupt controller: mayfly_emu/device/plic.c. `source_priority` has 31 elements; an access
-- to any other is a fault, and so is a shift of the `int` 1 by 32 or more.
pub mod Claim
use mayfly_emu.Prelude.{ℕ, zero, suc, ◌+◌, ◌-◌, ◌%◌, ◌^◌, ◌/◌, bit_and, bit_or, Bool, true, false}
use mayfly_emu.Prelude.{ltb, leb, ◌==◌, if◌then◌else◌, update}
use mayfly_emu.Word.{◌>>>◌, not32}
use mayfly_emu.Cpu.{Cpu, set_mip}
use mayfly_emu.Run.{Run, done, abort, fault, and_then, assert, require}

pub record Plic : Type 0 where
  pub source_priority : ℕ → ℕ
  pub source_pending : ℕ
  pub target_enables : ℕ
  pub target_threshold : ℕ
  pub target_claim : ℕ

-- `source_priority[i]`.
abbrev pub priority_at : ℕ → Plic → Run ℕ
priority_at i p = require (ltb i 31) (done (p.source_priority i))

unfoldable pub plic_read : ℕ → Plic → Run ℕ
plic_read offset p =
    and_then (if leb offset 0x7c then priority_at (offset >>> 2) p else done 0) λ ret. done (
      if offset == 0x1000
      then p.source_pending
      else if offset == 0x2080
      then p.target_enables
      else if offset == 0x201000
      then p.target_threshold
      else if offset == 0x201004
      then p.target_claim
      else ret)

unfoldable pub plic_write : ℕ → ℕ → ℕ → Plic → Run Plic
plic_write offset len wdata p0 =
    and_then
      (if leb offset 0x7c
        then assert (len == 4) (
            require (ltb (offset >>> 2) 31) (
              done
                (record p0 { source_priority = update p0.source_priority (offset >>> 2) wdata })))
        else done p0)
      λ p.
        if offset == 0x1000
        then abort
        else if offset == 0x2080
        then done (record p { target_enables = wdata })
        else if offset == 0x201000
        then done (record p { target_threshold = wdata })
        else if offset == 0x201004
        then require (ltb wdata 32)
            (done (record p { source_pending = bit_and p.source_pending (not32 (2 ^ wdata)) }))
        else done p

pub record Best : Type 0 where
  pub id : ℕ
  pub priority : ℕ

-- The rounds `i`, `i + 1`, ... of the loop in `plic_update`, `n` of them.
unfoldable pub claim_loop : ℕ → ℕ → Plic → Best → Run Best
claim_loop zero i p best = done best
claim_loop (suc n) i p best =
    let rest = claim_loop n (i + 1) p in
    if bit_and (bit_and p.source_pending p.target_enables >>> i) 0x1 == 1
    then (and_then (priority_at i p) λ priority.
        rest (if ltb best.priority priority then record { id = i; priority = priority } else best))
    else rest best

unfoldable pub plic_update : ℕ → Plic → Cpu → Run (Plic × Cpu)
unfolding claim_loop
plic_update exteranl_irq p0 c =
    let p = record p0 { source_pending = bit_or p0.source_pending exteranl_irq } in
    and_then (claim_loop 32 0 p (record { id = 0; priority = 0 })) λ best. done (
      record p { target_claim = best.id },
      if ltb p.target_threshold best.priority then set_mip 9 1 c else set_mip 9 0 c,
    )
