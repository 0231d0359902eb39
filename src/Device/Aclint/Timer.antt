-- ===== src/Device/Aclint/Timer.antt =====
-- The machine timer of mayfly_emu/device/aclint.c over many updates.
use mayfly_emu.Prelude.{ℕ, zero, suc, ◌+◌, ◌/◌, ◌%◌, ◌^◌, ◌<◌, ◌≤◌, ◌≡◌, ◌↔◌, refl, arith}
use mayfly_emu.Prelude.{leb, ◌==◌, if◌then◌else◌, Bool-cases, inl, inr}
use mayfly_emu.Word.{field, abs, signed32}
use mayfly_emu.Cpu.{Cpu, set_mip}
use mayfly_emu.Device.Aclint.{Aclint, aclint_update}

-- `n` updates, one behind the other.
abbrev pub updates : ℕ → Aclint → Cpu → Aclint × Cpu
updates zero t c = (t, c)
updates (suc n) t c = let r = updates n t c in aclint_update r.0 r.1

signed32-small : (n : ℕ) → n < 2 ^ 31 → abs (signed32 n) ≡ n
signed32-small n h = ground arith

tick :
    (n t : ℕ)
    → suc n < 2 ^ 31
    → t + (suc n + 24) / 25 < 2 ^ 64
    → (if abs (signed32 n) % 25 == 0 then (t + (n + 24) / 25 + 1) % 2 ^ 64 else t + (n + 24) / 25)
      ≡ t + (suc n + 24) / 25
tick n t s h = rw (signed32-small n (omega arith)) (ground arith)

updates-fields :
    (n : ℕ) (t : Aclint) (c : Cpu)
    → t.time_count ≡ 0
    → n < 2 ^ 31
    → t.mtime + (n + 24) / 25 < 2 ^ 64
    → ((updates n t c).0.time_count ≡ n)
      × ((updates n t c).0.mtime ≡ t.mtime + (n + 24) / 25)
      × ((updates n t c).0.mtimecmp ≡ t.mtimecmp)
unfolding aclint_update
updates-fields zero t c z h k = (z, omega arith, refl)
updates-fields (suc n) t c z h k =
    let ih = updates-fields n t c z (omega arith) (omega arith) in
    (rw (ih.0) (omega arith), rw (ih.0, ih.1) (tick n t.mtime h k), ih.2)

mtip_iff :
    (a b : ℕ) (c : Cpu)
    → (field 7 1 ((if leb a b then set_mip 7 1 c else set_mip 7 0 c).csr 4) ≡ 1) ↔ (a ≤ b)
mtip_iff a b c = elim (Bool-cases (leb a b)) [
  | inl l ↦ rw l (λ _. ground arith, λ _. omega arith)
  | inr g ↦ rw g (λ h. absurd (omega arith), λ h. absurd (ground arith))
]

update-mtip :
    (t : Aclint) (c : Cpu)
    → (field 7 1 ((aclint_update t c).1.csr 4) ≡ 1)
      ↔ ((aclint_update t c).0.mtimecmp ≤ (aclint_update t c).0.mtime)
unfolding aclint_update
update-mtip t c = mtip_iff _ _ c

-- From a `time_count` of 0, `n + 1` updates leave `mtime` advanced by one for every 25 of them, the
-- first included, and the machine timer interrupt pending exactly if `mtimecmp` is reached. The
-- count of updates is below 2^31 and `mtime` does not wrap around.
pub updates-timer :
    (n : ℕ) (t : Aclint) (c : Cpu)
    → t.time_count ≡ 0
    → suc n < 2 ^ 31
    → t.mtime + (suc n + 24) / 25 < 2 ^ 64
    → ((updates (suc n) t c).0.mtime ≡ t.mtime + (suc n + 24) / 25)
      × ((field 7 1 ((updates (suc n) t c).1.csr 4) ≡ 1)
          ↔ (t.mtimecmp ≤ t.mtime + (suc n + 24) / 25))
updates-timer n t c z h k =
    let f = updates-fields (suc n) t c z h k in
    let m = update-mtip (updates n t c).0 (updates n t c).1 in
    (f.1, (λ b. omega (arith, m.0 b, f.1, f.2), λ l. m.1 (omega (arith, f.1, f.2))))
