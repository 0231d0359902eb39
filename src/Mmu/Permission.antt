-- ===== src/Mmu/Permission.antt =====
-- `check_permission` of mayfly_emu/system/mmu.c against the rules of the privileged architecture.
use mayfly_emu.Prelude.{ℕ, ◌≡◌, ◌↔◌, ◌⊎◌, refl, sym, ap, ◌∙◌, arith}
use mayfly_emu.Prelude.{Bool, true, false, not, ◌&&◌, ◌||◌, ◌==◌, if◌then◌else◌}
use mayfly_emu.Word.{field}
use mayfly_emu.Cpu
use mayfly_emu.Cpu.{Cpu, mstatus, set_except}
use mayfly_emu.Run.{Run, done, abort, fault, assert}
use mayfly_emu.Mmu.{
  AccessType, ifetch, read, write, access_mode, mode_ok, permission_by, check_permission, is_ifetch,
  pte_r, pte_w, pte_x, pte_a, pte_d,
}

-- Bit `i` of the entry.
abbrev pub Bit : ℕ → ℕ → Type 0
Bit i pte = field i 1 pte ≡ 1

-- The right that the type of access asks for: X for a fetch; R, or X under MXR, for a load; W for a
-- store, with the dirty bit.
abbrev pub Right : AccessType → ℕ → Cpu → Type 0
Right ifetch pte c = Bit 3 pte
Right read pte c = Bit 1 pte ⊎ ((mstatus 19 1 c ≡ 1) × Bit 3 pte)
Right write pte c = Bit 2 pte × Bit 7 pte

-- Whose page it is: U needs a page of U, S may enter one under SUM, and never fetches from it.
abbrev pub Owner : AccessType → ℕ → Cpu → Type 0
Owner type pte c =
    (access_mode type c ≡ 0 → Bit 4 pte)
    × (access_mode type c ≡ 1 → Bit 4 pte → (mstatus 18 1 c ≡ 1) × (is_ifetch type ≡ false))

-- A valid, accessed entry that grants the access.
abbrev pub Permitted : AccessType → ℕ → Cpu → Type 0
Permitted type pte c = Bit 0 pte × Owner type pte c × Right type pte c × Bit 6 pte

both : {A B C : Type 0} → A ↔ B → B ↔ C → A ↔ C
both f g = (λ a. g.0 (f.0 a), λ c. f.1 (g.1 c))

granted : Run (Bool × Cpu) → Bool
granted (done r) = r.0
granted abort = false
granted fault = false

branch_iff :
    (b : Bool) (c : Cpu) (x : Run (Bool × Cpu))
    → granted x ≡ false
    → ((if b then x else done (true, c)) ≡ done (true, c)) ↔ (b ≡ false)
unfolding granted
branch_iff true c x h = (λ q. sym (ap granted q) ∙ h, λ q. cc)
branch_iff false c x h = (λ q. refl, λ q. refl)

mode_ok_iff :
    (type : AccessType) (pte : ℕ) (c : Cpu)
    → (mode_ok true pte type c ≡ true) ↔ (Bit 0 pte × Owner type pte c)
mode_ok_iff type pte c = ground arith

fetch_iff :
    (ok : Bool) (pte : ℕ) (c : Cpu)
    → ((not (ok && pte_x pte) || not (pte_a pte)) ≡ false)
      ↔ ((ok ≡ true) × Right ifetch pte c × Bit 6 pte)
fetch_iff ok pte c = ground arith

load_iff :
    (ok : Bool) (pte : ℕ) (c : Cpu)
    → ((not (ok && (pte_r pte || (mstatus 19 1 c == 1 && pte_x pte))) || not (pte_a pte)) ≡ false)
      ↔ ((ok ≡ true) × Right read pte c × Bit 6 pte)
load_iff ok pte c = ground arith

store_iff :
    (ok : Bool) (pte : ℕ) (c : Cpu)
    → ((not (ok && pte_w pte) || (not (pte_a pte) || not (pte_d pte))) ≡ false)
      ↔ ((ok ≡ true) × Right write pte c × Bit 6 pte)
store_iff ok pte c = ground arith

assert-granted : (b : Bool) (c : Cpu) → granted (assert b (done (false, c))) ≡ false
unfolding granted
assert-granted true c = refl
assert-granted false c = refl

permission_by_iff :
    (type : AccessType) (ok : Bool) (pte vaddr : ℕ) (c : Cpu)
    → (permission_by type ok pte vaddr c ≡ done (true, c))
      ↔ ((ok ≡ true) × Right type pte c × Bit 6 pte)
unfolding permission_by granted
permission_by_iff ifetch ok pte vaddr c =
    both (branch_iff _ c _ (assert-granted (not c.amo) (set_except Cpu.Ex.ipf vaddr c)))
      (fetch_iff ok pte c)
permission_by_iff read ok pte vaddr c = both (branch_iff _ c _ refl) (load_iff ok pte c)
permission_by_iff write ok pte vaddr c = both (branch_iff _ c _ refl) (store_iff ok pte c)

-- An access in U or S that the translation reaches a leaf for is granted, with the hart unchanged,
-- exactly if the entry is valid and accessed, its owner admits the mode, and it has the right that
-- the access asks for: X to fetch, R (or X under MXR) to load, W and the dirty bit to store.
pub check_permission_iff :
    (type : AccessType) (pte vaddr : ℕ) (c : Cpu)
    → (access_mode type c ≡ 0) ⊎ (access_mode type c ≡ 1)
    → (check_permission pte true vaddr type c ≡ done (true, c)) ↔ Permitted type pte c
unfolding check_permission
check_permission_iff type pte vaddr c h =
    let p = permission_by_iff type (mode_ok true pte type c) pte vaddr c in
    let o = mode_ok_iff type pte c in
    rw (admitted h) (
      λ q. (let r = p.0 q in let b = o.0 (r.0) in (b.0, b.1, r.1, r.2)),
      λ r. p.1 (o.1 (r.0, r.1), r.2, r.3),
    )
  where
    admitted :
        (access_mode type c ≡ 0) ⊎ (access_mode type c ≡ 1)
        → (access_mode type c == 0 || access_mode type c == 1) ≡ true
    admitted h = ground arith
