-- ===== src/Expr/Reg.antt =====
-- The registers by name: `isa_reg_str2val` and `isa_csr_reg_str2val` of mayfly_emu/monitor/expr.c.
pub mod Names
use Prim.Native.String.{String}
use mayfly_emu.Prelude.{
  ℕ, ◌+◌, ◌^◌, ◌&&◌, ltb, leb, if◌then◌else◌, Option, none, some, List, [], ◌∷◌, drop,
}
use mayfly_emu.Cpu.{Cpu}
use mayfly_emu.Inst.Pattern.{codes}
use mayfly_emu.Expr.Number.{same_text, atoi}

abbrev pub regs : List String
regs =
    "$0" ∷ "ra" ∷ "sp" ∷ "gp" ∷ "tp" ∷ "t0" ∷ "t1" ∷ "t2" ∷ "s0" ∷ "s1" ∷ "a0" ∷ "a1" ∷ "a2" ∷ "a3"
    ∷ "a4" ∷ "a5" ∷ "a6" ∷ "a7" ∷ "s2" ∷ "s3" ∷ "s4" ∷ "s5" ∷ "s6" ∷ "s7" ∷ "s8" ∷ "s9" ∷ "s10"
    ∷ "s11" ∷ "t3" ∷ "t4" ∷ "t5" ∷ "t6" ∷ []

-- The loop over the names, from the number `i` on.
unfoldable pub find_reg : List String → ℕ → List ℕ → Option ℕ
find_reg [] i s = none
find_reg (r ∷ rs) i s =
    let rest = find_reg rs (i + 1) s in if same_text s (codes r) then some i else rest

-- By the number: `$1` to `$31`.
abbrev pub reg_number : ℕ → Cpu → Option ℕ
reg_number temp c =
    if ltb 0 temp && (ltb temp (2 ^ 31) && leb temp 31) then some (c.gpr temp) else none

-- The value, or none where the code clears `*success`. The first character is skipped.
unfoldable pub isa_reg_str2val : List ℕ → Cpu → Option ℕ
unfolding find_reg atoi
isa_reg_str2val s c = elim (find_reg regs 0 (drop 1 s)) [
  | some i ↦ some (c.gpr i)
  | none ↦ reg_number (atoi (drop 1 s)) c
]

-- The pointer behind the prefix is never null, so that the code always succeeds.
abbrev pub isa_csr_reg_str2val : List ℕ → Option ℕ
isa_csr_reg_str2val s = some 0
