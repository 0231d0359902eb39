-- ===== src/Inst/Table/Isa.antt =====
-- The encodings of RV64IMA against the table of mayfly_emu/cpu/inst.c.
use mayfly_emu.Prelude.{ℕ, ◌≡◌, refl, true}
use mayfly_emu.Prelude.{List, [], ◌∷◌, ◌++◌, Option, none, some}
use mayfly_emu.Run.{done}
use mayfly_emu.Inst.Pattern.Agrees.{agrees}
use mayfly_emu.Inst.Table.Symbolic.{select, all_legal, find_row-select}
use mayfly_emu.Inst.Table.{OperandType, type_n, Op, inv, Row, find_row, inst_table}
use mayfly_emu.Prelude.{ap}
use mayfly_emu.Inst.Table.Encodings.{
  Entry, isa_control_memory, isa_arithmetic, isa_multiply_system, isa_atomic, isa_table, fp_atomic,
}

-- Every word of the entry's class finds a row with the entry's type and operation.
abbrev pub Decodes : Entry → Type 0
Decodes e =
    (x : ℕ)
    → agrees e.known x ≡ true
    → (row : Row) × (find_row inst_table x ≡ done (some row))
      × (row.type ≡ e.type)
      × (row.op ≡ e.op)

abbrev pub AllDecode : List Entry → Type 0
AllDecode [] = Unit {0}
AllDecode (e ∷ es) = Decodes e × AllDecode es

inst_table-legal : all_legal inst_table ≡ true
unfolding all_legal
inst_table-legal = refl

-- What a row gives, and what an entry asks for.
abbrev row_kind : Option Row → Option (OperandType × Op)
row_kind none = none
row_kind (some row) = some (row.type, row.op)

abbrev selected : List Entry → List (Option (OperandType × Op))
selected [] = []
selected (e ∷ es) = row_kind (select inst_table e.known) ∷ selected es

abbrev expected : List Entry → List (Option (OperandType × Op))
expected [] = []
expected (e ∷ es) = some (e.type, e.op) ∷ expected es

abbrev first_kind : List (Option (OperandType × Op)) → Option (OperandType × Op)
first_kind [] = none
first_kind (k ∷ ks) = k

abbrev rest_kinds : List (Option (OperandType × Op)) → List (Option (OperandType × Op))
rest_kinds [] = []
rest_kinds (k ∷ ks) = ks

abbrev kind_type : Option (OperandType × Op) → OperandType
kind_type none = type_n
kind_type (some k) = k.0

abbrev kind_op : Option (OperandType × Op) → Op
kind_op none = inv
kind_op (some k) = k.1

Decodes-selected :
    (e : Entry) → row_kind (select inst_table e.known) ≡ some (e.type, e.op) → Decodes e
Decodes-selected e s x a = by (select inst_table e.known) refl s
  where
    by :
        (o : Option Row)
        → select inst_table e.known ≡ o
        → row_kind o ≡ some (e.type, e.op)
        → (row : Row) × (find_row inst_table x ≡ done (some row))
          × (row.type ≡ e.type)
          × (row.op ≡ e.op)
    by none q s = cc
    by (some row) q s = (
      row,
      find_row-select inst_table e.known x inst_table-legal q a,
      ap kind_type s,
      ap kind_op s,
    )

-- One comparison of lists proves all the entries.
AllDecode-selected : (es : List Entry) → selected es ≡ expected es → AllDecode es
AllDecode-selected [] s = tt
AllDecode-selected (e ∷ es) s =
    (Decodes-selected e (ap first_kind s), AllDecode-selected es (ap rest_kinds s))

AllDecode-append : (es fs : List Entry) → AllDecode es → AllDecode fs → AllDecode (es ++ fs)
AllDecode-append [] fs a b = b
AllDecode-append (e ∷ es) fs a b = (a.0, AllDecode-append es fs a.1 b)

control_memory-decodes : AllDecode isa_control_memory
unfolding select
control_memory-decodes = AllDecode-selected isa_control_memory refl

arithmetic-decodes : AllDecode isa_arithmetic
unfolding select
arithmetic-decodes = AllDecode-selected isa_arithmetic refl

multiply_system-decodes : AllDecode isa_multiply_system
unfolding select
multiply_system-decodes = AllDecode-selected isa_multiply_system refl

atomic-decodes : AllDecode isa_atomic
unfolding select
atomic-decodes = AllDecode-selected isa_atomic refl

-- Each instruction word of RV64IMA, of Zicsr and of the privileged instructions ecall, ebreak, mret,
-- sret, wfi and sfence.vma decodes to its operand type and operation, whatever its registers and
-- immediates are: 21 encodings of jumps, branches, loads and stores, 28 of arithmetic, 27 of
-- multiplication, the CSRs and the system, and 22 atomic ones. A fence is one whose reserved fields rd
-- and rs1 are 0, and fence.i the word with all its reserved fields 0.
pub inst_table-decodes : AllDecode isa_table
inst_table-decodes =
    AllDecode-append isa_control_memory (isa_arithmetic ++ (isa_multiply_system ++ isa_atomic))
      control_memory-decodes
      (AllDecode-append isa_arithmetic (isa_multiply_system ++ isa_atomic) arithmetic-decodes
        (AllDecode-append isa_multiply_system isa_atomic multiply_system-decodes atomic-decodes))

-- The patterns of the atomic instructions leave the opcode open: a load or store of a
-- floating-point doubleword whose top five bits are 0, 1 or 3 decodes to an atomic addition, an
-- atomic swap or a conditional store.
pub fp-decodes_atomic : AllDecode fp_atomic
unfolding select
fp-decodes_atomic = AllDecode-selected fp_atomic refl
