-- ===== src/Inst/Table/Symbolic.antt =====
-- Which row of the table a whole class of instruction words finds. A class is given by the bits
-- that its words have in common, the lowest first, with `?` for a bit that is free.
use mayfly_emu.Prelude.{ℕ, ◌/◌, ◌≡◌, refl, arith, Bool, true, false, not, ◌&&◌, ◌||◌, ◌==◌}
use mayfly_emu.Prelude.{
  if◌then◌else◌, List, [], ◌∷◌, Option, none, some, ap, sym, ◌∙◌, Bool-cases, inl, inr, &&-left,
  &&-right,
}
use mayfly_emu.Run.{done}
use mayfly_emu.Inst.Pattern.Agrees.{digit, bits_of, agrees, is_legal, pattern_decode-agrees}
use mayfly_emu.Inst.Table.{Row, find_row}

-- Some bit is fixed by both, to different digits.
unfoldable pub conflicts : List ℕ → List ℕ → Bool
conflicts [] known = false
conflicts (c ∷ cs) [] = false
conflicts (c ∷ cs) (k ∷ known) =
    (not (c == b'?') && not (k == b'?') && not (digit c == digit k)) || conflicts cs known

-- Every bit that the pattern fixes is fixed to the same digit by the class.
unfoldable pub covers : List ℕ → List ℕ → Bool
covers [] known = true
covers (c ∷ cs) [] = c == b'?' && covers cs []
covers (c ∷ cs) (k ∷ known) =
    (c == b'?' || (not (k == b'?') && (digit c == digit k))) && covers cs known

conflicts-agrees :
    (cs known : List ℕ) (x : ℕ)
    → conflicts cs known ≡ true
    → agrees known x ≡ true
    → agrees cs x ≡ false
unfolding conflicts agrees
conflicts-agrees [] known x c a = cc
conflicts-agrees (c ∷ cs) [] x h a = cc
conflicts-agrees (c ∷ cs) (k ∷ known) x h a = ground (arith, conflicts-agrees cs known (x / 2))

covers-agrees :
    (cs known : List ℕ) (x : ℕ)
    → covers cs known ≡ true
    → agrees known x ≡ true
    → agrees cs x ≡ true
unfolding covers agrees
covers-agrees [] known x c a = refl
covers-agrees (c ∷ cs) [] x h a = ground (arith, covers-agrees cs [] (x / 2))
covers-agrees (c ∷ cs) (k ∷ known) x h a = ground (arith, covers-agrees cs known (x / 2))

-- The first row that the class does not exclude, if the class decides it.
unfoldable pub select : List Row → List ℕ → Option Row
unfolding conflicts covers
select [] known = none
select (row ∷ rest) known =
    let later = select rest known in
    if conflicts (bits_of row.pattern []) known
    then later
    else if covers (bits_of row.pattern []) known
    then some row
    else none

unfoldable pub all_legal : List Row → Bool
all_legal [] = true
all_legal (row ∷ rest) = is_legal 64 32 row.pattern && all_legal rest

-- One row of the search, by the bits of its pattern.
find_row-cons :
    (row : Row) (rest : List Row) (x : ℕ)
    → is_legal 64 32 row.pattern ≡ true
    → find_row (row ∷ rest) x
      ≡ (if agrees (bits_of row.pattern []) x then done (some row) else find_row rest x)
unfolding find_row
find_row-cons row rest x l =
    let (p, decoded, tests) = pattern_decode-agrees row.pattern l in rw (decoded, tests x)

select-cons :
    (row : Row) (rest : List Row) (known : List ℕ)
    → select (row ∷ rest) known ≡ (
        if conflicts (bits_of row.pattern []) known
        then select rest known
        else if covers (bits_of row.pattern []) known
        then some row
        else none)
unfolding select
select-cons row rest known = refl

-- Every word of a class finds the row that the class selects.
pub find_row-select :
    (rows : List Row) (known : List ℕ) (x : ℕ) {row : Row}
    → all_legal rows ≡ true
    → select rows known ≡ some row
    → agrees known x ≡ true
    → find_row rows x ≡ done (some row)
find_row-select [] known x l s a = unfold select in cc
find_row-select (r ∷ rest) known x {row} l s a =
    let legal : (is_legal 64 32 r.pattern && all_legal rest) ≡ true = unfold all_legal in l in
    let here : is_legal 64 32 r.pattern ≡ true = &&-left _ _ legal in
    let there : all_legal rest ≡ true =
      &&-right (is_legal 64 32 r.pattern) (all_legal rest) legal in
    let cs = bits_of r.pattern [] in
    let s' : (if conflicts cs known
          then select rest known
          else if covers cs known
          then some r
          else none)
        ≡ some row =
      sym (select-cons r rest known) ∙ s in
    find_row-cons r rest x here ∙ (elim (Bool-cases (conflicts cs known)) [
      | inl c ↦
          rw (conflicts-agrees cs known x c a) (find_row-select rest known x there (rw c at s') a)
      | inr n ↦ elim (Bool-cases (covers cs known)) [
        | inl v ↦
            rw (covers-agrees cs known x v a) (ap (λ (o : Option Row). done o) (rw (n, v) at s'))
        | inr u ↦ let bad : none ≡ some row = rw (n, u) at s' in cc
      ]
    ])
