-- ===== src/Inst/Exec/Pair.antt =====
-- The pair of `lr` and `sc` as the bodies of mayfly_emu/cpu/inst.c use it, on words and doublewords.
use mathlib.Core.Path.{subst}
use mayfly_emu.Prelude.{ℕ, ◌-◌, ◌≡◌, ◌≢◌, ◌⊎◌, inl, inr, refl, sym, ap, ◌∙◌, arith}
use mayfly_emu.Prelude.{Bool, true, false, ◌&&◌, ◌==◌, if◌then◌else◌, bit_and}
use mayfly_emu.Word.{sext}
use mayfly_emu.Run.{done, and_then}
use mayfly_emu.Machine.{Machine}
use mayfly_emu.Memory.Host.{load_bytes}
use mayfly_emu.Memory.Paddr.{mbase}
use mayfly_emu.Memory.Paddr.Ram.{IsRam}
use mayfly_emu.Inst.Table.{Op, lr_d, sc_d, lr_w, sc_w}
use mayfly_emu.Inst.Operand.{Operands}
use mayfly_emu.Inst.Exec.{Decode, exec_op}
use mayfly_emu.Inst.Exec.Reserve.{IsDirect, reserved, stored, refused, exec_lr_lem, exec_sc_lem}

-- A word or a doubleword: the instructions, the bytes, the value that `lr` puts into its register
-- and the one that `sc` stores.
pub data Width : Type 0 where
  word doubleword : Width

abbrev pub lr_of : Width → Op
lr_of word = lr_w
lr_of doubleword = lr_d

abbrev pub sc_of : Width → Op
sc_of word = sc_w
sc_of doubleword = sc_d

abbrev pub bytes_of : Width → ℕ
bytes_of word = 4
bytes_of doubleword = 8

abbrev pub loaded_of : Width → ℕ → ℕ
loaded_of word v = sext v 32
loaded_of doubleword v = v

abbrev pub stored_of : Width → ℕ → ℕ
stored_of word v = bit_and v 0xffffffff
stored_of doubleword v = v

-- The flag that the code keeps for the width.
abbrev flag_of : Width → ℕ
flag_of word = 0xf
flag_of doubleword = 0xff

lr_of_lem :
    (a : Width) (s : Decode) (o : Operands) (m : Machine)
    → IsDirect m
    → IsRam o.src1 (bytes_of a)
    → exec_op (lr_of a) s o m
      ≡ done (
        s.snpc,
        reserved (loaded_of a (load_bytes (bytes_of a) m.pmem (o.src1 - mbase))) (flag_of a) o m,
      )
unfolding exec_op
lr_of_lem word s o m d r =
    ap (λ x. and_then x λ t. done (s.snpc, t.1)) (exec_lr_lem 4 0xf (λ v. sext v 32) o m d r)
lr_of_lem doubleword s o m d r =
    ap (λ x. and_then x λ t. done (s.snpc, t.1)) (exec_lr_lem 8 0xff (λ v. v) o m d r)

sc_of_lem :
    (b : Width) (s : Decode) (o : Operands) (m : Machine)
    → IsDirect m
    → IsRam o.src1 (bytes_of b)
    → exec_op (sc_of b) s o m
      ≡ done (
        s.snpc,
        if o.src1 == m.reserve_addr && m.reserve_flag == flag_of b
            then stored (bytes_of b) (stored_of b o.src2) o m
            else refused o m,
      )
unfolding exec_op
sc_of_lem word s o m d r =
    ap (λ x. and_then x λ t. done (s.snpc, t.1))
      (exec_sc_lem 4 0xf (λ v. bit_and v 0xffffffff) o m d r)
sc_of_lem doubleword s o m d r =
    ap (λ x. and_then x λ t. done (s.snpc, t.1)) (exec_sc_lem 8 0xff (λ v. v) o m d r)

hit : (b : Width) (x y : ℕ) → x ≡ y → (x == y && flag_of b == flag_of b) ≡ true
hit word x y h = ground arith
hit doubleword x y h = ground arith

same_hit : (a b : Width) → a ≡ b → (x y : ℕ) → x ≡ y → (x == y && flag_of a == flag_of b) ≡ true
same_hit a b e x y h =
    subst (λ (w : Width). (x == y && flag_of w == flag_of b) ≡ true) (sym e) (hit b x y h)

miss : (a b : Width) (x y : ℕ) → (a ≢ b) ⊎ (x ≢ y) → (x == y && flag_of a == flag_of b) ≡ false
miss word word x y (inl h) = absurd (h refl)
miss doubleword doubleword x y (inl h) = absurd (h refl)
miss word doubleword x y h = ground arith
miss doubleword word x y h = ground arith
miss word word x y (inr h) = ground arith
miss doubleword doubleword x y (inr h) = ground arith

gone : (b : Width) (x y f : ℕ) → f ≡ 0 → (x == y && f == flag_of b) ≡ false
gone word x y f h = ground arith
gone doubleword x y f h = ground arith

-- The machine behind `lr`.
abbrev pub behind_lr : Width → Operands → Machine → Machine
behind_lr a o m =
    reserved (loaded_of a (load_bytes (bytes_of a) m.pmem (o.src1 - mbase))) (flag_of a) o m

-- The machine behind `sc`, if it stores and if it does not.
abbrev pub behind_sc : Width → Operands → Machine → Machine
behind_sc b o m = stored (bytes_of b) (stored_of b o.src2) o m

-- No exception is pending and translation is off, and the locations are in RAM. `lr.w` and `lr.d`
-- answer with the word, sign-extended, or the doubleword there. An `sc` that follows, with whatever
-- operands, stores and answers 0 if it is for the same address and of the same width as the `lr`; if
-- either differs it answers 1 and leaves memory alone. Behind either, another `sc` of any width to any
-- location answers 1 and leaves memory alone.
pub sc_of-lr_of :
    (a b c : Width) (s s' s'' : Decode) (o o' o'' : Operands) (m : Machine)
    → IsDirect m
    → IsRam o.src1 (bytes_of a)
    → IsRam o'.src1 (bytes_of b)
    → IsRam o''.src1 (bytes_of c)
    → let m1 = behind_lr a o m in
      (exec_op (lr_of a) s o m ≡ done (s.snpc, m1))
      × (a ≡ b
          → o'.src1 ≡ o.src1
          → (exec_op (sc_of b) s' o' m1 ≡ done (s'.snpc, behind_sc b o' m1))
            × (exec_op (sc_of c) s'' o'' (behind_sc b o' m1)
                ≡ done (s''.snpc, refused o'' (behind_sc b o' m1))))
      × ((a ≢ b) ⊎ (o'.src1 ≢ o.src1)
          → (exec_op (sc_of b) s' o' m1 ≡ done (s'.snpc, refused o' m1))
            × (exec_op (sc_of c) s'' o'' (refused o' m1)
                ≡ done (s''.snpc, refused o'' (refused o' m1))))
sc_of-lr_of a b c s s' s'' o o' o'' m d r r' r'' =
    let m1 = behind_lr a o m in
    let d1 : IsDirect m1 = record {
      no_except = d.no_except;
      no_read = d.no_read;
      no_write = d.no_write;
    } in
    (
      lr_of_lem a s o m d r,
      λ e q. (
        sc_of_lem b s' o' m1 d1 r'
            ∙ ap (λ (t : Bool). done (s'.snpc, if t then behind_sc b o' m1 else refused o' m1))
                (same_hit a b e o'.src1 o.src1 q),
        again (behind_sc b o' m1)
            (record { no_except = d.no_except; no_read = d.no_read; no_write = d.no_write }) refl,
      ),
      λ n. (
        sc_of_lem b s' o' m1 d1 r'
            ∙ ap (λ (t : Bool). done (s'.snpc, if t then behind_sc b o' m1 else refused o' m1))
                (miss a b o'.src1 o.src1 n),
        again (refused o' m1)
            (record { no_except = d.no_except; no_read = d.no_read; no_write = d.no_write }) refl,
      ),
    )
  where
    again :
        (m2 : Machine)
        → IsDirect m2
        → m2.reserve_flag ≡ 0
        → exec_op (sc_of c) s'' o'' m2 ≡ done (s''.snpc, refused o'' m2)
    again m2 d2 z =
        sc_of_lem c s'' o'' m2 d2 r''
        ∙ ap (λ (t : Bool). done (s''.snpc, if t then behind_sc c o'' m2 else refused o'' m2))
            (gone c o''.src1 m2.reserve_addr m2.reserve_flag z)
