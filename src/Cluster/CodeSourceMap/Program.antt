-- ===== src/Cluster/CodeSourceMap/Program.antt =====
-- The bytecode of a code source map as a program with a stack of frames, the encoding that the SDK
-- writes, and what the decoder makes of a written program.
use aotopsy.Base.{ℕ, ◌+◌, ◌-◌, ◌*◌, ◌<◌, ◌^◌, ◌≡◌, refl, ap, arith}
use aotopsy.Base.{List, [], ◌∷◌, ◌++◌, length-append, Option, none, some}
use aotopsy.Base.{inr}
use aotopsy.Base.Int.{ℤ, pos, negsuc, add_int-pos, to_u32, signed32}
use aotopsy.Dartfmt.Varint.RoundTrip.{write_signed, IsInt32}
use aotopsy.Cluster.CodeSourceMap.{CsmEntry, Context, apply_op, drop_last, without_last}

pub data Instruction : Type 0 where
  change_position : ℤ → Instruction
  advance_pc : ℕ → Instruction
  push_function : ℤ → Instruction
  pop_function : Instruction
  null_check : ℤ → Instruction

-- `arg * 8 + op`
abbrev pub with_arg : ℕ → ℤ → ℤ
with_arg op (pos a) = pos (8 * a + op)
with_arg op (negsuc a) = negsuc (8 * a + (7 - op))

abbrev pub pack : Instruction → ℤ
pack (change_position p) = with_arg 0 p
pack (advance_pc k) = with_arg 1 (pos k)
pack (push_function f) = with_arg 2 f
pack pop_function = with_arg 3 (pos 0)
pack (null_check x) = with_arg 4 x

unfoldable pub write_program : List Instruction → List ℕ
write_program [] = []
write_program (i ∷ is) = write_signed 4 (pack i) ++ write_program is

-- The frames are innermost first.
abbrev pub outermost_first {ℓ} : {A : Type ℓ} → List A → List A
outermost_first [] = []
outermost_first (x ∷ xs) = outermost_first xs ++ (x ∷ [])

-- The ranges with the position that was set last, in whichever frame, from a pc, that position and
-- the functions of the frames.
unfoldable pub flat_run : List Instruction → ℕ → ℤ → List ℤ → Option (List CsmEntry)
flat_run [] pc t fs = some []
flat_run (change_position p ∷ is) pc t fs = flat_run is pc p fs
flat_run (advance_pc k ∷ is) pc t fs = elim (flat_run is (pc + k) t fs) [
  | none ↦ none
  | some es ↦
      some (record { pc_offset = pc + k; token_pos = t; inline_stack = outermost_first fs } ∷ es)
]
flat_run (push_function f ∷ is) pc t fs = flat_run is pc t (f ∷ fs)
flat_run (pop_function ∷ is) pc t [] = none
flat_run (pop_function ∷ is) pc t (f ∷ fs) = flat_run is pc t fs
flat_run (null_check x ∷ is) pc t fs = flat_run is pc t fs

-- An argument has 29 bits.
abbrev pub IsArg : ℤ → Type 0
IsArg (pos a) = a < 2 ^ 28
IsArg (negsuc a) = a < 2 ^ 28

abbrev pub IsEncodable : Instruction → Type 0
IsEncodable (change_position p) = IsArg p
IsEncodable (advance_pc k) = IsArg (pos k)
IsEncodable (push_function f) = IsArg f
IsEncodable pop_function = Unit
IsEncodable (null_check x) = IsArg x

abbrev pub last_pc : List Instruction → ℕ → ℕ
last_pc [] pc = pc
last_pc (advance_pc k ∷ is) pc = last_pc is (pc + k)
last_pc (_ ∷ is) pc = last_pc is pc

abbrev pub IsProgram : List Instruction → Type 0
IsProgram [] = Unit
IsProgram (i ∷ is) = IsEncodable i × IsProgram is

with_arg-IsInt32 : (op : ℕ) (z : ℤ) → op < 8 → IsArg z → IsInt32 (with_arg op z)
with_arg-IsInt32 op (pos a) h k = omega arith
with_arg-IsInt32 op (negsuc a) h k = omega arith

pub pack-IsInt32 : (i : Instruction) → IsEncodable i → IsInt32 (pack i)
pack-IsInt32 (change_position p) h = with_arg-IsInt32 0 p (omega arith) h
pack-IsInt32 (advance_pc k) h = with_arg-IsInt32 1 (pos k) (omega arith) h
pack-IsInt32 (push_function f) h = with_arg-IsInt32 2 f (omega arith) h
pack-IsInt32 pop_function h = omega arith
pack-IsInt32 (null_check x) h = with_arg-IsInt32 4 x (omega arith) h

pub signed32-to_u32 : (z : ℤ) → IsInt32 z → signed32 (to_u32 z) ≡ z
signed32-to_u32 (pos n) h = ground arith
signed32-to_u32 (negsuc n) h = ground arith

without_last-snoc {ℓ} :
    {A : Type ℓ} (y : A) (xs : List A) (x : A) → without_last y (xs ++ (x ∷ [])) ≡ y ∷ xs
without_last-snoc y [] x = refl
without_last-snoc y (z ∷ zs) x = ap (λ l. y ∷ l) (without_last-snoc z zs x)

drop_last-snoc {ℓ} : {A : Type ℓ} (xs : List A) (x : A) → drop_last (xs ++ (x ∷ [])) ≡ some xs
drop_last-snoc [] x = refl
drop_last-snoc (y ∷ ys) x = ap some (without_last-snoc y ys x)

-- The decoder's variables, at the program's state.
abbrev pub context : List CsmEntry → ℕ → ℤ → List ℤ → Context
context es pc t fs = record { entries = es; pc = pos pc; token_pos = t; stack = outermost_first fs }

module _ (es : List CsmEntry) (pc : ℕ) (t : ℤ) (fs : List ℤ) where
  pub apply_op-change :
      (p : ℤ)
      → apply_op (pack (change_position p)) (context es pc t fs) ≡ some (inr (context es pc p fs))
  unfolding apply_op
  apply_op-change (pos a) = ground arith
  apply_op-change (negsuc a) = ground arith

  pub apply_op-push :
      (f : ℤ)
      → apply_op (pack (push_function f)) (context es pc t fs)
        ≡ some (inr (context es pc t (f ∷ fs)))
  unfolding apply_op
  apply_op-push (pos a) = ground arith
  apply_op-push (negsuc a) = ground arith

  pub apply_op-null_check :
      (x : ℤ)
      → apply_op (pack (null_check x)) (context es pc t fs) ≡ some (inr (context es pc t fs))
  unfolding apply_op
  apply_op-null_check (pos a) = ground arith
  apply_op-null_check (negsuc a) = ground arith

  pub apply_op-pop :
      (f : ℤ)
      → apply_op (pack pop_function) (context es pc t (f ∷ fs)) ≡ some (inr (context es pc t fs))
  unfolding apply_op
  apply_op-pop f =
      ground
        (arith, drop_last-snoc (outermost_first fs) f, length-append (outermost_first fs) (f ∷ []))

  pub apply_op-advance :
      (k : ℕ)
      → pc + k < 2 ^ 32
      → apply_op (pack (advance_pc k)) (context es pc t fs)
        ≡ some (
            inr (
              context
                (es
                  ++ (record {
                    pc_offset = pc + k;
                    token_pos = t;
                    inline_stack = outermost_first fs;
                  }
                      ∷ []))
                (pc + k)
                t
                fs))
  unfolding apply_op
  apply_op-advance k h = ground (arith, add_int-pos pc k)
