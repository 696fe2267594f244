-- ===== src/Cluster/CodeSourceMap/Written.antt =====
-- What the decoder of code source maps makes of a written program.
use aotopsy.Base.{ℕ, zero, suc, ◌+◌, ◌≤◌, ◌<◌, ◌^◌, ◌≡◌, ap, sym, refl, ◌∙◌, arith, false}
use aotopsy.Base.{List, [], ◌∷◌, ◌++◌, length, length-append, none, some, Option-cases}
use aotopsy.Base.{inr, inl}
use aotopsy.Base.Int.{ℤ, pos}
use aotopsy.Dartfmt.Stream.{new_stream_at}
use aotopsy.Dartfmt.Stream.Zipper.{cut, Fits}
use aotopsy.Dartfmt.Varint.RoundTrip.{write_signed, read_tagged32-write_signed}
use aotopsy.Cluster.CodeSourceMap.{
  CsmEntry, Context, complete, apply_op, decode_loop, decode_code_source_map, csm_no_position,
  start,
}
use aotopsy.Cluster.CodeSourceMap.Program.{
  Instruction, change_position, advance_pc, push_function, pop_function, null_check, pack,
  write_program, flat_run, IsEncodable, IsProgram, last_pc, outermost_first, context, pack-IsInt32,
  signed32-to_u32, apply_op-change, apply_op-push, apply_op-null_check, apply_op-pop,
  apply_op-advance,
}
use aotopsy.Cluster.CodeSourceMap.Frames.{run, IsPositioned, run-flat_run}
use mathlib.Core.List.{append_assoc, append-nil}

write_signed-some : (k : ℕ) (z : ℤ) → 0 < length (write_signed k z)
unfolding write_signed
write_signed-some zero z = omega arith
write_signed-some (suc k) z = ground arith

-- One round of the loop, over what is written of an instruction.
round :
    (fuel : ℕ) (i : Instruction) (is : List Instruction) (before : List ℕ) (c c' : Context)
    → IsEncodable i
    → Fits (before ++ write_program (i ∷ is))
    → apply_op (pack i) c ≡ some (inr c')
    → decode_loop
        (suc fuel)
        (length (before ++ write_program (i ∷ is)))
        c
        (cut before (write_program (i ∷ is)))
      ≡ decode_loop fuel
          (length ((before ++ write_signed 4 (pack i)) ++ write_program is))
          c'
          (cut (before ++ write_signed 4 (pack i)) (write_program is))
unfolding decode_loop write_program
round fuel i is before c c' h fits e = ground (
  arith,
  read_tagged32-write_signed (pack i) before (write_program is) (pack-IsInt32 i h) fits,
  signed32-to_u32 (pack i) (pack-IsInt32 i h),
  length-append before (write_signed 4 (pack i) ++ write_program is),
  length-append (write_signed 4 (pack i)) (write_program is),
  write_signed-some 4 (pack i),
  append_assoc before (write_signed 4 (pack i)) (write_program is),
  e,
)

last_pc_grows : (is : List Instruction) (pc : ℕ) → pc ≤ last_pc is pc
last_pc_grows [] pc = omega arith
last_pc_grows (change_position p ∷ is) pc = last_pc_grows is pc
last_pc_grows (advance_pc k ∷ is) pc = omega (arith, last_pc_grows is (pc + k))
last_pc_grows (push_function f ∷ is) pc = last_pc_grows is pc
last_pc_grows (pop_function ∷ is) pc = last_pc_grows is pc
last_pc_grows (null_check x ∷ is) pc = last_pc_grows is pc

-- The loop reads a program to its end from `before`.
Reads : ℕ → List ℕ → List Instruction → Context → List CsmEntry → Type 0
Reads fuel before is c out =
    decode_loop fuel (length (before ++ write_program is)) c (cut before (write_program is))
    ≡ complete out

Fits-written :
    (before : List ℕ) (i : Instruction) (is : List Instruction)
    → Fits (before ++ write_program (i ∷ is))
    → Fits ((before ++ write_signed 4 (pack i)) ++ write_program is)
unfolding write_program
Fits-written before i is fits =
    rw (append_assoc before (write_signed 4 (pack i)) (write_program is)) fits

Reads-then :
    (fuel : ℕ) (i : Instruction) (is : List Instruction) (before : List ℕ) (c c' : Context)
    (out : List CsmEntry)
    → IsEncodable i
    → Fits (before ++ write_program (i ∷ is))
    → apply_op (pack i) c ≡ some (inr c')
    → Reads fuel (before ++ write_signed 4 (pack i)) is c' out
    → Reads (suc fuel) before (i ∷ is) c out
unfolding Reads
Reads-then fuel i is before c c' out h fits e r = round fuel i is before c c' h fits e ∙ r

Reads-flat_run :
    (is : List Instruction) (fuel : ℕ) (before : List ℕ) (es out : List CsmEntry) (pc : ℕ) (t : ℤ)
    (fs : List ℤ)
    → IsProgram is
    → length is < fuel
    → last_pc is pc < 2 ^ 32
    → Fits (before ++ write_program is)
    → flat_run is pc t fs ≡ some out
    → Reads fuel before is (context es pc t fs) (es ++ out)
unfolding flat_run Reads write_program decode_loop
Reads-flat_run is zero before es out pc t fs h n low fits e =
    let none_left : ⊥ = omega arith in elim none_left [ ]
Reads-flat_run [] (suc fuel) before es out pc t fs h n low fits e =
    let q : out ≡ [] = cc in ground (arith, length-append before [], append-nil es, q)
Reads-flat_run (change_position p ∷ is) (suc fuel) before es out pc t fs h n low fits e =
    Reads-then fuel (change_position p) is before _ _ _ h.0 fits (apply_op-change es pc t fs p) (
      Reads-flat_run is fuel _ es out pc p fs h.1 (omega arith) low
        (Fits-written before (change_position p) is fits) e)
Reads-flat_run (advance_pc k ∷ is) (suc fuel) before es out pc t fs h n low fits e =
    let entry : CsmEntry = record {
      pc_offset = pc + k;
      token_pos = t;
      inline_stack = outermost_first fs;
    } in
    elim (Option-cases (flat_run is (pc + k) t fs)) [
      | inl q ↦ let clash : none ≡ some out = rw q at e in cc
      | inr (rest, q) ↦
          let split : some (entry ∷ rest) ≡ some out = rw q at e in
          let parts : out ≡ entry ∷ rest = cc in
          let r =
            Reads-flat_run is fuel (before ++ write_signed 4 (pack (advance_pc k)))
              (es ++ (entry ∷ [])) rest (pc + k) t fs h.1 (omega arith) low
              (Fits-written before (advance_pc k) is fits) q in
          Reads-then fuel (advance_pc k) is before (context es pc t fs)
            (context (es ++ (entry ∷ [])) (pc + k) t fs) (es ++ out) h.0 fits
            (apply_op-advance es pc t fs k (omega (arith, last_pc_grows is (pc + k))))
            (rw parts (rw (append_assoc es (entry ∷ []) rest) at r))
    ]
Reads-flat_run (push_function f ∷ is) (suc fuel) before es out pc t fs h n low fits e =
    Reads-then fuel (push_function f) is before _ _ _ h.0 fits (apply_op-push es pc t fs f) (
      Reads-flat_run is fuel _ es out pc t (f ∷ fs) h.1 (omega arith) low
        (Fits-written before (push_function f) is fits) e)
Reads-flat_run (pop_function ∷ is) (suc fuel) before es out pc t [] h n low fits e = cc
Reads-flat_run (pop_function ∷ is) (suc fuel) before es out pc t (f ∷ fs) h n low fits e =
    Reads-then fuel pop_function is before _ _ _ h.0 fits (apply_op-pop es pc t fs f) (
      Reads-flat_run is fuel _ es out pc t fs h.1 (omega arith) low
        (Fits-written before pop_function is fits) e)
Reads-flat_run (null_check x ∷ is) (suc fuel) before es out pc t fs h n low fits e =
    Reads-then fuel (null_check x) is before _ _ _ h.0 fits (apply_op-null_check es pc t fs x) (
      Reads-flat_run is fuel _ es out pc t fs h.1 (omega arith) low
        (Fits-written before (null_check x) is fits) e)

pub new_stream_at-start : (bytes : List ℕ) → new_stream_at bytes (pos 0) ≡ cut [] bytes
unfolding new_stream_at
new_stream_at-start bytes = ground arith

length-write_program : (is : List Instruction) → length is ≤ length (write_program is)
unfolding write_program
length-write_program [] = omega arith
length-write_program (i ∷ is) = omega (
  arith,
  length-write_program is,
  length-append (write_signed 4 (pack i)) (write_program is),
  write_signed-some 4 (pack i),
)

decode_code_source_map-flat_run :
    (is : List Instruction) (out : List CsmEntry)
    → IsProgram is
    → last_pc is 0 < 2 ^ 32
    → Fits (write_program is)
    → flat_run is 0 csm_no_position [] ≡ some out
    → decode_code_source_map (write_program is) ≡ complete out
unfolding decode_code_source_map Reads
decode_code_source_map-flat_run is out h low fits e =
    let size : ℕ = length (write_program is) in
    ap (λ s. decode_loop (suc size) size start s) (new_stream_at-start (write_program is))
    ∙ Reads-flat_run is (suc size) [] [] out 0 csm_no_position [] h
        (omega (arith, length-write_program is)) low fits e

-- A written program is decoded to the ranges that it describes, each with the functions of the
-- frames and the position of the innermost one. Its arguments have 29 bits, its pc stays below
-- 2 ^ 32, it never pops without a frame, and where it has entered or left a frame it sets a position
-- before its pc advances.
pub decode_code_source_map-write_program :
    (is : List Instruction) (out : List CsmEntry)
    → IsProgram is
    → last_pc is 0 < 2 ^ 32
    → Fits (write_program is)
    → IsPositioned false is
    → run is 0 csm_no_position [] ≡ some out
    → decode_code_source_map (write_program is) ≡ complete out
decode_code_source_map-write_program is out h low fits p e =
    decode_code_source_map-flat_run is out h low fits
      (sym (run-flat_run is 0 csm_no_position csm_no_position [] false p (λ _. refl)) ∙ e)
