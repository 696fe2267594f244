-- ===== src/Cluster/CodeSourceMap/Lookup.antt =====
-- InlineStackAt on the entries of a written program: the state that the program has at the pc.
use aotopsy.Base.{ℕ, ◌+◌, ◌<◌, ◌^◌, ◌≡◌, refl, arith, leb, inl, inr, false}
use aotopsy.Base.{List, [], ◌∷◌, Option, none, some, Option-cases, if◌then◌else◌}
use aotopsy.Base.Int.{ℤ}
use aotopsy.Dartfmt.Stream.Zipper.{Fits}
use aotopsy.Cluster.CodeSourceMap.{
  CsmEntry, complete, decode_code_source_map, csm_no_position, best_entry, inline_stack_at, answer,
}
use aotopsy.Cluster.CodeSourceMap.Program.{
  Instruction, change_position, advance_pc, push_function, pop_function, null_check, write_program,
  IsProgram, last_pc, outermost_first,
}
use aotopsy.Cluster.CodeSourceMap.Frames.{Frame, functions, entry_at, run, IsPositioned}
use aotopsy.Cluster.CodeSourceMap.Written.{decode_code_source_map-write_program}

-- The frames and the position that hold at the pc `q`: those at the last advance that does not
-- pass it, and none before the first.
unfoldable pub state_at :
    ℕ → List Instruction → ℕ → ℤ → List Frame → Option (List ℤ × ℤ) → Option (List ℤ × ℤ)
state_at q [] pc t fs best = best
state_at q (change_position p ∷ is) pc t fs best = state_at q is pc p fs best
state_at q (advance_pc k ∷ is) pc t fs best =
    let rest = state_at q is (pc + k) t fs (some (outermost_first (functions fs), t)) in
    if leb (pc + k) q then rest else best
state_at q (push_function f ∷ is) pc t fs best = state_at q is pc csm_no_position ((f, t) ∷ fs) best
state_at q (pop_function ∷ is) pc t [] best = best
state_at q (pop_function ∷ is) pc t (f ∷ fs) best = state_at q is pc f.1 fs best
state_at q (null_check x ∷ is) pc t fs best = state_at q is pc t fs best

best_entry-run :
    (q : ℕ) (is : List Instruction) (out : List CsmEntry) (pc : ℕ) (t : ℤ) (fs : List Frame)
    (best : Option CsmEntry)
    → run is pc t fs ≡ some out
    → answer (best_entry q out best) ≡ state_at q is pc t fs (answer best)
unfolding run state_at best_entry
best_entry-run q [] out pc t fs best e = let r : out ≡ [] = cc in rw r refl
best_entry-run q (change_position p ∷ is) out pc t fs best e =
    best_entry-run q is out pc p fs best e
best_entry-run q (advance_pc k ∷ is) out pc t fs best e =
    let entry = entry_at (pc + k) t fs in
    elim (Option-cases (run is (pc + k) t fs)) [
      | inl r ↦ let clash : none ≡ some out = rw r at e in cc
      | inr (rest, r) ↦
          let split : some (entry ∷ rest) ≡ some out = rw r at e in
          let parts : out ≡ entry ∷ rest = cc in
          rw parts (ground (arith, best_entry-run q is rest (pc + k) t fs (some entry) r))
    ]
best_entry-run q (push_function f ∷ is) out pc t fs best e =
    best_entry-run q is out pc csm_no_position ((f, t) ∷ fs) best e
best_entry-run q (pop_function ∷ is) out pc t [] best e = cc
best_entry-run q (pop_function ∷ is) out pc t (f ∷ fs) best e =
    best_entry-run q is out pc f.1 fs best e
best_entry-run q (null_check x ∷ is) out pc t fs best e = best_entry-run q is out pc t fs best e

-- Where a written program, as in `decode_code_source_map-write_program`, is decoded to entries,
-- InlineStackAt finds in them, for any pc, the functions of the frames and the position of the
-- innermost one at the last advance of the program that does not pass the pc, and nothing before
-- the first.
pub inline_stack_at-write_program :
    (q : ℕ) (is : List Instruction) (out es : List CsmEntry)
    → IsProgram is
    → last_pc is 0 < 2 ^ 32
    → Fits (write_program is)
    → IsPositioned false is
    → run is 0 csm_no_position [] ≡ some out
    → decode_code_source_map (write_program is) ≡ complete es
    → inline_stack_at es q ≡ state_at q is 0 csm_no_position [] none
unfolding inline_stack_at
inline_stack_at-write_program q is out es h low fits p e d =
    let read = decode_code_source_map-write_program is out h low fits p e in
    let same : out ≡ es = cc in
    let last = best_entry-run q is out 0 csm_no_position [] none e in rw same at last
