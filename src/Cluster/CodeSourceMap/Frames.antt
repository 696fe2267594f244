-- ===== src/Cluster/CodeSourceMap/Frames.antt =====
-- What a program means: each frame has its function and its own position.
use aotopsy.Base.{ℕ, ◌+◌, ◌≡◌, refl, ap, ◌∙◌, Bool, true, false, List, [], ◌∷◌, Option, none, some}
use aotopsy.Base.Int.{ℤ}
use aotopsy.Cluster.CodeSourceMap.{CsmEntry, csm_no_position}
use aotopsy.Cluster.CodeSourceMap.Program.{
  Instruction, change_position, advance_pc, push_function, pop_function, null_check, flat_run,
  outermost_first,
}

-- The function of a frame, and the position at which its caller stands.
abbrev pub Frame : Type 0
Frame = ℤ × ℤ

abbrev pub functions : List Frame → List ℤ
functions [] = []
functions (f ∷ fs) = f.0 ∷ functions fs

-- The entry of an advance: the position is that of the innermost frame.
abbrev pub entry_at : ℕ → ℤ → List Frame → CsmEntry
entry_at pc t fs = record {
  pc_offset = pc;
  token_pos = t;
  inline_stack = outermost_first (functions fs);
}

-- The ranges that a program describes, from a pc, the position of the innermost frame, and the
-- frames. A frame starts without a position, and where it ends its caller goes on at its own. A pop
-- without a frame has no meaning.
unfoldable pub run : List Instruction → ℕ → ℤ → List Frame → Option (List CsmEntry)
run [] pc t fs = some []
run (change_position p ∷ is) pc t fs = run is pc p fs
run (advance_pc k ∷ is) pc t fs = elim (run is (pc + k) t fs) [
  | none ↦ none
  | some es ↦ some (entry_at (pc + k) t fs ∷ es)
]
run (push_function f ∷ is) pc t fs = run is pc csm_no_position ((f, t) ∷ fs)
run (pop_function ∷ is) pc t [] = none
run (pop_function ∷ is) pc t (f ∷ fs) = run is pc f.1 fs
run (null_check x ∷ is) pc t fs = run is pc t fs

-- Where a frame was entered or left, a position is set before the pc advances. `moved` tells that
-- none was set since.
abbrev pub IsPositioned : Bool → List Instruction → Type 0
IsPositioned moved [] = Unit {0}
IsPositioned moved (change_position p ∷ is) = IsPositioned false is
IsPositioned moved (advance_pc k ∷ is) = (moved ≡ false) × IsPositioned false is
IsPositioned moved (push_function f ∷ is) = IsPositioned true is
IsPositioned moved (pop_function ∷ is) = IsPositioned true is
IsPositioned moved (null_check x ∷ is) = IsPositioned moved is

-- In such a program the position that was set last is that of the innermost frame.
pub run-flat_run :
    (is : List Instruction) (pc : ℕ) (t last : ℤ) (fs : List Frame) (moved : Bool)
    → IsPositioned moved is
    → (moved ≡ false → t ≡ last)
    → run is pc t fs ≡ flat_run is pc last (functions fs)
unfolding run flat_run
run-flat_run [] pc t last fs moved h e = refl
run-flat_run (change_position p ∷ is) pc t last fs moved h e =
    run-flat_run is pc p p fs false h (λ _. refl)
run-flat_run (advance_pc k ∷ is) pc t last fs moved h e =
    let entry_first : ℤ → Option (List CsmEntry) → Option (List CsmEntry) =
      λ p o. elim o [ none ↦ none | some es ↦ some (entry_at (pc + k) p fs ∷ es) ] in
    ap (entry_first t) (run-flat_run is (pc + k) t last fs false h.1 (λ _. e h.0))
    ∙ ap (λ p. entry_first p (flat_run is (pc + k) last (functions fs))) (e h.0)
run-flat_run (push_function f ∷ is) pc t last fs moved h e =
    run-flat_run is pc csm_no_position last ((f, t) ∷ fs) true h (λ c. cc)
run-flat_run (pop_function ∷ is) pc t last [] moved h e = refl
run-flat_run (pop_function ∷ is) pc t last (f ∷ fs) moved h e =
    run-flat_run is pc f.1 last fs true h (λ c. cc)
run-flat_run (null_check x ∷ is) pc t last fs moved h e = run-flat_run is pc t last fs moved h e
