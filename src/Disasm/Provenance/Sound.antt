-- ===== src/Disasm/Provenance/Sound.antt =====
-- The provenance of the registers at the start of a block, against the instructions on the paths.
use aotopsy.Base.{
  ℕ, zero, suc, ◌+◌, ◌-◌, ◌<◌, ◌≡◌, ◌≢◌, inl, inr, refl, sym, ap, ◌∙◌, arith, Bool, true, false,
  ltb, Bool-cases, List, [], ◌∷◌, get_or, length,
}
use aotopsy.Disasm.Lvalue.{lv_top, lv_known, lv_bottom}
use aotopsy.Disasm.Partition.{Succ}
use aotopsy.Disasm.Branch.{Inst, inst_at, build_cfg}
use aotopsy.Disasm.Fixpoint.{Regs, out_of}
use aotopsy.Disasm.Fixpoint.Paths.{Arrives, run_prov_fixpoint-known, enter, follow}
use aotopsy.Disasm.Provenance.{
  Note, Tracked, touch_block, blank, tabulate, provenance, final_value, effect_of, block_at,
  block_effect, solution,
}
use aotopsy.Disasm.Provenance.Replay.{IsPlain, Follows, touch_from-Follows}
use mathlib.Core.List.{Memᴰ}

get_or-tabulate {ℓ} :
    {A : Type ℓ} (k i r : ℕ) (f : ℕ → A) (d : A) → r < k → get_or (tabulate k i f) r d ≡ f (i + r)
unfolding tabulate
get_or-tabulate zero i r f d h = absurd (omega (arith, h))
get_or-tabulate (suc k) i zero f d h = ap f (omega arith)
get_or-tabulate (suc k) i (suc r) f d h =
    get_or-tabulate k (suc i) r f d (omega (arith, h)) ∙ ap f (omega arith)

get_or-tabulate_beyond {ℓ} :
    {A : Type ℓ} (k i r : ℕ) (f : ℕ → A) (d : A)
    → (ltb r k) ≡ false
    → get_or (tabulate k i f) r d ≡ d
unfolding tabulate
get_or-tabulate_beyond zero i r f d h = refl
get_or-tabulate_beyond (suc k) i zero f d h = absurd (ground (arith, h))
get_or-tabulate_beyond (suc k) i (suc r) f d h =
    get_or-tabulate_beyond k (suc i) r f d (ground (arith, h))

effect_of-touched :
    (st : Tracked) (r : ℕ) → r < 31 → get_or (effect_of st).touched r false ≡ st.touched r
unfolding effect_of
effect_of-touched st r h = get_or-tabulate 31 0 r st.touched false h ∙ ap st.touched (omega arith)

effect_of-final :
    (st : Tracked) (r : ℕ) → r < 31 → get_or (effect_of st).final r lv_top ≡ final_value st r
unfolding effect_of
effect_of-final st r h =
    get_or-tabulate 31 0 r (final_value st) lv_top h ∙ ap (final_value st) (omega arith)

provenance_decided : (note : Note) → provenance note ≢ lv_top
provenance_decided [] e = let clash : lv_bottom ≡ lv_top = e in cc
provenance_decided (c ∷ cs) e = let clash : lv_known (c ∷ cs) ≡ lv_top = e in cc

effect_of-decided :
    (st : Tracked) (r : ℕ)
    → get_or (effect_of st).touched r false ≡ true
    → get_or (effect_of st).final r lv_top ≢ lv_top
unfolding effect_of
effect_of-decided st r t e = elim (Bool-cases (ltb r 31)) [
  | inl p ↦
      let h : r < 31 = ground (arith, p) in
      let touched : st.touched r ≡ true = sym (effect_of-touched st r h) ∙ t in
      let top : provenance (st.regs r) ≡ lv_top =
        rw touched at (sym (effect_of-final st r h) ∙ e) in
      provenance_decided (st.regs r) top
  | inr p ↦
      let clash : true ≡ false = sym t ∙ get_or-tabulate_beyond 31 0 r st.touched false p in cc
]

provenance-known : (regs note : Note) → provenance regs ≡ lv_known note → regs ≡ note
provenance-known [] note e = let clash : lv_bottom ≡ lv_known note = e in cc
provenance-known (c ∷ cs) note e = let q : lv_known (c ∷ cs) ≡ lv_known note = e in cc

-- The effect of a block on what is known agrees with what its instructions do to the registers.
effect_of-replay :
    (a b : Tracked) (before : ℕ → Note) (known : Regs) (r : ℕ)
    → r < 31
    → Follows before a b
    → known r ≡ provenance (before r)
    → out_of (effect_of a) known r ≡ provenance (b.regs r)
effect_of-replay a b before known r h f k = elim (Bool-cases (a.touched r)) [
  | inl p ↦
      let value : final_value a r ≡ provenance (a.regs r) = rw p refl in
      let same : b.regs r ≡ a.regs r = rw p at (f r) in
      rw (effect_of-touched a r h, p, effect_of-final a r h) (value ∙ ap provenance (sym same))
  | inr p ↦
      let same : b.regs r ≡ before r = rw p at (f r) in
      rw (effect_of-touched a r h, p) (k ∙ ap provenance (sym same))
]

-- The registers at the start of a block, after the instructions of the blocks on a path from the
-- entry.
pub data Runs (insts : List Inst) (annotators : List (Inst → Note)) : ℕ → (ℕ → Note) → Type 0 where
  begin : Runs insts annotators 0 (λ r. [])
  go :
      {b : ℕ} {regs : ℕ → Note} (touched : ℕ → Bool) (s : Succ)
      → Runs insts annotators b regs
      → Memᴰ s (block_at (build_cfg insts) b).succs
      → s.block_id < length (build_cfg insts)
      → Runs insts annotators s.block_id
          (touch_block annotators insts
            (block_at (build_cfg insts) b)
            (record { regs = regs; touched = touched })).regs

module _ (insts : List Inst) (annotators : List (Inst → Note)) where
  block_effect-decided :
      (b r : ℕ)
      → get_or (block_effect insts annotators b).touched r false ≡ true
      → get_or (block_effect insts annotators b).final r lv_top ≢ lv_top
  unfolding block_effect
  block_effect-decided b r =
      effect_of-decided (touch_block annotators insts (block_at (build_cfg insts) b) blank) r

  block_effect-replay :
      (b : ℕ) (before : ℕ → Note) (touched : ℕ → Bool) (known : Regs) (r : ℕ)
      → ((j : ℕ) → IsPlain (inst_at insts j))
      → r < 31
      → known r ≡ provenance (before r)
      → out_of (block_effect insts annotators b) known r
        ≡ provenance (
            (touch_block annotators insts
                (block_at (build_cfg insts) b)
                (record { regs = before; touched = touched })).regs
              r)
  unfolding block_effect touch_block
  block_effect-replay b before touched known r plain h k =
      let blk = block_at (build_cfg insts) b in
      effect_of-replay (touch_block annotators insts blk blank)
        (touch_block annotators insts blk (record { regs = before; touched = touched })) before
        known r h
        (touch_from-Follows before annotators insts (blk.end - blk.start) blk.start blank
          (record { regs = before; touched = touched }) plain (λ q. refl))
        k

  -- The paths of the analysis follow those of the instructions.
  Runs-Arrives :
      (b : ℕ) (regs : ℕ → Note)
      → Runs insts annotators b regs
      → ((j : ℕ) → IsPlain (inst_at insts j))
      → (known : Regs) × Arrives
          (length (build_cfg insts))
          (λ p. (block_at (build_cfg insts) p).succs)
          (block_effect insts annotators)
          b
          known
        × ((r : ℕ) → r < 31 → known r ≡ provenance (regs r))
  Runs-Arrives b regs begin plain = (λ r. lv_bottom, enter, λ r h. refl)
  Runs-Arrives b regs (go {b = p} {regs = before} touched s path m l) plain =
      let (known, arrives, k) = Runs-Arrives p before path plain in
      (
        out_of (block_effect insts annotators p) known,
        follow s arrives m l,
        λ r h. block_effect-replay p before touched known r plain h (k r h),
      )

  -- Of a function whose instructions load no entry point, and whose analysis has come to an end:
  -- what it says is known of a register at the start of a block is what the instructions of the
  -- blocks on any path from the entry leave in the register.
  pub solution_sound :
      (b : ℕ) (regs : ℕ → Note) (r : ℕ) (note : Note)
      → ((j : ℕ) → IsPlain (inst_at insts j))
      → (solution insts annotators).worklist ≡ []
      → 0 < length (build_cfg insts)
      → r < 31
      → Runs insts annotators b regs
      → (solution insts annotators).entry_state b r ≡ lv_known note
      → regs r ≡ note
  unfolding solution
  solution_sound b regs r note plain e n h path known =
      let (kn, arrives, k) = Runs-Arrives b regs path plain in
      let held =
        run_prov_fixpoint-known (length (build_cfg insts)) 31
          (λ p. (block_at (build_cfg insts) p).succs) (block_effect insts annotators) b kn r note e
          block_effect-decided n h arrives known in
      provenance-known (regs r) note (sym (k r h) ∙ held)
