-- ===== src/Disasm/CallEdges/Link.antt =====
-- What a call leaves in the link register, in the effect of a block and in the final pass; and the
-- load of an entry point, which depends on the registers before.
use aotopsy.Base.{
  ℕ, suc, ◌<◌, ◌≤◌, ◌≡◌, refl, arith, true, false, ltb, ◌==◌, List, [], ◌∷◌, map, Option, none,
  some, get_elem?, length,
}
use aotopsy.Base.Int.{ℤ}
use aotopsy.Arm64.{bl, blr, ldur64}
use aotopsy.Disasm.Branch.{Inst, inst_at}
use aotopsy.Disasm.Provenance.{
  Note, Tracked, is_code_entry_point_disp, object_field_via_at, table_load, touch_instr_effect,
  blank,
}
use aotopsy.Disasm.CallEdges.{edges_from, direct_edge, register_edge, CallEdge}

-- Where a call through the link register X30 follows a direct call, the final pass names what the
-- register held before the direct call, though the effect of that call is to forget it.
pub edges_from-stale_link :
    (insts : List Inst) (symbols : Option (ℕ → Option Note)) (annotators : List (Inst → Note))
    (k i target : ℕ) (regs : ℕ → Note)
    → suc i < length insts
    → bl (inst_at insts i).raw (inst_at insts i).addr ≡ some target
    → bl (inst_at insts (suc i)).raw (inst_at insts (suc i)).addr ≡ none
    → blr (inst_at insts (suc i)).raw ≡ some 30
    → (get_elem?
          (map (λ (e : CallEdge). e.via) (edges_from insts symbols annotators (suc (suc k)) i regs))
          1
        ≡ some (regs 30))
      × ((touch_instr_effect annotators
              (inst_at insts i)
              (record { regs = regs; touched = λ r. false })).regs
            30
          ≡ [])
unfolding edges_from touch_instr_effect register_edge direct_edge
edges_from-stale_link insts symbols annotators k i target regs h e f g =
    let p : ltb i (length insts) ≡ true = ground (arith, h) in
    let q : ltb (suc i) (length insts) ≡ true = ground (arith, h) in
    (rw (p, e, q, f, g, edges_from) refl, rw (e, touch_instr_effect) refl)

-- After a load of an entry point of an object of which something is known, the register has that;
-- from blank registers it has the field. So the effect of a block depends on what reaches it.
touch_instr_effect-entry_point :
    (annotators : List (Inst → Note)) (inst : Inst) (base dst : ℕ) (off : ℤ) (st : Tracked) (c : ℕ)
    (cs : Note)
    → bl inst.raw inst.addr ≡ none
    → blr inst.raw ≡ none
    → table_load inst.raw ≡ none
    → ldur64 inst.raw ≡ some (base, dst, off)
    → is_code_entry_point_disp off ≡ true
    → base ≤ 30
    → dst ≤ 30
    → st.regs base ≡ c ∷ cs
    → ((touch_instr_effect annotators inst st).regs dst ≡ c ∷ cs)
      × ((touch_instr_effect annotators inst blank).regs dst ≡ object_field_via_at off)
unfolding touch_instr_effect
touch_instr_effect-entry_point annotators inst base dst off st c cs e f g l d hb hd known =
    let p : ltb base 31 ≡ true = ground (arith, hb) in
    let q : ltb 30 dst ≡ false = ground (arith, hd) in
    let r : (dst == dst) ≡ true = ground arith in
    (
      rw (e, f, g, l, d, p, q, known, touch_instr_effect) (rw r refl),
      rw (e, f, g, l, d, p, q, touch_instr_effect) (rw r refl),
    )
