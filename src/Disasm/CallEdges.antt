-- ===== src/Disasm/CallEdges.antt =====
-- internal/disasm/calledge.go and ExtractCallEdgesCFG of dataflowarm64.go: the calls of a function.
pub mod Complete
pub mod Link
pub mod Masks
pub mod Written
use aotopsy.Base.{
  ℕ, zero, suc, ◌+◌, ◌-◌, ◌^◌, Bool, true, false, ◌==◌, ltb, if◌then◌else◌, List, [], ◌∷◌, ◌++◌,
  Option, none, some, get_or, length,
}
use aotopsy.Arm64.{bl, blr}
use aotopsy.Arm64.Destinations.{dst_regs_of_inst}
use aotopsy.Disasm.Lvalue.{Lvalue, lv_top, lv_known, lv_bottom}
use aotopsy.Disasm.Partition.{Succ, BasicBlock}
use aotopsy.Disasm.Branch.{Inst, inst_at, build_cfg}
use aotopsy.Disasm.Fixpoint.{ProvBlockEffect, Fixpoint, run_prov_fixpoint}
use aotopsy.Disasm.Provenance.{Note, format_int, Tracked, touch_instr_effect, solution}
use Prim.Native.Nat.{bit_and, bit_or}

-- Kind is "bl" or "blr".
pub data CallKind : Type 0 where
  direct register : CallKind

pub record CallEdge : Type 0 where
  pub from_pc : ℕ
  pub kind : CallKind
  pub target_pc : ℕ
  pub target_name : Note
  pub reg : Note
  pub via : Note
  pub arg_count_hint : ℕ
  pub arg_reg_mask : ℕ

-- The registers X1, X2, X3, X5, X6 and X7.
abbrev pub arm64_arg_reg_canon : List ℕ
arm64_arg_reg_canon = 1 ∷ 2 ∷ 3 ∷ 5 ∷ 6 ∷ 7 ∷ []

-- The loop of arm64ArgRegBitPos from position `i` on; `none` for -1.
pub position_from : ℕ → List ℕ → ℕ → Option ℕ
position_from i [] canon_idx = none
position_from i (c ∷ cs) canon_idx =
    let rest = position_from (suc i) cs canon_idx in if c == canon_idx then some i else rest

pub arm64_arg_reg_bit_pos : ℕ → Option ℕ
unfolding position_from
arm64_arg_reg_bit_pos = position_from 0 arm64_arg_reg_canon

abbrev pub max_arg_setup_back : ℕ
max_arg_setup_back = 12

-- The destinations of one instruction, added to the mask.
pub add_args : List ℕ → ℕ → ℕ
unfolding arm64_arg_reg_bit_pos
add_args [] mask = mask
add_args (rd ∷ dsts) mask = elim (arm64_arg_reg_bit_pos rd) [
  | some at ↦ add_args dsts (bit_or mask (2 ^ at))
  | none ↦ add_args dsts mask
]

-- The instructions before index `i`, `steps` of them at most.
pub arg_mask_loop : List Inst → ℕ → ℕ → ℕ → ℕ
unfolding add_args
arg_mask_loop insts zero i mask = mask
arg_mask_loop insts (suc steps) zero mask = mask
arg_mask_loop insts (suc steps) (suc i) mask =
    elim (bl (inst_at insts i).raw (inst_at insts i).addr) [
      | some target ↦ mask
      | none ↦ elim (blr (inst_at insts i).raw) [
        | some rn ↦ mask
        | none ↦
            arg_mask_loop insts steps i (add_args (dst_regs_of_inst (inst_at insts i).raw) mask)
      ]
    ]

unfoldable pub infer_call_arg_reg_mask_local : List Inst → ℕ → ℕ
unfolding arg_mask_loop
infer_call_arg_reg_mask_local insts call_idx = arg_mask_loop insts max_arg_setup_back call_idx 0

-- The loop of popcount8, with fuel: a round clears a bit of eight.
pub popcount_loop : ℕ → ℕ → ℕ
popcount_loop zero m = 0
popcount_loop (suc fuel) m =
    let rest = popcount_loop fuel (bit_and m (m - 1)) in if m == 0 then 0 else suc rest

unfoldable pub popcount8 : ℕ → ℕ
unfolding popcount_loop
popcount8 m = popcount_loop 8 m

-- "X" and the number.
unfoldable pub reg_name : ℕ → Note
unfolding format_int
reg_name rn = 88 ∷ format_int 10 rn

-- The notes of the known registers.
abbrev pub note_of : Lvalue → Note
note_of lv_top = []
note_of (lv_known note) = note
note_of lv_bottom = []

-- `symbols` is nil or a lookup; a name that is not found is empty.
abbrev pub name_of : Option (ℕ → Option Note) → ℕ → Note
name_of none target = []
name_of (some lookup) target = elim (lookup target) [ none ↦ [] | some name ↦ name ]

pub direct_edge : List Inst → Option (ℕ → Option Note) → ℕ → ℕ → CallEdge
unfolding infer_call_arg_reg_mask_local popcount8
direct_edge insts symbols i target =
    let arg_mask = infer_call_arg_reg_mask_local insts i in
    record {
      from_pc = (inst_at insts i).addr;
      kind = direct;
      target_pc = target;
      target_name = name_of symbols target;
      reg = [];
      via = [];
      arg_count_hint = popcount8 arg_mask;
      arg_reg_mask = arg_mask;
    }

pub register_edge : ℕ → ℕ → (ℕ → Note) → CallEdge
unfolding reg_name
register_edge addr rn regs = record {
  from_pc = addr;
  kind = register;
  target_pc = 0;
  target_name = [];
  reg = reg_name rn;
  via = if ltb 30 rn then [] else regs rn;
  arg_count_hint = 0;
  arg_reg_mask = 0;
}

module _ (insts : List Inst) (symbols : Option (ℕ → Option Note))
    (annotators : List (Inst → Note)) where
  -- The walk over a block in the final pass: a call adds an edge and leaves the registers alone.
  pub edges_from : ℕ → ℕ → (ℕ → Note) → List CallEdge
  unfolding touch_instr_effect direct_edge register_edge
  edges_from zero i regs = []
  edges_from (suc k) i regs = elim (ltb i (length insts)) [
    | false ↦ []
    | true ↦ elim (bl (inst_at insts i).raw (inst_at insts i).addr) [
      | some target ↦ direct_edge insts symbols i target ∷ edges_from k (suc i) regs
      | none ↦ elim (blr (inst_at insts i).raw) [
        | some rn ↦ register_edge (inst_at insts i).addr rn regs ∷ edges_from k (suc i) regs
        | none ↦
            edges_from k (suc i)
              (touch_instr_effect annotators (inst_at insts i)
                (record { regs = regs; touched = λ r. false })).regs
      ]
    ]
  ]

  pub edges_of_blocks : ℕ → List BasicBlock → List CallEdge
  unfolding edges_from solution
  edges_of_blocks b [] = []
  edges_of_blocks b (blk ∷ blks) =
      edges_from (blk.end - blk.start) blk.start
        (λ r. note_of ((solution insts annotators).entry_state b r))
      ++ edges_of_blocks (suc b) blks

  unfoldable pub extract_call_edges_cfg : List CallEdge
  unfolding edges_of_blocks build_cfg
  extract_call_edges_cfg = edges_of_blocks 0 (build_cfg insts)
