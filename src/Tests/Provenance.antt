-- ===== src/Tests/Provenance.antt =====
-- The provenance analysis and the call edges at small functions.
use aotopsy.Base.{
  ℕ, zero, suc, ◌≡◌, ◌↔◌, refl, sym, ◌∙◌, arith, true, false, if◌then◌else◌, ◌==◌, List, [], ◌∷◌,
  map, some, none, length, get_elem?,
}
use aotopsy.Arm64.{bl, blr, ldr_reg_extended, ldur64}
use aotopsy.Arm64.Destinations.{dst_regs_of_inst}
use aotopsy.Disasm.Lvalue.{lv_top, lv_known, same_lvalue, meet_lvalue}
use aotopsy.Disasm.Partition.{Succ, taken}
use aotopsy.Disasm.Branch.{Inst, inst_at, build_cfg}
use aotopsy.Disasm.Fixpoint.{ProvBlockEffect, run_prov_fixpoint}
use aotopsy.Disasm.Fixpoint.Equations.{run_prov_fixpoint-Solves}
use aotopsy.Disasm.Fixpoint.Visit.{Solves}
use aotopsy.Disasm.Provenance.{Note, solution, block_at, touch_block, touch_instr_effect}
use aotopsy.Disasm.Provenance.Replay.{IsPlain}
use aotopsy.Disasm.Provenance.Sound.{Runs, begin, go, solution_sound}
use aotopsy.Disasm.CallEdges.{
  extract_call_edges_cfg, CallEdge, register, edges_from, infer_call_arg_reg_mask_local,
}
use aotopsy.Disasm.CallEdges.Complete.{site, calls_of, extract_call_edges_cfg-calls_of}
use aotopsy.Disasm.CallEdges.Link.{edges_from-stale_link}
use aotopsy.Disasm.CallEdges.Written.{digit, IsWritten, infer_call_arg_reg_mask_local-IsWritten}
use mathlib.Core.List.Memᴰ

-- ldr x1, [x27, #16]; cbz x2, 0x100c; nop; blr x1; ret
abbrev insts : List Inst
insts =
    record { addr = 0x1000; raw = 0xF9400B61 }
    ∷ record { addr = 0x1004; raw = 0xB4000042 }
    ∷ record { addr = 0x1008; raw = 0xD503201F }
    ∷ record { addr = 0x100C; raw = 0xD63F0020 }
    ∷ record { addr = 0x1010; raw = 0xD65F03C0 }
    ∷ []

-- "PP" for the load from the pool.
abbrev annotators : List (Inst → Note)
annotators = (λ inst. if inst.raw == 0xF9400B61 then 80 ∷ 80 ∷ [] else []) ∷ []

three_blocks : length (build_cfg insts) ≡ 3
unfolding build_cfg
three_blocks = refl

converged : (solution insts annotators).worklist ≡ []
unfolding solution bl blr ldr_reg_extended ldur64 dst_regs_of_inst
converged = refl

known_at_call : (solution insts annotators).entry_state 2 1 ≡ lv_known (80 ∷ 80 ∷ [])
unfolding solution bl blr ldr_reg_extended ldur64 dst_regs_of_inst
known_at_call = refl

one_call :
    extract_call_edges_cfg insts none annotators
    ≡ record {
      from_pc = 0x100C;
      kind = register;
      target_pc = 0;
      target_name = [];
      reg = 88 ∷ 49 ∷ [];
      via = 80 ∷ 80 ∷ [];
      arg_count_hint = 0;
      arg_reg_mask = 0;
    }
      ∷ []
unfolding extract_call_edges_cfg bl blr ldr_reg_extended ldur64 dst_regs_of_inst
one_call = refl

refused : (inst : Inst) → ldur64 inst.raw ≡ none → IsPlain inst
refused inst n base dst off e = let clash : none ≡ some (base, dst, off) = sym n ∙ e in cc

-- No load of the function is one of LDUR64.
plain : (j : ℕ) → IsPlain (inst_at insts j)
unfolding ldur64
plain zero = refused (inst_at insts 0) refl
plain (suc zero) = refused (inst_at insts 1) refl
plain (suc (suc zero)) = refused (inst_at insts 2) refl
plain (suc (suc (suc zero))) = refused (inst_at insts 3) refl
plain (suc (suc (suc (suc zero)))) = refused (inst_at insts 4) refl
plain (suc (suc (suc (suc (suc j))))) = refused (record { addr = 0; raw = 0 }) refl

abbrev after_load : ℕ → Note
unfolding touch_block bl blr ldr_reg_extended ldur64 dst_regs_of_inst build_cfg
after_load =
    (touch_block annotators insts (block_at (build_cfg insts) 0)
      (record { regs = λ r. []; touched = λ r. false })).regs

taken_branch : Runs insts annotators 2 after_load
unfolding after_load build_cfg
taken_branch =
    go {b = 0} {regs = λ r. []} (λ r. false) (record { block_id = 2; cond = taken }) begin
      (Memᴰ.head refl) (omega arith)

solution_sound_example : after_load 1 ≡ 80 ∷ 80 ∷ []
unfolding build_cfg
solution_sound_example =
    solution_sound insts annotators 2 after_load 1 (80 ∷ 80 ∷ []) plain converged (omega arith)
      (omega arith) taken_branch known_at_call

extract_call_edges_cfg-calls_of_example :
    map site (extract_call_edges_cfg insts none annotators) ≡ calls_of insts
extract_call_edges_cfg-calls_of_example = extract_call_edges_cfg-calls_of insts none annotators

-- mov x1, x0; mov x2, x0; bl
abbrev prepared : List Inst
prepared =
    record { addr = 0x1000; raw = 0xAA0003E1 }
    ∷ record { addr = 0x1004; raw = 0xAA0003E2 }
    ∷ record { addr = 0x1008; raw = 0x94000004 }
    ∷ []

two_arguments : infer_call_arg_reg_mask_local prepared 2 ≡ 3
unfolding infer_call_arg_reg_mask_local bl blr dst_regs_of_inst
two_arguments = refl

infer_call_arg_reg_mask_local-IsWritten_example :
    (digit 1 (infer_call_arg_reg_mask_local prepared 2) ≡ 1) ↔ IsWritten prepared 12 2 1
infer_call_arg_reg_mask_local-IsWritten_example =
    infer_call_arg_reg_mask_local-IsWritten prepared 2 1

-- bl; blr x30
abbrev linked : List Inst
linked =
    record { addr = 0x1000; raw = 0x94000004 } ∷ record { addr = 0x1004; raw = 0xD63F03C0 } ∷ []

abbrev pool_note : ℕ → Note
pool_note r = 80 ∷ 80 ∷ []

edges_from-stale_link_example :
    (get_elem? (map (λ (e : CallEdge). e.via) (edges_from linked none [] 2 0 pool_note)) 1
      ≡ some (80 ∷ 80 ∷ []))
    × ((touch_instr_effect []
            (inst_at linked 0)
            (record { regs = pool_note; touched = λ r. false })).regs
          30
        ≡ [])
unfolding bl blr
edges_from-stale_link_example =
    edges_from-stale_link linked none [] 0 0 0x1010 pool_note (omega arith) refl refl refl

-- Two blocks; the first leaves "PP" in the only register.
abbrev to_second : ℕ → List Succ
to_second zero = record { block_id = 1; cond = taken } ∷ []
to_second (suc b) = []

abbrev loads_pool : ℕ → ProvBlockEffect
loads_pool zero = record { touched = true ∷ []; final = lv_known (80 ∷ 80 ∷ []) ∷ [] }
loads_pool (suc b) = record { touched = false ∷ []; final = lv_top ∷ [] }

run_prov_fixpoint-Solves_example :
    Solves 2 1 to_second loads_pool
      (run_prov_fixpoint 2 1 to_second loads_pool).entry_state
      (run_prov_fixpoint 2 1 to_second loads_pool).exit_state
      1
unfolding run_prov_fixpoint same_lvalue meet_lvalue
run_prov_fixpoint-Solves_example =
    run_prov_fixpoint-Solves 2 1 to_second loads_pool 1 refl (omega arith)
