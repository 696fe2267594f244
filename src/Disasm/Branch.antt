-- ===== src/Disasm/Branch.antt =====
-- internal/disasm/branch.go and cfg.go: the branches of arm64 and the graph of a function.
pub mod Words
use aotopsy.Base.{ℕ, Bool, true, false, ◌==◌, ◌||◌, if◌then◌else◌, List, Option, none, some}
use aotopsy.Base.{length, get_or}
use aotopsy.Arm64.{matches, b, is_ret, is_br}
use aotopsy.Arm64.Conditions.{cond_branch, branch_imm19}
use aotopsy.Disasm.Partition.{
  FlowInfo, normal, jump, cond_jump, ret, indirect, BasicBlock, partition_blocks,
}
use Prim.Native.Nat.{bit_and}

pub record BranchInfo : Type 0 where
  pub target : ℕ
  pub cond : Bool
  pub is_ret : Bool
  pub is_indirect : Bool

abbrev pub ret_info : BranchInfo
ret_info = record { target = 0; cond = false; is_ret = true; is_indirect = false }

abbrev pub indirect_info : BranchInfo
indirect_info = record { target = 0; cond = false; is_ret = false; is_indirect = true }

abbrev pub branch_to : Bool → ℕ → BranchInfo
branch_to cond target = record { target = target; cond = cond; is_ret = false; is_indirect = false }

abbrev pub info : Bool → Option ℕ → Option BranchInfo → Option BranchInfo
info cond none otherwise = otherwise
info cond (some target) otherwise = some (branch_to cond target)

-- `b.al` and `b.nv`, behind the conditional branches.
abbrev pub always_branch : ℕ → ℕ → Option BranchInfo
always_branch raw pc =
    if matches 0xFF000010 0x54000000 raw
    then (if (bit_and raw 0xF == 14) || (bit_and raw 0xF == 15)
        then info false (branch_imm19 raw pc) none
        else none)
    else none

unfoldable pub decode_branch : ℕ → ℕ → Option BranchInfo
unfolding is_ret is_br b cond_branch
decode_branch raw pc = if is_ret raw then some ret_info else elim (is_br raw) [
  | some rn ↦ some indirect_info
  | none ↦ info false (b raw pc) (info true (cond_branch raw pc) (always_branch raw pc))
]

-- The part of an instruction that BuildCFG reads.
pub record Inst : Type 0 where
  pub addr : ℕ
  pub raw : ℕ

-- The closure `instFlow`.
abbrev pub flow_of : Option BranchInfo → FlowInfo
flow_of none = record { kind = normal; target = none }
flow_of (some bi) =
    if bi.is_ret
    then record { kind = ret; target = none }
    else if bi.is_indirect
    then record { kind = indirect; target = none }
    else if bi.cond
    then record { kind = cond_jump; target = some bi.target }
    else record { kind = jump; target = some bi.target }

-- `insts[i]`: no index is out of range.
abbrev pub inst_at : List Inst → ℕ → Inst
inst_at insts i = get_or insts i (record { addr = 0; raw = 0 })

unfoldable pub build_cfg : List Inst → List BasicBlock
unfolding decode_branch partition_blocks
build_cfg insts =
    partition_blocks (length insts) (λ i. (inst_at insts i).addr) (λ _. 4)
      (λ i. flow_of (decode_branch (inst_at insts i).raw (inst_at insts i).addr))
