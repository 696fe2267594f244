-- ===== src/Disasm/Partition.antt =====
-- internal/disasm/partition.go: basic blocks and their successors.
pub mod Cover
pub mod Blocks
pub mod Edges
pub mod Flow
use aotopsy.Base.{ℕ, zero, suc, ◌+◌, ◌-◌, ◌^◌, ◌%◌, Bool, true, false, not, ◌==◌, ◌&&◌, ltb, leb}
use aotopsy.Base.{if◌then◌else◌, List, [], ◌∷◌, ◌++◌, Option, none, some, length}

-- FlowNormal to FlowIndirect.
pub data FlowKind : Type 0 where
  normal jump cond_jump ret indirect : FlowKind

-- `fl.Kind != FlowNormal`
abbrev pub is_transfer : FlowKind → Bool
is_transfer normal = false
is_transfer _ = true

-- Target and HasTarget: `none` has no target.
pub record FlowInfo : Type 0 where
  pub kind : FlowKind
  pub target : Option ℕ

-- Cond is "", "T" or "F".
pub data Condition : Type 0 where
  always taken fallthrough : Condition

pub record Succ : Type 0 where
  pub block_id : ℕ
  pub cond : Condition

pub record BasicBlock : Type 0 where
  pub id : ℕ
  pub start : ℕ
  pub end : ℕ
  pub succs : List Succ
  pub is_entry : Bool
  pub is_term : Bool

-- A map with int keys and the value true, and one with int values.
abbrev pub Marks : Type 0
Marks = ℕ → Bool

abbrev pub mark : ℕ → Marks → Marks
mark i m j = if j == i then true else m j

-- The marked ones of the `k` numbers from `i` on, in order.
pub sorted_from : ℕ → ℕ → Marks → List ℕ
sorted_from zero i m = []
sorted_from (suc k) i m = let rest = sorted_from k (suc i) m in if m i then i ∷ rest else rest

-- `leaderToBlock`
pub block_of : ℕ → List ℕ → ℕ → Option ℕ
block_of id [] i = none
block_of id (l ∷ ls) i = if l == i then some id else block_of (suc id) ls i

abbrev pub succ_to : Condition → Option ℕ → List Succ
succ_to c none = []
succ_to c (some id) = record { block_id = id; cond = c } ∷ []

-- The arguments: the address, the length and the flow of each instruction.
module _ (n : ℕ) (addr len : ℕ → ℕ) (flow : ℕ → FlowInfo) where
  -- `addrToIdx`, after the indices below `i`: a later one replaces an earlier one.
  pub addr_to_idx : ℕ → ℕ → Option ℕ
  addr_to_idx zero a = none
  addr_to_idx (suc i) a = if addr i == a then some i else addr_to_idx i a

  -- The first loop: the entry, and what follows a transfer.
  pub after_transfers : ℕ → Marks
  after_transfers zero = mark 0 (λ _. false)
  after_transfers (suc i) =
      if is_transfer (flow i).kind && ltb (i + 1) n
      then mark (i + 1) (after_transfers i)
      else after_transfers i

  abbrev pub func_start : ℕ
  func_start = addr 0

  abbrev pub func_end : ℕ
  func_end = (addr (n - 1) + len (n - 1)) % 2 ^ 64

  abbrev pub mark_target : Option ℕ → Marks → Marks
  mark_target none m = m
  mark_target (some t) m =
      if leb func_start t && ltb t func_end
      then elim (addr_to_idx n t) [ none ↦ m | some idx ↦ mark idx m ]
      else m

  -- The second loop: the targets within the function.
  pub targets : ℕ → Marks
  unfolding addr_to_idx after_transfers
  targets zero = after_transfers n
  targets (suc i) = mark_target (flow i).target (targets i)

  -- `sorted`: all the keys of `leaders`. A key is 0, `i + 1` or an index, so `n` at most.
  pub leaders : List ℕ
  unfolding targets sorted_from
  leaders = sorted_from (suc n) 0 (targets n)

  abbrev pub leader_to_block : ℕ → Option ℕ
  leader_to_block i = block_of 0 leaders i

  -- The block at a target, where the target is an instruction that starts one.
  abbrev pub target_block : Option ℕ → Option ℕ
  target_block none = none
  target_block (some t) = elim (addr_to_idx n t) [ none ↦ none | some idx ↦ leader_to_block idx ]

  -- The successors by the last instruction, and whether the block is terminal.
  abbrev pub successors : FlowKind → Option ℕ → ℕ → List Succ × Bool
  successors ret t end = ([], true)
  successors indirect t end = ([], true)
  successors jump t end = elim (target_block t) [
    | none ↦ ([], true)
    | some id ↦ (succ_to always (some id), false)
  ]
  successors cond_jump t end =
      (succ_to taken (target_block t) ++ succ_to fallthrough (leader_to_block end), false)
  successors normal t end = (succ_to always (leader_to_block end), false)

  -- A block. An empty one has no successors and is not terminal.
  abbrev pub block : ℕ → ℕ → ℕ → BasicBlock
  block id start end =
      let last = flow (end - 1) in
      let (succs, term) = successors last.kind last.target end in
      record {
        id = id;
        start = start;
        end = end;
        succs = if leb end start then [] else succs;
        is_entry = start == 0;
        is_term = if leb end start then false else term;
      }

  abbrev pub end_of : List ℕ → ℕ
  end_of [] = n
  end_of (l ∷ ls) = l

  pub blocks_from : ℕ → List ℕ → List BasicBlock
  blocks_from id [] = []
  blocks_from id (l ∷ ls) = block id l (end_of ls) ∷ blocks_from (suc id) ls

  unfoldable pub partition_blocks : List BasicBlock
  unfolding leaders blocks_from block_of
  partition_blocks = if n == 0 then [] else blocks_from 0 leaders
