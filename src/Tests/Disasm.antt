-- ===== src/Tests/Disasm.antt =====
-- internal/disasm at a small function.
use aotopsy.Base.{
  ◌≤◌, ℕ, zero, suc, ◌+◌, ◌*◌, ◌≡◌, ◌↔◌, All, refl, arith, true, false, [], ◌∷◌, some, none,
}
use aotopsy.Disasm.Partition.{
  FlowInfo, always, normal, cond_jump, ret, taken, fallthrough, is_transfer, BasicBlock,
  partition_blocks,
}
use aotopsy.Disasm.Partition.Cover.{Tiles}
use aotopsy.Disasm.Partition.Blocks.{
  partition_blocks-Tiles, partition_blocks-straight, partition_blocks-single_entry,
}
use aotopsy.Disasm.Partition.Edges.{LeadsTo, Goes}
use aotopsy.Disasm.Partition.Flow.{HasEdge, partition_blocks-edges}

-- A loop of two instructions, then one more and a return.
abbrev addr : ℕ → ℕ
addr i = 0x1000 + 4 * i

abbrev len : ℕ → ℕ
len i = 4

abbrev flow : ℕ → FlowInfo
flow zero = record { kind = normal; target = none }
flow (suc zero) = record { kind = cond_jump; target = some 0x1000 }
flow (suc (suc zero)) = record { kind = normal; target = none }
flow (suc (suc (suc i))) = record { kind = ret; target = none }

abbrev loop_block : BasicBlock
loop_block = record {
  id = 0;
  start = 0;
  end = 2;
  succs = record { block_id = 0; cond = taken } ∷ record { block_id = 1; cond = fallthrough } ∷ [];
  is_entry = true;
  is_term = false;
}

abbrev exit_block : BasicBlock
exit_block = record { id = 1; start = 2; end = 4; succs = []; is_entry = false; is_term = true }

two_blocks : partition_blocks 4 addr len flow ≡ loop_block ∷ exit_block ∷ []
unfolding partition_blocks
two_blocks = refl

partition_blocks-Tiles_example : Tiles 4 addr len flow 0 0 4 (partition_blocks 4 addr len flow)
partition_blocks-Tiles_example = partition_blocks-Tiles 4 addr len flow (omega arith)

partition_blocks-straight_example : is_transfer (flow 0).kind ≡ false
unfolding partition_blocks
partition_blocks-straight_example =
    partition_blocks-straight 4 addr len flow 0 1 loop_block (omega arith) refl (omega arith)
      (omega arith)

-- A conditional jump over one instruction to a return.
abbrev skip_flow : ℕ → FlowInfo
skip_flow zero = record { kind = cond_jump; target = some 0x1008 }
skip_flow (suc zero) = record { kind = normal; target = none }
skip_flow (suc (suc i)) = record { kind = ret; target = none }

abbrev skipped_block : BasicBlock
skipped_block = record {
  id = 1;
  start = 1;
  end = 2;
  succs = record { block_id = 2; cond = always } ∷ [];
  is_entry = false;
  is_term = false;
}

partition_blocks-single_entry_example : 2 ≤ 2
unfolding partition_blocks
partition_blocks-single_entry_example =
    partition_blocks-single_entry 3 addr len skip_flow 1 2 0 0x1008 skipped_block refl (omega arith)
      refl (omega arith) (omega arith) (omega arith) refl (λ j a b. absurd (omega (arith, a, b)))
      (omega arith)

partition_blocks-edges_example :
    All (LeadsTo 4 addr len flow 2) loop_block.succs
    × (HasEdge 4 addr len flow loop_block taken 0 ↔ Goes 4 addr len flow cond_jump 2 taken 0)
unfolding partition_blocks
partition_blocks-edges_example =
    partition_blocks-edges 4 addr len flow 0 0 loop_block taken (omega arith) refl
      (omega arith, omega arith, omega arith, λ j a b. ground arith)
