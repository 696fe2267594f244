-- ===== src/Disasm/Partition/Blocks.antt =====
-- The blocks as a whole: they tile the function, and are entered at their start alone.
use aotopsy.Base.{
  ℕ, zero, suc, ◌+◌, ◌-◌, ◌≤◌, ◌<◌, ◌≡◌, ◌≢◌, refl, sym, ◌∙◌, arith, true, false, some, get_elem?,
  Bool-cases, dec_lt, ◌==◌, inl, inr,
}
use aotopsy.Disasm.Partition.{
  BasicBlock, FlowInfo, is_transfer, Marks, addr_to_idx, func_start, func_end, targets, sorted_from,
  leaders, end_of, blocks_from, partition_blocks,
}
use aotopsy.Disasm.Partition.Cover.{
  Tiles, sorted_from-Increasing, sorted_from-Gaps, blocks_from-Tiles, after_transfers-entry,
  targets-keeps, after_transfers-marks, targets-marks, leaders-instructions, inner_unmarked,
}

module _ (n : ℕ) (addr len : ℕ → ℕ) (flow : ℕ → FlowInfo) where
  first_leader :
      (k : ℕ) (m : Marks) → 0 < k → m 0 ≡ true → end_of n addr len flow (sorted_from k 0 m) ≡ 0
  unfolding sorted_from
  first_leader zero m h e = elim h [ ]
  first_leader (suc k) m h e = rw e refl

  entry_marked : targets n addr len flow n 0 ≡ true
  entry_marked = targets-keeps n addr len flow n 0 (after_transfers-entry n addr len flow n)

  pub partition_blocks-leaders :
      0 < n
      → partition_blocks n addr len flow ≡ blocks_from n addr len flow 0 (leaders n addr len flow)
  unfolding partition_blocks
  partition_blocks-leaders h = ground arith

  -- The blocks of a function that is not empty lie end to end from its first instruction to its
  -- last, none of them is empty, each has its place for an id, and the first alone is the entry.
  pub partition_blocks-Tiles :
      0 < n → Tiles n addr len flow 0 0 n (partition_blocks n addr len flow)
  partition_blocks-Tiles h =
      let m : Marks = targets n addr len flow n in
      let t =
        blocks_from-Tiles n addr len flow 0 0 (sorted_from n 0 m)
          (sorted_from-Increasing n addr len flow n 0 m (omega arith)) in
      rw (partition_blocks-leaders h, leaders-instructions n addr len flow h)
        (rw (first_leader n m h entry_marked) at t)

  inner :
      (k i : ℕ) (b : BasicBlock)
      → get_elem? (partition_blocks n addr len flow) k ≡ some b
      → b.start < i
      → i < b.end
      → 0 < n
      → targets n addr len flow n i ≡ false
  inner k i b e s h some_inst =
      inner_unmarked n addr len flow (targets n addr len flow n)
        (sorted_from n 0 (targets n addr len flow n)) 0 0 k i b
        (sorted_from-Gaps n addr len flow n 0 (targets n addr len flow n) (omega arith))
        (rw (partition_blocks-leaders some_inst, leaders-instructions n addr len flow some_inst) at
          e)
        s h

  -- Within a block control runs straight on: an instruction behind the first follows one that
  -- does not transfer control.
  pub partition_blocks-straight :
      (k i : ℕ) (b : BasicBlock)
      → i < n
      → get_elem? (partition_blocks n addr len flow) k ≡ some b
      → b.start < i
      → i < b.end
      → is_transfer (flow (i - 1)).kind ≡ false
  partition_blocks-straight k i b hi e s h =
      let clear = inner k i b e s h (omega arith) in
      elim (Bool-cases (is_transfer (flow (i - 1)).kind)) [
        | inr p ↦ p
        | inl p ↦
            let back : i - 1 + 1 ≡ i = omega arith in
            let marked =
              after_transfers-marks n addr len flow n (i - 1) (omega arith) p (omega arith) in
            let kept = targets-keeps n addr len flow n i (rw back at marked) in
            let clash : true ≡ false = sym kept ∙ clear in cc
      ]

  -- `addrToIdx` holds, for an address, the last instruction that stands there.
  pub addr_to_idx-last :
      (k i t : ℕ)
      → i < k
      → addr i ≡ t
      → ((j : ℕ) → i < j → j < k → addr j ≢ t)
      → addr_to_idx n addr len flow k t ≡ some i
  unfolding addr_to_idx
  addr_to_idx-last zero i t l e h = absurd (omega (arith, l))
  addr_to_idx-last (suc k) i t l e h = elim (dec_lt i k) [
    | yes p ↦
        let other : (addr k == t) ≡ false = ground (arith, h k p (omega arith)) in
        rw other (addr_to_idx-last k i t p e (λ j a b. h j a (omega (arith, b))))
    | no p ↦
        let last : k ≡ i = omega (arith, l, p) in
        let here : (addr i == t) ≡ true = ground (arith, e) in rw (last, here) refl
  ]

  -- No instruction jumps into a block behind its first instruction. Where the target of an
  -- instruction lies within the function and is the address of instruction `i`, and of none behind
  -- it, `i` is not inside a block.
  pub partition_blocks-single_entry :
      (k i j t : ℕ) (b : BasicBlock)
      → get_elem? (partition_blocks n addr len flow) k ≡ some b
      → j < n
      → (flow j).target ≡ some t
      → func_start n addr len flow ≤ t
      → t < func_end n addr len flow
      → i < n
      → addr i ≡ t
      → ((j' : ℕ) → i < j' → j' < n → addr j' ≢ t)
      → b.start < i
      → b.end ≤ i
  partition_blocks-single_entry k i j t b e hj ft a z l at last s = elim (dec_lt i b.end) [
    | no p ↦ omega (arith, p)
    | yes p ↦
        let clear = inner k i b e s p (omega arith) in
        let marked =
          targets-marks n addr len flow n j t i hj ft a z (addr_to_idx-last n i t l at last) in
        let clash : true ≡ false = sym marked ∙ clear in cc
  ]
