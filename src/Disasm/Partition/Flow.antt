-- ===== src/Disasm/Partition/Flow.antt =====
-- The successor edges of the blocks are just the ways in which control leaves them.
use aotopsy.Base.{
  ℕ, zero, suc, ◌+◌, ◌-◌, ◌<◌, ◌≤◌, ◌≡◌, ◌≢◌, ◌↔◌, All, refl, sym, ap, ◌∙◌, arith, ◌==◌, true,
  false, List, [], ◌∷◌, some, get_elem?, Bool-cases, Option-cases, inl, inr, leb, ==_iff,
}
use aotopsy.Disasm.Partition.{
  BasicBlock, FlowInfo, FlowKind, normal, jump, cond_jump, ret, indirect, Condition, Succ, Marks,
  sorted_from, addr_to_idx, targets, leaders, end_of, block, block_of, blocks_from, leader_to_block,
  target_block, successors, partition_blocks, func_start, func_end,
}
use aotopsy.Disasm.Partition.Cover.{Tiles, targets-marks}
use aotopsy.Disasm.Partition.Blocks.{
  partition_blocks-leaders, partition_blocks-Tiles, addr_to_idx-last,
}
use aotopsy.Disasm.Partition.Edges.{Goes, LeadsTo, leader_to_block-block, partition_blocks-succs}
use mathlib.Core.Path.{subst}

All-get :
    {P : Succ → Type 0} (xs : List Succ)
    → ((j : ℕ) (s : Succ) → get_elem? xs j ≡ some s → P s)
    → All P xs
All-get [] f = tt
All-get (x ∷ xs) f = (f 0 x refl, All-get xs (λ j s e. f (suc j) s e))

-- A marked number has a block.
sorted_from-block_of :
    (k i id x : ℕ) (m : Marks)
    → i ≤ x
    → x < i + k
    → m x ≡ true
    → (r : ℕ) × (block_of id (sorted_from k i m) x ≡ some r)
unfolding sorted_from block_of
sorted_from-block_of zero i id x m lo hi h = absurd (omega (arith, lo, hi))
sorted_from-block_of (suc k) i id x m lo hi h = elim (Bool-cases (i == x)) [
  | inl p ↦
      let same : i ≡ x = (==_iff i x).0 p in
      let here : m i ≡ true = rw same h in rw here (rw p (id, refl))
  | inr p ↦
      let above : suc i ≤ x = ground arith in
      elim (Bool-cases (m i)) [
        | inl q ↦
            rw q (rw p (sorted_from-block_of k (suc i) (suc id) x m above (omega (arith, hi)) h))
        | inr q ↦ rw q (sorted_from-block_of k (suc i) id x m above (omega (arith, hi)) h)
      ]
]

module _ (n : ℕ) (addr len : ℕ → ℕ) (flow : ℕ → FlowInfo) where
  -- Where a block ends before the function, another one starts.
  block_of-end :
      (ls : List ℕ) (id id' k : ℕ) (b : BasicBlock)
      → get_elem? (blocks_from n addr len flow id ls) k ≡ some b
      → b.end < n
      → (r : ℕ) × (block_of id' ls b.end ≡ some r)
  unfolding blocks_from block_of
  block_of-end [] id id' k b e h = cc
  block_of-end (l ∷ []) id id' zero b e h =
      let same : block n addr len flow id l n ≡ b = cc in
      let ends : n ≡ b.end = ap BasicBlock.end same in absurd (omega (arith, ends, h))
  block_of-end (l ∷ []) id id' (suc k) b e h = cc
  block_of-end (l ∷ l' ∷ ls) id id' zero b e h =
      let same : block n addr len flow id l l' ≡ b = cc in
      let ends : l' ≡ b.end = ap BasicBlock.end same in
      rw (← ends) (elim (Bool-cases (l == l')) [
        | inl p ↦ rw p (id', refl)
        | inr p ↦ rw p (suc id', ground arith)
      ])
  block_of-end (l ∷ l' ∷ ls) id id' (suc k) b e h = elim (Bool-cases (l == b.end)) [
    | inl p ↦ rw p (id', refl)
    | inr p ↦ rw p (block_of-end (l' ∷ ls) (suc id) (suc id') k b e h)
  ]

  -- A block has an edge with the condition to the block that starts at the instruction.
  abbrev pub HasEdge : BasicBlock → Condition → ℕ → Type 0
  HasEdge b c first =
      (j : ℕ) × (s : Succ) × (get_elem? b.succs j ≡ some s)
      × (s.cond ≡ c)
      × (b' : BasicBlock) × (get_elem? (partition_blocks n addr len flow) s.block_id ≡ some b')
      × (b'.start ≡ first)

  -- The instruction is the last one at its address, and lies within the function.
  abbrev pub IsLast : ℕ → Type 0
  IsLast i =
      (i < n)
      × (func_start n addr len flow ≤ addr i)
      × (addr i < func_end n addr len flow)
      × ((j : ℕ) → i < j → j < n → addr j ≢ addr i)

  Tiles-ends : (id lo hi : ℕ) (bs : List BasicBlock) → Tiles n addr len flow id lo hi bs → lo ≤ hi
  Tiles-ends id lo hi [] t = omega (arith, t)
  Tiles-ends id lo hi (x ∷ bs) t = omega (arith, t.1, t.2, Tiles-ends (suc id) x.end hi bs t.4)

  Tiles-within :
      (id lo hi k : ℕ) (bs : List BasicBlock) (b : BasicBlock)
      → Tiles n addr len flow id lo hi bs
      → get_elem? bs k ≡ some b
      → (b.start < b.end) × (b.end ≤ hi)
  Tiles-within id lo hi k [] b t e = cc
  Tiles-within id lo hi zero (x ∷ bs) b t e =
      let same : x ≡ b = cc in rw (← same) (t.2, Tiles-ends (suc id) x.end hi bs t.4)
  Tiles-within id lo hi (suc k) (x ∷ bs) b t e = Tiles-within (suc id) x.end hi k bs b t.4 e

  -- An edge to the block at `i`, by the number of that block.
  edge_to :
      (b : BasicBlock) (j i r : ℕ) (c : Condition)
      → 0 < n
      → leader_to_block n addr len flow i ≡ some r
      → get_elem? b.succs j ≡ some (record { block_id = r; cond = c })
      → HasEdge b c i
  edge_to b j i r c h e g =
      let (b', q, w) = leader_to_block-block n addr len flow i r h e in
      (j, record { block_id = r; cond = c }, g, refl, b', q, w)

  end_leads :
      (k : ℕ) (b : BasicBlock)
      → 0 < n
      → get_elem? (partition_blocks n addr len flow) k ≡ some b
      → b.end < n
      → (r : ℕ) × (leader_to_block n addr len flow b.end ≡ some r)
  end_leads k b h e lt =
      block_of-end (leaders n addr len flow) 0 0 k b
        (rw (partition_blocks-leaders n addr len flow h) at e) lt

  -- The target of an instruction has a block.
  target_leads :
      (j i : ℕ)
      → j < n
      → IsLast i
      → (flow j).target ≡ some (addr i)
      → (r : ℕ) × (leader_to_block n addr len flow i ≡ some r)
        × (target_block n addr len flow (some (addr i)) ≡ some r)
  unfolding leaders
  target_leads j i hj (l, lo, hi, last) t =
      let found : addr_to_idx n addr len flow n (addr i) ≡ some i =
        addr_to_idx-last n addr len flow n i (addr i) l refl last in
      let marked = targets-marks n addr len flow n j (addr i) i hj t lo hi found in
      let (r, e) =
        sorted_from-block_of (suc n) 0 0 i (targets n addr len flow n) (omega arith)
          (omega (arith, l)) marked in
      (r, e, rw (found, target_block) e)

  blocks_from-successors :
      (ls : List ℕ) (id k : ℕ) (b : BasicBlock)
      → get_elem? (blocks_from n addr len flow id ls) k ≡ some b
      → b.start < b.end
      → b.succs
        ≡ (successors n addr len flow (flow (b.end - 1)).kind (flow (b.end - 1)).target b.end).0
  unfolding blocks_from
  blocks_from-successors [] id k b e h = cc
  blocks_from-successors (l ∷ ls) id (suc k) b e h = blocks_from-successors ls (suc id) k b e h
  blocks_from-successors (l ∷ ls) id zero b e h =
      let same : block n addr len flow id l (end_of n addr len flow ls) ≡ b = cc in
      let open_at : l < end_of n addr len flow ls = subst (λ x. x.start < x.end) (sym same) h in
      let full : leb (end_of n addr len flow ls) l ≡ false = ground (arith, open_at) in
      rw (← same) (rw full refl)

  -- Each way out of a block has its place among the successors.
  way_out :
      (kind : FlowKind) (b : BasicBlock) (c : Condition) (i : ℕ)
      → 0 < n
      → b.end - 1 < n
      → ((b.end < n) → (r : ℕ) × (leader_to_block n addr len flow b.end ≡ some r))
      → b.succs ≡ (successors n addr len flow kind (flow (b.end - 1)).target b.end).0
      → IsLast i
      → Goes n addr len flow kind b.end c i
      → HasEdge b c i
  way_out ret b c i h hj next e last g = absurd g
  way_out indirect b c i h hj next e last g = absurd g
  way_out normal b c i h hj next e last (ec, ei) =
      let (r, q) = next (omega (arith, ei, last.0)) in
      let q' : leader_to_block n addr len flow i ≡ some r = rw ei q in
      edge_to b 0 i r c h q' (rw (e, q, ec) refl)
  way_out jump b c i h hj next e last (ec, t) =
      let (r, q, w) = target_leads (b.end - 1) i hj last t in
      edge_to b 0 i r c h q (rw (e, t, successors, w, ec) refl)
  way_out cond_jump b c i h hj next e last (inl (ec, t)) =
      let (r, q, w) = target_leads (b.end - 1) i hj last t in
      edge_to b 0 i r c h q (rw (e, t, successors, w, ec) refl)
  way_out cond_jump b c i h hj next e last (inr (ec, ei)) =
      let (r, q) = next (omega (arith, ei, last.0)) in
      let q' : leader_to_block n addr len flow i ≡ some r = rw ei q in
      elim (Option-cases (target_block n addr len flow (flow (b.end - 1)).target)) [
        | inl p ↦ edge_to b 0 i r c h q' (rw (e, successors, p, q, ec) refl)
        | inr (_, p) ↦ edge_to b 1 i r c h q' (rw (e, successors, p, q, ec) refl)
      ]

  only_ways :
      (kind : FlowKind) (b : BasicBlock) (c : Condition) (i : ℕ)
      → (flow (b.end - 1)).kind ≡ kind
      → ((j : ℕ) (s : Succ) → get_elem? b.succs j ≡ some s → LeadsTo n addr len flow b.end s)
      → HasEdge b c i
      → Goes n addr len flow kind b.end c i
  only_ways kind b c i ek lead (j, s, e, ec, b', g, es) =
      let (x, q, goes) = lead j s e in
      let same : x ≡ b' = cc in
      let first : x.start ≡ i = ap BasicBlock.start same ∙ es in rw (← ek, ← ec, ← first) goes

  -- Every successor of a block leads to a block, to whose first instruction control goes from the
  -- last instruction of the first block with the condition of the edge; and to an instruction that
  -- lies within the function and is the last one at its address there is an edge with a condition
  -- just where control goes there under it. Control goes to the next instruction behind one that is
  -- no transfer, to the target of a jump, to the target of a conditional jump where it is taken ("T")
  -- and to the next one where it is not ("F"), and nowhere from a return or an indirect jump.
  pub partition_blocks-edges :
      (k i : ℕ) (b : BasicBlock) (c : Condition)
      → 0 < n
      → get_elem? (partition_blocks n addr len flow) k ≡ some b
      → IsLast i
      → All (LeadsTo n addr len flow b.end) b.succs
        × (HasEdge b c i ↔ Goes n addr len flow (flow (b.end - 1)).kind b.end c i)
  partition_blocks-edges k i b c h e last =
      let (open_at, ends) = Tiles-within 0 0 n k _ b (partition_blocks-Tiles n addr len flow h) e in
      let e' = rw (partition_blocks-leaders n addr len flow h) at e in
      let succs = blocks_from-successors (leaders n addr len flow) 0 k b e' open_at in
      let lead = λ (j : ℕ) (s : Succ). partition_blocks-succs n addr len flow k j b s h e in
      (
        All-get b.succs lead,
        (
          only_ways (flow (b.end - 1)).kind b c i refl lead,
          way_out (flow (b.end - 1)).kind b c i h (omega (arith, open_at, ends)) (end_leads k b h e)
              succs last,
        ),
      )
