-- ===== src/Disasm/Partition/Edges.antt =====
-- The successor edges of the blocks lead to blocks.
use aotopsy.Base.{
  ℕ, zero, suc, ◌+◌, ◌-◌, ◌<◌, ◌≡◌, ◌⊎◌, refl, sym, ap, ◌∙◌, arith, ◌==◌, List, [], ◌∷◌, ◌++◌,
  Option, none, some, get_elem?, Bool-cases, Option-cases, inl, inr, leb, ==_iff,
}
use aotopsy.Disasm.Partition.{
  BasicBlock, FlowInfo, FlowKind, normal, jump, cond_jump, ret, indirect, Condition, always, taken,
  fallthrough, Succ, succ_to, addr_to_idx, leaders, end_of, block, block_of, blocks_from,
  leader_to_block, target_block, successors, partition_blocks,
}
use mathlib.Core.Path.{subst}
use aotopsy.Disasm.Partition.Blocks.{partition_blocks-leaders}

succ_to-block_id :
    (c : Condition) (r j : ℕ) (s : Succ)
    → get_elem? (succ_to c (some r)) j ≡ some s
    → (s.block_id ≡ r) × (s.cond ≡ c)
succ_to-block_id c r zero s e =
    let same : record { block_id = r; cond = c } ≡ s = cc in
    (sym (ap Succ.block_id same), sym (ap Succ.cond same))
succ_to-block_id c r (suc j) s e = cc

module _ (n : ℕ) (addr len : ℕ → ℕ) (flow : ℕ → FlowInfo) where
  addr_to_idx-addr : (k a i : ℕ) → addr_to_idx n addr len flow k a ≡ some i → addr i ≡ a
  unfolding addr_to_idx
  addr_to_idx-addr zero a i e = cc
  addr_to_idx-addr (suc k) a i e = elim (Bool-cases (addr k == a)) [
    | inl p ↦
        let q : some k ≡ some i = rw p at e in
        let same : k ≡ i = cc in rw same at ((==_iff (addr k) a).0 p)
    | inr p ↦ addr_to_idx-addr k a i (rw p at e)
  ]

  -- `leaderToBlock` names the block that starts at the leader.
  block_of-start :
      (ls : List ℕ) (id i r : ℕ)
      → block_of id ls i ≡ some r
      → (b : BasicBlock) × (k : ℕ) × (r ≡ id + k)
        × (get_elem? (blocks_from n addr len flow id ls) k ≡ some b)
        × (b.start ≡ i)
  unfolding block_of blocks_from
  block_of-start [] id i r e = cc
  block_of-start (l ∷ ls) id i r e = elim (Bool-cases (l == i)) [
    | inl p ↦
        let q : some id ≡ some r = rw p at e in
        let same : id ≡ r = cc in
        (
          block n addr len flow id l (end_of n addr len flow ls),
          0,
          omega (arith, same),
          refl,
          (==_iff l i).0 p,
        )
    | inr p ↦
        let (b, k, s, g, h) = block_of-start ls (suc id) i r (rw p at e) in
        (b, suc k, omega (arith, s), g, h)
  ]

  -- To the instruction at the target.
  abbrev AtTarget : ℕ → ℕ → Type 0
  AtTarget end first = (flow (end - 1)).target ≡ some (addr first)

  -- Where control goes from the end of a block, by the kind of its last instruction: the condition
  -- of the edge, and the instruction that it goes to.
  abbrev pub Goes : FlowKind → ℕ → Condition → ℕ → Type 0
  Goes normal end c first = (c ≡ always) × (first ≡ end)
  Goes jump end c first = (c ≡ always) × AtTarget end first
  Goes cond_jump end c first =
      ((c ≡ taken) × AtTarget end first) ⊎ ((c ≡ fallthrough) × (first ≡ end))
  Goes ret end c first = ⊥
  Goes indirect end c first = ⊥

  -- The edge leads to a block whose first instruction is where control goes.
  abbrev pub LeadsTo : ℕ → Succ → Type 0
  LeadsTo end s =
      (b : BasicBlock) × (get_elem? (partition_blocks n addr len flow) s.block_id ≡ some b)
      × Goes (flow (end - 1)).kind end s.cond b.start

  -- The condition of an edge with the block that it leads to.
  abbrev EdgeTo : Condition → (ℕ → Type 0) → Succ → Type 0
  EdgeTo c At s =
      (b : BasicBlock) × (get_elem? (partition_blocks n addr len flow) s.block_id ≡ some b)
      × (s.cond ≡ c)
      × At b.start

  pub leader_to_block-block :
      (i r : ℕ)
      → 0 < n
      → leader_to_block n addr len flow i ≡ some r
      → (b : BasicBlock) × (get_elem? (partition_blocks n addr len flow) r ≡ some b) × (b.start ≡ i)
  leader_to_block-block i r h e =
      let (b, k, s, g, q) = block_of-start (leaders n addr len flow) 0 i r e in
      let same : r ≡ k = omega (arith, s) in
      (b, rw (partition_blocks-leaders n addr len flow h, same) g, q)

  target_block-block :
      (t : Option ℕ) (r : ℕ)
      → 0 < n
      → target_block n addr len flow t ≡ some r
      → (b : BasicBlock) × (get_elem? (partition_blocks n addr len flow) r ≡ some b)
        × (t ≡ some (addr b.start))
  target_block-block none r h e = cc
  target_block-block (some t) r h e = elim (Option-cases (addr_to_idx n addr len flow n t)) [
    | inl q ↦ let clash : none ≡ some r = rw (q, target_block) at e in cc
    | inr (i, q) ↦
        let found = rw (q, target_block) at e in
        let (b, g, s) = leader_to_block-block i r h found in
        (b, g, rw s (ap some (sym (addr_to_idx-addr n t i q))))
  ]

  target_leads :
      (c : Condition) (end j : ℕ) (t : Option ℕ) (s : Succ)
      → 0 < n
      → (flow (end - 1)).target ≡ t
      → get_elem? (succ_to c (target_block n addr len flow t)) j ≡ some s
      → EdgeTo c (AtTarget end) s
  target_leads c end j t s h f e = elim (Option-cases (target_block n addr len flow t)) [
    | inl q ↦ let clash : none ≡ some s = rw (q, succ_to) at e in cc
    | inr (r, q) ↦
        let (b, g, w) = target_block-block t r h q in
        let same = succ_to-block_id c r j s (rw q at e) in (b, rw same.0 g, same.1, f ∙ w)
  ]

  next_leads :
      (c : Condition) (end j : ℕ) (s : Succ)
      → 0 < n
      → get_elem? (succ_to c (leader_to_block n addr len flow end)) j ≡ some s
      → EdgeTo c (λ first. first ≡ end) s
  next_leads c end j s h e = elim (Option-cases (leader_to_block n addr len flow end)) [
    | inl q ↦ let clash : none ≡ some s = rw (q, succ_to) at e in cc
    | inr (r, q) ↦
        let (b, g, w) = leader_to_block-block end r h q in
        let same = succ_to-block_id c r j s (rw q at e) in (b, rw same.0 g, same.1, w)
  ]

  succ_to-either :
      (c : Condition) (o : Option ℕ) (rest : List Succ) (j : ℕ) (s : Succ)
      → get_elem? (succ_to c o ++ rest) j ≡ some s
      → (get_elem? (succ_to c o) j ≡ some s) ⊎ ((i : ℕ) × (get_elem? rest i ≡ some s))
  succ_to-either c none rest j s e = inr (j, e)
  succ_to-either c (some r) rest zero s e = inl e
  succ_to-either c (some r) rest (suc j) s e = inr (j, e)

  jump_leads :
      (end j : ℕ) (t : Option ℕ) (s : Succ)
      → get_elem? (successors n addr len flow jump t end).0 j ≡ some s
      → get_elem? (succ_to always (target_block n addr len flow t)) j ≡ some s
  jump_leads end j t s e = elim (Option-cases (target_block n addr len flow t)) [
    | inl q ↦ let clash : none ≡ some s = rw (q, successors) at e in cc
    | inr (r, q) ↦ rw q (rw (q, successors) at e)
  ]

  successors_lead :
      (kind : FlowKind) (end j : ℕ) (t : Option ℕ) (s : Succ)
      → 0 < n
      → (flow (end - 1)).target ≡ t
      → get_elem? (successors n addr len flow kind t end).0 j ≡ some s
      → (b : BasicBlock) × (get_elem? (partition_blocks n addr len flow) s.block_id ≡ some b)
        × Goes kind end s.cond b.start
  successors_lead ret end j t s h f e = cc
  successors_lead indirect end j t s h f e = cc
  successors_lead normal end j t s h f e =
      let (b, g, c, w) = next_leads always end j s h e in (b, g, (c, w))
  successors_lead jump end j t s h f e =
      let (b, g, c, w) = target_leads always end j t s h f (jump_leads end j t s e) in
      (b, g, (c, w))
  successors_lead cond_jump end j t s h f e =
      elim (succ_to-either taken (target_block n addr len flow t) _ j s e) [
        | inl q ↦ let (b, g, c, w) = target_leads taken end j t s h f q in (b, g, inl (c, w))
        | inr (i, q) ↦ let (b, g, c, w) = next_leads fallthrough end i s h q in (b, g, inr (c, w))
      ]

  blocks_from-succs :
      (ls : List ℕ) (id k j : ℕ) (b : BasicBlock) (s : Succ)
      → 0 < n
      → get_elem? (blocks_from n addr len flow id ls) k ≡ some b
      → get_elem? b.succs j ≡ some s
      → LeadsTo b.end s
  unfolding blocks_from
  blocks_from-succs [] id k j b s h e q = cc
  blocks_from-succs (l ∷ ls) id (suc k) j b s h e q = blocks_from-succs ls (suc id) k j b s h e q
  blocks_from-succs (l ∷ ls) id zero j b s h e q =
      let end : ℕ = end_of n addr len flow ls in
      let same : block n addr len flow id l end ≡ b = cc in
      let q' : get_elem? (block n addr len flow id l end).succs j ≡ some s =
        subst (λ w. get_elem? w.succs j ≡ some s) (sym same) q in
      let ends : end ≡ b.end = ap BasicBlock.end same in
      rw (← ends) (elim (Bool-cases (leb end l)) [
        | inl p ↦ let clash : none ≡ some s = rw p at q' in cc
        | inr p ↦
            successors_lead (flow (end - 1)).kind end j (flow (end - 1)).target s h refl
              (rw p at q')
      ])

  -- A successor of a block is a block, to whose first instruction control goes from the last
  -- instruction of the first block: to the next one behind an instruction that is no transfer, to
  -- the target of a jump, to the target of a conditional jump where it is taken ("T") and to the
  -- next one where it is not ("F"). A return or an indirect jump has no successor.
  pub partition_blocks-succs :
      (k j : ℕ) (b : BasicBlock) (s : Succ)
      → 0 < n
      → get_elem? (partition_blocks n addr len flow) k ≡ some b
      → get_elem? b.succs j ≡ some s
      → LeadsTo b.end s
  partition_blocks-succs k j b s h e q =
      blocks_from-succs (leaders n addr len flow) 0 k j b s h
        (rw (partition_blocks-leaders n addr len flow h) at e) q
