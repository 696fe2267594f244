-- ===== src/Disasm/CallEdges/Complete.antt =====
-- The call edges of a function are its call instructions.
use aotopsy.Base.{
  ℕ, zero, suc, ◌+◌, ◌-◌, ◌<◌, ◌≡◌, refl, sym, ap, ◌∙◌, arith, false, ltb, List, [], ◌∷◌, ◌++◌, map,
  Option, none, some, Bool-cases, Option-cases, inl, inr, length, take, drop, take-append-drop,
}
use aotopsy.Arm64.{bl, blr}
use aotopsy.Disasm.Partition.{BasicBlock, FlowInfo}
use aotopsy.Disasm.Partition.Cover.{Tiles}
use aotopsy.Disasm.Partition.Blocks.{partition_blocks-Tiles}
use aotopsy.Disasm.Branch.{Inst, inst_at, decode_branch, flow_of, build_cfg}
use aotopsy.Disasm.Provenance.{Note, solution}
use aotopsy.Disasm.CallEdges.{
  CallKind, direct, register, CallEdge, direct_edge, register_edge, note_of, edges_from,
  edges_of_blocks, extract_call_edges_cfg,
}
use mathlib.Core.Path.{ap₂}
use mathlib.Core.List.{append_assoc}

-- Where a call is, whether through a register, and its target, 0 for a register.
abbrev pub site : CallEdge → ℕ × CallKind × ℕ
site e = (e.from_pc, e.kind, e.target_pc)

-- The call that an instruction is.
abbrev pub call_at : Inst → List (ℕ × CallKind × ℕ)
call_at inst = elim (bl inst.raw inst.addr) [
  | some target ↦ (inst.addr, direct, target) ∷ []
  | none ↦ elim (blr inst.raw) [ some rn ↦ (inst.addr, register, 0) ∷ [] | none ↦ [] ]
]

-- The BL and BLR instructions, in order.
unfoldable pub calls_of : List Inst → List (ℕ × CallKind × ℕ)
calls_of [] = []
calls_of (inst ∷ insts) = call_at inst ++ calls_of insts

calls_of-append : (xs ys : List Inst) → calls_of (xs ++ ys) ≡ calls_of xs ++ calls_of ys
unfolding calls_of
calls_of-append [] ys = refl
calls_of-append (x ∷ xs) ys =
    ap (λ l. call_at x ++ l) (calls_of-append xs ys)
    ∙ sym (append_assoc (call_at x) (calls_of xs) (calls_of ys))

drop-at : (xs : List Inst) (i : ℕ) → i < length xs → drop i xs ≡ inst_at xs i ∷ drop (suc i) xs
drop-at [] i h = absurd (omega (arith, h))
drop-at (x ∷ xs) zero h = refl
drop-at (x ∷ xs) (suc i) h = drop-at xs i (omega (arith, h))

drop-beyond : (xs : List Inst) (i : ℕ) → ltb i (length xs) ≡ false → drop i xs ≡ []
drop-beyond [] zero h = refl
drop-beyond [] (suc i) h = refl
drop-beyond (x ∷ xs) zero h = absurd (ground (arith, h))
drop-beyond (x ∷ xs) (suc i) h = drop-beyond xs i (ground (arith, h))

drop-nil : (k : ℕ) → drop {A = Inst} k [] ≡ []
drop-nil zero = refl
drop-nil (suc k) = refl

drop-drop : (xs : List Inst) (i k : ℕ) → drop k (drop i xs) ≡ drop (i + k) xs
drop-drop xs zero k = let e : k ≡ 0 + k = omega arith in ap (λ j. drop j xs) e
drop-drop [] (suc i) k = let e : suc i + k ≡ suc (i + k) = omega arith in rw e (drop-nil k)
drop-drop (x ∷ xs) (suc i) k =
    let e : suc i + k ≡ suc (i + k) = omega arith in rw e (drop-drop xs i k)

map-append :
    (f : CallEdge → ℕ × CallKind × ℕ) (xs ys : List CallEdge)
    → map f (xs ++ ys) ≡ map f xs ++ map f ys
map-append f [] ys = refl
map-append f (x ∷ xs) ys = ap (λ l. f x ∷ l) (map-append f xs ys)

module _ (insts : List Inst) (symbols : Option (ℕ → Option Note))
    (annotators : List (Inst → Note)) where
  edges_from-calls_of :
      (k i : ℕ) (regs : ℕ → Note)
      → map site (edges_from insts symbols annotators k i regs) ≡ calls_of (take k (drop i insts))
  unfolding edges_from calls_of direct_edge register_edge
  edges_from-calls_of zero i regs = refl
  edges_from-calls_of (suc k) i regs = elim (Bool-cases (ltb i (length insts))) [
    | inr p ↦ rw (p, drop-beyond insts i p, edges_from) refl
    | inl p ↦ elim (Option-cases (bl (inst_at insts i).raw (inst_at insts i).addr)) [
      | inr (target, q) ↦
          rw (drop-at insts i (ground (arith, p)), p, q, edges_from, call_at)
            (ap (λ l. ((inst_at insts i).addr, direct, target) ∷ l)
              (edges_from-calls_of k (suc i) regs))
      | inl q ↦ elim (Option-cases (blr (inst_at insts i).raw)) [
        | inr (rn, r) ↦
            rw (drop-at insts i (ground (arith, p)), p, q, r, edges_from, call_at)
              (ap (λ l. ((inst_at insts i).addr, register, 0) ∷ l)
                (edges_from-calls_of k (suc i) regs))
        | inl r ↦
            rw (drop-at insts i (ground (arith, p)), p, q, r, edges_from, call_at)
              (edges_from-calls_of k (suc i) _)
      ]
    ]
  ]

  edges_of_blocks-calls_of :
      (addr len : ℕ → ℕ) (flow : ℕ → FlowInfo) (b from : ℕ) (blks : List BasicBlock)
      → Tiles (length insts) addr len flow b from (length insts) blks
      → map site (edges_of_blocks insts symbols annotators b blks) ≡ calls_of (drop from insts)
  unfolding edges_of_blocks calls_of
  edges_of_blocks-calls_of addr len flow b from [] t =
      rw (drop-beyond insts from (ground (arith, t))) refl
  edges_of_blocks-calls_of addr len flow b from (blk ∷ blks) (_, s, h, _, t) =
      let regs : ℕ → Note = λ r. note_of ((solution insts annotators).entry_state b r) in
      let size = blk.end - blk.start in
      let end : blk.start + (blk.end - blk.start) ≡ blk.end = omega (arith, h) in
      let rest = edges_of_blocks-calls_of addr len flow (suc b) blk.end blks t in
      let tail = drop-drop insts blk.start (blk.end - blk.start) ∙ ap (λ j. drop j insts) end in
      rw (sym s) (
        map-append site (edges_from insts symbols annotators size blk.start regs)
          (edges_of_blocks insts symbols annotators (suc b) blks)
        ∙ ap₂ (λ x y. x ++ y) (edges_from-calls_of size blk.start regs)
            (rest ∙ sym (ap calls_of tail))
        ∙ sym
            (calls_of-append (take size (drop blk.start insts)) (drop size (drop blk.start insts)))
        ∙ ap calls_of (take-append-drop size (drop blk.start insts)))

  -- ExtractCallEdgesCFG finds every call of the function once, in the order of the instructions,
  -- with its target where it is direct.
  pub extract_call_edges_cfg-calls_of :
      map site (extract_call_edges_cfg insts symbols annotators) ≡ calls_of insts
  unfolding extract_call_edges_cfg build_cfg calls_of
  extract_call_edges_cfg-calls_of = elim (Bool-cases (ltb 0 (length insts))) [
    | inl p ↦
        let addr : ℕ → ℕ = λ i. (inst_at insts i).addr in
        let flow : ℕ → FlowInfo =
          λ i. flow_of (decode_branch (inst_at insts i).raw (inst_at insts i).addr) in
        edges_of_blocks-calls_of addr (λ _. 4) flow 0 0 (build_cfg insts)
          (partition_blocks-Tiles (length insts) addr (λ _. 4) flow (ground (arith, p)))
    | inr p ↦
        let e : length insts ≡ 0 = ground (arith, p) in
        rw e (ap calls_of (sym (drop-beyond insts 0 p)))
  ]
