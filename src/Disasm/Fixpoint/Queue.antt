-- ===== src/Disasm/Fixpoint/Queue.antt =====
-- The predecessors of a block, and what the loop over the successors adds to the worklist.
use aotopsy.Base.{
  ℕ, zero, suc, ◌<◌, ◌≡◌, inl, inr, refl, sym, ap, ◌∙◌, arith, true, false, not, ◌==◌, ◌&&◌, ltb,
  ==_iff, Bool-cases, List, [], ◌∷◌, ◌++◌,
}
use aotopsy.Disasm.Partition.{Succ, Marks, mark}
use aotopsy.Disasm.Fixpoint.{ProvBlockEffect, edges_to, enqueue, all_blocks, preds}
use mathlib.Core.Path.{subst}
use mathlib.Core.List.{Memᴰ}
use mathlib.Core.List.Memᴰ

-- One of the successors is the block.
abbrev pub HasEdge : List Succ → ℕ → Type 0
HasEdge ss id = (s : Succ) × Memᴰ s ss × (s.block_id ≡ id)

edges_to-edge :
    (id bi : ℕ) (ss : List Succ) (p : ℕ) → Memᴰ p (edges_to id bi ss) → (p ≡ bi) × HasEdge ss id
unfolding edges_to
edges_to-edge id bi [] p m = absurd (Memᴰ.not-nil m)
edges_to-edge id bi (s ∷ ss) p m = elim (Bool-cases (s.block_id == id)) [
  | inl e ↦
      let m' : Memᴰ p (bi ∷ edges_to id bi ss) = rw e at m in
      elim (Memᴰ.cases_cons m') [
        | inl q ↦ (q, (s, Memᴰ.head refl, (==_iff s.block_id id).0 e))
        | inr t ↦ let (q, (u, v, w)) = edges_to-edge id bi ss p t in (q, (u, Memᴰ.tail v, w))
      ]
  | inr e ↦ let (q, (u, v, w)) = edges_to-edge id bi ss p (rw e at m) in (q, (u, Memᴰ.tail v, w))
]

edge-edges_to : (id bi : ℕ) (ss : List Succ) → HasEdge ss id → Memᴰ bi (edges_to id bi ss)
unfolding edges_to
edge-edges_to id bi [] (s, m, e) = absurd (Memᴰ.not-nil m)
edge-edges_to id bi (t ∷ ss) (s, m, e) = elim (Bool-cases (t.block_id == id)) [
  | inl q ↦ rw q (Memᴰ.head refl)
  | inr q ↦ elim (Memᴰ.cases_cons m) [
    | inl same ↦
        let clash : false ≡ true =
          sym q ∙ (==_iff t.block_id id).1 (sym (ap (λ (x : Succ). x.block_id) same) ∙ e) in
        cc
    | inr rest ↦ rw q (edge-edges_to id bi ss (s, rest, e))
  ]
]

module _ (n nregs : ℕ) (succs : ℕ → List Succ) (effects : ℕ → ProvBlockEffect) where
  pub preds-edge :
      (k id p : ℕ) → Memᴰ p (preds n nregs succs effects k id) → (p < k) × HasEdge (succs p) id
  unfolding preds
  preds-edge zero id p m = absurd (Memᴰ.not-nil m)
  preds-edge (suc k) id p m = elim (Memᴰ.append_cases (preds n nregs succs effects k id) m) [
    | inl old ↦ let (h, e) = preds-edge k id p old in (omega (arith, h), e)
    | inr new ↦ let (q, e) = edges_to-edge id k (succs k) p new in (omega (arith, q), rw q e)
  ]

  pub edge-preds :
      (k id p : ℕ) → p < k → HasEdge (succs p) id → Memᴰ p (preds n nregs succs effects k id)
  unfolding preds
  edge-preds zero id p h e = absurd (omega (arith, h))
  edge-preds (suc k) id p h e = elim (Bool-cases (p == k)) [
    | inl q ↦
        let same = (==_iff p k).0 q in
        Memᴰ.append_right (preds n nregs succs effects k id) (
          subst (λ x. Memᴰ x (edges_to id k (succs k))) (sym same)
            (edge-edges_to id k (succs k) (rw same at e)))
    | inr q ↦ Memᴰ.append_left (edges_to id k (succs k)) (edge-preds k id p (ground (arith, q)) e)
  ]

-- A block that is marked stays marked.
pub enqueue-keeps :
    (n : ℕ) (ss : List Succ) (w : List ℕ) (m : Marks) (b : ℕ)
    → m b ≡ true
    → (enqueue n ss w m).1 b ≡ true
unfolding enqueue
enqueue-keeps n [] w m b h = h
enqueue-keeps n (s ∷ ss) w m b h = elim (Bool-cases (ltb s.block_id n && not (m s.block_id))) [
  | inl p ↦
      rw p (enqueue-keeps n ss (w ++ s.block_id ∷ []) (mark s.block_id m) b (ground (arith, h)))
  | inr p ↦ rw p (enqueue-keeps n ss w m b h)
]

-- Every successor within the function ends up marked.
pub enqueue-marks :
    (n : ℕ) (ss : List Succ) (w : List ℕ) (m : Marks) (b : ℕ)
    → b < n
    → HasEdge ss b
    → (enqueue n ss w m).1 b ≡ true
unfolding enqueue
enqueue-marks n [] w m b h (s, t, e) = absurd (Memᴰ.not-nil t)
enqueue-marks n (s ∷ ss) w m b h (u, t, e) = elim (Memᴰ.cases_cons t) [
  | inl same ↦
      let at_b : s.block_id ≡ b = sym (ap (λ (x : Succ). x.block_id) same) ∙ e in
      elim (Bool-cases (ltb s.block_id n && not (m s.block_id))) [
        | inl p ↦
            rw p (
              enqueue-keeps n ss (w ++ s.block_id ∷ []) (mark s.block_id m) b
                (ground (arith, at_b)))
        | inr p ↦ rw p (enqueue-keeps n ss w m b (ground (arith, at_b, p, h)))
      ]
  | inr rest ↦ elim (Bool-cases (ltb s.block_id n && not (m s.block_id))) [
    | inl p ↦ rw p (enqueue-marks n ss (w ++ s.block_id ∷ []) (mark s.block_id m) b h (u, rest, e))
    | inr p ↦ rw p (enqueue-marks n ss w m b h (u, rest, e))
  ]
]

-- What is marked is in the worklist.
abbrev pub IsQueued : List ℕ → Marks → Type 0
IsQueued w m = (b : ℕ) → m b ≡ true → Memᴰ b w

pub enqueue-IsQueued :
    (n : ℕ) (ss : List Succ) (w : List ℕ) (m : Marks)
    → IsQueued w m
    → IsQueued (enqueue n ss w m).0 (enqueue n ss w m).1
unfolding enqueue
enqueue-IsQueued n [] w m h b e = h b e
enqueue-IsQueued n (s ∷ ss) w m h b e = elim (Bool-cases (ltb s.block_id n && not (m s.block_id))) [
  | inl p ↦ rw p (
      enqueue-IsQueued n ss (w ++ s.block_id ∷ []) (mark s.block_id m)
        (λ c x. elim (Bool-cases (c == s.block_id)) [
          | inl q ↦ Memᴰ.append_right w (Memᴰ.head ((==_iff c s.block_id).0 q))
          | inr q ↦ Memᴰ.append_left (s.block_id ∷ []) (h c (rw q at x))
        ])
        b (rw p at e))
  | inr p ↦ rw p (enqueue-IsQueued n ss w m h b (rw p at e))
]

pub all_blocks-member : (n b : ℕ) → b < n → Memᴰ b (all_blocks n)
unfolding all_blocks
all_blocks-member zero b h = absurd (omega (arith, h))
all_blocks-member (suc n) b h = elim (Bool-cases (b == n)) [
  | inl q ↦ Memᴰ.append_right (all_blocks n) (Memᴰ.head ((==_iff b n).0 q))
  | inr q ↦ Memᴰ.append_left (n ∷ []) (all_blocks-member n b (ground (arith, q)))
]
