-- ===== src/Decompiler/Dom/Preds.antt =====
-- Preds and the edges.
use aotopsy.Base.{
  ℕ, zero, suc, ◌+◌, ◌<◌, ◌≡◌, inl, inr, arith, true, ◌==◌, Bool-cases, Option-cases, List, [], ◌∷◌,
  ◌++◌,
}
use aotopsy.Decompiler.Dom.{Succ, block_within, edges_to, preds_upto, preds}
use aotopsy.Decompiler.Dom.Order.{occ, Leads, Edge}
use mathlib.Core.Path.{subst}

occ-append : (x : ℕ) (xs ys : List ℕ) → occ x (xs ++ ys) ≡ occ x xs + occ x ys
occ-append x [] ys = omega arith
occ-append x (y ∷ xs) ys = omega (arith, occ-append x xs ys)

module _ (n : ℕ) (succs : ℕ → List Succ) where
  edges_to-Leads : (b i : ℕ) (ss : List Succ) → Leads n succs ss b → 0 < occ i (edges_to n b i ss)
  unfolding edges_to
  edges_to-Leads b i [] h = absurd h
  edges_to-Leads b i (s ∷ ss) (inl e) =
      let same : (b == b) ≡ true = ground arith in rw (e, same, edges_to) (ground arith)
  edges_to-Leads b i (s ∷ ss) (inr h) = elim (Option-cases (block_within n s.block_id)) [
    | inl e ↦ rw (e, edges_to) (edges_to-Leads b i ss h)
    | inr (c, e) ↦ elim (Bool-cases (c == b)) [
      | inl q ↦ rw (e, q, edges_to) (ground arith)
      | inr q ↦ rw (e, q, edges_to) (edges_to-Leads b i ss h)
    ]
  ]

  preds_upto-Edge : (k p b : ℕ) → p < k → Edge n succs p b → 0 < occ p (preds_upto n succs k b)
  unfolding preds_upto
  preds_upto-Edge zero p b h e = absurd (omega (arith, h))
  preds_upto-Edge (suc k) p b h e = elim (Bool-cases (p == k)) [
    | inl same ↦
        let at : p ≡ k = ground (arith, same) in
        let last : 0 < occ p (edges_to n b k (succs k)) =
          subst (λ x. 0 < occ p (edges_to n b x (succs x))) at (edges_to-Leads b p (succs p) e) in
        omega (arith, occ-append p (preds_upto n succs k b) (edges_to n b k (succs k)), last)
    | inr other ↦ omega (
      arith,
      occ-append p (preds_upto n succs k b) (edges_to n b k (succs k)),
      preds_upto-Edge k p b (ground (arith, h, other)) e,
    )
  ]

  edges_to-only :
      (b i q : ℕ) (ss : List Succ) → 0 < occ q (edges_to n b i ss) → (q ≡ i) × Leads n succs ss b
  unfolding edges_to
  edges_to-only b i q [] h = absurd (omega (arith, h))
  edges_to-only b i q (s ∷ ss) h = elim (Option-cases (block_within n s.block_id)) [
    | inl e ↦ let rest = edges_to-only b i q ss (rw (e, edges_to) at h) in (rest.0, inr rest.1)
    | inr (c, e) ↦ elim (Bool-cases (c == b)) [
      | inr other ↦
          let rest = edges_to-only b i q ss (rw (e, other, edges_to) at h) in (rest.0, inr rest.1)
      | inl same ↦
          let h' = rw (e, same, edges_to) at h in
          elim (Bool-cases (i == q)) [
            | inl one ↦ (ground (arith, one), inl (ground (arith, e, same)))
            | inr differ ↦
                let rest = edges_to-only b i q ss (ground (arith, h', differ)) in
                (rest.0, inr rest.1)
          ]
    ]
  ]

  preds_upto-only : (k b q : ℕ) → 0 < occ q (preds_upto n succs k b) → Edge n succs q b
  unfolding preds_upto
  preds_upto-only zero b q h = absurd (omega (arith, h))
  preds_upto-only (suc k) b q h = elim (Bool-cases (occ q (preds_upto n succs k b) == 0)) [
    | inr earlier ↦ preds_upto-only k b q (ground (arith, earlier))
    | inl none_before ↦
        let (at, l) = edges_to-only b k q (succs k) (
          ground (
            arith,
            h,
            none_before,
            occ-append q (preds_upto n succs k b) (edges_to n b k (succs k)),
          )) in
        rw at l
  ]

  -- ComputePreds has nothing but edges, and every edge.
  pub preds-only : (b q : ℕ) → 0 < occ q (preds n succs b) → Edge n succs q b
  unfolding preds
  preds-only b q h = preds_upto-only n b q h

  pub preds-Edge : (p b : ℕ) → p < n → Edge n succs p b → 0 < occ p (preds n succs b)
  unfolding preds
  preds-Edge p b h e = preds_upto-Edge n p b h e
