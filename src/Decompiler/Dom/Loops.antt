-- ===== src/Decompiler/Dom/Loops.antt =====
-- The answers of dominates for the table of a function, and the headers that it marks.
use aotopsy.Base.{
  ℕ, zero, suc, ◌≤◌, ◌<◌, ◌≡◌, ◌↔◌, inl, inr, refl, arith, Bool, true, false, ◌==◌, Bool-cases,
  Option-cases, List, [], ◌∷◌, some, if◌then◌else◌, dec_lt,
}
use aotopsy.Base.Go.{returned}
use aotopsy.Base.Int.{ℤ, pos}
use aotopsy.Disasm.Partition.{Marks, mark}
use aotopsy.Decompiler.Dom.{
  Succ, Table, block_within, dominators, header_edges, headers_upto, identify_loop_headers,
}
use aotopsy.Decompiler.Dom.Order.{occ, Leads, Edge, Route, Arrives}
use aotopsy.Decompiler.Dom.Sound.{
  block_within-pos, Solution, Dominates, dominates-Dominates, dominators-Solution_of,
}
use mathlib.Core.Path.{subst}

module _ (n : ℕ) (succs : ℕ → List Succ) (idom : Table) where
  -- A block with an edge back to `h`, that control reaches, and only through `h`.
  abbrev pub IsLatch : ℕ → ℕ → Type 0
  IsLatch h i =
      Edge n succs i h
      × Arrives n succs i
      × ((way : List ℕ) → Route n succs i way → 0 < occ h way)
      × (i < n)

  abbrev AreHeaders : Marks → Type 0
  AreHeaders headers = (h : ℕ) → headers h ≡ true → (i : ℕ) × IsLatch h i

  -- What the edges of block `i` add to the headers.
  record Extends (i : ℕ) (ss : List Succ) (headers after : Marks) : Type 0 where
    found : AreHeaders after
    kept : (h : ℕ) → headers h ≡ true → after h ≡ true
    latched : (h : ℕ) → Leads n succs ss h → IsLatch h i → after h ≡ true

  module _ (s : Solution n succs idom) where
    next-kept :
        (b h : ℕ) (headers : Marks) (r : Bool)
        → headers h ≡ true
        → (if r then mark b headers else headers) h ≡ true
    next-kept b h headers true m = ground (arith, m)
    next-kept b h headers false m = m

    AreHeaders-next :
        (i b : ℕ) (z : ℤ) (headers : Marks) (r : Bool)
        → block_within n z ≡ some b
        → Edge n succs i b
        → ((r ≡ true) ↔ Dominates n succs z (pos i))
        → AreHeaders headers
        → AreHeaders (if r then mark b headers else headers)
    AreHeaders-next i b z headers false at e says known h m = known h m
    AreHeaders-next i b z headers true at e says known h m = elim (Bool-cases (h == b)) [
      | inr other ↦ known h (ground (arith, other, m))
      | inl same ↦
          let (x, y, zx, iy, below, arrives, ways) = says.0 refl in
          let one : b ≡ h = ground (arith, same) in
          let first : x ≡ h = ground (arith, same, zx, at) in
          let second : y ≡ i = ground (arith, iy) in
          (
            i,
            (
              subst (λ c. Edge n succs i c) one e,
              subst (λ c. Arrives n succs c) second arrives,
              subst (λ c. (way : List ℕ) → Route n succs i way → 0 < occ c way) first
                  (subst (λ c. (way : List ℕ) → Route n succs c way → 0 < occ x way) second ways),
              subst (λ c. c < n) second below,
            ),
          )
    ]

    mark-latched :
        (i b h : ℕ) (z : ℤ) (headers : Marks) (r : Bool)
        → i < n
        → block_within n z ≡ some b
        → block_within n z ≡ some h
        → ((r ≡ true) ↔ Dominates n succs z (pos i))
        → IsLatch h i
        → (if r then mark b headers else headers) h ≡ true
    mark-latched i b h z headers true l e q says latch =
        let same : b ≡ h = ground (arith, e, q) in ground (arith, same)
    mark-latched i b h z headers false l e q says latch =
        let truly = says.1 (h, i, block_within-pos n z q, refl, l, latch.1, latch.2) in cc

    header_edges-Extends :
        (i : ℕ) (ss : List Succ) (headers : Marks)
        → i < n
        → ((c : ℕ) → Leads n succs ss c → Edge n succs i c)
        → AreHeaders headers
        → (after : Marks) × (header_edges n idom i ss headers ≡ returned after)
          × Extends i ss headers after
    unfolding header_edges
    header_edges-Extends i [] headers l edges known =
        (headers, refl, record { found = known; kept = λ h m. m; latched = λ h e latch. absurd e })
    header_edges-Extends i (e ∷ ss) headers l edges known =
        elim (Option-cases (block_within n e.block_id)) [
          | inl out ↦
              let rest = header_edges-Extends i ss headers l (λ c q. edges c (inr q)) known in
              (
                rest.0,
                rw (out, header_edges) rest.1,
                record {
                  found = rest.2.found;
                  kept = rest.2.kept;
                  latched =
                      λ h q latch. elim q [ inl at ↦ cc | inr more ↦ rest.2.latched h more latch ];
                },
              )
          | inr (b, at) ↦
              let answer = dominates-Dominates n succs idom s e.block_id (pos i) in
              let next : Marks = if answer.0 then mark b headers else headers in
              let rest =
                header_edges-Extends i ss next l (λ c q. edges c (inr q))
                  (AreHeaders-next i b e.block_id headers answer.0 at (edges b (inl at)) answer.2
                    known) in
              (
                rest.0,
                rw (at, answer.1, header_edges) rest.1,
                record {
                  found = rest.2.found;
                  kept = λ h m. rest.2.kept h (next-kept b h headers answer.0 m);
                  latched = λ h q latch. elim q [
                    | inl to ↦
                        rest.2.kept h
                          (mark-latched i b h e.block_id headers answer.0 l at to answer.2 latch)
                    | inr more ↦ rest.2.latched h more latch
                  ];
                },
              )
        ]

    -- After the blocks below `k`, the headers are the blocks with a latch among these.
    headers_upto-exact :
        (k : ℕ)
        → k ≤ n
        → (headers : Marks) × (headers_upto n succs idom k ≡ returned headers)
          × AreHeaders headers
          × ((h i : ℕ) → i < k → IsLatch h i → headers h ≡ true)
    unfolding headers_upto
    headers_upto-exact zero l =
        (λ _. false, refl, λ h m. cc, λ h i q latch. absurd (omega (arith, q)))
    headers_upto-exact (suc k) l =
        let before = headers_upto-exact k (omega (arith, l)) in
        let rest =
          header_edges-Extends k (succs k) before.0 (omega (arith, l)) (λ c q. q) before.2 in
        (
          rest.0,
          rw (before.1, headers_upto) rest.1,
          rest.2.found,
          λ h i q latch. elim (dec_lt i k) [
            | yes p ↦ rest.2.kept h (before.3 h i p latch)
            | no p ↦
                let at : i ≡ k = omega (arith, q, p) in
                let latch' = subst (λ x. IsLatch h x) at latch in rest.2.latched h latch'.0 latch'
          ],
        )

-- With the table that dominators returns, identifyLoopHeaders returns, and marks just the blocks
-- that have a latch: a block that jumps to the header, that control reaches, and only through it.
pub identify_loop_headers-exact :
    (n : ℕ) (succs : ℕ → List Succ) (fuel : ℕ) (idom : Table)
    → 0 < n
    → dominators n succs fuel ≡ returned idom
    → (headers : Marks) × (identify_loop_headers n succs idom ≡ returned headers)
      × ((h : ℕ) → (headers h ≡ true) ↔ ((i : ℕ) × IsLatch n succs idom h i))
unfolding identify_loop_headers
identify_loop_headers-exact n succs fuel idom h e =
    let (headers, q, found, all) =
      headers_upto-exact n succs idom (dominators-Solution_of n succs fuel idom h e) n
        (omega arith) in
    (headers, q, λ x. (found x, λ latch. all x latch.0 latch.1.3 latch.1))
