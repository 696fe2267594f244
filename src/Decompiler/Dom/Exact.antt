-- ===== src/Decompiler/Dom/Exact.antt =====
-- The answers of dominates for the table of a function.
use aotopsy.Base.{ℕ, ◌<◌, ◌≡◌, ◌↔◌, ap, ◌∙◌, arith, Bool, true, false, ◌==◌, List}
use aotopsy.Base.Go.{Go, returned, and_then}
use aotopsy.Base.Int.{ℤ}
use aotopsy.Decompiler.Dom.{
  Succ, Table, rpo_num, only_entry, reverse_post_order, dominators, dominates, passes,
}
use aotopsy.Decompiler.Dom.Order.{reverse_post_order-Orders}
use aotopsy.Decompiler.Dom.Rank.{Orders-Ranked}
use aotopsy.Decompiler.Dom.Reducible.{IsReducible, passes_two}
use aotopsy.Decompiler.Dom.Sound.{
  Dominates, dominates-Dominates, dominators-Solution_of, only_entry-Full,
}
use mathlib.Core.Path.{subst}

module _ (n : ℕ) (succs : ℕ → List Succ) where
  -- dominates answers on any two numbers, with true just where it should.
  abbrev pub Answers : Table → Type 0
  Answers idom =
      (a b : ℤ)
      → (r : Bool) × (dominates n idom a b ≡ returned r) × ((r ≡ true) ↔ Dominates n succs a b)

  dominators_two :
      (order : List ℕ)
      → 0 < n
      → reverse_post_order n succs ≡ returned order
      → IsReducible n succs (rpo_num order)
      → (idom : Table) × (dominators n succs 2 ≡ returned idom)
  unfolding dominators
  dominators_two order h e red =
      let (found, q, o) = reverse_post_order-Orders n succs h in
      let same : order ≡ found = cc in
      let some_block : (n == 0) ≡ false = ground (arith, h) in
      let k = Orders-Ranked n succs found o in
      let red' = subst (λ x. IsReducible n succs (rpo_num x)) same red in
      let settled =
        passes_two n succs found (rpo_num found) k (only_entry n succs) red'
          (only_entry-Full n succs found) (λ x nx. ground (arith, nx)) in
      let run : Go (List ℕ) → Go Table =
        λ r. and_then r λ o'. passes n succs (rpo_num o') 2 o' (only_entry n succs) in
      let walked : run (reverse_post_order n succs) ≡ run (returned found) = ap run q in
      (settled.0, rw some_block (rw some_block at (walked ∙ settled.1)))

-- Of the table that dominators returns, dominates returns on any two numbers, and says yes just
-- where control reaches the second block, and every way of it from the entry goes through the first.
pub dominators_exact :
    (n : ℕ) (succs : ℕ → List Succ) (fuel : ℕ) (idom : Table)
    → 0 < n
    → dominators n succs fuel ≡ returned idom
    → (a b : ℤ)
    → (r : Bool) × (dominates n idom a b ≡ returned r) × ((r ≡ true) ↔ Dominates n succs a b)
dominators_exact n succs fuel idom h e =
    dominates-Dominates n succs idom (dominators-Solution_of n succs fuel idom h e)

-- Of a function in which each edge that does not go forward in reverse post order goes to a block on
-- every way to its source, dominators returns within two passes, with a table of which dominates
-- returns on any two numbers, and says yes just where control reaches the second block, and every
-- way of it from the entry goes through the first.
pub dominators_reducible :
    (n : ℕ) (succs : ℕ → List Succ) (order : List ℕ)
    → 0 < n
    → reverse_post_order n succs ≡ returned order
    → IsReducible n succs (rpo_num order)
    → (idom : Table) × (dominators n succs 2 ≡ returned idom) × Answers n succs idom
dominators_reducible n succs order h e red =
    let (idom, q) = dominators_two n succs order h e red in
    (idom, q, dominators_exact n succs 2 idom h q)
