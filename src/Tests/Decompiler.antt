-- ===== src/Tests/Decompiler.antt =====
-- internal/decompiler/dom.go at a loop of two blocks with an exit.
use aotopsy.Base.{
  ℕ, zero, suc, ◌≤◌, ◌<◌, ◌≡◌, ◌↔◌, inl, inr, refl, arith, Bool, true, List, [], ◌∷◌, some,
}
use aotopsy.Base.Go.{returned}
use aotopsy.Base.Int.{pos}
use aotopsy.Disasm.Partition.{Marks, always, taken, fallthrough}
use aotopsy.Decompiler.Dom.{
  Succ, Table, number, assign, only_entry, rpo_num, reverse_post_order, dominators, dominates,
  identify_loop_headers,
}
use mathlib.Core.Path.{subst}
use aotopsy.Decompiler.Dom.Order.{occ, Edge, Route, enter, follow, Led, reverse_post_order-reaches}
use aotopsy.Decompiler.Dom.Sound.{Dominates}
use aotopsy.Decompiler.Dom.Loops.{IsLatch, identify_loop_headers-exact}
use aotopsy.Decompiler.Dom.Reducible.{IsReducible}
use aotopsy.Decompiler.Dom.Exact.{Answers, dominators_exact, dominators_reducible}

-- The entry, the header, the body with an edge back to it, and the exit.
abbrev looped : ℕ → List Succ
looped zero = record { block_id = pos 1; cond = always } ∷ []
looped (suc zero) =
    record { block_id = pos 2; cond = taken } ∷ record { block_id = pos 3; cond = fallthrough } ∷ []
looped (suc (suc zero)) = record { block_id = pos 1; cond = always } ∷ []
looped (suc (suc (suc i))) = []

looped_order : reverse_post_order 4 looped ≡ returned (0 ∷ 1 ∷ 3 ∷ 2 ∷ [])
unfolding reverse_post_order
looped_order = refl

reverse_post_order-reaches_example :
    (order : List ℕ) × (reverse_post_order 4 looped ≡ returned order)
    × ((b : ℕ) → (0 < occ b order) ↔ ((way : List ℕ) × Route 4 looped b way))
    × ((b : ℕ) → occ b order ≤ 1)
    × Led 4 looped [] order
reverse_post_order-reaches_example = reverse_post_order-reaches 4 looped (omega arith)

edge_target : {a b : ℕ} → some a ≡ some b → a ≡ b
edge_target e = ground arith

header_before : (b : ℕ) {way : List ℕ} → Route 4 looped b way → 0 < occ b way
header_before b enter = omega arith
header_before b (follow r e) = ground arith

-- The body is entered from the header alone.
body-Edge : (p b : ℕ) → b ≡ 2 → Edge 4 looped p b → p ≡ 1
body-Edge zero b at (inl e) = (let q = edge_target e in absurd (omega (arith, q, at)))
body-Edge zero b at (inr e) = absurd e
body-Edge (suc zero) b at e = refl
body-Edge (suc (suc zero)) b at (inl e) = (let q = edge_target e in absurd (omega (arith, q, at)))
body-Edge (suc (suc zero)) b at (inr e) = absurd e
body-Edge (suc (suc (suc p))) b at e = absurd e

body_ways : (b : ℕ) → b ≡ 2 → {way : List ℕ} → Route 4 looped b way → 0 < occ 1 way
body_ways b at enter = absurd (omega (arith, at))
body_ways b at (follow {b = p} {way = w} r e) =
    let from = body-Edge p b at e in
    let before : 0 < occ 1 w = subst (λ x. 0 < occ x w) from (header_before p r) in
    omega (arith, before)

-- The only edge that does not go forward is the one from the body to the header.
forward :
    (b c lo : ℕ)
    → c ≡ b
    → lo < rpo_num (0 ∷ 1 ∷ 3 ∷ 2 ∷ []) c
    → rpo_num (0 ∷ 1 ∷ 3 ∷ 2 ∷ []) b ≤ lo
    → ⊥
forward b c lo e l le =
    let l' : lo < rpo_num (0 ∷ 1 ∷ 3 ∷ 2 ∷ []) b =
      subst (λ x. lo < rpo_num (0 ∷ 1 ∷ 3 ∷ 2 ∷ []) x) e l in
    omega (arith, l', le)

looped-IsReducible : IsReducible 4 looped (rpo_num (0 ∷ 1 ∷ 3 ∷ 2 ∷ []))
unfolding number
looped-IsReducible zero b o (inl e) le = absurd (forward b 1 1 (edge_target e) (omega arith) le)
looped-IsReducible zero b o (inr e) le = absurd e
looped-IsReducible (suc zero) b o (inl e) le =
    absurd (forward b 2 2 (edge_target e) (omega arith) le)
looped-IsReducible (suc zero) b o (inr (inl e)) le =
    absurd (forward b 3 2 (edge_target e) (omega arith) le)
looped-IsReducible (suc zero) b o (inr (inr e)) le = absurd e
looped-IsReducible (suc (suc zero)) b o (inl e) le =
    λ way r. subst (λ x. 0 < occ x way) (edge_target e) (body_ways 2 refl r)
looped-IsReducible (suc (suc zero)) b o (inr e) le = absurd e
looped-IsReducible (suc (suc (suc p))) b o e le = absurd e

dominators_reducible_example :
    (idom : Table) × (dominators 4 looped 2 ≡ returned idom) × Answers 4 looped idom
dominators_reducible_example =
    dominators_reducible 4 looped (0 ∷ 1 ∷ 3 ∷ 2 ∷ []) (omega arith) looped_order looped-IsReducible

abbrev looped_idom : Table
looped_idom = assign 2 (some 1) (assign 3 (some 1) (assign 1 (some 0) (only_entry 4 looped)))

looped_run : dominators 4 looped 2 ≡ returned looped_idom
unfolding dominators number
looped_run = refl

dominators_exact_example :
    (r : Bool) × (dominates 4 looped_idom (pos 1) (pos 3) ≡ returned r)
    × ((r ≡ true) ↔ Dominates 4 looped (pos 1) (pos 3))
dominators_exact_example =
    dominators_exact 4 looped 2 looped_idom (omega arith) looped_run (pos 1) (pos 3)

identify_loop_headers-exact_example :
    (headers : Marks) × (identify_loop_headers 4 looped looped_idom ≡ returned headers)
    × ((h : ℕ) → (headers h ≡ true) ↔ ((i : ℕ) × IsLatch 4 looped looped_idom h i))
identify_loop_headers-exact_example =
    identify_loop_headers-exact 4 looped 2 looped_idom (omega arith) looped_run
