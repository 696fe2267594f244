-- ===== src/Typetrack/Hierarchy/Cycles.antt =====
-- A superclass map with a cycle: LCA's second loop has no test for a class that it has passed, and
-- need not end.
use aotopsy.Base.{
  ℕ, zero, suc, ◌<◌, ◌≡◌, refl, ◌∙◌, arith, true, false, List, [], length, none, some,
}
use aotopsy.Base.Int.{ℤ, is_nonneg}
use aotopsy.Typetrack.Hierarchy.{Hierarchy, contains, walk_loop, lca}
use aotopsy.Typetrack.Hierarchy.Chains.{Chain, ancestors_loop_lem}

walk_loop_spins :
    (h : Hierarchy) (S : ℤ → Type 0) (ancestors : List ℤ)
    → ((c : ℤ) → S c → (is_nonneg c ≡ true) × (contains ancestors c ≡ false))
    → ((c : ℤ) → S c → (d : ℤ) × (h c ≡ some d) × S d)
    → (fuel : ℕ) (c : ℤ) → S c
    → walk_loop fuel h ancestors c ≡ none
unfolding walk_loop
walk_loop_spins h S ancestors away next zero c s = refl
walk_loop_spins h S ancestors away next (suc fuel) c s =
    let (d, e, s') = next c s in
    ground (arith, away c s, walk_loop_spins h S ancestors away next fuel d s')

-- Where the superclasses of B run in a cycle that A's ancestors avoid, no number of rounds is
-- enough: LCA does not return.
pub lca_spins :
    (h : Hierarchy) (S : ℤ → Type 0) (a b : ℤ) (xs : List ℤ) (fuel : ℕ)
    → Chain h a xs
    → length xs < fuel
    → ((c : ℤ) → S c → (is_nonneg c ≡ true) × (contains xs c ≡ false))
    → ((c : ℤ) → S c → (d : ℤ) × (h c ≡ some d) × S d)
    → S b
    → lca fuel a b h ≡ none
unfolding lca
lca_spins h S a b xs fuel ka lx away next sb =
    let (out, e, has) = ancestors_loop_lem fuel [] ka lx (λ x i. refl) in
    rw (e, lca)
      (walk_loop_spins h S out (λ c s. ((away c s).0, has c ∙ ground (arith, away c s))) next fuel b
        sb)
