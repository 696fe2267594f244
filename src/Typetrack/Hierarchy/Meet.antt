-- ===== src/Typetrack/Hierarchy/Meet.antt =====
-- The meet as internal/typetrack/interproc.go and intraproc.go use it: with the LCA of the
-- superclass map for its `lca`.
use aotopsy.Base.{ℕ, suc, ◌+◌, ◌≤◌, ◌≡◌, sym, ◌∙◌, arith, length, some}
use aotopsy.Base.Int.{ℤ}
use aotopsy.Typetrack.Lattice.{TypeLattice, meet_type}
use aotopsy.Typetrack.Lattice.View.{view}
use aotopsy.Typetrack.Lattice.Laws.{IsJoin, meet_type_comm, meet_type_assoc}
use aotopsy.Typetrack.Hierarchy.{Hierarchy, lca}
use aotopsy.Typetrack.Hierarchy.Chains.{lca-first}
use aotopsy.Typetrack.Hierarchy.Nearest.{IsAcyclic, lca_of, chain_of, lca_of-IsJoin}
use mathlib.Core.Path.{subst, fun_ext}

-- `func(a, b int) int { return LCA(a, b, h) }`: LCA returns `f a b` once it is given the rounds.
abbrev pub IsLca : Hierarchy → (ℤ → ℤ → ℤ) → Type 0
IsLca h f = (a b : ℤ) → (enough : ℕ) × ((fuel : ℕ) → enough ≤ fuel → lca fuel a b h ≡ some (f a b))

module _ (h : Hierarchy) (acyclic : IsAcyclic h) where
  lca-lca_of :
      (a b : ℤ) (fuel : ℕ)
      → suc (length (chain_of h acyclic a) + length (chain_of h acyclic b)) ≤ fuel
      → lca fuel a b h ≡ some (lca_of h acyclic a b)
  unfolding lca_of
  lca-lca_of a b fuel le =
      lca-first h a b (acyclic a).0 (acyclic b).0 fuel (acyclic a).1 (acyclic b).1 (omega arith)
        (omega arith)

  -- Such a closure exists.
  pub lca_of-IsLca : IsLca h (lca_of h acyclic)
  lca_of-IsLca a b =
      (suc (length (chain_of h acyclic a) + length (chain_of h acyclic b)), lca-lca_of a b)

  module _ (f : ℤ → ℤ → ℤ) (is_lca : IsLca h f) where
    pub same_lca : (a b : ℤ) → f a b ≡ lca_of h acyclic a b
    same_lca a b =
        let fuel : ℕ =
          (is_lca a b).0 + suc (length (chain_of h acyclic a) + length (chain_of h acyclic b)) in
        cc (sym ((is_lca a b).1 fuel (omega arith)) ∙ lca-lca_of a b fuel (omega arith))

    closure-IsJoin : IsJoin (some f)
    closure-IsJoin =
        subst (λ g. IsJoin (some g)) (sym (fun_ext (λ a. fun_ext (same_lca a))))
          (lca_of-IsJoin h acyclic)

-- With the LCA of a superclass map without cycles for its `lca`, the meet is commutative and
-- associative, up to what the elements say: the type of a register at a join point does not depend
-- on the order in which the paths into it are taken.
pub meet_type-lca :
    (h : Hierarchy) (acyclic : IsAcyclic h) (f : ℤ → ℤ → ℤ) (a b c : TypeLattice)
    → IsLca h f
    → (view (meet_type a b (some f)) ≡ view (meet_type b a (some f)))
      × (view (meet_type (meet_type a b (some f)) c (some f))
          ≡ view (meet_type a (meet_type b c (some f)) (some f)))
meet_type-lca h acyclic f a b c is_lca =
    let j = closure-IsJoin h acyclic f is_lca in
    (meet_type_comm a b (some f) j, meet_type_assoc a b c (some f) j)
