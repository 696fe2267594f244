-- ===== src/Tests/Typetrack.antt =====
-- internal/typetrack at concrete types and hierarchies.
use aotopsy.Base.{◌≡◌, ◌↔◌, refl, arith, [], ◌∷◌, true, none, some}
use aotopsy.Base.{if◌then◌else◌, inl, inr, Bool-cases, ◌==◌}
use aotopsy.Base.Int.{ℤ, pos, negsuc}
use aotopsy.Typetrack.Lattice.{known_class_type, known_dispatch}
use aotopsy.Typetrack.Lattice.{selector_dispatch, equal, meet_type}
use aotopsy.Typetrack.Lattice.View.{class, view, equal_iff}
use aotopsy.Typetrack.Hierarchy.{Hierarchy, lca, ancestors_loop, walk_loop, update}
use aotopsy.Typetrack.Hierarchy.Chains.{Chain, below, root, up}
use aotopsy.Typetrack.Hierarchy.Nearest.{IsAcyclic, lca_of, lca_nearest, Meeting}
use aotopsy.Typetrack.Hierarchy.Meet.{IsLca, lca_of-IsLca, meet_type-lca}
use aotopsy.Typetrack.Hierarchy.Bound.{IsBelow, meet_type-greatest}
use aotopsy.Typetrack.Hierarchy.Cycles.{lca_spins}

-- 4 and 5 extend 3, which extends 1; 1 has no superclass. (TestLCA)
abbrev family : Hierarchy
family =
    update (update (update (update (λ _. none) (pos 4) (pos 3)) (pos 5) (pos 3)) (pos 3) (pos 1))
      (pos 1) (negsuc 0)

lca_4_5 : lca 10 (pos 4) (pos 5) family ≡ some (pos 3)
unfolding lca ancestors_loop walk_loop
lca_4_5 = refl

family_4-Chain : Chain family (pos 4) (pos 4 ∷ pos 3 ∷ pos 1 ∷ [])
family_4-Chain = up refl refl (up refl refl (up refl refl (below refl)))

family_5-Chain : Chain family (pos 5) (pos 5 ∷ pos 3 ∷ pos 1 ∷ [])
family_5-Chain = up refl refl (up refl refl (up refl refl (below refl)))

lca_nearest_example :
    (l : ℤ) × (lca 10 (pos 4) (pos 5) family ≡ some l)
    × Meeting family (pos 4 ∷ pos 3 ∷ pos 1 ∷ []) (pos 5 ∷ pos 3 ∷ pos 1 ∷ []) l
lca_nearest_example =
    lca_nearest family (pos 4) (pos 5) (pos 4 ∷ pos 3 ∷ pos 1 ∷ []) (pos 5 ∷ pos 3 ∷ pos 1 ∷ []) 10
      family_4-Chain family_5-Chain (omega arith) (omega arith)

-- 2 extends 1, and no other class has a superclass.
abbrev couple : Hierarchy
couple (pos n) = if n == 2 then some (pos 1) else none
couple (negsuc n) = none

couple-IsAcyclic : IsAcyclic couple
couple-IsAcyclic (negsuc n) = ([], below refl)
couple-IsAcyclic (pos n) = elim (Bool-cases (n == 2)) [
  | inl two ↦ (pos n ∷ pos 1 ∷ [], up refl (rw two) (root refl refl))
  | inr other ↦ (pos n ∷ [], root refl (rw other))
]

couple_lca : ℤ → ℤ → ℤ
couple_lca = lca_of couple couple-IsAcyclic

couple_lca-IsLca : IsLca couple couple_lca
unfolding couple_lca
couple_lca-IsLca = lca_of-IsLca couple couple-IsAcyclic

meet_type-lca_example :
    (view (meet_type (known_class_type (pos 2)) (known_class_type (pos 1)) (some couple_lca))
      ≡ view (meet_type (known_class_type (pos 1)) (known_class_type (pos 2)) (some couple_lca)))
    × (view (
          meet_type
            (meet_type (known_class_type (pos 2)) (known_class_type (pos 1)) (some couple_lca))
            (known_class_type (pos 2))
            (some couple_lca))
        ≡ view (
            meet_type
              (known_class_type (pos 2))
              (meet_type (known_class_type (pos 1)) (known_class_type (pos 2)) (some couple_lca))
              (some couple_lca)))
meet_type-lca_example =
    meet_type-lca couple couple-IsAcyclic couple_lca (known_class_type (pos 2))
      (known_class_type (pos 1)) (known_class_type (pos 2)) couple_lca-IsLca

meet_type-greatest_example :
    IsBelow couple couple-IsAcyclic
      (class (pos 1))
      (view (meet_type (known_class_type (pos 2)) (known_class_type (pos 1)) (some couple_lca)))
    ↔ (IsBelow couple couple-IsAcyclic (class (pos 1)) (view (known_class_type (pos 2)))
        × IsBelow couple couple-IsAcyclic (class (pos 1)) (view (known_class_type (pos 1))))
meet_type-greatest_example =
    meet_type-greatest couple couple-IsAcyclic couple_lca (known_class_type (pos 2))
      (known_class_type (pos 1)) (class (pos 1)) couple_lca-IsLca

equal_iff_example :
    (equal (known_dispatch (pos 3)) (selector_dispatch (pos 3)) ≡ true)
    ↔ (view (known_dispatch (pos 3)) ≡ view (selector_dispatch (pos 3)))
equal_iff_example = equal_iff (known_dispatch (pos 3)) (selector_dispatch (pos 3)) (λ e. cc)

-- A class that is its own superclass.
abbrev own_parent : Hierarchy
own_parent = update (λ _. none) (pos 1) (pos 1)

abbrev IsOne : ℤ → Type 0
IsOne c = c ≡ pos 1

lca_spins_example : lca 1000 (pos 5) (pos 1) own_parent ≡ none
lca_spins_example =
    lca_spins own_parent IsOne (pos 5) (pos 1) (pos 5 ∷ []) 1000 (root refl refl) (omega arith)
      (λ c e. rw e (refl, refl)) (λ c e. (pos 1, rw e refl, refl)) refl
