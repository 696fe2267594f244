-- ===== src/Typetrack/Hierarchy.antt =====
-- internal/typetrack/lattice.go: the superclass map and the lowest common ancestor.
pub mod Chains
pub mod Nearest
pub mod Cycles
pub mod Meet
pub mod Bound
use aotopsy.Base.{ℕ, zero, suc, Bool, true, false, List, [], ◌∷◌, ◌&&◌, ◌||◌, not, if◌then◌else◌}
use aotopsy.Base.{Option, none, some}
use aotopsy.Base.Int.{ℤ, pos, negsuc, ◌==ℤ◌, is_nonneg}

-- A Go map from a class to its superclass: `none` is a missing key.
abbrev pub Hierarchy : Type 0
Hierarchy = ℤ → Option ℤ

abbrev pub contains : List ℤ → ℤ → Bool
contains [] x = false
contains (y ∷ ys) x = (x ==ℤ y) || contains ys x

-- The result of a loop: `none` is no Go value, it says that the fuel ran out.
-- The first loop collects the ancestors of A, newest first, and stops at a class that it has seen.
unfoldable pub ancestors_loop : ℕ → Hierarchy → ℤ → List ℤ → Option (List ℤ)
ancestors_loop zero h c seen = none
ancestors_loop (suc fuel) h c seen =
    let rest = λ (next : ℤ). ancestors_loop fuel h next (c ∷ seen) in
    if is_nonneg c && not (contains seen c)
    then elim (h c) [ none ↦ some (c ∷ seen) | some next ↦ rest next ]
    else some seen

-- The second loop walks up from B, with no test for a class that it has seen.
unfoldable pub walk_loop : ℕ → Hierarchy → List ℤ → ℤ → Option ℤ
walk_loop zero h ancestors c = none
walk_loop (suc fuel) h ancestors c =
    let rest = λ (next : ℤ). walk_loop fuel h ancestors next in
    if is_nonneg c
    then (if contains ancestors c
        then some c
        else elim (h c) [ none ↦ some (negsuc 0) | some next ↦ rest next ])
    else some (negsuc 0)

unfoldable pub lca : ℕ → ℤ → ℤ → Hierarchy → Option ℤ
lca fuel a b h = elim (ancestors_loop fuel h a []) [
  | none ↦ none
  | some ancestors ↦ walk_loop fuel h ancestors b
]

-- The part of a class that BuildClassHierarchy reads, and of a type.
pub record ClassInfo : Type 0 where
  pub class_id : ℤ
  pub super_type_ref_id : ℤ

pub record TypeInfo : Type 0 where
  pub ref_id : ℤ
  pub class_id : ℤ

abbrev pub update {ℓ} : {A : Type ℓ} → (ℤ → Option A) → ℤ → A → ℤ → Option A
update m k v j = if j ==ℤ k then some v else m j

-- `refToType`, a later type of the same ref replacing an earlier one.
unfoldable pub ref_to_type : (ℤ → Option TypeInfo) → List TypeInfo → ℤ → Option TypeInfo
ref_to_type m [] = m
ref_to_type m (t ∷ ts) = ref_to_type (update m t.ref_id t) ts

unfoldable pub super_id : (ℤ → Option TypeInfo) → ClassInfo → ℤ
super_id types c =
    if is_nonneg c.super_type_ref_id
    then elim (types c.super_type_ref_id) [
      | none ↦ negsuc 0
      | some t ↦ if is_nonneg t.class_id then t.class_id else negsuc 0
    ]
    else negsuc 0

hierarchy_loop : (ℤ → Option TypeInfo) → Hierarchy → List ClassInfo → Hierarchy
hierarchy_loop types h [] = h
hierarchy_loop types h (c ∷ cs) = hierarchy_loop types (update h c.class_id (super_id types c)) cs

unfoldable pub build_class_hierarchy : List ClassInfo → List TypeInfo → Hierarchy
unfolding hierarchy_loop ref_to_type super_id
build_class_hierarchy classes types =
    hierarchy_loop (ref_to_type (λ _. none) types) (λ _. none) classes
