-- ===== src/Typetrack/Hierarchy/Chains.antt =====
-- The classes that a walk from a class passes, where the walk comes to an end.
use aotopsy.Base.{ℕ, zero, suc, ◌≤◌, ◌<◌, ◌≡◌, refl, sym, ap, ◌∙◌, arith, ◌⊎◌, inl, inr}
use aotopsy.Base.{true, false, List, [], ◌∷◌, ◌||◌, if◌then◌else◌, length}
use aotopsy.Base.{none, some, Bool-cases}
use aotopsy.Base.Int.{ℤ, negsuc, ◌==ℤ◌, is_nonneg, ==ℤ_refl, ==ℤ→eq}
use aotopsy.Typetrack.Hierarchy.{Hierarchy, contains, ancestors_loop, walk_loop, lca}

pub data Chain (h : Hierarchy) : ℤ → List ℤ → Type 0 where
  below : {c : ℤ} → is_nonneg c ≡ false → Chain h c []
  root : {c : ℤ} → is_nonneg c ≡ true → h c ≡ none → Chain h c (c ∷ [])
  up :
      {c d : ℤ} {cs : List ℤ}
      → is_nonneg c ≡ true
      → h c ≡ some d
      → Chain h d cs
      → Chain h c (c ∷ cs)

abbrev pub In : ℤ → List ℤ → Type 0
In x xs = contains xs x ≡ true

-- A class ends at most one chain.
pub Chain-unique :
    {h : Hierarchy} {c d : ℤ} {cs ds : List ℤ} → Chain h c cs → Chain h d ds → c ≡ d → cs ≡ ds
Chain-unique (below p) (below q) e = refl
Chain-unique (below p) (root q r) e = cc (ap is_nonneg e)
Chain-unique (below p) (up q r k) e = cc (ap is_nonneg e)
Chain-unique (root p r) (below q) e = cc (ap is_nonneg e)
Chain-unique (root p r) (root q s) e = cc
Chain-unique {h} (root p r) (up q s k) e = cc (ap h e)
Chain-unique (up p r k) (below q) e = cc (ap is_nonneg e)
Chain-unique {h} (up p r k) (root q s) e = cc (ap h e)
Chain-unique {h} (up {d = x} p r k) (up {d = y} q s l) e =
    let same : x ≡ y = cc (ap h e) in cc (Chain-unique k l same)

-- From a class on the chain the chain goes on.
pub Chain-from :
    {h : Hierarchy} {c : ℤ} {cs : List ℤ} (x : ℤ)
    → Chain h c cs
    → In x cs
    → (xs : List ℤ) × Chain h x xs
      × (length xs ≤ length cs)
      × ((x ≡ c) ⊎ (length xs < length cs))
      × ((y : ℤ) → In y xs → In y cs)
Chain-from x (below p) i = cc
Chain-from x (root {c} p r) i =
    let e : x ≡ c = ==ℤ→eq x c (ground arith) in
    (c ∷ [], rw e (root p r), omega arith, inl e, λ y j. j)
Chain-from x (up {c} {d} {cs} p r k) i = elim (Bool-cases (x ==ℤ c)) [
  | inl same ↦
      let e : x ≡ c = ==ℤ→eq x c same in (c ∷ cs, rw e (up p r k), omega arith, inl e, λ y j. j)
  | inr other ↦
      let (xs, kx, le, _, sub) = Chain-from x k (ground arith) in
      (xs, kx, omega arith, inr (omega arith), λ y j. ground (arith, sub y j))
]

-- Two classes on each other's chains are one.
pub Chain-antisym :
    {h : Hierarchy} {x y : ℤ} {xs ys : List ℤ}
    → Chain h x xs
    → Chain h y ys
    → In y xs
    → In x ys
    → x ≡ y
Chain-antisym {x = x} {y = y} {xs} {ys} kx ky i j =
    let (ys', ky', _, near, _) = Chain-from y kx i in
    let (xs', kx', _, near', _) = Chain-from x ky j in
    let p : ys' ≡ ys = Chain-unique ky' ky refl in
    let q : xs' ≡ xs = Chain-unique kx' kx refl in
    decide ys' xs' near near' (ap length p) (ap length q)
  where
    decide :
        (ls ms : List ℤ)
        → (y ≡ x) ⊎ (length ls < length xs)
        → (x ≡ y) ⊎ (length ms < length ys)
        → length ls ≡ length ys
        → length ms ≡ length xs
        → x ≡ y
    decide ls ms (inl e) _ p q = sym e
    decide ls ms (inr lt) (inl e) p q = e
    decide ls ms (inr lt) (inr lt') p q = absurd (omega arith)

-- A class does not come back further up its own chain.
pub Chain-fresh :
    {h : Hierarchy} (c : ℤ) {d : ℤ} {cs : List ℤ}
    → is_nonneg c ≡ true
    → h c ≡ some d
    → Chain h d cs
    → contains cs c ≡ false
Chain-fresh {h} c {d} {cs} p r k = elim (Bool-cases (contains cs c)) [
  | inr no_more ↦ no_more
  | inl again ↦
      let (xs, kx, le, _, _) = Chain-from c k again in
      absurd (omega (arith, ap length (Chain-unique kx (up p r k) refl), le))
]

-- The first class of the second list that the first list holds, or -1.
abbrev pub first : List ℤ → List ℤ → ℤ
first xs [] = negsuc 0
first xs (y ∷ ys) = if contains xs y then y else first xs ys

first_cong :
    (xs xs' ys : List ℤ) → ((y : ℤ) → contains xs y ≡ contains xs' y) → first xs ys ≡ first xs' ys
first_cong xs xs' [] h = refl
first_cong xs xs' (y ∷ ys) h = ground (arith, h y, first_cong xs xs' ys h)

walk_loop_lem :
    {h : Hierarchy} {c : ℤ} {cs : List ℤ} (fuel : ℕ) (ancestors : List ℤ)
    → Chain h c cs
    → length cs < fuel
    → walk_loop fuel h ancestors c ≡ some (first ancestors cs)
unfolding walk_loop
walk_loop_lem zero ancestors k lt = absurd (omega arith)
walk_loop_lem (suc fuel) ancestors (below p) lt = ground arith
walk_loop_lem (suc fuel) ancestors (root p r) lt = ground arith
walk_loop_lem (suc fuel) ancestors (up p r k) lt = ground (arith, walk_loop_lem fuel ancestors k)

-- The first loop collects just the classes on the chain.
pub ancestors_loop_lem :
    {h : Hierarchy} {c : ℤ} {cs : List ℤ} (fuel : ℕ) (seen : List ℤ)
    → Chain h c cs
    → length cs < fuel
    → ((x : ℤ) → In x cs → contains seen x ≡ false)
    → (out : List ℤ) × (ancestors_loop fuel h c seen ≡ some out)
      × ((y : ℤ) → contains out y ≡ (contains cs y || contains seen y))
unfolding ancestors_loop
ancestors_loop_lem zero seen k lt fresh = absurd (omega arith)
ancestors_loop_lem (suc fuel) seen (below p) lt fresh = (seen, ground arith, λ y. refl)
ancestors_loop_lem (suc fuel) seen (root {c} p r) lt fresh =
    (c ∷ seen, ground (arith, fresh c, ==ℤ_refl c), λ y. ground arith)
ancestors_loop_lem (suc fuel) seen (up {c} {d} {cs} p r k) lt fresh =
    let (out, e, has) = ancestors_loop_lem fuel (c ∷ seen) k (omega arith) still_fresh in
    (out, ground (arith, fresh c, ==ℤ_refl c, e), λ y. ground (arith, has y))
  where
    still_fresh : (x : ℤ) → In x cs → contains (c ∷ seen) x ≡ false
    still_fresh x i = ground (arith, Chain-fresh c p r k, ==ℤ→eq x c, fresh x)

-- Where the walks from both classes come to an end, LCA ends too, after at most as many rounds as
-- there are ancestors, and returns the first ancestor of B that is one of A, or -1.
pub lca-first :
    (h : Hierarchy) (a b : ℤ) (xs ys : List ℤ) (fuel : ℕ)
    → Chain h a xs
    → Chain h b ys
    → length xs < fuel
    → length ys < fuel
    → lca fuel a b h ≡ some (first xs ys)
unfolding lca
lca-first h a b xs ys fuel ka kb la lb =
    let (out, e, has) = ancestors_loop_lem fuel [] ka la (λ x i. refl) in
    rw (e, lca)
      (walk_loop_lem fuel out kb lb ∙ ap some (first_cong out xs ys (λ y. has y ∙ ground arith)))
