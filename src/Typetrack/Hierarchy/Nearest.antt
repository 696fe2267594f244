-- ===== src/Typetrack/Hierarchy/Nearest.antt =====
-- The lowest common ancestor on a hierarchy without cycles: nearest among the common ancestors,
-- and so a join of classes. On a cycle the second loop need not end.
use aotopsy.Base.{ℕ, ◌<◌, ◌≡◌, refl, sym, ap, arith, ◌⊎◌, inl, inr}
use aotopsy.Base.{true, false, List, [], ◌∷◌, if◌then◌else◌, length}
use aotopsy.Base.{Option, none, some, Bool-cases}
use aotopsy.Base.Int.{ℤ, negsuc, ◌==ℤ◌, is_nonneg, ==ℤ_refl, ==ℤ→eq}
use aotopsy.Typetrack.Hierarchy.{Hierarchy, contains, lca}
use aotopsy.Typetrack.Hierarchy.Chains.{Chain, below, root, up, In, first}
use aotopsy.Typetrack.Hierarchy.Chains.{Chain-unique, Chain-from, Chain-antisym, lca-first}
use aotopsy.Typetrack.Lattice.View.{class_join}
use aotopsy.Typetrack.Lattice.Laws.{IsJoin, join_left, join_right}

-- Every walk up the hierarchy comes to an end.
abbrev pub IsAcyclic : Hierarchy → Type 0
IsAcyclic h = (c : ℤ) → (cs : List ℤ) × Chain h c cs

Chain-is_nonneg :
    {h : Hierarchy} {c : ℤ} {cs : List ℤ} (y : ℤ) → Chain h c cs → In y cs → is_nonneg y ≡ true
Chain-is_nonneg y (below p) i = cc
Chain-is_nonneg y (root {c} p r) i = rw (==ℤ→eq y c (ground arith)) p
Chain-is_nonneg y (up {c} p r k) i = elim (Bool-cases (y ==ℤ c)) [
  | inl same ↦ rw (==ℤ→eq y c same) p
  | inr other ↦ Chain-is_nonneg y k (ground arith)
]

Chain-self : {h : Hierarchy} {c : ℤ} {cs : List ℤ} → Chain h c cs → is_nonneg c ≡ true → In c cs
Chain-self (below p) n = cc
Chain-self (root {c} p r) n = ground (arith, ==ℤ_refl c)
Chain-self (up {c} p r k) n = ground (arith, ==ℤ_refl c)

-- Whether two lists share a class, and where the second one meets the first.
pub data Meeting (h : Hierarchy) (xs ys : List ℤ) : ℤ → Type 0 where
  apart : ((y : ℤ) → In y xs → In y ys → ⊥) → Meeting h xs ys (negsuc 0)
  meets :
      {l : ℤ} (ls : List ℤ)
      → In l xs
      → In l ys
      → Chain h l ls
      → ((y : ℤ) → In y xs → In y ys → In y ls)
      → Meeting h xs ys l

Meeting-cons :
    {h : Hierarchy} {xs ys : List ℤ} {l : ℤ} (c : ℤ)
    → contains xs c ≡ false
    → Meeting h xs ys l
    → Meeting h xs (c ∷ ys) l
Meeting-cons {xs = xs} {ys} c no_c (apart none_shared) =
    apart (λ y i j. none_shared y i (skip y i j))
  where
    skip : (y : ℤ) → In y xs → In y (c ∷ ys) → In y ys
    skip y i j = ground (arith, ==ℤ→eq y c)
Meeting-cons {xs = xs} {ys} c no_c (meets {l} ls i j k above) =
    meets ls i (ground arith) k (λ y p q. above y p (skip y p q))
  where
    skip : (y : ℤ) → In y xs → In y (c ∷ ys) → In y ys
    skip y i j = ground (arith, ==ℤ→eq y c)

first-Meeting :
    {h : Hierarchy} {c : ℤ} {ys : List ℤ} (xs : List ℤ)
    → Chain h c ys
    → Meeting h xs ys (first xs ys)
first-Meeting xs (below p) = apart (λ y i j. cc)
first-Meeting {h} xs (root {c} p r) = elim (Bool-cases (contains xs c)) [
  | inl here ↦ rw here (meets (c ∷ []) here (ground (arith, ==ℤ_refl c)) (root p r) (λ y i j. j))
  | inr away ↦ rw away (Meeting-cons c away (apart (λ y i j. cc)))
]
first-Meeting {h} xs (up {c} {d} {cs} p r k) = elim (Bool-cases (contains xs c)) [
  | inl here ↦ rw here (meets (c ∷ cs) here (ground (arith, ==ℤ_refl c)) (up p r k) (λ y i j. j))
  | inr away ↦ rw away (Meeting-cons c away (first-Meeting xs k))
]

module _ (h : Hierarchy) (acyclic : IsAcyclic h) where
  abbrev pub chain_of : ℤ → List ℤ
  chain_of c = (acyclic c).0

  -- LCA as a function, for a hierarchy on which it always returns.
  unfoldable pub lca_of : ℤ → ℤ → ℤ
  lca_of a b = first (chain_of a) (chain_of b)

  -- `y` is `a` itself or one of its superclasses.
  abbrev pub Above : ℤ → ℤ → Type 0
  Above a y = (a ≡ y) ⊎ In y (chain_of a)

  pub Above-trans : (a b c : ℤ) → Above a b → Above b c → Above a c
  Above-trans a b c (inl e) q = rw e q
  Above-trans a b c (inr i) (inl e) = inr (rw (← e) i)
  Above-trans a b c (inr i) (inr j) =
      let (ls, k, _, _, sub) = Chain-from b (acyclic a).1 i in
      let e : ls ≡ chain_of b = Chain-unique k (acyclic b).1 refl in inr (sub c (rw e j))

  Above-antisym : (a b : ℤ) → Above a b → Above b a → a ≡ b
  Above-antisym a b (inl e) q = e
  Above-antisym a b (inr i) (inl e) = sym e
  Above-antisym a b (inr i) (inr j) = Chain-antisym (acyclic a).1 (acyclic b).1 i j

  -- A class from which exactly the common superclasses `P` go up, or none where there is none.
  pub data Least (P : ℤ → Type 0) : Option ℤ → Type 0 where
    nothing : ((y : ℤ) → P y → ⊥) → Least P none
    least : {l : ℤ} → P l → ((y : ℤ) → P y → Above l y) → Least P (some l)

  Least-same :
      (P Q : ℤ → Type 0) {o : Option ℤ}
      → ((y : ℤ) → P y → Q y)
      → ((y : ℤ) → Q y → P y)
      → Least P o
      → Least Q o
  Least-same P Q f g (nothing none_p) = nothing (λ y q. none_p y (g y q))
  Least-same P Q f g (least {l} p up_p) = least (f l p) (λ y q. up_p y (g y q))

  Least-unique :
      (P Q : ℤ → Type 0) {o o' : Option ℤ}
      → ((y : ℤ) → P y → Q y)
      → ((y : ℤ) → Q y → P y)
      → Least P o
      → Least Q o'
      → o ≡ o'
  Least-unique P Q f g (nothing no_p) (nothing no_q) = refl
  Least-unique P Q f g (nothing no_p) (least {l = m} q up_q) = absurd (no_p m (g m q))
  Least-unique P Q f g (least {l} p up_p) (nothing no_q) = absurd (no_q l (f l p))
  Least-unique P Q f g (least {l} p up_p) (least {l = m} q up_q) =
      ap some (Above-antisym l m (up_p m (g m q)) (up_q l (f l p)))

  abbrev pub Common : ℤ → ℤ → ℤ → Type 0
  Common a b y = Above a y × Above b y

  -- Where two different classes share a superclass, it is on both chains.
  on_chain :
      (a b y : ℤ)
      → (a ==ℤ b) ≡ false
      → Above a y
      → Above b y
      → In y (chain_of a) × In y (chain_of b)
  on_chain a b y differ (inl e) (inl f) = cc (rw (e, f, ==ℤ_refl y) at differ)
  on_chain a b y differ (inl e) (inr j) =
      (rw (← e) (Chain-self (acyclic a).1 (rw e (Chain-is_nonneg y (acyclic b).1 j))), j)
  on_chain a b y differ (inr i) (inl f) =
      (i, rw (← f) (Chain-self (acyclic b).1 (rw f (Chain-is_nonneg y (acyclic a).1 i))))
  on_chain a b y differ (inr i) (inr j) = (i, j)

  pub class_join-Least : (a b : ℤ) → Least (Common a b) (class_join (some lca_of) a b)
  unfolding class_join lca_of
  class_join-Least a b = elim (Bool-cases (a ==ℤ b)) [
    | inl same ↦
        let e : a ≡ b = ==ℤ→eq a b same in rw same (least (inl refl, inl (sym e)) (λ y p. p.0))
    | inr differ ↦
        rw differ (apart_or_met differ (lca_of a b) (first-Meeting (chain_of a) (acyclic b).1))
  ]
    where
      apart_or_met :
          (a ==ℤ b) ≡ false
          → (l : ℤ) → Meeting h (chain_of a) (chain_of b) l
          → Least (Common a b) (if is_nonneg l then some l else none)
      apart_or_met differ l (apart none_shared) =
          nothing (λ y p. let (i, j) = on_chain a b y differ p.0 p.1 in none_shared y i j)
      apart_or_met differ l (meets ls i j k above) = rw (Chain-is_nonneg l (acyclic a).1 i) (
          least (inr i, inr j)
            (λ y p.
              let (i', j') = on_chain a b y differ p.0 p.1 in
              inr (rw (Chain-unique k (acyclic l).1 refl) at (above y i' j'))))

  -- The common superclasses of three classes are those of one and of what the other two share.
  Three : ℤ → ℤ → ℤ → ℤ → Type 0
  Three a b c y = Above a y × Above b y × Above c y

  join_left-Least :
      (a b c : ℤ) (o : Option ℤ)
      → Least (Common a b) o
      → Least (Three a b c) (join_left (some lca_of) o c)
  unfolding Three
  join_left-Least a b c none (nothing none_p) = nothing (λ y p. none_p y (p.0, p.1))
  join_left-Least a b c (some l) (least p up_p) =
      Least-same (Common l c) (Three a b c)
        (λ y q. (Above-trans a l y p.0 q.0, Above-trans b l y p.1 q.0, q.1))
        (λ y q. (up_p y (q.0, q.1), q.2)) (class_join-Least l c)

  join_right-Least :
      (a b c : ℤ) (o : Option ℤ)
      → Least (Common b c) o
      → Least (Three a b c) (join_right (some lca_of) a o)
  unfolding Three
  join_right-Least a b c none (nothing none_p) = nothing (λ y p. none_p y (p.1, p.2))
  join_right-Least a b c (some m) (least p up_p) =
      Least-same (Common a m) (Three a b c)
        (λ y q. (q.0, Above-trans b m y p.0 q.1, Above-trans c m y p.1 q.1))
        (λ y q. (q.0, up_p y (q.1, q.2))) (class_join-Least a m)

  -- On a hierarchy without cycles LCA makes classes a semilattice with a conflict on top: its join
  -- is commutative and associative.
  pub lca_of-IsJoin : IsJoin (some lca_of)
  lca_of-IsJoin = record {
    commutes = λ a b.
        Least-unique (Common a b) (Common b a) (λ y p. (p.1, p.0)) (λ y p. (p.1, p.0))
          (class_join-Least a b) (class_join-Least b a);
    associates = λ a b c.
        Least-unique (Three a b c) (Three a b c) (λ y p. p) (λ y p. p)
          (join_left-Least a b c _ (class_join-Least a b))
          (join_right-Least a b c _ (class_join-Least b c));
  }

-- Where the walks from A and from B end after `xs` and `ys`, LCA returns with any fuel above their
-- lengths: -1 where they share no class, and else a class on both from which every shared class
-- goes up.
pub lca_nearest :
    (h : Hierarchy) (a b : ℤ) (xs ys : List ℤ) (fuel : ℕ)
    → Chain h a xs
    → Chain h b ys
    → length xs < fuel
    → length ys < fuel
    → (l : ℤ) × (lca fuel a b h ≡ some l) × Meeting h xs ys l
lca_nearest h a b xs ys fuel ka kb lx ly =
    (first xs ys, lca-first h a b xs ys fuel ka kb lx ly, first-Meeting xs kb)
