-- ===== src/Decompiler/Dom/Detour.antt =====
-- The blocks that no way leaves out stand above, in every table that the passes come by.
use aotopsy.Base.{
  ℕ, ◌≤◌, ◌<◌, ◌≡◌, ◌≢◌, ◌⊎◌, inl, inr, sym, ap, ◌∙◌, arith, false, ◌==◌, Bool-cases, List, ◌∷◌,
  some,
}
use aotopsy.Decompiler.Dom.{Succ, Table, assign}
use aotopsy.Decompiler.Dom.Order.{occ, Edge, Route, follow}
use aotopsy.Decompiler.Dom.Tree.{Chain, here, up, Chain-trans, Chain-num, Defined, Tree}
use mathlib.Core.Path.{subst}

ne→false : (a b : ℕ) → a ≢ b → (a == b) ≡ false
ne→false a b h = elim (Bool-cases (a == b)) [ inl e ↦ absurd (h (ground (arith, e))) | inr e ↦ e ]

module _ (n : ℕ) (succs : ℕ → List Succ) where
  -- Every way to `y` goes through `z`.
  abbrev pub Doms : ℕ → ℕ → Type 0
  Doms z y = (way : List ℕ) → Route n succs y way → 0 < occ z way

  pub Doms-before : (z b c : ℕ) → Doms z c → z ≢ c → Edge n succs b c → Doms z b
  Doms-before z b c d ne e way r =
      let later = d (c ∷ way) (follow r e) in
      let other : (c == z) ≡ false = ne→false c z (λ q. ne (sym q)) in ground (arith, later, other)

  module _ (num : ℕ → ℕ) where
    -- A way on from `c` over blocks with numbers above `lo`.
    pub data Trail (lo c : ℕ) : ℕ → Type 0 where
      stop : Trail lo c c
      on : {y w : ℕ} → Trail lo c y → Edge n succs y w → lo < num w → Trail lo c w

    pub Trail-trans : {lo a b c : ℕ} → Trail lo a b → Trail lo b c → Trail lo a c
    Trail-trans h stop = h
    Trail-trans h (on t e l) = on (Trail-trans h t) e l

    pub Trail-weaken : {lo hi c y : ℕ} → lo ≤ hi → Trail hi c y → Trail lo c y
    Trail-weaken h stop = stop
    Trail-weaken h (on t e l) = on (Trail-weaken h t) e (omega (arith, h, l))

    Trail-above : {lo c y : ℕ} → Trail lo c y → lo ≤ num c → lo ≤ num y
    Trail-above stop h = h
    Trail-above (on t e l) h = omega (arith, l)

    Trail-le : {c y : ℕ} → Trail (num c) c y → num c ≤ num y
    Trail-le t = Trail-above t (omega arith)

    Route-on :
        {lo b y : ℕ} {way : List ℕ}
        → Route n succs b way
        → Trail lo b y
        → (longer : List ℕ) × Route n succs y longer
          × ((z : ℕ) → num z ≤ lo → 0 < occ z longer → 0 < occ z way)
    Route-on {way = way} r stop = (way, r, λ z h o. o)
    Route-on r (on {w = w} t e l) =
        let (longer, r', keeps) = Route-on r t in
        (
          w ∷ longer,
          follow r' e,
          λ z h o.
              let other : (w == z) ≡ false = ne→false w z (λ q. omega (arith, h, l, ap num q)) in
              keeps z h (ground (arith, o, other)),
        )

    -- A block at or before `b` that every way past `b` goes through is on every way to `b`.
    pub Doms-Trail : {b y : ℕ} (z : ℕ) → Trail (num b) b y → num z ≤ num b → Doms z y → Doms z b
    Doms-Trail z t h d way r = let (longer, r', keeps) = Route-on r t in keeps z h (d longer r')

    pub record Full (idom : Table) : Type 0 where
      pub tree : Tree n num idom
      pub trails : (y c : ℕ) → idom y ≡ some c → y ≢ 0 → Trail (num c) c y
      pub complete : (y z : ℕ) → Defined idom y → Doms z y → Chain idom y z

    module _ (entry : num 0 ≡ 1) where
      -- From a block above there is a trail down.
      Chain-Trail : {idom : Table} {y c : ℕ} → Full idom → Chain idom y c → Trail (num c) c y
      Chain-Trail f here = stop
      Chain-Trail {idom = idom} {c = c} f (up {b = y} {c = x} e h) = elim (Bool-cases (y == 0)) [
        | inl first ↦
            let at : y ≡ 0 = ground (arith, first) in
            let root = f.tree.root in
            let same : x ≡ y = ground (arith, root, e, at, subst (λ w. idom w ≡ some x) at e) in
            subst (λ w. Trail (num c) c w) same (Chain-Trail f h)
        | inr inner ↦ Trail-trans (Chain-Trail f h) (
            Trail-weaken (Chain-num n num succs idom f.tree entry h)
              (f.trails y x e (λ z. ground (arith, inner, z))))
      ]

      module _ (idom : Table) (f : Full idom) (b c : ℕ) (nb : b ≢ 0) (below : num c < num b) where
        abbrev after : Table
        after = assign b (some c) idom

        -- Above a block before `b` nothing changes.
        pub Chain-after : {y z : ℕ} → Chain idom y z → num y < num b → Chain after y z
        Chain-after here l = here
        Chain-after (up {b = y} {c = x} q h) l =
            let under = Chain-num n num succs idom f.tree entry (up q here) in
            let other : (y == b) ≡ false = ne→false y b (λ e. omega (arith, l, ap num e)) in
            up (ground (arith, other, q)) (Chain-after h (omega (arith, under, l)))

        pub Chain-ago : {y z : ℕ} → Chain after y z → num y < num b → Chain idom y z
        Chain-ago here l = here
        Chain-ago (up {b = y} {c = x} q h) l =
            let other : (y == b) ≡ false = ne→false y b (λ e. omega (arith, l, ap num e)) in
            let kept : idom y ≡ some x = ground (arith, other, q) in
            let under = Chain-num n num succs idom f.tree entry (up kept here) in
            up kept (Chain-ago h (omega (arith, under, l)))

        -- A block above `y` still is, or it stands above `b`, from which a trail goes on to `y`.
        Chain-split :
            {y z : ℕ}
            → Chain idom y z
            → Chain after y z ⊎ (Chain after y b × Trail (num b) b y × (num z < num b))
        Chain-split here = inl here
        Chain-split {z = z} (up {b = y} {c = x} q h) = elim (Bool-cases (y == b)) [
          | inl same ↦
              let at : y ≡ b = ground (arith, same) in
              let under = f.tree.down y x q (λ e. nb (sym at ∙ e)) in
              let rest = Chain-num n num succs idom f.tree entry h in
              inr (
                subst (λ w. Chain after w b) (sym at) here,
                subst (λ w. Trail (num b) b w) (sym at) stop,
                omega (arith, rest, under.2, ap num at),
              )
          | inr other ↦
              let kept : after y ≡ some x = ground (arith, other, q) in
              elim (Chain-split h) [
                | inl k ↦ inl (up kept k)
                | inr (k, t, l) ↦ inr (up kept k, step_down y x q t, l)
              ]
        ]
          where
            step_down : (y' x' : ℕ) → idom y' ≡ some x' → Trail (num b) b x' → Trail (num b) b y'
            step_down y' x' q' t = elim (Bool-cases (y' == 0)) [
              | inl first ↦
                  let at : y' ≡ 0 = ground (arith, first) in
                  let root = f.tree.root in
                  let same : x' ≡ y' =
                    ground (arith, root, q', at, subst (λ w. idom w ≡ some x') at q') in
                  subst (λ w. Trail (num b) b w) same t
              | inr inner ↦
                  Trail-trans t
                    (Trail-weaken (Trail-le t) (f.trails y' x' q' (λ e. ground (arith, inner, e))))
            ]

        pub assign-Full :
            Tree n num after
            → (p : ℕ) → Edge n succs p b
            → Chain idom p c
            → ((z : ℕ) → Doms z b → z ≢ b → Chain idom c z)
            → Full after
        assign-Full t p e above nearest = record {
          tree = t;
          trails = λ y x q ny. elim (Bool-cases (y == b)) [
            | inl same ↦
                let at : b ≡ y = ground (arith, same) in
                let to : c ≡ x = ground (arith, same, q) in
                subst (λ w. Trail (num w) w y) to
                  (subst (λ w. Trail (num c) c w) at (on (Chain-Trail f above) e below))
            | inr other ↦ f.trails y x (ground (arith, other, q)) ny
          ];
          complete = λ y z d doms. elim (Bool-cases (y == b)) [
            | inl same ↦
                let at : b ≡ y = ground (arith, same) in
                subst (λ w. Chain after w z) at (at_b z (subst (λ w. Doms z w) (sym at) doms))
            | inr other ↦
                elim (Chain-split (f.complete y z (d.0, ground (arith, other, d.1)) doms)) [
                  | inl k ↦ k
                  | inr (k, t', l) ↦
                      Chain-trans k (at_b z (Doms-Trail z t' (omega (arith, l)) doms))
                ]
          ];
        }
          where
            at_b : (z : ℕ) → Doms z b → Chain after b z
            at_b z doms = elim (Bool-cases (z == b)) [
              | inl same ↦
                  let at : b ≡ z = ground (arith, same) in subst (λ w. Chain after b w) at here
              | inr other ↦
                  up (ground arith)
                    (Chain-after (nearest z doms (λ q. ground (arith, other, q))) below)
            ]
