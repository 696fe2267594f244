-- ===== src/Decompiler/Dom/Sound.antt =====
-- What dominates says of the ways of control.
use aotopsy.Base.{
  ℕ, zero, suc, ◌<◌, ◌≡◌, ◌≢◌, ◌⊎◌, ◌↔◌, inl, inr, refl, sym, ap, ◌∙◌, arith, Bool, true, false,
  ◌==◌, Bool-cases, Option-cases, List, [], ◌∷◌, none, some,
}
use aotopsy.Base.Go.{Go, returned, unfinished, and_then}
use aotopsy.Base.Int.{ℤ, pos, negsuc}
use aotopsy.Decompiler.Dom.{
  Succ, Table, block_within, reverse_post_order, only_entry, rpo_num, passes, preds, dominators,
  dominates_loop, dominates,
}
use aotopsy.Decompiler.Dom.Order.{
  occ, Edge, Route, enter, follow, Orders, reverse_post_order-Orders, Arrives, Orders-Arrives,
  block_within-below, Leads-below,
}
use aotopsy.Decompiler.Dom.Rank.{Ranked, Orders-Ranked}
use aotopsy.Decompiler.Dom.Tree.{Chain, here, up, Chain-trans, Chain-next, new_idom-Joined}
use aotopsy.Decompiler.Dom.Detour.{Doms, Full}
use aotopsy.Decompiler.Dom.Passes.{Solved, passes-Solved}
use aotopsy.Decompiler.Dom.Preds.{preds-Edge}
use mathlib.Core.Path.{subst}

pub block_within-pos : (n : ℕ) (z : ℤ) {b : ℕ} → block_within n z ≡ some b → z ≡ pos b
block_within-pos n (pos a) e = ground arith
block_within-pos n (negsuc a) e = cc

module _ (n : ℕ) (succs : ℕ → List Succ) where
  -- What a true answer of dominates says: control reaches the second block, and only through the
  -- first.
  abbrev pub Dominates : ℤ → ℤ → Type 0
  Dominates a b =
      (x y : ℕ) × (a ≡ pos x)
      × (b ≡ pos y)
      × (y < n)
      × Arrives n succs y
      × ((way : List ℕ) → Route n succs y way → 0 < occ x way)

  -- The table of a function, with the order that it rests on.
  pub record Solution (idom : Table) : Type 0 where
    pub order : List ℕ
    pub orders : Orders n succs order
    pub solved : Solved n succs order (rpo_num order) (Orders-Ranked n succs order orders) idom

  pub only_entry-Full : (order : List ℕ) → Full n succs (rpo_num order) (only_entry n succs)
  only_entry-Full order = record {
    tree = record { root = refl; down = λ b c e nb. absurd (nb (ground (arith, e))) };
    trails = λ y c e ny. absurd (ny (ground (arith, e)));
    complete = λ y z d doms.
        let at : y ≡ 0 = (let e = d.1 in ground (arith, e)) in
        let first = subst (λ x. Doms n succs z x) at doms (0 ∷ []) enter in
        let same : 0 ≡ z = ground (arith, first) in
        subst (λ x. Chain (only_entry n succs) y x) same
          (subst (λ x. Chain (only_entry n succs) x 0) (sym at) here);
  }

  -- dominators never panics: it comes to a table, or `fuel` passes have each changed something.
  pub dominators-Solution :
      (fuel : ℕ)
      → 0 < n
      → (dominators n succs fuel ≡ unfinished)
        ⊎ ((idom : Table) × (dominators n succs fuel ≡ returned idom) × Solution idom)
  unfolding dominators
  dominators-Solution fuel h =
      let (order, e, o) = reverse_post_order-Orders n succs h in
      let some_block : (n == 0) ≡ false = ground (arith, h) in
      let run : Go (List ℕ) → Go Table =
        λ r. and_then r λ o'. passes n succs (rpo_num o') fuel o' (only_entry n succs) in
      let found : run (reverse_post_order n succs) ≡ run (returned order) = ap run e in
      elim (passes-Solved n succs order (rpo_num order) (Orders-Ranked n succs order o) fuel
        (only_entry n succs) (only_entry-Full order)) [
          | inl out ↦ inl (rw some_block (rw some_block at (found ∙ out)))
          | inr (idom, q, s) ↦ inr (
            idom,
            rw some_block (rw some_block at (found ∙ q)),
            record { order = order; orders = o; solved = s },
          )
        ]

  module _ (idom : Table) (s : Solution idom) where
    abbrev num : ℕ → ℕ
    num = rpo_num s.order

    ranked : Ranked n succs s.order num
    ranked = Orders-Ranked n succs s.order s.orders

    -- Nothing stands above the entry.
    Chain-entry : {b a : ℕ} → Chain idom b a → b ≡ 0 → a ≡ 0
    Chain-entry here e = e
    Chain-entry (up {b = b} {c = c} q h) e =
        let zeros : 0 ≡ c =
          (let t = s.solved.full.tree.root in
            ground (arith, t, q, subst (λ x. idom x ≡ some c) e q)) in
        Chain-entry h (sym zeros)

    in_order : {b : ℕ} {way : List ℕ} → Route n succs b way → 0 < num b
    in_order enter = omega (arith, ranked.entry)
    in_order (follow r e) = ranked.closed _ _ (in_order r) e

    -- What stands above a block stands above each block before it.
    shared_above :
        (b c d : ℕ) → 0 < num b → Edge n succs b c → c ≢ 0 → idom c ≡ some d → Chain idom b d
    shared_above b c d pb e nc q =
        let (x, computed, old) = s.solved.settled c (ranked.member c (ranked.closed b c pb e)) nc in
        let joined =
          new_idom-Joined n num succs idom s.solved.full.tree ranked.entry ranked.unique
            ranked.bounded none (preds n succs c) (λ y z. cc) in
        let (up_to, there) = s.solved.covers b pb in
        let mine =
          joined.2.above b (preds-Edge n succs b c (ranked.block b pb) e)
            (ground (arith, there, pb)) in
        let same : mine.0 ≡ d =
          (let m = mine.1 in let j = joined.1 in ground (arith, m, j, computed, old, q)) in
        subst (λ z. Chain idom b z) same mine.2.0

    Chain-before :
        (b c a : ℕ)
        → 0 < num b
        → Edge n succs b c
        → c ≢ 0
        → Chain idom c a
        → (c ≡ a) ⊎ Chain idom b a
    Chain-before b c a pb e nc here = inl refl
    Chain-before b c a pb e nc (up {c = d} q h) = inr (Chain-trans (shared_above b c d pb e nc q) h)

    -- The blocks above a block are on every way to it.
    Chain-way :
        {b : ℕ} {way : List ℕ} → Route n succs b way → (a : ℕ) → Chain idom b a → 0 < occ a way
    Chain-way enter a h = let at = Chain-entry h refl in rw at (ground arith)
    Chain-way (follow {b = b} {c = c} {way = way} r e) a h = elim (Bool-cases (c == 0)) [
      | inl entry ↦ let at = Chain-entry h (ground (arith, entry)) in rw at (ground (arith, entry))
      | inr inner ↦ elim (Chain-before b c a (in_order r) e (λ q. ground (arith, inner, q)) h) [
        | inl same ↦ ground (arith, same)
        | inr k ↦ let earlier = Chain-way r a k in ground (arith, earlier)
      ]
    ]

    -- A block other than the entry stands below the block above it.
    below_above : (b c : ℕ) → idom b ≡ some c → b ≢ 0 → (0 < num c) × (num c < num b)
    below_above b c q nb = let t = s.solved.full.tree.down b c q nb in (t.1, t.2)

    -- Above a block that stands above itself there is nothing else.
    sym_entry : (b c a : ℕ) → idom b ≡ some c → b ≡ c → Chain idom b a → b ≡ a
    sym_entry b c a q e k = elim (Bool-cases (b == 0)) [
      | inl entry ↦ let z = Chain-entry k (ground (arith, entry)) in ground (arith, entry, z)
      | inr inner ↦
          let under = below_above b c q (λ z. ground (arith, inner, z)) in
          absurd (omega (arith, under.1, ap num e))
    ]

    -- The walk of dominates ends, with true just where the one stands above the other.
    dominates_loop-Chain :
        (fuel a b : ℕ)
        → num b < fuel
        → 0 < num b
        → (r : Bool) × (dominates_loop fuel idom a b ≡ returned r) × ((r ≡ true) ↔ Chain idom b a)
    unfolding dominates_loop
    dominates_loop-Chain zero a b h pb = absurd (omega (arith, h))
    dominates_loop-Chain (suc fuel) a b h pb = elim (Bool-cases (a == b)) [
      | inl same ↦
          let at : b ≡ a = ground (arith, same) in
          (
            true,
            rw (same, dominates_loop) refl,
            (λ q. subst (λ x. Chain idom b x) at here, λ q. refl),
          )
      | inr other ↦
          let (c, q) = s.solved.covers b pb in
          let ne : b ≢ a = λ e. ground (arith, other, e) in
          elim (Bool-cases (b == c)) [
            | inl stop ↦ (
              false,
              rw (other, q, stop, dominates_loop) refl,
              (λ e. cc, λ k. absurd (ne (sym_entry b c a q (ground (arith, stop)) k))),
            )
            | inr go ↦
                let nb : b ≢ 0 = λ e.
                  let t = s.solved.full.tree.root in
                  ground (arith, go, t, q, e, subst (λ x. idom x ≡ some c) e q) in
                let under = below_above b c q nb in
                let rest = dominates_loop-Chain fuel a c (omega (arith, under.1, h)) under.0 in
                (
                  rest.0,
                  rw (other, q, go, dominates_loop) rest.1,
                  (λ e. up q (rest.2.0 e), λ k. rest.2.1 (Chain-next k ne q)),
                )
          ]
    ]

    defined_num : (b c : ℕ) → idom b ≡ some c → 0 < num b
    defined_num b c q = elim (Bool-cases (b == 0)) [
      | inl entry ↦
          let at : 0 ≡ b = ground (arith, entry) in
          subst (λ x. 0 < num x) at (omega (arith, ranked.entry))
      | inr inner ↦ (s.solved.full.tree.down b c q (λ z. ground (arith, inner, z))).0
    ]

    Doms-of : (a b : ℤ) (x y : ℕ) → Dominates a b → a ≡ pos x → b ≡ pos y → Doms n succs x y
    Doms-of a b x y (x', y', e, q, l, r, w) f g =
        let first : x' ≡ x = ground (arith, e, f) in
        let second : y' ≡ y = ground (arith, q, g) in
        subst (λ z. Doms n succs z y) first (subst (λ z. Doms n succs x' z) second w)

    -- The blocks on a way are blocks.
    way_below : {b : ℕ} {way : List ℕ} (x : ℕ) → Route n succs b way → 0 < occ x way → x < n
    way_below x enter o =
        let at : 0 ≡ x = ground (arith, o) in
        subst (λ z. z < n) at (ranked.block 0 (omega (arith, ranked.entry)))
    way_below x (follow {c = c} r e) o = elim (Bool-cases (c == x)) [
      | inl same ↦
          let at : c ≡ x = ground (arith, same) in subst (λ z. z < n) at (Leads-below n succs _ c e)
      | inr other ↦ way_below x r (ground (arith, other, o))
    ]

    within_some : (x : ℕ) → x < n → block_within n (pos x) ≡ none → ⊥
    within_some x h e = ground (arith, h, e)

    outside_first : (a b : ℤ) → Dominates a b → block_within n a ≡ none → ⊥
    outside_first a b (x, y, e, q, l, r, w) o =
        within_some x (way_below x r.1 (w r.0 r.1)) (subst (λ z. block_within n z ≡ none) e o)

    outside_second : (a b : ℤ) → Dominates a b → block_within n b ≡ none → ⊥
    outside_second a b (x, y, e, q, l, r, w) o =
        within_some y l (subst (λ z. block_within n z ≡ none) q o)

    undefined : (a b : ℤ) (y : ℕ) → Dominates a b → b ≡ pos y → idom y ≡ none → ⊥
    undefined a b y (x, y', e, q, l, r, w) at u =
        let same : y' ≡ y = ground (arith, q, at) in
        let (c, d) = s.solved.covers y' (in_order r.1) in
        let d' = subst (λ z. idom z ≡ some c) same d in cc

    pub dominates-Dominates :
        (a b : ℤ) → (r : Bool) × (dominates n idom a b ≡ returned r) × ((r ≡ true) ↔ Dominates a b)
    unfolding dominates
    dominates-Dominates a b = elim (Option-cases (block_within n a)) [
      | inl e ↦ (false, rw (e, dominates) refl, (λ q. cc, λ d. absurd (outside_first a b d e)))
      | inr (x, e) ↦ elim (Option-cases (block_within n b)) [
        | inl q ↦
            (false, rw (e, q, dominates) refl, (λ z. cc, λ d. absurd (outside_second a b d q)))
        | inr (y, q) ↦ elim (Option-cases (idom y)) [
          | inl u ↦ (
            false,
            rw (e, q, u, dominates) refl,
            (λ z. cc, λ d. absurd (undefined a b y d (block_within-pos n b q) u)),
          )
          | inr (c, u) ↦
              let run =
                dominates_loop-Chain (suc n) x y (omega (arith, ranked.bounded y))
                  (defined_num y c u) in
              (
                run.0,
                rw (e, q, u, dominates) run.1,
                (
                  λ z. (
                    x,
                    y,
                    block_within-pos n a e,
                    block_within-pos n b q,
                    block_within-below n b q,
                    Orders-Arrives n succs s.orders y (ranked.member y (defined_num y c u)),
                    λ way r. Chain-way r x (run.2.0 z),
                  ),
                  λ d. run.2.1 (
                      s.solved.full.complete y x (c, u)
                        (Doms-of a b x y d (block_within-pos n a e) (block_within-pos n b q))),
                ),
              )
        ]
      ]
    ]

  -- What dominators and dominates together come to.
  pub dominators-Solution_of :
      (fuel : ℕ) (idom : Table) → 0 < n → dominators n succs fuel ≡ returned idom → Solution idom
  dominators-Solution_of fuel idom h e = elim (dominators-Solution fuel h) [
    | inl out ↦ cc
    | inr (found, q, s) ↦ let same : found ≡ idom = cc in subst Solution same s
  ]
