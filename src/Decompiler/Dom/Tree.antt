-- ===== src/Decompiler/Dom/Tree.antt =====
-- Two blocks walk up a table to one that stands above both.
use aotopsy.Base.{
  ℕ, zero, suc, ◌+◌, ◌≤◌, ◌<◌, ◌≡◌, ◌≢◌, inl, inr, refl, sym, ap, ltb→lt, ◌∙◌, arith, true, false,
  ◌==◌, ltb, Bool-cases, Option-cases, List, [], ◌∷◌, Option, none, some,
}
use aotopsy.Base.Go.{returned}
use aotopsy.Decompiler.Dom.{Succ, Table, climb, intersect_loop, intersect, is_processed, new_idom}
use aotopsy.Decompiler.Dom.Order.{occ}
use mathlib.Core.Path.{subst}

-- The blocks above a block in a table, itself among them.
pub data Chain (idom : Table) : ℕ → ℕ → Type 0 where
  here : {b : ℕ} → Chain idom b b
  up : {b c a : ℕ} → idom b ≡ some c → Chain idom c a → Chain idom b a

pub Chain-trans : {idom : Table} {a b c : ℕ} → Chain idom a b → Chain idom b c → Chain idom a c
Chain-trans here k = k
Chain-trans (up e h) k = up e (Chain-trans h k)

pub Chain-next :
    {idom : Table} {b c a : ℕ} → Chain idom b a → b ≢ a → idom b ≡ some c → Chain idom c a
Chain-next here ne q = absurd (ne refl)
Chain-next {idom = idom} {a = a} (up {c = d} e h) ne q =
    subst (λ x. Chain idom x a) (ground (arith, e, q)) h

abbrev pub Defined : Table → ℕ → Type 0
Defined idom b = (c : ℕ) × (idom b ≡ some c)

module _ (n : ℕ) (num : ℕ → ℕ) where
  -- A table that goes down in the order, to the entry.
  pub record Tree (idom : Table) : Type 0 where
    pub root : idom 0 ≡ some 0
    pub down :
        (b c : ℕ)
        → idom b ≡ some c
        → b ≢ 0
        → (0 < num b) × (0 < num c) × (num c < num b) × Defined idom c

  -- A block above `a`, not behind it in the order.
  abbrev pub Above : Table → ℕ → ℕ → Type 0
  Above idom a c = Chain idom a c × (num c ≤ num a) × (0 < num c) × Defined idom c

  module _ (succs : ℕ → List Succ) (idom : Table) (tree : Tree idom) (entry : num 0 ≡ 1) where
    -- What stands above a block is not behind it in the order.
    pub Chain-num : {b a : ℕ} → Chain idom b a → num a ≤ num b
    Chain-num here = omega arith
    Chain-num (up {b = b} {c = c} e h) = elim (Bool-cases (b == 0)) [
      | inl first ↦
          let at : b ≡ 0 = ground (arith, first) in
          let root = tree.root in
          let same : c ≡ b = ground (arith, root, e, at, subst (λ x. idom x ≡ some c) at e) in
          let below = Chain-num h in omega (arith, below, ap num same)
      | inr inner ↦
          let under = tree.down b c e (λ z. ground (arith, inner, z)) in
          let below = Chain-num h in omega (arith, below, under.2)
    ]

    climb-Above :
        (fuel a b : ℕ)
        → num a < fuel
        → 0 < num a
        → 0 < num b
        → Defined idom a
        → (c : ℕ) × (climb n succs num fuel idom a b ≡ returned c)
          × Above idom a c
          × (num c ≤ num b)
          × ((z : ℕ) → Chain idom a z → num z ≤ num b → Chain idom c z)
    unfolding climb
    climb-Above zero a b h pa pb d = absurd (omega (arith, h))
    climb-Above (suc fuel) a b h pa pb d = elim (Bool-cases (ltb (num b) (num a))) [
      | inr stop ↦
          (a, rw (stop, climb), (here, omega arith, pa, d), ground (arith, stop), λ z q le. q)
      | inl go ↦
          let not_entry : a ≢ 0 =
            λ e. omega (arith, ltb→lt (num b) (num a) go, ap num e ∙ entry, pb) in
          let below = tree.down a d.0 d.1 not_entry in
          let rest = climb-Above fuel d.0 b (omega (arith, below.2, h)) below.1 pb below.3 in
          (
            rest.0,
            rw (go, d.1, climb) rest.1,
            (up d.1 rest.2.0, omega (arith, rest.2.1, below.2), rest.2.2, rest.2.3),
            rest.3,
            λ z q le.
                rest.4 z
                  (Chain-next q (λ e. omega (arith, ltb→lt (num b) (num a) go, ap num e, le)) d.1)
                  le,
          )
    ]

    Above-trans : {a b c : ℕ} → Above idom a b → Above idom b c → Above idom a c
    Above-trans h k = (Chain-trans h.0 k.0, omega (arith, h.1, k.1), k.2, k.3)

    module _ (unique : (x y : ℕ) → 0 < num x → num x ≡ num y → x ≡ y)
        (bound : (x : ℕ) → num x ≤ n) where
      intersect_loop-Above :
          (fuel a b : ℕ)
          → num a + num b < fuel
          → 0 < num a
          → 0 < num b
          → Defined idom a
          → Defined idom b
          → (c : ℕ) × (intersect_loop n succs num fuel idom a b ≡ returned c)
            × Above idom a c
            × Above idom b c
            × ((z : ℕ) → Chain idom a z → Chain idom b z → Chain idom c z)
      unfolding intersect_loop
      intersect_loop-Above zero a b h pa pb da db = absurd (omega (arith, h))
      intersect_loop-Above (suc fuel) a b h pa pb da db = elim (Bool-cases (a == b)) [
        | inl same ↦
            let at : a ≡ b = ground (arith, same) in
            (
              a,
              rw (same, intersect_loop),
              (here, omega arith, pa, da),
              subst (λ x. Above idom x a) at (here, omega arith, pa, da),
              λ z q w. q,
            )
        | inr differ ↦
            let first = climb-Above (suc n) a b (omega (arith, bound a)) pa pb da in
            let a' = first.0 in
            let second = climb-Above (suc n) b a' (omega (arith, bound b)) pb first.2.2 db in
            let b' = second.0 in
            let other : num a ≢ num b =
              λ e. let same = unique a b pa e in ground (arith, same, differ) in
            let rest =
              intersect_loop-Above fuel a' b'
                (omega (arith, first.2.1, first.3, second.2.1, second.3, other, h)) first.2.2
                second.2.2 first.2.3 second.2.3 in
            (
              rest.0,
              rw (differ, first.1, second.1, intersect_loop) rest.1,
              Above-trans first.2 rest.2,
              Above-trans second.2 rest.3,
              λ z q w.
                  let left = first.4 z q (Chain-num w) in
                  rest.4 z left (second.4 z w (Chain-num left)),
            )
      ]

      intersect-Above :
          (a b : ℕ)
          → 0 < num a
          → 0 < num b
          → Defined idom a
          → Defined idom b
          → (c : ℕ) × (intersect n succs num idom a b ≡ returned c)
            × Above idom a c
            × Above idom b c
            × ((z : ℕ) → Chain idom a z → Chain idom b z → Chain idom c z)
      unfolding intersect
      intersect-Above a b = intersect_loop-Above (suc (n + n)) a b (omega (arith, bound a, bound b))

      -- What stands above the blocks that were joined.
      pub record Joined (acc : Option ℕ) (ps : List ℕ) (r : Option ℕ) : Type 0 where
        pub known : (c : ℕ) → r ≡ some c → (0 < num c) × Defined idom c
        pub before : (a : ℕ) → acc ≡ some a → (c : ℕ) × (r ≡ some c) × Above idom a c
        pub above :
            (p : ℕ)
            → 0 < occ p ps
            → is_processed n succs num idom p ≡ true
            → (c : ℕ) × (r ≡ some c) × Above idom p c
        pub nearest :
            (z c : ℕ)
            → r ≡ some c
            → ((a : ℕ) → acc ≡ some a → Chain idom a z)
            → ((p : ℕ) → 0 < occ p ps → is_processed n succs num idom p ≡ true → Chain idom p z)
            → Chain idom c z

      processed : (p : ℕ) → is_processed n succs num idom p ≡ true → (0 < num p) × Defined idom p
      processed p h = elim (Option-cases (idom p)) [
        | inl e ↦ absurd (ground (arith, h, e))
        | inr (c, e) ↦ (ground (arith, h, e), (c, e))
      ]

      Joined-first :
          (acc : Option ℕ) (p : ℕ) (ps : List ℕ) (c : ℕ) {r : Option ℕ}
          → ((a : ℕ) → acc ≡ some a → Above idom a c)
          → (is_processed n succs num idom p ≡ true → Above idom p c)
          → ((z : ℕ)
              → ((a : ℕ) → acc ≡ some a → Chain idom a z)
              → (is_processed n succs num idom p ≡ true → Chain idom p z)
              → Chain idom c z)
          → Joined (some c) ps r
          → Joined acc (p ∷ ps) r
      Joined-first acc p ps c old new share j =
          let last = j.before c refl in
          record {
            known = j.known;
            before = λ a e. (last.0, last.1, Above-trans (old a e) last.2);
            above = λ q o h. elim (Bool-cases (p == q)) [
              | inl same ↦
                  let at : p ≡ q = ground (arith, same) in
                  (
                    last.0,
                    last.1,
                    subst (λ x. Above idom x last.0) at
                        (Above-trans
                          (new (subst (λ x. is_processed n succs num idom x ≡ true) (sym at) h))
                          last.2),
                  )
              | inr other ↦ j.above q (ground (arith, o, other)) h
            ];
            nearest = λ z d e olds news.
                j.nearest z d e
                  (λ a q.
                    subst (λ x. Chain idom x z) (ground (arith, q))
                      (share z olds (news p (ground arith))))
                  (λ q o. news q (omega (arith, o)));
          }

      Joined-skip :
          (acc : Option ℕ) (p : ℕ) (ps : List ℕ) {r : Option ℕ}
          → is_processed n succs num idom p ≡ false
          → Joined acc ps r
          → Joined acc (p ∷ ps) r
      Joined-skip acc p ps skipped j = record {
        known = j.known;
        before = j.before;
        above = λ q o h. elim (Bool-cases (p == q)) [
          | inl same ↦
              let at : p ≡ q = ground (arith, same) in
              let h' = subst (λ x. is_processed n succs num idom x ≡ true) (sym at) h in
              absurd (ground (arith, h', skipped))
          | inr other ↦ j.above q (ground (arith, o, other)) h
        ];
        nearest = λ z d e olds news. j.nearest z d e olds (λ q o. news q (omega (arith, o)));
      }

      abbrev Joins : Option ℕ → List ℕ → Type 0
      Joins acc ps =
          (r : Option ℕ) × (new_idom n succs num idom acc ps ≡ returned r) × Joined acc ps r

      pub new_idom-Joined :
          (acc : Option ℕ) (ps : List ℕ)
          → ((c : ℕ) → acc ≡ some c → (0 < num c) × Defined idom c)
          → Joins acc ps
      unfolding new_idom
      new_idom-Joined acc [] k = (
        acc,
        refl,
        record {
          known = k;
          before = λ a e. (a, e, (here, omega arith, (k a e).0, (k a e).1));
          above = λ p o h. absurd (omega (arith, o));
          nearest = λ z d e olds news. olds d e;
        },
      )
      new_idom-Joined none (p ∷ ps) k = elim (Bool-cases (is_processed n succs num idom p)) [
        | inr h ↦
            let rest = new_idom-Joined none ps k in
            (rest.0, rw (h, new_idom) rest.1, Joined-skip none p ps h rest.2)
        | inl h ↦
            let there = processed p h in
            let rest =
              new_idom-Joined (some p) ps
                (λ c e. subst (λ x. (0 < num x) × Defined idom x) (ground (arith, e)) there) in
            (
              rest.0,
              rw (h, new_idom) rest.1,
              Joined-first none p ps p (λ a e. cc) (λ q. (here, omega arith, there.0, there.1))
                  (λ z o w. w h) rest.2,
            )
      ]
      new_idom-Joined (some a) (p ∷ ps) k = elim (Bool-cases (is_processed n succs num idom p)) [
        | inr h ↦
            let rest = new_idom-Joined (some a) ps k in
            (rest.0, rw (h, new_idom) rest.1, Joined-skip (some a) p ps h rest.2)
        | inl h ↦
            let there = processed p h in
            let old = k a refl in
            let met = intersect-Above p a there.0 old.0 there.1 old.1 in
            let rest = new_idom-Joined (some met.0) ps (λ c e.
              subst (λ x. (0 < num x) × Defined idom x) (ground (arith, e)) (met.2.2, met.2.3)) in
            (
              rest.0,
              rw (h, met.1, new_idom) rest.1,
              Joined-first (some a) p ps met.0
                  (λ b e. subst (λ x. Above idom x met.0) (ground (arith, e)) met.3) (λ q. met.2)
                  (λ z o w. met.4 z (w h) (o a refl)) rest.2,
            )
      ]
