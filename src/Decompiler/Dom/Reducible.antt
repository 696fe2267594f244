-- ===== src/Decompiler/Dom/Reducible.antt =====
-- Where every edge back goes to a block on each way to its source, two passes are enough.
use aotopsy.Base.{
  ℕ, suc, ◌+◌, ◌≤◌, ◌<◌, ◌≡◌, ◌≢◌, inl, inr, refl, sym, ap, ◌∙◌, arith, Bool, true, false, ◌==◌,
  Bool-cases, List, [], ◌∷◌, none, some, length, dec_lt,
}
use aotopsy.Base.Go.{returned}
use aotopsy.Decompiler.Dom.{Succ, Table, assign, preds, new_idom, differs, pass, passes}
use aotopsy.Decompiler.Dom.Order.{occ, Edge}
use aotopsy.Decompiler.Dom.Preds.{preds-Edge, preds-only}
use aotopsy.Decompiler.Dom.Rank.{Numbered, Ranked}
use aotopsy.Decompiler.Dom.Detour.{Doms, Full, assign-Full, Chain-after, Chain-ago}
use aotopsy.Decompiler.Dom.Tree.{Chain, here, up, Chain-trans, Chain-num, Defined, new_idom-Joined}
use aotopsy.Decompiler.Dom.Passes.{
  Settled, DefinedTo, DefinedTo-next, Defined-assign, Tree-assign, shared, is_processed-Defined,
}
use mathlib.Core.Path.{subst}

-- An edge that does not go forward in the order goes to a block on every way to its source.
abbrev pub IsReducible : ℕ → (ℕ → List Succ) → (ℕ → ℕ) → Type 0
IsReducible n succs num =
    (p b : ℕ) → 0 < num p → Edge n succs p b → num b ≤ num p → Doms n succs b p

module _ (n : ℕ) (succs : ℕ → List Succ) (order : List ℕ) (num : ℕ → ℕ)
    (k : Ranked n succs order num) where
  -- The block that stands above all blocks with a forward edge to `b`, and the nearest such.
  abbrev Meets : Table → ℕ → ℕ → Type 0
  Meets idom b c =
      ((q : ℕ) → 0 < num q → Edge n succs q b → num q < num b → Chain idom q c)
      × ((z : ℕ)
          → ((q : ℕ) → 0 < num q → Edge n succs q b → num q < num b → Chain idom q z)
          → Chain idom c z)

  -- A table in the first pass, behind the number `i`.
  record First (i : ℕ) (idom : Table) : Type 0 where
    full : Full n succs num idom
    defined : DefinedTo n succs order num k idom i
    empty : (x : ℕ) → i < num x → x ≢ 0 → idom x ≡ none
    meets : (b c : ℕ) → b ≢ 0 → idom b ≡ some c → Meets idom b c

  First-entry : (b i : ℕ) (idom : Table) → b ≡ 0 → num b ≡ suc i → First i idom → First (suc i) idom
  First-entry b i idom at m f = record {
    full = f.full;
    defined =
        DefinedTo-next n succs order num k idom b i m
          (0, subst (λ x. idom x ≡ some 0) (sym at) f.full.tree.root) f.defined;
    empty = λ x l nx. f.empty x (omega (arith, l)) nx;
    meets = f.meets;
  }

  before_entry : (b i : ℕ) → b ≢ 0 → num b ≡ suc i → 1 ≤ i
  before_entry b i nb m = elim (Bool-cases (i == 0)) [
    | inl first ↦
        absurd
          (nb (k.unique b 0 (omega (arith, m)) (let e = k.entry in ground (arith, first, m, e))))
    | inr later ↦ ground (arith, later)
  ]

  -- In the first pass only blocks before the one at hand are processed.
  processed_before :
      (i q : ℕ) (idom : Table) → 1 ≤ i → First i idom → Defined idom q → (0 < num q) × (num q ≤ i)
  processed_before i q idom l f d = elim (Bool-cases (q == 0)) [
    | inl first ↦
        let at : 0 ≡ q = ground (arith, first) in
        subst (λ x. (0 < num x) × (num x ≤ i)) at (omega (arith, k.entry, l))
    | inr inner ↦
        let nq : q ≢ 0 = λ e. ground (arith, inner, e) in
        let pq = (f.full.tree.down q d.0 d.1 nq).0 in
        elim (dec_lt i (num q)) [
          | yes behind ↦ (let none_there = f.empty q behind nq in let e = d.1 in cc)
          | no h ↦ omega (arith, pq, h)
        ]
  ]

  -- What a block gets in the first pass is where its forward edges meet.
  First-Meets :
      (b i : ℕ) (idom : Table)
      → b ≢ 0
      → num b ≡ suc i
      → First i idom
      → (c : ℕ) → new_idom n succs num idom none (preds n succs b) ≡ returned (some c)
      → Meets idom b c
  First-Meets b i idom nb m f c e =
      let joined =
        new_idom-Joined n num succs idom f.full.tree k.entry k.unique k.bounded none
          (preds n succs b) (λ x q. cc) in
      let result : joined.0 ≡ some c = (let r = joined.1 in ground (arith, r, e)) in
      (
        λ q pq edge l.
            let d = f.defined q pq (omega (arith, l, m)) in
            let t = d.1 in
            let mine =
              joined.2.above q (preds-Edge n succs q b (k.block q pq) edge)
                (ground (arith, t, pq)) in
            let at = mine.1 in subst (λ x. Chain idom q x) (ground (arith, at, result)) mine.2.0,
        λ z all.
            joined.2.nearest z c result (λ a q. cc)
              λ q o h.
                let (pq, l) =
                  processed_before i q idom (before_entry b i nb m) f
                    (is_processed-Defined n succs order num k idom q h) in
                all q pq (preds-only n succs b q o) (omega (arith, l, m)),
      )

  Meets-after :
      (b c y d : ℕ) (idom : Table)
      → Full n succs num idom
      → b ≢ 0
      → num c < num b
      → num y ≤ num b
      → num d < num b
      → Meets idom y d
      → Meets (assign b (some c) idom) y d
  Meets-after b c y d idom f nb below l ld m = (
    λ q pq e lq.
        Chain-after n succs num k.entry idom f b c nb below (m.0 q pq e lq) (omega (arith, lq, l)),
    λ z all.
        Chain-after n succs num k.entry idom f b c nb below
          (m.1 z (λ q pq e lq.
            Chain-ago n succs num k.entry idom f b c nb below (all q pq e lq)
              (omega (arith, lq, l))))
          ld,
  )

  First-assign :
      (b i c : ℕ) (idom : Table)
      → b ≢ 0
      → num b ≡ suc i
      → First i idom
      → num c < num b
      → Full n succs num (assign b (some c) idom)
      → Meets idom b c
      → First (suc i) (assign b (some c) idom)
  First-assign b i c idom nb m f below full mine = record {
    full = full;
    defined =
        DefinedTo-next n succs order num k (assign b (some c) idom) b i m (c, ground arith)
          (λ x px le. Defined-assign n succs order num k idom b c x (f.defined x px le));
    empty = λ x l nx.
        let old = f.empty x (omega (arith, l)) nx in
        let other : (x == b) ≡ false = ground (arith, l, m) in ground (arith, other, old);
    meets = λ y d ny e. elim (Bool-cases (y == b)) [
      | inl same ↦
          let at : b ≡ y = ground (arith, same) in
          let to : c ≡ d = ground (arith, same, e) in
          subst (λ x. Meets (assign b (some c) idom) y x) to
            (subst (λ x. Meets (assign b (some c) idom) x c) at
              (Meets-after b c b c idom f.full nb below (omega arith) below mine))
      | inr other ↦
          let old : idom y ≡ some d = ground (arith, other, e) in
          let (py, ly) = processed_before i y idom (before_entry b i nb m) f (d, old) in
          let under = f.full.tree.down y d old ny in
          Meets-after b c y d idom f.full nb below (omega (arith, ly, m))
            (omega (arith, ly, m, under.2)) (f.meets y d ny old)
    ];
  }

  abbrev Firsts : ℕ → List ℕ → Table → Bool → Type 0
  Firsts i bs idom changed =
      (after : Table) × (flag : Bool) × (pass n succs num bs idom changed ≡ returned (after, flag))
      × First (i + length bs) after

  First-sum : (i j : ℕ) (idom : Table) → i ≡ j → First i idom → First j idom
  First-sum i j idom e f = subst (λ x. First x idom) e f

  pass-First :
      (bs : List ℕ) (i : ℕ) (idom : Table) (changed : Bool)
      → Numbered num i bs
      → First i idom
      → Firsts i bs idom changed
  unfolding pass
  pass-First [] i idom changed m f = (idom, changed, refl, First-sum i (i + 0) idom (omega arith) f)
  pass-First (b ∷ bs) i idom changed m f = elim (Bool-cases (b == 0)) [
    | inl entry ↦
        let rest =
          pass-First bs (suc i) idom changed m.1
            (First-entry b i idom (ground (arith, entry)) m.0 f) in
        (rest.0, rest.1, rw (entry, pass) rest.2, First-sum _ _ rest.0 (omega arith) rest.3)
    | inr inner ↦
        let nb : b ≢ 0 = λ e. ground (arith, inner, e) in
        let up =
          shared n succs order num k idom b f.full nb (omega (arith, m.0))
            (λ x px less. f.defined x px (omega (arith, less, m.0))) in
        let c = up.0 in
        let new : Table = assign b (some c) idom in
        let moved : differs n succs num (idom b) c ≡ true =
          (let old = f.empty b (omega (arith, m.0)) nb in ground (arith, old)) in
        let rest = pass-First bs (suc i) new true m.1 (
          First-assign b i c idom nb m.0 f up.3
            (assign-Full n succs num k.entry idom f.full b c nb up.3
              (Tree-assign n succs order num k idom b c f.full.tree nb up.2 up.3 up.4) up.5.0 up.5.1
              up.5.2 up.6)
            (First-Meets b i idom nb m.0 f c up.1)) in
        (
          rest.0,
          rest.1,
          rw (inner, up.1, moved, pass) rest.2,
          First-sum _ _ rest.0 (omega arith) rest.3,
        )
  ]

  Numbered-in : (i b : ℕ) (bs : List ℕ) → Numbered num i bs → 0 < occ b bs → 0 < num b
  Numbered-in i b [] m o = absurd (omega (arith, o))
  Numbered-in i b (c ∷ bs) m o = elim (Bool-cases (c == b)) [
    | inl same ↦
        let at : c ≡ b = ground (arith, same) in subst (λ x. 0 < num x) at (omega (arith, m.0))
    | inr other ↦ Numbered-in (suc i) b bs m.1 (ground (arith, o, other))
  ]

  processed_num : (q : ℕ) (idom : Table) → Full n succs num idom → Defined idom q → 0 < num q
  processed_num q idom f d = elim (Bool-cases (q == 0)) [
    | inl first ↦
        let at : 0 ≡ q = ground (arith, first) in subst (λ x. 0 < num x) at (omega (arith, k.entry))
    | inr inner ↦ (f.tree.down q d.0 d.1 (λ e. ground (arith, inner, e))).0
  ]

  -- The first pass leaves each block of a reducible function at what its predecessors share.
  First-Settled :
      (idom : Table)
      → IsReducible n succs num
      → First (length order) idom
      → Settled n succs order num k idom order
  First-Settled idom red f b o nb =
      let pb = Numbered-in 0 b order k.numbered o in
      let (c, old) = f.defined b pb (k.counted b) in
      let next =
        shared n succs order num k idom b f.full nb pb
          (λ x px less. f.defined x px (k.counted x)) in
      let joined =
        new_idom-Joined n num succs idom f.full.tree k.entry k.unique k.bounded none
          (preds n succs b) (λ x q. cc) in
      let result : joined.0 ≡ some next.0 =
        (let r = joined.1 in let e = next.1 in ground (arith, r, e)) in
      let mine = f.meets b c nb old in
      let above_new : Chain idom next.0 c =
        joined.2.nearest c next.0 result (λ a q. cc)
          λ q oq h.
            let d = is_processed-Defined n succs order num k idom q h in
            let edge = preds-only n succs b q oq in
            let pq = (processed_num q idom f.full d) in
            elim (dec_lt (num q) (num b)) [
              | yes forward ↦ mine.0 q pq edge forward
              | no back ↦
                  Chain-trans (f.full.complete q b d (red q b pq edge (omega (arith, back))))
                    (up old here)
            ] in
      let above_old : Chain idom c next.0 = mine.1 next.0 (λ q pq edge l.
        let (d, t) = f.defined q pq (k.counted q) in
        let there =
          joined.2.above q (preds-Edge n succs q b (k.block q pq) edge) (ground (arith, t, pq)) in
        let at = there.1 in subst (λ x. Chain idom q x) (ground (arith, at, result)) there.2.0) in
      let same : next.0 ≡ c = k.unique next.0 c next.2 (
        omega (
          arith,
          Chain-num n num succs idom f.full.tree k.entry above_new,
          Chain-num n num succs idom f.full.tree k.entry above_old,
        )) in
      (c, next.1 ∙ ap (λ (x : ℕ). returned (some x)) same, old)

  -- A pass over a settled table changes nothing.
  pass-Settled :
      (bs : List ℕ) (idom : Table)
      → Settled n succs order num k idom bs
      → pass n succs num bs idom false ≡ returned (idom, false)
  unfolding pass
  pass-Settled [] idom s = refl
  pass-Settled (b ∷ bs) idom s =
      let rest = pass-Settled bs idom (λ x o nx. s x (omega (arith, o)) nx) in
      elim (Bool-cases (b == 0)) [
        | inl entry ↦ rw (entry, pass) rest
        | inr inner ↦
            let (c, e, old) = s b (ground arith) (λ z. ground (arith, inner, z)) in
            let still : differs n succs num (idom b) c ≡ false = ground (arith, old) in
            rw (inner, e, still, pass) rest
      ]

  -- Two passes settle a reducible function.
  pub passes_two :
      (idom : Table)
      → IsReducible n succs num
      → Full n succs num idom
      → ((x : ℕ) → x ≢ 0 → idom x ≡ none)
      → (after : Table) × (passes n succs num 2 order idom ≡ returned after)
  unfolding passes
  passes_two idom red full empty =
      let start : First 0 idom = record {
        full = full;
        defined = λ x px le. absurd (omega (arith, px, le));
        empty = λ x l nx. empty x nx;
        meets = λ b c nb e. (let q = empty b nb in cc);
      } in
      let (after, flag, e, f) = pass-First order 0 idom false k.numbered start in
      let settled =
        First-Settled after red
          (First-sum (0 + length order) (length order) after (omega arith) f) in
      elim (Bool-cases flag) [
        | inr still ↦ (after, rw (e, still, passes) refl)
        | inl moved ↦ (after, rw (e, moved, pass-Settled order after settled, passes) refl)
      ]
