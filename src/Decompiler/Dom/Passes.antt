-- ===== src/Decompiler/Dom/Passes.antt =====
-- A pass over the order keeps a table that goes down, and one that changes nothing leaves each
-- block at what its predecessors share.
use aotopsy.Base.{
  ℕ, zero, suc, ◌+◌, ◌≤◌, ◌<◌, ◌≡◌, ◌≢◌, ◌⊎◌, inl, inr, refl, sym, ap, ◌∙◌, arith, Bool, true,
  false, ◌==◌, Bool-cases, Option-cases, List, [], ◌∷◌, Option, none, some, length,
}
use aotopsy.Base.Go.{returned, unfinished}
use aotopsy.Decompiler.Dom.{
  Succ, Table, assign, preds, new_idom, is_processed, differs, pass, passes,
}
use aotopsy.Decompiler.Dom.Order.{occ, Edge}
use aotopsy.Decompiler.Dom.Preds.{preds-Edge, preds-only}
use aotopsy.Decompiler.Dom.Rank.{Numbered, Ranked}
use aotopsy.Decompiler.Dom.Detour.{Doms, Doms-before, Full, assign-Full}
use aotopsy.Decompiler.Dom.Tree.{Chain, Defined, Tree, new_idom-Joined}
use mathlib.Core.Path.{subst}

module _ (n : ℕ) (succs : ℕ → List Succ) where
  module _ (order : List ℕ) (num : ℕ → ℕ) (k : Ranked n succs order num) where
    -- What a pass finds at each block that it leaves alone.
    abbrev pub Settled : Table → List ℕ → Type 0
    Settled idom bs =
        (b : ℕ)
        → 0 < occ b bs
        → b ≢ 0
        → (c : ℕ) × (new_idom n succs num idom none (preds n succs b) ≡ returned (some c))
          × (idom b ≡ some c)

    abbrev pub DefinedTo : Table → ℕ → Type 0
    DefinedTo idom i = (x : ℕ) → 0 < num x → num x ≤ i → Defined idom x

    pub Defined-assign :
        (idom : Table) (b c x : ℕ) → Defined idom x → Defined (assign b (some c) idom) x
    Defined-assign idom b c x d = elim (Bool-cases (x == b)) [
      | inl same ↦ (c, ground (arith, same))
      | inr other ↦ (d.0, ground (arith, other, d.1))
    ]

    pub Tree-assign :
        (idom : Table) (b c : ℕ)
        → Tree n num idom
        → b ≢ 0
        → 0 < num c
        → num c < num b
        → Defined idom c
        → Tree n num (assign b (some c) idom)
    Tree-assign idom b c t nb pc below d = record {
      root = ground (arith, nb, t.root);
      down = λ x y e nx. elim (Bool-cases (x == b)) [
        | inl same ↦
            let at : x ≡ b = ground (arith, same) in
            let to : c ≡ y = ground (arith, same, e) in
            let less : num c < num x = rw at below in
            subst
              (λ z.
                (0 < num x) × (0 < num z) × (num z < num x) × Defined (assign b (some c) idom) z)
              to (omega (arith, less), pc, less, Defined-assign idom b c c d)
        | inr other ↦
            let old = t.down x y (ground (arith, other, e)) nx in
            (old.0, old.1, old.2, Defined-assign idom b c y old.3)
      ];
    }

    pub is_processed-Defined :
        (idom : Table) (q : ℕ) → is_processed n succs num idom q ≡ true → Defined idom q
    is_processed-Defined idom q h = elim (Option-cases (idom q)) [
      | inl e ↦ absurd (ground (arith, h, e))
      | inr d ↦ d
    ]

    -- What the predecessors of a block share, where those before it are processed.
    pub shared :
        (idom : Table) (b : ℕ)
        → Full n succs num idom
        → b ≢ 0
        → 0 < num b
        → ((x : ℕ) → 0 < num x → num x < num b → Defined idom x)
        → (c : ℕ) × (new_idom n succs num idom none (preds n succs b) ≡ returned (some c))
          × (0 < num c)
          × (num c < num b)
          × Defined idom c
          × ((p : ℕ) × Edge n succs p b × Chain idom p c)
          × ((z : ℕ) → Doms n succs z b → z ≢ b → Chain idom c z)
    shared idom b t nb pb known =
        let (p, e, pp, less) = k.parent b pb nb in
        let joined =
          new_idom-Joined n num succs idom t.tree k.entry k.unique k.bounded none (preds n succs b)
            (λ c q. cc) in
        let (up, there) = known p pp less in
        let mine =
          joined.2.above p (preds-Edge n succs p b (k.block p pp) e) (ground (arith, there, pp)) in
        (
          mine.0,
          joined.1 ∙ ap (λ (x : Option ℕ). returned x) mine.1,
          mine.2.2,
          omega (arith, mine.2.1, less),
          mine.2.3,
          (p, e, mine.2.0),
          λ z d nz.
              joined.2.nearest z mine.0 mine.1 (λ a q. cc)
                λ q o h.
                  t.complete q z (is_processed-Defined idom q h)
                    (Doms-before n succs z q b d nz (preds-only n succs b q o)),
        )

    -- What a pass does to a table.
    record Passed (bs : List ℕ) (i : ℕ) (idom : Table) (changed : Bool) (after : Table)
        (flag : Bool) : Type 0 where
      full : Full n succs num after
      defined : DefinedTo after (i + length bs)
      kept : flag ≡ false → (changed ≡ false) × (after ≡ idom) × Settled idom bs

    abbrev Passes : List ℕ → ℕ → Table → Bool → Type 0
    Passes bs i idom changed =
        (after : Table) × (flag : Bool) × (pass n succs num bs idom changed
          ≡ returned (after, flag))
        × Passed bs i idom changed after flag

    pub DefinedTo-next :
        (idom : Table) (b i : ℕ)
        → num b ≡ suc i
        → Defined idom b
        → DefinedTo idom i
        → DefinedTo idom (suc i)
    DefinedTo-next idom b i at d old x px le = elim (Bool-cases (num x == suc i)) [
      | inl same ↦ let one : x ≡ b = k.unique x b px (ground (arith, same, at)) in rw one d
      | inr other ↦ old x px (ground (arith, le, other))
    ]

    Settled-cons :
        (idom : Table) (b : ℕ) (bs : List ℕ)
        → (b ≢ 0
            → (c : ℕ) × (new_idom n succs num idom none (preds n succs b) ≡ returned (some c))
              × (idom b ≡ some c))
        → Settled idom bs
        → Settled idom (b ∷ bs)
    Settled-cons idom b bs one rest x o nx = elim (Bool-cases (b == x)) [
      | inl same ↦
          let at : b ≡ x = ground (arith, same) in
          subst
            (λ z.
              (c : ℕ) × (new_idom n succs num idom none (preds n succs z) ≡ returned (some c))
              × (idom z ≡ some c))
            at (one (λ e. nx (sym at ∙ e)))
      | inr other ↦ rest x (ground (arith, o, other)) nx
    ]

    same_entry : (old : Option ℕ) (c : ℕ) → differs n succs num old c ≡ false → old ≡ some c
    same_entry none c h = cc
    same_entry (some x) c h = ground (arith, h)

    pass-Passes :
        (bs : List ℕ) (i : ℕ) (idom : Table) (changed : Bool)
        → Numbered num i bs
        → Full n succs num idom
        → DefinedTo idom i
        → Passes bs i idom changed
    unfolding pass
    pass-Passes [] i idom changed m t d = (
      idom,
      changed,
      refl,
      record {
        full = t;
        defined = λ x px le. d x px (omega (arith, le));
        kept = λ e. (e, refl, λ b o nb. absurd (omega (arith, o)));
      },
    )
    pass-Passes (b ∷ bs) i idom changed m t d = elim (Bool-cases (b == 0)) [
      | inl entry ↦
          let at : 0 ≡ b = ground (arith, entry) in
          let root : Defined idom b = (0, subst (λ x. idom x ≡ some 0) at t.tree.root) in
          let rest =
            pass-Passes bs (suc i) idom changed m.1 t (DefinedTo-next idom b i m.0 root d) in
          (
            rest.0,
            rest.1,
            rw (entry, pass) rest.2,
            record {
              full = rest.3.full;
              defined = λ x px le. rest.3.defined x px (omega (arith, le));
              kept = λ e.
                  let (c, same, s) = rest.3.kept e in
                  (c, same, Settled-cons idom b bs (λ nb. absurd (nb (sym at))) s);
            },
          )
      | inr inner ↦
          let nb : b ≢ 0 = λ e. ground (arith, inner, e) in
          let up =
            shared idom b t nb (omega (arith, m.0))
              (λ x px less. d x px (omega (arith, less, m.0))) in
          let c = up.0 in
          elim (Bool-cases (differs n succs num (idom b) c)) [
            | inr same ↦
                let old : idom b ≡ some c = same_entry (idom b) c same in
                let rest =
                  pass-Passes bs (suc i) idom changed m.1 t
                    (DefinedTo-next idom b i m.0 (c, old) d) in
                (
                  rest.0,
                  rest.1,
                  rw (inner, up.1, same, pass) rest.2,
                  record {
                    full = rest.3.full;
                    defined = λ x px le. rest.3.defined x px (omega (arith, le));
                    kept = λ e.
                        let (f, eq, s) = rest.3.kept e in
                        (f, eq, Settled-cons idom b bs (λ q. (c, up.1, old)) s);
                  },
                )
            | inl moved ↦
                let new : Table = assign b (some c) idom in
                let rest =
                  pass-Passes bs (suc i) new true m.1
                    (assign-Full n succs num k.entry idom t b c nb up.3
                      (Tree-assign idom b c t.tree nb up.2 up.3 up.4) up.5.0 up.5.1 up.5.2 up.6)
                    (DefinedTo-next new b i m.0 (c, ground arith)
                      (λ x px le. Defined-assign idom b c x (d x px le))) in
                (
                  rest.0,
                  rest.1,
                  rw (inner, up.1, moved, pass) rest.2,
                  record {
                    full = rest.3.full;
                    defined = λ x px le. rest.3.defined x px (omega (arith, le));
                    kept = λ e. let q = (rest.3.kept e).0 in cc;
                  },
                )
          ]
    ]

    -- A table that goes down, covers the order and is settled on it.
    pub record Solved (idom : Table) : Type 0 where
      pub full : Full n succs num idom
      pub covers : (b : ℕ) → 0 < num b → Defined idom b
      pub settled : Settled idom order

    pub passes-Solved :
        (fuel : ℕ) (idom : Table)
        → Full n succs num idom
        → (passes n succs num fuel order idom ≡ unfinished)
          ⊎ ((after : Table) × (passes n succs num fuel order idom ≡ returned after) × Solved after)
    unfolding passes
    passes-Solved zero idom t = inl refl
    passes-Solved (suc fuel) idom t =
        let (after, flag, e, p) =
          pass-Passes order 0 idom false k.numbered t (λ x px le. absurd (omega (arith, px, le))) in
        elim (Bool-cases flag) [
          | inr still ↦
              let (_, same, s) = p.kept still in
              inr (
                after,
                rw (e, still, passes) refl,
                record {
                  full = p.full;
                  covers = λ b pb. p.defined b pb (omega (arith, k.counted b));
                  settled = subst (λ x. Settled x order) (sym same) s;
                },
              )
          | inl moved ↦ elim (passes-Solved fuel after p.full) [
            | inl out ↦ inl (rw (e, moved, passes) out)
            | inr (last, q, s) ↦ inr (last, rw (e, moved, passes) q, s)
          ]
        ]
