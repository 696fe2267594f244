-- ===== src/Disasm/Fixpoint/Visit.antt =====
-- What a visit keeps: blocks that are not in the worklist satisfy their equations.
use aotopsy.Base.{
  ℕ, zero, suc, ◌<◌, ◌≡◌, if◌then◌else◌, inl, inr, refl, sym, ◌∙◌, arith, true, false, ◌==◌, ==_iff,
  Bool-cases, List, [], ◌∷◌, get_or,
}
use aotopsy.Disasm.Lvalue.{Lvalue, lv_top, same_lvalue, same_lvalue_sound, meet_lvalue}
use aotopsy.Disasm.Partition.{Succ, Marks}
use aotopsy.Disasm.Fixpoint.{
  ProvBlockEffect, Regs, States, out_of, same_regs, Fixpoint, meet_over, join_in, preds,
  start_state, visit,
}
use aotopsy.Disasm.Fixpoint.Queue.{
  IsQueued, preds-edge, enqueue-keeps, enqueue-marks, enqueue-IsQueued, all_blocks-member,
}
use mathlib.Core.List.{Memᴰ}
use mathlib.Core.List.Memᴰ

same_regs_sound : (k : ℕ) (x y : Regs) (r : ℕ) → same_regs k x y ≡ true → r < k → x r ≡ y r
unfolding same_regs
same_regs_sound zero x y r e h = absurd (omega (arith, h))
same_regs_sound (suc k) x y r e h = elim (Bool-cases (same_lvalue (x k) (y k))) [
  | inl p ↦ elim (Bool-cases (r == k)) [
    | inl q ↦ rw ((==_iff r k).0 q) (same_lvalue_sound (x k) (y k) p)
    | inr q ↦ same_regs_sound k x y r (rw p at e) (ground (arith, q))
  ]
  | inr p ↦ let clash : false ≡ true = rw p at e in cc
]

-- The meet depends on the predecessors' states alone.
meet_over-cong :
    (x y : States) (ps : List ℕ) (acc : Lvalue) (r : ℕ)
    → ((p : ℕ) → Memᴰ p ps → x p r ≡ y p r)
    → meet_over x acc ps r ≡ meet_over y acc ps r
unfolding meet_over
meet_over-cong x y [] acc r h = refl
meet_over-cong x y (p ∷ ps) acc r h =
    rw (h p (Memᴰ.head refl))
      (meet_over-cong x y ps (meet_lvalue acc (y p r)) r (λ q m. h q (Memᴰ.tail m)))

join_in-cong :
    (x y : States) (b : ℕ) (ps : List ℕ) (r : ℕ)
    → ((p : ℕ) → Memᴰ p ps → x p r ≡ y p r)
    → join_in x b ps r ≡ join_in y b ps r
unfolding join_in
join_in-cong x y zero ps r h = refl
join_in-cong x y (suc b) [] r h = refl
join_in-cong x y (suc b) (p ∷ ps) r h = meet_over-cong x y (p ∷ ps) lv_top r h

out_of-cong :
    (eff : ProvBlockEffect) (x y : Regs) (r : ℕ) → x r ≡ y r → out_of eff x r ≡ out_of eff y r
out_of-cong eff x y r h = elim (Bool-cases (get_or eff.touched r false)) [
  | inl p ↦ rw p refl
  | inr p ↦ rw p h
]

module _ (n nregs : ℕ) (succs : ℕ → List Succ) (effects : ℕ → ProvBlockEffect) where
  -- The equations of a block.
  abbrev pub Solves : States → States → ℕ → Type 0
  Solves entries exits b =
      (r : ℕ)
      → r < nregs
      → (entries b r ≡ join_in exits b (preds n nregs succs effects n b) r)
        × (exits b r ≡ out_of (effects b) (entries b) r)

  pub record IsConsistent (st : Fixpoint) : Type 0 where
    pub queued : IsQueued st.worklist st.in_worklist
    pub solved : (b : ℕ) → b < n → st.in_worklist b ≡ false → Solves st.entry_state st.exit_state b

  pub start_state-IsConsistent : IsConsistent (start_state n nregs succs effects)
  unfolding start_state
  start_state-IsConsistent = record {
    queued = λ b e. all_blocks-member n b (ground (arith, e));
    solved = λ b h e. absurd (ground (arith, h, e));
  }

  module _ (st : Fixpoint) (id : ℕ) (rest : List ℕ) where
    abbrev inn : Regs
    inn = join_in st.exit_state id (preds n nregs succs effects n id)

    abbrev out : Regs
    out = out_of (effects id) inn

    abbrev popped : Marks
    popped b = if b == id then false else st.in_worklist b

    abbrev next : Fixpoint
    next = visit n nregs succs effects id rest st

    -- Where the state behind a block moved, its successors are queued.
    visit-queues :
        (b : ℕ)
        → b < n
        → Memᴰ id (preds n nregs succs effects n b)
        → same_regs nregs out (st.exit_state id) ≡ false
        → next.in_worklist b ≡ true
    unfolding visit
    visit-queues b h m e = elim (Bool-cases (same_regs nregs inn (st.entry_state id))) [
      | inl p ↦
          rw (e, p)
            (enqueue-marks n (succs id) rest popped b h
              (preds-edge n nregs succs effects n b id m).1)
      | inr p ↦
          rw (e, p)
            (enqueue-marks n (succs id) rest popped b h
              (preds-edge n nregs succs effects n b id m).1)
    ]

    visit-exit :
        (b p r : ℕ)
        → b < n
        → r < nregs
        → next.in_worklist b ≡ false
        → Memᴰ p (preds n nregs succs effects n b)
        → next.exit_state p r ≡ st.exit_state p r
    unfolding visit
    visit-exit b p r h l q m = elim (Bool-cases (same_regs nregs out (st.exit_state id))) [
      | inl x ↦ rw x refl
      | inr x ↦ elim (Bool-cases (p == id)) [
        | inl y ↦
            let here : Memᴰ id (preds n nregs succs effects n b) = rw ((==_iff p id).0 y) at m in
            let clash : true ≡ false = sym (visit-queues b h here x) ∙ q in cc
        | inr y ↦ rw (x, y) refl
      ]
    ]

    visit-kept : (b : ℕ) → next.in_worklist b ≡ false → popped b ≡ false
    unfolding visit
    visit-kept b q = elim (Bool-cases (popped b)) [
      | inr y ↦ y
      | inl y ↦ elim (Bool-cases (same_regs nregs out (st.exit_state id))) [
        | inr x ↦ elim (Bool-cases (same_regs nregs inn (st.entry_state id))) [
          | inl z ↦
              let clash : true ≡ false =
                sym (enqueue-keeps n (succs id) rest popped b y) ∙ (rw (x, z) at q) in
              cc
          | inr z ↦
              let clash : true ≡ false =
                sym (enqueue-keeps n (succs id) rest popped b y) ∙ (rw (x, z) at q) in
              cc
        ]
        | inl x ↦ elim (Bool-cases (same_regs nregs inn (st.entry_state id))) [
          | inl z ↦ rw (x, z) at q
          | inr z ↦
              let clash : true ≡ false =
                sym (enqueue-keeps n (succs id) rest popped b y) ∙ (rw (x, z) at q) in
              cc
        ]
      ]
    ]

    popped-IsQueued : IsQueued (id ∷ rest) st.in_worklist → IsQueued rest popped
    popped-IsQueued h b e = elim (Bool-cases (b == id)) [
      | inl q ↦ let clash : false ≡ true = rw q at e in cc
      | inr q ↦ elim (Memᴰ.cases_cons (h b (rw q at e))) [
        | inl same ↦ absurd (ground (arith, same, q))
        | inr m ↦ m
      ]
    ]

    visit-IsQueued : IsQueued (id ∷ rest) st.in_worklist → IsQueued next.worklist next.in_worklist
    unfolding visit
    visit-IsQueued h = elim (Bool-cases (same_regs nregs out (st.exit_state id))) [
      | inr x ↦ elim (Bool-cases (same_regs nregs inn (st.entry_state id))) [
        | inl z ↦ rw (x, z) (enqueue-IsQueued n (succs id) rest popped (popped-IsQueued h))
        | inr z ↦ rw (x, z) (enqueue-IsQueued n (succs id) rest popped (popped-IsQueued h))
      ]
      | inl x ↦ elim (Bool-cases (same_regs nregs inn (st.entry_state id))) [
        | inl z ↦ rw (x, z) (popped-IsQueued h)
        | inr z ↦ rw (x, z) (enqueue-IsQueued n (succs id) rest popped (popped-IsQueued h))
      ]
    ]

    visit-entry_self : (r : ℕ) → next.entry_state id r ≡ inn r
    unfolding visit
    visit-entry_self r = rw ((==_iff id id).1 refl) refl

    visit-exit_self : (r : ℕ) → r < nregs → next.exit_state id r ≡ out r
    unfolding visit
    visit-exit_self r l = elim (Bool-cases (same_regs nregs out (st.exit_state id))) [
      | inl x ↦ rw x (sym (same_regs_sound nregs out (st.exit_state id) r x l))
      | inr x ↦ rw (x, (==_iff id id).1 refl) refl
    ]

    visit-entry_other : (b r : ℕ) → (b == id) ≡ false → next.entry_state b r ≡ st.entry_state b r
    unfolding visit
    visit-entry_other b r q = rw q refl

    visit-exit_other : (b r : ℕ) → (b == id) ≡ false → next.exit_state b r ≡ st.exit_state b r
    unfolding visit
    visit-exit_other b r q = elim (Bool-cases (same_regs nregs out (st.exit_state id))) [
      | inl x ↦ rw x refl
      | inr x ↦ rw (x, q) refl
    ]

    visit-join_in :
        (b r : ℕ)
        → b < n
        → r < nregs
        → next.in_worklist b ≡ false
        → join_in next.exit_state b (preds n nregs succs effects n b) r
          ≡ join_in st.exit_state b (preds n nregs succs effects n b) r
    visit-join_in b r h l q =
        join_in-cong next.exit_state st.exit_state b (preds n nregs succs effects n b) r
          (λ p m. visit-exit b p r h l q m)

    visit-Solves :
        ((b : ℕ) → b < n → st.in_worklist b ≡ false → Solves st.entry_state st.exit_state b)
        → (b : ℕ) → b < n
        → next.in_worklist b ≡ false
        → Solves next.entry_state next.exit_state b
    visit-Solves old b h q r l = elim (Bool-cases (b == id)) [
      | inl y ↦
          let same : b ≡ id = (==_iff b id).0 y in
          let joined = rw same at (visit-join_in b r h l q) in
          rw same (
            visit-entry_self r ∙ sym joined,
            visit-exit_self r l
                ∙ out_of-cong (effects id) inn (next.entry_state id) r (sym (visit-entry_self r)),
          )
      | inr y ↦
          let (e, x) = old b h (rw y at (visit-kept b q)) r l in
          (
            visit-entry_other b r y ∙ e ∙ sym (visit-join_in b r h l q),
            visit-exit_other b r y
                ∙ x
                ∙ out_of-cong (effects b) (st.entry_state b) (next.entry_state b) r
                    (sym (visit-entry_other b r y)),
          )
    ]

    pub visit-IsConsistent : st.worklist ≡ id ∷ rest → IsConsistent st → IsConsistent next
    visit-IsConsistent e c = record {
      queued = visit-IsQueued (rw e at c.queued);
      solved = visit-Solves c.solved;
    }
