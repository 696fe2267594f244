-- ===== src/Disasm/Fixpoint/Paths.antt =====
-- The claims of the analysis against the runs of the function.
use aotopsy.Base.{
  ℕ, zero, suc, ◌<◌, ◌≡◌, ◌≢◌, inl, inr, refl, sym, ◌∙◌, true, false, Bool-cases, List, [], ◌∷◌,
  get_or,
}
use aotopsy.Disasm.Lvalue.{
  Lvalue, lv_top, lv_known, lv_bottom, meet_lvalue, Allows, Allows-trans, meet_lvalue-left,
  meet_lvalue-right,
}
use aotopsy.Disasm.Partition.{Succ}
use aotopsy.Disasm.Fixpoint.{
  ProvBlockEffect, Regs, States, out_of, meet_over, join_in, preds, run_prov_fixpoint,
}
use aotopsy.Disasm.Fixpoint.Queue.{edge-preds}
use aotopsy.Disasm.Fixpoint.Equations.{run_prov_fixpoint-Solves}
use mathlib.Core.List.{Memᴰ}
use mathlib.Core.List.Memᴰ

-- What a path carries: nothing is known at the entry, each block has its effect, and control goes
-- to one of its successors within the function.
pub data Arrives (n : ℕ) (succs : ℕ → List Succ) (effects : ℕ → ProvBlockEffect)
    : ℕ → Regs → Type 0 where
  enter : Arrives n succs effects 0 (λ r. lv_bottom)
  follow :
      {b : ℕ} {regs : Regs} (s : Succ)
      → Arrives n succs effects b regs
      → Memᴰ s (succs b)
      → s.block_id < n
      → Arrives n succs effects s.block_id (out_of (effects b) regs)

meet_over-acc :
    (exits : States) (ps : List ℕ) (acc : Lvalue) (r : ℕ) → Allows (meet_over exits acc ps r) acc
unfolding meet_over
meet_over-acc exits [] acc r = inr (inr refl)
meet_over-acc exits (p ∷ ps) acc r =
    Allows-trans (meet_over exits (meet_lvalue acc (exits p r)) ps r) (meet_lvalue acc (exits p r))
      acc (meet_over-acc exits ps (meet_lvalue acc (exits p r)) r)
      (meet_lvalue-left acc (exits p r))

meet_over-member :
    (exits : States) (ps : List ℕ) (acc : Lvalue) (p r : ℕ)
    → Memᴰ p ps
    → Allows (meet_over exits acc ps r) (exits p r)
unfolding meet_over
meet_over-member exits [] acc p r m = absurd (Memᴰ.not-nil m)
meet_over-member exits (q ∷ ps) acc p r m = elim (Memᴰ.cases_cons m) [
  | inl same ↦ rw same (
      Allows-trans (meet_over exits (meet_lvalue acc (exits q r)) ps r)
        (meet_lvalue acc (exits q r)) (exits q r)
        (meet_over-acc exits ps (meet_lvalue acc (exits q r)) r)
        (meet_lvalue-right acc (exits q r)))
  | inr rest ↦ meet_over-member exits ps (meet_lvalue acc (exits q r)) p r rest
]

join_in-first : (exits : States) (ps : List ℕ) (r : ℕ) → join_in exits 0 ps r ≡ lv_bottom
unfolding join_in
join_in-first exits ps r = refl

join_in-member :
    (exits : States) (b : ℕ) (ps : List ℕ) (p r : ℕ)
    → Memᴰ p ps
    → Allows (join_in exits b ps r) (exits p r)
unfolding join_in
join_in-member exits zero ps p r m = inl refl
join_in-member exits (suc b) [] p r m = absurd (Memᴰ.not-nil m)
join_in-member exits (suc b) (q ∷ ps) p r m = meet_over-member exits (q ∷ ps) lv_top p r m

out_of-Allows :
    (eff : ProvBlockEffect) (x y : Regs) (r : ℕ)
    → Allows (x r) (y r)
    → Allows (out_of eff x r) (out_of eff y r)
out_of-Allows eff x y r h = elim (Bool-cases (get_or eff.touched r false)) [
  | inl p ↦ rw p (inr (inr refl))
  | inr p ↦ rw p h
]

module _ (n nregs : ℕ) (succs : ℕ → List Succ) (effects : ℕ → ProvBlockEffect) where
  Arrives-below : (b : ℕ) (regs : Regs) → Arrives n succs effects b regs → 0 < n → b < n
  Arrives-below b regs enter h = h
  Arrives-below b regs (follow s path m l) h = l

  -- What the analysis says of a register at the start of a block is allowed by every path.
  entries-Allows :
      (b : ℕ) (regs : Regs) (r : ℕ)
      → Arrives n succs effects b regs
      → (run_prov_fixpoint n nregs succs effects).worklist ≡ []
      → 0 < n
      → r < nregs
      → Allows ((run_prov_fixpoint n nregs succs effects).entry_state b r) (regs r)
  entries-Allows b regs r enter e h l = inl (
      (run_prov_fixpoint-Solves n nregs succs effects 0 e h r l).0
      ∙ join_in-first (run_prov_fixpoint n nregs succs effects).exit_state
          (preds n nregs succs effects n 0) r)
  entries-Allows b regs r (follow {b = p} {regs = before} s path m k) e h l =
      let below = Arrives-below p before path h in
      let st = run_prov_fixpoint n nregs succs effects in
      let exit = (run_prov_fixpoint-Solves n nregs succs effects p e below r l).1 in
      let entry = (run_prov_fixpoint-Solves n nregs succs effects s.block_id e k r l).0 in
      let met =
        join_in-member st.exit_state s.block_id (preds n nregs succs effects n s.block_id) p r
          (edge-preds n nregs succs effects n s.block_id p below (s, m, refl)) in
      Allows-trans (st.entry_state s.block_id r) (st.exit_state p r) (out_of (effects p) before r)
        (rw entry met)
        (rw exit (
          out_of-Allows (effects p) (st.entry_state p) before r
            (entries-Allows p before r path e h l)))

  -- A block makes something of every register that it touches.
  abbrev pub IsDecided : Type 0
  IsDecided =
      (b r : ℕ)
      → get_or (effects b).touched r false ≡ true
      → get_or (effects b).final r lv_top ≢ lv_top

  Arrives-decided :
      (b : ℕ) (regs : Regs) (r : ℕ) → Arrives n succs effects b regs → IsDecided → regs r ≢ lv_top
  Arrives-decided b regs r enter d e = let clash : lv_bottom ≡ lv_top = e in cc
  Arrives-decided b regs r (follow {b = p} {regs = before} s path m k) d e =
      elim (Bool-cases (get_or (effects p).touched r false)) [
        | inl q ↦ d p r q (rw q at e)
        | inr q ↦ Arrives-decided p before r path d (rw q at e)
      ]

  -- Where the worklist of runProvFixpoint runs empty within the visits allowed, and every block
  -- leaves a register that it touches known or bottom: what the result says is known of a register
  -- at the start of a block is what the register holds on every path from the entry to the block.
  pub run_prov_fixpoint-known :
      (b : ℕ) (regs : Regs) (r : ℕ) (note : List ℕ)
      → (run_prov_fixpoint n nregs succs effects).worklist ≡ []
      → IsDecided
      → 0 < n
      → r < nregs
      → Arrives n succs effects b regs
      → (run_prov_fixpoint n nregs succs effects).entry_state b r ≡ lv_known note
      → regs r ≡ lv_known note
  run_prov_fixpoint-known b regs r note e d h l path known =
      elim (entries-Allows b regs r path e h l) [
        | inl none_known ↦ let clash : lv_known note ≡ lv_bottom = sym known ∙ none_known in cc
        | inr (inl top) ↦ absurd (Arrives-decided b regs r path d top)
        | inr (inr same) ↦ sym same ∙ known
      ]
