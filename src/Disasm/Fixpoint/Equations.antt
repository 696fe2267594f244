-- ===== src/Disasm/Fixpoint/Equations.antt =====
-- Where the worklist of runProvFixpoint is empty, its states satisfy the equations.
use aotopsy.Base.{ℕ, zero, suc, ◌<◌, ◌≡◌, inl, inr, Bool-cases, List, [], List-cases}
use aotopsy.Disasm.Partition.{Succ}
use aotopsy.Disasm.Fixpoint.{
  ProvBlockEffect, Fixpoint, start_state, visit, visits_loop, run_prov_fixpoint, max_visits,
}
use mathlib.Core.List.Memᴰ
use aotopsy.Disasm.Fixpoint.Visit.{
  Solves, IsConsistent, start_state-IsConsistent, visit-IsConsistent,
}

module _ (n nregs : ℕ) (succs : ℕ → List Succ) (effects : ℕ → ProvBlockEffect) where
  visits_loop-IsConsistent :
      (visits : ℕ) (st : Fixpoint)
      → IsConsistent n nregs succs effects st
      → IsConsistent n nregs succs effects (visits_loop n nregs succs effects visits st)
  unfolding visits_loop
  visits_loop-IsConsistent zero st c = c
  visits_loop-IsConsistent (suc visits) st c = elim (List-cases st.worklist) [
    | inl e ↦
        let stays : visits_loop n nregs succs effects (suc visits) st ≡ st =
          simp (e, visits_loop) in
        rw stays c
    | inr (id, rest, e) ↦ rw e (
        visits_loop-IsConsistent visits (visit n nregs succs effects id rest st)
          (visit-IsConsistent n nregs succs effects st id rest e c))
  ]

  -- Where the worklist has run empty within the visits allowed, the state before and behind every
  -- block is what the equations of the analysis say.
  pub run_prov_fixpoint-Solves :
      (b : ℕ)
      → (run_prov_fixpoint n nregs succs effects).worklist ≡ []
      → b < n
      → Solves n nregs succs effects
          (run_prov_fixpoint n nregs succs effects).entry_state
          (run_prov_fixpoint n nregs succs effects).exit_state
          b
  unfolding run_prov_fixpoint
  run_prov_fixpoint-Solves b e h =
      let c =
        visits_loop-IsConsistent (max_visits n nregs succs effects)
          (start_state n nregs succs effects) (start_state-IsConsistent n nregs succs effects) in
      elim (Bool-cases ((run_prov_fixpoint n nregs succs effects).in_worklist b)) [
        | inl q ↦ absurd (Memᴰ.not-nil (rw e at (c.queued b q)))
        | inr q ↦ c.solved b h q
      ]
