-- ===== src/Disasm/Fixpoint.antt =====
-- internal/disasm/fixpoint.go: what is known of the registers at the start of each block.
pub mod Queue
pub mod Visit
pub mod Equations
pub mod Paths
use aotopsy.Base.{
  ℕ, zero, suc, ◌+◌, ◌*◌, Bool, true, false, not, ◌==◌, ◌&&◌, ◌||◌, ltb, if◌then◌else◌, List, [],
  ◌∷◌, ◌++◌, get_or, length,
}
use aotopsy.Disasm.Lvalue.{Lvalue, lv_top, lv_bottom, same_lvalue, meet_lvalue}
use aotopsy.Disasm.Partition.{Succ, Marks, mark}

-- `final` is as long as `touched`.
pub record ProvBlockEffect : Type 0 where
  pub touched : List Bool
  pub final : List Lvalue

-- A slice of nregs values, and one of such a slice for each block.
abbrev pub Regs : Type 0
Regs = ℕ → Lvalue

abbrev pub States : Type 0
States = ℕ → Regs

abbrev pub replace : ℕ → Regs → States → States
replace id regs states b = if b == id then regs else states b

-- The registers after a block. `get_or` takes an index behind `touched` for untouched.
abbrev pub out_of : ProvBlockEffect → Regs → Regs
out_of eff regs r = if get_or eff.touched r false then get_or eff.final r lv_top else regs r

-- `slices.Equal` of two slices of nregs values.
pub same_regs : ℕ → Regs → Regs → Bool
unfolding same_lvalue
same_regs zero x y = true
same_regs (suc r) x y =
    let rest = same_regs r x y in if same_lvalue (x r) (y r) then rest else false

pub record Fixpoint : Type 0 where
  pub entry_state : States
  pub exit_state : States
  pub worklist : List ℕ
  pub in_worklist : Marks

-- `preds[id]`, with an entry of `bi` for each of its edges to `id`.
pub edges_to : ℕ → ℕ → List Succ → List ℕ
edges_to id bi [] = []
edges_to id bi (s ∷ ss) =
    let rest = edges_to id bi ss in if s.block_id == id then bi ∷ rest else rest

-- The meet over the predecessors, from `acc` on.
pub meet_over : States → Lvalue → List ℕ → ℕ → Lvalue
unfolding meet_lvalue
meet_over exits acc [] r = acc
meet_over exits acc (p ∷ ps) r = meet_over exits (meet_lvalue acc (exits p r)) ps r

abbrev pub join_in : States → ℕ → List ℕ → Regs
unfolding meet_over
join_in exits zero ps r = lv_bottom
join_in exits (suc id) [] r = lv_bottom
join_in exits (suc id) (p ∷ ps) r = meet_over exits lv_top (p ∷ ps) r

-- The loop over the successors of a changed block.
pub enqueue : ℕ → List Succ → List ℕ → Marks → List ℕ × Marks
enqueue n [] worklist queued = (worklist, queued)
enqueue n (s ∷ ss) worklist queued =
    if ltb s.block_id n && not (queued s.block_id)
    then enqueue n ss (worklist ++ s.block_id ∷ []) (mark s.block_id queued)
    else enqueue n ss worklist queued

-- `worklist[i] = i`
pub all_blocks : ℕ → List ℕ
all_blocks zero = []
all_blocks (suc k) = all_blocks k ++ k ∷ []

module _ (n nregs : ℕ) (succs : ℕ → List Succ) (effects : ℕ → ProvBlockEffect) where
  -- `preds[id]` after the blocks below `k`.
  pub preds : ℕ → ℕ → List ℕ
  unfolding edges_to
  preds zero id = []
  preds (suc k) id = preds k id ++ edges_to id k (succs k)

  pub start_state : Fixpoint
  unfolding all_blocks
  start_state = record {
    entry_state = λ b r. lv_top;
    exit_state = λ b r. lv_top;
    worklist = all_blocks n;
    in_worklist = λ b. ltb b n;
  }

  -- One visit: `id` is the head of the worklist.
  unfoldable pub visit : ℕ → List ℕ → Fixpoint → Fixpoint
  unfolding preds same_regs enqueue meet_over
  visit id rest st =
      let inn = join_in st.exit_state id (preds n id) in
      let out = out_of (effects id) inn in
      let moved = not (same_regs nregs out (st.exit_state id)) in
      let changed = not (same_regs nregs inn (st.entry_state id)) || moved in
      let popped : Marks = λ b. if b == id then false else st.in_worklist b in
      let (worklist, queued) =
        if changed then enqueue n (succs id) rest popped else (rest, popped) in
      record {
        entry_state = replace id inn st.entry_state;
        exit_state = if moved then replace id out st.exit_state else st.exit_state;
        worklist = worklist;
        in_worklist = queued;
      }

  -- The loop, with the visits that are left.
  pub visits_loop : ℕ → Fixpoint → Fixpoint
  unfolding visit
  visits_loop zero st = st
  visits_loop (suc visits) st = elim st.worklist [
    | [] ↦ st
    | id ∷ rest ↦ visits_loop visits (visit id rest st)
  ]

  abbrev pub max_visits : ℕ
  max_visits = n * n + 64

  -- The entry states, and what is left of the worklist.
  unfoldable pub run_prov_fixpoint : Fixpoint
  unfolding visits_loop start_state
  run_prov_fixpoint = visits_loop max_visits start_state
