-- ===== src/Decompiler/Dom.antt =====
-- internal/decompiler/dom.go, with ComputePreds of ir.go and identifyLoopHeaders of emit_walk.go.
pub mod Order
pub mod Rank
pub mod Preds
pub mod Tree
pub mod Detour
pub mod Passes
pub mod Sound
pub mod Loops
pub mod Reducible
pub mod Exact
use aotopsy.Base.{
  ℕ, zero, suc, ◌+◌, Bool, true, false, ◌==◌, ltb, if◌then◌else◌, List, [], ◌∷◌, ◌++◌, Option, none,
  some, length,
}
use aotopsy.Base.Go.{Go, returned, crashed, unfinished, and_then}
use aotopsy.Base.Int.{ℤ, pos, negsuc}
use aotopsy.Disasm.Partition.{Condition, Marks, mark}

pub record Succ : Type 0 where
  pub block_id : ℤ
  pub cond : Condition

-- The block of an edge: `s.BlockID >= 0 && s.BlockID < n`.
abbrev pub block_within : ℕ → ℤ → Option ℕ
block_within n (pos b) = if ltb b n then some b else none
block_within n (negsuc _) = none

-- The entries that the edges of block `i` make in the predecessors of `id`.
pub edges_to : ℕ → ℕ → ℕ → List Succ → List ℕ
edges_to n id i [] = []
edges_to n id i (s ∷ ss) =
    let rest = edges_to n id i ss in
    elim (block_within n s.block_id) [ none ↦ rest | some b ↦ if b == id then i ∷ rest else rest ]

-- A frame of the walk: a block, and its successors from `next` on.
abbrev pub Frame : Type 0
Frame = ℕ × List Succ

-- A slice of block numbers in which `none` stands for -1.
abbrev pub Table : Type 0
Table = ℕ → Option ℕ

abbrev pub assign {ℓ} : {A : Type ℓ} → ℕ → A → (ℕ → A) → ℕ → A
assign i v t j = if j == i then v else t j

-- `rpoNum`, each number one larger: 0 stands for -1.
unfoldable pub number : ℕ → List ℕ → (ℕ → ℕ) → ℕ → ℕ
number i [] num = num
number i (b ∷ bs) num = number (suc i) bs (assign b (suc i) num)

abbrev pub rpo_num : List ℕ → ℕ → ℕ
rpo_num order = number 0 order (λ _. 0)

module _ (n : ℕ) (succs : ℕ → List Succ) where
  -- Preds[id] as ComputePreds leaves it, after the blocks below `k`.
  pub preds_upto : ℕ → ℕ → List ℕ
  unfolding edges_to
  preds_upto zero id = []
  preds_upto (suc k) id = preds_upto k id ++ edges_to n id k (succs k)

  unfoldable pub preds : ℕ → List ℕ
  unfolding preds_upto
  preds id = preds_upto n id

  -- The loop of reversePostOrder: the stack from its top down, and `post` from its end on, which
  -- is the order that the last loop of the source turns it into.
  pub walk_loop : ℕ → Marks → List Frame → List ℕ → Go (List ℕ)
  walk_loop zero visited stack post = unfinished
  walk_loop (suc fuel) visited [] post = returned post
  walk_loop (suc fuel) visited ((id, []) ∷ stack) post = walk_loop fuel visited stack (id ∷ post)
  walk_loop (suc fuel) visited ((id, s ∷ ss) ∷ stack) post = elim (block_within n s.block_id) [
    | none ↦ walk_loop fuel visited ((id, ss) ∷ stack) post
    | some b ↦ elim (visited b) [
      | true ↦ walk_loop fuel visited ((id, ss) ∷ stack) post
      | false ↦ walk_loop fuel (mark b visited) ((b, succs b) ∷ (id, ss) ∷ stack) post
    ]
  ]

  -- A round takes an edge or leaves a block.
  pub walk_rounds : ℕ → ℕ
  walk_rounds zero = 0
  walk_rounds (suc k) = suc (length (succs k)) + walk_rounds k

  -- `visited[0]` is out of range where there is no block.
  unfoldable pub reverse_post_order : Go (List ℕ)
  unfolding walk_loop walk_rounds
  reverse_post_order =
      if n == 0
      then crashed
      else walk_loop (suc (walk_rounds n)) (mark 0 (λ _. false)) ((0, succs 0) ∷ []) []

  module _ (num : ℕ → ℕ) where
    -- `for rpoNum[a] > rpoNum[b] { a = idom[a] }`, with fuel.
    pub climb : ℕ → Table → ℕ → ℕ → Go ℕ
    climb zero idom a b = unfinished
    climb (suc fuel) idom a b = elim (ltb (num b) (num a)) [
      | false ↦ returned a
      | true ↦ elim (idom a) [ none ↦ crashed | some up ↦ climb fuel idom up b ]
    ]

    pub intersect_loop : ℕ → Table → ℕ → ℕ → Go ℕ
    unfolding climb
    intersect_loop zero idom a b = unfinished
    intersect_loop (suc fuel) idom a b = elim (a == b) [
      | true ↦ returned a
      | false ↦
          and_then (climb (suc n) idom a b)
            λ a'. and_then (climb (suc n) idom b a') λ b'. intersect_loop fuel idom a' b'
    ]

    -- Numbers go up to `n`, and a round goes down by one at least.
    unfoldable pub intersect : Table → ℕ → ℕ → Go ℕ
    unfolding intersect_loop
    intersect idom a b = intersect_loop (suc (n + n)) idom a b

    -- `rpoNum[p] < 0 || idom[p] < 0` is not so. Every member of Preds is a block.
    abbrev pub is_processed : Table → ℕ → Bool
    is_processed idom p = elim (idom p) [ none ↦ false | some _ ↦ ltb 0 (num p) ]

    -- The loop over the predecessors, from `newIdom` on.
    pub new_idom : Table → Option ℕ → List ℕ → Go (Option ℕ)
    unfolding intersect
    new_idom idom acc [] = returned acc
    new_idom idom acc (p ∷ ps) = elim (is_processed idom p) [
      | false ↦ new_idom idom acc ps
      | true ↦ elim acc [
        | none ↦ new_idom idom (some p) ps
        | some c ↦ and_then (intersect idom p c) λ c'. new_idom idom (some c') ps
      ]
    ]

    -- `newIdom >= 0 && idom[b] != newIdom`
    abbrev pub differs : Option ℕ → ℕ → Bool
    differs none c = true
    differs (some old) c = if old == c then false else true

    abbrev pub settle : ℕ → Option ℕ → Table → Bool → Table × Bool
    settle b none idom changed = (idom, changed)
    settle b (some c) idom changed =
        if differs (idom b) c then (assign b (some c) idom, true) else (idom, changed)

    -- A pass over the order.
    pub pass : List ℕ → Table → Bool → Go (Table × Bool)
    unfolding new_idom preds
    pass [] idom changed = returned (idom, changed)
    pass (b ∷ bs) idom changed = elim (b == 0) [
      | true ↦ pass bs idom changed
      | false ↦
          and_then (new_idom idom none (preds b))
            λ c. let next = settle b c idom changed in pass bs next.0 next.1
    ]

    -- The passes, with fuel.
    pub passes : ℕ → List ℕ → Table → Go Table
    unfolding pass
    passes zero order idom = unfinished
    passes (suc fuel) order idom =
        and_then (pass order idom false)
          λ r. elim r.1 [ false ↦ returned r.0 | true ↦ passes fuel order r.0 ]

  abbrev pub only_entry : Table
  only_entry = assign 0 (some 0) (λ _. none)

  -- With `fuel` passes at most.
  unfoldable pub dominators : ℕ → Go Table
  unfolding reverse_post_order passes
  dominators fuel =
      if n == 0
      then returned (λ _. none)
      else and_then reverse_post_order λ order. passes (rpo_num order) fuel order only_entry

-- The walk of `dominates` from a block that is reachable.
pub dominates_loop : ℕ → Table → ℕ → ℕ → Go Bool
dominates_loop zero idom a b = unfinished
dominates_loop (suc fuel) idom a b = elim (a == b) [
  | true ↦ returned true
  | false ↦ elim (idom b) [
    | none ↦ crashed
    | some up ↦ elim (b == up) [ true ↦ returned false | false ↦ dominates_loop fuel idom a up ]
  ]
]

-- `n` is the length of the table. A table that goes down in the order ends the walk within it.
unfoldable pub dominates : ℕ → Table → ℤ → ℤ → Go Bool
unfolding dominates_loop
dominates n idom a b = elim (block_within n a) [
  | none ↦ returned false
  | some a' ↦ elim (block_within n b) [
    | none ↦ returned false
    | some b' ↦ elim (idom b') [
      | none ↦ returned false
      | some _ ↦ dominates_loop (suc n) idom a' b'
    ]
  ]
]

-- identifyLoopHeaders: the edges of block `i`.
pub header_edges : ℕ → Table → ℕ → List Succ → Marks → Go Marks
unfolding dominates
header_edges n idom i [] headers = returned headers
header_edges n idom i (s ∷ ss) headers = elim (block_within n s.block_id) [
  | none ↦ header_edges n idom i ss headers
  | some b ↦
      and_then (dominates n idom s.block_id (pos i))
        λ back. header_edges n idom i ss (if back then mark b headers else headers)
]

-- After the blocks below `k`.
pub headers_upto : ℕ → (ℕ → List Succ) → Table → ℕ → Go Marks
unfolding header_edges
headers_upto n succs idom zero = returned (λ _. false)
headers_upto n succs idom (suc k) =
    and_then (headers_upto n succs idom k) λ headers. header_edges n idom k (succs k) headers

unfoldable pub identify_loop_headers : ℕ → (ℕ → List Succ) → Table → Go Marks
unfolding headers_upto
identify_loop_headers n succs idom = headers_upto n succs idom n
