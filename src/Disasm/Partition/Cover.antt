-- ===== src/Disasm/Partition/Cover.antt =====
-- The blocks of a function cover its instructions, in order, and only their first instruction can
-- be entered.
use aotopsy.Base.{
  ℕ, zero, suc, ◌+◌, ◌≤◌, ◌<◌, ◌≡◌, refl, arith, Bool, true, false, ◌==◌, ◌&&◌, ltb, leb, List, [],
  ◌∷◌, Option, none, some, get_elem?, Bool-cases, Option-cases, if◌then◌else◌, ap, inl, inr, dec_lt,
  le→leb, lt→ltb,
}
use aotopsy.Disasm.Partition.{
  BasicBlock, FlowInfo, is_transfer, leaders, Marks, mark, mark_target, addr_to_idx,
  after_transfers, func_start, func_end, targets, sorted_from, block, end_of, blocks_from,
}

module _ (n : ℕ) (addr len : ℕ → ℕ) (flow : ℕ → FlowInfo) where
  -- The blocks lie end to end from `from` to `to`, are not empty, and have their places for ids.
  abbrev pub Tiles : ℕ → ℕ → ℕ → List BasicBlock → Type 0
  Tiles id from to [] = from ≡ to
  Tiles id from to (b ∷ bs) =
      (b.id ≡ id)
      × (b.start ≡ from)
      × (b.start < b.end)
      × (b.is_entry ≡ (from == 0))
      × Tiles (suc id) b.end to bs

  -- Leaders from `lo` on, in order.
  abbrev pub Increasing : ℕ → List ℕ → Type 0
  Increasing lo [] = Unit {0}
  Increasing lo (l ∷ ls) = (lo ≤ l) × (l < n) × Increasing (suc l) ls

  Increasing-weaken : (lo hi : ℕ) (ls : List ℕ) → lo ≤ hi → Increasing hi ls → Increasing lo ls
  Increasing-weaken lo hi [] h inc = tt
  Increasing-weaken lo hi (l ∷ ls) h inc = (omega (arith, inc.0), inc.1, inc.2)

  pub sorted_from-Increasing : (k i : ℕ) (m : Marks) → i + k ≡ n → Increasing i (sorted_from k i m)
  unfolding sorted_from
  sorted_from-Increasing zero i m e = tt
  sorted_from-Increasing (suc k) i m e = elim (Bool-cases (m i)) [
    | inl p ↦ rw p (omega arith, omega arith, sorted_from-Increasing k (suc i) m (omega arith))
    | inr p ↦ rw p (
        Increasing-weaken i (suc i) _ (omega arith)
          (sorted_from-Increasing k (suc i) m (omega arith)))
  ]

  -- Nothing between the leaders is marked.
  abbrev pub Gaps : Marks → ℕ → List ℕ → Type 0
  Gaps m lo [] = (j : ℕ) → lo ≤ j → j < n → m j ≡ false
  Gaps m lo (l ∷ ls) = ((j : ℕ) → lo ≤ j → j < l → m j ≡ false) × Gaps m (suc l) ls

  Gaps-extend : (m : Marks) (i : ℕ) (ls : List ℕ) → m i ≡ false → Gaps m (suc i) ls → Gaps m i ls
  Gaps-extend m i [] e g = λ j a b. elim (dec_lt i j) [
    | yes p ↦ g j (omega arith) b
    | no p ↦ let same : j ≡ i = omega arith in rw same e
  ]
  Gaps-extend m i (l ∷ ls) e g = (
    λ j a b. elim (dec_lt i j) [
      | yes p ↦ g.0 j (omega arith) b
      | no p ↦ let same : j ≡ i = omega arith in rw same e
    ],
    g.1,
  )

  pub sorted_from-Gaps : (k i : ℕ) (m : Marks) → i + k ≡ n → Gaps m i (sorted_from k i m)
  unfolding sorted_from
  sorted_from-Gaps zero i m e = λ j a b. absurd (omega arith)
  sorted_from-Gaps (suc k) i m e = elim (Bool-cases (m i)) [
    | inl p ↦ rw p (λ j a b. absurd (omega arith), sorted_from-Gaps k (suc i) m (omega arith))
    | inr p ↦ rw p (Gaps-extend m i _ p (sorted_from-Gaps k (suc i) m (omega arith)))
  ]

  pub blocks_from-Tiles :
      (id lo : ℕ) (ls : List ℕ)
      → Increasing lo ls
      → Tiles id (end_of n addr len flow ls) n (blocks_from n addr len flow id ls)
  unfolding blocks_from
  blocks_from-Tiles id lo [] inc = refl
  blocks_from-Tiles id lo (l ∷ []) inc = (refl, refl, inc.1, refl, refl)
  blocks_from-Tiles id lo (l ∷ k ∷ ls) inc =
      (refl, refl, omega (arith, inc.2.0), refl, blocks_from-Tiles (suc id) (suc l) (k ∷ ls) inc.2)

  -- The entry stays marked.
  pub after_transfers-entry : (k : ℕ) → after_transfers n addr len flow k 0 ≡ true
  unfolding after_transfers
  after_transfers-entry zero = refl
  after_transfers-entry (suc i) = ground (arith, after_transfers-entry i)

  mark_target-keeps :
      (t : Option ℕ) (m : Marks) (i : ℕ) → m i ≡ true → mark_target n addr len flow t m i ≡ true
  mark_target-keeps none m i h = h
  mark_target-keeps (some t) m i h =
      elim (Bool-cases (leb (func_start n addr len flow) t && ltb t (func_end n addr len flow))) [
        | inr p ↦ rw p h
        | inl p ↦ rw p (go (addr_to_idx n addr len flow n t))
      ]
    where
      go :
          (o : Option ℕ)
          → ◌≡◌ {A = Bool} (elim o as (λ _. Marks) [ none ↦ m | some idx ↦ mark idx m ] i) true
      go none = h
      go (some idx) = ground (arith, h)

  pub targets-keeps :
      (k i : ℕ) → after_transfers n addr len flow n i ≡ true → targets n addr len flow k i ≡ true
  unfolding targets
  targets-keeps zero i h = h
  targets-keeps (suc k) i h = mark_target-keeps (flow k).target _ i (targets-keeps k i h)

  pub after_transfers-marks :
      (k i : ℕ)
      → i < k
      → is_transfer (flow i).kind ≡ true
      → i + 1 < n
      → after_transfers n addr len flow k (i + 1) ≡ true
  unfolding after_transfers
  after_transfers-marks zero i h t r = elim h [ ]
  after_transfers-marks (suc k) i h t r = elim (dec_lt i k) [
    | yes p ↦ ground (arith, after_transfers-marks k i p t r)
    | no p ↦ let same : k ≡ i = omega arith in rw same (ground arith)
  ]

  mark_target-marks :
      (t i : ℕ) (m : Marks)
      → func_start n addr len flow ≤ t
      → t < func_end n addr len flow
      → addr_to_idx n addr len flow n t ≡ some i
      → mark_target n addr len flow (some t) m i ≡ true
  mark_target-marks t i m a b e = rw (le→leb _ _ a, lt→ltb _ _ b, e) (ground arith)

  pub targets-marks :
      (k j t i : ℕ)
      → j < k
      → (flow j).target ≡ some t
      → func_start n addr len flow ≤ t
      → t < func_end n addr len flow
      → addr_to_idx n addr len flow n t ≡ some i
      → targets n addr len flow k i ≡ true
  unfolding targets
  targets-marks zero j t i h e a b r = elim h [ ]
  targets-marks (suc k) j t i h e a b r = elim (dec_lt j k) [
    | yes p ↦ mark_target-keeps (flow k).target _ i (targets-marks k j t i p e a b r)
    | no p ↦
        let same : k ≡ j = omega arith in
        rw same (rw e (mark_target-marks t i (targets n addr len flow j) a b r))
  ]

  pub inner_unmarked :
      (m : Marks) (ls : List ℕ) (lo id k i : ℕ) (b : BasicBlock)
      → Gaps m lo ls
      → get_elem? (blocks_from n addr len flow id ls) k ≡ some b
      → b.start < i
      → i < b.end
      → m i ≡ false
  unfolding blocks_from
  inner_unmarked m [] lo id k i b g e s h = cc
  inner_unmarked m (l ∷ []) lo id zero i b g e s h =
      let same : block n addr len flow id l n ≡ b = cc in
      g.1 i (rw (← same) at s) (rw (← same) at h)
  inner_unmarked m (l ∷ r ∷ ls) lo id zero i b g e s h =
      let same : block n addr len flow id l r ≡ b = cc in
      g.1.0 i (rw (← same) at s) (rw (← same) at h)
  inner_unmarked m (l ∷ ls) lo id (suc k) i b g e s h =
      inner_unmarked m ls (suc l) (suc id) k i b g.1 e s h

  -- Every key of `leaders` is an instruction.
  addr_to_idx-below : (k a i : ℕ) → addr_to_idx n addr len flow k a ≡ some i → i < k
  unfolding addr_to_idx
  addr_to_idx-below zero a i e = cc
  addr_to_idx-below (suc k) a i e = elim (Bool-cases (addr k == a)) [
    | inl p ↦ let q : some k ≡ some i = rw p at e in let same : k ≡ i = cc in omega (arith, same)
    | inr p ↦ omega (arith, addr_to_idx-below k a i (rw p at e))
  ]

  mark-below : (i j : ℕ) (m : Marks) → i < n → (m j ≡ true → j < n) → mark i m j ≡ true → j < n
  mark-below i j m l h e = elim (Bool-cases (j == i)) [
    | inl p ↦ ground (arith, p, l)
    | inr p ↦ h (rw p at e)
  ]

  after_transfers-below : (k j : ℕ) → 0 < n → after_transfers n addr len flow k j ≡ true → j < n
  unfolding after_transfers
  after_transfers-below zero j h e = mark-below 0 j (λ _. false) h (λ c. cc) e
  after_transfers-below (suc k) j h e =
      elim (Bool-cases (is_transfer (flow k).kind && ltb (k + 1) n)) [
        | inr p ↦ after_transfers-below k j h (rw p at e)
        | inl p ↦
            mark-below (k + 1) j (after_transfers n addr len flow k) (guard p)
              (after_transfers-below k j h) (rw p at e)
      ]
    where
      guard : (is_transfer (flow k).kind && ltb (k + 1) n) ≡ true → k + 1 < n
      guard p = ground (arith, p)

  mark_target-below :
      (t : Option ℕ) (j : ℕ) (m : Marks)
      → (m j ≡ true → j < n)
      → mark_target n addr len flow t m j ≡ true
      → j < n
  mark_target-below none j m h e = h e
  mark_target-below (some t) j m h e =
      elim (Bool-cases (leb (func_start n addr len flow) t && ltb t (func_end n addr len flow))) [
        | inr p ↦ h (rw p at e)
        | inl p ↦ elim (Option-cases (addr_to_idx n addr len flow n t)) [
          | inl q ↦ h (rw (p, q) at e)
          | inr (i, q) ↦ mark-below i j m (addr_to_idx-below n t i q) h (rw (p, q) at e)
        ]
      ]

  targets-below : (k j : ℕ) → 0 < n → targets n addr len flow k j ≡ true → j < n
  unfolding targets
  targets-below zero j h e = after_transfers-below n j h e
  targets-below (suc k) j h e =
      mark_target-below (flow k).target j (targets n addr len flow k) (targets-below k j h) e

  sorted_from-unmarked :
      (k i : ℕ) (m : Marks) → m (i + k) ≡ false → sorted_from (suc k) i m ≡ sorted_from k i m
  unfolding sorted_from
  sorted_from-unmarked zero i m e = let last : i + 0 ≡ i = omega arith in rw (rw last at e) refl
  sorted_from-unmarked (suc k) i m e =
      let on : i + suc k ≡ suc i + k = omega arith in
      ap (λ rest. if m i then i ∷ rest else rest) (sorted_from-unmarked k (suc i) m (rw on at e))

  pub leaders-instructions :
      0 < n → leaders n addr len flow ≡ sorted_from n 0 (targets n addr len flow n)
  unfolding leaders
  leaders-instructions h = sorted_from-unmarked n 0 (targets n addr len flow n) (unmarked n refl)
    where
      unmarked : (j : ℕ) → j ≡ n → targets n addr len flow n (0 + j) ≡ false
      unmarked j same = elim (Bool-cases (targets n addr len flow n (0 + j))) [
        | inr p ↦ p
        | inl p ↦ absurd (omega (arith, same, targets-below n (0 + j) h p))
      ]
