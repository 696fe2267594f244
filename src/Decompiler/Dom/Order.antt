-- ===== src/Decompiler/Dom/Order.antt =====
-- The walk of reversePostOrder: it ends, and its order holds the blocks that control reaches.
use aotopsy.Base.{
  ℕ, zero, suc, ◌+◌, ◌≤◌, ◌<◌, ◌≡◌, ◌⊎◌, ◌↔◌, inl, inr, refl, sym, arith, Bool, true, false, ◌==◌,
  if◌then◌else◌, Bool-cases, Option-cases, List, [], ◌∷◌, none, some, length, dec_lt,
}
use mathlib.Core.Path.{subst}
use aotopsy.Base.Go.{Go, returned}
use aotopsy.Base.Int.{ℤ, pos, negsuc}
use aotopsy.Disasm.Partition.{Marks, mark}
use aotopsy.Decompiler.Dom.{Succ, block_within, Frame, walk_loop, walk_rounds, reverse_post_order}

-- How often a block stands in a list.
abbrev pub occ : ℕ → List ℕ → ℕ
occ x [] = 0
occ x (y ∷ ys) = (if y == x then 1 else 0) + occ x ys

abbrev pub ids : List Frame → List ℕ
ids [] = []
ids ((id, ss) ∷ stack) = id ∷ ids stack

abbrev pub bit : Bool → ℕ
bit true = 1
bit false = 0

pub block_within-below : (n : ℕ) (z : ℤ) {b : ℕ} → block_within n z ≡ some b → b < n
block_within-below n (pos a) e = ground arith
block_within-below n (negsuc a) e = cc

module _ (n : ℕ) (succs : ℕ → List Succ) where
  -- An edge to `c` among these.
  abbrev pub Leads : List Succ → ℕ → Type 0
  Leads [] c = ⊥
  Leads (s ∷ ss) c = (block_within n s.block_id ≡ some c) ⊎ Leads ss c

  abbrev pub Edge : ℕ → ℕ → Type 0
  Edge b c = Leads (succs b) c

  pub Leads-below : (ss : List Succ) (c : ℕ) → Leads ss c → c < n
  Leads-below [] c h = absurd h
  Leads-below (s ∷ ss) c (inl e) = block_within-below n s.block_id e
  Leads-below (s ∷ ss) c (inr h) = Leads-below ss c h

  -- A way of control from the entry: the blocks on it, the last first.
  pub data Route : ℕ → List ℕ → Type 0 where
    enter : Route 0 (0 ∷ [])
    follow : {b c : ℕ} {way : List ℕ} → Route b way → Edge b c → Route c (c ∷ way)

  -- Each block of an order is the entry or has a predecessor before it, or in `pre`.
  abbrev pub Led : List ℕ → List ℕ → Type 0
  Led pre [] = Unit {0}
  Led pre (b ∷ bs) = ((b ≡ 0) ⊎ ((p : ℕ) × (0 < occ p pre) × Edge p b)) × Led (b ∷ pre) bs

  abbrev Chained : List Frame → Type 0
  Chained [] = Unit {0}
  Chained ((id, ss) ∷ []) = id ≡ 0
  Chained ((id, ss) ∷ (above, rest) ∷ stack) = Edge above id × Chained ((above, rest) ∷ stack)

  -- The edges of a frame that it has left behind go to blocks that are visited.
  abbrev Handled : Marks → List Frame → Type 0
  Handled visited [] = Unit {0}
  Handled visited ((id, ss) ∷ stack) =
      ((c : ℕ) → Edge id c → (visited c ≡ true) ⊎ Leads ss c)
      × ((c : ℕ) → Leads ss c → Edge id c)
      × Handled visited stack

  record Walk (visited : Marks) (stack : List Frame) (post : List ℕ) : Type 0 where
    counted : (x : ℕ) → occ x (ids stack) + occ x post ≡ bit (visited x)
    within : (x : ℕ) → visited x ≡ true → x < n
    started : visited 0 ≡ true
    led : Led (ids stack) post
    chained : Chained stack
    closed : (b c : ℕ) → 0 < occ b post → Edge b c → visited c ≡ true
    handled : Handled visited stack

  Led-weaken :
      (pre pre' bs : List ℕ) → ((x : ℕ) → occ x pre ≤ occ x pre') → Led pre bs → Led pre' bs
  Led-weaken pre pre' [] h l = tt
  Led-weaken pre pre' (b ∷ bs) h ((inl e), l) =
      (inl e, Led-weaken (b ∷ pre) (b ∷ pre') bs (λ x. omega (arith, h x)) l)
  Led-weaken pre pre' (b ∷ bs) h ((inr (p, o, e)), l) = (
    inr (p, omega (arith, h p), e),
    Led-weaken (b ∷ pre) (b ∷ pre') bs (λ x. omega (arith, h x)) l,
  )

  Chained-tail : (f : Frame) (stack : List Frame) → Chained (f ∷ stack) → Chained stack
  Chained-tail (id, ss) [] h = tt
  Chained-tail (id, ss) ((above, rest) ∷ stack) h = h.1

  -- What leads to the top of a stack.
  top_led :
      (id : ℕ) (ss : List Succ) (stack : List Frame)
      → Chained ((id, ss) ∷ stack)
      → (id ≡ 0) ⊎ ((p : ℕ) × (0 < occ p (ids stack)) × Edge p id)
  top_led id ss [] h = inl h
  top_led id ss ((above, rest) ∷ stack) h = inr (above, ground arith, h.0)

  Chained-advance :
      (id : ℕ) (s : Succ) (ss : List Succ) (stack : List Frame)
      → Chained ((id, s ∷ ss) ∷ stack)
      → Chained ((id, ss) ∷ stack)
  Chained-advance id s ss [] h = h
  Chained-advance id s ss ((above, rest) ∷ stack) h = h

  Handled-mark :
      (visited : Marks) (b : ℕ) (stack : List Frame)
      → Handled visited stack
      → Handled (mark b visited) stack
  Handled-mark visited b [] h = tt
  Handled-mark visited b ((id, ss) ∷ stack) h = (
    λ c e. elim (h.0 c e) [ inl v ↦ inl (ground arith) | inr l ↦ inr l ],
    h.1,
    Handled-mark visited b stack h.2,
  )

  Walk-pop :
      (visited : Marks) (id : ℕ) (stack : List Frame) (post : List ℕ)
      → Walk visited ((id, []) ∷ stack) post
      → Walk visited stack (id ∷ post)
  Walk-pop visited id stack post w = record {
    counted = λ x. omega (arith, w.counted x);
    within = w.within;
    started = w.started;
    led = (top_led id [] stack w.chained, w.led);
    chained = Chained-tail (id, []) stack w.chained;
    closed = λ b c o e. elim (Bool-cases (id == b)) [
      | inl same ↦
          let at : b ≡ id = ground (arith, same) in
          elim (w.handled.0 c (rw at at e)) [ inl v ↦ v | inr l ↦ absurd l ]
      | inr other ↦ w.closed b c (ground (arith, other)) e
    ];
    handled = w.handled.2;
  }

  Walk-skip :
      (visited : Marks) (id : ℕ) (s : Succ) (ss : List Succ) (stack : List Frame) (post : List ℕ)
      → ((c : ℕ) → block_within n s.block_id ≡ some c → visited c ≡ true)
      → Walk visited ((id, s ∷ ss) ∷ stack) post
      → Walk visited ((id, ss) ∷ stack) post
  Walk-skip visited id s ss stack post seen w = record {
    counted = w.counted;
    within = w.within;
    started = w.started;
    led = w.led;
    chained = Chained-advance id s ss stack w.chained;
    closed = w.closed;
    handled = (
      λ c e. elim (w.handled.0 c e) [
        | inl v ↦ inl v
        | inr l ↦ elim l [ inl same ↦ inl (seen c same) | inr rest ↦ inr rest ]
      ],
      λ c l. w.handled.1 c (inr l),
      w.handled.2,
    );
  }

  Walk-push :
      (visited : Marks) (id b : ℕ) (s : Succ) (ss : List Succ) (stack : List Frame) (post : List ℕ)
      → block_within n s.block_id ≡ some b
      → visited b ≡ false
      → Walk visited ((id, s ∷ ss) ∷ stack) post
      → Walk (mark b visited) ((b, succs b) ∷ (id, ss) ∷ stack) post
  Walk-push visited id b s ss stack post to fresh w = record {
    counted = λ x. ground (arith, w.counted x, w.counted b);
    within = λ x v. elim (Bool-cases (x == b)) [
      | inl same ↦
          let at : x ≡ b = ground (arith, same) in rw at (block_within-below n s.block_id to)
      | inr other ↦ w.within x (ground (arith, other))
    ];
    started = ground (arith, w.started);
    led = Led-weaken (id ∷ ids stack) (b ∷ id ∷ ids stack) post (λ x. omega arith) w.led;
    chained = (w.handled.1 b (inl to), Chained-advance id s ss stack w.chained);
    closed = λ x c o e. let v = w.closed x c o e in ground (arith, v);
    handled = (
      λ c e. inr e,
      λ c l. l,
      (
        λ c e. elim (w.handled.0 c e) [
          | inl v ↦ inl (ground (arith, v))
          | inr l ↦ elim l [ inl same ↦ inl (ground (arith, same, to)) | inr rest ↦ inr rest ]
        ],
        λ c l. w.handled.1 c (inr l),
        Handled-mark visited b stack w.handled.2,
      ),
    );
  }

  -- What the blocks that are not visited will cost, and what the frames still cost.
  due : Marks → ℕ → ℕ
  due visited zero = 0
  due visited (suc k) =
      let rest = due visited k in if visited k then rest else suc (length (succs k)) + rest

  stack_due : List Frame → ℕ
  stack_due [] = 0
  stack_due ((id, ss) ∷ stack) = suc (length ss) + stack_due stack

  due-above : (visited : Marks) (b k : ℕ) → k ≤ b → due (mark b visited) k ≡ due visited k
  unfolding due
  due-above visited b zero h = refl
  due-above visited b (suc k) h = ground (arith, due-above visited b k)

  due-mark_last :
      (visited : Marks) (k : ℕ)
      → visited k ≡ false
      → due (mark k visited) (suc k) + suc (length (succs k)) ≡ due visited (suc k)
  unfolding due
  due-mark_last visited k f =
      let marked : mark k visited k ≡ true = ground arith in
      rw (marked, f, due-above visited k k (omega arith)) (omega arith)

  due-mark :
      (visited : Marks) (b k : ℕ)
      → visited b ≡ false
      → b < k
      → due (mark b visited) k + suc (length (succs b)) ≡ due visited k
  unfolding due
  due-mark visited b zero f h = absurd (omega (arith, h))
  due-mark visited b (suc k) f h = elim (dec_lt b k) [
    | yes p ↦ ground (arith, due-mark visited b k f p)
    | no p ↦
        let at : b ≡ k = omega (arith, h, p) in
        subst (λ x. due (mark x visited) (suc k) + suc (length (succs x)) ≡ due visited (suc k))
          (sym at) (due-mark_last visited k (rw at at f))
  ]

  due-le : (visited : Marks) (k : ℕ) → due visited k ≤ walk_rounds n succs k
  unfolding due walk_rounds
  due-le visited zero = omega arith
  due-le visited (suc k) = ground (arith, due-le visited k)

  -- What the walk comes to: an order, with the marks that it leaves.
  abbrev Ends : Go (List ℕ) → Type 0
  Ends r = (order : List ℕ) × (visited : Marks) × (r ≡ returned order) × Walk visited [] order

  module _ (fuel : ℕ) (visited : Marks) (id : ℕ) (s : Succ) (ss : List Succ) (stack : List Frame)
      (post : List ℕ) where
    loop_outside :
        block_within n s.block_id ≡ none
        → walk_loop n succs (suc fuel) visited ((id, s ∷ ss) ∷ stack) post
          ≡ walk_loop n succs fuel visited ((id, ss) ∷ stack) post
    unfolding walk_loop
    loop_outside e = rw (e, walk_loop)

    loop_seen :
        {b : ℕ}
        → block_within n s.block_id ≡ some b
        → visited b ≡ true
        → walk_loop n succs (suc fuel) visited ((id, s ∷ ss) ∷ stack) post
          ≡ walk_loop n succs fuel visited ((id, ss) ∷ stack) post
    unfolding walk_loop
    loop_seen e v = rw (e, v, walk_loop)

    loop_new :
        {b : ℕ}
        → block_within n s.block_id ≡ some b
        → visited b ≡ false
        → walk_loop n succs (suc fuel) visited ((id, s ∷ ss) ∷ stack) post
          ≡ walk_loop n succs fuel (mark b visited) ((b, succs b) ∷ (id, ss) ∷ stack) post
    unfolding walk_loop
    loop_new e v = rw (e, v, walk_loop)

  walk_loop-Ends :
      (fuel : ℕ) (visited : Marks) (stack : List Frame) (post : List ℕ)
      → due visited n + stack_due stack < fuel
      → Walk visited stack post
      → Ends (walk_loop n succs fuel visited stack post)
  unfolding walk_loop stack_due
  walk_loop-Ends zero visited stack post h w = absurd (omega (arith, h))
  walk_loop-Ends (suc fuel) visited [] post h w = (post, visited, refl, w)
  walk_loop-Ends (suc fuel) visited ((id, []) ∷ stack) post h w =
      walk_loop-Ends fuel visited stack (id ∷ post) (omega (arith, h))
        (Walk-pop visited id stack post w)
  walk_loop-Ends (suc fuel) visited ((id, s ∷ ss) ∷ stack) post h w =
      elim (Option-cases (block_within n s.block_id)) [
        | inl e ↦ subst Ends (sym (loop_outside fuel visited id s ss stack post e)) (
            walk_loop-Ends fuel visited ((id, ss) ∷ stack) post (omega (arith, h))
              (Walk-skip visited id s ss stack post (λ c at. cc) w))
        | inr (b, e) ↦ elim (Bool-cases (visited b)) [
          | inl v ↦ subst Ends (sym (loop_seen fuel visited id s ss stack post e v)) (
              walk_loop-Ends fuel visited ((id, ss) ∷ stack) post (omega (arith, h))
                (Walk-skip visited id s ss stack post (λ c at. ground (arith, at, e, v)) w))
          | inr v ↦ subst Ends (sym (loop_new fuel visited id s ss stack post e v)) (
              walk_loop-Ends fuel (mark b visited) ((b, succs b) ∷ (id, ss) ∷ stack) post
                (omega (arith, h, due-mark visited b n v (block_within-below n s.block_id e)))
                (Walk-push visited id b s ss stack post e v w))
        ]
      ]

  marked_start : 0 < n → Walk (mark 0 (λ _. false)) ((0, succs 0) ∷ []) []
  marked_start h = record {
    counted = λ x. ground arith;
    within = λ x v. ground (arith, v);
    started = refl;
    led = tt;
    chained = refl;
    closed = λ b c o e. absurd (omega (arith, o));
    handled = (λ c e. inr e, λ c l. l, tt);
  }

  -- The order of a function with blocks.
  pub record Orders (order : List ℕ) : Type 0 where
    pub once : (x : ℕ) → occ x order ≤ 1
    pub within : (x : ℕ) → 0 < occ x order → x < n
    pub entry_in : 0 < occ 0 order
    pub led : Led [] order
    pub closed : (b c : ℕ) → 0 < occ b order → Edge b c → 0 < occ c order

  Walk-Orders : (visited : Marks) (order : List ℕ) → Walk visited [] order → Orders order
  Walk-Orders visited order w = record {
    once = λ x. ground (arith, w.counted x);
    within = λ x o. w.within x (ground (arith, w.counted x, o));
    entry_in = ground (arith, w.counted 0, w.started);
    led = w.led;
    closed = λ b c o e. let v = w.closed b c o e in ground (arith, w.counted c, v);
  }

  due-fresh : (k : ℕ) → due (λ _. false) k ≡ walk_rounds n succs k
  unfolding due walk_rounds
  due-fresh zero = refl
  due-fresh (suc k) = omega (arith, due-fresh k)

  first_walk :
      0 < n
      → Ends (
          walk_loop n succs
            (suc (walk_rounds n succs n))
            (mark 0 (λ _. false))
            ((0, succs 0) ∷ [])
            [])
  unfolding stack_due
  first_walk h =
      walk_loop-Ends (suc (walk_rounds n succs n)) (mark 0 (λ _. false)) ((0, succs 0) ∷ []) []
        (omega (arith, due-mark (λ _. false) 0 n refl h, due-fresh n)) (marked_start h)

  -- reversePostOrder ends, for a function with a block at least, with such an order.
  pub reverse_post_order-Orders :
      0 < n → (order : List ℕ) × (reverse_post_order n succs ≡ returned order) × Orders order
  unfolding reverse_post_order
  reverse_post_order-Orders h =
      let some_block : (n == 0) ≡ false = ground (arith, h) in
      let walked = first_walk h in
      (walked.0, rw some_block walked.2, Walk-Orders walked.1 walked.0 walked.3)

  -- What the walk leaves behind is what control reaches.
  pub Route-in :
      {order : List ℕ} → Orders order → {b : ℕ} {way : List ℕ} → Route b way → 0 < occ b order
  Route-in o enter = o.entry_in
  Route-in o (follow r e) = o.closed _ _ (Route-in o r) e

  abbrev pub Arrives : ℕ → Type 0
  Arrives b = (way : List ℕ) × Route b way

  led-Arrives :
      (pre : List ℕ) (c : ℕ)
      → ((p : ℕ) → 0 < occ p pre → Arrives p)
      → (c ≡ 0) ⊎ ((p : ℕ) × (0 < occ p pre) × Edge p c)
      → Arrives c
  led-Arrives pre c known (inl e) = (0 ∷ [], rw e enter)
  led-Arrives pre c known (inr (p, o, e)) =
      let before = known p o in (c ∷ before.0, follow before.1 e)

  Led-Arrives :
      (pre bs : List ℕ)
      → ((p : ℕ) → 0 < occ p pre → Arrives p)
      → Led pre bs
      → (b : ℕ) → 0 < occ b bs
      → Arrives b
  Led-Arrives pre [] known l b o = absurd (omega (arith, o))
  Led-Arrives pre (c ∷ bs) known l b o =
      let here = led-Arrives pre c known l.0 in
      elim (Bool-cases (c == b)) [
        | inl same ↦ subst Arrives (ground (arith, same)) here
        | inr other ↦
            Led-Arrives (c ∷ pre) bs
              (λ p q. elim (Bool-cases (c == p)) [
                | inl same ↦ subst Arrives (ground (arith, same)) here
                | inr differs ↦ known p (ground (arith, q, differs))
              ])
              l.1 b (ground (arith, o, other))
      ]

  pub Orders-Arrives : {order : List ℕ} → Orders order → (b : ℕ) → 0 < occ b order → Arrives b
  Orders-Arrives o = Led-Arrives [] _ (λ p q. absurd (omega (arith, q))) o.led

  -- reversePostOrder ends on every function with a block at least. Its order holds each block that
  -- control reaches from the entry, and no other, once, and behind the entry each has a predecessor
  -- before it.
  pub reverse_post_order-reaches :
      0 < n
      → (order : List ℕ) × (reverse_post_order n succs ≡ returned order)
        × ((b : ℕ) → (0 < occ b order) ↔ ((way : List ℕ) × Route b way))
        × ((b : ℕ) → occ b order ≤ 1)
        × Led [] order
  reverse_post_order-reaches h =
      let (order, e, o) = reverse_post_order-Orders h in
      (order, e, λ b. (Orders-Arrives o b, λ r. Route-in o r.1), o.once, o.led)
