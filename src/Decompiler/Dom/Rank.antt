-- ===== src/Decompiler/Dom/Rank.antt =====
-- The numbers of reverse post order.
use aotopsy.Base.{
  ℕ, zero, suc, ◌+◌, ◌≤◌, ◌<◌, ◌≡◌, ◌≢◌, ◌⊎◌, inl, inr, refl, sym, ◌∙◌, arith, true, false, ◌==◌,
  Bool-cases, List, [], ◌∷◌, length,
}
use aotopsy.Decompiler.Dom.{Succ, assign, number, rpo_num}
use aotopsy.Decompiler.Dom.Order.{occ, Edge, Led, Orders}
use mathlib.Core.Path.{subst}

-- The blocks of a list have the numbers behind `i`.
abbrev pub Numbered : (ℕ → ℕ) → ℕ → List ℕ → Type 0
Numbered num i [] = Unit {0}
Numbered num i (b ∷ bs) = (num b ≡ suc i) × Numbered num (suc i) bs

number-absent :
    (i : ℕ) (bs : List ℕ) (num : ℕ → ℕ) (b : ℕ) → occ b bs ≡ 0 → number i bs num b ≡ num b
unfolding number
number-absent i [] num b h = refl
number-absent i (c ∷ bs) num b h =
    number-absent (suc i) bs (assign c (suc i) num) b (ground (arith, h)) ∙ ground (arith, h)

abbrev Distinct : List ℕ → Type 0
Distinct bs = (x : ℕ) → occ x bs ≤ 1

module _ (i : ℕ) (c : ℕ) (bs : List ℕ) (num : ℕ → ℕ) (distinct : Distinct (c ∷ bs)) where
  tail-Distinct : Distinct bs
  tail-Distinct x = omega (arith, distinct x)

  number_head : number i (c ∷ bs) num c ≡ suc i
  unfolding number
  number_head =
      number-absent (suc i) bs (assign c (suc i) num) c (ground (arith, distinct c)) ∙ ground arith

  number_tail : (b : ℕ) → number i (c ∷ bs) num b ≡ number (suc i) bs (assign c (suc i) num) b
  unfolding number
  number_tail b = refl

number-bounds :
    (i : ℕ) (bs : List ℕ) (num : ℕ → ℕ) (b : ℕ)
    → Distinct bs
    → 0 < occ b bs
    → (i < number i bs num b) × (number i bs num b ≤ i + length bs)
number-bounds i [] num b d h = absurd (omega (arith, h))
number-bounds i (c ∷ bs) num b d h = elim (Bool-cases (c == b)) [
  | inl same ↦
      let at : b ≡ c = ground (arith, same) in rw at (omega (arith, number_head i c bs num d))
  | inr other ↦
      let later =
        number-bounds (suc i) bs (assign c (suc i) num) b (tail-Distinct i c bs num d)
          (ground (arith, h, other)) in
      omega (arith, number_tail i c bs num d b, later)
]

number_unique :
    (i : ℕ) (bs : List ℕ) (num : ℕ → ℕ) (a b : ℕ)
    → Distinct bs
    → 0 < occ a bs
    → 0 < occ b bs
    → number i bs num a ≡ number i bs num b
    → a ≡ b
number_unique i [] num a b d ha hb e = absurd (omega (arith, ha))
number_unique i (c ∷ bs) num a b d ha hb e = elim (Bool-cases (c == a)) [
  | inl p ↦ elim (Bool-cases (c == b)) [
    | inl q ↦ ground (arith, p, q)
    | inr q ↦ absurd (head_alone a b p q hb e)
  ]
  | inr p ↦ elim (Bool-cases (c == b)) [
    | inl q ↦ absurd (head_alone b a q p ha (sym e))
    | inr q ↦
        number_unique (suc i) bs (assign c (suc i) num) a b (tail-Distinct i c bs num d)
          (ground (arith, ha, p)) (ground (arith, hb, q)) e'
  ]
]
  where
    head_alone :
        (x y : ℕ)
        → (c == x) ≡ true
        → (c == y) ≡ false
        → 0 < occ y (c ∷ bs)
        → number i (c ∷ bs) num x ≡ number i (c ∷ bs) num y
        → ⊥
    head_alone x y p q h eq =
        let at : c ≡ x = ground (arith, p) in
        let head : number i (c ∷ bs) num x ≡ suc i =
          subst (λ z. number i (c ∷ bs) num z ≡ suc i) at (number_head i c bs num d) in
        let later =
          number-bounds (suc i) bs (assign c (suc i) num) y (tail-Distinct i c bs num d)
            (ground (arith, h, q)) in
        omega (arith, head, eq, number_tail i c bs num d y, later)

    e' : number (suc i) bs (assign c (suc i) num) a ≡ number (suc i) bs (assign c (suc i) num) b
    e' = omega (arith, e, number_tail i c bs num d a, number_tail i c bs num d b)

number-Numbered :
    (i : ℕ) (bs : List ℕ) (num : ℕ → ℕ) → Distinct bs → Numbered (number i bs num) i bs
unfolding number
number-Numbered i [] num d = tt
number-Numbered i (c ∷ bs) num d = (
  number_head i c bs num d,
  number-Numbered (suc i) bs (assign c (suc i) num) (tail-Distinct i c bs num d),
)

-- How many entries of a list are below `k`.
total : ℕ → List ℕ → ℕ
total zero bs = 0
total (suc k) bs = occ k bs + total k bs

total-cons_above : (k c : ℕ) (bs : List ℕ) → k ≤ c → total k (c ∷ bs) ≡ total k bs
unfolding total
total-cons_above zero c bs h = refl
total-cons_above (suc k) c bs h = ground (arith, total-cons_above k c bs)

total-cons : (k c : ℕ) (bs : List ℕ) → c < k → total k (c ∷ bs) ≡ suc (total k bs)
unfolding total
total-cons zero c bs h = absurd (omega (arith, h))
total-cons (suc k) c bs h = elim (Bool-cases (c == k)) [
  | inl same ↦ ground (arith, same, total-cons_above k c bs)
  | inr other ↦ ground (arith, other, total-cons k c bs)
]

total-nil : (k : ℕ) → total k [] ≡ 0
unfolding total
total-nil zero = refl
total-nil (suc k) = omega (arith, total-nil k)

-- A list of different numbers below `n` is no longer than `n`.
length-total : (n : ℕ) (bs : List ℕ) → ((x : ℕ) → 0 < occ x bs → x < n) → length bs ≡ total n bs
length-total n [] h = sym (total-nil n)
length-total n (c ∷ bs) h = omega (
  arith,
  total-cons n c bs (h c (ground arith)),
  length-total n bs (λ x o. h x (omega (arith, o))),
)

total-le : (k : ℕ) (bs : List ℕ) → Distinct bs → total k bs ≤ k
unfolding total
total-le zero bs d = omega arith
total-le (suc k) bs d = omega (arith, d k, total-le k bs d)

module _ (n : ℕ) (succs : ℕ → List Succ) where
  Led-number :
      (pre bs : List ℕ) (i : ℕ) (num : ℕ → ℕ)
      → ((x : ℕ) → occ x pre + occ x bs ≤ 1)
      → ((p : ℕ) → 0 < occ p pre → (0 < num p) × (num p ≤ i))
      → Led n succs pre bs
      → (b : ℕ) → 0 < occ b bs
      → (b ≡ 0)
        ⊎ ((p : ℕ) × Edge n succs p b
            × (0 < number i bs num p)
            × (number i bs num p < number i bs num b))
  unfolding number
  Led-number pre [] i num d known l b o = absurd (omega (arith, o))
  Led-number pre (c ∷ bs) i num d known l b o = elim (Bool-cases (c == b)) [
    | inl same ↦
        let at : c ≡ b = ground (arith, same) in
        subst
          (λ x.
            (x ≡ 0)
            ⊎ ((p : ℕ) × Edge n succs p x
                × (0 < number i (c ∷ bs) num p)
                × (number i (c ∷ bs) num p < number i (c ∷ bs) num x)))
          at here
    | inr other ↦
        Led-number (c ∷ pre) bs (suc i) (assign c (suc i) num) (λ x. omega (arith, d x))
          (λ p q. ground (arith, q, known p)) l.1 b (ground (arith, o, other))
  ]
    where
      distinct : Distinct (c ∷ bs)
      distinct x = omega (arith, d x)

      here :
          (c ≡ 0)
          ⊎ ((p : ℕ) × Edge n succs p c
              × (0 < number i (c ∷ bs) num p)
              × (number i (c ∷ bs) num p < number i (c ∷ bs) num c))
      here = elim l.0 [
        | inl e ↦ inl e
        | inr (p, q, e) ↦
            let old : number i (c ∷ bs) num p ≡ num p =
              number-absent i (c ∷ bs) num p (omega (arith, d p, q)) in
            inr (
              p,
              e,
              omega (arith, old, known p q),
              omega (arith, old, known p q, number_head i c bs num distinct),
            )
      ]

  -- What the numbers of an order are.
  pub record Ranked (order : List ℕ) (num : ℕ → ℕ) : Type 0 where
    pub numbered : Numbered num 0 order
    pub entry : num 0 ≡ 1
    pub bounded : (b : ℕ) → num b ≤ n
    pub counted : (b : ℕ) → num b ≤ length order
    pub block : (b : ℕ) → 0 < num b → b < n
    pub unique : (a b : ℕ) → 0 < num a → num a ≡ num b → a ≡ b
    pub member : (b : ℕ) → 0 < num b → 0 < occ b order
    pub parent :
        (b : ℕ) → 0 < num b → b ≢ 0 → (p : ℕ) × Edge n succs p b × (0 < num p) × (num p < num b)
    pub closed : (b c : ℕ) → 0 < num b → Edge n succs b c → 0 < num c

  module _ (order : List ℕ) (o : Orders n succs order) where
    rank_in : (b : ℕ) → 0 < rpo_num order b → 0 < occ b order
    rank_in b h = elim (Bool-cases (occ b order == 0)) [
      | inl absent ↦
          absurd (omega (arith, h, number-absent 0 order (λ _. 0) b (ground (arith, absent))))
      | inr some_entry ↦ ground (arith, some_entry)
    ]

    ranks :
        (b : ℕ)
        → 0 < occ b order
        → (0 < rpo_num order b) × (rpo_num order b ≤ n) × (rpo_num order b ≤ length order)
    ranks b h =
        let bounds = number-bounds 0 order (λ _. 0) b o.once h in
        omega (arith, bounds, length-total n order o.within, total-le n order o.once)

    entry_first : rpo_num order 0 ≡ 1
    entry_first = go order o.led o.entry_in o.once
      where
        go : (bs : List ℕ) → Led n succs [] bs → 0 < occ 0 bs → Distinct bs → rpo_num bs 0 ≡ 1
        go [] l h d = absurd (omega (arith, h))
        go (c ∷ bs) l h d = elim l.0 [
          | inl e ↦ subst (λ x. rpo_num (c ∷ bs) x ≡ 1) e (number_head 0 c bs (λ _. 0) d)
          | inr (p, q, e) ↦ absurd (omega (arith, q))
        ]

    pub Orders-Ranked : Ranked order (rpo_num order)
    Orders-Ranked = record {
      numbered = number-Numbered 0 order (λ _. 0) o.once;
      entry = entry_first;
      bounded = λ b. elim (Bool-cases (rpo_num order b == 0)) [
        | inl absent ↦ ground (arith, absent)
        | inr some_rank ↦ (ranks b (rank_in b (ground (arith, some_rank)))).1
      ];
      counted = λ b. elim (Bool-cases (rpo_num order b == 0)) [
        | inl absent ↦ ground (arith, absent)
        | inr some_rank ↦ (ranks b (rank_in b (ground (arith, some_rank)))).2
      ];
      block = λ b h. o.within b (rank_in b h);
      unique = λ a b h e.
          number_unique 0 order (λ _. 0) a b o.once (rank_in a h) (rank_in b (omega (arith, h, e)))
            e;
      member = rank_in;
      parent = λ b h entry.
          elim (Led-number [] order 0 (λ _. 0) (λ x. omega (arith, o.once x))
            (λ p q. absurd (omega (arith, q))) o.led b (rank_in b h)) [
              | inl e ↦ absurd (entry e)
              | inr found ↦ found
            ];
      closed = λ b c h e. (ranks c (o.closed b c (rank_in b h) e)).0;
    }
