-- ===== src/Cluster/Ranges/Runs.antt =====
-- The sizes of ranges in the order of their offsets.
use aotopsy.Base.{
  ℕ, ◌-◌, ◌^◌, ◌≤◌, ◌<◌, ◌≡◌, ◌⊎◌, ◌↔◌, inl, inr, refl, ap, ◌∙◌, sym, arith, ◌==◌, Bool-cases, List,
  [], ◌∷◌,
}
use mathlib.Core.Path.{subst}
use aotopsy.Cluster.Ranges.{CodeRange, skip_same, set_size, size_runs}

-- `x` is among the elements.
abbrev pub In : CodeRange → List CodeRange → Type 0
In x [] = ⊥
In x (y ∷ ys) = (x ≡ y) ⊎ In x ys

-- An offset of some range.
abbrev pub Starts : ℕ → List CodeRange → Type 0
Starts c [] = ⊥
Starts c (r ∷ rs) = (c ≡ r.pc_offset) ⊎ Starts c rs

-- A range goes to the least offset above its own; at the largest offset its size is open, 0.
abbrev pub IsSized : List CodeRange → CodeRange → Type 0
IsSized out r =
    (((c : ℕ) → Starts c out → c ≤ r.pc_offset) × (r.size ≡ 0))
    ⊎ ((c : ℕ) × Starts c out
        × (r.pc_offset < c)
        × (r.size ≡ c - r.pc_offset)
        × ((d : ℕ) → Starts d out → r.pc_offset < d → c ≤ d))

-- What a range is before it is sized: its offset has 32 bits, and none behind it is below.
abbrev pub Unsized : List CodeRange → Type 0
Unsized [] = Unit {0}
Unsized (r ∷ rs) =
    (r.size ≡ 0) × (r.pc_offset < 2 ^ 32) × ((c : ℕ) → Starts c rs → r.pc_offset ≤ c) × Unsized rs

abbrev AllSized : List CodeRange → List CodeRange → Type 0
AllSized out [] = Unit {0}
AllSized out (r ∷ rs) = IsSized out r × AllSized out rs

Starts-In : (r : CodeRange) (rs : List CodeRange) → In r rs → Starts r.pc_offset rs
Starts-In r (q ∷ rs) (inl e) = inl (ap (λ (x : CodeRange). x.pc_offset) e)
Starts-In r (q ∷ rs) (inr h) = inr (Starts-In r rs h)
Starts-In r [] h = absurd h

pub In-Starts :
    (c : ℕ) (rs : List CodeRange) → Starts c rs → (r : CodeRange) × In r rs × (c ≡ r.pc_offset)
In-Starts c (q ∷ rs) (inl e) = (q, inl refl, e)
In-Starts c (q ∷ rs) (inr h) = (let (r, i, e) = In-Starts c rs h in (r, inr i, e))
In-Starts c [] h = absurd h

set_size-pc_offset : (r : CodeRange) (rs : List CodeRange) → (set_size r rs).pc_offset ≡ r.pc_offset
set_size-pc_offset r [] = refl
set_size-pc_offset r (q ∷ qs) = refl

Starts-size_runs : (c : ℕ) (rs : List CodeRange) → Starts c rs ↔ Starts c (size_runs rs)
unfolding size_runs
Starts-size_runs c [] = (λ h. h, λ h. h)
Starts-size_runs c (r ∷ rs) =
    let same = set_size-pc_offset r (skip_same r.pc_offset rs) in
    (
      λ h. elim h [ inl e ↦ inl (e ∙ sym same) | inr i ↦ inr ((Starts-size_runs c rs).0 i) ],
      λ h. elim h [ inl e ↦ inl (e ∙ same) | inr i ↦ inr ((Starts-size_runs c rs).1 i) ],
    )

-- What is left behind a run of ranges with one offset: nothing above it, or the next offset first.
abbrev Follows : ℕ → List CodeRange → List CodeRange → Type 0
Follows pc rs [] = (c : ℕ) → Starts c rs → c ≤ pc
Follows pc rs (q ∷ qs) =
    Starts q.pc_offset rs
    × (pc < q.pc_offset)
    × (q.pc_offset < 2 ^ 32)
    × ((d : ℕ) → Starts d rs → pc < d → q.pc_offset ≤ d)

Follows-here :
    (pc : ℕ) (r : CodeRange) (rs rest : List CodeRange)
    → r.pc_offset ≡ pc
    → Follows pc rs rest
    → Follows pc (r ∷ rs) rest
Follows-here pc r rs [] e f = λ c i. elim i [ inl h ↦ omega (arith, e, h) | inr later ↦ f c later ]
Follows-here pc r rs (q ∷ qs) e f = (
  inr f.0,
  f.1,
  f.2,
  λ d h l. elim h [ inl at ↦ absurd (omega (arith, at, e, l)) | inr later ↦ f.3 d later l ],
)

skip_same-Follows :
    (pc : ℕ) (rs : List CodeRange)
    → Unsized rs
    → ((c : ℕ) → Starts c rs → pc ≤ c)
    → Follows pc rs (skip_same pc rs)
unfolding skip_same
skip_same-Follows pc [] u h = λ c i. absurd i
skip_same-Follows pc (r ∷ rs) u h = elim (Bool-cases (r.pc_offset == pc)) [
  | inl p ↦ rw p (
      Follows-here pc r rs (skip_same pc rs) (ground (arith, p))
        (skip_same-Follows pc rs u.3 (λ c i. h c (inr i))))
  | inr p ↦
      let low = h r.pc_offset (inl refl) in
      rw p (
        inl refl,
        ground (arith, p, low),
        u.1,
        λ d i l. elim i [ inl e ↦ omega (arith, e) | inr later ↦ u.2 d later ],
      )
]

-- A range of the rest is sized among all, where the first offset is not above it.
IsSized-behind :
    (r q : CodeRange) (out : List CodeRange)
    → q.pc_offset ≤ r.pc_offset
    → IsSized out r
    → IsSized (q ∷ out) r
IsSized-behind r q out l (inl (most, zero_size)) =
    inl (λ d i. elim i [ inl e ↦ omega (arith, e, l) | inr later ↦ most d later ], zero_size)
IsSized-behind r q out l (inr (e, i, above, size, least)) = inr (
  e,
  inr i,
  above,
  size,
  λ d j less. elim j [
    | inl at ↦ absurd (omega (arith, at, l, less))
    | inr later ↦ least d later less
  ],
)

-- The first of a run is sized by what is left behind the run.
IsSized-head :
    (r : CodeRange) (rs rest : List CodeRange)
    → r.size ≡ 0
    → r.pc_offset < 2 ^ 32
    → Follows r.pc_offset rs rest
    → IsSized (r ∷ rs) (set_size r rest)
IsSized-head r rs [] z l f =
    inl (λ c i. elim i [ inl e ↦ omega (arith, e) | inr later ↦ f c later ], z)
IsSized-head r rs (q ∷ qs) z l f = inr (
  q.pc_offset,
  inr f.0,
  f.1,
  omega (arith, f.1, f.2, l),
  λ d i less. elim i [ inl e ↦ absurd (omega (arith, e, less)) | inr later ↦ f.3 d later less ],
)

AllSized-behind :
    (q : CodeRange) (out rs : List CodeRange)
    → ((c : ℕ) → Starts c rs → q.pc_offset ≤ c)
    → AllSized out rs
    → AllSized (q ∷ out) rs
AllSized-behind q out [] h a = tt
AllSized-behind q out (r ∷ rs) h a = (
  IsSized-behind r q out (h r.pc_offset (inl refl)) a.0,
  AllSized-behind q out rs (λ c i. h c (inr i)) a.1,
)

pub size_runs-AllSized : (rs : List CodeRange) → Unsized rs → AllSized rs (size_runs rs)
unfolding size_runs
size_runs-AllSized [] u = tt
size_runs-AllSized (r ∷ rs) u = (
  IsSized-head r rs (skip_same r.pc_offset rs) u.0 u.1 (skip_same-Follows r.pc_offset rs u.3 u.2),
  AllSized-behind r rs (size_runs rs) (λ c i. u.2 c ((Starts-size_runs c rs).1 i))
      (size_runs-AllSized rs u.3),
)

pub AllSized-In :
    (out rs : List CodeRange) (r : CodeRange) → AllSized out rs → In r rs → IsSized out r
AllSized-In out [] r a h = absurd h
AllSized-In out (q ∷ rs) r a (inl e) = subst (IsSized out) (sym e) a.0
AllSized-In out (q ∷ rs) r a (inr h) = AllSized-In out rs r a.1 h

-- What counts of the other ranges are their offsets.
pub IsSized-size_runs :
    (rs : List CodeRange) (r : CodeRange) → IsSized rs r → IsSized (size_runs rs) r
IsSized-size_runs rs r (inl (most, z)) = inl (λ c i. most c ((Starts-size_runs c rs).1 i), z)
IsSized-size_runs rs r (inr (c, i, above, size, least)) = inr (
  c,
  (Starts-size_runs c rs).0 i,
  above,
  size,
  λ d j less. least d ((Starts-size_runs d rs).1 j) less,
)
