-- ===== src/Cluster/Ranges/Sizes.antt =====
-- The sizes of the ranges: no code is lost, and each ends where the next offset starts.
use aotopsy.Base.{
  ◌^◌, ◌≤◌, ◌<◌, ◌≡◌, ◌⊎◌, inl, inr, refl, ap, sym, arith, true, false, ◌==◌, ltb, Bool-cases, List,
  [], ◌∷◌,
}
use mathlib.Core.Path.{subst}
use aotopsy.Base.Int.{ℤ, pos, negsuc, to_u32, is_nonneg}
use aotopsy.Cluster.Ranges.{
  CodeEntry, CodeRange, text_range, text_ranges, before, skip_same, set_size, size_runs,
  resolve_code_ranges_from_text_offset,
}
use aotopsy.Cluster.Ranges.Runs.{
  In, IsSized, Unsized, In-Starts, size_runs-AllSized, AllSized-In, IsSized-size_runs,
}

-- None is before one that stands in front of it.
abbrev pub Ordered : List CodeRange → Type 0
Ordered [] = Unit {0}
Ordered (r ∷ rs) = ((q : CodeRange) → In q rs → before q r ≡ false) × Ordered rs

-- What `sort.Slice` by `before` promises: the same ranges, in order.
pub record IsSort (sort : List CodeRange → List CodeRange) : Type 0 where
  pub ordered : (rs : List CodeRange) → Ordered (sort rs)
  pub kept : (r : CodeRange) (rs : List CodeRange) → In r rs → In r (sort rs)
  pub only : (r : CodeRange) (rs : List CodeRange) → In r (sort rs) → In r rs

not_before : (q r : CodeRange) → before q r ≡ false → r.pc_offset ≤ q.pc_offset
not_before q r h = elim (Bool-cases (q.pc_offset == r.pc_offset)) [
  | inl p ↦ ground (arith, p)
  | inr p ↦ (let h' : ltb q.pc_offset r.pc_offset ≡ false = (rw p at h) in ground (arith, h'))
]

Ordered-Unsized :
    (rs : List CodeRange)
    → Ordered rs
    → ((r : CodeRange) → In r rs → (r.size ≡ 0) × (r.pc_offset < 2 ^ 32))
    → Unsized rs
Ordered-Unsized [] o h = tt
Ordered-Unsized (r ∷ rs) o h = (
  (h r (inl refl)).0,
  (h r (inl refl)).1,
  λ c i.
      let (q, j, e) = In-Starts c rs i in
      let above = not_before q r (o.0 q j) in omega (arith, above, e),
  Ordered-Unsized rs o.1 (λ q i. h q (inr i)),
)

abbrev pub Among : CodeEntry → List CodeEntry → Type 0
Among c [] = ⊥
Among c (d ∷ ds) = (c ≡ d) ⊎ Among c ds

-- A range with the refs and the offset of a code.
abbrev pub IsRangeOf : CodeEntry → CodeRange → Type 0
IsRangeOf c r =
    (r.ref_id ≡ c.ref_id)
    × (r.owner_ref ≡ c.owner_ref)
    × (r.index ≡ c.cluster_index)
    × (r.pc_offset ≡ to_u32 c.text_offset)

text_range-IsRangeOf :
    (c : CodeEntry) (cs : List CodeEntry)
    → Among c cs
    → is_nonneg c.cluster_index ≡ true
    → In (text_range c) (text_ranges cs)
text_range-IsRangeOf c [] h n = absurd h
text_range-IsRangeOf c (d ∷ ds) (inl e) n =
    let n' : is_nonneg d.cluster_index ≡ true =
      subst (λ (x : CodeEntry). is_nonneg x.cluster_index ≡ true) e n in
    rw n' (inl (ap text_range e))
text_range-IsRangeOf c (d ∷ ds) (inr h) n = elim (Bool-cases (is_nonneg d.cluster_index)) [
  | inl p ↦ rw p (inr (text_range-IsRangeOf c ds h n))
  | inr p ↦ rw p (text_range-IsRangeOf c ds h n)
]

to_u32-below : (z : ℤ) → to_u32 z < 2 ^ 32
to_u32-below (pos n) = omega arith
to_u32-below (negsuc n) = omega arith

text_ranges-fresh :
    (cs : List CodeEntry) (r : CodeRange)
    → In r (text_ranges cs)
    → (r.size ≡ 0) × (r.pc_offset < 2 ^ 32)
text_ranges-fresh [] r h = absurd h
text_ranges-fresh (c ∷ cs) r h = elim (Bool-cases (is_nonneg c.cluster_index)) [
  | inr p ↦ (let h' = (rw p at h) in text_ranges-fresh cs r h')
  | inl p ↦
      let h' : In r (text_range c ∷ text_ranges cs) = (rw p at h) in
      elim h' [
        | inl e ↦
            subst (λ (x : CodeRange). (x.size ≡ 0) × (x.pc_offset < 2 ^ 32)) (sym e)
              (refl, to_u32-below c.text_offset)
        | inr i ↦ text_ranges-fresh cs r i
      ]
]

set_size-IsRangeOf :
    (c : CodeEntry) (r : CodeRange) (rs : List CodeRange)
    → IsRangeOf c r
    → IsRangeOf c (set_size r rs)
set_size-IsRangeOf c r [] h = h
set_size-IsRangeOf c r (q ∷ qs) h = h

size_runs-IsRangeOf :
    (c : CodeEntry) (r : CodeRange) (rs : List CodeRange)
    → In r rs
    → IsRangeOf c r
    → (q : CodeRange) × In q (size_runs rs) × IsRangeOf c q
unfolding size_runs
size_runs-IsRangeOf c r [] h o = absurd h
size_runs-IsRangeOf c r (x ∷ rs) (inl e) o =
    let rest = skip_same x.pc_offset rs in
    (set_size x rest, inl refl, set_size-IsRangeOf c x rest (subst (IsRangeOf c) e o))
size_runs-IsRangeOf c r (x ∷ rs) (inr h) o =
    let (q, i, k) = size_runs-IsRangeOf c r rs h o in (q, inr i, k)

-- With a sort by offset and ref, each code that is not deferred has a range with its refs and its
-- offset, and each range, one of several with an offset too, goes up to the least offset above its
-- own: its size is positive, or 0 where its offset is the largest.
pub resolve_code_ranges_from_text_offset-IsSized :
    (sort : List CodeRange → List CodeRange) (codes : List CodeEntry)
    → IsSort sort
    → ((r : CodeRange)
        → In r (resolve_code_ranges_from_text_offset sort codes)
        → IsSized (resolve_code_ranges_from_text_offset sort codes) r)
      × ((c : CodeEntry)
          → Among c codes
          → is_nonneg c.cluster_index ≡ true
          → (r : CodeRange) × In r (resolve_code_ranges_from_text_offset sort codes)
            × IsRangeOf c r)
unfolding resolve_code_ranges_from_text_offset
resolve_code_ranges_from_text_offset-IsSized sort codes s =
    let ranges = text_ranges codes in
    let unsized =
      Ordered-Unsized (sort ranges) (s.ordered ranges)
        (λ r i. text_ranges-fresh codes r (s.only r ranges i)) in
    (
      λ r i. IsSized-size_runs (sort ranges) r (
          AllSized-In (sort ranges) (size_runs (sort ranges)) r
            (size_runs-AllSized (sort ranges) unsized) i),
      λ c i n.
          size_runs-IsRangeOf c (text_range c) (sort ranges)
            (s.kept (text_range c) ranges (text_range-IsRangeOf c codes i n))
            (refl, refl, refl, refl),
    )
