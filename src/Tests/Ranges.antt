-- ===== src/Tests/Ranges.antt =====
-- internal/cluster/instrtable.go at codes that share their text.
use mathlib.Core.Path.{subst}
use mathlib.Core.List.{map}
use aotopsy.Base.{
  ℕ, ◌≡◌, ◌↔◌, refl, sym, arith, Bool, true, false, not, ◌==◌, ◌+◌, ltb, if◌then◌else◌, inl, inr,
  Bool-cases, List, [], ◌∷◌,
}
use aotopsy.Base.Int.{pos, pos_part, neg_part, is_nonneg}
use aotopsy.Cluster.Ranges.{
  CodeEntry, CodeRange, before, resolve_code_ranges_from_text_offset, set_last_range_size,
}
use aotopsy.Cluster.Ranges.Runs.{In, IsSized}
use aotopsy.Cluster.Ranges.Sizes.{
  Ordered, IsSort, Among, IsRangeOf, resolve_code_ranges_from_text_offset-IsSized,
}

-- An insertion sort, for `sort.Slice`.
insert : CodeRange → List CodeRange → List CodeRange
insert r [] = r ∷ []
insert r (q ∷ qs) = let later = q ∷ insert r qs in if before q r then later else r ∷ q ∷ qs

insertion_sort : List CodeRange → List CodeRange
unfolding insert
insertion_sort [] = []
insertion_sort (r ∷ rs) = insert r (insertion_sort rs)

insert-In : (x r : CodeRange) (rs : List CodeRange) → (In x (r ∷ rs)) ↔ In x (insert r rs)
unfolding insert
insert-In x r [] = (λ h. h, λ h. h)
insert-In x r (q ∷ qs) = elim (Bool-cases (before q r)) [
  | inr p ↦ rw p (λ h. h, λ h. h)
  | inl p ↦ rw p (
    λ h. elim h [
      | inl e ↦ inr ((insert-In x r qs).0 (inl e))
      | inr (inl e) ↦ inl e
      | inr (inr i) ↦ inr ((insert-In x r qs).0 (inr i))
    ],
    λ h. elim h [
      | inl e ↦ inr (inl e)
      | inr i ↦ elim ((insert-In x r qs).1 i) [ inl e ↦ inl e | inr j ↦ inr (inr j) ]
    ],
  )
]

lexicographic : ℕ → ℕ → ℕ → ℕ → Bool
lexicographic a b u v = if not (a == b) then ltb a b else ltb u v

lexicographic_total : (a b u v : ℕ) → lexicographic a b u v ≡ true → lexicographic b a v u ≡ false
unfolding lexicographic
lexicographic_total a b u v h = ground (arith, h)

lexicographic_trans :
    (a b c x y z x' y' z' : ℕ)
    → lexicographic b a (y + x') (x + y') ≡ false
    → lexicographic c b (z + y') (y + z') ≡ false
    → lexicographic c a (z + x') (x + z') ≡ false
unfolding lexicographic
lexicographic_trans a b c x y z x' y' z' h k = ground (arith, h, k)

before_total : (q r : CodeRange) → before q r ≡ true → before r q ≡ false
unfolding lexicographic
before_total q r h = lexicographic_total q.pc_offset r.pc_offset _ _ h

before_trans : (p q r : CodeRange) → before q p ≡ false → before r q ≡ false → before r p ≡ false
unfolding lexicographic
before_trans p q r h k =
    lexicographic_trans p.pc_offset q.pc_offset r.pc_offset (pos_part p.ref_id) (pos_part q.ref_id)
      (pos_part r.ref_id) (neg_part p.ref_id) (neg_part q.ref_id) (neg_part r.ref_id) h k

insert-Ordered : (r : CodeRange) (rs : List CodeRange) → Ordered rs → Ordered (insert r rs)
unfolding insert
insert-Ordered r [] o = (λ q i. absurd i, tt)
insert-Ordered r (q ∷ qs) o = elim (Bool-cases (before q r)) [
  | inr p ↦ rw p (
    λ x i. elim i [
      | inl e ↦ subst (λ y. before y r ≡ false) (sym e) p
      | inr j ↦ before_trans r q x p (o.0 x j)
    ],
    o,
  )
  | inl p ↦ rw p (
    λ x i. elim ((insert-In x r qs).1 i) [
      | inl e ↦ subst (λ y. before y q ≡ false) (sym e) (before_total q r p)
      | inr j ↦ o.0 x j
    ],
    insert-Ordered r qs o.1,
  )
]

insertion_sort-Ordered : (rs : List CodeRange) → Ordered (insertion_sort rs)
unfolding insertion_sort
insertion_sort-Ordered [] = tt
insertion_sort-Ordered (r ∷ rs) = insert-Ordered r (insertion_sort rs) (insertion_sort-Ordered rs)

insertion_sort-In : (x : CodeRange) (rs : List CodeRange) → In x rs ↔ In x (insertion_sort rs)
unfolding insertion_sort
insertion_sort-In x [] = (λ h. h, λ h. h)
insertion_sort-In x (r ∷ rs) = (
  λ h. elim h [
    | inl e ↦ (insert-In x r (insertion_sort rs)).0 (inl e)
    | inr i ↦ (insert-In x r (insertion_sort rs)).0 (inr ((insertion_sort-In x rs).0 i))
  ],
  λ h. elim ((insert-In x r (insertion_sort rs)).1 h) [
    | inl e ↦ inl e
    | inr i ↦ inr ((insertion_sort-In x rs).1 i)
  ],
)

insertion_sort-IsSort : IsSort insertion_sort
insertion_sort-IsSort = record {
  ordered = insertion_sort-Ordered;
  kept = λ r rs. (insertion_sort-In r rs).0;
  only = λ r rs. (insertion_sort-In r rs).1;
}

-- Two codes share the offset 64; the last two, which share 128, are deduplicated too.
abbrev shared_codes : List CodeEntry
shared_codes =
    record { ref_id = pos 5; owner_ref = pos 1; cluster_index = pos 0; text_offset = pos 64 }
    ∷ record { ref_id = pos 6; owner_ref = pos 2; cluster_index = pos 1; text_offset = pos 128 }
    ∷ record { ref_id = pos 7; owner_ref = pos 3; cluster_index = pos 2; text_offset = pos 64 }
    ∷ record { ref_id = pos 8; owner_ref = pos 4; cluster_index = pos 3; text_offset = pos 128 }
    ∷ []

resolve_code_ranges_from_text_offset-IsSized_example :
    ((r : CodeRange)
      → In r (resolve_code_ranges_from_text_offset insertion_sort shared_codes)
      → IsSized (resolve_code_ranges_from_text_offset insertion_sort shared_codes) r)
    × ((c : CodeEntry)
        → Among c shared_codes
        → is_nonneg c.cluster_index ≡ true
        → (r : CodeRange) × In r (resolve_code_ranges_from_text_offset insertion_sort shared_codes)
          × IsRangeOf c r)
resolve_code_ranges_from_text_offset-IsSized_example =
    resolve_code_ranges_from_text_offset-IsSized insertion_sort shared_codes insertion_sort-IsSort

-- SetLastRangeSize leaves the third range at 0.
shared_sizes :
    map CodeRange.size
      (set_last_range_size (resolve_code_ranges_from_text_offset insertion_sort shared_codes) 160)
    ≡ 64 ∷ 64 ∷ 0 ∷ 32 ∷ []
unfolding resolve_code_ranges_from_text_offset set_last_range_size insertion_sort
shared_sizes = refl
