-- ===== src/Cluster/TryRegions/Covers.antt =====
-- The regions against the descriptors: which index is active at a pc.
use aotopsy.Base.{
  ℕ, ◌≤◌, ◌<◌, ◌≡◌, refl, ap, ◌∙◌, sym, arith, Bool, true, false, not, ◌&&◌, ◌||◌, ltb, leb,
  if◌then◌else◌, List, [], ◌∷◌, ◌++◌, Bool-cases, inl, inr, Option, none, some, leb→le,
}
use aotopsy.Base.Int.{ℤ, ◌==ℤ◌, ==ℤ→eq}
use aotopsy.Cluster.PcDescriptors.{PcDescriptorEntry}
use aotopsy.Cluster.TryRegions.{
  TryRegion, invalid_try_index, sort_by_pc, region, begin_run, scan_runs, build_try_regions,
}
use aotopsy.Cluster.TryRegions.Merge.{covers, Starts, Starts-weaken, merge_regions-covers}
use aotopsy.Cluster.TryRegions.Active.{
  later_of, active, holds_index, Sorted, Sorted-weaken, sort-Sorted, active-sort, later_of-kept,
  active-bounds,
}

region-nil : (start end : ℕ) (u : ℤ) → region start end u ≡ region start end u ++ []
region-nil start end u = elim (Bool-cases (ltb start end)) [ inl p ↦ rw p refl | inr p ↦ rw p refl ]

covers-region :
    (t u : ℤ) (pc start end : ℕ) (rs : List TryRegion)
    → covers t pc (region start end u ++ rs)
      ≡ ((u ==ℤ t) && (leb start pc && ltb pc end) || covers t pc rs)
covers-region t u pc start end rs = elim (Bool-cases (ltb start end)) [
  | inl p ↦ rw p refl
  | inr p ↦ rw p (let e = empty_interval (u ==ℤ t) (ground (arith, p)) in rw e refl)
]
  where
    empty_interval : (x : Bool) → end ≤ start → (x && (leb start pc && ltb pc end)) ≡ false
    empty_interval true h = ground arith
    empty_interval false h = refl

module _ (t : ℤ) (pc end : ℕ) where
  -- A descriptor outside every try block gives way.
  invalid_gives_way :
      (d : PcDescriptorEntry) (o : Option PcDescriptorEntry)
      → (d.try_index ==ℤ invalid_try_index) ≡ true
      → ((f : PcDescriptorEntry) → o ≡ some f → d.pc_offset ≤ f.pc_offset)
      → holds_index t o ≡ holds_index t (later_of pc d o)
  invalid_gives_way d none e h = elim (Bool-cases (leb d.pc_offset pc)) [
    | inl p ↦ rw (p, e) (and_false (d.try_index ==ℤ t))
    | inr p ↦ rw p refl
  ]
    where
      and_false : (x : Bool) → false ≡ (x && false)
      and_false true = refl
      and_false false = refl
  invalid_gives_way d (some f) e h = ap (holds_index t) (sym (later_of-kept pc d f (h f refl)))

  -- A descriptor with the index of the one before it changes nothing.
  same_index :
      (d e : PcDescriptorEntry) (o : Option PcDescriptorEntry)
      → (e.try_index ==ℤ d.try_index) ≡ true
      → d.pc_offset ≤ e.pc_offset
      → ((f : PcDescriptorEntry) → o ≡ some f → e.pc_offset ≤ f.pc_offset)
      → holds_index t (later_of pc d o) ≡ holds_index t (later_of pc d (later_of pc e o))
  same_index d e (some f) q l h = rw (later_of-kept pc e f (h f refl)) refl
  same_index d e none q l h = elim (Bool-cases (leb e.pc_offset pc)) [
    | inr p ↦ rw p refl
    | inl p ↦
        let before : leb d.pc_offset pc ≡ true = ground (arith, p, l) in
        rw (p, later_of-kept pc d e l, before)
          (ap (λ (z : ℤ). (z ==ℤ t) && not (z ==ℤ invalid_try_index))
            (sym (==ℤ→eq e.try_index d.try_index q)))
  ]

  later_past :
      (d e : PcDescriptorEntry) (x : Bool)
      → d.pc_offset ≤ e.pc_offset
      → e.pc_offset ≤ pc
      → (x && (leb d.pc_offset pc && ltb pc e.pc_offset)) ≡ false
  later_past d e true l h = ground arith
  later_past d e false l h = refl

  and_true_or : (x : Bool) → (x && true || false) ≡ (x && true)
  and_true_or true = refl
  and_true_or false = refl

  and_false_or : (x : Bool) → (x && false || false) ≡ false
  and_false_or true = refl
  and_false_or false = refl

  -- Before the end of a region its start decides.
  open_region :
      (d : PcDescriptorEntry)
      → (d.try_index ==ℤ invalid_try_index) ≡ false
      → (a b : Bool) → b ≡ true
      → ((d.try_index ==ℤ t) && (a && b) || false) ≡ holds_index t (if a then some d else none)
  open_region d q true true h = rw q (and_true_or (d.try_index ==ℤ t))
  open_region d q false b h = and_false_or (d.try_index ==ℤ t)
  open_region d q true false h = cc

  -- Where another descriptor follows, the region ends.
  other_index :
      (d e : PcDescriptorEntry) (o : Option PcDescriptorEntry)
      → (d.try_index ==ℤ invalid_try_index) ≡ false
      → d.pc_offset ≤ e.pc_offset
      → ((f : PcDescriptorEntry) → o ≡ some f → (e.pc_offset ≤ f.pc_offset) × (f.pc_offset ≤ pc))
      → ((d.try_index ==ℤ t) && (leb d.pc_offset pc && ltb pc e.pc_offset)
          || holds_index t (later_of pc e o))
        ≡ holds_index t (later_of pc d (later_of pc e o))
  other_index d e (some f) q l h =
      let bounds = h f refl in
      let past = later_past d e (d.try_index ==ℤ t) l (omega (arith, bounds)) in
      let kept = later_of-kept pc e f bounds.0 in
      let kept_too = later_of-kept pc d f (omega (arith, bounds, l)) in
      rw (kept, kept_too, past) refl
  other_index d e none q l h = elim (Bool-cases (leb e.pc_offset pc)) [
    | inl p ↦
        let past = later_past d e (d.try_index ==ℤ t) l (leb→le _ _ p) in
        rw (p, later_of-kept pc d e l, past) refl
    | inr p ↦ rw p (open_region d q (leb d.pc_offset pc) (ltb pc e.pc_offset) (ground (arith, p)))
  ]

  -- The scan covers what the last descriptor before the pc says.
  scan-active :
      (d : PcDescriptorEntry) (es : List PcDescriptorEntry)
      → Sorted d.pc_offset es
      → pc < end
      → covers t pc (scan_runs end (begin_run d) es) ≡ holds_index t (later_of pc d (active pc es))
  unfolding active scan_runs
  scan-active d [] s h = elim (Bool-cases (d.try_index ==ℤ invalid_try_index)) [
    | inl p ↦ rw p (invalid_gives_way d none p (λ f e. cc))
    | inr p ↦ rw p (
        ap (covers t pc) (region-nil d.pc_offset end d.try_index)
        ∙ covers-region t d.try_index pc d.pc_offset end []
        ∙ open_region d p (leb d.pc_offset pc) (ltb pc end) (ground (arith, h)))
  ]
  scan-active d (e ∷ es) s h =
      let after = active pc es in
      let rest = scan-active e es s.1 h in
      elim (Bool-cases (d.try_index ==ℤ invalid_try_index)) [
        | inl p ↦ rw p (
            rest
            ∙ invalid_gives_way d (later_of pc e after) p
                (λ f is. (active-bounds pc d.pc_offset (e ∷ es) f s is).0))
        | inr p ↦ elim (Bool-cases (e.try_index ==ℤ d.try_index)) [
          | inl same ↦
              let longer = scan-active d es (Sorted-weaken d.pc_offset e.pc_offset es s.0 s.1) h in
              let longer' = (rw p at longer) in
              rw (p, same)
                (longer'
                  ∙ same_index d e after same s.0
                      (λ f is. (active-bounds pc e.pc_offset es f s.1 is).0))
          | inr other ↦
              rw (p, other)
                (covers-region t d.try_index pc d.pc_offset e.pc_offset
                    (scan_runs end (begin_run e) es)
                  ∙ ap
                      (λ (x : Bool).
                        (d.try_index ==ℤ t) && (leb d.pc_offset pc && ltb pc e.pc_offset) || x)
                      rest
                  ∙ other_index d e after p s.0 (λ f is. active-bounds pc e.pc_offset es f s.1 is))
        ]
      ]

region-Starts :
    (lo start end : ℕ) (t : ℤ) (rs : List TryRegion)
    → lo ≤ start
    → Starts start rs
    → Starts lo (region start end t ++ rs)
region-Starts lo start end t rs l s = elim (Bool-cases (ltb start end)) [
  | inl p ↦ rw p (l, s)
  | inr p ↦ rw p (Starts-weaken lo start rs l s)
]

-- The scan leaves the regions in the order of their starts.
scan_runs-Starts :
    (end lo : ℕ) (d : PcDescriptorEntry) (es : List PcDescriptorEntry)
    → lo ≤ d.pc_offset
    → Sorted d.pc_offset es
    → Starts lo (scan_runs end (begin_run d) es)
unfolding scan_runs
scan_runs-Starts end lo d [] l s = elim (Bool-cases (d.try_index ==ℤ invalid_try_index)) [
  | inl p ↦ rw p tt
  | inr p ↦
      rw (p, region-nil d.pc_offset end d.try_index)
        (region-Starts lo d.pc_offset end d.try_index [] l tt)
]
scan_runs-Starts end lo d (e ∷ es) l s =
    let past : lo ≤ e.pc_offset = omega (arith, l, s) in
    elim (Bool-cases (d.try_index ==ℤ invalid_try_index)) [
      | inl p ↦ rw p (scan_runs-Starts end lo e es past s.1)
      | inr p ↦ elim (Bool-cases (e.try_index ==ℤ d.try_index)) [
        | inl same ↦
            let longer =
              scan_runs-Starts end lo d es l (Sorted-weaken d.pc_offset e.pc_offset es s.0 s.1) in
            let longer' = (rw p at longer) in rw (p, same) longer'
        | inr other ↦
            rw (p, other)
              (region-Starts lo d.pc_offset e.pc_offset d.try_index _ l
                (scan_runs-Starts end d.pc_offset e es s.0 s.1))
      ]
    ]

scan_all-covers :
    (t : ℤ) (pc end : ℕ) (es : List PcDescriptorEntry)
    → Sorted 0 es
    → pc < end
    → (covers t pc (scan_runs end none es) ≡ holds_index t (active pc es))
      × Starts 0 (scan_runs end none es)
unfolding scan_runs active
scan_all-covers t pc end [] s h = (refl, tt)
scan_all-covers t pc end (e ∷ es) s h =
    (scan-active t pc end e es s.1 h, scan_runs-Starts end 0 e es s.0 s.1)

-- For any descriptors, the regions built from them up to `end_pc` cover a pc below `end_pc` for a
-- try index exactly where the last descriptor at or before that pc (in the order of the offsets;
-- of those at one offset the last in the list) has that index and the index is not -1.
pub build_try_regions-active :
    (t : ℤ) (pc end_pc : ℕ) (entries : List PcDescriptorEntry)
    → pc < end_pc
    → covers t pc (build_try_regions entries end_pc) ≡ holds_index t (active pc entries)
unfolding build_try_regions
build_try_regions-active t pc end_pc entries h =
    let sorted = sort_by_pc entries in
    let (scanned, starts) = scan_all-covers t pc end_pc sorted (sort-Sorted entries) h in
    merge_regions-covers t pc (scan_runs end_pc none sorted) starts
    ∙ scanned
    ∙ ap (holds_index t) (active-sort pc entries)
