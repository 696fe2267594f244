-- ===== src/Cluster/TryRegions/Merge.antt =====
-- Merging keeps what the regions cover.
use aotopsy.Base.{
  ℕ, ◌≤◌, ◌≡◌, refl, ap, ◌∙◌, arith, Bool, true, false, ◌&&◌, ◌||◌, ltb, leb, if◌then◌else◌, List,
  [], ◌∷◌, Bool-cases, leb→le, inl, inr,
}
use aotopsy.Base.Int.{ℤ, ◌==ℤ◌, ==ℤ→eq}
use aotopsy.Cluster.TryRegions.{TryRegion, merge_from, merge_regions}

abbrev pub holds : ℤ → ℕ → TryRegion → Bool
holds t pc r = (r.try_index ==ℤ t) && (leb r.start_pc pc && ltb pc r.end_pc)

-- Some region of the index holds the pc.
abbrev pub covers : ℤ → ℕ → List TryRegion → Bool
covers t pc [] = false
covers t pc (r ∷ rs) = holds t pc r || covers t pc rs

-- The starts do not go down from `lo` on.
abbrev pub Starts : ℕ → List TryRegion → Type 0
Starts lo [] = Unit {0}
Starts lo (r ∷ rs) = (lo ≤ r.start_pc) × Starts r.start_pc rs

pub Starts-weaken : (lo hi : ℕ) (rs : List TryRegion) → lo ≤ hi → Starts hi rs → Starts lo rs
Starts-weaken lo hi [] h s = tt
Starts-weaken lo hi (r ∷ rs) h s = (omega (arith, h, s.0), s.1)

-- Two intervals that touch, the first not behind the second, are one.
join_intervals :
    (x : Bool) (a b c d pc : ℕ)
    → c ≤ b
    → a ≤ c
    → (x && (leb a pc && ltb pc (if ltb b d then d else b)))
      ≡ ((x && (leb a pc && ltb pc b)) || (x && (leb c pc && ltb pc d)))
join_intervals true a b c d pc h l = ground arith
join_intervals false a b c d pc h l = refl

and_parts : (a b : Bool) → (a && b) ≡ true → (a ≡ true) × (b ≡ true)
and_parts true b h = (refl, h)
and_parts false b h = cc

joined_holds :
    (t : ℤ) (pc : ℕ) (m r : TryRegion)
    → (m.try_index ==ℤ r.try_index) ≡ true
    → leb r.start_pc m.end_pc ≡ true
    → m.start_pc ≤ r.start_pc
    → holds t pc (record m { end_pc = if ltb m.end_pc r.end_pc then r.end_pc else m.end_pc })
      ≡ (holds t pc m || holds t pc r)
joined_holds t pc m r same touch h =
    join_intervals (m.try_index ==ℤ t) m.start_pc m.end_pc r.start_pc r.end_pc pc
      (leb→le r.start_pc m.end_pc touch) h
    ∙ ap (λ (z : ℤ). holds t pc m || ((z ==ℤ t) && (leb r.start_pc pc && ltb pc r.end_pc)))
        (==ℤ→eq m.try_index r.try_index same)

or_assoc : (a b c : Bool) → ((a || b) || c) ≡ (a || (b || c))
or_assoc true b c = refl
or_assoc false b c = refl

merge_from-covers :
    (t : ℤ) (pc : ℕ) (m : TryRegion) (rs : List TryRegion)
    → Starts m.start_pc rs
    → covers t pc (merge_from m rs) ≡ covers t pc (m ∷ rs)
unfolding merge_from
merge_from-covers t pc m [] s = refl
merge_from-covers t pc m (r ∷ rs) s =
    elim (Bool-cases ((m.try_index ==ℤ r.try_index) && leb r.start_pc m.end_pc)) [
      | inr apart ↦
          rw apart (ap (λ (x : Bool). holds t pc m || x) (merge_from-covers t pc r rs s.1))
      | inl together ↦
          let (same, touch) = and_parts _ _ together in
          let m' : TryRegion = record m {
            end_pc = if ltb m.end_pc r.end_pc then r.end_pc else m.end_pc;
          } in
          rw together (
            merge_from-covers t pc m' rs (Starts-weaken m.start_pc r.start_pc rs s.0 s.1)
            ∙ ap (λ (x : Bool). x || covers t pc rs) (joined_holds t pc m r same touch s.0)
            ∙ or_assoc (holds t pc m) (holds t pc r) (covers t pc rs))
    ]

pub merge_regions-covers :
    (t : ℤ) (pc : ℕ) (rs : List TryRegion)
    → Starts 0 rs
    → covers t pc (merge_regions rs) ≡ covers t pc rs
unfolding merge_regions
merge_regions-covers t pc [] s = refl
merge_regions-covers t pc (r ∷ rs) s = merge_from-covers t pc r rs s.1
