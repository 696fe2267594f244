-- ===== src/Cluster/TryRegions.antt =====
-- internal/cluster/pcdescriptors.go: the try regions that the descriptors imply.

pub mod Merge
pub mod Active
pub mod Covers
use aotopsy.Base.{
  ℕ, ◌≤◌, Bool, true, false, ◌&&◌, ◌||◌, ltb, leb, if◌then◌else◌, List, [], ◌∷◌, ◌++◌, Option, none,
  some,
}
use aotopsy.Base.Int.{ℤ, pos, negsuc, ◌==ℤ◌}
use aotopsy.Cluster.PcDescriptors.{PcDescriptorEntry}

pub record TryRegion : Type 0 where
  pub start_pc : ℕ
  pub end_pc : ℕ
  pub try_index : ℤ

abbrev pub invalid_try_index : ℤ
invalid_try_index = negsuc 0

-- `sort.SliceStable` by the offset: the result of a stable sort is unique.
pub insert_by_pc : PcDescriptorEntry → List PcDescriptorEntry → List PcDescriptorEntry
insert_by_pc e [] = e ∷ []
insert_by_pc e (x ∷ xs) =
    let later = x ∷ insert_by_pc e xs in if leb e.pc_offset x.pc_offset then e ∷ x ∷ xs else later

pub sort_by_pc : List PcDescriptorEntry → List PcDescriptorEntry
unfolding insert_by_pc
sort_by_pc [] = []
sort_by_pc (e ∷ es) = insert_by_pc e (sort_by_pc es)

-- A region that ends where it starts is left out.
abbrev pub region : ℕ → ℕ → ℤ → List TryRegion
region start end t =
    if ltb start end then record { start_pc = start; end_pc = end; try_index = t } ∷ [] else []

-- The index and the start of the run that a descriptor begins.
abbrev pub begin_run : PcDescriptorEntry → Option (ℤ × ℕ)
begin_run e = if e.try_index ==ℤ invalid_try_index then none else some (e.try_index, e.pc_offset)

-- The first loop: the run at hand, whose end is the next descriptor with another index.
pub scan_runs : ℕ → Option (ℤ × ℕ) → List PcDescriptorEntry → List TryRegion
scan_runs end_pc none [] = []
scan_runs end_pc (some (t, start)) [] = region start end_pc t
scan_runs end_pc none (e ∷ es) = scan_runs end_pc (begin_run e) es
scan_runs end_pc (some (t, start)) (e ∷ es) =
    let same = scan_runs end_pc (some (t, start)) es in
    let other = region start e.pc_offset t ++ scan_runs end_pc (begin_run e) es in
    if e.try_index ==ℤ t then same else other

-- The second loop, with the last region of `merged`.
pub merge_from : TryRegion → List TryRegion → List TryRegion
merge_from m [] = m ∷ []
merge_from m (r ∷ rs) =
    let longer =
      merge_from (record m { end_pc = if ltb m.end_pc r.end_pc then r.end_pc else m.end_pc }) rs in
    let apart = m ∷ merge_from r rs in
    if (m.try_index ==ℤ r.try_index) && leb r.start_pc m.end_pc then longer else apart

pub merge_regions : List TryRegion → List TryRegion
unfolding merge_from
merge_regions [] = []
merge_regions (r ∷ rs) = merge_from r rs

unfoldable pub build_try_regions : List PcDescriptorEntry → ℕ → List TryRegion
unfolding sort_by_pc scan_runs merge_regions
build_try_regions entries end_pc = merge_regions (scan_runs end_pc none (sort_by_pc entries))
