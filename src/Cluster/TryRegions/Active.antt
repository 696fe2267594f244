-- ===== src/Cluster/TryRegions/Active.antt =====
-- The descriptor that is active at a pc, in any order of the descriptors.
use aotopsy.Base.{
  ℕ, ◌≤◌, ◌<◌, ◌≡◌, refl, ap, ◌∙◌, sym, arith, Bool, false, not, ◌&&◌, ltb, leb, if◌then◌else◌,
  List, [], ◌∷◌, Bool-cases, inl, inr, Option, none, some, Option-cases, leb→le,
}
use mathlib.Core.Path.{subst}
use aotopsy.Base.Int.{ℤ, ◌==ℤ◌}
use aotopsy.Cluster.PcDescriptors.{PcDescriptorEntry}
use aotopsy.Cluster.TryRegions.{invalid_try_index, insert_by_pc, sort_by_pc}

-- The later of two descriptors at or before a pc: the second where their offsets are equal.
abbrev pub later_of : ℕ → PcDescriptorEntry → Option PcDescriptorEntry → Option PcDescriptorEntry
later_of pc e none = if leb e.pc_offset pc then some e else none
later_of pc e (some f) =
    if leb e.pc_offset pc && ltb f.pc_offset e.pc_offset then some e else some f

-- The last descriptor at or before a pc.
unfoldable pub active : ℕ → List PcDescriptorEntry → Option PcDescriptorEntry
active pc [] = none
active pc (e ∷ es) = later_of pc e (active pc es)

-- The pc is in the try block of the index.
abbrev pub holds_index : ℤ → Option PcDescriptorEntry → Bool
holds_index t none = false
holds_index t (some e) = (e.try_index ==ℤ t) && not (e.try_index ==ℤ invalid_try_index)

abbrev pub Sorted : ℕ → List PcDescriptorEntry → Type 0
Sorted lo [] = Unit {0}
Sorted lo (e ∷ es) = (lo ≤ e.pc_offset) × Sorted e.pc_offset es

pub Sorted-weaken :
    (lo hi : ℕ) (es : List PcDescriptorEntry) → lo ≤ hi → Sorted hi es → Sorted lo es
Sorted-weaken lo hi [] h s = tt
Sorted-weaken lo hi (e ∷ es) h s = (omega (arith, h, s.0), s.1)

insert-Sorted :
    (lo : ℕ) (e : PcDescriptorEntry) (es : List PcDescriptorEntry)
    → lo ≤ e.pc_offset
    → Sorted lo es
    → Sorted lo (insert_by_pc e es)
unfolding insert_by_pc
insert-Sorted lo e [] h s = (h, tt)
insert-Sorted lo e (x ∷ xs) h s = elim (Bool-cases (leb e.pc_offset x.pc_offset)) [
  | inl p ↦ rw p (h, (leb→le _ _ p, s.1))
  | inr p ↦ rw p (s.0, insert-Sorted x.pc_offset e xs (ground (arith, p)) s.1)
]

pub sort-Sorted : (es : List PcDescriptorEntry) → Sorted 0 (sort_by_pc es)
unfolding sort_by_pc
sort-Sorted [] = tt
sort-Sorted (e ∷ es) = insert-Sorted 0 e (sort_by_pc es) (omega arith) (sort-Sorted es)

-- Descriptors at different offsets may change places.
later_of-swap :
    (pc : ℕ) (e x : PcDescriptorEntry) (o : Option PcDescriptorEntry)
    → x.pc_offset < e.pc_offset
    → later_of pc x (later_of pc e o) ≡ later_of pc e (later_of pc x o)
later_of-swap pc e x none h = ground arith
later_of-swap pc e x (some f) h = ground arith

active-insert :
    (pc : ℕ) (e : PcDescriptorEntry) (es : List PcDescriptorEntry)
    → active pc (insert_by_pc e es) ≡ active pc (e ∷ es)
unfolding active insert_by_pc
active-insert pc e [] = refl
active-insert pc e (x ∷ xs) = elim (Bool-cases (leb e.pc_offset x.pc_offset)) [
  | inl p ↦ rw p refl
  | inr p ↦ rw p (
      ap (later_of pc x) (active-insert pc e xs)
      ∙ later_of-swap pc e x (active pc xs) (ground (arith, p)))
]

pub active-sort : (pc : ℕ) (es : List PcDescriptorEntry) → active pc (sort_by_pc es) ≡ active pc es
unfolding active sort_by_pc
active-sort pc [] = refl
active-sort pc (e ∷ es) =
    active-insert pc e (sort_by_pc es) ∙ ap (later_of pc e) (active-sort pc es)

-- A descriptor that is not before the active one does not replace it.
pub later_of-kept :
    (pc : ℕ) (e f : PcDescriptorEntry) → e.pc_offset ≤ f.pc_offset → later_of pc e (some f) ≡ some f
later_of-kept pc e f h = ground arith

later_alone :
    (pc lo : ℕ) (x f : PcDescriptorEntry)
    → lo ≤ x.pc_offset
    → later_of pc x none ≡ some f
    → (lo ≤ f.pc_offset) × (f.pc_offset ≤ pc)
later_alone pc lo x f h e = ground arith

-- The descriptor that is active among sorted ones.
pub active-bounds :
    (pc lo : ℕ) (es : List PcDescriptorEntry) (f : PcDescriptorEntry)
    → Sorted lo es
    → active pc es ≡ some f
    → (lo ≤ f.pc_offset) × (f.pc_offset ≤ pc)
unfolding active
active-bounds pc lo [] f s e = cc
active-bounds pc lo (x ∷ xs) f s e = elim (Option-cases (active pc xs)) [
  | inl none_after ↦
      let e' : later_of pc x none ≡ some f = (rw none_after at e) in later_alone pc lo x f s.0 e'
  | inr (g, after) ↦
      let e' : later_of pc x (some g) ≡ some f = (rw after at e) in
      let bounds = active-bounds pc x.pc_offset xs g s.1 after in
      let same = later_of-kept pc x g bounds.0 in
      let f_is : g ≡ f = (let h = sym same ∙ e' in cc) in
      subst (λ y. (lo ≤ y.pc_offset) × (y.pc_offset ≤ pc)) f_is (omega (arith, bounds, s.0))
]
