-- ===== src/Typetrack/Hierarchy/Bound.antt =====
-- The order of the type lattice on a superclass map without cycles, and the meet as the greatest
-- lower bound in it.
use aotopsy.Base.{◌≡◌, ◌↔◌, refl, ap, arith, Bool-cases, inl, inr, Option, none, some}
use aotopsy.Base.Int.{ℤ, ◌==ℤ◌}
use aotopsy.Typetrack.Lattice.{TypeLattice, meet_type}
use aotopsy.Typetrack.Lattice.View.{Info, unknown, class, slot, selector, stub, base, conflict}
use aotopsy.Typetrack.Lattice.View.{view, agree, meet_info, of_class, class_join, view-meet_type}
use aotopsy.Typetrack.Lattice.Laws.{meet_info_comm, meet_info_idem}
use aotopsy.Typetrack.Hierarchy.{Hierarchy}
use aotopsy.Typetrack.Hierarchy.Nearest.{
  IsAcyclic, lca_of, lca_of-IsJoin, Above, Above-trans, Common, Least, nothing, least,
  class_join-Least,
}
use aotopsy.Typetrack.Hierarchy.Meet.{IsLca, same_lca}
use mathlib.Core.Path.{fun_ext}

-- A conflict is below everything, everything is below the unknown type, and a class is below its
-- subclasses. No other two elements are related.
pub data IsBelow (h : Hierarchy) (acyclic : IsAcyclic h) : Info → Info → Type 0 where
  lowest : {y : Info} → IsBelow h acyclic conflict y
  highest : {x : Info} → IsBelow h acyclic x unknown
  same : {x : Info} → IsBelow h acyclic x x
  superclass : {c d : ℤ} → Above h acyclic d c → IsBelow h acyclic (class c) (class d)

module _ (h : Hierarchy) (acyclic : IsAcyclic h) where
  meet_of : Info → Info → Info
  meet_of x y = meet_info (some (lca_of h acyclic)) x y

  of_class-IsBelow :
      (a b : ℤ) (o : Option ℤ)
      → Least h acyclic (Common h acyclic a b) o
      → IsBelow h acyclic (of_class o) (class a)
  of_class-IsBelow a b none (nothing none_p) = lowest
  of_class-IsBelow a b (some l) (least p up_p) = superclass p.0

  of_class-above :
      (a b c : ℤ) (o : Option ℤ)
      → Least h acyclic (Common h acyclic a b) o
      → Common h acyclic a b c
      → IsBelow h acyclic (class c) (of_class o)
  of_class-above a b c none (nothing none_p) q = absurd (none_p c q)
  of_class-above a b c (some l) (least p up_p) q = superclass (up_p c q)

  agree-IsBelow : (a b : ℤ) (x : Info) → IsBelow h acyclic (agree a b x) x
  agree-IsBelow a b x = elim (Bool-cases (a ==ℤ b)) [ inl e ↦ rw e same | inr e ↦ rw e lowest ]

  meet_of-unknown : (x : Info) → meet_of x unknown ≡ x
  unfolding meet_of meet_info
  meet_of-unknown x = ground arith

  meet_of-left : (x y : Info) → IsBelow h acyclic (meet_of x y) x
  unfolding meet_of meet_info
  meet_of-left unknown y = highest
  meet_of-left x unknown = rw (meet_of-unknown x) same
  meet_of-left (class a) (class b) =
      of_class-IsBelow a b (class_join (some (lca_of h acyclic)) a b)
        (class_join-Least h acyclic a b)
  meet_of-left (slot a) (slot b) = agree-IsBelow a b (slot a)
  meet_of-left (selector a) (selector b) = agree-IsBelow a b (selector a)
  meet_of-left (stub a) (stub b) = agree-IsBelow a b (stub a)
  meet_of-left (base a) (base b) = agree-IsBelow a b (base a)
  meet_of-left x y = lowest

  meet_of-right : (x y : Info) → IsBelow h acyclic (meet_of x y) y
  unfolding meet_of
  meet_of-right x y =
      rw (meet_info_comm (some (lca_of h acyclic)) (lca_of-IsJoin h acyclic) x y) (meet_of-left y x)

  meet_of-classes :
      (a b c : ℤ)
      → Common h acyclic a b c
      → IsBelow h acyclic (class c) (meet_of (class a) (class b))
  unfolding meet_of meet_info
  meet_of-classes a b c q =
      of_class-above a b c (class_join (some (lca_of h acyclic)) a b)
        (class_join-Least h acyclic a b) q

  meet_of-greatest :
      {x y z : Info}
      → IsBelow h acyclic z x
      → IsBelow h acyclic z y
      → IsBelow h acyclic z (meet_of x y)
  unfolding meet_of meet_info
  meet_of-greatest lowest q = lowest
  meet_of-greatest p lowest = lowest
  meet_of-greatest highest q = q
  meet_of-greatest {x = x} p highest = rw (meet_of-unknown x) p
  meet_of-greatest {z = z} same same = rw (meet_info_idem (some (lca_of h acyclic)) z) same
  meet_of-greatest same (superclass {c} {d} q) = meet_of-classes c d c (inl refl, q)
  meet_of-greatest (superclass {c} {d} p) same = meet_of-classes d c c (p, inl refl)
  meet_of-greatest (superclass {c} {d} p) (superclass {d = e} q) = meet_of-classes d e c (p, q)

  IsBelow-trans :
      {x y z : Info} → IsBelow h acyclic x y → IsBelow h acyclic y z → IsBelow h acyclic x z
  IsBelow-trans lowest q = lowest
  IsBelow-trans p highest = highest
  IsBelow-trans same q = q
  IsBelow-trans p same = p
  IsBelow-trans (superclass {c} {d} p) (superclass {d = e} q) =
      superclass (Above-trans h acyclic e d c q p)

-- With the LCA of a superclass map without cycles for its `lca`, the meet is the greatest lower
-- bound of its arguments, by what the elements say: just what is below both is below it.
pub meet_type-greatest :
    (h : Hierarchy) (acyclic : IsAcyclic h) (f : ℤ → ℤ → ℤ) (a b : TypeLattice) (z : Info)
    → IsLca h f
    → IsBelow h acyclic z (view (meet_type a b (some f)))
      ↔ (IsBelow h acyclic z (view a) × IsBelow h acyclic z (view b))
unfolding meet_of
meet_type-greatest h acyclic f a b z is_lca =
    let e : f ≡ lca_of h acyclic = fun_ext (λ c. fun_ext (same_lca h acyclic f is_lca c)) in
    let says = ap (λ g. meet_info (some g) (view a) (view b)) e in
    rw (view-meet_type a b (some f), says)
      (
        λ p. (
          IsBelow-trans h acyclic p (meet_of-left h acyclic (view a) (view b)),
          IsBelow-trans h acyclic p (meet_of-right h acyclic (view a) (view b)),
        ),
        λ p. meet_of-greatest h acyclic p.0 p.1,
      )
