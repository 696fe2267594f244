-- ===== src/Typetrack/Lattice/View.antt =====
-- What an element of the lattice says, without the fields that its kind leaves unused, and the
-- meet on that: a flat lattice, but that two classes meet at a common superclass.
use aotopsy.Base.{true, ◌≡◌, ◌↔◌, ◌≢◌, arith, Option, none, some, if◌then◌else◌}
use aotopsy.Base.Int.{ℤ, ◌==ℤ◌, ==ℤ_refl, ==ℤ→eq, is_nonneg}
use aotopsy.Typetrack.Lattice.{
  TypeLattice, Kind, top, known_class, known_dispatch_index, known_stub, pp_base, bottom,
}
use aotopsy.Typetrack.Lattice.{equal, meet_type}

pub data Info : Type 0 where
  unknown : Info
  class : ℤ → Info
  slot : ℤ → Info
  selector : ℤ → Info
  stub : ℤ → Info
  base : ℤ → Info
  conflict : Info

abbrev pub view_as : Kind → TypeLattice → Info
view_as top a = unknown
view_as known_class a = class a.class_id
view_as known_dispatch_index a =
    if a.selector_only then selector a.selector_imm else slot a.dispatch_index
view_as known_stub a = stub a.stub_off
view_as pp_base a = base a.pp_base_offset
view_as bottom a = conflict

unfoldable pub view : TypeLattice → Info
view a = view_as a.kind a

-- The class at which two classes meet: the same one, or what `lca` finds.
unfoldable pub class_join : Option (ℤ → ℤ → ℤ) → ℤ → ℤ → Option ℤ
class_join lca a b =
    if a ==ℤ b
    then some a
    else elim lca [ none ↦ none | some f ↦ (if is_nonneg (f a b) then some (f a b) else none) ]

abbrev pub of_class : Option ℤ → Info
of_class none = conflict
of_class (some c) = class c

abbrev pub agree : ℤ → ℤ → Info → Info
agree a b x = if a ==ℤ b then x else conflict

unfoldable pub meet_info : Option (ℤ → ℤ → ℤ) → Info → Info → Info
meet_info lca unknown y = y
meet_info lca x unknown = x
meet_info lca (class a) (class b) = of_class (class_join lca a b)
meet_info lca (slot a) (slot b) = agree a b (slot a)
meet_info lca (selector a) (selector b) = agree a b (selector a)
meet_info lca (stub a) (stub b) = agree a b (stub a)
meet_info lca (base a) (base b) = agree a b (base a)
meet_info lca x y = conflict

-- The meet of the program is the meet of what its elements say.
pub view-meet_type :
    (a b : TypeLattice) (lca : Option (ℤ → ℤ → ℤ))
    → view (meet_type a b lca) ≡ meet_info lca (view a) (view b)
unfolding view meet_type meet_info class_join
view-meet_type a b lca = ground arith

-- Outside the elements for an offset into the pool, Equal holds just where two elements say the
-- same.
pub equal_iff : (a b : TypeLattice) → a.kind ≢ pp_base → (equal a b ≡ true) ↔ (view a ≡ view b)
unfolding equal view
equal_iff a b h = grind (arith, ==ℤ→eq, ==ℤ_refl)
