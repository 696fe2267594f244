-- ===== src/Typetrack/Lattice/Laws.antt =====
-- The laws of the meet, up to what the elements say.
use aotopsy.Base.{true, false, ◌≡◌, refl, sym, ap, ◌∙◌, arith, Option, none, some}
use aotopsy.Base.Int.{ℤ, ◌==ℤ◌, ==ℤ_refl, ==ℤ→eq, ==ℤ_comm}
use aotopsy.Typetrack.Lattice.{TypeLattice, pp_base}
use aotopsy.Typetrack.Lattice.{equal, meet_type}
use aotopsy.Typetrack.Lattice.View.{Info, unknown, class, slot, selector, stub, base, conflict}
use aotopsy.Typetrack.Lattice.View.{view, meet_info, class_join, of_class, view-meet_type}

ruleset eq_laws = (arith, ==ℤ_refl, ==ℤ_comm, ==ℤ→eq)

abbrev pub Lca : Type 0
Lca = Option (ℤ → ℤ → ℤ)

abbrev pub join_left : Lca → Option ℤ → ℤ → Option ℤ
join_left lca none c = none
join_left lca (some l) c = class_join lca l c

abbrev pub join_right : Lca → ℤ → Option ℤ → Option ℤ
join_right lca a none = none
join_right lca a (some m) = class_join lca a m

-- The join of classes is commutative and associative, where one is there.
pub record IsJoin (lca : Lca) : Type 0 where
  pub commutes : (a b : ℤ) → class_join lca a b ≡ class_join lca b a
  pub associates :
      (a b c : ℤ) → join_left lca (class_join lca a b) c ≡ join_right lca a (class_join lca b c)

module _ (lca : Lca) where
  pub meet_info_idem : (x : Info) → meet_info lca x x ≡ x
  unfolding meet_info class_join
  meet_info_idem unknown = refl
  meet_info_idem (class a) = ground (arith, ==ℤ_refl a)
  meet_info_idem (slot a) = ground (arith, ==ℤ_refl a)
  meet_info_idem (selector a) = ground (arith, ==ℤ_refl a)
  meet_info_idem (stub a) = ground (arith, ==ℤ_refl a)
  meet_info_idem (base a) = ground (arith, ==ℤ_refl a)
  meet_info_idem conflict = refl

  module _ (j : IsJoin lca) where
    pub meet_info_comm : (x y : Info) → meet_info lca x y ≡ meet_info lca y x
    unfolding meet_info
    meet_info_comm (class a) (class b) = ap of_class (j.commutes a b)
    meet_info_comm (slot a) (slot b) = ground (arith, ==ℤ_comm a b, ==ℤ→eq a b)
    meet_info_comm (selector a) (selector b) = ground (arith, ==ℤ_comm a b, ==ℤ→eq a b)
    meet_info_comm (stub a) (stub b) = ground (arith, ==ℤ_comm a b, ==ℤ→eq a b)
    meet_info_comm (base a) (base b) = ground (arith, ==ℤ_comm a b, ==ℤ→eq a b)
    meet_info_comm unknown y = ground arith
    meet_info_comm x y = ground arith

    of_class-left :
        (o : Option ℤ) (c : ℤ) → meet_info lca (of_class o) (class c) ≡ of_class (join_left lca o c)
    unfolding meet_info
    of_class-left none c = refl
    of_class-left (some l) c = refl

    of_class-right :
        (a : ℤ) (o : Option ℤ)
        → meet_info lca (class a) (of_class o) ≡ of_class (join_right lca a o)
    unfolding meet_info
    of_class-right a none = refl
    of_class-right a (some m) = refl

    meet_info_assoc :
        (x y z : Info) → meet_info lca (meet_info lca x y) z ≡ meet_info lca x (meet_info lca y z)
    unfolding meet_info
    meet_info_assoc (class a) (class b) (class c) =
        of_class-left (class_join lca a b) c
        ∙ ap of_class (j.associates a b c)
        ∙ sym (of_class-right a (class_join lca b c))
    meet_info_assoc (slot a) (slot b) (slot c) = ground (arith, ==ℤ→eq a b, ==ℤ→eq b c)
    meet_info_assoc (selector a) (selector b) (selector c) = ground (arith, ==ℤ→eq a b, ==ℤ→eq b c)
    meet_info_assoc (stub a) (stub b) (stub c) = ground (arith, ==ℤ→eq a b, ==ℤ→eq b c)
    meet_info_assoc (base a) (base b) (base c) = ground (arith, ==ℤ→eq a b, ==ℤ→eq b c)
    meet_info_assoc unknown y z = ground arith
    meet_info_assoc x y z = ground arith

-- The meet is idempotent, whatever the hierarchy.
pub meet_type_idem : (a : TypeLattice) (lca : Lca) → view (meet_type a a lca) ≡ view a
meet_type_idem a lca = view-meet_type a a lca ∙ meet_info_idem lca (view a)

-- The meet is commutative where the join of classes is.
pub meet_type_comm :
    (a b : TypeLattice) (lca : Lca)
    → IsJoin lca
    → view (meet_type a b lca) ≡ view (meet_type b a lca)
meet_type_comm a b lca j =
    view-meet_type a b lca ∙ meet_info_comm lca j (view a) (view b) ∙ sym (view-meet_type b a lca)

-- The meet is associative where the join of classes is.
pub meet_type_assoc :
    (a b c : TypeLattice) (lca : Lca)
    → IsJoin lca
    → view (meet_type (meet_type a b lca) c lca) ≡ view (meet_type a (meet_type b c lca) lca)
meet_type_assoc a b c lca j =
    view-meet_type (meet_type a b lca) c lca
    ∙ ap (λ x. meet_info lca x (view c)) (view-meet_type a b lca)
    ∙ meet_info_assoc lca j (view a) (view b) (view c)
    ∙ ap (meet_info lca (view a)) (sym (view-meet_type b c lca))
    ∙ sym (view-meet_type a (meet_type b c lca) lca)

-- Equal looks at no offset of a pool base: two bases are equal to it whatever their offsets, while
-- their meet is a conflict where the offsets differ.
equal_ignores_offset :
    (a b : TypeLattice) (lca : Lca)
    → a.kind ≡ pp_base
    → b.kind ≡ pp_base
    → (a.pp_base_offset ==ℤ b.pp_base_offset) ≡ false
    → (equal a b ≡ true) × (view (meet_type a b lca) ≡ conflict)
unfolding equal meet_type view
equal_ignores_offset a b lca p q h = ground arith
