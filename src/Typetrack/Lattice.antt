-- ===== src/Typetrack/Lattice.antt =====
-- internal/typetrack/lattice.go: the elements of the type lattice, their equality and their meet.
pub mod View
pub mod Laws
use aotopsy.Base.{Bool, true, false, ◌==◌, ◌&&◌, ◌||◌, not, if◌then◌else◌, ℕ, Option, none, some}
use aotopsy.Base.Int.{ℤ, pos, negsuc, ◌==ℤ◌, is_nonneg}
use Prim.Native.String.{String}

pub data Kind : Type 0 where
  top known_class known_dispatch_index known_stub pp_base bottom : Kind

-- A kind is an int that counts from 0 in this order.
abbrev pub kind_number : Kind → ℕ
kind_number top = 0
kind_number known_class = 1
kind_number known_dispatch_index = 2
kind_number known_stub = 3
kind_number pp_base = 4
kind_number bottom = 5

abbrev pub is_kind : Kind → Kind → Bool
is_kind a b = kind_number a == kind_number b

pub record TypeLattice : Type 0 where
  pub kind : Kind
  pub class_id : ℤ
  pub dispatch_index : ℤ
  pub stub_name : String
  pub stub_off : ℤ
  pub selector_only : Bool
  pub selector_imm : ℤ
  pub pp_base_offset : ℤ

-- The zero value of every field but the kind.
abbrev pub of_kind : Kind → TypeLattice
of_kind k = record {
  kind = k;
  class_id = pos 0;
  dispatch_index = pos 0;
  stub_name = "";
  stub_off = pos 0;
  selector_only = false;
  selector_imm = pos 0;
  pp_base_offset = pos 0;
}

abbrev pub top_type : TypeLattice
top_type = of_kind top

abbrev pub bottom_type : TypeLattice
bottom_type = of_kind bottom

abbrev pub known_class_type : ℤ → TypeLattice
known_class_type id = record (of_kind known_class) { class_id = id }

abbrev pub known_dispatch : ℤ → TypeLattice
known_dispatch slot = record (of_kind known_dispatch_index) { dispatch_index = slot }

abbrev pub selector_dispatch : ℤ → TypeLattice
selector_dispatch imm = record (of_kind known_dispatch_index) {
  selector_only = true;
  selector_imm = imm;
}

abbrev pub known_stub_type : String → ℤ → TypeLattice
known_stub_type name off = record (of_kind known_stub) { stub_name = name; stub_off = off }

-- `a != b` on bool.
abbrev pub differ : Bool → Bool → Bool
differ true b = not b
differ false b = b

unfoldable pub equal : TypeLattice → TypeLattice → Bool
equal a b =
    if not (is_kind a.kind b.kind)
    then false
    else if is_kind a.kind known_class
    then a.class_id ==ℤ b.class_id
    else if is_kind a.kind known_dispatch_index
    then (if differ a.selector_only b.selector_only
        then false
        else if a.selector_only
        then a.selector_imm ==ℤ b.selector_imm
        else a.dispatch_index ==ℤ b.dispatch_index)
    else if is_kind a.kind known_stub
    then a.stub_off ==ℤ b.stub_off
    else true

-- The classes' part of the meet: `lca` is nil or a function whose negative result means none.
unfoldable pub meet_class : TypeLattice → TypeLattice → Option (ℤ → ℤ → ℤ) → TypeLattice
meet_class a b lca = if a.class_id ==ℤ b.class_id then a else elim lca [
  | none ↦ bottom_type
  | some f ↦
      let l = f a.class_id b.class_id in if is_nonneg l then known_class_type l else bottom_type
]

unfoldable pub meet_dispatch : TypeLattice → TypeLattice → TypeLattice
meet_dispatch a b =
    if differ a.selector_only b.selector_only
    then bottom_type
    else if a.selector_only
    then (if a.selector_imm ==ℤ b.selector_imm then a else bottom_type)
    else if a.dispatch_index ==ℤ b.dispatch_index
    then a
    else bottom_type

unfoldable pub meet_type : TypeLattice → TypeLattice → Option (ℤ → ℤ → ℤ) → TypeLattice
unfolding meet_class meet_dispatch
meet_type a b lca =
    if is_kind a.kind top
    then b
    else if is_kind b.kind top
    then a
    else if is_kind a.kind bottom || is_kind b.kind bottom
    then bottom_type
    else if is_kind a.kind known_stub && is_kind b.kind known_stub
    then (if a.stub_off ==ℤ b.stub_off then a else bottom_type)
    else if is_kind a.kind known_stub || is_kind b.kind known_stub
    then bottom_type
    else if is_kind a.kind known_class && is_kind b.kind known_class
    then meet_class a b lca
    else if is_kind a.kind known_dispatch_index && is_kind b.kind known_dispatch_index
    then meet_dispatch a b
    else if is_kind a.kind pp_base && is_kind b.kind pp_base
    then (if a.pp_base_offset ==ℤ b.pp_base_offset then a else bottom_type)
    else if is_kind a.kind pp_base || is_kind b.kind pp_base
    then bottom_type
    else bottom_type
