-- ===== src/Typetrack.antt =====
-- internal/typetrack: the type lattice and the class hierarchy that its meet consults.
pub mod Lattice
pub mod Hierarchy
