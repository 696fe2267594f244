-- ===== src/Disasm.antt =====
-- internal/disasm: the control flow graph of a function.
pub mod Branch
pub mod CallEdges
pub mod Lvalue
pub mod Fixpoint
pub mod Partition
pub mod Provenance
