-- ===== src/Tests.antt =====
-- Runs of the definitions, and the theorems at inputs that meet their hypotheses.
pub mod Arm64
pub mod Cluster
pub mod Dartfmt
pub mod Decompiler
pub mod Disasm
pub mod Provenance
pub mod Ranges
pub mod Typetrack
