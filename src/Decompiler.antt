-- ===== src/Decompiler.antt =====
-- internal/decompiler: the analyses of the flow graph that the emitter rests on.
pub mod Dom
