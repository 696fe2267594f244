-- ===== src/Dartfmt.antt =====
-- internal/dartfmt: the snapshot stream reader and its integer encodings.
pub mod Stream
pub mod Varint
