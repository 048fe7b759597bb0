-- ===== src/Bits.antt =====
-- index/bits.go, and what it uses of encoding/binary.
pub mod Uvarint
pub mod Deltas
pub mod Sections
pub mod RuneOffsets
pub mod Ngram
mod Examples
