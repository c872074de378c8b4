-- ===== src/Formats.antt =====
-- core/formats.py: the byte sizes and limits that the modelled code reads, by the class that
-- holds them there.
pub mod TxSize
pub mod ScriptLimit
pub mod BlockSize
