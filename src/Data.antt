-- ===== src/Data.antt =====
-- data/: conversions between the forms of a value.
pub mod TargetBits
