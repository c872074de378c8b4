-- ===== src/Chain.antt =====
-- The chain: its parameters, its targets and subsidies, and the outputs that are unspent.
pub mod Params
pub mod Networks
pub mod Utxos
pub mod Undo
pub mod Subsidy
pub mod Difficulty
pub mod Index
