-- ===== src/Tests.antt =====
-- The theorems and the definitions at concrete inputs.
mod Wire
mod Trees
mod Scripts
mod Spends
mod Peers
mod Blocks
mod Chain
mod Messages
