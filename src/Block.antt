-- ===== src/Block.antt =====
-- block/block.py: block headers and blocks.
pub mod Header
pub mod Body
pub mod Reader
pub mod RoundTrip
