-- ===== src/Mempool.antt =====
-- mempool/: the pool of transactions whose parents are not known.
pub mod OrphanPool
