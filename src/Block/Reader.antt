-- ===== src/Block/Reader.antt =====
-- block/block.py, Block.from_bytes.
use bitclone.Base.{ℕ}
use bitclone.Base.Bytes.{Bytes}
use bitclone.ByteStream.{Parser, ◌>>=◌, returning, read_compact_size, read_many}
use bitclone.Tx.Reader
use bitclone.Block.Header
use bitclone.Block.Body.{Block, from_header}

unfoldable pub from_bytes : ℕ → (Bytes → Bytes) → Parser Block
from_bytes now hash256 = do
  header ← Header.from_bytes now
  tx_num ← read_compact_size
  txs ← read_many tx_num Reader.from_bytes
  returning (from_header now hash256 header txs)
