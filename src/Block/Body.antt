-- ===== src/Block/Body.antt =====
-- block/block.py, class Block. `now` stands for `int(time.time())`.
use bitclone.Base.{ℕ, ◌+◌, Result, ok, ◌>>=◌, List, length, map, replicate, for_each, sum}
use bitclone.Base.Bytes.{Bytes}
use bitclone.ByteStream.Writer.{◌<+>◌, write_compact_size, join_all}
use bitclone.Formats.BlockSize
use bitclone.Merkle.{MerkleTree, merkle_tree}
use bitclone.Tx.Transaction
use bitclone.Tx.Transaction.{Tx}
use bitclone.Block.Header
use bitclone.Block.Header.{BlockHeader, or_number, or_bytes}

pub record Block : Type 0 where
  pub version : ℕ
  pub prev_block : Bytes
  pub timestamp : ℕ
  pub bits : Bytes
  pub nonce : ℕ
  pub txs : List Tx
  pub merkle_tree : MerkleTree
  pub weight : ℕ

-- `_calculate_block_weight`
unfoldable pub calculate_block_weight : List Tx → Result ℕ
calculate_block_weight txs = do weights ← for_each Transaction.wu txs; ok (320 + sum weights)

-- `[t.txid for t in txs]`, with double SHA-256, which hashlib computes.
unfoldable pub txids : (Bytes → Bytes) → List Tx → Result (List Bytes)
txids hash256 txs = for_each (Transaction.txid hash256) txs

module _ (now : ℕ) (hash256 : Bytes → Bytes) where
  -- The constructor.
  unfoldable pub new : ℕ → Bytes → ℕ → Bytes → ℕ → List Tx → Result Block
  new version prev_block timestamp bits nonce txs = do
    ids ← txids hash256 txs
    tree ← merkle_tree hash256 ids
    weight ← calculate_block_weight txs
    ok (record {
      version = or_number version BlockSize.version;
      prev_block = or_bytes prev_block (replicate BlockSize.prev_block 0);
      timestamp = or_number timestamp now;
      bits = or_bytes bits BlockSize.genesis_block_bits;
      nonce = or_number nonce 0;
      txs = txs;
      merkle_tree = tree;
      weight = weight;
    })

  -- The Merkle root of `h` is not kept.
  unfoldable pub from_header : BlockHeader → List Tx → Result Block
  from_header h txs = new h.version h.prev_block h.timestamp h.bits h.nonce txs

  unfoldable pub get_header : Block → BlockHeader
  get_header b =
      Header.new now b.version b.prev_block b.merkle_tree.merkle_root b.timestamp b.bits b.nonce

  unfoldable pub block_id : Block → Result Bytes
  block_id b = Header.block_id hash256 (get_header b)

  unfoldable pub to_bytes : Block → Result Bytes
  to_bytes b =
      Header.to_bytes (get_header b)
      <+> write_compact_size (length b.txs)
      <+> join_all (map Transaction.to_bytes b.txs)
