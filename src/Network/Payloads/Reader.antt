-- ===== src/Network/Payloads/Reader.antt =====
-- network/messages/data_msg.py and network/datatypes/network_data.py, the readers.
use bitclone.Base.{
  ℕ, zero, suc, ◌+◌, not, List, [], ◌∷◌, Error, ltb, ◌==◌, if◌then◌else◌, replicate,
}
use bitclone.ByteStream.{
  Parser, pure, raise, ◌>>=◌, returning, read_stream, read_little_int, read_compact_size, read_many,
}
use bitclone.Tx.Reader as TxReader
use bitclone.Block.Header as BlockHeader
use bitclone.Block.Header.{BlockHeader, or_bytes}
use bitclone.Network.Payloads.{
  InvVector, GetBlocks, MerkleBlock, SendCmpct, BlockTxns, BlockTxnsRequest, PrefilledTx,
  HeaderAndShortIds, hash_length, max_inventory_entries, max_headers_results, new_inv_vector,
  new_inv, new_headers, decode_from,
}

unfoldable pub read_inv_vector : Parser InvVector
read_inv_vector = do
  int_type ← read_little_int 4
  obj_hash ← read_stream hash_length
  returning (new_inv_vector int_type obj_hash)

unfoldable pub read_inv : Parser (List InvVector)
read_inv = do
  count ← read_compact_size
  if ltb max_inventory_entries count
      then raise Error.network_data_error
      else (do items ← read_many count read_inv_vector; returning (new_inv items))

unfoldable pub read_get_blocks : Parser GetBlocks
read_get_blocks = do
  version ← read_little_int 4
  hash_count ← read_compact_size
  locator_hashes ← read_many hash_count (read_stream hash_length)
  hash_stop ← read_stream hash_length
  pure (record {
    version = version;
    locator_hashes = locator_hashes;
    hash_stop = or_bytes hash_stop (replicate hash_length 0);
  })

-- One round of the loop of `Headers.from_payload`.
unfoldable pub read_counted_header : ℕ → Parser BlockHeader
read_counted_header now = do
  header ← BlockHeader.from_bytes now
  tx_count ← read_little_int 1
  if not (tx_count == 0) then raise Error.network_data_error else pure header

unfoldable pub read_headers : ℕ → Parser (List BlockHeader)
read_headers now = do
  count ← read_compact_size
  if ltb max_headers_results count
      then raise Error.network_data_error
      else (do headers ← read_many count (read_counted_header now); returning (new_headers headers))

unfoldable pub read_merkle_block : ℕ → Parser MerkleBlock
read_merkle_block now = do
  header ← BlockHeader.from_bytes now
  tx_num ← read_little_int 4
  hash_num ← read_compact_size
  hashes ← read_many hash_num (read_stream hash_length)
  flag_bytes ← read_compact_size
  flags ← read_stream flag_bytes
  pure (record { header = header; tx_num = tx_num; hashes = hashes; flags = flags })

unfoldable pub read_send_cmpct : Parser SendCmpct
read_send_cmpct = do
  boolint ← read_little_int 1
  version ← read_little_int 8
  pure (record { announce = not (boolint == 0); version = version })

unfoldable pub read_block_txns : Parser BlockTxns
read_block_txns = do
  block_hash ← read_stream hash_length
  tx_len ← read_compact_size
  txs ← read_many tx_len TxReader.from_bytes
  pure (record { block_hash = block_hash; txs = txs })

unfoldable pub read_block_txns_request : Parser BlockTxnsRequest
read_block_txns_request = do
  block_hash ← read_stream hash_length
  indices_len ← read_compact_size
  indices_diff ← read_many indices_len read_compact_size
  pure (record { block_hash = block_hash; indices = decode_from 0 indices_diff })

unfoldable pub read_prefilled_tx : ℕ → Parser PrefilledTx
read_prefilled_tx next = do
  diff_ind ← read_compact_size
  tx ← TxReader.from_bytes
  pure (record { block_index = next + diff_ind; tx = tx })

-- The loop over the prefilled transactions, each of which gives the next its `prev_ind`.
unfoldable pub read_prefilled_txs : ℕ → ℕ → Parser (List PrefilledTx)
read_prefilled_txs zero next = pure []
read_prefilled_txs (suc n) next = do
  p ← read_prefilled_tx next
  ps ← read_prefilled_txs n (suc p.block_index)
  pure (p ∷ ps)

unfoldable pub read_header_and_short_ids : Parser HeaderAndShortIds
read_header_and_short_ids = do
  header ← read_stream 80
  nonce ← read_little_int 8
  short_id_len ← read_compact_size
  short_ids ← read_many short_id_len (read_stream 6)
  prefilled_tx_len ← read_compact_size
  prefilled_txs ← read_prefilled_txs prefilled_tx_len 0
  pure (record {
    header = header;
    nonce = nonce;
    short_ids = short_ids;
    prefilled_txs = prefilled_txs;
  })
