-- ===== src/Network/Payloads.antt =====
-- network/messages/data_msg.py and network/datatypes/network_data.py: the payloads of the messages that
-- carry blocks, headers, transactions and inventories. A field that the source checks where it makes
-- the object is checked where the reader makes it.
pub mod Reader
pub mod RoundTrip
pub mod Objects
pub mod Messages
use bitclone.Base.{
  ℕ, zero, suc, ◌+◌, ◌-◌, Result, Error, ok, err, ◌>>=◌, Bool, true, false, not, ◌||◌, List, [],
  ◌∷◌, length, map, ltb, leb, ◌==◌, if◌then◌else◌,
}
use bitclone.Base.Int.{ℤ, pos, negsuc, sub_ℕ}
use bitclone.Base.Bytes.{Bytes, int_to_le}
use bitclone.ByteStream.Writer.{◌<+>◌, write_compact_size, join_all}
use bitclone.Tx.Transaction
use bitclone.Tx.Transaction.{Tx}
use bitclone.Block.Header as BlockHeader
use bitclone.Block.Header.{BlockHeader}

-- NETWORK of core/formats.py.
abbrev pub hash_length : ℕ
hash_length = 32

abbrev pub max_inventory_entries : ℕ
max_inventory_entries = 50_000

abbrev pub max_headers_results : ℕ
max_headers_results = 2_000

-- InvType, with the values of its members.
abbrev pub inv_types : List ℕ
inv_types = 0 ∷ 1 ∷ 2 ∷ 3 ∷ 4 ∷ 0x4000_0001 ∷ 0x4000_0002 ∷ 0x4000_0003 ∷ []

abbrev pub one_of : ℕ → List ℕ → Bool
one_of n [] = false
one_of n (m ∷ ms) = (n == m) || one_of n ms

pub record InvVector : Type 0 where
  pub inv_type : ℕ
  pub obj_hash : Bytes

-- The constructor.
unfoldable pub new_inv_vector : ℕ → Bytes → Result InvVector
new_inv_vector inv_type obj_hash =
    if not (length obj_hash == hash_length)
    then err Error.network_data_error
    else if one_of inv_type inv_types
    then ok (record { inv_type = inv_type; obj_hash = obj_hash })
    else err Error.network_data_error

unfoldable pub write_inv_vector : InvVector → Result Bytes
write_inv_vector v = int_to_le 4 v.inv_type <+> ok v.obj_hash

-- InvParent: Inv, GetData and NotFound.
unfoldable pub new_inv : List InvVector → Result (List InvVector)
new_inv items =
    if ltb max_inventory_entries (length items) then err Error.network_data_error else ok items

unfoldable pub write_inv : List InvVector → Result Bytes
write_inv items = write_compact_size (length items) <+> join_all (map write_inv_vector items)

-- GetBlockParent: GetBlocks and GetHeaders.
pub record GetBlocks : Type 0 where
  pub version : ℕ
  pub locator_hashes : List Bytes
  pub hash_stop : Bytes

unfoldable pub write_get_blocks : GetBlocks → Result Bytes
write_get_blocks m =
    int_to_le 4 m.version
    <+> write_compact_size (length m.locator_hashes)
    <+> join_all (map ok m.locator_hashes)
    <+> ok m.hash_stop

-- Headers: each is followed by a count of no transactions.
unfoldable pub new_headers : List BlockHeader → Result (List BlockHeader)
new_headers headers =
    if ltb max_headers_results (length headers) then err Error.network_data_error else ok headers

unfoldable pub write_counted_header : BlockHeader → Result Bytes
write_counted_header h = BlockHeader.to_bytes h <+> ok (0 ∷ [])

unfoldable pub write_headers : List BlockHeader → Result Bytes
write_headers headers =
    write_compact_size (length headers) <+> join_all (map write_counted_header headers)

pub record MerkleBlock : Type 0 where
  pub header : BlockHeader
  pub tx_num : ℕ
  pub hashes : List Bytes
  pub flags : Bytes

unfoldable pub write_merkle_block : MerkleBlock → Result Bytes
write_merkle_block m =
    BlockHeader.to_bytes m.header
    <+> int_to_le 4 m.tx_num
    <+> write_compact_size (length m.hashes)
    <+> join_all (map ok m.hashes)
    <+> write_compact_size (length m.flags)
    <+> ok m.flags

pub record SendCmpct : Type 0 where
  pub announce : Bool
  pub version : ℕ

unfoldable pub write_send_cmpct : SendCmpct → Result Bytes
write_send_cmpct m = int_to_le 1 (if m.announce then 1 else 0) <+> int_to_le 8 m.version

pub record BlockTxns : Type 0 where
  pub block_hash : Bytes
  pub txs : List Tx

unfoldable pub write_block_txns : BlockTxns → Result Bytes
write_block_txns m =
    ok m.block_hash
    <+> write_compact_size (length m.txs)
    <+> join_all (map Transaction.to_bytes m.txs)

-- `encode_differential` and `decode_differential` of data/encoding.py, from the index `next` on,
-- which is one above `prev_index`.
unfoldable pub encode_from : ℕ → List ℕ → List ℤ
encode_from next [] = []
encode_from next (i ∷ is) = sub_ℕ i next ∷ encode_from (suc i) is

unfoldable pub decode_from : ℕ → List ℕ → List ℕ
decode_from next [] = []
decode_from next (d ∷ ds) = (next + d) ∷ decode_from (suc (next + d)) ds

-- `write_compact_size` of a number that may be negative, which has no `to_bytes`.
unfoldable pub write_difference : ℤ → Result Bytes
write_difference (pos n) = write_compact_size n
write_difference (negsuc n) = err Error.overflow_error

pub record BlockTxnsRequest : Type 0 where
  pub block_hash : Bytes
  pub indices : List ℕ

unfoldable pub write_block_txns_request : BlockTxnsRequest → Result Bytes
write_block_txns_request m =
    ok m.block_hash
    <+> write_compact_size (length m.indices)
    <+> join_all (map write_difference (encode_from 0 m.indices))

pub record PrefilledTx : Type 0 where
  pub block_index : ℕ
  pub tx : Tx

-- `next` is one above `prev_ind`; an index below it raises NetworkDataError.
unfoldable pub write_prefilled_tx : ℕ → PrefilledTx → Result Bytes
write_prefilled_tx next p =
    if ltb p.block_index next
    then err Error.network_data_error
    else write_compact_size (p.block_index - next) <+> Transaction.to_bytes p.tx

unfoldable pub write_prefilled_txs : ℕ → List PrefilledTx → Result Bytes
write_prefilled_txs next [] = ok []
write_prefilled_txs next (p ∷ ps) =
    write_prefilled_tx next p <+> write_prefilled_txs (suc p.block_index) ps

-- CmpctBlock: the header is kept as its bytes, and a short id is its six bytes.
pub record HeaderAndShortIds : Type 0 where
  pub header : Bytes
  pub nonce : ℕ
  pub short_ids : List Bytes
  pub prefilled_txs : List PrefilledTx

unfoldable pub write_header_and_short_ids : HeaderAndShortIds → Result Bytes
write_header_and_short_ids m =
    ok m.header
    <+> int_to_le 8 m.nonce
    <+> write_compact_size (length m.short_ids)
    <+> join_all (map ok m.short_ids)
    <+> write_compact_size (length m.prefilled_txs)
    <+> write_prefilled_txs 0 m.prefilled_txs
