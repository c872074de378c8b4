-- ===== src/Network/Messages/Reader.antt =====
-- network/messages/ctrl_msg.py and cf_msg.py, the readers of the payloads.
use bitclone.Base.{ℕ, List}
use bitclone.Base.Bytes.{Bytes}
use bitclone.ByteStream.{
  Parser, pure, ◌>>=◌, read_stream, read_little_int, read_compact_size, read_many,
}
use bitclone.Network.Payloads.{hash_length}
use bitclone.Network.Messages.{Message, MessageClass}

unfoldable pub read_range : (ℕ → ℕ → Bytes → Message) → Parser Message
read_range cls = do
  filter_type ← read_little_int 1
  start_height ← read_little_int 4
  stop_hash ← read_stream hash_length
  pure (cls filter_type start_height stop_hash)

unfoldable pub read_hashes : Parser (List Bytes)
read_hashes = do count ← read_compact_size; read_many count (read_stream hash_length)

unfoldable pub read_sized : Parser Bytes
read_sized = do size ← read_compact_size; read_stream size

unfoldable pub read_number : (ℕ → Message) → Parser Message
read_number cls = do n ← read_little_int 8; pure (cls n)

unfoldable pub read_filter_add : Parser Message
read_filter_add = do element ← read_sized; pure (Message.filter_add element)

unfoldable pub read_filter_load : Parser Message
read_filter_load = do
  filter_bytes ← read_compact_size
  bitfilter ← read_stream filter_bytes
  hash_num ← read_little_int 4
  tweak ← read_little_int 4
  flags ← read_little_int 1
  pure (Message.filter_load bitfilter hash_num tweak flags)

unfoldable pub read_cfilter : Parser Message
read_cfilter = do
  filter_type ← read_little_int 1
  block_hash ← read_stream hash_length
  filter_data ← read_sized
  pure (Message.cfilter filter_type block_hash filter_data)

unfoldable pub read_cfheaders : Parser Message
read_cfheaders = do
  filter_type ← read_little_int 1
  stop_hash ← read_stream hash_length
  previous_filter_header ← read_stream hash_length
  filter_hashes ← read_hashes
  pure (Message.cfheaders filter_type stop_hash previous_filter_header filter_hashes)

unfoldable pub read_get_cfcheckpt : Parser Message
read_get_cfcheckpt = do
  filter_type ← read_little_int 1
  stop_hash ← read_stream hash_length
  pure (Message.get_cfcheckpt filter_type stop_hash)

unfoldable pub read_cfcheckpt : Parser Message
read_cfcheckpt = do
  filter_type ← read_little_int 1
  stop_hash ← read_stream hash_length
  filter_headers ← read_hashes
  pure (Message.cfcheckpt filter_type stop_hash filter_headers)

-- The class method; an EmptyMessage reads nothing.
unfoldable pub from_payload : MessageClass → Parser Message
from_payload MessageClass.ping_class = read_number Message.ping
from_payload MessageClass.pong_class = read_number Message.pong
from_payload MessageClass.fee_filter_class = read_number Message.fee_filter
from_payload MessageClass.filter_add_class = read_filter_add
from_payload MessageClass.filter_load_class = read_filter_load
from_payload MessageClass.get_cfilters_class = read_range Message.get_cfilters
from_payload MessageClass.get_cfheaders_class = read_range Message.get_cfheaders
from_payload MessageClass.cfilter_class = read_cfilter
from_payload MessageClass.cfheaders_class = read_cfheaders
from_payload MessageClass.get_cfcheckpt_class = read_get_cfcheckpt
from_payload MessageClass.cfcheckpt_class = read_cfcheckpt
from_payload MessageClass.filter_clear_class = pure Message.filter_clear
from_payload MessageClass.get_addr_class = pure Message.get_addr
from_payload MessageClass.send_headers_class = pure Message.send_headers
from_payload MessageClass.send_addr_v2_class = pure Message.send_addr_v2
from_payload MessageClass.ver_ack_class = pure Message.ver_ack
from_payload MessageClass.wtxid_relay_class = pure Message.wtxid_relay
from_payload MessageClass.mem_pool_class = pure Message.mem_pool
