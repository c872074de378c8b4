-- ===== src/Network/Messages.antt =====
-- network/messages/ctrl_msg.py and cf_msg.py, and MemPool of data_msg.py: the messages that carry
-- numbers, hashes and filters. A flag of BloomFlags is its value: an IntFlag takes every number.
pub mod Reader
pub mod RoundTrip
use bitclone.Base.{
  ℕ, Result, ok, true, false, ◌++◌, List, [], ◌∷◌, Option, none, some, length, map, if◌then◌else◌,
}
use bitclone.Base.Bytes.{Bytes, int_to_le, bytes_eq}
use bitclone.ByteStream.{
  Parser, pure, ◌>>=◌, read_stream, read_little_int, read_compact_size, read_many,
}
use bitclone.ByteStream.Writer.{◌<+>◌, write_compact_size, join_all}
use bitclone.Network.Payloads.{hash_length}

-- The fields of a message, in the order of its constructor.
pub data Message : Type 0 where
  ping pong fee_filter : ℕ → Message
  filter_add : Bytes → Message
  filter_load : Bytes → ℕ → ℕ → ℕ → Message
  filter_clear get_addr send_headers send_addr_v2 ver_ack wtxid_relay mem_pool : Message
  get_cfilters get_cfheaders : ℕ → ℕ → Bytes → Message
  cfilter : ℕ → Bytes → Bytes → Message
  cfheaders : ℕ → Bytes → Bytes → List Bytes → Message
  get_cfcheckpt : ℕ → Bytes → Message
  cfcheckpt : ℕ → Bytes → List Bytes → Message

pub data MessageClass : Type 0 where
  ping_class pong_class fee_filter_class filter_add_class filter_load_class filter_clear_class
        get_addr_class send_headers_class send_addr_v2_class ver_ack_class wtxid_relay_class
        mem_pool_class get_cfilters_class cfilter_class get_cfheaders_class cfheaders_class
        get_cfcheckpt_class cfcheckpt_class :
      MessageClass

-- COMMAND, in ASCII.
unfoldable pub command : MessageClass → Bytes
command MessageClass.ping_class = 0x70 ∷ 0x69 ∷ 0x6e ∷ 0x67 ∷ []
command MessageClass.pong_class = 0x70 ∷ 0x6f ∷ 0x6e ∷ 0x67 ∷ []
command MessageClass.fee_filter_class =
    0x66 ∷ 0x65 ∷ 0x65 ∷ 0x66 ∷ 0x69 ∷ 0x6c ∷ 0x74 ∷ 0x65 ∷ 0x72 ∷ []
command MessageClass.filter_add_class =
    0x66 ∷ 0x69 ∷ 0x6c ∷ 0x74 ∷ 0x65 ∷ 0x72 ∷ 0x61 ∷ 0x64 ∷ 0x64 ∷ []
command MessageClass.filter_load_class =
    0x66 ∷ 0x69 ∷ 0x6c ∷ 0x74 ∷ 0x65 ∷ 0x72 ∷ 0x6c ∷ 0x6f ∷ 0x61 ∷ 0x64 ∷ []
command MessageClass.filter_clear_class =
    0x66 ∷ 0x69 ∷ 0x6c ∷ 0x74 ∷ 0x65 ∷ 0x72 ∷ 0x63 ∷ 0x6c ∷ 0x65 ∷ 0x61 ∷ 0x72 ∷ []
command MessageClass.get_addr_class = 0x67 ∷ 0x65 ∷ 0x74 ∷ 0x61 ∷ 0x64 ∷ 0x64 ∷ 0x72 ∷ []
command MessageClass.send_headers_class =
    0x73 ∷ 0x65 ∷ 0x6e ∷ 0x64 ∷ 0x68 ∷ 0x65 ∷ 0x61 ∷ 0x64 ∷ 0x65 ∷ 0x72 ∷ 0x73 ∷ []
command MessageClass.send_addr_v2_class =
    0x73 ∷ 0x65 ∷ 0x6e ∷ 0x64 ∷ 0x61 ∷ 0x64 ∷ 0x64 ∷ 0x72 ∷ 0x76 ∷ 0x32 ∷ []
command MessageClass.ver_ack_class = 0x76 ∷ 0x65 ∷ 0x72 ∷ 0x61 ∷ 0x63 ∷ 0x6b ∷ []
command MessageClass.wtxid_relay_class =
    0x77 ∷ 0x74 ∷ 0x78 ∷ 0x69 ∷ 0x64 ∷ 0x72 ∷ 0x65 ∷ 0x6c ∷ 0x61 ∷ 0x79 ∷ []
command MessageClass.mem_pool_class = 0x6d ∷ 0x65 ∷ 0x6d ∷ 0x70 ∷ 0x6f ∷ 0x6f ∷ 0x6c ∷ []
command MessageClass.get_cfilters_class =
    0x67 ∷ 0x65 ∷ 0x74 ∷ 0x63 ∷ 0x66 ∷ 0x69 ∷ 0x6c ∷ 0x74 ∷ 0x65 ∷ 0x72 ∷ 0x73 ∷ []
command MessageClass.cfilter_class = 0x63 ∷ 0x66 ∷ 0x69 ∷ 0x6c ∷ 0x74 ∷ 0x65 ∷ 0x72 ∷ []
command MessageClass.get_cfheaders_class =
    0x67 ∷ 0x65 ∷ 0x74 ∷ 0x63 ∷ 0x66 ∷ 0x68 ∷ 0x65 ∷ 0x61 ∷ 0x64 ∷ 0x65 ∷ 0x72 ∷ 0x73 ∷ []
command MessageClass.cfheaders_class =
    0x63 ∷ 0x66 ∷ 0x68 ∷ 0x65 ∷ 0x61 ∷ 0x64 ∷ 0x65 ∷ 0x72 ∷ 0x73 ∷ []
command MessageClass.get_cfcheckpt_class =
    0x67 ∷ 0x65 ∷ 0x74 ∷ 0x63 ∷ 0x66 ∷ 0x63 ∷ 0x68 ∷ 0x65 ∷ 0x63 ∷ 0x6b ∷ 0x70 ∷ 0x74 ∷ []
command MessageClass.cfcheckpt_class =
    0x63 ∷ 0x66 ∷ 0x63 ∷ 0x68 ∷ 0x65 ∷ 0x63 ∷ 0x6b ∷ 0x70 ∷ 0x74 ∷ []

abbrev pub classes : List MessageClass
classes =
    MessageClass.ping_class ∷ MessageClass.pong_class ∷ MessageClass.fee_filter_class
    ∷ MessageClass.filter_add_class ∷ MessageClass.filter_load_class
    ∷ MessageClass.filter_clear_class ∷ MessageClass.get_addr_class
    ∷ MessageClass.send_headers_class ∷ MessageClass.send_addr_v2_class ∷ MessageClass.ver_ack_class
    ∷ MessageClass.wtxid_relay_class ∷ MessageClass.mem_pool_class ∷ MessageClass.get_cfilters_class
    ∷ MessageClass.cfilter_class ∷ MessageClass.get_cfheaders_class ∷ MessageClass.cfheaders_class
    ∷ MessageClass.get_cfcheckpt_class ∷ MessageClass.cfcheckpt_class ∷ []

-- `Message.get_registered`, in a registry of the classes above.
abbrev pub registered_in : Bytes → List MessageClass → Option MessageClass
registered_in name [] = none
registered_in name (c ∷ cs) = if bytes_eq (command c) name then some c else registered_in name cs

unfoldable pub get_registered : Bytes → Option MessageClass
get_registered name = registered_in name classes

abbrev pub class_of : Message → MessageClass
class_of (Message.ping _) = MessageClass.ping_class
class_of (Message.pong _) = MessageClass.pong_class
class_of (Message.fee_filter _) = MessageClass.fee_filter_class
class_of (Message.filter_add _) = MessageClass.filter_add_class
class_of (Message.filter_load _ _ _ _) = MessageClass.filter_load_class
class_of Message.filter_clear = MessageClass.filter_clear_class
class_of Message.get_addr = MessageClass.get_addr_class
class_of Message.send_headers = MessageClass.send_headers_class
class_of Message.send_addr_v2 = MessageClass.send_addr_v2_class
class_of Message.ver_ack = MessageClass.ver_ack_class
class_of Message.wtxid_relay = MessageClass.wtxid_relay_class
class_of Message.mem_pool = MessageClass.mem_pool_class
class_of (Message.get_cfilters _ _ _) = MessageClass.get_cfilters_class
class_of (Message.cfilter _ _ _) = MessageClass.cfilter_class
class_of (Message.get_cfheaders _ _ _) = MessageClass.get_cfheaders_class
class_of (Message.cfheaders _ _ _ _) = MessageClass.cfheaders_class
class_of (Message.get_cfcheckpt _ _) = MessageClass.get_cfcheckpt_class
class_of (Message.cfcheckpt _ _ _) = MessageClass.cfcheckpt_class

-- The hash fields.
abbrev pub hashes : Message → List Bytes
hashes (Message.get_cfilters filter_type start_height stop_hash) = stop_hash ∷ []
hashes (Message.cfilter filter_type block_hash filter_data) = block_hash ∷ []
hashes (Message.get_cfheaders filter_type start_height stop_hash) = stop_hash ∷ []
hashes (Message.cfheaders filter_type stop_hash previous_filter_header filter_hashes) =
    stop_hash ∷ previous_filter_header ∷ filter_hashes
hashes (Message.get_cfcheckpt filter_type stop_hash) = stop_hash ∷ []
hashes (Message.cfcheckpt filter_type stop_hash filter_headers) = stop_hash ∷ filter_headers
hashes _ = []

unfoldable pub write_range : ℕ → ℕ → Bytes → Result Bytes
write_range filter_type start_height stop_hash =
    int_to_le 1 filter_type <+> int_to_le 4 start_height <+> ok stop_hash

unfoldable pub write_hashes : List Bytes → Result Bytes
write_hashes hs = write_compact_size (length hs) <+> join_all (map ok hs)

unfoldable pub write_sized : Bytes → Result Bytes
write_sized bs = write_compact_size (length bs) <+> ok bs

unfoldable pub write_filter_load : Bytes → ℕ → ℕ → ℕ → Result Bytes
write_filter_load bitfilter hash_num tweak flags =
    write_compact_size (length bitfilter)
    <+> ok bitfilter
    <+> int_to_le 4 hash_num
    <+> int_to_le 4 tweak
    <+> int_to_le 1 flags

unfoldable pub write_cfilter : ℕ → Bytes → Bytes → Result Bytes
write_cfilter filter_type block_hash filter_data =
    int_to_le 1 filter_type <+> ok block_hash <+> write_sized filter_data

unfoldable pub write_cfheaders : ℕ → Bytes → Bytes → List Bytes → Result Bytes
write_cfheaders filter_type stop_hash previous_filter_header filter_hashes =
    int_to_le 1 filter_type
    <+> ok stop_hash
    <+> ok previous_filter_header
    <+> write_hashes filter_hashes

unfoldable pub write_get_cfcheckpt : ℕ → Bytes → Result Bytes
write_get_cfcheckpt filter_type stop_hash = int_to_le 1 filter_type <+> ok stop_hash

unfoldable pub write_cfcheckpt : ℕ → Bytes → List Bytes → Result Bytes
write_cfcheckpt filter_type stop_hash filter_headers =
    int_to_le 1 filter_type <+> ok stop_hash <+> write_hashes filter_headers

unfoldable pub write_number : ℕ → Result Bytes
write_number n = int_to_le 8 n

-- The method of the message's class; an EmptyMessage has no bytes.
unfoldable pub to_payload : Message → Result Bytes
to_payload (Message.ping nonce) = write_number nonce
to_payload (Message.pong nonce) = write_number nonce
to_payload (Message.fee_filter feerate) = write_number feerate
to_payload (Message.filter_add element) = write_sized element
to_payload (Message.filter_load bitfilter hash_num tweak flags) =
    write_filter_load bitfilter hash_num tweak flags
to_payload (Message.get_cfilters filter_type start_height stop_hash) =
    write_range filter_type start_height stop_hash
to_payload (Message.get_cfheaders filter_type start_height stop_hash) =
    write_range filter_type start_height stop_hash
to_payload (Message.cfilter filter_type block_hash filter_data) =
    write_cfilter filter_type block_hash filter_data
to_payload (Message.cfheaders filter_type stop_hash previous_filter_header filter_hashes) =
    write_cfheaders filter_type stop_hash previous_filter_header filter_hashes
to_payload (Message.get_cfcheckpt filter_type stop_hash) = write_get_cfcheckpt filter_type stop_hash
to_payload (Message.cfcheckpt filter_type stop_hash filter_headers) =
    write_cfcheckpt filter_type stop_hash filter_headers
to_payload _ = ok []
