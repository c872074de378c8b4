-- ===== src/Tests/Messages.antt =====
-- network/messages/ at concrete inputs.
use bitclone.Base.{◌≡◌, refl, ok, [], ◌∷◌, ◌++◌, some, replicate, arith}
use bitclone.Base.Bytes.{Bytes, int_to_le}
use bitclone.ByteStream.{read_compact_size}
use bitclone.ByteStream.Writer.{write_compact_size, serialize_data}
use bitclone.ByteStream.RoundTrip.{compact_size-RoundTrips}
use bitclone.Tx.TxIn
use bitclone.Tx.TxOut
use bitclone.Tx.Transaction
use bitclone.Network.Framing
use bitclone.Network.Framing.{write_message, get_header, is_valid, encode_command}
use bitclone.Network.Framing.Reader.{read_message}
use bitclone.Network.Framing.RoundTrip.{read_message-write_message}
use bitclone.Network.Payloads.{
  HeaderAndShortIds, BlockTxnsRequest, write_header_and_short_ids, write_prefilled_tx,
  write_prefilled_txs, write_block_txns_request, write_difference, encode_from,
}
use bitclone.Network.Payloads.Reader.{read_header_and_short_ids, read_block_txns_request}
use bitclone.Network.Payloads.Messages.{
  cmpctblock_command, getblocktxn_command, cmpctblock_message, getblocktxn_message,
}
use bitclone.Network.Messages.{
  Message, MessageClass, command, class_of, to_payload, get_registered, write_cfcheckpt,
  write_hashes,
}
use bitclone.Network.Messages.Reader.{from_payload}
use bitclone.Network.Messages.RoundTrip.{message_is_read_back}
use bitclone.Tests.Blocks.{short_hash, coinbase, coinbase_bytes}

abbrev mainnet : Bytes
mainnet = 0xf9 ∷ 0xbe ∷ 0xb4 ∷ 0xd9 ∷ []

-- "ping", around a CompactSize.
abbrev ping : Bytes
ping = 0x70 ∷ 0x69 ∷ 0x6e ∷ 0x67 ∷ []

abbrev ping_message : Bytes
ping_message = mainnet ++ (ping ++ (replicate 8 0 ++ (1 ∷ 0 ∷ 0 ∷ 0 ∷ 7 ∷ 0 ∷ 0 ∷ 0 ∷ 7 ∷ [])))

ping_written : write_message short_hash ping mainnet (write_compact_size 7) ≡ ok ping_message
unfolding write_message get_header Framing.new is_valid Framing.to_bytes encode_command
    write_compact_size int_to_le
ping_written = refl

read_message-write_message_example :
    read_message short_hash ping read_compact_size (ping_message ++ (9 ∷ []))
    ≡ ok ((7, mainnet), 9 ∷ [])
read_message-write_message_example =
    read_message-write_message short_hash ping mainnet (write_compact_size 7) read_compact_size 7
      ping_message (9 ∷ []) refl (compact_size-RoundTrips 7) ping_written

abbrev compact : HeaderAndShortIds
compact = record {
  header = replicate 80 0;
  nonce = 5;
  short_ids = replicate 6 8 ∷ [];
  prefilled_txs = record { block_index = 2; tx = coinbase } ∷ [];
}

abbrev compact_message : Bytes
compact_message =
    mainnet
    ++ (cmpctblock_command
        ++ ((0 ∷ 0 ∷ 160 ∷ 0 ∷ 0 ∷ 0 ∷ 0 ∷ 0 ∷ 0 ∷ 0 ∷ [])
            ++ (replicate 80 0
                ++ ((5 ∷ 0 ∷ 0 ∷ 0 ∷ 0 ∷ 0 ∷ 0 ∷ 0 ∷ 1 ∷ 8 ∷ 8 ∷ 8 ∷ 8 ∷ 8 ∷ 8 ∷ 1 ∷ 2 ∷ [])
                    ++ coinbase_bytes))))

compact_written :
    write_message short_hash cmpctblock_command mainnet (write_header_and_short_ids compact)
    ≡ ok compact_message
unfolding write_message get_header Framing.new is_valid Framing.to_bytes encode_command
    write_header_and_short_ids write_prefilled_tx write_prefilled_txs write_compact_size int_to_le
    serialize_data Transaction.is_segwit Transaction.to_bytes Transaction.segwit_part
    Transaction.get_input_bytes Transaction.get_output_bytes Transaction.get_witness_bytes
    TxIn.to_bytes TxOut.to_bytes
compact_written = refl

cmpctblock_message_example :
    read_message short_hash cmpctblock_command read_header_and_short_ids
      (compact_message ++ (9 ∷ []))
    ≡ ok ((compact, mainnet), 9 ∷ [])
unfolding Transaction.is_segwit
cmpctblock_message_example =
    cmpctblock_message short_hash mainnet compact compact_message (9 ∷ []) refl (refl, tt)
      (((refl, tt), ground arith, ground arith), tt) compact_written

abbrev request : BlockTxnsRequest
request = record { block_hash = replicate 32 3; indices = 1 ∷ 4 ∷ 5 ∷ [] }

abbrev request_message : Bytes
request_message =
    mainnet
    ++ (getblocktxn_command
        ++ ((0 ∷ 36 ∷ 0 ∷ 0 ∷ 0 ∷ 3 ∷ 3 ∷ 3 ∷ 3 ∷ []) ++ (replicate 32 3 ++ (3 ∷ 1 ∷ 2 ∷ 0 ∷ []))))

request_written :
    write_message short_hash getblocktxn_command mainnet (write_block_txns_request request)
    ≡ ok request_message
unfolding write_message get_header Framing.new is_valid Framing.to_bytes encode_command
    write_block_txns_request write_difference encode_from write_compact_size int_to_le
request_written = refl

getblocktxn_message_example :
    read_message short_hash getblocktxn_command read_block_txns_request
      (request_message ++ (9 ∷ []))
    ≡ ok ((request, mainnet), 9 ∷ [])
getblocktxn_message_example =
    getblocktxn_message short_hash mainnet request request_message (9 ∷ []) refl request_written

-- A `cfcheckpt` message with one header.
abbrev checkpoints : Message
checkpoints = Message.cfcheckpt 0 (replicate 32 3) (replicate 32 5 ∷ [])

abbrev checkpoints_message : Bytes
checkpoints_message =
    mainnet
    ++ ((0x63 ∷ 0x66 ∷ 0x63 ∷ 0x68 ∷ 0x65 ∷ 0x63 ∷ 0x6b ∷ 0x70 ∷ 0x74 ∷ 0 ∷ 0 ∷ 0 ∷ [])
        ++ ((66 ∷ 0 ∷ 0 ∷ 0 ∷ 0 ∷ 3 ∷ 3 ∷ 3 ∷ 0 ∷ []) ++ (replicate 32 3 ++ (1 ∷ replicate 32 5))))

checkpoints_written :
    write_message short_hash (command (class_of checkpoints)) mainnet (to_payload checkpoints)
    ≡ ok checkpoints_message
unfolding command write_message get_header Framing.new is_valid Framing.to_bytes encode_command
    to_payload write_cfcheckpt write_hashes write_compact_size int_to_le
checkpoints_written = refl

message_is_read_back_example :
    (get_registered (command MessageClass.cfcheckpt_class) ≡ some MessageClass.cfcheckpt_class)
    × (read_message short_hash
          (command MessageClass.cfcheckpt_class)
          (from_payload MessageClass.cfcheckpt_class)
          (checkpoints_message ++ (9 ∷ []))
        ≡ ok ((checkpoints, mainnet), 9 ∷ []))
message_is_read_back_example =
    message_is_read_back short_hash checkpoints mainnet checkpoints_message (9 ∷ [])
      (refl, (refl, tt)) checkpoints_written
