-- ===== src/Tests/Wire.antt =====
-- core/byte_stream.py and tx/tx.py at concrete inputs.
use bitclone.Base.{◌+◌, ◌*◌, ◌≡◌, ◌↔◌, refl, ok, true, [], ◌∷◌, ◌++◌, length, replicate, arith}
use bitclone.Base.Bytes.{Bytes, int_to_le}
use bitclone.ByteStream.{read_compact_size}
use bitclone.ByteStream.Writer.{write_compact_size, serialize_data}
use bitclone.ByteStream.RoundTrip.{read_compact_size-write_compact_size}
use bitclone.Tx.TxIn
use bitclone.Tx.TxIn.{TxIn}
use bitclone.Tx.TxOut
use bitclone.Tx.TxOut.{TxOut}
use bitclone.Tx.Witness
use bitclone.Tx.Witness.{Witness}
use bitclone.Tx.Utxo
use bitclone.Tx.Utxo.{Utxo}
use bitclone.Tx.Transaction
use bitclone.Tx.Transaction.{
  Tx, to_bytes, segwit_part, get_input_bytes, get_output_bytes, get_txid_preimage,
  get_wtxid_preimage, wu, get_witness_bytes,
}
use bitclone.Tx.Reader
use bitclone.Tx.RoundTrip.{utxo_from_bytes-to_bytes}
use bitclone.Tx.RoundTripTx.{from_bytes-to_bytes}
use bitclone.Tx.Weight.{wu-eq-bip141, wtxid_preimage_order}

read_compact_size-write_compact_size_example :
    read_compact_size ((0xfd ∷ 0xfd ∷ 0 ∷ []) ++ (7 ∷ [])) ≡ ok (0xfd, 7 ∷ [])
unfolding write_compact_size int_to_le
read_compact_size-write_compact_size_example =
    read_compact_size-write_compact_size 0xfd (0xfd ∷ 0xfd ∷ 0 ∷ []) (7 ∷ []) refl

abbrev coin : Utxo
coin = record {
  outpoint = replicate 36 5;
  amount = 5000;
  scriptpubkey = 0x51 ∷ [];
  block_height = 300;
  is_coinbase = true;
}

abbrev coin_bytes : Bytes
coin_bytes =
    replicate 36 5 ++ (0x88 ∷ 0x13 ∷ 0 ∷ 0 ∷ 0 ∷ 0 ∷ 0 ∷ 0 ∷ 1 ∷ 0x51 ∷ 0x2c ∷ 1 ∷ 0 ∷ 0 ∷ 1 ∷ [])

utxo_from_bytes-to_bytes_example : Utxo.from_bytes (coin_bytes ++ (9 ∷ [])) ≡ ok (coin, 9 ∷ [])
unfolding Utxo.to_bytes write_compact_size int_to_le
utxo_from_bytes-to_bytes_example = utxo_from_bytes-to_bytes coin coin_bytes (9 ∷ []) refl refl

abbrev spend : Tx
spend = record {
  inputs = record { txid = replicate 32 5; vout = 1; scriptsig = []; sequence = 0xffff_ffff } ∷ [];
  outputs = record { amount = 300; scriptpubkey = 0x51 ∷ [] } ∷ [];
  witness = record { items = (1 ∷ 2 ∷ []) ∷ [] } ∷ [];
  locktime = 0;
  version = 2;
}

abbrev inputs_bytes : Bytes
inputs_bytes = 1 ∷ (replicate 32 5 ++ (1 ∷ 0 ∷ 0 ∷ 0 ∷ 0 ∷ 0xff ∷ 0xff ∷ 0xff ∷ 0xff ∷ []))

abbrev outputs_bytes : Bytes
outputs_bytes = 1 ∷ 0x2c ∷ 1 ∷ 0 ∷ 0 ∷ 0 ∷ 0 ∷ 0 ∷ 0 ∷ 1 ∷ 0x51 ∷ []

abbrev spend_bytes : Bytes
spend_bytes =
    (2 ∷ 0 ∷ 0 ∷ 0 ∷ 0 ∷ 1 ∷ inputs_bytes)
    ++ (outputs_bytes ++ (1 ∷ 2 ∷ 1 ∷ 2 ∷ 0 ∷ 0 ∷ 0 ∷ 0 ∷ []))

abbrev stripped_bytes : Bytes
stripped_bytes = (2 ∷ 0 ∷ 0 ∷ 0 ∷ inputs_bytes) ++ (outputs_bytes ++ (0 ∷ 0 ∷ 0 ∷ 0 ∷ []))

spend_serializes : to_bytes spend ≡ ok spend_bytes
unfolding Transaction.to_bytes Transaction.is_segwit segwit_part get_input_bytes get_output_bytes
    get_witness_bytes TxIn.to_bytes TxOut.to_bytes Witness.to_bytes serialize_data
    write_compact_size int_to_le
spend_serializes = refl

spend_strips : get_txid_preimage spend ≡ ok stripped_bytes
unfolding get_txid_preimage Transaction.is_segwit segwit_part get_input_bytes get_output_bytes
    get_witness_bytes TxIn.to_bytes TxOut.to_bytes Witness.to_bytes serialize_data
    write_compact_size int_to_le
spend_strips = refl

spend_witness : get_witness_bytes spend ≡ ok (1 ∷ 2 ∷ 1 ∷ 2 ∷ [])
unfolding get_witness_bytes Witness.to_bytes serialize_data write_compact_size int_to_le
spend_witness = refl

wu-eq-bip141_example : wu spend ≡ ok (3 * length stripped_bytes + length spend_bytes)
wu-eq-bip141_example = wu-eq-bip141 spend stripped_bytes spend_bytes spend_strips spend_serializes

abbrev witness_bytes : Bytes
witness_bytes = 1 ∷ 2 ∷ 1 ∷ 2 ∷ []

abbrev locktime_bytes : Bytes
locktime_bytes = 0 ∷ 0 ∷ 0 ∷ 0 ∷ []

wtxid_preimage_order_example :
    (get_wtxid_preimage spend ≡ ok spend_bytes)
    ↔ (witness_bytes ++ locktime_bytes ≡ locktime_bytes ++ witness_bytes)
unfolding Transaction.is_segwit int_to_le
wtxid_preimage_order_example =
    wtxid_preimage_order spend spend_bytes witness_bytes locktime_bytes refl spend_serializes
      spend_witness refl

from_bytes-to_bytes_example : Reader.from_bytes (spend_bytes ++ (9 ∷ [])) ≡ ok (spend, 9 ∷ [])
from_bytes-to_bytes_example =
    from_bytes-to_bytes spend spend_bytes (9 ∷ []) (refl, tt) (ground arith) (λ _. refl)
      spend_serializes
