-- ===== src/Tx/Transaction.antt =====
-- tx/tx.py, class Tx: a transaction as a value. What the code caches of it is computed here.
use bitclone.Base.{
  ℕ, ◌+◌, ◌*◌, ◌/◌, Result, Error, ok, err, ◌>>=◌, Bool, false, ◌&&◌, List, [], ◌∷◌, ◌++◌, length,
  map, replicate, ltb, ◌==◌, if◌then◌else◌, suc,
}
use bitclone.Base.Bytes.{Bytes, int_to_le, bytes_eq}
use bitclone.ByteStream.Writer.{◌<+>◌, write_compact_size, join_all, total_length}
use bitclone.Formats.TxSize
use bitclone.Tx.TxIn
use bitclone.Tx.TxIn.{TxIn}
use bitclone.Tx.TxOut
use bitclone.Tx.TxOut.{TxOut}
use bitclone.Tx.Witness
use bitclone.Tx.Witness.{Witness}
use bitclone.Tx.Utxo.{Utxo}

pub record Tx : Type 0 where
  pub inputs : List TxIn
  pub outputs : List TxOut
  pub witness : List Witness
  pub locktime : ℕ
  pub version : ℕ

unfoldable pub is_segwit : Tx → Bool
is_segwit tx = ltb 0 (length tx.witness)

-- `truth_list` is evaluated whole, so a transaction without inputs raises IndexError.
unfoldable pub is_coinbase : Tx → Result Bool
is_coinbase tx = elim tx.inputs [
  | [] ↦ err Error.index_error
  | i ∷ is ↦ ok (
      (suc (length is) == 1)
      && bytes_eq i.txid (replicate TxSize.txid 0)
      && (i.vout == 0xffff_ffff))
]

unfoldable pub get_input_bytes : Tx → Result Bytes
get_input_bytes tx =
    write_compact_size (length tx.inputs) <+> join_all (map TxIn.to_bytes tx.inputs)

unfoldable pub get_output_bytes : Tx → Result Bytes
get_output_bytes tx =
    write_compact_size (length tx.outputs) <+> join_all (map TxOut.to_bytes tx.outputs)

unfoldable pub get_witness_bytes : Tx → Result Bytes
get_witness_bytes tx = join_all (map Witness.to_bytes tx.witness)

-- The parts that `to_bytes` appends only to a SegWit transaction.
unfoldable pub segwit_part : Tx → Result Bytes → Result Bytes
segwit_part tx w = if is_segwit tx then w else ok []

abbrev pub marker_flag : Bytes
marker_flag = 0 ∷ 1 ∷ []

unfoldable pub to_bytes : Tx → Result Bytes
to_bytes tx =
    int_to_le TxSize.version tx.version
    <+> segwit_part tx (ok marker_flag)
    <+> get_input_bytes tx
    <+> get_output_bytes tx
    <+> segwit_part tx (get_witness_bytes tx)
    <+> int_to_le TxSize.locktime tx.locktime

unfoldable pub get_txid_preimage : Tx → Result Bytes
get_txid_preimage tx =
    if is_segwit tx
    then int_to_le TxSize.version tx.version
      <+> get_input_bytes tx
      <+> get_output_bytes tx
      <+> int_to_le TxSize.locktime tx.locktime
    else to_bytes tx

-- The witness stands behind the lock time here.
unfoldable pub get_wtxid_preimage : Tx → Result Bytes
get_wtxid_preimage tx =
    if is_segwit tx
    then int_to_le TxSize.version tx.version
      <+> ok marker_flag
      <+> get_input_bytes tx
      <+> get_output_bytes tx
      <+> int_to_le TxSize.locktime tx.locktime
      <+> get_witness_bytes tx
    else to_bytes tx

-- The property `wu`: the weight of the transaction.
unfoldable pub wu : Tx → Result ℕ
wu tx =
    if is_segwit tx
    then (do
      input_length ← total_length (map TxIn.to_bytes tx.inputs)
      output_length ← total_length (map TxOut.to_bytes tx.outputs)
      witness_length ← total_length (map Witness.to_bytes tx.witness)
      input_num ← write_compact_size (length tx.inputs)
      output_num ← write_compact_size (length tx.outputs)
      ok (
          4
            * (TxSize.version
                + length input_num
                + input_length
                + length output_num
                + output_length
                + TxSize.locktime)
          + (witness_length + TxSize.markerflag)))
    else (do bs ← to_bytes tx; ok (length bs * 4))

unfoldable pub vbytes : Tx → Result ℕ
vbytes tx = do w ← wu tx; ok ((w + 3) / 4)

-- `hash256` is double SHA-256, which hashlib computes.
module _ (hash256 : Bytes → Bytes) where
  unfoldable pub txid : Tx → Result Bytes
  txid tx = do bs ← get_txid_preimage tx; ok (hash256 bs)

  unfoldable pub wtxid : Tx → Result Bytes
  wtxid tx = do bs ← get_wtxid_preimage tx; ok (hash256 bs)

-- The loop of `get_utxo_list` from the output `vout` on.
unfoldable pub utxos_from : Bytes → ℕ → ℕ → List TxOut → Result (List Utxo)
utxos_from txid block_height vout [] = ok []
utxos_from txid block_height vout (o ∷ os) = do
  index ← int_to_le TxSize.vout vout
  rest ← utxos_from txid block_height (suc vout) os
  ok (
      record {
        outpoint = txid ++ index;
        amount = o.amount;
        scriptpubkey = o.scriptpubkey;
        block_height = block_height;
        is_coinbase = false;
      }
      ∷ rest)
