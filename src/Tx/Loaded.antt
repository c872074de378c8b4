-- ===== src/Tx/Loaded.antt =====
-- tx/tx.py, class LoadedTx: a transaction with the outputs that its inputs spend.
use bitclone.Base.{
  ℕ, ◌+◌, ◌-◌, Result, Error, ok, err, ◌>>=◌, ◌>>◌, List, [], ◌∷◌, length, ltb, ◌==◌, if◌then◌else◌,
}
use bitclone.Base.Bytes.{bytes_eq}
use bitclone.Tx.TxIn
use bitclone.Tx.TxIn.{TxIn}
use bitclone.Tx.TxOut.{TxOut}
use bitclone.Tx.Utxo.{Utxo}
use bitclone.Tx.Transaction.{Tx}

pub record LoadedTx : Type 0 where
  pub tx : Tx
  pub utxos : List Utxo

-- The loop of the constructor over the zipped inputs and outputs.
unfoldable pub check_outpoints : List TxIn → List Utxo → Result {0} Unit
check_outpoints [] us = ok tt
check_outpoints (i ∷ is) [] = ok tt
check_outpoints (i ∷ is) (u ∷ us) = do
  outpoint ← TxIn.outpoint i
  if bytes_eq u.outpoint outpoint then check_outpoints is us else err Error.value_error

-- The constructor, of a list of outputs.
unfoldable pub load : Tx → List Utxo → Result LoadedTx
load tx utxos =
    if length utxos == length tx.inputs
    then check_outpoints tx.inputs utxos >> ok (record { tx = tx; utxos = utxos })
    else err Error.value_error

unfoldable pub sum_utxos : List Utxo → ℕ
sum_utxos [] = 0
sum_utxos (u ∷ us) = u.amount + sum_utxos us

unfoldable pub sum_outputs : List TxOut → ℕ
sum_outputs [] = 0
sum_outputs (o ∷ os) = o.amount + sum_outputs os

unfoldable pub input_total : LoadedTx → ℕ
input_total loaded_tx = sum_utxos loaded_tx.utxos

unfoldable pub output_total : LoadedTx → ℕ
output_total loaded_tx = sum_outputs loaded_tx.tx.outputs

-- A negative fee raises.
unfoldable pub fee : LoadedTx → Result ℕ
fee loaded_tx =
    if ltb (input_total loaded_tx) (output_total loaded_tx)
    then err Error.transaction_error
    else ok (input_total loaded_tx - output_total loaded_tx)
